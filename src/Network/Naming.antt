-- ===== src/Network/Naming.antt =====
-- Which network a Create or a Remove means (internal/service/network).
use Prim.Native.String.{◌++◌}
use text.Mathlib.TextLemmas.{append_assoc}
use finch_daemon.Prelude.{
  List, ◌++◌ as ◌⧺◌, All, ◌⊎◌, Option, ◌==◌, eq_iff, String, ◌≡◌, refl, ◌∙◌, ap, sym, subst, Bool,
  inl, inr, true, false, none, some, [], ◌∷◌, arith, Bool-cases, Option-cases,
}
use finch_daemon.Act.{Result, ok, Act, Result-cases}
use finch_daemon.Go.Maps.{Map, lookup}
use finch_daemon.Go.Strings.{cut_prefix, is_empty, cut_prefix-eq-some}
use finch_daemon.Network.Service.{
  NetworkConfig, NetworkCreateRequest, NetworkBackend, matches_id, filtered, get_network,
  existing_response, create_begin, create, remove, remove_locked, handle_network_labels,
  or_explained, the_network, has_prefix, id_matches, check_removal,
}

net-inj : {x y : NetworkConfig} → Result.ok x ≡ ok y → x ≡ y
net-inj h = cc h

module _ {W : Type 0} (b : NetworkBackend W) where
  begins_matches :
      (name id rest : String) (n : NetworkConfig)
      → n.nerdctl_id ≡ some id
      → cut_prefix name id ≡ some rest
      → matches_id name n ≡ true
  unfolding matches_id
  begins_matches name id rest n named begins = ground (arith, named, begins)

  get_network-only :
      (name : String) (w : W) (n : NetworkConfig)
      → b.networks w ≡ ok (n ∷ [])
      → matches_id name n ≡ true
      → get_network b name w ≡ ok n
  unfolding get_network filtered
  get_network-only name w n listed matches = rw (listed, matches) refl

  begins_at :
      (request : NetworkCreateRequest) (w : W) (n : NetworkConfig) (id rest : String)
      → b.networks w ≡ ok (n ∷ [])
      → n.nerdctl_id ≡ some id
      → cut_prefix request.name id ≡ some rest
      → create_begin b request w ≡ inl (existing_response request.name (some id))
  unfolding create_begin
  begins_at request w n id rest listed named begins =
      let matches = begins_matches request.name id rest n named begins in
      rw (create_begin, get_network-only request.name w n listed matches, named) refl

  -- A Create whose name begins the ID of the only network there is succeeds and changes nothing: it
  -- answers with the ID of the other network, and warns that a network of that name exists.
  pub create_prefix :
      (request : NetworkCreateRequest) (w : W) (n : NetworkConfig) (id rest : String)
      → b.networks w ≡ ok (n ∷ [])
      → n.nerdctl_id ≡ some id
      → cut_prefix request.name id ≡ some rest
      → create b request w
        ≡ some (
          ok (record {
            id = id;
            warning =
                "Network with name '"
                ++ (request.name ++ ("' (id: " ++ (id ++ ") already exists")));
          }),
          w,
        )
  unfolding create existing_response
  create_prefix request w n id rest listed named begins =
      rw (create, begins_at request w n id rest listed named begins) refl

  -- The name or ID names the network: it is its name, or begins its ID after "sha256:" or at once.
  abbrev pub IsNamed : String → NetworkConfig → Type 0
  IsNamed network_id n =
      (n.name ≡ network_id)
      ⊎ ((id : String) × (rest : String) × (n.nerdctl_id ≡ some id)
          × ((id ≡ "sha256:" ++ (network_id ++ rest)) ⊎ (id ≡ network_id ++ rest)))

  has_prefix-begins : (p s : String) → has_prefix p s ≡ true → (rest : String) × (s ≡ p ++ rest)
  has_prefix-begins p s h = elim (Option-cases (cut_prefix p s)) [
    | inl none_ ↦ absurd (ground arith)
    | inr (rest, found) ↦ (rest, cut_prefix-eq-some p s rest found)
  ]

  id_matches-begins :
      (network_id : String) (n : NetworkConfig) (id : Option String)
      → n.nerdctl_id ≡ id
      → id_matches network_id id ≡ true
      → IsNamed network_id n
  id_matches-begins network_id n none at h = absurd (cc h)
  id_matches-begins network_id n (some id) at h =
      elim (Bool-cases (has_prefix ("sha256:" ++ network_id) id)) [
        | inl long ↦
            let (rest, same) = has_prefix-begins ("sha256:" ++ network_id) id long in
            inr (id, rest, at, inl (same ∙ append_assoc "sha256:" network_id rest))
        | inr not_long ↦
            let (rest, same) = has_prefix-begins network_id id (ground arith) in
            inr (id, rest, at, inr same)
      ]

  matches_id-IsNamed :
      (network_id : String) (n : NetworkConfig)
      → matches_id network_id n ≡ true
      → IsNamed network_id n
  unfolding matches_id
  matches_id-IsNamed network_id n h = elim (Bool-cases (n.name == network_id)) [
    | inl same ↦ inl ((eq_iff n.name network_id).0 same)
    | inr other ↦ id_matches-begins network_id n n.nerdctl_id refl (ground arith)
  ]

  -- The network is the only one of the list that the name or ID matches.
  abbrev pub IsOnly : String → NetworkConfig → List NetworkConfig → Type 0
  IsOnly network_id n ns =
      (before : List NetworkConfig) × (after : List NetworkConfig) × (ns ≡ before ⧺ n ∷ after)
      × All (λ m. matches_id network_id m ≡ false) (before ⧺ after)
      × IsNamed network_id n

  filtered-none :
      (p : NetworkConfig → Bool) (ns : List NetworkConfig)
      → filtered p ns ≡ []
      → All (λ m. p m ≡ false) ns
  unfolding filtered
  filtered-none p [] h = tt
  filtered-none p (m ∷ ns) h = elim (Bool-cases (p m)) [
    | inl yes_ ↦ absurd (ground arith)
    | inr no_ ↦ (no_, filtered-none p ns (ground arith))
  ]

  abbrev IsSplit : (NetworkConfig → Bool) → NetworkConfig → List NetworkConfig → Type 0
  IsSplit p n ns =
      (before : List NetworkConfig) × (after : List NetworkConfig) × (ns ≡ before ⧺ n ∷ after)
      × All (λ m. p m ≡ false) (before ⧺ after)
      × (p n ≡ true)

  list-inj :
      {m n : NetworkConfig} {ms ns : List NetworkConfig}
      → ◌≡◌ {A = List NetworkConfig} (m ∷ ms) (n ∷ ns)
      → (m ≡ n) × (ms ≡ ns)
  list-inj h = (cc h, cc h)

  filtered-IsSplit :
      (p : NetworkConfig → Bool) (n : NetworkConfig) (ns : List NetworkConfig)
      → filtered p ns ≡ n ∷ []
      → IsSplit p n ns
  unfolding filtered
  filtered-IsSplit p n [] h = absurd (cc h)
  filtered-IsSplit p n (m ∷ ns) h = elim (Bool-cases (p m)) [
    | inl yes_ ↦
        let kept : filtered p (m ∷ ns) ≡ m ∷ filtered p ns = rw yes_ refl in
        let (same, none_) = list-inj (sym kept ∙ h) in
        subst (λ k. IsSplit p k (m ∷ ns)) same ([], ns, refl, filtered-none p ns none_, yes_)
    | inr no_ ↦
        let (before, after, split_, others, is) = filtered-IsSplit p n ns (ground arith) in
        (m ∷ before, after, ap (λ xs. m ∷ xs) split_, (no_, others), is)
  ]

  the_network-only :
      (network_id : String) (ns : List NetworkConfig) (n : NetworkConfig)
      → the_network network_id ns ≡ ok n
      → ns ≡ n ∷ []
  the_network-only network_id [] n h = absurd (cc h)
  the_network-only network_id (m ∷ []) n h = ap (λ x. x ∷ []) (net-inj h)
  the_network-only network_id (m ∷ k ∷ ns) n h = absurd (cc h)

  get_network-IsOnly :
      (network_id : String) (w : W) (n : NetworkConfig)
      → get_network b network_id w ≡ ok n
      → (ns : List NetworkConfig) × (b.networks w ≡ ok ns) × IsOnly network_id n ns
  unfolding get_network
  get_network-IsOnly network_id w n h = elim (Result-cases (b.networks w)) [
    | inr (e, failed) ↦ absurd (ground arith)
    | inl (ns, listed) ↦
        let matching = filtered (matches_id network_id) ns in
        let (before, after, split_, others, is) =
          filtered-IsSplit (matches_id network_id) n ns
            (the_network-only network_id matching n (ground arith)) in
        (ns, listed, (before, after, split_, others, matches_id-IsNamed network_id n is))
  ]

  -- What is known of a network that may be removed.
  abbrev pub IsRemovable : String → W → NetworkConfig → Type 0
  IsRemovable network_id w n =
      (ns : List NetworkConfig) × (info : Map String) × (b.networks w ≡ ok ns)
      × IsOnly network_id n ns
      × (b.used_network_info w ≡ ok info)
      × (lookup n.name info ≡ none)
      × (is_empty n.file ≡ false)

  check_removal-IsRemovable :
      (network_id : String) (w : W) (n : NetworkConfig)
      → (check_removal b network_id w).0 ≡ ok n
      → IsRemovable network_id w n
  unfolding check_removal
  check_removal-IsRemovable network_id w n h = elim (Result-cases (get_network b network_id w)) [
    | inr (e, bad) ↦ absurd (ground arith)
    | inl (m, named) ↦ elim (Result-cases (b.used_network_info w)) [
      | inr (e, bad) ↦ absurd (ground arith)
      | inl (info, known) ↦ elim (Option-cases (lookup m.name info)) [
        | inr (user, used_) ↦ absurd (ground arith)
        | inl unused ↦ elim (Bool-cases (is_empty m.file)) [
          | inl predefined ↦ absurd (ground arith)
          | inr file ↦
              let same : m ≡ n = net-inj (ground arith) in
              let (ns, listed, only) = get_network-IsOnly network_id w m named in
              subst (IsRemovable network_id w) same (ns, info, listed, only, known, unused, file)
        ]
      ]
    ]
  ]

  -- The network is handed to nerdctl's RemoveNetwork, which succeeds and leaves the world `w'`.
  abbrev pub IsRemovedTo : NetworkConfig → W → Type 0
  IsRemovedTo n w' = (w : W) × ((b.remove_network n w).0 ≡ ok tt) × ((b.remove_network n w).1 ≡ w')

  or_explained-eq-ok :
      (text : String) (m : Act W (Unit {0})) (w : W)
      → (or_explained b text m w).0 ≡ ok tt
      → ((m w).0 ≡ ok tt) × ((or_explained b text m w).1 ≡ (m w).1)
  or_explained-eq-ok text m w h = elim (Result-cases (m w).0) [
    | inr (e, failed) ↦ absurd (ground arith)
    | inl (tt, done) ↦ (done, ground arith)
  ]

  remove_locked-IsRemovedTo :
      (n : NetworkConfig) (w w' : W)
      → (remove_locked b n w).0 ≡ ok tt
      → (remove_locked b n w).1 ≡ w'
      → IsRemovedTo n w'
  unfolding remove_locked
  remove_locked-IsRemovedTo n w w' h at =
      let labels =
        or_explained b "failed to handle nerdctl label: "
          (handle_network_labels b n.nerdctl_labels n) w in
      elim (Result-cases labels.0) [
        | inr (e, failed) ↦ absurd (ground arith)
        | inl (tt, handled) ↦
            let (done, left) =
              or_explained-eq-ok "failed to remove network: " (b.remove_network n) labels.1
                (ground arith) in
            (labels.1, done, sym left ∙ ground arith)
      ]

  -- A Remove that succeeds has removed a network: the only one of the list that the given name or ID
  -- matches, which it names, which no container uses, and which is not pre-defined.
  pub remove-IsRemoved :
      (network_id : String) (w : W)
      → (remove b network_id w).0 ≡ ok tt
      → (n : NetworkConfig) × IsRemovable network_id w n × IsRemovedTo n (remove b network_id w).1
  unfolding remove
  remove-IsRemoved network_id w h = elim (Result-cases (check_removal b network_id w).0) [
    | inr (e, failed) ↦ absurd (ground arith)
    | inl (n, checked) ↦ (
      n,
      check_removal-IsRemovable network_id w n checked,
      remove_locked-IsRemovedTo n (check_removal b network_id w).1 (remove b network_id w).1
          (ground arith) (ground arith),
    )
  ]

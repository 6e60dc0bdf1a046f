-- ===== src/Network/Connect/Rollback.antt =====
-- What is left of a connection that fails (internal/service/network/connect.go).
use finch_daemon.Prelude.{
  ℕ, ◌+◌, ◌<◌, ◌^◌, ◌≡◌, ◌⊎◌, refl, sym, ap, ◌∙◌, subst, inl, inr, String, false, none, some, List,
  [], ◌∷◌, ◌++◌, length, length-append, ◌==◌, arith,
}
use finch_daemon.Prelude.Int.{ℤ, sub_ℕ}
use finch_daemon.Errors.{GoError}
use finch_daemon.Act.{Result, ok, err, Result-cases, reads, pure, ◌>>=◌, ◌>>◌}
use finch_daemon.Go.Decimal.{sprint}
use finch_daemon.Go.Maps.{Map, lookup, insert, lookup-same, lookup-other}
use finch_daemon.Go.Strconv.{parse_int, parsed, parse_int-IsInt64, previous-next}
use finch_daemon.Containers.Backend.{running, paused, Container}
use finch_daemon.Network.Service.{NetworkConfig}
use finch_daemon.Network.Connect.{
  ConnectBackend, Added, network_index_label, text_of, next, previous, new_index, atoi,
  not_connected, verify_network_config, labelled, add_network_config, delete_net, connect_network,
  connect_live, connect, get_container_status,
}

previous-last : (n : ℕ) → n < 2 ^ 63 → previous (sub_ℕ (n + 1) 1) ≡ sub_ℕ n 1
previous-last n small = ground arith

ok-inj : {x y : ℤ} → Result.ok x ≡ ok y → x ≡ y
ok-inj h = cc h

module _ {W : Type 0} (b : ConnectBackend W) (net : NetworkConfig) (c : Container) where
  -- What is known of an addition that succeeded, from the labels and networks before it.
  abbrev IsAdded : Map String → List String → Added b → Type 0
  IsAdded opts ns a =
      (json_data : String) × (b.marshal (ns ++ net.name ∷ []) ≡ ok json_data)
      × (new_index b (insert b.networks_label json_data opts) (ns ++ net.name ∷ []) ≡ ok a.index)
      × (a.opts ≡ labelled b a.index json_data opts)
      × (a.networks_before ≡ ns)

  abbrev made : Map String → List String → b.Spec → ℤ → String → Added b
  made opts ns spec index json_data = record {
    opts = labelled b index json_data opts;
    spec_ = b.annotate b.networks_label json_data spec;
    networks_before = ns;
    index = index;
  }

  the_ok : {x y : Added b} → Result.ok x ≡ ok y → x ≡ y
  the_ok h = cc h

  -- The last steps: the index and the update.
  abbrev finish : W → Map String → List String → b.Spec → String → Result ℤ → Result (Added b) × W
  finish w opts ns spec json_data r =
      (reads (λ v. r) >>= λ index.
      b.update c (labelled b index json_data opts) (b.annotate b.networks_label json_data spec)
      >> pure (made opts ns spec index json_data))
        w

  finish-IsAdded :
      (w : W) (opts : Map String) (ns : List String) (a : Added b) (spec : b.Spec)
      (json_data : String)
      → b.marshal (ns ++ net.name ∷ []) ≡ ok json_data
      → (finish w opts ns spec json_data
          (new_index b (insert b.networks_label json_data opts) (ns ++ net.name ∷ []))).0
        ≡ ok a
      → IsAdded opts ns a
  finish-IsAdded w opts ns a spec json_data encoded h =
      let index_ = new_index b (insert b.networks_label json_data opts) (ns ++ net.name ∷ []) in
      elim (Result-cases index_) [
        | inr (e, bad) ↦ absurd (ground arith)
        | inl (index, indexed) ↦
            let updated =
              b.update c (labelled b index json_data opts)
                (b.annotate b.networks_label json_data spec) w in
            elim (Result-cases updated.0) [
              | inr (e, bad) ↦ absurd (ground arith)
              | inl (t, done) ↦
                  let same : made opts ns spec index json_data ≡ a = the_ok (ground arith) in
                  subst (IsAdded opts ns) same (json_data, encoded, indexed, refl, refl)
            ]
      ]

  add_network_config-IsAdded :
      (w : W) (opts : Map String) (ns : List String) (a : Added b)
      → b.labels c w ≡ ok opts
      → b.unmarshal (text_of (lookup b.networks_label opts)) ≡ ok ns
      → (add_network_config b net c w).0 ≡ ok a
      → IsAdded opts ns a
  unfolding add_network_config
  add_network_config-IsAdded w opts ns a labels_ decoded h =
      let mac = text_of (lookup b.mac_address_label opts) in
      elim (Result-cases (not_connected b net c ns)) [
        | inr (e, bad) ↦ absurd (ground arith)
        | inl (t1, fresh_) ↦ elim (Result-cases (verify_network_config b net ns mac)) [
          | inr (e, bad) ↦ absurd (ground arith)
          | inl (t2, verified) ↦ elim (Result-cases (b.spec c w)) [
            | inr (e, bad) ↦ absurd (ground arith)
            | inl (spec, has_spec) ↦ elim (Result-cases (b.marshal (ns ++ net.name ∷ []))) [
              | inr (e, bad) ↦ absurd (ground arith)
              | inl (json_data, encoded) ↦
                  finish-IsAdded w opts ns a spec json_data encoded (ground arith)
            ]
          ]
        ]
      ]

  -- What containerd documents: an update is stored, as the labels that it was given. The two labels
  -- differ.
  pub record IsStore : Type 0 where
    pub updates : (l : Map String) (s : b.Spec) (w : W) → (b.update c l s w).0 ≡ ok tt
    pub stores : (l : Map String) (s : b.Spec) (w : W) → b.labels c (b.update c l s w).1 ≡ ok l
    pub distinct : (b.networks_label == network_index_label) ≡ false

  -- The labels name the networks `ns`, the index is `index`, and the others are those of `opts`.
  abbrev pub IsRestored : Map String → List String → ℤ → Map String → Type 0
  IsRestored opts ns index l =
      (b.unmarshal (text_of (lookup b.networks_label l)) ≡ ok ns)
      × (lookup network_index_label l ≡ some (sprint index))
      × ((k : String)
          → (b.networks_label == k) ≡ false
          → (network_index_label == k) ≡ false
          → lookup k l ≡ lookup k opts)

  module _ (store : IsStore) where
    abbrev restored : String → Added b → Map String
    restored before a =
        insert b.networks_label before
          (insert network_index_label (sprint (previous a.index)) a.opts)

    delete_net-labels :
        (w : W) (a : Added b) (before : String)
        → b.marshal a.networks_before ≡ ok before
        → b.labels c (delete_net b c a w) ≡ ok (restored before a)
    unfolding delete_net
    delete_net-labels w a before encoded =
        rw encoded (store.stores (restored before a) (b.annotate b.networks_label before a.spec_) w)

    restored-IsRestored :
        (opts : Map String) (ns : List String) (a : Added b) (before : String)
        → IsAdded opts ns a
        → b.marshal ns ≡ ok before
        → b.unmarshal before ≡ ok ns
        → IsRestored opts ns (previous a.index) (restored before a)
    restored-IsRestored opts ns a before (json_data, encoded, indexed, opts_are, ns_are) old back =
        (
          rw
              (lookup-same b.networks_label before
                (insert network_index_label (sprint (previous a.index)) a.opts))
              back,
          lookup-other b.networks_label network_index_label before
                (insert network_index_label (sprint (previous a.index)) a.opts) store.distinct
              ∙ lookup-same network_index_label (sprint (previous a.index)) a.opts,
          λ k k1 k2.
              lookup-other b.networks_label k before
                (insert network_index_label (sprint (previous a.index)) a.opts) k1
              ∙ lookup-other network_index_label k (sprint (previous a.index)) a.opts k2
              ∙ ap (λ m. lookup k m) opts_are
              ∙ lookup-other network_index_label k (sprint a.index)
                  (insert b.networks_label json_data opts) k2
              ∙ lookup-other b.networks_label k json_data opts k1,
        )

    live :
        (network_id container_id : String) (w : W) (a : Added b) (e : GoError)
        → b.get_network network_id w ≡ ok net
        → b.get_container container_id w ≡ ok c
        → (get_container_status b c w ≡ ok running) ⊎ (get_container_status b c w ≡ ok paused)
        → (add_network_config b net c w).0 ≡ ok a
        → (connect_network b net c (add_network_config b net c w).1).0 ≡ err e
        → connect b network_id container_id w
          ≡ (err e, delete_net b c a (connect_network b net c (add_network_config b net c w).1).1)
    unfolding connect connect_live
    live network_id container_id w a e net_is c_is (inl running_) added failed =
        rw (net_is, c_is, running_, added, failed) refl
    live network_id container_id w a e net_is c_is (inr paused_) added failed =
        rw (net_is, c_is, paused_, added, failed) refl

    -- The index before: that of the label, or the last of the networks, of which there are fewer
    -- than 2 ^ 63.
    abbrev pub IsIndexBefore : Map String → List String → ℤ → Type 0
    IsIndexBefore opts ns i =
        ((s : String) × (lookup network_index_label opts ≡ some s) × (parse_int s ≡ parsed i))
        ⊎ ((lookup network_index_label opts ≡ none)
            × (length ns < 2 ^ 63)
            × (i ≡ sub_ℕ (length ns) 1))

    previous-index :
        (opts : Map String) (ns : List String) (i j : ℤ) (json_data : String)
        → IsIndexBefore opts ns i
        → new_index b (insert b.networks_label json_data opts) (ns ++ net.name ∷ []) ≡ ok j
        → previous j ≡ i
    unfolding new_index
    previous-index opts ns i j json_data (inl (s, label, number)) h =
        let kept =
          lookup-other b.networks_label network_index_label json_data opts store.distinct in
        let made_index : new_index b (insert b.networks_label json_data opts) (ns ++ net.name ∷ [])
            ≡ ok (next i) =
          rw (new_index, kept, label, atoi, number) refl in
        ap previous (ok-inj (sym h ∙ made_index)) ∙ previous-next i (parse_int-IsInt64 s i number)
    previous-index opts ns i j json_data (inr (no_label, few, count)) h =
        let kept =
          lookup-other b.networks_label network_index_label json_data opts store.distinct in
        let made_index : new_index b (insert b.networks_label json_data opts) (ns ++ net.name ∷ [])
            ≡ ok (sub_ℕ (length (ns ++ net.name ∷ [])) 1) =
          rw (new_index, kept, no_label) refl in
        ap previous (ok-inj (sym h ∙ made_index))
        ∙ ap (λ n. previous (sub_ℕ n 1)) (length-append ns (net.name ∷ []))
        ∙ previous-last (length ns) few
        ∙ sym count

    -- A running or paused container whose network is added to its labels and then cannot be attached,
    -- where updates are stored and the list of its networks is encoded and decoded: the error is
    -- returned, the labels name the networks of before with the index of before, and the other labels
    -- are as before. The index of before is that of the label, a number of 64 bits, or without a label
    -- the number of the networks, fewer than 2^63, less one.
    pub connect_rolls_back :
        (network_id container_id : String) (w : W) (opts : Map String) (ns : List String) (i : ℤ)
        (a : Added b) (e : GoError) (before : String)
        → b.get_network network_id w ≡ ok net
        → b.get_container container_id w ≡ ok c
        → (get_container_status b c w ≡ ok running) ⊎ (get_container_status b c w ≡ ok paused)
        → b.labels c w ≡ ok opts
        → b.unmarshal (text_of (lookup b.networks_label opts)) ≡ ok ns
        → b.marshal ns ≡ ok before
        → b.unmarshal before ≡ ok ns
        → IsIndexBefore opts ns i
        → (add_network_config b net c w).0 ≡ ok a
        → (connect_network b net c (add_network_config b net c w).1).0 ≡ err e
        → ((connect b network_id container_id w).0 ≡ err e)
          × ((l : Map String) × (b.labels c (connect b network_id container_id w).1 ≡ ok l)
              × IsRestored opts ns i l)
    connect_rolls_back network_id container_id w opts ns i a e before net_is c_is status labels_
          decoded old back before_ added failed =
        let is_added = add_network_config-IsAdded w opts ns a labels_ decoded added in
        let (json_data, encoded, indexed, opts_are, ns_are) = is_added in
        let w1 = (add_network_config b net c w).1 in
        let w2 = (connect_network b net c w1).1 in
        let ran = live network_id container_id w a e net_is c_is status added failed in
        (
          ap (λ p. p.0) ran,
          (
            restored before a,
            ap (λ p. b.labels c p.1) ran
                ∙ delete_net-labels w2 a before (ap b.marshal ns_are ∙ old),
            subst (λ j. IsRestored opts ns j (restored before a))
                (previous-index opts ns i a.index json_data before_ indexed)
                (restored-IsRestored opts ns a before is_added old back),
          ),
        )

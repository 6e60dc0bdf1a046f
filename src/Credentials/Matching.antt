-- ===== src/Credentials/Matching.antt =====
-- Which credentials a build gets for a server (pkg/credential/credential.go).
use finch_daemon.Prelude.{
  ◌∙◌, String, ◌≡◌, refl, ◌⊎◌, ◌↔◌, ◌≢◌, none, inl, inr, Bool, true, some, List, [], ◌∷◌, arith,
  ◌==◌, eq_iff, Option-cases, Bool-cases,
}
use finch_daemon.Act.{ok}
use finch_daemon.Go.Maps.{Map, lookup}
use finch_daemon.Credentials.Cache.{
  Url, Urls, exact_match, approximate_match, find_match, get_target, keys, Cache, at_target,
  get_credentials,
}

abbrev pub In : String → List String → Type 0
In a [] = ⊥
In a (x ∷ xs) = (a ≡ x) ⊎ In a xs

module _ (urls : Urls) where
  -- The target parses to a URL that passes the test.
  abbrev pub Passes : Url → (Url → Url → Bool) → String → Type 0
  Passes server matches target =
      (url : Url) × (urls.parse target ≡ some url) × (matches server url ≡ true)

  find_match_sound :
      (server : Url) (targets : List String) (matches : Url → Url → Bool) (t : String)
      → find_match urls server targets matches ≡ some t
      → In t targets × Passes server matches t
  unfolding find_match
  find_match_sound server [] matches t h = absurd (cc h)
  find_match_sound server (x ∷ xs) matches t h = elim (Option-cases (urls.parse x)) [
    | inl bad ↦
        let (later, passes) = find_match_sound server xs matches t (ground arith) in
        (inr later, passes)
    | inr (url, parsed) ↦ elim (Bool-cases (matches server url)) [
      | inl yes_ ↦ let same : t ≡ x = ground arith in (inl same, (url, rw same parsed, yes_))
      | inr no_ ↦
          let (later, passes) = find_match_sound server xs matches t (ground arith) in
          (inr later, passes)
    ]
  ]

  find_match_complete :
      (server : Url) (targets : List String) (matches : Url → Url → Bool) (t : String)
      → In t targets
      → Passes server matches t
      → (t' : String) × (find_match urls server targets matches ≡ some t')
  unfolding find_match
  find_match_complete server [] matches t i p = elim i [ ]
  find_match_complete server (x ∷ xs) matches t (inl e) (url, parsed, passes) = (x, ground arith)
  find_match_complete server (x ∷ xs) matches t (inr later) p =
      let (t', found) = find_match_complete server xs matches t later p in
      elim (Option-cases (urls.parse x)) [
        | inl bad ↦ (t', ground arith)
        | inr (url, parsed) ↦ elim (Bool-cases (matches server url)) [
          | inl yes_ ↦ (x, ground arith)
          | inr no_ ↦ (t', ground arith)
        ]
      ]

  -- The key suits the address: it is the address, or both parse and the URLs match.
  abbrev pub Suits : String → String → Type 0
  Suits addr key =
      (key ≡ addr)
      ⊎ ((server : Url) × (urls.parse addr ≡ some server)
          × (Passes server (exact_match urls) key ⊎ Passes server (approximate_match urls) key))

  -- A target that getTarget finds suits the address.
  get_target_sound :
      (addr : String) (targets : List String)
      → (get_target urls addr targets ≡ "") ⊎ Suits addr (get_target urls addr targets)
  unfolding get_target
  get_target_sound addr targets = elim (Option-cases (urls.parse addr)) [
    | inl bad ↦ inr (inl (ground arith))
    | inr (server, parsed) ↦
        elim (Option-cases (find_match urls server targets (exact_match urls))) [
          | inr (t, found) ↦
              let same : get_target urls addr targets ≡ t = ground arith in
              let (i, p) = find_match_sound server targets (exact_match urls) t found in
              inr (inr (server, parsed, inl (rw same p)))
          | inl no_exact ↦
              elim (Option-cases (find_match urls server targets (approximate_match urls))) [
                | inr (t, found) ↦
                    let same : get_target urls addr targets ≡ t = ground arith in
                    let (i, p) = find_match_sound server targets (approximate_match urls) t found in
                    inr (inr (server, parsed, inr (rw same p)))
                | inl none_found ↦ inl (ground arith)
              ]
        ]
  ]

module _ {A : Type 0} (urls : Urls) (order : List String → List String) where
  In-keys : (creds : Map A) (k : String) → lookup k creds ≢ none → In k (keys creds)
  unfolding lookup keys
  In-keys [] k has = has refl
  In-keys ((j, v) ∷ creds) k has = elim (Bool-cases (j == k)) [
    | inl same ↦ inl (ground (arith, eq_iff j k))
    | inr other ↦ inr (In-keys creds k (λ e. has (ground arith)))
  ]

  lookup-In : (creds : Map A) (k : String) → In k (keys creds) → (a : A) × (lookup k creds ≡ some a)
  unfolding lookup keys
  lookup-In [] k i = elim i [ ]
  lookup-In ((j, v) ∷ creds) k (inl e) = (v, ground (arith, eq_iff j k))
  lookup-In ((j, v) ∷ creds) k (inr i) = elim (Bool-cases (j == k)) [
    | inl same ↦ (v, ground arith)
    | inr other ↦ let (a, found) = lookup-In creds k i in (a, ground arith)
  ]

  at_target_sound :
      (addr target : String) (creds : Map A) (a : A)
      → at_target addr target creds ≡ ok a
      → (target ≡ "") ⊎ Suits urls addr target
      → (key : String) × (lookup key creds ≡ some a) × Suits urls addr key
  at_target_sound addr target creds a h s = elim (Bool-cases (target == "")) [
    | inl empty ↦ elim (Option-cases (lookup addr creds)) [
      | inl missing ↦ absurd (ground arith)
      | inr (b, found) ↦ (addr, ground arith, inl refl)
    ]
    | inr some_ ↦ elim (Option-cases (lookup target creds)) [
      | inl missing ↦ absurd (ground arith)
      | inr (b, found) ↦ elim s [
        | inl e ↦ absurd (ground (arith, eq_iff target ""))
        | inr suits ↦ (target, ground arith, suits)
      ]
    ]
  ]

  -- Credentials come from the entry of that build ID alone, from a key that suits the address.
  pub get_credentials_sound :
      (build_id addr : String) (cache : Cache A) (a : A)
      → get_credentials urls order build_id addr cache ≡ ok a
      → (creds : Map A) × (key : String) × (lookup build_id cache ≡ some creds)
        × (lookup key creds ≡ some a)
        × Suits urls addr key
  unfolding get_credentials
  get_credentials_sound build_id addr cache a h = elim (Option-cases (lookup build_id cache)) [
    | inl missing ↦ absurd (ground arith)
    | inr (creds, found) ↦
        let target = get_target urls addr (order (keys creds)) in
        let (key, at_key, suits) =
          at_target_sound addr target creds a (ground arith)
            (get_target_sound urls addr (order (keys creds))) in
        (creds, key, found, at_key, suits)
  ]

  get_credentials_entry :
      (build_id addr : String) (cache : Cache A) (creds : Map A)
      → lookup build_id cache ≡ some creds
      → get_credentials urls order build_id addr cache
        ≡ at_target addr (get_target urls addr (order (keys creds))) creds
  unfolding get_credentials
  get_credentials_entry build_id addr cache creds entry = ground arith

  get_credentials_at :
      (addr t : String) (targets : List String) (creds : Map A) (a : A) (server url : Url)
      → urls.parse "" ≡ none
      → urls.parse addr ≡ some server
      → urls.parse t ≡ some url
      → find_match urls server targets (exact_match urls) ≡ some t
      → lookup t creds ≡ some a
      → at_target addr (get_target urls addr targets) creds ≡ ok a
  unfolding get_target
  get_credentials_at addr t targets creds a server url no_empty parsed parsed' found at_t =
      let same : get_target urls addr targets ≡ t = ground arith in
      elim (Bool-cases (t == "")) [
        | inl empty ↦ absurd (ground (arith, eq_iff t ""))
        | inr some_ ↦ rw (same, some_, at_t)
      ]

  -- An address that parses, and has a key with the same URL, gets credentials of such a key, in
  -- whatever order the keys are visited.
  pub get_credentials_complete :
      (build_id addr : String) (cache : Cache A) (creds : Map A) (key : String) (server : Url)
      → urls.parse "" ≡ none
      → ((k : String) (ks : List String) → In k (order ks) ↔ In k ks)
      → lookup build_id cache ≡ some creds
      → urls.parse addr ≡ some server
      → lookup key creds ≢ none
      → Passes urls server (exact_match urls) key
      → (found : String) × (a : A) × (get_credentials urls order build_id addr cache ≡ ok a)
        × (lookup found creds ≡ some a)
        × Passes urls server (exact_match urls) found
  get_credentials_complete build_id addr cache creds key server no_empty visits entry parsed has p =
      let targets = order (keys creds) in
      let (t, found) =
        find_match_complete urls server targets (exact_match urls) key
          ((visits key (keys creds)).1 (In-keys creds key has)) p in
      let (i, (url, parsed', passes)) =
        find_match_sound urls server targets (exact_match urls) t found in
      let (a, at_t) = lookup-In creds t ((visits t (keys creds)).0 i) in
      (
        t,
        a,
        get_credentials_entry build_id addr cache creds entry
            ∙ (get_credentials_at addr t targets creds a server url no_empty parsed parsed' found
                at_t),
        at_t,
        (url, parsed', passes),
      )

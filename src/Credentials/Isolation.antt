-- ===== src/Credentials/Isolation.antt =====
-- What the requests of other builds do to a build's credentials (pkg/credential/credential.go).
use finch_daemon.Prelude.{
  ◌≡◌, ◌≢◌, refl, ◌∙◌, inl, inr, String, none, some, List, [], ◌∷◌, arith, ◌==◌, eq_iff,
  Option-cases, All, if◌then◌else◌,
}
use finch_daemon.Go.Maps.{Map, lookup, lookup-delete, lookup-insert}
use finch_daemon.Credentials.Cache.{
  Urls, Cache, store_auth_configs, remove_credentials, get_credentials,
}

-- A change of the cache by a request, with the build ID that it names.
pub data Change (A : Type 0) : Type 0 where
  stores : String → Map A → Change A
  removes : String → Change A

module _ {A : Type 0} where
  pub lookup-remove_credentials :
      (k j : String) (cache : Cache A)
      → lookup j (remove_credentials k cache).1 ≡ (if k == j then none else lookup j cache)
  unfolding remove_credentials
  lookup-remove_credentials k j cache = elim (Option-cases (lookup k cache)) [
    | inl missing ↦ ground (arith, eq_iff k j)
    | inr (entry, found) ↦ ground (arith, lookup-delete k j cache)
  ]

  pub lookup-store_auth_configs :
      (k j : String) (configs : Map A) (cache : Cache A)
      → lookup j (store_auth_configs k configs cache).1
        ≡ (if k == j then some configs else lookup j cache)
  unfolding store_auth_configs
  lookup-store_auth_configs k j configs cache = lookup-insert k j configs cache

  abbrev pub changed_id : Change A → String
  changed_id (stores id configs) = id
  changed_id (removes id) = id

  abbrev pub change : Change A → Cache A → Cache A
  change (stores id configs) cache = (store_auth_configs id configs cache).1
  change (removes id) cache = (remove_credentials id cache).1

  unfoldable pub changes : List (Change A) → Cache A → Cache A
  changes [] cache = cache
  changes (c ∷ cs) cache = changes cs (change c cache)

  lookup-change :
      (id : String) (c : Change A) (cache : Cache A)
      → changed_id c ≢ id
      → lookup id (change c cache) ≡ lookup id cache
  lookup-change id (stores k configs) cache other =
      ground (arith, lookup-store_auth_configs k id configs cache, eq_iff k id)
  lookup-change id (removes k) cache other =
      ground (arith, lookup-remove_credentials k id cache, eq_iff k id)

  lookup-changes :
      (id : String) (cs : List (Change A)) (cache : Cache A)
      → All (λ c. changed_id c ≢ id) cs
      → lookup id (changes cs cache) ≡ lookup id cache
  unfolding changes
  lookup-changes id [] cache others = refl
  lookup-changes id (c ∷ cs) cache (other, others) =
      lookup-changes id cs (change c cache) others ∙ lookup-change id c cache other

  -- However other builds store and remove their credentials, the answer to a request for a build's
  -- credentials, error or not, stays what it was.
  pub get_credentials-changes :
      (urls : Urls) (order : List String → List String) (build_id addr : String)
      (cs : List (Change A)) (cache : Cache A)
      → All (λ c. changed_id c ≢ build_id) cs
      → get_credentials urls order build_id addr (changes cs cache)
        ≡ get_credentials urls order build_id addr cache
  unfolding get_credentials
  get_credentials-changes urls order build_id addr cs cache others =
      elim (Option-cases (lookup build_id cache)) [
        | inl missing ↦ ground (arith, lookup-changes build_id cs cache others)
        | inr (creds, found) ↦ ground (arith, lookup-changes build_id cs cache others)
      ]

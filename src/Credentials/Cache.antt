-- ===== src/Credentials/Cache.antt =====
-- pkg/credential/credential.go: the cache of the credentials of each build. Every method runs under
-- the cache's mutex, so that it is one step.
use Prim.Native.String.{◌++◌}
use finch_daemon.Prelude.{
  String, Bool, not, ◌&&◌, Option, none, some, List, [], ◌∷◌, ◌==◌, if◌then◌else◌,
}
use finch_daemon.Errors.{plain}
use finch_daemon.Act.{Result, ok, err, Act}
use finch_daemon.Go.Maps.{Map, lookup, insert, delete}

-- The fields of a url.URL that are read or set, and the others as one value.
pub record Url : Type 0 where
  pub scheme : String
  pub host : String
  pub path : String
  pub others : String

-- registryurl.Parse, and String() and Port() of net/url
pub record Urls : Type 0 where
  pub parse : String → Option Url
  pub text : Url → String
  pub port : Url → String

module _ (urls : Urls) where
  unfoldable pub exact_match : Url → Url → Bool
  exact_match server target = urls.text server == urls.text target

  abbrev with_scheme : Url → Url → Url
  with_scheme server target = record server { scheme = target.scheme }

  abbrev with_port : Url → Url → Url
  with_port server target =
      if urls.port server == "" && not (urls.port target == "")
      then record server { host = server.host ++ (":" ++ urls.port target) }
      else server

  abbrev with_path : Url → Url → Url
  with_path server target =
      if server.path == "" then record server { path = target.path } else server

  unfoldable pub approximate_match : Url → Url → Bool
  unfolding exact_match
  approximate_match server target =
      exact_match (with_path (with_port (with_scheme server target) target) target) target

  unfoldable pub find_match : Url → List String → (Url → Url → Bool) → Option String
  find_match server [] matches = none
  find_match server (target ∷ targets) matches =
      let rest = find_match server targets matches in
      elim (urls.parse target) [
        | none ↦ rest
        | some url ↦ if matches server url then some target else rest
      ]

  abbrev pub or_find : Option String → Option String → String
  or_find (some target) next = target
  or_find none (some target) = target
  or_find none none = ""

  -- getTarget, which returns no error; `targets` are the keys in the order in which the range over
  -- the map visits them.
  unfoldable pub get_target : String → List String → String
  unfolding find_match exact_match approximate_match
  get_target server_url targets = elim (urls.parse server_url) [
    | none ↦ server_url
    | some server ↦
        or_find (find_match server targets exact_match)
          (find_match server targets approximate_match)
  ]

-- The keys of a map, each once, as its list has them.
unfoldable pub keys {ℓ} : {V : Type ℓ} → Map V → List String
keys [] = []
keys ((k, v) ∷ m) = k ∷ keys m

-- `Entries`: for each build ID its `credentialEntry`.
abbrev pub Cache : Type 0 → Type 0
Cache A = Map (Map A)

module _ {A : Type 0} where
  -- StoreAuthConfigs
  unfoldable pub store_auth_configs : String → Map A → Act (Cache A) (Unit {0})
  store_auth_configs build_id configs cache = (ok tt, insert build_id configs cache)

  -- RemoveCredentials
  unfoldable pub remove_credentials : String → Act (Cache A) (Unit {0})
  remove_credentials build_id cache = elim (lookup build_id cache) [
    | none ↦ (err (plain "no credentials found"), cache)
    | some entry ↦ (ok tt, delete build_id cache)
  ]

  abbrev pub found_at : String → Option A → Result A
  found_at target none = err (plain ("no credentials found for matched target " ++ target))
  found_at target (some config) = ok config

  abbrev pub fallback : Option A → Result A
  fallback none = err (plain "no credentials found for server")
  fallback (some config) = ok config

  -- The lookups of GetCredentials for the target that getTarget gave.
  abbrev pub at_target : String → String → Map A → Result A
  at_target addr target creds =
      if target == "" then fallback (lookup addr creds) else found_at target (lookup target creds)

  -- GetCredentials, where ranges visit a map's keys in the order that `order` gives.
  unfoldable pub get_credentials :
      Urls → (List String → List String) → String → String → Cache A → Result A
  unfolding get_target
  get_credentials urls order build_id addr cache = elim (lookup build_id cache) [
    | none ↦ err (plain "no credentials found")
    | some creds ↦ at_target addr (get_target urls addr (order (keys creds))) creds
  ]

-- ===== src/Credentials/Tests.antt =====
-- The credential cache and server on concrete values.
use finch_daemon.Prelude.{
  different, ℕ, ◌≡◌, ◌≢◌, refl, true, String, Option, none, some, List, [], ◌∷◌, ◌==◌, nat_eq,
  if◌then◌else◌,
}
use finch_daemon.Errors.{GoError, plain}
use finch_daemon.Act.{Result, ok, err}
use finch_daemon.Go.Maps.{Map, lookup}
use finch_daemon.Http.{value, fresh, send_error_response}
use finch_daemon.Credentials.Cache.{Url, Urls, Cache, keys, exact_match, get_credentials}
use finch_daemon.Credentials.Matching.{
  Passes, Suits, get_credentials_sound, get_credentials_complete,
}
use finch_daemon.Credentials.Isolation.{Change, stores, removes, changes, get_credentials-changes}
use finch_daemon.Credentials.Server.{
  Conn, Host, validate_peer_creds, build_request_auth_middleware, CredentialRequest,
  get_credentials_handler,
}
use finch_daemon.Credentials.Guarded.{IsTrusted, credentials_guarded}

-- URLs with a host only
abbrev host_url : String → Url
host_url s = record { scheme = "https"; host = s; path = ""; others = "" }

abbrev urls : Urls
urls = record {
  parse = λ s. if s == "" then none else some (host_url s);
  text = λ u. u.host;
  port = λ u. "";
}

abbrev same_order : List String → List String
same_order ks = ks

abbrev registry_creds : Map ℕ
registry_creds = ("docker.io", 1) ∷ ("ghcr.io", 2) ∷ []

abbrev two_builds : Cache ℕ
two_builds = ("b1", registry_creds) ∷ ("b2", ("ghcr.io", 3) ∷ []) ∷ []

got : get_credentials urls same_order "b1" "ghcr.io" two_builds ≡ ok 2
unfolding get_credentials lookup keys
got = refl

not_got :
    get_credentials urls same_order "b2" "docker.io" two_builds
    ≡ err (plain "no credentials found for server")
unfolding get_credentials lookup keys
not_got = refl

get_credentials_sound_example :
    (creds : Map ℕ) × (key : String) × (lookup "b1" two_builds ≡ some creds)
    × (lookup key creds ≡ some 2)
    × Suits urls "ghcr.io" key
get_credentials_sound_example =
    get_credentials_sound urls same_order "b1" "ghcr.io" two_builds 2 got

has_key : lookup "ghcr.io" registry_creds ≢ none
unfolding lookup
has_key e = cc e

entry : lookup "b1" two_builds ≡ some registry_creds
unfolding lookup
entry = refl

passes : Passes urls (host_url "ghcr.io") (exact_match urls) "ghcr.io"
unfolding exact_match
passes = (host_url "ghcr.io", refl, refl)

get_credentials_complete_example :
    (found : String) × (a : ℕ) × (get_credentials urls same_order "b1" "ghcr.io" two_builds ≡ ok a)
    × (lookup found registry_creds ≡ some a)
    × Passes urls (host_url "ghcr.io") (exact_match urls) found
get_credentials_complete_example =
    get_credentials_complete urls same_order "b1" "ghcr.io" two_builds registry_creds "ghcr.io"
      (host_url "ghcr.io") refl (λ k ks. (λ i. i, λ i. i)) entry refl has_key passes

-- The daemon is process 10; buildkit is 20, the helper 30.
abbrev parent_of : ℕ → Result ℕ
parent_of pid =
    if nat_eq pid 30 then ok 20 else if nat_eq pid 20 then ok 10 else err (plain "no such process")

abbrev host : Host
host = record {
  own = record { uid = 1000; gid = 100; pid = 10 };
  new_process = λ pid. ok tt;
  parent = parent_of;
}

abbrev helper : ℕ → Conn
helper uid = record {
  is_unix = true;
  syscall_conn = none;
  control = none;
  ucred = ok (record { uid = uid; gid = 100; pid = 30 });
}

abbrev request : Result CredentialRequest
request = ok (record { build_id = "b1"; server_addr = "ghcr.io" })

never_fails : ℕ → Option GoError
never_fails a = none

served :
    (build_request_auth_middleware host
      (helper 1000)
      (get_credentials_handler never_fails urls same_order request two_builds)
      fresh).body
    ≡ value 2 ∷ []
unfolding never_fails build_request_auth_middleware get_credentials_handler get_credentials
    validate_peer_creds lookup keys
served = refl

refused :
    (build_request_auth_middleware host
      (helper 1001)
      (get_credentials_handler never_fails urls same_order request two_builds)
      fresh).code
    ≡ some 401
unfolding build_request_auth_middleware validate_peer_creds send_error_response
refused = refl

credentials_guarded_example :
    IsTrusted host (helper 1000)
    × (r : CredentialRequest) × (creds : Map ℕ) × (key : String) × (request ≡ ok r)
    × (lookup r.build_id two_builds ≡ some creds)
    × (lookup key creds ≡ some 2)
    × Suits urls r.server_addr key
credentials_guarded_example =
    credentials_guarded never_fails urls same_order host (helper 1000) request two_builds 2 served

-- Build "b2" ends, and "b3" begins.
abbrev meanwhile : List (Change ℕ)
meanwhile = removes "b2" ∷ stores "b3" [] ∷ []

get_credentials-changes_example :
    get_credentials urls same_order "b1" "ghcr.io" (changes meanwhile two_builds)
    ≡ get_credentials urls same_order "b1" "ghcr.io" two_builds
get_credentials-changes_example =
    get_credentials-changes urls same_order "b1" "ghcr.io" meanwhile two_builds
      (different "b2" "b1" refl, (different "b3" "b1" refl, tt))

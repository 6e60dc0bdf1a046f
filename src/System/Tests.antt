-- ===== src/System/Tests.antt =====
-- Two small registries, on which the handler runs and the theorem is applied.
use Prim.Native.String.{◌++◌}
use finch_daemon.Prelude.{
  ℕ, suc, ◌*◌, ◌≤◌, String, ◌≡◌, refl, true, none, some, List, [], ◌∷◌, map, ltb, if◌then◌else◌,
}
use finch_daemon.Act.{Result, ok}
use finch_daemon.Go.Maps.{lookup}
use finch_daemon.System.Login.{
  RegistryHost, LoginBackend, registry_hosts, auth, login_hosts, login_reg_host, trials,
}
use finch_daemon.System.Bounded.{IsLoggedIn, noting, times, auth_lem}
use finch_daemon.System.Handler.{AuthReq, auth_handler}

abbrev registry_host : String → RegistryHost
registry_host name = record {
  scheme = "https";
  host = name;
  path = "/v2";
  header = [];
  has_authorizer = true;
}

-- The world is the number of requests that were sent; the first `refused` of them are answered 401
-- and the others 200.
abbrev registry : ℕ → LoginBackend ℕ ℕ (Unit {0})
registry refused = record {
  parse = λ s. ok (s, s);
  new_host_options = λ host creds w. (ok tt, w);
  configure_hosts =
      λ ho host w. (ok (registry_host "a.example" ∷ registry_host "b.example" ∷ []), w);
  refresh_tokens = λ w. ("b.example", "t0") ∷ [];
  url_string = λ scheme host path. scheme ++ ("://" ++ (host ++ path));
  check_url = λ url. ok tt;
  authorize = λ rh req w. (ok req, w);
  do_request = λ rh req w. (ok (if ltb w refused then 401 else 200), suc w);
  add_responses = λ rh resps w. (ok tt, w);
  status_code = λ code. code;
  unexpected_status = λ e. none;
  quoted = λ s. s;
}

abbrev body : Result AuthReq
body = ok (record { username = "u"; password = "p"; server_address = "" })

handler_tests :
    ((auth_handler (registry 4) body 0).1 ≡ 5)
    × ((auth_handler (registry 4) body 0).0.code ≡ some 200)
    × ((auth_handler (registry 9) body 0).1 ≡ 6)
    × ((auth_handler (registry 9) body 0).0.code ≡ some 401)
unfolding auth_handler auth login_hosts login_reg_host trials lookup registry_hosts
handler_tests = (refl, refl, refl, refl)

abbrev hosts : List RegistryHost
hosts = registry_host "a.example" ∷ registry_host "b.example" ∷ []

-- Three calls for the first host and two for the second.
noting_tests :
    ((auth (noting (registry 4)) "u" "p" "" (0, [])).1.1
      ≡ "b.example" ∷ "b.example" ∷ "a.example" ∷ "a.example" ∷ "a.example" ∷ [])
    × (times "a.example" (auth (noting (registry 4)) "u" "p" "" (0, [])).1.1 ≡ 3)
unfolding auth login_hosts login_reg_host trials lookup registry_hosts
noting_tests = (refl, refl)

auth_lem_example :
    ((name : String)
      → times name (auth (noting (registry 4)) "u" "p" "" (0, [])).1.1
        ≤ 3 * times name (map (λ (rh : RegistryHost). rh.host) hosts))
    × ((token : String)
        → (auth (registry 4) "u" "p" "" 0).0 ≡ ok token
        → IsLoggedIn (registry 4) hosts token)
unfolding registry_hosts
auth_lem_example = auth_lem (registry 4) "u" "p" "" 0 0 hosts refl

-- ===== src/System/Login.antt =====
-- internal/service/system/auth.go
use Prim.Native.String.{◌++◌}
use finch_daemon.Prelude.{
  ℕ, zero, suc, ◌/◌, String, Bool, Option, none, some, List, [], ◌∷◌, ◌++◌ as ◌⧺◌, map, nat_eq,
  ◌==◌, if◌then◌else◌,
}
use finch_daemon.Prelude.Int.{pos}
use finch_daemon.Errors.{GoError, plain, wrap, message}
use finch_daemon.Act.{Result, ok, err, Act, fail, reads, ◌>>=◌, ◌>>◌}
use finch_daemon.Go.Decimal.{sprint}
use finch_daemon.Go.Maps.{Map, lookup}
use finch_daemon.Go.Strings.{is_empty}
use finch_daemon.Distribution.Service.{new_unauthenticated, explained}

-- docker.RegistryHost, with the client and the authorizer left to the backend. A range over the
-- headers visits them in the order of the list.
pub record RegistryHost : Type 0 where
  pub scheme : String
  pub host : String
  pub path : String
  pub header : Map (List String)
  pub has_authorizer : Bool

-- An http.Request
pub record Request : Type 0 where
  pub url : String
  pub header : List (String × String)

-- The registry client: responses `A`, host options `O`. `parse` is dockerconfigresolver.Parse: the
-- CanonicalIdentifier of the host, and the host as %q prints it; `refresh_tokens` is the map that the callback of WithFetchRefreshToken fills;
-- `unexpected_status` is errors.As with an ErrUnexpectedStatus; `quoted` is %q of a text.
pub record LoginBackend (W A O : Type 0) : Type 0 where
  pub parse : String → Result (String × String)
  pub new_host_options : String → (String → Result (String × String)) → Act W O
  pub configure_hosts : O → String → Act W (List RegistryHost)
  pub refresh_tokens : W → Map String
  pub url_string : String → String → String → String
  pub check_url : String → Result (Unit {0})
  pub authorize : RegistryHost → Request → Act W Request
  pub do_request : RegistryHost → Request → Act W A
  pub add_responses : RegistryHost → List A → Act W (Unit {0})
  pub status_code : A → ℕ
  pub unexpected_status : GoError → Option ℕ
  pub quoted : String → String

abbrev pub or_default : String → String
or_default server_addr = if is_empty server_addr then "https://index.docker.io/v1/" else server_addr

abbrev with_slash : String → String
with_slash path = if path == "/v2" then "/v2/" else path

-- The headers that are added to a request.
unfoldable pub added_headers : Map (List String) → List (String × String)
added_headers [] = []
added_headers ((k, vs) ∷ header) = map (λ v. (k, v)) vs ⧺ added_headers header

abbrev pub token_or_empty : Option String → String
token_or_empty none = ""
token_or_empty (some token) = token

abbrev last_error : Option GoError → GoError
last_error none = plain "failed to log in to all the registry hosts, last err: %!w(<nil>)"
last_error (some e) = wrap "failed to log in to all the registry hosts, last err: " e ""

module _ {W A O : Type 0} (b : LoginBackend W A O) where
  abbrev retyped : Option ℕ → GoError → GoError
  retyped none e = e
  retyped (some code) e = if nat_eq code 401 then new_unauthenticated e else e

  abbrev authorize_error : GoError → GoError
  authorize_error e =
      wrap "failed to call rh.Authorizer.Authorize: " (retyped (b.unexpected_status e) e) ""

  -- http.NewRequest with the headers of the host
  abbrev pub new_request : RegistryHost → Result Request
  new_request rh =
      let url = b.url_string rh.scheme rh.host (with_slash rh.path) in
      elim (b.check_url url) [
        | ok t ↦ ok (record { url = url; header = added_headers rh.header })
        | err e ↦ err (wrap "failed to create request: " e "")
      ]

  -- A request that is authorized and sent.
  unfoldable pub sent_request : RegistryHost → Act W A
  unfolding added_headers
  sent_request rh = do
    req ← reads (λ w. new_request rh)
    authorized ← explained authorize_error (b.authorize rh req)
    explained (λ e. wrap "failed to call rh.Client.Do: " e "") (b.do_request rh authorized)

  abbrev pub check_code : ℕ → Result (Unit {0})
  check_code code =
      if nat_eq (code / 100) 2
      then ok tt
      else err (plain ("unexpected status code " ++ sprint (pos code)))

  abbrev pub answered : RegistryHost → List A → A → Act W (Unit {0}) → Act W (Unit {0})
  answered rh resps resp rest =
      if nat_eq (b.status_code resp) 401
      then (explained (λ e. wrap "failed to call rh.Authorizer.AddResponses: " e "")
            (b.add_responses rh resps)
          >> rest)
      else reads (λ w. check_code (b.status_code resp))

  -- The loop of loginRegHost, with the trials that are left and the responses so far.
  unfoldable pub trials : ℕ → RegistryHost → List A → Act W (Unit {0})
  unfolding sent_request sprint
  trials zero rh resps = fail (new_unauthenticated (plain "too many 401 (probably)"))
  trials (suc n) rh resps = do
    resp ← sent_request rh
    answered rh (resps ⧺ resp ∷ []) resp (trials n rh (resps ⧺ resp ∷ []))

  -- loginRegHost
  unfoldable pub login_reg_host : RegistryHost → Act W (Unit {0})
  unfolding trials
  login_reg_host rh =
      if rh.has_authorizer then trials 3 rh [] else fail (plain "got nil Authorizer")

  abbrev pub next_host :
      RegistryHost → (Option GoError → Act W String) → Result (Unit {0}) × W → Result String × W
  next_host rh rest (ok t, w) = (ok (token_or_empty (lookup rh.host (b.refresh_tokens w))), w)
  next_host rh rest (err e, w) = rest (some e) w

  -- The loop of Auth, with the last error.
  unfoldable pub login_hosts : List RegistryHost → Option GoError → Act W String
  unfolding login_reg_host lookup
  login_hosts [] last w = (err (last_error last), w)
  login_hosts (rh ∷ rhs) last w = next_host rh (login_hosts rhs) (login_reg_host rh w)

  abbrev pub creds_for : String × String → String → String → String → Result (String × String)
  creds_for (host, shown) username password ac_arg =
      if ac_arg == host
      then ok (username, password)
      else err (plain ("expected acArg to be " ++ (shown ++ (", got " ++ b.quoted ac_arg))))

  abbrev parse_error : GoError → GoError
  parse_error e = plain ("failed to parse server address: " ++ message e)

  -- The hosts that are tried.
  unfoldable pub registry_hosts : String → String → String → Act W (List RegistryHost)
  unfolding message
  registry_hosts username password server_addr = do
    host ← explained parse_error (reads (λ w. b.parse (or_default server_addr)))
    ho ←
        explained (λ e. plain ("failed to initialize host options: " ++ message e))
          (b.new_host_options host.0 (creds_for host username password))
    explained (λ e. wrap "failed to configure registry host: " e "") (b.configure_hosts ho host.0)

  -- Auth
  unfoldable pub auth : String → String → String → Act W String
  unfolding registry_hosts login_hosts
  auth username password server_addr =
      registry_hosts username password server_addr >>= λ hosts. login_hosts hosts none

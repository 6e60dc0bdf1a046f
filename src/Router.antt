-- ===== src/Router.antt =====
-- api/router/router.go: the middlewares that stand before every handler.
pub mod Admission
pub mod PolicyFile
mod Tests
use Prim.Native.String.{◌++◌}
use finch_daemon.Prelude.{String, Bool, true, false, Option, none, some, if◌then◌else◌}
use finch_daemon.Errors.{GoError, plain}
use finch_daemon.Act.{Result, ok, err}
use finch_daemon.Http.{Writer, send_error_response}

-- versions.LessThan and GreaterThan of Docker's API
pub record Versions : Type 0 where
  pub less_than : String → String → Bool
  pub greater_than : String → String → Bool

abbrev pub default_api_version : String
default_api_version = "1.43"

abbrev pub minimum_api_version : String
minimum_api_version = "1.35"

-- What the middlewares read of a request: the path variable `version`, the method and the path.
pub record RouteRequest : Type 0 where
  pub version : Option String
  pub method : String
  pub path : String

-- inputRegoRequest
pub record InputRegoRequest : Type 0 where
  pub method : String
  pub path : String

module _ {A : Type 0} where
  -- VersionMiddleware; the next handler gets the version that stands in the context.
  unfoldable pub version_middleware :
      Versions → (String → Writer A → Writer A) → RouteRequest → Writer A → Writer A
  version_middleware vs next r w = elim (r.version) [
    | none ↦ next default_api_version w
    | some v ↦
        if vs.less_than v minimum_api_version
        then send_error_response 400
            (plain (
              "your api version, v"
              ++ (v ++ (", is below the minimum supported version, v" ++ minimum_api_version))))
            w
        else if vs.greater_than v default_api_version
        then send_error_response 400
            (plain (
              "your api version, v"
              ++ (v ++ (", is newer than the server's version, v" ++ default_api_version))))
            w
        else next v w
  ]

  abbrev on_decision : Result Bool → (Writer A → Writer A) → RouteRequest → Writer A → Writer A
  on_decision (err e) next r w = send_error_response 500 (plain "error in HTTP request") w
  on_decision (ok false) next r w =
      send_error_response 403
        (plain ("method " ++ (r.method ++ (" not allowed for path " ++ r.path)))) w
  on_decision (ok true) next r w = next w

  -- The middleware that CreateRegoMiddleware makes of a policy: `eval` is the evaluation of the
  -- prepared query with Allowed() of its result.
  unfoldable pub rego_middleware :
      (InputRegoRequest → Result Bool) → (Writer A → Writer A) → RouteRequest → Writer A → Writer A
  rego_middleware eval next r w =
      on_decision (eval (record { method = r.method; path = r.path })) next r w

  -- The chain that New builds: the policy is there if a policy file is given.
  unfoldable pub routed :
      Versions
      → Option (InputRegoRequest → Result Bool)
      → (String → Writer A → Writer A)
      → RouteRequest
      → Writer A
      → Writer A
  routed vs none next r w = version_middleware vs next r w
  routed vs (some eval) next r w = version_middleware vs (λ v. rego_middleware eval (next v) r) r w

-- ===== src/Distribution/Handler.antt =====
-- api/handlers/distribution/distribution.go
use Prim.Native.String.{◌++◌}
use finch_daemon.Prelude.{ℕ, String, Bool, ◌||◌, Option, none, some, if◌then◌else◌}
use finch_daemon.Errors.{
  GoError, plain, message, is_type, is_not_found, is_invalid_format, unauthenticated,
}
use finch_daemon.Act.{Result, ok, err}
use finch_daemon.Http.{Writer, value, fresh, json, send_error_response}
use finch_daemon.Images.Auth.{AuthConfig}
use finch_daemon.Images.Handlers.Transfer.{decode_auth_config}
use finch_daemon.Distribution.Canonical.{References}
use finch_daemon.Distribution.Service.{DistributionInspect, DistributionBackend, inspect}

unfoldable pub is_unauthenticated : GoError → Bool
unfolding is_type
is_unauthenticated e = is_type unauthenticated e

unfoldable pub inspect_code : GoError → ℕ
unfolding is_invalid_format is_unauthenticated is_not_found
inspect_code e =
    if is_invalid_format e then 400 else if is_unauthenticated e || is_not_found e then 403 else 500

module _ {W R F C P N : Type 0} (b : DistributionBackend W R F C P) (refs : References N)
    (decode : String → Result AuthConfig) where
  -- `none` is a panic: no answer is written.
  abbrev answer_inspected :
      Result (Option (DistributionInspect P)) → Option (Writer (DistributionInspect P))
  answer_inspected (err e) = some (send_error_response (inspect_code e) e fresh)
  answer_inspected (ok none) = none
  answer_inspected (ok (some d)) = some (json 200 (value d) fresh)

  abbrev inspect_as : String → Result AuthConfig → W → Option (Writer (DistributionInspect P)) × W
  inspect_as name (err e) w = (
    some (send_error_response 400 (plain ("failed to decode auth header: " ++ message e)) fresh),
    w,
  )
  inspect_as name (ok ac) w =
      (answer_inspected (inspect b refs name (some ac) w).0, (inspect b refs name (some ac) w).1)

  -- inspect, with the path variable `name` and the X-Registry-Auth header
  unfoldable pub inspect_handler : String → String → W → Option (Writer (DistributionInspect P)) × W
  unfolding decode_auth_config inspect inspect_code json send_error_response message
  inspect_handler name header w = inspect_as name (decode_auth_config decode header) w

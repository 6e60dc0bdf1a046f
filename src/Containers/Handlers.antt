-- ===== src/Containers/Handlers.antt =====
-- The HTTP handlers of api/handlers/container: start, stop, restart, kill, pause, unpause, remove,
-- rename and wait.
pub mod Keys
pub mod Verdict
pub mod Answers
use Prim.Native.String.{◌++◌}
use finch_daemon.Prelude.{
  ℕ, String, Bool, true, false, ◌||◌, Option, none, some, List, [], ◌∷◌, ◌==◌, if◌then◌else◌,
}
use finch_daemon.Prelude.Int.{ℤ, pos}
use finch_daemon.Errors.{
  GoError, plain, is_not_found, is_conflict, is_not_modified, is_invalid_format, message,
}
use finch_daemon.Act.{Result, ok, err}
use finch_daemon.Go.Strconv.{
  parsed, syntax_error, range_error, parse_int, parse_bool, atoi_value, scale_int64,
}
use finch_daemon.Go.Strings.{trim_space}
use finch_daemon.Http.{Writer, error_body, value, fresh, json, status, send_error_response}
use finch_daemon.Containers.Backend.{Backend, discard, dev_null, no_writer, Container}
use finch_daemon.Containers.Service.{
  start, stop, restart, kill, pause, unpause, remove, rename, wait,
}
use Keys.{validate_detach_keys}

-- What the handlers read of a request: the path variable `id`, and `URL.Query().Get`, which is ""
-- for a parameter that is not there.
pub record Request : Type 0 where
  pub id : Option String
  pub query : String → String

-- What the handlers answer with, beside errors: `waitResp` without its error.
pub data Reply : Type 0 where
  wait_resp : (status_code : ℤ) → Reply

-- config.Config: the namespace and nerdctl's global options
pub record Config (G : Type 0) : Type 0 where
  pub namespace : String
  pub global : G

-- mux.Vars(r)["id"]
abbrev var : Option String → String
var none = ""
var (some id) = id

-- `!ok || cid == ""`
abbrev no_id : Option String → Bool
no_id none = true
no_id (some id) = id == ""

abbrev get_bool : Option Bool → Bool
get_bool none = false
get_bool (some v) = v

abbrev seconds : ℤ
seconds = pos 10

-- The `t` parameter of stop and restart in nanoseconds, 10 seconds if it does not parse.
unfoldable pub timeout_of : String → ℤ
unfolding parse_int scale_int64
timeout_of t =
    scale_int64 1000000000
      (elim (parse_int t) [ parsed n ↦ n | syntax_error ↦ seconds | range_error n ↦ seconds ])

-- The status codes that the handlers give to the errors of the service.
unfoldable pub start_code : GoError → ℕ
unfolding is_not_found is_not_modified
start_code e = if is_not_found e then 404 else if is_not_modified e then 304 else 500

unfoldable pub stop_code : GoError → ℕ
unfolding is_not_found is_not_modified
stop_code e = if is_not_found e then 404 else if is_not_modified e then 304 else 500

unfoldable pub restart_code : GoError → ℕ
unfolding is_not_found
restart_code e = if is_not_found e then 404 else 500

unfoldable pub kill_code : GoError → ℕ
unfolding is_not_found is_conflict
kill_code e = if is_not_found e then 404 else if is_conflict e then 409 else 500

unfoldable pub pause_code : GoError → ℕ
unfolding is_not_found is_conflict
pause_code e = if is_not_found e then 404 else if is_conflict e then 409 else 500

unfoldable pub unpause_code : GoError → ℕ
unfolding is_not_found is_conflict
unpause_code e = if is_not_found e then 404 else if is_conflict e then 409 else 500

unfoldable pub remove_code : GoError → ℕ
unfolding is_not_found is_conflict
remove_code e = if is_not_found e then 404 else if is_conflict e then 409 else 500

unfoldable pub rename_code : GoError → ℕ
unfolding is_not_found is_conflict
rename_code e = if is_not_found e then 404 else if is_conflict e then 409 else 500

unfoldable pub wait_code : GoError → ℕ
unfolding is_not_found is_invalid_format
wait_code e = if is_not_found e then 404 else if is_invalid_format e then 400 else 500

abbrev refuse : ℕ → String → Writer Reply
refuse code text = json code (error_body text) fresh

-- The end of a handler: 204, or SendErrorResponse with the error's code.
abbrev respond : (GoError → ℕ) → Result (Unit {0}) → Writer Reply
respond code (ok u) = status 204 fresh
respond code (err e) = send_error_response (code e) e fresh

-- The same with response.JSON and NewError.
abbrev respond_json : (GoError → ℕ) → Result (Unit {0}) → Writer Reply
respond_json code (ok u) = status 204 fresh
respond_json code (err e) = json (code e) (error_body (message e)) fresh

-- The value of `codeCapturingWriter.code` after these writes.
abbrev captured : ℤ → List String → ℤ
captured code [] = code
captured code (p ∷ ps) = captured (atoi_value (trim_space p)) ps

abbrev respond_wait : Result (Unit {0}) → List String → Writer Reply
respond_wait (ok u) written = json 200 (value (wait_resp (captured (pos 0) written))) fresh
respond_wait (err e) written = send_error_response (wait_code e) e fresh

-- `backends ns` is the backend with the calls' context in the namespace `ns`; `open_dev_null w` is
-- the error with which /dev/null does not open, if it does not.
module _ {W G : Type 0} (backends : String → Backend W G) (open_dev_null : W → Option GoError)
    (config : Config G) where
  abbrev b : Backend W G
  b = backends config.namespace

  -- The checks that kill, pause and unpause begin with: an id, and /dev/null.
  abbrev checked : Request → W → Writer Reply × W → Writer Reply × W
  checked r w rest =
      if no_id r.id then (refuse 400 "must specify a container ID", w) else elim (open_dev_null w) [
        | some e ↦ (refuse 400 "failed to open /dev/null", w)
        | none ↦ rest
      ]

  unfoldable pub start_handler : Request → W → Writer Reply × W
  unfolding start start_code json send_error_response
  start_handler r w = elim (validate_detach_keys (r.query "detachKeys")) [
    | some e ↦ (refuse 400 ("Invalid detach keys: " ++ message e), w)
    | none ↦ elim (open_dev_null w) [
      | some e ↦ (refuse 400 "failed to open /dev/null", w)
      | none ↦
          let (result, w') =
            start b (var r.id)
              (record {
                g_options = config.global;
                stdout = dev_null;
                attach = false;
                detach_keys = r.query "detachKeys";
              })
              w in
          (respond start_code result, w')
    ]
  ]

  unfoldable pub stop_handler : Request → W → Writer Reply × W
  unfolding stop stop_code json send_error_response
  stop_handler r w =
      let (result, w') =
        stop b (var r.id)
          (record {
            g_options = config.global;
            stdout = discard;
            stderr = discard;
            timeout = timeout_of (r.query "t");
            signal = r.query "signal";
          })
          w in
      (respond stop_code result, w')

  unfoldable pub restart_handler : Request → W → Writer Reply × W
  unfolding restart restart_code json send_error_response
  restart_handler r w = elim (open_dev_null w) [
    | some e ↦ (refuse 400 "failed to open /dev/null", w)
    | none ↦
        let (result, w') =
          restart b (var r.id)
            (record {
              g_options = config.global;
              stdout = dev_null;
              timeout = timeout_of (r.query "t");
            })
            w in
        (respond restart_code result, w')
  ]

  unfoldable pub kill_handler : Request → W → Writer Reply × W
  unfolding kill kill_code json
  kill_handler r w = checked r w (
      let (result, w') =
        kill b (var r.id)
          (record {
            g_options = config.global;
            kill_signal = if r.query "signal" == "" then "SIGKILL" else r.query "signal";
            stdout = dev_null;
            stderr = dev_null;
          })
          w in
      (respond_json kill_code result, w'))

  unfoldable pub pause_handler : Request → W → Writer Reply × W
  unfolding pause pause_code json
  pause_handler r w = checked r w (
      let (result, w') =
        pause b (var r.id) (record { g_options = config.global; stdout = dev_null }) w in
      (respond_json pause_code result, w'))

  unfoldable pub unpause_handler : Request → W → Writer Reply × W
  unfolding unpause unpause_code json
  unpause_handler r w = checked r w (
      let (result, w') =
        unpause b (var r.id) (record { g_options = config.global; stdout = dev_null }) w in
      (respond_json unpause_code result, w'))

  unfoldable pub remove_handler : Request → W → Writer Reply × W
  unfolding remove remove_code json send_error_response
  remove_handler r w =
      let (result, w') =
        remove b (var r.id) (get_bool (parse_bool (r.query "force")))
          (get_bool (parse_bool (r.query "v"))) w in
      (respond remove_code result, w')

  unfoldable pub rename_handler : Request → W → Writer Reply × W
  unfolding rename rename_code json send_error_response
  rename_handler r w =
      let (result, w') =
        rename b (var r.id) (r.query "name")
          (record { g_options = config.global; stdout = no_writer }) w in
      (respond rename_code result, w')

  unfoldable pub wait_handler : Request → W → Writer Reply × W
  unfolding wait wait_code json send_error_response
  wait_handler r w =
      if r.query "condition" == ""
      then (let (result, written, w') = wait b (var r.id) config.global w in
          (respond_wait result written, w'))
      else (send_error_response 400 (plain "wait condition is not supported") fresh, w)

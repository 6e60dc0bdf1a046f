-- ===== src/Exec/Stream.antt =====
-- api/handlers/exec/start.go, and the reader of standard input of internal/service/exec/start.go.
use Prim.Native.String.{◌++◌}
use finch_daemon.Prelude.{
  ℕ, String, Bool, true, false, Option, none, some, List, [], ◌∷◌, ◌++◌ as ◌⧺◌, if◌then◌else◌,
}
use finch_daemon.Prelude.Int.{pos}
use finch_daemon.Errors.{GoError, wrap, message, is_not_found, is_conflict}
use finch_daemon.Act.{Result, ok, err}
use finch_daemon.Go.Decimal.{sprint}
use finch_daemon.Http.{Writer, error_body, fresh, json, status}
use finch_daemon.Exec.Service.{ExecBackend, start}
use finch_daemon.Exec.Handlers.{parse_exec_id}

-- types.ExecStartCheck
pub record ExecStartCheck : Type 0 where
  pub detach : Bool
  pub tty : Bool
  pub console_size : Option (ℕ × ℕ)

-- Where the handler writes: the ResponseWriter, the connection that is taken over, in the order of
-- the writes, and whether the header was written to it.
pub record Output : Type 0 where
  pub writer : Writer (Unit {0})
  pub conn : List String
  pub attach_header_written : Bool

abbrev pub no_output : Output
no_output = record { writer = fresh; conn = []; attach_header_written = false }

unfoldable pub start_code : GoError → ℕ
unfolding is_not_found is_conflict
start_code e = if is_not_found e then 404 else if is_conflict e then 409 else 500

-- checkUpgradeStatus; `multiplexed` is the test on the API version
unfoldable pub check_upgrade_status : Bool → Bool → String
check_upgrade_status multiplexed upgrade =
    if upgrade
    then "HTTP/1.1 101 UPGRADED\r\nContent-Type: "
      ++ ((if multiplexed
            then "application/vnd.docker.multiplexed-stream"
            else "application/vnd.docker.raw-stream")
          ++ "\r\nConnection: Upgrade\r\nUpgrade: tcp\r\n")
    else "HTTP/1.1 200 OK\r\nContent-Type: application/vnd.docker.raw-stream\r\n"

-- What the handler reads of a request; `body` is the decoded one, none for no body. `hijack` is the
-- error of Hijack or of the empty write, none for a writer that is no Hijacker.
pub record StartRequest : Type 0 where
  pub id : String
  pub body : Option (Result ExecStartCheck)
  pub hijack : Option (Result (Unit {0}))
  pub multiplexed : Bool
  pub upgrade : Bool

-- `headers` are the lines that WriteSubset writes, `status_text` is http.StatusText, `frame` and
-- `encode_error` make the texts of stdcopy's stdout and of json.Marshal of an error.
module _ {W : Type 0} (b : ExecBackend (Output × W)) (headers : List String)
    (status_text : ℕ → String) (frame : String → String) (encode_error : String → String) where
  abbrev refuse : ℕ → String → Output × W → Output × W
  refuse code text (out, w) = (record out { writer = json code (error_body text) out.writer }, w)

  -- printSuccessResponse
  abbrev pub print_success_response : String → Output × W → Output × W
  print_success_response response (out, w) = (
    record out { conn = out.conn ⧺ response ∷ headers ⧺ "\r\n" ∷ []; attach_header_written = true },
    w,
  )

  abbrev say : String → Output × W → Output × W
  say text (out, w) = (record out { conn = out.conn ⧺ frame text ∷ [] }, w)

  abbrev error_text : ℕ → GoError → String
  error_text code e =
      "HTTP/1.1 "
      ++ (sprint (pos code)
          ++ (" "
              ++ (status_text code
                  ++ ("\r\nContent-Type: application/json\r\n\r\n"
                      ++ (encode_error (message e) ++ "\r\n")))))

  -- The answer to an error of the service.
  abbrev failed : Bool → GoError → Output × W → Output × W
  failed true e s = refuse (start_code e) (message e) s
  failed false e s =
      if s.0.attach_header_written
      then say (message e ++ "\r\n") s
      else say (error_text (start_code e) e) s

  abbrev answered : Bool → Result (Unit {0}) × (Output × W) → Output × W
  answered detach (err e, s) = failed detach e s
  answered true (ok u, (out, w)) = (record out { writer = status 200 out.writer }, w)
  answered false (ok u, s) = s

  abbrev start_with :
      String × String → ExecStartCheck → Option (Output × W → Output × W) → Output × W → Output × W
  start_with (cid, proc_id) check success s = answered check.detach (
      start b
        (record {
          detach = check.detach;
          tty = check.tty;
          console_size = check.console_size;
          con_id = cid;
          exec_id = proc_id;
          success_response = success;
        })
        s)

  abbrev hijacked :
      StartRequest
      → String × String
      → ExecStartCheck
      → Option (Result (Unit {0}))
      → Output × W
      → Output × W
  hijacked r ids check none s = refuse 500 "not a http.Hijacker" s
  hijacked r ids check (some (err e)) s = refuse 500 (message e) s
  hijacked r ids check (some (ok u)) s =
      start_with ids check
        (some (print_success_response (check_upgrade_status r.multiplexed r.upgrade))) s

  abbrev with_body :
      StartRequest → String × String → Option (Result ExecStartCheck) → Output × W → Output × W
  with_body r ids none s = refuse 400 "body should not be empty" s
  with_body r ids (some (err e)) s =
      refuse 400 (message (wrap "unable to parse request body: " e "")) s
  with_body r ids (some (ok check)) s =
      if check.detach then start_with ids check none s else hijacked r ids check r.hijack s

  abbrev with_ids : StartRequest → Result (String × String) → Output × W → Output × W
  with_ids r (err e) s = refuse 400 (message e) s
  with_ids r (ok ids) s = with_body r ids r.body s

  -- start
  unfoldable pub start_handler : StartRequest → Output × W → Output × W
  unfolding start start_code check_upgrade_status parse_exec_id json message sprint
  start_handler r s = with_ids r (parse_exec_id r.id) s

-- StdinCloser; `has_closer` tells whether Closer is set
pub record StdinCloser : Type 0 where
  pub has_closer : Bool
  pub closed : Bool

-- Read, under its mutex: the number of bytes and the error, which `read_stdin` gives for Stdin, and
-- `ebadf` once it is closed.
module _ {W : Type 0} (read_stdin : W → (ℕ × Option GoError) × W) (closer : W → W)
    (ebadf : GoError) where
  abbrev close_on_error :
      StdinCloser → (ℕ × Option GoError) × W → (ℕ × Option GoError) × (StdinCloser × W)
  close_on_error s ((n, none), w) = ((n, none), (s, w))
  close_on_error s ((n, some e), w) =
      if s.has_closer
      then ((n, some e), (record s { closed = true }, closer w))
      else ((n, some e), (s, w))

  unfoldable pub read : StdinCloser → W → (ℕ × Option GoError) × (StdinCloser × W)
  read s w = if s.closed then ((0, some ebadf), (s, w)) else close_on_error s (read_stdin w)

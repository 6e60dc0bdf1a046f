-- ===== src/Credentials/Server.antt =====
-- api/credential/credential.go: the HTTP server from which the credential helper of a build gets its
-- credentials.
use finch_daemon.Prelude.{
  ℕ, String, Bool, not, Option, none, some, List, ◌==◌, nat_eq, if◌then◌else◌,
}
use finch_daemon.Errors.{GoError, plain}
use finch_daemon.Act.{Result, ok, err}
use finch_daemon.Http.{Writer, value, set_json_type, write_body, send_error_response}
use finch_daemon.Credentials.Cache.{Urls, Cache, get_credentials}

-- syscall.Ucred
pub record Ucred : Type 0 where
  pub uid : ℕ
  pub gid : ℕ
  pub pid : ℕ

-- A net.Conn: whether it is a *net.UnixConn, the errors of SyscallConn and of Control, and what
-- syscall.GetsockoptUcred gives for its descriptor.
pub record Conn : Type 0 where
  pub is_unix : Bool
  pub syscall_conn : Option GoError
  pub control : Option GoError
  pub ucred : Result Ucred

-- os.Getuid, os.Getgid and os.Getpid, and the process table of gopsutil
pub record Host : Type 0 where
  pub own : Ucred
  pub new_process : ℕ → Result (Unit {0})
  pub parent : ℕ → Result ℕ

abbrev unauthorized : GoError
unauthorized = plain "unauthorized access"

module _ (host : Host) where
  -- The end of validatePeerCreds, with the parent's parent
  abbrev pub check_grandparent : Result ℕ → Option GoError
  check_grandparent (err e) = some (plain "internal error")
  check_grandparent (ok ppp) = if nat_eq ppp host.own.pid then none else some unauthorized

  abbrev pub check_parent : Result ℕ → Option GoError
  check_parent (err e) = some (plain "internal error")
  check_parent (ok pp) = check_grandparent (host.parent pp)

  abbrev pub check_process : ℕ → Result (Unit {0}) → Option GoError
  check_process pid (err e) = some (plain "internal error")
  check_process pid (ok t) = check_parent (host.parent pid)

  -- After getPeerCredentials
  abbrev pub check_peer : Option GoError → Result Ucred → Option GoError
  check_peer (some e) peer = some (plain "failed to get peer credentials")
  check_peer none (err e) = some (plain "failed to get peer credentials")
  check_peer none (ok peer) =
      if not (nat_eq peer.uid host.own.uid)
      then some unauthorized
      else if not (nat_eq peer.gid host.own.gid)
      then some unauthorized
      else check_process peer.pid (host.new_process peer.pid)

  abbrev pub check_raw : Conn → Option GoError → Option GoError
  check_raw conn (some e) = some e
  check_raw conn none = check_peer conn.control conn.ucred

  -- validatePeerCreds
  unfoldable pub validate_peer_creds : Conn → Option GoError
  validate_peer_creds conn =
      if not conn.is_unix
      then some (plain "connection is not a Unix socket connection")
      else check_raw conn conn.syscall_conn

  -- BuildRequestAuthMiddleware
  unfoldable pub build_request_auth_middleware :
      {A : Type 0} → Conn → (Writer A → Writer A) → Writer A → Writer A
  build_request_auth_middleware conn next w = elim (validate_peer_creds conn) [
    | some e ↦ send_error_response 401 unauthorized w
    | none ↦ next w
  ]

pub record CredentialRequest : Type 0 where
  pub build_id : String
  pub server_addr : String

module _ {A : Type 0} (encode_error : A → Option GoError) where
  abbrev pub encoded : A → Option GoError → Writer A → Writer A
  encoded config none w = write_body (value config) w
  encoded config (some e) w = send_error_response 500 (plain "failed to encode response") w

  abbrev pub respond : Result A → Writer A → Writer A
  respond (err e) w = send_error_response 404 (plain "failed to get credentials") w
  respond (ok config) w = encoded config (encode_error config) (set_json_type w)

  -- getCredentials, with the decoded body of the request
  unfoldable pub get_credentials_handler :
      Urls → (List String → List String) → Result CredentialRequest → Cache A → Writer A → Writer A
  get_credentials_handler urls order (err e) cache w =
      send_error_response 400 (plain "failed to decode request") w
  get_credentials_handler urls order (ok req) cache w =
      if req.build_id == ""
      then send_error_response 400 (plain "request rejected: missing build ID") w
      else if req.server_addr == ""
      then send_error_response 400 (plain "request rejected: missing server address") w
      else respond (get_credentials urls order req.build_id req.server_addr cache) w

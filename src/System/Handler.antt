-- ===== src/System/Handler.antt =====
-- api/handlers/system/auth.go
use finch_daemon.Prelude.{ℕ, String, if◌then◌else◌}
use finch_daemon.Errors.{GoError, plain, wrap, message}
use finch_daemon.Act.{Result, ok, err}
use finch_daemon.Go.Strings.{is_empty}
use finch_daemon.Http.{Writer, error_body, value, fresh, json}
use finch_daemon.Distribution.Handler.{is_unauthenticated}
use finch_daemon.System.Login.{LoginBackend, auth}

pub record AuthReq : Type 0 where
  pub username : String
  pub password : String
  pub server_address : String

pub record AuthResp : Type 0 where
  pub status : String
  pub identity_token : String

unfoldable pub auth_code : GoError → ℕ
unfolding is_unauthenticated
auth_code e = if is_unauthenticated e then 401 else 500

module _ {W A O : Type 0} (b : LoginBackend W A O) where
  abbrev refuse : ℕ → GoError → Writer AuthResp
  refuse code e = json code (error_body (message e)) fresh

  abbrev answer_auth : Result String → Writer AuthResp
  answer_auth (ok token) =
      json 200 (value (record { status = "Login Succeeded"; identity_token = token })) fresh
  answer_auth (err e) = refuse (auth_code e) (wrap "failed to authenticate: " e "")

  abbrev with_request : Result AuthReq → W → Writer AuthResp × W
  with_request (err e) w = (refuse 400 e, w)
  with_request (ok req) w =
      if is_empty req.username
      then (refuse 400 (plain "username is required"), w)
      else if is_empty req.password
      then (refuse 400 (plain "password is required"), w)
      else (
        answer_auth (auth b req.username req.password req.server_address w).0,
        (auth b req.username req.password req.server_address w).1,
      )

  -- auth, of the decoded body
  unfoldable pub auth_handler : Result AuthReq → W → Writer AuthResp × W
  unfolding auth auth_code json message
  auth_handler body w = with_request body w

-- ===== src/Network/Handlers.antt =====
-- api/handlers/network: create, connect and remove, over the operations of the service.
use finch_daemon.Prelude.{ℕ, String, if◌then◌else◌}
use finch_daemon.Errors.{GoError, plain, is_not_found, is_forbidden_error, message}
use finch_daemon.Act.{Result, ok, err, Act}
use finch_daemon.Go.Strings.{is_empty}
use finch_daemon.Http.{Writer, error_body, value, fresh, json, status, send_error_response}
use finch_daemon.Network.Service.{NetworkCreateRequest, NetworkCreateResponse}

unfoldable pub connect_code : GoError → ℕ
unfolding is_not_found
connect_code e = if is_not_found e then 404 else 500

unfoldable pub remove_code : GoError → ℕ
unfolding is_not_found is_forbidden_error
remove_code e = if is_not_found e then 404 else if is_forbidden_error e then 403 else 500

abbrev answer_created : Result NetworkCreateResponse → Writer NetworkCreateResponse
answer_created (ok response) = json 201 (value response) fresh
answer_created (err e) = send_error_response (connect_code e) e fresh

abbrev answer_connected : Result (Unit {0}) → Writer NetworkCreateResponse
answer_connected (ok u) = status 200 fresh
answer_connected (err e) = json (connect_code e) (error_body (message e)) fresh

abbrev answer_removed : Result (Unit {0}) → Writer NetworkCreateResponse
answer_removed (ok u) = status 204 fresh
answer_removed (err e) = send_error_response (remove_code e) e fresh

module _ {W : Type 0} where
  abbrev create_decoded :
      (NetworkCreateRequest → Act W NetworkCreateResponse)
      → Result NetworkCreateRequest
      → W
      → Writer NetworkCreateResponse × W
  create_decoded create (err e) w = (send_error_response 400 e fresh, w)
  create_decoded create (ok request) w =
      if is_empty request.name
      then (send_error_response 500 (plain "missing required field") fresh, w)
      else (answer_created (create request w).0, (create request w).1)

  -- create, with the decoded body
  unfoldable pub create_handler :
      (NetworkCreateRequest → Act W NetworkCreateResponse)
      → Result NetworkCreateRequest
      → W
      → Writer NetworkCreateResponse × W
  unfolding connect_code json send_error_response
  create_handler create body w = create_decoded create body w

  abbrev connect_decoded :
      (String → String → Act W (Unit {0}))
      → String
      → Result String
      → W
      → Writer NetworkCreateResponse × W
  connect_decoded connect id (err e) w = (json 400 (error_body (message e)) fresh, w)
  connect_decoded connect id (ok container) w =
      (answer_connected (connect id container w).0, (connect id container w).1)

  -- connect, with the Container of the decoded body
  unfoldable pub connect_handler :
      (String → String → Act W (Unit {0}))
      → String
      → Result String
      → W
      → Writer NetworkCreateResponse × W
  unfolding connect_code json message
  connect_handler connect id body w = connect_decoded connect id body w

  -- remove
  unfoldable pub remove_handler :
      (String → Act W (Unit {0})) → String → W → Writer NetworkCreateResponse × W
  unfolding remove_code send_error_response
  remove_handler remove id w = (answer_removed (remove id w).0, (remove id w).1)

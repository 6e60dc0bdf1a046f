-- ===== src/Exec/Create/Handler.antt =====
-- api/handlers/container/exec.go
use finch_daemon.Prelude.{ℕ, String, Option, none, some, if◌then◌else◌}
use finch_daemon.Errors.{GoError, plain, wrap, message, is_not_found, is_conflict}
use finch_daemon.Act.{Result, ok, err}
use finch_daemon.Http.{Writer, error_body, value, fresh, json}
use finch_daemon.Containers.Backend.{Backend}
use finch_daemon.Exec.Create.{ExecConfig, ExecCreateBackend, exec_create}

-- types.ExecCreateResponse
pub record ExecCreateResponse : Type 0 where
  pub id : String

unfoldable pub create_code : GoError → ℕ
unfolding is_not_found is_conflict
create_code e = if is_not_found e then 404 else if is_conflict e then 409 else 500

module _ {W G S I F : Type 0} (b : Backend W G) (x : ExecCreateBackend W b.Task S I F) where
  abbrev refuse : ℕ → GoError → Writer ExecCreateResponse
  refuse code e = json code (error_body (message e)) fresh

  abbrev answer_created : Result String → Writer ExecCreateResponse
  answer_created (ok eid) = json 201 (value (record { id = eid })) fresh
  answer_created (err e) = refuse (create_code e) e

  abbrev with_body : String → Option (Result ExecConfig) → W → Writer ExecCreateResponse × W
  with_body cid none w = (refuse 400 (plain "request body should not be empty"), w)
  with_body cid (some (err e)) w = (refuse 400 (wrap "unable to parse request body: " e ""), w)
  with_body cid (some (ok config)) w =
      (answer_created (exec_create b x cid config w).0, (exec_create b x cid config w).1)

  -- exec, with the path variable `id` and the decoded body, each `none` where it is missing
  unfoldable pub exec_handler :
      Option String → Option (Result ExecConfig) → W → Writer ExecCreateResponse × W
  unfolding exec_create create_code json message
  exec_handler none body w = (refuse 400 (plain "must specify a container id"), w)
  exec_handler (some cid) body w = with_body cid body w

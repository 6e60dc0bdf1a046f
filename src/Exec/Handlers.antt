-- ===== src/Exec/Handlers.antt =====
-- api/handlers/exec: inspect and resize.
use Prim.Native.String.{◌++◌}
use finch_daemon.Prelude.{ℕ, String, List, [], ◌∷◌, if◌then◌else◌}
use finch_daemon.Prelude.Int.{ℤ}
use finch_daemon.Errors.{GoError, plain, message, is_not_found}
use finch_daemon.Act.{Result, ok, err}
use finch_daemon.Go.Strings.{is_empty, split}
use finch_daemon.Go.Strconv.{parse_int, parsed, syntax_error, range_error}
use finch_daemon.Http.{Writer, error_body, value, fresh, json, status}
use finch_daemon.Exec.Service.{ExecBackend, ExecInspect, inspect, resize}

-- The path variable `id`, and URL.Query().Get
pub record Request : Type 0 where
  pub id : String
  pub query : String → String

abbrev two_parts : String → List String → Result (String × String)
two_parts exec_id (con ∷ proc ∷ []) = ok (con, proc)
two_parts exec_id _ = err (plain ("invalid exec id: " ++ exec_id))

-- parseExecId
unfoldable pub parse_exec_id : String → Result (String × String)
unfolding split
parse_exec_id exec_id = two_parts exec_id (split b'/' exec_id)

-- getQueryParamInt
unfoldable pub get_query_param_int : Request → String → Result ℤ
unfolding parse_int
get_query_param_int r param_name =
    if is_empty (r.query param_name)
    then err (plain ("query parameter " ++ (param_name ++ " required")))
    else elim (parse_int (r.query param_name)) [
      | parsed n ↦ ok n
      | syntax_error ↦ err (plain (param_name ++ " must be an integer"))
      | range_error n ↦ err (plain (param_name ++ " must be an integer"))
    ]

unfoldable pub exec_code : GoError → ℕ
unfolding is_not_found
exec_code e = if is_not_found e then 404 else 500

abbrev refuse : GoError → Writer ExecInspect
refuse e = json 400 (error_body (message e)) fresh

module _ {W : Type 0} (b : ExecBackend W) where
  abbrev answer_inspect : Result ExecInspect → Writer ExecInspect
  answer_inspect (ok i) = json 200 (value i) fresh
  answer_inspect (err e) = json (exec_code e) (error_body (message e)) fresh

  abbrev inspect_parsed : Result (String × String) → W → Writer ExecInspect × W
  inspect_parsed (err e) w = (refuse e, w)
  inspect_parsed (ok (con_id, proc_id)) w =
      let (result, w') = inspect b con_id proc_id w in (answer_inspect result, w')

  -- inspect
  unfoldable pub inspect_handler : Request → W → Writer ExecInspect × W
  unfolding parse_exec_id inspect exec_code json message
  inspect_handler r w = inspect_parsed (parse_exec_id r.id) w

  abbrev answer_resize : Result (Unit {0}) → Writer ExecInspect
  answer_resize (ok u) = status 200 fresh
  answer_resize (err e) = json (exec_code e) (error_body (message e)) fresh

  abbrev resize_parsed : Result ℤ → Result ℤ → Result (String × String) → W → Writer ExecInspect × W
  resize_parsed (err e) width id w = (refuse e, w)
  resize_parsed (ok height) (err e) id w = (refuse e, w)
  resize_parsed (ok height) (ok width) (err e) w = (refuse e, w)
  resize_parsed (ok height) (ok width) (ok (con_id, proc_id)) w =
      let (result, w') =
        resize b (record { con_id = con_id; exec_id = proc_id; height = height; width = width })
          w in
      (answer_resize result, w')

  -- resize
  unfoldable pub resize_handler : Request → W → Writer ExecInspect × W
  unfolding exec_code json message
  resize_handler r w =
      resize_parsed (get_query_param_int r "h") (get_query_param_int r "w") (parse_exec_id r.id) w

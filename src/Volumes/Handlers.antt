-- ===== src/Volumes/Handlers.antt =====
-- api/handlers/volume.
use Prim.Native.String.{◌++◌}
use finch_daemon.Prelude.{
  ℕ, String, Bool, false, Option, none, some, List, [], ◌++◌ as ◌⧺◌, map, if◌then◌else◌,
}
use finch_daemon.Errors.{GoError, message, is_not_found, is_conflict, is_invalid_format}
use finch_daemon.Act.{Result, ok, err}
use finch_daemon.Go.Maps.{Map}
use finch_daemon.Go.Strings.{is_empty}
use finch_daemon.Go.Strconv.{parse_bool}
use finch_daemon.Http.{Writer, error_body, value, fresh, json, status, send_error_response}
use finch_daemon.Volumes.Service.{VolumeBackend, create, inspect, list_, remove}

-- CreateVolumeRequest; the driver and its options are only warned of.
pub record CreateVolumeRequest : Type 0 where
  pub name : String
  pub labels : Map String

-- filterJSONRequest
pub record FilterJsonRequest : Type 0 where
  pub name : List String
  pub driver : List String
  pub labels : List String
  pub dangling : List String

-- What the handlers answer with, beside errors.
pub data Reply (V : Type 0) : Type 0 where
  volume : V → Reply V
  volumes : List V → Reply V

-- labelMapToSlice
unfoldable pub label_map_to_slice : Map String → List String
label_map_to_slice input_map = map (λ kv. kv.0 ++ ("=" ++ kv.1)) input_map

-- createFilterExpressions
unfoldable pub create_filter_expressions : String → List String → List String
create_filter_expressions key vals = map (λ val. key ++ ("=" ++ val)) vals

-- The expressions of rawJSONFiltersToSlice
unfoldable pub filter_slice : FilterJsonRequest → List String
unfolding create_filter_expressions
filter_slice f =
    create_filter_expressions "dangling" f.dangling
    ⧺ create_filter_expressions "driver" f.driver
    ⧺ create_filter_expressions "label" f.labels
    ⧺ create_filter_expressions "name" f.name

abbrev sliced : Result FilterJsonRequest → Result (List String)
sliced (err e) = err e
sliced (ok f) = ok (filter_slice f)

-- rawJSONFiltersToSlice, after json.Unmarshal
unfoldable pub raw_json_filters_to_slice : Result FilterJsonRequest → Result (List String)
unfolding filter_slice
raw_json_filters_to_slice unmarshalled = sliced unmarshalled

unfoldable pub inspect_code : GoError → ℕ
unfolding is_not_found
inspect_code e = if is_not_found e then 404 else 500

unfoldable pub remove_code : GoError → ℕ
unfolding is_not_found is_conflict is_invalid_format
remove_code e =
    if is_not_found e
    then 404
    else if is_conflict e
    then 409
    else if is_invalid_format e
    then 400
    else 500

abbrev pub parsed_force : Option Bool → Bool
parsed_force none = false
parsed_force (some force) = force

module _ {W V : Type 0} (b : VolumeBackend W V) where
  abbrev answer_volume : (GoError → ℕ) → Result V → Writer (Reply V)
  answer_volume code (ok vol) = json 200 (value (volume vol)) fresh
  answer_volume code (err e) = json (code e) (error_body (message e)) fresh

  abbrev created : Result CreateVolumeRequest → W → Writer (Reply V) × W
  created (err e) w = (json 500 (error_body (message e)) fresh, w)
  created (ok request) w =
      let (result, w') = create b request.name (label_map_to_slice request.labels) w in
      (answer_volume (λ e. 500) result, w')

  -- create, with the decoded body
  unfoldable pub create_handler : Result CreateVolumeRequest → W → Writer (Reply V) × W
  unfolding create label_map_to_slice json message
  create_handler request w = created request w

  -- inspect
  unfoldable pub inspect_handler : String → W → Writer (Reply V)
  unfolding inspect inspect_code json message
  inspect_handler name w = answer_volume inspect_code (inspect b name w)

  -- The filters, and what the writer holds when they do not parse.
  abbrev filters_or_nil : Result (List String) → List String
  filters_or_nil (ok filters) = filters
  filters_or_nil (err e) = []

  abbrev report : String → Result (List String) → Writer (Reply V) → Writer (Reply V)
  report raw (ok filters) out = out
  report raw (err e) out = if is_empty raw then out else json 500 (error_body (message e)) out

  abbrev answer_list : Result (List V) → Writer (Reply V) → Writer (Reply V)
  answer_list (ok vols) out = json 200 (value (volumes vols)) out
  answer_list (err e) out = json 500 (error_body (message e)) out

  -- list, over json.Unmarshal of the `filters` parameter
  unfoldable pub list_handler : (String → Result FilterJsonRequest) → String → W → Writer (Reply V)
  unfolding list_ raw_json_filters_to_slice json message
  list_handler unmarshal raw w =
      let filters = raw_json_filters_to_slice (unmarshal raw) in
      answer_list (list_ b (filters_or_nil filters) w) (report raw filters fresh)

  abbrev answer_removed : Result (Unit {0}) → Writer (Reply V)
  answer_removed (ok u) = status 204 fresh
  answer_removed (err e) = send_error_response (remove_code e) e fresh

  -- remove
  unfoldable pub remove_handler : String → String → W → Writer (Reply V) × W
  unfolding remove remove_code send_error_response
  remove_handler name force w =
      let (result, w') = remove b name (parsed_force (parse_bool force)) w in
      (answer_removed result, w')

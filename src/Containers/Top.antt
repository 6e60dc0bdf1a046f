-- ===== src/Containers/Top.antt =====
-- internal/service/container/top.go and api/handlers/container/top.go: the processes of a container.
pub mod Rows
mod Tests
use finch_daemon.Prelude.{
  ℕ, zero, suc, String, Bool, true, false, ◌||◌, Option, none, some, List, [], ◌∷◌, ◌++◌, map,
  length, ltb, ◌==◌, if◌then◌else◌,
}
use finch_daemon.Errors.{GoError, plain, message, is_not_found, is_conflict}
use finch_daemon.Act.{Result, ok, err}
use finch_daemon.Go.Maps.{Map, lookup, insert}
use finch_daemon.Go.Strings.{is_empty, trim_space, split, fields, nonempty, join}
use finch_daemon.Http.{Writer, error_body, value, fresh, json}
use finch_daemon.Http.Stream.{contains}
use finch_daemon.Containers.Backend.{Backend}
use finch_daemon.Containers.Service.{get_container_typed}

-- container.ContainerTopOKBody
pub record TopBody : Type 0 where
  pub processes : List (List String)
  pub titles : List String

abbrev is_command : String → Bool
is_command name = name == "CMD" || name == "COMMAND" || name == "ARGS"

abbrev next_index : Option ℕ → Option ℕ
next_index none = none
next_index (some i) = some (suc i)

-- The first title that names a command.
unfoldable pub command_index : List String → Option ℕ
command_index [] = none
command_index (name ∷ titles) =
    let rest = next_index (command_index titles) in if is_command name then some 0 else rest

-- fields[:i] with the fields from i on joined to one
unfoldable pub joined_from : ℕ → List String → List String
joined_from zero fs = join " " fs ∷ []
joined_from (suc i) [] = []
joined_from (suc i) (f ∷ fs) = f ∷ joined_from i fs

-- The values of a line, of which the i-th is put under the i-th title.
unfoldable pub values : Option ℕ → List String → List String
unfolding joined_from
values none fs = fs
values (some i) fs = if ltb i (length fs) then joined_from i fs else fs

-- The map of a line: later values replace those under an equal title.
unfoldable pub assign : List String → List String → Map String → Map String
assign [] vs m = m
assign (t ∷ ts) [] m = m
assign (t ∷ ts) (v ∷ vs) m = assign ts vs (insert t v m)

abbrev pub value_or_empty : Option String → String
value_or_empty none = ""
value_or_empty (some v) = v

-- The values of the map in the order of the titles.
unfoldable pub row : List String → Map String → List String
row titles m = map (λ title. value_or_empty (lookup title m)) titles

unfoldable pub process_of : List String → String → List String
unfolding values assign row command_index
process_of titles line = row titles (assign titles (values (command_index titles) (fields line)) [])

abbrev pub with_titles : List String → List String → Result (List String × List (List String))
with_titles [] lines = err (plain "no titles found")
with_titles (t ∷ ts) lines =
    ok (t ∷ ts, map (process_of (t ∷ ts)) (nonempty (map trim_space lines)))

-- parseTopOutput
unfoldable pub parse_top_output : List String → Result (List String × List (List String))
unfolding process_of fields trim_space nonempty
parse_top_output [] = err (plain "insufficient output lines")
parse_top_output (l ∷ []) = err (plain "insufficient output lines")
parse_top_output (l ∷ m ∷ lines) = with_titles (fields l) (m ∷ lines)

unfoldable pub top_code : GoError → ℕ
unfolding is_not_found is_conflict contains message
top_code e =
    if is_not_found e
    then 404
    else if is_conflict e
    then 409
    else if contains (message e) "unknown" || contains (message e) "invalid"
    then 400
    else 500

-- `container_top` is nerdctl's ContainerTop with its `ps` arguments; the text is what it writes.
module _ {W G : Type 0} (b : Backend W G)
    (container_top : String → String → W → Result (Unit {0}) × (String × W)) where
  -- Top
  unfoldable pub top : String → String → W → Result (Unit {0}) × (String × W)
  unfolding get_container_typed
  top cid ps_args w = elim (get_container_typed b cid w).0 [
    | ok c ↦ container_top cid ps_args w
    | err e ↦ (err e, ("", w))
  ]

  abbrev refuse : ℕ → String → Writer TopBody
  refuse code text = json code (error_body text) fresh

  abbrev answer_parsed : Result (List String × List (List String)) → Writer TopBody
  answer_parsed (ok (titles, processes)) =
      json 200 (value (record { processes = processes; titles = titles })) fresh
  answer_parsed (err e) = refuse 500 "invalid top output format"

  abbrev answer_top : Result (Unit {0}) × (String × W) → Writer TopBody × W
  answer_top (err e, (output, w)) = (refuse (top_code e) (message e), w)
  answer_top (ok t, (output, w)) =
      (answer_parsed (parse_top_output (split b'\n' (trim_space output))), w)

  -- top, with the path variable `id` and the query `ps_args`
  unfoldable pub top_handler : Option String → String → W → Writer TopBody × W
  unfolding top top_code parse_top_output trim_space split json message
  top_handler none ps_args w = (refuse 400 "must specify a container ID", w)
  top_handler (some cid) ps_args w =
      if is_empty cid
      then (refuse 400 "must specify a container ID", w)
      else answer_top (top cid ps_args w)

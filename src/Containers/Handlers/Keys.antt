-- ===== src/Containers/Handlers/Keys.antt =====
-- The detach keys of a start request (api/handlers/container/start.go).
use Prim.Native.String.{◌++◌}
use finch_daemon.Prelude.{String, Option, none, some, List, [], ◌∷◌, ◌==◌, if◌then◌else◌}
use finch_daemon.Errors.{GoError, plain}
use finch_daemon.Go.Strings.{
  is_ascii_letter, trim_space, split, cut_prefix, one_byte, to_lower, has_code,
}

abbrev valid_ctrl_keys : String
valid_ctrl_keys = "abcdefghijklmnopqrstuvwxyz@[\\]^_"

-- The test on the text behind "ctrl-".
abbrev check_ctrl_key : String → Option GoError
check_ctrl_key ctrl_key = elim (one_byte ctrl_key) [
  | none ↦ some (plain ("invalid ctrl key: " ++ (ctrl_key ++ " - must be a single character")))
  | some k ↦
      if has_code (to_lower k) valid_ctrl_keys
      then none
      else some
          (plain ("invalid ctrl key: " ++ (ctrl_key ++ (" - must be one of " ++ valid_ctrl_keys))))
]

abbrev check_prefix : String → Option GoError
check_prefix key = elim (cut_prefix "ctrl-" key) [
  | some ctrl_key ↦ check_ctrl_key ctrl_key
  | none ↦
      some
        (plain ("invalid key: " ++ (key ++ " - must be a single character or ctrl- combination")))
]

abbrev check_key : String → Option GoError
check_key key = elim (one_byte key) [
  | some k ↦
      if is_ascii_letter k
      then none
      else some (plain ("invalid key: " ++ (key ++ " - single character must be a letter")))
  | none ↦ check_prefix key
]

unfoldable pub validate_single_key : String → Option GoError
unfolding trim_space one_byte is_ascii_letter cut_prefix to_lower has_code
validate_single_key key = check_key (trim_space key)

abbrev or_next : Option GoError → Option GoError → Option GoError
or_next none next = next
or_next (some e) next = some e

-- The loop over the parts: the first error ends it.
unfoldable pub validate_parts : List String → Option GoError
validate_parts [] = none
validate_parts (part ∷ parts) = or_next (validate_single_key part) (validate_parts parts)

unfoldable pub validate_detach_keys : String → Option GoError
unfolding validate_parts validate_single_key split
validate_detach_keys keys = if keys == "" then none else validate_parts (split b',' keys)

-- ===== src/Errors.antt =====
-- pkg/errdefs/errdefs.go: the typed errors of the daemon, and the Go error values they wrap.
pub mod Laws
use Prim.Native.String.{◌++◌}
use finch_daemon.Prelude.{ℕ, String, Bool, false, Option, none, some, nat_eq}

-- The constants, by their `iota` values in `type_code`.
pub data ErrType : Type 0 where
  unknown unauthenticated not_found invalid_format conflict not_modified wrong_semantics forbidden :
      ErrType

abbrev pub type_code : ErrType → ℕ
type_code unknown = 0
type_code unauthenticated = 1
type_code not_found = 2
type_code invalid_format = 3
type_code conflict = 4
type_code not_modified = 5
type_code wrong_semantics = 6
type_code forbidden = 7

-- A Go error: `errors.New` (and `fmt.Errorf` without %w), `fmt.Errorf` with one %w between two
-- texts, an `errWithType`, and an error value of another package, with its kind and its message.
pub data GoError : Type 0 where
  plain : String → GoError
  wrap : String → GoError → String → GoError
  with_type : ErrType → GoError → GoError
  foreign : ℕ → String → GoError

-- `Error()`
unfoldable pub message : GoError → String
message (plain s) = s
message (wrap before e after) = before ++ message e ++ after
message (with_type t e) = message e
message (foreign k s) = s

-- `Unwrap()`
unfoldable pub unwrap : GoError → Option GoError
unwrap (wrap before e after) = some e
unwrap (with_type t e) = some e
unwrap _ = none

-- `errors.As(err, &ewt)`: the first `errWithType` of the chain.
unfoldable pub as_err_with_type : GoError → Option ErrType
as_err_with_type (with_type t e) = some t
as_err_with_type (wrap before e after) = as_err_with_type e
as_err_with_type (plain s) = none
as_err_with_type (foreign k s) = none

unfoldable pub is_type : ErrType → GoError → Bool
unfolding as_err_with_type
is_type t err = elim (as_err_with_type err) [
  | none ↦ false
  | some found ↦ nat_eq (type_code found) (type_code t)
]

abbrev pub new_not_found : GoError → GoError
new_not_found err = with_type not_found err

abbrev pub new_conflict : GoError → GoError
new_conflict err = with_type conflict err

abbrev pub new_not_modified : GoError → GoError
new_not_modified err = with_type not_modified err

abbrev pub new_forbidden : GoError → GoError
new_forbidden err = with_type forbidden err

unfoldable pub is_not_found : GoError → Bool
unfolding is_type
is_not_found err = is_type not_found err

unfoldable pub is_conflict : GoError → Bool
unfolding is_type
is_conflict err = is_type conflict err

unfoldable pub is_not_modified : GoError → Bool
unfolding is_type
is_not_modified err = is_type not_modified err

unfoldable pub is_invalid_format : GoError → Bool
unfolding is_type
is_invalid_format err = is_type invalid_format err

unfoldable pub is_forbidden_error : GoError → Bool
unfolding is_type
is_forbidden_error err = is_type forbidden err

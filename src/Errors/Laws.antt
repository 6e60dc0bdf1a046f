-- ===== src/Errors/Laws.antt =====
-- Classification of errors (pkg/errdefs/errdefs.go).
use finch_daemon.Prelude.{◌≡◌, ◌↔◌, true, some, inl, inr, arith, Option-cases}
use finch_daemon.Errors.{ErrType, GoError, as_err_with_type, is_type, type_code}

-- No two error types share a code.
type_code-injective : (s t : ErrType) → type_code s ≡ type_code t → s ≡ t
type_code-injective s t h = ground arith

pub is_type_iff : (t : ErrType) (e : GoError) → (is_type t e ≡ true) ↔ (as_err_with_type e ≡ some t)
unfolding is_type
is_type_iff t e = elim (Option-cases (as_err_with_type e)) [
  | inl missing ↦ rw missing (ground arith)
  | inr (s, found) ↦ rw found (ground (arith, type_code-injective s t))
]

-- An error has at most one type: two tests that both pass ask for the same type.
pub is_type_unique : (s t : ErrType) (e : GoError) → is_type s e ≡ true → is_type t e ≡ true → s ≡ t
is_type_unique s t e hs ht = cc ((is_type_iff s e).0 hs, (is_type_iff t e).0 ht)

-- ===== src/Go/Strconv.antt =====
-- strconv.ParseInt, Atoi and ParseBool, and int64 arithmetic.
use Prim.Native.Char.{code}
use finch_daemon.Prelude.{
  ℕ, ◌<◌, ◌≤◌, subst, inl, inr, arith, Bool-cases, ltb→lt, ◌+◌, ◌-◌, ◌*◌, ◌%◌, ◌^◌, String, ◌≡◌,
  refl, Bool, true, false, ◌&&◌, ◌||◌, Option, none, some, List, [], ◌∷◌, ltb, leb, nat_eq, ◌==◌,
  if◌then◌else◌,
}
use finch_daemon.Prelude.Int.{ℤ, pos, negsuc, sub_ℕ, pos_part, neg_part}

-- The code points of a text.
abbrev pub codes : String → List ℕ
codes String.[] = []
codes (String.◌∷◌ c s) = code c ∷ codes s

abbrev is_digit : ℕ → Bool
is_digit c = leb b'0' c && leb c b'9'

digits : ℕ → List ℕ → Option ℕ
digits n [] = some n
digits n (c ∷ cs) = let rest = digits (n * 10 + (c - b'0')) cs in if is_digit c then rest else none

unsigned : List ℕ → Option ℕ
unfolding digits
unsigned [] = none
unsigned (c ∷ cs) = digits 0 (c ∷ cs)

-- The result of ParseInt: the value with no error, or the kind of error. A range error comes with
-- the nearest value.
pub data Parsed : Type 0 where
  parsed : ℤ → Parsed
  syntax_error : Parsed
  range_error : ℤ → Parsed

abbrev int64_limit : ℕ
int64_limit = 2 ^ 63

positive : Option ℕ → Parsed
positive none = syntax_error
positive (some n) =
    if ltb n int64_limit then parsed (pos n) else range_error (pos (int64_limit - 1))

negative : Option ℕ → Parsed
negative none = syntax_error
negative (some n) =
    if leb n int64_limit then parsed (sub_ℕ 0 n) else range_error (sub_ℕ 0 int64_limit)

with_sign : List ℕ → Parsed
unfolding positive negative unsigned
with_sign [] = syntax_error
with_sign (c ∷ cs) =
    if nat_eq c b'-'
    then negative (unsigned cs)
    else if nat_eq c b'+'
    then positive (unsigned cs)
    else positive (unsigned (c ∷ cs))

-- ParseUint(s, 10, 64), without its error
unfoldable pub parse_uint : String → Option ℕ
unfolding unsigned
parse_uint s = elim (unsigned (codes s)) [
  | none ↦ none
  | some n ↦ if ltb n (2 ^ 64) then some n else none
]

-- ParseInt(s, 10, 64)
unfoldable pub parse_int : String → Parsed
unfolding with_sign
parse_int s = with_sign (codes s)

-- Atoi, with its error dropped
unfoldable pub atoi_value : String → ℤ
unfolding parse_int
atoi_value s = elim (parse_int s) [ parsed n ↦ n | syntax_error ↦ pos 0 | range_error n ↦ n ]

-- ParseBool; `none` is an error
unfoldable pub parse_bool : String → Option Bool
parse_bool s =
    if s == "1" || s == "t" || s == "T" || s == "TRUE" || s == "true" || s == "True"
    then some true
    else if s == "0" || s == "f" || s == "F" || s == "FALSE" || s == "false" || s == "False"
    then some false
    else none

abbrev word64 : ℕ
word64 = 2 ^ 64

-- The two's complement pattern of an integer, and the int64 that a pattern stands for.
abbrev pub to_word : ℤ → ℕ
to_word z = (pos_part z % word64 + word64 - neg_part z % word64) % word64

abbrev pub of_word : ℕ → ℤ
of_word n = if ltb n int64_limit then pos n else sub_ℕ 0 (word64 - n)

-- The integers of an int64
abbrev pub IsInt64 : ℤ → Type 0
IsInt64 z = (pos_part z < 2 ^ 63) × (neg_part z ≤ 2 ^ 63)

parsed-inj : {x y : ℤ} → parsed x ≡ parsed y → x ≡ y
parsed-inj h = cc h

pos-IsInt64 : (n : ℕ) → n < 2 ^ 63 → IsInt64 (pos n)
pos-IsInt64 n small = (small, omega arith)

minus-IsInt64 : (n : ℕ) → n ≤ 2 ^ 63 → IsInt64 (sub_ℕ 0 n)
minus-IsInt64 n small = (ground arith, ground arith)

positive-IsInt64 : (n : Option ℕ) (z : ℤ) → positive n ≡ parsed z → IsInt64 z
unfolding positive
positive-IsInt64 none z h = absurd (cc h)
positive-IsInt64 (some n) z h = elim (Bool-cases (ltb n int64_limit)) [
  | inr large ↦ absurd (ground arith)
  | inl small ↦
      let same : pos n ≡ z = parsed-inj (ground arith) in
      subst IsInt64 same (pos-IsInt64 n (ltb→lt n int64_limit small))
]

negative-IsInt64 : (n : Option ℕ) (z : ℤ) → negative n ≡ parsed z → IsInt64 z
unfolding negative
negative-IsInt64 none z h = absurd (cc h)
negative-IsInt64 (some n) z h = elim (Bool-cases (leb n int64_limit)) [
  | inr large ↦ absurd (ground arith)
  | inl small ↦
      let same : sub_ℕ 0 n ≡ z = parsed-inj (ground arith) in
      subst IsInt64 same (minus-IsInt64 n (ground arith))
]

with_sign-IsInt64 : (cs : List ℕ) (z : ℤ) → with_sign cs ≡ parsed z → IsInt64 z
unfolding with_sign
with_sign-IsInt64 [] z h = absurd (cc h)
with_sign-IsInt64 (c ∷ cs) z h = elim (Bool-cases (nat_eq c b'-')) [
  | inl minus ↦ negative-IsInt64 (unsigned cs) z (ground arith)
  | inr other ↦ elim (Bool-cases (nat_eq c b'+')) [
    | inl plus ↦ positive-IsInt64 (unsigned cs) z (ground arith)
    | inr digit_ ↦ positive-IsInt64 (unsigned (c ∷ cs)) z (ground arith)
  ]
]

-- What ParseInt gives without an error is in the range of an int64.
pub parse_int-IsInt64 : (s : String) (z : ℤ) → parse_int s ≡ parsed z → IsInt64 z
unfolding parse_int
parse_int-IsInt64 s z h = with_sign-IsInt64 (codes s) z h

-- An int64 one up and one down, which wrap.
abbrev pub next_int64 : ℤ → ℤ
next_int64 z = of_word (to_word (sub_ℕ (pos_part z + 1) (neg_part z)))

abbrev pub previous_int64 : ℤ → ℤ
previous_int64 z = of_word (to_word (sub_ℕ (pos_part z) (neg_part z + 1)))

pub previous-next : (z : ℤ) → IsInt64 z → previous_int64 (next_int64 z) ≡ z
previous-next (pos n) (small, h) = ground arith
previous-next (negsuc n) (h, small) = ground arith

abbrev scale : ℕ → ℤ → ℤ
scale k z = sub_ℕ (k * pos_part z) (k * neg_part z)

-- k * z in int64, for a constant k
unfoldable pub scale_int64 : ℕ → ℤ → ℤ
scale_int64 k z = of_word (to_word (scale k z))

parse_int_tests :
    (parse_int "-12" ≡ parsed (negsuc 11))
    × (parse_int "1x" ≡ syntax_error)
    × (parse_int "" ≡ syntax_error)
    × (parse_int "9223372036854775808" ≡ range_error (pos 9223372036854775807))
    × (scale_int64 1000000000 (pos 9223372037) ≡ negsuc 9223372036709551615)
unfolding parse_int scale_int64
parse_int_tests = (refl, refl, refl, refl, refl)

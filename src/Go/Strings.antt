-- ===== src/Go/Strings.antt =====
-- The functions of Go's `strings` and `unicode` that the program uses, on valid UTF-8 texts.
use Prim.Native.Char.{Char, code}
use Prim.Native.String.{◌++◌}
use Prim.Native.String.append
use text.Mathlib.TextEquality.{Char-path}
use finch_daemon.Prelude.{
  ℕ, ◌+◌, String, ◌≡◌, refl, sym, ap, ◌∙◌, inl, inr, arith, Bool-cases, nat_eq_iff, Bool, true,
  false, ◌&&◌, ◌||◌, Option, none, some, List, [], ◌∷◌, leb, ltb, nat_eq, if◌then◌else◌,
}

abbrev pub is_empty : String → Bool
is_empty String.[] = true
is_empty (String.◌∷◌ c s) = false

abbrev pub within : ℕ → ℕ → ℕ → Bool
within lo hi c = leb lo c && leb c hi

-- unicode.IsSpace
unfoldable pub is_space : ℕ → Bool
is_space c =
    within 9 13 c
    || nat_eq c 32
    || nat_eq c 0x85
    || nat_eq c 0xa0
    || nat_eq c 0x1680
    || within 0x2000 0x200a c
    || nat_eq c 0x2028
    || nat_eq c 0x2029
    || nat_eq c 0x202f
    || nat_eq c 0x205f
    || nat_eq c 0x3000

-- unicode.IsLetter, below 128
unfoldable pub is_ascii_letter : ℕ → Bool
is_ascii_letter c = within b'a' b'z' c || within b'A' b'Z' c

trim_left : String → String
trim_left String.[] = ""
trim_left (String.◌∷◌ c s) =
    let rest = trim_left s in if is_space (code c) then rest else String.◌∷◌ c s

trim_right : String → String
trim_right String.[] = ""
trim_right (String.◌∷◌ c s) =
    let rest = trim_right s in if is_empty rest && is_space (code c) then "" else String.◌∷◌ c rest

-- TrimSpace
unfoldable pub trim_space : String → String
unfolding trim_left trim_right is_space
trim_space s = trim_right (trim_left s)

abbrev push_front : Char → List String → List String
push_front c [] = String.◌∷◌ c "" ∷ []
push_front c (s ∷ ss) = String.◌∷◌ c s ∷ ss

-- The parts of a text between the characters that pass the test.
unfoldable pub split_by : (ℕ → Bool) → String → List String
split_by p String.[] = "" ∷ []
split_by p (String.◌∷◌ c s) =
    let rest = split_by p s in if p (code c) then "" ∷ rest else push_front c rest

-- Split(s, sep) for a separator of one character
unfoldable pub split : ℕ → String → List String
unfolding split_by
split sep s = split_by (nat_eq sep) s

unfoldable pub nonempty : List String → List String
nonempty [] = []
nonempty (s ∷ ss) = let rest = nonempty ss in if is_empty s then rest else s ∷ rest

-- Fields
unfoldable pub fields : String → List String
unfolding split_by nonempty is_space
fields s = nonempty (split_by is_space s)

-- Join
unfoldable pub join : String → List String → String
join sep [] = ""
join sep (s ∷ []) = s
join sep (s ∷ t ∷ ss) = s ++ (sep ++ join sep (t ∷ ss))

some-inj : {x y : String} → Option.some x ≡ some y → x ≡ y
some-inj h = cc h

-- The rest after a prefix: HasPrefix with TrimPrefix, and CutPrefix.
unfoldable pub cut_prefix : String → String → Option String
cut_prefix String.[] s = some s
cut_prefix (String.◌∷◌ c p) String.[] = none
cut_prefix (String.◌∷◌ c p) (String.◌∷◌ d s) =
    let rest = cut_prefix p s in if nat_eq (code c) (code d) then rest else none

pub cut_prefix-eq-some : (p s rest : String) → cut_prefix p s ≡ some rest → s ≡ p ++ rest
unfolding cut_prefix
cut_prefix-eq-some String.[] s rest h = some-inj h ∙ sym (append.nil rest)
cut_prefix-eq-some (String.◌∷◌ c p) String.[] rest h = absurd (cc h)
cut_prefix-eq-some (String.◌∷◌ c p) (String.◌∷◌ d s) rest h =
    elim (Bool-cases (nat_eq (code c) (code d))) [
      | inr apart ↦ absurd (ground arith)
      | inl same ↦
          let at = Char-path c d ((nat_eq_iff (code c) (code d)).0 same) in
          ap (λ x. String.◌∷◌ x s) (sym at)
          ∙ ap (String.◌∷◌ c) (cut_prefix-eq-some p s rest (ground arith))
          ∙ sym (append.cons c p rest)
    ]

-- The only byte of a text of one byte.
unfoldable pub one_byte : String → Option ℕ
one_byte String.[] = none
one_byte (String.◌∷◌ c String.[]) = if ltb (code c) 128 then some (code c) else none
one_byte (String.◌∷◌ c (String.◌∷◌ d s)) = none

-- ToLower, below 128
unfoldable pub to_lower : ℕ → ℕ
to_lower c = if within b'A' b'Z' c then c + 32 else c

-- ContainsRune
unfoldable pub has_code : ℕ → String → Bool
has_code k String.[] = false
has_code k (String.◌∷◌ c s) = nat_eq k (code c) || has_code k s

strings_tests :
    (trim_space " a b\n" ≡ "a b")
    × (split b',' "a,,b" ≡ "a" ∷ "" ∷ "b" ∷ [])
    × (fields "  x  yz " ≡ "x" ∷ "yz" ∷ [])
    × (join ", " ("a" ∷ "b" ∷ []) ≡ "a, b")
    × (cut_prefix "ctrl-" "ctrl-p" ≡ some "p")
unfolding trim_space split fields join cut_prefix
strings_tests = (refl, refl, refl, refl, refl)

pub is_empty-eq-true : (s : String) → is_empty s ≡ true → s ≡ ""
is_empty-eq-true String.[] h = refl
is_empty-eq-true (String.◌∷◌ c s) h = absurd (cc h)

-- ===== src/Go/Decimal.antt =====
-- fmt.Sprint and strconv.Itoa of an integer.
use Prim.Native.String.{◌++◌}
use finch_daemon.Prelude.{
  ℕ, zero, suc, ◌/◌, ◌%◌, String, ◌≡◌, refl, true, false, nat_eq, if◌then◌else◌,
}
use finch_daemon.Prelude.Int.{ℤ, pos, negsuc}

abbrev digit : ℕ → String
digit n =
    if nat_eq n 0
    then "0"
    else if nat_eq n 1
    then "1"
    else if nat_eq n 2
    then "2"
    else if nat_eq n 3
    then "3"
    else if nat_eq n 4
    then "4"
    else if nat_eq n 5
    then "5"
    else if nat_eq n 6
    then "6"
    else if nat_eq n 7
    then "7"
    else if nat_eq n 8
    then "8"
    else "9"

-- The digits of a number in front of a text; each round divides by ten, so a fuel of the number
-- itself is enough.
decimal : ℕ → ℕ → String → String
decimal zero n out = out
decimal (suc fuel) n out = elim (nat_eq n 0) [
  | true ↦ out
  | false ↦ decimal fuel (n / 10) (digit (n % 10) ++ out)
]

natural : ℕ → String
unfolding decimal
natural n = elim (nat_eq n 0) [ true ↦ "0" | false ↦ decimal n n "" ]

-- fmt.Sprint
unfoldable pub sprint : ℤ → String
unfolding natural
sprint (pos n) = natural n
sprint (negsuc n) = "-" ++ natural (suc n)

sprint_tests :
    (sprint (pos 0) ≡ "0") × (sprint (negsuc 11) ≡ "-12") × (sprint (pos 536870912) ≡ "536870912")
unfolding sprint
sprint_tests = (refl, refl, refl)

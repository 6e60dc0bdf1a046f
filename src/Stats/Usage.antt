-- ===== src/Stats/Usage.antt =====
-- What GetSystemCPUUsage computes (pkg/statsutil/statsutil.go).
use finch_daemon.Prelude.{
  ℕ, ◌+◌, ◌*◌, ◌^◌, ◌<◌, ◌≤◌, ◌≡◌, ◌↔◌, sym, ◌∙◌, suc, String, false, some, List, [], ◌∷◌, ◌++◌,
  length, ltb, ◌==◌, arith, All, ap,
}
use finch_daemon.Go.Strconv.{parse_uint}
use finch_daemon.Go.Strings.{fields}
use finch_daemon.Stats.Cpu.{
  Outcome, usage, in_nanoseconds, add_ticks, sum_parts, cpu_line, get_system_cpu_usage,
}

unfoldable pub sum : List ℕ → ℕ
sum [] = 0
sum (v ∷ vs) = v + sum vs

-- The first parts parse to these numbers.
abbrev pub Parses : List ℕ → List String → Type 0
Parses [] parts = Unit
Parses (v ∷ vs) [] = ⊥
Parses (v ∷ vs) (i ∷ parts) = (parse_uint i ≡ some v) × Parses vs parts

-- A line with parts, of which the first is not "cpu".
abbrev pub IsOther : String → Type 0
IsOther line =
    (key : String) × (parts : List String) × (fields line ≡ key ∷ parts) × ((key == "cpu") ≡ false)

Parses-length : (vs : List ℕ) (parts : List String) → Parses vs parts → length vs ≤ length parts
Parses-length [] parts h = omega arith
Parses-length (v ∷ vs) [] h = elim h [ ]
Parses-length (v ∷ vs) (i ∷ parts) (p, h) = omega (arith, Parses-length vs parts h)

add_ticks_exact : (t v : ℕ) → t + v < 2 ^ 64 → add_ticks t v ≡ t + v
unfolding add_ticks
add_ticks_exact t v below = omega arith

step_eq :
    (i : String) (v n total : ℕ) (parts : List String) (o : Outcome)
    → parse_uint i ≡ some v
    → sum_parts n (add_ticks total v) parts ≡ o
    → sum_parts (suc n) total (i ∷ parts) ≡ o
unfolding sum_parts
step_eq i v n total parts o p rest = ground arith

sum_parts-sum :
    (vs : List ℕ) (parts : List String) (total : ℕ)
    → Parses vs parts
    → total + sum vs < 2 ^ 64
    → sum_parts (length vs) total parts ≡ usage (in_nanoseconds (total + sum vs))
unfolding sum_parts sum
sum_parts-sum [] parts total h below = ap (λ n. usage (in_nanoseconds n)) (omega arith)
sum_parts-sum (v ∷ vs) [] total h below = elim h [ ]
sum_parts-sum (v ∷ vs) (i ∷ parts) total (p, h) below =
    let same : add_ticks total v ≡ total + v = add_ticks_exact total v (omega arith) in
    let rest : sum_parts (length vs) (add_ticks total v) parts
        ≡ usage (in_nanoseconds (total + (v + sum vs))) =
      rw same (
        sum_parts-sum vs parts (total + v) h (omega arith)
        ∙ ap (λ n. usage (in_nanoseconds n)) (omega arith)) in
    step_eq i v (length vs) total parts _ p rest

-- The time is right, ten million nanoseconds to a tick, exactly while the product of the ticks and
-- 10 ^ 9 fits in 64 bits; beyond that it is smaller.
pub in_nanoseconds_exact : (t : ℕ) → (in_nanoseconds t ≡ t * 10 ^ 7) ↔ (t * 10 ^ 9 < 2 ^ 64)
unfolding in_nanoseconds
in_nanoseconds_exact t = (λ h. omega arith, λ h. omega arith)

cpu_line-sum :
    (vs : List ℕ) (parts : List String)
    → length vs ≡ 7
    → Parses vs parts
    → sum vs * 10 ^ 9 < 2 ^ 64
    → cpu_line parts ≡ usage (sum vs * 10 ^ 7)
unfolding cpu_line
cpu_line-sum vs parts seven h below =
    let enough : ltb (length parts) 7 ≡ false = ground (arith, Parses-length vs parts h) in
    rw (enough, sym seven)
      (sum_parts-sum vs parts 0 h (omega arith)
        ∙ ap usage ((in_nanoseconds_exact (0 + sum vs)).1 (omega arith) ∙ omega arith))

-- The first line for all processors decides: if its first seven numbers have a sum whose product
-- with 10 ^ 9 fits in 64 bits, the result is ten million times that sum.
pub usage_exact :
    (before : List String) (line : String) (parts : List String) (vs : List ℕ) (after : List String)
    → All IsOther before
    → fields line ≡ "cpu" ∷ parts
    → length vs ≡ 7
    → Parses vs parts
    → sum vs * 10 ^ 9 < 2 ^ 64
    → get_system_cpu_usage (before ++ line ∷ after) ≡ usage (sum vs * 10 ^ 7)
unfolding get_system_cpu_usage
usage_exact [] line parts vs after others at seven h below =
    rw at (cpu_line-sum vs parts seven h below)
usage_exact (b ∷ before) line parts vs after ((key, rest, split, differs), others) at seven h
      below =
    rw (split, differs) (usage_exact before line parts vs after others at seven h below)

-- ===== src/Stats/Cpu.antt =====
-- pkg/statsutil/statsutil.go: the CPU time of the host from the lines of /proc/stat.
use Prim.Native.String.{◌++◌}
use finch_daemon.Prelude.{
  ℕ, ◌+◌, ◌*◌, ◌/◌, ◌%◌, ◌^◌, zero, suc, String, none, some, List, [], ◌∷◌, length, ltb, ◌==◌,
  if◌then◌else◌,
}
use finch_daemon.Go.Strconv.{parse_uint}
use finch_daemon.Go.Strings.{fields}

-- The result of GetSystemCPUUsage. It panics where `parts[0]` is out of range.
pub data Outcome : Type 0 where
  usage : ℕ → Outcome
  fails : String → Outcome
  panics : Outcome

abbrev pub clock_ticks_per_second : ℕ
clock_ticks_per_second = 100

abbrev pub nano_seconds_per_second : ℕ
nano_seconds_per_second = 10 ^ 9

-- (totalClockTicks * nanoSecondsPerSecond) / clockTicksPerSecond on 64 bits
unfoldable pub in_nanoseconds : ℕ → ℕ
in_nanoseconds total_clock_ticks =
    (total_clock_ticks * nano_seconds_per_second % 2 ^ 64) / clock_ticks_per_second

unfoldable pub add_ticks : ℕ → ℕ → ℕ
add_ticks total_clock_ticks v = (total_clock_ticks + v) % 2 ^ 64

-- The loop over the first `n` parts; the message of the error leaves out that of strconv.
unfoldable pub sum_parts : ℕ → ℕ → List String → Outcome
unfolding add_ticks in_nanoseconds
sum_parts zero total parts = usage (in_nanoseconds total)
sum_parts (suc n) total [] = panics
sum_parts (suc n) total (i ∷ parts) = elim (parse_uint i) [
  | none ↦ fails ("unable to convert value " ++ (i ++ " to int"))
  | some v ↦ sum_parts n (add_ticks total v) parts
]

unfoldable pub cpu_line : List String → Outcome
unfolding sum_parts
cpu_line parts =
    if ltb (length parts) 7 then fails "invalid number of cpu fields" else sum_parts 7 0 parts

-- The body of the loop for the parts of a line, and the result for the lines after it
abbrev pub on_parts : List String → Outcome → Outcome
on_parts [] rest = panics
on_parts (key ∷ parts) rest = if key == "cpu" then cpu_line parts else rest

-- GetSystemCPUUsage on the lines of the file that end in a newline
unfoldable pub get_system_cpu_usage : List String → Outcome
unfolding cpu_line
get_system_cpu_usage [] = fails "invalid stat format. Error trying to parse the '/proc/stat' file"
get_system_cpu_usage (line ∷ lines) = on_parts (fields line) (get_system_cpu_usage lines)

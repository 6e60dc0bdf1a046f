-- ===== src/Stats/Tests.antt =====
-- Statistics on concrete values.
use finch_daemon.Prelude.{
  ℕ, ◌≡◌, ◌↔◌, ◌*◌, ◌^◌, ◌<◌, refl, String, none, some, List, [], ◌∷◌, ◌+◌, true, length, arith,
}
use finch_daemon.Act.{ok, pure}
use finch_daemon.Go.Strconv.{parse_uint}
use finch_daemon.Go.Strings.{fields}
use finch_daemon.Containers.Backend.{running}
use finch_daemon.Stats.Types.{StatsJson, empty_stats}
use finch_daemon.Stats.V2
use finch_daemon.Stats.Cgroups.{collect_cgroup2_stats}
use finch_daemon.Stats.Collect.{
  Probe, v2_metrics, Event, tick, removed, collect_container_stats, collect_metrics, send_stats,
}
use finch_daemon.Stats.Chain.{Chained, ticks, send_stats-Chained}
use finch_daemon.Stats.Cpu.{usage, in_nanoseconds, get_system_cpu_usage}
use finch_daemon.Stats.Usage.{Parses, sum, in_nanoseconds_exact, usage_exact}

abbrev One : Type 0
One = Unit {0}

abbrev metrics : V2.Metrics
metrics = record {
  pids = none;
  cpu = some (record { usage_usec = 5; user_usec = 3; system_usec = 2 });
  memory = none;
  memory_events = none;
  io = none;
}

-- The world is the CPU time of the host, which grows.
abbrev probe : Probe ℕ One One One
probe = record {
  task = pure tt;
  is_c_not_found = λ e. true;
  status = λ t. pure running;
  metrics = λ t. pure (v2_metrics metrics);
  get_system_cpu_usage = λ w. (ok w, w + 10);
  get_number_online_cpus = pure 4;
  inspect_net_ns = λ t. pure [];
  collect_network_stats = λ t is. pure [];
}

abbrev events : List Event
events = tick 1 ∷ tick 2 ∷ removed ∷ tick 3 ∷ []

abbrev before : StatsJson One
before = empty_stats "" ""

send_stats-Chained_example :
    (length (send_stats probe "c1" "/web" events before 100) ≡ ticks events)
    × Chained "c1" "/web" before (send_stats probe "c1" "/web" events before 100)
send_stats-Chained_example = send_stats-Chained probe "c1" "/web" events before 100

-- The sample that the probe gives at first.
abbrev first_sample : StatsJson One
first_sample =
    let st = collect_cgroup2_stats metrics in
    record st { cpu_stats = record (st.cpu_stats) { system_usage = 100; online_cpus = 4 } }

collected : (collect_container_stats probe 100).0 ≡ ok (some first_sample)
unfolding collect_container_stats collect_metrics
collected = refl

in_nanoseconds_exact_example : (in_nanoseconds 7 ≡ 7 * 10 ^ 7) ↔ (7 * 10 ^ 9 < 2 ^ 64)
in_nanoseconds_exact_example = in_nanoseconds_exact 7

-- After 2 ^ 64 / 10 ^ 9 ticks the time starts again.
wraps : in_nanoseconds 18446744074 ≡ 2904483
unfolding in_nanoseconds
wraps = refl

abbrev proc_stat : String
proc_stat = "cpu  10 2 3 400 5 0 1 0"

abbrev parts : List String
parts = "10" ∷ "2" ∷ "3" ∷ "400" ∷ "5" ∷ "0" ∷ "1" ∷ "0" ∷ []

abbrev numbers : List ℕ
numbers = 10 ∷ 2 ∷ 3 ∷ 400 ∷ 5 ∷ 0 ∷ 1 ∷ []

split : fields proc_stat ≡ "cpu" ∷ parts
unfolding fields
split = refl

parsed_ : Parses numbers parts
unfolding parse_uint
parsed_ = (refl, (refl, (refl, (refl, (refl, (refl, (refl, tt)))))))

small : sum numbers * 10 ^ 9 < 2 ^ 64
unfolding sum
small = omega arith

usage_exact_example :
    get_system_cpu_usage (proc_stat ∷ "intr 1" ∷ []) ≡ usage (sum numbers * 10 ^ 7)
usage_exact_example =
    usage_exact [] proc_stat parts numbers ("intr 1" ∷ []) tt split refl parsed_ small

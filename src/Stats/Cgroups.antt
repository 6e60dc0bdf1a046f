-- ===== src/Stats/Cgroups.antt =====
-- collectCgroup1Stats and collectCgroup2Stats of internal/service/container/stats.go.
use finch_daemon.Prelude.{ℕ, ◌*◌, ◌%◌, ◌^◌, Option, none, some, List, [], ◌∷◌, map, length}
use finch_daemon.Stats.Types.{
  PidsStats, CpuStats, MemoryStats, BlkioStatEntry, BlkioStats, StatsJson, no_pids, no_cpu,
  no_memory, no_blkio, empty_stats,
}
use finch_daemon.Stats.V1
use finch_daemon.Stats.V2

unfoldable pub translate_blkio_entry : List V1.BlkIoEntry → List BlkioStatEntry
translate_blkio_entry entries =
    map (λ re. record { major = re.major; minor = re.minor; op = re.op; value = re.value }) entries

abbrev pub pids_of : Option PidsStats → PidsStats
pids_of none = no_pids
pids_of (some p) = p

abbrev cpu1 : Option (Option V1.CpuUsage) → CpuStats
cpu1 (some (some u)) = record {
  cpu_usage = record {
    total_usage = u.total;
    percpu_usage = u.per_cpu;
    usage_in_kernelmode = u.kernel;
    usage_in_usermode = u.user;
  };
  system_usage = 0;
  online_cpus = length u.per_cpu % 2 ^ 32;
}
cpu1 (some none) = no_cpu
cpu1 none = no_cpu

abbrev memory1 : Option (Option V1.MemoryEntry) → MemoryStats
memory1 (some (some m)) = record {
  usage = m.usage;
  max_usage = m.max;
  failcnt = m.failcnt;
  limit = m.limit;
}
memory1 (some none) = no_memory
memory1 none = no_memory

abbrev blkio1 : Option (BlkioStats V1.BlkIoEntry) → BlkioStats BlkioStatEntry
blkio1 none = no_blkio
blkio1 (some b) = record {
  io_service_bytes_recursive = translate_blkio_entry b.io_service_bytes_recursive;
  io_serviced_recursive = translate_blkio_entry b.io_serviced_recursive;
  io_queued_recursive = translate_blkio_entry b.io_queued_recursive;
  io_service_time_recursive = translate_blkio_entry b.io_service_time_recursive;
  io_wait_time_recursive = translate_blkio_entry b.io_wait_time_recursive;
  io_merged_recursive = translate_blkio_entry b.io_merged_recursive;
  io_time_recursive = translate_blkio_entry b.io_time_recursive;
  sectors_recursive = translate_blkio_entry b.sectors_recursive;
}

unfoldable pub collect_cgroup1_stats : {NS : Type 0} → V1.Metrics → StatsJson NS
unfolding translate_blkio_entry
collect_cgroup1_stats data_ = record (empty_stats "" "") {
  pids_stats = pids_of data_.pids;
  cpu_stats = cpu1 data_.cpu;
  memory_stats = memory1 data_.memory;
  blkio_stats = blkio1 data_.blkio;
}

-- The microseconds of the second version in nanoseconds
abbrev cpu2 : Option V2.CpuStat → CpuStats
cpu2 none = no_cpu
cpu2 (some c) = record {
  cpu_usage = record {
    total_usage = c.usage_usec * 1000 % 2 ^ 64;
    percpu_usage = [];
    usage_in_kernelmode = c.system_usec * 1000 % 2 ^ 64;
    usage_in_usermode = c.user_usec * 1000 % 2 ^ 64;
  };
  system_usage = 0;
  online_cpus = 0;
}

abbrev oom_of : Option ℕ → ℕ
oom_of none = 0
oom_of (some n) = n

abbrev memory2 : Option V2.MemoryStat → Option ℕ → MemoryStats
memory2 none events = no_memory
memory2 (some m) events = record {
  usage = m.usage;
  max_usage = 0;
  failcnt = oom_of events;
  limit = m.usage_limit;
}

unfoldable pub io_entries : List V2.IoEntry → List BlkioStatEntry
io_entries [] = []
io_entries (re ∷ entries) =
    record { major = re.major; minor = re.minor; op = "read"; value = re.rbytes }
    ∷ record { major = re.major; minor = re.minor; op = "write"; value = re.wbytes }
    ∷ io_entries entries

abbrev blkio2 : Option (List V2.IoEntry) → BlkioStats BlkioStatEntry
blkio2 none = no_blkio
blkio2 (some entries) = record no_blkio { io_service_bytes_recursive = io_entries entries }

unfoldable pub collect_cgroup2_stats : {NS : Type 0} → V2.Metrics → StatsJson NS
unfolding io_entries
collect_cgroup2_stats data_ = record (empty_stats "" "") {
  pids_stats = pids_of data_.pids;
  cpu_stats = cpu2 data_.cpu;
  memory_stats = memory2 data_.memory data_.memory_events;
  blkio_stats = blkio2 data_.io;
}

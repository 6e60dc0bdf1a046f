-- ===== src/Stats/Types.antt =====
-- The samples of api/types/container_types.go, with Docker's types in them. A time is a number, the
-- zero time 0.
use finch_daemon.Prelude.{ℕ, String, List, []}
use finch_daemon.Go.Maps.{Map}

pub record PidsStats : Type 0 where
  pub current : ℕ
  pub limit : ℕ

pub record CpuUsage : Type 0 where
  pub total_usage : ℕ
  pub percpu_usage : List ℕ
  pub usage_in_kernelmode : ℕ
  pub usage_in_usermode : ℕ

pub record CpuStats : Type 0 where
  pub cpu_usage : CpuUsage
  pub system_usage : ℕ
  pub online_cpus : ℕ

pub record MemoryStats : Type 0 where
  pub usage : ℕ
  pub max_usage : ℕ
  pub failcnt : ℕ
  pub limit : ℕ

pub record BlkioStatEntry : Type 0 where
  pub major : ℕ
  pub minor : ℕ
  pub op : String
  pub value : ℕ

pub record BlkioStats (E : Type 0) : Type 0 where
  pub io_service_bytes_recursive : List E
  pub io_serviced_recursive : List E
  pub io_queued_recursive : List E
  pub io_service_time_recursive : List E
  pub io_wait_time_recursive : List E
  pub io_merged_recursive : List E
  pub io_time_recursive : List E
  pub sectors_recursive : List E

-- `NS` is what is known of a network interface.
pub record StatsJson (NS : Type 0) : Type 0 where
  pub read : ℕ
  pub pre_read : ℕ
  pub pids_stats : PidsStats
  pub blkio_stats : BlkioStats BlkioStatEntry
  pub cpu_stats : CpuStats
  pub pre_cpu_stats : CpuStats
  pub memory_stats : MemoryStats
  pub name : String
  pub id : String
  pub networks : Map NS

abbrev pub no_pids : PidsStats
no_pids = record { current = 0; limit = 0 }

abbrev pub no_cpu : CpuStats
no_cpu = record {
  cpu_usage = record {
    total_usage = 0;
    percpu_usage = [];
    usage_in_kernelmode = 0;
    usage_in_usermode = 0;
  };
  system_usage = 0;
  online_cpus = 0;
}

abbrev pub no_memory : MemoryStats
no_memory = record { usage = 0; max_usage = 0; failcnt = 0; limit = 0 }

abbrev pub no_blkio : {E : Type 0} → BlkioStats E
no_blkio = record {
  io_service_bytes_recursive = [];
  io_serviced_recursive = [];
  io_queued_recursive = [];
  io_service_time_recursive = [];
  io_wait_time_recursive = [];
  io_merged_recursive = [];
  io_time_recursive = [];
  sectors_recursive = [];
}

-- types.StatsJSON{ID: id, Name: name}
abbrev pub empty_stats : {NS : Type 0} → String → String → StatsJson NS
empty_stats id name = record {
  read = 0;
  pre_read = 0;
  pids_stats = no_pids;
  blkio_stats = no_blkio;
  cpu_stats = no_cpu;
  pre_cpu_stats = no_cpu;
  memory_stats = no_memory;
  name = name;
  id = id;
  networks = [];
}

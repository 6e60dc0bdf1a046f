-- ===== src/Stats/V1.antt =====
-- The metrics of cgroup1/stats, and those of cgroup2/stats in V2.
use finch_daemon.Prelude.{ℕ, String, Option, List}
use finch_daemon.Stats.Types.{PidsStats, BlkioStats}

pub record CpuUsage : Type 0 where
  pub total : ℕ
  pub per_cpu : List ℕ
  pub kernel : ℕ
  pub user : ℕ

pub record MemoryEntry : Type 0 where
  pub usage : ℕ
  pub max : ℕ
  pub failcnt : ℕ
  pub limit : ℕ

pub record BlkIoEntry : Type 0 where
  pub op : String
  pub device : String
  pub major : ℕ
  pub minor : ℕ
  pub value : ℕ

-- `cpu` and `memory` are the pointers to CPU and Memory, and their `Usage`.
pub record Metrics : Type 0 where
  pub pids : Option PidsStats
  pub cpu : Option (Option CpuUsage)
  pub memory : Option (Option MemoryEntry)
  pub blkio : Option (BlkioStats BlkIoEntry)

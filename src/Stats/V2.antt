-- ===== src/Stats/V2.antt =====
-- The metrics of cgroup2/stats.
use finch_daemon.Prelude.{ℕ, Option, List}
use finch_daemon.Stats.Types.{PidsStats}

pub record CpuStat : Type 0 where
  pub usage_usec : ℕ
  pub user_usec : ℕ
  pub system_usec : ℕ

pub record MemoryStat : Type 0 where
  pub usage : ℕ
  pub usage_limit : ℕ

pub record IoEntry : Type 0 where
  pub major : ℕ
  pub minor : ℕ
  pub rbytes : ℕ
  pub wbytes : ℕ

-- `memory_events` is the Oom count, and `io` the Usage.
pub record Metrics : Type 0 where
  pub pids : Option PidsStats
  pub cpu : Option CpuStat
  pub memory : Option MemoryStat
  pub memory_events : Option ℕ
  pub io : Option (List IoEntry)

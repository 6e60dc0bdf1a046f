-- ===== src/Containers/Backend.antt =====
-- What the container service calls: the interfaces of internal/backend/container.go and
-- containerd.go, whose methods pass the call on to nerdctl and containerd.
use finch_daemon.Prelude.{String, Bool, true, false, List}
use finch_daemon.Prelude.Int.{ℤ}
use finch_daemon.Errors.{GoError}
use finch_daemon.Act.{Result, ok, err, Act}

-- containerd.ProcessStatus
pub data ProcessStatus : Type 0 where
  running created stopped paused pausing unknown : ProcessStatus

-- A containerd.Container, by its ID().
pub record Container : Type 0 where
  pub id : String

-- The writers that the handlers hand on.
pub data Output : Type 0 where
  discard dev_null no_writer : Output

-- The options of nerdctl, over its global options.
pub record StartOptions (G : Type 0) : Type 0 where
  pub g_options : G
  pub stdout : Output
  pub attach : Bool
  pub detach_keys : String

pub record StopOptions (G : Type 0) : Type 0 where
  pub g_options : G
  pub stdout : Output
  pub stderr : Output
  pub timeout : ℤ
  pub signal : String

pub record RestartOptions (G : Type 0) : Type 0 where
  pub g_options : G
  pub stdout : Output
  pub timeout : ℤ

pub record KillOptions (G : Type 0) : Type 0 where
  pub g_options : G
  pub kill_signal : String
  pub stdout : Output
  pub stderr : Output

-- PauseOptions, UnpauseOptions and RenameOptions
pub record PlainOptions (G : Type 0) : Type 0 where
  pub g_options : G
  pub stdout : Output

-- The outside world `W`, as the methods read and change it. `container_wait` also gives the texts
-- that it writes to the Stdout of its options.
pub record Backend (W G : Type 0) : Type 1 where
  pub Task : Type 0
  pub search_container : String → W → Result (List Container)
  pub task : Container → W → Result Task
  pub task_status : Task → W → Result ProcessStatus
  pub start_container : String → StartOptions G → Act W (Unit {0})
  pub stop_container : String → StopOptions G → Act W (Unit {0})
  pub pause_container : String → PlainOptions G → Act W (Unit {0})
  pub unpause_container : String → PlainOptions G → Act W (Unit {0})
  pub kill_container : String → KillOptions G → Act W (Unit {0})
  pub remove_container : Container → Bool → Bool → Act W (Unit {0})
  pub rename_container : Container → String → PlainOptions G → Act W (Unit {0})
  pub container_wait : String → G → W → Result (Unit {0}) × List String × W
  -- IsNotFound of containerd's errdefs, and errors.As with nerdctl's ErrContainerStatus
  pub is_c_not_found : GoError → Bool
  pub is_container_status : GoError → Bool

module _ {W G : Type 0} (b : Backend W G) where
  -- GetContainerStatus of internal/backend/containerd.go
  unfoldable pub get_container_status : Container → W → ProcessStatus
  get_container_status c w = elim (b.task c w) [
    | err e ↦ elim (b.is_c_not_found e) [ true ↦ created | false ↦ unknown ]
    | ok t ↦ elim (b.task_status t w) [ err e ↦ unknown | ok status ↦ status ]
  ]

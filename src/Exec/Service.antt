-- ===== src/Exec/Service.antt =====
-- internal/service/exec.
use Prim.Native.String.{◌++◌}
use finch_daemon.Prelude.{
  ℕ, ◌%◌, ◌^◌, String, Bool, true, false, not, Option, none, some, List, [], ◌∷◌, nat_eq,
  if◌then◌else◌,
}
use finch_daemon.Prelude.Int.{ℤ}
use finch_daemon.Errors.{GoError, plain, new_not_found, new_conflict, is_not_found, message}
use finch_daemon.Act.{Result, ok, err, Act, pure, reads, ◌>>=◌, ◌>>◌}
use finch_daemon.Go.Decimal.{sprint}
use finch_daemon.Prelude.Int.{pos}
use finch_daemon.Go.Strconv.{to_word}
use finch_daemon.Go.Strings.{cut_prefix, is_empty}
use finch_daemon.Containers.Backend.{ProcessStatus, running, Container}

-- cio.Config of a process
pub record IoConfig : Type 0 where
  pub terminal : Bool
  pub stdin : String
  pub stdout : String
  pub stderr : String

-- containerd's tasks, processes and exit channels, over the world `W`. The Boolean of `load_process`
-- tells whether streams are attached; `exit_code` receives from the channel.
pub record ExecBackend (W : Type 0) : Type 1 where
  pub Task : Type 0
  pub Process : Type 0
  pub ExitChannel : Type 0
  pub search_container : String → W → Result (List Container)
  pub task : Container → W → Result Task
  pub load_process : Task → String → Bool → Act W Process
  pub task_status : Task → W → Result ProcessStatus
  pub process_status : Process → W → Result (ProcessStatus × ℕ)
  pub process_id : Process → String
  pub pid : Process → W → ℕ
  pub io_config : Process → W → Option IoConfig
  pub resize : Process → ℕ → ℕ → Act W (Unit {0})
  pub wait : Process → Act W ExitChannel
  pub forward_all_signals : Process → W → W
  pub stop_catch : Process → W → W
  pub start_process : Process → Act W (Unit {0})
  pub exit_code : ExitChannel → Act W ℕ
  pub is_c_not_found : GoError → Bool

-- types.ExecStartCheck with the fields of ExecStartOptions; ConsoleSize is [height, width].
pub record ExecStartOptions (W : Type 0) : Type 0 where
  pub detach : Bool
  pub tty : Bool
  pub console_size : Option (ℕ × ℕ)
  pub con_id : String
  pub exec_id : String
  pub success_response : Option (W → W)

pub record ExecResizeOptions : Type 0 where
  pub con_id : String
  pub exec_id : String
  pub height : ℤ
  pub width : ℤ

-- types.ExecInspect with the Tty of its ProcessConfig
pub record ExecInspect : Type 0 where
  pub id : String
  pub running_ : Bool
  pub exit_code : ℕ
  pub tty : Bool
  pub open_stdin : Bool
  pub open_stdout : Bool
  pub open_stderr : Bool
  pub can_remove : Bool
  pub container_id : String
  pub pid : ℕ

-- uint32(n) of an int, and of a uint
abbrev pub word32 : ℤ → ℕ
word32 z = to_word z % 2 ^ 32

abbrev pub is_running : ProcessStatus → Bool
is_running running = true
is_running _ = false

module _ {W : Type 0} (b : ExecBackend W) where
  -- execInstance
  pub record ExecInstance : Type 0 where
    pub container : Container
    pub task_ : b.Task
    pub process : b.Process

  abbrev pub only_match : String → Result (List Container) → Result Container
  only_match cid (err e) = err e
  only_match cid (ok []) = err (new_not_found (plain ("no such container: " ++ cid)))
  only_match cid (ok (c ∷ [])) = ok c
  only_match cid (ok (c ∷ d ∷ cs)) =
      err (plain ("multiple IDs found with provided prefix: " ++ cid))

  -- getContainer
  unfoldable pub get_container : String → W → Result Container
  get_container cid w = only_match cid (b.search_container cid w)

  abbrev pub container_error : Result Container → Result Container
  container_error (ok con) = ok con
  container_error (err e) =
      if b.is_c_not_found e
      then err (new_not_found (plain ("container not found: " ++ message e)))
      else if is_not_found e
      then err (new_not_found (plain ("container not found: " ++ message e)))
      else err e

  abbrev pub retyped : {A : Type 0} → String → Result A → Result A
  retyped what (ok a) = ok a
  retyped what (err e) =
      if b.is_c_not_found e then err (new_not_found (plain (what ++ message e))) else err e

  -- loadExecInstance
  unfoldable pub load_exec_instance : String → String → Bool → Act W ExecInstance
  unfolding get_container is_not_found message
  load_exec_instance con_id exec_id attach = do
    con ← reads (λ w. container_error (get_container con_id w))
    task ← reads (λ w. retyped "task not found: " (b.task con w))
    proc ← λ w. (
      retyped "process not found: " (b.load_process task exec_id attach w).0,
      (b.load_process task exec_id attach w).1,
    )
    pure (record { container = con; task_ = task; process = proc })

  abbrev running_of : Result (ProcessStatus × ℕ) → Bool
  running_of (err e) = false
  running_of (ok (status, code)) = is_running status

  abbrev code_of : Result (ProcessStatus × ℕ) → ℕ
  code_of (err e) = 0
  code_of (ok (status, code)) = code

  abbrev opened : (IoConfig → Bool) → Option IoConfig → Bool
  opened field none = false
  opened field (some io) = field io

  -- Inspect
  unfoldable pub inspect : String → String → Act W ExecInspect
  unfolding load_exec_instance
  inspect con_id exec_id = do
    exec ← load_exec_instance con_id exec_id false
    reads (λ w.
        let status = b.process_status exec.process w in
        let io = b.io_config exec.process w in
        ok record {
          id = b.process_id exec.process;
          running_ = running_of status;
          exit_code = code_of status;
          tty = opened (λ c. c.terminal) io;
          open_stdin = opened (λ c. not (is_empty c.stdin)) io;
          open_stdout = opened (λ c. not (is_empty c.stdout)) io;
          open_stderr = opened (λ c. not (is_empty c.stderr)) io;
          can_remove = running_of status;
          container_id = exec.container.id;
          pid = b.pid exec.process w;
        })

  -- Resize
  unfoldable pub resize : ExecResizeOptions → Act W (Unit {0})
  resize options = do
    exec ← load_exec_instance options.con_id options.exec_id false
    b.resize exec.process (word32 options.width) (word32 options.height)

  abbrev not_running : String → GoError
  not_running con_id = new_conflict (plain ("container " ++ (con_id ++ " is not running")))

  -- The error of loadExecInstance in Start.
  unfoldable pub start_error : String → GoError → GoError
  unfolding cut_prefix message
  start_error con_id e = elim (cut_prefix "task not found" (message e)) [
    | some rest ↦ not_running con_id
    | none ↦ e
  ]

  abbrev pub loaded : String → Result ExecInstance → Result ExecInstance
  loaded con_id (ok exec) = ok exec
  loaded con_id (err e) = err (start_error con_id e)

  abbrev pub load : ExecStartOptions W → Act W ExecInstance
  load options w = (
    loaded options.con_id
        (load_exec_instance options.con_id options.exec_id (not options.detach) w).0,
    (load_exec_instance options.con_id options.exec_id (not options.detach) w).1,
  )

  abbrev pub check_status : String → Result ProcessStatus → Result (Unit {0})
  check_status con_id (err e) = if b.is_c_not_found e then err (not_running con_id) else err e
  check_status con_id (ok status) = if is_running status then ok tt else err (not_running con_id)

  -- The console's size; an error is only logged.
  abbrev pub resize_console : ExecStartOptions W → b.Process → W → W
  resize_console options proc w = elim options.console_size [
    | none ↦ w
    | some (height, width) ↦
        if options.tty then (b.resize proc (width % 2 ^ 32) (height % 2 ^ 32) w).1 else w
  ]

  abbrev pub respond : Option (W → W) → W → W
  respond none w = w
  respond (some f) w = f w

  abbrev pub exited : Result ℕ → Result (Unit {0})
  exited (err e) = err e
  exited (ok code) =
      if nat_eq code 0
      then ok tt
      else err (plain ("exec failed with exit code " ++ sprint (pos code)))

  -- What follows the start of an attached process.
  abbrev pub await : b.ExitChannel → Act W (Unit {0})
  await status_c w = (exited (b.exit_code status_c w).0, (b.exit_code status_c w).1)

  abbrev pub run_detached : ExecStartOptions W → b.Process → Act W (Unit {0})
  run_detached options proc w = b.start_process proc (respond options.success_response w)

  abbrev pub run_attached : ExecStartOptions W → b.Process → b.ExitChannel → Act W (Unit {0})
  run_attached options proc status_c w =
      let w1 = b.forward_all_signals proc (resize_console options proc w) in
      let (result, w2) =
        (b.start_process proc >> await status_c) (respond options.success_response w1) in
      (result, b.stop_catch proc w2)

  abbrev pub run : ExecStartOptions W → b.Process → b.ExitChannel → Act W (Unit {0})
  run options proc status_c =
      if options.detach then run_detached options proc else run_attached options proc status_c

  abbrev pub started : ExecStartOptions W → ExecInstance → Act W (Unit {0})
  started options exec = do
    reads (λ w. check_status options.con_id (b.task_status exec.task_ w))
    status_c ← b.wait exec.process
    run options exec.process status_c

  -- Start
  unfoldable pub start : ExecStartOptions W → Act W (Unit {0})
  start options = do exec ← load options; started options exec

-- ===== src/Exec/Create.antt =====
-- internal/service/container/exec.go: the creation of a process in a container, which Exec.Service
-- starts later.
pub mod Requested
pub mod Handler
mod Tests
use Prim.Native.String.{◌++◌}
use finch_daemon.Prelude.{ℕ, String, Bool, Option, none, some, List, [], if◌then◌else◌}
use finch_daemon.Errors.{GoError, plain, new_conflict}
use finch_daemon.Act.{Result, ok, err, Act, pure, reads, ◌>>=◌, ◌>>◌}
use finch_daemon.Go.Strings.{is_empty}
use finch_daemon.Containers.Backend.{ProcessStatus, running, Container, Backend}
use finch_daemon.Containers.Service.{get_container_typed}

-- types.ExecConfig, with the fields that are read
pub record ExecConfig : Type 0 where
  pub user : String
  pub privileged : Bool
  pub tty : Bool
  pub console_size : Option (ℕ × ℕ)
  pub attach_stdin : Bool
  pub attach_stderr : Bool
  pub attach_stdout : Bool
  pub env : List String
  pub working_dir : String
  pub cmd : List String

-- specs.LinuxCapabilities
pub record Capabilities : Type 0 where
  pub bounding : List String
  pub effective : List String
  pub inheritable : List String
  pub permitted : List String
  pub ambient : List String

-- specs.Process; `rest` stands for the fields that the code does not touch.
pub record Process (S : Type 0) : Type 0 where
  pub terminal : Bool
  pub console_size : Option (ℕ × ℕ)
  pub additional_gids : List ℕ
  pub args : List String
  pub env : List String
  pub cwd : String
  pub capabilities : Option Capabilities
  pub rest : S

-- cio.FIFOSet, by its paths
pub record Fifos : Type 0 where
  pub stdin : String
  pub stdout : String
  pub stderr : String

-- What ExecCreate calls beside the backend of the container service, over tasks `T`, infos `I` and
-- the IO `F` of a process. `process_spec` is the process of the container's Spec, which runc's specs
-- always have; the options of a user change a process.
pub record ExecCreateBackend (W T S I F : Type 0) : Type 0 where
  pub process_spec : Container → W → Result (Process S)
  pub info : Container → W → Result I
  pub with_user : String → I → Process S → Act W (Process S)
  pub with_additional_gids : String → I → Process S → Act W (Process S)
  pub replace_or_append_env_values : List String → List String → List String
  pub current_capabilities : W → Result (List String)
  pub generate_id : W → String × W
  pub new_fifo_set : String → Bool → Act W Fifos
  pub new_direct_cio : Fifos → Act W F
  pub exec : T → String → Process S → (String → Act W F) → Act W (Unit {0})

abbrev no_capabilities : Capabilities
no_capabilities = record {
  bounding = [];
  effective = [];
  inheritable = [];
  permitted = [];
  ambient = [];
}

abbrev pub or_none : Option Capabilities → Capabilities
or_none none = no_capabilities
or_none (some caps) = caps

abbrev text_if : Bool → String → String
text_if attach path = if attach then path else ""

-- The FIFOs that the configuration keeps.
unfoldable pub attached_fifos : ExecConfig → Fifos → Fifos
attached_fifos config fifos = record {
  stdin = text_if config.attach_stdin fifos.stdin;
  stdout = text_if config.attach_stdout fifos.stdout;
  stderr = text_if config.attach_stderr fifos.stderr;
}

abbrev box : Bool → Option (ℕ × ℕ) → Option (ℕ × ℕ) → Option (ℕ × ℕ)
box tty (some size) old = if tty then some size else old
box tty none old = old

module _ {S : Type 0} where
  -- withResetAdditionalGIDs
  abbrev pub reset_additional_gids : Process S → Process S
  reset_additional_gids p = record p { additional_gids = [] }

  -- All capabilities, for a privileged process.
  unfoldable pub with_capabilities : List String → Process S → Process S
  with_capabilities all_caps p = record p {
    capabilities = some (record (or_none p.capabilities) {
      bounding = all_caps;
      permitted = all_caps;
      inheritable = all_caps;
      effective = all_caps;
    });
  }

-- `b` is the backend of the container service.
module _ {W G S I F : Type 0} (b : Backend W G) (x : ExecCreateBackend W b.Task S I F) where
  -- The process of the container with the fields of the configuration.
  unfoldable pub configured : ExecConfig → Process S → Process S
  configured config p = record p {
    terminal = config.tty;
    console_size = box config.tty config.console_size p.console_size;
    args = config.cmd;
    cwd = if is_empty config.working_dir then p.cwd else config.working_dir;
    env = x.replace_or_append_env_values p.env config.env;
  }

  -- generateUserOpts, with the loop that applies the options
  unfoldable pub with_user_opts : Container → String → Process S → Act W (Process S)
  with_user_opts con user p = if is_empty user then pure p else (do
    c ← reads (x.info con)
    p1 ← x.with_user user c p
    x.with_additional_gids user c (reset_additional_gids p1))

  -- setExecCapabilities, for a privileged process
  unfoldable pub set_exec_capabilities : Bool → Process S → Act W (Process S)
  unfolding with_capabilities
  set_exec_capabilities privileged p =
      if privileged
      then (reads x.current_capabilities >>= λ all_caps. pure (with_capabilities all_caps p))
      else pure p

  -- generateExecProcessSpec
  unfoldable pub generate_exec_process_spec : Container → ExecConfig → Act W (Process S)
  unfolding with_user_opts set_exec_capabilities configured
  generate_exec_process_spec con config = do
    p ← reads (x.process_spec con)
    p1 ← with_user_opts con config.user p
    set_exec_capabilities config.privileged (configured config p1)

  abbrev not_running : String → GoError
  not_running cid = new_conflict (plain ("container " ++ (cid ++ " is not running")))

  abbrev pub or_not_running : {A : Type 0} → String → Result A → Result A
  or_not_running cid (ok a) = ok a
  or_not_running cid (err e) = if b.is_c_not_found e then err (not_running cid) else err e

  abbrev pub check_status : String → Result ProcessStatus → Result (Unit {0})
  check_status cid (ok running) = ok tt
  check_status cid (ok _) = err (not_running cid)
  check_status cid (err e) = if b.is_c_not_found e then err (not_running cid) else err e

  -- The ioCreator
  unfoldable pub io_creator : ExecConfig → String → Act W F
  unfolding attached_fifos
  io_creator config id =
      x.new_fifo_set id config.tty >>= λ fifos. x.new_direct_cio (attached_fifos config fifos)

  abbrev pub exec_as : String → ExecConfig → b.Task → Process S → String × W → Result String × W
  exec_as cid config t p (id, w) =
      (x.exec t ("exec-" ++ id) p (io_creator config) >> pure (cid ++ ("/" ++ ("exec-" ++ id)))) w

  -- ExecCreate
  unfoldable pub exec_create : String → ExecConfig → Act W String
  unfolding get_container_typed generate_exec_process_spec io_creator
  exec_create cid config = do
    con ← get_container_typed b cid
    p ← generate_exec_process_spec con config
    t ← reads (λ w. or_not_running cid (b.task con w))
    reads (λ w. check_status cid (b.task_status t w))
    λ w. exec_as cid config t p (x.generate_id w)

-- ===== src/Exec/Create/Tests.antt =====
-- A container "web", in which processes are created.
use finch_daemon.Prelude.{
  String, ◌≡◌, refl, true, false, none, some, List, [], ◌∷◌, ◌++◌, ◌==◌, if◌then◌else◌,
}
use finch_daemon.Act.{ok, Act}
use finch_daemon.Containers.Backend.{ProcessStatus, running, stopped, Container, Backend}
use finch_daemon.Containers.Service.{get_container, get_container_typed}
use finch_daemon.Exec.Create.{
  ExecConfig, Process, Fifos, ExecCreateBackend, with_user_opts, set_exec_capabilities, configured,
  generate_exec_process_spec, exec_create,
}
use finch_daemon.Exec.Create.Requested.{IsOfUser, IsRequested, IsCreated, exec_create-IsCreated}
use finch_daemon.Exec.Create.Handler.{exec_handler}

-- The world is the status of "web" and the IDs of the processes that were created in it.
abbrev Host : Type 0
Host = ProcessStatus × List String

abbrev done : Act Host (Unit {0})
done w = (ok tt, w)

abbrev web : Container
web = record { id = "web" }

abbrev containers : Backend Host (Unit {0})
containers = record {
  Task = Unit {0};
  search_container = λ name w. ok (if name == "web" then web ∷ [] else []);
  task = λ c w. ok tt;
  task_status = λ t w. ok w.0;
  start_container = λ name o. done;
  stop_container = λ name o. done;
  pause_container = λ name o. done;
  unpause_container = λ name o. done;
  kill_container = λ name o. done;
  remove_container = λ c force volumes. done;
  rename_container = λ c name o. done;
  container_wait = λ name g w. (ok tt, [], w);
  is_c_not_found = λ e. false;
  is_container_status = λ e. false;
}

abbrev own : Process (Unit {0})
own = record {
  terminal = false;
  console_size = none;
  additional_gids = 7 ∷ [];
  args = "nginx" ∷ [];
  env = "A=1" ∷ [];
  cwd = "/";
  capabilities = none;
  rest = tt;
}

abbrev processes : ExecCreateBackend Host (Unit {0}) (Unit {0}) (Unit {0}) Fifos
processes = record {
  process_spec = λ c w. ok own;
  info = λ c w. ok tt;
  with_user = λ user c p w. (ok p, w);
  with_additional_gids = λ user c p w. (ok p, w);
  replace_or_append_env_values = λ old new. old ++ new;
  current_capabilities = λ w. ok ("CAP_CHOWN" ∷ []);
  generate_id = λ w. ("1f", w);
  new_fifo_set = λ id tty w. (ok (record { stdin = "in"; stdout = "out"; stderr = "err" }), w);
  new_direct_cio = λ fifos w. (ok fifos, w);
  exec = λ t id p creator w. (ok tt, (w.0, id ∷ w.1));
}

abbrev shell : ExecConfig
shell = record {
  user = "root";
  privileged = true;
  tty = true;
  console_size = some (24, 80);
  attach_stdin = true;
  attach_stderr = false;
  attach_stdout = true;
  env = "B=2" ∷ [];
  working_dir = "";
  cmd = "sh" ∷ [];
}

handler_tests :
    ((exec_handler containers processes (some "web") (some (ok shell)) (running, [])).1
      ≡ (running, "exec-1f" ∷ []))
    × ((exec_handler containers processes (some "web") (some (ok shell)) (stopped, [])).0.code
        ≡ some 409)
    × ((exec_handler containers processes (some "db") (some (ok shell)) (running, [])).0.code
        ≡ some 404)
    × ((exec_handler containers processes (some "web") none (running, [])).0.code ≡ some 400)
unfolding exec_handler exec_create get_container_typed get_container generate_exec_process_spec
    with_user_opts set_exec_capabilities configured
handler_tests = (refl, refl, refl, refl)

created_ : (exec_create containers processes "web" shell (running, [])).0 ≡ ok "web/exec-1f"
unfolding exec_create get_container_typed get_container generate_exec_process_spec with_user_opts
    set_exec_capabilities configured
created_ = refl

exec_create-IsCreated_example :
    (con : Container) × (t : Unit {0}) × (old : Process (Unit {0})) × (p : Process (Unit {0}))
    × (w1 : Host) × ((get_container_typed containers "web" (running, [])).0 ≡ ok con)
    × (containers.task con w1 ≡ ok t)
    × IsOfUser containers processes con shell old
    × IsRequested containers processes shell old p
    × IsCreated containers processes shell "web" t p "web/exec-1f"
exec_create-IsCreated_example =
    exec_create-IsCreated containers processes "web" "web/exec-1f" shell (running, []) created_

-- ===== src/Exec/Tests.antt =====
-- A container with one process, on which the handlers run and the theorems are applied.
use finch_daemon.Prelude.{
  ℕ, String, ◌≡◌, refl, false, [], ◌∷◌, some, none, ◌==◌, if◌then◌else◌, arith,
}
use finch_daemon.Prelude.Int.{pos, negsuc}
use finch_daemon.Act.{ok}
use finch_daemon.Containers.Backend.{ProcessStatus, running, stopped, Container}
use finch_daemon.Exec.Service.{
  ExecBackend, ExecInstance, ExecStartOptions, load_exec_instance, start, resize, inspect,
}
use finch_daemon.Exec.Handlers.{
  Request, parse_exec_id, get_query_param_int, resize_handler, inspect_handler,
}
use finch_daemon.Exec.Stream.{Output, no_output, StartRequest, start_handler}
use finch_daemon.Exec.Started.{start-IsStarted, IsStarted}
use finch_daemon.Exec.Resized.{resize_handler_lem, resize_code, on_terminal}

abbrev web : Container
web = record { id = "web" }

-- The world is the size of the terminal and the status of the task.
abbrev Screen : Type 0
Screen = (ℕ × ℕ) × ProcessStatus

abbrev with_status : {W : Type 0} → (W → ProcessStatus) → (ℕ → ℕ → W → W) → ExecBackend W
with_status status size = record {
  Task = Unit {0};
  Process = String;
  ExitChannel = Unit {0};
  search_container = λ cid w. ok (if cid == "web" then web ∷ [] else []);
  task = λ c w. ok tt;
  load_process = λ t id attach w. (ok id, w);
  task_status = λ t w. ok (status w);
  process_status = λ p w. ok (running, 0);
  process_id = λ p. p;
  pid = λ p w. 7;
  io_config = λ p w. none;
  resize = λ p width height w. (ok tt, size width height w);
  wait = λ p w. (ok tt, w);
  forward_all_signals = λ p w. w;
  stop_catch = λ p w. w;
  start_process = λ p w. (ok tt, w);
  exit_code = λ c w. (ok 0, w);
  is_c_not_found = λ e. false;
}

abbrev toy : ExecBackend Screen
toy = with_status (λ w. w.1) (λ width height w. ((width, height), w.1))

abbrev streamed : ExecBackend (Output × ProcessStatus)
streamed = with_status (λ w. w.1) (λ width height w. w)

abbrev screen : Screen
screen = ((80, 25), running)

abbrev ask : String → String → Request
ask width height = record {
  id = "web/p1";
  query = λ key. if key == "w" then width else if key == "h" then height else "";
}

handlers : Unit {0}
unfolding resize_handler inspect_handler start_handler start load_exec_instance resize inspect
    parse_exec_id get_query_param_int
handlers = tt

abbrev attached : StartRequest
attached = record {
  id = "web/p1";
  body = some (ok (record { detach = false; tty = false; console_size = none }));
  hijack = some (ok tt);
  multiplexed = false;
  upgrade = false;
}

abbrev text : ℕ → String
text code = "Conflict"

abbrev same : String → String
same s = s

exec_tests :
    ((resize_handler toy (ask "120" "40") screen).1 ≡ ((120, 40), running))
    × ((resize_handler toy (ask "" "40") screen).0.code ≡ some 400)
    × ((inspect_handler toy (record { id = "nope/p1"; query = λ key. "" }) screen).0.code
        ≡ some 404)
    × ((start_handler streamed [] text same same attached (no_output, running)).0.conn
        ≡ "HTTP/1.1 200 OK\r\nContent-Type: application/vnd.docker.raw-stream\r\n" ∷ "\r\n" ∷ [])
    × ((start_handler streamed [] text same same attached (no_output, stopped)).0.conn
        ≡ "HTTP/1.1 409 Conflict\r\nContent-Type: application/json\r\n\r\ncontainer web is not running\r\n"
          ∷ [])
unfolding handlers
exec_tests = (refl, refl, refl, refl, refl)

abbrev options : ExecStartOptions Screen
options = record {
  detach = false;
  tty = false;
  console_size = none;
  con_id = "web";
  exec_id = "p1";
  success_response = none;
}

start-IsStarted_example : (exec : ExecInstance toy) × IsStarted toy options screen screen exec
unfolding start load_exec_instance
start-IsStarted_example = start-IsStarted toy options screen refl

abbrev process : ExecInstance toy
process = record { container = web; task_ = tt; process = "p1" }

resize_handler_lem_example :
    ((resize_handler toy (ask "120" "-1") screen).1
      ≡ (toy.resize "p1" (on_terminal (pos 120)) (on_terminal (negsuc 0)) screen).1)
    × ((resize_handler toy (ask "120" "-1") screen).0.code
        ≡ some (
            resize_code
              (toy.resize "p1" (on_terminal (pos 120)) (on_terminal (negsuc 0)) screen).0))
unfolding load_exec_instance get_query_param_int parse_exec_id
resize_handler_lem_example =
    resize_handler_lem toy (ask "120" "-1") screen "web" "p1" (negsuc 0) (pos 120) process
      (omega arith) (omega arith) refl refl refl refl

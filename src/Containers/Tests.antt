-- ===== src/Containers/Tests.antt =====
-- A small backend, on which the handlers run and the theorems are applied.
use finch_daemon.Prelude.{
  String, ◌≡◌, refl, false, List, [], ◌∷◌, Option, none, some, ◌==◌, if◌then◌else◌,
}
use finch_daemon.Errors.{GoError, plain}
use finch_daemon.Act.{ok, Act}
use finch_daemon.Go.Strings.{trim_space}
use finch_daemon.Containers.Backend.{
  ProcessStatus, running, created, stopped, paused, Container, Backend, get_container_status,
}
use finch_daemon.Containers.Handlers.{
  Request, Config, start_handler, stop_handler, restart_handler, rename_handler, kill_handler,
  wait_handler, timeout_of,
}
use finch_daemon.Containers.Handlers.Keys.{validate_detach_keys}
use finch_daemon.Containers.Handlers.Verdict.{pause_action, handle-Reached, status_verdict, Reached}

-- The world is the status of the container "web"; "w" is a prefix of two ids.
abbrev web : Container
web = record { id = "web" }

abbrev other : Container
other = record { id = "wiki" }

abbrev find : String → List Container
find name = if name == "web" then web ∷ [] else if name == "w" then web ∷ other ∷ [] else []

abbrev becomes : ProcessStatus → Act ProcessStatus (Unit {0})
becomes s w = (ok tt, s)

abbrev toy : Backend ProcessStatus (Unit {0})
toy = record {
  Task = Unit {0};
  search_container = λ name w. ok (find name);
  task = λ c w. ok tt;
  task_status = λ t w. ok w;
  start_container = λ name o. becomes running;
  stop_container = λ name o. becomes stopped;
  pause_container = λ name o. becomes paused;
  unpause_container = λ name o. becomes running;
  kill_container = λ name o. becomes stopped;
  remove_container = λ c force volumes. becomes created;
  rename_container = λ c name o. becomes created;
  container_wait = λ name g w. (ok tt, "137\n" ∷ [], stopped);
  is_c_not_found = λ e. false;
  is_container_status = λ e. false;
}

abbrev backends : String → Backend ProcessStatus (Unit {0})
backends ns = toy

abbrev opens : ProcessStatus → Option GoError
opens w = none

abbrev config : Config (Unit {0})
config = record { namespace = "finch"; global = tt }

abbrev ask : String → String → Request
ask id name = record { id = some id; query = λ key. if key == "name" then name else "" }

handlers : Unit {0}
unfolding start_handler stop_handler restart_handler rename_handler kill_handler wait_handler
    timeout_of validate_detach_keys get_container_status trim_space
handlers = tt

handler_tests :
    ((start_handler backends opens config (ask "web" "") stopped).1 ≡ running)
    × ((start_handler backends opens config (ask "web" "") running).0.code ≡ some 304)
    × ((stop_handler backends opens config (ask "nope" "") running).0.code ≡ some 404)
    × ((kill_handler backends opens config (ask "w" "") running).0.code ≡ some 500)
    × ((kill_handler backends opens config (ask "web" "") paused).0.code ≡ some 409)
unfolding handlers
handler_tests = (refl, refl, refl, refl, refl)

key_tests :
    (validate_detach_keys "a, ctrl-P" ≡ none)
    × (validate_detach_keys "1" ≡ some (plain "invalid key: 1 - single character must be a letter"))
unfolding validate_detach_keys
key_tests = (refl, refl)

handle-Reached_example :
    Reached backends opens config pause_action
      (ask "web" "")
      running
      web
      (get_container_status toy web running)
      (status_verdict pause_action (get_container_status toy web running))
handle-Reached_example =
    handle-Reached backends opens config pause_action (ask "web" "") running web (refl, refl) refl

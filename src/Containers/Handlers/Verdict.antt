-- ===== src/Containers/Handlers/Verdict.antt =====
-- What the five guarded handlers of api/handlers/container answer.
use Prim.Native.String.{◌++◌}
use finch_daemon.Prelude.{
  ℕ, String, ◌≡◌, refl, false, List, [], ◌∷◌, arith, Option, none, some, ◌==◌, nat_eq,
  if◌then◌else◌,
}
use finch_daemon.Errors.{
  ErrType, not_found, not_modified, conflict, GoError, plain, as_err_with_type, message,
}
use finch_daemon.Act.{Result, ok, err, Act}
use finch_daemon.Http.{Writer, Body, error_body}
use finch_daemon.Containers.Backend.{
  ProcessStatus, running, created, stopped, paused, Container, Backend, dev_null, discard,
  get_container_status,
}
use finch_daemon.Containers.Handlers.{
  Request, Reply, Config, var, no_id, start_handler, stop_handler, kill_handler, pause_handler,
  unpause_handler, timeout_of,
}
use finch_daemon.Containers.Handlers.Keys.{validate_detach_keys}

-- The operations that are guarded by the container's status.
pub data Action : Type 0 where
  start_action stop_action pause_action unpause_action kill_action : Action

-- The answer to an action on a container in a status that does not allow it.
abbrev pub status_verdict : Action → ProcessStatus → Option ℕ
status_verdict start_action running = some 304
status_verdict start_action paused = some 500
status_verdict start_action _ = none
status_verdict stop_action stopped = some 304
status_verdict stop_action created = some 304
status_verdict stop_action _ = none
status_verdict pause_action running = none
status_verdict pause_action _ = some 409
status_verdict unpause_action paused = none
status_verdict unpause_action _ = some 409
status_verdict kill_action running = none
status_verdict kill_action _ = some 409

-- The answer to an error by its type.
abbrev pub type_verdict : Action → Option ErrType → ℕ
type_verdict _ (some not_found) = 404
type_verdict start_action (some not_modified) = 304
type_verdict stop_action (some not_modified) = 304
type_verdict pause_action (some conflict) = 409
type_verdict unpause_action (some conflict) = 409
type_verdict kill_action (some conflict) = 409
type_verdict _ _ = 500

abbrev pub result_verdict : Action → Result (Unit {0}) → ℕ
result_verdict a (ok u) = 204
result_verdict a (err e) = type_verdict a (as_err_with_type e)

-- The body of a refusal by the container's status: the message, which 304 leaves out.
abbrev pub refusal : Action → ProcessStatus → String → List (Body Reply)
refusal start_action paused cid =
    error_body "cannot start a paused container, try unpause instead" ∷ []
refusal start_action _ cid = []
refusal stop_action _ cid = []
refusal pause_action paused cid = error_body ("container " ++ (cid ++ " is already paused")) ∷ []
refusal pause_action _ cid = error_body ("container " ++ (cid ++ " is not running")) ∷ []
refusal unpause_action _ cid = error_body ("Container " ++ (cid ++ " is not paused")) ∷ []
refusal kill_action _ cid = error_body ("container " ++ (cid ++ " is not running")) ∷ []

abbrev pub result_body : Action → Result (Unit {0}) → List (Body Reply)
result_body a (ok u) = []
result_body a (err e) =
    if nat_eq (type_verdict a (as_err_with_type e)) 304 then [] else error_body (message e) ∷ []

module _ {W G : Type 0} (backends : String → Backend W G) (open_dev_null : W → Option GoError)
    (config : Config G) where
  abbrev b : Backend W G
  b = backends config.namespace

  abbrev pub handle : Action → Request → W → Writer Reply × W
  handle start_action = start_handler backends open_dev_null config
  handle stop_action = stop_handler backends open_dev_null config
  handle pause_action = pause_handler backends open_dev_null config
  handle unpause_action = unpause_handler backends open_dev_null config
  handle kill_action = kill_handler backends open_dev_null config

  -- The call of the backend that the action makes for a container.
  abbrev pub backend_call : Action → Request → Container → Act W (Unit {0})
  backend_call start_action r c = b.start_container (var r.id) (record {
    g_options = config.global;
    stdout = dev_null;
    attach = false;
    detach_keys = r.query "detachKeys";
  })
  backend_call stop_action r c = b.stop_container c.id (record {
    g_options = config.global;
    stdout = discard;
    stderr = discard;
    timeout = timeout_of (r.query "t");
    signal = r.query "signal";
  })
  backend_call pause_action r c =
      b.pause_container (var r.id) (record { g_options = config.global; stdout = dev_null })
  backend_call unpause_action r c =
      b.unpause_container (var r.id) (record { g_options = config.global; stdout = dev_null })
  backend_call kill_action r c = b.kill_container (var r.id) (record {
    g_options = config.global;
    kill_signal = if r.query "signal" == "" then "SIGKILL" else r.query "signal";
    stdout = dev_null;
    stderr = dev_null;
  })

  -- The request passes the checks that come before the search.
  abbrev pub IsWellFormed : Action → Request → W → Type 0
  IsWellFormed start_action r w =
      (validate_detach_keys (r.query "detachKeys") ≡ none) × (open_dev_null w ≡ none)
  IsWellFormed stop_action r w = Unit
  IsWellFormed _ r w = (no_id r.id ≡ false) × (open_dev_null w ≡ none)

  -- What is answered and done, for a container in the status: a refusal that changes nothing, or the
  -- call of the backend, whose effect stays, with the code and the body of its result.
  abbrev pub Reached : Action → Request → W → Container → ProcessStatus → Option ℕ → Type 0
  Reached a r w c s (some code) =
      ((handle a r w).0.code ≡ some code)
      × ((handle a r w).0.body ≡ refusal a s (var r.id))
      × ((handle a r w).1 ≡ w)
  Reached a r w c s none =
      ((handle a r w).1 ≡ (backend_call a r c w).1)
      × ((handle a r w).0.code ≡ some (result_verdict a (backend_call a r c w).0))
      × ((handle a r w).0.body ≡ result_body a (backend_call a r c w).0)

  module _ (r : Request) (w : W) (c : Container)
      (found : b.search_container (var r.id) w ≡ ok (c ∷ [])) where
    declined :
        (a : Action) (s : ProcessStatus)
        → IsWellFormed a r w
        → get_container_status b c w ≡ s
        → (code : ℕ) → status_verdict a s ≡ some code
        → ((handle a r w).0.code ≡ some code) × ((handle a r w).1 ≡ w)
    unfolding start_handler stop_handler kill_handler pause_handler unpause_handler
    declined start_action s h at code v = ground arith
    declined _ s h at code v = ground arith

    declined_body :
        (a : Action) (s : ProcessStatus)
        → IsWellFormed a r w
        → get_container_status b c w ≡ s
        → (code : ℕ) → status_verdict a s ≡ some code
        → (handle a r w).0.body ≡ refusal a s (var r.id)
    unfolding start_handler stop_handler kill_handler pause_handler unpause_handler message
    declined_body start_action s h at code v = ground arith
    declined_body _ s h at code v = ground arith

    called :
        (a : Action) (s : ProcessStatus)
        → IsWellFormed a r w
        → get_container_status b c w ≡ s
        → status_verdict a s ≡ none
        → (handle a r w).1 ≡ (backend_call a r c w).1
    unfolding start_handler stop_handler kill_handler pause_handler unpause_handler
    called start_action s h at v = ground arith
    called _ s h at v = ground arith

    called_code :
        (a : Action) (s : ProcessStatus)
        → IsWellFormed a r w
        → get_container_status b c w ≡ s
        → status_verdict a s ≡ none
        → (handle a r w).0.code ≡ some (result_verdict a (backend_call a r c w).0)
    unfolding start_handler stop_handler kill_handler pause_handler unpause_handler
    called_code start_action s h at v = ground arith
    called_code _ s h at v = ground arith

    called_body :
        (a : Action) (s : ProcessStatus)
        → IsWellFormed a r w
        → get_container_status b c w ≡ s
        → status_verdict a s ≡ none
        → (handle a r w).0.body ≡ result_body a (backend_call a r c w).0
    unfolding start_handler stop_handler kill_handler pause_handler unpause_handler
    called_body start_action s h at v = ground arith
    called_body _ s h at v = ground arith

    reached :
        (a : Action) (s : ProcessStatus) (v : Option ℕ)
        → IsWellFormed a r w
        → get_container_status b c w ≡ s
        → status_verdict a s ≡ v
        → Reached a r w c s v
    reached a s none h at v = (called a s h at v, called_code a s h at v, called_body a s h at v)
    reached a s (some code) h at v =
        let (answered, left) = declined a s h at code v in
        (answered, declined_body a s h at code v, left)

  -- A request to start, stop, pause, unpause or kill whose id finds one container. A start has valid
  -- detach keys; pause, unpause and kill have an id; for all but stop /dev/null opens. Then the
  -- container's status refuses it, with the code of `status_verdict`, the message of `refusal` and no
  -- change, or it makes the backend's call with the request's options, once, and its answer is 204
  -- with an empty body, or the code of the error with the error's message, which 304 leaves out.
  pub handle-Reached :
      (a : Action) (r : Request) (w : W) (c : Container)
      → IsWellFormed a r w
      → b.search_container (var r.id) w ≡ ok (c ∷ [])
      → let s = get_container_status b c w in Reached a r w c s (status_verdict a s)
  handle-Reached a r w c h found = reached r w c found a (get_container_status b c w) _ h refl refl

  -- Such a request whose id finds no container is answered by 404 and changes nothing.
  pub handle_missing :
      (a : Action) (r : Request) (w : W)
      → IsWellFormed a r w
      → b.search_container (var r.id) w ≡ ok []
      → ((handle a r w).0.code ≡ some 404) × ((handle a r w).1 ≡ w)
  unfolding start_handler stop_handler kill_handler pause_handler unpause_handler
  handle_missing start_action r w h found = ground arith
  handle_missing _ r w h found = ground arith

  -- Such a request whose id finds several containers is answered by 500 and changes nothing, if
  -- containerd's IsNotFound does not hold of errors that wrap nothing.
  handle_ambiguous :
      (a : Action) (r : Request) (w : W) (c d : Container) (cs : List Container)
      → IsWellFormed a r w
      → ((s : String) → b.is_c_not_found (plain s) ≡ false)
      → b.search_container (var r.id) w ≡ ok (c ∷ d ∷ cs)
      → ((handle a r w).0.code ≡ some 500) × ((handle a r w).1 ≡ w)
  unfolding start_handler stop_handler kill_handler pause_handler unpause_handler
  handle_ambiguous start_action r w c d cs h plain_errors found = ground arith
  handle_ambiguous _ r w c d cs h plain_errors found =
      ground (arith, plain_errors ("multiple IDs found with provided prefix: " ++ var r.id))

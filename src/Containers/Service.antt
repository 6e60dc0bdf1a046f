-- ===== src/Containers/Service.antt =====
-- The operations of internal/service/container, over the backend.
use Prim.Native.String.{◌++◌}
use finch_daemon.Prelude.{String, Bool, true, false, List, [], ◌∷◌, if◌then◌else◌}
use finch_daemon.Errors.{
  plain, new_not_found, new_conflict, new_not_modified, is_not_modified, message,
}
use finch_daemon.Act.{Result, ok, err, Act, reads, ◌>>=◌, ◌>>◌}
use finch_daemon.Containers.Backend.{
  ProcessStatus, running, created, stopped, paused, pausing, Container, discard, StartOptions,
  StopOptions, RestartOptions, KillOptions, PlainOptions, Backend, get_container_status,
}

module _ {W G : Type 0} (b : Backend W G) where
  -- The tests of getContainer on the search result.
  abbrev only_match : String → Result (List Container) → Result Container
  only_match cid (err e) = err e
  only_match cid (ok []) = err (new_not_found (plain ("no such container: " ++ cid)))
  only_match cid (ok (c ∷ [])) = ok c
  only_match cid (ok (c ∷ d ∷ cs)) =
      err (plain ("multiple IDs found with provided prefix: " ++ cid))

  -- getContainer
  unfoldable pub get_container : String → Act W Container
  get_container cid = reads (λ w. only_match cid (b.search_container cid w))

  -- getContainer as Pause, Unpause, Kill and Wait call it: containerd's own not-found error is
  -- given the daemon's type.
  abbrev retype : Result Container → Result Container
  retype (ok c) = ok c
  retype (err e) = if b.is_c_not_found e then err (new_not_found e) else err e

  unfoldable pub get_container_typed : String → Act W Container
  unfolding get_container
  get_container_typed cid w = (retype (get_container cid w).0, (get_container cid w).1)

  -- assertStartContainer; in the source `case containerd.Pausing:` is empty and does not fall through
  abbrev start_guard : ProcessStatus → Result (Unit {0})
  start_guard running = err (new_not_modified (plain "container already running"))
  start_guard pausing = ok tt
  start_guard paused = err (plain "cannot start a paused container, try unpause instead")
  start_guard _ = ok tt

  unfoldable pub assert_start_container : Container → Act W (Unit {0})
  assert_start_container c = reads (λ w. start_guard (get_container_status b c w))

  unfoldable pub start : String → StartOptions G → Act W (Unit {0})
  unfolding get_container assert_start_container
  start cid options = do
    cont ← get_container cid
    assert_start_container cont
    b.start_container cid options

  abbrev stopped_or_created : ProcessStatus → Bool
  stopped_or_created stopped = true
  stopped_or_created created = true
  stopped_or_created _ = false

  -- isContainerStopped
  unfoldable pub is_container_stopped : Container → W → Bool
  is_container_stopped c w = stopped_or_created (get_container_status b c w)

  unfoldable pub stop : String → StopOptions G → Act W (Unit {0})
  unfolding get_container is_container_stopped
  stop cid options = do
    con ← get_container cid
    reads (λ w.
        if is_container_stopped con w
        then err (new_not_modified (plain ("container is already stopped: " ++ cid)))
        else ok tt)
    b.stop_container con.id options

  abbrev pause_guard : String → ProcessStatus → Result (Unit {0})
  pause_guard cid running = ok tt
  pause_guard cid paused =
      err (new_conflict (plain ("container " ++ (cid ++ " is already paused"))))
  pause_guard cid _ = err (new_conflict (plain ("container " ++ (cid ++ " is not running"))))

  unfoldable pub pause : String → PlainOptions G → Act W (Unit {0})
  unfolding get_container_typed
  pause cid options = do
    cont ← get_container_typed cid
    reads (λ w. pause_guard cid (get_container_status b cont w))
    b.pause_container cid options

  abbrev unpause_guard : String → ProcessStatus → Result (Unit {0})
  unpause_guard cid paused = ok tt
  unpause_guard cid _ = err (new_conflict (plain ("Container " ++ (cid ++ " is not paused"))))

  unfoldable pub unpause : String → PlainOptions G → Act W (Unit {0})
  unfolding get_container_typed
  unpause cid options = do
    cont ← get_container_typed cid
    reads (λ w. unpause_guard cid (get_container_status b cont w))
    b.unpause_container cid options

  abbrev kill_guard : String → ProcessStatus → Result (Unit {0})
  kill_guard cid running = ok tt
  kill_guard cid _ = err (new_conflict (plain ("container " ++ (cid ++ " is not running"))))

  unfoldable pub kill : String → KillOptions G → Act W (Unit {0})
  unfolding get_container_typed
  kill cid options = do
    cont ← get_container_typed cid
    reads (λ w. kill_guard cid (get_container_status b cont w))
    b.kill_container cid options

  -- The test on the error of StopContainer in Restart: a not-modified error is swallowed.
  abbrev swallow_not_modified : Result (Unit {0}) → Result (Unit {0})
  swallow_not_modified (ok u) = ok u
  swallow_not_modified (err e) = if is_not_modified e then ok tt else err e

  abbrev stop_options : RestartOptions G → StopOptions G
  stop_options options = record {
    g_options = options.g_options;
    stdout = discard;
    stderr = discard;
    timeout = options.timeout;
    signal = "";
  }

  abbrev start_options : RestartOptions G → StartOptions G
  start_options options = record {
    g_options = options.g_options;
    stdout = options.stdout;
    attach = false;
    detach_keys = "";
  }

  unfoldable pub restart : String → RestartOptions G → Act W (Unit {0})
  unfolding get_container is_not_modified
  restart cid options = do
    con ← get_container cid
    λ w. (
      swallow_not_modified (b.stop_container con.id (stop_options options) w).0,
      (b.stop_container con.id (stop_options options) w).1,
    )
    b.start_container cid (start_options options)

  -- The test on the error of RemoveContainer.
  abbrev explain_status : Result (Unit {0}) → Result (Unit {0})
  explain_status (ok u) = ok u
  explain_status (err e) =
      if b.is_container_status e
      then err
          (new_conflict (plain (message e ++ ". unpause/stop container first or force removal")))
      else err e

  unfoldable pub remove : String → Bool → Bool → Act W (Unit {0})
  unfolding get_container message
  remove cid force volumes = do
    con ← get_container cid
    λ w. (
      explain_status (b.remove_container con force volumes w).0,
      (b.remove_container con force volumes w).1,
    )

  abbrev is_ok : {A : Type 0} → Result A → Bool
  is_ok (ok a) = true
  is_ok (err e) = false

  unfoldable pub rename : String → String → PlainOptions G → Act W (Unit {0})
  unfolding get_container
  rename cid new_name options w =
      if is_ok (get_container new_name w).0
      then (
        err (new_conflict (plain ("container with name " ++ (new_name ++ " already exists")))),
        w,
      )
      else (do con ← get_container cid; b.rename_container con new_name options) w

  -- Wait; the second result is what was written to the Stdout of the options.
  abbrev wait_for : G → Result Container → W → Result (Unit {0}) × List String × W
  wait_for g (err e) w = (err e, [], w)
  wait_for g (ok cont) w = b.container_wait cont.id g w

  unfoldable pub wait : String → G → W → Result (Unit {0}) × List String × W
  unfolding get_container_typed
  wait cid g w = wait_for g (get_container_typed cid w).0 w

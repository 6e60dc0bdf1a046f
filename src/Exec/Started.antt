-- ===== src/Exec/Started.antt =====
-- What a start of a process that succeeds has done (internal/service/exec/start.go).
use finch_daemon.Prelude.{
  ℕ, ◌≡◌, refl, ap, subst, List, [], ◌∷◌, Bool, inl, inr, String, true, false, not, arith, nat_eq,
  nat_eq_iff, Bool-cases,
}
use finch_daemon.Act.{Result, ok, err, Result-cases}
use finch_daemon.Containers.Backend.{ProcessStatus, running, Container}
use finch_daemon.Exec.Service.{
  ExecBackend, ExecInstance, ExecStartOptions, load_exec_instance, start, started, check_status,
  is_running, run, exited, respond, resize_console, only_match, container_error, retyped,
  get_container,
}

running-eq : (s : ProcessStatus) → is_running s ≡ true → s ≡ running
running-eq running h = refl
running-eq _ h = absurd (cc h)

module _ {W : Type 0} (b : ExecBackend W) where
  check_status-eq-ok :
      (con_id : String) (r : Result ProcessStatus)
      → check_status b con_id r ≡ ok tt
      → r ≡ ok running
  check_status-eq-ok con_id (ok s) h = elim (Bool-cases (is_running s)) [
    | inl yes_ ↦ ap ok (running-eq s yes_)
    | inr no_ ↦ absurd (ground arith)
  ]
  check_status-eq-ok con_id (err e) h = absurd (ground arith)

  exited-eq-ok : (r : Result ℕ) → exited b r ≡ ok tt → r ≡ ok 0
  exited-eq-ok (ok code) h = elim (Bool-cases (nat_eq code 0)) [
    | inl zero_ ↦ ap ok ((nat_eq_iff code 0).0 zero_)
    | inr other ↦ absurd (ground arith)
  ]
  exited-eq-ok (err e) h = absurd (cc h)

  only_match-eq-ok :
      (cid : String) (r : Result (List Container)) (c : Container)
      → only_match b cid r ≡ ok c
      → r ≡ ok (c ∷ [])
  only_match-eq-ok cid (err e) c h = absurd (cc h)
  only_match-eq-ok cid (ok []) c h = absurd (cc h)
  only_match-eq-ok cid (ok (d ∷ [])) c h = cc h
  only_match-eq-ok cid (ok (d ∷ e ∷ cs)) c h = absurd (cc h)

  container_error-eq-ok :
      (r : Result Container) (c : Container) → container_error b r ≡ ok c → r ≡ ok c
  container_error-eq-ok (ok c) d h = h
  container_error-eq-ok (err e) d h = absurd (ground arith)

  retyped-eq-ok :
      {A : Type 0} (what : String) (r : Result A) (a : A) → retyped b what r ≡ ok a → r ≡ ok a
  retyped-eq-ok what (ok a) c h = h
  retyped-eq-ok what (err e) c h = absurd (ground arith)

  -- The lookup found one container for the id, its task and in this the process.
  abbrev pub IsLoaded : String → String → Bool → W → ExecInstance b → Type 0
  IsLoaded con_id exec_id attach w exec =
      (b.search_container con_id w ≡ ok (exec.container ∷ []))
      × (b.task exec.container w ≡ ok exec.task_)
      × ((b.load_process exec.task_ exec_id attach w).0 ≡ ok exec.process)

  instance_of : Container → b.Task → b.Process → ExecInstance b
  instance_of con task_ proc = record { container = con; task_ = task_; process = proc }

  the_ok : {x y : ExecInstance b} → Result.ok x ≡ ok y → x ≡ y
  the_ok h = cc h

  -- What is known of a lookup that succeeded; it leaves the world of the last of its calls.
  abbrev Found : String → String → Bool → W → W → ExecInstance b → Type 0
  Found con_id exec_id attach w w' exec =
      IsLoaded con_id exec_id attach w exec × (w' ≡ (b.load_process exec.task_ exec_id attach w).1)

  load_exec_instance-Found :
      (con_id exec_id : String) (attach : Bool) (w : W) (exec : ExecInstance b)
      → (load_exec_instance b con_id exec_id attach w).0 ≡ ok exec
      → Found con_id exec_id attach w (load_exec_instance b con_id exec_id attach w).1 exec
  unfolding load_exec_instance get_container instance_of
  load_exec_instance-Found con_id exec_id attach w exec h =
      let con_ = container_error b (only_match b con_id (b.search_container con_id w)) in
      elim (Result-cases con_) [
        | inr (e, failed) ↦ absurd (ground arith)
        | inl (con, one) ↦ elim (Result-cases (retyped b "task not found: " (b.task con w))) [
          | inr (e, failed) ↦ absurd (ground arith)
          | inl (t, tasked) ↦
              let loaded_ = b.load_process t exec_id attach w in
              elim (Result-cases (retyped b "process not found: " loaded_.0)) [
                | inr (e, failed) ↦ absurd (ground arith)
                | inl (proc, found) ↦
                    let same : instance_of con t proc ≡ exec = the_ok (ground arith) in
                    let left : (load_exec_instance b con_id exec_id attach w).1 ≡ loaded_.1 =
                      ground arith in
                    subst
                      (Found con_id exec_id attach w
                        (load_exec_instance b con_id exec_id attach w).1)
                      same
                      (
                        (
                          only_match-eq-ok con_id (b.search_container con_id w) con (
                              container_error-eq-ok
                                (only_match b con_id (b.search_container con_id w)) con one),
                          retyped-eq-ok "task not found: " (b.task con w) t tasked,
                          retyped-eq-ok "process not found: " loaded_.0 proc found,
                        ),
                        left,
                      )
              ]
        ]
      ]

  -- The process was started with success; one that is attached was then waited for and its exit
  -- code was 0, and a detached one is left as it was started, in the world `w'`.
  abbrev pub WasRun : ExecStartOptions W → b.Process → b.ExitChannel → W → Type 0
  WasRun o proc status_c w' =
      (w : W) × ((b.start_process proc w).0 ≡ ok tt)
      × (o.detach ≡ false → (b.exit_code status_c (b.start_process proc w).1).0 ≡ ok 0)
      × (o.detach ≡ true → (b.start_process proc w).1 ≡ w')

  run-WasRun :
      (o : ExecStartOptions W) (proc : b.Process) (status_c : b.ExitChannel) (w w' : W)
      → (run b o proc status_c w).0 ≡ ok tt
      → (run b o proc status_c w).1 ≡ w'
      → WasRun o proc status_c w'
  run-WasRun o proc status_c w w' h at = elim (Bool-cases o.detach) [
    | inl detached ↦
        let w1 = respond b o.success_response w in
        (w1, ground arith, λ no_. absurd (ground arith), λ yes_. ground arith)
    | inr attached ↦
        let w1 =
          respond b o.success_response (b.forward_all_signals proc (resize_console b o proc w)) in
        elim (Result-cases (b.start_process proc w1).0) [
          | inr (e, failed) ↦ absurd (ground arith)
          | inl (tt, done) ↦ (
            w1,
            done,
            λ no_. exited-eq-ok (b.exit_code status_c (b.start_process proc w1).1).0 (ground arith),
            λ yes_. absurd (ground arith),
          )
        ]
  ]

  -- What is known of a start that succeeded and left the world `w'`.
  abbrev pub IsStarted : ExecStartOptions W → W → W → ExecInstance b → Type 0
  IsStarted o w w' exec =
      let w1 = (b.load_process exec.task_ o.exec_id (not o.detach) w).1 in
      IsLoaded o.con_id o.exec_id (not o.detach) w exec
      × (b.task_status exec.task_ w1 ≡ ok running)
      × ((status_c : b.ExitChannel) × ((b.wait exec.process w1).0 ≡ ok status_c)
          × WasRun o exec.process status_c w')

  started-WasRun :
      (o : ExecStartOptions W) (w w' : W) (exec : ExecInstance b)
      → (started b o exec w).0 ≡ ok tt
      → (started b o exec w).1 ≡ w'
      → (b.task_status exec.task_ w ≡ ok running)
        × ((status_c : b.ExitChannel) × ((b.wait exec.process w).0 ≡ ok status_c)
            × WasRun o exec.process status_c w')
  started-WasRun o w w' exec h at =
      elim (Result-cases (check_status b o.con_id (b.task_status exec.task_ w))) [
        | inr (e, failed) ↦ absurd (ground arith)
        | inl (t, checked) ↦ elim (Result-cases (b.wait exec.process w).0) [
          | inr (e, failed) ↦ absurd (ground arith)
          | inl (status_c, waited) ↦ (
            check_status-eq-ok o.con_id (b.task_status exec.task_ w) checked,
            (
              status_c,
              waited,
              run-WasRun o exec.process status_c (b.wait exec.process w).1 w' (ground arith)
                  (ground arith),
            ),
          )
        ]
      ]

  -- A start that succeeds found exactly one container for the id, its task and in it the process, the
  -- task was running, the process was waited on and started with success, and then: a detached one
  -- is left as it was started, and an attached one has exited with the code 0.
  pub start-IsStarted :
      (o : ExecStartOptions W) (w : W)
      → (start b o w).0 ≡ ok tt
      → (exec : ExecInstance b) × IsStarted o w (start b o w).1 exec
  unfolding start
  start-IsStarted o w h =
      let load_ = load_exec_instance b o.con_id o.exec_id (not o.detach) w in
      elim (Result-cases load_.0) [
        | inr (e, failed) ↦ absurd (ground arith)
        | inl (exec, found) ↦
            let (loaded_, left) =
              load_exec_instance-Found o.con_id o.exec_id (not o.detach) w exec found in
            let left_world = (b.load_process exec.task_ o.exec_id (not o.detach) w).1 in
            let (runs, was_run) =
              started-WasRun o left_world (start b o w).1 exec (ground arith) (ground arith) in
            (exec, (loaded_, runs, was_run))
      ]

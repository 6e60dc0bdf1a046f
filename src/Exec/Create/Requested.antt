-- ===== src/Exec/Create/Requested.antt =====
-- Which process a creation that succeeds has handed to containerd.
use Prim.Native.String.{◌++◌}
use finch_daemon.Prelude.{
  String, ◌≡◌, refl, sym, subst, ◌∙◌, inl, inr, Bool, true, false, some, List, arith, if◌then◌else◌,
}
use finch_daemon.Act.{Result, ok, err, Result-cases}
use finch_daemon.Go.Strings.{is_empty}
use finch_daemon.Containers.Backend.{
  ProcessStatus, running, created, stopped, paused, pausing, unknown, Container, Backend,
}
use finch_daemon.Containers.Service.{get_container_typed}
use finch_daemon.Exec.Create.{
  or_none, ExecConfig, Capabilities, Process, ExecCreateBackend, with_capabilities, configured,
  with_user_opts, set_exec_capabilities, generate_exec_process_spec, or_not_running, check_status,
  io_creator, exec_as, exec_create,
}

module _ {W G S I F : Type 0} (b : Backend W G) (x : ExecCreateBackend W b.Task S I F) where
  -- A privileged process has all the capabilities of the daemon in four sets.
  abbrev pub IsPrivileged : Process S → Type 0
  IsPrivileged p =
      (w : W) × (all_caps : List String) × (caps : Capabilities) × (x.current_capabilities w
        ≡ ok all_caps)
      × (p.capabilities ≡ some caps)
      × (caps.bounding ≡ all_caps)
      × (caps.permitted ≡ all_caps)
      × (caps.inheritable ≡ all_caps)
      × (caps.effective ≡ all_caps)

  -- A process that is not privileged keeps the capabilities of `old`.
  abbrev pub IsRequested : ExecConfig → Process S → Process S → Type 0
  IsRequested config old p =
      (p.args ≡ config.cmd)
      × (p.terminal ≡ config.tty)
      × (p.env ≡ x.replace_or_append_env_values old.env config.env)
      × (p.cwd ≡ (if is_empty config.working_dir then old.cwd else config.working_dir))
      × (config.privileged ≡ true → IsPrivileged p)
      × (config.privileged ≡ false → p.capabilities ≡ old.capabilities)

  -- The process of the container with the options of the user, if one is given.
  abbrev pub IsOfUser : Container → ExecConfig → Process S → Type 0
  IsOfUser con config old =
      (p : Process S) × (w : W) × (w1 : W) × (x.process_spec con w ≡ ok p)
      × ((with_user_opts b x con config.user p w1).0 ≡ ok old)

  ok-inj : {p q : Process S} → Result.ok p ≡ ok q → p ≡ q
  ok-inj h = cc h

  granted-IsRequested :
      (config : ExecConfig) (old : Process S) (w : W) (all_caps : List String)
      → config.privileged ≡ true
      → x.current_capabilities w ≡ ok all_caps
      → IsRequested config old (with_capabilities all_caps (configured b x config old))
  unfolding configured with_capabilities
  granted-IsRequested config old w all_caps yes_ found = (
    refl,
    refl,
    refl,
    refl,
    λ is. (
      w,
      all_caps,
      record (or_none old.capabilities) {
        bounding = all_caps;
        permitted = all_caps;
        inheritable = all_caps;
        effective = all_caps;
      },
      found,
      refl,
      refl,
      refl,
      refl,
      refl,
    ),
    λ no_. absurd (cc (yes_, no_)),
  )

  kept-IsRequested :
      (config : ExecConfig) (old : Process S)
      → config.privileged ≡ false
      → IsRequested config old (configured b x config old)
  unfolding configured
  kept-IsRequested config old no_ =
      (refl, refl, refl, refl, λ yes_. absurd (cc (yes_, no_)), λ is. refl)

  capabilities-IsRequested :
      (config : ExecConfig) (old p : Process S) (w : W) (v : Bool)
      → config.privileged ≡ v
      → (set_exec_capabilities b x v (configured b x config old) w).0 ≡ ok p
      → IsRequested config old p
  unfolding set_exec_capabilities
  capabilities-IsRequested config old p w false no_ h =
      subst (IsRequested config old) (ok-inj h) (kept-IsRequested config old no_)
  capabilities-IsRequested config old p w true yes_ h =
      elim (Result-cases (x.current_capabilities w)) [
        | inr (e, failed) ↦ absurd (ground arith)
        | inl (all_caps, found) ↦
            let made : (set_exec_capabilities b x true (configured b x config old) w).0
                ≡ ok (with_capabilities all_caps (configured b x config old)) =
              rw found refl in
            subst (IsRequested config old) (ok-inj (sym made ∙ h))
              (granted-IsRequested config old w all_caps yes_ found)
      ]

  generated-IsRequested :
      (con : Container) (config : ExecConfig) (p : Process S) (w : W)
      → (generate_exec_process_spec b x con config w).0 ≡ ok p
      → (old : Process S) × IsOfUser con config old × IsRequested config old p
  unfolding generate_exec_process_spec
  generated-IsRequested con config p w h = elim (Result-cases (x.process_spec con w)) [
    | inr (e, failed) ↦ absurd (ground arith)
    | inl (own, found) ↦
        let with_opts = with_user_opts b x con config.user own w in
        elim (Result-cases with_opts.0) [
          | inr (e, failed) ↦ absurd (ground arith)
          | inl (old, done) ↦ (
            old,
            (own, w, w, found, done),
            capabilities-IsRequested config old p with_opts.1 config.privileged refl (ground arith),
          )
        ]
  ]

  -- A process with an ID that was drawn, the requested fields and the chosen streams was created
  -- in the task `t`, which was running.
  abbrev pub IsCreated : ExecConfig → String → b.Task → Process S → String → Type 0
  IsCreated config cid t p eid =
      (id : String) × (w : W) × (w1 : W) × ((x.generate_id w).0 ≡ id)
      × (b.task_status t w ≡ ok running)
      × ((x.exec t ("exec-" ++ id) p (io_creator b x config) w1).0 ≡ ok tt)
      × (eid ≡ cid ++ ("/" ++ ("exec-" ++ id)))

  status-eq-ok :
      (cid : String) (r : Result ProcessStatus) → check_status b x cid r ≡ ok tt → r ≡ ok running
  status-eq-ok cid (ok running) h = refl
  status-eq-ok cid (ok created) h = absurd (cc h)
  status-eq-ok cid (ok stopped) h = absurd (cc h)
  status-eq-ok cid (ok paused) h = absurd (cc h)
  status-eq-ok cid (ok pausing) h = absurd (cc h)
  status-eq-ok cid (ok unknown) h = absurd (cc h)
  status-eq-ok cid (err e) h = absurd (ground arith)

  or_not_running-eq-ok :
      (cid : String) (r : Result b.Task) (t : b.Task) → or_not_running b x cid r ≡ ok t → r ≡ ok t
  or_not_running-eq-ok cid (ok t) t' h = h
  or_not_running-eq-ok cid (err e) t' h = absurd (ground arith)

  exec_as-IsCreated :
      (config : ExecConfig) (cid eid : String) (t : b.Task) (p : Process S) (w : W)
      → b.task_status t w ≡ ok running
      → (exec_as b x cid config t p (x.generate_id w)).0 ≡ ok eid
      → IsCreated config cid t p eid
  exec_as-IsCreated config cid eid t p w runs h =
      let (id, w1) = x.generate_id w in
      elim (Result-cases (x.exec t ("exec-" ++ id) p (io_creator b x config) w1).0) [
        | inr (e, failed) ↦ absurd (ground arith)
        | inl (tt, done) ↦ (id, w, w1, refl, runs, done, ground arith)
      ]

  -- A creation that succeeds has found one container with a running task and has created in it a
  -- process with the command, terminal, environment and directory of the configuration, over the
  -- process of the container with the options of the user; a privileged process has all the
  -- capabilities of the daemon, any other those it had. The answer is the container's ID as it was
  -- given and the drawn ID.
  pub exec_create-IsCreated :
      (cid eid : String) (config : ExecConfig) (w : W)
      → (exec_create b x cid config w).0 ≡ ok eid
      → (con : Container) × (t : b.Task) × (old : Process S) × (p : Process S) × (w1 : W)
        × ((get_container_typed b cid w).0 ≡ ok con)
        × (b.task con w1 ≡ ok t)
        × IsOfUser con config old
        × IsRequested config old p
        × IsCreated config cid t p eid
  unfolding exec_create
  exec_create-IsCreated cid eid config w h =
      let w0 = (get_container_typed b cid w).1 in
      elim (Result-cases (get_container_typed b cid w).0) [
        | inr (e, failed) ↦ absurd (ground arith)
        | inl (con, found) ↦
            let w1 = (generate_exec_process_spec b x con config w0).1 in
            elim (Result-cases (generate_exec_process_spec b x con config w0).0) [
              | inr (e, failed) ↦ absurd (ground arith)
              | inl (p, generated) ↦ elim (Result-cases (or_not_running b x cid (b.task con w1))) [
                | inr (e, failed) ↦ absurd (ground arith)
                | inl (t, running_) ↦
                    elim (Result-cases (check_status b x cid (b.task_status t w1))) [
                      | inr (e, failed) ↦ absurd (ground arith)
                      | inl (tt, runs) ↦
                          let (old, of_user, requested) =
                            generated-IsRequested con config p w0 generated in
                          (
                            con,
                            t,
                            old,
                            p,
                            w1,
                            found,
                            or_not_running-eq-ok cid (b.task con w1) t running_,
                            of_user,
                            requested,
                            exec_as-IsCreated config cid eid t p w1
                                (status-eq-ok cid (b.task_status t w1) runs) (ground arith),
                          )
                    ]
              ]
            ]
      ]

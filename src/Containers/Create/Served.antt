-- ===== src/Containers/Create/Served.antt =====
-- What a request to create a container leads to (api/handlers/container/create.go).
use finch_daemon.Prelude.{
  String, ◌≡◌, refl, subst, ◌⊎◌, inl, inr, true, false, some, none, List, [], ◌∷◌, ◌==◌, eq_iff,
  arith, Bool-cases, Option-cases,
}
use finch_daemon.Errors.{GoError, message}
use finch_daemon.Act.{ok, err, Result-cases}
use finch_daemon.Go.Strings.{is_empty, is_empty-eq-true}
use finch_daemon.Http.{error_body}
use finch_daemon.Containers.Handlers.{Config}
use finch_daemon.Containers.Create.Request.{
  Formats, ContainerCreateRequest, CreateOptions, NetworkOptions,
}
use finch_daemon.Containers.Create.Translate.{valid_cgroupns_mode}
use finch_daemon.Containers.Create.Ports.{translate_port_mappings}
use finch_daemon.Containers.Create.Devices.{Files, validate_devices}
use finch_daemon.Containers.Create.Usable.{
  AreUsable, validate_devices-AreUsable, validate_devices-unusable,
}
use finch_daemon.Containers.Create.Options.{create_opt, net_opt}
use finch_daemon.Containers.Create.Service.{CreateBackend, create}
use finch_daemon.Containers.Create.Handler.{create_handler, cgroupns_mode_of, answer}

module _ {G : Type 0} (f : Formats) (global : G) where
  -- The mode of the cgroup namespace is the requested one, or the default if none is requested.
  abbrev pub IsMode : String → String → Type 0
  IsMode given mode =
      ((given ≡ "") × (mode ≡ f.default_cgroupns_mode))
      ⊎ ((mode ≡ given) × ((given ≡ "private") ⊎ (given ≡ "host")))

  -- The options carry what was requested, each in its own field.
  abbrev pub IsFaithful :
      String → String → String → ContainerCreateRequest f → CreateOptions G → Type 0
  IsFaithful name platform mode req o =
      let host = req.host_config in
      (o.g_options ≡ global)
      × (o.name ≡ name)
      × (o.platform ≡ platform)
      × (o.cgroupns ≡ mode)
      × (o.user ≡ req.config.user)
      × (o.group_add ≡ host.group_add)
      × (o.env ≡ req.config.env)
      × (o.workdir ≡ req.config.working_dir)
      × (o.entrypoint ≡ req.config.entrypoint)
      × (o.privileged ≡ host.privileged)
      × (o.cap_add ≡ host.cap_add)
      × (o.cap_drop ≡ host.cap_drop)
      × (o.security_opt ≡ host.security_opt)
      × (o.read_only ≡ host.readonly_rootfs)
      × (o.oom_kill_disable ≡ host.oom_kill_disable)
      × (o.rm ≡ host.auto_remove)
      × (o.pid ≡ host.pid_mode)
      × (o.ipc ≡ host.ipc_mode)
      × (o.cpuset_cpus ≡ host.cpuset_cpus)
      × (o.cpuset_mems ≡ host.cpuset_mems)
      × (o.volumes_from ≡ host.volumes_from)
      × (o.detach ≡ true)
      × (o.tty ≡ false)
      × (o.interactive ≡ false)

  abbrev pub IsFaithfulNetwork :
      ContainerCreateRequest f → List f.PortMapping → NetworkOptions f → Type 0
  IsFaithfulNetwork req ports net =
      let host = req.host_config in
      (net.hostname ≡ req.config.hostname)
      × (net.mac_address ≡ req.config.mac_address)
      × (net.dns_servers ≡ host.dns)
      × (net.dns_resolv_conf_options ≡ host.dns_options)
      × (net.dns_search_domains ≡ host.dns_search)
      × (net.add_host ≡ host.extra_hosts)
      × (net.uts_namespace ≡ host.uts_mode)
      × (net.port_mappings ≡ ports)
      × (req.config.network_disabled ≡ true → net.network_slice ≡ "none" ∷ [])

  faithful :
      (name platform mode : String) (req : ContainerCreateRequest f)
      → IsFaithful name platform mode req
          (create_opt f global name platform mode req.config req.host_config)
  unfolding create_opt
  faithful name platform mode req = (
    refl, refl, refl, refl, refl, refl, refl, refl, refl, refl, refl, refl, refl, refl, refl, refl,
    refl, refl, refl, refl, refl, refl, refl, refl,
  )

  faithful_network :
      (req : ContainerCreateRequest f) (ports : List f.PortMapping)
      → IsFaithfulNetwork req ports (net_opt f global req.config req.host_config ports)
  unfolding net_opt
  faithful_network req ports =
      (refl, refl, refl, refl, refl, refl, refl, refl, λ disabled. rw disabled refl)

module _ {W G : Type 0} (f : Formats) (backends : String → CreateBackend f W G) (files : Files W)
    (config : Config G) where
  -- The checks that a request passes before its options are translated.
  abbrev pub IsPassedOn : ContainerCreateRequest f → W → String → List f.PortMapping → Type 0
  IsPassedOn req w mode ports =
      (req.config.attach_stdin ≡ false)
      × IsMode f config.global req.host_config.cgroupns_mode mode
      × AreUsable files w req.host_config.devices
      × (translate_port_mappings f req.host_config.port_bindings ≡ ok ports)

  -- Why a request is refused, with the text of the answer.
  abbrev pub IsRefusal : ContainerCreateRequest f → W → String → Type 0
  IsRefusal req w text =
      ((req.config.attach_stdin ≡ true)
        × (text ≡ "AttachStdin is currently not supported during create"))
      ⊎ (((¬ (req.host_config.cgroupns_mode ≡ ""))
            × (¬ (req.host_config.cgroupns_mode ≡ "private"))
            × (¬ (req.host_config.cgroupns_mode ≡ "host"))
            × (text ≡ "invalid cgroup namespace mode, valid values are: 'private' or 'host'"))
          ⊎ (((¬ AreUsable files w req.host_config.devices)
                × (validate_devices files w req.host_config.devices ≡ some text))
              ⊎ ((e : GoError) × (translate_port_mappings f req.host_config.port_bindings ≡ err e)
                  × (text ≡ message e))))

  -- The answer and the world are those of the one call of the service, for options and network
  -- options that carry what was requested.
  abbrev pub IsServed :
      String → String → ContainerCreateRequest f → W → String → List f.PortMapping → Type 0
  IsServed name platform req w mode ports =
      (o : CreateOptions G) × (net : NetworkOptions f) × IsFaithful f config.global name platform
        mode req o
      × IsFaithfulNetwork f config.global req ports net
      × (let served = create (backends config.namespace) req.config.image req.config.cmd o net w in
          ((create_handler f backends files config name platform (ok req) w).0
            ≡ answer f backends files config served.0)
          × ((create_handler f backends files config name platform (ok req) w).1 ≡ served.1))

  cgroupns_mode_of-IsMode :
      (given mode : String)
      → cgroupns_mode_of f backends files config given ≡ some mode
      → IsMode f config.global given mode
  unfolding valid_cgroupns_mode
  cgroupns_mode_of-IsMode given mode h = elim (Bool-cases (is_empty given)) [
    | inl empty ↦ inl (is_empty-eq-true given empty, ground arith)
    | inr filled ↦ elim (Bool-cases (given == "private")) [
      | inl private ↦ inr (ground arith, inl ((eq_iff given "private").0 private))
      | inr other ↦ elim (Bool-cases (given == "host")) [
        | inl host ↦ inr (ground arith, inr ((eq_iff given "host").0 host))
        | inr invalid ↦ absurd (ground arith)
      ]
    ]
  ]

  cgroupns_mode_of-eq-none :
      (given : String)
      → cgroupns_mode_of f backends files config given ≡ none
      → (¬ (given ≡ "")) × (¬ (given ≡ "private")) × (¬ (given ≡ "host"))
  unfolding valid_cgroupns_mode
  cgroupns_mode_of-eq-none given h = (
    λ same. absurd (cc (subst (λ s. cgroupns_mode_of f backends files config s ≡ none) same h)),
    λ same. let found = (eq_iff given "private").1 same in absurd (ground arith),
    λ same. let found = (eq_iff given "host").1 same in absurd (ground arith),
  )

  -- A request to create a container whose body decodes is refused or served. A refusal is a 400 with
  -- the reason, and changes nothing: standard input is attached, the mode of the cgroup namespace is
  -- neither empty nor "private" or "host", a device is not usable (a usable one has a path that
  -- leads to a directory or a device), or a port mapping does not parse. Otherwise none of these holds, and
  -- the answer and the world are those of one call of the service with the image and the command,
  -- whose options have the user, environment, entrypoint, capabilities, privileges, namespaces and
  -- port mappings of the request, each in its own field.
  pub create_handler_lem :
      (name platform : String) (req : ContainerCreateRequest f) (w : W)
      → ((text : String) × IsRefusal req w text
          × ((create_handler f backends files config name platform (ok req) w).0.code ≡ some 400)
          × ((create_handler f backends files config name platform (ok req) w).0.body
              ≡ error_body text ∷ [])
          × ((create_handler f backends files config name platform (ok req) w).1 ≡ w))
        ⊎ ((mode : String) × (ports : List f.PortMapping) × IsPassedOn req w mode ports
            × IsServed name platform req w mode ports)
  unfolding create_handler create_opt net_opt
  create_handler_lem name platform req w =
      let mode_ = cgroupns_mode_of f backends files config req.host_config.cgroupns_mode in
      let devices_ = validate_devices files w req.host_config.devices in
      let ports_ = translate_port_mappings f req.host_config.port_bindings in
      elim (Bool-cases req.config.attach_stdin) [
        | inl attach ↦ inl (_, inl (attach, refl), rw attach refl, rw attach refl, rw attach refl)
        | inr detached ↦ elim (Option-cases mode_) [
          | inl bad ↦
              let (a, b, c) = cgroupns_mode_of-eq-none req.host_config.cgroupns_mode bad in
              inl (
                _,
                inr (inl (a, b, c, refl)),
                rw (detached, bad) refl,
                rw (detached, bad) refl,
                rw (detached, bad) refl,
              )
          | inr (mode, good) ↦ elim (Option-cases devices_) [
            | inr (text, bad) ↦ inl (
              text,
              inr (
                  inr (
                    inl (validate_devices-unusable files w req.host_config.devices text bad, bad))),
              rw (detached, good, bad) refl,
              rw (detached, good, bad) refl,
              rw (detached, good, bad) refl,
            )
            | inl devices ↦ elim (Result-cases ports_) [
              | inr (e, bad) ↦ inl (
                message e,
                inr (inr (inr (e, bad, refl))),
                rw (detached, good, devices, bad) refl,
                rw (detached, good, devices, bad) refl,
                rw (detached, good, devices, bad) refl,
              )
              | inl (ports, parsed) ↦
                  let is_mode = cgroupns_mode_of-IsMode req.host_config.cgroupns_mode mode good in
                  inr (
                    mode,
                    ports,
                    (
                      detached,
                      is_mode,
                      validate_devices-AreUsable files w req.host_config.devices devices,
                      parsed,
                    ),
                    (
                      create_opt f config.global name platform mode req.config req.host_config,
                      net_opt f config.global req.config req.host_config ports,
                      faithful f config.global name platform mode req,
                      faithful_network f config.global req ports,
                      (
                        rw (detached, good, devices, parsed) refl,
                        rw (detached, good, devices, parsed) refl,
                      ),
                    ),
                  )
            ]
          ]
        ]
      ]

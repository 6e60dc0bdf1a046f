-- ===== src/Containers/Create/Options.antt =====
-- The options that the create handler passes to its service (api/handlers/container/create.go).
use finch_daemon.Prelude.{String, Bool, true, false, List, [], ◌∷◌, map}
use finch_daemon.Go.Strconv.{to_word}
use finch_daemon.Builder.Options.{flatten}
use finch_daemon.Containers.Create.Request.{
  Formats, ContainerConfig, ContainerHostConfig, CreateOptions, NetworkOptions,
}
use finch_daemon.Containers.Create.Translate.{
  given_or, restart_flag, stop_timeout_or, if_positive, if_nonzero, positive_or_minus_one,
  nonzero_or_minus_one, translate_tmpfs, translate_sysctls, translate_annotations, translate_labels,
  translate_devices, network_mode_flag,
}
use finch_daemon.Containers.Create.Volumes.{add_volumes}

abbrev nonempty_list : List String → Bool
nonempty_list [] = false
nonempty_list (x ∷ xs) = true

module _ {G : Type 0} (f : Formats) (global : G) where
  -- createOpt
  unfoldable pub create_opt :
      String → String → String → ContainerConfig → ContainerHostConfig f → CreateOptions G
  unfolding flatten restart_flag if_positive if_nonzero translate_tmpfs translate_sysctls
      translate_annotations translate_labels translate_devices add_volumes
  create_opt name platform cgroupns_mode req host = record {
    g_options = global;
    nerdctl_cmd = "";
    nerdctl_args = [];
    interactive = false;
    tty = false;
    detach = true;
    restart = restart_flag host.restart_policy;
    rm = host.auto_remove;
    pull = "missing";
    stop_signal = given_or req.stop_signal "SIGTERM";
    stop_timeout = stop_timeout_or req.stop_timeout;
    cid_file = host.container_id_file;
    oom_kill_disable = host.oom_kill_disable;
    pid = host.pid_mode;
    platform = platform;
    isolation = "default";
    cpuset_cpus = host.cpuset_cpus;
    cpuset_mems = host.cpuset_mems;
    cpu_shares = to_word host.cpu_shares;
    cpu_quota = nonzero_or_minus_one host.cpu_quota;
    cpu_period = to_word host.cpu_period;
    memory = if_positive host.memory;
    memory_swap = if_nonzero host.memory_swap;
    memory_reservation = if_nonzero host.memory_reservation;
    memory_swappiness64 = positive_or_minus_one host.memory_swappiness;
    ulimit = map f.ulimit_string host.ulimits;
    pids_limit = positive_or_minus_one host.pids_limit;
    cgroupns = cgroupns_mode;
    blkio_weight = host.blkio_weight;
    blkio_weight_device = map f.weight_device_string host.blkio_weight_device;
    blkio_device_read_bps = map f.throttle_device_string host.blkio_device_read_bps;
    blkio_device_write_bps = map f.throttle_device_string host.blkio_device_write_bps;
    blkio_device_read_iops = map f.throttle_device_string host.blkio_device_read_iops;
    blkio_device_write_iops = map f.throttle_device_string host.blkio_device_write_iops;
    ipc = host.ipc_mode;
    shm_size = if_positive host.shm_size;
    device = translate_devices host.devices;
    user = req.user;
    group_add = host.group_add;
    security_opt = host.security_opt;
    cap_add = host.cap_add;
    cap_drop = host.cap_drop;
    privileged = host.privileged;
    runtime = given_or host.runtime f.default_runtime;
    sysctl = translate_sysctls host.sysctls;
    volume = add_volumes req.volumes host.binds;
    volumes_from = host.volumes_from;
    tmpfs = translate_tmpfs host.tmpfs;
    env = req.env;
    workdir = req.working_dir;
    entrypoint = req.entrypoint;
    entrypoint_changed = nonempty_list req.entrypoint;
    name = name;
    label = translate_labels req.labels;
    annotations = translate_annotations host.annotations;
    log_driver = given_or host.log_config.driver_type "json-file";
    log_opt = flatten host.log_config.config;
    read_only = host.readonly_rootfs;
  }

  -- netOpt
  unfoldable pub net_opt :
      ContainerConfig → ContainerHostConfig f → List f.PortMapping → NetworkOptions f
  unfolding network_mode_flag
  net_opt req host port_mappings = record {
    hostname = req.hostname;
    network_slice = network_mode_flag req.network_disabled host.network_mode ∷ [];
    dns_servers = host.dns;
    dns_resolv_conf_options = host.dns_options;
    dns_search_domains = host.dns_search;
    port_mappings = port_mappings;
    add_host = host.extra_hosts;
    mac_address = req.mac_address;
    uts_namespace = host.uts_mode;
  }

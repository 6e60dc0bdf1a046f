-- ===== src/Containers/Create/Tests.antt =====
-- A request to create a container, on which the handler runs and the theorems are applied.
use finch_daemon.Prelude.{
  String, ◌≡◌, refl, ◌⊎◌, true, false, List, [], ◌∷◌, ◌++◌, All, none, some, ◌==◌, if◌then◌else◌,
}
use finch_daemon.Prelude.Int.{pos}
use finch_daemon.Errors.{plain}
use finch_daemon.Act.{ok, err}
use finch_daemon.Go.Maps.{Map, insert}
use finch_daemon.Containers.Handlers.{Config}
use finch_daemon.Containers.Create.Request.{Formats, ContainerCreateRequest, PortBinding}
use finch_daemon.Containers.Create.Translate.{
  restart_flag, translate_devices, translate_tmpfs, network_mode_flag,
}
use finch_daemon.Containers.Create.Volumes.{contained, add_volumes, add_volumes_lem}
use finch_daemon.Containers.Create.Ports.{port_str, port_pairs, translate_port_mappings}
use finch_daemon.Containers.Create.Ports.Translated.{
  IsTranslated, translate_port_mappings-IsTranslated,
}
use finch_daemon.Containers.Create.Devices.{Files, validate_devices}
use finch_daemon.Containers.Create.Service.{CreateBackend}
use finch_daemon.Containers.Create.Handler.{create_handler}
use finch_daemon.Containers.Create.Served.{IsRefusal, IsPassedOn, IsServed, create_handler_lem}
use finch_daemon.Http.{error_body}

abbrev formats : Formats
formats = record {
  Ulimit = String;
  WeightDevice = String;
  ThrottleDevice = String;
  PortMapping = String;
  ulimit_string = λ s. s;
  weight_device_string = λ s. s;
  throttle_device_string = λ s. s;
  port = λ p. p;
  proto = λ p. "tcp";
  parse_flag_p = λ s. ok (s ∷ []);
  default_runtime = "runc";
  default_cgroupns_mode = "private";
}

-- The world is the names of the containers created so far.
abbrev toy : CreateBackend formats (List String) (Unit {0})
toy = record {
  Manager = Unit {0};
  Spec = Map String;
  get_nerdctl_exe = λ w. ok "/usr/bin/nerdctl";
  new_networking_options_manager = λ o w. (ok tt, w);
  create_container = λ args m o w. ((ok (record { id = "c1" }), none), o.name ∷ w);
  labels = λ c w. ok [];
  spec = λ c w. ok [];
  data_store = λ g w. ok "/var/lib/nerdctl";
  log_uri_generator = λ exe store. ok exe;
  annotate = insert;
  marshal_ports = λ ports. ok "";
  update = λ c l s w. (ok tt, w);
  log_uri_label = "nerdctl/log-uri";
  ports_label = "nerdctl/ports";
  is_c_not_found = λ e. false;
  is_invalid_argument = λ e. false;
  is_already_exists = λ e. false;
}

abbrev backends : String → CreateBackend formats (List String) (Unit {0})
backends ns = toy

abbrev files : Files (List String)
files = record {
  lstat = λ p w. if p == "/dev/null" then ok false else err (plain "no such file");
  eval_symlinks = λ p w. ok p;
  stat = λ p w. ok (false, true);
}

abbrev config : Config (Unit {0})
config = record { namespace = "finch"; global = tt }

abbrev binding : String → PortBinding
binding p = record { host_ip = ""; host_port = p }

abbrev request : String → String → ContainerCreateRequest formats
request device mode = record {
  config = record {
    hostname = "";
    user = "";
    attach_stdin = false;
    env = [];
    cmd = "sh" ∷ [];
    image = "alpine";
    volumes = "/data" ∷ "/cache" ∷ [];
    working_dir = "";
    entrypoint = [];
    network_disabled = false;
    mac_address = "";
    labels = [];
    stop_signal = "";
    stop_timeout = none;
  };
  host_config = record {
    binds = "/tmp:/data:ro" ∷ [];
    container_id_file = "";
    log_config = record { driver_type = ""; config = [] };
    network_mode = "";
    port_bindings = ("80", binding "8080" ∷ binding "8080" ∷ []) ∷ [];
    restart_policy = record { name = "on-failure"; maximum_retry_count = pos 3 };
    auto_remove = false;
    volumes_from = [];
    annotations = [];
    cap_add = [];
    cap_drop = [];
    cgroupns_mode = mode;
    dns = [];
    dns_options = [];
    dns_search = [];
    extra_hosts = [];
    group_add = [];
    ipc_mode = "";
    oom_kill_disable = false;
    pid_mode = "";
    privileged = false;
    readonly_rootfs = false;
    security_opt = [];
    tmpfs = [];
    uts_mode = "";
    shm_size = pos 0;
    sysctls = [];
    runtime = "";
    cpu_shares = pos 0;
    cpu_period = pos 0;
    cpu_quota = pos 0;
    cpuset_cpus = "";
    cpuset_mems = "";
    memory = pos 0;
    memory_reservation = pos 0;
    memory_swap = pos 0;
    memory_swappiness = pos 0;
    ulimits = [];
    blkio_weight = 0;
    blkio_weight_device = [];
    blkio_device_read_bps = [];
    blkio_device_write_bps = [];
    blkio_device_read_iops = [];
    blkio_device_write_iops = [];
    devices =
        record { path_on_host = device; path_in_container = ""; cgroup_permissions = "rw" } ∷ [];
    pids_limit = pos 0;
  };
}

parts : Unit {0}
unfolding create_handler restart_flag translate_devices translate_tmpfs network_mode_flag
    validate_devices contained add_volumes translate_port_mappings port_str port_pairs
parts = tt

create_tests :
    ((create_handler formats backends files config "web" "" (ok (request "/dev/null" "host")) []).1
      ≡ "web" ∷ [])
    × ((create_handler formats backends files config "web" ""
          (ok (request "/nope" "host"))
          []).0.code
        ≡ some 400)
    × (restart_flag (record { name = "on-failure"; maximum_retry_count = pos 3 }) ≡ "on-failure:3")
    × (translate_tmpfs (("/run", "rw") ∷ ("/tmp", "") ∷ []) ≡ "/run:rw" ∷ "/tmp" ∷ [])
unfolding parts
create_tests = (refl, refl, refl, refl)

abbrev wanted : List String
wanted = "/data" ∷ "/cache" ∷ []

abbrev bound : List String
bound = "/tmp:/data:ro" ∷ []

add_volumes_lem_example :
    (added : List String) × (add_volumes wanted bound ≡ bound ++ added)
    × All (λ a. contained a bound ≡ false) added
    × All (λ v. contained v (bound ++ added) ≡ true) wanted
add_volumes_lem_example = add_volumes_lem wanted bound

abbrev bindings : Map (List PortBinding)
bindings = ("80", binding "8080" ∷ binding "8080" ∷ []) ∷ []

abbrev two_ports : Map (List PortBinding)
two_ports = ("80", binding "8080" ∷ binding "8081" ∷ binding "8080" ∷ []) ∷ []

port_tests : translate_port_mappings formats two_ports ≡ ok ("8080:80/tcp" ∷ "8081:80/tcp" ∷ [])
unfolding translate_port_mappings port_pairs port_str
port_tests = refl

translate_port_mappings-IsTranslated_example :
    IsTranslated formats bindings (translate_port_mappings formats bindings)
translate_port_mappings-IsTranslated_example = translate_port_mappings-IsTranslated formats bindings

abbrev good : ContainerCreateRequest formats
good = request "/dev/null" "host"

create_handler_lem_example :
    ((text : String) × IsRefusal formats backends files config good [] text
      × ((create_handler formats backends files config "web" "" (ok good) []).0.code ≡ some 400)
      × ((create_handler formats backends files config "web" "" (ok good) []).0.body
          ≡ error_body text ∷ [])
      × ((create_handler formats backends files config "web" "" (ok good) []).1 ≡ []))
    ⊎ ((mode : String) × (ports : List String) × IsPassedOn formats backends files config good []
          mode ports
        × IsServed formats backends files config "web" "" good [] mode ports)
create_handler_lem_example = create_handler_lem formats backends files config "web" "" good []

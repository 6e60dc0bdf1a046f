-- ===== src/Containers/Create/Request.antt =====
-- The request of a create (api/types/container_types.go), and what the handler passes on.
use finch_daemon.Prelude.{ℕ, String, Bool, Option, List}
use finch_daemon.Prelude.Int.{ℤ}
use finch_daemon.Act.{Result}
use finch_daemon.Go.Maps.{Map}

-- The types of other packages, and what the handler calls of them: units.Ulimit, the devices of
-- blkiodev with their String methods, nat.Port, portutil.ParseFlagP with gocni.PortMapping.
pub record Formats : Type 1 where
  pub Ulimit : Type 0
  pub WeightDevice : Type 0
  pub ThrottleDevice : Type 0
  pub PortMapping : Type 0
  pub ulimit_string : Ulimit → String
  pub weight_device_string : WeightDevice → String
  pub throttle_device_string : ThrottleDevice → String
  pub port : String → String
  pub proto : String → String
  pub parse_flag_p : String → Result (List PortMapping)
  pub default_runtime : String
  pub default_cgroupns_mode : String

pub record LogConfig : Type 0 where
  pub driver_type : String
  pub config : Map String

pub record RestartPolicy : Type 0 where
  pub name : String
  pub maximum_retry_count : ℤ

pub record DeviceMapping : Type 0 where
  pub path_on_host : String
  pub path_in_container : String
  pub cgroup_permissions : String

-- nat.PortBinding
pub record PortBinding : Type 0 where
  pub host_ip : String
  pub host_port : String

-- The fields that are read; a nil slice or map is an empty one. `volumes` are the keys of Volumes
-- in the order of a range.
pub record ContainerConfig : Type 0 where
  pub hostname : String
  pub user : String
  pub attach_stdin : Bool
  pub env : List String
  pub cmd : List String
  pub image : String
  pub volumes : List String
  pub working_dir : String
  pub entrypoint : List String
  pub network_disabled : Bool
  pub mac_address : String
  pub labels : Map String
  pub stop_signal : String
  pub stop_timeout : Option ℤ

pub record ContainerHostConfig (f : Formats) : Type 0 where
  pub binds : List String
  pub container_id_file : String
  pub log_config : LogConfig
  pub network_mode : String
  pub port_bindings : Map (List PortBinding)
  pub restart_policy : RestartPolicy
  pub auto_remove : Bool
  pub volumes_from : List String
  pub annotations : Map String
  pub cap_add : List String
  pub cap_drop : List String
  pub cgroupns_mode : String
  pub dns : List String
  pub dns_options : List String
  pub dns_search : List String
  pub extra_hosts : List String
  pub group_add : List String
  pub ipc_mode : String
  pub oom_kill_disable : Bool
  pub pid_mode : String
  pub privileged : Bool
  pub readonly_rootfs : Bool
  pub security_opt : List String
  pub tmpfs : Map String
  pub uts_mode : String
  pub shm_size : ℤ
  pub sysctls : Map String
  pub runtime : String
  pub cpu_shares : ℤ
  pub cpu_period : ℤ
  pub cpu_quota : ℤ
  pub cpuset_cpus : String
  pub cpuset_mems : String
  pub memory : ℤ
  pub memory_reservation : ℤ
  pub memory_swap : ℤ
  pub memory_swappiness : ℤ
  pub ulimits : List f.Ulimit
  pub blkio_weight : ℕ
  pub blkio_weight_device : List f.WeightDevice
  pub blkio_device_read_bps : List f.ThrottleDevice
  pub blkio_device_write_bps : List f.ThrottleDevice
  pub blkio_device_read_iops : List f.ThrottleDevice
  pub blkio_device_write_iops : List f.ThrottleDevice
  pub devices : List DeviceMapping
  pub pids_limit : ℤ

pub record ContainerCreateRequest (f : Formats) : Type 0 where
  pub config : ContainerConfig
  pub host_config : ContainerHostConfig f

-- nerdctl's ContainerCreateOptions, over its global options; Stdout and Stderr are nil, and
-- ImagePullOpt has the global options and the provider "none".
pub record CreateOptions (G : Type 0) : Type 0 where
  pub g_options : G
  pub nerdctl_cmd : String
  pub nerdctl_args : List String
  pub interactive : Bool
  pub tty : Bool
  pub detach : Bool
  pub restart : String
  pub rm : Bool
  pub pull : String
  pub stop_signal : String
  pub stop_timeout : ℤ
  pub cid_file : String
  pub oom_kill_disable : Bool
  pub pid : String
  pub platform : String
  pub isolation : String
  pub cpuset_cpus : String
  pub cpuset_mems : String
  pub cpu_shares : ℕ
  pub cpu_quota : ℤ
  pub cpu_period : ℕ
  pub memory : String
  pub memory_swap : String
  pub memory_reservation : String
  pub memory_swappiness64 : ℤ
  pub ulimit : List String
  pub pids_limit : ℤ
  pub cgroupns : String
  pub blkio_weight : ℕ
  pub blkio_weight_device : List String
  pub blkio_device_read_bps : List String
  pub blkio_device_write_bps : List String
  pub blkio_device_read_iops : List String
  pub blkio_device_write_iops : List String
  pub ipc : String
  pub shm_size : String
  pub device : List String
  pub user : String
  pub group_add : List String
  pub security_opt : List String
  pub cap_add : List String
  pub cap_drop : List String
  pub privileged : Bool
  pub runtime : String
  pub sysctl : List String
  pub volume : List String
  pub volumes_from : List String
  pub tmpfs : List String
  pub env : List String
  pub workdir : String
  pub entrypoint : List String
  pub entrypoint_changed : Bool
  pub name : String
  pub label : List String
  pub annotations : List String
  pub log_driver : String
  pub log_opt : List String
  pub read_only : Bool

-- nerdctl's NetworkOptions
pub record NetworkOptions (f : Formats) : Type 0 where
  pub hostname : String
  pub network_slice : List String
  pub dns_servers : List String
  pub dns_resolv_conf_options : List String
  pub dns_search_domains : List String
  pub port_mappings : List f.PortMapping
  pub add_host : List String
  pub mac_address : String
  pub uts_namespace : String

-- ===== src/Containers/Create/Translate.antt =====
-- The fields that create.go turns into flags of nerdctl: defaults, maps and devices.
use Prim.Native.String.{◌++◌}
use finch_daemon.Prelude.{
  zero, suc, String, Bool, true, false, ◌||◌, Option, none, some, List, ◌==◌, map, if◌then◌else◌,
}
use finch_daemon.Prelude.Int.{ℤ, pos, negsuc}
use finch_daemon.Go.Decimal.{sprint}
use finch_daemon.Go.Maps.{Map}
use finch_daemon.Go.Strings.{is_empty}
use finch_daemon.Builder.Options.{key_equals_value_format}
use finch_daemon.Containers.Create.Request.{RestartPolicy, DeviceMapping}

-- n > 0, and n != 0
abbrev pub is_positive : ℤ → Bool
is_positive (pos zero) = false
is_positive (pos (suc n)) = true
is_positive (negsuc n) = false

abbrev pub is_nonzero : ℤ → Bool
is_nonzero (pos zero) = false
is_nonzero (pos (suc n)) = true
is_nonzero (negsuc n) = true

-- A text that is given, or the default.
abbrev pub given_or : String → String → String
given_or text default_text = if is_empty text then default_text else text

-- restart
unfoldable pub restart_flag : RestartPolicy → String
unfolding sprint
restart_flag rp =
    if is_empty rp.name
    then "no"
    else if is_positive rp.maximum_retry_count
    then rp.name ++ (":" ++ sprint rp.maximum_retry_count)
    else rp.name

abbrev pub stop_timeout_or : Option ℤ → ℤ
stop_timeout_or none = pos 10
stop_timeout_or (some t) = t

-- The texts of numbers that are above zero, or that are not zero.
unfoldable pub if_positive : ℤ → String
unfolding sprint
if_positive n = if is_positive n then sprint n else ""

unfoldable pub if_nonzero : ℤ → String
unfolding sprint
if_nonzero n = if is_nonzero n then sprint n else ""

abbrev minus_one : ℤ
minus_one = negsuc 0

abbrev pub positive_or_minus_one : ℤ → ℤ
positive_or_minus_one n = if is_positive n then n else minus_one

abbrev pub nonzero_or_minus_one : ℤ → ℤ
nonzero_or_minus_one n = if is_nonzero n then n else minus_one

abbrev tmpfs_flag : String × String → String
tmpfs_flag (dest, options) = if is_empty options then dest else dest ++ (":" ++ options)

-- translateTmpfs
unfoldable pub translate_tmpfs : Map String → List String
translate_tmpfs tmpfs = map tmpfs_flag tmpfs

-- translateSysctls
unfoldable pub translate_sysctls : Map String → List String
unfolding key_equals_value_format
translate_sysctls sysctls = map key_equals_value_format sysctls

-- translateAnnotations
unfoldable pub translate_annotations : Map String → List String
unfolding key_equals_value_format
translate_annotations annotations = map key_equals_value_format annotations

-- The labels
unfoldable pub translate_labels : Map String → List String
unfolding key_equals_value_format
translate_labels labels = map key_equals_value_format labels

abbrev permissions : String → String
permissions p = if is_empty p then "" else ":" ++ p

unfoldable pub device_flag : DeviceMapping → String
device_flag d =
    if is_empty d.path_in_container
    then d.path_on_host ++ permissions d.cgroup_permissions
    else d.path_on_host ++ (":" ++ (d.path_in_container ++ permissions d.cgroup_permissions))

-- translateDevices
unfoldable pub translate_devices : List DeviceMapping → List String
unfolding device_flag
translate_devices devices = map device_flag devices

-- CgroupnsMode.Valid
unfoldable pub valid_cgroupns_mode : String → Bool
valid_cgroupns_mode mode = mode == "private" || mode == "host"

-- networkMode
unfoldable pub network_mode_flag : Bool → String → String
network_mode_flag network_disabled mode =
    if network_disabled
    then "none"
    else if is_empty mode || mode == "default"
    then "bridge"
    else mode

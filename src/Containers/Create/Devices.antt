-- ===== src/Containers/Create/Devices.antt =====
-- validateDevice of api/handlers/container/create.go; `lstat` tells whether the path is a symbolic
-- link, `stat` whether it is a directory and whether it is a device.
use Prim.Native.String.{◌++◌}
use finch_daemon.Prelude.{
  String, Bool, true, false, ◌||◌, Option, none, some, List, [], ◌∷◌, if◌then◌else◌,
}
use finch_daemon.Errors.{message}
use finch_daemon.Act.{Result, ok, err}
use finch_daemon.Go.Strings.{is_empty}
use finch_daemon.Containers.Create.Request.{DeviceMapping}

pub record Files (W : Type 0) : Type 0 where
  pub lstat : String → W → Result Bool
  pub eval_symlinks : String → W → Result String
  pub stat : String → W → Result (Bool × Bool)

abbrev error_gathering_device_info : String
error_gathering_device_info = "error gathering device information while adding custom device"

abbrev device_error : String → String → String
device_error path text = error_gathering_device_info ++ (" \"" ++ (path ++ ("\": " ++ text)))

module _ {W : Type 0} (files : Files W) (w : W) where
  abbrev check_kind : String → Result (Bool × Bool) → Option String
  check_kind path (err e) = some (device_error path (message e))
  check_kind path (ok (is_dir, is_device)) =
      if is_dir || is_device then none else some (device_error path "not a device")

  abbrev check_resolved : String → Result String → Option String
  check_resolved path (err e) = some (device_error path (message e))
  check_resolved path (ok resolved) = check_kind path (files.stat resolved w)

  abbrev check_link : String → Result Bool → Option String
  check_link path (err e) = some (device_error path (message e))
  check_link path (ok true) = check_resolved path (files.eval_symlinks path w)
  check_link path (ok false) = check_resolved path (ok path)

  -- validateDevice: the text of the error response, if the path is refused
  unfoldable pub validate_device : String → Option String
  unfolding message
  validate_device path =
      if is_empty path
      then some error_gathering_device_info
      else check_link path (files.lstat path w)

  -- The loop over the devices
  unfoldable pub validate_devices : List DeviceMapping → Option String
  unfolding validate_device
  validate_devices [] = none
  validate_devices (d ∷ ds) =
      let rest = validate_devices ds in
      elim (validate_device d.path_on_host) [ some text ↦ some text | none ↦ rest ]

-- ===== src/Containers/Create/Handler.antt =====
-- The handler of POST /containers/create (api/handlers/container/create.go).
use finch_daemon.Prelude.{ℕ, String, Option, none, some, List, if◌then◌else◌}
use finch_daemon.Errors.{GoError, is_not_found, is_conflict, is_invalid_format, message}
use finch_daemon.Act.{Result, ok, err}
use finch_daemon.Go.Strings.{is_empty}
use finch_daemon.Http.{Writer, error_body, value, fresh, json, send_error_response}
use finch_daemon.Containers.Handlers.{Config}
use finch_daemon.Containers.Create.Request.{Formats, ContainerCreateRequest}
use finch_daemon.Containers.Create.Translate.{valid_cgroupns_mode}
use finch_daemon.Containers.Create.Ports.{translate_port_mappings}
use finch_daemon.Containers.Create.Devices.{Files, validate_devices}
use finch_daemon.Containers.Create.Options.{create_opt, net_opt}
use finch_daemon.Containers.Create.Service.{CreateBackend, create}

-- containerCreateResponse
pub record CreateResponse : Type 0 where
  pub id : String

unfoldable pub create_code : GoError → ℕ
unfolding is_not_found is_conflict is_invalid_format
create_code e =
    if is_not_found e
    then 404
    else if is_invalid_format e
    then 400
    else if is_conflict e
    then 409
    else 500

module _ {W G : Type 0} (f : Formats) (backends : String → CreateBackend f W G) (files : Files W)
    (config : Config G) where
  abbrev refuse : String → W → Writer CreateResponse × W
  refuse text w = (json 400 (error_body text) fresh, w)

  abbrev pub answer : Result String → Writer CreateResponse
  answer (ok cid) = json 201 (value (record { id = cid })) fresh
  answer (err e) = send_error_response (create_code e) e fresh

  -- The call of the service, once all is translated.
  abbrev pub service_create :
      String
      → String
      → String
      → ContainerCreateRequest f
      → List f.PortMapping
      → W
      → Result String × W
  service_create name platform mode req ports w =
      create (backends config.namespace) req.config.image req.config.cmd
        (create_opt f config.global name platform mode req.config req.host_config)
        (net_opt f config.global req.config req.host_config ports) w

  abbrev with_ports :
      String
      → String
      → String
      → ContainerCreateRequest f
      → Result (List f.PortMapping)
      → W
      → Writer CreateResponse × W
  with_ports name platform mode req (err e) w = refuse (message e) w
  with_ports name platform mode req (ok ports) w =
      let (result, w') = service_create name platform mode req ports w in (answer result, w')

  abbrev with_devices :
      String
      → String
      → String
      → ContainerCreateRequest f
      → Option String
      → W
      → Writer CreateResponse × W
  with_devices name platform mode req (some text) w = refuse text w
  with_devices name platform mode req none w =
      with_ports name platform mode req (translate_port_mappings f req.host_config.port_bindings) w

  abbrev pub cgroupns_mode_of : String → Option String
  cgroupns_mode_of mode =
      if is_empty mode
      then some f.default_cgroupns_mode
      else if valid_cgroupns_mode mode
      then some mode
      else none

  abbrev with_mode :
      String → String → ContainerCreateRequest f → Option String → W → Writer CreateResponse × W
  with_mode name platform req none w =
      refuse "invalid cgroup namespace mode, valid values are: 'private' or 'host'" w
  with_mode name platform req (some mode) w =
      with_devices name platform mode req (validate_devices files w req.host_config.devices) w

  abbrev decoded :
      String → String → Result (ContainerCreateRequest f) → W → Writer CreateResponse × W
  decoded name platform (err e) w = refuse (message e) w
  decoded name platform (ok req) w =
      if req.config.attach_stdin
      then refuse "AttachStdin is currently not supported during create" w
      else with_mode name platform req (cgroupns_mode_of req.host_config.cgroupns_mode) w

  -- create, with the decoded body
  unfoldable pub create_handler :
      String → String → Result (ContainerCreateRequest f) → W → Writer CreateResponse × W
  unfolding valid_cgroupns_mode validate_devices translate_port_mappings create_opt net_opt create
      create_code json send_error_response message
  create_handler name platform body w = decoded name platform body w

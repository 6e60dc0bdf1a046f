-- ===== src/Containers/Create/Service.antt =====
-- internal/service/container/create.go.
use Prim.Native.String.{◌++◌}
use finch_daemon.Prelude.{String, Bool, Option, none, some, List, [], ◌∷◌, if◌then◌else◌}
use finch_daemon.Errors.{
  GoError, plain, with_type, invalid_format, new_not_found, new_conflict, message,
}
use finch_daemon.Act.{Result, ok, err, Act, reads, ◌>>=◌}
use finch_daemon.Go.Maps.{Map, insert}
use finch_daemon.Go.Strings.{is_empty}
use finch_daemon.Containers.Backend.{Container}
use finch_daemon.Containers.Create.Request.{Formats, CreateOptions, NetworkOptions}

-- What Create calls of nerdctl and containerd: the network managers are `N`, the OCI specs `S`, whose
-- Annotations is not nil. CreateContainer gives a clean-up function with its error, which may be nil.
pub record CreateBackend (f : Formats) (W G : Type 0) : Type 1 where
  pub Manager : Type 0
  pub Spec : Type 0
  pub get_nerdctl_exe : W → Result String
  pub new_networking_options_manager : NetworkOptions f → Act W Manager
  pub create_container :
      List String → Manager → CreateOptions G → W → (Result Container × Option (W → W)) × W
  pub labels : Container → W → Result (Map String)
  pub spec : Container → W → Result Spec
  pub data_store : G → W → Result String
  pub log_uri_generator : String → String → Result String
  pub annotate : String → String → Spec → Spec
  pub marshal_ports : List f.PortMapping → Result String
  pub update : Container → Map String → Spec → Act W (Unit {0})
  pub log_uri_label : String
  pub ports_label : String
  pub is_c_not_found : GoError → Bool
  pub is_invalid_argument : GoError → Bool
  pub is_already_exists : GoError → Bool

module _ {W G : Type 0} {f : Formats} (b : CreateBackend f W G) where
  -- The path of nerdctl, if the options have none.
  abbrev with_exe : CreateOptions G → Result String → Result (CreateOptions G)
  with_exe opt (err e) = err (plain ("failed to find nerdctl binary: " ++ message e))
  with_exe opt (ok exe) = ok (record opt { nerdctl_cmd = exe; nerdctl_args = [] })

  unfoldable pub with_nerdctl : CreateOptions G → W → Result (CreateOptions G)
  unfolding message
  with_nerdctl opt w =
      if is_empty opt.nerdctl_cmd then with_exe opt (b.get_nerdctl_exe w) else ok opt

  -- The translation of containerd's errors.
  unfoldable pub create_error : GoError → GoError
  create_error e =
      if b.is_c_not_found e
      then new_not_found e
      else if b.is_invalid_argument e
      then with_type invalid_format e
      else if b.is_already_exists e
      then new_conflict e
      else e

  abbrev set_label : String → String → Map String × b.Spec → Map String × b.Spec
  set_label key val (opts, spec) = (insert key val opts, b.annotate key val spec)

  abbrev with_ports : List f.PortMapping → Map String × b.Spec → Result (Map String × b.Spec)
  with_ports [] labelled = ok labelled
  with_ports (p ∷ ps) labelled = elim (b.marshal_ports (p ∷ ps)) [
    | err e ↦ err e
    | ok ports_json ↦ ok (set_label b.ports_label ports_json labelled)
  ]

  -- updateContainerMetadata
  unfoldable pub update_container_metadata :
      CreateOptions G → NetworkOptions f → Container → Act W (Unit {0})
  unfolding insert
  update_container_metadata create_opt net_opt cont = do
    opts ← reads (b.labels cont)
    spec ← reads (b.spec cont)
    data_store ← reads (b.data_store create_opt.g_options)
    log_uri ← reads (λ w. b.log_uri_generator create_opt.nerdctl_cmd data_store)
    labelled ←
        reads
          (λ w. with_ports net_opt.port_mappings (set_label b.log_uri_label log_uri (opts, spec)))
    b.update cont labelled.0 labelled.1

  -- `if gc != nil { gc() }`
  abbrev collect : Option (W → W) → W → W
  collect none w = w
  collect (some gc) w = gc w

  -- What follows CreateContainer; the error of updateContainerMetadata is dropped.
  abbrev created :
      CreateOptions G
      → NetworkOptions f
      → (Result Container × Option (W → W)) × W
      → Result String × W
  created create_opt net_opt ((err e, gc), w) = (err (create_error e), collect gc w)
  created create_opt net_opt ((ok cont, gc), w) =
      (ok cont.id, (update_container_metadata create_opt net_opt cont w).1)

  -- Create
  unfoldable pub create : String → List String → CreateOptions G → NetworkOptions f → Act W String
  unfolding with_nerdctl create_error update_container_metadata
  create image cmd create_opt net_opt = do
    opt ← reads (with_nerdctl create_opt)
    net_manager ← b.new_networking_options_manager net_opt
    λ w. created opt net_opt (b.create_container (image ∷ cmd) net_manager opt w)

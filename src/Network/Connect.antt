-- ===== src/Network/Connect.antt =====
-- internal/service/network/connect.go: connecting a container to a network.
pub mod Rollback
mod Tests
use Prim.Native.String.{◌++◌}
use finch_daemon.Prelude.{
  ℕ, ◌+◌, ◌-◌, String, Bool, true, false, ◌||◌, Option, none, some, List, [], ◌∷◌, ◌++◌ as ◌⧺◌,
  length, ◌==◌, if◌then◌else◌,
}
use finch_daemon.Prelude.Int.{ℤ, pos, negsuc, sub_ℕ, pos_part, neg_part}
use finch_daemon.Errors.{GoError, plain, new_not_found, message}
use finch_daemon.Act.{Result, ok, err, Act, pure, fail, reads, ◌>>=◌, ◌>>◌}
use finch_daemon.Go.Decimal.{sprint}
use finch_daemon.Go.Maps.{Map, lookup, insert}
use finch_daemon.Go.Strconv.{
  parse_int, parsed, syntax_error, range_error, next_int64, previous_int64,
}
use finch_daemon.Go.Strings.{is_empty}
use finch_daemon.Containers.Backend.{
  ProcessStatus, running, created, paused, pausing, unknown, Container,
}
use finch_daemon.Network.Service.{NetworkConfig}

-- libcni.RuntimeConf; `port_mappings` is the value in CapabilityArgs, if it is set.
pub record RuntimeConf (P : Type 0) : Type 0 where
  pub container_id : String
  pub net_ns : String
  pub if_name : String
  pub args : List (String × String)
  pub port_mappings : Option P

-- nerdctl, containerd and CNI in the world `W`; an OCI spec has annotations that are not nil.
-- `detect_cni` tells whether nettype.Detect gives CNI, `unmarshal` and `marshal` are json's on lists
-- of texts.
pub record ConnectBackend (W : Type 0) : Type 1 where
  pub Spec : Type 0
  pub Task : Type 0
  pub Ports : Type 0
  pub get_network : String → W → Result NetworkConfig
  pub get_container : String → W → Result Container
  pub task : Container → W → Result Task
  pub task_status : Task → W → Result ProcessStatus
  pub pid : Task → ℕ
  pub labels : Container → W → Result (Map String)
  pub spec : Container → W → Result Spec
  pub annotate : String → String → Spec → Spec
  pub update : Container → Map String → Spec → Act W (Unit {0})
  pub set_labels : Container → Map String → Act W (Unit {0})
  pub add_network_list : NetworkConfig → RuntimeConf Ports → Act W (Unit {0})
  pub detect_cni : List String → Result Bool
  pub unmarshal : String → Result (List String)
  pub marshal : List String → Result String
  pub unmarshal_ports : String → Result Ports
  pub networks_label : String
  pub mac_address_label : String
  pub ip_address_label : String
  pub ports_label : String
  pub is_c_not_found : GoError → Bool

abbrev pub network_index_label : String
network_index_label = "finch/network-index"

abbrev pub text_of : Option String → String
text_of none = ""
text_of (some text) = text

-- strutil.InStringSlice
unfoldable pub in_string_slice : List String → String → Bool
in_string_slice [] s = false
in_string_slice (t ∷ ts) s = t == s || in_string_slice ts s

-- n + 1 and n - 1 of an int
abbrev pub next : ℤ → ℤ
next z = next_int64 z

abbrev pub previous : ℤ → ℤ
previous z = previous_int64 z

abbrev plugin_type : List (String × String) → String
plugin_type [] = ""
plugin_type ((kind, bytes) ∷ plugins) = kind

module _ {W : Type 0} (b : ConnectBackend W) where
  -- getContainerStatus
  abbrev status_of_task : W → Result b.Task → Result ProcessStatus
  status_of_task w (ok t) = b.task_status t w
  status_of_task w (err e) = if b.is_c_not_found e then ok created else err e

  unfoldable pub get_container_status : Container → W → Result ProcessStatus
  get_container_status c w = status_of_task w (b.task c w)

  abbrev check_mac : NetworkConfig → String → Result (Unit {0})
  check_mac net mac_address =
      if is_empty mac_address
      then ok tt
      else if in_string_slice ("bridge" ∷ "macvlan" ∷ []) (plugin_type net.plugins)
      then ok tt
      else err (
          plain (
            "network type \""
            ++ (plugin_type net.plugins
                ++ "\" is not supported when MAC address is specified, must be one of: [bridge macvlan]")))

  abbrev check_type : NetworkConfig → String → Result Bool → Result (Unit {0})
  check_type net mac_address (err e) = err e
  check_type net mac_address (ok true) = check_mac net mac_address
  check_type net mac_address (ok false) =
      err (plain ("invalid network " ++ (net.name ++ ", only CNI type is supported")))

  -- verifyNetworkConfig; a network has a plugin
  unfoldable pub verify_network_config : NetworkConfig → List String → String → Result (Unit {0})
  unfolding in_string_slice
  verify_network_config net networks mac_address =
      check_type net mac_address (b.detect_cni (networks ⧺ net.name ∷ []))

  abbrev pub atoi : String → Result ℤ
  atoi s = elim (parse_int s) [
    | parsed n ↦ ok n
    | syntax_error ↦ err (plain ("strconv.Atoi: parsing \"" ++ (s ++ "\": invalid syntax")))
    | range_error n ↦ err (plain ("strconv.Atoi: parsing \"" ++ (s ++ "\": value out of range")))
  ]

  abbrev pub next_of : Result ℤ → Result ℤ
  next_of (ok n) = ok (next n)
  next_of (err e) = err e

  -- The index of the network that is added; `networks` has it already.
  unfoldable pub new_index : Map String → List String → Result ℤ
  new_index opts networks = elim (lookup network_index_label opts) [
    | some index_string ↦ next_of (atoi index_string)
    | none ↦ ok (sub_ℕ (length networks) 1)
  ]

  -- What deleteNet keeps of the variables that it closes over.
  pub record Added : Type 0 where
    pub opts : Map String
    pub spec_ : b.Spec
    pub networks_before : List String
    pub index : ℤ

  abbrev pub not_connected : NetworkConfig → Container → List String → Result (Unit {0})
  not_connected net c networks =
      if in_string_slice networks net.name
      then err (plain ("container " ++ (c.id ++ (" already connected to network " ++ net.name))))
      else ok tt

  -- The labels that an index and a list of networks give.
  abbrev pub labelled : ℤ → String → Map String → Map String
  labelled index networks_data opts =
      insert network_index_label (sprint index) (insert b.networks_label networks_data opts)

  -- addNetworkConfig
  unfoldable pub add_network_config : NetworkConfig → Container → Act W Added
  add_network_config net c = do
    opts ← reads (b.labels c)
    networks ← reads (λ w. b.unmarshal (text_of (lookup b.networks_label opts)))
    reads (λ w. not_connected net c networks)
    reads (λ w. verify_network_config net networks (text_of (lookup b.mac_address_label opts)))
    spec ← reads (b.spec c)
    json_data ← reads (λ w. b.marshal (networks ⧺ net.name ∷ []))
    index ←
        reads (λ w. new_index (insert b.networks_label json_data opts) (networks ⧺ net.name ∷ []))
    b.update c (labelled index json_data opts) (b.annotate b.networks_label json_data spec)
    pure (record {
      opts = labelled index json_data opts;
      spec_ = b.annotate b.networks_label json_data spec;
      networks_before = networks;
      index = index;
    })

  -- deleteNet; its errors are only logged
  abbrev deleted : Container → Added → Result String → W → W
  deleted c a (err e) w = w
  deleted c a (ok json_data) w =
      (b.update c
        (insert b.networks_label json_data
          (insert network_index_label (sprint (previous a.index)) a.opts))
        (b.annotate b.networks_label json_data a.spec_) w).1

  unfoldable pub delete_net : Container → Added → W → W
  delete_net c a w = deleted c a (b.marshal a.networks_before) w

  abbrev set_index : Container → Map String → List String → Act W ℤ
  set_index c opts networks =
      b.set_labels c (insert network_index_label (sprint (sub_ℕ (length networks) 1)) opts)
      >> pure (sub_ℕ (length networks) 1)

  -- getNetworkIndex
  unfoldable pub get_network_index : Container → Act W ℤ
  unfolding lookup parse_int insert
  get_network_index c = do
    opts ← reads (b.labels c)
    elim (lookup network_index_label opts) [
      | some index_string ↦ reads (λ w. atoi index_string)
      | none ↦
          reads (λ w. b.unmarshal (text_of (lookup b.networks_label opts))) >>= set_index c opts
    ]

  abbrev arg : String → String → List (String × String)
  arg key text = if is_empty text then [] else (key, text) ∷ []

  -- args
  unfoldable pub cni_args : Map String → List (String × String)
  unfolding lookup
  cni_args opts =
      ("IgnoreUnknown", "1") ∷ arg "IP" (text_of (lookup b.ip_address_label opts))
      ⧺ arg "MAC" (text_of (lookup b.mac_address_label opts))

  abbrev some_ports : Result b.Ports → Result (Option b.Ports)
  some_ports (ok ports) = ok (some ports)
  some_ports (err e) = err e

  abbrev ports_of : String → Result (Option b.Ports)
  ports_of text = if is_empty text then ok none else some_ports (b.unmarshal_ports text)

  -- connectNetwork
  unfoldable pub connect_network : NetworkConfig → Container → Act W (Unit {0})
  unfolding get_network_index cni_args sprint
  connect_network net c = do
    t ← reads (b.task c)
    network_index ← get_network_index c
    opts ← reads (b.labels c)
    ports ← reads (λ w. ports_of (text_of (lookup b.ports_label opts)))
    b.add_network_list net (record {
      container_id = c.id;
      net_ns = "/proc/" ++ (sprint (pos (b.pid t)) ++ "/ns/net");
      if_name = "eth" ++ sprint network_index;
      args = cni_args opts;
      port_mappings = ports;
    })

  abbrev undo : Container → Added → Result (Unit {0}) × W → Result (Unit {0}) × W
  undo c a (ok u, w) = (ok u, w)
  undo c a (err e, w) = (err e, delete_net c a w)

  -- The case of a container with a network namespace
  unfoldable pub connect_live : NetworkConfig → Container → Act W (Unit {0})
  connect_live net c = do a ← add_network_config net c; λ w. undo c a (connect_network net c w)

  abbrev by_status : NetworkConfig → Container → ProcessStatus → Act W (Unit {0})
  by_status net c unknown = fail (plain "failed to determine container status from runtime")
  by_status net c pausing = fail (plain "cannot connect a container that is currently pausing")
  by_status net c paused = connect_live net c
  by_status net c running = connect_live net c
  by_status net c _ = add_network_config net c >> pure tt

  -- Connect
  unfoldable pub connect : String → String → Act W (Unit {0})
  connect network_id container_id = do
    net ← reads (b.get_network network_id)
    c ← reads (b.get_container container_id)
    status ← reads (get_container_status c)
    by_status net c status

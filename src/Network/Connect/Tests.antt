-- ===== src/Network/Connect/Tests.antt =====
-- A container on one network, on which Connect, Create and Remove run and the theorems are applied.
use finch_daemon.Prelude.{
  String, ◌≡◌, refl, inl, inr, true, false, List, [], ◌∷◌, arith, Option, some, none, ◌==◌,
  if◌then◌else◌,
}
use finch_daemon.Prelude.Int.{pos}
use finch_daemon.Errors.{plain}
use finch_daemon.Act.{Result, ok, err}
use finch_daemon.Go.Maps.{Map, lookup, insert}
use finch_daemon.Go.Strings.{cut_prefix}
use finch_daemon.Containers.Backend.{running, Container}
use finch_daemon.Network.Service.{
  NetworkConfig, NetworkCreateRequest, NetworkBackend, create, remove, check_removal, get_network,
  matches_id, filtered, remove_locked, handle_network_labels, create_options_from,
}
use finch_daemon.Network.Naming.{IsRemovable, IsRemovedTo, create_prefix, remove-IsRemoved}
use finch_daemon.Network.Connect.{
  ConnectBackend, Added, connect, connect_live, connect_network, add_network_config, new_index,
  get_container_status, verify_network_config, labelled,
}
use finch_daemon.Network.Connect.Rollback.{IsStore, IsRestored, connect_rolls_back}

abbrev web : Container
web = record { id = "web" }

abbrev net : String → Option String → NetworkConfig
net name id = record {
  name = name;
  nerdctl_id = id;
  file = "/etc/cni/net.conflist";
  nerdctl_labels = [];
  plugins = ("bridge", "") ∷ [];
}

abbrev decode : String → Result (List String)
decode s = if s == "[a]" then ok ("a" ∷ []) else ok []

abbrev encode : List String → Result String
encode [] = ok "[]"
encode (n ∷ []) = ok "[a]"
encode (n ∷ m ∷ ns) = ok "[a,b]"

-- The world is the labels of the container; networks are never attached.
abbrev toy : ConnectBackend (Map String)
toy = record {
  Spec = Unit {0};
  Task = Unit {0};
  Ports = Unit {0};
  get_network = λ id w. ok (net "b" none);
  get_container = λ id w. ok web;
  task = λ c w. ok tt;
  task_status = λ t w. ok running;
  pid = λ t. 7;
  labels = λ c w. ok w;
  spec = λ c w. ok tt;
  annotate = λ key val s. s;
  update = λ c l s w. (ok tt, l);
  set_labels = λ c l w. (ok tt, l);
  add_network_list = λ n conf w. (err (plain "no free address"), w);
  detect_cni = λ ns. ok true;
  unmarshal = decode;
  marshal = encode;
  unmarshal_ports = λ s. ok tt;
  networks_label = "nerdctl/networks";
  mac_address_label = "nerdctl/mac-address";
  ip_address_label = "nerdctl/ip-address";
  ports_label = "nerdctl/ports";
  is_c_not_found = λ e. false;
}

abbrev before : Map String
before = ("nerdctl/networks", "[a]") ∷ ("app", "x") ∷ []

abbrev listed : Map String
listed = ("nerdctl/networks", "[a,b]") ∷ ("app", "x") ∷ []

abbrev added : Added toy
added = record {
  opts = labelled toy (pos 1) "[a,b]" before;
  spec_ = tt;
  networks_before = "a" ∷ [];
  index = pos 1;
}

steps : Unit {0}
unfolding connect connect_live connect_network add_network_config new_index lookup insert
    get_container_status verify_network_config
steps = tt

toy-IsStore : IsStore toy (net "b" none) web
toy-IsStore = record { updates = λ l s w. refl; stores = λ l s w. refl; distinct = refl }

connect_rolls_back_example :
    ((connect toy "b" "web" before).0 ≡ err (plain "no free address"))
    × ((l : Map String) × (toy.labels web (connect toy "b" "web" before).1 ≡ ok l)
        × IsRestored toy (net "b" none) web before ("a" ∷ []) (pos 0) l)
unfolding steps
connect_rolls_back_example =
    connect_rolls_back toy (net "b" none) web toy-IsStore "b" "web" before before ("a" ∷ []) (pos 0)
      added (plain "no free address") "[a]" refl refl (inl refl) refl refl refl refl
      (inr (refl, omega arith, refl)) refl refl

abbrev networks : NetworkBackend (List NetworkConfig)
networks = record {
  networks = λ w. ok w;
  used_network_info = λ w. ok [];
  create_network = λ o w. (ok none, w);
  remove_network = λ n w. (ok tt, []);
  handle_post_create = λ d n w. (ok "", w);
  handle_remove = λ d n w. (ok tt, w);
}

abbrev asked : NetworkCreateRequest
asked = record {
  name = "cafe";
  driver = "";
  ipam_driver = "";
  ipam_config = [];
  ipam_options = [];
  enable_ipv6 = false;
  options = [];
  labels = [];
}

abbrev other : NetworkConfig
other = net "other" (some "cafe01")

create_prefix_example :
    create networks asked (other ∷ [])
    ≡ some (
      ok (record {
        id = "cafe01";
        warning = "Network with name 'cafe' (id: cafe01) already exists";
      }),
      other ∷ [],
    )
unfolding cut_prefix
create_prefix_example = create_prefix networks asked (other ∷ []) other "cafe01" "01" refl refl refl

remove-IsRemoved_example :
    (n : NetworkConfig) × IsRemovable networks "other" (other ∷ []) n
    × IsRemovedTo networks n (remove networks "other" (other ∷ [])).1
unfolding remove check_removal get_network matches_id filtered lookup remove_locked
    handle_network_labels
remove-IsRemoved_example = remove-IsRemoved networks "other" (other ∷ []) refl

create_tests : (create_options_from asked).0.driver ≡ "bridge"
unfolding create_options_from
create_tests = refl

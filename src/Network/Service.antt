-- ===== src/Network/Service.antt =====
-- internal/service/network: the lookup of networks, the options of Create, and Create and Remove with
-- their checks, for a request that is alone: the mutex of a network is free unless the request holds
-- it. The requests at the same time are in Network/Locks.
use Prim.Native.String.{◌++◌}
use finch_daemon.Prelude.{
  String, ◌⊎◌, inl, inr, Bool, true, false, ◌||◌, Option, none, some, List, [], ◌∷◌, ◌==◌,
  if◌then◌else◌,
}
use finch_daemon.Errors.{GoError, plain, wrap, new_not_found, new_forbidden, message}
use finch_daemon.Act.{Result, ok, err, Act, pure, reads, ◌>>=◌, ◌>>◌}
use finch_daemon.Go.Maps.{Map, lookup}
use finch_daemon.Go.Strings.{cut_prefix, is_empty}
use finch_daemon.Http.Stream.{contains}
use finch_daemon.Builder.Options.{flatten}
use finch_daemon.Network.Bridge.{
  BridgeDriver, Created, new_bridge_driver, handle_create_options, finch_icc_label_ipv4,
  finch_icc_label_ipv6,
}

-- netutil.NetworkConfig: a nil map of labels is an empty one, and a network from outside has no ID.
-- A plugin is its type and its configuration in bytes.
pub record NetworkConfig : Type 0 where
  pub name : String
  pub nerdctl_id : Option String
  pub file : String
  pub nerdctl_labels : Map String
  pub plugins : List (String × String)

-- types.NetworkCreateRequest with the fields that are read
pub record NetworkCreateRequest : Type 0 where
  pub name : String
  pub driver : String
  pub ipam_driver : String
  pub ipam_config : List (Map String)
  pub ipam_options : Map String
  pub enable_ipv6 : Bool
  pub options : Map String
  pub labels : Map String

pub record NetworkCreateResponse : Type 0 where
  pub id : String
  pub warning : String

-- nerdctl's NetworkCreateOptions
pub record NetworkCreateOptions : Type 0 where
  pub name : String
  pub driver : String
  pub options : Map String
  pub ipam_driver : String
  pub ipam_options : Map String
  pub subnets : List String
  pub gateway : String
  pub ip_range : String
  pub labels : List String
  pub ipv6 : Bool

-- nerdctl's networks in the world `W`. `used_network_info` maps the networks to the containers that
-- use them; `handle_post_create` and `handle_remove` are those of the bridge driver.
pub record NetworkBackend (W : Type 0) : Type 0 where
  pub networks : W → Result (List NetworkConfig)
  pub used_network_info : W → Result (Map String)
  pub create_network : NetworkCreateOptions → Act W (Option NetworkConfig)
  pub remove_network : NetworkConfig → Act W (Unit {0})
  pub handle_post_create : BridgeDriver → NetworkConfig → Act W String
  pub handle_remove : BridgeDriver → NetworkConfig → Act W (Unit {0})

abbrev pub has_prefix : String → String → Bool
has_prefix p s = elim (cut_prefix p s) [ none ↦ false | some rest ↦ true ]

abbrev pub id_matches : String → Option String → Bool
id_matches network_id none = false
id_matches network_id (some id) =
    has_prefix ("sha256:" ++ network_id) id || has_prefix network_id id

-- idFilterFunc
unfoldable pub matches_id : String → NetworkConfig → Bool
matches_id network_id n = n.name == network_id || id_matches network_id n.nerdctl_id

-- FilterNetworks
unfoldable pub filtered : (NetworkConfig → Bool) → List NetworkConfig → List NetworkConfig
filtered p [] = []
filtered p (n ∷ ns) = let rest = filtered p ns in if p n then n ∷ rest else rest

abbrev pub the_network : String → List NetworkConfig → Result NetworkConfig
the_network network_id [] = err (new_not_found (plain ("network " ++ (network_id ++ " not found"))))
the_network network_id (n ∷ []) = ok n
the_network network_id (n ∷ m ∷ ns) =
    err (plain ("multiple networks found with ID: " ++ network_id))

abbrev pub searched : String → Result (List NetworkConfig) → Result NetworkConfig
searched network_id (err e) = err e
searched network_id (ok ns) = the_network network_id (filtered (matches_id network_id) ns)

-- The answer of Create for a network that is there.
unfoldable pub existing_response : String → Option String → NetworkCreateResponse
existing_response name none = record {
  id = "";
  warning = "Network with name '" ++ (name ++ "' already exists");
}
existing_response name (some id) = record {
  id = id;
  warning = "Network with name '" ++ (name ++ ("' (id: " ++ (id ++ ") already exists")));
}

abbrev text_or : String → Option String → String
text_or default_text none = default_text
text_or default_text (some text) = text

abbrev as_list : Option String → List String
as_list none = []
as_list (some text) = text ∷ []

abbrev first_config : List (Map String) → Map String
first_config [] = []
first_config (m ∷ ms) = m

-- createOptionsFrom for a driver that needs nothing more
unfoldable pub base_options : NetworkCreateRequest → NetworkCreateOptions
unfolding lookup flatten
base_options request = record {
  name = request.name;
  driver = if is_empty request.driver then "bridge" else request.driver;
  options = request.options;
  ipam_driver = if is_empty request.ipam_driver then "default" else request.ipam_driver;
  ipam_options = request.ipam_options;
  subnets = as_list (lookup "Subnet" (first_config request.ipam_config));
  gateway = text_or "" (lookup "Gateway" (first_config request.ipam_config));
  ip_range = text_or "" (lookup "IPRange" (first_config request.ipam_config));
  labels = flatten request.labels;
  ipv6 = request.enable_ipv6;
}

abbrev bridge_options : NetworkCreateOptions → Created → NetworkCreateOptions × Option BridgeDriver
bridge_options options created =
    (record options { options = created.options; labels = created.labels }, some created.driver)

-- createOptionsFrom, with the bridge driver that it sets
unfoldable pub create_options_from :
    NetworkCreateRequest → NetworkCreateOptions × Option BridgeDriver
unfolding base_options handle_create_options
create_options_from request =
    let options = base_options request in
    if options.driver == "bridge"
    then bridge_options options
        (handle_create_options request.options options.labels (new_bridge_driver options.ipv6))
    else (options, none)

module _ {W : Type 0} (b : NetworkBackend W) where
  -- getNetwork
  unfoldable pub get_network : String → W → Result NetworkConfig
  get_network network_id w = searched network_id (b.networks w)

  -- The result of CreateNetwork.
  abbrev named : Option NetworkConfig → Result (NetworkConfig × String)
  named none = err (plain "network ID not found")
  named (some net) = elim net.nerdctl_id [
    | none ↦ err (plain "network ID not found")
    | some id ↦ ok (net, id)
  ]

  abbrev created_network : Result (Option NetworkConfig) → Result (NetworkConfig × String)
  created_network (ok net) = named net
  created_network (err e) =
      if contains (message e) "unsupported cni driver"
      then err (new_not_found (plain "plugin not found"))
      else err e

  abbrev make : NetworkCreateOptions → Act W (NetworkConfig × String)
  make options w = (created_network (b.create_network options w).0, (b.create_network options w).1)

  abbrev post_create : Option BridgeDriver → NetworkConfig → Act W String
  post_create none net = pure ""
  post_create (some driver) net = b.handle_post_create driver net

  -- The beginning of Create: the answer, or what it goes on with
  unfoldable pub create_begin :
      NetworkCreateRequest
      → W
      → NetworkCreateResponse ⊎ (NetworkCreateOptions × Option BridgeDriver)
  create_begin request w = elim (get_network request.name w) [
    | ok config ↦ inl (existing_response request.name config.nerdctl_id)
    | err e ↦ inr (create_options_from request)
  ]

  abbrev pub found : Result NetworkConfig → Result NetworkConfig
  found (ok net) = ok net
  found (err e) = err (wrap "failed to find network: " e "")

  abbrev pub used : Result (Map String) → Result (Map String)
  used (ok info) = ok info
  used (err e) = err (wrap "failed to find used network info: " e "")

  abbrev pub check_use : String → NetworkConfig → Option String → Result NetworkConfig
  check_use network_id net (some value) = err (
      new_forbidden (
        plain
          ("network \"" ++ (network_id ++ ("\" is in use by container \"" ++ (value ++ "\""))))))
  check_use network_id net none =
      if is_empty net.file
      then err
          (new_forbidden (plain (network_id ++ " is a pre-defined network and cannot be removed")))
      else ok net

  -- The checks of Remove, before it takes the mutex
  unfoldable pub check_removal : String → Act W NetworkConfig
  check_removal network_id = do
    net ← reads (λ w. found (get_network network_id w))
    info ← reads (λ w. used (b.used_network_info w))
    reads (λ w. check_use network_id net (lookup net.name info))

  -- handleICCLabel; an unexpected value is only logged
  abbrev handle_icc_label : String → NetworkConfig → Bool → Act W (Unit {0})
  handle_icc_label family net is_ipv6 w =
      let (result, w') = b.handle_remove (new_bridge_driver is_ipv6) net w in
      (
        elim result [
          | ok u ↦ ok u
          | err e ↦ err (
              wrap ("error handling " ++ (family ++ " ICC label: "))
                (wrap "error handling ICC label: " e "") "")
        ],
        w',
      )

  abbrev handle_label : String → NetworkConfig → Act W (Unit {0})
  handle_label key net =
      if key == finch_icc_label_ipv4
      then handle_icc_label "IPv4" net false
      else if key == finch_icc_label_ipv6
      then handle_icc_label "IPv6" net true
      else pure tt

  -- handleNetworkLabels
  unfoldable pub handle_network_labels : Map String → NetworkConfig → Act W (Unit {0})
  handle_network_labels [] net w = (ok tt, w)
  handle_network_labels ((key, val) ∷ labels) net w =
      (handle_label key net >> handle_network_labels labels net) w

  abbrev pub or_explained : String → Act W (Unit {0}) → Act W (Unit {0})
  or_explained text m w = elim (m w).0 [
    | ok u ↦ (ok u, (m w).1)
    | err e ↦ (err (wrap text e ""), (m w).1)
  ]

  -- What Remove does under the mutex
  unfoldable pub remove_locked : NetworkConfig → Act W (Unit {0})
  unfolding handle_network_labels
  remove_locked net =
      or_explained "failed to handle nerdctl label: " (handle_network_labels net.nerdctl_labels net)
      >> or_explained "failed to remove network: " (b.remove_network net)

  -- Remove, alone: the mutex of the network is free.
  unfoldable pub remove : String → Act W (Unit {0})
  unfolding check_removal remove_locked
  remove network_id = check_removal network_id >>= remove_locked

  -- The deferred clean-up of a Create that holds the mutex of the name: a Remove, whose error is only
  -- logged. It waits forever, `none`, if it gets to the same mutex.
  abbrev cleaned_up : String → Result NetworkConfig × W → Option W
  cleaned_up name (err e, w) = some w
  cleaned_up name (ok net, w) = if net.name == name then none else some (remove_locked net w).1

  abbrev with_error : GoError → Option W → Option (Result NetworkCreateResponse × W)
  with_error e none = none
  with_error e (some w) = some (err e, w)

  abbrev posted : String → String → Result String × W → Option (Result NetworkCreateResponse × W)
  posted name id (ok warning, w) = some (ok (record { id = id; warning = warning }), w)
  posted name id (err e, w) = with_error e (cleaned_up name (check_removal name w))

  abbrev made :
      String
      → Option BridgeDriver
      → Result (NetworkConfig × String) × W
      → Option (Result NetworkCreateResponse × W)
  made name driver (err e, w) = some (err e, w)
  made name driver (ok (net, id), w) = posted name id (post_create driver net w)

  -- Create, alone
  unfoldable pub create : NetworkCreateRequest → W → Option (Result NetworkCreateResponse × W)
  unfolding create_begin check_removal remove_locked contains message
  create request w = elim (create_begin request w) [
    | inl response ↦ some (ok response, w)
    | inr (options, driver) ↦ made request.name driver (make options w)
  ]

-- ===== src/Network/Bridge.antt =====
-- internal/service/network/driver/bridge.go: the options of a bridge network that nerdctl does not
-- know, and what follows from them after the creation and at the removal of a network.
pub mod Options
pub mod Config
pub mod Actions
mod Tests
use Prim.Native.String
use finch_daemon.Prelude.{
  String, Bool, true, false, not, Option, none, some, List, [], ◌∷◌, ◌++◌, ◌==◌, if◌then◌else◌,
}
use finch_daemon.Errors.{GoError, plain, wrap, message}
use finch_daemon.Act.{Result, ok, err, Act, pure, ◌>>=◌, ◌>>◌}
use finch_daemon.Go.Strconv.{parse_bool}
use finch_daemon.Go.Maps.{Map, insert}

abbrev pub finch_icc_label_ipv4 : String
finch_icc_label_ipv4 = "finch.network.bridge.enable_icc.ipv4"

abbrev pub finch_icc_label_ipv6 : String
finch_icc_label_ipv6 = "finch.network.bridge.enable_icc.ipv6"

abbrev pub bridge_icc_option : String
bridge_icc_option = "com.docker.network.bridge.enable_icc"

abbrev pub bridge_host_binding_ipv4_option : String
bridge_host_binding_ipv4_option = "com.docker.network.bridge.host_binding_ipv4"

abbrev pub bridge_name_option : String
bridge_name_option = "com.docker.network.bridge.name"

-- bridgeDriver
pub record BridgeDriver : Type 0 where
  pub bridge_name : String
  pub disable_icc : Bool
  pub ipv6 : Bool

-- NewBridgeDriver, which returns no error
abbrev pub new_bridge_driver : Bool → BridgeDriver
new_bridge_driver ipv6 = record { bridge_name = ""; disable_icc = false; ipv6 = ipv6 }

-- The driver's fields and the options for nerdctl while the range runs
pub record Progress : Type 0 where
  pub driver : BridgeDriver
  pub opts : Map String

abbrev set_icc : Option Bool → BridgeDriver → BridgeDriver
set_icc none bd = bd
set_icc (some icc_option) bd = record bd { disable_icc = not icc_option }

-- The switch of processUnsupportedOptions
unfoldable pub process_option : String → String → Progress → Progress
process_option k v p =
    if k == bridge_host_binding_ipv4_option
    then p
    else if k == bridge_icc_option
    then record p { driver = set_icc (parse_bool v) p.driver }
    else if k == bridge_name_option
    then record p { driver = record (p.driver) { bridge_name = v } }
    else record p { opts = insert k v p.opts }

unfoldable pub process_unsupported_options : Map String → Progress → Progress
process_unsupported_options [] p = p
process_unsupported_options ((k, v) ∷ original) p =
    process_unsupported_options original (process_option k v p)

abbrev pub icc_label : Bool → String
icc_label ipv6 = if ipv6 then finch_icc_label_ipv6 else finch_icc_label_ipv4

-- What HandleCreateOptions sets: the driver's fields, and the options and labels for nerdctl.
pub record Created : Type 0 where
  pub driver : BridgeDriver
  pub options : Map String
  pub labels : List String

-- HandleCreateOptions, on the request's options in the order in which a range visits them
unfoldable pub handle_create_options : Map String → List String → BridgeDriver → Created
handle_create_options request_options labels bd =
    let p = process_unsupported_options request_options (record { driver = bd; opts = [] }) in
    record {
      driver = p.driver;
      options = p.opts;
      labels =
          if p.driver.disable_icc
          then labels ++ Prim.Native.String.◌++◌ (icc_label p.driver.ipv6) "=false" ∷ []
          else labels;
    }

-- ===== src/Network/Bridge/Tests.antt =====
-- The options of a bridge network on a concrete request.
use Prim.Native.String
use finch_daemon.Prelude.{ℕ, ◌≡◌, refl, String, false, none, some, [], ◌∷◌, ◌++◌, if◌then◌else◌}
use finch_daemon.Act.{ok}
use finch_daemon.Go.Strconv.{parse_bool}
use finch_daemon.Go.Maps.{Map, lookup}
use finch_daemon.Network.Bridge.{
  bridge_icc_option, bridge_name_option, icc_label, new_bridge_driver, handle_create_options,
  process_option, process_unsupported_options,
}
use finch_daemon.Network.Bridge.Options.{
  IsMap, unsupported, icc_from, name_from, handle_create_options_lem,
}
use finch_daemon.Network.Bridge.Config.{
  Value, text, opaque, object, scalar, listed, Document, config, Parsed, is_bridge, bridge_plugin,
  parse_bridge_config, renamed, bridge_name_of, renamed-bridge_name,
}

abbrev request_options : Map String
request_options = (bridge_icc_option, "false") ∷ ("mtu", "1500") ∷ (bridge_name_option, "br0") ∷ []

request_options-IsMap : IsMap request_options
unfolding lookup
request_options-IsMap = (refl, (refl, (refl, tt)))

handle_create_options_lem_example :
    ((j : String)
      → lookup j (handle_create_options request_options [] (new_bridge_driver false)).options
        ≡ (if unsupported j then none else lookup j request_options))
    × ((handle_create_options request_options [] (new_bridge_driver false)).driver.bridge_name
        ≡ name_from (lookup bridge_name_option request_options) "")
    × ((handle_create_options request_options [] (new_bridge_driver false)).labels ≡ (
        if icc_from (lookup bridge_icc_option request_options) false
        then [] ++ Prim.Native.String.◌++◌ (icc_label false) "=false" ∷ []
        else []))
handle_create_options_lem_example =
    handle_create_options_lem request_options [] false request_options-IsMap

label_set :
    (handle_create_options request_options [] (new_bridge_driver false)).labels
    ≡ "finch.network.bridge.enable_icc.ipv4=false" ∷ []
unfolding handle_create_options process_unsupported_options process_option parse_bool
label_set = refl

-- A file with a plugin that is no object, a portmap plugin and a bridge plugin; other values are
-- numbers.
abbrev bridge_fields : Map (Value ℕ)
bridge_fields = ("type", text "bridge") ∷ ("isGateway", opaque 1) ∷ ("bridge", text "br-1") ∷ []

abbrev portmap : Map (Value ℕ)
portmap = ("type", text "portmap") ∷ []

abbrev file : Document ℕ
file =
    config (("cniVersion", 1) ∷ [])
      (some (listed (scalar 7 ∷ object portmap ∷ object bridge_fields ∷ [])))

abbrev parsed : Parsed ℕ
parsed = record {
  fields = ("cniVersion", 1) ∷ [];
  plugins = scalar 7 ∷ object portmap ∷ object bridge_fields ∷ [];
  bridge = bridge_fields;
}

file_parsed : parse_bridge_config "nerdctl-a.conflist" file ≡ ok parsed
unfolding parse_bridge_config bridge_plugin is_bridge lookup
file_parsed = refl

renamed-bridge_name_example :
    (q : Parsed ℕ) × (parse_bridge_config "nerdctl-a.conflist" (renamed "br-2" parsed) ≡ ok q)
    × (bridge_name_of "nerdctl-a.conflist" q ≡ ok "br-2")
renamed-bridge_name_example =
    renamed-bridge_name "nerdctl-a.conflist" "br-2" file parsed file_parsed

-- ===== src/Network/Listing.antt =====
-- internal/service/network/inspect.go and list.go, with their handlers in api/handlers/network.
use finch_daemon.Prelude.{ℕ, String, Option, none, some, List, [], map, if◌then◌else◌}
use finch_daemon.Errors.{GoError, is_not_found, message}
use finch_daemon.Act.{Result, ok, err}
use finch_daemon.Go.Maps.{Map}
use finch_daemon.Go.Strings.{is_empty}
use finch_daemon.Http.{Writer, error_body, value, fresh, json}
use finch_daemon.Network.Service.{NetworkConfig, NetworkBackend, get_network}

-- types.NetworkInspectResponse, over the IPAM `I` and the endpoints `E` of nerdctl's types; a list
-- leaves the last three fields zero.
pub record NetworkInspectResponse (I E : Type 0) : Type 0 where
  pub name : String
  pub id : String
  pub ipam : Option I
  pub containers : Map E
  pub labels : Map String

abbrev id_or_empty : Option String → String
id_or_empty none = ""
id_or_empty (some id) = id

abbrev summary : {I E : Type 0} → NetworkConfig → NetworkInspectResponse I E
summary n = record {
  name = n.name;
  id = id_or_empty n.nerdctl_id;
  ipam = none;
  containers = [];
  labels = [];
}

unfoldable pub inspect_code : GoError → ℕ
unfolding is_not_found
inspect_code e = if is_not_found e then 404 else 500

-- `inspect_network` is nerdctl's InspectNetwork, of which each field is handed on.
module _ {W I E : Type 0} (b : NetworkBackend W)
    (inspect_network : NetworkConfig → W → Result (NetworkInspectResponse I E)) where
  abbrev inspect_found : W → Result NetworkConfig → Result (NetworkInspectResponse I E)
  inspect_found w (ok n) = inspect_network n w
  inspect_found w (err e) = err e

  -- Inspect
  unfoldable pub inspect : String → W → Result (NetworkInspectResponse I E)
  unfolding get_network
  inspect network_id w = inspect_found w (get_network b network_id w)

  abbrev summaries : Result (List NetworkConfig) → Result (List (NetworkInspectResponse I E))
  summaries (ok ns) = ok (map summary ns)
  summaries (err e) = err e

  -- List
  unfoldable pub list_ : W → Result (List (NetworkInspectResponse I E))
  list_ w = summaries (b.networks w)

  abbrev answer_inspect : Result (NetworkInspectResponse I E) → Writer (NetworkInspectResponse I E)
  answer_inspect (ok response) = json 200 (value response) fresh
  answer_inspect (err e) = json (inspect_code e) (error_body (message e)) fresh

  -- inspect, with the path variable `id`
  unfoldable pub inspect_handler : String → W → Writer (NetworkInspectResponse I E)
  unfolding inspect inspect_code json message
  inspect_handler nid w =
      if is_empty nid
      then json 500 (error_body "id cannot be empty") fresh
      else answer_inspect (inspect nid w)

  abbrev answer_list :
      Result (List (NetworkInspectResponse I E)) → Writer (List (NetworkInspectResponse I E))
  answer_list (ok responses) = json 200 (value responses) fresh
  answer_list (err e) = json 500 (error_body (message e)) fresh

  -- list
  unfoldable pub list_handler : W → Writer (List (NetworkInspectResponse I E))
  unfolding list_ json message
  list_handler w = answer_list (list_ w)

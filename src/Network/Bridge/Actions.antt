-- ===== src/Network/Bridge/Actions.antt =====
-- What the bridge driver does after the creation and at the removal of a network
-- (internal/service/network/driver/bridge.go).
use Prim.Native.String.{◌++◌}
use finch_daemon.Prelude.{
  ℕ, String, Bool, true, false, ◌&&◌, ◌||◌, Option, none, some, List, [], ◌∷◌, ◌==◌, if◌then◌else◌,
}
use finch_daemon.Errors.{plain, wrap, message}
use finch_daemon.Act.{Result, ok, err, Act, pure, reads, ◌>>=◌, ◌>>◌}
use finch_daemon.Go.Strings.{is_empty}
use finch_daemon.Network.Service.{NetworkConfig, NetworkBackend}
use finch_daemon.Network.Bridge.{BridgeDriver}
use finch_daemon.Network.Iptables.{IpTables, or_fail, add_rule_all, del_rule_all, icc_drop_rule}
use finch_daemon.Network.Bridge.Config.{
  Document, Parsed, parse_bridge_config, renamed, bridge_name_of,
}

-- The files and nerdctl's networks in the world `W`. `lock_dir` opens the directory and takes its
-- lock, `unlock_dir` gives it up; `stat` gives the permissions. `decode_bridge` is json.Unmarshal into
-- the struct of getNetworkByBridgeName that holds the first text: whether it succeeds, and what the
-- struct holds after it; `protocols` is newIptablesCommand.
pub record BridgeBackend (W V : Type 0) : Type 0 where
  pub lock_dir : String → Act W (Unit {0})
  pub unlock_dir : String → W → W
  pub decode_file : String → W → Result (Document V)
  pub encode : Document V → Result String
  pub stat : String → W → Result ℕ
  pub write_file : String → String → ℕ → Act W (Unit {0})
  pub networks : W → Result (List NetworkConfig)
  pub decode_bridge : String → String → Bool × String
  pub namespace : String
  pub netconf_path : String
  pub default_network_name : String
  pub protocols : Bool → W → Result (List (IpTables W))

-- filepath.Join of two clean paths
abbrev join_path : String → String → String
join_path dir name = dir ++ ("/" ++ name)

module _ {W V : Type 0} (b : BridgeBackend W V) where
  -- getDirForNetworkName
  unfoldable pub get_dir_for_network_name : String → String
  get_dir_for_network_name net_name =
      if net_name == b.default_network_name || is_empty b.namespace
      then b.netconf_path
      else join_path b.netconf_path b.namespace

  abbrev is_there : Result ℕ → Bool
  is_there (ok mode) = true
  is_there (err e) = false

  -- getConfigPathForNetworkName
  unfoldable pub get_config_path_for_network_name : String → W → Result String
  unfolding get_dir_for_network_name
  get_config_path_for_network_name net_name w =
      let file = "nerdctl-" ++ (net_name ++ ".conflist") in
      let namespaced_path = join_path (get_dir_for_network_name net_name) file in
      let legacy_path = join_path b.netconf_path file in
      if is_there (b.stat namespaced_path w)
      then ok namespaced_path
      else if is_there (b.stat legacy_path w)
      then ok legacy_path
      else err (plain ("network config file not found for network " ++ net_name))

  -- withDirLock
  unfoldable pub with_dir_lock : {A : Type 0} → String → Act W A → Act W A
  with_dir_lock dir fn = b.lock_dir dir >>= λ t w. ((fn w).0, b.unlock_dir dir (fn w).1)

  -- The test on a plugin, with the name that the shared struct holds after it.
  abbrev decoded_bridge : String → Bool × String → Bool × String
  decoded_bridge bridge_name (success, held) = (success && held == bridge_name, held)

  unfoldable pub has_bridge : String → String → String × String → Bool × String
  has_bridge bridge_name held (kind, bytes) =
      if kind == "bridge"
      then decoded_bridge bridge_name (b.decode_bridge held bytes)
      else (false, held)

  unfoldable pub any_bridge : String → String → List (String × String) → Bool × String
  unfolding has_bridge
  any_bridge bridge_name held [] = (false, held)
  any_bridge bridge_name held (p ∷ plugins) =
      let next = has_bridge bridge_name held p in
      let rest = any_bridge bridge_name next.1 plugins in if next.0 then next else rest

  unfoldable pub first_with_bridge : String → String → List NetworkConfig → Option NetworkConfig
  unfolding any_bridge
  first_with_bridge bridge_name held [] = none
  first_with_bridge bridge_name held (n ∷ ns) =
      let next = any_bridge bridge_name held n.plugins in
      let rest = first_with_bridge bridge_name next.1 ns in if next.0 then some n else rest

  -- getNetworkByBridgeName
  abbrev searched : String → Result (List NetworkConfig) → Result (Option NetworkConfig)
  searched bridge_name (err e) = err e
  searched bridge_name (ok ns) = ok (first_with_bridge bridge_name "" ns)

  abbrev not_used : String → Option NetworkConfig → Result (Unit {0})
  not_used bridge_name none = ok tt
  not_used bridge_name (some n) =
      err (plain ("bridge name " ++ (bridge_name ++ (" already in use by network " ++ n.name))))

  abbrev parsed_file : String → Result (Document V) → Result (Parsed V)
  parsed_file filename (err e) = err e
  parsed_file filename (ok d) = parse_bridge_config filename d

  -- setBridgeName
  unfoldable pub set_bridge_name : NetworkConfig → String → Act W (Unit {0})
  unfolding with_dir_lock get_config_path_for_network_name first_with_bridge parse_bridge_config
      renamed
  set_bridge_name net bridge_name = with_dir_lock (get_dir_for_network_name "") (do
    bridge_net ← reads (λ w. searched bridge_name (b.networks w))
    reads (λ w. not_used bridge_name bridge_net)
    filename ← reads (get_config_path_for_network_name net.name)
    p ← reads (λ w. parsed_file filename (b.decode_file filename w))
    bytes ← reads (λ w. b.encode (renamed bridge_name p))
    mode ← reads (b.stat filename)
    b.write_file filename bytes mode)

  -- getBridgeName
  unfoldable pub get_bridge_name : NetworkConfig → Act W String
  unfolding with_dir_lock get_config_path_for_network_name parse_bridge_config bridge_name_of
  get_bridge_name net = with_dir_lock (get_dir_for_network_name "") (do
    filename ← reads (get_config_path_for_network_name net.name)
    p ← reads (λ w. parsed_file filename (b.decode_file filename w))
    reads (λ w. bridge_name_of filename p))

  -- addICCDropRule and removeICCDropRule
  unfoldable pub add_icc_drop_rule : Bool → String → Act W (Unit {0})
  unfolding add_rule_all
  add_icc_drop_rule ipv6 bridge_iface = do
    protos ← reads (b.protocols ipv6)
    or_fail (λ e. plain ("failed to add iptables rule to drop ICC: " ++ message e))
        (add_rule_all protos (icc_drop_rule bridge_iface))

  unfoldable pub remove_icc_drop_rule : Bool → String → Act W (Unit {0})
  unfolding del_rule_all
  remove_icc_drop_rule ipv6 bridge_iface = do
    protos ← reads (b.protocols ipv6)
    or_fail (λ e. plain ("failed to remove iptables rules to drop ICC: " ++ message e))
        (del_rule_all protos (icc_drop_rule bridge_iface))

  abbrev override_name : BridgeDriver → NetworkConfig → Act W (Unit {0})
  override_name bd net =
      if is_empty bd.bridge_name
      then pure tt
      else or_fail
          (λ e.
            plain ("failed to set network bridge name " ++ (bd.bridge_name ++ (": " ++ message e))))
          (set_bridge_name net bd.bridge_name)

  abbrev name_or_read : BridgeDriver → NetworkConfig → Act W String
  name_or_read bd net =
      if is_empty bd.bridge_name
      then or_fail
          (λ e. wrap "failed to get bridge name to enable inter-container connectivity: " e " ")
          (get_bridge_name net)
      else pure bd.bridge_name

  abbrev isolate : BridgeDriver → NetworkConfig → Act W (Unit {0})
  isolate bd net =
      if bd.disable_icc
      then (name_or_read bd net >>= λ bridge_name.
          or_fail (λ e. wrap "failed to disable inter-container connectivity: " e "")
            (add_icc_drop_rule bd.ipv6 bridge_name))
      else pure tt

  -- HandlePostCreate
  unfoldable pub handle_post_create : BridgeDriver → NetworkConfig → Act W String
  unfolding set_bridge_name get_bridge_name add_icc_drop_rule message
  handle_post_create bd net = override_name bd net >> (isolate bd net >> pure "")

  -- HandleRemove
  unfoldable pub handle_remove : BridgeDriver → NetworkConfig → Act W (Unit {0})
  unfolding get_bridge_name remove_icc_drop_rule
  handle_remove bd net =
      or_fail (λ e. wrap "failed to get bridge name to remove inter-container connectivity: " e " ")
        (get_bridge_name net)
      >>= λ bridge_name.
          or_fail (λ e. wrap "failed to remove iptables DROP rule : " e "")
            (remove_icc_drop_rule bd.ipv6 bridge_name)

  -- The network service over this driver.
  abbrev driven : NetworkBackend W → NetworkBackend W
  driven n = record n { handle_post_create = handle_post_create; handle_remove = handle_remove }

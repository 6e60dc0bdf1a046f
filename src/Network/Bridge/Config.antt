-- ===== src/Network/Bridge/Config.antt =====
-- The configuration file of a bridge network (internal/service/network/driver/bridge.go).
use Prim.Native.String.{◌++◌}
use finch_daemon.Prelude.{
  String, ◌≡◌, ◌≢◌, refl, sym, subst, ◌∙◌, inl, inr, Bool, true, false, Option, none, some, List,
  [], ◌∷◌, ◌==◌, if◌then◌else◌, arith, Option-cases,
}
use finch_daemon.Errors.{GoError, plain}
use finch_daemon.Act.{Result, ok, err}
use finch_daemon.Go.Maps.{Map, lookup, insert, lookup-same, lookup-other}

-- A JSON value of a plugin: a text, or another value of `V`.
pub data Value (V : Type 0) : Type 0 where
  text : String → Value V
  opaque : V → Value V

-- An element of `plugins`: an object, or something else.
pub data Plugin (V : Type 0) : Type 0 where
  object : Map (Value V) → Plugin V
  scalar : V → Plugin V

-- The field `plugins`: a list, or something else.
pub data Plugins (V : Type 0) : Type 0 where
  listed : List (Plugin V) → Plugins V
  not_listed : V → Plugins V

-- A decoded file: no object, or an object with its other fields.
pub data Document (V : Type 0) : Type 0 where
  no_object : V → Document V
  config : Map V → Option (Plugins V) → Document V

-- What the later steps use of a parsed file: the other fields, the plugins and the bridge plugin.
pub record Parsed (V : Type 0) : Type 0 where
  pub fields : Map V
  pub plugins : List (Plugin V)
  pub bridge : Map (Value V)

module _ {V : Type 0} where
  abbrev is_text : String → Option (Value V) → Bool
  is_text s (some (text t)) = t == s
  is_text s _ = false

  -- `plugin["type"] == "bridge"`
  unfoldable pub is_bridge : Map (Value V) → Bool
  is_bridge plugin = is_text "bridge" (lookup "type" plugin)

  -- The loop of parseBridgeConfig
  unfoldable pub bridge_plugin : List (Plugin V) → Option (Map (Value V))
  bridge_plugin [] = none
  bridge_plugin (scalar v ∷ plugins) = bridge_plugin plugins
  bridge_plugin (object m ∷ plugins) =
      let rest = bridge_plugin plugins in if is_bridge m then some m else rest

  abbrev with_bridge : String → Map V → List (Plugin V) → Option (Map (Value V)) → Result (Parsed V)
  with_bridge filename fields plugins none =
      err (plain ("bridge plugin not found in network config file " ++ filename))
  with_bridge filename fields plugins (some m) =
      ok (record { fields = fields; plugins = plugins; bridge = m })

  -- parseBridgeConfig, of the decoded file
  unfoldable pub parse_bridge_config : String → Document V → Result (Parsed V)
  parse_bridge_config filename (no_object v) =
      err (plain ("network config file " ++ (filename ++ " is not a valid map")))
  parse_bridge_config filename (config fields none) =
      err (plain ("could not find plugins in network config file " ++ filename))
  parse_bridge_config filename (config fields (some (not_listed v))) =
      err (plain ("could not parse plugins in network config file " ++ filename))
  parse_bridge_config filename (config fields (some (listed plugins))) =
      with_bridge filename fields plugins (bridge_plugin plugins)

  -- The loop of setBridgeName: the first bridge plugin is replaced.
  unfoldable pub replace_bridge : Map (Value V) → List (Plugin V) → List (Plugin V)
  replace_bridge new [] = []
  replace_bridge new (scalar v ∷ plugins) = scalar v ∷ replace_bridge new plugins
  replace_bridge new (object m ∷ plugins) =
      let rest = replace_bridge new plugins in
      if is_bridge m then object new ∷ plugins else object m ∷ rest

  -- The file that setBridgeName writes.
  unfoldable pub renamed : String → Parsed V → Document V
  renamed bridge_name p =
      config p.fields
        (some (listed (replace_bridge (insert "bridge" (text bridge_name) p.bridge) p.plugins)))

  abbrev name_of : String → Option (Value V) → Result String
  name_of filename (some (text name)) = ok name
  name_of filename _ =
      err (plain ("bridge name in config file " ++ (filename ++ " is not a string")))

  -- The name that getBridgeName reads of a parsed file.
  unfoldable pub bridge_name_of : String → Parsed V → Result String
  bridge_name_of filename p = name_of filename (lookup "bridge" p.bridge)

  is_bridge-insert :
      (name : String) (m : Map (Value V)) → is_bridge (insert "bridge" (text name) m) ≡ is_bridge m
  unfolding is_bridge
  is_bridge-insert name m = rw (lookup-other "bridge" "type" (text name) m refl) refl

  bridge_plugin-is_bridge :
      (plugins : List (Plugin V)) (m : Map (Value V))
      → bridge_plugin plugins ≡ some m
      → is_bridge m ≡ true
  unfolding bridge_plugin
  bridge_plugin-is_bridge [] m h = absurd (cc h)
  bridge_plugin-is_bridge (scalar v ∷ plugins) m h = bridge_plugin-is_bridge plugins m h
  bridge_plugin-is_bridge (object n ∷ plugins) m h =
      ground (arith, bridge_plugin-is_bridge plugins m)

  bridge_plugin-replace_bridge :
      (plugins : List (Plugin V)) (m new : Map (Value V))
      → bridge_plugin plugins ≡ some m
      → is_bridge new ≡ true
      → bridge_plugin (replace_bridge new plugins) ≡ some new
  unfolding bridge_plugin replace_bridge
  bridge_plugin-replace_bridge [] m new h is = absurd (cc h)
  bridge_plugin-replace_bridge (scalar v ∷ plugins) m new h is =
      bridge_plugin-replace_bridge plugins m new h is
  bridge_plugin-replace_bridge (object n ∷ plugins) m new h is =
      ground (arith, bridge_plugin-replace_bridge plugins m new)

  parsed-inj : {x y : Parsed V} → Result.ok x ≡ ok y → x ≡ y
  parsed-inj e = cc e

  err-ok : {e : GoError} {p : Parsed V} → ◌≢◌ {A = Result (Parsed V)} (err e) (ok p)
  err-ok h = absurd (cc h)

  parse_missing :
      (filename : String) (fields : Map V) (plugins : List (Plugin V))
      → bridge_plugin plugins ≡ none
      → parse_bridge_config filename (config fields (some (listed plugins)))
        ≡ err (plain ("bridge plugin not found in network config file " ++ filename))
  unfolding parse_bridge_config
  parse_missing filename fields plugins missing = rw missing refl

  parse_found :
      (filename : String) (fields : Map V) (plugins : List (Plugin V)) (m : Map (Value V))
      → bridge_plugin plugins ≡ some m
      → parse_bridge_config filename (config fields (some (listed plugins)))
        ≡ ok (record { fields = fields; plugins = plugins; bridge = m })
  unfolding parse_bridge_config
  parse_found filename fields plugins m found = rw found refl

  renamed_parsed :
      (filename name : String) (fields : Map V) (plugins : List (Plugin V)) (m : Map (Value V))
      → bridge_plugin plugins ≡ some m
      → (q : Parsed V) × (parse_bridge_config filename
            (renamed name (record { fields = fields; plugins = plugins; bridge = m }))
          ≡ ok q)
        × (bridge_name_of filename q ≡ ok name)
  unfolding renamed bridge_name_of
  renamed_parsed filename name fields plugins m found =
      let new = insert "bridge" (text name) m in
      let is = is_bridge-insert name m ∙ bridge_plugin-is_bridge plugins m found in
      (
        record { fields = fields; plugins = replace_bridge new plugins; bridge = new },
        parse_found filename fields (replace_bridge new plugins) new
            (bridge_plugin-replace_bridge plugins m new found is),
        rw (lookup-same "bridge" (text name) m) refl,
      )

  -- The name that is set in a file that parses is the name that is read from what is written, which
  -- parses too.
  pub renamed-bridge_name :
      (filename name : String) (d : Document V) (p : Parsed V)
      → parse_bridge_config filename d ≡ ok p
      → (q : Parsed V) × (parse_bridge_config filename (renamed name p) ≡ ok q)
        × (bridge_name_of filename q ≡ ok name)
  unfolding parse_bridge_config
  renamed-bridge_name filename name (no_object v) p h = absurd (cc h)
  renamed-bridge_name filename name (config fields none) p h = absurd (cc h)
  renamed-bridge_name filename name (config fields (some (not_listed v))) p h = absurd (cc h)
  renamed-bridge_name filename name (config fields (some (listed plugins))) p h =
      elim (Option-cases (bridge_plugin plugins)) [
        | inl missing ↦ absurd (err-ok (sym (parse_missing filename fields plugins missing) ∙ h))
        | inr (m, found) ↦
            let same : record { fields = fields; plugins = plugins; bridge = m } ≡ p =
              parsed-inj (sym (parse_found filename fields plugins m found) ∙ h) in
            subst
              (λ x.
                (q : Parsed V) × (parse_bridge_config filename (renamed name x) ≡ ok q)
                × (bridge_name_of filename q ≡ ok name))
              same (renamed_parsed filename name fields plugins m found)
      ]

-- ===== src/Builder/Options.antt =====
-- The options of a build from the query of the request (api/handlers/builder/build.go).
use Prim.Native.String.{◌++◌}
use finch_daemon.Prelude.{
  String, Bool, true, false, Option, none, some, List, [], ◌∷◌, map, ◌==◌, if◌then◌else◌,
}
use finch_daemon.Errors.{plain, message}
use finch_daemon.Act.{Result, ok, err}
use finch_daemon.Go.Strconv.{parse_bool}
use finch_daemon.Go.Maps.{Map}

-- r.URL.Query(): the values of a parameter, if it is there.
abbrev pub Query : Type 0
Query = String → Option (List String)

-- json.Unmarshal into a map of texts, in the order in which a range visits it, and into a slice.
pub record Json : Type 0 where
  pub unmarshal_map : String → Result (Map String)
  pub unmarshal_array : String → Result (List String)

-- types.BuilderBuildOptions; Stdout and Stderr are the stream of the request. `tag` is none for a
-- nil slice, and `global` stands for GOptions.
pub record BuildOptions (G : Type 0) : Type 0 where
  pub global : G
  pub build_kit_host : String
  pub build_context : String
  pub tag : Option (List String)
  pub file : String
  pub target : String
  pub platform : Option (List String)
  pub rm : Bool
  pub progress : String
  pub quiet : Bool
  pub no_cache : Bool
  pub cache_from : List String
  pub build_args : List String
  pub label : List String
  pub network_mode : String
  pub output : String

-- Values.Get
abbrev pub first_value : Option (List String) → String
first_value none = ""
first_value (some []) = ""
first_value (some (v ∷ vs)) = v

unfoldable pub get_query_param_str : Query → String → String → String
get_query_param_str query name default_value =
    let val = first_value (query name) in if val == "" then default_value else val

abbrev bool_or : Option Bool → Bool → Bool
bool_or none default_value = default_value
bool_or (some b) default_value = b

unfoldable pub get_query_param_bool : Query → String → Bool → Bool
unfolding parse_bool
get_query_param_bool query name default_value =
    let val = first_value (query name) in
    if val == "" then default_value else bool_or (parse_bool val) default_value

unfoldable pub get_query_param_list : Query → String → Option (List String) → Option (List String)
get_query_param_list query name default_value = elim (query name) [
  | none ↦ default_value
  | some vs ↦ some vs
]

-- KeyEqualsValueFormat of pkg/utility/maputility
unfoldable pub key_equals_value_format : String × String → String
key_equals_value_format (key, val) = key ++ ("=" ++ val)

-- Flatten
unfoldable pub flatten : Map String → List String
unfolding key_equals_value_format
flatten kv_map = map key_equals_value_format kv_map

abbrev array_or : String → Result (List String) → Result (List String)
array_or name (ok vs) = ok vs
array_or name (err e) = err (plain ("unable to parse " ++ (name ++ (" query: " ++ message e))))

module _ (json : Json) where
  abbrev map_or : String → String → Result (Map String) → Result (List String)
  map_or name query (ok m) = ok (flatten m)
  map_or name query (err e) = array_or name (json.unmarshal_array query)

  unfoldable pub get_query_param_map : Query → String → List String → Result (List String)
  unfolding flatten
  get_query_param_map query name default_value =
      let val = first_value (query name) in
      if val == "" then ok default_value else map_or name val (json.unmarshal_map val)

-- `return nil, fmt.Errorf("unable to parse ... query: %s", err)` where a step fails
abbrev or_unparsed : {A B : Type 0} → String → Result A → (A → Result B) → Result B
or_unparsed what (ok a) next = next a
or_unparsed what (err e) next =
    err (plain ("unable to parse " ++ (what ++ (" query: " ++ message e))))

module _ {G : Type 0} (json : Json) (global : G) (query : Query) where
  -- getBuildOptions after GetBuildkitHost
  unfoldable pub get_build_options : String → Result (BuildOptions G)
  get_build_options bk_host =
      or_unparsed "buildargs" (get_query_param_map json query "buildargs" []) (λ build_args.
        or_unparsed "labels" (get_query_param_map json query "labels" []) (λ labels.
          or_unparsed "cacheFrom" (get_query_param_map json query "cachefrom" []) (λ cache_from.
            ok record {
              global = global;
              build_kit_host = bk_host;
              build_context = "";
              tag = get_query_param_list query "t" none;
              file = get_query_param_str query "dockerfile" "Dockerfile";
              target = get_query_param_str query "target" "";
              platform = get_query_param_list query "platform" (some []);
              rm = get_query_param_bool query "rm" true;
              progress = "auto";
              quiet = get_query_param_bool query "q" true;
              no_cache = get_query_param_bool query "nocache" false;
              cache_from = cache_from;
              build_args = build_args;
              label = labels;
              network_mode = get_query_param_str query "networkmode" "";
              output = get_query_param_str query "output" "";
            })))

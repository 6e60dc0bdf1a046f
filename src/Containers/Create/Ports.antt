-- ===== src/Containers/Create/Ports.antt =====
-- translatePortMappings of api/handlers/container/create.go.
pub mod Translated
use Prim.Native.String.{◌++◌}
use finch_daemon.Prelude.{
  String, ◌≡◌, refl, Bool, false, ◌||◌, List, [], ◌∷◌, ◌++◌ as ◌⧺◌, map, ◌==◌, if◌then◌else◌, arith,
}
use finch_daemon.Errors.{GoError, wrap}
use finch_daemon.Act.{Result, ok, err}
use finch_daemon.Go.Maps.{Map}
use finch_daemon.Go.Strings.{is_empty}
use finch_daemon.Containers.Create.Request.{Formats, PortBinding}

-- The keys of seenPortMappings
abbrev pub seen : String → List String → Bool
seen s [] = false
seen s (t ∷ ts) = t == s || seen s ts

module _ (f : Formats) where
  -- portStr
  unfoldable pub port_str : String → PortBinding → String
  port_str port_name binding =
      (if is_empty binding.host_ip then "" else binding.host_ip ++ ":")
      ++ (binding.host_port ++ (":" ++ (f.port port_name ++ ("/" ++ f.proto port_name))))

  abbrev pub port_error : String → GoError → GoError
  port_error s e = wrap ("failed to parse port mapping \"" ++ (s ++ "\": ")) e ""

  abbrev pub also :
      String
      → Result (List f.PortMapping)
      → Result (List f.PortMapping)
      → Result (List f.PortMapping)
  also s (err e) rest = err (port_error s e)
  also s (ok port_maps) (err e) = err e
  also s (ok port_maps) (ok ports) = ok (port_maps ⧺ ports)

  -- The two loops, over the pairs of a port and a binding in the order in which they are visited.
  unfoldable pub translate_pairs :
      List (String × PortBinding) → List String → Result (List f.PortMapping)
  unfolding port_str
  translate_pairs [] seen_ports = ok []
  translate_pairs ((port_name, binding) ∷ pairs) seen_ports =
      let s = port_str port_name binding in
      let again = translate_pairs pairs seen_ports in
      let rest = translate_pairs pairs (s ∷ seen_ports) in
      if seen s seen_ports then again else also s (f.parse_flag_p s) rest

  unfoldable pub port_pairs : Map (List PortBinding) → List (String × PortBinding)
  port_pairs [] = []
  port_pairs ((port_name, bindings) ∷ rest) =
      map (λ binding. (port_name, binding)) bindings ⧺ port_pairs rest

  -- translatePortMappings
  unfoldable pub translate_port_mappings : Map (List PortBinding) → Result (List f.PortMapping)
  unfolding translate_pairs port_pairs
  translate_port_mappings port_mappings = translate_pairs (port_pairs port_mappings) []

  -- The first occurrences.
  unfoldable pub distinct : List String → List String → List String
  distinct [] seen_ports = []
  distinct (s ∷ ss) seen_ports =
      let again = distinct ss seen_ports in
      let rest = distinct ss (s ∷ seen_ports) in if seen s seen_ports then again else s ∷ rest

  -- The mappings of a list of flags: all of them, or the error of the first that does not parse.
  unfoldable pub parse_all : List String → Result (List f.PortMapping)
  parse_all [] = ok []
  parse_all (s ∷ ss) = also s (f.parse_flag_p s) (parse_all ss)

  abbrev pub flag : String × PortBinding → String
  flag (port_name, binding) = port_str port_name binding

  pub translate_pairs-eq :
      (pairs : List (String × PortBinding)) (seen_ports : List String)
      → translate_pairs pairs seen_ports ≡ parse_all (distinct (map flag pairs) seen_ports)
  unfolding translate_pairs parse_all distinct
  translate_pairs-eq [] seen_ports = refl
  translate_pairs-eq ((port_name, binding) ∷ pairs) seen_ports = ground (
    arith,
    translate_pairs-eq pairs seen_ports,
    translate_pairs-eq pairs (port_str port_name binding ∷ seen_ports),
  )

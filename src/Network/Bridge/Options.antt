-- ===== src/Network/Bridge/Options.antt =====
-- What HandleCreateOptions makes of the options of a request.
use Prim.Native.String
use finch_daemon.Prelude.{
  different, ◌≡◌, ◌≢◌, refl, String, Bool, false, not, ◌||◌, ◌∙◌, ◌++◌, Option, none, some, List,
  [], ◌∷◌, ◌==◌, eq_iff, arith, if◌then◌else◌,
}
use finch_daemon.Go.Strconv.{parse_bool}
use finch_daemon.Go.Maps.{Map, lookup, insert, lookup-insert}
use finch_daemon.Network.Bridge.{
  Progress, bridge_icc_option, bridge_host_binding_ipv4_option, bridge_name_option,
  new_bridge_driver, process_option, icc_label, process_unsupported_options, handle_create_options,
}

-- No key stands twice.
abbrev pub IsMap : Map String → Type 0
IsMap [] = Unit
IsMap ((k, v) ∷ m) = (lookup k m ≡ none) × IsMap m

-- The options that nerdctl does not know.
abbrev pub unsupported : String → Bool
unsupported k =
    k == bridge_host_binding_ipv4_option || k == bridge_icc_option || k == bridge_name_option

abbrev pub or_before : Option String → Option String → Option String
or_before none before = before
or_before (some v) before = some v

opts-process_option :
    (k v j : String) (p : Progress)
    → lookup j (process_option k v p).opts
      ≡ (if unsupported k then lookup j p.opts else lookup j (insert k v p.opts))
unfolding process_option
opts-process_option k v j p = ground arith

opts-process :
    (m : Map String) (p : Progress) (j : String)
    → IsMap m
    → lookup j (process_unsupported_options m p).opts
      ≡ (if unsupported j then lookup j p.opts else or_before (lookup j m) (lookup j p.opts))
unfolding process_unsupported_options lookup
opts-process [] p j h = ground arith
opts-process ((k, v) ∷ m) p j (fresh_, h) = ground (
  arith,
  opts-process m (process_option k v p) j h,
  opts-process_option k v j p,
  lookup-insert k j v p.opts,
  eq_iff k j,
)

-- The field after an option with this value, and before it.
abbrev pub icc_after : Option Bool → Bool → Bool
icc_after none before = before
icc_after (some icc) before = not icc

abbrev pub icc_from : Option String → Bool → Bool
icc_from none before = before
icc_from (some v) before = icc_after (parse_bool v) before

abbrev pub name_from : Option String → String → String
name_from none before = before
name_from (some v) before = v

host_is_not_icc : bridge_host_binding_ipv4_option ≢ bridge_icc_option
host_is_not_icc = different _ _ refl

host_is_not_name : bridge_host_binding_ipv4_option ≢ bridge_name_option
host_is_not_name = different _ _ refl

icc_is_not_name : bridge_icc_option ≢ bridge_name_option
icc_is_not_name = different _ _ refl

driver-process_option :
    (k v : String) (p : Progress)
    → ((process_option k v p).driver.disable_icc ≡ (
        if k == bridge_icc_option
        then icc_after (parse_bool v) p.driver.disable_icc
        else p.driver.disable_icc))
      × ((process_option k v p).driver.bridge_name
          ≡ (if k == bridge_name_option then v else p.driver.bridge_name))
      × ((process_option k v p).driver.ipv6 ≡ p.driver.ipv6)
unfolding process_option
driver-process_option k v p = (
  ground (
    arith,
    eq_iff k bridge_host_binding_ipv4_option,
    eq_iff k bridge_icc_option,
    host_is_not_icc,
  ),
  ground (
    arith,
    eq_iff k bridge_host_binding_ipv4_option,
    eq_iff k bridge_icc_option,
    eq_iff k bridge_name_option,
    host_is_not_name,
    icc_is_not_name,
  ),
  ground arith,
)

driver-process :
    (m : Map String) (p : Progress)
    → IsMap m
    → ((process_unsupported_options m p).driver.disable_icc
        ≡ icc_from (lookup bridge_icc_option m) p.driver.disable_icc)
      × ((process_unsupported_options m p).driver.bridge_name
          ≡ name_from (lookup bridge_name_option m) p.driver.bridge_name)
      × ((process_unsupported_options m p).driver.ipv6 ≡ p.driver.ipv6)
unfolding process_unsupported_options lookup
driver-process [] p h = (refl, refl, refl)
driver-process ((k, v) ∷ m) p (fresh_, h) =
    let (icc, name, same) = driver-process m (process_option k v p) h in
    let (icc', name', same') = driver-process_option k v p in
    (
      ground (arith, icc, icc', eq_iff k bridge_icc_option),
      ground (arith, name, name', eq_iff k bridge_name_option),
      same ∙ same',
    )

-- For the options of a request, each with one value: nerdctl gets those that it knows, with their
-- values; the driver takes the bridge name; and a label says that containers may not reach one
-- another exactly if the option for that is there with a false value.
pub handle_create_options_lem :
    (m : Map String) (labels : List String) (ipv6 : Bool)
    → IsMap m
    → ((j : String)
        → lookup j (handle_create_options m labels (new_bridge_driver ipv6)).options
          ≡ (if unsupported j then none else lookup j m))
      × ((handle_create_options m labels (new_bridge_driver ipv6)).driver.bridge_name
          ≡ name_from (lookup bridge_name_option m) "")
      × ((handle_create_options m labels (new_bridge_driver ipv6)).labels ≡ (
          if icc_from (lookup bridge_icc_option m) false
          then labels ++ Prim.Native.String.◌++◌ (icc_label ipv6) "=false" ∷ []
          else labels))
unfolding handle_create_options lookup
handle_create_options_lem m labels ipv6 h =
    let p : Progress = record { driver = new_bridge_driver ipv6; opts = [] } in
    let (icc, name, same) = driver-process m p h in
    ((λ j. opts-process m p j h ∙ ground arith), name, rw (icc, same) refl)

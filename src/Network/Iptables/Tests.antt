-- ===== src/Network/Iptables/Tests.antt =====
-- The rules on tables that are kept as functions, for two protocols.
use finch_daemon.Prelude.{
  ℕ, ◌-◌, ◌≤◌, ◌≡◌, refl, String, Bool, true, false, ◌&&◌, none, List, [], ◌∷◌, map, All, ◌==◌,
  eq_refl, arith, if◌then◌else◌,
}
use finch_daemon.Act.{ok}
use finch_daemon.Network.Iptables.{
  IpTables, finch_isolate_chain, add_rule_all, del_rule_all, add_rule, setup_chains,
  ensure_isolate_chain, ensure_chain, add_jump_rule, add_return_rule, insert_rule, del_rule,
  icc_drop_rule,
}
use finch_daemon.Network.Iptables.Rules.{IsIptables, IsDeleting, add_rule_all_lem, del_rule_all_lem}

rule_eq : List String → List String → Bool
rule_eq [] [] = true
rule_eq [] (b ∷ ys) = false
rule_eq (a ∷ xs) [] = false
rule_eq (a ∷ xs) (b ∷ ys) = let rest = rule_eq xs ys in a == b && rest

rule_eq_refl : (r : List String) → rule_eq r r ≡ true
unfolding rule_eq
rule_eq_refl [] = refl
rule_eq_refl (a ∷ xs) = ground (arith, eq_refl a, rule_eq_refl xs)

-- The protocol is a Boolean. The rules of the program's chain, as a test.
abbrev Tables : Type 0
Tables = Bool → List String → Bool

abbrev same : Bool → Bool → Bool
same true q = q
same false true = false
same false false = true

set : Bool → List String → Bool → Tables → Tables
unfolding rule_eq
set p rs present w q r = if same p q && rule_eq rs r then present else w q r

abbrev set_in : String → Bool → List String → Bool → Tables → Tables
set_in chain p rs present w = if chain == finch_isolate_chain then set p rs present w else w

abbrev tables : Bool → IpTables Tables
tables p = record {
  chain_exists = λ t c w. (ok false, w);
  new_chain = λ t c w. (ok tt, w);
  insert_unique = λ t c pos rs w. (ok tt, set_in c p rs true w);
  append_unique = λ t c rs w. (ok tt, set_in c p rs true w);
  delete_if_exists = λ t c rs w. (ok tt, set_in c p rs false w);
  delete_chain = λ t c w. (ok tt, w);
  exit_status = λ e. none;
}

abbrev present : Bool → List String → Tables → Bool
present p r w = w p r

same_refl : (p : Bool) → same p p ≡ true
same_refl true = refl
same_refl false = refl

set_same : (p : Bool) (rs : List String) (b : Bool) (w : Tables) → set p rs b w p rs ≡ b
unfolding set
set_same p rs b w = rw (same_refl p, rule_eq_refl rs) refl

set_keeps :
    (c : String) (q : Bool) (rs : List String) (b : Bool) (w : Tables) (p : Bool) (r : List String)
    → w p r ≡ b
    → set_in c q rs b w p r ≡ b
unfolding set
set_keeps c q rs b w p r h = ground arith

tables-IsIptables : IsIptables tables present
tables-IsIptables = record {
  inserted = λ p r w done. set_same p r true w;
  exists_keeps = λ p q r t c w there. there;
  new_keeps = λ p q r t c w there. there;
  insert_keeps = λ p q r t c pos rs w there. set_keeps c q rs true w p r there;
  append_keeps = λ p q r t c rs w there. set_keeps c q rs true w p r there;
}

abbrev rule : List String
rule = icc_drop_rule "br-1"

abbrev both : List Bool
both = true ∷ false ∷ []

abbrev no_rules : Tables
no_rules p r = false

added : (add_rule_all (map tables both) rule no_rules).0 ≡ ok tt
unfolding add_rule_all add_rule setup_chains ensure_isolate_chain ensure_chain add_jump_rule
    add_return_rule insert_rule
added = refl

add_rule_all_lem_example :
    All (λ p. present p rule (add_rule_all (map tables both) rule no_rules).1 ≡ true) both
add_rule_all_lem_example =
    add_rule_all_lem tables present tables-IsIptables both rule no_rules added

-- How often each rule stands
abbrev Counts : Type 0
Counts = Bool → List String → ℕ

one_less : Bool → List String → Counts → Counts
unfolding rule_eq
one_less p rs w q r = if same p q && rule_eq rs r then w q r - 1 else w q r

abbrev counters : Bool → IpTables Counts
counters p = record {
  chain_exists = λ t c w. (ok true, w);
  new_chain = λ t c w. (ok tt, w);
  insert_unique = λ t c pos rs w. (ok tt, w);
  append_unique = λ t c rs w. (ok tt, w);
  delete_if_exists = λ t c rs w. (ok tt, one_less p rs w);
  delete_chain = λ t c w. (ok tt, w);
  exit_status = λ e. none;
}

abbrev count : Bool → List String → Counts → ℕ
count p r w = w p r

one_less_same : (p : Bool) (rs : List String) (w : Counts) → one_less p rs w p rs ≡ w p rs - 1
unfolding one_less
one_less_same p rs w = rw (same_refl p, rule_eq_refl rs) refl

one_less_le :
    (q : Bool) (rs : List String) (w : Counts) (p : Bool) (r : List String)
    → one_less q rs w p r ≤ w p r
unfolding one_less
one_less_le q rs w p r = ground arith

counters-IsDeleting : IsDeleting counters count
counters-IsDeleting = record {
  deleted = λ p r w done. one_less_same p r w;
  delete_adds_none = λ p q r rs w. one_less_le q rs w p r;
}

abbrev once : Counts
once p r = 1

del_rule_all_lem_example :
    All (λ p. count p rule (del_rule_all (map counters both) rule once).1 ≤ 0) both
unfolding del_rule_all del_rule
del_rule_all_lem_example = del_rule_all_lem counters count counters-IsDeleting rule both once

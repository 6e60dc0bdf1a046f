-- ===== src/Network/Iptables.antt =====
-- internal/service/network/driver/iptables.go: the rules that keep the containers of a bridge apart.
pub mod Rules
mod Tests
use Prim.Native.String.{◌++◌}
use finch_daemon.Prelude.{
  ℕ, String, Bool, true, false, Option, none, some, List, [], ◌∷◌, nat_eq, if◌then◌else◌,
}
use finch_daemon.Errors.{GoError, plain, wrap, message}
use finch_daemon.Act.{Result, ok, err, Act, pure, ◌>>=◌, ◌>>◌}

-- IPTablesWrapper: a protocol's tables. `exit_status` is the status of an *iptables.Error.
pub record IpTables (W : Type 0) : Type 0 where
  pub chain_exists : (table chain : String) → Act W Bool
  pub new_chain : (table chain : String) → Act W (Unit {0})
  pub insert_unique : (table chain : String) (pos : ℕ) (rulespec : List String) → Act W (Unit {0})
  pub append_unique : (table chain : String) (rulespec : List String) → Act W (Unit {0})
  pub delete_if_exists : (table chain : String) (rulespec : List String) → Act W (Unit {0})
  pub delete_chain : (table chain : String) → Act W (Unit {0})
  pub exit_status : GoError → Option ℕ

abbrev pub filter_table_name : String
filter_table_name = "filter"

abbrev pub forward_chain_name : String
forward_chain_name = "FORWARD"

abbrev pub finch_isolate_chain : String
finch_isolate_chain = "FINCH-ISOLATE-CHAIN"

abbrev status_chain_exists : ℕ
status_chain_exists = 1

-- `return fmt.Errorf(text, err)` where a step fails
abbrev pub or_fail : {W A : Type 0} → (GoError → GoError) → Act W A → Act W A
or_fail f m w = elim (m w).0 [ ok a ↦ (ok a, (m w).1) | err e ↦ (err (f e), (m w).1) ]

-- A step that undoes on an error, and whose own result is dropped
abbrev pub or_undo : {W : Type 0} → Act W (Unit {0}) → Act W (Unit {0}) → Act W (Unit {0})
or_undo undo m w = elim (m w).0 [ ok t ↦ (ok t, (m w).1) | err e ↦ (err e, (undo (m w).1).1) ]

abbrev creation_failed : String → GoError → GoError
creation_failed chain e = wrap ("failed to create " ++ (chain ++ " chain: ")) e ""

module _ {W : Type 0} (ipt : IpTables W) where
  -- The test on the error of NewChain: a chain that exists by now is fine.
  abbrev chain_error : String → GoError → Option ℕ → Result (Unit {0})
  chain_error chain e none = err (creation_failed chain e)
  chain_error chain e (some status) =
      if nat_eq status status_chain_exists then ok tt else err (creation_failed chain e)

  abbrev pub created_chain : String → Result (Unit {0}) → Result (Unit {0})
  created_chain chain (ok t) = ok t
  created_chain chain (err e) = chain_error chain e (ipt.exit_status e)

  abbrev pub new_unless : String → String → Bool → Act W (Unit {0})
  new_unless table chain true w = (ok tt, w)
  new_unless table chain false w =
      (created_chain chain (ipt.new_chain table chain w).0, (ipt.new_chain table chain w).1)

  -- ensureChain, where the tables are there
  unfoldable pub ensure_chain : String → String → Act W (Unit {0})
  ensure_chain table chain =
      or_fail (λ e. plain ("failed to check if iptables " ++ (chain ++ (" exists: " ++ message e))))
        (ipt.chain_exists table chain)
      >>= new_unless table chain

  -- The steps of setupChains
  unfoldable pub ensure_isolate_chain : Act W (Unit {0})
  ensure_isolate_chain =
      or_undo (ipt.delete_chain filter_table_name finch_isolate_chain)
        (ensure_chain filter_table_name finch_isolate_chain)

  unfoldable pub add_jump_rule : Act W (Unit {0})
  add_jump_rule =
      or_fail (λ e. plain ("failed to add jump rule to FINCH-ISOLATE-CHAIN chain: " ++ message e))
        (ipt.insert_unique filter_table_name forward_chain_name 1 ("-j" ∷ finch_isolate_chain ∷ []))

  unfoldable pub add_return_rule : Act W (Unit {0})
  add_return_rule =
      or_fail (λ e. plain ("failed to add RETURN rule in FINCH-ISOLATE-CHAIN chain: " ++ message e))
        (ipt.append_unique filter_table_name finch_isolate_chain ("-j" ∷ "RETURN" ∷ []))

  -- setupChains
  unfoldable pub setup_chains : Act W (Unit {0})
  setup_chains = ensure_isolate_chain >> (add_jump_rule >> add_return_rule)

  -- The second step of addRule
  unfoldable pub insert_rule : List String → Act W (Unit {0})
  insert_rule rulespec =
      or_fail (λ e. wrap "failed to add iptables rule: " e "")
        (or_undo (ipt.delete_if_exists filter_table_name finch_isolate_chain rulespec)
          (ipt.insert_unique filter_table_name finch_isolate_chain 1 rulespec))

  -- addRule
  unfoldable pub add_rule : List String → Act W (Unit {0})
  add_rule rulespec = setup_chains >> insert_rule rulespec

  -- delRule
  unfoldable pub del_rule : List String → Act W (Unit {0})
  del_rule rulespec = ipt.delete_if_exists filter_table_name finch_isolate_chain rulespec

module _ {W : Type 0} where
  -- AddRule and DelRule, over the protocols in the order in which a range visits them
  unfoldable pub add_rule_all : List (IpTables W) → List String → Act W (Unit {0})
  add_rule_all [] rulespec = pure tt
  add_rule_all (ipt ∷ protos) rulespec = add_rule ipt rulespec >> add_rule_all protos rulespec

  unfoldable pub del_rule_all : List (IpTables W) → List String → Act W (Unit {0})
  del_rule_all [] rulespec = pure tt
  del_rule_all (ipt ∷ protos) rulespec = del_rule ipt rulespec >> del_rule_all protos rulespec

-- The rule of addICCDropRule and removeICCDropRule (bridge.go)
abbrev pub icc_drop_rule : String → List String
icc_drop_rule bridge_iface = "-i" ∷ bridge_iface ∷ "-o" ∷ bridge_iface ∷ "-j" ∷ "DROP" ∷ []

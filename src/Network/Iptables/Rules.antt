-- ===== src/Network/Iptables/Rules.antt =====
-- Which rules stand after AddRule and DelRule.
use finch_daemon.Prelude.{
  ℕ, ◌-◌, ◌≤◌, ◌≡◌, refl, ap, sym, subst, inl, inr, String, Bool, true, false, List, [], ◌∷◌, ◌++◌,
  map, All, arith,
}
use finch_daemon.Act.{Result, ok, err, Act, ◌>>◌, Result-cases}
use finch_daemon.Network.Iptables.{
  IpTables, filter_table_name, finch_isolate_chain, new_unless, ensure_chain, setup_chains,
  ensure_isolate_chain, add_jump_rule, add_return_rule, insert_rule, forward_chain_name, add_rule,
  del_rule, add_rule_all, del_rule_all,
}

module _ {W P : Type 0} (ipt : P → IpTables W) (present : P → List String → W → Bool) where
  -- What iptables documents: InsertUnique does what it says in the chain of the program when it
  -- succeeds, and the other calls of AddRule remove no rule from it.
  pub record IsIptables : Type 0 where
    pub inserted :
        (p : P) (r : List String) (w : W)
        → ((ipt p).insert_unique filter_table_name finch_isolate_chain 1 r w).0 ≡ ok tt
        → present p r ((ipt p).insert_unique filter_table_name finch_isolate_chain 1 r w).1 ≡ true
    pub exists_keeps :
        (p q : P) (r : List String) (t c : String) (w : W)
        → present p r w ≡ true
        → present p r ((ipt q).chain_exists t c w).1 ≡ true
    pub new_keeps :
        (p q : P) (r : List String) (t c : String) (w : W)
        → present p r w ≡ true
        → present p r ((ipt q).new_chain t c w).1 ≡ true
    pub insert_keeps :
        (p q : P) (r : List String) (t c : String) (pos : ℕ) (rs : List String) (w : W)
        → present p r w ≡ true
        → present p r ((ipt q).insert_unique t c pos rs w).1 ≡ true
    pub append_keeps :
        (p q : P) (r : List String) (t c : String) (rs : List String) (w : W)
        → present p r w ≡ true
        → present p r ((ipt q).append_unique t c rs w).1 ≡ true

  module _ (h : IsIptables) (p : P) (r : List String) where
    -- A step that succeeds leaves the rule there.
    abbrev Keeps : {A : Type 0} → Act W A → Type 0
    Keeps {A} m =
        (w : W) (a : A) → (m w).0 ≡ ok a → present p r w ≡ true → present p r (m w).1 ≡ true

    Keeps-then : {A B : Type 0} (m : Act W A) (n : Act W B) → Keeps m → Keeps n → Keeps (m >> n)
    Keeps-then m n k l w b done there = elim (Result-cases (m w).0) [
      | inr (e, failed) ↦ absurd (ground arith)
      | inl (a, fine) ↦ ground (arith, k w a fine there, l (m w).1 b)
    ]

    Keeps-new_unless :
        (q : P) (c : String) (e : Bool) → Keeps (new_unless (ipt q) filter_table_name c e)
    Keeps-new_unless q c true w a done there = there
    Keeps-new_unless q c false w a done there = h.new_keeps p q r filter_table_name c w there

    Keeps-ensure_chain :
        (q : P) → Keeps (ensure_chain (ipt q) filter_table_name finch_isolate_chain)
    unfolding ensure_chain
    Keeps-ensure_chain q w a done there =
        elim (Result-cases ((ipt q).chain_exists filter_table_name finch_isolate_chain w).0) [
          | inr (e, failed) ↦ absurd (ground arith)
          | inl (e, fine) ↦ ground (
            arith,
            Keeps-new_unless q finch_isolate_chain e
                ((ipt q).chain_exists filter_table_name finch_isolate_chain w).1 a,
            h.exists_keeps p q r filter_table_name finch_isolate_chain w,
          )
        ]

    Keeps-ensure_isolate_chain : (q : P) → Keeps (ensure_isolate_chain (ipt q))
    unfolding ensure_isolate_chain
    Keeps-ensure_isolate_chain q w a done there = ground (arith, Keeps-ensure_chain q w a)

    Keeps-add_jump_rule : (q : P) → Keeps (add_jump_rule (ipt q))
    unfolding add_jump_rule
    Keeps-add_jump_rule q w a done there = ground (
      arith,
      h.insert_keeps p q r filter_table_name forward_chain_name 1 ("-j" ∷ finch_isolate_chain ∷ [])
          w,
    )

    Keeps-add_return_rule : (q : P) → Keeps (add_return_rule (ipt q))
    unfolding add_return_rule
    Keeps-add_return_rule q w a done there =
        ground (
          arith,
          h.append_keeps p q r filter_table_name finch_isolate_chain ("-j" ∷ "RETURN" ∷ []) w,
        )

    Keeps-insert_rule : (q : P) (rs : List String) → Keeps (insert_rule (ipt q) rs)
    unfolding insert_rule
    Keeps-insert_rule q rs w a done there =
        ground (arith, h.insert_keeps p q r filter_table_name finch_isolate_chain 1 rs w)

    Keeps-add_rule : (q : P) (rs : List String) → Keeps (add_rule (ipt q) rs)
    unfolding add_rule setup_chains
    Keeps-add_rule q rs =
        Keeps-then _ (insert_rule (ipt q) rs)
          (Keeps-then (ensure_isolate_chain (ipt q)) _ (Keeps-ensure_isolate_chain q) (
            Keeps-then (add_jump_rule (ipt q)) (add_return_rule (ipt q)) (Keeps-add_jump_rule q)
              (Keeps-add_return_rule q)))
          (Keeps-insert_rule q rs)

    Keeps-add_rule_all : (qs : List P) (rs : List String) → Keeps (add_rule_all (map ipt qs) rs)
    unfolding add_rule_all
    Keeps-add_rule_all [] rs = λ w a done there. there
    Keeps-add_rule_all (q ∷ qs) rs =
        Keeps-then (add_rule (ipt q) rs) (add_rule_all (map ipt qs) rs) (Keeps-add_rule q rs)
          (Keeps-add_rule_all qs rs)

  module _ (h : IsIptables) where
    add_rule_inserts :
        (p : P) (r : List String) (w : W)
        → (add_rule (ipt p) r w).0 ≡ ok tt
        → present p r (add_rule (ipt p) r w).1 ≡ true
    unfolding add_rule insert_rule
    add_rule_inserts p r w done = elim (Result-cases (setup_chains (ipt p) w).0) [
      | inr (e, failed) ↦ absurd (ground arith)
      | inl (t, fine) ↦ ground (arith, h.inserted p r (setup_chains (ipt p) w).1)
    ]

    -- When AddRule succeeds, the rule stands for every protocol, in whatever order it takes them.
    pub add_rule_all_lem :
        (ps : List P) (r : List String) (w : W)
        → (add_rule_all (map ipt ps) r w).0 ≡ ok tt
        → All (λ p. present p r (add_rule_all (map ipt ps) r w).1 ≡ true) ps
    unfolding add_rule_all
    add_rule_all_lem [] r w done = tt
    add_rule_all_lem (p ∷ ps) r w done = elim (Result-cases (add_rule (ipt p) r w).0) [
      | inr (e, failed) ↦ absurd (ground arith)
      | inl (t, fine) ↦
          let same : (add_rule (ipt p) r >> add_rule_all (map ipt ps) r) w
              ≡ add_rule_all (map ipt ps) r (add_rule (ipt p) r w).1 =
            rw fine refl in
          let rest = add_rule_all_lem ps r (add_rule (ipt p) r w).1 (ground arith) in
          let first =
            Keeps-add_rule_all h p r ps r (add_rule (ipt p) r w).1 tt (ground arith)
              (add_rule_inserts p r w (ground arith)) in
          subst (λ x. All (λ q. present q r x.1 ≡ true) (p ∷ ps)) (sym same) (first, rest)
    ]

module _ {W P : Type 0} (ipt : P → IpTables W) (count : P → List String → W → ℕ) where
  -- What iptables documents of a deletion: one that succeeds takes away one of the equal rules of the
  -- chain, if there is one, and none adds a rule to the chain of any protocol.
  pub record IsDeleting : Type 0 where
    pub deleted :
        (p : P) (r : List String) (w : W)
        → ((ipt p).delete_if_exists filter_table_name finch_isolate_chain r w).0 ≡ ok tt
        → count p r ((ipt p).delete_if_exists filter_table_name finch_isolate_chain r w).1
          ≡ count p r w - 1
    pub delete_adds_none :
        (p q : P) (r rs : List String) (w : W)
        → count p r ((ipt q).delete_if_exists filter_table_name finch_isolate_chain rs w).1
          ≤ count p r w

  module _ (h : IsDeleting) (r : List String) where
    del_rule_all-adds_none :
        (p : P) (ps : List P) (w : W) → count p r (del_rule_all (map ipt ps) r w).1 ≤ count p r w
    unfolding del_rule_all del_rule
    del_rule_all-adds_none p [] w = omega arith
    del_rule_all-adds_none p (q ∷ ps) w =
        let fewer = h.delete_adds_none p q r r w in
        elim (Result-cases (del_rule (ipt q) r w).0) [
          | inr (e, failed) ↦ ground arith
          | inl (t, fine) ↦ ground (arith, del_rule_all-adds_none p ps (del_rule (ipt q) r w).1)
        ]

    -- One rule fewer, at least, from the world `w` to the world `w'`.
    abbrev pub IsFewer : W → W → P → Type 0
    IsFewer w w' p = count p r w' ≤ count p r w - 1

    All-earlier :
        (q : P) (ps : List P) (w w' : W)
        → All (IsFewer (del_rule (ipt q) r w).1 w') ps
        → All (IsFewer w w') ps
    unfolding del_rule
    All-earlier q [] w w' fewer = tt
    All-earlier q (p ∷ ps) w w' (first, rest) =
        let kept = h.delete_adds_none p q r r w in (ground arith, All-earlier q ps w w' rest)

    -- What is known of a deletion from the world `w` that left `w'`, by its result.
    abbrev pub IsDeleted : W → W → List P → Result (Unit {0}) → Type 0
    IsDeleted w w' ps (ok t) = All (IsFewer w w') ps
    IsDeleted w w' ps (err e) =
        (before : List P) × (p : P) × (after : List P) × (w1 : W) × (ps ≡ before ++ p ∷ after)
        × All (IsFewer w w') before
        × ((del_rule (ipt p) r w1).0 ≡ err e)
        × ((del_rule (ipt p) r w1).1 ≡ w')

    IsDeleted-earlier :
        (p : P) (ps : List P) (w w' : W) (result : Result (Unit {0}))
        → (del_rule (ipt p) r w).0 ≡ ok tt
        → count p r w' ≤ count p r (del_rule (ipt p) r w).1
        → IsDeleted (del_rule (ipt p) r w).1 w' ps result
        → IsDeleted w w' (p ∷ ps) result
    unfolding del_rule
    IsDeleted-earlier p ps w w' (ok t) fine kept fewer =
        let one_less = h.deleted p r w fine in (ground arith, All-earlier p ps w w' fewer)
    IsDeleted-earlier p ps w w' (err e) fine kept
          (before, q, after, w1, split_, fewer, failed, left) =
        let one_less = h.deleted p r w fine in
        (
          p ∷ before,
          q,
          after,
          w1,
          ap (λ qs. p ∷ qs) split_,
          (ground arith, All-earlier p before w w' fewer),
          failed,
          left,
        )

    del_rule_all-IsDeleted :
        (ps : List P) (w w' : W) (result : Result (Unit {0}))
        → (del_rule_all (map ipt ps) r w).0 ≡ result
        → (del_rule_all (map ipt ps) r w).1 ≡ w'
        → IsDeleted w w' ps result
    unfolding del_rule_all
    del_rule_all-IsDeleted [] w w' (ok t) at left = tt
    del_rule_all-IsDeleted [] w w' (err e) at left = absurd (cc at)
    del_rule_all-IsDeleted (p ∷ ps) w w' result at left =
        elim (Result-cases (del_rule (ipt p) r w).0) [
          | inr (e, failed) ↦
              let stops : err e ≡ result = ground arith in
              subst (IsDeleted w w' (p ∷ ps)) stops ([], p, ps, w, refl, tt, failed, ground arith)
          | inl (tt, fine) ↦
              let w1 = (del_rule (ipt p) r w).1 in
              let fewer = del_rule_all-adds_none p ps w1 in
              IsDeleted-earlier p ps w w' result fine (ground arith)
                (del_rule_all-IsDeleted ps w1 w' result (ground arith) (ground arith))
        ]

    -- DelRule goes through the protocols, in whatever order, where a deletion that succeeds takes away
    -- one of the equal rules of the chain, if there is one, and none adds a rule. If it succeeds, each
    -- protocol has at least one fewer of the equal rules, if it had any: a rule that stood once is
    -- gone. If it fails, the error and the tables are those of the deletion for one protocol, and the
    -- protocols before it have one fewer.
    pub del_rule_all_lem :
        (ps : List P) (w : W)
        → IsDeleted w (del_rule_all (map ipt ps) r w).1 ps (del_rule_all (map ipt ps) r w).0
    del_rule_all_lem ps w = del_rule_all-IsDeleted ps w _ _ refl refl

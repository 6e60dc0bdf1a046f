-- ===== src/Containers/Create/Ports/Translated.antt =====
-- Which port mappings a request gives (translatePortMappings of api/handlers/container/create.go).
use Prim.Native.String.{◌++◌}
use finch_daemon.Prelude.{
  String, ◌≡◌, ◌⊎◌, inl, inr, refl, sym, subst, true, false, List, [], ◌∷◌, ◌++◌ as ◌⧺◌, map, ◌==◌,
  eq_iff, arith, Bool-cases,
}
use finch_daemon.Errors.{GoError, wrap}
use finch_daemon.Act.{Result, ok, err, Result-cases}
use finch_daemon.Go.Maps.{Map}
use finch_daemon.Containers.Create.Request.{Formats, PortBinding}
use finch_daemon.Containers.Create.Ports.{
  seen, distinct, parse_all, flag, port_pairs, translate_port_mappings, translate_pairs-eq,
}

abbrev pub IsIn : String → List String → Type 0
IsIn s [] = ⊥
IsIn s (t ∷ ts) = (t ≡ s) ⊎ IsIn s ts

abbrev pub AreDistinct : List String → Type 0
AreDistinct [] = Unit {0}
AreDistinct (s ∷ ss) = (¬ IsIn s ss) × AreDistinct ss

-- Some of the texts, in their order.
pub data IsSublist : List String → List String → Type 0 where
  nothing : IsSublist [] []
  skip : {ss ts : List String} (t : String) → IsSublist ss ts → IsSublist ss (t ∷ ts)
  keep : {ss ts : List String} (t : String) → IsSublist ss ts → IsSublist (t ∷ ss) (t ∷ ts)

seen-IsIn : (s : String) (ts : List String) → seen s ts ≡ true → IsIn s ts
seen-IsIn s [] h = absurd (cc h)
seen-IsIn s (t ∷ ts) h = elim (Bool-cases (t == s)) [
  | inl same ↦ inl ((eq_iff t s).0 same)
  | inr other ↦ inr (seen-IsIn s ts (ground arith))
]

unseen-IsIn : (s : String) (ts : List String) → seen s ts ≡ false → IsIn s ts → ⊥
unseen-IsIn s [] h is = is
unseen-IsIn s (t ∷ ts) h (inl same) = let found = (eq_iff t s).1 same in absurd (ground arith)
unseen-IsIn s (t ∷ ts) h (inr later) = unseen-IsIn s ts (ground arith) later

module _ (f : Formats) where
  distinct-again :
      (s : String) (ss ts : List String)
      → seen s ts ≡ true
      → distinct f (s ∷ ss) ts ≡ distinct f ss ts
  unfolding distinct
  distinct-again s ss ts h = rw h refl

  distinct-first :
      (s : String) (ss ts : List String)
      → seen s ts ≡ false
      → distinct f (s ∷ ss) ts ≡ s ∷ distinct f ss (s ∷ ts)
  unfolding distinct
  distinct-first s ss ts h = rw h refl

  distinct-new : (ss ts : List String) (s : String) → IsIn s (distinct f ss ts) → IsIn s ts → ⊥
  unfolding distinct
  distinct-new [] ts s is old = is
  distinct-new (t ∷ ss) ts s is old = elim (Bool-cases (seen t ts)) [
    | inl again ↦ distinct-new ss ts s (subst (IsIn s) (distinct-again t ss ts again) is) old
    | inr first ↦ elim (subst (IsIn s) (distinct-first t ss ts first) is) [
      | inl same ↦ unseen-IsIn t ts first (subst (λ x. IsIn x ts) (sym same) old)
      | inr later ↦ distinct-new ss (t ∷ ts) s later (inr old)
    ]
  ]

  distinct-all :
      (ss ts : List String) (s : String) → IsIn s ss → IsIn s (distinct f ss ts) ⊎ IsIn s ts
  distinct-all [] ts s is = absurd is
  distinct-all (t ∷ ss) ts s is = elim (Bool-cases (seen t ts)) [
    | inl again ↦
        let back = λ (here : IsIn s (distinct f ss ts)).
          subst (IsIn s) (sym (distinct-again t ss ts again)) here in
        elim is [
          | inl same ↦ inr (subst (λ x. IsIn x ts) same (seen-IsIn t ts again))
          | inr later ↦ elim (distinct-all ss ts s later) [
            | inl here ↦ inl (back here)
            | inr old ↦ inr old
          ]
        ]
    | inr first ↦
        let back = λ (here : IsIn s (t ∷ distinct f ss (t ∷ ts))).
          subst (IsIn s) (sym (distinct-first t ss ts first)) here in
        elim is [
          | inl same ↦ inl (back (inl same))
          | inr later ↦ elim (distinct-all ss (t ∷ ts) s later) [
            | inl here ↦ inl (back (inr here))
            | inr (inl same) ↦ inl (back (inl same))
            | inr (inr old) ↦ inr old
          ]
        ]
  ]

  distinct-AreDistinct : (ss ts : List String) → AreDistinct (distinct f ss ts)
  unfolding distinct
  distinct-AreDistinct [] ts = tt
  distinct-AreDistinct (t ∷ ss) ts = elim (Bool-cases (seen t ts)) [
    | inl again ↦
        subst AreDistinct (sym (distinct-again t ss ts again)) (distinct-AreDistinct ss ts)
    | inr first ↦
        subst AreDistinct (sym (distinct-first t ss ts first))
          ((λ is. distinct-new ss (t ∷ ts) t is (inl refl)), distinct-AreDistinct ss (t ∷ ts))
  ]

  distinct-IsSublist : (ss ts : List String) → IsSublist (distinct f ss ts) ss
  unfolding distinct
  distinct-IsSublist [] ts = nothing
  distinct-IsSublist (t ∷ ss) ts = elim (Bool-cases (seen t ts)) [
    | inl again ↦
        subst (λ xs. IsSublist xs (t ∷ ss)) (sym (distinct-again t ss ts again))
          (skip t (distinct-IsSublist ss ts))
    | inr first ↦
        subst (λ xs. IsSublist xs (t ∷ ss)) (sym (distinct-first t ss ts first))
          (keep t (distinct-IsSublist ss (t ∷ ts)))
  ]

  -- The mappings are those that the flags parse to, one flag after the other.
  abbrev pub AreParsed : List String → List f.PortMapping → Type 0
  AreParsed [] ports = ports ≡ []
  AreParsed (s ∷ ss) ports =
      (parsed : List f.PortMapping) × (rest : List f.PortMapping) × (f.parse_flag_p s ≡ ok parsed)
      × AreParsed ss rest
      × (ports ≡ parsed ⧺ rest)

  ports-inj : {x y : List f.PortMapping} → Result.ok x ≡ ok y → x ≡ y
  ports-inj h = cc h

  error-inj : {x y : GoError} → ◌≡◌ {A = Result (List f.PortMapping)} (err x) (err y) → x ≡ y
  error-inj h = cc h

  parse_all-AreParsed :
      (ss : List String) (ports : List f.PortMapping)
      → parse_all f ss ≡ ok ports
      → AreParsed ss ports
  unfolding parse_all
  parse_all-AreParsed [] ports h = sym (ports-inj h)
  parse_all-AreParsed (s ∷ ss) ports h = elim (Result-cases (f.parse_flag_p s)) [
    | inr (e, failed) ↦ absurd (ground arith)
    | inl (parsed, good) ↦ elim (Result-cases (parse_all f ss)) [
      | inr (e, failed) ↦ absurd (ground arith)
      | inl (rest, fine) ↦
          (parsed, rest, good, parse_all-AreParsed ss rest fine, sym (ports-inj (ground arith)))
    ]
  ]

  -- The error is that of a flag of the list that does not parse.
  abbrev pub IsParseError : List String → GoError → Type 0
  IsParseError flags e =
      (s : String) × (cause : GoError) × IsIn s flags
      × (f.parse_flag_p s ≡ err cause)
      × (e ≡ wrap ("failed to parse port mapping \"" ++ (s ++ "\": ")) cause "")

  parse_all-IsParseError :
      (ss : List String) (e : GoError) → parse_all f ss ≡ err e → IsParseError ss e
  unfolding parse_all
  parse_all-IsParseError [] e h = absurd (cc h)
  parse_all-IsParseError (s ∷ ss) e h = elim (Result-cases (f.parse_flag_p s)) [
    | inr (cause, failed) ↦ (s, cause, inl refl, failed, sym (error-inj (ground arith)))
    | inl (parsed, good) ↦ elim (Result-cases (parse_all f ss)) [
      | inl (rest, fine) ↦ absurd (ground arith)
      | inr (d, failed) ↦
          let (t, cause, is, bad, text_) = parse_all-IsParseError ss e (ground arith) in
          (t, cause, inr is, bad, text_)
    ]
  ]

  IsIn-sublist : (s : String) {ss ts : List String} → IsSublist ss ts → IsIn s ss → IsIn s ts
  IsIn-sublist s nothing is = is
  IsIn-sublist s (skip t sub) is = inr (IsIn-sublist s sub is)
  IsIn-sublist s (keep t sub) (inl same) = inl same
  IsIn-sublist s (keep t sub) (inr later) = inr (IsIn-sublist s sub later)

  abbrev pub request_flags : Map (List PortBinding) → List String
  request_flags m = map (flag f) (port_pairs f m)

  -- What is known of the result of a translation.
  abbrev pub IsTranslated : Map (List PortBinding) → Result (List f.PortMapping) → Type 0
  IsTranslated m (ok ports) =
      (flags : List String) × AreDistinct flags
      × IsSublist flags (request_flags m)
      × ((s : String) → IsIn s (request_flags m) → IsIn s flags)
      × AreParsed flags ports
  IsTranslated m (err e) = IsParseError (request_flags m) e

  parsed-IsTranslated :
      (m : Map (List PortBinding)) (r : Result (List f.PortMapping))
      → parse_all f (distinct f (request_flags m) []) ≡ r
      → IsTranslated m r
  parsed-IsTranslated m (ok ports) h =
      let all = request_flags m in
      (
        distinct f all [],
        distinct-AreDistinct all [],
        distinct-IsSublist all [],
        λ s is. elim (distinct-all all [] s is) [ inl here ↦ here | inr old ↦ absurd old ],
        parse_all-AreParsed (distinct f all []) ports h,
      )
  parsed-IsTranslated m (err e) h =
      let all = request_flags m in
      let (s, cause, is, bad, text_) = parse_all-IsParseError (distinct f all []) e h in
      (s, cause, IsIn-sublist s (distinct-IsSublist all []) is, bad, text_)

  -- A translation that succeeds has a list of flags, no two equal, which are the flags of the
  -- request's bindings, each of them and in their order, and its mappings are those that these flags
  -- parse to. One that fails has the error of a flag of the request that does not parse.
  pub translate_port_mappings-IsTranslated :
      (m : Map (List PortBinding)) → IsTranslated m (translate_port_mappings f m)
  unfolding translate_port_mappings
  translate_port_mappings-IsTranslated m =
      parsed-IsTranslated m (translate_port_mappings f m)
        (sym (translate_pairs-eq f (port_pairs f m) []))

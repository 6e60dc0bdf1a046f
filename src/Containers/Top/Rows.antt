-- ===== src/Containers/Top/Rows.antt =====
-- What the rows of the answer are, where no two titles are equal.
use finch_daemon.Prelude.{
  String, ◌≡◌, refl, sym, ap, ◌∙◌, false, none, List, [], ◌∷◌, map, ◌==◌, eq_iff, Bool-cases, inl,
  inr,
}
use finch_daemon.Act.{Result, ok}
use finch_daemon.Go.Maps.{Map, lookup, insert, lookup-same, lookup-other}
use finch_daemon.Go.Strings.{trim_space, fields, nonempty}
use finch_daemon.Containers.Top.{
  command_index, values, assign, row, process_of, with_titles, parse_top_output,
}

abbrev Differs : String → List String → Type 0
Differs t [] = Unit {0}
Differs t (u ∷ us) = ((t == u) ≡ false) × Differs t us

-- No title is equal to a later one.
abbrev pub AreDistinct : List String → Type 0
AreDistinct [] = Unit {0}
AreDistinct (t ∷ ts) = Differs t ts × AreDistinct ts

abbrev AreAbsent : List String → Map String → Type 0
AreAbsent [] m = Unit {0}
AreAbsent (t ∷ ts) m = (lookup t m ≡ none) × AreAbsent ts m

-- A value for each title: those of the line, cut or filled with empty ones.
unfoldable pub padded : List String → List String → List String
padded [] vs = []
padded (t ∷ ts) [] = "" ∷ padded ts []
padded (t ∷ ts) (v ∷ vs) = v ∷ padded ts vs

flipped : (t u : String) → (t == u) ≡ false → (u == t) ≡ false
flipped t u h = elim (Bool-cases (u == t)) [
  | inr no_ ↦ no_
  | inl same ↦ absurd (cc (sym h ∙ (eq_iff t u).1 (sym ((eq_iff u t).0 same))))
]

absent-insert :
    (ts : List String) (t v : String) (m : Map String)
    → Differs t ts
    → AreAbsent ts m
    → AreAbsent ts (insert t v m)
absent-insert [] t v m apart absent = tt
absent-insert (u ∷ ts) t v m (other, apart) (none_, absent) =
    (lookup-other t u v m other ∙ none_, absent-insert ts t v m apart absent)

lookup-assign :
    (ts vs : List String) (t : String) (m : Map String)
    → Differs t ts
    → lookup t (assign ts vs m) ≡ lookup t m
unfolding assign
lookup-assign [] vs t m apart = refl
lookup-assign (u ∷ ts) [] t m apart = refl
lookup-assign (u ∷ ts) (v ∷ vs) t m (other, apart) =
    lookup-assign ts vs t (insert u v m) apart ∙ lookup-other u t v m (flipped t u other)

row-absent : (ts : List String) (m : Map String) → AreAbsent ts m → row ts m ≡ padded ts []
unfolding row padded
row-absent [] m absent = refl
row-absent (t ∷ ts) m (none_, absent) = rw (none_, row-absent ts m absent) refl

row-assign :
    (ts vs : List String) (m : Map String)
    → AreDistinct ts
    → AreAbsent ts m
    → row ts (assign ts vs m) ≡ padded ts vs
unfolding row padded assign
row-assign [] vs m distinct absent = refl
row-assign (t ∷ ts) [] m distinct absent = row-absent (t ∷ ts) m absent
row-assign (t ∷ ts) (v ∷ vs) m (apart, distinct) (none_, absent) =
    rw
      (
        lookup-assign ts vs t (insert t v m) apart,
        lookup-same t v m,
        row-assign ts vs (insert t v m) distinct (absent-insert ts t v m apart absent),
      )
      refl

-- The values of a line under the titles.
unfoldable pub padded_process : List String → String → List String
unfolding padded
padded_process titles line = padded titles (values (command_index titles) (fields line))

absent-empty : (ts : List String) → AreAbsent ts []
unfolding lookup
absent-empty [] = tt
absent-empty (t ∷ ts) = (refl, absent-empty ts)

process_of-padded :
    (titles : List String) (lines : List String)
    → AreDistinct titles
    → map (process_of titles) lines ≡ map (padded_process titles) lines
unfolding process_of padded_process
process_of-padded titles [] distinct = refl
process_of-padded titles (l ∷ lines) distinct =
    rw
      (
        row-assign titles (values (command_index titles) (fields l)) [] distinct
            (absent-empty titles),
        process_of-padded titles lines distinct,
      )
      refl

pair-inj :
    {ts us : List String} {ps qs : List (List String)}
    → ◌≡◌ {A = Result (List String × List (List String))} (ok (ts, ps)) (ok (us, qs))
    → (ts ≡ us) × (ps ≡ qs)
pair-inj h = (cc h, cc h)

with_titles-eq-ok :
    (ts lines titles : List String) (processes : List (List String))
    → with_titles ts lines ≡ ok (titles, processes)
    → AreDistinct titles
    → (titles ≡ ts) × (processes ≡ map (padded_process titles) (nonempty (map trim_space lines)))
with_titles-eq-ok [] lines titles processes h distinct = absurd (cc h)
with_titles-eq-ok (t ∷ ts) lines titles processes h distinct =
    let (same, rows) = pair-inj h in
    let all = nonempty (map trim_space lines) in
    (
      sym same,
      sym rows ∙ ap (λ us. map (process_of us) all) same ∙ process_of-padded titles all distinct,
    )

-- Where no two titles are equal, parsing gives the fields of the first line as titles, and for each
-- further line that is not blank a row with a value for each title: the fields of the line in order,
-- those from the first title of a command on joined to one, cut or filled with empty values.
pub parse_top_output-padded :
    (header second : String) (lines titles : List String) (processes : List (List String))
    → parse_top_output (header ∷ second ∷ lines) ≡ ok (titles, processes)
    → AreDistinct titles
    → (titles ≡ fields header)
      × (processes ≡ map (padded_process titles) (nonempty (map trim_space (second ∷ lines))))
unfolding parse_top_output
parse_top_output-padded header second lines titles processes h distinct =
    with_titles-eq-ok (fields header) (second ∷ lines) titles processes h distinct

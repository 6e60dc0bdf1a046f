-- ===== src/Containers/Create/Volumes.antt =====
-- The volumes of a create (api/handlers/container/create.go).
use finch_daemon.Prelude.{
  String, ◌≡◌, refl, sym, subst, ap, ◌∙◌, inl, inr, Bool, true, false, ◌||◌, List, [], ◌∷◌, ◌++◌,
  All, All-append, ◌==◌, eq_refl, if◌then◌else◌, arith, Bool-cases,
}
use mathlib.Core.List.{append_assoc, append-nil}
use finch_daemon.Go.Strings.{split}

-- len(bindOpts) > 1 && newVolume == bindOpts[1]
abbrev is_target : String → List String → Bool
is_target v [] = false
is_target v (host ∷ []) = false
is_target v (host ∷ target ∷ opts) = v == target

-- The bind or volume maps something to the place of the new volume.
unfoldable pub maps_to : String → String → Bool
unfolding split
maps_to v volume = is_target v (split b':' volume) || v == volume

-- The inner loop
unfoldable pub contained : String → List String → Bool
unfolding maps_to
contained v [] = false
contained v (volume ∷ volumes) = maps_to v volume || contained v volumes

-- The outer loop
unfoldable pub add_volumes : List String → List String → List String
unfolding contained
add_volumes [] volumes = volumes
add_volumes (v ∷ vs) volumes =
    add_volumes vs (if contained v volumes then volumes else volumes ++ v ∷ [])

contained-append :
    (v : String) (xs ys : List String) → contained v (xs ++ ys) ≡ (contained v xs || contained v ys)
unfolding contained
contained-append v [] ys = refl
contained-append v (x ∷ xs) ys = ground (arith, contained-append v xs ys)

-- One round adds the volume or leaves the list, and the list then has it.
round :
    (v : String) (volumes : List String)
    → (added : List String) × ((if contained v volumes then volumes else volumes ++ v ∷ [])
        ≡ volumes ++ added)
      × All (λ a. contained a volumes ≡ false) added
      × (contained v (volumes ++ added) ≡ true)
unfolding contained maps_to
round v volumes = elim (Bool-cases (contained v volumes)) [
  | inl yes_ ↦ ([], rw (yes_, append-nil volumes) refl, tt, rw (append-nil volumes) yes_)
  | inr no_ ↦ (
    v ∷ [],
    rw no_ refl,
    (no_, tt),
    ground (arith, contained-append v volumes (v ∷ []), eq_refl v),
  )
]

contained-left :
    (v : String) (xs ys : List String) → contained v (xs ++ ys) ≡ false → contained v xs ≡ false
contained-left v xs ys h = ground (arith, contained-append v xs ys)

contained-more :
    (v : String) (xs ys : List String) → contained v xs ≡ true → contained v (xs ++ ys) ≡ true
contained-more v xs ys h = ground (arith, contained-append v xs ys)

All-weaken :
    (xs ys zs : List String)
    → All (λ a. contained a (xs ++ ys) ≡ false) zs
    → All (λ a. contained a xs ≡ false) zs
All-weaken xs ys [] h = tt
All-weaken xs ys (z ∷ zs) (p, h) = (contained-left z xs ys p, All-weaken xs ys zs h)

-- The volumes that nerdctl gets are the binds, unchanged and first, then volumes that no bind maps
-- to; each volume of the request is mapped to by one of them all.
pub add_volumes_lem :
    (vs volumes : List String)
    → (added : List String) × (add_volumes vs volumes ≡ volumes ++ added)
      × All (λ a. contained a volumes ≡ false) added
      × All (λ v. contained v (volumes ++ added) ≡ true) vs
unfolding add_volumes
add_volumes_lem [] volumes = ([], sym (append-nil volumes), tt, tt)
add_volumes_lem (v ∷ vs) volumes =
    let (here, step, fresh_here, has_v) = round v volumes in
    let (later, rest, fresh_later, has_vs) = add_volumes_lem vs (volumes ++ here) in
    let assoc = append_assoc volumes here later in
    (
      here ++ later,
      ap (add_volumes vs) step ∙ rest ∙ assoc,
      All-append (λ a. contained a volumes ≡ false) here later fresh_here
          (All-weaken volumes here later fresh_later),
      (
        subst (λ xs. contained v xs ≡ true) assoc (contained-more v (volumes ++ here) later has_v),
        subst (λ xs. All (λ u. contained u xs ≡ true) vs) assoc has_vs,
      ),
    )

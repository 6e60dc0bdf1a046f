-- ===== src/Images/Removal.antt =====
-- What a removal that succeeds has removed (internal/service/image/remove.go).
use finch_daemon.Prelude.{
  ℕ, zero, suc, ◌≤◌, ◌≡◌, ◌⊎◌, refl, nat_eq, nat_eq_iff, sym, subst, ap, ◌∙◌, inl, inr, Bool-cases,
  String, Bool, true, false, ◌||◌, ◌&&◌, not, Option, none, some, List, [], ◌∷◌, ◌++◌, map, All,
  arith, ◌==◌, eq_refl,
}
use mathlib.Core.List.{append_assoc, append-nil}
use finch_daemon.Act.{Result, ok, err, Result-cases}
use finch_daemon.Go.Maps.{Map, lookup, insert, lookup-insert}
use finch_daemon.Containers.Backend.{Container}
use finch_daemon.Images.Backend.{
  Image, ImageBackend, Used, in_use, note_use, note_uses, get_used_images,
}
use finch_daemon.Images.Service.{
  name_digest, check_uses, check_count, delete_images, remove, unused,
}

abbrev is_some : Option String → Bool
is_some none = false
is_some (some v) = true

unfoldable pub has : String → Map String → Bool
unfolding lookup
has k m = is_some (lookup k m)

has-insert : (k j v : String) (m : Map String) → has j (insert k v m) ≡ (k == j || has j m)
unfolding has
has-insert k j v m = rw (lookup-insert k j v m) (ground arith)

apart : {x : Bool} → x ≡ true → x ≡ false → ⊥
apart yes_ no_ = absurd (ground arith)

the_ok : {A : Type 0} {x y : A} → Result.ok x ≡ ok y → x ≡ y
the_ok h = cc h

module _ {W P R I : Type 0} (b : ImageBackend W P R I) (w : W) where
  -- The container keeps its image from being removed: it runs or is paused, or no force is used.
  abbrev pub blocks : Bool → Container → Bool
  blocks force c = in_use (b.container_status c w) || not force

  abbrev noted : String → Bool → Used → Bool
  noted n force used = has n used.running || (not force && has n used.stopped)

  note_use-keeps :
      (n : String) (force : Bool) (c : Container) (image : Result String) (used : Used)
      → noted n force used ≡ true
      → noted n force (note_use b c w image used) ≡ true
  unfolding note_use
  note_use-keeps n force c (err e) used h = h
  note_use-keeps n force c (ok m) used h =
      ground (arith, has-insert m n c.id used.running, has-insert m n c.id used.stopped)

  note_use-notes :
      (n : String) (force : Bool) (c : Container) (used : Used)
      → blocks force c ≡ true
      → noted n force (note_use b c w (ok n) used) ≡ true
  unfolding note_use
  note_use-notes n force c used h =
      ground (arith, has-insert n n c.id used.running, has-insert n n c.id used.stopped, eq_refl n)

  note_uses-keeps :
      (n : String) (force : Bool) (cs : List Container) (used : Used)
      → noted n force used ≡ true
      → noted n force (note_uses b cs w used) ≡ true
  unfolding note_uses
  note_uses-keeps n force [] used h = h
  note_uses-keeps n force (c ∷ cs) used h =
      note_uses-keeps n force cs (note_use b c w (b.container_image c w) used)
        (note_use-keeps n force c (b.container_image c w) used h)

  -- The container uses the image and keeps it.
  abbrev pub Keeps : Bool → String → Container → Type 0
  Keeps force n c = (b.container_image c w ≡ ok n) × (blocks force c ≡ true)

  note_uses-notes :
      (n : String) (force : Bool) (cs : List Container) (used : Used)
      → noted n force (note_uses b cs w used) ≡ false
      → All (λ c. ¬ Keeps force n c) cs
  unfolding note_uses
  note_uses-notes n force [] used h = tt
  note_uses-notes n force (c ∷ cs) used h =
      let noted_here = λ (r : Result String). noted n force (note_use b c w r used) ≡ true in
      (
        λ (uses, blocked).
            apart
              (note_uses-keeps n force cs (note_use b c w (b.container_image c w) used)
                (subst noted_here (sym uses) (note_use-notes n force c used blocked)))
              h,
        note_uses-notes n force cs (note_use b c w (b.container_image c w) used) h,
      )

  check_uses-unused :
      (name : String) (force : Bool) (used : Used) (imgs : List Image)
      → check_uses name force used imgs ≡ ok tt
      → All (λ img. noted img.name force used ≡ false) imgs
  unfolding check_uses has
  check_uses-unused name force used [] h = tt
  check_uses-unused name force used (img ∷ imgs) h =
      (ground arith, check_uses-unused name force used imgs (ground arith))

  All-map :
      {A : Type 0} {P Q : A → Type 0} (f : (a : A) → P a → Q a) (xs : List A) → All P xs → All Q xs
  All-map f [] h = tt
  All-map f (x ∷ xs) (p, h) = (f x p, All-map f xs h)

  -- No container that keeps an image uses one of these.
  abbrev pub Unused : Bool → List Container → List Image → Type 0
  Unused force cs imgs = All (λ img. All (λ c. ¬ Keeps force img.name c) cs) imgs

  delete_images-names :
      (imgs : List Image) (deleted untagged : List String) (v : W) (r : List String × List String)
      → (delete_images b imgs deleted untagged v).0 ≡ ok r
      → r.0 ≡ untagged ++ map name_digest imgs
  unfolding delete_images
  delete_images-names [] deleted untagged v r h =
      sym (ap (λ p. p.0) (the_ok h)) ∙ sym (append-nil untagged)
  delete_images-names (img ∷ imgs) deleted untagged v r h =
      elim (Result-cases (b.delete_image img.name v).0) [
        | inr (e, failed) ↦ absurd (ground arith)
        | inl (t, done) ↦
            delete_images-names imgs (deleted ++ b.get_image_digests img v)
              (untagged ++ name_digest img ∷ []) (b.delete_image img.name v).1 r (ground arith)
            ∙ append_assoc untagged (name_digest img ∷ []) (map name_digest imgs)
      ]

  -- Each image is deleted, in order, from the world `v` to the world `v'`.
  abbrev pub Deletes : List Image → W → W → Type 0
  Deletes [] v v' = v ≡ v'
  Deletes (img ∷ imgs) v v' =
      ((b.delete_image img.name v).0 ≡ ok tt) × Deletes imgs (b.delete_image img.name v).1 v'

  -- The digests of the images, each read before the image is deleted.
  unfoldable pub digests : List Image → W → List String
  digests [] v = []
  digests (img ∷ imgs) v = b.get_image_digests img v ++ digests imgs (b.delete_image img.name v).1

  delete_images-Deletes :
      (imgs : List Image) (deleted untagged : List String) (v v' : W)
      (r : List String × List String)
      → (delete_images b imgs deleted untagged v).0 ≡ ok r
      → (delete_images b imgs deleted untagged v).1 ≡ v'
      → Deletes imgs v v'
  unfolding delete_images
  delete_images-Deletes [] deleted untagged v v' r h at = at
  delete_images-Deletes (img ∷ imgs) deleted untagged v v' r h at =
      elim (Result-cases (b.delete_image img.name v).0) [
        | inr (e, failed) ↦ absurd (ground arith)
        | inl (tt, done) ↦ (
          done,
          delete_images-Deletes imgs (deleted ++ b.get_image_digests img v)
              (untagged ++ name_digest img ∷ []) (b.delete_image img.name v).1 v' r (ground arith)
              (ground arith),
        )
      ]

  delete_images-digests :
      (imgs : List Image) (deleted untagged : List String) (v : W) (r : List String × List String)
      → (delete_images b imgs deleted untagged v).0 ≡ ok r
      → r.1 ≡ deleted ++ digests imgs v
  unfolding delete_images digests
  delete_images-digests [] deleted untagged v r h =
      sym (ap (λ p. p.1) (the_ok h)) ∙ sym (append-nil deleted)
  delete_images-digests (img ∷ imgs) deleted untagged v r h =
      elim (Result-cases (b.delete_image img.name v).0) [
        | inr (e, failed) ↦ absurd (ground arith)
        | inl (t, done) ↦
            let after = (b.delete_image img.name v).1 in
            delete_images-digests imgs (deleted ++ b.get_image_digests img v)
              (untagged ++ name_digest img ∷ []) after r (ground arith)
            ∙ append_assoc deleted (b.get_image_digests img v) (digests imgs after)
      ]

  -- One image was found; with force also several, if they are one image under several names.
  abbrev pub IsCounted : Bool → ℕ → ℕ → Type 0
  IsCounted force match_count unique_count =
      (match_count ≡ 1) ⊎ ((2 ≤ match_count) × (force ≡ true) × (unique_count ≡ 1))

  check_count-IsCounted :
      (name : String) (force : Bool) (match_count unique_count : ℕ)
      → check_count name force match_count unique_count ≡ ok tt
      → IsCounted force match_count unique_count
  unfolding check_count
  check_count-IsCounted name force zero unique_count h = absurd (ground arith)
  check_count-IsCounted name force (suc zero) unique_count h = inl refl
  check_count-IsCounted name force (suc (suc n)) unique_count h =
      elim (Bool-cases (nat_eq unique_count 1)) [
        | inl one ↦ inr (omega arith, ground arith, (nat_eq_iff unique_count 1).0 one)
        | inr other ↦ absurd (ground arith)
      ]

  -- What is known of the images that were removed, in the pair `r` and the world `v'` that is left.
  abbrev pub IsRemoval : String → Bool → List String × List String → W → List Image → Type 0
  IsRemoval name force r v' imgs =
      (match_count : ℕ) × (unique_count : ℕ) × (cs : List Container) × (b.search_image name w
        ≡ ok (match_count, unique_count, imgs))
      × IsCounted force match_count unique_count
      × (b.containers w ≡ ok cs)
      × Unused force cs imgs
      × Deletes imgs w v'
      × (r.0 ≡ map name_digest imgs)
      × (r.1 ≡ digests imgs w)

  unused-IsRemoval :
      (name : String) (force : Bool) (imgs : List Image) (r : List String × List String) (v' : W)
      → (unused b name force imgs w).0 ≡ ok r
      → (unused b name force imgs w).1 ≡ v'
      → (cs : List Container) × (b.containers w ≡ ok cs)
        × Unused force cs imgs
        × Deletes imgs w v'
        × (r.0 ≡ map name_digest imgs)
        × (r.1 ≡ digests imgs w)
  unfolding get_used_images
  unused-IsRemoval name force imgs r v' h at = elim (Result-cases (b.containers w)) [
    | inr (e, failed) ↦ absurd (ground arith)
    | inl (cs, listed) ↦
        let nothing : Used = record { stopped = []; running = [] } in
        let used = note_uses b cs w nothing in
        elim (Result-cases (check_uses name force used imgs)) [
          | inr (e, failed) ↦ absurd (ground arith)
          | inl (t, checked) ↦
              let unused_ = λ (img : Image) (none_ : noted img.name force used ≡ false).
                note_uses-notes img.name force cs nothing none_ in
              (
                cs,
                listed,
                All-map unused_ imgs (check_uses-unused name force used imgs checked),
                delete_images-Deletes imgs [] [] w v' r (ground arith) (ground arith),
                delete_images-names imgs [] [] w r (ground arith),
                delete_images-digests imgs [] [] w r (ground arith),
              )
        ]
  ]

  -- A removal that succeeds has deleted the images that the search found, one after the other and
  -- each with success, and nothing else was done; no container used one of them that was running or
  -- paused, and without force, none used one of them at all. The search found one match, or, with
  -- force, several matches that it counts as one image.
  pub remove-IsRemoval :
      (name : String) (force : Bool) (r : List String × List String)
      → (remove b name force w).0 ≡ ok r
      → (imgs : List Image) × IsRemoval name force r (remove b name force w).1 imgs
  unfolding remove
  remove-IsRemoval name force r h = elim (Result-cases (b.search_image name w)) [
    | inr (e, failed) ↦ absurd (ground arith)
    | inl ((match_count, unique_count, imgs), found) ↦
        elim (Result-cases (check_count name force match_count unique_count)) [
          | inr (e, failed) ↦ absurd (ground arith)
          | inl (t, fine) ↦
              let (cs, listed, none_, deletes, names, digests_) =
                unused-IsRemoval name force imgs r (remove b name force w).1 (ground arith)
                  (ground arith) in
              (
                imgs,
                (
                  match_count,
                  unique_count,
                  cs,
                  found,
                  check_count-IsCounted name force match_count unique_count fine,
                  listed,
                  none_,
                  deletes,
                  names,
                  digests_,
                ),
              )
        ]
  ]

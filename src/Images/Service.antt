-- ===== src/Images/Service.antt =====
-- internal/service/image: the lookup, inspect, export, remove and tag.
use Prim.Native.String.{◌++◌}
use finch_daemon.Prelude.{
  ℕ, String, Bool, true, false, ◌&&◌, not, Option, none, some, List, [], ◌∷◌, ◌==◌, ltb, nat_eq,
  if◌then◌else◌, ◌++◌ as ◌⧺◌,
}
use finch_daemon.Errors.{GoError, plain, wrap, new_not_found, new_conflict}
use finch_daemon.Act.{Result, ok, err, Act, pure, fail, reads, ◌>>=◌, ◌>>◌}
use finch_daemon.Go.Maps.{lookup}
use finch_daemon.Go.Strings.{is_empty}
use finch_daemon.Builder.Service.{Event}
use finch_daemon.Images.Backend.{Image, ImageBackend, Used, get_used_images}

abbrev no_such_image : String → GoError
no_such_image name = new_not_found (plain ("no such image: " ++ name))

-- The loop over the digests of several images; `observed` is observedDigest.
unfoldable pub same_digests : String → List Image → Bool
same_digests observed [] = true
same_digests observed (img ∷ imgs) =
    let first = same_digests img.digest imgs in
    let rest = same_digests observed imgs in
    if is_empty observed then first else if observed == img.digest then rest else false

abbrev choose : String → List Image → Result Image
choose name [] = err (no_such_image name)
choose name (img ∷ []) = ok img
choose name (img ∷ other ∷ imgs) =
    if same_digests "" (img ∷ other ∷ imgs)
    then ok img
    else err (plain ("multiple images with different digests found for " ++ name))

abbrev chosen : String → Result (List Image) → Result Image
chosen name (err e) = err e
chosen name (ok imgs) = choose name imgs

-- The loop over the images that tests who uses them.
abbrev running_use : String → String → GoError
running_use name cid = new_conflict (
    plain (
      "unable to delete "
      ++ (name ++ (" (cannot be forced) - image is being used by running container " ++ cid))))

abbrev stopped_use : String → String → GoError
stopped_use name cid = new_conflict (
    plain (
      "unable to delete "
      ++ (name ++ (" (must be forced) - image is being used by stopped container " ++ cid))))

abbrev check_stopped : String → Bool → Option String → Result (Unit {0}) → Result (Unit {0})
check_stopped name force none rest = rest
check_stopped name force (some cid) rest = if force then rest else err (stopped_use name cid)

abbrev pub check_use :
    String → Bool → Option String → Option String → Result (Unit {0}) → Result (Unit {0})
check_use name force (some cid) stopped rest = err (running_use name cid)
check_use name force none stopped rest = check_stopped name force stopped rest

unfoldable pub check_uses : String → Bool → Used → List Image → Result (Unit {0})
unfolding lookup
check_uses name force used [] = ok tt
check_uses name force used (img ∷ imgs) =
    check_use name force (lookup img.name used.running) (lookup img.name used.stopped)
      (check_uses name force used imgs)

-- The guards of Remove on the counts.
unfoldable pub check_count : String → Bool → ℕ → ℕ → Result (Unit {0})
check_count name force match_count unique_count =
    if nat_eq match_count 0
    then err (no_such_image name)
    else if ltb 1 match_count && not (force && nat_eq unique_count 1)
    then err (
        new_conflict (
          plain (
            "unable to delete "
            ++ (name ++ " (must be forced) - image is referenced in multiple repositories"))))
    else ok tt

-- fmt.Sprintf("%s:%s", img.Name, img.Target.Digest)
abbrev pub name_digest : Image → String
name_digest img = img.name ++ (":" ++ img.digest)

module _ {W P R I : Type 0} (b : ImageBackend W P R I) where
  -- getImage
  unfoldable pub get_image : String → Act W Image
  unfolding same_digests
  get_image name = reads (λ w. chosen name (b.search_images name w))

  -- Inspect
  unfoldable pub inspect : String → Act W I
  unfolding get_image
  inspect name = do
    img ← get_image name
    image ← reads (b.inspect_image img)
    pure (b.set_id img.digest image)

  -- Export
  unfoldable pub export_ : String → Option P → Act W (Unit {0})
  unfolding get_image
  export_ name platform = do img ← get_image name; b.export_image (img.name ∷ []) platform

  -- The loop that deletes, with what it has gathered: `deleted` and `untagged`.
  unfoldable pub delete_images :
      List Image → List String → List String → Act W (List String × List String)
  delete_images [] deleted untagged w = (ok (untagged, deleted), w)
  delete_images (img ∷ imgs) deleted untagged w =
      (b.delete_image img.name
          >> delete_images imgs (deleted ⧺ b.get_image_digests img w)
              (untagged ⧺ name_digest img ∷ []))
        w

  abbrev pub unused : String → Bool → List Image → Act W (List String × List String)
  unused name force imgs = do
    used ← reads (get_used_images b)
    reads (λ w. check_uses name force used imgs)
    delete_images imgs [] []

  abbrev pub counted : String → Bool → ℕ × ℕ × List Image → Act W (List String × List String)
  counted name force (match_count, unique_count, imgs) = do
    reads (λ w. check_count name force match_count unique_count)
    unused name force imgs

  -- Remove; the pair is what it returns, in the order of the return statement
  unfoldable pub remove : String → Bool → Act W (List String × List String)
  unfolding check_count check_uses delete_images
  remove name force = do found ← reads (b.search_image name); counted name force found

  abbrev first_name : List String → String
  first_name [] = ""
  first_name (name ∷ names) = if is_empty name then first_name names else name

  abbrev walked : String → Result (ℕ × List String) → Result String
  walked name (err e) = err (wrap "err from image walker: " e "")
  walked name (ok (match_count, names)) =
      if nat_eq match_count 0 then err (no_such_image name) else ok (first_name names)

  -- getFullImageName
  unfoldable pub get_full_image_name : String → Act W String
  get_full_image_name name = reads (λ w. walked name (b.walk name w))

  abbrev target_error : Result String → Result String
  target_error (ok target) = ok target
  target_error (err e) = err (wrap "target parse error: " e "")

  -- The creation of the new name, with what happens if it is taken.
  abbrev replaced : Image → Result (Unit {0}) → Act W (Unit {0})
  replaced image (ok u) = pure tt
  replaced image (err e) =
      if b.is_already_exists e then b.delete image.name >> b.create image else fail e

  unfoldable pub create_or_replace : Image → Act W (Unit {0})
  create_or_replace image w = replaced image (b.create image w).0 (b.create image w).1

  abbrev tag_topic : String
  tag_topic = "/dockercompat/image/tag"

  -- getTagEvent
  unfoldable pub get_tag_event : String → String → Event
  get_tag_event digest img_name = record {
    id = digest;
    status = "tag";
    kind = "image";
    action = "tag";
    actor_id = digest;
    name = img_name;
  }

  -- Tag
  unfoldable pub tag : String → String → String → Act W (Unit {0})
  unfolding get_full_image_name create_or_replace get_tag_event
  tag src_img repo tag_ = do
    src_img_name ← get_full_image_name src_img
    image ← reads (b.get src_img_name)
    target ← reads (λ w. target_error (b.parse_reference (repo ++ (":" ++ tag_))))
    create_or_replace (record image { name = target })
    b.publish_event tag_topic (get_tag_event image.digest (repo ++ (":" ++ tag_)))

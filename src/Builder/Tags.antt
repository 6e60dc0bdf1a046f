-- ===== src/Builder/Tags.antt =====
-- What the results of a build are (internal/service/builder/build.go).
use Prim.Native.String.{◌++◌}
use finch_daemon.Prelude.{
  ℕ, ◌≡◌, refl, sym, ap, subst, ◌∙◌, inl, inr, String, Option, List, [], ◌∷◌, arith, nat_eq,
  nat_eq_iff, Bool-cases,
}
use finch_daemon.Errors.{GoError}
use finch_daemon.Act.{Result, ok, and_then, Result-cases}
use finch_daemon.Http.{Writer}
use finch_daemon.Http.Stream.{StreamResponse}
use finch_daemon.Builder.Options.{BuildOptions}
use finch_daemon.Builder.Service.{
  BuildState, Event, Tools, truncate_id, get_tag_event, with_images, publish_tag_event,
  publish_tags, publish, tag_topic, report, tags_of, build, build_extracted,
}

module _ {A W G T B : Type 0}
    (encode_error : StreamResponse → Writer StreamResponse → Option GoError)
    (tools : Tools A W G T B) where
  the_ok : {X : Type 0} {a b : X} → Result.ok a ≡ ok b → a ≡ b
  the_ok h = ground arith

  pair-eq : {X Y : Type 0} {a b : X} {c d : Y} → a ≡ b → c ≡ d → ◌≡◌ {A = X × Y} (a, c) (b, d)
  pair-eq p q = λ i. (p i, q i)

  -- One ID for each tag, in order: that of the only image that a search for the tag found.
  pub data Published : List String → List String → Type 0 where
    none_left : Published [] []
    published :
        {tags ids : List String} (tag digest : String) (digests : List String) (s : BuildState A W)
        → (tools.search_image tag s).0 ≡ ok (1, digest ∷ digests)
        → Published tags ids
        → Published (tag ∷ tags) (truncate_id digest ∷ ids)

  publish-eq-ok :
      (tag digest : String) (s : BuildState A W) (e : Event)
      → (publish encode_error tools tag digest s).0 ≡ ok e
      → e.id ≡ truncate_id digest
  unfolding get_tag_event
  publish-eq-ok tag digest s e h =
      elim (Result-cases (tools.publish_event tag_topic (get_tag_event digest tag) s).0) [
        | inl (t, done) ↦ ground arith
        | inr (failure, failed) ↦ absurd (ground arith)
      ]

  with_images-eq-ok :
      (tag : String) (n : ℕ) (digests : List String) (s : BuildState A W) (e : Event)
      → (with_images encode_error tools tag (n, digests) s).0 ≡ ok e
      → (d : String) × (ds : List String) × (n ≡ 1) × (digests ≡ d ∷ ds) × (e.id ≡ truncate_id d)
  with_images-eq-ok tag n [] s e h = absurd (cc h)
  with_images-eq-ok tag n (d ∷ ds) s e h = elim (Bool-cases (nat_eq n 0)) [
    | inl zero_ ↦ absurd (ground arith)
    | inr some_ ↦ elim (Bool-cases (nat_eq n 1)) [
      | inl one ↦ (d, ds, (nat_eq_iff n 1).0 one, refl, publish-eq-ok tag d s e (ground arith))
      | inr many ↦ absurd (ground arith)
    ]
  ]

  publish_tag_event-eq-ok :
      (tag : String) (s : BuildState A W) (e : Event)
      → (publish_tag_event encode_error tools tag s).0 ≡ ok e
      → (d : String) × (ds : List String) × ((tools.search_image tag s).0 ≡ ok (1, d ∷ ds))
        × (e.id ≡ truncate_id d)
  unfolding publish_tag_event
  publish_tag_event-eq-ok tag s e h = elim (Result-cases (tools.search_image tag s).0) [
    | inr (failure, failed) ↦ absurd (ground arith)
    | inl ((n, digests), found) ↦
        let (d, ds, one, only, id) =
          with_images-eq-ok tag n digests (tools.search_image tag s).1 e (
            subst
              (λ r.
                (and_then r (with_images encode_error tools tag) (tools.search_image tag s).1).0
                ≡ ok e)
              found h) in
        (d, ds, found ∙ ap ok (pair-eq one only), id)
  ]

  publish_tags-Published :
      (tags : List String) (s : BuildState A W) (ids : List String)
      → (publish_tags encode_error tools tags s).0 ≡ ok ids
      → Published tags ids
  unfolding publish_tags
  publish_tags-Published [] s ids h = subst (Published []) (the_ok h) none_left
  publish_tags-Published (tag ∷ tags) s ids h =
      elim (Result-cases (publish_tag_event encode_error tools tag s).0) [
        | inr (failure, failed) ↦ absurd (ground arith)
        | inl (e, event) ↦
            let s' =
              (report encode_error tools e.id (publish_tag_event encode_error tools tag s).1).1 in
            elim (Result-cases (publish_tags encode_error tools tags s').0) [
              | inr (failure, failed) ↦ absurd (ground arith)
              | inl (later, rest) ↦
                  let (d, ds, found, id) = publish_tag_event-eq-ok tag s e event in
                  let same : ids ≡ truncate_id d ∷ later = ground arith in
                  subst (Published (tag ∷ tags)) (sym same)
                    (published tag d ds s found (publish_tags-Published tags s' later rest))
            ]
      ]

  build_extracted-Published :
      (options : BuildOptions G) (build_id : String) (cmd : T) (s : BuildState A W)
      (ids : List String)
      → (build_extracted encode_error tools options build_id cmd s).0 ≡ ok ids
      → Published (tags_of options.tag) ids
  build_extracted-Published options build_id cmd s ids h =
      let s1 = (tools.run cmd s).1 in
      let options' = record options {
        build_context = tools.get_dir cmd;
        file = tools.get_dir cmd ++ ("/" ++ options.file);
      } in
      let built = tools.nctl_build options' build_id s1 in
      elim (Result-cases (tools.run cmd s).0) [
        | inr (failure, failed) ↦ absurd (ground arith)
        | inl (t, ran) ↦ elim (Result-cases built.0) [
          | inr (failure, failed) ↦ absurd (ground arith)
          | inl (t', done) ↦ publish_tags-Published (tags_of options.tag) built.1 ids (ground arith)
        ]
      ]

  -- A build that succeeds has one result for each tag, in the order of the tags: the first twelve
  -- characters, after the colon, of the digest of the only image found for it.
  pub build-Published :
      (options : BuildOptions G) (tar_body : B) (build_id : String) (s : BuildState A W)
      (ids : List String)
      → (build encode_error tools options tar_body build_id s).0 ≡ ok ids
      → Published (tags_of options.tag) ids
  unfolding build
  build-Published options tar_body build_id s ids h =
      let extracted = tools.extract_in_temp tar_body "build-context" s in
      elim (Result-cases extracted.0) [
        | inr (failure, failed) ↦ absurd (ground arith)
        | inl (cmd, got) ↦
            build_extracted-Published options build_id cmd extracted.1 ids (ground arith)
      ]

-- ===== src/Distribution/Verified.antt =====
-- Which bytes the answer of an inspect stands on.
use finch_daemon.Prelude.{
  String, ◌≡◌, refl, ap, subst, sym, ◌∙◌, ◌⊎◌, inl, inr, true, false, Option, none, some, List, [],
  ◌∷◌, map, ◌==◌, eq_iff, arith, Bool-cases,
}
use finch_daemon.Errors.{GoError}
use finch_daemon.Act.{Result, ok, err, Result-cases, ◌>>=◌}
use finch_daemon.Images.Auth.{AuthConfig}
use finch_daemon.Distribution.Canonical.{References}
use finch_daemon.Distribution.Service.{
  Descriptor, DistributionInspect, DistributionBackend, map_error, explained, is_manifest, is_index,
  all_platforms, more, compared, fetch_verified, platform_of, manifest_platforms, listed_platforms,
  platforms_of, answer, with_platforms, inspect_with, creds_of, parsed_ref, inspect, resolve_error,
}

map_error-eq-ok :
    {A : Type 0} (f : GoError → GoError) (r : Result A) (a : A) → map_error f r ≡ ok a → r ≡ ok a
map_error-eq-ok f (ok a) a' h = h
map_error-eq-ok f (err e) a' h = absurd (cc h)

some-inj : {A : Type 0} {x y : A} → Option.some x ≡ some y → x ≡ y
some-inj h = cc h

more-eq-some :
    {P : Type 0} (p : Option P) (r : Option (List P)) (qs : List P)
    → more p r ≡ some qs
    → (x : P) × (xs : List P) × (p ≡ some x) × (r ≡ some xs) × (qs ≡ x ∷ xs)
more-eq-some none r qs h = absurd (cc h)
more-eq-some (some p) none qs h = absurd (cc h)
more-eq-some (some p) (some ps) qs h = (p, ps, refl, refl, cc h)

all_platforms-eq-some :
    {P : Type 0} (ps : List (Option P)) (qs : List P)
    → all_platforms ps ≡ some qs
    → ps ≡ map some qs
unfolding all_platforms
all_platforms-eq-some [] [] h = refl
all_platforms-eq-some [] (q ∷ qs) h = absurd (cc h)
all_platforms-eq-some (p ∷ ps) qs h =
    let (x, xs, first, rest, whole) = more-eq-some p (all_platforms ps) qs h in
    let later = all_platforms-eq-some ps xs rest in cc (first, later, ap (map some) whole)

module _ {W R F C P N : Type 0} (b : DistributionBackend W R F C P) (refs : References N) where
  -- The bytes were read from the registry under the descriptor, and have its digest.
  abbrev pub IsVerified : F → Descriptor → String → Type 0
  IsVerified f desc bytes =
      (w : W) × (rc : C) × ((b.fetch f desc w).0 ≡ ok rc)
      × ((b.read_all rc (b.fetch f desc w).1).0 ≡ ok bytes)
      × (b.from_bytes desc.digest bytes ≡ some desc.digest)

  -- The platforms are what verified bytes say: of a manifest that of the image it names, of an index
  -- those listed, and of any other blob none.
  abbrev pub ArePlatforms : F → String → String → List P → Type 0
  ArePlatforms f media_type bytes ps =
      ((is_manifest media_type ≡ true)
        × ((config : Descriptor) × (image : String) × (p : P) × (b.manifest_config bytes
              ≡ ok config)
            × IsVerified f config image
            × (b.image_platform image ≡ ok p)
            × (ps ≡ p ∷ [])))
      ⊎ ((is_manifest media_type ≡ false)
          × (is_index media_type ≡ true)
          × (b.index_platforms bytes ≡ ok (map some ps)))
      ⊎ ((is_manifest media_type ≡ false) × (is_index media_type ≡ false) × (ps ≡ []))

  abbrev pub IsFound : String → F → Descriptor → Type 0
  IsFound name f desc =
      (ref : String) × (domain : String) × (parsed_ref b refs name ≡ ok (ref, domain))
      × ((r : R) × (w : W) × ((b.resolve r ref w).0 ≡ ok desc)
          × ((b.fetcher r ref (b.resolve r ref w).1).0 ≡ ok f))

  compared-eq-ok :
      (complaint digest : String) (r : Option String) (bytes res : String)
      → compared b refs complaint digest r bytes ≡ ok (some res)
      → (r ≡ some digest) × (bytes ≡ res)
  compared-eq-ok complaint digest none bytes res h = absurd (cc h)
  compared-eq-ok complaint digest (some dgst) bytes res h = elim (Bool-cases (dgst == digest)) [
    | inl same ↦ (ap some ((eq_iff dgst digest).0 same), ground arith)
    | inr other ↦ absurd (ground arith)
  ]

  fetch_verified-eq-ok :
      (f : F) (desc : Descriptor) (read_failed complaint : String) (w : W) (res : String)
      → (fetch_verified b refs f desc read_failed complaint w).0 ≡ ok (some res)
      → IsVerified f desc res
  unfolding fetch_verified
  fetch_verified-eq-ok f desc read_failed complaint w res h =
      let w1 = (b.fetch f desc w).1 in
      elim (Result-cases (b.fetch f desc w).0) [
        | inr (e, failed) ↦ absurd (ground arith)
        | inl (rc, fetched) ↦ elim (Result-cases (b.read_all rc w1).0) [
          | inr (e, failed) ↦ absurd (ground arith)
          | inl (bytes, read) ↦
              let (agrees, same) =
                compared-eq-ok complaint desc.digest (b.from_bytes desc.digest bytes) bytes res
                  (ground arith) in
              subst (IsVerified f desc) same (w, rc, fetched, read, agrees)
        ]
      ]

  platform_of-eq-ok :
      (r : Option String) (w : W) (ps : List P)
      → (platform_of b refs r w).0 ≡ ok (some ps)
      → (image : String) × (p : P) × (r ≡ some image)
        × (b.image_platform image ≡ ok p)
        × (ps ≡ p ∷ [])
  platform_of-eq-ok none w ps h = absurd (ground arith)
  platform_of-eq-ok (some image) w ps h = elim (Result-cases (b.image_platform image)) [
    | inr (e, failed) ↦ absurd (ground arith)
    | inl (p, parsed) ↦ (image, p, refl, parsed, ground arith)
  ]

  manifest_platforms-eq-ok :
      (f : F) (res : String) (w : W) (ps : List P)
      → (manifest_platforms b refs f res w).0 ≡ ok (some ps)
      → (config : Descriptor) × (image : String) × (p : P) × (b.manifest_config res ≡ ok config)
        × IsVerified f config image
        × (b.image_platform image ≡ ok p)
        × (ps ≡ p ∷ [])
  unfolding manifest_platforms
  manifest_platforms-eq-ok f res w ps h = elim (Result-cases (b.manifest_config res)) [
    | inr (e, failed) ↦ absurd (ground arith)
    | inl (config, parsed) ↦
        let fetched =
          fetch_verified b refs f config "failed to read image: " "image digest mismatch: " w in
        elim (Result-cases fetched.0) [
          | inr (e, failed) ↦ absurd (ground arith)
          | inl (r, verified) ↦
              let (image, p, same, decoded, one) =
                platform_of-eq-ok r fetched.1 ps (ground arith) in
              (
                config,
                image,
                p,
                parsed,
                fetch_verified-eq-ok f config "failed to read image: " "image digest mismatch: " w
                    image (verified ∙ ap ok same),
                decoded,
                one,
              )
        ]
  ]

  listed_platforms-eq-ok :
      (res : String) (w : W) (ps : List P)
      → (listed_platforms b refs res w).0 ≡ ok (some ps)
      → b.index_platforms res ≡ ok (map some ps)
  unfolding listed_platforms
  listed_platforms-eq-ok res w ps h = elim (Result-cases (b.index_platforms res)) [
    | inr (e, failed) ↦ absurd (ground arith)
    | inl (qs, parsed) ↦ parsed ∙ ap ok (all_platforms-eq-some qs ps (ground arith))
  ]

  platforms_of-ArePlatforms :
      (f : F) (media_type res : String) (w : W) (ps : List P)
      → (platforms_of b refs f media_type res w).0 ≡ ok (some ps)
      → ArePlatforms f media_type res ps
  unfolding platforms_of
  platforms_of-ArePlatforms f media_type res w ps h = elim (Bool-cases (is_manifest media_type)) [
    | inl yes_ ↦ inl (yes_, manifest_platforms-eq-ok f res w ps (ground arith))
    | inr no_ ↦ elim (Bool-cases (is_index media_type)) [
      | inl index ↦ inr (inl (no_, index, listed_platforms-eq-ok res w ps (ground arith)))
      | inr other ↦ inr (inr (no_, other, ground arith))
    ]
  ]

  answer-eq-some :
      (desc : Descriptor) (r : Option (List P)) (d : DistributionInspect P)
      → answer b refs desc r ≡ some d
      → (d.descriptor ≡ desc) × (r ≡ some d.platforms)
  answer-eq-some desc none d h = absurd (cc h)
  answer-eq-some desc (some ps) d h =
      let same = some-inj h in
      (
        sym (ap (λ (x : DistributionInspect P). x.descriptor) same),
        ap (λ (x : DistributionInspect P). some x.platforms) same,
      )

  with_platforms-eq-ok :
      (f : F) (desc : Descriptor) (r : Option String) (w : W) (d : DistributionInspect P)
      → (with_platforms b refs f desc r w).0 ≡ ok (some d)
      → (bytes : String) × (r ≡ some bytes)
        × (d.descriptor ≡ desc)
        × ArePlatforms f desc.media_type bytes d.platforms
  with_platforms-eq-ok f desc none w d h = absurd (ground arith)
  with_platforms-eq-ok f desc (some bytes) w d h =
      elim (Result-cases (platforms_of b refs f desc.media_type bytes w).0) [
        | inr (e, failed) ↦ absurd (ground arith)
        | inl (r, given) ↦
            let (same, listed) = answer-eq-some desc r d (ground arith) in
            (
              bytes,
              refl,
              same,
              platforms_of-ArePlatforms f desc.media_type bytes w d.platforms
                  (given ∙ ap ok listed),
            )
      ]

  -- What is known of an inspect that succeeds.
  abbrev pub IsInspected : String → DistributionInspect P → Type 0
  IsInspected name d =
      (f : F) × (bytes : String) × IsFound name f d.descriptor
      × IsVerified f d.descriptor bytes
      × ArePlatforms f d.descriptor.media_type bytes d.platforms

  inspect_with-eq-ok :
      (f : F) (desc : Descriptor) (w : W) (d : DistributionInspect P)
      → (inspect_with b refs f desc w).0 ≡ ok (some d)
      → (bytes : String) × (d.descriptor ≡ desc)
        × IsVerified f desc bytes
        × ArePlatforms f desc.media_type bytes d.platforms
  unfolding inspect_with
  inspect_with-eq-ok f desc w d h =
      let got =
        fetch_verified b refs f desc "failed to read fetch result: " "digest mismatch: " w in
      elim (Result-cases got.0) [
        | inr (e, failed) ↦ absurd (ground arith)
        | inl (r, given) ↦
            let (bytes, some_, same, are) = with_platforms-eq-ok f desc r got.1 d (ground arith) in
            (
              bytes,
              same,
              fetch_verified-eq-ok f desc "failed to read fetch result: " "digest mismatch: " w
                  bytes (given ∙ ap ok some_),
              are,
            )
      ]

  resolved-IsInspected :
      (name ref domain : String) (r : R) (w : W) (d : DistributionInspect P)
      → parsed_ref b refs name ≡ ok (ref, domain)
      → ((explained (resolve_error b refs) (b.resolve r ref) >>= λ desc.
            b.fetcher r ref >>= λ f. inspect_with b refs f desc)
          w).0
        ≡ ok (some d)
      → IsInspected name d
  resolved-IsInspected name ref domain r w d parsed h =
      let w1 = (b.resolve r ref w).1 in
      elim (Result-cases (b.resolve r ref w).0) [
        | inr (e, failed) ↦ absurd (ground arith)
        | inl (desc, resolved) ↦ elim (Result-cases (b.fetcher r ref w1).0) [
          | inr (e, failed) ↦ absurd (ground arith)
          | inl (f, made) ↦
              let (bytes, same, verified, are) =
                inspect_with-eq-ok f desc (b.fetcher r ref w1).1 d (ground arith) in
              (
                f,
                bytes,
                subst (IsFound name f) (sym same) (ref, domain, parsed, (r, w, resolved, made)),
                subst (λ x. IsVerified f x bytes) (sym same) verified,
                subst (λ (x : Descriptor). ArePlatforms f x.media_type bytes d.platforms) (sym same)
                    are,
              )
        ]
      ]

  -- An inspect that gives an answer has resolved the reference that the name stands for to the
  -- descriptor of the answer, has read bytes with the digest of that descriptor, and its platforms
  -- are what these bytes say; for a manifest they are that of the image it names, whose bytes have
  -- the digest that the manifest gives.
  pub inspect-IsInspected :
      (name : String) (ac : Option AuthConfig) (w : W) (d : DistributionInspect P)
      → (inspect b refs name ac w).0 ≡ ok (some d)
      → IsInspected name d
  unfolding inspect
  inspect-IsInspected name ac w d h = elim (Result-cases (parsed_ref b refs name)) [
    | inr (e, failed) ↦ absurd (ground arith)
    | inl ((ref, domain), parsed) ↦ elim (Result-cases (creds_of b refs domain ac)) [
      | inr (e, failed) ↦ absurd (ground arith)
      | inl (creds, given) ↦ elim (Result-cases (b.get_docker_resolver domain creds w).0) [
        | inr (e, failed) ↦ absurd (ground arith)
        | inl (r, made) ↦
            resolved-IsInspected name ref domain r (b.get_docker_resolver domain creds w).1 d parsed
              (ground arith)
      ]
    ]
  ]

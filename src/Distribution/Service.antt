-- ===== src/Distribution/Service.antt =====
-- internal/service/distribution/distribution.go
use Prim.Native.String.{◌++◌}
use finch_daemon.Prelude.{
  String, Bool, ◌||◌, Option, none, some, List, [], ◌∷◌, ◌==◌, if◌then◌else◌,
}
use finch_daemon.Prelude.Int.{ℤ}
use finch_daemon.Errors.{GoError, plain, wrap, with_type, unauthenticated, new_not_found, message}
use finch_daemon.Act.{Result, ok, err, Act, pure, reads, ◌>>=◌}
use finch_daemon.Images.Backend.{AuthCreds}
use finch_daemon.Images.Auth.{AuthConfig, get_auth_creds}
use finch_daemon.Images.Transfer.{new_invalid_format}
use finch_daemon.Distribution.Canonical.{References, canonicalize}

-- An ocispec.Descriptor, as far as it is used
pub record Descriptor : Type 0 where
  pub media_type : String
  pub digest : String
  pub size : ℤ

-- registrytypes.DistributionInspect
pub record DistributionInspect (P : Type 0) : Type 0 where
  pub descriptor : Descriptor
  pub platforms : List P

-- The registry and the packages that decode what it sends: resolvers `R`, fetchers `F`, readers `C`
-- and platforms `P`. `from_bytes` is Algorithm().FromBytes of a digest, `none` where it panics. The
-- last three are json.Unmarshal of a manifest (its Config), of an index (the platform of each of its
-- manifests, which may be nil) and of an image (its Platform).
pub record DistributionBackend (W R F C P : Type 0) : Type 0 where
  pub parse_docker_ref : String → Result (String × String)
  pub default_docker_host : String → Result String
  pub get_docker_resolver : String → AuthCreds → Act W R
  pub resolve : R → String → Act W Descriptor
  pub fetcher : R → String → Act W F
  pub fetch : F → Descriptor → Act W C
  pub read_all : C → Act W String
  pub from_bytes : String → String → Option String
  pub is_c_not_found : GoError → Bool
  pub is_invalid_authorization : GoError → Bool
  pub is_unexpected_status : GoError → Bool
  pub manifest_config : String → Result Descriptor
  pub index_platforms : String → Result (List (Option P))
  pub image_platform : String → Result P

abbrev pub new_unauthenticated : GoError → GoError
new_unauthenticated e = with_type unauthenticated e

abbrev pub map_error : {A : Type 0} → (GoError → GoError) → Result A → Result A
map_error f (ok a) = ok a
map_error f (err e) = err (f e)

-- A step whose error is put in another one.
abbrev pub explained : {W A : Type 0} → (GoError → GoError) → Act W A → Act W A
explained f m w = (map_error f (m w).0, (m w).1)

unfoldable pub is_manifest : String → Bool
is_manifest media_type =
    media_type == "application/vnd.oci.image.manifest.v1+json"
    || media_type == "application/vnd.docker.distribution.manifest.v2+json"

unfoldable pub is_index : String → Bool
is_index media_type =
    media_type == "application/vnd.oci.image.index.v1+json"
    || media_type == "application/vnd.docker.distribution.manifest.list.v2+json"

abbrev pub more : {P : Type 0} → Option P → Option (List P) → Option (List P)
more (some p) (some ps) = some (p ∷ ps)
more _ _ = none

-- The platforms of an index, `none` where a nil pointer is followed.
unfoldable pub all_platforms : {P : Type 0} → List (Option P) → Option (List P)
all_platforms [] = some []
all_platforms (p ∷ ps) = more p (all_platforms ps)

-- Results are `none` where the code panics.
module _ {W R F C P N : Type 0} (b : DistributionBackend W R F C P) (refs : References N) where
  unfoldable pub resolve_error : GoError → GoError
  resolve_error e =
      if b.is_c_not_found e
      then new_not_found e
      else if b.is_invalid_authorization e || b.is_unexpected_status e
      then new_unauthenticated e
      else e

  abbrev pub fetch_error : GoError → GoError
  fetch_error e = if b.is_c_not_found e then new_not_found e else e

  abbrev pub compared : String → String → Option String → String → Result (Option String)
  compared complaint digest none bytes = ok none
  compared complaint digest (some dgst) bytes =
      if dgst == digest
      then ok (some bytes)
      else err (plain (complaint ++ (dgst ++ (" != " ++ digest))))

  -- Fetching a blob and comparing its digest.
  unfoldable pub fetch_verified : F → Descriptor → String → String → Act W (Option String)
  fetch_verified f desc read_failed complaint = do
    rc ← explained fetch_error (b.fetch f desc)
    bytes ← explained (λ e. wrap read_failed e "") (b.read_all rc)
    reads (λ w. compared complaint desc.digest (b.from_bytes desc.digest bytes) bytes)

  abbrev pub platform_of : Option String → Act W (Option (List P))
  platform_of none = pure none
  platform_of (some image_res) = do
    platform ←
        explained (λ e. wrap "failed to unmarshal image: " e "")
          (reads (λ w. b.image_platform image_res))
    pure (some (platform ∷ []))

  unfoldable pub manifest_platforms : F → String → Act W (Option (List P))
  unfolding fetch_verified
  manifest_platforms f res = do
    config ←
        explained (λ e. wrap "failed to unmarshal manifest: " e "")
          (reads (λ w. b.manifest_config res))
    image_res ← fetch_verified f config "failed to read image: " "image digest mismatch: "
    platform_of image_res

  unfoldable pub listed_platforms : String → Act W (Option (List P))
  unfolding all_platforms
  listed_platforms res = do
    ps ←
        explained (λ e. wrap "failed to unmarshal index: " e "")
          (reads (λ w. b.index_platforms res))
    pure (all_platforms ps)

  unfoldable pub platforms_of : F → String → String → Act W (Option (List P))
  unfolding is_manifest is_index manifest_platforms listed_platforms
  platforms_of f media_type res =
      if is_manifest media_type
      then manifest_platforms f res
      else if is_index media_type
      then listed_platforms res
      else pure (some [])

  abbrev pub answer : Descriptor → Option (List P) → Option (DistributionInspect P)
  answer desc none = none
  answer desc (some ps) = some (record { descriptor = desc; platforms = ps })

  abbrev pub with_platforms :
      F → Descriptor → Option String → Act W (Option (DistributionInspect P))
  with_platforms f desc none = pure none
  with_platforms f desc (some res) =
      platforms_of f desc.media_type res >>= λ ps. pure (answer desc ps)

  -- The blob of the descriptor and what it says.
  unfoldable pub inspect_with : F → Descriptor → Act W (Option (DistributionInspect P))
  unfolding fetch_verified platforms_of
  inspect_with f desc =
      fetch_verified f desc "failed to read fetch result: " "digest mismatch: "
      >>= with_platforms f desc

  unfoldable pub creds_of : String → Option AuthConfig → Result AuthCreds
  unfolding get_auth_creds
  creds_of ref_domain none = ok none
  creds_of ref_domain (some ac) = get_auth_creds b.default_docker_host ref_domain ac

  unfoldable pub parsed_ref : String → Result (String × String)
  unfolding canonicalize
  parsed_ref name = elim (canonicalize refs name "") [
    | ok raw_ref ↦ map_error new_invalid_format (b.parse_docker_ref raw_ref)
    | err e ↦ err (new_invalid_format e)
  ]

  -- Inspect
  unfoldable pub inspect : String → Option AuthConfig → Act W (Option (DistributionInspect P))
  unfolding parsed_ref creds_of resolve_error inspect_with message
  inspect name ac = do
    parsed ← reads (λ w. parsed_ref name)
    creds ← reads (λ w. creds_of parsed.1 ac)
    resolver ←
        explained (λ e. plain ("failed to initialize remotes resolver: " ++ message e))
          (b.get_docker_resolver parsed.1 creds)
    desc ← explained resolve_error (b.resolve resolver parsed.0)
    f ← b.fetcher resolver parsed.0
    inspect_with f desc

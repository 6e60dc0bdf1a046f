-- ===== src/Images/Transfer.antt =====
-- internal/service/image/pull.go and push.go.
use Prim.Native.String.{◌++◌}
use finch_daemon.Prelude.{ℕ, String, ◌||◌, Option, none, some, if◌then◌else◌}
use finch_daemon.Errors.{GoError, plain, wrap, with_type, new_not_found, message, invalid_format}
use finch_daemon.Act.{Result, ok, err, Act, reads, ◌>>=◌, ◌>>◌}
use finch_daemon.Go.Strings.{is_empty}
use finch_daemon.Http.Stream.{contains}
use finch_daemon.Images.Backend.{Image, ImageBackend, AuthCreds}
use finch_daemon.Images.Reference.{to_image_ref}
use finch_daemon.Images.Auth.{AuthConfig, get_auth_creds}

-- types.PushResult
pub record PushResult : Type 0 where
  pub tag : String
  pub digest : String
  pub size : ℕ

abbrev pub new_invalid_format : GoError → GoError
new_invalid_format e = with_type invalid_format e

abbrev or_invalid : {A : Type 0} → Result A → Result A
or_invalid (ok a) = ok a
or_invalid (err e) = err (new_invalid_format e)

abbrev canonical : Result String → Result String
canonical (ok ref) = ok ref
canonical (err e) = err (new_invalid_format (wrap "failed to canonicalize the ref: " e ""))

abbrev resolver_error : {A : Type 0} → Result A → Result A
resolver_error (ok a) = ok a
resolver_error (err e) = err (plain ("failed to initialize remotes resolver: " ++ message e))

module _ {W P R I : Type 0} (b : ImageBackend W P R I) where
  abbrev platform_error : String → Result P → Result P
  platform_error platform_str (ok platform) = ok platform
  platform_error platform_str (err e) =
      err (plain ("invalid platform " ++ (platform_str ++ (": " ++ message e))))

  -- The platform to pull for.
  unfoldable pub pull_platform : String → Result P
  pull_platform platform_str =
      if is_empty platform_str
      then ok b.default_platform
      else platform_error platform_str (b.parse_platform platform_str)

  -- The credentials; none for a nil AuthConfig
  unfoldable pub creds_of : String → Option AuthConfig → Result AuthCreds
  unfolding get_auth_creds
  creds_of ref_domain none = ok none
  creds_of ref_domain (some ac) = get_auth_creds b.default_docker_host ref_domain ac

  abbrev pull_error : GoError → GoError
  pull_error e = if b.is_invalid_authorization e || b.is_c_not_found e then new_not_found e else e

  abbrev retype_pull : Result (Unit {0}) → Result (Unit {0})
  retype_pull (ok u) = ok u
  retype_pull (err e) = err (pull_error e)

  abbrev pulled : R → String → P → Act W (Unit {0})
  pulled resolver ref platform w = (
    retype_pull (b.pull_image resolver ref platform w).0,
    (b.pull_image resolver ref platform w).1,
  )

  -- Pull
  unfoldable pub pull : String → String → String → Option AuthConfig → Act W (Unit {0})
  unfolding to_image_ref pull_platform creds_of
  pull name tag platform_str ac = do
    platform ← reads (λ w. pull_platform platform_str)
    parsed ← reads (λ w. or_invalid (b.parse_docker_ref (to_image_ref name tag)))
    creds ← reads (λ w. creds_of parsed.1 ac)
    resolver ← reads (λ w. resolver_error (b.get_docker_resolver parsed.1 creds w))
    pulled resolver parsed.0 platform

  -- The error of the conversion to a single platform.
  unfoldable pub conversion_error : String → GoError → GoError
  unfolding contains message
  conversion_error push_ref e =
      if contains (message e) "not found"
      then new_not_found e
      else plain
          ("failed to create a tmp single-platform image \"" ++ (push_ref ++ ("\": " ++ message e)))

  abbrev result_of : String → Result (String × ℕ) → Option PushResult
  result_of tag (err e) = none
  result_of tag (ok (digest, size)) = some (record { tag = tag; digest = digest; size = size })

  -- What follows the creation of the single-platform image, before its deferred deletion.
  abbrev push_converted :
      String → String → String → String → Option AuthConfig → Act W (Option PushResult)
  push_converted tag ref ref_domain push_ref ac = do
    creds ← reads (λ w. creds_of ref_domain ac)
    resolver ← reads (λ w. resolver_error (b.get_docker_resolver ref_domain creds w))
    b.push_image resolver push_ref ref
    λ w. (ok (result_of tag (b.pushed ref w)), w)

  abbrev deferred_delete : String → Result (Option PushResult) × W → Result (Option PushResult) × W
  deferred_delete name (result, w) = (result, (b.delete_image name w).1)

  abbrev converted :
      String
      → String
      → String
      → String
      → Option AuthConfig
      → Result Image × W
      → Result (Option PushResult) × W
  converted tag ref ref_domain push_ref ac (err e, w) = (err (conversion_error push_ref e), w)
  converted tag ref ref_domain push_ref ac (ok img, w) =
      deferred_delete img.name (push_converted tag ref ref_domain push_ref ac w)

  -- Push; the image of a conversion that succeeds is not nil
  unfoldable pub push : String → String → Option AuthConfig → Act W (Option PushResult)
  unfolding creds_of conversion_error
  push name tag ac = do
    raw_ref ← reads (λ w. canonical (b.canonicalize name tag))
    parsed ← reads (λ w. or_invalid (b.parse_docker_ref raw_ref))
    λ w.
        (let push_ref = parsed.0 ++ "-tmp-reduced-platform" in
          converted tag parsed.0 parsed.1 push_ref ac (b.convert_image push_ref parsed.0 w))

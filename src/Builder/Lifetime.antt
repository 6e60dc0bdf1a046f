-- ===== src/Builder/Lifetime.antt =====
-- How long the credentials of a build stay in the cache (api/handlers/builder/build.go).
use finch_daemon.Prelude.{
  ◌≡◌, ◌≢◌, refl, true, false, String, Option, none, some, [], ◌∷◌, arith, ◌==◌, eq_iff, eq_refl,
}
use finch_daemon.Errors.{GoError}
use finch_daemon.Act.{ok}
use finch_daemon.Go.Maps.{Map, lookup}
use finch_daemon.Http.{Writer}
use finch_daemon.Http.Stream.{StreamResponse}
use finch_daemon.Credentials.Cache.{store_auth_configs}
use finch_daemon.Credentials.Isolation.{lookup-remove_credentials, lookup-store_auth_configs}
use finch_daemon.Builder.Service.{BuildState}
use finch_daemon.Builder.Handler.{
  BuildRequest, Outside, generate_build_id, run_build, build_handler, decode_registry_config, store,
  remove,
}

module _ {A W G T B : Type 0}
    (encode_error : StreamResponse → Writer StreamResponse → Option GoError)
    (out : Outside A W G T B) where
  -- The request has credentials, and the next build ID is `id`.
  pub record IsRegistered (req : BuildRequest B) (id : String) (configs : Map A)
      (s s' : BuildState A W) : Type 0 where
    pub has_header : (req.registry_config == "") ≡ false
    pub decoded : decode_registry_config out.decoders req.registry_config ≡ ok configs
    pub some_config : configs ≢ []
    pub generated : generate_build_id encode_error out s ≡ (ok id, s')

  -- A build with credentials is the rest of the handler, run while the cache has them under the new
  -- build ID, and then their removal.
  pub build_has_credentials :
      (req : BuildRequest B) (id : String) (configs : Map A) (s s' : BuildState A W)
      → IsRegistered req id configs s s'
      → (before : BuildState A W) × (lookup id before.cache ≡ some configs)
        × ((j : String) → j ≢ id → lookup j before.cache ≡ lookup j s'.cache)
        × (build_handler encode_error out true req s
            ≡ remove encode_error out id (run_build encode_error out req id before))
  unfolding build_handler store_auth_configs
  build_has_credentials req id [] s s' r = absurd (r.some_config refl)
  build_has_credentials req id (config ∷ configs) s s' r =
      let before = store encode_error out id (config ∷ configs) s' in
      (
        before,
        ground (arith, lookup-store_auth_configs id id (config ∷ configs) s'.cache, eq_refl id),
        (λ j other.
            ground
              (arith, lookup-store_auth_configs id j (config ∷ configs) s'.cache, eq_iff id j)),
        rw (r.has_header, r.decoded, r.generated) refl,
      )

  -- When the handler returns, however the build went and whatever other requests did meanwhile, the
  -- cache has no credentials under the build's ID.
  pub credentials_removed :
      (req : BuildRequest B) (id : String) (configs : Map A) (s s' : BuildState A W)
      → IsRegistered req id configs s s'
      → lookup id (build_handler encode_error out true req s).cache ≡ none
  credentials_removed req id configs s s' r =
      let (before, there, others, same) = build_has_credentials req id configs s s' r in
      ground (
        arith,
        lookup-remove_credentials id id (run_build encode_error out req id before).cache,
        eq_refl id,
      )

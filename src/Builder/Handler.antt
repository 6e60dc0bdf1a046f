-- ===== src/Builder/Handler.antt =====
-- The handler of POST /build (api/handlers/builder/build.go), with DecodeRegistryConfig of
-- api/auth/auth.go and GenerateBuildID of pkg/credential/credential.go.
use finch_daemon.Prelude.{String, Bool, Option, List, [], ◌∷◌, ◌==◌, if◌then◌else◌}
use finch_daemon.Errors.{GoError, wrap}
use finch_daemon.Act.{Result, ok, err, Act}
use finch_daemon.Go.Maps.{Map}
use finch_daemon.Http.{Writer}
use finch_daemon.Http.Stream.{StreamResponse, write_error, write_aux}
use finch_daemon.Credentials.Cache.{store_auth_configs, remove_credentials}
use finch_daemon.Builder.Options.{Query, Json, BuildOptions, get_build_options}
use finch_daemon.Builder.Service.{BuildState, Tools, build}

-- base64.URLEncoding.DecodeString, and json.Unmarshal of the decoded bytes
pub record Decoders (A : Type 0) : Type 0 where
  pub decode_base64 : String → Result String
  pub unmarshal_configs : String → Result (Map A)

-- errors.Wrap
abbrev wrapped : String → {A : Type 0} → Result A → Result A
wrapped text (ok a) = ok a
wrapped text (err e) = err (wrap text e "")

module _ {A : Type 0} (decoders : Decoders A) where
  abbrev unmarshalled : Result String → Result (Map A)
  unmarshalled (err e) = err (wrap "failed to decode registry config: " e "")
  unmarshalled (ok decoded) =
      wrapped "failed to unmarshal registry config: " (decoders.unmarshal_configs decoded)

  -- DecodeRegistryConfig
  unfoldable pub decode_registry_config : String → Result (Map A)
  decode_registry_config registry_config =
      if registry_config == "" then ok [] else unmarshalled (decoders.decode_base64 registry_config)

-- What the handler reads of a request: a header, the query and the body.
pub record BuildRequest (B : Type 0) : Type 0 where
  pub registry_config : String
  pub query : Query
  pub body : B

-- Beside the tools of the service: crypto/rand's Read of 32 bytes, hex.EncodeToString, buildkit's
-- address, and json.Marshal of a result.
pub record Outside (A W G T B : Type 0) : Type 1 where
  pub tools : Tools A W G T B
  pub json : Json
  pub decoders : Decoders A
  pub read_random : Act (BuildState A W) String
  pub encode_to_string : String → String
  pub get_buildkit_host : Act (BuildState A W) String
  pub marshal : String → Result String
  pub global : G

module _ {A W G T B : Type 0}
    (encode_error : StreamResponse → Writer StreamResponse → Option GoError)
    (out : Outside A W G T B) where
  -- streamWriter.WriteError(http.StatusInternalServerError, err)
  unfoldable pub fail_with : GoError → BuildState A W → BuildState A W
  fail_with e s = record s { stream = (write_error encode_error 500 e s.stream).1 }

  -- GenerateBuildID
  unfoldable pub generate_build_id : Act (BuildState A W) String
  generate_build_id s = elim (out.read_random s).0 [
    | err e ↦ (err e, (out.read_random s).1)
    | ok id ↦ (ok (out.encode_to_string id), (out.read_random s).1)
  ]

  -- The loop that sends the results
  unfoldable pub send_aux : List String → BuildState A W → BuildState A W
  send_aux [] s = s
  send_aux (result ∷ results) s = elim (out.marshal result) [
    | err e ↦ s
    | ok aux_data ↦
        send_aux results (record s { stream = (write_aux encode_error aux_data s.stream).1 })
  ]

  abbrev pub answer : Result (List String) × BuildState A W → BuildState A W
  answer (ok results, s) = send_aux results s
  answer (err e, s) = fail_with e s

  abbrev pub build_with : Result (BuildOptions G) → B → String → BuildState A W → BuildState A W
  build_with (err e) body build_id s = fail_with e s
  build_with (ok options) body build_id s =
      answer (build encode_error out.tools options body build_id s)

  abbrev pub with_host : Result String × BuildState A W → BuildRequest B → String → BuildState A W
  with_host (err e, s) req build_id = fail_with e s
  with_host (ok host, s) req build_id =
      build_with (get_build_options out.json out.global req.query host) req.body build_id s

  -- From getBuildOptions on
  unfoldable pub run_build : BuildRequest B → String → BuildState A W → BuildState A W
  run_build req build_id s = with_host (out.get_buildkit_host s) req build_id

  abbrev pub store : String → Map A → BuildState A W → BuildState A W
  store build_id configs s = record s { cache = (store_auth_configs build_id configs s.cache).1 }

  -- The deferred RemoveCredentials, whose error is dropped
  abbrev pub remove : String → BuildState A W → BuildState A W
  remove build_id s = record s { cache = (remove_credentials build_id s.cache).1 }

  abbrev stored_build :
      BuildRequest B → String → Map A → Result (Unit {0}) → BuildState A W → BuildState A W
  stored_build req build_id configs (err e) s =
      fail_with (wrap "failed to store auth configs: " e "") s
  stored_build req build_id configs (ok t) s = run_build req build_id s

  abbrev pub with_build_id :
      Result String × BuildState A W → BuildRequest B → Map A → BuildState A W
  with_build_id (err e, s) req configs = fail_with (wrap "failed to generate build ID: " e "") s
  with_build_id (ok build_id, s) req configs = remove build_id (
      stored_build req build_id configs (store_auth_configs build_id configs s.cache).0
        (store build_id configs s))

  abbrev pub with_configs : Result (Map A) → BuildRequest B → BuildState A W → BuildState A W
  with_configs (err e) req s = fail_with (wrap "failed to decode registry config: " e "") s
  with_configs (ok []) req s = run_build req "" s
  with_configs (ok (config ∷ configs)) req s =
      with_build_id (generate_build_id s) req (config ∷ configs)

  abbrev auth_configs : String → Result (Map A)
  auth_configs header = if header == "" then ok [] else decode_registry_config out.decoders header

  -- build; `has_service` says whether there is a credential service.
  unfoldable pub build_handler : Bool → BuildRequest B → BuildState A W → BuildState A W
  build_handler has_service req s =
      if has_service
      then with_configs (auth_configs req.registry_config) req s
      else run_build req "" s

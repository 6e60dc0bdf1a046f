-- ===== src/Images/Handlers.antt =====
-- The HTTP handlers of api/handlers/image: inspect, remove and tag.
pub mod Transfer
use Prim.Native.String.{◌++◌}
use finch_daemon.Prelude.{
  ap, ◌∙◌, ℕ, String, Bool, true, false, ◌≡◌, refl, Option, none, some, List, [], ◌∷◌, ◌++◌ as ◌⧺◌,
  map, if◌then◌else◌, arith, inr, ap, ◌∙◌, sym,
}
use finch_daemon.Errors.{
  GoError, plain, wrap, message, is_not_found, is_conflict, is_invalid_format,
}
use finch_daemon.Act.{Result, ok, err, Result-cases}
use finch_daemon.Go.Maps.{Map}
use finch_daemon.Go.Strings.{is_empty}
use finch_daemon.Go.Strconv.{parse_bool}
use finch_daemon.Http.{
  Writer, error_body, value, fresh, json, status, send_error_response, set_json_type,
}
use finch_daemon.Http.Stream.{
  StreamResponse, StreamWriter, new_stream_writer, write_error, write_aux,
}
use finch_daemon.Http.Stream.Pull.{PullJobWriter, pull_write}
use finch_daemon.Images.Backend.{Image, ImageBackend}
use finch_daemon.Images.Auth.{AuthConfig}
use finch_daemon.Images.Reference.{parse_name_and_tag}
use finch_daemon.Images.Service.{inspect, export_, remove, tag, name_digest}
use finch_daemon.Images.Transfer.{PushResult, pull, push}
use finch_daemon.Images.Removal.{IsRemoval, digests, remove-IsRemoval}

-- What the handlers answer with, beside errors.
pub data Reply (I : Type 0) : Type 0 where
  removals : List (Map String) → Reply I
  inspected : I → Reply I
  text : String → Reply I

-- The path variable `name`, and URL.Query().Get
pub record Request : Type 0 where
  pub name : String
  pub query : String → String

unfoldable pub inspect_code : GoError → ℕ
unfolding is_not_found
inspect_code e = if is_not_found e then 404 else 500

unfoldable pub remove_code : GoError → ℕ
unfolding is_not_found is_conflict
remove_code e = if is_not_found e then 404 else if is_conflict e then 409 else 500

unfoldable pub transfer_code : GoError → ℕ
unfolding is_not_found is_invalid_format
transfer_code e = if is_not_found e then 404 else if is_invalid_format e then 400 else 500

abbrev parsed_force : Option Bool → Bool
parsed_force none = false
parsed_force (some force) = force

abbrev entry : String → String → Map String
entry key item = (key, item) ∷ []

-- buildRemoveResp
unfoldable pub build_remove_resp : List String → List String → List (Map String)
build_remove_resp untagged deleted = map (entry "Untagged") untagged ⧺ map (entry "Deleted") deleted

module _ {W P R I : Type 0} (b : ImageBackend W P R I) where
  abbrev answer_removed : Result (List String × List String) → Writer (Reply I)
  answer_removed (ok (deleted, untagged)) =
      json 200 (value (removals (build_remove_resp untagged deleted))) fresh
  answer_removed (err e) = send_error_response (remove_code e) e fresh

  -- remove
  unfoldable pub remove_handler : Request → W → Writer (Reply I) × W
  unfolding remove remove_code build_remove_resp json send_error_response
  remove_handler r w =
      let (result, w') = remove b r.name (parsed_force (parse_bool (r.query "force"))) w in
      (answer_removed result, w')

  abbrev answer_inspected : Result I → Writer (Reply I)
  answer_inspected (ok image) = json 200 (value (inspected image)) fresh
  answer_inspected (err e) = send_error_response (inspect_code e) e fresh

  -- inspect
  unfoldable pub inspect_handler : Request → W → Writer (Reply I) × W
  unfolding inspect inspect_code json send_error_response
  inspect_handler r w = let (result, w') = inspect b r.name w in (answer_inspected result, w')

  abbrev answer_tagged : Result (Unit {0}) → Writer (Reply I)
  answer_tagged (ok u) = json 201 (value (text "No error")) fresh
  answer_tagged (err e) = json (inspect_code e) (error_body (message e)) fresh

  -- tag
  unfoldable pub tag_handler : Request → W → Writer (Reply I) × W
  unfolding tag inspect_code json
  tag_handler r w =
      let (result, w') = tag b r.name (r.query "repo") (r.query "tag") w in
      (answer_tagged result, w')

module _ {W P R I : Type 0} (b : ImageBackend W P R I) where
  -- The answer to a removal that succeeds lists the references of the images that the search found
  -- as deleted, and their digests, as they were before each image was deleted, as untagged.
  pub remove_handler_lists :
      (r : Request) (w : W) (pair : List String × List String)
      → (remove b r.name (parsed_force (parse_bool (r.query "force"))) w).0 ≡ ok pair
      → (imgs : List Image) × IsRemoval b w r.name
          (parsed_force (parse_bool (r.query "force")))
          pair
          (remove_handler b r w).1
          imgs
        × ((remove_handler b r w).0.body
            ≡ value (
                removals (
                  map (entry "Untagged") (digests b w imgs w)
                  ⧺ map (entry "Deleted") (map name_digest imgs)))
              ∷ [])
  unfolding remove_handler build_remove_resp json
  remove_handler_lists r w pair h =
      let force = parsed_force (parse_bool (r.query "force")) in
      let (imgs, removal) = remove-IsRemoval b w r.name force pair h in
      let (match_count, unique_count, cs, found, fine, listed, none_, deletes, names, untagged) =
        removal in
      (
        imgs,
        removal,
        ap (λ result. (answer_removed b result).body) h
            ∙ ap (λ deleted. value (removals (build_remove_resp pair.1 deleted)) ∷ []) names
            ∙ ap (λ ds. value (removals (build_remove_resp ds (map name_digest imgs))) ∷ [])
                untagged,
      )

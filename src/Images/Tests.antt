-- ===== src/Images/Tests.antt =====
-- A small image store, on which the handlers run and the theorems are applied.
use Prim.Native.String.{◌++◌}
use finch_daemon.Prelude.{
  ℕ, String, ◌≡◌, refl, false, List, [], ◌∷◌, ◌++◌ as ◌⧺◌, map, some, ◌==◌, if◌then◌else◌,
}
use finch_daemon.Errors.{plain}
use finch_daemon.Act.{Result, ok, err}
use finch_daemon.Http.{value}
use finch_daemon.Go.Strconv.{parse_bool}
use finch_daemon.Go.Strings.{cut_prefix, has_code}
use finch_daemon.Containers.Backend.{running, Container}
use finch_daemon.Images.Backend.{Image, ImageBackend, get_used_images}
use finch_daemon.Images.Auth.{
  AuthConfig, convert_to_hostname, get_auth_creds, get_auth_creds_safe, creds_for, IsMeantFor,
}
use finch_daemon.Images.Reference.{
  to_image_ref, parse_name_and_tag, parse_name_and_tag-to_image_ref, port_drops_path,
}
use finch_daemon.Images.Service.{name_digest}
use finch_daemon.Images.Removal.{IsRemoval, digests, remove-IsRemoval}
use finch_daemon.Images.Handlers.{
  Request, remove_handler, remove_handler_lists, removals, tag_handler, inspect_handler,
}

-- The world is the names of the images; "web" runs and uses nginx.
abbrev image : String → Image
image name = record { name = name; digest = "sha256:ab" }

abbrev delete_name : String → List String → List String
delete_name n [] = []
delete_name n (m ∷ ms) = let rest = delete_name n ms in if n == m then rest else m ∷ rest

abbrev find_name : String → List String → List Image
find_name n [] = []
find_name n (m ∷ ms) = let rest = find_name n ms in if n == m then image m ∷ rest else rest

abbrev counted : List Image → ℕ × ℕ × List Image
counted [] = (0, 0, [])
counted (img ∷ imgs) = (1, 1, img ∷ imgs)

abbrev first : List Image → Result Image
first [] = err (plain "not found")
first (img ∷ imgs) = ok img

abbrev web : Container
web = record { id = "web" }

abbrev toy : ImageBackend (List String) (Unit {0}) (Unit {0}) Image
toy = record {
  search_images = λ n w. ok (find_name n w);
  search_image = λ n w. ok (counted (find_name n w));
  containers = λ w. ok (web ∷ []);
  container_image = λ c w. ok "nginx";
  container_status = λ c w. ok running;
  get_image_digests = λ img w. "sha256:cd" ∷ [];
  delete_image = λ n w. (ok tt, delete_name n w);
  inspect_image = λ img w. ok img;
  set_id = λ id i. i;
  export_image = λ names p w. (ok tt, w);
  walk = λ n w. ok (1, n ∷ []);
  get = λ n w. first (find_name n w);
  create = λ img w. (ok tt, img.name ∷ w);
  delete = λ n w. (ok tt, delete_name n w);
  publish_event = λ topic e w. (ok tt, w);
  parse_reference = λ s. ok s;
  parse_docker_ref = λ s. ok (s, "docker.io");
  canonicalize = λ n t. ok n;
  default_docker_host = λ d. ok "registry-1.docker.io";
  default_platform = tt;
  parse_platform = λ s. ok tt;
  get_docker_resolver = λ d c w. ok tt;
  pull_image = λ r ref p w. (ok tt, ref ∷ w);
  convert_image = λ dst src w. (ok (image dst), dst ∷ w);
  push_image = λ r push_ref ref w. (ok tt, w);
  pushed = λ ref w. ok ("sha256:ab", 7);
  is_already_exists = λ e. false;
  is_c_not_found = λ e. false;
  is_invalid_authorization = λ e. false;
}

abbrev ask : String → Request
ask name = record {
  name = name;
  query = λ key. if key == "repo" then "mine" else if key == "tag" then "v2" else "";
}

abbrev store : List String
store = "nginx" ∷ "redis" ∷ []

handlers : Unit {0}
unfolding remove_handler tag_handler inspect_handler get_used_images convert_to_hostname
handlers = tt

handler_tests :
    ((remove_handler toy (ask "redis") store).1 ≡ "nginx" ∷ [])
    × ((remove_handler toy (ask "nginx") store).0.code ≡ some 409)
    × ((remove_handler toy (ask "nope") store).0.code ≡ some 404)
    × ((tag_handler toy (ask "redis") store).1 ≡ "mine:v2" ∷ store)
    × ((inspect_handler toy (ask "nope") store).0.code ≡ some 404)
    × (convert_to_hostname "https://ghcr.io/v2/" ≡ "ghcr.io")
unfolding handlers
handler_tests = (refl, refl, refl, refl, refl, refl)

abbrev asked : String → String → String → String
asked image_ tag_ key = if key == "fromImage" then image_ else if key == "tag" then tag_ else ""

abbrev digest_ref : String → String
digest_ref key = asked "alpine@sha256:ab" "" key

parse_name_and_tag-to_image_ref_example : parse_name_and_tag digest_ref ≡ ok ("alpine", "sha256:ab")
unfolding to_image_ref has_code
parse_name_and_tag-to_image_ref_example =
    parse_name_and_tag-to_image_ref "alpine" "sha256:ab" digest_ref (refl, refl, refl) refl refl
      refl

abbrev with_port : String → String
with_port key = asked "localhost:5000/foo" "v1" key

port_drops_path_example :
    (parse_name_and_tag with_port ≡ ok ("localhost", "v1"))
    × (to_image_ref "localhost" "v1" ≡ "localhost" ++ (":" ++ "v1"))
unfolding has_code cut_prefix
port_drops_path_example =
    port_drops_path "localhost" "5000/foo" "v1" with_port (refl, refl, refl) refl refl refl refl

abbrev user : AuthConfig
user = record {
  username = "u";
  password = "p";
  server_address = "https://ghcr.io";
  identity_token = "";
  registry_token = "";
}

abbrev same_host : String → Result String
same_host d = ok d

get_auth_creds_safe_example :
    (same_host "ghcr.io" ≡ ok "ghcr.io") × IsMeantFor same_host user "ghcr.io" "ghcr.io"
unfolding get_auth_creds convert_to_hostname
get_auth_creds_safe_example =
    get_auth_creds_safe same_host "ghcr.io" user (creds_for "ghcr.io" user) "ghcr.io" ("u", "p")
      refl refl

abbrev removed : List String × List String
removed = ("redis:sha256:ab" ∷ [], "sha256:cd" ∷ [])

remove-IsRemoval_example :
    (imgs : List Image) × IsRemoval toy store "redis" false removed ("nginx" ∷ []) imgs
unfolding handlers
remove-IsRemoval_example = remove-IsRemoval toy store "redis" false removed refl

remove_handler_lists_example :
    (imgs : List Image) × IsRemoval toy store "redis" false removed ("nginx" ∷ []) imgs
    × ((remove_handler toy (ask "redis") store).0.body
        ≡ value (
            removals (
              map (λ d. ("Untagged", d) ∷ []) (digests toy store imgs store)
              ⧺ map (λ n. ("Deleted", n) ∷ []) (map name_digest imgs)))
          ∷ [])
unfolding handlers parse_bool
remove_handler_lists_example = remove_handler_lists toy (ask "redis") store removed refl

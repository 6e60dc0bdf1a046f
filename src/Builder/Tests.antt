-- ===== src/Builder/Tests.antt =====
-- A build on concrete values.
use finch_daemon.Prelude.{◌≡◌, ◌≢◌, refl, ℕ, true, String, Option, none, some, [], ◌∷◌}
use finch_daemon.Errors.{GoError, plain}
use finch_daemon.Act.{ok, err, pure}
use finch_daemon.Go.Maps.{Map, lookup}
use finch_daemon.Http.{Writer}
use finch_daemon.Http.Stream.{StreamResponse, new_stream_writer}
use finch_daemon.Builder.Options.{BuildOptions}
use finch_daemon.Builder.Service.{
  BuildState, Tools, build, publish_tags, publish_tag_event, get_tag_event, report, truncate_id,
}
use finch_daemon.Builder.Handler.{
  BuildRequest, Outside, generate_build_id, run_build, build_handler, decode_registry_config,
  remove,
}
use finch_daemon.Builder.Tags.{Published, build-Published}
use finch_daemon.Builder.Lifetime.{IsRegistered, build_has_credentials, credentials_removed}

abbrev One : Type 0
One = Unit {0}

abbrev S : Type 0
S = BuildState ℕ One

abbrev never_fails : StreamResponse → Writer StreamResponse → Option GoError
never_fails r w = none

abbrev tools : Tools ℕ One One One One
tools = record {
  extract_in_temp = λ body name. pure tt;
  get_dir = λ cmd. "/tmp/build-context1";
  run = λ cmd. pure tt;
  cleanup = λ cmd s. s;
  nctl_build = λ options id. pure tt;
  search_image = λ tag. pure (1, "sha256:0123456789abcdef" ∷ []);
  publish_event = λ topic event. pure tt;
}

abbrev one_map : Map ℕ
one_map = ("docker.io", 1) ∷ []

abbrev out : Outside ℕ One One One One
out = record {
  tools = tools;
  json = record { unmarshal_map = λ s. err (plain "no map"); unmarshal_array = λ s. ok [] };
  decoders = record { decode_base64 = λ s. ok s; unmarshal_configs = λ s. ok one_map };
  read_random = pure "id";
  encode_to_string = λ s. s;
  get_buildkit_host = pure "unix:///run/buildkit.sock";
  marshal = λ s. ok s;
  global = tt;
}

abbrev begin_state : S
begin_state = record { stream = new_stream_writer true; cache = []; world = tt }

abbrev options : BuildOptions One
options = record {
  global = tt;
  build_kit_host = "";
  build_context = "";
  tag = some ("app:1" ∷ []);
  file = "Dockerfile";
  target = "";
  platform = none;
  rm = true;
  progress = "auto";
  quiet = true;
  no_cache = true;
  cache_from = [];
  build_args = [];
  label = [];
  network_mode = "";
  output = "";
}

built : (build never_fails tools options tt "" begin_state).0 ≡ ok ("0123456789ab" ∷ [])
unfolding build publish_tags publish_tag_event get_tag_event truncate_id report
built = refl

build-Published_example : Published never_fails tools ("app:1" ∷ []) ("0123456789ab" ∷ [])
build-Published_example =
    build-Published never_fails tools options tt "" begin_state ("0123456789ab" ∷ []) built

abbrev request : BuildRequest One
request = record { registry_config = "e30="; query = λ name. none; body = tt }

registered : IsRegistered never_fails out request "id" one_map begin_state begin_state
unfolding decode_registry_config generate_build_id
registered = record { has_header = refl; decoded = refl; some_config = λ e. cc e; generated = refl }

build_has_credentials_example :
    (before : S) × (lookup "id" before.cache ≡ some one_map)
    × ((j : String) → j ≢ "id" → lookup j before.cache ≡ lookup j begin_state.cache)
    × (build_handler never_fails out true request begin_state
        ≡ remove never_fails out "id" (run_build never_fails out request "id" before))
build_has_credentials_example =
    build_has_credentials never_fails out request "id" one_map begin_state begin_state registered

credentials_removed_example :
    lookup "id" (build_handler never_fails out true request begin_state).cache ≡ none
credentials_removed_example =
    credentials_removed never_fails out request "id" one_map begin_state begin_state registered

-- ===== src/Volumes/Tests.antt =====
-- A small store of volumes, on which the handlers run and the theorems are applied.
use finch_daemon.Prelude.{String, ◌≡◌, refl, List, [], ◌∷◌, some}
use finch_daemon.Errors.{plain, message}
use finch_daemon.Act.{Result, ok, err}
use finch_daemon.Go.Strconv.{parse_bool}
use finch_daemon.Http.{error_body}
use finch_daemon.Http.Stream.{contains}
use finch_daemon.Volumes.Service.{VolumeBackend}
use finch_daemon.Volumes.Handlers.{
  FilterJsonRequest, list_handler, remove_handler, inspect_handler, create_handler, filter_slice,
}
use finch_daemon.Volumes.Laws.{list_answers_twice, list_body}

-- The world is the names of the volumes; those that are mounted are not removed.
abbrev toy : VolumeBackend (List String) String
toy = record {
  create_volume = λ name labels w. (ok name, name ∷ w);
  get_volume = λ name w. err (plain "volume \"nope\" not found");
  list_volumes = λ filters w. ok w;
  remove_volume = λ name force w. (err (plain "volume \"db\" is in use"), w);
}

abbrev unmarshal : String → Result FilterJsonRequest
unmarshal s = err (plain "invalid character")

handlers : Unit {0}
unfolding list_handler remove_handler inspect_handler create_handler filter_slice contains
    parse_bool
handlers = tt

volume_tests :
    ((remove_handler toy "db" "" ("db" ∷ [])).0.code ≡ some 409)
    × ((inspect_handler toy "nope" []).code ≡ some 404)
    × ((create_handler toy (ok (record { name = "new"; labels = [] })) []).1 ≡ "new" ∷ [])
    × (filter_slice
          (record { name = "test" ∷ "bar" ∷ []; driver = "foo" ∷ []; labels = []; dangling = [] })
        ≡ "driver=foo" ∷ "name=test" ∷ "name=bar" ∷ [])
unfolding handlers
volume_tests = (refl, refl, refl, refl)

list_answers_twice_example :
    ((list_handler toy unmarshal "{" ("db" ∷ [])).code ≡ some 500)
    × ((list_handler toy unmarshal "{" ("db" ∷ [])).header_calls ≡ 2)
    × ((list_handler toy unmarshal "{" ("db" ∷ [])).body
        ≡ error_body (message (plain "invalid character"))
          ∷ list_body toy (toy.list_volumes [] ("db" ∷ []))
          ∷ [])
list_answers_twice_example =
    list_answers_twice toy unmarshal "{" ("db" ∷ []) (plain "invalid character") refl refl

-- ===== src/Http.antt =====
-- api/response/json.go and error.go, over net/http's ResponseWriter.
pub mod Stream
use finch_daemon.Prelude.{
  ℕ, ◌+◌, String, Option, none, some, List, [], ◌∷◌, ◌++◌, nat_eq, if◌then◌else◌,
}
use finch_daemon.Errors.{GoError, message}

-- What is handed to the JSON encoder: the `Error` structure, or a value.
pub data Body (A : Type 0) : Type 0 where
  error_body : String → Body A
  value : A → Body A

-- A ResponseWriter: the Content-Type in its header map, the status that was sent, how often
-- WriteHeader was called, and the JSON values written so far.
pub record Writer (A : Type 0) : Type 0 where
  pub content_type : String
  pub code : Option ℕ
  pub header_calls : ℕ
  pub body : List (Body A)

abbrev pub json_type : String
json_type = "application/json"

-- net/http sends the first status only; a later call is superfluous.
abbrev pub or_else : Option ℕ → ℕ → Option ℕ
or_else none code = some code
or_else (some sent) code = some sent

module _ {A : Type 0} where
  abbrev pub fresh : Writer A
  fresh = record { content_type = ""; code = none; header_calls = 0; body = [] }

  abbrev pub set_json_type : Writer A → Writer A
  set_json_type w = record w { content_type = json_type }

  abbrev pub write_header : ℕ → Writer A → Writer A
  write_header code w = record w { code = or_else w.code code; header_calls = w.header_calls + 1 }

  -- net/http sends the status 200 before the first byte of a body with no status.
  abbrev pub write_body : Body A → Writer A → Writer A
  write_body b w = record w { code = or_else w.code 200; body = w.body ++ b ∷ [] }

  -- Status
  abbrev pub status : ℕ → Writer A → Writer A
  status code w = write_header code w

  -- JSON
  unfoldable pub json : ℕ → Body A → Writer A → Writer A
  json code b w = write_body b (write_header code (set_json_type w))

  -- SendErrorResponse
  unfoldable pub send_error_response : ℕ → GoError → Writer A → Writer A
  unfolding json message
  send_error_response code err w =
      if nat_eq code 304 then write_header code w else json code (error_body (message err)) w

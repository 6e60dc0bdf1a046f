-- ===== src/Http/Stream.antt =====
-- api/response/streamwriter.go: the JSON stream of a build, push or pull.
pub mod Laws
pub mod Pull
mod Tests
use text.Mathlib.Text.{find?}
use finch_daemon.Prelude.{
  ℕ, ◌+◌, String, Bool, true, false, Option, none, some, List, [], ◌∷◌, if◌then◌else◌,
}
use finch_daemon.Errors.{GoError, message}
use finch_daemon.Http.{
  Writer, Body, value, fresh, set_json_type, write_header, write_body, send_error_response,
}

-- jsonmessage.JSONError
pub record JsonError : Type 0 where
  pub code : ℕ
  pub text : String

pub record StreamResponse : Type 0 where
  pub stream : String
  pub error : Option JsonError
  pub error_message : String
  pub aux : Option String

abbrev pub stream_of : String → StreamResponse
stream_of b = record { stream = b; error = none; error_message = ""; aux = none }

abbrev pub error_of : ℕ → GoError → StreamResponse
error_of code err = record {
  stream = "";
  error = some (record { code = code; text = message err });
  error_message = message err;
  aux = none;
}

abbrev pub aux_of : String → StreamResponse
aux_of b = record { stream = ""; error = none; error_message = ""; aux = some b }

-- `started` is the state of the `sync.Once`; `flushed` counts the chunks that Flush has pushed out.
pub record StreamWriter : Type 0 where
  pub response_writer : Writer StreamResponse
  pub has_flusher : Bool
  pub started : Bool
  pub flushes : ℕ

-- NewStreamWriter, over a ResponseWriter that was not written to
abbrev pub new_stream_writer : Bool → StreamWriter
new_stream_writer flusher = record {
  response_writer = fresh;
  has_flusher = flusher;
  started = false;
  flushes = 0;
}

-- `initializer.Do` with the function that the writing methods give it
abbrev start_ok : StreamWriter → StreamWriter
start_ok sw = if sw.started then sw else record sw {
  response_writer = write_header 200 (set_json_type sw.response_writer);
  started = true;
}

abbrev flush : StreamWriter → StreamWriter
flush sw = if sw.has_flusher then record sw { flushes = sw.flushes + 1 } else sw

abbrev put : StreamResponse → StreamWriter → StreamWriter
put r sw = record sw { response_writer = write_body (value r) sw.response_writer }

-- `encode_error r w` is the error with which `jsonEncoder.Encode` fails, if it does.
module _ (encode_error : StreamResponse → Writer StreamResponse → Option GoError) where
  encode : StreamResponse → StreamWriter → Option GoError × StreamWriter
  encode r sw = elim (encode_error r sw.response_writer) [
    | none ↦ (none, put r sw)
    | some e ↦ (some e, sw)
  ]

  -- flushes unless the encoder failed
  flush_unless : Option GoError × StreamWriter → Option GoError × StreamWriter
  flush_unless (none, sw) = (none, flush sw)
  flush_unless (some e, sw) = (some e, sw)

  -- Write; the number of bytes that it returns is left out
  unfoldable pub write : String → StreamWriter → Option GoError × StreamWriter
  unfolding encode flush_unless
  write b sw = flush_unless (encode (stream_of b) (start_ok sw))

  -- WriteError
  unfoldable pub write_error : ℕ → GoError → StreamWriter → Option GoError × StreamWriter
  unfolding encode send_error_response
  write_error code err sw = if sw.started then encode (error_of code err) sw else (
    none,
    record sw { response_writer = send_error_response code err sw.response_writer; started = true },
  )

  -- WriteAux
  unfoldable pub write_aux : String → StreamWriter → Option GoError × StreamWriter
  unfolding encode flush_unless
  write_aux b sw = flush_unless (encode (aux_of b) (start_ok sw))

-- strings.Contains
unfoldable pub contains : String → String → Bool
contains s part = elim (find? s part) [ none ↦ false | some at ↦ true ]

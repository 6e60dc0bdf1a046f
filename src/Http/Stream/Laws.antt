-- ===== src/Http/Stream/Laws.antt =====
-- One status line for a whole stream (api/response/streamwriter.go).
use mathlib.Core.List.{append-nil, append_assoc}
use finch_daemon.Prelude.{
  ℕ, ◌++◌, map, sym, nat_eq, if◌then◌else◌, String, ◌≡◌, Bool, true, Option, none, some, List, [],
  ◌∷◌, arith,
}
use finch_daemon.Errors.{GoError, message}
use finch_daemon.Http.{Writer, Body, value, error_body}
use finch_daemon.Http.Stream.{
  StreamResponse, StreamWriter, stream_of, error_of, aux_of, write, write_error, write_aux,
  new_stream_writer, start_ok,
}

-- A call of one of the writing methods.
pub data Call : Type 0 where
  chunk : String → Call
  failure : ℕ → GoError → Call
  auxiliary : String → Call

-- The status that the call sends if it is the first.
abbrev pub first_status : Call → ℕ
first_status (chunk b) = 200
first_status (failure code e) = code
first_status (auxiliary b) = 200

-- `initializer` has run, with this status.
record IsStarted (status : ℕ) (sw : StreamWriter) : Type 0 where
  begun : sw.started ≡ true
  sent : sw.response_writer.code ≡ some status
  once : sw.response_writer.header_calls ≡ 1

module _ (encode_error : StreamResponse → Writer StreamResponse → Option GoError) where
  abbrev pub call : Call → StreamWriter → StreamWriter
  call (chunk b) sw = (write encode_error b sw).1
  call (failure code e) sw = (write_error encode_error code e sw).1
  call (auxiliary b) sw = (write_aux encode_error b sw).1

  unfoldable pub calls : List Call → StreamWriter → StreamWriter
  unfolding write write_error write_aux
  calls [] sw = sw
  calls (c ∷ cs) sw = calls cs (call c sw)

  call-IsStarted :
      {status : ℕ} (c : Call) (sw : StreamWriter)
      → IsStarted status sw
      → IsStarted status (call c sw)
  unfolding write write_error write_aux
  call-IsStarted (chunk b) sw h = ground arith
  call-IsStarted (failure code e) sw h = ground arith
  call-IsStarted (auxiliary b) sw h = ground arith

  calls-IsStarted :
      {status : ℕ} (cs : List Call) (sw : StreamWriter)
      → IsStarted status sw
      → IsStarted status (calls cs sw)
  unfolding calls
  calls-IsStarted [] sw h = h
  calls-IsStarted (c ∷ cs) sw h = calls-IsStarted cs (call c sw) (call-IsStarted c sw h)

  first-IsStarted :
      (flusher : Bool) (c : Call) → IsStarted (first_status c) (call c (new_stream_writer flusher))
  unfolding write write_error write_aux
  first-IsStarted flusher (chunk b) = ground arith
  first-IsStarted flusher (failure code e) = ground arith
  first-IsStarted flusher (auxiliary b) = ground arith

  -- Whatever is written to a new stream, and whether or not the encoder fails, WriteHeader is
  -- called once and the status is that of the first call: 200, or the code of a first WriteError.
  pub one_status_line :
      (flusher : Bool) (c : Call) (cs : List Call)
      → ((calls (c ∷ cs) (new_stream_writer flusher)).response_writer.code ≡ some (first_status c))
        × ((calls (c ∷ cs) (new_stream_writer flusher)).response_writer.header_calls ≡ 1)
  unfolding calls
  one_status_line flusher c cs =
      let h = calls-IsStarted cs _ (first-IsStarted flusher c) in (h.sent, h.once)

-- What a call adds to the body when it is the first.
abbrev pub first_body : Call → List (Body StreamResponse)
first_body (chunk b) = value (stream_of b) ∷ []
first_body (failure code e) = if nat_eq code 304 then [] else error_body (message e) ∷ []
first_body (auxiliary b) = value (aux_of b) ∷ []

-- What a later call adds to it.
abbrev pub later_body : Call → Body StreamResponse
later_body (chunk b) = value (stream_of b)
later_body (failure code e) = value (error_of code e)
later_body (auxiliary b) = value (aux_of b)

module _ (encode_error : StreamResponse → Writer StreamResponse → Option GoError)
    (works : (r : StreamResponse) (w : Writer StreamResponse) → encode_error r w ≡ none) where
  body-call :
      (c : Call) (sw : StreamWriter)
      → sw.started ≡ true
      → (call encode_error c sw).response_writer.body ≡ sw.response_writer.body ++ later_body c ∷ []
  unfolding write write_error write_aux
  body-call (chunk b) sw h = ground (arith, works (stream_of b) sw.response_writer)
  body-call (failure code e) sw h = ground (arith, works (error_of code e) sw.response_writer)
  body-call (auxiliary b) sw h = ground (arith, works (aux_of b) sw.response_writer)

  started-call : (c : Call) (sw : StreamWriter) → (call encode_error c sw).started ≡ true
  unfolding write write_error write_aux
  started-call (chunk b) sw = ground arith
  started-call (failure code e) sw = ground arith
  started-call (auxiliary b) sw = ground arith

  body-calls :
      (cs : List Call) (sw : StreamWriter)
      → sw.started ≡ true
      → (calls encode_error cs sw).response_writer.body
        ≡ sw.response_writer.body ++ map later_body cs
  unfolding calls
  body-calls [] sw h = sym (append-nil _)
  body-calls (c ∷ cs) sw h =
      rw (body-calls cs (call encode_error c sw) (started-call c sw), body-call c sw h)
        (append_assoc sw.response_writer.body (later_body c ∷ []) (map later_body cs))

  body-first :
      (flusher : Bool) (c : Call)
      → (call encode_error c (new_stream_writer flusher)).response_writer.body ≡ first_body c
  unfolding write write_error write_aux
  body-first flusher (chunk b) =
      ground (arith, works (stream_of b) (start_ok (new_stream_writer flusher)).response_writer)
  body-first flusher (failure code e) = ground arith
  body-first flusher (auxiliary b) =
      ground (arith, works (aux_of b) (start_ok (new_stream_writer flusher)).response_writer)

  -- If the encoder never fails, the body is one JSON value for each call, in order; only a failure
  -- that comes first is sent as a plain error, with no body at all if its code is 304.
  stream_body :
      (flusher : Bool) (c : Call) (cs : List Call)
      → (calls encode_error (c ∷ cs) (new_stream_writer flusher)).response_writer.body
        ≡ first_body c ++ map later_body cs
  unfolding calls
  stream_body flusher c cs = rw (
    body-calls cs (call encode_error c (new_stream_writer flusher)) (started-call c _),
    body-first flusher c,
  )

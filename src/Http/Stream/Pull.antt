-- ===== src/Http/Stream/Pull.antt =====
-- The writer of an image pull (api/response/streamwriter.go, `pullJobWriter`).
use finch_daemon.Prelude.{
  String, ◌≡◌, refl, Bool, true, false, Option, List, arith, [], ◌∷◌, if◌then◌else◌,
}
use finch_daemon.Errors.{GoError}
use finch_daemon.Http.{Writer}
use finch_daemon.Http.Stream.{StreamResponse, StreamWriter, contains, write, new_stream_writer}
use finch_daemon.Http.Stream.Laws.{Call, chunk, failure, auxiliary, call, calls}

-- The mutex around `resolved` makes each access one step.
pub record PullJobWriter : Type 0 where
  pub stream_writer : StreamWriter
  pub resolved : Bool

abbrev pub new_pull_job_writer : Bool → PullJobWriter
new_pull_job_writer flusher = record { stream_writer = new_stream_writer flusher; resolved = false }

abbrev resolve : PullJobWriter → PullJobWriter
resolve pw = record pw { resolved = true }

module _ (encode_error : StreamResponse → Writer StreamResponse → Option GoError) where
  abbrev through : String → PullJobWriter → PullJobWriter
  through b pw = record pw { stream_writer = (write encode_error b pw.stream_writer).1 }

  -- Write
  unfoldable pub pull_write : String → PullJobWriter → PullJobWriter
  pull_write b pw =
      if pw.resolved
      then through b pw
      else if contains b "resolved"
      then through b (resolve pw)
      else pw

  -- WriteError and WriteAux are those of the embedded StreamWriter.
  abbrev pull_call : Call → PullJobWriter → PullJobWriter
  pull_call (chunk b) pw = pull_write b pw
  pull_call (failure code e) pw = record pw {
    stream_writer = call encode_error (failure code e) pw.stream_writer;
  }
  pull_call (auxiliary b) pw = record pw {
    stream_writer = call encode_error (auxiliary b) pw.stream_writer;
  }

  pub pull_calls : List Call → PullJobWriter → PullJobWriter
  pull_calls [] pw = pw
  pull_calls (c ∷ cs) pw = pull_calls cs (pull_call c pw)

  pull_calls_resolved :
      (cs : List Call) (sw : StreamWriter)
      → (pull_calls cs (record { stream_writer = sw; resolved = true })).stream_writer
        ≡ calls encode_error cs sw
  unfolding pull_calls calls pull_write
  pull_calls_resolved [] sw = refl
  pull_calls_resolved (chunk b ∷ cs) sw = pull_calls_resolved cs (call encode_error (chunk b) sw)
  pull_calls_resolved (failure code e ∷ cs) sw =
      pull_calls_resolved cs (call encode_error (failure code e) sw)
  pull_calls_resolved (auxiliary b ∷ cs) sw =
      pull_calls_resolved cs (call encode_error (auxiliary b) sw)

-- The calls that reach the client: output before the image is resolved is dropped, errors are not.
unfoldable pub from_resolved : List Call → List Call
from_resolved [] = []
from_resolved (chunk b ∷ cs) =
    let rest = from_resolved cs in if contains b "resolved" then chunk b ∷ cs else rest
from_resolved (failure code e ∷ cs) = failure code e ∷ from_resolved cs
from_resolved (auxiliary b ∷ cs) = auxiliary b ∷ from_resolved cs

module _ (encode_error : StreamResponse → Writer StreamResponse → Option GoError) where
  unresolved-eq :
      (cs : List Call) (sw : StreamWriter)
      → (pull_calls encode_error cs (record { stream_writer = sw; resolved = false })).stream_writer
        ≡ calls encode_error (from_resolved cs) sw
  unfolding pull_calls calls pull_write from_resolved
  unresolved-eq [] sw = refl
  unresolved-eq (chunk b ∷ cs) sw = ground (
    arith,
    unresolved-eq cs sw,
    pull_calls_resolved encode_error cs (call encode_error (chunk b) sw),
  )
  unresolved-eq (failure code e ∷ cs) sw = unresolved-eq cs (call encode_error (failure code e) sw)
  unresolved-eq (auxiliary b ∷ cs) sw = unresolved-eq cs (call encode_error (auxiliary b) sw)

  -- A pull writer behaves as a stream writer that is given the calls from the first output that
  -- contains "resolved" on, and before it the errors and the auxiliary data alone.
  pub pull_calls-eq :
      (flusher : Bool) (cs : List Call)
      → (pull_calls encode_error cs (new_pull_job_writer flusher)).stream_writer
        ≡ calls encode_error (from_resolved cs) (new_stream_writer flusher)
  pull_calls-eq flusher cs = unresolved-eq cs (new_stream_writer flusher)

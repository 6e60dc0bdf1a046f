-- ===== src/Http/Stream/Tests.antt =====
-- Streams on concrete calls.
use finch_daemon.Prelude.{◌≡◌, refl, true, List, [], ◌∷◌, Option, none, some}
use finch_daemon.Errors.{GoError, plain}
use finch_daemon.Http.{Writer}
use finch_daemon.Http.Stream.{StreamResponse, new_stream_writer, contains}
use finch_daemon.Http.Stream.Laws.{Call, chunk, failure, calls, one_status_line}
use finch_daemon.Http.Stream.Pull.{pull_calls, pull_calls-eq, from_resolved, new_pull_job_writer}

abbrev encode_error : StreamResponse → Writer StreamResponse → Option GoError
encode_error r w = none

abbrev later : List Call
later = chunk "step 2" ∷ failure 500 (plain "build failed") ∷ []

one_status_line_example :
    ((calls encode_error (chunk "step 1" ∷ later) (new_stream_writer true)).response_writer.code
      ≡ some 200)
    × ((calls encode_error
          (chunk "step 1" ∷ later)
          (new_stream_writer true)).response_writer.header_calls
        ≡ 1)
one_status_line_example = one_status_line encode_error true (chunk "step 1") later

abbrev pull : List Call
pull = chunk "elapsed" ∷ chunk "docker.io/x: resolved" ∷ chunk "done" ∷ []

pull_calls-eq_example :
    (pull_calls encode_error pull (new_pull_job_writer true)).stream_writer
    ≡ calls encode_error (from_resolved pull) (new_stream_writer true)
pull_calls-eq_example = pull_calls-eq encode_error true pull

from_resolved_test : from_resolved pull ≡ chunk "docker.io/x: resolved" ∷ chunk "done" ∷ []
unfolding from_resolved contains
from_resolved_test = refl

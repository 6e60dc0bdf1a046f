-- ===== src/Containers/Top/Tests.antt =====
-- Rows of a concrete output of ps.
use finch_daemon.Prelude.{String, ◌≡◌, refl, List, [], ◌∷◌, map}
use finch_daemon.Act.{ok}
use finch_daemon.Go.Maps.{lookup, insert, delete}
use finch_daemon.Go.Strings.{fields, split_by, nonempty, is_space, trim_space, join}
use finch_daemon.Containers.Top.{
  command_index, values, joined_from, assign, row, process_of, parse_top_output,
}
use finch_daemon.Containers.Top.Rows.{padded_process, parse_top_output-padded}

abbrev nginx : List (List String)
nginx = ("7" ∷ "root" ∷ "nginx -g x" ∷ []) ∷ ("8" ∷ "" ∷ "" ∷ []) ∷ []

parsed :
    parse_top_output ("PID  USER CMD" ∷ "7 root nginx  -g x" ∷ "  " ∷ "8" ∷ [])
    ≡ ok ("PID" ∷ "USER" ∷ "CMD" ∷ [], nginx)
unfolding parse_top_output process_of fields trim_space split_by nonempty is_space command_index
    values joined_from assign row lookup insert delete join
parsed = refl

parse_top_output-padded_example :
    ("PID" ∷ "USER" ∷ "CMD" ∷ [] ≡ fields "PID  USER CMD")
    × (nginx
        ≡ map
            (padded_process ("PID" ∷ "USER" ∷ "CMD" ∷ []))
            (nonempty (map trim_space ("7 root nginx  -g x" ∷ "  " ∷ "8" ∷ []))))
parse_top_output-padded_example =
    parse_top_output-padded "PID  USER CMD" "7 root nginx  -g x" ("  " ∷ "8" ∷ [])
      ("PID" ∷ "USER" ∷ "CMD" ∷ []) nginx parsed ((refl, (refl, tt)), ((refl, tt), (tt, tt)))

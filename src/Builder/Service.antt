-- ===== src/Builder/Service.antt =====
-- internal/service/builder/build.go.
use Prim.Native.Char.{code}
use Prim.Native.String.{◌++◌}
use finch_daemon.Prelude.{
  ℕ, zero, suc, String, not, Option, none, some, List, [], ◌∷◌, nat_eq, if◌then◌else◌,
}
use finch_daemon.Errors.{GoError, plain, new_not_found, message}
use finch_daemon.Act.{ok, err, Act, pure, fail, ◌>>=◌, ◌>>◌}
use finch_daemon.Http.{Writer}
use finch_daemon.Http.Stream.{StreamResponse, StreamWriter, write}
use finch_daemon.Credentials.Cache.{Cache}
use finch_daemon.Builder.Options.{BuildOptions}

-- What a build works on: the stream of the request, the shared cache of credentials, and the rest.
pub record BuildState (A W : Type 0) : Type 0 where
  pub stream : StreamWriter
  pub cache : Cache A
  pub world : W

-- events.Event
pub record Event : Type 0 where
  pub id : String
  pub status : String
  pub kind : String
  pub action : String
  pub actor_id : String
  pub name : String

-- The tar extractor (its commands are `T`, its archives `B`), nerdctl's builder, image search (the
-- unique count, and the digests of the images) and containerd's events. nerdctl writes to the
-- stream, and other requests run in the meantime.
pub record Tools (A W G T B : Type 0) : Type 1 where
  pub extract_in_temp : B → String → Act (BuildState A W) T
  pub get_dir : T → String
  pub run : T → Act (BuildState A W) (Unit {0})
  pub cleanup : T → BuildState A W → BuildState A W
  pub nctl_build : BuildOptions G → String → Act (BuildState A W) (Unit {0})
  pub search_image : String → Act (BuildState A W) (ℕ × List String)
  pub publish_event : String → Event → Act (BuildState A W) (Unit {0})

-- The text after the first colon, if there is one.
abbrev after_colon : String → Option String
after_colon String.[] = none
after_colon (String.◌∷◌ c s) =
    let rest = after_colon s in if nat_eq (code c) b':' then some s else rest

unfoldable pub first_chars : ℕ → String → String
first_chars zero s = ""
first_chars (suc n) String.[] = ""
first_chars (suc n) (String.◌∷◌ c s) = String.◌∷◌ c (first_chars n s)

abbrev pub short_len : ℕ
short_len = 12

abbrev or_self : Option String → String → String
or_self none id = id
or_self (some s) id = s

-- truncateID, on digests, whose characters are single bytes
unfoldable pub truncate_id : String → String
unfolding first_chars
truncate_id id = first_chars short_len (or_self (after_colon id) id)

abbrev pub tag_topic : String
tag_topic = "/dockercompat/image/tag"

-- getTagEvent
unfoldable pub get_tag_event : String → String → Event
get_tag_event digest img_name = record {
  id = truncate_id digest;
  status = "tag";
  kind = "image";
  action = "tag";
  actor_id = digest;
  name = img_name;
}

abbrev pub tags_of : Option (List String) → List String
tags_of none = []
tags_of (some tags) = tags

-- The error that a failing step is replaced by
abbrev pub or_error : {S A : Type 0} → (GoError → GoError) → Act S A → Act S A
or_error f m s = elim (m s).0 [ ok a ↦ (ok a, (m s).1) | err e ↦ (err (f e), (m s).1) ]

module _ {A W G T B : Type 0}
    (encode_error : StreamResponse → Writer StreamResponse → Option GoError)
    (tools : Tools A W G T B) where
  abbrev pub publish : String → String → Act (BuildState A W) Event
  publish tag digest =
      or_error
        (λ e. plain ("failed to publish tag event for image " ++ (tag ++ (": " ++ message e))))
        (tools.publish_event tag_topic (get_tag_event digest tag))
      >> pure (get_tag_event digest tag)

  abbrev pub with_images : String → ℕ × List String → Act (BuildState A W) Event
  with_images tag (unique_count, []) = fail (new_not_found (plain ("no such image: " ++ tag)))
  with_images tag (unique_count, digest ∷ digests) =
      if nat_eq unique_count 0
      then fail (new_not_found (plain ("no such image: " ++ tag)))
      else if not (nat_eq unique_count 1)
      then fail (plain ("multiple images exist with tag " ++ tag))
      else publish tag digest

  -- publishTagEvent
  unfoldable pub publish_tag_event : String → Act (BuildState A W) Event
  publish_tag_event tag = tools.search_image tag >>= with_images tag

  -- `options.Stdout.Write` with the line for an image
  unfoldable pub report : String → Act (BuildState A W) (Unit {0})
  report id s = (
    ok tt,
    record s { stream = (write encode_error ("Successfully built " ++ (id ++ "\n")) s.stream).1 },
  )

  -- The loop over the tags; the results are the IDs of their events.
  unfoldable pub publish_tags : List String → Act (BuildState A W) (List String)
  publish_tags [] = pure []
  publish_tags (tag ∷ tags) = publish_tag_event tag >>= (λ tag_event.
      report tag_event.id >> (publish_tags tags >>= (λ result. pure (tag_event.id ∷ result))))

  abbrev pub build_extracted : BuildOptions G → String → T → Act (BuildState A W) (List String)
  build_extracted options build_id cmd =
      or_error (λ e. plain "failed to extract build context in temp folder") (tools.run cmd)
      >> tools.nctl_build
          (record options {
            build_context = tools.get_dir cmd;
            file = tools.get_dir cmd ++ ("/" ++ options.file);
          })
          build_id
      >> publish_tags (tags_of options.tag)

  -- The deferred Cleanup
  abbrev pub then_cleanup :
      T → Act (BuildState A W) (List String) → Act (BuildState A W) (List String)
  then_cleanup cmd m s = ((m s).0, tools.cleanup cmd (m s).1)

  -- Build
  unfoldable pub build : BuildOptions G → B → String → Act (BuildState A W) (List String)
  build options tar_body build_id =
      tools.extract_in_temp tar_body "build-context"
      >>= (λ cmd. then_cleanup cmd (build_extracted options build_id cmd))

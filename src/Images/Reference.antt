-- ===== src/Images/Reference.antt =====
-- The reference of an image to pull: parseNameAndTag of api/handlers/image/pull.go and toImageRef
-- of internal/service/image/pull.go.
use Prim.Native.Char.{Char, code}
use Prim.Native.String.{◌++◌}
use Prim.Native.String.append
use finch_daemon.Prelude.{
  String, ap, ◌∙◌, ◌≡◌, refl, Bool, true, false, ◌||◌, Option, none, some, nat_eq, if◌then◌else◌,
  arith, Option-cases, inl, inr,
}
use finch_daemon.Errors.{plain}
use finch_daemon.Act.{Result, ok, err}
use finch_daemon.Go.Strings.{is_empty, cut_prefix, has_code}

abbrev pub tag_digest_prefix : String
tag_digest_prefix = "sha256:"

-- The two formats, by what follows the prefix in the tag.
abbrev with_tag : String → String → Option String → String
with_tag name tag none = name ++ (":" ++ tag)
with_tag name tag (some rest) = name ++ ("@" ++ tag)

-- toImageRef
unfoldable pub to_image_ref : String → String → String
unfolding cut_prefix
to_image_ref name tag =
    if is_empty tag then name else with_tag name tag (cut_prefix tag_digest_prefix tag)

abbrev is_separator : Char → Bool
is_separator c = nat_eq b'@' (code c) || nat_eq b':' (code c)

abbrev in_front : Char → String × Option String → String × Option String
in_front c (name, tag) = (String.◌∷◌ c name, tag)

-- splitRE.Split(nameParam, 2)
unfoldable pub split_reference : String → String × Option String
split_reference String.[] = ("", none)
split_reference (String.◌∷◌ c s) =
    let rest = split_reference s in if is_separator c then ("", some s) else in_front c rest

abbrev part : Option String → String
part none = ""
part (some s) = s

abbrev invalid : String → Result (String × String)
invalid text = err (plain text)

-- parseNameAndTag, from the query
unfoldable pub parse_name_and_tag : (String → String) → Result (String × String)
unfolding split_reference
parse_name_and_tag query =
    let name_param = query "fromImage" in
    let parts = split_reference name_param in
    let tag = if is_empty (query "tag") then part parts.1 else query "tag" in
    if is_empty name_param
    then invalid "fromImage must be specified"
    else if is_empty parts.0
    then invalid ("invalid image: " ++ name_param)
    else if is_empty tag
    then invalid "image tag/digest must be specified"
    else ok (parts.0, tag)

-- A name in which the split finds nothing.
abbrev pub IsPlain : String → Type 0
IsPlain name = (is_empty name ≡ false) × (has_code b'@' name ≡ false) × (has_code b':' name ≡ false)

split_reference-append :
    (name rest : String) (c : Char)
    → has_code b'@' name ≡ false
    → has_code b':' name ≡ false
    → is_separator c ≡ true
    → split_reference (name ++ String.◌∷◌ c rest) ≡ (name, some rest)
unfolding split_reference has_code
split_reference-append String.[] rest c at colon sep = rw (append.nil (String.◌∷◌ c rest), sep) refl
split_reference-append (String.◌∷◌ d name) rest c at colon sep =
    rw (append.cons d name (String.◌∷◌ c rest)) (ground (arith, split_reference-append name rest c))

append-nonempty : (s t : String) → is_empty s ≡ false → is_empty (s ++ t) ≡ false
append-nonempty String.[] t h = absurd (cc h)
append-nonempty (String.◌∷◌ c s) t h = rw (append.cons c s t) refl

-- A request for a reference that splits into these parts.
parsed_parts :
    (name rest tag : String) (c : Char) (query : String → String)
    → IsPlain name
    → is_separator c ≡ true
    → query "fromImage" ≡ name ++ String.◌∷◌ c rest
    → (if is_empty (query "tag") then rest else query "tag") ≡ tag
    → is_empty tag ≡ false
    → parse_name_and_tag query ≡ ok (name, tag)
unfolding parse_name_and_tag
parsed_parts name rest tag c query (some_name, at, colon) sep from which some_tag =
    rw
      (
        from,
        split_reference-append name rest c at colon sep,
        which,
        append-nonempty name (String.◌∷◌ c rest) some_name,
        some_name,
        some_tag,
      )
      refl

one_character : (c : Char) (s : String) → String.◌∷◌ c "" ++ s ≡ String.◌∷◌ c s
one_character c s = rw (append.cons c "" s, append.nil s) refl

separated :
    (name tag : String)
    → is_empty tag ≡ false
    → (c : Char) × (is_separator c ≡ true) × (to_image_ref name tag ≡ name ++ String.◌∷◌ c tag)
unfolding to_image_ref
separated name tag some_tag = elim (Option-cases (cut_prefix tag_digest_prefix tag)) [
  | inl no_digest ↦ (":", refl, rw (some_tag, no_digest, one_character ":" tag) refl)
  | inr (rest, digest) ↦ ("@", refl, rw (some_tag, digest, one_character "@" tag) refl)
]

-- A request for the reference that toImageRef makes of a plain name and a tag or digest, with no tag
-- parameter, is parsed to that name and that tag.
pub parse_name_and_tag-to_image_ref :
    (name tag : String) (query : String → String)
    → IsPlain name
    → is_empty tag ≡ false
    → query "fromImage" ≡ to_image_ref name tag
    → query "tag" ≡ ""
    → parse_name_and_tag query ≡ ok (name, tag)
parse_name_and_tag-to_image_ref name tag query plain_ some_tag from no_tag =
    let (c, sep, printed) = separated name tag some_tag in
    parsed_parts name tag tag c query plain_ sep (from ∙ printed) (rw no_tag refl) some_tag

-- A request for an image of a registry whose address names a port, with a tag parameter: the image
-- that is then pulled has the name of the registry's host, whatever path was asked for.
pub port_drops_path :
    (host rest tag : String) (query : String → String)
    → IsPlain host
    → is_empty tag ≡ false
    → cut_prefix tag_digest_prefix tag ≡ none
    → query "fromImage" ≡ host ++ (":" ++ rest)
    → query "tag" ≡ tag
    → (parse_name_and_tag query ≡ ok (host, tag)) × (to_image_ref host tag ≡ host ++ (":" ++ tag))
unfolding to_image_ref
port_drops_path host rest tag query plain_ some_tag no_digest from given = (
  parsed_parts host rest tag ":" query plain_ refl
      (from ∙ ap (λ s. host ++ s) (one_character ":" rest)) (rw (given, some_tag) refl) some_tag,
  rw (some_tag, no_digest) refl,
)

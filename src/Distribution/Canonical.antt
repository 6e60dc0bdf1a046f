-- ===== src/Distribution/Canonical.antt =====
-- pkg/utility/imageutility/utility.go: the canonical form of an image's name. What it uses of
-- github.com/distribution/reference is a parameter.
use Prim.Native.String.{◌++◌}
use finch_daemon.Prelude.{
  String, Bool, true, false, not, ◌&&◌, ◌||◌, Option, none, some, if◌then◌else◌,
}
use finch_daemon.Act.{Result, ok, err}
use finch_daemon.Go.Strings.{is_empty, cut_prefix}
use finch_daemon.Images.Reference.{tag_digest_prefix}

-- The references `N`: `is_named`, `is_tagged` and `is_digested` are the type assertions.
pub record References (N : Type 0) : Type 0 where
  pub parse_any_reference : String → Result N
  pub is_named : N → Bool
  pub is_tagged : N → Bool
  pub is_digested : N → Bool
  pub with_tag : N → String → Result N
  pub string_of : N → String

abbrev has_prefix : Option String → Bool
has_prefix none = false
has_prefix (some rest) = true

-- The name with its tag or digest.
unfoldable pub joined : String → String → String
unfolding cut_prefix
joined name tag =
    if is_empty name
    then tag
    else if has_prefix (cut_prefix tag_digest_prefix tag)
    then name ++ ("@" ++ tag)
    else if is_empty tag
    then name
    else name ++ (":" ++ tag)

module _ {N : Type 0} (refs : References N) where
  -- refNeedsTag
  unfoldable pub ref_needs_tag : N → Bool
  ref_needs_tag ref = not (refs.is_tagged ref || refs.is_digested ref)

  abbrev or_as_it_is : N → Result N → N
  or_as_it_is ref (ok tagged) = tagged
  or_as_it_is ref (err e) = ref

  unfoldable pub with_default_tag : N → N
  unfolding ref_needs_tag
  with_default_tag ref =
      if refs.is_named ref && ref_needs_tag ref
      then or_as_it_is ref (refs.with_tag ref "latest")
      else ref

  abbrev canonical : Result N → Result String
  canonical (ok ref) = ok (refs.string_of (with_default_tag ref))
  canonical (err e) = err e

  -- Canonicalize
  unfoldable pub canonicalize : String → String → Result String
  unfolding joined with_default_tag
  canonicalize name tag = canonical (refs.parse_any_reference (joined name tag))

-- ===== src/Distribution/Tests.antt =====
-- A small registry, on which the handler runs and the theorem is applied. Bytes are texts, and the
-- digest of bytes is the bytes after "sha256:".
use Prim.Native.String.{◌++◌}
use finch_daemon.Prelude.{String, ◌≡◌, refl, true, false, none, some, [], ◌∷◌, ◌==◌, if◌then◌else◌}
use finch_daemon.Prelude.Int.{pos}
use finch_daemon.Errors.{plain}
use finch_daemon.Act.{Result, ok, err}
use finch_daemon.Images.Auth.{AuthConfig}
use finch_daemon.Http.{error_body}
use finch_daemon.Distribution.Canonical.{References, canonicalize}
use finch_daemon.Distribution.Service.{
  Descriptor, DistributionInspect, DistributionBackend, inspect, parsed_ref, creds_of,
}
use finch_daemon.Distribution.Verified.{IsInspected, inspect-IsInspected}
use finch_daemon.Distribution.Handler.{inspect_handler}

-- References are texts; a name has no tag.
abbrev refs : References String
refs = record {
  parse_any_reference = λ s. ok s;
  is_named = λ s. true;
  is_tagged = λ s. false;
  is_digested = λ s. false;
  with_tag = λ s t. ok (s ++ (":" ++ t));
  string_of = λ s. s;
}

abbrev blob : String → String → Descriptor
blob media_type bytes = record {
  media_type = media_type;
  digest = "sha256:" ++ bytes;
  size = pos 9;
}

abbrev manifest : Descriptor
manifest = blob "application/vnd.oci.image.manifest.v1+json" "manifest"

abbrev index : Descriptor
index = blob "application/vnd.oci.image.index.v1+json" "index"

-- The world is the bytes that the registry sends for the manifest. The name "multi" is that of an
-- index with a manifest that has no platform.
abbrev registry : DistributionBackend String (Unit {0}) (Unit {0}) String String
registry = record {
  parse_docker_ref = λ s. ok (s, "docker.io");
  default_docker_host = λ d. ok "registry-1.docker.io";
  get_docker_resolver = λ d c w. (ok tt, w);
  resolve = λ r ref w. (ok (if ref == "multi:latest" then index else manifest), w);
  fetcher = λ r ref w. (ok tt, w);
  fetch = λ f d w. (ok d.digest, w);
  read_all = λ c w. (
    ok (if c == "sha256:manifest" then w else if c == "sha256:index" then "index" else "image"),
    w,
  );
  from_bytes = λ d bytes. some ("sha256:" ++ bytes);
  is_c_not_found = λ e. false;
  is_invalid_authorization = λ e. false;
  is_unexpected_status = λ e. false;
  manifest_config = λ bytes. ok (blob "config" "image");
  index_platforms = λ bytes. ok (some "linux/amd64" ∷ none ∷ []);
  image_platform = λ bytes. ok "linux/arm64";
}

abbrev decode : String → Result AuthConfig
decode s = err (plain "no JSON")

abbrev answer : DistributionInspect String
answer = record { descriptor = manifest; platforms = "linux/arm64" ∷ [] }

-- A registry that sends other bytes gets an error, and an index entry with no platform a panic.
handler_tests :
    ((inspect_handler registry refs decode "alpine" "" "forged").0
      ≡ some (record {
        content_type = "application/json";
        code = some 500;
        header_calls = 1;
        body = error_body "digest mismatch: sha256:forged != sha256:manifest" ∷ [];
      }))
    × ((inspect_handler registry refs decode "multi" "" "manifest").0 ≡ none)
unfolding inspect_handler inspect parsed_ref canonicalize creds_of
handler_tests = (refl, refl)

inspected : (inspect registry refs "alpine" none "manifest").0 ≡ ok (some answer)
unfolding inspect parsed_ref canonicalize creds_of
inspected = refl

inspect-IsInspected_example : IsInspected registry refs "alpine" answer
inspect-IsInspected_example =
    inspect-IsInspected registry refs "alpine" none "manifest" answer inspected

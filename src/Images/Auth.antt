-- ===== src/Images/Auth.antt =====
-- pkg/utility/authutility/utility.go: which credentials go with an image reference.
use Prim.Native.Char.{code}
use Prim.Native.String.{◌++◌}
use finch_daemon.Prelude.{
  String, ◌≡◌, ◌⊎◌, inl, inr, Bool, true, ◌&&◌, Option, none, some, nat_eq, ◌==◌, if◌then◌else◌,
  arith, eq_iff, Bool-cases, subst, sym, ap, refl, ◌∙◌,
}
use finch_daemon.Errors.{plain}
use finch_daemon.Act.{Result, ok, err, Result-cases}
use finch_daemon.Go.Strings.{is_empty, cut_prefix}
use finch_daemon.Images.Backend.{AuthCreds}

-- dockertypes.AuthConfig, without the fields that are not read
pub record AuthConfig : Type 0 where
  pub username : String
  pub password : String
  pub server_address : String
  pub identity_token : String
  pub registry_token : String

abbrev pub index_server : String
index_server = "https://index.docker.io/v1/"

-- strings.Cut(s, "/"), the first part
unfoldable pub before_slash : String → String
before_slash String.[] = ""
before_slash (String.◌∷◌ c s) =
    let rest = before_slash s in if nat_eq b'/' (code c) then "" else String.◌∷◌ c rest

abbrev or_else : Option String → String → String
or_else none s = s
or_else (some rest) s = rest

-- convertToHostname
unfoldable pub convert_to_hostname : String → String
unfolding cut_prefix before_slash
convert_to_hostname url = elim (cut_prefix "http://" url) [
  | some stripped ↦ before_slash stripped
  | none ↦ before_slash (or_else (cut_prefix "https://" url) url)
]

unfoldable pub has_no_credentials : AuthConfig → Bool
has_no_credentials ac =
    is_empty ac.username
    && is_empty ac.password
    && is_empty ac.identity_token
    && is_empty ac.registry_token

-- The test on the server address.
unfoldable pub address_matches : String → String → String → Bool
unfolding convert_to_hostname
address_matches expected_domain ref_domain sa =
    if is_empty sa
    then true
    else if convert_to_hostname sa == ref_domain
    then true
    else expected_domain == "registry-1.docker.io" && sa == index_server

abbrev mismatch : String → String → Result AuthCreds
mismatch sa ref_domain = err (
    plain (
      "specified server address "
      ++ (sa ++ (" does not match the image reference domain " ++ ref_domain))))

-- The function that GetAuthCreds returns.
unfoldable pub creds_for : String → AuthConfig → String → Result (String × String)
creds_for expected_domain ac domain =
    if domain == expected_domain
    then if is_empty ac.identity_token
      then ok (ac.username, ac.password)
      else ok ("", ac.identity_token)
    else err (plain ("expected domain " ++ (expected_domain ++ (", but got " ++ domain))))

abbrev creds_from : String → AuthConfig → Result String → Result AuthCreds
creds_from ref_domain ac (err e) = err e
creds_from ref_domain ac (ok expected_domain) =
    if address_matches expected_domain ref_domain ac.server_address
    then ok (some (creds_for expected_domain ac))
    else mismatch ac.server_address ref_domain

module _ (default_docker_host : String → Result String) where
  -- GetAuthCreds
  unfoldable pub get_auth_creds : String → AuthConfig → Result AuthCreds
  unfolding address_matches creds_for has_no_credentials
  get_auth_creds ref_domain ac =
      if has_no_credentials ac
      then ok none
      else creds_from ref_domain ac (default_docker_host ref_domain)

  -- The address that the client gave names the registry of the reference, or none was given; the
  -- index server stands for Docker Hub.
  abbrev pub IsMeantFor : AuthConfig → String → String → Type 0
  IsMeantFor ac ref_domain expected =
      (is_empty ac.server_address ≡ true)
      ⊎ (convert_to_hostname ac.server_address ≡ ref_domain)
      ⊎ ((expected ≡ "registry-1.docker.io") × (ac.server_address ≡ index_server))

  address_matches-IsMeantFor :
      (ac : AuthConfig) (ref_domain expected : String)
      → address_matches expected ref_domain ac.server_address ≡ true
      → IsMeantFor ac ref_domain expected
  unfolding address_matches
  address_matches-IsMeantFor ac ref_domain expected h =
      let host = convert_to_hostname ac.server_address in
      elim (Bool-cases (is_empty ac.server_address)) [
        | inl none_ ↦ inl none_
        | inr given ↦ elim (Bool-cases (host == ref_domain)) [
          | inl same ↦ inr (inl ((eq_iff host ref_domain).0 same))
          | inr other ↦
              ground (
                arith,
                eq_iff expected "registry-1.docker.io",
                eq_iff ac.server_address index_server,
              )
        ]
      ]

  creds_for-eq-ok :
      (expected domain : String) (ac : AuthConfig) (c : String × String)
      → creds_for expected ac domain ≡ ok c
      → domain ≡ expected
  unfolding creds_for
  creds_for-eq-ok expected domain ac c h = elim (Bool-cases (domain == expected)) [
    | inl same ↦ (eq_iff domain expected).0 same
    | inr other ↦ absurd (ground arith)
  ]

  some-inj : {f g : String → Result (String × String)} → Result.ok (some f) ≡ ok (some g) → f ≡ g
  some-inj h = cc h

  -- The credentials of a request are given out for one domain only, the registry host of the image
  -- reference, and only if the server address that came with them, if any, is that of the reference.
  pub get_auth_creds_safe :
      (ref_domain : String) (ac : AuthConfig) (f : String → Result (String × String))
      (domain : String) (c : String × String)
      → get_auth_creds ref_domain ac ≡ ok (some f)
      → f domain ≡ ok c
      → (default_docker_host ref_domain ≡ ok domain) × IsMeantFor ac ref_domain domain
  unfolding get_auth_creds
  get_auth_creds_safe ref_domain ac f domain c got given =
      elim (Bool-cases (has_no_credentials ac)) [
        | inl none_ ↦ absurd (ground arith)
        | inr some_ ↦ elim (Result-cases (default_docker_host ref_domain)) [
          | inr (e, failed) ↦ absurd (ground arith)
          | inl (expected, host) ↦
              elim (Bool-cases (address_matches expected ref_domain ac.server_address)) [
                | inr no_ ↦ absurd (ground arith)
                | inl yes_ ↦
                    let made : get_auth_creds ref_domain ac ≡ ok (some (creds_for expected ac)) =
                      rw (some_, host, yes_) refl in
                    let same : creds_for expected ac ≡ f = some-inj (sym made ∙ got) in
                    let at : domain ≡ expected =
                      creds_for-eq-ok expected domain ac c (ap (λ g. g domain) same ∙ given) in
                    subst
                      (λ d. (default_docker_host ref_domain ≡ ok d) × IsMeantFor ac ref_domain d)
                      (sym at) (host, address_matches-IsMeantFor ac ref_domain expected yes_)
              ]
        ]
      ]

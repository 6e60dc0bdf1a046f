-- ===== src/Router/PolicyFile.antt =====
-- checkRegoFileValidity of cmd/finch-daemon/router_utils.go: which policy file is used.
use Prim.Native.Char.{Char, code}
use Prim.Native.String.{◌++◌}
use finch_daemon.Prelude.{
  ℕ, ◌<◌, ◌%◌, String, ◌≡◌, refl, subst, ◌⊎◌, inl, inr, Bool, true, false, ◌&&◌, Option, none, some,
  nat_eq, nat_eq_iff, arith, Bool-cases, if◌then◌else◌,
}
use finch_daemon.Errors.{GoError, plain, message}
use finch_daemon.Act.{Result, ok, err, Act, pure, reads, ◌>>◌, Result-cases}
use finch_daemon.Go.Strings.{is_empty, to_lower}

-- The options that are read
pub record DaemonOptions : Type 0 where
  pub rego_file_path : String
  pub skip_rego_perm_check : Bool

-- os.Stat by the permission bits that it gives, os.IsNotExist, and %o
pub record Files (W : Type 0) : Type 0 where
  pub stat : String → Act W ℕ
  pub is_not_exist : GoError → Bool
  pub octal : ℕ → String

-- The step of filepath.Ext, from the right: `some` once a dot or a slash was met.
abbrev ext_step : Char → String → Option String → Option String
ext_step c s (some found) = some found
ext_step c s none =
    if nat_eq (code c) b'.'
    then some (String.◌∷◌ c s)
    else if nat_eq (code c) b'/'
    then some ""
    else none

unfoldable pub ext_from : String → Option String
ext_from String.[] = none
ext_from (String.◌∷◌ c s) = ext_step c s (ext_from s)

abbrev or_empty : Option String → String
or_empty none = ""
or_empty (some s) = s

-- Ext
unfoldable pub ext : String → String
unfolding ext_from
ext path = or_empty (ext_from path)

-- strings.ToLower(s) == t for a lower-case `t` of which no letter is the lower case of one above 127
unfoldable pub lowers_to : String → String → Bool
unfolding to_lower
lowers_to String.[] String.[] = true
lowers_to (String.◌∷◌ c s) (String.◌∷◌ d t) =
    let rest = lowers_to s t in nat_eq (to_lower (code c)) (code d) && rest
lowers_to String.[] (String.◌∷◌ d t) = false
lowers_to (String.◌∷◌ c s) String.[] = false

module _ {W : Type 0} (files : Files W) where
  abbrev check_exists : String → Result ℕ × W → Result (Unit {0}) × W
  check_exists path (ok perm, w) = (ok tt, w)
  check_exists path (err e, w) =
      if files.is_not_exist e
      then (err (plain ("provided Rego file path does not exist: " ++ path)), w)
      else (ok tt, w)

  abbrev check_ext : String → Result (Unit {0})
  check_ext path =
      if lowers_to (ext path) ".rego"
      then ok tt
      else err (plain "invalid file extension for Rego file. Only .rego files are supported")

  -- `perm & 0177` is the remainder by 128.
  abbrev check_perm : Result ℕ → Result (Unit {0})
  check_perm (err e) = err (plain ("error checking rego file permissions: " ++ message e))
  check_perm (ok perm) =
      if nat_eq (perm % 128) 0
      then ok tt
      else err (
          plain (
            "rego file permissions "
            ++ (files.octal perm ++ " are too permissive (maximum allowable permissions: 0600)")))

  abbrev check_mode : Bool → String → Act W (Unit {0})
  check_mode true path w = (ok tt, w)
  check_mode false path w = (check_perm (files.stat path w).0, (files.stat path w).1)

  abbrev checked : DaemonOptions → Act W String
  checked options =
      (λ w. check_exists options.rego_file_path (files.stat options.rego_file_path w))
      >> (reads (λ w. check_ext options.rego_file_path)
          >> (check_mode options.skip_rego_perm_check options.rego_file_path
              >> pure options.rego_file_path))

  -- checkRegoFileValidity
  unfoldable pub check_rego_file_validity : DaemonOptions → Act W String
  unfolding lowers_to ext message
  check_rego_file_validity options =
      if is_empty options.rego_file_path
      then reads (λ w. err (
          plain
            "rego file path not provided, please provide the policy file path using the --rego-file flag"))
      else checked options

  -- Only the owner may read or write the file, and no one run it: one of the modes 0, 0200, 0400
  -- and 0600.
  abbrev pub IsPrivate : ℕ → Type 0
  IsPrivate perm = (perm ≡ 0) ⊎ (perm ≡ 128) ⊎ (perm ≡ 256) ⊎ (perm ≡ 384)

  no_execute-IsPrivate : (perm : ℕ) → perm < 512 → perm % 128 ≡ 0 → IsPrivate perm
  no_execute-IsPrivate perm bits none_ = omega arith

  check_perm-IsPrivate :
      (r : Result ℕ)
      → check_perm r ≡ ok tt
      → (perm : ℕ) × (r ≡ ok perm) × (perm < 512 → IsPrivate perm)
  check_perm-IsPrivate (err e) h = absurd (cc h)
  check_perm-IsPrivate (ok perm) h = elim (Bool-cases (nat_eq (perm % 128) 0)) [
    | inl zero_ ↦
        (perm, refl, λ bits. no_execute-IsPrivate perm bits ((nat_eq_iff (perm % 128) 0).0 zero_))
    | inr other ↦ absurd (ground arith)
  ]

  check_mode-IsPrivate :
      (skip : Bool) (path : String) (w : W)
      → (check_mode skip path w).0 ≡ ok tt
      → skip ≡ false
      → (w1 : W) × (perm : ℕ) × ((files.stat path w1).0 ≡ ok perm) × (perm < 512 → IsPrivate perm)
  check_mode-IsPrivate true path w h no_ = absurd (cc no_)
  check_mode-IsPrivate false path w h no_ =
      let (perm, found, private_) = check_perm-IsPrivate (files.stat path w).0 h in
      (w, perm, found, private_)

  -- What is known of a policy file that is accepted.
  abbrev pub IsAccepted : DaemonOptions → String → Type 0
  IsAccepted options path =
      (path ≡ options.rego_file_path)
      × (is_empty path ≡ false)
      × (lowers_to (ext path) ".rego" ≡ true)
      × (options.skip_rego_perm_check ≡ false
          → (w1 : W) × (perm : ℕ) × ((files.stat path w1).0 ≡ ok perm)
            × (perm < 512 → IsPrivate perm))

  checked-IsAccepted :
      (options : DaemonOptions) (path : String) (w : W)
      → is_empty options.rego_file_path ≡ false
      → (checked options w).0 ≡ ok path
      → IsAccepted options path
  checked-IsAccepted options path w given h =
      let own = options.rego_file_path in
      let there = check_exists own (files.stat own w) in
      let mode = check_mode options.skip_rego_perm_check own there.1 in
      elim (Result-cases there.0) [
        | inr (e, failed) ↦ absurd (ground arith)
        | inl (tt, found) ↦ elim (Result-cases (check_ext own)) [
          | inr (e, failed) ↦ absurd (ground arith)
          | inl (tt, rego) ↦ elim (Result-cases mode.0) [
            | inr (e, failed) ↦ absurd (ground arith)
            | inl (tt, private_) ↦
                let same : own ≡ path = ground arith in
                subst (IsAccepted options) same (
                  refl,
                  given,
                  ground arith,
                  check_mode-IsPrivate options.skip_rego_perm_check own there.1 private_,
                )
          ]
        ]
      ]

  -- A policy file that is accepted is the one of the options, its extension is .rego in any case,
  -- and unless the check is to be skipped its nine permission bits let only the owner read or write
  -- it and nobody run it.
  pub check_rego_file_validity-IsAccepted :
      (options : DaemonOptions) (path : String) (w : W)
      → (check_rego_file_validity options w).0 ≡ ok path
      → IsAccepted options path
  unfolding check_rego_file_validity
  check_rego_file_validity-IsAccepted options path w h =
      elim (Bool-cases (is_empty options.rego_file_path)) [
        | inl empty ↦ absurd (ground arith)
        | inr given ↦ checked-IsAccepted options path w given (ground arith)
      ]

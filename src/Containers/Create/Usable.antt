-- ===== src/Containers/Create/Usable.antt =====
-- Which devices a request may name (validateDevice of api/handlers/container/create.go).
use finch_daemon.Prelude.{
  String, ◌≡◌, refl, subst, ◌⊎◌, inl, inr, Bool, true, false, ◌||◌, none, some, List, [], ◌∷◌, All,
  arith, Bool-cases, Option-cases,
}
use finch_daemon.Act.{ok, Result-cases}
use finch_daemon.Go.Strings.{is_empty}
use finch_daemon.Containers.Create.Request.{DeviceMapping}
use finch_daemon.Containers.Create.Devices.{Files, validate_device, validate_devices}

module _ {W : Type 0} (files : Files W) (w : W) where
  -- What the path stands for: itself, or where it leads to as a symbolic link.
  abbrev pub IsResolved : String → String → Type 0
  IsResolved path resolved =
      ((files.lstat path w ≡ ok false) × (resolved ≡ path))
      ⊎ ((files.lstat path w ≡ ok true) × (files.eval_symlinks path w ≡ ok resolved))

  -- The path is not empty, and stands for a directory or a device.
  abbrev pub IsUsable : String → Type 0
  IsUsable path =
      (resolved : String) × (is_dir : Bool) × (is_device : Bool) × (is_empty path ≡ false)
      × IsResolved path resolved
      × (files.stat resolved w ≡ ok (is_dir, is_device))
      × (is_dir || is_device ≡ true)

  abbrev pub AreUsable : List DeviceMapping → Type 0
  AreUsable devices = All (λ (d : DeviceMapping). IsUsable d.path_on_host) devices

  IsResolved-IsUsable :
      (path resolved : String)
      → is_empty path ≡ false
      → IsResolved path resolved
      → validate_device files w path ≡ none
      → IsUsable path
  unfolding validate_device
  IsResolved-IsUsable path resolved filled (inl (plain_, same)) h =
      elim (Result-cases (files.stat path w)) [
        | inr (e, failed) ↦ absurd (ground arith)
        | inl ((is_dir, is_device), found) ↦
            (path, is_dir, is_device, filled, inl (plain_, refl), found, ground arith)
      ]
  IsResolved-IsUsable path resolved filled (inr (link, leads)) h =
      elim (Result-cases (files.stat resolved w)) [
        | inr (e, failed) ↦ absurd (ground arith)
        | inl ((is_dir, is_device), found) ↦
            (resolved, is_dir, is_device, filled, inr (link, leads), found, ground arith)
      ]

  validate_device-IsUsable : (path : String) → validate_device files w path ≡ none → IsUsable path
  unfolding validate_device
  validate_device-IsUsable path h = elim (Bool-cases (is_empty path)) [
    | inl empty ↦ absurd (ground arith)
    | inr filled ↦ elim (Result-cases (files.lstat path w)) [
      | inr (e, failed) ↦ absurd (ground arith)
      | inl (link, found) ↦ elim (Bool-cases link) [
        | inr no_ ↦ IsResolved-IsUsable path path filled (inl (ground arith, refl)) h
        | inl yes_ ↦ elim (Result-cases (files.eval_symlinks path w)) [
          | inr (e, failed) ↦ absurd (ground arith)
          | inl (resolved, leads) ↦
              IsResolved-IsUsable path resolved filled (inr (ground arith, leads)) h
        ]
      ]
    ]
  ]

  IsUsable-valid : (path : String) → IsUsable path → validate_device files w path ≡ none
  unfolding validate_device
  IsUsable-valid path (resolved, is_dir, is_device, filled, inl (plain_, same), found, usable) =
      let here = subst (λ p. files.stat p w ≡ ok (is_dir, is_device)) same found in
      rw (validate_device, filled, plain_, here, usable) refl
  IsUsable-valid path (resolved, is_dir, is_device, filled, inr (link, leads), found, usable) =
      rw (validate_device, filled, link, leads, found, usable) refl

  pub validate_devices-AreUsable :
      (ds : List DeviceMapping) → validate_devices files w ds ≡ none → AreUsable ds
  unfolding validate_devices
  validate_devices-AreUsable [] h = tt
  validate_devices-AreUsable (d ∷ ds) h =
      elim (Option-cases (validate_device files w d.path_on_host)) [
        | inr (text, bad) ↦ absurd (ground arith)
        | inl good ↦ (
          validate_device-IsUsable d.path_on_host good,
          validate_devices-AreUsable ds (ground arith),
        )
      ]

  AreUsable-valid : (ds : List DeviceMapping) → AreUsable ds → validate_devices files w ds ≡ none
  unfolding validate_devices
  AreUsable-valid [] usable = refl
  AreUsable-valid (d ∷ ds) (first, rest) =
      rw (validate_devices, IsUsable-valid d.path_on_host first, AreUsable-valid ds rest) refl

  pub validate_devices-unusable :
      (ds : List DeviceMapping) (text : String)
      → validate_devices files w ds ≡ some text
      → ¬ AreUsable ds
  validate_devices-unusable ds text h usable =
      let valid = AreUsable-valid ds usable in absurd (ground (arith, valid, h))

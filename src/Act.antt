-- ===== src/Act.antt =====
-- Methods that call out: an action reads and changes a world and returns a value or an error. The
-- world that a failing step leaves stays.
use finch_daemon.Prelude.{◌≡◌, refl, ap, ◌⊎◌, inl, inr}
use finch_daemon.Errors.{GoError}

pub data Result {ℓ} (A : Type ℓ) : Type ℓ where
  ok : A → Result A
  err : GoError → Result A

abbrev pub Act : Type 0 → Type 0 → Type 0
Act W A = W → Result A × W

module _ {W A : Type 0} where
  abbrev pub pure : A → Act W A
  pure a w = (ok a, w)

  abbrev pub fail : GoError → Act W A
  fail e w = (err e, w)

  -- An action that only reads.
  abbrev pub reads : (W → Result A) → Act W A
  reads f w = (f w, w)

module _ {W A B : Type 0} where
  abbrev pub and_then : Result A → (A → Act W B) → Act W B
  and_then (ok a) f w = f a w
  and_then (err e) f w = (err e, w)

  infixl 5 ◌>>=◌ ◌>>◌
  abbrev pub ◌>>=◌ : Act W A → (A → Act W B) → Act W B
  ◌>>=◌ m f w = and_then (m w).0 f (m w).1

  abbrev pub ◌>>◌ : Act W A → Act W B → Act W B
  ◌>>◌ m n w = and_then (m w).0 (λ _. n) (m w).1

  and_then-eq-ok :
      (r : Result A) (f : A → Act W B) (w : W) {v : B} {w' : W}
      → and_then r f w ≡ (ok v, w')
      → (a : A) × (r ≡ ok a) × (f a w ≡ (ok v, w'))
  and_then-eq-ok (ok a) f w h = (a, refl, h)
  and_then-eq-ok (err e) f w h = absurd (cc (ap (λ (p : Result B × W). p.0) h))

  -- Inversion of an action that succeeds.
  pub bind-eq-ok :
      (m : Act W A) (f : A → Act W B) (w : W) {v : B} {w' : W}
      → (m >>= f) w ≡ (ok v, w')
      → (a : A) × ((m w).0 ≡ ok a) × (f a (m w).1 ≡ (ok v, w'))
  bind-eq-ok m f w h = and_then-eq-ok (m w).0 f (m w).1 h

pub Result-cases {ℓ} :
    {A : Type ℓ} (r : Result A) → ((a : A) × (r ≡ ok a)) ⊎ ((e : GoError) × (r ≡ err e))
Result-cases (ok a) = inl (a, refl)
Result-cases (err e) = inr (e, refl)

-- ===== src/Network/Locks/Tidy.antt =====
-- The invariant of the network mutexes, and what ensureLock and releaseLock
-- (internal/service/network/network.go) do to its parts.
use finch_daemon.Prelude.{
  Bool-cases, ℕ, ◌≤◌, ◌<◌, inl, inr, String, ◌≡◌, Bool, true, false, some, arith, nat_eq, eq_iff,
  eq_refl,
}
use finch_daemon.Network.Locks.{
  Table, Phase, waiting, inside, leaving, cleaning, cleaned, State, update, ensure_lock,
  release_lock,
}
use finch_daemon.Network.Locks.Count.{
  weight, total, mutex_at, active_at, ensure_lock_keeps, active_at-ensure_lock, ensure_lock_new,
  next-ensure_lock, release_lock_keeps, release_lock_old, next-release_lock, ensure_lock_next,
  release_lock_alive,
}

-- The request holds the mutex.
abbrev pub holds : Phase → ℕ → Bool
holds (inside n m) j = nat_eq m j
holds (leaving m) j = nat_eq m j
holds (cleaning n m m') j = nat_eq m j
holds _ j = false

-- The request's mutex is that of the table's entry for its network.
abbrev pub Agrees : Table → Phase → Type 0
Agrees t (waiting n m) = mutex_at n t ≡ some m
Agrees t (inside n m) = mutex_at n t ≡ some m
Agrees t (cleaning n m m') = (mutex_at n t ≡ some m) × (m' ≡ m)
Agrees t (cleaned n m m') = ⊥
Agrees t _ = Unit

-- Every entry is in use, and no two networks share a mutex.
pub record IsTidy (t : Table) : Type 0 where
  pub alive : (n : String) (m : ℕ) → mutex_at n t ≡ some m → 1 ≤ active_at n t
  pub bound : (n : String) (m : ℕ) → mutex_at n t ≡ some m → m < t.next
  pub distinct : (n j : String) (m : ℕ) → mutex_at n t ≡ some m → mutex_at j t ≡ some m → n ≡ j

pub ensure_lock-IsTidy : (n : String) (t : Table) → IsTidy t → IsTidy (ensure_lock n t).1
ensure_lock-IsTidy n t h = record {
  alive = λ j m e.
      ground (arith, h.alive j m, ensure_lock_new n t j m, active_at-ensure_lock n t j, eq_iff n j);
  bound = λ j m e.
      ground
        (arith, h.bound j m, ensure_lock_new n t j m, next-ensure_lock n t, ensure_lock_next n t);
  distinct = λ j j' m e e'. ground (
    arith,
    h.distinct j j' m,
    h.bound j m,
    h.bound j' m,
    ensure_lock_new n t j m,
    ensure_lock_new n t j' m,
  );
}

pub release_lock-IsTidy : (n : String) (t : Table) → IsTidy t → IsTidy (release_lock n t)
release_lock-IsTidy n t h = record {
  alive = λ j m e.
      ground (arith, h.alive j m, release_lock_old n t j m, release_lock_alive n t j m, eq_iff n j);
  bound = λ j m e. ground (arith, h.bound j m, release_lock_old n t j m, next-release_lock n t);
  distinct =
      λ j j' m e e'. h.distinct j j' m (release_lock_old n t j m e) (release_lock_old n t j' m e');
}

pub record IsConsistent (k : ℕ) (s : State) : Type 0 where
  pub tidy : IsTidy s.table
  pub counted : (n : String) → active_at n s.table ≡ total n k s.phase
  pub agrees : (i : ℕ) → i < k → Agrees s.table (s.phase i)
  pub only : (i j m : ℕ) → holds (s.phase i) m ≡ true → holds (s.phase j) m ≡ true → i ≡ j
  pub locks : (i m : ℕ) → holds (s.phase i) m ≡ true → s.locked m ≡ true

pub Agrees-update :
    (t : Table) (f : ℕ → Phase) (i j : ℕ) (p : Phase)
    → Agrees t p
    → Agrees t (f j)
    → Agrees t (update f i p j)
Agrees-update t f i j p a b = elim (Bool-cases (nat_eq i j)) [
  | inl same ↦ rw same a
  | inr other ↦ rw other b
]

pub Agrees-ensure_lock :
    (n : String) (t : Table) (p : Phase) → Agrees t p → Agrees (ensure_lock n t).1 p
Agrees-ensure_lock n t (waiting j m) a = ensure_lock_keeps n t j m a
Agrees-ensure_lock n t (inside j m) a = ensure_lock_keeps n t j m a
Agrees-ensure_lock n t (cleaning j m m') (a, e) = (ensure_lock_keeps n t j m a, e)
Agrees-ensure_lock n t _ a = a

-- A request that is still counted agrees with the table after another's releaseLock.
pub Agrees-release_lock :
    (n : String) (t : Table) (p : Phase)
    → ((j : String) → weight j p ≤ active_at j (release_lock n t))
    → Agrees t p
    → Agrees (release_lock n t) p
Agrees-release_lock n t (waiting j m) c a =
    release_lock_keeps n t j m (ground (arith, c j, eq_refl j)) a
Agrees-release_lock n t (inside j m) c a =
    release_lock_keeps n t j m (ground (arith, c j, eq_refl j)) a
Agrees-release_lock n t (cleaning j m m') c (a, e) =
    (release_lock_keeps n t j m (ground (arith, c j, eq_refl j)) a, e)
Agrees-release_lock n t _ c a = a

-- ===== src/Network/Locks/Invariant.antt =====
-- What every reachable state of the network mutexes keeps (internal/service/network/network.go).
use finch_daemon.Prelude.{
  Bool-cases, ℕ, ◌≤◌, ◌<◌, inl, inr, String, ◌≡◌, refl, false, some, arith, nat_eq, eq_refl,
}
use finch_daemon.Go.Maps.{lookup}
use finch_daemon.Network.Locks.{
  idle, waiting, inside, leaving, cleaning, State, update, start_state, ensure_lock, release_lock,
  to_waiting, to_inside, to_leaving, to_idle, to_cleaning, Step, ensure, lock, release, unlock,
  clean_up, clean_up_lock, clean_up_refused, Reach, here, next,
}
use finch_daemon.Network.Locks.Count.{
  weight, total, total-update, weight-le-total, total-idle, mutex_at, active_at,
  mutex_at-ensure_lock, ensure_lock_keeps, active_at-ensure_lock, active_at-release_lock,
}
use finch_daemon.Network.Locks.Tidy.{
  Agrees, IsTidy, IsConsistent, ensure_lock-IsTidy, release_lock-IsTidy, Agrees-update,
  Agrees-ensure_lock, Agrees-release_lock,
}

module _ (k : ℕ) (s : State) (h : IsConsistent k s) where
  ensure-IsConsistent :
      (i : ℕ) (n : String) → i < k → s.phase i ≡ idle → IsConsistent k (to_waiting s i n)
  ensure-IsConsistent i n below at = record {
    tidy = ensure_lock-IsTidy n s.table h.tidy;
    counted = λ j. ground (
      arith,
      h.counted j,
      active_at-ensure_lock n s.table j,
      total-update j k s.phase i (waiting n (ensure_lock n s.table).0),
    );
    agrees = λ j jk.
        Agrees-update (ensure_lock n s.table).1 s.phase i j (waiting n (ensure_lock n s.table).0)
          (mutex_at-ensure_lock n s.table)
          (Agrees-ensure_lock n s.table (s.phase j) (h.agrees j jk));
    only = λ a b m p q. ground (arith, h.only a b m);
    locks = λ a m p. ground (arith, h.locks a m);
  }

  lock-IsConsistent :
      (i : ℕ) (n : String) (m : ℕ)
      → i < k
      → s.phase i ≡ waiting n m
      → s.locked m ≡ false
      → IsConsistent k (to_inside s i n m)
  lock-IsConsistent i n m below at free = record {
    tidy = h.tidy;
    counted = λ j. ground (arith, h.counted j, total-update j k s.phase i (inside n m));
    agrees = λ j jk.
        Agrees-update s.table s.phase i j (inside n m) (rw at at (h.agrees i below))
          (h.agrees j jk);
    only = λ a b m' p q. ground (arith, h.only a b m', h.locks a m', h.locks b m');
    locks = λ a m' p. ground (arith, h.locks a m');
  }

  clean_up-IsConsistent :
      (i : ℕ) (n : String) (m : ℕ)
      → i < k
      → s.phase i ≡ inside n m
      → IsConsistent k (to_cleaning s i n m)
  clean_up-IsConsistent i n m below at = record {
    tidy = ensure_lock-IsTidy n s.table h.tidy;
    counted = λ j. ground (
      arith,
      h.counted j,
      active_at-ensure_lock n s.table j,
      total-update j k s.phase i (cleaning n m (ensure_lock n s.table).0),
    );
    agrees = λ j jk.
        Agrees-update (ensure_lock n s.table).1 s.phase i j (cleaning n m (ensure_lock n s.table).0)
          (same_mutex n m (rw at at (h.agrees i below)))
          (Agrees-ensure_lock n s.table (s.phase j) (h.agrees j jk));
    only = λ a b m' p q. ground (arith, h.only a b m');
    locks = λ a m' p. ground (arith, h.locks a m');
  }
    where
      same_mutex :
          (n : String) (m : ℕ)
          → mutex_at n s.table ≡ some m
          → (mutex_at n (ensure_lock n s.table).1 ≡ some m) × ((ensure_lock n s.table).0 ≡ m)
      same_mutex n m e =
          let kept = ensure_lock_keeps n s.table n m e in
          (kept, ground (arith, kept, mutex_at-ensure_lock n s.table))

  release-IsConsistent :
      (i : ℕ) (n : String) (m : ℕ)
      → i < k
      → s.phase i ≡ inside n m
      → IsConsistent k (to_leaving s i n m)
  release-IsConsistent i n m below at = record {
    tidy = release_lock-IsTidy n s.table h.tidy;
    counted = count;
    agrees = λ j jk. elim (Bool-cases (nat_eq i j)) [
      | inl same ↦ rw same tt
      | inr other ↦
          rw other (Agrees-release_lock n s.table (s.phase j) (still j jk other) (h.agrees j jk))
    ];
    only = λ a b m' p q. ground (arith, h.only a b m');
    locks = λ a m' p. ground (arith, h.locks a m');
  }
    where
      present : 1 ≤ active_at n s.table
      present = ground (arith, h.counted n, weight-le-total n k s.phase i below, eq_refl n)

      count :
          (j : String)
          → active_at j (release_lock n s.table) ≡ total j k (update s.phase i (leaving m))
      count j = ground (
        arith,
        h.counted j,
        active_at-release_lock n s.table j present,
        total-update j k s.phase i (leaving m),
      )

      still :
          (j : ℕ)
          → j < k
          → nat_eq i j ≡ false
          → (n' : String) → weight n' (s.phase j) ≤ active_at n' (release_lock n s.table)
      still j jk other n' =
          ground (arith, count n', weight-le-total n' k (update s.phase i (leaving m)) j jk)

  unlock-IsConsistent : (i m : ℕ) → i < k → s.phase i ≡ leaving m → IsConsistent k (to_idle s i m)
  unlock-IsConsistent i m below at = record {
    tidy = h.tidy;
    counted = λ j. ground (arith, h.counted j, total-update j k s.phase i idle);
    agrees = λ j jk. Agrees-update s.table s.phase i j idle tt (h.agrees j jk);
    only = λ a b m' p q. ground (arith, h.only a b m');
    locks = λ a m' p. ground (arith, h.locks a m', h.only i a m');
  }

  pub clean_up_lock_absurd :
      (i : ℕ) (n : String) (m m' : ℕ)
      → i < k
      → s.phase i ≡ cleaning n m m'
      → s.locked m' ≡ false
      → ⊥
  clean_up_lock_absurd i n m m' below at free =
      let (entry, same) : Agrees s.table (cleaning n m m') = rw at at (h.agrees i below) in
      ground (arith, h.locks i m)

lookup_empty : (n : String) → active_at n start_state.table ≡ 0
unfolding lookup
lookup_empty n = refl

start-IsTidy : IsTidy start_state.table
unfolding lookup
start-IsTidy = record { alive = λ n m e. cc; bound = λ n m e. cc; distinct = λ n j m e e'. cc }

pub start-IsConsistent : (k : ℕ) → IsConsistent k start_state
start-IsConsistent k = record {
  tidy = start-IsTidy;
  counted = λ n. rw total-idle (lookup_empty n);
  agrees = λ i ik. tt;
  only = λ i j m p q. cc;
  locks = λ i m p. cc;
}

pub Step-IsConsistent : {k : ℕ} {s t : State} → Step k s t → IsConsistent k s → IsConsistent k t
Step-IsConsistent {k} {s} (ensure i n below at) h = ensure-IsConsistent k s h i n below at
Step-IsConsistent {k} {s} (lock i n m below at free) h = lock-IsConsistent k s h i n m below at free
Step-IsConsistent {k} {s} (clean_up i n m below at) h = clean_up-IsConsistent k s h i n m below at
Step-IsConsistent {k} {s} (clean_up_lock i n m m' below at free) h =
    absurd (clean_up_lock_absurd k s h i n m m' below at free)
Step-IsConsistent {k} {s} (clean_up_refused i n m below at) h =
    release-IsConsistent k s h i n m below at
Step-IsConsistent {k} {s} (release i n m below at) h = release-IsConsistent k s h i n m below at
Step-IsConsistent {k} {s} (unlock i m below at) h = unlock-IsConsistent k s h i m below at

pub Reach-IsConsistent : {k : ℕ} {s t : State} → IsConsistent k s → Reach k s t → IsConsistent k t
Reach-IsConsistent h here = h
Reach-IsConsistent h (next r st) = Step-IsConsistent st (Reach-IsConsistent h r)

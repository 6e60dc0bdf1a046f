-- ===== src/Network/Locks/Count.antt =====
-- Counting the requests of a network, and what ensureLock and releaseLock do to the table
-- (internal/service/network/network.go).
use native.Mathlib.Decide.{ℕ_discrete}
use finch_daemon.Prelude.{
  ltb, ◌⊎◌, inl, inr, eq_refl, ◌-◌, Option-cases, ℕ, zero, suc, ◌+◌, ◌≤◌, ◌<◌, String, ◌≡◌, refl,
  Bool, true, false, Option, none, some, arith, ◌==◌, eq_iff, if◌then◌else◌,
}
use finch_daemon.Go.Maps.{lookup, insert, lookup-insert, lookup-delete}
use finch_daemon.Network.Locks.{
  MutexCounter, Table, Phase, idle, waiting, inside, cleaning, cleaned, update, ensure_lock,
  release_lock, drop_request,
}

abbrev pub one_if : Bool → ℕ
one_if true = 1
one_if false = 0

-- How often a request is counted for a network.
abbrev pub weight : String → Phase → ℕ
weight n (waiting j m) = one_if (j == n)
weight n (inside j m) = one_if (j == n)
weight n (cleaning j m m') = one_if (j == n) + one_if (j == n)
weight n (cleaned j m m') = one_if (j == n) + one_if (j == n)
weight n _ = 0

pub total : String → ℕ → (ℕ → Phase) → ℕ
total n zero f = 0
total n (suc k) f = total n k f + weight n (f k)

total-update_out :
    (n : String) (k : ℕ) (f : ℕ → Phase) (i : ℕ) (p : Phase)
    → k ≤ i
    → total n k (update f i p) ≡ total n k f
unfolding total
total-update_out n zero f i p h = refl
total-update_out n (suc k) f i p h = ground (arith, total-update_out n k f i p)

pub total-update :
    (n : String) (k : ℕ) (f : ℕ → Phase) (i : ℕ) (p : Phase)
    → i < k
    → total n k (update f i p) + weight n (f i) ≡ total n k f + weight n p
unfolding total
total-update n zero f i p h = elim h [ ]
total-update n (suc k) f i p h = ground (arith, total-update n k f i p, total-update_out n k f i p)

pub weight-le-total :
    (n : String) (k : ℕ) (f : ℕ → Phase) (i : ℕ) → i < k → weight n (f i) ≤ total n k f
unfolding total
weight-le-total n zero f i h = elim h [ ]
weight-le-total n (suc k) f i h = elim (ℕ_discrete i k) [
  | yes same ↦ rw same (omega arith)
  | no other ↦ omega (arith, weight-le-total n k f i (omega arith))
]

pub total-idle : (n : String) (k : ℕ) → total n k (λ i. idle) ≡ 0
unfolding total
total-idle n zero = refl
total-idle n (suc k) = omega (arith, total-idle n k)

abbrev pub mutex_of : Option MutexCounter → Option ℕ
mutex_of none = none
mutex_of (some c) = some c.mutex

abbrev pub active_of : Option MutexCounter → ℕ
active_of none = 0
active_of (some c) = c.active_reqs

abbrev pub mutex_at : String → Table → Option ℕ
mutex_at n t = mutex_of (lookup n t.network_mutexes)

abbrev pub active_at : String → Table → ℕ
active_at n t = active_of (lookup n t.network_mutexes)

-- The entry that ensureLock leaves, and the next number.
abbrev grown : Option MutexCounter → ℕ → MutexCounter
grown none next = record { mutex = next; active_reqs = 1 }
grown (some c) next = record { mutex = c.mutex; active_reqs = c.active_reqs + 1 }

abbrev next_of : Option MutexCounter → ℕ → ℕ
next_of none next = next + 1
next_of (some c) next = next

-- The entry that releaseLock leaves.
abbrev shrunk : Option MutexCounter → Option MutexCounter
shrunk none = none
shrunk (some c) =
    if ltb (c.active_reqs - 1) 1
    then none
    else some (record { mutex = c.mutex; active_reqs = c.active_reqs - 1 })

module _ (n : String) (t : Table) where
  ensure_lock_lem : ensure_lock n t ≡ (
    (grown (lookup n t.network_mutexes) t.next).mutex,
    record {
      network_mutexes = insert n (grown (lookup n t.network_mutexes) t.next) t.network_mutexes;
      next = next_of (lookup n t.network_mutexes) t.next;
    },
  )
  unfolding ensure_lock
  ensure_lock_lem = ground arith

  ensure_lock_at :
      (j : String)
      → lookup j (ensure_lock n t).1.network_mutexes ≡ (
          if n == j
          then some (grown (lookup n t.network_mutexes) t.next)
          else lookup j t.network_mutexes)
  ensure_lock_at j = rw (ensure_lock_lem, lookup-insert)

  pub mutex_at-ensure_lock : mutex_at n (ensure_lock n t).1 ≡ some (ensure_lock n t).0
  mutex_at-ensure_lock = ground (arith, ensure_lock_lem, ensure_lock_at n, eq_refl n)

  pub ensure_lock_keeps :
      (j : String) (m : ℕ) → mutex_at j t ≡ some m → mutex_at j (ensure_lock n t).1 ≡ some m
  ensure_lock_keeps j m h = ground (arith, ensure_lock_at j, eq_iff n j)

  pub active_at-ensure_lock :
      (j : String) → active_at j (ensure_lock n t).1 ≡ active_at j t + one_if (n == j)
  active_at-ensure_lock j = ground (arith, ensure_lock_at j, eq_iff n j)

  -- ensureLock gives the mutex of the entry, or a new one.
  pub ensure_lock_new :
      (j : String) (m : ℕ)
      → mutex_at j (ensure_lock n t).1 ≡ some m
      → (mutex_at j t ≡ some m) ⊎ ((n ≡ j) × (m ≡ t.next) × (mutex_at j t ≡ none))
  ensure_lock_new j m h = ground (arith, ensure_lock_at j, eq_iff n j)

  pub next-ensure_lock : t.next ≤ (ensure_lock n t).1.next
  next-ensure_lock = ground (arith, ensure_lock_lem)

  pub ensure_lock_next : mutex_at n t ≡ none → (ensure_lock n t).1.next ≡ t.next + 1
  ensure_lock_next h = ground (arith, ensure_lock_lem)

  drop_request_at :
      (j : String) (c : MutexCounter)
      → lookup j (drop_request n c t.network_mutexes)
        ≡ (if n == j then shrunk (some c) else lookup j t.network_mutexes)
  drop_request_at j c = ground (
    arith,
    lookup-delete n j t.network_mutexes,
    lookup-insert n j (record c { active_reqs = c.active_reqs - 1 }) t.network_mutexes,
  )

  release_lock_at :
      (j : String)
      → lookup j (release_lock n t).network_mutexes
        ≡ (if n == j then shrunk (lookup n t.network_mutexes) else lookup j t.network_mutexes)
  unfolding release_lock
  release_lock_at j = elim (Option-cases (lookup n t.network_mutexes)) [
    | inl absent ↦ ground (arith, eq_iff n j)
    | inr (c, found) ↦ ground (arith, drop_request_at j c)
  ]

  pub active_at-release_lock :
      (j : String)
      → 1 ≤ active_at n t
      → active_at j (release_lock n t) + one_if (n == j) ≡ active_at j t
  active_at-release_lock j h = ground (arith, release_lock_at j, eq_iff n j)

  -- An entry that is still counted keeps its mutex.
  pub release_lock_keeps :
      (j : String) (m : ℕ)
      → 1 ≤ active_at j (release_lock n t)
      → mutex_at j t ≡ some m
      → mutex_at j (release_lock n t) ≡ some m
  release_lock_keeps j m counted h = ground (arith, release_lock_at j, eq_iff n j)

  -- releaseLock makes no entry.
  pub release_lock_old :
      (j : String) (m : ℕ) → mutex_at j (release_lock n t) ≡ some m → mutex_at j t ≡ some m
  release_lock_old j m h = ground (arith, release_lock_at j, eq_iff n j)

  pub next-release_lock : (release_lock n t).next ≡ t.next
  unfolding release_lock
  next-release_lock = ground arith

  pub release_lock_alive :
      (j : String) (m : ℕ)
      → mutex_at j (release_lock n t) ≡ some m
      → 1 ≤ active_at j t
      → 1 ≤ active_at j (release_lock n t)
  release_lock_alive j m e h = ground (arith, release_lock_at j, eq_iff n j)

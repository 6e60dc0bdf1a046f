-- ===== src/Network/Locks.antt =====
-- The mutexes of internal/service/network/network.go, one to a network name, and the way in which
-- Create (create.go) and Remove (remove.go) take them.
pub mod Count
pub mod Tidy
pub mod Invariant
pub mod Exclusion
pub mod CleanUp
use mathlib.Core.List.{List}
use finch_daemon.Prelude.{
  ◌<◌, ℕ, ◌+◌, ◌-◌, String, ◌≡◌, Bool, true, false, Option, none, some, ltb, nat_eq, if◌then◌else◌,
}
use finch_daemon.Go.Maps.{Map, lookup, insert, delete}

-- mutexCounter, with a number for the mutex that it points to
pub record MutexCounter : Type 0 where
  pub mutex : ℕ
  pub active_reqs : ℕ

-- `networkMutexes`, and the number of the next `&sync.Mutex{}`
pub record Table : Type 0 where
  pub network_mutexes : Map MutexCounter
  pub next : ℕ

-- ensureLock, whose body runs under the service's own mutex
unfoldable pub ensure_lock : String → Table → ℕ × Table
ensure_lock name t = elim (lookup name t.network_mutexes) [
  | some mwc ↦ (
    mwc.mutex,
    record t {
      network_mutexes =
          insert name (record mwc { active_reqs = mwc.active_reqs + 1 }) t.network_mutexes;
    },
  )
  | none ↦ (
    t.next,
    record {
      network_mutexes = insert name (record { mutex = t.next; active_reqs = 1 }) t.network_mutexes;
      next = t.next + 1;
    },
  )
]

-- The count after `activeReqs--`; an `int`, which is at least 1 before.
abbrev drop_request : String → MutexCounter → Map MutexCounter → Map MutexCounter
drop_request name mwc m =
    if ltb (mwc.active_reqs - 1) 1
    then delete name m
    else insert name (record mwc { active_reqs = mwc.active_reqs - 1 }) m

-- releaseLock
unfoldable pub release_lock : String → Table → Table
release_lock name t = elim (lookup name t.network_mutexes) [
  | some mwc ↦ record t { network_mutexes = drop_request name mwc t.network_mutexes }
  | none ↦ t
]

-- Where a request stands in Create or Remove. The deferred calls run last to first: the clean-up of
-- Create, releaseLock, Unlock. A clean-up calls Remove while the request holds its mutex `m`, and
-- `m'` is the mutex that Remove asks for.
pub data Phase : Type 0 where
  idle : Phase
  waiting inside : (name : String) (m : ℕ) → Phase
  leaving : (m : ℕ) → Phase
  cleaning cleaned : (name : String) (m m' : ℕ) → Phase

-- All requests, and which mutexes are locked.
pub record State : Type 0 where
  pub table : Table
  pub locked : ℕ → Bool
  pub phase : ℕ → Phase

abbrev pub update {ℓ} : {A : Type ℓ} → (ℕ → A) → ℕ → A → ℕ → A
update f i a j = if nat_eq i j then a else f j

abbrev pub start_state : State
start_state = record {
  table = record { network_mutexes = List.[]; next = 0 };
  locked = λ m. false;
  phase = λ i. idle;
}

abbrev pub to_waiting : State → ℕ → String → State
to_waiting s i n = record {
  table = (ensure_lock n s.table).1;
  locked = s.locked;
  phase = update s.phase i (waiting n (ensure_lock n s.table).0);
}

abbrev pub to_inside : State → ℕ → String → ℕ → State
to_inside s i n m = record {
  table = s.table;
  locked = update s.locked m true;
  phase = update s.phase i (inside n m);
}

abbrev pub to_cleaning : State → ℕ → String → ℕ → State
to_cleaning s i n m = record {
  table = (ensure_lock n s.table).1;
  locked = s.locked;
  phase = update s.phase i (cleaning n m (ensure_lock n s.table).0);
}

abbrev pub to_cleaned : State → ℕ → String → ℕ → ℕ → State
to_cleaned s i n m m' = record {
  table = s.table;
  locked = update s.locked m' true;
  phase = update s.phase i (cleaned n m m');
}

abbrev pub to_leaving : State → ℕ → String → ℕ → State
to_leaving s i n m = record {
  table = release_lock n s.table;
  locked = s.locked;
  phase = update s.phase i (leaving m);
}

abbrev pub to_idle : State → ℕ → ℕ → State
to_idle s i m = record {
  table = s.table;
  locked = update s.locked m false;
  phase = update s.phase i idle;
}

-- One step of one of `k` requests. A Lock waits until the mutex is unlocked.
-- A clean-up begins with the checks of Remove, which ask for no mutex. If one of them refuses
-- (getNetwork, UsedNetworkInfo, an empty File) the clean-up is over and releaseLock follows, as it
-- does without a clean-up; otherwise Remove asks for the mutex of the network found, which is the one
-- of the name that was created. What would follow `cleaned` is left out, the rest of Remove.
pub data Step (k : ℕ) (s : State) : State → Type 0 where
  ensure : (i : ℕ) (n : String) → i < k → s.phase i ≡ idle → Step k s (to_waiting s i n)
  lock :
      (i : ℕ) (n : String) (m : ℕ)
      → i < k
      → s.phase i ≡ waiting n m
      → s.locked m ≡ false
      → Step k s (to_inside s i n m)
  clean_up :
      (i : ℕ) (n : String) (m : ℕ) → i < k → s.phase i ≡ inside n m → Step k s (to_cleaning s i n m)
  clean_up_lock :
      (i : ℕ) (n : String) (m m' : ℕ)
      → i < k
      → s.phase i ≡ cleaning n m m'
      → s.locked m' ≡ false
      → Step k s (to_cleaned s i n m m')
  clean_up_refused :
      (i : ℕ) (n : String) (m : ℕ) → i < k → s.phase i ≡ inside n m → Step k s (to_leaving s i n m)
  release :
      (i : ℕ) (n : String) (m : ℕ) → i < k → s.phase i ≡ inside n m → Step k s (to_leaving s i n m)
  unlock : (i m : ℕ) → i < k → s.phase i ≡ leaving m → Step k s (to_idle s i m)

pub data Reach (k : ℕ) (s : State) : State → Type 0 where
  here : Reach k s s
  next : {t u : State} → Reach k s t → Step k t u → Reach k s u

-- ===== src/Network/Tests.antt =====
-- The network mutexes on concrete runs.
use finch_daemon.Prelude.{ℕ, String, ◌≡◌, refl, none, arith}
use finch_daemon.Go.Maps.{lookup, insert, delete}
use finch_daemon.Network.Locks.{
  idle, cleaning, State, start_state, ensure_lock, release_lock, to_waiting, to_inside, to_cleaning,
  to_leaving, to_idle, Reach, here, next, ensure, lock, clean_up, release, unlock,
}
use finch_daemon.Network.Locks.Count.{mutex_at}
use finch_daemon.Network.Locks.Exclusion.{mutual_exclusion, no_entry_left}
use finch_daemon.Network.Locks.CleanUp.{clean_up_never_ends}

-- Request 0 works on the network "a"; request 1 then asks for it, or for "b".
abbrev working : State
working = to_inside (to_waiting start_state 0 "a") 0 "a" 0

abbrev asking : String → State
asking n = to_waiting working 1 n

tables : Unit {0}
unfolding ensure_lock release_lock lookup insert delete
tables = tt

Reach-working : Reach 2 start_state working
unfolding tables
Reach-working =
    next (next here (ensure 0 "a" (omega arith) refl)) (lock 0 "a" 0 (omega arith) refl refl)

Reach-asking : (n : String) → Reach 2 start_state (asking n)
unfolding tables
Reach-asking n = next Reach-working (ensure 1 n (omega arith) refl)

mutual_exclusion_example : ◌≡◌ {A = ℕ} 0 0
mutual_exclusion_example =
    mutual_exclusion 2 working 0 0 "a" 0 0 Reach-working (omega arith) (omega arith) refl refl

abbrev done : State
done = to_idle (to_leaving working 0 "a" 0) 0 0

Reach-done : Reach 2 start_state done
unfolding tables
Reach-done =
    next (next Reach-working (release 0 "a" 0 (omega arith) refl)) (unlock 0 0 (omega arith) refl)

all_idle : (i : ℕ) → done.phase i ≡ idle
all_idle i = ground arith

no_entry_left_example : mutex_at "a" done.table ≡ none
no_entry_left_example = no_entry_left 2 done "a" Reach-done all_idle

-- The post-create step of request 0 fails and its clean-up calls Remove.
abbrev failing : State
failing = to_cleaning working 0 "a" 0

Reach-failing : Reach 2 start_state failing
unfolding tables
Reach-failing = next Reach-working (clean_up 0 "a" 0 (omega arith) refl)

abbrev later : State
later = to_waiting failing 1 "a"

later_reached : Reach 2 failing later
later_reached = next here (ensure 1 "a" (omega arith) refl)

clean_up_never_ends_example : later.phase 0 ≡ cleaning "a" 0 0
unfolding tables
clean_up_never_ends_example =
    clean_up_never_ends 2 failing later 0 "a" 0 0 Reach-failing refl later_reached

-- ===== src/Network/Locks/Exclusion.antt =====
-- Requests for one network exclude one another (internal/service/network/network.go).
use mathlib.Core.Path.{fun_ext}
use finch_daemon.Prelude.{Option-cases, ap, ◌∙◌, ℕ, ◌<◌, inl, inr, String, ◌≡◌, none, some, arith}
use finch_daemon.Network.Locks.{idle, waiting, inside, State, start_state, Reach}
use finch_daemon.Network.Locks.Count.{total, total-idle, mutex_at, active_at}
use finch_daemon.Network.Locks.Invariant.{start-IsConsistent, Reach-IsConsistent}

-- However many requests there are and however their steps interleave, at most one of them is
-- between its Lock and its releaseLock for a network name.
pub mutual_exclusion :
    (k : ℕ) (s : State) (i j : ℕ) (n : String) (m m' : ℕ)
    → Reach k start_state s
    → i < k
    → j < k
    → s.phase i ≡ inside n m
    → s.phase j ≡ inside n m'
    → i ≡ j
mutual_exclusion k s i j n m m' r below below' at at' =
    let h = Reach-IsConsistent (start-IsConsistent k) r in
    let a : mutex_at n s.table ≡ some m = rw at at (h.agrees i below) in
    let a' : mutex_at n s.table ≡ some m' = rw at' at (h.agrees j below') in
    ground (arith, h.only i j m)

-- A request that waits for its network's mutex never waits for a request that is at work on a
-- network of another name.
pub other_networks :
    (k : ℕ) (s : State) (i j : ℕ) (n n' : String) (m : ℕ)
    → Reach k start_state s
    → i < k
    → j < k
    → s.phase i ≡ inside n m
    → s.phase j ≡ waiting n' m
    → n ≡ n'
other_networks k s i j n n' m r below below' at at' =
    let h = Reach-IsConsistent (start-IsConsistent k) r in
    let a : mutex_at n s.table ≡ some m = rw at at (h.agrees i below) in
    let a' : mutex_at n' s.table ≡ some m = rw at' at (h.agrees j below') in
    h.tidy.distinct n n' m a a'

-- The table leaks nothing: when all requests are over, it has no entry.
pub no_entry_left :
    (k : ℕ) (s : State) (n : String)
    → Reach k start_state s
    → ((i : ℕ) → s.phase i ≡ idle)
    → mutex_at n s.table ≡ none
no_entry_left k s n r over =
    let h = Reach-IsConsistent (start-IsConsistent k) r in
    let none_counted : active_at n s.table ≡ 0 =
      h.counted n ∙ ap (total n k) (fun_ext over) ∙ total-idle n k in
    elim (Option-cases (mutex_at n s.table)) [
      | inl empty ↦ empty
      | inr (m, found) ↦ absurd (omega (arith, h.tidy.alive n m found))
    ]

-- ===== src/Network/Locks/CleanUp.antt =====
-- What becomes of a Create whose clean-up calls Remove (internal/service/network/create.go).
use finch_daemon.Prelude.{
  sym, ap, ◌∙◌, nat_eq_iff, ℕ, ◌<◌, inl, inr, String, ◌≡◌, ◌≢◌, some, arith, nat_eq, Bool-cases,
}
use finch_daemon.Network.Locks.{
  Phase, inside, cleaning, State, update, start_state, Step, ensure, lock, release, unlock,
  clean_up, clean_up_lock, clean_up_refused, Reach, here, next,
}
use finch_daemon.Network.Locks.Count.{mutex_at}
use finch_daemon.Network.Locks.Invariant.{
  start-IsConsistent, Reach-IsConsistent, clean_up_lock_absurd,
}
use finch_daemon.Network.Locks.Tidy.{IsConsistent, Agrees}

-- Another request's step leaves a phase that it does not start from.
update_other :
    (f : ℕ → Phase) (i j : ℕ) (p q r : Phase) → f j ≡ p → f i ≡ q → p ≢ q → update f i r j ≡ p
update_other f i j p q r at at' differ = elim (Bool-cases (nat_eq i j)) [
  | inl same ↦ absurd (differ (sym at ∙ ap f (sym ((nat_eq_iff i j).0 same)) ∙ at'))
  | inr other ↦ rw other at
]

Step-cleaning :
    {k : ℕ} {s t : State} (j : ℕ) (n : String) (m m' : ℕ)
    → Step k s t
    → IsConsistent k s
    → s.phase j ≡ cleaning n m m'
    → t.phase j ≡ cleaning n m m'
Step-cleaning {k} {s} j n m m' (ensure i n' below at) h stuck =
    update_other s.phase i j _ _ _ stuck at (λ e. cc)
Step-cleaning {k} {s} j n m m' (lock i n' m2 below at free) h stuck =
    update_other s.phase i j _ _ _ stuck at (λ e. cc)
Step-cleaning {k} {s} j n m m' (clean_up i n' m2 below at) h stuck =
    update_other s.phase i j _ _ _ stuck at (λ e. cc)
Step-cleaning {k} {s} j n m m' (clean_up_lock i n' m2 m3 below at free) h stuck =
    absurd (clean_up_lock_absurd k s h i n' m2 m3 below at free)
Step-cleaning {k} {s} j n m m' (clean_up_refused i n' m2 below at) h stuck =
    update_other s.phase i j _ _ _ stuck at (λ e. cc)
Step-cleaning {k} {s} j n m m' (release i n' m2 below at) h stuck =
    update_other s.phase i j _ _ _ stuck at (λ e. cc)
Step-cleaning {k} {s} j n m m' (unlock i m2 below at) h stuck =
    update_other s.phase i j _ _ _ stuck at (λ e. cc)

Reach-cleaning :
    {k : ℕ} {s t : State} (j : ℕ) (n : String) (m m' : ℕ)
    → IsConsistent k s
    → s.phase j ≡ cleaning n m m'
    → Reach k s t
    → t.phase j ≡ cleaning n m m'
Reach-cleaning j n m m' h stuck here = stuck
Reach-cleaning j n m m' h stuck (next r st) =
    Step-cleaning j n m m' st (Reach-IsConsistent h r) (Reach-cleaning j n m m' h stuck r)

-- A Create that holds its network's mutex and whose clean-up has called Remove for the same network
-- never goes on: it waits for the mutex that it holds, in every state that can follow.
pub clean_up_never_ends :
    (k : ℕ) (s t : State) (i : ℕ) (n : String) (m m' : ℕ)
    → Reach k start_state s
    → s.phase i ≡ cleaning n m m'
    → Reach k s t
    → t.phase i ≡ cleaning n m m'
clean_up_never_ends k s t i n m m' r stuck r' =
    Reach-cleaning i n m m' (Reach-IsConsistent (start-IsConsistent k) r) stuck r'

-- From then on no request for that network gets past its Lock.
network_blocked :
    (k : ℕ) (s t : State) (i j : ℕ) (n : String) (m m' m2 : ℕ)
    → Reach k start_state s
    → i < k
    → j < k
    → s.phase i ≡ cleaning n m m'
    → Reach k s t
    → t.phase j ≢ inside n m2
network_blocked k s t i j n m m' m2 r below below' stuck r' at =
    let h = Reach-IsConsistent (start-IsConsistent k) r in
    let later = Reach-IsConsistent h r' in
    let still = Reach-cleaning i n m m' h stuck r' in
    let a : Agrees t.table (cleaning n m m') = rw still at (later.agrees i below) in
    let a' : mutex_at n t.table ≡ some m2 = rw at at (later.agrees j below') in
    ground (arith, later.only i j m)

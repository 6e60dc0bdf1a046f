-- ===== src/Stats/Chain.antt =====
-- How the samples of a container follow one another.
use finch_daemon.Prelude.{
  ℕ, ◌≡◌, ◌≢◌, refl, ◌⊎◌, inl, inr, String, Option, none, some, List, [], ◌∷◌, suc, length, arith,
  ap,
}
use finch_daemon.Act.{Result, ok, err, Result-cases}
use finch_daemon.Containers.Backend.{ProcessStatus, created, stopped, unknown}
use finch_daemon.Stats.Types.{StatsJson, empty_stats}
use finch_daemon.Stats.Collect.{Probe, Event, tick, sample, send_stats, collect_container_stats}

module _ {NS : Type 0} (id name : String) where
  -- A sample is that of the container, and is empty or has the time and the CPU figures of the
  -- sample before it.
  pub record IsNext (before s : StatsJson NS) : Type 0 where
    pub same_id : s.id ≡ id
    pub same_name : s.name ≡ name
    pub follows :
        (s ≡ empty_stats id name)
        ⊎ ((s.pre_read ≡ before.read) × (s.pre_cpu_stats ≡ before.cpu_stats))

  abbrev pub Chained : StatsJson NS → List (StatsJson NS) → Type 0
  Chained before [] = Unit
  Chained before (s ∷ ss) = IsNext before s × Chained s ss

-- The ticks before the first other event.
unfoldable pub ticks : List Event → ℕ
ticks [] = 0
ticks (tick now ∷ events) = suc (ticks events)
ticks (_ ∷ events) = 0

module _ {W T I NS : Type 0} (p : Probe W T I NS) (id name : String) where
  sample-IsNext :
      (before : StatsJson NS) (now : ℕ) (r : Result (Option (StatsJson NS)))
      → IsNext id name before (sample p id name before now r)
  sample-IsNext before now (err e) = record { same_id = refl; same_name = refl; follows = inl refl }
  sample-IsNext before now (ok none) = record {
    same_id = refl;
    same_name = refl;
    follows = inl refl;
  }
  sample-IsNext before now (ok (some s)) = record {
    same_id = refl;
    same_name = refl;
    follows = inr (refl, refl);
  }

  -- Whatever the collection of samples gives, a sample is sent for every tick until the first other
  -- event, each is the container's, and each has the figures of the one before it or is empty.
  pub send_stats-Chained :
      (events : List Event) (before : StatsJson NS) (w : W)
      → (length (send_stats p id name events before w) ≡ ticks events)
        × Chained id name before (send_stats p id name events before w)
  unfolding send_stats ticks
  send_stats-Chained [] before w = (refl, tt)
  send_stats-Chained (tick now ∷ events) before w =
      let s = sample p id name before now (collect_container_stats p w).0 in
      let (counted, chained) = send_stats-Chained events s (collect_container_stats p w).1 in
      (ap suc counted, (sample-IsNext before now (collect_container_stats p w).0, chained))
  send_stats-Chained (_ ∷ events) before w = (refl, tt)

  -- A sample with figures is taken only while the container's task exists and has a status other
  -- than created, stopped and unknown.
  collected_running :
      (w : W) (st : StatsJson NS)
      → (collect_container_stats p w).0 ≡ ok (some st)
      → (t : T) × (status : ProcessStatus) × ((p.task w).0 ≡ ok t)
        × ((p.status t (p.task w).1).0 ≡ ok status)
        × (status ≢ created)
        × (status ≢ stopped)
        × (status ≢ unknown)
  unfolding collect_container_stats
  collected_running w st h = elim (Result-cases (p.task w).0) [
    | inr (e, failed) ↦ absurd (ground arith)
    | inl (t, found) ↦ elim (Result-cases (p.status t (p.task w).1).0) [
      | inr (e, failed) ↦ absurd (ground arith)
      | inl (status, known) ↦
          (t, status, found, known, (λ e. ground arith), (λ e. ground arith), (λ e. ground arith))
    ]
  ]

-- ===== src/Stats/Collect.antt =====
-- The samples of a container and the loop that sends them (internal/service/container/stats.go).
use finch_daemon.Prelude.{ℕ, String, Bool, Option, none, some, List, [], ◌∷◌, if◌then◌else◌}
use finch_daemon.Errors.{GoError, plain}
use finch_daemon.Act.{Result, ok, err, Act, pure, fail, ◌>>=◌}
use finch_daemon.Go.Maps.{Map}
use finch_daemon.Containers.Backend.{ProcessStatus, created, stopped, unknown}
use finch_daemon.Stats.Types.{StatsJson, empty_stats}
use finch_daemon.Stats.V1
use finch_daemon.Stats.V2
use finch_daemon.Stats.Cgroups.{collect_cgroup1_stats, collect_cgroup2_stats}

-- What typeurl.UnmarshalAny gives: metrics of a cgroup version, or something else.
pub data AnyData : Type 0 where
  v1_metrics : V1.Metrics → AnyData
  v2_metrics : V2.Metrics → AnyData
  other_data : AnyData

-- The container: its task, cerrdefs.IsNotFound, the task's status and metrics, the host's CPU
-- figures, and the network interfaces `I` of the task with their statistics.
pub record Probe (W T I NS : Type 0) : Type 1 where
  pub task : Act W T
  pub is_c_not_found : GoError → Bool
  pub status : T → Act W ProcessStatus
  pub metrics : T → Act W AnyData
  pub get_system_cpu_usage : Act W ℕ
  pub get_number_online_cpus : Act W ℕ
  pub inspect_net_ns : T → Act W (List I)
  pub collect_network_stats : T → List I → Act W (Map NS)

-- What the loop waits for: the ticker, at a time; an error of the remove event; the event; the end
-- of the context.
pub data Event : Type 0 where
  tick : (now : ℕ) → Event
  remove_error removed cancelled : Event

module _ {W T I NS : Type 0} (p : Probe W T I NS) where
  abbrev pub from_any : AnyData → Act W (StatsJson NS)
  from_any (v1_metrics m) = pure (collect_cgroup1_stats m)
  from_any (v2_metrics m) = pure (collect_cgroup2_stats m)
  from_any other_data = fail (plain "cannot convert metric data to cgroups.Metrics")

  -- `if len(networks) > 0 { st.Networks = networks }`
  abbrev with_networks : StatsJson NS → Map NS → StatsJson NS
  with_networks st [] = st
  with_networks st (n ∷ networks) = record st { networks = n ∷ networks }

  abbrev pub with_system : StatsJson NS → ℕ → ℕ → StatsJson NS
  with_system st system_usage online_cpus = record st {
    cpu_stats = record (st.cpu_stats) { system_usage = system_usage; online_cpus = online_cpus };
  }

  -- The statements after the status of the task
  unfoldable pub collect_metrics : T → Act W (Option (StatsJson NS))
  collect_metrics t = p.metrics t >>= from_any >>= (λ st.
      p.get_system_cpu_usage >>= (λ system_usage. p.get_number_online_cpus >>= (λ online_cpus.
        p.inspect_net_ns t >>= (λ interfaces. p.collect_network_stats t interfaces >>= (λ networks.
          pure (some (with_networks (with_system st system_usage online_cpus) networks)))))))

  abbrev pub on_status : T → ProcessStatus → Act W (Option (StatsJson NS))
  on_status t created = pure none
  on_status t stopped = pure none
  on_status t unknown = pure none
  on_status t _ = collect_metrics t

  abbrev on_task : Result T → Act W (Option (StatsJson NS))
  on_task (err e) w = if p.is_c_not_found e then (ok none, w) else (err e, w)
  on_task (ok t) w = (p.status t >>= on_status t) w

  -- collectContainerStats
  unfoldable pub collect_container_stats : Act W (Option (StatsJson NS))
  collect_container_stats w = on_task (p.task w).0 (p.task w).1

module _ {W T I NS : Type 0} (p : Probe W T I NS) (id name : String) where
  -- The sample that a tick sends, given the one before
  abbrev pub sample : StatsJson NS → ℕ → Result (Option (StatsJson NS)) → StatsJson NS
  sample pre_stats now (err e) = empty_stats id name
  sample pre_stats now (ok none) = empty_stats id name
  sample pre_stats now (ok (some stats_json)) = record stats_json {
    read = now;
    pre_read = pre_stats.read;
    pre_cpu_stats = pre_stats.cpu_stats;
    id = id;
    name = name;
  }

  -- The samples that the goroutine of Stats sends for a sequence of events
  unfoldable pub send_stats : List Event → StatsJson NS → W → List (StatsJson NS)
  send_stats [] pre_stats w = []
  send_stats (tick now ∷ events) pre_stats w =
      let s = sample pre_stats now (collect_container_stats p w).0 in
      s ∷ send_stats events s (collect_container_stats p w).1
  send_stats (_ ∷ events) pre_stats w = []

-- ===== src/Monitor/Tests.antt =====
-- Rounds of the monitor on small inputs, and the theorems about them at inputs that meet them.
use mathlib.Core.Option
use chutes_miner.Prelude.{[], arith, none, refl, some, ◌∷◌, ◌≡◌}
use chutes_miner.Schema.{Key}
use chutes_miner.Db.{Db}
use chutes_miner.Cache.{
  Cache, Health, active, clear_cluster_resources, get_cluster_status, get_resource, hset, pod,
  set_cluster_resources, set_status, starting_status, store_all, track_cluster, unhealthy,
  update_cluster_status,
}
use chutes_miner.Cache.Tests.{two_clusters}
use chutes_miner.Monitor.{
  Verdict, act_on, check_all_clusters, check_cluster_health, check_each, conflict, fault,
  heartbeat_verdict, mark_unhealthy, no_timestamp, reconcile_cache_with_db, register_cluster,
  restore_each, restore_unhealthy_clusters, stale, well,
}
use chutes_miner.Monitor.Router.{handle_heartbeat, put_resources, success}
use chutes_miner.Monitor.Recovery.{Steps-IsDown, put_resources_restores}
use chutes_miner.Monitor.Freshness.{IsFresh, check_all_clusters-IsFresh, check_all_clusters_keeps}
use chutes_miner.Monitor.Sync.{reconcile_cache_with_db_clears, reconcile_cache_with_db_keeps}
use chutes_miner.Sample.{first_server, sample, second_server}
use chutes_miner.Monitor.Steps.{IsDown, heartbeat, next, stay}

abbrev reason_code : Verdict → Key
reason_code well = 0
reason_code no_timestamp = 1
reason_code stale = 2

program : Unit {0}
unfolding check_all_clusters check_each check_cluster_health act_on heartbeat_verdict mark_unhealthy
    update_cluster_status set_status restore_unhealthy_clusters restore_each register_cluster
    track_cluster set_cluster_resources clear_cluster_resources store_all hset
program = tt

-- Cluster 1 is stale at 1000, with intervals of 30.
abbrev checked : Cache
checked = check_all_clusters 1000 30 reason_code two_clusters

abbrev second_health : Health
second_health = record {
  cluster_name = 2;
  status = record {
    state = active;
    last_heartbeat = some 990;
    error_message = none;
    heartbeat_failures = 0;
  };
}

finds_stale :
    Option.map (λ (h : Health). h.status.state) (get_cluster_status 1 checked) ≡ some unhealthy
unfolding program
finds_stale = refl

refuses_second : (register_cluster 1000 1 [] two_clusters).0 ≡ fault conflict
unfolding program
refuses_second = refl

-- Only the agent of the stale cluster is asked, and not again within the interval.
asks_once :
    let db : Db = record sample {
      servers = record first_server { name = 1 } ∷ record second_server { name = 2 } ∷ [];
    } in
    let (asked, last) = restore_unhealthy_clusters 1000 300 db checked (λ c. 0) in
    (asked ≡ 10 ∷ []) × ((restore_unhealthy_clusters 1100 300 db checked last).0 ≡ [])
unfolding program
asks_once = (refl, refl)

still_there : get_cluster_status 2 checked ≡ some second_health
unfolding program
still_there = refl

check_all_clusters-IsFresh_example : IsFresh 1000 30 second_health.status
check_all_clusters-IsFresh_example =
    check_all_clusters-IsFresh 1000 30 reason_code 2 two_clusters second_health still_there

check_all_clusters_keeps_example : get_cluster_status 2 checked ≡ some second_health
unfolding program
check_all_clusters_keeps_example =
    check_all_clusters_keeps 1000 30 reason_code 2 two_clusters second_health (ground arith) refl
      refl

-- The names of the sample's servers are 1010 and 1020.
reconcile_cache_with_db_clears_example :
    get_cluster_status 1 (reconcile_cache_with_db sample two_clusters) ≡ none
reconcile_cache_with_db_clears_example = reconcile_cache_with_db_clears 1 sample two_clusters refl

abbrev named_db : Db
named_db = record sample { servers = record first_server { name = 2 } ∷ [] }

reconcile_cache_with_db_keeps_example :
    (get_cluster_status 2 (reconcile_cache_with_db named_db two_clusters)
      ≡ get_cluster_status 2 two_clusters)
    × (get_resource 2 pod 30 43 (reconcile_cache_with_db named_db two_clusters)
        ≡ get_resource 2 pod 30 43 two_clusters)
reconcile_cache_with_db_keeps_example =
    reconcile_cache_with_db_keeps 2 named_db two_clusters pod 30 43 refl

checked-IsDown : IsDown 1 checked
unfolding program
checked-IsDown x e = ground arith

-- The heartbeat of the stale cluster is refused, and the other's is accepted.
Steps-IsDown_example :
    IsDown 1
      (handle_heartbeat 2 active (some 1010) (handle_heartbeat 1 active (some 1005) checked).1).1
Steps-IsDown_example =
    Steps-IsDown 1 checked
      (handle_heartbeat 2 active (some 1010) (handle_heartbeat 1 active (some 1005) checked).1).1
      (next checked (handle_heartbeat 1 active (some 1005) checked).1
        (handle_heartbeat 2 active (some 1010) (handle_heartbeat 1 active (some 1005) checked).1).1
        (next checked checked (handle_heartbeat 1 active (some 1005) checked).1 (stay checked)
          (heartbeat 1 active (some 1005) checked))
        (heartbeat 2 active (some 1010) (handle_heartbeat 1 active (some 1005) checked).1))
      checked-IsDown

abbrev pub agent_db : Db
agent_db = record sample { servers = record first_server { name = 1 } ∷ [] }

put_resources_restores_example :
    let m = put_resources 1020 agent_db 1 [] two_clusters in
    (m.0 ≡ success)
    × (get_cluster_status 1 m.1 ≡ some (record { cluster_name = 1; status = starting_status 1020 }))
    × ((handle_heartbeat 1 active (some 1030) m.1).0 ≡ success)
put_resources_restores_example =
    put_resources_restores 1 1020 agent_db [] two_clusters active (some 1030) refl refl

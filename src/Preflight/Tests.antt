-- ===== src/Preflight/Tests.antt =====
-- Preflights over a cache of two clusters, and the theorem at inputs that meet it.
use chutes_miner.Prelude.{Bool, [], false, none, refl, some, true, ◌+◌, ◌∷◌, ◌≡◌, ◌⊎◌}
use chutes_miner.Schema.{Key}
use chutes_miner.Db.{Db}
use chutes_miner.Action.{Raised, return}
use chutes_miner.Cache.{
  Cache, get_resource_cluster, job, mark_cluster_unhealthy, set_status, update_cluster_status,
}
use chutes_miner.Cache.Tests.{two_clusters}
use chutes_miner.Sample.{first_server, sample}
use chutes_miner.Preflight.{
  LiveRead, Names, check_cached, check_location, delete_preflight, deployment_server,
  is_resource_stale, live_job, preflight_on,
}
use chutes_miner.Preflight.Allowed.{IsSafe, preflight-IsSafe}

abbrev some_names : Names
some_names = record {
  namespace = 30;
  job_name = λ d. d + 500;
  version_of = λ x. some x.object;
  reason = 9;
}

program : Unit {0}
unfolding is_resource_stale check_cached check_location preflight_on delete_preflight
    get_resource_cluster mark_cluster_unhealthy update_cluster_status set_status
program = tt

-- Deployment 51 is on a server of the name 1, whose cluster has its job in version 7.
abbrev named : Db
named = record sample { servers = record first_server { name = 1 } ∷ [] }

abbrev with_job : Cache
with_job = record two_clusters {
  resources = record { cluster = 1; kind = job; namespace = 30; name = 551; object = 7 } ∷ [];
}

abbrev asked : LiveRead → Raised Bool × Cache
asked live = delete_preflight some_names 1000 51 live named with_job

allows : (asked (live_job (some 7))).0 ≡ return true
unfolding program
allows = refl

-- A newer version in the cluster refuses, and the cluster counts as unhealthy from then on, so that
-- the next preflight refuses too, whatever the job's version.
refuses_stale :
    let (r, cache) = asked (live_job (some 8)) in
    (r ≡ return false)
    × ((delete_preflight some_names 1001 51 (live_job (some 7)) named cache).0 ≡ return false)
unfolding program
refuses_stale = (refl, refl)

preflight-IsSafe_example :
    ((asked (live_job (some 7))).1 ≡ with_job)
    × ((deployment_server 51 named ≡ none)
        ⊎ ((server : Key) × (deployment_server 51 named ≡ some server)
            × IsSafe some_names 1000 51 server with_job))
unfolding program
preflight-IsSafe_example =
    preflight-IsSafe some_names 1000 51 (live_job (some 7)) named with_job refl

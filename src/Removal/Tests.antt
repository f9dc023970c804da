-- ===== src/Removal/Tests.antt =====
-- Removals on small inputs.
use chutes_miner.Prelude.{[], false, refl, some, ◌∷◌, ◌≡◌}
use chutes_miner.Removal.{
  disk_cache_invalidation, job_deletion, look_fails, pods_gone, pods_left, service_deletion,
  undeploy_requests, wait_for_deletion, watch_deletion,
}

program : Unit {0}
unfolding watch_deletion wait_for_deletion undeploy_requests
program = tt

-- The wait ends with the look that finds no pods, also when the watch goes on.
ends_when_gone :
    wait_for_deletion (pods_left 2) (pods_left 1 ∷ pods_left 0 ∷ look_fails ∷ []) ≡ pods_gone
unfolding program
ends_when_gone = refl

-- A wait that expires with two pods left does not raise, and the node's disk cache is dropped.
expires_quietly :
    undeploy_requests 51 (some 1) (wait_for_deletion (pods_left 2) (pods_left 2 ∷ []))
    ≡ (false, job_deletion 51 ∷ service_deletion 51 ∷ disk_cache_invalidation 1 ∷ [])
unfolding program
expires_quietly = refl

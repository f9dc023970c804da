-- ===== src/Removal.antt =====
-- What K8sOperator.undeploy of src/chutes-miner/chutes_miner/api/k8s/operator.py asks of kubernetes,
-- and its wait for the pods. Gepetto takes the whole as one call that returns or raises.
pub mod Tests
use chutes_miner.Prelude.{
  Bool, List, Option, [], false, if◌then◌else◌, none, some, true, ℕ, ◌==◌, ◌∷◌,
}
use chutes_miner.Schema.{Key}

pub data Request : Type 0 where
  job_deletion deployment_deletion service_deletion : (deployment_id : Key) → Request
  disk_cache_invalidation : (node : Key) → Request

-- What a look at the pods during the wait comes to: how many are left, or an exception.
pub data Look : Type 0 where
  pods_left : ℕ → Look
  look_fails : Look

-- How the wait ends. The last two return alike: the watch ends quietly at its timeout.
pub data Wait : Type 0 where
  wait_fails pods_gone wait_expires : Wait

-- The loop of wait_for_deletion: a look for each event of the watch until its timeout.
unfoldable pub watch_deletion : List Look → Wait
watch_deletion [] = wait_expires
watch_deletion (look_fails ∷ looks) = wait_fails
watch_deletion (pods_left n ∷ looks) =
    let later = watch_deletion looks in if n == 0 then pods_gone else later

-- K8sOperator.wait_for_deletion
unfoldable pub wait_for_deletion : (first : Look) → List Look → Wait
wait_for_deletion look_fails looks = wait_fails
wait_for_deletion (pods_left n) looks = if n == 0 then pods_gone else watch_deletion looks

abbrev pub raises : Wait → Bool
raises wait_fails = true
raises pods_gone = false
raises wait_expires = false

-- The requests of K8sOperator.undeploy, in order, and whether it raises. `node` is that of the job, if
-- it could be read and has one; a deployment without one is of the older kind. Exceptions of the
-- deletions are swallowed.
unfoldable pub undeploy_requests : Key → (node : Option Key) → Wait → Bool × List Request
undeploy_requests d none wait = (raises wait, deployment_deletion d ∷ service_deletion d ∷ [])
undeploy_requests d (some node) wait = (
  raises wait,
  job_deletion d
      ∷ service_deletion d
      ∷ (if raises wait then [] else disk_cache_invalidation node ∷ []),
)

-- ===== src/Gepetto/Tests.antt =====
-- The handlers on the sample database, and the theorems about them at inputs that meet them.
use chutes_miner.Prelude.{Bool, [], arith, false, none, refl, true, ◌∷◌, ◌≡◌, ◌≢◌}
use chutes_miner.Schema.{Key}
use chutes_miner.Db.{delete_deployment, release, release_all}
use chutes_miner.Db.Release.{IsGone, IsKept}
use chutes_miner.Db.Integrity.{IsBacked}
use chutes_miner.State.{State}
use chutes_miner.Action.{return}
use chutes_miner.Gepetto.{Outside, forget, gpu_verified, remove_from_k8s, undeploy}
use chutes_miner.Gepetto.Undeploy.{undeploy-IsGone}
use chutes_miner.Gepetto.Invariant.{handle_all-IsBacked}
use chutes_miner.Sample.{gpu, sample, start}
use chutes_miner.Gepetto.Events.{chute_gone, gpu_deleted_event, handle_all, server_deleted_event}

-- Every preflight is allowed, or none is.
abbrev answering : (allows : Bool) → Outside
answering allows = record {
  validators = 900 ∷ [];
  miner_hotkey = 800;
  delete_preflight = λ s d. return allows;
  pods_deleted = λ s d. true;
  agent_stops = λ s a. false;
  now = λ s. 10000;
}

program : Unit {0}
unfolding undeploy forget remove_from_k8s delete_deployment release_all release gpu_verified
program = tt

-- gpu_verified compares the event's GPU id with the server ids: for a GPU it marks nothing.
marks_nothing :
    let unverified : State = record start {
      db = record sample { gpus = record (gpu 101 10 none) { verified = false } ∷ [] };
    } in
    (gpu_verified (answering true) 101 unverified).1 ≡ unverified
unfolding program
marks_nothing = refl

undeploy-IsGone_example :
    let db = (undeploy (answering true) 51 none start).1.db in
    IsGone 51 db × ((e : Key) → 51 ≢ e → IsKept e sample db)
undeploy-IsGone_example =
    undeploy-IsGone (answering true) 51 none start (λ absent. ground arith) refl

handle_all-IsBacked_example :
    IsBacked
      (handle_all
        (answering false)
        (gpu_deleted_event 102 ∷ chute_gone 2 1 900 ∷ server_deleted_event 20 ∷ [])
        start).db
handle_all-IsBacked_example =
    handle_all-IsBacked (answering false)
      (gpu_deleted_event 102 ∷ chute_gone 2 1 900 ∷ server_deleted_event 20 ∷ []) start
      (refl, (refl, (refl, (refl, (refl, tt)))))

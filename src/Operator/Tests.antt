-- ===== src/Operator/Tests.antt =====
-- deploy_chute on the sample database, and the theorems about it at inputs that meet them.
use chutes_miner.Prelude.{[], arith, false, is_some, none, refl, some, true, ◌∷◌, ◌≡◌, ◌≢◌, ◌≤◌}
use chutes_miner.Schema.{Deployment, Key}
use chutes_miner.Db.{delete_deployment, find_deployment, owned, release, release_all}
use chutes_miner.Db.Release.{IsGone, IsLinked, count-release_all_self}
use chutes_miner.State.{State, service_created, service_deleted}
use chutes_miner.Operator.{
  Cluster, Interleaving, Request, after_session, begin_deployment, claim, clean_up,
  clear_deployment, contention, deploy_chute, disappeared, err, finish_deployment, gpu_candidates,
  job_failed, ok, set_started, started, stub_deployment, track_deployment, update_deployment,
  verify_gpus,
}
use chutes_miner.Operator.Claim.{IsKeyed}
use chutes_miner.Operator.Finish.{tracked, undisturbed}
use chutes_miner.Operator.Deploy.{Deployed, deploy_chute-Deployed}
use chutes_miner.Operator.Success.{IsWilling, deploy_chute_succeeds}
use chutes_miner.Operator.Interference.{begin_deployment_no_steal, finish_deployment-IsGone}
use chutes_miner.Operator.Returned.{deploy_chute-IsReturned}
use chutes_miner.Sample.{big_chute, first_server, sample, small_chute, start}

-- Every service gets port 31000, every job is accepted, and each node has 500 GB.
abbrev willing : Cluster
willing = record {
  available_gb = λ s node. 500;
  deploy_service = λ s d. some 31000;
  deploy_job = λ s d. true;
  new_id = λ s. 99;
  now = λ s. 1000;
}

-- The same, but no job is accepted.
abbrev refusing : Cluster
refusing = record willing { deploy_job = λ s d. false }

abbrev ask : Request
ask = record { chute_id = 1; server_id = 10; job_id = none; config_id = some 77; disk_gb = 10 }

-- Another task takes GPU 103 for deployment 51 while the disk is read.
abbrev rival : Interleaving
rival = record {
  during_disk_check =
      λ s. record s { db = record sample { gpus = claim (103 ∷ []) 51 sample.gpus } };
  during_creation = λ s. s;
}

-- Another task deletes the new deployment before it is updated.
abbrev deleter : Interleaving
deleter = record {
  during_disk_check = λ s. s;
  during_creation = λ s. record s { db = delete_deployment 99 s.db };
}

program : Unit {0}
unfolding deploy_chute after_session begin_deployment finish_deployment verify_gpus gpu_candidates
    claim track_deployment update_deployment set_started clean_up clear_deployment delete_deployment
    release_all release
program = tt

deploys : owned 99 (deploy_chute willing undisturbed ask start).1.db ≡ 2
unfolding program
deploys = refl

job_refused :
    deploy_chute refusing undisturbed ask start
    ≡ (err job_failed, record start { log = service_deleted 99 ∷ service_created 99 ∷ [] })
unfolding program
job_refused = refl

rival_wins : (deploy_chute willing rival ask start).0 ≡ err contention
unfolding program
rival_wins = refl

sample-IsKeyed : IsKeyed sample.gpus
sample-IsKeyed i = ground arith

deploy_chute-Deployed_example : Deployed 99 2 sample (deploy_chute willing undisturbed ask start)
deploy_chute-Deployed_example =
    deploy_chute-Deployed willing ask start big_chute refl sample-IsKeyed (refl, refl)

willing-IsWilling : IsWilling willing
willing-IsWilling = record { service = λ s d. (31000, refl); job = λ s d. refl }

deploy_chute_succeeds_example :
    (row : Deployment) × ((deploy_chute willing undisturbed ask start).0 ≡ ok row)
deploy_chute_succeeds_example =
    deploy_chute_succeeds willing ask start big_chute first_server refl refl sample-IsKeyed
      (refl, refl) (omega arith) refl willing-IsWilling

-- The sample database with the new deployment in it.
abbrev with_stub : State
with_stub = record {
  db =
      tracked (101 ∷ 103 ∷ []) (stub_deployment 99 big_chute first_server none (some 77) 1000)
        sample;
  log = [];
}

finish_deployment-IsGone_example :
    IsGone 99 (finish_deployment willing deleter 99 first_server with_stub).1.db
unfolding program
finish_deployment-IsGone_example =
    finish_deployment-IsGone willing deleter 99 first_server with_stub disappeared (λ absent. cc)
      deleter-IsLinked refl
  where
    deleter-IsLinked : (u : State) → IsLinked 99 u.db → IsLinked 99 (deleter.during_creation u).db
    deleter-IsLinked u linked absent = count-release_all_self 99 u.db.gpus

-- Another task takes GPU 103 for a deployment of its own, but the chute needs one GPU only.
abbrev ask_small : Request
ask_small = record ask { chute_id = 2 }

begin_deployment_no_steal_example :
    let t = (begin_deployment willing rival ask_small start).1 in
    (1 ≤ owned 99 t.db)
    × ((e : Key) → 99 ≢ e → owned e t.db ≡ owned e (rival.during_disk_check start).db)
unfolding program
begin_deployment_no_steal_example =
    begin_deployment_no_steal willing rival ask_small start
      (begin_deployment willing rival ask_small start).1 small_chute 99 first_server refl refl

deploy_chute-IsReturned_example :
    let s' = (deploy_chute willing undisturbed ask start).1 in
    let row =
      started first_server 31000 (stub_deployment 99 big_chute first_server none (some 77) 1000) in
    (find_deployment 99 s'.db ≡ some row) × (is_some row.port ≡ true) × (row.stub ≡ false)
unfolding program
deploy_chute-IsReturned_example =
    deploy_chute-IsReturned willing undisturbed ask start
      (deploy_chute willing undisturbed ask start).1
      (started first_server 31000 (stub_deployment 99 big_chute first_server none (some 77) 1000))
      refl

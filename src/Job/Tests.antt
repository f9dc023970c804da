-- ===== src/Job/Tests.antt =====
-- A job on the sample, while a GPU of another server is removed.
use chutes_miner.Prelude.{is_some, refl, some, true, ◌≡◌}
use chutes_miner.Db.{delete_deployment, delete_gpu, find_deployment, release, release_all}
use chutes_miner.State.{job_released}
use chutes_miner.Operator.{
  Interleaving, after_session, begin_deployment, claim, clean_up, clear_deployment, deploy_chute,
  finish_deployment, gpu_candidates, set_started, track_deployment, update_deployment, verify_gpus,
}
use chutes_miner.Operator.Finish.{undisturbed}
use chutes_miner.Launch.{Controller, accepted, get_launch_token, token_for}
use chutes_miner.Job.{after_job, run_job, start_job}
use chutes_miner.Sample.{big_chute, first_server, start}
use chutes_miner.Systems.{controller, without_token}
use mathlib.Core.List.{head?}

program : Unit {0}
unfolding run_job start_job after_job get_launch_token token_for accepted deploy_chute after_session
    begin_deployment finish_deployment verify_gpus gpu_candidates claim track_deployment
    update_deployment set_started clean_up clear_deployment delete_deployment delete_gpu release_all
    release
program = tt

-- GPU 201 goes while the service and the job are created.
abbrev remover : Interleaving
remover = record undisturbed { during_creation = λ u. record u { db = delete_gpu 201 u.db } }

abbrev busy : Controller
busy = record controller { others = remover }

runs : is_some (find_deployment 99 (run_job busy big_chute 40 first_server 10 start).1.db) ≡ true
unfolding program
runs = refl

-- Without a launch token the lock is released.
releases :
    head?
      (run_job without_token
        (record big_chute { chutes_version = some 4 })
        40
        first_server
        10
        start).1.log
    ≡ some (job_released 40)
unfolding program
releases = refl

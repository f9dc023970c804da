-- ===== src/Scaling/Tests.antt =====
-- The scaling of a chute on the sample database, and the theorems about it at inputs that meet them.
use chutes_miner.Prelude.{
  Bool, Option, [], arith, count, false, none, refl, some, true, ◌==◌, ◌∷◌, ◌≡◌, ◌≢◌, ◌≤◌,
}
use chutes_miner.Schema.{Chute}
use chutes_miner.Db.{delete_deployment, owned, release, release_all}
use chutes_miner.Db.Release.{IsKept}
use chutes_miner.State.{State}
use chutes_miner.Action.{Raised, raise, return}
use chutes_miner.Operator.{
  after_session, begin_deployment, claim, clean_up, clear_deployment, deploy_chute,
  finish_deployment, gpu_candidates, set_started, track_deployment, update_deployment, verify_gpus,
}
use chutes_miner.Gepetto.{forget, remove_from_k8s, undeploy}
use chutes_miner.Placement.{
  candidates, optimal_scale_down_deployment, optimal_scale_up_server, preempt_query, scale_up_query,
}
use chutes_miner.Preempt.{decrement, multiplier, pick, plan, plan_server}
use chutes_miner.Launch.{
  accepted, after_announcement, after_deploy, announce_deployment, deploy_on, get_launch_token,
  token_for,
}
use chutes_miner.Scaling.{
  after_preemption, after_round, after_token, after_undeploys, carry_out, count_non_job_deployments,
  deploy_or_stop, deploy_with, preempting_deploy, scale_chute, scale_down_once, scale_once,
  scale_up_once, undeploy_each, unless_pending,
}
use chutes_miner.Scaling.Reaches.{scale_chute-reaches}
use chutes_miner.Scaling.Down.{IsObliging, scale_chute-ends, scale_chute_stuck}
use chutes_miner.Scaling.Preempting.{preempting_deploy-refused, undeploy_each-IsKept}
use chutes_miner.Sample.{big_chute, chute, deployment, sample, small_chute, start}
use chutes_miner.Systems.{blocking, controller, obliging, without_token}

program : Unit {0}
unfolding scale_chute after_round scale_once scale_up_once scale_down_once deploy_with
    deploy_or_stop deploy_on after_deploy after_announcement announce_deployment get_launch_token
    token_for accepted deploy_chute after_session begin_deployment finish_deployment verify_gpus
    gpu_candidates claim track_deployment update_deployment set_started clean_up clear_deployment
    delete_deployment release_all release undeploy forget remove_from_k8s scale_up_query
    optimal_scale_up_server candidates optimal_scale_down_deployment preempting_deploy
    unless_pending carry_out after_token after_undeploys after_preemption undeploy_each plan
    plan_server pick decrement multiplier preempt_query
program = tt

-- The state in which a run ends.
abbrev ending : Option (Raised Bool × State) → State
ending none = start
ending (some (r, s)) = s

-- The run that adds an instance of the big chute.
abbrev grown : Option (Raised Bool × State)
grown = scale_chute controller 3 big_chute 1 false false start

grows :
    (owned 99 (ending grown).db ≡ 2)
    × (count (λ d. d.deployment_id == 99) (ending grown).db.deployments ≡ 1)
unfolding program
grows = (refl, refl)

scale_chute-reaches_example : count_non_job_deployments big_chute (ending grown).db ≡ 1
unfolding program
scale_chute-reaches_example =
    scale_chute-reaches controller big_chute 3 1 false start (ending grown) refl

scale_chute-ends_example :
    (m : Raised Bool × State) × (scale_chute controller 4 small_chute 1 true false start ≡ some m)
    × (1 ≤ count_non_job_deployments small_chute m.1.db)
scale_chute-ends_example =
    scale_chute-ends controller obliging-IsObliging small_chute 1 true 4 false start
      (λ e. ground arith) (ground arith) (ground arith)
  where
    obliging-IsObliging : IsObliging obliging
    obliging-IsObliging = record { allows = λ s d. refl; deletes = λ s d. refl }

gives_up : optimal_scale_down_deployment 10000 small_chute sample ≡ some (deployment 52 62 2 20)
unfolding program
gives_up = refl

scale_chute_stuck_example :
    scale_chute (record controller { out = blocking }) 100 small_chute 1 true false start ≡ none
scale_chute_stuck_example =
    scale_chute_stuck (record controller { out = blocking }) small_chute 1 true
      (deployment 52 62 2 20) sample (λ s. refl) (λ s. gives_up) (ground arith) 100 false []

-- A chute that needs the whole first server, and a launch token.
abbrev wide_chute : Chute
wide_chute = record (chute 1 3 (7 ∷ [])) { chutes_version = some 4 }

preempts :
    (preempting_deploy controller wide_chute none 10
      (record start { db = record sample { chutes = wide_chute ∷ [] } })).0
    ≡ return true
unfolding program
preempts = refl

no_token : (get_launch_token without_token wide_chute (some 40) start).0 ≡ raise
unfolding program
no_token = refl

preempting_deploy-refused_example :
    ((preempting_deploy without_token wide_chute (some 40) 10 start).1.db ≡ sample)
    × ((preempting_deploy without_token wide_chute (some 40) 10 start).0 ≢ return true)
preempting_deploy-refused_example =
    preempting_deploy-refused without_token wide_chute (some 40) 10 start no_token

undeploy_each-IsKept_example :
    IsKept 53 sample
      (undeploy_each controller (deployment 51 61 2 10 ∷ deployment 52 62 2 20 ∷ []) start).1.db
undeploy_each-IsKept_example =
    undeploy_each-IsKept controller 53 (deployment 51 61 2 10 ∷ deployment 52 62 2 20 ∷ []) start
      (λ e. ground arith, (λ e. ground arith, tt))

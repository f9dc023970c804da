-- ===== src/Autoscale/Tests.antt =====
-- Autoscaling of the sample, and the theorem at inputs that meet it.
use chutes_miner.Prelude.{
  Bool, Option, [], false, if◌then◌else◌, map, none, refl, some, sort_by, true, ℕ, ◌==◌, ◌∷◌, ◌≡◌,
}
use chutes_miner.Schema.{Deployment, Key}
use chutes_miner.State.{State}
use chutes_miner.Action.{Raised, raise}
use chutes_miner.Sample.{chute, deployment, sample, start}
use chutes_miner.Systems.{controller, obliging}
use chutes_miner.Operator.{
  after_session, begin_deployment, claim, deploy_chute, finish_deployment, gpu_candidates,
  set_started, track_deployment, update_deployment, verify_gpus,
}
use chutes_miner.Launch.{
  accepted, after_announcement, after_deploy, announce_deployment, deploy_on, get_launch_token,
  token_for,
}
use chutes_miner.Placement.{candidates, optimal_scale_up_server, scale_up_query}
use chutes_miner.Scaling.{
  after_round, deploy_or_stop, deploy_with, scale_chute, scale_once, scale_up_once,
}
use chutes_miner.Autoscale.{
  Offer, Valued, activate, activate_answered, activate_each, activator_pass, after_attempt, attempt,
  attempt_all, autoscale, value_all, worth_at_least,
}
use chutes_miner.Autoscale.Choice.{HasGrown, autoscale-HasGrown, is_scalable}

program : Unit {0}
unfolding autoscale attempt attempt_all after_attempt value_all activate activate_answered
    activate_each activator_pass
program = tt

abbrev offer_of : (chute_id multiplier : ℕ) → Offer
offer_of chute m = record {
  validator = 900;
  chute_id = chute;
  version = 1;
  has_cords = true;
  effective_multiplier = m;
}

abbrev all_scalable : Key → Key → Bool
all_scalable v c = true

-- Chute 1 needs two GPUs, chute 2 one: at equal multipliers chute 2 comes first.
orders_by_value :
    map
      (λ (v : Valued). v.offer.chute_id)
      (sort_by worth_at_least
        (value_all controller all_scalable 4 start (offer_of 1 10 ∷ offer_of 2 10 ∷ [])))
    ≡ 2 ∷ 1 ∷ []
unfolding program optimal_scale_up_server scale_up_query candidates
orders_by_value = refl

abbrev scaled_state : Option (Raised (Option Offer) × State) → State
scaled_state none = start
scaled_state (some (r, s)) = s

-- Chute 2 gets its fourth deployment.
autoscale-HasGrown_example :
    (is_scalable controller all_scalable 4 start (offer_of 2 10) ≡ true)
    × HasGrown controller all_scalable 4 start
        (offer_of 2 10)
        (scaled_state (autoscale controller all_scalable 4 (offer_of 2 10 ∷ []) start))
unfolding program scale_chute after_round scale_once scale_up_once deploy_with deploy_or_stop
    deploy_on after_deploy after_announcement announce_deployment get_launch_token token_for
    accepted deploy_chute after_session begin_deployment finish_deployment verify_gpus
    gpu_candidates claim track_deployment update_deployment set_started scale_up_query
    optimal_scale_up_server candidates
autoscale-HasGrown_example =
    autoscale-HasGrown controller all_scalable 4 (offer_of 2 10 ∷ []) start
      (scaled_state (autoscale controller all_scalable 4 (offer_of 2 10 ∷ []) start))
      (offer_of 2 10) refl

-- The rows 51 and 52 are to be activated, and kubernetes cannot tell about 51.
abbrev waiting : State
waiting = record {
  db = record sample {
    deployments =
        record (deployment 51 61 2 10) { active = false }
        ∷ record (deployment 52 62 2 20) { active = false }
        ∷ [];
  };
  log = [];
}

abbrev cannot_tell : State → Deployment → Option Bool
cannot_tell s d = if d.deployment_id == 51 then none else some true

-- Then 52 is not activated either.
stops_at_first :
    activator_pass obliging (λ s d. some true) (λ d. false) cannot_tell waiting ≡ (raise, waiting)
unfolding program
stops_at_first = refl

activates_all :
    let (r, s) =
      activator_pass obliging (λ s d. some true) (λ d. false) (λ s d. some true) waiting in
    map (λ (d : Deployment). d.active) s.db.deployments ≡ true ∷ true ∷ []
unfolding program
activates_all = refl

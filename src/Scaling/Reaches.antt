-- ===== src/Scaling/Reaches.antt =====
-- What a True of Gepetto.scale_chute says of the number of deployments.
use chutes_miner.Prelude.{
  Bool, Bool-cases, Option, arith, false, inl, inr, ltb, none, refl, some, suc, true, zero, ℕ, ◌==◌,
  ◌≡◌,
}
use chutes_miner.Schema.{Chute, Deployment, Key, Server}
use chutes_miner.State.{State}
use chutes_miner.Action.{Raised, raise, return}
use chutes_miner.Gepetto.{undeploy}
use chutes_miner.Placement.{optimal_scale_down_deployment, optimal_scale_up_server}
use chutes_miner.Launch.{Controller, deploy_on, get_launch_token}
use chutes_miner.Scaling.{
  Progress, after_round, count_non_job_deployments, deploy_or_stop, deploy_with, more, scale_chute,
  scale_down_once, scale_once, scale_up_once, stop,
}

-- A round that leaves the loop does so with False.
abbrev StopsFalse : Raised Progress × State → Type 0
StopsFalse (return (more b), s) = Unit
StopsFalse (return (stop b), s) = b ≡ false
StopsFalse (raise, s) = Unit

module _ (c : Controller) (chute : Chute) where
  deploy_or_stop-StopsFalse : (m : Raised Bool × State) → StopsFalse (deploy_or_stop c m)
  unfolding deploy_or_stop
  deploy_or_stop-StopsFalse (return true, s) = tt
  deploy_or_stop-StopsFalse (return false, s) = refl
  deploy_or_stop-StopsFalse (raise, s) = tt

  deploy_with-StopsFalse :
      (server : Server) (m : Raised (Option Key) × State)
      → StopsFalse (deploy_with c chute server m)
  unfolding deploy_with
  deploy_with-StopsFalse server (return token, s) =
      deploy_or_stop-StopsFalse (deploy_on c chute server.server_id token 10 s)
  deploy_with-StopsFalse server (raise, s) = refl

  scale_up_once-StopsFalse :
      (o : Option Server) (s : State) → StopsFalse (scale_up_once c chute false o s)
  unfolding scale_up_once
  scale_up_once-StopsFalse none s = refl
  scale_up_once-StopsFalse (some server) s =
      deploy_with-StopsFalse server (get_launch_token c chute none s)

  then_more :
      (m : Raised (Unit {0}) × State)
      → StopsFalse (elim m.0 [ return _ ↦ (return (more true), m.1) | raise ↦ (raise, m.1) ])
  then_more (return _, s) = tt
  then_more (raise, s) = tt

  scale_down_once-StopsFalse :
      (o : Option Deployment) (s : State) → StopsFalse (scale_down_once c o s)
  unfolding scale_down_once
  scale_down_once-StopsFalse none s = refl
  scale_down_once-StopsFalse (some d) s = then_more (undeploy c.out d.deployment_id none s)

  scale_once-StopsFalse :
      (desired : ℕ) (s : State) → StopsFalse (scale_once c chute desired false s)
  unfolding scale_once
  scale_once-StopsFalse desired s =
      elim (Bool-cases (ltb desired (count_non_job_deployments chute s.db))) [
        | inl above ↦
            rw above (
              scale_down_once-StopsFalse (optimal_scale_down_deployment (c.out.now s) chute s.db) s)
        | inr below ↦
            rw below (
              scale_up_once-StopsFalse (optimal_scale_up_server c.cluster (c.choice s) chute 10 s)
                s)
      ]

  after_round-reaches :
      (desired : ℕ) (again : Bool → State → Option (Raised Bool × State))
      (m : Raised Progress × State) (s' : State)
      → StopsFalse m
      → ((b : Bool) (s : State)
          → again b s ≡ some (return true, s')
          → count_non_job_deployments chute s'.db ≡ desired)
      → after_round c again m ≡ some (return true, s')
      → count_non_job_deployments chute s'.db ≡ desired
  unfolding after_round
  after_round-reaches desired again (return (more b), s) s' h ih e = ih b s e
  after_round-reaches desired again (return (stop b), s) s' h ih e = absurd (ground arith)
  after_round-reaches desired again (raise, s) s' h ih e = absurd (ground arith)

  -- When scale_chute without preemption ends with True, the chute has the desired number of
  -- deployments without a job, of its version and validator, however many rounds were needed
  -- and whatever the other systems answered.
  pub scale_chute-reaches :
      (fuel desired : ℕ) (scaled : Bool) (s s' : State)
      → scale_chute c fuel chute desired false scaled s ≡ some (return true, s')
      → count_non_job_deployments chute s'.db ≡ desired
  unfolding scale_chute
  scale_chute-reaches zero desired scaled s s' e = absurd (ground arith)
  scale_chute-reaches (suc fuel) desired scaled s s' e =
      elim (Bool-cases (count_non_job_deployments chute s.db == desired)) [
        | inl there ↦ ground arith
        | inr away ↦
            let next : after_round c (scale_chute c fuel chute desired false)
                  (scale_once c chute desired false s)
                ≡ some (return true, s') =
              ground arith in
            after_round-reaches desired (scale_chute c fuel chute desired false)
              (scale_once c chute desired false s) s' (scale_once-StopsFalse desired s)
              (λ b t h. scale_chute-reaches fuel desired b t s' h) next
      ]

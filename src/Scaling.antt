-- ===== src/Scaling.antt =====
-- How the control plane changes the number of instances of a chute: Gepetto.preempting_deploy and
-- Gepetto.scale_chute, in src/chutes-miner/chutes_miner/gepetto.py. The loop of scale_chute runs on fuel.
pub mod Reaches
pub mod Down
pub mod Preempting
pub mod Guarded
pub mod Tests
use chutes_miner.Prelude.{
  Bool, List, Option, [], count, false, filter, if◌then◌else◌, is_none, is_some, ltb, none, some,
  suc, true, zero, ℕ, ◌&&◌, ◌==◌, ◌∷◌,
}
use chutes_miner.Schema.{Chute, Deployment, Key, Server}
use chutes_miner.Db.{Db}
use chutes_miner.State.{State}
use chutes_miner.Action.{Action, Raised, pure, raise, return, ◌>>=◌, ◌>>◌}
use chutes_miner.Operator.{check_node_has_disk_available}
use chutes_miner.Gepetto.{undeploy}
use chutes_miner.Placement.{optimal_scale_down_deployment, optimal_scale_up_server, preempt_query}
use chutes_miner.Preempt.{Bid, plan}
use chutes_miner.Launch.{Controller, deploy_on, get_launch_token, release_job}

-- Gepetto.count_non_job_deployments
abbrev pub is_counted : Chute → Deployment → Bool
is_counted chute d =
    (d.chute_id == chute.chute_id)
    && ((d.version == chute.version) && ((d.validator == chute.validator) && is_none d.job_id))

abbrev pub count_non_job_deployments : Chute → Db → ℕ
count_non_job_deployments chute db = count (is_counted chute) db.deployments

-- What a round of the loop of scale_chute does next: goes on with `scaled`, or leaves with it.
pub data Progress : Type 0 where
  more stop : (scaled : Bool) → Progress

module _ (c : Controller) where
  -- The loop that undeploys the victims in order; an exception ends it.
  pub undeploy_each : List Deployment → Action (Unit {0})
  undeploy_each [] = pure tt
  undeploy_each (d ∷ ds) = undeploy c.out d.deployment_id none >> undeploy_each ds

  -- preempting_deploy after the deployment was tried.
  unfoldable pub after_preemption :
      Chute → (job_id : Option Key) → Raised Bool × State → Raised Bool × State
  after_preemption chute job_id (return true, s) = (return true, s)
  after_preemption chute job_id (return false, s) = (release_job c chute job_id >> pure false) s
  after_preemption chute job_id (raise, s) = (raise, s)

  -- preempting_deploy after the victims were undeployed.
  unfoldable pub after_undeploys :
      Chute
      → (job_id : Option Key) → (disk_gb : ℕ) → Server
      → (token : Option Key) → Raised (Unit {0}) × State
      → Raised Bool × State
  after_undeploys chute job_id disk_gb server token (raise, s) =
      (release_job c chute job_id >> pure false) s
  after_undeploys chute job_id disk_gb server token (return _, s) =
      after_preemption chute job_id (deploy_on c chute server.server_id token disk_gb s)

  -- preempting_deploy after get_launch_token, which comes before anything is undeployed.
  unfoldable pub after_token :
      Chute
      → (job_id : Option Key) → (disk_gb : ℕ) → Server × List Deployment
      → Raised (Option Key) × State
      → Raised Bool × State
  after_token chute job_id disk_gb p (raise, s) = (return false, s)
  after_token chute job_id disk_gb (server, victims) (return token, s) =
      after_undeploys chute job_id disk_gb server token (undeploy_each victims s)

  -- preempting_deploy on its plan.
  unfoldable pub carry_out :
      Chute
      → (job_id : Option Key) → (disk_gb : ℕ) → Option (Server × List Deployment)
      → Action Bool
  carry_out chute job_id disk_gb none s = (return false, s)
  carry_out chute job_id disk_gb (some p) s =
      after_token chute job_id disk_gb p (get_launch_token c chute job_id s)

  abbrev pub bid : Chute → State → Bid
  bid chute s = record {
    chute = chute;
    effective_multiplier = c.effective_multiplier s chute;
    now = c.out.now s;
    instances = c.instances s chute.validator;
  }

  -- The servers that the plan of preempting_deploy looks at.
  abbrev pub plan_servers : Chute → (disk_gb : ℕ) → State → List Server
  plan_servers chute disk_gb s =
      filter (λ server. check_node_has_disk_available c.cluster s server.name disk_gb)
        (preempt_query chute s.db)

  -- preempting_deploy on the rows of its first query. `scalar_one_or_none` is called without `unique`
  -- on a table whose GPUs are loaded by a join, which raises on any row.
  unfoldable pub unless_pending :
      Chute → (job_id : Option Key) → (disk_gb : ℕ) → (pending : List Deployment) → Action Bool
  unless_pending chute job_id disk_gb (d ∷ ds) s = (raise, s)
  unless_pending chute job_id disk_gb [] s =
      carry_out chute job_id disk_gb (plan (bid chute s) s.db (plan_servers chute disk_gb s)) s

  -- Gepetto.preempting_deploy
  unfoldable pub preempting_deploy : Chute → (job_id : Option Key) → (disk_gb : ℕ) → Action Bool
  preempting_deploy chute job_id disk_gb s =
      if is_some chute.ban_reason
      then (return false, s)
      else unless_pending chute job_id disk_gb
          (filter
            (λ d.
              (d.chute_id == chute.chute_id)
              && ((d.validator == chute.validator) && is_none d.activated_at))
            s.db.deployments)
          s

  -- A round of scale_chute that takes an instance away.
  unfoldable pub scale_down_once : Option Deployment → Action Progress
  scale_down_once none = pure (stop false)
  scale_down_once (some d) = undeploy c.out d.deployment_id none >> pure (more true)

  -- A round that adds one, after get_launch_token.
  unfoldable pub deploy_or_stop : Raised Bool × State → Raised Progress × State
  deploy_or_stop (return true, s) = (return (more true), s)
  deploy_or_stop (return false, s) = (return (stop false), s)
  deploy_or_stop (raise, s) = (raise, s)

  unfoldable pub deploy_with :
      Chute → Server → Raised (Option Key) × State → Raised Progress × State
  deploy_with chute server (raise, s) = (return (stop false), s)
  deploy_with chute server (return token, s) =
      deploy_or_stop (deploy_on c chute server.server_id token 10 s)

  -- A round of scale_chute that adds an instance.
  unfoldable pub scale_up_once : Chute → (preempt : Bool) → Option Server → Action Progress
  scale_up_once chute preempt (some server) s =
      deploy_with chute server (get_launch_token c chute none s)
  scale_up_once chute true none s = (preempting_deploy chute none 10 >>= λ b. pure (stop b)) s
  scale_up_once chute false none s = (return (stop false), s)

  -- The body of the loop of scale_chute.
  unfoldable pub scale_once : Chute → (desired : ℕ) → (preempt : Bool) → Action Progress
  scale_once chute desired preempt s =
      if ltb desired (count_non_job_deployments chute s.db)
      then scale_down_once (optimal_scale_down_deployment (c.out.now s) chute s.db) s
      else scale_up_once chute preempt (optimal_scale_up_server c.cluster (c.choice s) chute 10 s) s

  -- What follows a round, where `again` is the rest of the loop.
  unfoldable pub after_round :
      (again : Bool → State → Option (Raised Bool × State))
      → Raised Progress × State
      → Option (Raised Bool × State)
  after_round again (return (more b), s) = again b s
  after_round again (return (stop b), s) = some (return b, s)
  after_round again (raise, s) = some (raise, s)

  -- Gepetto.scale_chute from a value of `scaled` on; `none` if the fuel runs out.
  unfoldable pub scale_chute :
      (fuel : ℕ)
      → Chute
      → (desired : ℕ) → (preempt scaled : Bool) → State
      → Option (Raised Bool × State)
  scale_chute zero chute desired preempt scaled s = none
  scale_chute (suc fuel) chute desired preempt scaled s =
      if count_non_job_deployments chute s.db == desired
      then some (return scaled, s)
      else after_round (scale_chute fuel chute desired preempt) (scale_once chute desired preempt s)

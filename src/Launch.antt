-- ===== src/Launch.antt =====
-- How Gepetto launches a deployment: the launch token, the deployment, and its announcement, which
-- scale_chute, preempting_deploy and rolling_update share, in
-- src/chutes-miner/chutes_miner/gepetto.py.
--
-- A DeploymentFailure of get_launch_token and of announce_deployment, which turn every exception
-- into one, is `raise` here, as is any exception of undeploy.
use chutes_miner.Prelude.{Bool, List, Option, false, if◌then◌else◌, none, not, some, true, ℕ}
use chutes_miner.Schema.{Chute, Deployment, Key}
use chutes_miner.Db.{is_deployment, update_rows}
use chutes_miner.State.{State, announced, job_released, launch_requested, logged}
use chutes_miner.Action.{
  Action, Raised, call, get, modify_db, pure, raise, return, throw, when, ◌>>=◌, ◌>>◌,
}
use chutes_miner.Operator.{Cluster, Interleaving, Result, deploy_chute, err, ok}
use chutes_miner.Gepetto.{Outside, is_validator, undeploy}
use chutes_miner.Preempt.{Instance}

-- What Gepetto knows and asks: the systems of the handlers and of the operator, the version test on
-- `chutes_version`, the launch config and the announcement's answer (`none` if they fail), the
-- random index, and the validator's data on instances and multipliers.
pub record Controller : Type 0 where
  pub out : Outside
  pub cluster : Cluster
  pub others : Interleaving
  pub wants_token : Key → Bool
  pub launch_config : State → Chute → (job_id : Option Key) → Option Key
  pub announcement : State → Deployment → Option Key
  pub choice : State → ℕ → ℕ
  pub instances : State → (validator : Key) → List Instance
  pub effective_multiplier : State → Chute → ℕ
  -- the config map of a chute's code is stored, or there already: no exception
  pub stores_code : State → Chute → Bool

module _ (c : Controller) where
  -- get_launch_token on the validator's answer.
  unfoldable pub accepted : Option Key → State → Raised (Option Key) × State
  accepted none s = (raise, s)
  accepted (some config) s = (return (some config), s)

  -- get_launch_token on the chute's `chutes_version`.
  unfoldable pub token_for :
      Chute → (job_id : Option Key) → Option Key → State → Raised (Option Key) × State
  token_for chute job_id none s = (return none, s)
  token_for chute job_id (some v) s =
      let s1 = logged (launch_requested chute.chute_id job_id) s in
      if not (c.wants_token v)
      then (return none, s)
      else if not (is_validator c.out chute.validator)
      then (raise, s)
      else accepted (c.launch_config s1 chute job_id) s1

  -- Gepetto.get_launch_token: the config id of the token, or no token.
  unfoldable pub get_launch_token : Chute → (job_id : Option Key) → Action (Option Key)
  get_launch_token chute job_id = token_for chute job_id chute.chutes_version

  -- Gepetto.announce_deployment
  unfoldable pub announce_deployment : Deployment → Action (Unit {0})
  announce_deployment row = if not (is_validator c.out row.validator) then pure tt else (do
    call (announced row.deployment_id)
    s ← get
    elim (c.announcement s row) [
      | none ↦ throw
      | some i ↦
          modify_db
            (update_rows (is_deployment row.deployment_id) (λ d. record d { instance_id = some i }))
    ])

  -- Gepetto.release_job, which swallows exceptions, behind `if job_id`.
  abbrev pub release_job : Chute → Option Key → Action (Unit {0})
  release_job chute none = pure tt
  release_job chute (some j) = when (is_validator c.out chute.validator) (call (job_released j))

  -- After the announcement: undeployed again if it failed.
  unfoldable pub after_announcement : Deployment → Raised (Unit {0}) × State → Raised Bool × State
  after_announcement row (return _, s) = (return true, s)
  after_announcement row (raise, s) = (undeploy c.out row.deployment_id none >> pure false) s

  -- After K8sOperator.deploy_chute: a deployment without a launch token is announced.
  unfoldable pub after_deploy :
      (token : Option Key) → Result Deployment × State → Raised Bool × State
  after_deploy token (err e, s) = (return false, s)
  after_deploy (some t) (ok row, s) = (return true, s)
  after_deploy none (ok row, s) = after_announcement row (announce_deployment row s)

  -- The `try` of scale_chute and of preempting_deploy. Neither passes a job id on.
  unfoldable pub deploy_on : Chute → Key → (token : Option Key) → (disk_gb : ℕ) → Action Bool
  deploy_on chute server_id token disk_gb s = after_deploy token (
      deploy_chute c.cluster c.others
        (record {
          chute_id = chute.chute_id;
          server_id = server_id;
          job_id = none;
          config_id = token;
          disk_gb = disk_gb;
        })
        s)

-- ===== src/Scaling/Preempting.antt =====
-- What Gepetto.preempting_deploy leaves alone.
use chutes_miner.Prelude.{
  All, Bool, Bool-cases, List, Option, [], arith, false, filter, inl, inr, is_none, is_some, none,
  refl, some, true, ℕ, ◌&&◌, ◌==◌, ◌∷◌, ◌≡◌, ◌≢◌,
}
use chutes_miner.Schema.{Chute, Deployment, Key, Server}
use chutes_miner.Db.{Db}
use chutes_miner.Db.Release.{IsKept, delete_deployment-IsKept}
use chutes_miner.State.{State, launch_requested, logged}
use chutes_miner.Action.{Action, Raised, raise, return, ◌>>◌}
use chutes_miner.Gepetto.{undeploy}
use chutes_miner.Gepetto.Undeploy.{undeploy-db_cases}
use chutes_miner.Preempt.{plan}
use chutes_miner.Launch.{Controller, accepted, get_launch_token, token_for}
use chutes_miner.Scaling.{
  after_token, bid, carry_out, plan_servers, preempting_deploy, undeploy_each, unless_pending,
}

module _ (c : Controller) where
  then-IsKept :
      (e : Key) (db : Db) (k : Action (Unit {0})) (m : Raised (Unit {0}) × State) (t : State)
      → IsKept e db m.1.db
      → ((s : State) → IsKept e s.db (k s).1.db)
      → IsKept e db (((λ _. m) >> k) t).1.db
  then-IsKept e db k (return u, s) t h kept = (ground (arith, kept s, h), ground (arith, kept s, h))
  then-IsKept e db k (raise, s) t h kept = h

  -- Undeploying the victims of a plan one after another keeps every other deployment's row and
  -- GPUs, whichever of them the preflight refuses and wherever an exception ends the loop.
  pub undeploy_each-IsKept :
      (e : Key) (ds : List Deployment) (s : State)
      → All (λ d. d.deployment_id ≢ e) ds
      → IsKept e s.db (undeploy_each c ds s).1.db
  unfolding undeploy_each
  undeploy_each-IsKept e [] s h = (refl, refl)
  undeploy_each-IsKept e (d ∷ ds) s (ne, h) =
      let m = undeploy c.out d.deployment_id none s in
      let first : IsKept e s.db m.1.db = elim (undeploy-db_cases c.out d.deployment_id none s) [
        | inl same ↦ rw same (refl, refl)
        | inr gone ↦ rw gone (delete_deployment-IsKept d.deployment_id e s.db ne)
      ] in
      then-IsKept e s.db (undeploy_each c ds) m s first (λ t. undeploy_each-IsKept e ds t h)

  accepted-db : (o : Option Key) (s : State) → (accepted c o s).1.db ≡ s.db
  unfolding accepted
  accepted-db none s = refl
  accepted-db (some config) s = refl

  token_for-db :
      (chute : Chute) (job_id v : Option Key) (s : State)
      → (token_for c chute job_id v s).1.db ≡ s.db
  unfolding token_for
  token_for-db chute job_id none s = refl
  token_for-db chute job_id (some v) s =
      let s1 = logged (launch_requested chute.chute_id job_id) s in
      ground (arith, accepted-db (c.launch_config s1 chute job_id) s1)

  pub get_launch_token-db :
      (chute : Chute) (job_id : Option Key) (s : State)
      → (get_launch_token c chute job_id s).1.db ≡ s.db
  unfolding get_launch_token
  get_launch_token-db chute job_id s = token_for-db chute job_id chute.chutes_version s

  after_token-refused :
      (chute : Chute) (job_id : Option Key) (disk_gb : ℕ) (p : Server × List Deployment)
      (m : Raised (Option Key) × State)
      → m.0 ≡ raise
      → after_token c chute job_id disk_gb p m ≡ (return false, m.1)
  unfolding after_token
  after_token-refused chute job_id disk_gb p (raise, s) h = refl
  after_token-refused chute job_id disk_gb p (return t, s) h = absurd (ground arith)

  IsUntouched : State → Raised Bool × State → Type 0
  IsUntouched s m = (m.1.db ≡ s.db) × (m.0 ≢ return true)

  carry_out-refused :
      (chute : Chute) (job_id : Option Key) (disk_gb : ℕ) (o : Option (Server × List Deployment))
      (s : State)
      → (get_launch_token c chute job_id s).0 ≡ raise
      → IsUntouched s (carry_out c chute job_id disk_gb o s)
  unfolding carry_out IsUntouched
  carry_out-refused chute job_id disk_gb none s h = (refl, λ e. ground arith)
  carry_out-refused chute job_id disk_gb (some p) s h =
      rw (after_token-refused chute job_id disk_gb p (get_launch_token c chute job_id s) h)
        (get_launch_token-db chute job_id s, λ e. ground arith)

  unless_pending-refused :
      (chute : Chute) (job_id : Option Key) (disk_gb : ℕ) (pending : List Deployment) (s : State)
      → (get_launch_token c chute job_id s).0 ≡ raise
      → IsUntouched s (unless_pending c chute job_id disk_gb pending s)
  unfolding unless_pending IsUntouched
  unless_pending-refused chute job_id disk_gb [] s h =
      carry_out-refused chute job_id disk_gb
        (plan (bid c chute s) s.db (plan_servers c chute disk_gb s)) s h
  unless_pending-refused chute job_id disk_gb (d ∷ ds) s h = (refl, λ e. ground arith)

  -- When no launch token is given out, preempting_deploy changes nothing in the database, so that
  -- it has undeployed nothing, and does not return True.
  pub preempting_deploy-refused :
      (chute : Chute) (job_id : Option Key) (disk_gb : ℕ) (s : State)
      → (get_launch_token c chute job_id s).0 ≡ raise
      → ((preempting_deploy c chute job_id disk_gb s).1.db ≡ s.db)
        × ((preempting_deploy c chute job_id disk_gb s).0 ≢ return true)
  unfolding preempting_deploy IsUntouched
  preempting_deploy-refused chute job_id disk_gb s h =
      elim (Bool-cases (is_some chute.ban_reason)) [
        | inl banned ↦ rw banned (refl, λ e. ground arith)
        | inr free ↦ rw free (
            unless_pending-refused chute job_id disk_gb
              (filter
                (λ d.
                  (d.chute_id == chute.chute_id)
                  && ((d.validator == chute.validator) && is_none d.activated_at))
                s.db.deployments)
              s h)
      ]

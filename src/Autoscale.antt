-- ===== src/Autoscale.antt =====
-- How Gepetto grows on its own: _autoscale, and the activator that reports the deployments that are
-- ready, of src/chutes-miner/chutes_miner/gepetto.py. The remote data have been refreshed.
pub mod Choice
pub mod Tests
use chutes_miner.Prelude.{
  Bool, List, Option, [], count, false, filter, if◌then◌else◌, is_none, is_some, leb, ltb, none,
  not, some, sort_by, true, ℕ, ◌&&◌, ◌*◌, ◌++◌, ◌+◌, ◌==◌, ◌||◌, ◌∷◌,
}
use chutes_miner.Schema.{Chute, Deployment, Key, Server}
use chutes_miner.Db.{Db, is_deployment, update_rows}
use chutes_miner.State.{State}
use chutes_miner.Action.{
  Action, Raised, get, modify_db, pure, raise, return, throw, when, ◌>>=◌, ◌>>◌,
}
use chutes_miner.Gepetto.{Outside, is_validator}
use chutes_miner.Launch.{Controller}
use chutes_miner.Placement.{optimal_scale_up_server}
use chutes_miner.Scaling.{count_non_job_deployments, scale_chute}
use chutes_miner.Upkeep.{load_chute}

-- An entry of remote_chutes. `has_cords` says that its list of endpoints is not empty.
pub record Offer : Type 0 where
  pub validator : Key
  pub chute_id : Key
  pub version : Key
  pub has_cords : Bool
  pub effective_multiplier : ℕ

-- An entry of chute_values: the value is the multiplier over `cost`, a positive number.
pub record Valued : Type 0 where
  pub offer : Offer
  pub cost : ℕ

-- Gepetto.has_pending_deployment
abbrev pub is_pending : Chute → Deployment → Bool
is_pending chute d =
    (d.chute_id == chute.chute_id)
    && ((d.version == chute.version)
        && ((d.validator == chute.validator) && (is_none d.job_id && not d.active)))

abbrev pub has_pending_deployment : Chute → Db → Bool
has_pending_deployment chute db = ltb 0 (count (is_pending chute) db.deployments)

-- `a / b >= c / d`, of positive denominators.
abbrev pub worth_at_least : Valued → Valued → Bool
worth_at_least x y =
    leb (y.offer.effective_multiplier * x.cost) (x.offer.effective_multiplier * y.cost)

abbrev pub load_offer : Offer → Db → Option Chute
load_offer o = load_chute o.chute_id o.version o.validator

-- `scalable` is whether the validators' utilization leaves the chute scalable, and `fuel` that of
-- scale_chute.
module _ (c : Controller) (scalable : (validator chute_id : Key) → Bool) (fuel : ℕ) where
  -- The value on the server that was found; a division by zero raises, and is skipped.
  abbrev pub valued_on : Offer → Chute → Option Server → List Valued
  valued_on o chute none = []
  valued_on o chute (some server) =
      let cost = server.hourly_cost * chute.gpu_count in
      if cost == 0 then [] else record { offer = o; cost = cost } ∷ []

  abbrev pub valued_if : Offer → State → Option Chute → List Valued
  valued_if o s none = []
  valued_if o s (some chute) =
      if o.has_cords && (scalable o.validator o.chute_id && ltb 0 o.effective_multiplier)
      then valued_on o chute (optimal_scale_up_server c.cluster (c.choice s) chute 10 s)
      else []

  -- The loop that fills chute_values.
  unfoldable pub value_all : State → List Offer → List Valued
  value_all s [] = []
  value_all s (o ∷ os) = valued_if o s (load_offer o s.db) ++ value_all s os

  -- What follows an attempt: `again` is the rest of the loop. It yields the offer that was scaled.
  unfoldable pub after_attempt :
      (again : State → Option (Raised (Option Offer) × State))
      → Offer
      → Option (Raised Bool × State)
      → Option (Raised (Option Offer) × State)
  after_attempt again o none = none
  after_attempt again o (some (return true, s)) = some (return (some o), s)
  after_attempt again o (some (return false, s)) = again s
  after_attempt again o (some (raise, s)) = some (raise, s)

  -- The body of the loop over the sorted values.
  unfoldable pub attempt :
      (again : State → Option (Raised (Option Offer) × State))
      → Offer
      → Option Chute
      → State
      → Option (Raised (Option Offer) × State)
  attempt again o none s = again s
  attempt again o (some chute) s =
      if has_pending_deployment chute s.db
      then again s
      else after_attempt again o
          (scale_chute c fuel chute (count_non_job_deployments chute s.db + 1) false false s)

  pub attempt_all : List Valued → State → Option (Raised (Option Offer) × State)
  attempt_all [] s = some (return none, s)
  attempt_all (v ∷ vs) s = attempt (attempt_all vs) v.offer (load_offer v.offer s.db) s

  -- Gepetto._autoscale
  unfoldable pub autoscale : List Offer → State → Option (Raised (Option Offer) × State)
  autoscale offers s = attempt_all (sort_by worth_at_least (value_all s offers)) s

-- The query of the activator.
abbrev pub awaits_activation : Deployment → Bool
awaits_activation d =
    (not d.active || is_none d.verified_at)
    && (not d.stub && (is_some d.instance_id && is_none d.job_id))

-- Gepetto.activate on the validator's answer: none if the request failed, else whether the instance is
-- verified. The row is written if it is still there.
abbrev pub activated_row : (now : ℕ) → (is_verified : Bool) → Deployment → Deployment
activated_row now is_verified d =
    let d' : Deployment = record d { active = true; activated_at = some now } in
    if is_verified then record d' { verified_at = some now } else d'

module _ (out : Outside) (answers : State → Deployment → Option Bool) where
  unfoldable pub activate_answered : Deployment → Option Bool → Action (Unit {0})
  activate_answered d none = throw
  activate_answered d (some is_verified) = do
    s ← get
    modify_db (update_rows (is_deployment d.deployment_id) (activated_row (out.now s) is_verified))

  unfoldable pub activate : Deployment → Action (Unit {0})
  activate d = do
    s ← get
    if is_validator out d.validator then activate_answered d (answers s d) else pure tt

  -- A pass of the activator over the rows that its query found. `by_itself` says that the chute's
  -- version activates its deployments itself, and `ready` what k8s.get_deployment says, or that it
  -- raises, which ends the pass.
  pub activate_each :
      (by_itself : Deployment → Bool)
      → (ready : State → Deployment → Option Bool) → List Deployment
      → Action (Unit {0})
  activate_each by_itself ready [] = pure tt
  activate_each by_itself ready (d ∷ ds) =
      if by_itself d then activate_each by_itself ready ds else (do
        s ← get
        elim (ready s d) [
          | none ↦ throw
          | some r ↦ when r (activate d) >> activate_each by_itself ready ds
        ])

  unfoldable pub activator_pass :
      (by_itself : Deployment → Bool)
      → (ready : State → Deployment → Option Bool) → Action (Unit {0})
  activator_pass by_itself ready s =
      activate_each by_itself ready (filter awaits_activation s.db.deployments) s

-- ===== src/Rolling/Loss.antt =====
-- A rolling update for which the validator gives out no launch token.
use mathlib.Core.Path.{subst, sym}
use chutes_miner.Prelude.{
  Bool, Bool-cases, Option, arith, contains, filter, find?, if◌then◌else◌, inl, inr, is_key,
  is_none, none, not, refl, some, true, ◌&&◌, ◌==◌, ◌≡◌, ◌≢◌,
}
use chutes_miner.Schema.{Chute, Deployment, Key}
use chutes_miner.Db.{delete_deployment, one_row, scalar_one_or_none}
use chutes_miner.Db.Release.{IsGone, IsKept, IsLinked}
use chutes_miner.State.{State}
use chutes_miner.Action.{Raised, raise, return, ◌>>◌}
use chutes_miner.Gepetto.{is_validator, undeploy}
use chutes_miner.Gepetto.Undeploy.{undeploy-IsGone, undeploy-db_cases}
use chutes_miner.Launch.{Controller, get_launch_token}
use chutes_miner.Scaling.Preempting.{get_launch_token-db}
use chutes_miner.Upkeep.{RemoteChute, load_chute}
use chutes_miner.Rolling.{
  at, load_and_replace, place_of, replace_instance, replace_loaded, roll_found, roll_out,
  roll_place, rolling_update,
}

module _ (c : Controller) (fetch : State → (chute_id version : Key) → Option RemoteChute)
    (chute : Chute) (refused : (s : State) → (get_launch_token c chute none s).0 ≡ raise) where
  -- The database has not changed, and nothing was raised.
  AsBefore : State → Raised (Unit {0}) × State → Type 0
  AsBefore s m = (m.0 ≡ return tt) × (m.1.db ≡ s.db)

  roll_out-AsBefore :
      (server_id : Key) (s : State) (m : Raised (Option Key) × State)
      → m.0 ≡ raise
      → m.1.db ≡ s.db
      → AsBefore s (roll_out c fetch chute server_id m)
  unfolding roll_out AsBefore
  roll_out-AsBefore server_id s (raise, s') h same = (refl, same)
  roll_out-AsBefore server_id s (return token, s') h same = absurd (ground arith)

  replace_instance-AsBefore :
      (server_id model : Key) (is_tee : Bool) (s : State)
      → AsBefore s (replace_instance c fetch (at server_id model is_tee) chute s)
  unfolding replace_instance AsBefore
  replace_instance-AsBefore server_id model is_tee s =
      elim (Bool-cases
        (contains model chute.supported_gpus && (if is_tee then chute.tee else not chute.tee))) [
          | inl fits ↦ rw fits (
              roll_out-AsBefore server_id s (get_launch_token c chute none s) (refused s)
                (get_launch_token-db c chute none s))
          | inr unfit ↦ rw unfit (refl, refl)
        ]

  undeploy-chutes : (d : Key) (s : State) → (undeploy c.out d none s).1.db.chutes ≡ s.db.chutes
  unfolding delete_deployment
  undeploy-chutes d s = ground (arith, undeploy-db_cases c.out d none s)

  load_and_replace-AsBefore :
      (server_id model : Key) (is_tee : Bool) (chute_id version validator : Key) (s : State)
      → load_chute chute_id version validator s.db ≡ some chute
      → AsBefore s
          (load_and_replace c fetch (at server_id model is_tee) chute_id version validator s)
  unfolding load_and_replace replace_loaded
  load_and_replace-AsBefore server_id model is_tee chute_id version validator s loaded =
      let same : load_and_replace c fetch (at server_id model is_tee) chute_id version validator s
          ≡ replace_instance c fetch (at server_id model is_tee) chute s =
        rw (loaded, load_and_replace) refl in
      subst (AsBefore s) (sym same) (replace_instance-AsBefore server_id model is_tee s)

  after_undeploy-AsBefore :
      (server_id model : Key) (is_tee : Bool) (chute_id version validator : Key)
      (m : Raised (Unit {0}) × State) (t : State)
      → m.0 ≡ return tt
      → load_chute chute_id version validator m.1.db ≡ some chute
      → let m' =
          ((λ _. m)
              >> load_and_replace c fetch (at server_id model is_tee) chute_id version validator)
            t in
        (m'.0 ≡ return tt) × (m'.1.db ≡ m.1.db)
  unfolding AsBefore
  after_undeploy-AsBefore server_id model is_tee chute_id version validator (return u, s) t h
        loaded =
      load_and_replace-AsBefore server_id model is_tee chute_id version validator s loaded
  after_undeploy-AsBefore server_id model is_tee chute_id version validator (raise, s) t h loaded =
      absurd (ground arith)

  -- rolling_update gives the instance up before it asks for a launch token. When the new version of
  -- the chute is in the database, no launch token is given out for it, the event's instance is found,
  -- and its undeploy is allowed and does not raise, the handler ends without an exception, the
  -- deployment is gone, and nothing has replaced it: what is found under any other id, old or new, and
  -- the number of its GPUs, is what was found before.
  -- (A deployment without a row has no GPU; the server has a row and a GPU.)
  pub rolling_update-IsGone :
      (chute_id version validator instance_id server_id model : Key) (is_tee : Bool)
      (d : Deployment) (s : State)
      → is_validator c.out validator ≡ true
      → load_chute chute_id version validator s.db ≡ some chute
      → scalar_one_or_none
          (filter (λ x. is_key x.instance_id instance_id && is_none x.job_id) s.db.deployments)
        ≡ one_row d
      → place_of c fetch d s.db ≡ at server_id model is_tee
      → IsLinked d.deployment_id s.db
      → c.out.delete_preflight s d.deployment_id ≡ return true
      → (undeploy c.out d.deployment_id none s).0 ≡ return tt
      → let m = rolling_update c fetch chute_id version validator instance_id s in
        (m.0 ≡ return tt)
        × IsGone d.deployment_id m.1.db
        × ((e : Key) → d.deployment_id ≢ e → IsKept e s.db m.1.db)
  unfolding rolling_update roll_found roll_place
  rolling_update-IsGone chute_id version validator instance_id server_id model is_tee d s known
        loaded found place linked allowed returns =
      let m = undeploy c.out d.deployment_id none s in
      let still : load_chute chute_id version validator m.1.db ≡ some chute =
        subst
          (λ chutes.
            find?
              (λ row.
                (row.chute_id == chute_id)
                && ((row.version == version) && (row.validator == validator)))
              chutes
            ≡ some chute)
          (sym (undeploy-chutes d.deployment_id s)) loaded in
      let quiet =
        after_undeploy-AsBefore server_id model is_tee chute_id version validator m s returns
          still in
      let left = undeploy-IsGone c.out d.deployment_id none s linked allowed in
      rw (known, found, place)
        (
          quiet.0,
          subst (IsGone d.deployment_id) (sym quiet.1) left.0,
          λ e ne. subst (IsKept e s.db) (sym quiet.1) (left.1 e ne),
        )

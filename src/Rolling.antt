-- ===== src/Rolling.antt =====
-- Gepetto.rolling_update of src/chutes-miner/chutes_miner/gepetto.py: one instance is given up and
-- made again with the new version.
pub mod Loss
pub mod Tests
use mathlib.Core.List.{head?}
use chutes_miner.Prelude.{
  Bool, List, Option, contains, filter, if◌then◌else◌, is_key, is_none, none, not, some, ◌&&◌,
}
use chutes_miner.Schema.{Chute, Deployment, Key}
use chutes_miner.Db.{
  Db, OneOrNone, find_server, many_rows, no_row, one_row, scalar_one_or_none, server_gpus,
}
use chutes_miner.State.{State}
use chutes_miner.Action.{Action, Raised, pure, raise, return, ◌>>=◌, ◌>>◌}
use chutes_miner.Gepetto.{is_validator, undeploy}
use chutes_miner.Launch.{Controller, deploy_on, get_launch_token}
use chutes_miner.Upkeep.{RemoteChute, load_chute, store_chute}

module _ (c : Controller) (fetch : State → (chute_id version : Key) → Option RemoteChute) where
  -- Where the instance of a rolling update ran: the server, the model of its first GPU, its TEE
  -- flag. A server without GPUs raises.
  pub data Place : Type 0 where
    nowhere broken : Place
    at : (server_id model : Key) → (is_tee : Bool) → Place

  abbrev pub place_of : Deployment → Db → Place
  place_of d db = elim (find_server d.server_id db) [
    | none ↦ broken
    | some server ↦ elim (head? (server_gpus server.server_id db.gpus)) [
      | none ↦ broken
      | some g ↦ at server.server_id g.model_short_ref server.is_tee
    ]
  ]

  -- rolling_update after get_launch_token.
  unfoldable pub roll_out :
      Chute → (server_id : Key) → Raised (Option Key) × State → Raised (Unit {0}) × State
  roll_out chute server_id (raise, s) = (return tt, s)
  roll_out chute server_id (return token, s) = (deploy_on c chute server_id token 10 >> pure tt) s

  -- The last part of rolling_update.
  unfoldable pub replace_instance : Place → Chute → Action (Unit {0})
  replace_instance nowhere chute s = (return tt, s)
  replace_instance broken chute s = (raise, s)
  replace_instance (at server_id model is_tee) chute s =
      if contains model chute.supported_gpus && (if is_tee then chute.tee else not chute.tee)
      then roll_out chute server_id (get_launch_token c chute none s)
      else (return tt, s)

  unfoldable pub replace_fetched :
      Place → (chute_id validator : Key) → Option RemoteChute → Action (Unit {0})
  replace_fetched place chute_id validator none s = (return tt, s)
  replace_fetched place chute_id validator (some remote) s =
      (store_chute c fetch chute_id validator remote >>= replace_instance place) s

  -- rolling_update on what load_chute finds.
  unfoldable pub replace_loaded :
      Place → (chute_id version validator : Key) → Option Chute → Action (Unit {0})
  replace_loaded place chute_id version validator none s =
      replace_fetched place chute_id validator (fetch s chute_id version) s
  replace_loaded place chute_id version validator (some chute) s = replace_instance place chute s

  -- rolling_update after its undeploy: the chute is loaded, or else fetched and stored.
  unfoldable pub load_and_replace : Place → (chute_id version validator : Key) → Action (Unit {0})
  load_and_replace place chute_id version validator s =
      replace_loaded place chute_id version validator (load_chute chute_id version validator s.db) s

  unfoldable pub roll_place :
      Place → Deployment → (chute_id version validator : Key) → Action (Unit {0})
  roll_place nowhere d chute_id version validator s =
      load_and_replace nowhere chute_id version validator s
  roll_place broken d chute_id version validator s = (raise, s)
  roll_place (at server_id model is_tee) d chute_id version validator s =
      (undeploy c.out d.deployment_id none
          >> load_and_replace (at server_id model is_tee) chute_id version validator)
        s

  -- rolling_update on what its first query finds.
  unfoldable pub roll_found :
      OneOrNone Deployment → (chute_id version validator : Key) → Action (Unit {0})
  roll_found no_row chute_id version validator s =
      load_and_replace nowhere chute_id version validator s
  roll_found (one_row d) chute_id version validator s =
      roll_place (place_of d s.db) d chute_id version validator s
  roll_found many_rows chute_id version validator s = (raise, s)

  -- Gepetto.rolling_update
  unfoldable pub rolling_update : (chute_id version validator instance_id : Key) → Action (Unit {0})
  rolling_update chute_id version validator instance_id s =
      if is_validator c.out validator
      then roll_found
          (scalar_one_or_none
            (filter (λ d. is_key d.instance_id instance_id && is_none d.job_id) s.db.deployments))
          chute_id version validator s
      else (return tt, s)

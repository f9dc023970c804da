-- ===== src/Upkeep.antt =====
-- The handlers of Gepetto that bring chutes up to date, and the one for bounties:
-- src/chutes-miner/chutes_miner/gepetto.py.
--
-- A chute's data at a validator has all its fields. Handlers that call scale_chute take its fuel.
pub mod Rows
pub mod Chutes
pub mod Tests
use chutes_miner.Prelude.{
  Bool, List, Option, [], any, contains, false, find?, if◌then◌else◌, is_none, is_some, map, none,
  some, true, ℕ, ◌&&◌, ◌++◌, ◌==◌, ◌∷◌,
}
use chutes_miner.Schema.{Chute, Key}
use chutes_miner.Db.{Db, find_chute}
use chutes_miner.State.{State, code_stored, logged}
use chutes_miner.Action.{Action, Raised, modify_db, pure, raise, return, ◌>>◌}
use chutes_miner.Gepetto.{is_validator}
use chutes_miner.Launch.{Controller}
use chutes_miner.Scaling.{count_non_job_deployments, scale_chute}

-- The answer of GET {validator}/miner/chutes/{chute_id}/{version}.
pub record RemoteChute : Type 0 where
  pub name : Key
  pub image : Key
  pub code : Key
  pub filename : Key
  pub ref_str : Key
  pub version : Key
  pub supported_gpus : List Key
  pub gpu_count : ℕ
  pub chutes_version : Option Key
  pub preemptible : Bool
  pub tee : Bool

-- The row of a chute that was not known.
abbrev pub new_chute : (chute_id validator : Key) → RemoteChute → Chute
new_chute chute_id validator remote = record {
  chute_id = chute_id;
  validator = validator;
  name = remote.name;
  image = remote.image;
  code = remote.code;
  filename = remote.filename;
  ref_str = remote.ref_str;
  version = remote.version;
  supported_gpus = remote.supported_gpus;
  gpu_count = remote.gpu_count;
  ban_reason = none;
  chutes_version = remote.chutes_version;
  preemptible = remote.preemptible;
  tee = remote.tee;
}

-- The `setattr`s on the row of a chute that was known: not its name, and not its validator.
abbrev pub refreshed : RemoteChute → Chute → Chute
refreshed remote chute = record chute {
  image = remote.image;
  code = remote.code;
  filename = remote.filename;
  ref_str = remote.ref_str;
  version = remote.version;
  supported_gpus = remote.supported_gpus;
  gpu_count = remote.gpu_count;
  ban_reason = none;
  chutes_version = remote.chutes_version;
  preemptible = remote.preemptible;
  tee = remote.tee;
}

-- Changes the rows of a chute.
unfoldable pub update_chutes : Key → (Chute → Chute) → List Chute → List Chute
update_chutes chute_id f [] = []
update_chutes chute_id f (row ∷ rows) =
    (if row.chute_id == chute_id then f row else row) ∷ update_chutes chute_id f rows

-- The upsert of chute_updated and of rolling_update, on the row that the query finds.
abbrev pub upserted : (chute_id validator : Key) → RemoteChute → Option Chute → Chute
upserted chute_id validator remote none = new_chute chute_id validator remote
upserted chute_id validator remote (some chute) = refreshed remote chute

unfoldable pub upsert_chute : (chute_id validator : Key) → RemoteChute → Db → Db
unfolding update_chutes
upsert_chute chute_id validator remote db =
    if is_some (find_chute chute_id db)
    then record db { chutes = update_chutes chute_id (refreshed remote) db.chutes }
    else record db { chutes = db.chutes ++ new_chute chute_id validator remote ∷ [] }

-- Gepetto.load_chute
abbrev pub load_chute : (chute_id version validator : Key) → Db → Option Chute
load_chute chute_id version validator db =
    find?
      (λ row.
        (row.chute_id == chute_id) && ((row.version == version) && (row.validator == validator)))
      db.chutes

-- Gepetto.get_chute
abbrev pub get_chute : (chute_id validator : Key) → Db → Option Chute
get_chute chute_id validator db =
    find? (λ row. (row.chute_id == chute_id) && (row.validator == validator)) db.chutes

-- Gepetto.image_updated
unfoldable pub image_updated :
    (image chutes_version : Key) → (chute_ids : List Key) → Action (Unit {0})
image_updated image chutes_version chute_ids = modify_db (λ db. record db {
  chutes =
      map
        (λ (row : Chute).
          if contains row.chute_id chute_ids
          then record row { chutes_version = some chutes_version; image = image }
          else row)
        db.chutes;
})

module _ (c : Controller) where
  -- K8sOperator.create_code_config_map, which stores nothing for a TEE chute.
  unfoldable pub create_code_config_map : Chute → Action (Unit {0})
  create_code_config_map chute s =
      if chute.tee
      then (return tt, s)
      else (let s' = logged (code_stored chute.chute_id chute.version) s in
          (if c.stores_code s' chute then return tt else raise, s'))

module _ (c : Controller) (fetch : State → (chute_id version : Key) → Option RemoteChute) where
  -- The upsert with the commit, and then the config map.
  unfoldable pub store_chute : (chute_id validator : Key) → RemoteChute → Action Chute
  store_chute chute_id validator remote s =
      let row = upserted chute_id validator remote (find_chute chute_id s.db) in
      (create_code_config_map c row >> pure row)
        (record s { db = upsert_chute chute_id validator remote s.db })

  -- chute_updated after the validator was asked.
  unfoldable pub chute_fetched : (chute_id validator : Key) → Option RemoteChute → Action (Unit {0})
  chute_fetched chute_id validator none s = (return tt, s)
  chute_fetched chute_id validator (some remote) s =
      (store_chute chute_id validator remote >> pure tt) s

  -- Gepetto.chute_updated
  unfoldable pub chute_updated : (chute_id version validator : Key) → Action (Unit {0})
  chute_updated chute_id version validator s =
      if is_validator c.out validator
      then chute_fetched chute_id validator (fetch s chute_id version) s
      else (return tt, s)

  -- chute_created after create_code_config_map.
  unfoldable pub deploy_created :
      (fuel : ℕ)
      → (job_only : Bool) → (desired : ℕ) → Chute
      → State
      → Option (Raised (Unit {0}) × State)
  deploy_created fuel job_only desired chute s =
      if job_only
      then some (return tt, s)
      else if count_non_job_deployments chute s.db == 0
      then elim (scale_chute c fuel chute desired false false s) [
        | none ↦ none
        | some (r, s') ↦ some (elim r [ return _ ↦ return tt | raise ↦ raise ], s')
      ]
      else some (return tt, s)

  unfoldable pub after_code :
      (fuel : ℕ)
      → (job_only : Bool) → (desired : ℕ) → Chute
      → Raised (Unit {0}) × State
      → Option (Raised (Unit {0}) × State)
  after_code fuel job_only desired chute (raise, s) = some (raise, s)
  after_code fuel job_only desired chute (return _, s) =
      deploy_created fuel job_only desired chute s

  -- chute_created after the validator was asked. The chute's id is the primary key.
  unfoldable pub created_fetched :
      (fuel : ℕ)
      → (chute_id validator : Key) → (job_only : Bool) → (desired : ℕ) → Option RemoteChute
      → State
      → Option (Raised (Unit {0}) × State)
  created_fetched fuel chute_id validator job_only desired none s = some (return tt, s)
  created_fetched fuel chute_id validator job_only desired (some remote) s =
      let row = new_chute chute_id validator remote in
      if is_some (find_chute chute_id s.db)
      then some (raise, s)
      else after_code fuel job_only desired row (
          create_code_config_map c row
            (record s { db = record s.db { chutes = s.db.chutes ++ row ∷ [] } }))

  -- Gepetto.chute_created
  unfoldable pub chute_created :
      (fuel : ℕ)
      → (chute_id version validator : Key) → (job_only : Bool) → (desired : ℕ) → State
      → Option (Raised (Unit {0}) × State)
  chute_created fuel chute_id version validator job_only desired s =
      if is_validator c.out validator && is_none (load_chute chute_id version validator s.db)
      then created_fetched fuel chute_id validator job_only desired (fetch s chute_id version) s
      else some (return tt, s)

  -- Gepetto.bounty_changed
  unfoldable pub bounty_changed :
      (fuel : ℕ) → (chute_id validator : Key) → State → Option (Raised Bool × State)
  bounty_changed fuel chute_id validator s =
      if any (λ d. d.chute_id == chute_id) s.db.deployments
      then some (return false, s)
      else elim (get_chute chute_id validator s.db) [
        | none ↦ some (return false, s)
        | some chute ↦ scale_chute c fuel chute 1 true false s
      ]

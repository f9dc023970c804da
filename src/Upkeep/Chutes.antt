-- ===== src/Upkeep/Chutes.antt =====
-- What the update of a chute does to the chutes of the miner.
use chutes_miner.Prelude.{Option, arith, some, true, ◌≡◌}
use chutes_miner.Schema.{Chute, Key}
use chutes_miner.Db.{find_chute}
use chutes_miner.State.{State}
use chutes_miner.Gepetto.{is_validator}
use chutes_miner.Launch.{Controller}
use chutes_miner.Upkeep.{
  RemoteChute, chute_fetched, chute_updated, create_code_config_map, store_chute, upsert_chute,
  upserted,
}
use chutes_miner.Upkeep.Rows.{IsStored, upsert_chute-IsStored}

module _ (c : Controller) (fetch : State → (chute_id version : Key) → Option RemoteChute) where
  create_code-db : (row : Chute) (s : State) → (create_code_config_map c row s).1.db ≡ s.db
  unfolding create_code_config_map
  create_code-db row s = ground arith

  store_chute-db :
      (chute_id validator : Key) (remote : RemoteChute) (s : State)
      → (store_chute c fetch chute_id validator remote s).1.db
        ≡ upsert_chute chute_id validator remote s.db
  unfolding store_chute
  store_chute-db chute_id validator remote s = ground (
    arith,
    create_code-db (upserted chute_id validator remote (find_chute chute_id s.db))
        (record s { db = upsert_chute chute_id validator remote s.db }),
  )

  -- When the validator is configured and gives the chute's data, chute_updated leaves the chute
  -- with that data, field by field, and no ban, but with the name and the validator that a known
  -- chute had; it adds a row only if there was none; and it leaves all other chutes, and the servers,
  -- GPUs and deployments, alone. This is so also when it raises, as the code cannot be stored.
  pub chute_updated-IsStored :
      (chute_id version validator : Key) (remote : RemoteChute) (s : State)
      → is_validator c.out validator ≡ true
      → fetch s chute_id version ≡ some remote
      → IsStored chute_id validator remote s.db
          (chute_updated c fetch chute_id version validator s).1.db
  unfolding chute_updated chute_fetched
  chute_updated-IsStored chute_id version validator remote s known fetched =
      let same : (chute_updated c fetch chute_id version validator s).1.db
          ≡ upsert_chute chute_id validator remote s.db =
        ground (arith, known, fetched, store_chute-db chute_id validator remote s) in
      rw same (upsert_chute-IsStored chute_id remote validator s.db)

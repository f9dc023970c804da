-- ===== src/Upkeep/Rows.antt =====
-- The rows of chutes under the upsert of chute_updated and rolling_update.
use chutes_miner.Prelude.{
  List, Option, Option-cases, [], arith, count, count-append, find?, find?-append_new,
  find?-eq-none, if◌then◌else◌, inl, inr, is_some, none, refl, some, ◌++◌, ◌==◌, ◌∷◌, ◌≡◌, ◌≢◌,
}
use chutes_miner.Schema.{Chute, Key}
use chutes_miner.Db.{Db, find_chute}
use chutes_miner.Upkeep.{RemoteChute, new_chute, refreshed, update_chutes, upsert_chute, upserted}

-- A row has the validator's data and no ban, and the name and the validator that it had before, if
-- it was there.
pub record HasData (validator : Key) (remote : RemoteChute) (old : Option Chute) (row : Chute)
    : Type 0 where
  pub name : row.name ≡ (elim old [ none ↦ remote.name | some chute ↦ chute.name ])
  pub own : row.validator ≡ (elim old [ none ↦ validator | some chute ↦ chute.validator ])
  pub unbanned : row.ban_reason ≡ none
  pub image : row.image ≡ remote.image
  pub code : row.code ≡ remote.code
  pub filename : row.filename ≡ remote.filename
  pub ref_str : row.ref_str ≡ remote.ref_str
  pub version : row.version ≡ remote.version
  pub supported_gpus : row.supported_gpus ≡ remote.supported_gpus
  pub gpu_count : row.gpu_count ≡ remote.gpu_count
  pub chutes_version : row.chutes_version ≡ remote.chutes_version
  pub preemptible : row.preemptible ≡ remote.preemptible
  pub tee : row.tee ≡ remote.tee

upserted-HasData :
    (chute_id validator : Key) (remote : RemoteChute) (old : Option Chute)
    → HasData validator remote old (upserted chute_id validator remote old)
upserted-HasData chute_id validator remote none = record {
  name = refl;
  own = refl;
  unbanned = refl;
  image = refl;
  code = refl;
  filename = refl;
  ref_str = refl;
  version = refl;
  supported_gpus = refl;
  gpu_count = refl;
  chutes_version = refl;
  preemptible = refl;
  tee = refl;
}
upserted-HasData chute_id validator remote (some chute) = record {
  name = refl;
  own = refl;
  unbanned = refl;
  image = refl;
  code = refl;
  filename = refl;
  ref_str = refl;
  version = refl;
  supported_gpus = refl;
  gpu_count = refl;
  chutes_version = refl;
  preemptible = refl;
  tee = refl;
}

-- A chute is stored: it has a row with the data, and nothing else has changed.
pub record IsStored (chute_id validator : Key) (remote : RemoteChute) (db db' : Db) : Type 0 where
  pub row :
      (row : Chute) × (find_chute chute_id db' ≡ some row)
      × HasData validator remote (find_chute chute_id db) row
  pub others : (e : Key) → chute_id ≢ e → find_chute e db' ≡ find_chute e db
  pub rows : count (λ r. r.chute_id == chute_id) db'.chutes ≡ (
      if is_some (find_chute chute_id db) then count (λ r. r.chute_id == chute_id) db.chutes else 1)
  pub servers : db'.servers ≡ db.servers
  pub gpus : db'.gpus ≡ db.gpus
  pub deployments : db'.deployments ≡ db.deployments

module _ (chute_id : Key) (remote : RemoteChute) where
  find-update :
      (rows : List Chute) (row : Chute)
      → find? (λ r. r.chute_id == chute_id) rows ≡ some row
      → find? (λ r. r.chute_id == chute_id) (update_chutes chute_id (refreshed remote) rows)
        ≡ some (refreshed remote row)
  unfolding update_chutes
  find-update [] row e = absurd (ground arith)
  find-update (r ∷ rows) row e = ground (arith, find-update rows row)

  find-update_ne :
      (e : Key) (rows : List Chute)
      → chute_id ≢ e
      → find? (λ r. r.chute_id == e) (update_chutes chute_id (refreshed remote) rows)
        ≡ find? (λ r. r.chute_id == e) rows
  unfolding update_chutes
  find-update_ne e [] ne = refl
  find-update_ne e (r ∷ rows) ne = ground (arith, find-update_ne e rows ne)

  count-update :
      (rows : List Chute)
      → count (λ r. r.chute_id == chute_id) (update_chutes chute_id (refreshed remote) rows)
        ≡ count (λ r. r.chute_id == chute_id) rows
  unfolding update_chutes
  count-update [] = refl
  count-update (r ∷ rows) = ground (arith, count-update rows)

  count-absent :
      (rows : List Chute)
      → find? (λ r. r.chute_id == chute_id) rows ≡ none
      → count (λ r. r.chute_id == chute_id) rows ≡ 0
  count-absent [] e = refl
  count-absent (r ∷ rows) e = ground (arith, count-absent rows)

  find-new_ne :
      (validator e : Key) (rows : List Chute)
      → chute_id ≢ e
      → find? (λ r. r.chute_id == e) (rows ++ new_chute chute_id validator remote ∷ [])
        ≡ find? (λ r. r.chute_id == e) rows
  find-new_ne validator e [] ne = ground arith
  find-new_ne validator e (r ∷ rows) ne = ground (arith, find-new_ne validator e rows ne)

  find-upsert_chute :
      (validator : Key) (db : Db)
      → find_chute chute_id (upsert_chute chute_id validator remote db)
        ≡ some (upserted chute_id validator remote (find_chute chute_id db))
  unfolding upsert_chute
  find-upsert_chute validator db = elim (Option-cases (find_chute chute_id db)) [
    | inl absent ↦ rw absent (
        find?-append_new (λ r. r.chute_id == chute_id) db.chutes
          (new_chute chute_id validator remote)
          (find?-eq-none (λ r. r.chute_id == chute_id) db.chutes absent) (ground arith))
    | inr (row, present) ↦ rw present (find-update db.chutes row present)
  ]

  stored_row :
      (validator : Key) (db : Db)
      → (row : Chute) × (find_chute chute_id (upsert_chute chute_id validator remote db) ≡ some row)
        × HasData validator remote (find_chute chute_id db) row
  stored_row validator db = (
    upserted chute_id validator remote (find_chute chute_id db),
    find-upsert_chute validator db,
    upserted-HasData chute_id validator remote (find_chute chute_id db),
  )

  find-upsert_chute_ne :
      (validator e : Key) (db : Db)
      → chute_id ≢ e
      → find_chute e (upsert_chute chute_id validator remote db) ≡ find_chute e db
  unfolding upsert_chute
  find-upsert_chute_ne validator e db ne = elim (Option-cases (find_chute chute_id db)) [
    | inl absent ↦ rw absent (find-new_ne validator e db.chutes ne)
    | inr (row, present) ↦ rw present (find-update_ne e db.chutes ne)
  ]

  count-upsert_chute :
      (validator : Key) (db : Db)
      → count (λ r. r.chute_id == chute_id) (upsert_chute chute_id validator remote db).chutes ≡ (
          if is_some (find_chute chute_id db)
          then count (λ r. r.chute_id == chute_id) db.chutes
          else 1)
  unfolding upsert_chute
  count-upsert_chute validator db = elim (Option-cases (find_chute chute_id db)) [
    | inl absent ↦
        rw
          (
            absent,
            count-append (λ r. r.chute_id == chute_id) db.chutes
                (new_chute chute_id validator remote ∷ []),
          )
          (ground (arith, count-absent db.chutes absent))
    | inr (row, present) ↦ rw present (count-update db.chutes)
  ]

  pub upsert_chute-IsStored :
      (validator : Key) (db : Db)
      → IsStored chute_id validator remote db (upsert_chute chute_id validator remote db)
  unfolding upsert_chute
  upsert_chute-IsStored validator db = record {
    row = stored_row validator db;
    others = λ e ne. find-upsert_chute_ne validator e db ne;
    rows = count-upsert_chute validator db;
    servers = ground arith;
    gpus = ground arith;
    deployments = ground arith;
  }

module _ (chute_id : Key) (remote : RemoteChute) where
  update-again :
      (rows : List Chute)
      → update_chutes chute_id (refreshed remote) (update_chutes chute_id (refreshed remote) rows)
        ≡ update_chutes chute_id (refreshed remote) rows
  unfolding update_chutes
  update-again [] = refl
  update-again (r ∷ rows) = ground (arith, update-again rows)

  update-new :
      (validator : Key) (rows : List Chute)
      → find? (λ r. r.chute_id == chute_id) rows ≡ none
      → update_chutes chute_id (refreshed remote) (rows ++ new_chute chute_id validator remote ∷ [])
        ≡ rows ++ new_chute chute_id validator remote ∷ []
  unfolding update_chutes
  update-new validator [] h = ground arith
  update-new validator (r ∷ rows) h = ground (arith, update-new validator rows)

  -- Storing the same data of a chute a second time, as a repeated chute_updated event does, changes
  -- nothing in the database.
  pub upsert_chute_idem :
      (validator : Key) (db : Db)
      → upsert_chute chute_id validator remote (upsert_chute chute_id validator remote db)
        ≡ upsert_chute chute_id validator remote db
  unfolding upsert_chute
  upsert_chute_idem validator db =
      let again : find_chute chute_id (upsert_chute chute_id validator remote db)
          ≡ some (upserted chute_id validator remote (find_chute chute_id db)) =
        find-upsert_chute chute_id remote validator db in
      elim (Option-cases (find_chute chute_id db)) [
        | inl absent ↦ ground (arith, absent, again, update-new validator db.chutes absent)
        | inr (row, present) ↦ ground (arith, present, again, update-again db.chutes)
      ]

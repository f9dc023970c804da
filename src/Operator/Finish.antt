-- ===== src/Operator/Finish.antt =====
-- The steps of deploy_chute after the commit, with no other task in between.
use chutes_miner.Prelude.{
  ==_refl, Bool, Bool-cases, List, Option-cases, [], any, arith, false, find?, find?-append_new,
  inl, inr, reject-append_new, some, true, ℕ, ◌++◌, ◌∷◌, ◌≡◌,
}
use chutes_miner.Schema.{Deployment, Key, Server}
use chutes_miner.Db.{Db, delete_deployment, find_deployment, is_deployment, owned}
use chutes_miner.State.{Effect, State, logged, service_created}
use chutes_miner.Operator.{
  Cluster, Interleaving, Result, claim, clean_up, clear_deployment, err, finish_deployment, ok,
  set_started, started, update_deployment,
}
use chutes_miner.Operator.Claim.{release_all-claim}

-- No other task runs while deploy_chute waits.
abbrev pub undisturbed : Interleaving
undisturbed = record { during_disk_check = λ s. s; during_creation = λ s. s }

-- A new uuid is the id of no row.
abbrev pub IsFresh : Key → Db → Type 0
IsFresh d db = (any (is_deployment d) db.deployments ≡ false) × (owned d db ≡ 0)

-- The database with a row and its GPUs, and how it goes back.
abbrev pub tracked : List Key → Deployment → Db → Db
tracked ids row db = record db {
  deployments = db.deployments ++ row ∷ [];
  gpus = claim ids row.deployment_id db.gpus;
}

find-tracked :
    (ids : List Key) (row : Deployment) (db : Db)
    → IsFresh row.deployment_id db
    → find_deployment row.deployment_id (tracked ids row db) ≡ some row
find-tracked ids row db h =
    find?-append_new (is_deployment row.deployment_id) db.deployments row h.0
      (==_refl row.deployment_id)

clear-tracked :
    (ids : List Key) (row : Deployment) (db : Db)
    → IsFresh row.deployment_id db
    → clear_deployment row.deployment_id (tracked ids row db) ≡ db
unfolding clear_deployment delete_deployment
clear-tracked ids row db h =
    let d = row.deployment_id in
    ground (
      arith,
      find-tracked ids row db h,
      reject-append_new (is_deployment d) db.deployments row h.0 (==_refl d),
      release_all-claim ids d db.gpus h.1,
    )

-- The update cannot miss the row that was just tracked.
pub update-tracked :
    (ids : List Key) (row : Deployment) (server : Server) (port : ℕ) (db : Db)
    → IsFresh row.deployment_id db
    → update_deployment row.deployment_id server port (tracked ids row db) ≡ (
      ok (started server port row),
      record (tracked ids row db) {
        deployments = set_started row.deployment_id server port (tracked ids row db).deployments;
      },
    )
unfolding update_deployment
update-tracked ids row server port db h = rw (find-tracked ids row db h, update_deployment)

-- The steps after the commit: either the deployment runs, or nothing is left of it.
abbrev pub Finished :
    (ids : List Key) (row : Deployment) (db : Db) → Result Deployment × State → Type 0
Finished ids row db (ok row', s) =
    (row'.deployment_id ≡ row.deployment_id)
    × (s.db.gpus ≡ claim ids row.deployment_id db.gpus)
    × (find_deployment row.deployment_id s.db ≡ some row')
Finished ids row db (err e, s) = s.db ≡ db

pub find-set_started :
    (d : Key) (server : Server) (port : ℕ) (row : Deployment) (rows : List Deployment)
    → find? (is_deployment d) rows ≡ some row
    → find? (is_deployment d) (set_started d server port rows) ≡ some (started server port row)
unfolding set_started
find-set_started d server port row [] h = cc
find-set_started d server port row (r ∷ rows) h =
    ground (arith, find-set_started d server port row rows)

clean_up-tracked :
    (ids : List Key) (row : Deployment) (service job : Bool) (db : Db) (log : List Effect)
    → IsFresh row.deployment_id db
    → (clean_up row.deployment_id service job (record { db = tracked ids row db; log = log })).db
      ≡ db
unfolding clean_up
clean_up-tracked ids row true true db log h = clear-tracked ids row db h
clean_up-tracked ids row true false db log h = clear-tracked ids row db h
clean_up-tracked ids row false true db log h = clear-tracked ids row db h
clean_up-tracked ids row false false db log h = clear-tracked ids row db h

pub finish_deployment-Finished :
    (k : Cluster) (ids : List Key) (row : Deployment) (server : Server) (db : Db)
    (log : List Effect)
    → IsFresh row.deployment_id db
    → Finished ids row db (
        finish_deployment k undisturbed row.deployment_id server
          (record { db = tracked ids row db; log = log }))
unfolding finish_deployment
finish_deployment-Finished k ids row server db log h =
    let d = row.deployment_id in
    let s : State = record { db = tracked ids row db; log = log } in
    let s1 = logged (service_created d) s in
    elim (Option-cases (k.deploy_service s d)) [
      | inl none_made ↦
          rw (none_made, finish_deployment) (clean_up-tracked ids row false false db log h)
      | inr (port, made) ↦ elim (Bool-cases (k.deploy_job s1 d)) [
        | inl job ↦ ground (
          arith,
          update-tracked ids row server port db h,
          find-set_started d server port row (tracked ids row db).deployments
              (find-tracked ids row db h),
        )
        | inr no_job ↦
            rw (made, no_job, finish_deployment) (clean_up-tracked ids row true false db s1.log h)
      ]
    ]

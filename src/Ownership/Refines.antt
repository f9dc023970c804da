-- ===== src/Ownership/Refines.antt =====
-- The handlers and the sections of deploy_chute as turns of the allocator, in any order.
use chutes_miner.Prelude.{
  Bool, List, Option-cases, [], false, if◌then◌else◌, inl, inr, map, refl, true, ℕ, ◌∷◌, ◌⊎◌,
}
use chutes_miner.Schema.{Chute, Deployment, Gpu, Key, Server}
use chutes_miner.Db.{Db, delete_deployment, find_deployment, update_rows}
use chutes_miner.State.{State}
use chutes_miner.Operator.{clean_up, track_deployment, update_deployment}
use chutes_miner.Gepetto.{Outside}
use chutes_miner.Gepetto.Events.{Event, handle}
use chutes_miner.Gepetto.Along.{Along, handle-Follows}
use chutes_miner.Ownership.{
  Agree, Agree-refl, Losses, Losses-trans, Ownership, released, stay, taken, view,
}
use chutes_miner.Ownership.Rows.{
  clear_deployment-view, delete_chute-Losses, delete_deployment-Losses, delete_gpu-Losses,
  delete_server-Losses, held-set_started, held-update, track_deployment-view, view-verified,
}

-- What runs without other tasks in between and changes the tables: a handler of Gepetto, the UPDATE
-- with the new row of deploy_chute, its update of the row, and its cleanup, each for any arguments.
pub data Turn : Type 0 where
  event : Event → Turn
  track : Chute → (ids : List Key) → (row : Deployment) → Turn
  update : (d : Key) → Server → (port : ℕ) → Turn
  cleanup : (d : Key) → (service job : Bool) → Turn

module _ (out : Outside) where
  unfoldable pub turn : Turn → State → State
  turn (event e) s = (handle out e s).1
  turn (track chute ids row) s = record s { db = (track_deployment chute ids row s.db).1 }
  turn (update d server port) s = record s { db = (update_deployment d server port s.db).1 }
  turn (cleanup d service job) s = clean_up d service job s

  unfoldable pub turns : List Turn → State → State
  turns [] s = s
  turns (t ∷ ts) s = turns ts (turn t s)

abbrev Loses : Db → Db → Type 0
Loses a b = Losses (view a) (view b)

Loses-Along : Along Loses
unfolding delete_deployment
Loses-Along = record {
  staying = λ db. stay (view db) (Agree-refl (view db));
  joining = λ a b c. Losses-trans (view a) (view b) (view c);
  deleting_deployment = delete_deployment-Losses;
  deleting_gpu = delete_gpu-Losses;
  deleting_server = delete_server-Losses;
  deleting_chute = delete_chute-Losses;
  updating_rows = λ p f db ids servers.
      stay (view (update_rows p f db)) (λ s g. refl, λ e. held-update p f e db.deployments ids);
  verifying_gpus = λ p db.
      stay
        (view (record db {
          gpus = map (λ (g : Gpu). if p g then record g { verified = true } else g) db.gpus;
        }))
        (λ s g. view-verified p db.gpus s g, λ e. refl);
}

update_deployment-view :
    (d : Key) (server : Server) (port : ℕ) (db : Db)
    → Agree (view (update_deployment d server port db).1) (view db)
unfolding update_deployment
update_deployment-view d server port db = elim (Option-cases (find_deployment d db)) [
  | inl gone ↦ rw (gone, update_deployment) (Agree-refl (view db))
  | inr (row, there) ↦
      rw (there, update_deployment)
        (λ s g. refl, λ e. held-set_started d e server port db.deployments)
]

-- What a turn is in the allocator. A handler only gives up: it frees deployments whole, and drops GPUs
-- and servers. The tracking section does nothing, or gives the GPUs that were asked for and are free
-- to the new deployment. The update does nothing. The cleanup does nothing, or frees the deployment.
abbrev pub IsTurn : Turn → Ownership → Ownership → Type 0
IsTurn (event e) v w = Losses v w
IsTurn (track chute ids row) v w = Agree w v ⊎ Agree w (taken ids row.deployment_id v)
IsTurn (update d server port) v w = Agree w v
IsTurn (cleanup d service job) v w = Agree w v ⊎ Agree w (released d v)

-- The allocator follows turns, one by one.
abbrev pub Plays : List Turn → Ownership → Ownership → Type 0
Plays [] v w = Agree w v
Plays (t ∷ ts) v w = (u : Ownership) × IsTurn t v u × Plays ts u w

module _ (out : Outside) where
  clean_up-IsTurn :
      (d : Key) (service job : Bool) (s : State)
      → IsTurn (cleanup d service job) (view s.db) (view (clean_up d service job s).db)
  unfolding clean_up
  clean_up-IsTurn d true true s = clear_deployment-view d s.db
  clean_up-IsTurn d true false s = clear_deployment-view d s.db
  clean_up-IsTurn d false true s = clear_deployment-view d s.db
  clean_up-IsTurn d false false s = clear_deployment-view d s.db

  turn-IsTurn : (t : Turn) (s : State) → IsTurn t (view s.db) (view (turn out t s).db)
  unfolding turn
  turn-IsTurn (event e) s = handle-Follows out Loses Loses-Along e s
  turn-IsTurn (track chute ids row) s = track_deployment-view chute ids row s.db
  turn-IsTurn (update d server port) s = update_deployment-view d server port s.db
  turn-IsTurn (cleanup d service job) s = clean_up-IsTurn d service job s

  -- Any sequence of turns, whatever the other systems answer and whichever handlers raise, is one of
  -- the allocator, turn by turn. A handler gives no GPU to any deployment; it frees all GPUs of a
  -- deployment together, and only as the deployment's row goes; GPUs disappear with their id or with
  -- their server. The section of deploy_chute that tracks a deployment gives it those of the GPUs it
  -- asks for that are free, or changes nothing; its update changes nothing; and its cleanup frees this
  -- deployment, or changes nothing.
  pub turns-Plays : (ts : List Turn) (s : State) → Plays ts (view s.db) (view (turns out ts s).db)
  unfolding turns
  turns-Plays [] s = Agree-refl (view s.db)
  turns-Plays (t ∷ ts) s = let s' = turn out t s in (view s'.db, turn-IsTurn t s, turns-Plays ts s')

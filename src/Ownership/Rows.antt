-- ===== src/Ownership/Rows.antt =====
-- What the updates of the tables are in the allocator.
use chutes_miner.Prelude.{
  Bool, Bool-cases, List, [], any, any-append, ap, arith, contains, filter, if◌then◌else◌, inl, inr,
  is_some, ltb, map, none, not, refl, true, ℕ, ◌&&◌, ◌++◌, ◌==◌, ◌||◌, ◌∷◌, ◌≡◌, ◌⊎◌,
}
use chutes_miner.Schema.{Chute, Deployment, Gpu, Key, Server}
use chutes_miner.Db.{
  Db, delete_chute, delete_deployment, delete_deployments, delete_gpu, delete_server,
  find_deployment, is_deployment, release, release_all, server_deployments,
}
use chutes_miner.Operator.{claim, claimed, clear_deployment, set_started, track_deployment}
use chutes_miner.Ownership.{
  Agree, Agree-refl, Losses, Losses-trans, drop_gpu, drop_server, free, freed, given, next,
  owner_of, released, stay, taken, view,
}

pub view-release_all :
    (d : Key) (gs : List Gpu) (s g : Key)
    → owner_of (release_all d gs) s g ≡ freed d (owner_of gs s g)
unfolding owner_of release_all release
view-release_all d [] s g = refl
view-release_all d (x ∷ xs) s g = elim (Bool-cases ((x.server_id == s) && (x.gpu_id == g))) [
  | inl own ↦ ground (arith, own)
  | inr other ↦ ground (arith, other, view-release_all d xs s g)
]

pub view-claim :
    (ids : List Key) (d : Key) (gs : List Gpu) (s g : Key)
    → owner_of (claim ids d gs) s g ≡ given (contains g ids) d (owner_of gs s g)
unfolding owner_of claim
view-claim ids d [] s g = refl
view-claim ids d (x ∷ xs) s g = elim (Bool-cases ((x.server_id == s) && (x.gpu_id == g))) [
  | inl own ↦
      let same : x.gpu_id ≡ g = ground (arith, own) in
      ground (arith, own, ap (λ y. contains y ids) same)
  | inr other ↦ ground (arith, other, view-claim ids d xs s g)
]

pub view-delete_gpu :
    (x : Key) (gs : List Gpu) (s g : Key)
    → owner_of (filter (λ (row : Gpu). not (row.gpu_id == x)) gs) s g
      ≡ (if g == x then none else owner_of gs s g)
unfolding owner_of
view-delete_gpu x [] s g = ground arith
view-delete_gpu x (y ∷ ys) s g = ground (arith, view-delete_gpu x ys s g)

pub view-delete_server :
    (x : Key) (gs : List Gpu) (s g : Key)
    → owner_of (filter (λ (row : Gpu). not (row.server_id == x)) gs) s g
      ≡ (if s == x then none else owner_of gs s g)
unfolding owner_of
view-delete_server x [] s g = ground arith
view-delete_server x (y ∷ ys) s g = ground (arith, view-delete_server x ys s g)

pub view-verified :
    (p : Gpu → Bool) (gs : List Gpu) (s g : Key)
    → owner_of (map (λ (x : Gpu). if p x then record x { verified = true } else x) gs) s g
      ≡ owner_of gs s g
unfolding owner_of
view-verified p [] s g = refl
view-verified p (y ∷ ys) s g = ground (arith, view-verified p ys s g)

pub held-delete :
    (d e : Key) (rows : List Deployment)
    → any (is_deployment e) (filter (λ row. not (is_deployment d row)) rows)
      ≡ (any (is_deployment e) rows && not (e == d))
held-delete d e [] = refl
held-delete d e (r ∷ rows) = ground (arith, held-delete d e rows)

held-new :
    (e : Key) (row : Deployment) (rows : List Deployment)
    → any (is_deployment e) (rows ++ row ∷ [])
      ≡ (any (is_deployment e) rows || (row.deployment_id == e))
held-new e row rows = ground (arith, any-append (is_deployment e) rows (row ∷ []))

pub held-update :
    (p : Deployment → Bool) (f : Deployment → Deployment) (e : Key) (rows : List Deployment)
    → ((d : Deployment) → (f d).deployment_id ≡ d.deployment_id)
    → any (is_deployment e) (map (λ d. if p d then f d else d) rows) ≡ any (is_deployment e) rows
held-update p f e [] ids = refl
held-update p f e (r ∷ rows) ids = ground (arith, ids r, held-update p f e rows ids)

pub held-set_started :
    (d e : Key) (server : Server) (port : ℕ) (rows : List Deployment)
    → any (is_deployment e) (set_started d server port rows) ≡ any (is_deployment e) rows
unfolding set_started
held-set_started d e server port [] = refl
held-set_started d e server port (r ∷ rows) = ground (arith, held-set_started d e server port rows)

pub delete_deployment-released :
    (d : Key) (db : Db) → Agree (view (delete_deployment d db)) (released d (view db))
unfolding delete_deployment
delete_deployment-released d db =
    (λ s g. view-release_all d db.gpus s g, λ e. held-delete d e db.deployments)

pub delete_deployment-Losses :
    (d : Key) (db : Db) → Losses (view db) (view (delete_deployment d db))
delete_deployment-Losses d db =
    next (view db) (view (delete_deployment d db)) (stay (view db) (Agree-refl (view db)))
      (free d (delete_deployment-released d db))

delete_deployments-Losses :
    (ds : List Deployment) (db : Db) → Losses (view db) (view (delete_deployments ds db))
unfolding delete_deployments
delete_deployments-Losses [] db = stay (view db) (Agree-refl (view db))
delete_deployments-Losses (d ∷ ds) db =
    let db' = delete_deployment d.deployment_id db in
    Losses-trans (view db) (view db') (view (delete_deployments ds db'))
      (delete_deployment-Losses d.deployment_id db) (delete_deployments-Losses ds db')

pub delete_chute-Losses : (c : Key) (db : Db) → Losses (view db) (view (delete_chute c db))
unfolding delete_chute
delete_chute-Losses c db =
    delete_deployments-Losses (filter (λ d. d.chute_id == c) db.deployments) db

pub delete_server-Losses : (x : Key) (db : Db) → Losses (view db) (view (delete_server x db))
unfolding delete_server
delete_server-Losses x db =
    let db' = delete_deployments (server_deployments x db.deployments) db in
    next (view db') (view (delete_server x db))
      (delete_deployments-Losses (server_deployments x db.deployments) db)
      (drop_server x (λ s g. view-delete_server x db'.gpus s g, λ e. refl))

pub delete_gpu-Losses : (x : Key) (db : Db) → Losses (view db) (view (delete_gpu x db))
unfolding delete_gpu
delete_gpu-Losses x db =
    next (view db) (view (delete_gpu x db)) (stay (view db) (Agree-refl (view db)))
      (drop_gpu x (λ s g. view-delete_gpu x db.gpus s g, λ e. refl))

pub clear_deployment-view :
    (d : Key) (db : Db)
    → Agree (view (clear_deployment d db)) (view db)
      ⊎ Agree (view (clear_deployment d db)) (released d (view db))
unfolding clear_deployment
clear_deployment-view d db = elim (Bool-cases (is_some (find_deployment d db))) [
  | inl there ↦ rw there (inr (delete_deployment-released d db))
  | inr gone ↦ rw gone (inl (Agree-refl (view db)))
]

pub track_deployment-view :
    (chute : Chute) (ids : List Key) (row : Deployment) (db : Db)
    → let w = view (track_deployment chute ids row db).1 in
      Agree w (view db) ⊎ Agree w (taken ids row.deployment_id (view db))
unfolding track_deployment
track_deployment-view chute ids row db =
    elim (Bool-cases (ltb (claimed ids db.gpus) chute.gpu_count)) [
      | inl short ↦ rw short (inl (Agree-refl (view db)))
      | inr enough ↦ rw enough (
          inr (
            λ s g. view-claim ids row.deployment_id db.gpus s g,
            λ e. held-new e row db.deployments,
          ))
    ]

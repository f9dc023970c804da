-- ===== src/Db/Integrity.antt =====
-- The integrity of the tables under the deletes: a GPU's deployment exists, on the GPU's own server.
use chutes_miner.Prelude.{
  All, All-filter, Bool, Bool-cases, List, Option-cases, [], any, any-filter, arith, filter, inl,
  inr, none, not, some, true, ◌&&◌, ◌==◌, ◌∷◌, ◌≡◌,
}
use chutes_miner.Schema.{Deployment, Gpu, Key}
use chutes_miner.Db.{
  Db, delete_chute, delete_deployment, delete_deployments, delete_gpu, delete_server, is_deployment,
  release, release_all, server_deployments,
}

-- The GPU is free, or its deployment has a row, on the same server.
abbrev pub backed : List Deployment → Gpu → Bool
backed rows g = elim g.deployment_id [
  | none ↦ true
  | some d ↦ any (λ row. is_deployment d row && (row.server_id == g.server_id)) rows
]

abbrev pub IsBacked : Db → Type 0
IsBacked db = All (λ g. backed db.deployments g ≡ true) db.gpus

backed-release :
    (d : Key) (rows : List Deployment) (g : Gpu)
    → backed rows g ≡ true
    → backed (filter (λ row. not (is_deployment d row)) rows) (release d g) ≡ true
unfolding release
backed-release d rows g h = elim (Option-cases g.deployment_id) [
  | inl free ↦ ground arith
  | inr (e, owner) ↦ elim (Bool-cases (e == d)) [
    | inl same ↦ ground arith
    | inr other ↦
        let kept =
          any-filter (λ row. is_deployment e row && (row.server_id == g.server_id))
            (λ row. not (is_deployment d row)) (λ row m. ground arith) rows in
        ground (arith, kept)
  ]
]

All-release :
    (d : Key) (rows : List Deployment) (gs : List Gpu)
    → All (λ g. backed rows g ≡ true) gs
    → All (λ g. backed (filter (λ row. not (is_deployment d row)) rows) g ≡ true) (release_all d gs)
unfolding release_all
All-release d rows [] h = tt
All-release d rows (g ∷ gs) h = (backed-release d rows g h.0, All-release d rows gs h.1)

pub delete_deployment-IsBacked :
    (d : Key) (db : Db) → IsBacked db → IsBacked (delete_deployment d db)
unfolding delete_deployment
delete_deployment-IsBacked d db h = All-release d db.deployments db.gpus h

pub delete_deployments-IsBacked :
    (rows : List Deployment) (db : Db) → IsBacked db → IsBacked (delete_deployments rows db)
unfolding delete_deployments
delete_deployments-IsBacked [] db h = h
delete_deployments-IsBacked (row ∷ rows) db h =
    delete_deployments-IsBacked rows (delete_deployment row.deployment_id db)
      (delete_deployment-IsBacked row.deployment_id db h)

pub delete_gpu-IsBacked : (g : Key) (db : Db) → IsBacked db → IsBacked (delete_gpu g db)
unfolding delete_gpu
delete_gpu-IsBacked g db h =
    All-filter (λ row. backed db.deployments row ≡ true) (λ row. not (row.gpu_id == g)) db.gpus h

pub delete_chute-IsBacked : (c : Key) (db : Db) → IsBacked db → IsBacked (delete_chute c db)
unfolding delete_chute
delete_chute-IsBacked c db h =
    delete_deployments-IsBacked (filter (λ d. d.chute_id == c) db.deployments) db h

pub delete_server-IsBacked : (s : Key) (db : Db) → IsBacked db → IsBacked (delete_server s db)
unfolding delete_server
delete_server-IsBacked s db h =
    let rows = server_deployments s db.deployments in
    All-filter (λ g. backed (delete_deployments rows db).deployments g ≡ true)
      (λ g. not (g.server_id == s)) (delete_deployments rows db).gpus
      (delete_deployments-IsBacked rows db h)

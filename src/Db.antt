-- ===== src/Db.antt =====
-- The database that the miner's components share: the four tables of chutes_common/schemas, with
-- the foreign keys' ON DELETE rules, and the queries by key that the handlers make.
-- A table is the list of its rows. A query or an update is a recursion over the rows.
pub mod Release
pub mod Integrity
use chutes_miner.Prelude.{
  ℕ, Bool, true, false, not, ◌&&◌, Option, none, some, List, [], ◌∷◌, ◌++◌, map, ◌==◌, is_key,
  is_none, if◌then◌else◌, filter, find?, count,
}
use chutes_miner.Schema.{Key, Chute, Gpu, Server, Deployment}

pub record Db : Type 0 where
  pub chutes : List Chute
  pub servers : List Server
  pub gpus : List Gpu
  pub deployments : List Deployment

-- `GPU.deployment_id == d`
abbrev pub owned_by : Key → Gpu → Bool
owned_by d g = is_key g.deployment_id d

abbrev pub is_deployment : Key → Deployment → Bool
is_deployment d row = row.deployment_id == d

-- `Server.gpus`, the relationship.
abbrev pub server_gpus : Key → List Gpu → List Gpu
server_gpus s = filter (λ g. g.server_id == s)

-- `Server.deployments`, the relationship.
abbrev pub server_deployments : Key → List Deployment → List Deployment
server_deployments s = filter (λ d. d.server_id == s)

-- GPU.deployment_id's ON DELETE SET NULL.
unfoldable pub release : Key → Gpu → Gpu
release d g = if owned_by d g then record g { deployment_id = none } else g

unfoldable pub release_all : Key → List Gpu → List Gpu
release_all d = map (release d)

-- `session.delete(deployment)`.
unfoldable pub delete_deployment : Key → Db → Db
delete_deployment d db = record db {
  deployments = filter (λ row. not (is_deployment d row)) db.deployments;
  gpus = release_all d db.gpus;
}

-- Deployment rows of a list are deleted one by one.
unfoldable pub delete_deployments : List Deployment → Db → Db
delete_deployments [] db = db
delete_deployments (d ∷ ds) db = delete_deployments ds (delete_deployment d.deployment_id db)

-- `session.delete(gpu)`.
unfoldable pub delete_gpu : Key → Db → Db
delete_gpu g db = record db { gpus = filter (λ row. not (row.gpu_id == g)) db.gpus }

-- `session.delete(chute)`: the relationship's cascade deletes its deployments.
unfoldable pub delete_chute : Key → Db → Db
delete_chute c db =
    let db' = delete_deployments (filter (λ d. d.chute_id == c) db.deployments) db in
    record db' { chutes = filter (λ row. not (row.chute_id == c)) db'.chutes }

-- `session.delete(server)`: the cascades delete its deployments and its GPUs.
unfoldable pub delete_server : Key → Db → Db
delete_server s db =
    let db' = delete_deployments (server_deployments s db.deployments) db in
    record db' {
      servers = filter (λ row. not (row.server_id == s)) db'.servers;
      gpus = filter (λ g. not (g.server_id == s)) db'.gpus;
    }

-- `UPDATE deployments SET ... WHERE ...`.
abbrev pub update_rows : (Deployment → Bool) → (Deployment → Deployment) → Db → Db
update_rows p f db = record db { deployments = map (λ d. if p d then f d else d) db.deployments }

-- How many GPUs belong to a deployment: `len(deployment.gpus)`.
abbrev pub owned : Key → Db → ℕ
owned d db = count (owned_by d) db.gpus

-- Queries by primary key.
abbrev pub find_deployment : Key → Db → Option Deployment
find_deployment d db = find? (is_deployment d) db.deployments

abbrev pub find_chute : Key → Db → Option Chute
find_chute c db = find? (λ row. row.chute_id == c) db.chutes

abbrev pub find_server : Key → Db → Option Server
find_server s db = find? (λ row. row.server_id == s) db.servers

abbrev pub find_gpu : Key → Db → Option Gpu
find_gpu g db = find? (λ row. row.gpu_id == g) db.gpus

-- What `scalar_one_or_none` says of the rows that a query finds.
pub data OneOrNone (A : Type 0) : Type 0 where
  no_row : OneOrNone A
  one_row : A → OneOrNone A
  many_rows : OneOrNone A

abbrev pub scalar_one_or_none : {A : Type 0} → List A → OneOrNone A
scalar_one_or_none [] = no_row
scalar_one_or_none (x ∷ []) = one_row x
scalar_one_or_none (x ∷ y ∷ xs) = many_rows

-- ===== src/Operator/Success.antt =====
-- When deploy_chute returns a deployment.
use native.Mathlib.Nat.{le_trans}
use chutes_miner.Prelude.{
  Bool, List, arith, contains, count, count-filter, count_le, filter, filter-congr, filter-filter,
  leb, length, length-filter, length-map, some, true, ℕ, ◌&&◌, ◌==◌, ◌∙◌, ◌≡◌, ◌≤◌,
}
use chutes_miner.Schema.{Chute, Deployment, Gpu, Key, Server}
use chutes_miner.Db.{Db, find_chute, find_server, server_gpus}
use chutes_miner.State.{Effect, State, logged, service_created}
use chutes_miner.Operator.{
  Cluster, Request, after_session, begin_deployment, claimed, deploy_chute, finish_deployment,
  gpu_candidates, is_available, ok, started, stub_deployment, track_deployment, verify_gpus,
}
use chutes_miner.Operator.Claim.{IsKeyed}
use chutes_miner.Operator.Candidates.{claimed-take, contains-filtered, ids_of}
use chutes_miner.Operator.Finish.{IsFresh, tracked, undisturbed, update-tracked}

server_gpus-IsKeyed : (sid : Key) (gs : List Gpu) → IsKeyed gs → IsKeyed (server_gpus sid gs)
server_gpus-IsKeyed sid gs keyed i =
    rw (count-filter (λ g. g.gpu_id == i) (λ g. g.server_id == sid) gs) (
      le_trans
        (count_le (λ g. (g.server_id == sid) && (g.gpu_id == i)) (λ g. g.gpu_id == i)
          (λ g h. ground arith) gs)
        (keyed i))

-- What verify_gpus accepts can be claimed, if nothing happens in between.
verify_gpus-claimed :
    (chute : Chute) (sid : Key) (gs : List Gpu)
    → IsKeyed gs
    → chute.gpu_count ≤ count is_available (server_gpus sid gs)
    → chute.gpu_count
      ≤ claimed
          (gpu_candidates chute
            (server_gpus sid gs)
            (ids_of (filter is_available (server_gpus sid gs))))
          gs
unfolding gpu_candidates
verify_gpus-claimed chute sid gs keyed enough =
    let own : Gpu → Bool = λ g. g.server_id == sid in
    let here = server_gpus sid gs in
    rw
      (
        filter-congr (λ g. contains g.gpu_id (ids_of (filter is_available here))) is_available here
            (contains-filtered is_available here (server_gpus-IsKeyed sid gs keyed)),
        filter-filter is_available own gs,
      )
      (claimed-take (λ g. own g && is_available g) (λ g h. ground arith) gs chute.gpu_count
        (omega (arith, count-filter is_available own gs)))

-- Kubernetes accepts every service and every job.
pub record IsWilling (k : Cluster) : Type 0 where
  pub service : (s : State) (d : Key) → (port : ℕ) × (k.deploy_service s d ≡ some port)
  pub job : (s : State) (d : Key) → k.deploy_job s d ≡ true

finish_deployment_succeeds :
    (k : Cluster) (ids : List Key) (row : Deployment) (server : Server) (db : Db)
    (log : List Effect)
    → IsFresh row.deployment_id db
    → IsWilling k
    → (row' : Deployment) × ((finish_deployment k undisturbed row.deployment_id server
          (record { db = tracked ids row db; log = log })).0
        ≡ ok row')
unfolding finish_deployment
finish_deployment_succeeds k ids row server db log fresh willing =
    let d = row.deployment_id in
    let s : State = record { db = tracked ids row db; log = log } in
    let (port, made) = willing.service s d in
    (
      started server port row,
      ground (
        arith,
        made,
        willing.job (logged (service_created d) s) d,
        update-tracked ids row server port db fresh,
      ),
    )

module _ (k : Cluster) (r : Request) (s : State) (chute : Chute) (server : Server) where
  -- deploy_chute with no other task in between returns a deployment if the chute and the server
  -- are in the database, the GPU ids are unique, the new id is new, the server has as many verified
  -- and unassigned GPUs as the chute asks for, its node has the disk space, and kubernetes accepts
  -- the service and the job.
  pub deploy_chute_succeeds :
      find_chute r.chute_id s.db ≡ some chute
      → find_server r.server_id s.db ≡ some server
      → IsKeyed s.db.gpus
      → IsFresh (k.new_id s) s.db
      → chute.gpu_count ≤ count is_available (server_gpus server.server_id s.db.gpus)
      → leb r.disk_gb (k.available_gb s server.name) ≡ true
      → IsWilling k
      → (row : Deployment) × ((deploy_chute k undisturbed r s).0 ≡ ok row)
  unfolding deploy_chute after_session begin_deployment track_deployment verify_gpus
  deploy_chute_succeeds known found keyed fresh enough roomy willing =
      let gpus = server_gpus server.server_id s.db.gpus in
      let available = ids_of (filter is_available gpus) in
      let ids = gpu_candidates chute gpus available in
      let row = stub_deployment (k.new_id s) chute server r.job_id r.config_id (k.now s) in
      let s' : State = record s { db = tracked ids row s.db } in
      let n : length available ≡ count is_available gpus =
        length-map (λ (g : Gpu). g.gpu_id) (filter is_available gpus)
        ∙ length-filter is_available gpus in
      let begun : begin_deployment k undisturbed r s ≡ (ok (k.new_id s, server), s') =
        ground
          (arith, n, roomy, verify_gpus-claimed chute server.server_id s.db.gpus keyed enough) in
      let (row', done) = finish_deployment_succeeds k ids row server s.db s.log fresh willing in
      (row', rw (begun, after_session) done)

-- ===== src/Operator.antt =====
-- K8sOperator.deploy_chute and the steps that it is made of:
-- src/chutes-miner/chutes_miner/api/k8s/operator.py.
--
-- deploy_chute awaits twice where other tasks of the process may change the database: while it
-- reads the node's disk space, and while it creates the service and the job. What they do there is
-- a function of an `Interleaving`. An exception of a step is a `Failure`; deploy_chute turns each
-- into a DeploymentFailure after it has cleaned up.
pub mod Claim
pub mod Candidates
pub mod Finish
pub mod Deploy
pub mod Success
pub mod Interference
pub mod Returned
pub mod Named
pub mod Tests
use chutes_miner.Prelude.{
  ℕ, Bool, true, false, not, ◌&&◌, Option, none, some, ◌≡◌, refl, ◌⊎◌, inl, inr, List, [], ◌∷◌,
  ◌++◌, map, ltb, leb, ◌==◌, is_some, is_none, if◌then◌else◌, length, filter, count, take, contains,
}
use chutes_miner.Schema.{Key, Chute, Gpu, Server, Deployment}
use chutes_miner.Db.{
  Db, server_gpus, delete_deployment, find_chute, find_server, find_deployment, is_deployment,
}
use chutes_miner.State.{
  Effect, State, logged, service_created, job_created, service_deleted, job_deleted,
}

pub data Failure : Type 0 where
  chute_missing server_missing gpus_missing disk_missing contention service_failed job_failed
        disappeared :
      Failure

pub data Result {ℓ} (A : Type ℓ) : Type ℓ where
  ok : A → Result A
  err : Failure → Result A

pub Result-cases {ℓ} :
    {A : Type ℓ} (m : Result A) → ((e : Failure) × (m ≡ err e)) ⊎ ((a : A) × (m ≡ ok a))
Result-cases (ok a) = inr (a, refl)
Result-cases (err e) = inl (e, refl)

-- `gpu.verified and gpu.deployment_id is None`
abbrev pub is_available : Gpu → Bool
is_available g = g.verified && is_none g.deployment_id

-- K8sOperator._verify_gpus: the ids of the GPUs that can be assigned.
unfoldable pub verify_gpus : Chute → List Gpu → Result (List Key)
verify_gpus chute gpus =
    let available = map (λ (g : Gpu). g.gpu_id) (filter is_available gpus) in
    if ltb (length available) chute.gpu_count then err gpus_missing else ok available

-- The ids that _track_deployment chooses from the server's GPUs, as they were read.
unfoldable pub gpu_candidates : Chute → List Gpu → List Key → List Key
gpu_candidates chute gpus available =
    map (λ (g : Gpu). g.gpu_id)
      (take chute.gpu_count (filter (λ g. contains g.gpu_id available) gpus))

-- `GPU.gpu_id.in_(gpu_ids), GPU.deployment_id.is_(None)`
abbrev pub is_claimable : List Key → Gpu → Bool
is_claimable ids g = contains g.gpu_id ids && is_none g.deployment_id

-- The UPDATE of _track_deployment.
unfoldable pub claim : List Key → Key → List Gpu → List Gpu
claim ids d [] = []
claim ids d (g ∷ gs) =
    (if is_claimable ids g then record g { deployment_id = some d } else g) ∷ claim ids d gs

-- Its `rowcount`.
abbrev pub claimed : List Key → List Gpu → ℕ
claimed ids = count (is_claimable ids)

-- The row that _track_deployment adds.
abbrev pub stub_deployment :
    Key → Chute → Server → (job config : Option Key) → (now : ℕ) → Deployment
stub_deployment d chute server job config now = record {
  deployment_id = d;
  instance_id = none;
  validator = server.validator;
  host = none;
  port = none;
  chute_id = chute.chute_id;
  server_id = server.server_id;
  version = chute.version;
  active = false;
  verified_at = none;
  activated_at = none;
  stub = true;
  job_id = job;
  config_id = config;
  created_at = now;
  preemptible = chute.preemptible;
}

-- K8sOperator._track_deployment on the database as it is at the UPDATE, for GPU ids that were
-- chosen earlier. Without the commit nothing is kept.
unfoldable pub track_deployment :
    Chute → (ids : List Key) → (row : Deployment) → Db → Result (Unit {0}) × Db
track_deployment chute ids row db =
    if ltb (claimed ids db.gpus) chute.gpu_count then (err contention, db) else (
      ok tt,
      record db {
        deployments = db.deployments ++ row ∷ [];
        gpus = claim ids row.deployment_id db.gpus;
      },
    )

-- K8sOperator._clear_deployment
unfoldable pub clear_deployment : Key → Db → Db
clear_deployment d db = if is_some (find_deployment d db) then delete_deployment d db else db

-- The fields that _update_deployment sets.
abbrev pub started : Server → (port : ℕ) → Deployment → Deployment
started server port row = record row { host = server.ip_address; port = some port; stub = false }

unfoldable pub set_started : Key → Server → ℕ → List Deployment → List Deployment
set_started d server port [] = []
set_started d server port (row ∷ rows) =
    (if is_deployment d row then started server port row else row) ∷ set_started d server port rows

-- K8sOperator._update_deployment
unfoldable pub update_deployment : Key → Server → ℕ → Db → Result Deployment × Db
unfolding set_started
update_deployment d server port db = elim (find_deployment d db) [
  | none ↦ (err disappeared, db)
  | some row ↦ (
    ok (started server port row),
    record db { deployments = set_started d server port db.deployments },
  )
]

-- What the operator asks of kubernetes and of the process: the space left on a node, the service's
-- node port (`none`: it was not created), whether the job was created, a new uuid and the time.
pub record Cluster : Type 0 where
  pub available_gb : State → Key → ℕ
  pub deploy_service : State → Key → Option ℕ
  pub deploy_job : State → Key → Bool
  pub new_id : State → Key
  pub now : State → ℕ

-- What other tasks do to the state across the two waits.
pub record Interleaving : Type 0 where
  pub during_disk_check : State → State
  pub during_creation : State → State

-- K8sOperator.check_node_has_disk_available
abbrev pub check_node_has_disk_available : Cluster → State → Key → ℕ → Bool
check_node_has_disk_available k s node required = leb required (k.available_gb s node)

-- A request for deploy_chute: its arguments.
pub record Request : Type 0 where
  pub chute_id : Key
  pub server_id : Key
  pub job_id : Option Key
  pub config_id : Option Key
  pub disk_gb : ℕ

-- The cleanup of the `except` branch: the row, the service and the job, each if it was made.
unfoldable pub clean_up : Key → (service job : Bool) → State → State
unfolding clear_deployment
clean_up d service job s =
    let s1 : State = record s { db = clear_deployment d s.db } in
    let s2 = if service then logged (service_deleted d) s1 else s1 in
    if job then logged (job_deleted d) s2 else s2

module _ (k : Cluster) (others : Interleaving) where
  -- The part of deploy_chute in the session: up to the commit. It yields the new id and the server.
  unfoldable pub begin_deployment : Request → State → Result (Key × Server) × State
  begin_deployment r s = elim (find_chute r.chute_id s.db) [
    | none ↦ (err chute_missing, s)
    | some chute ↦ elim (find_server r.server_id s.db) [
      | none ↦ (err server_missing, s)
      | some server ↦
          let gpus = server_gpus server.server_id s.db.gpus in
          elim (verify_gpus chute gpus) [
            | err e ↦ (err e, s)
            | ok available ↦
                let s' = others.during_disk_check s in
                if check_node_has_disk_available k s server.name r.disk_gb
                then (let d = k.new_id s' in
                    let row = stub_deployment d chute server r.job_id r.config_id (k.now s') in
                    let (tracked, db) =
                      track_deployment chute (gpu_candidates chute gpus available) row s'.db in
                    let s'' : State = record s' { db = db } in
                    elim tracked [ ok _ ↦ (ok (d, server), s'') | err e ↦ (err e, s'') ])
                else (err disk_missing, s')
          ]
    ]
  ]

  -- The rest of deploy_chute: the service, the job, the update, and the cleanup if one fails.
  unfoldable pub finish_deployment : Key → Server → State → Result Deployment × State
  finish_deployment d server s = elim (k.deploy_service s d) [
    | none ↦ (err service_failed, clean_up d false false s)
    | some port ↦
        let s1 = logged (service_created d) s in
        if k.deploy_job s1 d
        then (let s2 = others.during_creation (logged (job_created d) s1) in
            let (updated, db) = update_deployment d server port s2.db in
            let s3 : State = record s2 { db = db } in
            elim updated [ ok row ↦ (ok row, s3) | err e ↦ (err e, clean_up d true true s3) ])
        else (err job_failed, clean_up d true false s1)
  ]

  -- deploy_chute after its session: nothing was made if that failed.
  unfoldable pub after_session : Result (Key × Server) × State → Result Deployment × State
  after_session (ok (d, server), s) = finish_deployment d server s
  after_session (err e, s) = (err e, s)

  -- K8sOperator.deploy_chute
  unfoldable pub deploy_chute : Request → State → Result Deployment × State
  deploy_chute r s = after_session (begin_deployment r s)

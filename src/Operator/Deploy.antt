-- ===== src/Operator/Deploy.antt =====
-- K8sOperator.deploy_chute as a transaction.
use chutes_miner.Prelude.{
  Bool-cases, List, Option-cases, arith, false, inl, inr, leb, ltb, refl, some, ℕ, ◌≡◌, ◌≢◌,
}
use chutes_miner.Schema.{Chute, Deployment, Gpu, Key, Server}
use chutes_miner.Db.{Db, find_chute, find_deployment, find_server, owned, server_gpus}
use chutes_miner.State.{State}
use chutes_miner.Operator.{
  Cluster, Request, Result, Result-cases, after_session, begin_deployment, claimed, contention,
  deploy_chute, err, gpu_candidates, ok, stub_deployment, track_deployment, verify_gpus,
}
use chutes_miner.Operator.Claim.{
  IsKeyed, claimed-le-length, count-claim_ne, count-claim_self, length-gpu_candidates,
}
use chutes_miner.Operator.Finish.{
  Finished, IsFresh, finish_deployment-Finished, tracked, undisturbed,
}

-- How a call that began at `s` ended, for a request of `n` GPUs with the new id `d`.
abbrev pub Deployed : Key → ℕ → Db → Result Deployment × State → Type 0
Deployed d n db (ok row, s) =
    (row.deployment_id ≡ d)
    × (find_deployment d s.db ≡ some row)
    × (owned d s.db ≡ n)
    × ((e : Key) → d ≢ e → owned e s.db ≡ owned e db)
Deployed d n db (err e, s) = s.db ≡ db

Finished-Deployed :
    (ids : List Key) (row : Deployment) (n : ℕ) (db : Db) (r : Result Deployment × State)
    → IsFresh row.deployment_id db
    → claimed ids db.gpus ≡ n
    → Finished ids row db r
    → Deployed row.deployment_id n db r
Finished-Deployed ids row n db (ok row', s) h c (named, gpus, found) = (
  named,
  found,
  rw gpus (omega (arith, count-claim_self ids row.deployment_id db.gpus, h.1)),
  λ e ne. rw gpus (count-claim_ne ids row.deployment_id e db.gpus ne),
)
Finished-Deployed ids row n db (err e, s) h c f = f

-- With unique GPU ids a claim that is large enough takes exactly the GPUs asked for.
claimed-candidates :
    (chute : Chute) (gs gpus : List Gpu) (available : List Key)
    → IsKeyed gpus
    → ltb (claimed (gpu_candidates chute gs available) gpus) chute.gpu_count ≡ false
    → claimed (gpu_candidates chute gs available) gpus ≡ chute.gpu_count
claimed-candidates chute gs gpus available keyed h =
    let ids = gpu_candidates chute gs available in
    ground (arith, claimed-le-length ids gpus keyed, length-gpu_candidates chute gs available)

-- What begin_deployment has done.
abbrev Begun : Key → ℕ → Db → Result (Key × Server) × State → Type 0
Begun d n db (ok (d', server), s) =
    (ids : List Key) × (row : Deployment) × (d' ≡ row.deployment_id)
    × (row.deployment_id ≡ d)
    × (claimed ids db.gpus ≡ n)
    × (s.db ≡ tracked ids row db)
Begun d n db (err e, s) = s.db ≡ db

after_session-Deployed :
    (k : Cluster) (d : Key) (n : ℕ) (db : Db) (b : Result (Key × Server) × State)
    → IsFresh d db
    → Begun d n db b
    → Deployed d n db (after_session k undisturbed b)
unfolding after_session
after_session-Deployed k d n db (err e, s) fresh same = same
after_session-Deployed k d n db (ok (d', server), s) fresh (ids, row, named, new, taken, at) =
    let fresh' : IsFresh row.deployment_id db = rw new fresh in
    let s' : State = record { db = tracked ids row db; log = s.log } in
    let e : s ≡ s' = ground (arith, at) in
    rw (e, named, ← new)
      (Finished-Deployed ids row n db _ fresh' taken
        (finish_deployment-Finished k ids row server db s.log fresh'))

module _ (k : Cluster) (r : Request) (s : State) (chute : Chute)
    (known : find_chute r.chute_id s.db ≡ some chute) (keyed : IsKeyed s.db.gpus) where
  begin_deployment-Begun :
      Begun (k.new_id s) chute.gpu_count s.db (begin_deployment k undisturbed r s)
  unfolding begin_deployment track_deployment
  begin_deployment-Begun = elim (Option-cases (find_server r.server_id s.db)) [
    | inl missing ↦ rw (known, missing, begin_deployment) refl
    | inr (server, found) ↦
        let gpus = server_gpus server.server_id s.db.gpus in
        elim (Result-cases (verify_gpus chute gpus)) [
          | inl (e, failed) ↦ rw (known, found, failed, begin_deployment) refl
          | inr (available, passed) ↦
              let ids = gpu_candidates chute gpus available in
              let row = stub_deployment (k.new_id s) chute server r.job_id r.config_id (k.now s) in
              elim (Bool-cases (leb r.disk_gb (k.available_gb s server.name))) [
                | inl roomy ↦ elim (Bool-cases (ltb (claimed ids s.db.gpus) chute.gpu_count)) [
                  | inl contended ↦
                      let e : begin_deployment k undisturbed r s ≡ (err contention, s) =
                        ground arith in
                      rw e refl
                  | inr free ↦
                      let s' : State = record s { db = tracked ids row s.db } in
                      let e : begin_deployment k undisturbed r s ≡ (ok (k.new_id s, server), s') =
                        ground arith in
                      rw e (
                        ids,
                        row,
                        refl,
                        refl,
                        claimed-candidates chute gpus s.db.gpus available keyed free,
                        refl,
                      )
                ]
                | inr full ↦ rw (known, found, passed, full, begin_deployment) refl
              ]
        ]
  ]

  -- deploy_chute with no other task in between, for a known chute, on a database whose GPU ids are
  -- unique, with a new id. If it returns a deployment, that row is in the database under the new
  -- id, it owns exactly the GPUs that the chute asks for, and every other deployment owns as many
  -- as before. If it raises, at whatever step, the database is what it was.
  pub deploy_chute-Deployed :
      IsFresh (k.new_id s) s.db
      → Deployed (k.new_id s) chute.gpu_count s.db (deploy_chute k undisturbed r s)
  unfolding deploy_chute
  deploy_chute-Deployed fresh =
      after_session-Deployed k (k.new_id s) chute.gpu_count s.db
        (begin_deployment k undisturbed r s) fresh begin_deployment-Begun

-- ===== src/Operator/Returned.antt =====
-- What a deployment that deploy_chute returns says of the database.
use mathlib.Core.Path.{subst, sym}
use chutes_miner.Prelude.{
  Bool-cases, Option-cases, arith, false, find?-eq-some, inl, inr, is_some, none, refl, some, true,
  ℕ, ◌≡◌,
}
use chutes_miner.Schema.{Deployment, Key, Server}
use chutes_miner.Db.{Db, find_deployment, is_deployment}
use chutes_miner.State.{State, job_created, logged, service_created}
use chutes_miner.Operator.{
  Cluster, Interleaving, Request, Result, after_session, begin_deployment, deploy_chute,
  disappeared, err, finish_deployment, ok, set_started, started, update_deployment,
}
use chutes_miner.Operator.Finish.{find-set_started}

-- A row that was returned is in the database under its id, with a port, and is no stub.
abbrev pub IsReturned : Result Deployment × State → Type 0
IsReturned (err e, s) = Unit
IsReturned (ok row, s) =
    (find_deployment row.deployment_id s.db ≡ some row)
    × (is_some row.port ≡ true)
    × (row.stub ≡ false)

update_deployment-absent :
    (d : Key) (server : Server) (port : ℕ) (db : Db)
    → find_deployment d db ≡ none
    → update_deployment d server port db ≡ (err disappeared, db)
unfolding update_deployment
update_deployment-absent d server port db h = ground (arith, h)

update_deployment-present :
    (d : Key) (server : Server) (port : ℕ) (db : Db) (row : Deployment)
    → find_deployment d db ≡ some row
    → update_deployment d server port db ≡ (
      ok (started server port row),
      record db { deployments = set_started d server port db.deployments },
    )
unfolding update_deployment
update_deployment-present d server port db row h = ground (arith, h)

module _ (k : Cluster) (others : Interleaving) where
  finish_deployment-IsReturned :
      (d : Key) (server : Server) (s : State) → IsReturned (finish_deployment k others d server s)
  unfolding finish_deployment
  finish_deployment-IsReturned d server s = elim (Option-cases (k.deploy_service s d)) [
    | inl failed ↦ rw (failed, finish_deployment, IsReturned) tt
    | inr (port, made) ↦
        let s1 = logged (service_created d) s in
        elim (Bool-cases (k.deploy_job s1 d)) [
          | inr failed ↦ rw (made, failed, finish_deployment, IsReturned) tt
          | inl job ↦
              let s2 = others.during_creation (logged (job_created d) s1) in
              elim (Option-cases (find_deployment d s2.db)) [
                | inl absent ↦
                    let e : update_deployment d server port s2.db ≡ (err disappeared, s2.db) =
                      update_deployment-absent d server port s2.db absent in
                    rw (made, job, e, finish_deployment, IsReturned) tt
                | inr (row, present) ↦
                    let own : row.deployment_id ≡ d =
                      ground
                        (arith, find?-eq-some (is_deployment d) s2.db.deployments row present) in
                    let e : update_deployment d server port s2.db ≡ (
                      ok (started server port row),
                      record s2.db { deployments = set_started d server port s2.db.deployments },
                    ) =
                      update_deployment-present d server port s2.db row present in
                    let t : State = record s2 {
                      db = record s2.db {
                        deployments = set_started d server port s2.db.deployments;
                      };
                    } in
                    let whole : finish_deployment k others d server s
                        ≡ (ok (started server port row), t) =
                      ground (arith, made, job, e) in
                    subst IsReturned (sym whole) (
                      subst (λ x. find_deployment x t.db ≡ some (started server port row)) (sym own)
                          (find-set_started d server port row s2.db.deployments present),
                      refl,
                      refl,
                    )
              ]
        ]
  ]

  pub after_session-IsReturned :
      (m : Result (Key × Server) × State) → IsReturned (after_session k others m)
  unfolding after_session
  after_session-IsReturned (ok (d, server), s) = finish_deployment-IsReturned d server s
  after_session-IsReturned (err e, s) = tt

  -- Whatever other tasks do while deploy_chute waits: a deployment that it returns has a row in the
  -- database, the one that was returned, with a port, and it is not a stub.
  pub deploy_chute-IsReturned :
      (r : Request) (s s' : State) (row : Deployment)
      → deploy_chute k others r s ≡ (ok row, s')
      → (find_deployment row.deployment_id s'.db ≡ some row)
        × (is_some row.port ≡ true)
        × (row.stub ≡ false)
  unfolding deploy_chute
  deploy_chute-IsReturned r s s' row e =
      subst IsReturned e (after_session-IsReturned (begin_deployment k others r s))

-- ===== src/Operator/Interference.antt =====
-- deploy_chute while other tasks change the database at its waits.
use chutes_miner.Prelude.{
  Bool, Bool-cases, List, Option-cases, arith, false, find?-reject, inl, inr, some, true, ℕ, ◌≡◌,
  ◌≢◌, ◌≤◌,
}
use chutes_miner.Schema.{Chute, Key, Server}
use chutes_miner.Db.{
  Db, delete_deployment, find_chute, find_deployment, find_server, is_deployment, owned,
  server_gpus,
}
use chutes_miner.Db.Release.{IsGone, IsLinked, count-release_all_self}
use chutes_miner.State.{State, job_created, logged, service_created}
use chutes_miner.Operator.{
  Cluster, Failure, Interleaving, Request, Result-cases, begin_deployment, claim, claimed, clean_up,
  clear_deployment, err, finish_deployment, gpu_candidates, ok, track_deployment, update_deployment,
  verify_gpus,
}
use chutes_miner.Operator.Claim.{count-claim_ne, count-claim_self}

clear_deployment-IsGone : (d : Key) (db : Db) → IsLinked d db → IsGone d (clear_deployment d db)
unfolding clear_deployment delete_deployment
clear_deployment-IsGone d db h = elim (Option-cases (find_deployment d db)) [
  | inl absent ↦ rw (absent, clear_deployment) (absent, h absent)
  | inr (row, present) ↦
      rw (present, clear_deployment)
        (find?-reject (is_deployment d) db.deployments, count-release_all_self d db.gpus)
]

clean_up-IsGone :
    (d : Key) (service job : Bool) (s : State)
    → IsLinked d s.db
    → IsGone d (clean_up d service job s).db
unfolding clean_up
clean_up-IsGone d true true s h = clear_deployment-IsGone d s.db h
clean_up-IsGone d true false s h = clear_deployment-IsGone d s.db h
clean_up-IsGone d false true s h = clear_deployment-IsGone d s.db h
clean_up-IsGone d false false s h = clear_deployment-IsGone d s.db h

update_deployment-err :
    (d : Key) (server : Server) (port : ℕ) (db : Db) {e : Failure}
    → (update_deployment d server port db).0 ≡ err e
    → (update_deployment d server port db).1 ≡ db
unfolding update_deployment
update_deployment-err d server port db h = ground arith

module _ (k : Cluster) (others : Interleaving) where
  -- Whatever other tasks do to the database while the service and the job are created, provided
  -- that they keep the foreign key: when the rest of deploy_chute fails, the new deployment has no
  -- row and owns no GPU. (The foreign key: without a row it owns no GPU. It holds before.)
  pub finish_deployment-IsGone :
      (d : Key) (server : Server) (s : State) (e : Failure)
      → IsLinked d s.db
      → ((u : State) → IsLinked d u.db → IsLinked d (others.during_creation u).db)
      → (finish_deployment k others d server s).0 ≡ err e
      → IsGone d (finish_deployment k others d server s).1.db
  unfolding finish_deployment
  finish_deployment-IsGone d server s e linked keep failed =
      elim (Option-cases (k.deploy_service s d)) [
        | inl none_made ↦ rw (none_made, finish_deployment) (clean_up-IsGone d false false s linked)
        | inr (port, made) ↦
            let s1 = logged (service_created d) s in
            elim (Bool-cases (k.deploy_job s1 d)) [
              | inl job ↦
                  let s2 = others.during_creation (logged (job_created d) s1) in
                  let s3 : State = record s2 { db = (update_deployment d server port s2.db).1 } in
                  elim (Result-cases (update_deployment d server port s2.db).0) [
                    | inl (e', missed) ↦
                        let same : finish_deployment k others d server s
                            ≡ (err e', clean_up d true true s3) =
                          ground arith in
                        rw same (
                          clean_up-IsGone d true true s3 (
                            rw (update_deployment-err d server port s2.db missed)
                              (keep (logged (job_created d) s1) linked)))
                    | inr (row, done) ↦
                        let ran : (finish_deployment k others d server s).0 ≡ ok row =
                          ground arith in
                        cc
                  ]
              | inr no_job ↦
                  rw (made, no_job, finish_deployment) (clean_up-IsGone d true false s1 linked)
            ]
      ]

  -- What a committed session has claimed, and of what.
  begin_deployment-claim :
      (r : Request) (s t : State) (chute : Chute) (d : Key) (server : Server)
      → find_chute r.chute_id s.db ≡ some chute
      → begin_deployment k others r s ≡ (ok (d, server), t)
      → (ids : List Key) × (chute.gpu_count ≤ claimed ids (others.during_disk_check s).db.gpus)
        × (t.db.gpus ≡ claim ids d (others.during_disk_check s).db.gpus)
  unfolding begin_deployment track_deployment
  begin_deployment-claim r s t chute d server known done =
      elim (Option-cases (find_server r.server_id s.db)) [
        | inl missing ↦ absurd (ground arith)
        | inr (server', found) ↦
            let gpus = server_gpus server'.server_id s.db.gpus in
            elim (Result-cases (verify_gpus chute gpus)) [
              | inl (e, failed) ↦ absurd (ground arith)
              | inr (available, passed) ↦
                  (gpu_candidates chute gpus available, ground arith, ground arith)
            ]
      ]

  -- Between reading the server's GPUs and the claim other tasks may have assigned some of them.
  -- When the claim is committed all the same, the new deployment owns at least as many GPUs as the
  -- chute asks for, and none of them was taken from another deployment: each owns as many as it did
  -- just before the claim.
  pub begin_deployment_no_steal :
      (r : Request) (s t : State) (chute : Chute) (d : Key) (server : Server)
      → find_chute r.chute_id s.db ≡ some chute
      → begin_deployment k others r s ≡ (ok (d, server), t)
      → (chute.gpu_count ≤ owned d t.db)
        × ((e : Key) → d ≢ e → owned e t.db ≡ owned e (others.during_disk_check s).db)
  begin_deployment_no_steal r s t chute d server known done =
      let gpus = (others.during_disk_check s).db.gpus in
      let (ids, enough, at) = begin_deployment-claim r s t chute d server known done in
      (
        rw at (omega (arith, enough, count-claim_self ids d gpus)),
        λ e ne. rw at (count-claim_ne ids d e gpus ne),
      )

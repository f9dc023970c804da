-- ===== src/Operator/Named.antt =====
-- Which row deploy_chute returns: the one that it has made for its request.
use chutes_miner.Prelude.{
  ==_refl, Option-cases, [], arith, find?, find?-append_new, find?-eq-none, find?-eq-some, inl, inr,
  none, refl, some, ℕ, ◌++◌, ◌==◌, ◌∷◌, ◌≡◌,
}
use chutes_miner.Schema.{Chute, Deployment, Key, Server}
use chutes_miner.Db.{find_chute, find_deployment, find_server, is_deployment, server_gpus}
use chutes_miner.State.{State, job_created, logged, service_created}
use chutes_miner.Operator.{
  Cluster, Interleaving, Request, Result, Result-cases, after_session, begin_deployment,
  deploy_chute, err, finish_deployment, ok, started, stub_deployment, track_deployment,
  update_deployment, verify_gpus,
}
use mathlib.Core.Path.{subst, sym}

-- A row is for a request.
pub record IsFor (r : Request) (row : Deployment) : Type 0 where
  pub job : row.job_id ≡ r.job_id
  pub chute : row.chute_id ≡ r.chute_id
  pub server : row.server_id ≡ r.server_id

-- What other tasks do while the service and the job are created leaves the columns of a row that say
-- what it is for, where the row is still there.
abbrev pub KeepsRows : Interleaving → Type 0
KeepsRows others =
    (u : State) (d : Key) (row row' : Deployment)
    → find_deployment d u.db ≡ some row
    → find_deployment d (others.during_creation u).db ≡ some row'
    → (row'.job_id ≡ row.job_id) × (row'.chute_id ≡ row.chute_id) × (row'.server_id ≡ row.server_id)

module _ (k : Cluster) (others : Interleaving) where
  -- The state in which the uuid is drawn.
  abbrev pub drawn_in : State → State
  drawn_in s = others.during_disk_check s

  stub_of : (d : Key) (server : Server) (s : State) → Request → Chute → Deployment
  stub_of d server s r chute =
      stub_deployment d chute server r.job_id r.config_id (k.now (drawn_in s))

  -- What a committed session has added.
  begin_deployment-row :
      (r : Request) (s t : State) (d : Key) (server : Server)
      → begin_deployment k others r s ≡ (ok (d, server), t)
      → (chute : Chute) × (find_chute r.chute_id s.db ≡ some chute)
        × (find_server r.server_id s.db ≡ some server)
        × (d ≡ k.new_id (drawn_in s))
        × (t.db.deployments ≡ (drawn_in s).db.deployments ++ stub_of d server s r chute ∷ [])
  unfolding begin_deployment track_deployment stub_of
  begin_deployment-row r s t d server done = elim (Option-cases (find_chute r.chute_id s.db)) [
    | inl missing ↦ absurd (ground arith)
    | inr (chute, known) ↦ elim (Option-cases (find_server r.server_id s.db)) [
      | inl missing ↦ absurd (ground arith)
      | inr (server', found) ↦
          elim (Result-cases (verify_gpus chute (server_gpus server'.server_id s.db.gpus))) [
            | inl (e, failed) ↦ absurd (ground arith)
            | inr (available, passed) ↦ (chute, known, ground arith, ground arith, ground arith)
          ]
    ]
  ]

  -- The row that is returned is the one with the id, as it was after the second wait, with its port.
  finish_deployment-row :
      (d : Key) (server : Server) (s t : State) (row : Deployment)
      → finish_deployment k others d server s ≡ (ok row, t)
      → let s2 = others.during_creation (logged (job_created d) (logged (service_created d) s)) in
        (port : ℕ) × (before : Deployment) × (find_deployment d s2.db ≡ some before)
        × (row ≡ started server port before)
  unfolding finish_deployment update_deployment
  finish_deployment-row d server s t row done =
      let s1 = logged (service_created d) s in
      let s2 = others.during_creation (logged (job_created d) s1) in
      elim (Option-cases (k.deploy_service s d)) [
        | inl failed ↦ absurd (ground arith)
        | inr (port, made) ↦ elim (Option-cases (find_deployment d s2.db)) [
          | inl absent ↦ absurd (ground arith)
          | inr (before, present) ↦ (port, before, present, ground arith)
        ]
      ]

  -- The tracked row is for the request.
  tracked-IsFor :
      (r : Request) (s t : State) (d : Key) (server : Server)
      → find_deployment (k.new_id (drawn_in s)) (drawn_in s).db ≡ none
      → begin_deployment k others r s ≡ (ok (d, server), t)
      → (row : Deployment) × (find_deployment d t.db ≡ some row)
        × IsFor r row
        × (d ≡ k.new_id (drawn_in s))
  unfolding stub_of
  tracked-IsFor r s t d server fresh done =
      let (chute, known, found, drawn, added) = begin_deployment-row r s t d server done in
      let row = stub_of d server s r chute in
      let u = (drawn_in s).db.deployments in
      let new : find? (is_deployment d) u ≡ none =
        subst (λ x. find? (is_deployment x) u ≡ none) (sym drawn) fresh in
      (
        row,
        subst (λ rows. find? (is_deployment d) rows ≡ some row) (sym added)
            (find?-append_new (is_deployment d) u row (find?-eq-none (is_deployment d) u new)
              (==_refl d)),
        record {
          job = refl;
          chute = ground (
            arith,
            find?-eq-some (λ (x : Chute). x.chute_id == r.chute_id) s.db.chutes chute known,
          );
          server = ground (
            arith,
            find?-eq-some (λ (x : Server). x.server_id == r.server_id) s.db.servers server found,
          );
        },
        drawn,
      )

  after_session-IsFor :
      (keeps : KeepsRows others) (r : Request) (s t : State) (row : Deployment)
      (m : Result (Key × Server) × State)
      → find_deployment (k.new_id (drawn_in s)) (drawn_in s).db ≡ none
      → begin_deployment k others r s ≡ m
      → after_session k others m ≡ (ok row, t)
      → (row.deployment_id ≡ k.new_id (drawn_in s)) × IsFor r row
  unfolding after_session
  after_session-IsFor keeps r s t row (err e, u) fresh begun done = absurd (ground arith)
  after_session-IsFor keeps r s t row (ok (d, server), u) fresh begun done =
      let s1 = logged (job_created d) (logged (service_created d) u) in
      let (first, tracked, purpose, drawn) = tracked-IsFor r s u d server fresh begun in
      let (port, before, present, same) = finish_deployment-row d server u t row done in
      let kept = keeps s1 d first before tracked present in
      let own =
        find?-eq-some (is_deployment d) (others.during_creation s1).db.deployments before present in
      (
        ground (arith, own, same, drawn),
        record {
          job = ground (arith, same, kept.0, purpose.job);
          chute = ground (arith, same, kept.1, purpose.chute);
          server = ground (arith, same, kept.2, purpose.server);
        },
      )

  -- A row that deploy_chute returns has the uuid that it drew, and is for the request.
  pub deploy_chute-IsFor :
      (keeps : KeepsRows others) (r : Request) (s t : State) (row : Deployment)
      → find_deployment (k.new_id (drawn_in s)) (drawn_in s).db ≡ none
      → deploy_chute k others r s ≡ (ok row, t)
      → (row.deployment_id ≡ k.new_id (drawn_in s)) × IsFor r row
  unfolding deploy_chute
  deploy_chute-IsFor keeps r s t row fresh done =
      after_session-IsFor keeps r s t row (begin_deployment k others r s) fresh refl done

-- ===== src/Placement/ScaleDown.antt =====
-- Which deployment Gepetto.optimal_scale_down_deployment gives up.
use mathlib.Core.Path.{subst}
use mathlib.Core.List.{head?}
use chutes_miner.Prelude.{
  All, All-append, All-both, All-filter, All-filter_self, All-map, All-sort_by, Bool, Bool-cases,
  List, Option, Option-cases, [], all, arith, count, count_le, false, filter, inl, inr, none, not,
  refl, some, sort_by, true, ℕ, ◌&&◌, ◌+◌, ◌∷◌, ◌≡◌, ◌≤◌,
}
use chutes_miner.Schema.{Chute, Deployment, Gpu, Server}
use chutes_miner.Db.{Db, find_server, owned, owned_by}
use chutes_miner.Placement.{
  JoinedRow, deployment_of, is_older_than, is_removable, join_all, join_gpus, min_age_to_remove,
  optimal_scale_down_deployment, scores_at_least,
}

-- The GPU is on a server that is not locked.
abbrev pub is_at_unlocked : Db → Gpu → Bool
is_at_unlocked db g = elim (find_server g.server_id db) [
  | none ↦ false
  | some server ↦ not server.locked
]

-- A deployment of the chute that may be removed.
pub record IsSpare (now : ℕ) (chute : Chute) (db : Db) (d : Deployment) : Type 0 where
  pub unlocked : 1 ≤ count (λ g. owned_by d.deployment_id g && is_at_unlocked db g) db.gpus
  pub preemptible : d.preemptible ≡ true
  pub own : d.chute_id ≡ chute.chute_id
  pub no_job : d.job_id ≡ none
  pub old : (t : ℕ) × (d.activated_at ≡ some t) × (t + min_age_to_remove ≤ now)
  pub has_gpus : 1 ≤ owned d.deployment_id db

-- What holds of every row holds of the first one's deployment.
All-head? :
    (P : JoinedRow → Type 0) (rows : List JoinedRow) (d : Deployment)
    → All P rows
    → deployment_of (head? rows) ≡ some d
    → (server : Server) × P (d, server)
All-head? P [] d h e = absurd (ground arith)
All-head? P ((x, server) ∷ rows) d h e =
    let same : x ≡ d = cc in (server, subst (λ y. P (y, server)) same h.0)

module _ (db : Db) where
  abbrev HasSeat : List Gpu → JoinedRow → Type 0
  HasSeat gs (d, server) =
      server.locked ≡ false → 1 ≤ count (λ g. owned_by d.deployment_id g && is_at_unlocked db g) gs

  join_gpus-HasSeat : (d : Deployment) (gs : List Gpu) → All (HasSeat gs) (join_gpus db d gs)
  unfolding join_gpus
  join_gpus-HasSeat d [] = tt
  join_gpus-HasSeat d (g ∷ gs) =
      let rest : All (HasSeat (g ∷ gs)) (join_gpus db d gs) =
        All-map (join_gpus db d gs) (λ x h unlocked. ground (arith, h unlocked))
          (join_gpus-HasSeat d gs) in
      elim (Bool-cases (owned_by d.deployment_id g)) [
        | inr other ↦ rw other rest
        | inl own ↦ elim (Option-cases (find_server g.server_id db)) [
          | inl missing ↦ rw (own, missing) rest
          | inr (server, found) ↦ rw (own, found) (λ unlocked. ground arith, rest)
        ]
      ]

  join_all-HasSeat : (ds : List Deployment) → All (HasSeat db.gpus) (join_all db ds)
  unfolding join_all
  join_all-HasSeat [] = tt
  join_all-HasSeat (d ∷ ds) =
      All-append (HasSeat db.gpus) (join_gpus db d db.gpus) (join_all db ds)
        (join_gpus-HasSeat d db.gpus) (join_all-HasSeat ds)

  module _ (P : Deployment → Type 0) where
    join_gpus-All : (d : Deployment) (gs : List Gpu) → P d → All (λ x. P x.0) (join_gpus db d gs)
    unfolding join_gpus
    join_gpus-All d [] h = tt
    join_gpus-All d (g ∷ gs) h =
        let rest = join_gpus-All d gs h in
        elim (Bool-cases (owned_by d.deployment_id g)) [
          | inr other ↦ rw other rest
          | inl own ↦ elim (Option-cases (find_server g.server_id db)) [
            | inl missing ↦ rw (own, missing) rest
            | inr (server, found) ↦ rw (own, found) (h, rest)
          ]
        ]

    join_all-All : (ds : List Deployment) → All P ds → All (λ x. P x.0) (join_all db ds)
    unfolding join_all
    join_all-All [] h = tt
    join_all-All (d ∷ ds) h =
        All-append (λ (x : JoinedRow). P x.0) (join_gpus db d db.gpus) (join_all db ds)
          (join_gpus-All d db.gpus h.0) (join_all-All ds h.1)

module _ (now : ℕ) (chute : Chute) (db : Db) (d : Deployment) where
  -- What holds of every deployment of the table holds of the chosen one.
  pub optimal_scale_down_deployment-All :
      (P : Deployment → Type 0)
      → All P db.deployments
      → optimal_scale_down_deployment now chute db ≡ some d
      → P d
  unfolding optimal_scale_down_deployment
  optimal_scale_down_deployment-All P all e =
      let rows = join_all db db.deployments in
      let Q : JoinedRow → Type 0 = λ x. P x.0 in
      (All-head? Q (sort_by (scores_at_least db) (filter (is_removable now chute) rows)) d
        (All-sort_by (scores_at_least db) Q (filter (is_removable now chute) rows)
          (All-filter Q (is_removable now chute) rows (join_all-All db P db.deployments all)))
        e).1

  chosen :
      optimal_scale_down_deployment now chute db ≡ some d
      → (server : Server) × ((is_removable now chute (d, server) ≡ true)
          × HasSeat db db.gpus (d, server))
  unfolding optimal_scale_down_deployment
  chosen e =
      let rows = join_all db db.deployments in
      let test = is_removable now chute in
      let Q : JoinedRow → Type 0 = λ x. (test x ≡ true) × HasSeat db db.gpus x in
      All-head? Q (sort_by (scores_at_least db) (filter test rows)) d
        (All-sort_by (scores_at_least db) Q (filter test rows) (
          All-both (λ x. test x ≡ true) (HasSeat db db.gpus) (filter test rows)
            (All-filter_self test rows)
            (All-filter (HasSeat db db.gpus) test rows (join_all-HasSeat db db.deployments))))
        e

  old_enough :
      (o : Option ℕ)
      → is_older_than min_age_to_remove now o ≡ true
      → (t : ℕ) × (o ≡ some t) × (t + min_age_to_remove ≤ now)
  old_enough none h = absurd (ground arith)
  old_enough (some t) h = (t, refl, ground arith)

  -- The deployment that optimal_scale_down_deployment chooses is of the chute, preemptible, without
  -- a job, active for at least 63 minutes, and owns a GPU on a server that is not locked.
  pub optimal_scale_down_deployment-IsSpare :
      optimal_scale_down_deployment now chute db ≡ some d → IsSpare now chute db d
  optimal_scale_down_deployment-IsSpare e =
      let (server, h) = chosen e in
      let seated = h.1 (ground (arith, h.0)) in
      record {
        unlocked = seated;
        preemptible = ground arith;
        own = ground arith;
        no_job = ground arith;
        old = old_enough d.activated_at (ground arith);
        has_gpus = omega (
          arith,
          seated,
          count_le (λ g. owned_by d.deployment_id g && is_at_unlocked db g)
              (owned_by d.deployment_id) (λ g h. ground arith) db.gpus,
        );
      }

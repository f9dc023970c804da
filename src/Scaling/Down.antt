-- ===== src/Scaling/Down.antt =====
-- When the loop of Gepetto.scale_chute ends when it scales down, and when it does not.
use chutes_miner.Prelude.{
  All, All-map, Bool, Bool-cases, List, Option, [], arith, count, count-filter, count_le, false,
  filter, find?, inl, inr, length, length-filter_le, ltb, none, not, refl, some, suc, true, zero, ℕ,
  ◌&&◌, ◌+◌, ◌<◌, ◌==◌, ◌∷◌, ◌≡◌, ◌≤◌,
}
use chutes_miner.Schema.{Chute, Deployment, Key}
use chutes_miner.Db.{Db, delete_deployment, is_deployment}
use chutes_miner.State.{Effect, State, k8s_undeploy, logged, preflight}
use chutes_miner.Action.{Raised, pure, raise, return, ◌>>◌}
use chutes_miner.Gepetto.{Outside, forget, remove_from_k8s, undeploy}
use chutes_miner.Gepetto.Undeploy.{forget-db, undeploy-db}
use chutes_miner.Placement.{optimal_scale_down_deployment}
use chutes_miner.Placement.ScaleDown.{optimal_scale_down_deployment-All}
use chutes_miner.Launch.{Controller}
use chutes_miner.Scaling.{
  after_round, count_non_job_deployments, is_counted, more, scale_chute, scale_down_once,
  scale_once,
}

-- Each id of the table is of one row.
abbrev pub HasUniqueIds : List Deployment → Type 0
HasUniqueIds ds = (e : Key) → count (is_deployment e) ds ≤ 1

-- Every preflight is allowed, and every deletion in kubernetes comes to an end.
pub record IsObliging (out : Outside) : Type 0 where
  pub allows : (s : State) (d : Key) → out.delete_preflight s d ≡ return true
  pub deletes : (s : State) (d : Key) → out.pods_deleted s d ≡ true

remaining_le :
    (p : Deployment → Bool) (d : Key) (ds : List Deployment)
    → count p ds
      ≤ count p (filter (λ row. not (is_deployment d row)) ds) + count (is_deployment d) ds
remaining_le p d [] = ground arith
remaining_le p d (row ∷ ds) = ground (arith, remaining_le p d ds)

remaining-HasUniqueIds :
    (d : Key) (ds : List Deployment)
    → HasUniqueIds ds
    → HasUniqueIds (filter (λ row. not (is_deployment d row)) ds)
remaining-HasUniqueIds d ds h e =
    rw (count-filter (is_deployment e) (λ row. not (is_deployment d row)) ds) (
      omega (
        arith,
        h e,
        count_le (λ row. not (is_deployment d row) && is_deployment e row) (is_deployment e)
            (λ row h. ground arith) ds,
      ))

remaining_lt :
    (d : Deployment) (ds : List Deployment)
    → 1 ≤ count (is_deployment d.deployment_id) ds
    → length (filter (λ row. not (is_deployment d.deployment_id row)) ds) < length ds
remaining_lt d [] h = ground arith
remaining_lt d (row ∷ ds) h = elim (Bool-cases (is_deployment d.deployment_id row)) [
  | inl own ↦ ground (arith, length-filter_le (λ row. not (is_deployment d.deployment_id row)) ds)
  | inr other ↦ ground (arith, remaining_lt d ds)
]

-- Each row has its id in the table.
each_counted : (ds : List Deployment) → All (λ x. 1 ≤ count (is_deployment x.deployment_id) ds) ds
each_counted [] = tt
each_counted (d ∷ ds) = (ground arith, All-map ds (λ x h. ground arith) (each_counted ds))

present :
    (d : Key) (ds : List Deployment)
    → 1 ≤ count (is_deployment d) ds
    → (row : Deployment) × (find? (is_deployment d) ds ≡ some row)
present d [] h = absurd (ground arith)
present d (row ∷ ds) h = elim (Bool-cases (is_deployment d row)) [
  | inl own ↦ (row, ground arith)
  | inr other ↦ let r = present d ds (ground arith) in (r.0, ground (arith, r.1))
]

module _ (out : Outside) (ok : IsObliging out) where
  forget-returns : (d : Key) (i : Option Key) (s : State) → (forget out d i s).0 ≡ return tt
  unfolding forget
  forget-returns d none s = ground arith
  forget-returns d (some i) s = ground arith

  undeploy-returns : (d : Key) (s : State) → (undeploy out d none s).0 ≡ return tt
  unfolding undeploy remove_from_k8s
  undeploy-returns d s =
      let s1 = (forget out d none (logged (preflight d) s)).1 in
      ground (
        arith,
        ok.allows s d,
        forget-returns d none (logged (preflight d) s),
        ok.deletes (logged (k8s_undeploy d) s1) d,
      )

module _ (c : Controller) (obliging : IsObliging c.out) (chute : Chute) (desired : ℕ)
    (preempt : Bool) where
  -- A loop that scales down ended, and left the chute with at least the desired count.
  Ended : Option (Raised Bool × State) → Type 0
  Ended o =
      (m : Raised Bool × State) × (o ≡ some m) × (desired ≤ count_non_job_deployments chute m.1.db)

  then_more-Ended :
      (again : Bool → State → Option (Raised Bool × State)) (m : Raised (Unit {0}) × State)
      (t : State)
      → m.0 ≡ return tt
      → Ended (again true m.1)
      → Ended (after_round c again (((λ _. m) >> pure (more true)) t))
  unfolding after_round
  then_more-Ended again (return u, s) t returns h = h
  then_more-Ended again (raise, s) t returns h = absurd (ground arith)

  scale_down_once-Ended :
      (again : Bool → State → Option (Raised Bool × State)) (o : Option Deployment) (s : State)
      → ((d : Deployment)
          → o ≡ some d
          → Ended (again true (undeploy c.out d.deployment_id none s).1))
      → desired ≤ count_non_job_deployments chute s.db
      → Ended (after_round c again (scale_down_once c o s))
  unfolding scale_down_once after_round Ended
  scale_down_once-Ended again none s h n = ((return false, s), refl, n)
  scale_down_once-Ended again (some d) s h n =
      then_more-Ended again (undeploy c.out d.deployment_id none s) s
        (undeploy-returns c.out obliging d.deployment_id s) (h d refl)

  undeployed :
      (s : State) (d : Deployment)
      → 1 ≤ count (is_deployment d.deployment_id) s.db.deployments
      → (undeploy c.out d.deployment_id none s).1.db.deployments
        ≡ filter (λ row. not (is_deployment d.deployment_id row)) s.db.deployments
  unfolding delete_deployment
  undeployed s d h =
      let row = present d.deployment_id s.db.deployments h in
      ground (
        arith,
        undeploy-db c.out d.deployment_id none s (obliging.allows s d.deployment_id),
        forget-db c.out d.deployment_id none (logged (preflight d.deployment_id) s),
        row.1,
      )

  -- When the preflights are allowed, kubernetes deletes what it is asked to, deployment ids are unique,
  -- and the chute has at least the desired number of deployments, more rounds than the table has rows
  -- are enough for scale_chute to end, and it does not go below the desired number.
  pub scale_chute-ends :
      (fuel : ℕ) (scaled : Bool) (s : State)
      → HasUniqueIds s.db.deployments
      → desired ≤ count_non_job_deployments chute s.db
      → length s.db.deployments < fuel
      → (m : Raised Bool × State) × (scale_chute c fuel chute desired preempt scaled s ≡ some m)
        × (desired ≤ count_non_job_deployments chute m.1.db)
  unfolding scale_chute scale_once Ended
  scale_chute-ends zero scaled s unique enough fueled = absurd (ground arith)
  scale_chute-ends (suc fuel) scaled s unique enough fueled =
      elim (Bool-cases (count_non_job_deployments chute s.db == desired)) [
        | inl there ↦ rw there ((return scaled, s), refl, enough)
        | inr away ↦
            let more_left : desired < count_non_job_deployments chute s.db = ground arith in
            let above : ltb desired (count_non_job_deployments chute s.db) ≡ true = ground arith in
            rw (away, above)
              (scale_down_once-Ended (scale_chute c fuel chute desired preempt)
                (optimal_scale_down_deployment (c.out.now s) chute s.db) s
                (λ d e.
                  let here : 1 ≤ count (is_deployment d.deployment_id) s.db.deployments =
                    optimal_scale_down_deployment-All (c.out.now s) chute s.db d
                      (λ x. 1 ≤ count (is_deployment x.deployment_id) s.db.deployments)
                      (each_counted s.db.deployments) e in
                  let gone = undeployed s d here in
                  scale_chute-ends fuel true (undeploy c.out d.deployment_id none s).1
                    (rw gone (remaining-HasUniqueIds d.deployment_id s.db.deployments unique))
                    (rw gone (
                      omega (
                        arith,
                        remaining_le (is_counted chute) d.deployment_id s.db.deployments,
                        unique d.deployment_id,
                        more_left,
                      )))
                    (rw gone (omega (arith, remaining_lt d s.db.deployments here))))
                enough)
      ]

module _ (c : Controller) (chute : Chute) (desired : ℕ) (preempt : Bool) (d : Deployment)
    (db : Db) where
  scale_down_blocked :
      (s : State)
      → c.out.delete_preflight s d.deployment_id ≡ return false
      → scale_down_once c (some d) s ≡ (return (more true), logged (preflight d.deployment_id) s)
  unfolding scale_down_once undeploy
  scale_down_blocked s h = ground (arith, h)

  -- When the preflight of the chosen deployment keeps refusing, the loop of scale_chute, which
  -- takes no notice, comes back to the same choice for ever: no number of rounds is enough.
  -- (The choice is the same at every time.)
  pub scale_chute_stuck :
      ((s : State) → c.out.delete_preflight s d.deployment_id ≡ return false)
      → ((s : State) → optimal_scale_down_deployment (c.out.now s) chute db ≡ some d)
      → desired < count_non_job_deployments chute db
      → (fuel : ℕ) (scaled : Bool) (log : List Effect)
      → scale_chute c fuel chute desired preempt scaled (record { db = db; log = log }) ≡ none
  unfolding scale_chute scale_once after_round
  scale_chute_stuck refuses same more_left zero scaled log = refl
  scale_chute_stuck refuses same more_left (suc fuel) scaled log =
      let s : State = record { db = db; log = log } in
      let above : ltb desired (count_non_job_deployments chute db) ≡ true = ground arith in
      let away : (count_non_job_deployments chute db == desired) ≡ false = ground arith in
      rw (away, above, same s, scale_down_blocked s (refuses s))
        (scale_chute_stuck refuses same more_left fuel true (preflight d.deployment_id ∷ log))

-- ===== src/Reconcile/Removals.antt =====
-- How often reconcile orders a chute's removal.
use mathlib.Core.Path.{subst}
use chutes_miner.Prelude.{
  All, Bool, Bool-cases, List, Option, [], any, arith, count, count-append, false, if◌then◌else◌,
  inl, inr, leb, leb→le, map, none, not, refl, some, true, ◌&&◌, ◌++◌, ◌==◌, ◌∷◌, ◌≡◌, ◌≤◌,
}
use chutes_miner.Schema.{Chute, Deployment, Key}
use chutes_miner.Db.{Db}
use chutes_miner.State.{State}
use chutes_miner.Action.{Raised, return}
use chutes_miner.Gepetto.{Outside}
use chutes_miner.Reconcile.{
  Sweep, Task, all_tasks, check_chute, check_chutes, check_version, chute_created_task,
  chute_deleted_task, chute_identifier, deployment_identifier, gone_servers, instance_task, judged,
  new_chutes, reconcile, remove_chute, server_task, track_config, track_instance, undeploy_task,
  untracked, written,
}
use chutes_miner.Reconcile.Tracking.{RowKeeps, TurnKeeps, holds, reconcile-holds, row-turn}
use chutes_miner.Inventory.{
  Identifier, JobView, Judgement, Scan, deployment_outdated, disappeared, expired, instance_missing,
  is_deleted, is_outdated, is_touched, job_gone, job_kept, judge, legacy, orphaned, remote_chute,
  rolling, same_identifier, sound, synced, unproven,
}

abbrev pub orders_removal : Identifier → Task → Bool
orders_removal x (chute_deleted_task y) = same_identifier x y
orders_removal x (instance_task i) = false
orders_removal x (chute_created_task y) = false
orders_removal x (undeploy_task d) = false
orders_removal x (server_task s) = false

-- The tasks have a removal for each identifier of the set, and one only.
abbrev removals_match : Identifier → Sweep → Bool
removals_match x w =
    count (orders_removal x) w.tasks
    == (if any (same_identifier x) w.chutes_to_remove then 1 else 0)

module _ (x : Identifier) where
  any_same :
      (y : Identifier) (ys : List Identifier)
      → same_identifier x y ≡ true
      → any (same_identifier x) ys ≡ any (same_identifier y) ys
  any_same y [] h = refl
  any_same y (z ∷ zs) h = ground (arith, any_same y zs h)

  remove_chute-removals :
      (y : Identifier) (w : Sweep)
      → removals_match x w ≡ true
      → removals_match x (remove_chute y w) ≡ true
  unfolding remove_chute
  remove_chute-removals y w h = elim (Bool-cases (any (same_identifier y) w.chutes_to_remove)) [
    | inl listed ↦ rw listed h
    | inr new ↦ elim (Bool-cases (same_identifier x y)) [
      | inl same ↦
          let unlisted = any_same y w.chutes_to_remove same in
          ground (
            arith,
            new,
            count-append (orders_removal x) w.tasks (chute_deleted_task y ∷ []),
            unlisted,
          )
      | inr other ↦
          ground (arith, new, count-append (orders_removal x) w.tasks (chute_deleted_task y ∷ []))
    ]
  ]

  check_version-removals :
      (scan : Scan) (d : Deployment) (w : Sweep)
      → removals_match x w ≡ true
      → removals_match x (check_version scan d w) ≡ true
  unfolding check_version
  check_version-removals scan d w h = elim (Bool-cases (deployment_outdated scan d)) [
    | inl late ↦ rw late (remove_chute-removals (deployment_identifier d) w h)
    | inr ok ↦ rw ok h
  ]

  missing-removals :
      (i : Option Key) (w : Sweep)
      → removals_match x w ≡ true
      → removals_match x
          (elim i [ none ↦ w | some j ↦ record w { tasks = w.tasks ++ instance_task j ∷ [] } ])
        ≡ true
  missing-removals none w h = h
  missing-removals (some j) w h =
      ground (arith, count-append (orders_removal x) w.tasks (instance_task j ∷ []))

  judged-removals :
      (j : Judgement) (scan : Scan) (d : Deployment) (w : Sweep)
      → removals_match x w ≡ true
      → removals_match x (judged j scan d w) ≡ true
  unfolding judged
  judged-removals orphaned scan d w h = h
  judged-removals instance_missing scan d w h = missing-removals d.instance_id w h
  judged-removals job_kept scan d w h = h
  judged-removals job_gone scan d w h =
      remove_chute-removals (deployment_identifier d) (track_instance d (track_config d w)) h
  judged-removals rolling scan d w h = h
  judged-removals legacy scan d w h = check_version-removals scan d (track_config d w) h
  judged-removals disappeared scan d w h = check_version-removals scan d (track_config d w) h
  judged-removals expired scan d w h = check_version-removals scan d (track_config d w) h
  judged-removals unproven scan d w h = check_version-removals scan d (track_config d w) h
  judged-removals sound scan d w h = check_version-removals scan d (track_config d w) h

  written-removals :
      (scan : Scan) (d : Deployment) (w : Sweep)
      → removals_match x w ≡ true
      → removals_match x (written scan d w) ≡ true
  written-removals scan d w h =
      elim (Bool-cases (is_touched scan d && not (is_deleted (judge scan (synced scan d))))) [
        | inl touched ↦ rw touched h
        | inr same ↦ rw same h
      ]

  row-removals : (scan : Scan) (d : Deployment) → RowKeeps scan (removals_match x) d
  row-removals scan d w h =
      let d' = synced scan d in
      let own =
        judged-removals (judge scan d') scan d' (written scan d w) (written-removals scan d w h) in
      (own, own)

  check_chutes-removals :
      (scan : Scan) (cs : List Chute) (w : Sweep)
      → removals_match x w ≡ true
      → removals_match x (check_chutes scan cs w) ≡ true
  unfolding check_chutes check_chute
  check_chutes-removals scan [] w h = h
  check_chutes-removals scan (c ∷ cs) w h =
      elim (Bool-cases (
        is_outdated (remote_chute c.validator c.chute_id scan.chutes) c.version
        && not (scan.is_updating c.validator c.chute_id))) [
          | inl late ↦
              rw (late, check_chutes, check_chute)
                (check_chutes-removals scan cs (remove_chute (chute_identifier c) w)
                  (remove_chute-removals (chute_identifier c) w h))
          | inr ok ↦ rw (ok, check_chutes, check_chute) (check_chutes-removals scan cs w h)
        ]

  count-map_none :
      {A : Type 0} (f : A → Task) (ys : List A)
      → ((y : A) → orders_removal x (f y) ≡ false)
      → count (orders_removal x) (map f ys) ≡ 0
  count-map_none f [] h = refl
  count-map_none f (y ∷ ys) h = ground (arith, h y, count-map_none f ys h)

  tasks-removals :
      (scan : Scan) (w : Sweep) (db : Db)
      → removals_match x w ≡ true
      → leb (count (orders_removal x) (all_tasks scan w db)) 1 ≡ true
  tasks-removals scan w db h =
      let stop = map undeploy_task (untracked scan w) in
      let w' : Sweep = record w { tasks = w.tasks ++ stop } in
      let created = map chute_created_task (new_chutes scan db.chutes) in
      let gone = map server_task (gone_servers scan db) in
      let no_stop = count-map_none undeploy_task (untracked scan w) (λ y. refl) in
      let matched : removals_match x w' ≡ true =
        ground (arith, count-append (orders_removal x) w.tasks stop, no_stop) in
      ground (
        arith,
        check_chutes-removals scan db.chutes w' matched,
        count-append (orders_removal x) (check_chutes scan db.chutes w').tasks (created ++ gone),
        count-append (orders_removal x) created gone,
        count-map_none chute_created_task (new_chutes scan db.chutes) (λ y. refl),
        count-map_none server_task (gone_servers scan db) (λ y. refl),
      )

  -- In the tasks of a reconcile the removal of a chute at a version and a validator is ordered at
  -- most once, however many of its deployments are outdated, and whatever the other systems answer.
  pub removal_ordered_once :
      (out : Outside) (view : State → Key → JobView) (scan : Scan) (s s' : State) (ts : List Task)
      → reconcile out view scan s ≡ (return ts, s')
      → count (orders_removal x) ts ≤ 1
  removal_ordered_once out view scan s s' ts e =
      let q : List Task → Bool = λ us. leb (count (orders_removal x) us) 1 in
      let all =
        reconcile-holds out view (removals_match x) scan q s (turns s.db.deployments) refl
          (tasks-removals scan) in
      leb→le (count (orders_removal x) ts) 1
        (subst (λ (r : Raised (List Task) × State). holds q r.0 ≡ true) e all)
    where
      turns :
          (ds : List Deployment)
          → All (TurnKeeps out view (removals_match x) scan (removals_match x)) ds
      turns [] = tt
      turns (d ∷ ds) = (row-turn out view (removals_match x) scan d (row-removals scan d), turns ds)

-- ===== src/Reconcile/Unread.antt =====
-- What reconcile does with a job that it could not read.
use mathlib.Core.Path.{subst, sym}
use chutes_miner.Prelude.{
  All, Bool, Bool-cases, List, Option, [], arith, contains, false, filter, inl, inr, none, not,
  refl, some, true, ◌&&◌, ◌++◌, ◌==◌, ◌∙◌, ◌∷◌, ◌≡◌, ◌≢◌,
}
use chutes_miner.Schema.{Deployment, Key}
use chutes_miner.State.{State}
use chutes_miner.Action.{Raised, return}
use chutes_miner.Gepetto.{Outside}
use chutes_miner.Reconcile.{
  Sweep, after_view, check_version, deployment_identifier, empty_sweep, finish, instance_task,
  judged, remove_chute, sweep_row, sweep_rows, track_config, track_deployment_row, track_instance,
  untracked, written,
}
use chutes_miner.Reconcile.Tracking.{RowKeeps, TurnKeeps, holds, row-turn, sweep_rows-begins, swept}
use chutes_miner.Reconcile.Judging.{synced-id}
use chutes_miner.Inventory.{
  Identifier, JobView, Judgement, Scan, deployment_outdated, disappeared, expired, instance_missing,
  is_deleted, is_touched, job_gone, job_kept, judge, legacy, orphaned, rolling, sound, synced,
  unproven, unreadable,
}

-- The deployment is not tracked.
abbrev untracks : Key → Sweep → Bool
untracks d w = not (contains d w.all_deployments)

remove_chute-untracks :
    (d : Key) (x : Identifier) (w : Sweep) → untracks d (remove_chute x w) ≡ untracks d w
unfolding remove_chute
remove_chute-untracks d x w = ground arith

check_version-untracks :
    (d : Key) (scan : Scan) (e : Deployment) (w : Sweep)
    → untracks d (check_version scan e w) ≡ untracks d w
unfolding check_version
check_version-untracks d scan e w = elim (Bool-cases (deployment_outdated scan e)) [
  | inl late ↦ rw late (remove_chute-untracks d (deployment_identifier e) w)
  | inr ok ↦ rw ok refl
]

written-untracks :
    (d : Key) (scan : Scan) (e : Deployment) (w : Sweep)
    → untracks d (written scan e w) ≡ untracks d w
written-untracks d scan e w =
    elim (Bool-cases (is_touched scan e && not (is_deleted (judge scan (synced scan e))))) [
      | inl touched ↦ rw touched refl
      | inr same ↦ rw same refl
    ]

module _ (d : Key) where
  row-untracks :
      (e : Deployment) (w : Sweep)
      → e.deployment_id ≢ d
      → untracks d w ≡ true
      → untracks d (track_deployment_row e w) ≡ true
  row-untracks e w ne h = ground arith

  checked-untracks :
      (scan : Scan) (e : Deployment) (w : Sweep)
      → untracks d w ≡ true
      → untracks d (check_version scan e (track_config e w)) ≡ true
  checked-untracks scan e w h = check_version-untracks d scan e (track_config e w) ∙ h

  missing-untracks :
      (j : Option Key) (w : Sweep)
      → untracks d w ≡ true
      → untracks d
          (elim j [ none ↦ w | some k ↦ record w { tasks = w.tasks ++ instance_task k ∷ [] } ])
        ≡ true
  missing-untracks none w h = h
  missing-untracks (some k) w h = h

  judged-untracks :
      (j : Judgement) (scan : Scan) (e : Deployment) (w : Sweep)
      → e.deployment_id ≢ d
      → untracks d w ≡ true
      → untracks d (judged j scan e w) ≡ true
  unfolding judged
  judged-untracks orphaned scan e w ne h = h
  judged-untracks instance_missing scan e w ne h = missing-untracks e.instance_id w h
  judged-untracks job_kept scan e w ne h = row-untracks e (track_config e w) ne h
  judged-untracks job_gone scan e w ne h =
      remove_chute-untracks d (deployment_identifier e) (track_instance e (track_config e w)) ∙ h
  judged-untracks rolling scan e w ne h = row-untracks e (track_config e w) ne h
  judged-untracks legacy scan e w ne h =
      row-untracks e (check_version scan e (track_config e w)) ne (checked-untracks scan e w h)
  judged-untracks disappeared scan e w ne h = checked-untracks scan e w h
  judged-untracks expired scan e w ne h = checked-untracks scan e w h
  judged-untracks unproven scan e w ne h = checked-untracks scan e w h
  judged-untracks sound scan e w ne h =
      row-untracks e (check_version scan e (track_config e w)) ne (checked-untracks scan e w h)

  row-keeps : (scan : Scan) (e : Deployment) → e.deployment_id ≢ d → RowKeeps scan (untracks d) e
  row-keeps scan e ne w h =
      let e' = synced scan e in
      let ne' : e'.deployment_id ≢ d = subst (λ x. x ≢ d) (sym (synced-id scan e)) ne in
      let own =
        judged-untracks (judge scan e') scan e' (written scan e w) ne'
          (written-untracks d scan e w ∙ h) in
      (own, row-untracks e' (swept scan e w) ne' own)

contains-filter :
    (d : Key) (p : Key → Bool) (xs : List Key)
    → p d ≡ true
    → contains d xs ≡ true
    → contains d (filter p xs) ≡ true
contains-filter d p [] h m = m
contains-filter d p (x ∷ xs) h m = elim (Bool-cases (x == d)) [
  | inl same ↦
      let e : x ≡ d = ground arith in ground (arith, subst (λ y. p y ≡ true) (sym e) h, same)
  | inr other ↦ ground (arith, other, contains-filter d p xs h)
]

module _ (out : Outside) (view : State → Key → JobView) (scan : Scan) (d : Key)
    (fails : (s : State) → view s d ≡ unreadable) where
  unread-turn :
      (e : Deployment) (w : Sweep) (s : State)
      → view s e.deployment_id ≡ unreadable
      → untracks d w ≡ true
      → holds (untracks d) (finish out view unproven e (judged unproven scan e w) s).0 ≡ true
  unfolding finish judged after_view
  unread-turn e w s h keeps = let own = checked-untracks d scan e w keeps in rw (h, after_view) own

  -- The turn of the row itself.
  skips :
      (e : Deployment)
      → e.deployment_id ≡ d
      → judge scan (synced scan e) ≡ unproven
      → TurnKeeps out view (untracks d) scan (untracks d) e
  unfolding sweep_row
  skips e same h w s keeps =
      let e' = synced scan e in
      let fails' : view s e'.deployment_id ≡ unreadable =
        subst (λ x. view s x ≡ unreadable) (sym (synced-id scan e ∙ same)) (fails s) in
      subst
        (λ j.
          holds (untracks d) (finish out view j e' (judged j scan e' (written scan e w)) s).0
          ≡ true)
        (sym h) (unread-turn e' (written scan e w) s fails' (written-untracks d scan e w ∙ keeps))

  turns :
      (es : List Deployment)
      → All (λ (e : Deployment). e.deployment_id ≢ d) es
      → All (TurnKeeps out view (untracks d) scan (untracks d)) es
  turns [] others = tt
  turns (e ∷ es) others =
      (row-turn out view (untracks d) scan e (row-keeps d scan e others.0), turns es others.1)

  -- A deployment of kubernetes that is no legacy one and whose row is to be checked, because it is
  -- not active or was not verified in five minutes, is removed from kubernetes when the check cannot
  -- read the job for another reason than a 404: it is skipped, hence not tracked, and so it is among
  -- the jobs to undeploy at the end of the loop, if that is reached. (No other row has its id.)
  pub unreadable_is_removed :
      (before : List Deployment) (e : Deployment) (after : List Deployment) (s s' : State)
      (w : Sweep)
      → e.deployment_id ≡ d
      → judge scan (synced scan e) ≡ unproven
      → All (λ (x : Deployment). x.deployment_id ≢ d) before
      → All (λ (x : Deployment). x.deployment_id ≢ d) after
      → contains d scan.k8s_jobs ≡ true
      → contains d scan.k8s_legacy ≡ false
      → sweep_rows out view scan (before ++ e ∷ after) empty_sweep s ≡ (return w, s')
      → contains d (untracked scan w) ≡ true
  unreadable_is_removed before e after s s' w same h early late job fresh run =
      let all =
        sweep_rows-begins out view scan (untracks d) (untracks d) before e after empty_sweep s
          (turns before early) (skips e same h) (turns after late) refl in
      let free : untracks d w ≡ true =
        subst (λ (x : Raised Sweep × State). holds (untracks d) x.0 ≡ true) run all in
      contains-filter d
        (λ x. not (contains x w.all_deployments) && not (contains x scan.k8s_legacy)) scan.k8s_jobs
        (ground (arith, free)) job

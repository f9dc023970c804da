-- ===== src/Reconcile/Tracking.antt =====
-- What the loop of reconcile keeps track of, row by row.
use chutes_miner.Prelude.{
  All, Bool, Bool-cases, List, [], inl, inr, ltb, none, refl, true, ◌++◌, ◌||◌, ◌∷◌, ◌≡◌,
}
use chutes_miner.Schema.{Deployment, Key}
use chutes_miner.Db.{Db}
use chutes_miner.State.{State}
use chutes_miner.Action.{Action, Raised, get, pure, raise, return, ◌>>=◌}
use chutes_miner.Gepetto.{Outside, undeploy}
use chutes_miner.Reconcile.{
  Sweep, Task, after_view, all_tasks, commit, empty_sweep, finish, judged, purge_own_instance,
  purge_strays, reconcile, sweep_row, sweep_rows, track_deployment_row, written,
}
use chutes_miner.Inventory.{
  JobView, Judgement, Scan, absent, disappeared, expired, instance_missing, job_gone, job_kept,
  judge, legacy, orphaned, rolling, seen, sound, synced, unproven, unreadable,
}

-- It holds of what is returned, if anything is.
abbrev pub holds : {A : Type 0} → (A → Bool) → Raised A → Bool
holds p raise = true
holds p (return w) = p w

module _ (out : Outside) (view : State → Key → JobView) (p : Sweep → Bool) where
  -- Whatever another action does, what is passed on stays the same.
  passed-holds :
      (m : Action (Unit {0})) (w : Sweep) (s : State)
      → p w ≡ true
      → holds p ((m >>= λ u. pure w) s).0 ≡ true
  passed-holds m w s h = go (m s)
    where
      go :
          (r : Raised (Unit {0}) × State)
          → holds p
              (let (x, s') = r in
                let y : Raised Sweep × State = elim x [
                  | return a ↦ pure w s'
                  | raise ↦ (raise, s')
                ] in
                y).0
            ≡ true
      go (return a, s') = h
      go (raise, s') = refl

  after_view-holds :
      (v : JobView) (d : Deployment) (w : Sweep) (s : State)
      → p w ≡ true
      → p (track_deployment_row d w) ≡ true
      → holds p (after_view out view v d w s).0 ≡ true
  unfolding after_view
  after_view-holds absent d w s h t = passed-holds (undeploy out d.deployment_id none) w s h
  after_view-holds unreadable d w s h t = h
  after_view-holds (seen succeeded failed is_terminated) d w s h t =
      elim (Bool-cases (ltb 0 succeeded || (ltb 0 failed || is_terminated))) [
        | inl over ↦ rw over (passed-holds (undeploy out d.deployment_id none) w s h)
        | inr on ↦ rw on t
      ]

  pub finish-holds :
      (j : Judgement) (d : Deployment) (w : Sweep) (s : State)
      → p w ≡ true
      → p (track_deployment_row d w) ≡ true
      → holds p (finish out view j d w s).0 ≡ true
  unfolding finish
  finish-holds orphaned d w s h t = passed-holds (purge_own_instance out view d) w s h
  finish-holds disappeared d w s h t = passed-holds (purge_own_instance out view d) w s h
  finish-holds unproven d w s h t = after_view-holds (view s d.deployment_id) d w s h t
  finish-holds instance_missing d w s h t = h
  finish-holds job_kept d w s h t = h
  finish-holds job_gone d w s h t = h
  finish-holds rolling d w s h t = h
  finish-holds legacy d w s h t = h
  finish-holds expired d w s h t = h
  finish-holds sound d w s h t = h

-- The sweep after a row, but for a job that is looked at and found running.
abbrev pub swept : Scan → Deployment → Sweep → Sweep
swept scan d w = let d' = synced scan d in judged (judge scan d') scan d' (written scan d w)

-- A row's turn keeps a property of the sweep.
abbrev pub RowKeeps : Scan → (Sweep → Bool) → Deployment → Type 0
RowKeeps scan p d =
    (w : Sweep)
    → p w ≡ true
    → (p (swept scan d w) ≡ true)
      × (p (track_deployment_row (synced scan d) (swept scan d w)) ≡ true)

module _ (out : Outside) (view : State → Key → JobView) (p : Sweep → Bool) (scan : Scan) where
  -- The same with what the turn does at once.
  abbrev pub TurnKeeps : (Sweep → Bool) → Deployment → Type 0
  TurnKeeps q d =
      (w : Sweep) (s : State) → q w ≡ true → holds p (sweep_row out view scan d w s).0 ≡ true

  pub row-turn : (d : Deployment) → RowKeeps scan p d → TurnKeeps p d
  unfolding sweep_row
  row-turn d keeps w s h =
      let (own, tracked) = keeps w h in
      finish-holds out view p (judge scan (synced scan d)) (synced scan d) (swept scan d w) s own
        tracked

  -- A turn and the rest of the loop.
  turn-then :
      (ds : List Deployment) (r : Raised Sweep × State)
      → ((w' : Sweep) (s' : State)
          → p w' ≡ true
          → holds p (sweep_rows out view scan ds w' s').0 ≡ true)
      → holds p r.0 ≡ true
      → (s : State) → holds p (((λ (s' : State). r) >>= sweep_rows out view scan ds) s).0 ≡ true
  turn-then ds (return w', s') rest h s = rest w' s' h
  turn-then ds (raise, s') rest h s = refl

  -- What every row's turn keeps holds at the end of the loop.
  pub sweep_rows-holds :
      (ds : List Deployment) (w : Sweep) (s : State)
      → All (TurnKeeps p) ds
      → p w ≡ true
      → holds p (sweep_rows out view scan ds w s).0 ≡ true
  unfolding sweep_rows
  sweep_rows-holds [] w s keeps h = h
  sweep_rows-holds (d ∷ ds) w s keeps h =
      turn-then ds (sweep_row out view scan d w s)
        (λ w' s' h'. sweep_rows-holds ds w' s' keeps.1 h') (keeps.0 w s h) s

  -- What holds at the end of the loop decides what holds of the tasks.
  pub reconcile-holds :
      (q : List Task → Bool) (s : State)
      → All (TurnKeeps p) s.db.deployments
      → p empty_sweep ≡ true
      → ((w : Sweep) (db : Db) → p w ≡ true → q (all_tasks scan w db) ≡ true)
      → holds q (reconcile out view scan s).0 ≡ true
  unfolding reconcile
  reconcile-holds q s keeps h ends =
      go (sweep_rows out view scan s.db.deployments empty_sweep s)
        (sweep_rows-holds s.db.deployments empty_sweep s keeps h)
    where
      last :
          (w : Sweep)
          → p w ≡ true
          → (r : Raised (Unit {0}) × State)
          → holds q (((λ (s' : State). r) >>= λ u. get >>= λ s'. pure (all_tasks scan w s'.db)) s).0
            ≡ true
      last w h' (return u, s') = ends w s'.db h'
      last w h' (raise, s') = refl

      middle :
          (w : Sweep)
          → p w ≡ true
          → (r : Raised (Unit {0}) × State)
          → holds q
              (((λ (s' : State). r) >>= λ u. purge_strays out w scan.instances >>= λ v.
                  get >>= λ s'. pure (all_tasks scan w s'.db))
                s).0
            ≡ true
      middle w h' (return u, s') = last w h' (purge_strays out w scan.instances s')
      middle w h' (raise, s') = refl

      go :
          (r : Raised Sweep × State)
          → holds p r.0 ≡ true
          → holds q
              (((λ (s' : State). r) >>= λ w. commit w.writes >>= λ u.
                  purge_strays out w scan.instances >>= λ v.
                  get >>= λ s'. pure (all_tasks scan w s'.db))
                s).0
            ≡ true
      go (return w, s') h' = middle w h' (commit w.writes s')
      go (raise, s') h' = refl

-- A property that begins with the turn of one row, when the turns before it keep another one.
pub sweep_rows-begins :
    (out : Outside) (view : State → Key → JobView) (scan : Scan) (q p : Sweep → Bool)
    (before : List Deployment) (d : Deployment) (after : List Deployment) (w : Sweep) (s : State)
    → All (TurnKeeps out view q scan q) before
    → TurnKeeps out view p scan q d
    → All (TurnKeeps out view p scan p) after
    → q w ≡ true
    → holds p (sweep_rows out view scan (before ++ d ∷ after) w s).0 ≡ true
unfolding sweep_rows
sweep_rows-begins out view scan q p [] d after w s early begins late h =
    turn-then out view p scan after (sweep_row out view scan d w s)
      (λ w' s' h'. sweep_rows-holds out view p scan after w' s' late h') (begins w s h) s
sweep_rows-begins out view scan q p (e ∷ es) d after w s early begins late h =
    go (sweep_row out view scan e w s)
      (λ w' s' h'. sweep_rows-begins out view scan q p es d after w' s' early.1 begins late h')
      (early.0 w s h)
  where
    go :
        (r : Raised Sweep × State)
        → ((w' : Sweep) (s' : State)
            → q w' ≡ true
            → holds p (sweep_rows out view scan (es ++ d ∷ after) w' s').0 ≡ true)
        → holds q r.0 ≡ true
        → holds p (((λ (s' : State). r) >>= sweep_rows out view scan (es ++ d ∷ after)) s).0 ≡ true
    go (return w', s') rest h' = rest w' s' h'
    go (raise, s') rest h' = refl

-- ===== src/Autoscale/Choice.antt =====
-- What _autoscale scales, and what it leaves alone.
use mathlib.Core.Path.{subst}
use chutes_miner.Prelude.{
  All, All-append, All-sort_by, Bool, Bool-cases, List, Option, [], arith, false, if◌then◌else◌,
  inl, inr, is_some, ltb, none, refl, some, sort_by, true, ℕ, ◌&&◌, ◌*◌, ◌+◌, ◌==◌, ◌∷◌, ◌≡◌,
}
use chutes_miner.Schema.{Chute, Key, Server}
use chutes_miner.State.{State}
use chutes_miner.Action.{Raised, raise, return}
use chutes_miner.Launch.{Controller}
use chutes_miner.Placement.{optimal_scale_up_server}
use chutes_miner.Scaling.{count_non_job_deployments, scale_chute}
use chutes_miner.Scaling.Reaches.{scale_chute-reaches}
use chutes_miner.Autoscale.{
  Offer, Valued, after_attempt, attempt, attempt_all, autoscale, has_pending_deployment, load_offer,
  value_all, valued_if, valued_on, worth_at_least,
}

module _ (c : Controller) (scalable : (validator chute_id : Key) → Bool) (fuel : ℕ) where
  -- An offer that the first loop lets through, in a state.
  abbrev pub is_scalable : State → Offer → Bool
  is_scalable s o =
      is_some (load_offer o s.db)
      && (o.has_cords && (scalable o.validator o.chute_id && ltb 0 o.effective_multiplier))

  -- Whether an offer's turn tries to scale its chute, which is known then and has nothing pending.
  pub record IsTried (o : Offer) (chute : Chute) (s : State) : Type 0 where
    pub known : load_offer o s.db ≡ some chute
    pub idle : has_pending_deployment chute s.db ≡ false

  -- One more instance of the chute is asked of scale_chute.
  abbrev pub one_more : Chute → State → Option (Raised Bool × State)
  one_more chute s =
      scale_chute c fuel chute (count_non_job_deployments chute s.db + 1) false false s

  -- The states that a pass comes through from its start: it goes on from a state only by an attempt
  -- that fails, for an offer that was scalable at the start.
  pub data Passes (s : State) : State → Type 0 where
    begun : Passes s s
    failed :
        (o : Offer) (chute : Chute) (t u : State)
        → Passes s t
        → is_scalable s o ≡ true
        → IsTried o chute t
        → one_more chute t ≡ some (return false, u)
        → Passes s u

  -- The pass came to a state in which the offer's turn tried to scale its chute, by one instance, which
  -- led to the last state; there the chute has one deployment without a job more.
  abbrev pub HasGrown : State → Offer → State → Type 0
  HasGrown s o s' =
      (chute : Chute) × (t : State) × Passes s t
      × IsTried o chute t
      × (one_more chute t ≡ some (return true, s'))
      × (count_non_job_deployments chute s'.db ≡ count_non_job_deployments chute t.db + 1)

  abbrev IsScalable : State → Valued → Type 0
  IsScalable s v = is_scalable s v.offer ≡ true

  valued_on-IsScalable :
      (o : Offer) (s : State) (chute : Chute) (server : Option Server)
      → is_scalable s o ≡ true
      → All (IsScalable s) (valued_on c scalable fuel o chute server)
  valued_on-IsScalable o s chute none h = tt
  valued_on-IsScalable o s chute (some server) h =
      elim (Bool-cases (server.hourly_cost * chute.gpu_count == 0)) [
        | inl free ↦ rw free tt
        | inr paid ↦ rw paid (h, tt)
      ]

  valued_if-IsScalable :
      (o : Offer) (s : State) (m : Option Chute)
      → load_offer o s.db ≡ m
      → All (IsScalable s) (valued_if c scalable fuel o s m)
  valued_if-IsScalable o s none e = tt
  valued_if-IsScalable o s (some chute) e =
      elim (Bool-cases
        (o.has_cords && (scalable o.validator o.chute_id && ltb 0 o.effective_multiplier))) [
          | inl passes ↦ rw passes (
              valued_on-IsScalable o s chute
                (optimal_scale_up_server c.cluster (c.choice s) chute 10 s)
                (ground (arith, e, passes)))
          | inr shut ↦ rw shut tt
        ]

  value_all-IsScalable :
      (s : State) (os : List Offer) → All (IsScalable s) (value_all c scalable fuel s os)
  unfolding value_all
  value_all-IsScalable s [] = tt
  value_all-IsScalable s (o ∷ os) =
      All-append (IsScalable s) (valued_if c scalable fuel o s (load_offer o s.db))
        (value_all c scalable fuel s os) (valued_if-IsScalable o s (load_offer o s.db) refl)
        (value_all-IsScalable s os)

  module _ (o : Offer) (s' : State) (G : Type 0) where
    after_attempt-ends :
        (again : State → Option (Raised (Option Offer) × State)) (x : Offer)
        (r : Option (Raised Bool × State))
        → ((s : State) → r ≡ some (return false, s) → again s ≡ some (return (some o), s') → G)
        → (r ≡ some (return true, s') → x ≡ o → G)
        → after_attempt c scalable fuel again x r ≡ some (return (some o), s')
        → G
    unfolding after_attempt
    after_attempt-ends again x none ih done e = absurd (ground arith)
    after_attempt-ends again x (some (return true, s)) ih done e =
        done (ground arith) (ground arith)
    after_attempt-ends again x (some (return false, s)) ih done e = ih s refl e
    after_attempt-ends again x (some (raise, s)) ih done e = absurd (ground arith)

  module _ (s0 s' : State) (o : Offer) where
    abbrev Ends : Type 0
    Ends = (is_scalable s0 o ≡ true) × HasGrown s0 o s'

    -- The turn of an offer that is tried, if an offer is scaled in it or later.
    tried-HasGrown :
        (again : State → Option (Raised (Option Offer) × State)) (x : Offer) (chute : Chute)
        (s : State)
        → is_scalable s0 x ≡ true
        → Passes s0 s
        → IsTried x chute s
        → ((t : State) → Passes s0 t → again t ≡ some (return (some o), s') → Ends)
        → after_attempt c scalable fuel again x (one_more chute s) ≡ some (return (some o), s')
        → Ends
    tried-HasGrown again x chute s h passes tried ih =
        after_attempt-ends o s' Ends again x (one_more chute s)
          (λ t lost. ih t (failed x chute s t passes h tried lost))
          (λ scaled same.
            let reached =
              scale_chute-reaches c chute fuel (count_non_job_deployments chute s.db + 1) false s s'
                scaled in
            (
              subst (λ y. is_scalable s0 y ≡ true) same h,
              (chute, s, passes, subst (λ y. IsTried y chute s) same tried, scaled, reached),
            ))

    -- One turn of the loop over the values, if an offer is scaled in it or later.
    attempt-HasGrown :
        (again : State → Option (Raised (Option Offer) × State)) (v : Valued) (s : State)
        → IsScalable s0 v
        → Passes s0 s
        → ((t : State) → Passes s0 t → again t ≡ some (return (some o), s') → Ends)
        → (m : Option Chute) → load_offer v.offer s.db ≡ m
        → attempt c scalable fuel again v.offer m s ≡ some (return (some o), s')
        → Ends
    unfolding attempt
    attempt-HasGrown again v s h passes ih none loaded e = ih s passes e
    attempt-HasGrown again v s h passes ih (some chute) loaded e =
        let run : Bool → Option (Raised (Option Offer) × State) = λ b.
          if b then again s else after_attempt c scalable fuel again v.offer (one_more chute s) in
        elim (Bool-cases (has_pending_deployment chute s.db)) [
          | inl pending ↦ ih s passes (subst (λ b. run b ≡ some (return (some o), s')) pending e)
          | inr idle ↦
              tried-HasGrown again v.offer chute s h passes (record { known = loaded; idle = idle })
                ih (subst (λ b. run b ≡ some (return (some o), s')) idle e)
        ]

    attempt_all-HasGrown :
        (vs : List Valued) (s : State)
        → All (IsScalable s0) vs
        → Passes s0 s
        → attempt_all c scalable fuel vs s ≡ some (return (some o), s')
        → Ends
    unfolding attempt_all
    attempt_all-HasGrown [] s h passes e = absurd (ground arith)
    attempt_all-HasGrown (v ∷ vs) s h passes e =
        attempt-HasGrown (attempt_all c scalable fuel vs) v s h.0 passes
          (λ t. attempt_all-HasGrown vs t h.1) (load_offer v.offer s.db) refl e

  -- When _autoscale ends with an offer that it has scaled, the offer was scalable at its start: its
  -- chute was known, it has endpoints, no validator marks it, and its multiplier is positive. From the
  -- start the pass came, by attempts that failed only, to a state in which the offer's chute was known
  -- and had no deployment that was pending; there scale_chute was asked for one instance more, which
  -- led to the end, where the chute has one deployment without a job more than there.
  pub autoscale-HasGrown :
      (offers : List Offer) (s s' : State) (o : Offer)
      → autoscale c scalable fuel offers s ≡ some (return (some o), s')
      → (is_scalable s o ≡ true) × HasGrown s o s'
  unfolding autoscale
  autoscale-HasGrown offers s s' o e =
      attempt_all-HasGrown s s' o (sort_by (worth_at_least) (value_all c scalable fuel s offers)) s
        (All-sort_by worth_at_least (IsScalable s) (value_all c scalable fuel s offers)
          (value_all-IsScalable s offers))
        begun e

-- ===== src/Preempt/Safety.antt =====
-- Which deployments the plan of preempting_deploy gives up.
use mathlib.Core.Path.{subst}
use mathlib.Core.Option
use chutes_miner.Prelude.{
  All, Bool, Bool-cases, List, Option, [], arith, count, inl, inr, leb, ltb, map, none, refl, some,
  sum, true, ℕ, ◌&&◌, ◌+◌, ◌<◌, ◌==◌, ◌∷◌, ◌≡◌, ◌≢◌, ◌≤◌, ◌⊎◌,
}
use chutes_miner.Schema.{Deployment, Key}
use chutes_miner.Preempt.{Bid, decrement, is_victim, min_age_to_preempt, multiplier, pick}

-- A deployment that may be preempted for a bid.
pub record IsPreemptible (b : Bid) (d : Deployment) : Type 0 where
  pub no_job : d.job_id ≡ none
  pub preemptible : d.preemptible ≡ true
  pub other_chute : d.chute_id ≢ b.chute.chute_id
  pub cheap : multiplier b.instances d.instance_id < b.effective_multiplier
  pub old : (t : ℕ) × (d.activated_at ≡ some t) × (t + min_age_to_preempt < b.now)

pub is_victim-IsPreemptible : (b : Bid) (d : Deployment) → is_victim b d ≡ true → IsPreemptible b d
is_victim-IsPreemptible b d h = record {
  no_job = ground arith;
  preemptible = ground arith;
  other_chute = λ e. ground arith;
  cheap = ground arith;
  old = age d.activated_at refl;
}
  where
    age :
        (o : Option ℕ)
        → d.activated_at ≡ o
        → (t : ℕ) × (d.activated_at ≡ some t) × (t + min_age_to_preempt < b.now)
    age none e = absurd (ground arith)
    age (some t) e = (t, e, ground arith)

module _ (b : Bid) (gpus_of : Deployment → ℕ) where
  -- Before each of the deployments is taken, the GPUs do not suffice.
  abbrev pub IsTight : ℕ → List Deployment → Type 0
  IsTight available [] = Unit
  IsTight available (d ∷ ds) = (available < b.chute.gpu_count) × IsTight (available + gpus_of d) ds

  -- A chute keeps an instance: none of its own is given up, or fewer than it has.
  abbrev pub KeepsOne : (Key → ℕ) → List Deployment → Key → Type 0
  KeepsOne counts picked c =
      (count (λ d. d.chute_id == c) picked ≡ 0) ⊎ (count (λ d. d.chute_id == c) picked < counts c)

  -- What holds of the result of the loop over a server's deployments.
  abbrev pub IsPicked : (Key → ℕ) → ℕ → List Deployment → Option (List Deployment) → Type 0
  IsPicked counts available ds none = Unit
  IsPicked counts available ds (some picked) =
      All (λ d. is_victim b d ≡ true) picked
      × ((c : Key) → KeepsOne counts picked c)
      × (b.chute.gpu_count ≤ available + sum (map gpus_of picked))
      × (available < b.chute.gpu_count → IsTight available picked)
      × ((p : Deployment → Bool) → count p picked ≤ count p ds)

  skip-IsPicked :
      (d : Deployment) (ds : List Deployment) (counts : Key → ℕ) (available : ℕ)
      (o : Option (List Deployment))
      → IsPicked counts available ds o
      → IsPicked counts available (d ∷ ds) o
  skip-IsPicked d ds counts available none h = tt
  skip-IsPicked d ds counts available (some picked) (v, one, n, tight, sub) =
      (v, one, n, tight, λ p. omega (arith, sub p))

  KeepsOne-cons :
      (d : Deployment) (counts : Key → ℕ) (picked : List Deployment) (c : Key)
      → 1 < counts d.chute_id
      → KeepsOne (decrement d.chute_id counts) picked c
      → KeepsOne counts (d ∷ picked) c
  unfolding decrement
  KeepsOne-cons d counts picked c more h = elim (Bool-cases (d.chute_id == c)) [
    | inl same ↦
        let e : d.chute_id ≡ c = ground arith in
        let more' : 1 < counts c = subst (λ x. 1 < counts x) e more in
        inr (ground (arith, more', h))
    | inr other ↦ ground (arith, h)
  ]

  take-IsPicked :
      (d : Deployment) (ds : List Deployment) (counts : Key → ℕ) (available : ℕ)
      (o : Option (List Deployment))
      → is_victim b d ≡ true
      → 1 < counts d.chute_id
      → available + gpus_of d < b.chute.gpu_count
      → IsPicked (decrement d.chute_id counts) (available + gpus_of d) ds o
      → IsPicked counts available (d ∷ ds) (Option.map (λ picked. d ∷ picked) o)
  take-IsPicked d ds counts available none victim more short h = tt
  take-IsPicked d ds counts available (some picked) victim more short (v, one, n, tight, sub) = (
    (victim, v),
    λ c. KeepsOne-cons d counts picked c more (one c),
    omega arith,
    λ start. (start, tight short),
    λ p. ground (arith, sub p),
  )

  pub pick-IsPicked :
      (ds : List Deployment) (counts : Key → ℕ) (available : ℕ)
      → IsPicked counts available ds (pick b gpus_of counts available ds)
  unfolding pick
  pick-IsPicked [] counts available = tt
  pick-IsPicked (d ∷ ds) counts available =
      elim (Bool-cases (is_victim b d && ltb 1 (counts d.chute_id))) [
        | inr kept ↦ rw kept (
            skip-IsPicked d ds counts available (pick b gpus_of counts available ds)
              (pick-IsPicked ds counts available))
        | inl given_up ↦
            let victim : is_victim b d ≡ true = ground arith in
            let more : 1 < counts d.chute_id = ground arith in
            let rest = pick b gpus_of (decrement d.chute_id counts) (available + gpus_of d) ds in
            elim (Bool-cases (leb b.chute.gpu_count (available + gpus_of d))) [
              | inl enough ↦
                  rw (given_up, enough)
                    (
                      (victim, tt),
                      λ c. KeepsOne-cons d counts [] c more (inl refl),
                      ground arith,
                      λ start. (start, tt),
                      λ p. ground arith,
                    )
              | inr short ↦
                  rw (given_up, short)
                    (take-IsPicked d ds counts available rest victim more (ground arith)
                      (pick-IsPicked ds (decrement d.chute_id counts) (available + gpus_of d)))
            ]
      ]

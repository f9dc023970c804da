-- ===== src/Operator/Claim.antt =====
-- The atomic claim of _track_deployment, as an update of the table of GPUs.
use chutes_miner.Prelude.{
  ℕ, ◌+◌, ◌≤◌, ◌≡◌, refl, ◌≢◌, true, none, List, [], ◌∷◌, arith, ◌==◌, is_none, count, length,
  contains, take, filter, length-map, length-take_le,
}
use chutes_miner.Schema.{Key, Gpu, Chute}
use chutes_miner.Db.{owned_by, release, release_all}
use chutes_miner.Operator.{claim, claimed, gpu_candidates}

-- The new owner has what it had, and what was claimed.
pub count-claim_self :
    (ids : List Key) (d : Key) (gs : List Gpu)
    → count (owned_by d) (claim ids d gs) ≡ count (owned_by d) gs + claimed ids gs
unfolding claim
count-claim_self ids d [] = refl
count-claim_self ids d (g ∷ gs) = ground (arith, count-claim_self ids d gs)

-- Nobody else loses or gains a GPU.
pub count-claim_ne :
    (ids : List Key) (d e : Key) (gs : List Gpu)
    → d ≢ e
    → count (owned_by e) (claim ids d gs) ≡ count (owned_by e) gs
unfolding claim
count-claim_ne ids d e [] h = refl
count-claim_ne ids d e (g ∷ gs) h = ground (arith, count-claim_ne ids d e gs h)

set_none : (g : Gpu) → is_none g.deployment_id ≡ true → record g { deployment_id = none } ≡ g
set_none g h = ground arith

-- Giving the claimed GPUs back restores the table, if the owner is new.
pub release_all-claim :
    (ids : List Key) (d : Key) (gs : List Gpu)
    → count (owned_by d) gs ≡ 0
    → release_all d (claim ids d gs) ≡ gs
unfolding claim release_all release
release_all-claim ids d [] h = refl
release_all-claim ids d (g ∷ gs) h = ground (arith, set_none g, release_all-claim ids d gs)

-- How many rows have an id.
abbrev pub occurrences : Key → List Gpu → ℕ
occurrences i = count (λ g. g.gpu_id == i)

-- `gpu_id` is the primary key.
abbrev pub IsKeyed : List Gpu → Type 0
IsKeyed gs = (i : Key) → occurrences i gs ≤ 1

claimed_nil : (gs : List Gpu) → claimed [] gs ≡ 0
claimed_nil [] = refl
claimed_nil (g ∷ gs) = omega (arith, claimed_nil gs)

claimed_cons :
    (i : Key) (ids : List Key) (gs : List Gpu)
    → claimed (i ∷ ids) gs ≤ occurrences i gs + claimed ids gs
claimed_cons i ids [] = omega arith
claimed_cons i ids (g ∷ gs) = ground (arith, claimed_cons i ids gs)

-- No more rows are claimed than ids are given.
pub claimed-le-length : (ids : List Key) (gs : List Gpu) → IsKeyed gs → claimed ids gs ≤ length ids
claimed-le-length [] gs h = omega (arith, claimed_nil gs)
claimed-le-length (i ∷ ids) gs h =
    omega (arith, claimed_cons i ids gs, h i, claimed-le-length ids gs h)

pub length-gpu_candidates :
    (chute : Chute) (gs : List Gpu) (available : List Key)
    → length (gpu_candidates chute gs available) ≤ chute.gpu_count
unfolding gpu_candidates
length-gpu_candidates chute gs available =
    let kept = filter (λ (g : Gpu). contains g.gpu_id available) gs in
    omega (
      arith,
      length-map (λ (g : Gpu). g.gpu_id) (take chute.gpu_count kept),
      length-take_le chute.gpu_count kept,
    )

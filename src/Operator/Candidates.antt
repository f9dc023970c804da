-- ===== src/Operator/Candidates.antt =====
-- The ids that _verify_gpus returns, and the GPUs that _track_deployment chooses by them.
use mathlib.Core.List.{append_assoc}
use mathlib.Core.Path.{subst}
use native.Mathlib.Nat.{le_trans}
use chutes_miner.Prelude.{
  All, All-map, Bool, Bool-cases, List, [], arith, contains, count, count-append, false, filter,
  inl, inr, is_none, leb, map, not, refl, suc, sym, take, true, zero, ℕ, ◌&&◌, ◌++◌, ◌+◌, ◌==◌, ◌∷◌,
  ◌≡◌, ◌≤◌, ◌⊎◌,
}
use chutes_miner.Schema.{Gpu, Key}
use chutes_miner.Operator.{claimed}
use chutes_miner.Operator.Claim.{IsKeyed, occurrences}

abbrev pub ids_of : List Gpu → List Key
ids_of = map (λ (g : Gpu). g.gpu_id)

-- An item of the list is counted.
All-counted :
    (before xs : List Gpu)
    → All (λ x. (p : Gpu → Bool) → p x ≡ true → 1 ≤ count p (before ++ xs)) xs
All-counted before [] = tt
All-counted before (x ∷ xs) = (
  λ p h.
      let e : count p (x ∷ xs) ≡ 1 + count p xs = ground arith in
      omega (arith, count-append p before (x ∷ xs), e),
  subst (λ l. All (λ y. (p : Gpu → Bool) → p y ≡ true → 1 ≤ count p l) xs)
      (append_assoc before (x ∷ []) xs) (All-counted (before ++ x ∷ []) xs),
)

-- The ids of the filtered rows contain an id as far as the filtered rows do.
contains-ids_of :
    (a : Gpu → Bool) (i : Key) (gs : List Gpu)
    → contains i (ids_of (filter a gs)) ≡ leb 1 (count (λ g. g.gpu_id == i && a g) gs)
contains-ids_of a i [] = refl
contains-ids_of a i (g ∷ gs) = ground (arith, contains-ids_of a i gs)

count-split :
    (a : Gpu → Bool) (i : Key) (gs : List Gpu)
    → count (λ g. g.gpu_id == i && a g) gs + count (λ g. g.gpu_id == i && not (a g)) gs
      ≡ occurrences i gs
count-split a i [] = refl
count-split a i (g ∷ gs) = ground (arith, count-split a i gs)

-- In a table with unique ids, the filtered ids tell the rows apart as the filter does.
pub contains-filtered :
    (a : Gpu → Bool) (gs : List Gpu)
    → IsKeyed gs
    → All (λ g. contains g.gpu_id (ids_of (filter a gs)) ≡ a g) gs
contains-filtered a gs keyed = All-map gs (λ g h. one g h (Bool-cases (a g))) (All-counted [] gs)
  where
    one :
        (g : Gpu)
        → ((p : Gpu → Bool) → p g ≡ true → 1 ≤ count p gs)
        → (a g ≡ true) ⊎ (a g ≡ false)
        → contains g.gpu_id (ids_of (filter a gs)) ≡ a g
    one g h (inl kept) =
        let i = g.gpu_id in ground (arith, contains-ids_of a i gs, h (λ x. x.gpu_id == i && a x))
    one g h (inr left) =
        let i = g.gpu_id in
        ground (
          arith,
          contains-ids_of a i gs,
          count-split a i gs,
          keyed i,
          h (λ x. x.gpu_id == i && not (a x)),
        )

claimed-cons_mono :
    (i : Key) (ids : List Key) (gs : List Gpu) → claimed ids gs ≤ claimed (i ∷ ids) gs
claimed-cons_mono i ids [] = omega arith
claimed-cons_mono i ids (g ∷ gs) = ground (arith, claimed-cons_mono i ids gs)

claimed-cons_le : (ids : List Key) (g : Gpu) (gs : List Gpu) → claimed ids gs ≤ claimed ids (g ∷ gs)
claimed-cons_le ids g gs = omega arith

-- The first `n` rows that pass `q` can all be claimed, if `q` passes only free rows.
pub claimed-take :
    (q : Gpu → Bool)
    → ((g : Gpu) → q g ≡ true → is_none g.deployment_id ≡ true)
    → (gs : List Gpu) (n : ℕ) → n ≤ count q gs
    → n ≤ claimed (ids_of (take n (filter q gs))) gs
claimed-take q free gs zero h = omega arith
claimed-take q free [] (suc n) h = absurd (omega arith)
claimed-take q free (g ∷ gs) (suc n) h = elim (Bool-cases (q g)) [
  | inl kept ↦
      let rest = ids_of (take n (filter q gs)) in
      let e : count q (g ∷ gs) ≡ 1 + count q gs = ground arith in
      let same : filter q (g ∷ gs) ≡ g ∷ filter q gs = ground arith in
      let first : claimed (g.gpu_id ∷ rest) (g ∷ gs) ≡ 1 + claimed (g.gpu_id ∷ rest) gs =
        ground (arith, free g kept) in
      subst (λ l. suc n ≤ claimed (ids_of (take (suc n) l)) (g ∷ gs)) (sym same)
        (omega (
          arith,
          first,
          claimed-take q free gs n (omega (arith, e)),
          claimed-cons_mono g.gpu_id rest gs,
        ))
  | inr left ↦
      let e : count q (g ∷ gs) ≡ count q gs = ground arith in
      let same : filter q (g ∷ gs) ≡ filter q gs = ground arith in
      let ids = ids_of (take (suc n) (filter q gs)) in
      subst (λ l. suc n ≤ claimed (ids_of (take (suc n) l)) (g ∷ gs)) (sym same)
        (le_trans (claimed-take q free gs (suc n) (omega (arith, e))) (claimed-cons_le ids g gs))
]

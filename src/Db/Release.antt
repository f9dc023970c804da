-- ===== src/Db/Release.antt =====
-- What freeing the GPUs of a deployment does to the ownership of GPUs.
use chutes_miner.Prelude.{
  List, [], arith, count, find?-filter, find?-reject, is_none, none, not, refl, ◌+◌, ◌∷◌, ◌≡◌, ◌≢◌,
}
use chutes_miner.Schema.{Gpu, Key}
use chutes_miner.Db.{
  Db, delete_deployment, find_deployment, is_deployment, owned, owned_by, release, release_all,
}

pub count-release_all_self : (d : Key) (gs : List Gpu) → count (owned_by d) (release_all d gs) ≡ 0
unfolding release_all release
count-release_all_self d [] = refl
count-release_all_self d (g ∷ gs) = ground (arith, count-release_all_self d gs)

pub count-release_all_ne :
    (d e : Key) (gs : List Gpu)
    → d ≢ e
    → count (owned_by e) (release_all d gs) ≡ count (owned_by e) gs
unfolding release_all release
count-release_all_ne d e [] h = refl
count-release_all_ne d e (g ∷ gs) h = ground (arith, count-release_all_ne d e gs h)

-- The released GPUs are free again.
pub count-free-release_all :
    (d : Key) (gs : List Gpu)
    → count (λ g. is_none g.deployment_id) (release_all d gs)
      ≡ count (λ g. is_none g.deployment_id) gs + count (owned_by d) gs
unfolding release_all release
count-free-release_all d [] = refl
count-free-release_all d (g ∷ gs) = ground (arith, count-free-release_all d gs)

pub release_all_unowned :
    (d : Key) (gs : List Gpu) → count (owned_by d) gs ≡ 0 → release_all d gs ≡ gs
unfolding release_all release
release_all_unowned d [] h = refl
release_all_unowned d (g ∷ gs) h = ground (arith, release_all_unowned d gs)

-- A deployment that has no row owns no GPU: the foreign key, with its ON DELETE SET NULL.
abbrev pub IsLinked : Key → Db → Type 0
IsLinked d db = find_deployment d db ≡ none → owned d db ≡ 0

-- No trace of a deployment.
abbrev pub IsGone : Key → Db → Type 0
IsGone d db = (find_deployment d db ≡ none) × (owned d db ≡ 0)

pub delete_deployment-IsGone : (d : Key) (db : Db) → IsGone d (delete_deployment d db)
unfolding delete_deployment
delete_deployment-IsGone d db =
    (find?-reject (is_deployment d) db.deployments, count-release_all_self d db.gpus)

-- Another deployment keeps its row and its GPUs.
abbrev pub IsKept : Key → Db → Db → Type 0
IsKept e db db' = (find_deployment e db' ≡ find_deployment e db) × (owned e db' ≡ owned e db)

pub delete_deployment-IsKept : (d e : Key) (db : Db) → d ≢ e → IsKept e db (delete_deployment d db)
unfolding delete_deployment
delete_deployment-IsKept d e db ne = (
  find?-filter (is_deployment e) (λ row. not (is_deployment d row)) (λ row h. ground arith)
      db.deployments,
  count-release_all_ne d e db.gpus ne,
)

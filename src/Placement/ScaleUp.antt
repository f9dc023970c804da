-- ===== src/Placement/ScaleUp.antt =====
-- The server that optimal_scale_up_server picks, and deploy_chute on it.
use chutes_miner.Prelude.{
  All, All-filter_self, All-get_elem?, All-sort_by, Bool, Bool-cases, List, [], arith, count, false,
  filter, get_elem?, inl, inr, is_some, leb, length, some, suc, true, zero, ℕ, ◌&&◌, ◌+◌, ◌∷◌, ◌≡◌,
  ◌≤◌,
}
use chutes_miner.Schema.{Chute, Deployment, Gpu, Key, Server}
use chutes_miner.Db.{Db, find_chute, find_server, server_gpus}
use chutes_miner.State.{State}
use chutes_miner.Operator.{
  Cluster, Request, check_node_has_disk_available, deploy_chute, is_available, ok,
}
use chutes_miner.Operator.Claim.{IsKeyed}
use chutes_miner.Operator.Finish.{IsFresh, undisturbed}
use chutes_miner.Operator.Success.{IsWilling, deploy_chute_succeeds}
use chutes_miner.Placement.{
  candidates, cheaper_or_tighter, is_eligible_server, is_supported, optimal_scale_up_server,
  scale_up_candidate_pool, scale_up_query, total_gpus, used_gpus,
}

-- What a server must offer for a chute.
pub record IsSuitable (k : Cluster) (s : State) (chute : Chute) (disk_gb : ℕ) (server : Server)
    : Type 0 where
  pub unlocked : server.locked ≡ false
  pub same_tee : server.is_tee ≡ chute.tee
  pub room :
      chute.gpu_count + used_gpus server.server_id s.db.gpus
      ≤ total_gpus chute server.server_id s.db.gpus
  pub disk : leb disk_gb (k.available_gb s server.name) ≡ true

-- The conditions of the query, as a test.
abbrev is_listed : Chute → List Gpu → Server → Bool
is_listed chute gs server =
    is_eligible_server chute gs server
    && leb (chute.gpu_count + used_gpus server.server_id gs) (total_gpus chute server.server_id gs)

scale_up_query-All :
    (chute : Chute) (db : Db)
    → All (λ server. is_listed chute db.gpus server ≡ true) (scale_up_query chute db)
unfolding scale_up_query
scale_up_query-All chute db =
    All-sort_by (cheaper_or_tighter chute db.gpus) (λ server. is_listed chute db.gpus server ≡ true)
      (filter (is_listed chute db.gpus) db.servers)
      (All-filter_self (is_listed chute db.gpus) db.servers)

module _ {ℓ} (P : Server → Type ℓ) (passes : Server → Bool) where
  candidates-All :
      (room : ℕ) (servers : List Server)
      → All P servers
      → All (λ server. P server × (passes server ≡ true)) (candidates passes room servers)
  unfolding candidates
  candidates-All zero servers h = tt
  candidates-All (suc room) [] h = tt
  candidates-All (suc room) (server ∷ servers) h = elim (Bool-cases (passes server)) [
    | inl e ↦ rw e ((h.0, e), candidates-All room servers h.1)
    | inr e ↦ rw e (candidates-All (suc room) servers h.1)
  ]

-- No more than the pool's size is kept, so that the choice is among the tightest fits.
length-candidates :
    (passes : Server → Bool) (room : ℕ) (servers : List Server)
    → length (candidates passes room servers) ≤ room
unfolding candidates
length-candidates passes zero servers = omega arith
length-candidates passes (suc room) [] = omega arith
length-candidates passes (suc room) (server ∷ servers) =
    ground
      (arith, length-candidates passes room servers, length-candidates passes (suc room) servers)

module _ (k : Cluster) (choice : ℕ → ℕ) (chute : Chute) (disk_gb : ℕ) (s : State) (server : Server)
    (chosen : optimal_scale_up_server k choice chute disk_gb s ≡ some server) where
  -- A server that optimal_scale_up_server returns is unlocked, has the TEE flag of the chute, has
  -- the disk space, and its supported and verified GPUs exceed the verified GPUs in use by at
  -- least the number that the chute needs; the chute is not banned.
  pub optimal_scale_up_server-IsSuitable :
      (is_some chute.ban_reason ≡ false) × IsSuitable k s chute disk_gb server
  unfolding optimal_scale_up_server
  optimal_scale_up_server-IsSuitable = elim (Bool-cases (is_some chute.ban_reason)) [
    | inl banned ↦ absurd (ground arith)
    | inr allowed ↦
        let passes : Server → Bool = λ x. check_node_has_disk_available k s x.name disk_gb in
        let listed : Server → Type 0 = λ x. is_listed chute s.db.gpus x ≡ true in
        let pool = candidates passes scale_up_candidate_pool (scale_up_query chute s.db) in
        let taken : get_elem? pool (choice (length pool)) ≡ some server = ground arith in
        let (ok_server, ok_disk) =
          All-get_elem? (λ x. listed x × (passes x ≡ true)) pool (choice (length pool)) server
            (candidates-All listed passes scale_up_candidate_pool (scale_up_query chute s.db)
              (scale_up_query-All chute s.db))
            taken in
        (allowed, suitable server ok_server ok_disk)
  ]
    where
      suitable :
          (x : Server)
          → is_listed chute s.db.gpus x ≡ true
          → leb disk_gb (k.available_gb s x.name) ≡ true
          → IsSuitable k s chute disk_gb x
      suitable x h d = record {
        unlocked = ground arith;
        same_tee = ground arith;
        room = ground arith;
        disk = d;
      }

-- A verified GPU is available or in use.
verified_split :
    (chute : Chute) (gs : List Gpu)
    → count (is_supported chute) gs
      ≤ count is_available gs + count (λ g. g.verified && is_some g.deployment_id) gs
verified_split chute [] = omega arith
verified_split chute (g ∷ gs) = ground (arith, verified_split chute gs)

-- With the room that the query asks for, the check of deploy_chute passes.
pub enough_available :
    (chute : Chute) (server : Key) (gs : List Gpu)
    → chute.gpu_count + used_gpus server gs ≤ total_gpus chute server gs
    → chute.gpu_count ≤ count is_available (server_gpus server gs)
enough_available chute server gs h = omega (arith, h, verified_split chute (server_gpus server gs))

module _ (k : Cluster) (choice : ℕ → ℕ) (r : Request) (chute : Chute) (s : State)
    (server : Server) where
  -- Placement and allocation agree: when optimal_scale_up_server picks a server for a chute,
  -- deploy_chute of that chute on that server, with no other task in between, returns a deployment,
  -- provided that the two rows are the ones found by their ids, GPU ids are unique, the new id is
  -- new, and kubernetes accepts the service and the job. Neither the GPU check, nor the claim, nor
  -- the disk check can fail.
  pub scale_up_succeeds :
      optimal_scale_up_server k choice chute r.disk_gb s ≡ some server
      → find_chute r.chute_id s.db ≡ some chute
      → find_server r.server_id s.db ≡ some server
      → IsKeyed s.db.gpus
      → IsFresh (k.new_id s) s.db
      → IsWilling k
      → (row : Deployment) × ((deploy_chute k undisturbed r s).0 ≡ ok row)
  scale_up_succeeds chosen known found keyed fresh willing =
      let suitable =
        (optimal_scale_up_server-IsSuitable k choice chute r.disk_gb s server chosen).1 in
      deploy_chute_succeeds k r s chute server known found keyed fresh
        (enough_available chute server.server_id s.db.gpus suitable.room) suitable.disk willing

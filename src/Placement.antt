-- ===== src/Placement.antt =====
-- Where Gepetto places an instance: the queries for servers of optimal_scale_up_server,
-- preempting_deploy and optimal_scale_down_deployment, in
-- src/chutes-miner/chutes_miner/gepetto.py.
pub mod ScaleUp
pub mod ScaleDown
pub mod Tests
use mathlib.Core.List.{head?}
use chutes_miner.Prelude.{
  Bool, List, Option, [], contains, count, false, filter, get_elem?, if◌then◌else◌, is_none,
  is_some, leb, length, ltb, none, not, some, sort_by, suc, zero, ℕ, ◌&&◌, ◌*◌, ◌++◌, ◌+◌, ◌==◌,
  ◌||◌, ◌∷◌,
}
use chutes_miner.Schema.{Chute, Deployment, Gpu, Key, Server}
use chutes_miner.Db.{Db, find_server, owned_by, server_gpus}
use chutes_miner.State.{State}
use chutes_miner.Operator.{Cluster, check_node_has_disk_available}

-- `GPU.model_short_ref.in_(supported_gpus), GPU.verified.is_(True)`
abbrev pub is_supported : Chute → Gpu → Bool
is_supported chute g = contains g.model_short_ref chute.supported_gpus && g.verified

-- The subqueries total_gpus_per_server and used_gpus_per_server, at one server.
abbrev pub total_gpus : Chute → Key → List Gpu → ℕ
total_gpus chute s gs = count (is_supported chute) (server_gpus s gs)

abbrev pub used_gpus : Key → List Gpu → ℕ
used_gpus s gs = count (λ g. g.verified && is_some g.deployment_id) (server_gpus s gs)

-- The conditions that both queries share: the inner join with total_gpus_per_server leaves out a
-- server with no supported GPU.
abbrev pub is_eligible_server : Chute → List Gpu → Server → Bool
is_eligible_server chute gs server =
    leb 1 (total_gpus chute server.server_id gs)
    && (not server.locked && (if server.is_tee then chute.tee else not chute.tee))

-- `ORDER BY hourly_cost ASC, free_gpus ASC`, where free_gpus is total - used and may be negative.
abbrev pub cheaper_or_tighter : Chute → List Gpu → Server → Server → Bool
cheaper_or_tighter chute gs a b =
    ltb a.hourly_cost b.hourly_cost
    || ((a.hourly_cost == b.hourly_cost)
        && leb (total_gpus chute a.server_id gs + used_gpus b.server_id gs)
            (total_gpus chute b.server_id gs + used_gpus a.server_id gs))

-- The query of optimal_scale_up_server.
unfoldable pub scale_up_query : Chute → Db → List Server
scale_up_query chute db = sort_by (cheaper_or_tighter chute db.gpus) (
    filter
      (λ server.
        is_eligible_server chute db.gpus server
        && leb (chute.gpu_count + used_gpus server.server_id db.gpus)
            (total_gpus chute server.server_id db.gpus))
      db.servers)

-- The query of preempting_deploy: the GPUs in use count too.
unfoldable pub preempt_query : Chute → Db → List Server
preempt_query chute db = sort_by (cheaper_or_tighter chute db.gpus) (
    filter
      (λ server.
        is_eligible_server chute db.gpus server
        && leb chute.gpu_count (total_gpus chute server.server_id db.gpus))
      db.servers)

-- SCALE_UP_CANDIDATE_POOL
abbrev pub scale_up_candidate_pool : ℕ
scale_up_candidate_pool = 2

-- The loop over the servers: those that pass the disk check, until `room` of them are found.
unfoldable pub candidates : (passes : Server → Bool) → (room : ℕ) → List Server → List Server
candidates passes zero servers = []
candidates passes (suc room) [] = []
candidates passes (suc room) (server ∷ servers) =
    let taken = server ∷ candidates passes room servers in
    let left = candidates passes (suc room) servers in if passes server then taken else left

-- Gepetto.optimal_scale_up_server, with the index that `random.choice` takes below the length that
-- it is given.
unfoldable pub optimal_scale_up_server :
    (k : Cluster) → (choice : ℕ → ℕ) → Chute → (disk_gb : ℕ) → State → Option Server
unfolding scale_up_query candidates
optimal_scale_up_server k choice chute disk_gb s =
    if is_some chute.ban_reason
    then none
    else (let pool =
          candidates (λ server. check_node_has_disk_available k s server.name disk_gb)
            scale_up_candidate_pool (scale_up_query chute s.db) in
        get_elem? pool (choice (length pool)))

-- 63 minutes
abbrev pub min_age_to_remove : ℕ
min_age_to_remove = 63 * 60

-- `Deployment.activated_at <= func.now() - timedelta(minutes=63)`, which NULL does not satisfy.
abbrev pub is_older_than : ℕ → ℕ → Option ℕ → Bool
is_older_than age now none = false
is_older_than age now (some t) = leb (t + age) now

-- A row of the query of optimal_scale_down_deployment, which joins GPU, and Server by the GPU: a
-- deployment, with the server of one of its GPUs.
abbrev pub JoinedRow : Type 0
JoinedRow = Deployment × Server

unfoldable pub join_gpus : Db → Deployment → List Gpu → List JoinedRow
join_gpus db d [] = []
join_gpus db d (g ∷ gs) =
    let rest = join_gpus db d gs in
    if owned_by d.deployment_id g
    then elim (find_server g.server_id db) [ none ↦ rest | some server ↦ (d, server) ∷ rest ]
    else rest

unfoldable pub join_all : Db → List Deployment → List JoinedRow
join_all db [] = []
join_all db (d ∷ ds) = join_gpus db d db.gpus ++ join_all db ds

-- The WHERE clause of optimal_scale_down_deployment.
abbrev pub is_removable : (now : ℕ) → Chute → JoinedRow → Bool
is_removable now chute (d, server) =
    not server.locked
    && (d.preemptible
        && ((d.chute_id == chute.chute_id)
            && (is_none d.job_id && is_older_than min_age_to_remove now d.activated_at)))

-- The removal score is `hourly_cost * (used_gpus / total_gpus)` of the row's server, over all of the
-- server's GPUs. Two scores are compared by their numerators over a common denominator.
abbrev pub score_numerator : Db → Server → ℕ
score_numerator db server =
    server.hourly_cost * count (λ g. is_some g.deployment_id) (server_gpus server.server_id db.gpus)

abbrev pub score_denominator : Db → Server → ℕ
score_denominator db server = length (server_gpus server.server_id db.gpus)

abbrev pub scores_at_least : Db → JoinedRow → JoinedRow → Bool
scores_at_least db a b =
    leb (score_numerator db b.1 * score_denominator db a.1)
      (score_numerator db a.1 * score_denominator db b.1)

abbrev pub deployment_of : Option JoinedRow → Option Deployment
deployment_of none = none
deployment_of (some row) = some row.0

-- Gepetto.optimal_scale_down_deployment: of the first removable row by descending score.
unfoldable pub optimal_scale_down_deployment : (now : ℕ) → Chute → Db → Option Deployment
unfolding join_gpus join_all
optimal_scale_down_deployment now chute db = deployment_of (
    head?
      (sort_by (scores_at_least db) (filter (is_removable now chute) (join_all db db.deployments))))

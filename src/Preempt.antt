-- ===== src/Preempt.antt =====
-- The plan of Gepetto.preempting_deploy: which server, and which of its deployments make room, in
-- src/chutes-miner/chutes_miner/gepetto.py.
pub mod Plan
pub mod Safety
pub mod Tests
use mathlib.Core.Option
use chutes_miner.Prelude.{
  Bool, List, Option, [], count, false, find?, if◌then◌else◌, is_none, is_some, leb, ltb, map, none,
  not, some, sort_by, ℕ, ◌&&◌, ◌*◌, ◌+◌, ◌-◌, ◌==◌, ◌∷◌,
}
use chutes_miner.Schema.{Chute, Deployment, Key, Server}
use chutes_miner.Db.{Db, owned, server_deployments, server_gpus}

-- An entry of global_active_instances: the instances of all miners, with their multipliers.
pub record Instance : Type 0 where
  pub chute_id : Key
  pub instance_id : Key
  pub compute_multiplier : ℕ

-- Gepetto._get_global_instance_count, and the counts that preempting_deploy builds.
abbrev pub global_count : List Instance → Key → ℕ
global_count instances c = count (λ x. x.chute_id == c) instances

-- Gepetto._get_instance_multiplier_from_global
unfoldable pub multiplier : List Instance → Option Key → ℕ
multiplier instances none = 0
multiplier instances (some i) = elim (find? (λ x. x.instance_id == i) instances) [
  | none ↦ 0
  | some x ↦ x.compute_multiplier
]

-- 62 minutes
abbrev pub min_age_to_preempt : ℕ
min_age_to_preempt = 62 * 60

-- The deployment has been active for more than 62 minutes.
abbrev pub is_old : (now : ℕ) → Option ℕ → Bool
is_old now none = false
is_old now (some t) = ltb (t + min_age_to_preempt) now

-- `proposed_counts[c] -= 1`
unfoldable pub decrement : Key → (Key → ℕ) → Key → ℕ
decrement c counts e = if e == c then counts e - 1 else counts e

-- What the plan is for: the chute, its effective multiplier, the time, the instances.
pub record Bid : Type 0 where
  pub chute : Chute
  pub effective_multiplier : ℕ
  pub now : ℕ
  pub instances : List Instance

-- The `continue`s of the loop that do not depend on the counts.
abbrev pub is_victim : Bid → Deployment → Bool
is_victim b d =
    is_none d.job_id
    && (d.preemptible
        && (is_some d.activated_at
            && (not (d.chute_id == b.chute.chute_id)
                && (is_old b.now d.activated_at
                    && ltb (multiplier b.instances d.instance_id) b.effective_multiplier))))

-- The loop over a server's deployments: `gpus_of` is `len(deployment.gpus)`, `available` the free
-- GPUs so far, `counts` the proposed counts. `none` is the end of the loop with too few GPUs.
unfoldable pub pick :
    Bid
    → (gpus_of : Deployment → ℕ) → (counts : Key → ℕ) → (available : ℕ) → List Deployment
    → Option (List Deployment)
pick b gpus_of counts available [] = none
pick b gpus_of counts available (d ∷ ds) =
    let left = pick b gpus_of counts available ds in
    let more =
      Option.map (λ picked. d ∷ picked)
        (pick b gpus_of (decrement d.chute_id counts) (available + gpus_of d) ds) in
    if is_victim b d && ltb 1 (counts d.chute_id)
    then (if leb b.chute.gpu_count (available + gpus_of d) then some (d ∷ []) else more)
    else left

-- `sum([1 for gpu in server.gpus if not gpu.deployment_id])`
abbrev pub free_gpus : Key → Db → ℕ
free_gpus s db = count (λ g. is_none g.deployment_id) (server_gpus s db.gpus)

-- Lowest multiplier first.
abbrev pub cheaper : Bid → Deployment → Deployment → Bool
cheaper b d e = leb (multiplier b.instances d.instance_id) (multiplier b.instances e.instance_id)

-- One round of the loop over the servers: the deployments to preempt, if the server will do.
unfoldable pub plan_server : Bid → Db → Server → Option (List Deployment)
plan_server b db server =
    if leb b.chute.gpu_count (free_gpus server.server_id db)
    then some []
    else pick b (λ d. owned d.deployment_id db) (global_count b.instances)
        (free_gpus server.server_id db)
        (sort_by (cheaper b) (server_deployments server.server_id db.deployments))

-- The loop over the servers: the target, and what to preempt on it.
unfoldable pub plan : Bid → Db → List Server → Option (Server × List Deployment)
plan b db [] = none
plan b db (server ∷ servers) =
    let later = plan b db servers in
    elim (plan_server b db server) [ some victims ↦ some (server, victims) | none ↦ later ]

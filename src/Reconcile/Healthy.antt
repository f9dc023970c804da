-- ===== src/Reconcile/Healthy.antt =====
-- What reconcile leaves alone, and what it does not.
use chutes_miner.Prelude.{Bool, List, Option, contains, false, none, some, true, ◌&&◌}
use chutes_miner.Schema.{Key}
use chutes_miner.State.{State}
use chutes_miner.Reconcile.{Sweep}
use chutes_miner.Inventory.{Judgement, job_kept, legacy, rolling, sound}

-- The row is kept and tracked, whatever its job's state is.
abbrev pub is_kept : Judgement → Bool
is_kept job_kept = true
is_kept rolling = true
is_kept legacy = true
is_kept sound = true
is_kept _ = false

abbrev tracks_instance : Option Key → List Key → Bool
tracks_instance none xs = true
tracks_instance (some i) xs = contains i xs

-- The row and its instance are tracked.
abbrev pub tracks : Key → Option Key → Sweep → Bool
tracks d i w = contains d w.all_deployments && tracks_instance i w.all_instances

abbrev any_sweep : Sweep → Bool
any_sweep w = true

-- ===== src/Systems.antt =====
-- Concrete answers of the other systems, for the tests: kubernetes, the validator 900 and the
-- agents, each one that helps and one that refuses.
use chutes_miner.Prelude.{List, [], false, none, refl, some, true, ◌∷◌}
use chutes_miner.Schema.{Key}
use chutes_miner.Action.{return}
use chutes_miner.Operator.{Cluster}
use chutes_miner.Operator.Finish.{undisturbed}
use chutes_miner.Operator.Success.{IsWilling}
use chutes_miner.Gepetto.{Outside}
use chutes_miner.Preempt.{Instance}
use chutes_miner.Launch.{Controller}

-- Every service gets port 31000, every job is accepted, and each node has 500 GB.
abbrev pub willing : Cluster
willing = record {
  available_gb = λ s node. 500;
  deploy_service = λ s d. some 31000;
  deploy_job = λ s d. true;
  new_id = λ s. 99;
  now = λ s. 10000;
}

pub willing-IsWilling : IsWilling willing
willing-IsWilling = record { service = λ s d. (31000, refl); job = λ s d. refl }

-- Every preflight is allowed, and the time is 10000.
abbrev pub obliging : Outside
obliging = record {
  validators = 900 ∷ [];
  miner_hotkey = 800;
  delete_preflight = λ s d. return true;
  pods_deleted = λ s d. true;
  agent_stops = λ s a. true;
  now = λ s. 10000;
}

-- No preflight is allowed.
abbrev pub blocking : Outside
blocking = record obliging { delete_preflight = λ s d. return false }

-- An instance of a chute, of the multiplier 3.
abbrev instance_of : (chute_id instance_id : Key) → Instance
instance_of c i = record { chute_id = c; instance_id = i; compute_multiplier = 3 }

-- The instances of the sample's deployments.
abbrev pub active_instances : List Instance
active_instances = instance_of 2 61 ∷ instance_of 2 62 ∷ instance_of 2 63 ∷ []

-- The validator gives out launch configs and accepts announcements, as instance 70.
abbrev pub controller : Controller
controller = record {
  out = obliging;
  cluster = willing;
  others = undisturbed;
  wants_token = λ v. true;
  launch_config = λ s chute j. some 77;
  announcement = λ s d. some 70;
  choice = λ s n. 0;
  instances = λ s v. active_instances;
  effective_multiplier = λ s chute. 5;
  stores_code = λ s chute. true;
}

-- The validator gives out no launch config.
abbrev pub without_token : Controller
without_token = record controller { launch_config = λ s chute j. none }

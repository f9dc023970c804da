-- ===== src/Sample.antt =====
-- A small database that the tests and the instances of the theorems run on: two chutes, two
-- servers with GPUs of two models, and three deployments.
use chutes_miner.Prelude.{List, Option, [], false, none, some, true, ℕ, ◌+◌, ◌∷◌}
use chutes_miner.Schema.{Chute, Deployment, Gpu, Key, Server}
use chutes_miner.Db.{Db}
use chutes_miner.State.{State}

abbrev pub chute : (chute_id gpu_count : ℕ) → List Key → Chute
chute c n supported = record {
  chute_id = c;
  validator = 900;
  name = c;
  image = 1;
  code = 1;
  filename = 1;
  ref_str = 1;
  version = 1;
  supported_gpus = supported;
  gpu_count = n;
  ban_reason = none;
  chutes_version = none;
  preemptible = true;
  tee = true;
}

abbrev pub gpu : (gpu_id server_id : Key) → (owner : Option Key) → Gpu
gpu g s owner = record {
  gpu_id = g;
  validator = some 900;
  server_id = s;
  deployment_id = owner;
  model_short_ref = 7;
  verified = true;
}

abbrev pub server : (server_id hourly_cost gpu_count : ℕ) → Server
server s cost n = record {
  server_id = s;
  validator = 900;
  name = s + 1000;
  ip_address = some 5;
  agent_api = some 6;
  gpu_count = n;
  hourly_cost = cost;
  locked = false;
  is_tee = true;
}

-- An active deployment, started at 100.
abbrev pub deployment : (deployment_id instance_id chute_id server_id : Key) → Deployment
deployment d i c s = record {
  deployment_id = d;
  instance_id = some i;
  validator = 900;
  host = some 5;
  port = some 30000;
  chute_id = c;
  server_id = s;
  version = 1;
  active = true;
  verified_at = some 100;
  activated_at = some 100;
  stub = false;
  job_id = none;
  config_id = none;
  created_at = 50;
  preemptible = true;
}

abbrev pub big_chute : Chute
big_chute = chute 1 2 (7 ∷ [])

abbrev pub small_chute : Chute
small_chute = chute 2 1 (7 ∷ [])

-- Server 10 has GPUs 101, 102 (of deployment 51) and 103; server 20 has 201 (of 52) and 202 (of 53).
abbrev pub first_server : Server
first_server = server 10 4 3

abbrev pub second_server : Server
second_server = server 20 3 2

abbrev pub sample : Db
sample = record {
  chutes = big_chute ∷ small_chute ∷ [];
  servers = first_server ∷ second_server ∷ [];
  gpus =
      gpu 101 10 none
      ∷ gpu 102 10 (some 51)
      ∷ gpu 103 10 none
      ∷ gpu 201 20 (some 52)
      ∷ gpu 202 20 (some 53)
      ∷ [];
  deployments = deployment 51 61 2 10 ∷ deployment 52 62 2 20 ∷ deployment 53 63 2 20 ∷ [];
}

abbrev pub start : State
start = record { db = sample; log = [] }

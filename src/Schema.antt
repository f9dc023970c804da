-- ===== src/Schema.antt =====
-- The rows of the miner's tables: src/chutes-common/chutes_common/schemas/chute.py, gpu.py,
-- server.py and deployment.py.
--
-- Identifiers, hotkeys, names, versions and GPU model references are texts that this code only
-- compares for equality, so they are numbers here. Times are seconds, and the float columns that
-- are only compared (`hourly_cost`, compute multipliers) are whole numbers of a fixed small unit.
-- A nullable column is an `Option`.
use chutes_miner.Prelude.{ℕ, Bool, Option, List}

-- An identifier, a hotkey, a name, a version: a text that is only compared.
abbrev pub Key : Type 0
Key = ℕ

pub record Chute : Type 0 where
  pub chute_id : Key
  pub validator : Key
  pub name : Key
  pub image : Key
  pub code : Key
  pub filename : Key
  pub ref_str : Key
  pub version : Key
  pub supported_gpus : List Key
  pub gpu_count : ℕ
  pub ban_reason : Option Key
  pub chutes_version : Option Key
  pub preemptible : Bool
  pub tee : Bool

pub record Gpu : Type 0 where
  pub gpu_id : Key
  pub validator : Option Key
  pub server_id : Key
  pub deployment_id : Option Key
  pub model_short_ref : Key
  pub verified : Bool

pub record Server : Type 0 where
  pub server_id : Key
  pub validator : Key
  pub name : Key
  pub ip_address : Option Key
  pub agent_api : Option Key
  pub gpu_count : ℕ
  pub hourly_cost : ℕ
  pub locked : Bool
  pub is_tee : Bool

pub record Deployment : Type 0 where
  pub deployment_id : Key
  pub instance_id : Option Key
  pub validator : Key
  pub host : Option Key
  pub port : Option ℕ
  pub chute_id : Key
  pub server_id : Key
  pub version : Key
  pub active : Bool
  pub verified_at : Option ℕ
  pub activated_at : Option ℕ
  pub stub : Bool
  pub job_id : Option Key
  pub config_id : Option Key
  pub created_at : ℕ
  pub preemptible : Bool

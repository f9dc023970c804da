-- ===== src/Gepetto/Events.antt =====
-- The events that Gepetto.setup_handlers of src/chutes-miner/chutes_miner/gepetto.py registers the
-- handlers of this part for.
use chutes_miner.Prelude.{List, [], none, ◌∷◌}
use chutes_miner.Schema.{Key}
use chutes_miner.State.{State}
use chutes_miner.Action.{Action}
use chutes_miner.Gepetto.{
  Outside, chute_deleted, gpu_deleted, gpu_verified, instance_activated, instance_created,
  instance_deleted, instance_verified, job_deleted_event, server_deleted, undeploy,
}

-- The events that remove or mark rows, with the fields that the handlers read.
pub data Event : Type 0 where
  gpu_verified_event gpu_deleted_event server_deleted_event job_gone instance_gone : Key → Event
  activated : (config_id : Key) → Event
  created : (miner_hotkey config_id instance_id : Key) → Event
  verified_event : (miner_hotkey instance_id : Key) → Event
  chute_gone : (chute_id version validator : Key) → Event
  undeploy_event : Key → Event

module _ (out : Outside) where
  -- The handler that Gepetto.setup_handlers registers for an event.
  unfoldable pub handle : Event → Action (Unit {0})
  handle (gpu_verified_event g) = gpu_verified out g
  handle (gpu_deleted_event g) = gpu_deleted out g
  handle (server_deleted_event s) = server_deleted out s
  handle (job_gone j) = job_deleted_event out j
  handle (instance_gone i) = instance_deleted out i
  handle (activated c) = instance_activated out c
  handle (created m c i) = instance_created out m c i
  handle (verified_event m i) = instance_verified out m i
  handle (chute_gone c v h) = chute_deleted out c v h
  handle (undeploy_event d) = undeploy out d none

  -- Events one after another. An exception ends its own handler only.
  unfoldable pub handle_all : List Event → State → State
  handle_all [] s = s
  handle_all (e ∷ es) s = handle_all es (handle e s).1

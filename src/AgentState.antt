-- ===== src/AgentState.antt =====
-- The state of an agent and how its tasks start and stop: ResourceMonitor of
-- src/chutes-agent/chutes_agent/monitor.py, with MonitoringState of
-- src/chutes-common/chutes_common/monitoring/models.py.
use chutes_miner.Prelude.{Bool, Option, false, if◌then◌else◌, ltb, none, some, true, ℕ, ◌+◌, ◌-◌}
use chutes_miner.Schema.{Key}
use chutes_miner.Control.{
  Fault, cluster_conflict, cluster_not_found, failed, registration_failed, server_not_found,
}

-- MonitoringState
pub data MonitoringState : Type 0 where
  stopped starting running degraded error : MonitoringState

abbrev pub is_running : MonitoringState → Bool
is_running running = true
is_running _ = false

abbrev pub is_starting : MonitoringState → Bool
is_starting starting = true
is_starting _ = false

abbrev pub is_degraded : MonitoringState → Bool
is_degraded degraded = true
is_degraded _ = false

abbrev pub is_failing : MonitoringState → Bool
is_failing error = true
is_failing _ = false

-- ResourceMonitor. `client` is the base URL of its client. `watcher_task` says that the handle of
-- that name is of a task that is not done, and `watchers` counts the tasks of this kind that are not
-- done, also those whose handle was overwritten; likewise for the heartbeat. `recovery` is the delay
-- before the next round of the recovery loop, if it runs, and `restart` the number of attempts
-- that a scheduled restart still has.
pub record Agent : Type 0 where
  pub state : MonitoringState
  pub client : Option Key
  pub url_file : Option Key
  pub watcher_task : Bool
  pub watchers : ℕ
  pub heartbeat_task : Bool
  pub heartbeats : ℕ
  pub recovery : Option ℕ
  pub restart : Option ℕ

-- ResourceMonitor.__init__, with what the file holds.
abbrev pub fresh : Option Key → Agent
fresh file = record {
  state = stopped;
  client = none;
  url_file = file;
  watcher_task = false;
  watchers = 0;
  heartbeat_task = false;
  heartbeats = 0;
  recovery = none;
  restart = none;
}

-- What cancelling the task behind a handle leaves of the running ones.
abbrev pub cancelled : (handle : Bool) → ℕ → ℕ
cancelled true n = n - 1
cancelled false n = n

-- ResourceMonitor._start_monitoring_tasks: both handles are overwritten.
abbrev pub start_monitoring_tasks : Agent → Agent
start_monitoring_tasks a = record a {
  state = running;
  watcher_task = true;
  watchers = a.watchers + 1;
  heartbeat_task = true;
  heartbeats = a.heartbeats + 1;
}

-- ResourceMonitor._stop_monitoring_tasks
abbrev pub stop_tasks : Agent → Agent
stop_tasks a = record a {
  state = stopped;
  watcher_task = false;
  watchers = cancelled a.watcher_task a.watchers;
  heartbeat_task = false;
  heartbeats = cancelled a.heartbeat_task a.heartbeats;
}

-- ResourceMonitor.stop_monitoring_tasks, which ends the recovery loop and a restart first.
abbrev pub stop_monitoring_tasks : Agent → Agent
stop_monitoring_tasks a = stop_tasks (record a { recovery = none; restart = none })

-- ResourceMonitor._stop_and_clear_url
abbrev pub stop_and_clear_url : Agent → Agent
stop_and_clear_url a = record (stop_tasks a) { url_file = none }

-- ResourceMonitor._ensure_recovery_loop: a new loop begins with a delay of 5.
abbrev pub ensure_recovery_loop : Agent → Agent
ensure_recovery_loop a = elim a.recovery [ none ↦ record a { recovery = some 5 } | some delay ↦ a ]

-- ResourceMonitor._restart, while no attempt holds the lock.
unfoldable pub restart_monitoring : Agent → Agent
restart_monitoring a = record a { restart = if is_running a.state then some 10 else none }

-- The end of _try_connect: whether it is settled.
unfoldable pub after_connecting : Option Fault → Agent → Bool × Agent
after_connecting none a = (true, start_monitoring_tasks a)
after_connecting (some server_not_found) a = (true, stop_and_clear_url a)
after_connecting (some cluster_conflict) a = (false, record a { state = degraded })
after_connecting (some cluster_not_found) a = (false, record a { state = degraded })
after_connecting (some registration_failed) a = (false, record a { state = degraded })
after_connecting (some failed) a = (false, record a { state = degraded })

-- The end of an attempt of _async_restart. One that fails is retried until ten have failed.
unfoldable pub after_restart : Option Fault → Agent → Agent
after_restart none a = record (start_monitoring_tasks a) { restart = none }
after_restart (some fault) a = record a {
  state = error;
  restart = elim a.restart [ none ↦ none | some n ↦ if ltb n 2 then none else some (n - 1) ];
}

-- The end of a round of send_heartbeat: a failure ends the task, after _restart.
unfoldable pub after_beat : Option Fault → Agent → Agent
after_beat none a = a
after_beat (some fault) a = record (restart_monitoring a) {
  heartbeat_task = false;
  heartbeats = a.heartbeats - 1;
}

-- How ResourceMonitor.stop ends: normally, with InvalidOperationError, or with another exception.
pub data Stopping : Type 0 where
  stopped_well no_client removal_failed : Stopping

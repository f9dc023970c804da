-- ===== src/Agent/Invariant.antt =====
-- What holds of an agent between its steps.
use chutes_miner.Prelude.{
  Bool, Bool-cases, List, Option, Option-cases, arith, false, if◌then◌else◌, inl, inr, is_some, leb,
  min, none, not, refl, some, true, ℕ, ◌&&◌, ◌*◌, ◌||◌, ◌≡◌,
}
use chutes_miner.Schema.{Key}
use chutes_miner.Cache.{Resource}
use chutes_miner.Control.{
  Fault, Plane, cluster_conflict, cluster_not_found, failed, registration_failed, remove_cluster,
  server_not_found,
}
use chutes_miner.Agent.{
  announce, auto_start, beat, beat_with, get_stop, leave, load_control_plane_url, post_start,
  recovery_round, restart_attempt, send_all_resources, send_with, start, stop, try_connect,
}
use chutes_miner.Agent.Lifecycle.{
  Reachable, boot, heart_beats, recovery_wakes, restart_runs, start_request, stop_request,
  watch_gives_up, world_moves,
}
use chutes_miner.AgentState.{
  Agent, after_beat, after_connecting, after_restart, degraded, ensure_recovery_loop, fresh,
  is_degraded, is_running, is_starting, restart_monitoring, stop_and_clear_url,
  stop_monitoring_tasks, stop_tasks,
}

abbrev implies : Bool → Bool → Bool
implies p q = not p || q

-- A delay of the recovery loop.
abbrev is_delay : Option ℕ → Bool
is_delay none = true
is_delay (some delay) = leb 5 delay && leb delay 300

pub record IsTidy (a : Agent) : Type 0 where
  -- No task has been left behind by its handle.
  pub watchers_held : a.watchers ≡ (if a.watcher_task then 1 else 0)
  pub heartbeats_held : a.heartbeats ≡ (if a.heartbeat_task then 1 else 0)
  -- The watches run in the state RUNNING and in no other.
  pub watched : a.watcher_task ≡ is_running a.state
  pub beating : implies a.heartbeat_task (is_running a.state) ≡ true
  -- A running agent that sends no heartbeats has a restart ahead.
  pub alive : implies (is_running a.state) (a.heartbeat_task || is_some a.restart) ≡ true
  -- A degraded agent has its recovery loop, with a delay from 5 to 300.
  pub recovering : implies (is_degraded a.state) (is_some a.recovery) ≡ true
  pub paced : is_delay a.recovery ≡ true
  -- What needs the client has one.
  pub connected : implies (is_running a.state || is_some a.restart) (is_some a.client) ≡ true
  -- STARTING is passed within a step.
  pub decided : is_starting a.state ≡ false

fresh-IsTidy : (file : Option Key) → IsTidy (fresh file)
fresh-IsTidy file = ground arith

stop_tasks-IsTidy : (a : Agent) → IsTidy a → IsTidy (stop_tasks a)
stop_tasks-IsTidy a t = ground (arith, t.watchers_held, t.heartbeats_held, t.paced, t.connected)

-- The file plays no part in it.
filed-IsTidy : (file : Option Key) (a : Agent) → IsTidy a → IsTidy (record a { url_file = file })
filed-IsTidy file a t = ground (
  arith, t.watchers_held, t.heartbeats_held, t.watched, t.beating, t.alive, t.recovering, t.paced,
  t.connected, t.decided,
)

ended-IsTidy : (a : Agent) → IsTidy a → IsTidy (stop_monitoring_tasks a)
ended-IsTidy a t = ground (arith, t.watchers_held, t.heartbeats_held)

degraded-IsTidy :
    (a : Agent) (url : Key)
    → IsTidy a
    → is_running a.state ≡ false
    → IsTidy (ensure_recovery_loop (record a { state = degraded; client = some url }))
degraded-IsTidy a url t idle = elim (Option-cases a.recovery) [
  | inl e ↦ rw e (ground (arith, t.watchers_held, t.heartbeats_held, t.watched, t.beating))
  | inr (d, e) ↦
      rw e (ground (arith, t.watchers_held, t.heartbeats_held, t.watched, t.beating, t.paced))
]

-- A connection attempt of an agent that does not run.
connect-IsTidy :
    (fault : Option Fault) (a : Agent) (url : Key)
    → IsTidy a
    → is_running a.state ≡ false
    → let (settled, a') = after_connecting fault (record a { client = some url }) in
      IsTidy (if settled then a' else ensure_recovery_loop a')
unfolding after_connecting
connect-IsTidy none a url t idle =
    ground (arith, t.watchers_held, t.heartbeats_held, t.watched, t.beating, t.paced)
connect-IsTidy (some server_not_found) a url t idle =
    ground (arith, t.watchers_held, t.heartbeats_held, t.paced)
connect-IsTidy (some cluster_conflict) a url t idle = degraded-IsTidy a url t idle
connect-IsTidy (some cluster_not_found) a url t idle = degraded-IsTidy a url t idle
connect-IsTidy (some registration_failed) a url t idle = degraded-IsTidy a url t idle
connect-IsTidy (some failed) a url t idle = degraded-IsTidy a url t idle

slower-IsTidy :
    (delay : ℕ) (a : Agent) (url : Key)
    → IsTidy a
    → is_running a.state ≡ false
    → is_delay (some delay) ≡ true
    → IsTidy
        (record a { state = degraded; client = some url; recovery = some (min (delay * 2) 300) })
slower-IsTidy delay a url t idle d =
    ground (arith, t.watchers_held, t.heartbeats_held, t.watched, t.beating)

-- The same attempt as a round of the recovery loop.
reconnect-IsTidy :
    (fault : Option Fault) (delay : ℕ) (a : Agent) (url : Key)
    → IsTidy a
    → is_running a.state ≡ false
    → is_delay (some delay) ≡ true
    → let (settled, a') = after_connecting fault (record a { client = some url }) in
      IsTidy (record a' { recovery = if settled then none else some (min (delay * 2) 300) })
unfolding after_connecting
reconnect-IsTidy none delay a url t idle d =
    ground (arith, t.watchers_held, t.heartbeats_held, t.watched, t.beating)
reconnect-IsTidy (some server_not_found) delay a url t idle d =
    ground (arith, t.watchers_held, t.heartbeats_held)
reconnect-IsTidy (some cluster_conflict) delay a url t idle d = slower-IsTidy delay a url t idle d
reconnect-IsTidy (some cluster_not_found) delay a url t idle d = slower-IsTidy delay a url t idle d
reconnect-IsTidy (some registration_failed) delay a url t idle d =
    slower-IsTidy delay a url t idle d
reconnect-IsTidy (some failed) delay a url t idle d = slower-IsTidy delay a url t idle d

superseded-IsTidy :
    (a : Agent) → IsTidy a → is_degraded a.state ≡ false → IsTidy (record a { recovery = none })
superseded-IsTidy a t h = ground (
  arith, t.watchers_held, t.heartbeats_held, t.watched, t.beating, t.alive, t.connected, t.decided,
)

restarted-IsTidy :
    (fault : Option Fault) (n : ℕ) (a : Agent)
    → IsTidy a
    → a.restart ≡ some n
    → IsTidy (after_restart fault (stop_tasks a))
unfolding after_restart
restarted-IsTidy none n a t e =
    ground (arith, t.watchers_held, t.heartbeats_held, t.paced, t.connected, e)
restarted-IsTidy (some fault) n a t e =
    ground (arith, t.watchers_held, t.heartbeats_held, t.paced, t.connected, e)

-- _restart of a running agent, alone and when its heartbeat has ended.
scheduled-IsTidy : (a : Agent) → IsTidy a → a.watcher_task ≡ true → IsTidy (restart_monitoring a)
unfolding restart_monitoring
scheduled-IsTidy a t e = ground (
  arith, t.watchers_held, t.heartbeats_held, t.watched, t.beating, t.recovering, t.paced,
  t.connected, t.decided,
)

after_beat-IsTidy :
    (fault : Option Fault) (a : Agent)
    → IsTidy a
    → a.heartbeat_task ≡ true
    → IsTidy (after_beat fault a)
unfolding after_beat restart_monitoring
after_beat-IsTidy none a t e = t
after_beat-IsTidy (some fault) a t e = ground (
  arith, t.watchers_held, t.heartbeats_held, t.watched, t.beating, t.recovering, t.paced,
  t.connected, t.decided,
)

module _ {W : Type 0} (plane : Plane W) (usable : Key → Bool)
    (collect : W → Option (List Resource) × W) where
  attempt-IsTidy :
      (url : Key) (is_new : Bool) (a : Agent) (w : W)
      → IsTidy a
      → let (settled, (a', w')) = try_connect plane usable collect url is_new (a, w) in
        IsTidy (if settled then a' else ensure_recovery_loop a')
  unfolding try_connect
  attempt-IsTidy url is_new a w t = elim (Bool-cases (is_running a.state)) [
    | inl busy ↦ rw busy t
    | inr idle ↦
        rw idle (connect-IsTidy (announce plane usable collect url is_new w).0 a url t idle)
  ]

  auto_start-IsTidy :
      (a : Agent) (w : W) → IsTidy a → IsTidy (auto_start plane usable collect (a, w)).0
  unfolding auto_start
  auto_start-IsTidy a w t = elim (Option-cases (load_control_plane_url plane usable collect a)) [
    | inl e ↦ rw (e, auto_start) t
    | inr (url, e) ↦ rw (e, auto_start) (attempt-IsTidy url false a w t)
  ]

  post_start-IsTidy :
      (url : Key) (a : Agent) (w : W)
      → IsTidy a
      → IsTidy (post_start plane usable collect url (a, w)).1.0
  unfolding post_start start
  post_start-IsTidy url a w t = elim (Bool-cases (is_running a.state)) [
    | inl busy ↦ rw busy t
    | inr idle ↦
        rw idle (
          attempt-IsTidy url true (record a { url_file = some url }) w
            (filed-IsTidy (some url) a t))
  ]

  leave-IsTidy :
      (client : Option Key) (a : Agent) (w : W)
      → IsTidy a
      → IsTidy (leave plane usable collect client a w).1.0
  unfolding leave
  leave-IsTidy none a w t = t
  leave-IsTidy (some url) a w t = elim (Option-cases (remove_cluster plane url w).0) [
    | inl well ↦ rw (well, leave) (filed-IsTidy none a t)
    | inr (f, bad) ↦ rw (bad, leave) t
  ]

  recovery_round-IsTidy :
      (delay : ℕ) (a : Agent) (w : W)
      → a.recovery ≡ some delay
      → IsTidy a
      → IsTidy (recovery_round plane usable collect delay (a, w)).0
  unfolding recovery_round try_connect
  recovery_round-IsTidy delay a w e t = elim (Bool-cases (is_degraded a.state)) [
    | inr h ↦ rw h (superseded-IsTidy a t h)
    | inl h ↦ elim (Option-cases (load_control_plane_url plane usable collect a)) [
      | inl gone ↦
          rw (h, gone)
            (superseded-IsTidy (stop_and_clear_url a)
              (filed-IsTidy none (stop_tasks a) (stop_tasks-IsTidy a t)) refl)
      | inr (url, found) ↦
          let idle : is_running a.state ≡ false = ground (arith, h) in
          rw (h, found, idle)
            (reconnect-IsTidy (send_all_resources plane usable collect url w).0 delay a url t idle
              (ground (arith, e, t.paced)))
    ]
  ]

  -- In every state that an agent reaches, at most one task watches and one sends heartbeats, and
  -- none is lost behind its handle; they run in the state RUNNING only, and a running agent whose
  -- heartbeats have ended has a restart ahead; a degraded agent has its recovery loop, whose
  -- delays are from 5 to 300 seconds; and a running or restarting agent has a client.
  pub Reachable-IsTidy : (x : Agent × W) → Reachable plane usable collect x → IsTidy x.0
  unfolding restart_attempt get_stop stop beat
  Reachable-IsTidy _ (boot file w) = auto_start-IsTidy (fresh file) w (fresh-IsTidy file)
  Reachable-IsTidy _ (world_moves a w w' r) = Reachable-IsTidy (a, w) r
  Reachable-IsTidy _ (start_request url a w r) =
      post_start-IsTidy url a w (Reachable-IsTidy (a, w) r)
  Reachable-IsTidy _ (stop_request a w r) =
      leave-IsTidy a.client (stop_monitoring_tasks a) w (ended-IsTidy a (Reachable-IsTidy (a, w) r))
  Reachable-IsTidy _ (recovery_wakes delay a w e r) =
      recovery_round-IsTidy delay a w e (Reachable-IsTidy (a, w) r)
  Reachable-IsTidy _ (restart_runs n a w e r) =
      restarted-IsTidy (send_with plane usable collect a.client w).0 n a (Reachable-IsTidy (a, w) r)
        e
  Reachable-IsTidy _ (heart_beats now a w e r) =
      after_beat-IsTidy (beat_with plane usable collect a.client now w).0 a
        (Reachable-IsTidy (a, w) r) e
  Reachable-IsTidy _ (watch_gives_up a w e r) = scheduled-IsTidy a (Reachable-IsTidy (a, w) r) e

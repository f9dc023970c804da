-- ===== src/Agent/Watch.antt =====
-- The watch of one type of resource: _watch_resources of
-- src/chutes-agent/chutes_agent/monitor.py. The retries of its two calls are part of what comes of
-- them, and a text of a version is a number.
use chutes_miner.Prelude.{Bool, List, Option, [], false, none, some, true, ℕ, ◌∷◌}
use chutes_miner.AgentState.{Agent, restart_monitoring}

-- What comes of _process_watch_stream: the version after the stream, the status 410, a TimeoutError,
-- a cancellation, or another exception when its retries are used up.
pub data StreamEnd : Type 0 where
  stream_ended : (version : ℕ) → StreamEnd
  version_gone stream_timed_out stream_cancelled stream_failed : StreamEnd

-- Whether the loop goes on, with its resource_version, or ends, with or without _restart.
pub data Watching : Type 0 where
  goes_on : (resource_version : Option ℕ) → Watching
  ends : (restarts : Bool) → Watching

-- A round that has a version.
unfoldable pub after_stream : (version : ℕ) → StreamEnd → Watching
after_stream version (stream_ended later) = goes_on (some later)
after_stream version version_gone = goes_on none
after_stream version stream_timed_out = goes_on (some version)
after_stream version stream_cancelled = ends false
after_stream version stream_failed = ends true

-- A round of _watch_resources. `initial` is _get_initial_resource_version, none if it fails, and
-- `stream` what comes of a stream from a version.
unfoldable pub watch_round :
    (initial : Option ℕ) → (stream : ℕ → StreamEnd) → (resource_version : Option ℕ) → Watching
watch_round initial stream (some version) = after_stream version (stream version)
watch_round none stream none = goes_on none
watch_round (some version) stream none = after_stream version (stream version)

-- What a round's end does to the agent, where `again` is the rest of the loop.
unfoldable pub after_watch_round : (again : Option ℕ → Agent → Agent) → Watching → Agent → Agent
after_watch_round again (goes_on version) a = again version a
after_watch_round again (ends true) a = restart_monitoring a
after_watch_round again (ends false) a = a

-- ResourceMonitor._watch_resources, for as many rounds as the list has answers.
unfoldable pub watch_resources :
    List (Option ℕ × (ℕ → StreamEnd)) → (resource_version : Option ℕ) → Agent → Agent
watch_resources [] version a = a
watch_resources ((initial, stream) ∷ rounds) version a =
    after_watch_round (watch_resources rounds) (watch_round initial stream version) a

-- ===== src/Agent/Lifecycle.antt =====
-- The states that an agent passes through.
use mathlib.Core.Path.{subst, sym}
use chutes_miner.Prelude.{
  Bool, List, Option, ap, arith, if◌then◌else◌, inl, inr, is_some, none, refl, some, suc, true,
  zero, ℕ, ◌==◌, ◌≡◌, ◌⊎◌,
}
use chutes_miner.Schema.{Key}
use chutes_miner.Cache.{Resource}
use chutes_miner.Control.{Fault, Plane}
use chutes_miner.Agent.{
  auto_start, beat, get_stop, post_start, recovery_round, restart_attempt, send_with,
}
use chutes_miner.AgentState.{
  Agent, after_restart, fresh, is_failing, is_running, restart_monitoring, stop_tasks,
}

module _ {W : Type 0} (plane : Plane W) (usable : Key → Bool)
    (collect : W → Option (List Resource) × W) where
  -- What happens to an agent, in any order and number: it boots with what the URL's file holds, the
  -- control plane changes on its own, the endpoints /start and /stop are called, and its tasks take
  -- their turns while they run. The endpoints and the rounds are atomic.
  pub data Reachable : Agent × W → Type 0 where
    boot : (file : Option Key) (w : W) → Reachable (auto_start plane usable collect (fresh file, w))
    world_moves : (a : Agent) (w w' : W) → Reachable (a, w) → Reachable (a, w')
    start_request :
        (url : Key) (a : Agent) (w : W)
        → Reachable (a, w)
        → Reachable (post_start plane usable collect url (a, w)).1
    stop_request :
        (a : Agent) (w : W) → Reachable (a, w) → Reachable (get_stop plane usable collect (a, w)).1
    recovery_wakes :
        (delay : ℕ) (a : Agent) (w : W)
        → a.recovery ≡ some delay
        → Reachable (a, w)
        → Reachable (recovery_round plane usable collect delay (a, w))
    restart_runs :
        (n : ℕ) (a : Agent) (w : W)
        → a.restart ≡ some n
        → Reachable (a, w)
        → Reachable (restart_attempt plane usable collect (a, w))
    heart_beats :
        (now : ℕ) (a : Agent) (w : W)
        → a.heartbeat_task ≡ true
        → Reachable (a, w)
        → Reachable (beat plane usable collect now (a, w))
    watch_gives_up :
        (a : Agent) (w : W)
        → a.watcher_task ≡ true
        → Reachable (a, w)
        → Reachable (restart_monitoring a, w)

module _ {W : Type 0} (plane : Plane W) (usable : Key → Bool)
    (collect : W → Option (List Resource) × W) where
  -- The attempts of _async_restart, one after the other, at most `n` of them.
  pub attempts : (n : ℕ) → Agent × W → Agent × W
  attempts zero x = x
  attempts (suc n) (a, w) =
      let rest = attempts n (restart_attempt plane usable collect (a, w)) in
      if is_some a.restart then rest else (a, w)

  IsOver : Agent × W → Type 0
  IsOver (a, w) = (a.restart ≡ none) × ((is_running a.state ≡ true) ⊎ (is_failing a.state ≡ true))

  rested : (n : ℕ) (a : Agent) (w : W) → a.restart ≡ none → attempts n (a, w) ≡ (a, w)
  unfolding attempts
  rested zero a w e = refl
  rested (suc n) a w e = rw (ap is_some e) refl

  one_more :
      (n : ℕ) (a : Agent) (w : W)
      → is_some a.restart ≡ true
      → attempts (suc n) (a, w) ≡ attempts n (restart_attempt plane usable collect (a, w))
  unfolding attempts
  one_more n a w e = rw e refl

  attempt_end :
      (f : Option Fault) (a : Agent) (n : ℕ)
      → a.restart ≡ some (suc n)
      → let a' = after_restart f a in
        ((a'.restart ≡ none) × (is_running a'.state ≡ true))
        ⊎ ((is_failing a'.state ≡ true) × (a'.restart ≡ (if n == 0 then none else some n)))
  unfolding after_restart
  attempt_end none a n e = inl (refl, refl)
  attempt_end (some f) a n e = inr (refl, ground (arith, e))

  -- Whatever the control plane answers, a restart with `n` attempts is over after `n` of them at
  -- most: the agent runs, or is in the state ERROR, and no attempt is ahead.
  pub attempts_end :
      (n : ℕ) (a : Agent) (w : W)
      → a.restart ≡ some (suc n)
      → let (a', w') = attempts (suc n) (a, w) in
        (a'.restart ≡ none) × ((is_running a'.state ≡ true) ⊎ (is_failing a'.state ≡ true))
  unfolding attempts restart_attempt IsOver
  attempts_end zero a w e =
      let (a', w') = restart_attempt plane usable collect (a, w) in
      subst IsOver (sym (one_more zero a w (ap is_some e)))
        (elim (attempt_end (send_with plane usable collect a.client w).0 (stop_tasks a) zero e) [
          | inl (rests, runs) ↦ (rests, inl runs)
          | inr (fails, rests) ↦ (rests, inr fails)
        ])
  attempts_end (suc n) a w e =
      let (a', w') = restart_attempt plane usable collect (a, w) in
      subst IsOver (sym (one_more (suc n) a w (ap is_some e)))
        (elim (attempt_end (send_with plane usable collect a.client w).0 (stop_tasks a) (suc n) e) [
          | inl (rests, runs) ↦ subst IsOver (sym (rested (suc n) a' w' rests)) (rests, inl runs)
          | inr (fails, rests) ↦ attempts_end n a' w' (ground (arith, rests))
        ])

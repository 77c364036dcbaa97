-- ===== src/Telemetry/Heartbeat.antt =====
-- mqtt/heartbeat.py: the thread's state, and the iterations of its loop. Times are in milliseconds.
use lucid_agent_core.Prelude.{
  ℕ, zero, suc, ◌-◌, String, ◌≡◌, Bool, true, false, ◌||◌, Option, none, some, List, [], ◌∷◌, ◌++◌,
  if◌then◌else◌,
}
use lucid_agent_core.Prelude.Int.{ℤ, pos, negsuc, leb_ℤℕ}
use lucid_agent_core.Prelude.Json.{Value}
use lucid_agent_core.Snapshots.{build_status}

-- `_thread` is there, `_stop_event` is set, `_interval_s`
pub record HeartbeatLoop : Type 0 where
  pub thread : Bool
  pub stop_set : Bool
  pub interval_s : ℤ

-- `HeartbeatLoop(…)`
abbrev pub new_loop : HeartbeatLoop
new_loop = record { thread = false; stop_set = false; interval_s = pos 0 }

unfoldable pub start : HeartbeatLoop → ℤ → HeartbeatLoop
start h interval_s =
    if h.thread then h else record { thread = true; stop_set = false; interval_s = interval_s }

unfoldable pub stop : HeartbeatLoop → HeartbeatLoop
stop h = if h.thread then record h { thread = false; stop_set = true } else h

-- -n
abbrev pub negated : ℕ → ℤ
negated zero = pos 0
negated (suc n) = negsuc n

unfoldable pub update_interval : HeartbeatLoop → ℤ → HeartbeatLoop
update_interval h interval_s = record h { interval_s = interval_s }

-- What an iteration meets: the loop's state at its start, whether the stop is set while it waits, the
-- connection, by its text and its time, the time after the wait, and whether the publish succeeds.
pub record Beat : Type 0 where
  pub state : HeartbeatLoop
  pub stopped : Bool
  pub info : Option (String × ℕ)
  pub now : ℕ
  pub works : Bool

-- `StatusPayload(…).to_json()`, with the uptime `max(0.0, time.time() - connected_ts)` in seconds as an
-- argument makes a float of milliseconds
abbrev status_of : (ℕ → Value) → Beat → String × ℕ → Value
status_of seconds b (connected_since_ts, connected_ts) =
    build_status "online" connected_since_ts (seconds (b.now - connected_ts))

published : (ℕ → Value) → Beat → List Value
published seconds b = elim b.info [
  | none ↦ []
  | some info ↦ if b.works then status_of seconds b info ∷ [] else []
]

-- Whether the iteration ends the loop.
abbrev pub ends : Beat → Bool
ends b = b.state.stop_set || leb_ℤℕ b.state.interval_s 0 || b.stopped

-- `_loop`: the payloads it publishes, retained.
unfoldable pub loop : (ℕ → Value) → List Beat → List Value
unfolding published
loop seconds [] = []
loop seconds (b ∷ bs) =
    let rest = loop seconds bs in if ends b then [] else published seconds b ++ rest

-- What ends the loop at an iteration: its state is that after a `stop` of a thread that is there, or
-- after an update to an interval that is not positive; or the stop comes while it waits.
pub data Over (b : Beat) : Type 0 where
  stopped_before : (h : HeartbeatLoop) → h.thread ≡ true → b.state ≡ stop h → Over b
  disabled : (h : HeartbeatLoop) (n : ℕ) → b.state ≡ update_interval h (negated n) → Over b
  stopped_waiting : b.stopped ≡ true → Over b

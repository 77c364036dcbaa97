-- ===== src/Restart.antt =====
-- core/restart.py: `request_systemd_restart`. Times are milliseconds; the state is the modification
-- time of the sentinel file, if it is there. A call is one step: the function holds no lock, and calls
-- that overlap in two workers are left out.
pub mod Spacing
mod Tests
use lucid_agent_core.Prelude.{
  ℕ, ◌+◌, String, Bool, true, false, ◌||◌, Option, none, some, List, [], ◌∷◌, ltb, nat_eq, ◌==◌,
  ◌&&◌, if◌then◌else◌,
}

-- `_RESTART_DEBOUNCE_S`
abbrev pub restart_debounce : ℕ
restart_debounce = 10_000

-- What `_is_managed` asks of the environment.
pub record Host : Type 0 where
  pub invocation_id : Option String
  pub systemd_dir : Bool
  pub platform : String
  pub parent_pid : ℕ
  pub lucid_managed : Option String

-- `if os.getenv(…)`
abbrev pub is_set : Option String → Bool
is_set none = false
is_set (some s) = if s == "" then false else true

unfoldable pub is_managed : Host → Bool
is_managed h =
    is_set h.invocation_id
    || h.systemd_dir
    || h.platform == "darwin" && nat_eq h.parent_pid 1
    || is_set h.lucid_managed

-- Whether the sentinel can be read and written.
pub data Sentinel : Type 0 where
  works unreadable unwritable : Sentinel

-- A call: its time, how the sentinel behaves, and whether the signal can be sent.
pub record Request : Type 0 where
  pub now : ℕ
  pub sentinel : Sentinel
  pub killable : Bool

unfoldable pub is_debounced : ℕ → Option ℕ → Bool
is_debounced now none = false
is_debounced now (some last) = ltb now (last + restart_debounce)

-- The answer, and the sentinel's time after the call. A sentinel that fails stops no restart.
unfoldable pub request_managed : Sentinel → Request → Option ℕ → Bool × Option ℕ
unfolding is_debounced
request_managed unreadable r last = (r.killable, last)
request_managed unwritable r last =
    if is_debounced r.now last then (false, last) else (r.killable, last)
request_managed works r last =
    if is_debounced r.now last then (false, last) else (r.killable, some r.now)

unfoldable pub request_systemd_restart : Host → Request → Option ℕ → Bool × Option ℕ
unfolding is_managed request_managed
request_systemd_restart h r last =
    if is_managed h then request_managed r.sentinel r last else (false, last)

-- The times at which a run of calls has sent the signal.
unfoldable pub signals : Host → List Request → Option ℕ → List ℕ
unfolding request_systemd_restart
signals h [] last = []
signals h (r ∷ rs) last =
    let (sent, last') = request_systemd_restart h r last in
    let later = signals h rs last' in if sent then r.now ∷ later else later

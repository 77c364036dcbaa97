-- ===== src/LogHandler.antt =====
-- core/mqtt_log_handler.py: batching and rate limiting of log lines. A line is opaque, times are
-- milliseconds, and a call takes the clock and the fate of a publish as arguments. The lock makes
-- each call atomic. Lines that the handler logs itself are ignored by `emit`.
pub mod Buffer
pub mod Rate
pub mod Drops
mod Tests
use lucid_agent_core.Prelude.{
  ℕ, ◌+◌, ◌-◌, String, Bool, true, false, Option, none, some, List, [], ◌∷◌, ◌++◌, length, ltb, leb,
  ◌==◌, if◌then◌else◌,
}

abbrev pub max_lines_per_batch : ℕ
max_lines_per_batch = 50

abbrev pub max_batches_per_window : ℕ
max_batches_per_window = 25

-- `TIME_WINDOW_S`, and the 10.0 s between two warnings, in milliseconds
abbrev pub time_window : ℕ
time_window = 2000

abbrev pub warning_interval : ℕ
warning_interval = 10_000

abbrev pub logger_name : String
logger_name = "lucid_agent_core.core.mqtt_log_handler"

pub record LogHandler (Line : Type 0) : Type 0 where
  pub buffer : List Line
  pub last_publish_ts : ℕ
  -- whether `_batch_timer` is not None
  pub batch_timer : Bool
  pub batch_timestamps : List ℕ
  pub dropped_count : ℕ
  pub last_warning_ts : ℕ

-- What a publish meets: a client that takes it, one that raises, or none that is connected.
pub data Delivery : Type 0 where
  accepts raises offline : Delivery

pub data Fate : Type 0 where
  sent failed unsent rate_limited : Fate

-- What a call lets out: a batch of lines that leaves the buffer, or the handler's own warning.
pub data Effect (Line : Type 0) : Type 0 where
  batch : Fate → List Line → Effect Line
  warning : ℕ → Effect Line

-- `[ts for ts in timestamps if ts > now - TIME_WINDOW_S]`
unfoldable pub recent : ℕ → List ℕ → List ℕ
recent now [] = []
recent now (ts ∷ rest) =
    let kept = recent now rest in if ltb now (ts + time_window) then ts ∷ kept else kept

module _ {Line : Type 0} where
  -- `MQTTLogHandler(client, topic)` at a time
  abbrev pub new : ℕ → LogHandler Line
  new now = record {
    buffer = [];
    last_publish_ts = now;
    batch_timer = false;
    batch_timestamps = [];
    dropped_count = 0;
    last_warning_ts = 0;
  }

  -- `_warn_rate_limit_drop`
  unfoldable pub warn_rate_limit_drop : LogHandler Line → ℕ → LogHandler Line × List (Effect Line)
  warn_rate_limit_drop s now =
      if ltb now (s.last_warning_ts + warning_interval)
      then (s, [])
      else (record s { dropped_count = 0; last_warning_ts = now }, warning s.dropped_count ∷ [])

  -- The rate limit is exceeded: the buffer is dropped.
  unfoldable pub drop_batch : LogHandler Line → ℕ → List Line → LogHandler Line × List (Effect Line)
  unfolding warn_rate_limit_drop
  drop_batch s now lines =
      let (s', out) =
        warn_rate_limit_drop
          (record s { buffer = []; dropped_count = s.dropped_count + length lines }) now in
      (s', batch rate_limited lines ∷ out)

  -- The publish itself: a failure is counted, a missing connection is not.
  unfoldable pub deliver :
      LogHandler Line → Delivery → List Line → LogHandler Line × List (Effect Line)
  deliver s accepts lines = (s, batch sent lines ∷ [])
  deliver s raises lines =
      (record s { dropped_count = s.dropped_count + length lines }, batch failed lines ∷ [])
  deliver s offline lines = (s, batch unsent lines ∷ [])

  publish_lines :
      LogHandler Line → ℕ → Delivery → List ℕ → List Line → LogHandler Line × List (Effect Line)
  unfolding drop_batch deliver
  publish_lines s now delivery kept lines =
      if leb max_batches_per_window (length kept)
      then drop_batch (record s { batch_timestamps = kept }) now lines
      else deliver
          (record s {
            buffer = [];
            last_publish_ts = now;
            batch_timer = false;
            batch_timestamps = kept ++ now ∷ [];
          })
          delivery lines

  publish_buffer : LogHandler Line → ℕ → Delivery → List Line → LogHandler Line × List (Effect Line)
  unfolding publish_lines
  publish_buffer s now delivery [] = (s, [])
  publish_buffer s now delivery (l ∷ ls) =
      publish_lines s now delivery (recent now s.batch_timestamps) (l ∷ ls)

  -- `_publish_batch`
  unfoldable pub publish_batch :
      LogHandler Line → ℕ → Delivery → LogHandler Line × List (Effect Line)
  unfolding publish_buffer
  publish_batch s now delivery = publish_buffer s now delivery s.buffer

  -- `_publish_batch_timer`
  unfoldable pub publish_batch_timer :
      LogHandler Line → ℕ → Delivery → LogHandler Line × List (Effect Line)
  unfolding publish_batch
  publish_batch_timer s now delivery = publish_batch (record s { batch_timer = false }) now delivery

  add_line : LogHandler Line → ℕ → Delivery → Line → LogHandler Line × List (Effect Line)
  unfolding publish_batch
  add_line s now delivery line =
      let full = record s { buffer = s.buffer ++ line ∷ [] } in
      if leb max_lines_per_batch (length (s.buffer ++ line ∷ []))
      then publish_batch full now delivery
      else (record s { buffer = s.buffer ++ line ∷ []; batch_timer = true }, [])

  -- `emit`, of a record with this logger name and, unless building it raises, this line.
  unfoldable pub emit :
      LogHandler Line → ℕ → Delivery → String → Option Line → LogHandler Line × List (Effect Line)
  unfolding add_line
  emit s now delivery name line = if name == logger_name then (s, []) else elim line [
    | none ↦ (record s { dropped_count = s.dropped_count + 1 }, [])
    | some l ↦ add_line s now delivery l
  ]

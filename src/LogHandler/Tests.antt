-- ===== src/LogHandler/Tests.antt =====
-- Runs of core/mqtt_log_handler.py, and the theorems at concrete data.
use lucid_agent_core.Prelude.{
  ◌+◌, ◌≤◌, String, ◌≡◌, refl, true, false, none, some, List, [], ◌∷◌, ◌++◌, arith, length,
}
use lucid_agent_core.LogHandler.{
  LogHandler, new, accepts, raises, offline, batch, emit, publish_batch_timer, recent,
  max_batches_per_window, unsent,
}
use lucid_agent_core.LogHandler.Buffer.{IsValid, lines_out, emit-IsValid, emit-lines}
use lucid_agent_core.LogHandler.Drops.{counted, reported, unbuilt, emit-counted}
use lucid_agent_core.LogHandler.Rate.{Event, emitted, timer, publish_times, rate_limit}

abbrev waiting : LogHandler String
waiting = record {
  buffer = "a" ∷ "b" ∷ [];
  last_publish_ts = 0;
  batch_timer = true;
  batch_timestamps = 100 ∷ [];
  dropped_count = 3;
  last_warning_ts = 0;
}

waiting-IsValid : IsValid waiting
waiting-IsValid = record { bounded = omega arith; scheduled = λ n. refl; limited = omega arith }

-- A failing publish loses the batch and counts it; without a connection it is lost uncounted.
lost_and_counted : (publish_batch_timer waiting 5000 raises).0.dropped_count ≡ 5
unfolding publish_batch_timer recent
lost_and_counted = refl

lost_uncounted : publish_batch_timer waiting 5000 offline ≡ (
  record waiting {
    buffer = [];
    last_publish_ts = 5000;
    batch_timer = false;
    batch_timestamps = 5000 ∷ [];
  },
  batch unsent ("a" ∷ "b" ∷ []) ∷ [],
)
unfolding publish_batch_timer recent
lost_uncounted = refl

emit-IsValid_example : IsValid (emit waiting 150 accepts "root" (some "c")).0
emit-IsValid_example = emit-IsValid 150 accepts waiting "root" (some "c") waiting-IsValid

emit-lines_example :
    lines_out (emit waiting 150 accepts "root" (some "c")).1
      ++ (emit waiting 150 accepts "root" (some "c")).0.buffer
    ≡ "a" ∷ "b" ∷ "c" ∷ []
emit-lines_example = emit-lines 150 accepts waiting "root" "c" (λ e. cc e)

emit-counted_example :
    (emit waiting 150 raises "root" none).0.dropped_count
      + reported (emit waiting 150 raises "root" none).1
    ≡ 3 + counted (emit waiting 150 raises "root" none).1 + unbuilt {Line = String} "root" none
emit-counted_example = emit-counted 150 raises waiting "root" none

abbrev events : List (Event String)
events = emitted 100 accepts "root" (some "a") ∷ timer 200 accepts ∷ []

rate_limit_example : length (recent 300 (publish_times (new 100) events)) ≤ max_batches_per_window
rate_limit_example = rate_limit 100 events (omega arith, (omega arith, tt)) 300 (omega arith)

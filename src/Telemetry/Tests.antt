-- ===== src/Telemetry/Tests.antt =====
-- Cycles of mqtt/telemetry.py and a heartbeat in small environments.
use lucid_agent_core.Prelude.Dict.{insert}
use lucid_agent_core.Prelude.{
  ℕ, ◌≤◌, ◌+◌, ◌*◌, ◌≡◌, refl, inl, Bool, true, false, some, [], ◌∷◌, arith,
}
use lucid_agent_core.Prelude.Dict.{lookup, keys}
use lucid_agent_core.Prelude.Errors.{ok}
use lucid_agent_core.Prelude.Int.{pos}
use lucid_agent_core.Prelude.Json.{finite}
use lucid_agent_core.Snapshots.{Metric}
use lucid_agent_core.Telemetry.{Cycle, interval_of, cycle, run}
use lucid_agent_core.Telemetry.Fresh.{Meets, Current, cycle-Current, count}
use lucid_agent_core.Telemetry.Rate.{Steady, done, next, run-rate}
use lucid_agent_core.Telemetry.Heartbeat.{Beat, update_interval}

abbrev cpu : Metric
cpu = record { enabled = true; interval_s = pos 2; change_threshold_percent = finite (pos 2) 0 }

-- 12.5 percent, at a time.
abbrev at : ℕ → Cycle
at now = record {
  ready = true;
  metrics = ok (("cpu_percent", cpu) ∷ []);
  readings = ok (("cpu_percent", (25, 1)) ∷ []);
  now = λ name. now;
  after = λ name. now;
  works = λ name. true;
}

meets : (now : ℕ) → Meets (at now) "cpu_percent" cpu (25, 1)
unfolding lookup keys
meets now = record {
  ready = refl;
  settings = ("cpu_percent", cpu) ∷ [];
  metrics = refl;
  distinct = (refl, tt);
  found = refl;
  read = ("cpu_percent", (25, 1)) ∷ [];
  readings = refl;
  value = refl;
}

-- The second cycle is too early, the third is not.
two_of_three :
    (run (at 1000 ∷ at 2000 ∷ at 3000 ∷ []) []).1
    ≡ ("cpu_percent", (25, 1)) ∷ ("cpu_percent", (25, 1)) ∷ []
unfolding run lookup insert
two_of_three = refl

cycle-Current_example :
    Current (at 1000) "cpu_percent" cpu (25, 1) [] (lookup "cpu_percent" (cycle (at 1000) []).0)
cycle-Current_example = cycle-Current (at 1000) "cpu_percent" cpu (25, 1) [] (meets 1000) refl refl

steady : (now : ℕ) → 0 ≤ now → now ≤ 3000 → Steady 0 3000 "cpu_percent" cpu (25, 1) (at now)
steady now p q = record { meets = inl (meets now); begun = p; forward = omega arith; ended = q }

run-rate_example :
    0 + 1000 * interval_of cpu * count "cpu_percent" (run (at 1000 ∷ at 3000 ∷ []) []).1
    ≤ 3000 + 1000 * interval_of cpu
run-rate_example =
    run-rate 0 3000 "cpu_percent" cpu (25, 1) (at 1000 ∷ at 3000 ∷ []) [] (omega arith)
      (omega arith)
      (next _ _ (steady 1000 (omega arith) (omega arith))
        (next _ _ (steady 3000 (omega arith) (omega arith)) done))

abbrev beat : Bool → Beat
beat stopped = record {
  state = record { thread = true; stop_set = false; interval_s = pos 30 };
  stopped = stopped;
  info = some ("now", 1000);
  now = 31000;
  works = true;
}

-- The interval was updated to 0.
abbrev off : Beat
off = record (beat false) { state = update_interval (beat false).state (pos 0) }

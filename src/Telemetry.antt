-- ===== src/Telemetry.antt =====
-- mqtt/telemetry.py: the decision to publish a metric and the cycles of the loop; mqtt/heartbeat.py.
-- Readings and thresholds are exact fractions m / 2^k; times are in milliseconds.
pub mod Fresh
pub mod Rate
pub mod Heartbeat
mod Tests
use lucid_agent_core.Prelude.{
  ℕ, ◌+◌, ◌-◌, ◌*◌, ◌^◌, String, Bool, true, false, not, ◌&&◌, Option, none, some, List, [], ◌∷◌,
  ◌++◌, leb, nat_eq, if◌then◌else◌,
}
use lucid_agent_core.Prelude.Dict.{Dict, lookup, insert}
use lucid_agent_core.Prelude.Errors.{Outcome, ok, raise}
use lucid_agent_core.Prelude.Json.{Float, finite, nonfinite, infinity}
use lucid_agent_core.Prelude.Int.{ℤ, pos, negsuc}
use lucid_agent_core.Snapshots.{Metric}

-- What psutil answers, a percentage m / 2^k.
abbrev pub Reading : Type 0
Reading = ℕ × ℕ

-- `_last`: the value of a metric's last publication, and its time.
abbrev pub Last : Type 0
Last = Dict (Reading × ℕ)

-- `max(1, interval_s)`, and `max(0.0, threshold)`, where no threshold is infinity: `max` keeps 0.0
-- unless the other is greater, which NaN is not.
abbrev pub interval_of : Metric → ℕ
interval_of m = elim m.interval_s [ pos n ↦ if leb 1 n then n else 1 | negsuc _ ↦ 1 ]

abbrev pub not_below_zero : Float → Option (ℕ × ℕ)
not_below_zero (finite (pos n) k) = some (n, k)
not_below_zero (finite (negsuc n) k) = some (0, k)
not_below_zero (nonfinite infinity) = none
not_below_zero (nonfinite _) = some (0, 0)

abbrev pub threshold_of : Metric → Option (ℕ × ℕ)
threshold_of m = not_below_zero m.change_threshold_percent

abbrev pub is_zero : Reading → Bool
is_zero (a, i) = nat_eq a 0

-- `abs(value - last_value) / abs(last_value) * 100.0 >= threshold`, with the denominators multiplied
-- out.
unfoldable pub reaches : Reading → Reading → ℕ × ℕ → Bool
reaches (b, j) (a, i) (t, k) =
    leb (t * (b * 2 ^ i)) (((a * 2 ^ j - b * 2 ^ i) + (b * 2 ^ i - a * 2 ^ j)) * (100 * 2 ^ k))

-- The test on two numbers, before the interval has elapsed. All readings are numbers.
unfoldable pub changed : Reading → Reading → Option (ℕ × ℕ) → Bool
unfolding reaches
changed last_value value threshold =
    if is_zero last_value
    then not (is_zero value)
    else elim threshold [ none ↦ false | some t ↦ reaches last_value value t ]

-- `_should_publish`, for what `_last` has of the metric and the time now
unfoldable pub should_publish : Option (Reading × ℕ) → ℕ → Reading → Metric → Bool
unfolding changed
should_publish none now value m = m.enabled
should_publish (some (last_value, last_ts)) now value m =
    m.enabled
    && (if leb (last_ts + 1000 * interval_of m) now
        then true
        else changed last_value value (threshold_of m))

-- What a cycle meets: whether there is a context and a connection; `build_cfg_telemetry` and psutil;
-- for each metric the time of its decision and of its record, and whether its publish succeeds.
pub record Cycle : Type 0 where
  pub ready : Bool
  pub metrics : Outcome (List (String × Metric))
  pub readings : Outcome (Dict Reading)
  pub now : String → ℕ
  pub after : String → ℕ
  pub works : String → Bool

module _ (c : Cycle) where
  -- One metric of the loop: what is recorded, and what is published.
  unfoldable pub publish_metric :
      Dict Reading → String → Metric → Last → Last × List (String × Reading)
  unfolding should_publish
  publish_metric readings name m last = elim (lookup name readings) [
    | none ↦ (last, [])
    | some value ↦
        if should_publish (lookup name last) (c.now name) value m && c.works name
        then (insert name (value, c.after name) last, (name, value) ∷ [])
        else (last, [])
  ]

  unfoldable pub publish_metrics :
      Dict Reading → List (String × Metric) → Last → Last × List (String × Reading)
  unfolding publish_metric
  publish_metrics readings [] last = (last, [])
  publish_metrics readings ((name, m) ∷ ms) last =
      let (last_1, sent) = publish_metric readings name m last in
      let (last_2, rest) = publish_metrics readings ms last_1 in (last_2, sent ++ rest)

  -- An exception ends the cycle.
  with_readings :
      List (String × Metric) → Last → Outcome (Dict Reading) → Last × List (String × Reading)
  unfolding publish_metrics
  with_readings ms last (raise x) = (last, [])
  with_readings ms last (ok readings) = publish_metrics readings ms last

  with_metrics : Last → Outcome (List (String × Metric)) → Last × List (String × Reading)
  unfolding with_readings
  with_metrics last (raise x) = (last, [])
  with_metrics last (ok []) = (last, [])
  with_metrics last (ok ms) = with_readings ms last c.readings

  -- The body of `_loop`, up to the wait.
  unfoldable pub cycle : Last → Last × List (String × Reading)
  unfolding with_metrics
  cycle last = if c.ready then with_metrics last c.metrics else (last, [])

-- The cycles until the stop.
unfoldable pub run : List Cycle → Last → Last × List (String × Reading)
unfolding cycle
run [] last = (last, [])
run (c ∷ cs) last =
    let (last_1, sent) = cycle c last in
    let (last_2, rest) = run cs last_1 in (last_2, sent ++ rest)

-- ===== src/Snapshots/Metrics.antt =====
-- The telemetry settings of core/snapshots.py, for a configuration that was accepted.
use lucid_agent_core.Prelude.{
  ℕ, ◌≤◌, String, ◌≡◌, ◌≢◌, ◌⊎◌, refl, ap, inl, inr, true, false, not, Option, none, some, List, [],
  ◌∷◌, map, arith,
}
use lucid_agent_core.Prelude.Errors.{Exn, Outcome, Outcome-cases, attribute_error, ok, raise}
use lucid_agent_core.Prelude.Int.{ℤ, pos}
use lucid_agent_core.Prelude.Json.{
  Float, Special, finite, nonfinite, minus_infinity, Value, bool, int, float, dict, Fields, end,
  get,
}
use lucid_agent_core.Config.Apply.{is_falsy}
use lucid_agent_core.Config.Validation.{validate}
use lucid_agent_core.Config.Validation.Rules.{
  IsInterval, IsThreshold, IsMetricValue, whole, truth, fraction, not_below, IsMetric, IsMetrics,
  IsTelemetry,
}
use lucid_agent_core.Config.Validation.Exact.{validate-IsConfig}
use lucid_agent_core.Snapshots.{
  Convert, to_int, to_float, get_or, Metric, metric_of, sub_dict, stored_metric, available_metrics,
  build_metrics, build_cfg_telemetry,
}

-- A float that is not below 0: NaN is not.
pub data NotBelow (x : Float) : Type 0 where
  not_negative : (m k : ℕ) → x ≡ finite (pos m) k → NotBelow x
  not_finite : (s : Special) → s ≢ minus_infinity → x ≡ nonfinite s → NotBelow x

-- An interval of at least a second and a threshold that is not negative.
pub record Sound (m : Metric) : Type 0 where
  pub seconds : ℕ
  pub positive : 1 ≤ seconds
  pub interval : m.interval_s ≡ pos seconds
  pub threshold : NotBelow m.change_threshold_percent

pub data AllSound : List (String × Metric) → Type 0 where
  nothing : AllSound []
  metric :
      (name : String) (m : Metric) (ms : List (String × Metric))
      → Sound m
      → AllSound ms
      → AllSound ((name, m) ∷ ms)

-- A stored threshold is too large for a float, and its conversion raises.
pub record TooLarge (c : Convert) (f : Fields) (e : Exn) : Type 0 where
  pub number : ℕ
  pub stored : get "change_threshold_percent" f ≡ some (int (pos number))
  pub conversion : c.float_of_int (pos number) ≡ raise e

-- What the loop builds, or the metric whose threshold is too large.
abbrev pub Built : Convert → Fields → List String → Outcome (List (String × Metric)) → Type 0
Built c d names r =
    ((ms : List (String × Metric)) × (r ≡ ok ms) × (map (λ x. x.0) ms ≡ names) × AllSound ms)
    ⊎ (e : Exn) × (r ≡ raise e) × ((name : String) × TooLarge c (stored_metric name d) e)

module _ (c : Convert)
    (keeps_sign : (n : ℕ) (z : ℤ) (k : ℕ)
      → c.float_of_int (pos n) ≡ ok (z, k)
      → (m : ℕ) × (z ≡ pos m)) where
  to_int-IsInterval : (v : Value) → IsInterval v → (n : ℕ) × (1 ≤ n) × (to_int c v ≡ ok (pos n))
  unfolding to_int
  to_int-IsInterval v (inl (n, e, h)) = (n, h, rw e refl)
  to_int-IsInterval v (inr e) = (1, omega arith, rw e refl)

  -- What a setting is converted to, or the number that is too large.
  abbrev Converted : Option Value → Outcome Float → Type 0
  Converted o r =
      ((x : Float) × (r ≡ ok x) × NotBelow x)
      ⊎ (n : ℕ) × (e : Exn) × (o ≡ some (int (pos n)))
        × (c.float_of_int (pos n) ≡ raise e)
        × (r ≡ raise e)

  to_float-int : (n : ℕ) → Converted (some (int (pos n))) (to_float c (int (pos n)))
  unfolding to_float
  to_float-int n = elim (Outcome-cases (c.float_of_int (pos n))) [
    | inl ((z, k), p) ↦
        let (m, q) = keeps_sign n z k p in
        inl (finite z k, rw p refl, not_negative m k (ap (λ y. finite y k) q))
    | inr (e, p) ↦ inr (n, e, refl, p, rw p refl)
  ]

  to_float-IsThreshold : (v : Value) → IsThreshold v → Converted (some v) (to_float c v)
  unfolding to_float
  to_float-IsThreshold v (whole n e) = rw e (to_float-int n)
  to_float-IsThreshold v (truth true e) = rw e (inl (_, refl, not_negative 1 0 refl))
  to_float-IsThreshold v (truth false e) = rw e (inl (_, refl, not_negative 0 0 refl))
  to_float-IsThreshold v (fraction m k e) = rw e (inl (_, refl, not_negative m k refl))
  to_float-IsThreshold v (not_below x n e) = rw e (inl (_, refl, not_finite x n refl))

  -- A setting, or its default.
  interval_or :
      (o : Option Value)
      → ((v : Value) → o ≡ some v → IsInterval v)
      → (n : ℕ) × (1 ≤ n) × (to_int c (elim o [ none ↦ int (pos 2) | some v ↦ v ]) ≡ ok (pos n))
  unfolding to_int
  interval_or none i = (2, omega arith, refl)
  interval_or (some v) i = to_int-IsInterval v (i v refl)

  threshold_or :
      (o : Option Value)
      → ((v : Value) → o ≡ some v → IsThreshold v)
      → Converted o (to_float c (elim o [ none ↦ float (pos 2) 0 | some v ↦ v ]))
  unfolding to_float
  threshold_or none i = inl (_, refl, not_negative 2 0 refl)
  threshold_or (some v) i = to_float-IsThreshold v (i v refl)

  metric_of-Sound :
      (f : Fields)
      → IsMetric f
      → ((m : Metric) × (metric_of c f ≡ ok m) × Sound m)
        ⊎ (e : Exn) × (metric_of c f ≡ raise e) × TooLarge c f e
  unfolding metric_of
  metric_of-Sound f i =
      let (n, h, p) = interval_or (get "interval_s" f) i.interval_s in
      elim (threshold_or (get "change_threshold_percent" f) i.threshold) [
        | inl (x, q, b) ↦ inl (
          record {
            enabled = not (is_falsy (get_or "enabled" (bool false) f));
            interval_s = pos n;
            change_threshold_percent = x;
          },
          rw (p, q) refl,
          record { seconds = n; positive = h; interval = refl; threshold = b },
        )
        | inr (m, e, o, t, q) ↦
            inr (e, rw (p, q) refl, record { number = m; stored = o; conversion = t })
      ]

  no_settings : IsMetric end
  unfolding get
  no_settings = record {
    enabled = λ v e. absurd (cc e);
    interval_s = λ v e. absurd (cc e);
    threshold = λ v e. absurd (cc e);
  }

  stored_metric-IsMetric :
      (name : String) (d : Fields)
      → ((k : String) (v : Value) → get k d ≡ some v → IsMetricValue v)
      → IsMetric (stored_metric name d)
  unfolding stored_metric
  stored_metric-IsMetric name d i = go (get name d) (i name)
    where
      go :
          (o : Option Value)
          → ((v : Value) → o ≡ some v → IsMetricValue v)
          → IsMetric (elim o [ none ↦ end | some v ↦ elim v [ dict e ↦ e | _ ↦ end ] ])
      go none i = no_settings
      go (some v) i = let (f, e, m) = i v refl in rw e m

  build_metrics-AllSound :
      (d : Fields) (names : List String)
      → ((k : String) (v : Value) → get k d ≡ some v → IsMetricValue v)
      → Built c d names (build_metrics c d names)
  unfolding build_metrics
  build_metrics-AllSound d [] i = inl ([], refl, refl, nothing)
  build_metrics-AllSound d (name ∷ names) i =
      elim (metric_of-Sound (stored_metric name d) (stored_metric-IsMetric name d i)) [
        | inr (e, p, t) ↦ inr (e, rw p refl, (name, t))
        | inl (m, p, s) ↦ elim (build_metrics-AllSound d names i) [
          | inr (e, q, t) ↦ inr (e, rw (p, q) refl, t)
          | inl (ms, q, n, a) ↦
              inl ((name, m) ∷ ms, rw (p, q) refl, ap (λ ns. name ∷ ns) n, metric name m ms s a)
        ]
      ]

  telemetry_of :
      (o : Option Value)
      → ((v : Value) → o ≡ some v → IsTelemetry v)
      → (t : Fields) × ((elim o [
        | none ↦ ok end
        | some v ↦ elim v [ dict e ↦ ok e | _ ↦ raise attribute_error ]
      ])
          ≡ ok t)
        × ((v : Value) → get "metrics" t ≡ some v → IsMetrics v)
  unfolding get
  telemetry_of none i = (end, refl, λ v e. absurd (cc e))
  telemetry_of (some v) i = let s = i v refl in (s.fields, rw s.is_dict refl, s.metrics)

  metrics_of :
      (o : Option Value)
      → ((v : Value) → o ≡ some v → IsMetrics v)
      → (d : Fields) × ((elim o [
        | none ↦ ok end
        | some v ↦ elim v [ dict e ↦ ok e | _ ↦ raise attribute_error ]
      ])
          ≡ ok d)
        × ((k : String) (v : Value) → get k d ≡ some v → IsMetricValue v)
  unfolding get
  metrics_of none i = (end, refl, λ k v e. absurd (cc e))
  metrics_of (some v) i = let s = i v refl in (s.fields, rw s.is_dict refl, s.metric)

  -- From every configuration that `validate` accepts, the payload of cfg/telemetry is built: it has
  -- the three system metrics, in order, each with an interval of at least a second and a threshold
  -- that is not below 0, NaN included; or it raises what the conversion of one stored threshold, an int
  -- too large for a float, raises. The condition is that a conversion keeps the sign.
  pub build_cfg_telemetry-AllSound :
      (cfg : Fields)
      → validate (dict cfg) ≡ none
      → (t : Fields) × (d : Fields) × (sub_dict "telemetry" cfg ≡ ok t)
        × (sub_dict "metrics" t ≡ ok d)
        × Built c d available_metrics (build_cfg_telemetry c cfg)
  unfolding build_cfg_telemetry sub_dict
  build_cfg_telemetry-AllSound cfg h =
      let (t, p, i) = telemetry_of (get "telemetry" cfg) (validate-IsConfig cfg h).telemetry in
      let (d, q, j) = metrics_of (get "metrics" t) i in
      (t, d, p, q, rw (p, q) (build_metrics-AllSound d available_metrics j))

-- ===== src/Config/Validation/Rules.antt =====
-- What `validate` of core/config/_validation.py accepts, said by lookups in the configuration and
-- not by a walk through it.
use mathlib.Core.Path.{subst}
use lucid_agent_core.Prelude.{
  ℕ, ◌≤◌, String, ◌≡◌, ◌≢◌, refl, ◌⊎◌, inl, inr, Bool, true, false, Option, none, some, [], ◌∷◌,
  arith, contains, ◌==◌, eq_iff, eq_refl, Bool-cases,
}
use lucid_agent_core.Prelude.Int.{pos, negsuc}
use lucid_agent_core.Prelude.Json.{
  Value, bool, int, float, Special, nan, infinity, minus_infinity, special, str, dict, Fields, end,
  field, get, has, has_of_get, NodupFields,
}
use lucid_agent_core.Config.Validation.{
  Reason, min_heartbeat, max_heartbeat, valid_log_levels, check_metric, check_metrics, is_interval,
  is_threshold, is_boolean, in_heartbeat_range, absent_or, or_else,
}

abbrev pub IsHeartbeat : Value → Type 0
IsHeartbeat v = (n : ℕ) × (v ≡ int (pos n)) × (min_heartbeat ≤ n) × (n ≤ max_heartbeat)

abbrev pub IsLogLevel : Value → Type 0
IsLogLevel v = (s : String) × (v ≡ str s) × (contains valid_log_levels s ≡ true)

-- `True` is an int, and counts as 1.
abbrev pub IsInterval : Value → Type 0
IsInterval v = ((n : ℕ) × (v ≡ int (pos n)) × (1 ≤ n)) ⊎ (v ≡ bool true)

-- A number that is not below 0, or NaN, which compares with nothing.
pub data IsThreshold (v : Value) : Type 0 where
  whole : (n : ℕ) → v ≡ int (pos n) → IsThreshold v
  truth : (b : Bool) → v ≡ bool b → IsThreshold v
  fraction : (m k : ℕ) → v ≡ float (pos m) k → IsThreshold v
  not_below : (x : Special) → x ≢ minus_infinity → v ≡ special x → IsThreshold v

pub record IsMetric (f : Fields) : Type 0 where
  pub enabled : (v : Value) → get "enabled" f ≡ some v → (b : Bool) × (v ≡ bool b)
  pub interval_s : (v : Value) → get "interval_s" f ≡ some v → IsInterval v
  pub threshold : (v : Value) → get "change_threshold_percent" f ≡ some v → IsThreshold v

abbrev pub IsMetricValue : Value → Type 0
IsMetricValue v = (f : Fields) × (v ≡ dict f) × IsMetric f

pub record IsMetrics (v : Value) : Type 0 where
  pub fields : Fields
  pub is_dict : v ≡ dict fields
  pub metric : (name : String) (c : Value) → get name fields ≡ some c → IsMetricValue c

pub record IsTelemetry (v : Value) : Type 0 where
  pub fields : Fields
  pub is_dict : v ≡ dict fields
  pub metrics : (m : Value) → get "metrics" fields ≡ some m → IsMetrics m

pub record IsConfig (cfg : Fields) : Type 0 where
  pub known :
      (k : String)
      → has k cfg ≡ true
      → contains ("telemetry" ∷ "heartbeat_s" ∷ "log_level" ∷ []) k ≡ true
  pub heartbeat_s : (v : Value) → get "heartbeat_s" cfg ≡ some v → IsHeartbeat v
  pub log_level : (v : Value) → get "log_level" cfg ≡ some v → IsLogLevel v
  pub telemetry : (v : Value) → get "telemetry" cfg ≡ some v → IsTelemetry v

is_interval-IsInterval : (v : Value) → is_interval v ≡ true → IsInterval v
unfolding is_interval
is_interval-IsInterval (int (pos n)) h = inl (n, refl, ground arith)
is_interval-IsInterval (int (negsuc n)) h = cc
is_interval-IsInterval (bool true) h = inr refl
is_interval-IsInterval (bool false) h = cc
is_interval-IsInterval _ h = cc

is_interval_of_IsInterval : (v : Value) → IsInterval v → is_interval v ≡ true
unfolding is_interval
is_interval_of_IsInterval v (inl (n, e, h)) = rw e (ground arith)
is_interval_of_IsInterval v (inr e) = rw e refl

is_threshold-IsThreshold : (v : Value) → is_threshold v ≡ true → IsThreshold v
unfolding is_threshold
is_threshold-IsThreshold (int (pos n)) h = whole n refl
is_threshold-IsThreshold (int (negsuc n)) h = cc
is_threshold-IsThreshold (float (pos n) k) h = fraction n k refl
is_threshold-IsThreshold (float (negsuc n) k) h = cc
is_threshold-IsThreshold (special nan) h = not_below nan (λ e. cc e) refl
is_threshold-IsThreshold (special infinity) h = not_below infinity (λ e. cc e) refl
is_threshold-IsThreshold (special minus_infinity) h = cc
is_threshold-IsThreshold (bool b) h = truth b refl
is_threshold-IsThreshold _ h = cc

is_threshold_of_IsThreshold : (v : Value) → IsThreshold v → is_threshold v ≡ true
unfolding is_threshold
is_threshold_of_IsThreshold v (whole n e) = rw e (ground arith)
is_threshold_of_IsThreshold v (truth true e) = rw e (ground arith)
is_threshold_of_IsThreshold v (truth false e) = rw e (ground arith)
is_threshold_of_IsThreshold v (fraction m k e) = rw e (ground arith)
is_threshold_of_IsThreshold v (not_below nan n e) = rw e refl
is_threshold_of_IsThreshold v (not_below infinity n e) = rw e refl
is_threshold_of_IsThreshold v (not_below minus_infinity n e) = absurd (n refl)

is_boolean_lem : (v : Value) → is_boolean v ≡ true → (b : Bool) × (v ≡ bool b)
unfolding is_boolean
is_boolean_lem (bool b) h = (b, refl)
is_boolean_lem _ h = cc

pub in_heartbeat_range-IsHeartbeat : (v : Value) → in_heartbeat_range v ≡ true → IsHeartbeat v
unfolding in_heartbeat_range
in_heartbeat_range-IsHeartbeat (int (pos n)) h = (n, refl, ground arith, ground arith)
in_heartbeat_range-IsHeartbeat (int (negsuc n)) h = cc
in_heartbeat_range-IsHeartbeat (bool true) h = cc
in_heartbeat_range-IsHeartbeat (bool false) h = cc
in_heartbeat_range-IsHeartbeat _ h = cc

-- A metric's settings pass exactly when each known setting that is present has its form.
pub check_metric-IsMetric :
    (name : String) (v : Value) → check_metric name v ≡ none → IsMetricValue v
unfolding check_metric
check_metric-IsMetric name (dict f) h = (
  f,
  refl,
  record {
    enabled = λ v e. is_boolean_lem v (ground arith);
    interval_s = λ v e. is_interval-IsInterval v (ground arith);
    threshold = λ v e. is_threshold-IsThreshold v (ground arith);
  },
)
check_metric-IsMetric name _ h = cc

absent_or_lem :
    (test : Value → Bool) (o : Option Value)
    → ((v : Value) → o ≡ some v → test v ≡ true)
    → absent_or test o ≡ true
absent_or_lem test none h = refl
absent_or_lem test (some v) h = h v refl

check_metric_of_IsMetric :
    (name : String) (v : Value) → IsMetricValue v → check_metric name v ≡ none
unfolding check_metric
check_metric_of_IsMetric name v (f, e, m) = rw e (
    rw
      (
        absent_or_lem is_boolean (get "enabled" f) (λ w h. rw ((m.enabled w h).1) refl),
        absent_or_lem is_interval (get "interval_s" f)
            (λ w h. is_interval_of_IsInterval w (m.interval_s w h)),
        absent_or_lem is_threshold (get "change_threshold_percent" f)
            (λ w h. is_threshold_of_IsThreshold w (m.threshold w h)),
      )
      refl)

pub or_else-none : (a b : Option Reason) → or_else a b ≡ none → (a ≡ none) × (b ≡ none)
or_else-none none b h = (refl, h)
or_else-none (some e) b h = absurd (cc)

pub check_metrics-get :
    (ms : Fields)
    → check_metrics ms ≡ none
    → (name : String) (c : Value) → get name ms ≡ some c
    → IsMetricValue c
unfolding check_metrics get
check_metrics-get end h name c e = cc
check_metrics-get (field j v ms) h name c e =
    let (one, others) = or_else-none (check_metric j v) (check_metrics ms) h in
    elim (Bool-cases (j == name)) [
      | inl here ↦
          let same : v ≡ c = ground arith in
          subst IsMetricValue same (check_metric-IsMetric j v one)
      | inr there ↦ check_metrics-get ms others name c (ground arith)
    ]

-- A value of the rest is the value of the whole, the keys being distinct.
pub get-field :
    (j k : String) (v w : Value) (d : Fields)
    → has j d ≡ false
    → get k d ≡ some w
    → get k (field j v d) ≡ some w
unfolding get
get-field j k v w d h e = ground (arith, eq_iff j k, has_of_get k d w)

pub check_metrics_of_get :
    (ms : Fields)
    → NodupFields ms
    → ((name : String) (c : Value) → get name ms ≡ some c → IsMetricValue c)
    → check_metrics ms ≡ none
unfolding check_metrics get
check_metrics_of_get end d h = refl
check_metrics_of_get (field j v ms) d h =
    rw
      (
        check_metric_of_IsMetric j v (h j v (rw eq_refl refl)),
        check_metrics_of_get ms d.1 (λ name c e. h name c (get-field j name v c ms d.0 e)),
      )
      refl

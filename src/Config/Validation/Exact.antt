-- ===== src/Config/Validation/Exact.antt =====
-- `validate` of core/config/_validation.py accepts exactly the configurations that its rules allow.
use mathlib.Core.Path.{subst}
use lucid_agent_core.Prelude.{
  String, ◌≡◌, refl, ◌⊎◌, inl, inr, ap, ◌∙◌, true, Option, none, some, List, [], ◌∷◌, arith,
  contains, ◌==◌, eq_iff, eq_refl, Bool-cases,
}
use lucid_agent_core.Prelude.Json.{
  Value, str, dict, Fields, end, field, get, has, has_of_get, NodupFields,
}
use lucid_agent_core.Config.Validation.{check_entry, check_entries, validate, check_metrics_value}
use lucid_agent_core.Config.Validation.Rules.{
  IsHeartbeat, IsLogLevel, IsMetrics, IsTelemetry, IsConfig, in_heartbeat_range-IsHeartbeat,
  or_else-none, get-field, check_metrics-get, check_metrics_of_get,
}

check_entries-get :
    (cfg : Fields)
    → check_entries cfg ≡ none
    → (k : String) (v : Value) → get k cfg ≡ some v
    → check_entry k v ≡ none
unfolding check_entries get
check_entries-get end h k v e = cc
check_entries-get (field j w cfg) h k v e =
    let (one, others) = or_else-none (check_entry j w) (check_entries cfg) h in
    elim (Bool-cases (j == k)) [
      | inl here ↦
          let same : w ≡ v = ground arith in
          let key : j ≡ k = (eq_iff j k).0 here in rw (← same, ← key) one
      | inr there ↦ check_entries-get cfg others k v (ground arith)
    ]

check_entries_of_get :
    (cfg : Fields)
    → NodupFields cfg
    → ((k : String) (v : Value) → get k cfg ≡ some v → check_entry k v ≡ none)
    → check_entries cfg ≡ none
unfolding check_entries get
check_entries_of_get end d h = refl
check_entries_of_get (field j w cfg) d h =
    rw
      (
        h j w (rw eq_refl refl),
        check_entries_of_get cfg d.1 (λ k v e. h k v (get-field j k w v cfg d.0 e)),
      )
      refl

get_of_has : (k : String) (d : Fields) → has k d ≡ true → (v : Value) × (get k d ≡ some v)
unfolding get has
get_of_has k end h = cc
get_of_has k (field j v d) h = elim (Bool-cases (j == k)) [
  | inl here ↦ (v, rw here refl)
  | inr there ↦ rw there (get_of_has k d (ground arith))
]

abbrev known_keys : List String
known_keys = "telemetry" ∷ "heartbeat_s" ∷ "log_level" ∷ []

check_entry-known : (k : String) (v : Value) → check_entry k v ≡ none → contains known_keys k ≡ true
unfolding check_entry
check_entry-known k v h = ground (
  arith,
  eq_iff k "telemetry",
  eq_iff k "heartbeat_s",
  eq_iff k "log_level",
  eq_iff "telemetry" k,
  eq_iff "heartbeat_s" k,
  eq_iff "log_level" k,
)

check_entry-IsHeartbeat : (v : Value) → check_entry "heartbeat_s" v ≡ none → IsHeartbeat v
unfolding check_entry
check_entry-IsHeartbeat v h = in_heartbeat_range-IsHeartbeat v (ground arith)

check_entry-IsLogLevel : (v : Value) → check_entry "log_level" v ≡ none → IsLogLevel v
unfolding check_entry
check_entry-IsLogLevel (str s) h = (s, refl, ground arith)
check_entry-IsLogLevel _ h = cc

check_metrics_value-IsMetrics : (m : Value) → check_metrics_value (some m) ≡ none → IsMetrics m
check_metrics_value-IsMetrics (dict ms) h = record {
  fields = ms;
  is_dict = refl;
  metric = check_metrics-get ms h;
}
check_metrics_value-IsMetrics _ h = cc

check_entry-IsTelemetry : (v : Value) → check_entry "telemetry" v ≡ none → IsTelemetry v
unfolding check_entry
check_entry-IsTelemetry (dict t) h = record {
  fields = t;
  is_dict = refl;
  metrics = λ m e. check_metrics_value-IsMetrics m (subst (λ o. check_metrics_value o ≡ none) e h);
}
check_entry-IsTelemetry _ h = cc

pub validate-IsConfig : (cfg : Fields) → validate (dict cfg) ≡ none → IsConfig cfg
unfolding validate
validate-IsConfig cfg h = record {
  known = λ k p.
      let (v, e) = get_of_has k cfg p in check_entry-known k v (check_entries-get cfg h k v e);
  heartbeat_s = λ v e. check_entry-IsHeartbeat v (check_entries-get cfg h "heartbeat_s" v e);
  log_level = λ v e. check_entry-IsLogLevel v (check_entries-get cfg h "log_level" v e);
  telemetry = λ v e. check_entry-IsTelemetry v (check_entries-get cfg h "telemetry" v e);
}

-- The keys of the configuration, and of its metrics, are distinct, as a Python dict's are.
pub record IsDistinct (cfg : Fields) : Type 0 where
  pub top : NodupFields cfg
  pub metrics :
      (t ms : Fields)
      → get "telemetry" cfg ≡ some (dict t)
      → get "metrics" t ≡ some (dict ms)
      → NodupFields ms

check_entry_of_heartbeat : (v : Value) → IsHeartbeat v → check_entry "heartbeat_s" v ≡ none
unfolding check_entry
check_entry_of_heartbeat v (n, e, lo, hi) = rw e (ground arith)

check_entry_of_log_level : (v : Value) → IsLogLevel v → check_entry "log_level" v ≡ none
unfolding check_entry
check_entry_of_log_level v (s, e, m) = rw e (rw m refl)

check_telemetry_of_metrics :
    (t : Fields)
    → ((m : Value) → get "metrics" t ≡ some m → check_metrics_value (some m) ≡ none)
    → (o : Option Value) → get "metrics" t ≡ o
    → check_metrics_value o ≡ none
check_telemetry_of_metrics t h none e = refl
check_telemetry_of_metrics t h (some m) e = h m e

check_metrics_value_of_IsMetrics :
    (m : Value)
    → IsMetrics m
    → ((ms : Fields) → m ≡ dict ms → NodupFields ms)
    → check_metrics_value (some m) ≡ none
check_metrics_value_of_IsMetrics m i d =
    rw i.is_dict (check_metrics_of_get i.fields (d i.fields i.is_dict) i.metric)

check_entry_of_telemetry :
    (v : Value)
    → IsTelemetry v
    → ((t ms : Fields) → v ≡ dict t → get "metrics" t ≡ some (dict ms) → NodupFields ms)
    → check_entry "telemetry" v ≡ none
unfolding check_entry
check_entry_of_telemetry v i d = rw i.is_dict (
    check_telemetry_of_metrics i.fields
      (λ m e.
        check_metrics_value_of_IsMetrics m (i.metrics m e)
          (λ ms q. d i.fields ms i.is_dict (e ∙ ap some q)))
      (get "metrics" i.fields) refl)

known_key_cases :
    (k : String)
    → contains known_keys k ≡ true
    → (k ≡ "telemetry") ⊎ (k ≡ "heartbeat_s") ⊎ (k ≡ "log_level")
known_key_cases k h =
    ground (arith, eq_iff "telemetry" k, eq_iff "heartbeat_s" k, eq_iff "log_level" k)

check_entry_of_IsConfig :
    (cfg : Fields)
    → IsConfig cfg
    → IsDistinct cfg
    → (k : String) (v : Value) → get k cfg ≡ some v
    → check_entry k v ≡ none
check_entry_of_IsConfig cfg i d k v e =
    elim (known_key_cases k (i.known k (has_of_get k cfg v e))) [
      | inl p ↦ rw p (
          check_entry_of_telemetry v (i.telemetry v (rw p at e))
            (λ t ms q r. d.metrics t ms ((rw p at e) ∙ ap some q) r))
      | inr (inl p) ↦ rw p (check_entry_of_heartbeat v (i.heartbeat_s v (rw p at e)))
      | inr (inr p) ↦ rw p (check_entry_of_log_level v (i.log_level v (rw p at e)))
    ]

-- Conversely, every such configuration with distinct keys is accepted: the walk of `validate`
-- rejects nothing else.
pub validate_of_IsConfig :
    (cfg : Fields) → IsConfig cfg → IsDistinct cfg → validate (dict cfg) ≡ none
unfolding validate
validate_of_IsConfig cfg i d = check_entries_of_get cfg d.top (check_entry_of_IsConfig cfg i d)

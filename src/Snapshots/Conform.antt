-- ===== src/Snapshots/Conform.antt =====
-- What the schema of core/snapshots.py promises about a configuration, against what
-- core/config/_validation.py accepts.
use lucid_agent_core.Prelude.{
  ℕ, ◌*◌, ◌^◌, String, ◌≡◌, refl, ◌↔◌, Bool, true, false, ◌&&◌, ◌||◌, Option, none, some, arith,
  ◌==◌, if◌then◌else◌,
}
use lucid_agent_core.Prelude.Int.{ℤ, pos, negsuc, leb_ℕℤ, leb_ℤℕ}
use lucid_agent_core.Prelude.Json.{
  Value, bool, int, float, str, list, Items, nil, cons, dict, Fields, end, field, get,
}
use lucid_agent_core.Config.Validation.{
  wrong_type, log_level_choice, heartbeat_range, is_instance, Reason, int_value, check_entry,
  check_metric, is_boolean, is_interval, is_threshold, in_heartbeat_range, absent_or,
}
use lucid_agent_core.Snapshots.Schema.{publishes}

abbrev among : String → Items → Bool
among s nil = false
among s (cons (str t) vs) = t == s || among s vs
among s (cons _ vs) = among s vs

-- A choice, and bounds, where the schema has them.
abbrev in_enum : Option Value → String → Bool
in_enum (some (list vs)) s = among s vs
in_enum _ s = true

abbrev at_least : Option Value → ℤ → ℕ → Bool
at_least (some (int (pos n))) m k = leb_ℕℤ (n * 2 ^ k) m
at_least _ m k = true

abbrev at_most : Option Value → ℤ → Bool
at_most (some (int (pos n))) m = leb_ℤℕ m n
at_most _ m = true

abbrev has_type : Fields → String → Bool
has_type spec t = elim (get "type" spec) [
  | none ↦ false
  | some v ↦ elim v [ str s ↦ s == t | _ ↦ false ]
]

-- Whether a value is what a field of the schema describes. Each int is a float, a bool is no int.
unfoldable pub satisfies : Fields → Value → Bool
satisfies spec (int z) =
    (has_type spec "integer" || has_type spec "float")
    && at_least (get "min" spec) z 0
    && at_most (get "max" spec) z
satisfies spec (float m k) = has_type spec "float" && at_least (get "min" spec) m k
satisfies spec (bool b) = has_type spec "boolean"
satisfies spec (str s) = has_type spec "string" && in_enum (get "enum" spec) s
satisfies spec _ = false

-- Whether the fields that a dict has are what the schema says of them.
unfoldable pub all_satisfy : Fields → Fields → Bool
unfolding satisfies
all_satisfy end cfg = true
all_satisfy (field k (dict spec) specs) cfg =
    absent_or (satisfies spec) (get k cfg) && all_satisfy specs cfg
all_satisfy (field k _ specs) cfg = all_satisfy specs cfg

abbrev sub : String → Fields → Fields
sub k d = elim (get k d) [ none ↦ end | some v ↦ elim v [ dict e ↦ e | _ ↦ end ] ]

-- The description of a field of a published topic.
unfoldable pub spec_at : String → String → Fields
spec_at topic name = sub name (sub "fields" (sub topic publishes))

-- A test, and an error where it fails.
agree : (b : Bool) (e : Reason) → (b ≡ true ↔ (if b then none else some e) ≡ none)
agree true e = (λ h. refl, λ h. refl)
agree false e = (λ h. absurd (cc h), λ h. absurd (cc h))

heartbeat-agrees :
    (v : Value)
    → (satisfies (spec_at "cfg" "heartbeat_s") v ≡ true ↔ check_entry "heartbeat_s" v ≡ none)
unfolding satisfies spec_at get check_entry in_heartbeat_range is_instance int_value
heartbeat-agrees (int z) = agree _ heartbeat_range
heartbeat-agrees (bool true) = agree false heartbeat_range
heartbeat-agrees (bool false) = agree false heartbeat_range
heartbeat-agrees _ = agree false (wrong_type "heartbeat_s")

log_level-agrees :
    (v : Value)
    → (satisfies (spec_at "cfg/logging" "log_level") v ≡ true ↔ check_entry "log_level" v ≡ none)
unfolding satisfies spec_at get check_entry is_instance
log_level-agrees (str s) = agree _ log_level_choice
log_level-agrees _ = agree false (wrong_type "log_level")

-- The published schema and the validation agree on the settings of the agent: a value satisfies the
-- schema's field of `cfg` or `cfg/logging` exactly when `validate` accepts it under that key.
pub satisfies-check_entry :
    (v : Value)
    → (satisfies (spec_at "cfg" "heartbeat_s") v ≡ true ↔ check_entry "heartbeat_s" v ≡ none)
      × (satisfies (spec_at "cfg/logging" "log_level") v ≡ true ↔ check_entry "log_level" v ≡ none)
satisfies-check_entry v = (heartbeat-agrees v, log_level-agrees v)

interval-satisfies :
    (v : Value)
    → satisfies (sub "interval_s" (sub "fields" (spec_at "cfg/telemetry" "cpu_percent"))) v ≡ true
    → is_interval v ≡ true
unfolding satisfies spec_at get is_interval int_value
interval-satisfies (int z) h = ground (arith, h)
interval-satisfies _ h = absurd (cc h)

threshold-satisfies :
    (v : Value)
    → satisfies
        (sub "change_threshold_percent" (sub "fields" (spec_at "cfg/telemetry" "cpu_percent")))
        v
      ≡ true
    → is_threshold v ≡ true
unfolding satisfies spec_at get is_threshold int_value
threshold-satisfies (int (pos z)) h = ground arith
threshold-satisfies (int (negsuc z)) h = absurd (cc h)
threshold-satisfies (float (pos z) k) h = ground arith
threshold-satisfies (float (negsuc z) k) h = absurd (cc h)
threshold-satisfies _ h = absurd (cc h)

enabled-satisfies :
    (v : Value)
    → satisfies (sub "enabled" (sub "fields" (spec_at "cfg/telemetry" "cpu_percent"))) v ≡ true
    → is_boolean v ≡ true
unfolding satisfies spec_at get is_boolean
enabled-satisfies (bool b) h = refl
enabled-satisfies _ h = absurd (cc h)

absent_or-map :
    {f g : Value → Bool}
    → ((v : Value) → f v ≡ true → g v ≡ true)
    → (o : Option Value) → absent_or f o ≡ true
    → absent_or g o ≡ true
absent_or-map i none h = refl
absent_or-map i (some v) h = i v h

-- Settings of a metric that satisfy the schema are accepted.
pub all_satisfy-check_metric :
    (name : String) (cfg : Fields)
    → all_satisfy (sub "fields" (spec_at "cfg/telemetry" "cpu_percent")) cfg ≡ true
    → check_metric name (dict cfg) ≡ none
unfolding all_satisfy spec_at get check_metric
all_satisfy-check_metric name cfg h = ground (
  arith,
  h,
  absent_or-map enabled-satisfies (get "enabled" cfg),
  absent_or-map interval-satisfies (get "interval_s" cfg),
  absent_or-map threshold-satisfies (get "change_threshold_percent" cfg),
)

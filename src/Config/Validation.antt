-- ===== src/Config/Validation.antt =====
-- core/config/_validation.py. An error is the rule that is broken, not its message.
pub mod Rules
pub mod Exact
use mathlib.Core.Option
use lucid_agent_core.Prelude.{
  ℕ, String, Bool, true, false, not, ◌&&◌, Option, none, some, List, [], ◌∷◌, contains, leb, ◌==◌,
  if◌then◌else◌,
}
use lucid_agent_core.Prelude.Int.{ℤ, pos, negsuc, leb_ℕℤ, leb_ℤℕ}
use lucid_agent_core.Prelude.Json.{
  Value, null, bool, int, float, special, minus_infinity, str, list, dict, Fields, end, field, get,
}

abbrev pub min_heartbeat : ℕ
min_heartbeat = 5

abbrev pub max_heartbeat : ℕ
max_heartbeat = 3600

abbrev pub valid_log_levels : List String
valid_log_levels = "DEBUG" ∷ "INFO" ∷ "WARNING" ∷ "ERROR" ∷ "CRITICAL" ∷ []

abbrev pub cfg_general_keys : List String
cfg_general_keys = "heartbeat_s" ∷ []

abbrev pub cfg_logging_keys : List String
cfg_logging_keys = "log_level" ∷ []

-- The classes that `ALLOWED_KEYS` names.
pub data Class : Type 0 where
  dict_class int_class str_class : Class

-- `ALLOWED_KEYS.get(key)`
unfoldable pub allowed_class : String → Option Class
allowed_class key =
    if key == "telemetry"
    then some dict_class
    else if key == "heartbeat_s"
    then some int_class
    else if key == "log_level"
    then some str_class
    else none

-- `isinstance`: a bool is an int.
unfoldable pub is_instance : Value → Class → Bool
is_instance (dict _) dict_class = true
is_instance (int _) int_class = true
is_instance (bool _) int_class = true
is_instance (str _) str_class = true
is_instance _ _ = false

pub data Reason : Type 0 where
  not_dict metrics_not_dict heartbeat_range log_level_choice : Reason
  unknown_key wrong_type metric_not_dict : String → Reason
  enabled_not_boolean interval_too_small threshold_negative : String → Reason

-- An int as a number, a bool being 0 or 1.
unfoldable pub int_value : Value → Option ℤ
int_value (int z) = some z
int_value (bool true) = some (pos 1)
int_value (bool false) = some (pos 0)
int_value _ = none

-- `isinstance(v, bool)`
unfoldable pub is_boolean : Value → Bool
is_boolean (bool _) = true
is_boolean _ = false

-- `isinstance(v, int) and v >= 1`
unfoldable pub is_interval : Value → Bool
unfolding int_value
is_interval v = elim (int_value v) [ none ↦ false | some z ↦ leb_ℕℤ 1 z ]

-- `isinstance(v, (int, float)) and not v < 0`; no comparison holds of NaN.
unfoldable pub is_threshold : Value → Bool
unfolding int_value
is_threshold (float m _) = leb_ℕℤ 0 m
is_threshold (special minus_infinity) = false
is_threshold (special _) = true
is_threshold v = elim (int_value v) [ none ↦ false | some z ↦ leb_ℕℤ 0 z ]

-- `MIN_HEARTBEAT <= v <= MAX_HEARTBEAT`, for an int
unfoldable pub in_heartbeat_range : Value → Bool
unfolding int_value
in_heartbeat_range v = elim (int_value v) [
  | none ↦ false
  | some z ↦ leb_ℕℤ min_heartbeat z && leb_ℤℕ z max_heartbeat
]

-- `key not in d or test(d[key])`
abbrev pub absent_or : (Value → Bool) → Option Value → Bool
absent_or test none = true
absent_or test (some v) = test v

unfoldable pub check_metric : String → Value → Option Reason
unfolding is_boolean is_interval is_threshold
check_metric name (dict cfg) =
    if not (absent_or is_boolean (get "enabled" cfg))
    then some (enabled_not_boolean name)
    else if not (absent_or is_interval (get "interval_s" cfg))
    then some (interval_too_small name)
    else if not (absent_or is_threshold (get "change_threshold_percent" cfg))
    then some (threshold_negative name)
    else none
check_metric name _ = some (metric_not_dict name)

-- The first error of a loop that returns on an error.
abbrev pub or_else : Option Reason → Option Reason → Option Reason
or_else none next = next
or_else (some e) next = some e

unfoldable pub check_metrics : Fields → Option Reason
check_metrics end = none
check_metrics (field name cfg rest) = or_else (check_metric name cfg) (check_metrics rest)

abbrev pub check_metrics_value : Option Value → Option Reason
check_metrics_value none = none
check_metrics_value (some (dict metrics)) = check_metrics metrics
check_metrics_value (some _) = some metrics_not_dict

abbrev pub check_telemetry : Value → Option Reason
check_telemetry (dict t) = check_metrics_value (get "metrics" t)
check_telemetry _ = none

abbrev pub check_log_level : Value → Option Reason
check_log_level (str s) = if contains valid_log_levels s then none else some log_level_choice
check_log_level _ = some log_level_choice

-- The body of the loop over `cfg.items()`.
unfoldable pub check_entry : String → Value → Option Reason
unfolding allowed_class is_instance in_heartbeat_range
check_entry key value = elim (allowed_class key) [
  | none ↦ some (unknown_key key)
  | some expected ↦
      if not (is_instance value expected)
      then some (wrong_type key)
      else if key == "telemetry"
      then check_telemetry value
      else if key == "heartbeat_s"
      then (if in_heartbeat_range value then none else some heartbeat_range)
      else if key == "log_level"
      then check_log_level value
      else none
]

unfoldable pub check_entries : Fields → Option Reason
check_entries end = none
check_entries (field key value rest) = or_else (check_entry key value) (check_entries rest)

-- `none` is `(True, None)`.
unfoldable pub validate : Value → Option Reason
unfolding check_entries
validate (dict cfg) = check_entries cfg
validate _ = some not_dict

-- ===== src/Snapshots.antt =====
-- core/snapshots.py: the payloads of the retained topics, from the registry and the configuration.
pub mod Schema
pub mod Metrics
pub mod Conform
pub mod Advertised
mod Tests
use mathlib.Core.Option
use lucid_agent_core.Prelude.{
  ℕ, ◌/◌, ◌^◌, ◌-◌, ◌+◌, String, Bool, true, false, not, Option, none, some, List, [], ◌∷◌, nat_eq,
  ◌==◌, if◌then◌else◌,
}
use lucid_agent_core.Prelude.Errors.{
  attribute_error, type_error, value_error, overflow_error, Outcome, ok, raise, ◌>>=◌,
}
use lucid_agent_core.Prelude.Int.{ℤ, pos, negsuc}
use lucid_agent_core.Prelude.Json.{
  Value, null, bool, int, Float, finite, nonfinite, float, special, nan, str, list, Items, nil,
  cons, dict, Fields, end, field, get,
}
use lucid_agent_core.Config.Apply.{is_falsy}
use lucid_agent_core.Registry.{Registry}

-- Python's conversions: of a text to an int and to a float, where the text is one, and of an int to a
-- float m / 2^k, which fails for one that is too large.
pub record Convert : Type 0 where
  pub int_of_text : String → Option ℤ
  pub float_of_text : String → Option Float
  pub float_of_int : ℤ → Outcome (ℤ × ℕ)
  -- `str`
  pub text_of : Value → String

-- `int(v)`: a float is cut off towards zero.
unfoldable pub to_int : Convert → Value → Outcome ℤ
to_int c (int z) = ok z
to_int c (bool true) = ok (pos 1)
to_int c (bool false) = ok (pos 0)
to_int c (float (pos m) k) = ok (pos (m / 2 ^ k))
to_int c (float (negsuc m) k) =
    let n = (m + 1) / 2 ^ k in if nat_eq n 0 then ok (pos 0) else ok (negsuc (n - 1))
to_int c (special nan) = raise value_error
to_int c (special _) = raise overflow_error
to_int c (str s) = elim (c.int_of_text s) [ none ↦ raise value_error | some z ↦ ok z ]
to_int c _ = raise type_error

-- `float(v)`
unfoldable pub to_float : Convert → Value → Outcome Float
to_float c (float m k) = ok (finite m k)
to_float c (special x) = ok (nonfinite x)
to_float c (int z) = do (m, k) ← c.float_of_int z; ok (finite m k)
to_float c (bool true) = ok (finite (pos 1) 0)
to_float c (bool false) = ok (finite (pos 0) 0)
to_float c (str s) = elim (c.float_of_text s) [ none ↦ raise value_error | some x ↦ ok x ]
to_float c _ = raise type_error

-- `d.get(key, default)`
abbrev pub get_or : String → Value → Fields → Value
get_or key default_ d = elim (get key d) [ none ↦ default_ | some v ↦ v ]

-- `build_status`, of a state, the time of the connection and the uptime, a float.
abbrev pub build_status : String → String → Value → Value
build_status state connected_since_ts uptime_s = dict (
    field "state" (str state)
      (field "connected_since_ts" (str connected_since_ts) (field "uptime_s" uptime_s end)))

-- `build_metadata`, of the version and what the platform and the socket say.
abbrev or_unknown : String → String
or_unknown s = if s == "" then "unknown" else s

abbrev pub build_metadata : String → String → String → Option String → Value
build_metadata version system machine ip_address = dict (
    field "version" (str version) (
      field "platform" (str (or_unknown system)) (
        field "architecture" (str (or_unknown machine))
          (field "ip_address" (str (elim ip_address [ none ↦ "unknown" | some ip ↦ ip ])) end))))

-- `build_components_list`
unfoldable pub build_components_list : Registry → Items
build_components_list [] = nil
build_components_list ((cid, meta) ∷ reg) =
    cons
      (dict (
        field "component_id" (str cid) (
          field "version" (get_or "version" (str "?") meta)
            (field "enabled" (get_or "enabled" (bool true) meta) end))))
      (build_components_list reg)

abbrev pub build_state : Items → Value
build_state components_list = dict (field "components" (list components_list) end)

unfoldable pub build_cfg : Convert → Fields → Outcome Value
unfolding to_int
build_cfg c cfg = do
  z ← to_int c (get_or "heartbeat_s" (int (pos 30)) cfg)
  ok (dict (field "heartbeat_s" (int z) end))

unfoldable pub build_cfg_logging : Convert → Fields → Value
build_cfg_logging c cfg =
    dict (field "log_level" (str (c.text_of (get_or "log_level" (str "INFO") cfg))) end)

-- The settings of a metric, as the loop of `build_cfg_telemetry` writes them.
pub record Metric : Type 0 where
  pub enabled : Bool
  pub interval_s : ℤ
  pub change_threshold_percent : Float

unfoldable pub metric_of : Convert → Fields → Outcome Metric
unfolding to_int to_float
metric_of c cfg = do
  interval_s ← to_int c (get_or "interval_s" (int (pos 2)) cfg)
  threshold ← to_float c (get_or "change_threshold_percent" (float (pos 2) 0) cfg)
  ok (record {
    enabled = not (is_falsy (get_or "enabled" (bool false) cfg));
    interval_s = interval_s;
    change_threshold_percent = threshold;
  })

-- `d.get(key, {})`, of something that is asked for a key next.
unfoldable pub sub_dict : String → Fields → Outcome Fields
sub_dict key d = elim (get key d) [
  | none ↦ ok end
  | some v ↦ elim v [ dict e ↦ ok e | _ ↦ raise attribute_error ]
]

-- The settings of a metric that are stored, if they are a dict.
unfoldable pub stored_metric : String → Fields → Fields
stored_metric name metrics = elim (get name metrics) [
  | none ↦ end
  | some v ↦ elim v [ dict e ↦ e | _ ↦ end ]
]

abbrev pub available_metrics : List String
available_metrics = "cpu_percent" ∷ "memory_percent" ∷ "disk_percent" ∷ []

-- The loop over `available_metrics`.
unfoldable pub build_metrics : Convert → Fields → List String → Outcome (List (String × Metric))
unfolding metric_of stored_metric
build_metrics c stored [] = ok []
build_metrics c stored (name ∷ names) = do
  m ← metric_of c (stored_metric name stored)
  rest ← build_metrics c stored names
  ok ((name, m) ∷ rest)

unfoldable pub build_cfg_telemetry : Convert → Fields → Outcome (List (String × Metric))
unfolding sub_dict build_metrics
build_cfg_telemetry c cfg = do
  telemetry ← sub_dict "telemetry" cfg
  stored ← sub_dict "metrics" telemetry
  build_metrics c stored available_metrics

-- ===== src/Config/Tests.antt =====
-- Runs of core/config/store.py on concrete payloads, and the theorems at concrete data.
use lucid_agent_core.Config.Store.Sorted.{insert_field}
use lucid_agent_core.Config.Apply.{commit}
use lucid_agent_core.Config.Apply.{dict_or_empty}
use lucid_agent_core.Config.Apply.{expand}
use lucid_agent_core.Config.Validation.{check_entry}
use mathlib.Core.Path.{subst}
use mathlib.Core.Option
use lucid_agent_core.Prelude.{
  String, ◌≡◌, refl, inl, true, none, some, [], ◌∷◌, contains, if◌then◌else◌,
}
use lucid_agent_core.Prelude.Errors.{ok}
use lucid_agent_core.Prelude.Int.{pos}
use lucid_agent_core.Prelude.Json.{
  Value, bool, int, str, dict, Fields, end, field, get, has, put, merge,
}
use lucid_agent_core.Config.Validation.{validate, cfg_general_keys}
use lucid_agent_core.Config.Validation.Exact.{validate-IsConfig, validate_of_IsConfig, IsDistinct}
use lucid_agent_core.Config.Store.{
  ConfigStore, new, missing, json, WriteFault, ReadFault, load, save, get_cached,
}
use lucid_agent_core.Config.Store.Sorted.{sorted_fields, sorted_value}
use lucid_agent_core.Config.Store.Reload.{load-save}
use lucid_agent_core.Config.Apply.{
  ApplyResult, apply_top_level_keys, apply_set_general, apply_set_telemetry, request_id_of, refused,
  merge_metrics, unknown_keys,
}
use lucid_agent_core.Config.Apply.Atomic.{
  general, load_call, cache_always_valid, Transition, apply_top_level_keys-Transition, IsSound,
}
use lucid_agent_core.Config.Apply.Effect.{apply_top_level_keys_effect, override}
use lucid_agent_core.Config.Apply.Metrics.{merge_metrics_effect, Merged}
use lucid_agent_core.Config.Apply.Total.{apply_set_telemetry_returns}

abbrev cfg : Fields
cfg = field "log_level" (str "INFO") (field "heartbeat_s" (int (pos 30)) end)

abbrev cfg_sorted : Fields
cfg_sorted = field "heartbeat_s" (int (pos 30)) (field "log_level" (str "INFO") end)

abbrev request : Fields → Fields
request d = field "request_id" (str "r1") (field "set" (dict d) end)

abbrev faster : Fields
faster = field "heartbeat_s" (int (pos 5)) end

abbrev cpu_on : Fields
cpu_on = field "cpu" (bool true) end

abbrev loaded : ConfigStore
loaded = record { cache = some cfg; file = missing }

cfg-valid : validate (dict cfg) ≡ none
unfolding validate check_entry
cfg-valid = refl

loaded-IsSound : IsSound loaded
loaded-IsSound =
    λ c e. let same : cfg ≡ c = cc e in subst (λ x. validate (dict x) ≡ none) same cfg-valid

-- A key that `cmd/cfg/set` does not own is refused.
wrong_scope :
    (apply_set_general loaded WriteFault.no_fault (request cfg)).0
    ≡ ok (refused cfg (str "r1") (unknown_keys ("log_level" ∷ [])))
unfolding apply_set_general get get_cached
wrong_scope = refl

-- `true` for a metric enables it and keeps its other settings.
shorthand :
    merge_metrics cpu_on (field "cpu" (dict (field "interval_s" (int (pos 9)) end)) end)
    ≡ ok (
        inl (
          field "cpu"
            (dict (field "interval_s" (int (pos 9)) (field "enabled" (bool true) end)))
            end))
unfolding merge_metrics expand dict_or_empty get put merge
shorthand = refl

cache_always_valid_example :
    validate (dict (field "log_level" (str "INFO") (field "heartbeat_s" (int (pos 5)) end))) ≡ none
unfolding apply_set_general load get commit validate put get_cached check_entry save
cache_always_valid_example =
    cache_always_valid (json (dict cfg))
      (load_call ReadFault.no_fault ∷ general WriteFault.no_fault (request faster) ∷ [])
      (field "log_level" (str "INFO") (field "heartbeat_s" (int (pos 5)) end)) refl

apply_top_level_keys-Transition_example :
    Transition loaded WriteFault.after_rename
      (apply_top_level_keys cfg_general_keys loaded WriteFault.after_rename (request faster))
apply_top_level_keys-Transition_example =
    apply_top_level_keys-Transition loaded WriteFault.after_rename (request faster) cfg_general_keys

abbrev new_cfg : Fields
new_cfg = field "log_level" (str "INFO") (field "heartbeat_s" (int (pos 5)) end)

abbrev stored : ConfigStore
stored = record {
  cache = some new_cfg;
  file = json (dict (field "heartbeat_s" (int (pos 5)) (field "log_level" (str "INFO") end)));
}

apply_top_level_keys_effect_example :
    (get "set" (request faster) ≡ some (dict faster))
    × (str "r1" ≡ request_id_of (request faster))
    × ((k : String) → has k faster ≡ true → contains cfg_general_keys k ≡ true)
    × (stored.cache ≡ some new_cfg)
    × ((k : String)
        → get k new_cfg ≡ (
            if contains cfg_general_keys k
            then override (get k faster) (get k (get_cached loaded))
            else get k (get_cached loaded)))
unfolding apply_top_level_keys get commit validate put get_cached check_entry save sorted_fields
    insert_field
apply_top_level_keys_effect_example =
    apply_top_level_keys_effect cfg_general_keys loaded stored WriteFault.no_fault (request faster)
      new_cfg (str "r1") faster refl

abbrev cpu_merged : Fields
cpu_merged = field "cpu" (dict (field "enabled" (bool true) end)) end

merge_metrics_effect_example :
    (get "cpu" cpu_on ≡ none → get "cpu" cpu_merged ≡ get "cpu" end)
    × ((v : Value) → get "cpu" cpu_on ≡ some v → Merged v (get "cpu" end) (get "cpu" cpu_merged))
unfolding merge_metrics expand dict_or_empty get put merge has
merge_metrics_effect_example = merge_metrics_effect cpu_on end cpu_merged "cpu" refl (refl, tt, tt)

apply_set_telemetry_returns_example :
    (a : Fields × ApplyResult) × ((apply_set_telemetry loaded WriteFault.before_rename
        (request cpu_on)).0
      ≡ ok a)
apply_set_telemetry_returns_example =
    apply_set_telemetry_returns loaded WriteFault.before_rename (request cpu_on) loaded-IsSound
      (λ e. cc e)

cfg-IsDistinct : IsDistinct cfg
unfolding has get
cfg-IsDistinct =
    let none_is : get "telemetry" cfg ≡ none = refl in
    record { top = (refl, (refl, tt)); metrics = λ t ms e f. cc (e, none_is) }

validate_of_IsConfig_example : validate (dict cfg) ≡ none
validate_of_IsConfig_example =
    validate_of_IsConfig cfg (validate-IsConfig cfg cfg-valid) cfg-IsDistinct

load-save_example :
    (validate (dict cfg) ≡ none)
    × (some cfg ≡ some cfg)
    × ((load (new (json (dict cfg_sorted))) ReadFault.no_fault).0 ≡ ok (sorted_fields cfg))
    × ((load (new (json (dict cfg_sorted))) ReadFault.no_fault).1.cache ≡ some (sorted_fields cfg))
    × ((k : String) → get k (sorted_fields cfg) ≡ Option.map sorted_value (get k cfg))
unfolding save validate check_entry sorted_fields insert_field
load-save_example =
    load-save (new missing) (record { cache = some cfg; file = json (dict cfg_sorted) })
      WriteFault.no_fault cfg refl

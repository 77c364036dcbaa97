-- ===== src/Config/Apply.antt =====
-- core/config/store.py: the methods that apply a `cfg/set` payload to the store.
pub mod Atomic
pub mod Effect
pub mod Metrics
pub mod Total
use lucid_agent_core.Prelude.{
  ℕ, zero, String, Bool, true, false, ◌⊎◌, inl, inr, Option, none, some, List, [], ◌∷◌, contains,
  nat_eq, ◌==◌, if◌then◌else◌,
}
use lucid_agent_core.Prelude.Errors.{Exn, config_store_error, type_error, Outcome, ok, raise, ◌>>=◌}
use lucid_agent_core.Prelude.Int.{ℤ, pos}
use lucid_agent_core.Prelude.Json.{
  Value, null, bool, int, float, str, list, Items, nil, dict, Fields, end, field, get, put, merge,
}
use lucid_agent_core.Config.Validation.{Reason, validate, cfg_general_keys, cfg_logging_keys}
use lucid_agent_core.Config.Store.{ConfigStore, WriteFault, save, get_cached}
use lucid_agent_core.Config.Store.Sorted.{sorted_texts}

pub data ApplyError : Type 0 where
  missing_set set_not_dict save_failed : ApplyError
  unknown_keys : List String → ApplyError
  bad_metric : String → ApplyError
  invalid : Reason → ApplyError

-- The result payload; its timestamp is left out.
pub record ApplyResult : Type 0 where
  pub request_id : Value
  pub verdict : Fields ⊎ ApplyError

-- What a method does: it returns the configuration and the result, or raises; and the store after.
abbrev pub Applied : Type 0
Applied = Outcome (Fields × ApplyResult) × ConfigStore

abbrev pub request_id_of : Fields → Value
request_id_of payload = elim (get "request_id" payload) [ none ↦ str "" | some v ↦ v ]

extract : Option Value → Fields ⊎ ApplyError
extract none = inr missing_set
extract (some (dict d)) = inl d
extract (some _) = inr set_not_dict

-- `_extract_set_dict`
unfoldable pub extract_set_dict : Fields → Fields ⊎ ApplyError
unfolding extract
extract_set_dict payload = extract (get "set" payload)

abbrev pub refused : Fields → Value → ApplyError → Fields × ApplyResult
refused current rid error = (current, record { request_id = rid; verdict = inr error })

abbrev pub accepted : Fields → Value → Fields → Fields × ApplyResult
accepted new_cfg rid applied = (new_cfg, record { request_id = rid; verdict = inl applied })

-- `except ConfigStoreError`; any other exception goes through.
after_save : Value → Fields → Fields → Fields → Outcome (Unit {0}) × ConfigStore → Applied
after_save rid current new_cfg applied (ok _, s) = (ok (accepted new_cfg rid applied), s)
after_save rid current new_cfg applied (raise config_store_error, s) =
    (ok (refused current rid save_failed), s)
after_save rid current new_cfg applied (raise e, s) = (raise e, s)

-- The common end of the methods: validate, save, and report.
unfoldable pub commit : ConfigStore → WriteFault → Value → Fields → Fields → Fields → Applied
unfolding after_save
commit s fault rid current new_cfg applied = elim (validate (dict new_cfg)) [
  | some error ↦ (ok (refused current rid (invalid error)), s)
  | none ↦ after_save rid current new_cfg applied (save s fault new_cfg)
]

-- `[k for k in set_dict if k not in allowed_keys]`
unfoldable pub unknown_of : List String → Fields → List String
unknown_of allowed end = []
unknown_of allowed (field k v d) =
    let rest = unknown_of allowed d in if contains allowed k then rest else k ∷ rest

abbrev copy_key : Option Value → String → Fields → Fields
copy_key none k cfg = cfg
copy_key (some v) k cfg = put k v cfg

-- `for key in allowed_keys: if key in set_dict: new_cfg[key] = set_dict[key]`
unfoldable pub copy_keys : List String → Fields → Fields → Fields
copy_keys [] set_dict cfg = cfg
copy_keys (k ∷ ks) set_dict cfg = copy_keys ks set_dict (copy_key (get k set_dict) k cfg)

-- `{k: set_dict[k] for k in set_dict if k in allowed_keys}`
unfoldable pub restrict : List String → Fields → Fields
restrict allowed end = end
restrict allowed (field k v d) =
    let rest = restrict allowed d in if contains allowed k then field k v rest else rest

apply_known : List String → ConfigStore → WriteFault → Value → Fields → List String → Applied
unfolding copy_keys restrict sorted_texts
apply_known allowed s fault rid set_dict [] =
    commit s fault rid (get_cached s) (copy_keys allowed set_dict (get_cached s))
      (restrict allowed set_dict)
apply_known allowed s fault rid set_dict (k ∷ ks) =
    (ok (refused (get_cached s) rid (unknown_keys (sorted_texts (k ∷ ks)))), s)

-- `_apply_top_level_keys`
unfoldable pub apply_top_level_keys : List String → ConfigStore → WriteFault → Fields → Applied
unfolding extract_set_dict apply_known unknown_of
apply_top_level_keys allowed s fault payload = elim (extract_set_dict payload) [
  | inr error ↦ (ok (refused (get_cached s) (request_id_of payload) error), s)
  | inl set_dict ↦
      apply_known allowed s fault (request_id_of payload) set_dict (unknown_of allowed set_dict)
]

unfoldable pub apply_set_general : ConfigStore → WriteFault → Fields → Applied
unfolding apply_top_level_keys
apply_set_general = apply_top_level_keys cfg_general_keys

unfoldable pub apply_set_logging : ConfigStore → WriteFault → Fields → Applied
unfolding apply_top_level_keys
apply_set_logging = apply_top_level_keys cfg_logging_keys

-- `not v`
is_zero : ℤ → Bool
is_zero (pos n) = nat_eq n 0
is_zero _ = false

unfoldable pub is_falsy : Value → Bool
unfolding is_zero
is_falsy null = true
is_falsy (bool b) = if b then false else true
is_falsy (int z) = is_zero z
is_falsy (float m _) = is_zero m
is_falsy (str s) = s == ""
is_falsy (list nil) = true
is_falsy (dict end) = true
is_falsy _ = false

as_dict : Value → Outcome Fields
as_dict (dict d) = ok d
as_dict _ = raise type_error

-- `dict(x or {})`. That a list of pairs, too, makes a dict is left out: a valid configuration has
-- none here.
unfoldable pub dict_or_empty : Option Value → Outcome Fields
unfolding is_falsy as_dict
dict_or_empty none = ok end
dict_or_empty (some v) = if is_falsy v then ok end else as_dict v

-- A bool is short for the setting `enabled`.
unfoldable pub expand : Value → Option Fields
expand (bool b) = some (field "enabled" (bool b) end)
expand (dict d) = some d
expand _ = none

-- The loop over `set_dict.items()`.
unfoldable pub merge_metrics : Fields → Fields → Outcome (Fields ⊎ ApplyError)
merge_metrics end metrics = ok (inl metrics)
merge_metrics (field name v rest) metrics = elim (expand v) [
  | none ↦ ok (inr (bad_metric name))
  | some cfg ↦ do
    existing ← dict_or_empty (get name metrics)
    merge_metrics rest (put name (dict (merge existing cfg)) metrics)
]

-- `new_cfg` of `apply_set_telemetry`
abbrev pub with_metrics : Fields → Fields → Fields → Fields
with_metrics current telemetry metrics =
    put "telemetry" (dict (put "metrics" (dict metrics) telemetry)) current

finish_telemetry :
    ConfigStore → WriteFault → Value → Fields → Fields → Outcome (Fields ⊎ ApplyError) → Applied
finish_telemetry s fault rid set_dict telemetry (raise e) = (raise e, s)
finish_telemetry s fault rid set_dict telemetry (ok (inr error)) =
    (ok (refused (get_cached s) rid error), s)
finish_telemetry s fault rid set_dict telemetry (ok (inl metrics)) =
    commit s fault rid (get_cached s) (with_metrics (get_cached s) telemetry metrics) set_dict

apply_metrics : ConfigStore → WriteFault → Value → Fields → Outcome Fields → Applied
unfolding finish_telemetry
apply_metrics s fault rid set_dict (raise e) = (raise e, s)
apply_metrics s fault rid set_dict (ok telemetry) =
    finish_telemetry s fault rid set_dict telemetry
      (do metrics ← dict_or_empty (get "metrics" telemetry); merge_metrics set_dict metrics)

unfoldable pub apply_set_telemetry : ConfigStore → WriteFault → Fields → Applied
unfolding extract_set_dict apply_metrics
apply_set_telemetry s fault payload = elim (extract_set_dict payload) [
  | inr error ↦ (ok (refused (get_cached s) (request_id_of payload) error), s)
  | inl set_dict ↦
      apply_metrics s fault (request_id_of payload) set_dict
        (dict_or_empty (get "telemetry" (get_cached s)))
]

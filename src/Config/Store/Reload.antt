-- ===== src/Config/Store/Reload.antt =====
-- What a later `load` of core/config/store.py finds after a `save`.
use mathlib.Core.Option
use lucid_agent_core.Prelude.{String, ◌≡◌, refl, Bool, Option, none, some, arith}
use lucid_agent_core.Prelude.Errors.{ok}
use lucid_agent_core.Prelude.Json.{Value, list, dict, Fields, end, field, get}
use lucid_agent_core.Config.Validation.{
  absent_or, is_boolean, is_interval, is_threshold, check_metric, check_metrics,
  check_metrics_value, check_entry, check_entries, validate,
}
use lucid_agent_core.Config.Store.{ConfigStore, new, WriteFault, ReadFault, load, save, json}
use lucid_agent_core.Config.Store.Sorted.{
  sorted_value, sorted_fields, insert_field, get-sorted_fields,
}

-- A scalar is its own sorted form, and a test of scalars passes as before.
absent_or-sorted :
    (test : Value → Bool)
    → ((v : Value) → test (sorted_value v) ≡ test v)
    → (o : Option Value) → absent_or test (Option.map sorted_value o) ≡ absent_or test o
absent_or-sorted test h none = refl
absent_or-sorted test h (some v) = h v

is_boolean-sorted : (v : Value) → is_boolean (sorted_value v) ≡ is_boolean v
unfolding is_boolean sorted_value
is_boolean-sorted (dict d) = refl
is_boolean-sorted _ = refl

is_interval-sorted : (v : Value) → is_interval (sorted_value v) ≡ is_interval v
unfolding is_interval sorted_value
is_interval-sorted (dict d) = refl
is_interval-sorted _ = refl

is_threshold-sorted : (v : Value) → is_threshold (sorted_value v) ≡ is_threshold v
unfolding is_threshold sorted_value
is_threshold-sorted (dict d) = refl
is_threshold-sorted _ = refl

check_metric-sorted :
    (name : String) (v : Value) → check_metric name (sorted_value v) ≡ check_metric name v
unfolding check_metric sorted_value
check_metric-sorted name (dict d) =
    rw
      (
        get-sorted_fields "enabled" d,
        get-sorted_fields "interval_s" d,
        get-sorted_fields "change_threshold_percent" d,
        absent_or-sorted is_boolean is_boolean-sorted (get "enabled" d),
        absent_or-sorted is_interval is_interval-sorted (get "interval_s" d),
        absent_or-sorted is_threshold is_threshold-sorted (get "change_threshold_percent" d),
      )
      refl
check_metric-sorted name _ = refl

check_metrics-insert_field :
    (k : String) (v : Value) (d : Fields)
    → check_metric k v ≡ none
    → check_metrics d ≡ none
    → check_metrics (insert_field k v d) ≡ none
unfolding check_metrics insert_field
check_metrics-insert_field k v end hv hd = rw hv refl
check_metrics-insert_field k v (field j w d) hv hd =
    ground (arith, check_metrics-insert_field k v d hv)

check_metrics-sorted :
    (d : Fields) → check_metrics d ≡ none → check_metrics (sorted_fields d) ≡ none
unfolding check_metrics sorted_fields
check_metrics-sorted end h = refl
check_metrics-sorted (field k v d) h =
    check_metrics-insert_field k (sorted_value v) (sorted_fields d)
      (ground (arith, check_metric-sorted k v)) (check_metrics-sorted d (ground arith))

check_metrics_value-sorted :
    (o : Option Value)
    → check_metrics_value o ≡ none
    → check_metrics_value (Option.map sorted_value o) ≡ none
unfolding sorted_value
check_metrics_value-sorted none h = refl
check_metrics_value-sorted (some (dict d)) h = check_metrics-sorted d h
check_metrics_value-sorted (some v) h = cc

check_entry-sorted :
    (k : String) (v : Value) → check_entry k v ≡ none → check_entry k (sorted_value v) ≡ none
unfolding check_entry sorted_value
check_entry-sorted k (dict t) h =
    ground (arith, check_metrics_value-sorted (get "metrics" t), get-sorted_fields "metrics" t)
check_entry-sorted k (list xs) h = ground arith
check_entry-sorted k _ h = h

check_entries-insert_field :
    (k : String) (v : Value) (d : Fields)
    → check_entry k v ≡ none
    → check_entries d ≡ none
    → check_entries (insert_field k v d) ≡ none
unfolding check_entries insert_field
check_entries-insert_field k v end hv hd = rw hv refl
check_entries-insert_field k v (field j w d) hv hd =
    ground (arith, check_entries-insert_field k v d hv)

check_entries-sorted :
    (d : Fields) → check_entries d ≡ none → check_entries (sorted_fields d) ≡ none
unfolding check_entries sorted_fields
check_entries-sorted end h = refl
check_entries-sorted (field k v d) h =
    check_entries-insert_field k (sorted_value v) (sorted_fields d)
      (check_entry-sorted k v (ground arith)) (check_entries-sorted d (ground arith))

-- Validity does not depend on the order of the keys.
pub validate-sorted :
    (cfg : Fields) → validate (dict cfg) ≡ none → validate (dict (sorted_fields cfg)) ≡ none
unfolding validate
validate-sorted cfg h = check_entries-sorted cfg h

load_valid :
    (c : Fields)
    → validate (dict c) ≡ none
    → load (new (json (dict c))) ReadFault.no_fault
      ≡ (ok c, record { cache = some c; file = json (dict c) })
unfolding load
load_valid c h = ground (arith, h)

-- A save that returns has validated the configuration, cached it, and written its sorted form; and
-- a store opened later on the file that it left loads a configuration in which every key has the
-- value that was saved, up to the order of keys within it.
pub load-save :
    (s t : ConfigStore) (fault : WriteFault) (cfg : Fields)
    → save s fault cfg ≡ (ok tt, t)
    → (validate (dict cfg) ≡ none)
      × (t.cache ≡ some cfg)
      × ((load (new t.file) ReadFault.no_fault).0 ≡ ok (sorted_fields cfg))
      × ((load (new t.file) ReadFault.no_fault).1.cache ≡ some (sorted_fields cfg))
      × ((k : String) → get k (sorted_fields cfg) ≡ Option.map sorted_value (get k cfg))
unfolding save
load-save s t fault cfg h =
    let valid : validate (dict cfg) ≡ none = ground arith in
    let cached : t.cache ≡ some cfg = ground arith in
    let written : t.file ≡ json (dict (sorted_fields cfg)) = ground arith in
    let loaded = load_valid (sorted_fields cfg) (validate-sorted cfg valid) in
    (
      valid,
      cached,
      rw (written, loaded) refl,
      rw (written, loaded) refl,
      λ k. get-sorted_fields k cfg,
    )

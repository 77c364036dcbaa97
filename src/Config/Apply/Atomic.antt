-- ===== src/Config/Apply/Atomic.antt =====
-- A rejected or failing `cfg/set` of core/config/store.py leaves the cache and, but for one fault,
-- the file; an accepted one leaves both holding the new configuration. The cache stays valid.
use mathlib.Core.Path.{subst}
use lucid_agent_core.Prelude.{
  String, ◌≡◌, refl, ◌⊎◌, inl, inr, none, some, List, [], ◌∷◌, arith, Option-cases,
}
use lucid_agent_core.Prelude.Errors.{Exn, os_error, Outcome, ok, raise}
use lucid_agent_core.Prelude.Json.{Value, dict, Fields, end}
use lucid_agent_core.Config.Validation.{Reason, validate, cfg_general_keys, cfg_logging_keys}
use lucid_agent_core.Config.Store.{
  ConfigStore, new, File, json, WriteFault, ReadFault, load, save, get_cached,
}
use lucid_agent_core.Config.Store.Sorted.{sorted_fields}
use lucid_agent_core.Config.Apply.{
  ApplyError, invalid, save_failed, extract_set_dict, apply_known, unknown_of, finish_telemetry,
  apply_metrics, Applied, commit, after_save, apply_top_level_keys, apply_set_general,
  apply_set_logging, apply_set_telemetry, request_id_of, refused, accepted,
}

-- What an application of a payload may do to the store `s`: nothing, with a refusal or an
-- exception; or, only if the directory flush fails after the rename, replace the file alone; or
-- take over a valid configuration in the cache and in the file.
pub data Transition (s : ConfigStore) (fault : WriteFault) : Applied → Type 0 where
  refusal :
      (rid : Value) (e : ApplyError) → Transition s fault (ok (refused (get_cached s) rid e), s)
  exception : (e : Exn) → Transition s fault (raise e, s)
  torn :
      (rid : Value) (e : ApplyError) (cfg : Fields)
      → fault ≡ WriteFault.after_rename
      → validate (dict cfg) ≡ none
      → Transition s fault
          (ok (refused (get_cached s) rid e), record s { file = json (dict (sorted_fields cfg)) })
  taken :
      (rid : Value) (cfg applied : Fields)
      → validate (dict cfg) ≡ none
      → Transition s fault (
        ok (accepted cfg rid applied),
        record { cache = some cfg; file = json (dict (sorted_fields cfg)) },
      )

commit-Transition :
    (s : ConfigStore) (fault : WriteFault) (rid : Value) (cfg applied : Fields)
    → Transition s fault (commit s fault rid (get_cached s) cfg applied)
unfolding commit save
commit-Transition s fault rid cfg applied = elim (Option-cases (validate (dict cfg))) [
  | inr (e, bad) ↦ rw (bad, commit) (refusal rid (invalid e))
  | inl good ↦ rw (good, commit) (write good fault)
]
  where
    write :
        validate (dict cfg) ≡ none
        → (f : WriteFault)
        → Transition s f (after_save rid (get_cached s) cfg applied (save s f cfg))
    write good WriteFault.no_fault = rw (good, save) (taken rid cfg applied good)
    write good WriteFault.mkdir_denied = rw (good, save) (refusal rid save_failed)
    write good WriteFault.mkdir_fails = rw (good, save) (exception os_error)
    write good WriteFault.before_rename = rw (good, save) (refusal rid save_failed)
    write good WriteFault.after_rename = rw (good, save) (torn rid save_failed cfg refl good)

module _ (s : ConfigStore) (fault : WriteFault) (payload : Fields) where
  -- `cmd/cfg/set` and `cmd/cfg/logging/set` change the store only as `Transition` says: a refusal
  -- or an exception changes nothing, unless the flush after the rename failed; an acceptance puts
  -- one valid configuration into the cache, the file and the answer.
  pub apply_top_level_keys-Transition :
      (allowed : List String) → Transition s fault (apply_top_level_keys allowed s fault payload)
  unfolding apply_top_level_keys
  apply_top_level_keys-Transition allowed = extracted (extract_set_dict payload) refl
    where
      known :
          (d : Fields) (ks : List String)
          → Transition s fault (apply_known allowed s fault (request_id_of payload) d ks)
      known d [] = commit-Transition s fault (request_id_of payload) _ _
      known d (k ∷ ks) = refusal (request_id_of payload) _

      extracted :
          (x : Fields ⊎ ApplyError)
          → extract_set_dict payload ≡ x
          → Transition s fault (apply_top_level_keys allowed s fault payload)
      extracted (inl d) e = rw (e, apply_top_level_keys) (known d (unknown_of allowed d))
      extracted (inr error) e = rw (e, apply_top_level_keys) (refusal (request_id_of payload) error)

  -- `cmd/cfg/telemetry/set` changes the store only as `Transition` says.
  pub apply_set_telemetry-Transition : Transition s fault (apply_set_telemetry s fault payload)
  unfolding apply_set_telemetry
  apply_set_telemetry-Transition = extracted (extract_set_dict payload) refl
    where
      merged :
          (d t : Fields) (m : Outcome (Fields ⊎ ApplyError))
          → Transition s fault (finish_telemetry s fault (request_id_of payload) d t m)
      merged d t (raise e) = exception e
      merged d t (ok (inr error)) = refusal (request_id_of payload) error
      merged d t (ok (inl metrics)) = commit-Transition s fault (request_id_of payload) _ _

      metrics :
          (d : Fields) (t : Outcome Fields)
          → Transition s fault (apply_metrics s fault (request_id_of payload) d t)
      metrics d (raise e) = exception e
      metrics d (ok t) = merged d t _

      extracted :
          (x : Fields ⊎ ApplyError)
          → extract_set_dict payload ≡ x
          → Transition s fault (apply_set_telemetry s fault payload)
      extracted (inl d) e = rw (e, apply_set_telemetry) (metrics d _)
      extracted (inr error) e = rw (e, apply_set_telemetry) (refusal (request_id_of payload) error)

-- The cache, once loaded, holds a configuration that `validate` accepts.
abbrev pub IsSound : ConfigStore → Type 0
IsSound s = (cfg : Fields) → s.cache ≡ some cfg → validate (dict cfg) ≡ none

Transition-IsSound :
    (s : ConfigStore) {fault : WriteFault} {r : Applied}
    → IsSound s
    → Transition s fault r
    → IsSound r.1
Transition-IsSound s h (refusal rid e) = h
Transition-IsSound s h (exception e) = h
Transition-IsSound s h (torn rid e cfg f good) = h
Transition-IsSound s h (taken rid cfg applied good) =
    λ c e. let same : cfg ≡ c = cc e in subst (λ x. validate (dict x) ≡ none) same good

validate_empty : validate (dict end) ≡ none
unfolding validate
validate_empty = refl

load-IsSound : (s : ConfigStore) (fault : ReadFault) → IsSound s → IsSound (load s fault).1
unfolding load
load-IsSound s fault h = λ cfg e. elim (Option-cases (validate (dict cfg))) [
  | inl good ↦ good
  | inr (r, bad) ↦ absurd (sound fault s.file refl cfg r bad e)
]
  where
    sound :
        (f : ReadFault) (file : File)
        → s.file ≡ file
        → (cfg : Fields) (r : Reason) → validate (dict cfg) ≡ some r
        → (load s f).1.cache ≡ some cfg
        → ⊥
    sound f file q cfg r bad e = ground (arith, h cfg, bad, validate_empty)

-- What the program does with its store over its life.
pub data Call : Type 0 where
  load_call : ReadFault → Call
  general logging telemetry : WriteFault → Fields → Call

abbrev pub after : ConfigStore → Call → ConfigStore
after s (load_call fault) = (load s fault).1
after s (general fault payload) = (apply_set_general s fault payload).1
after s (logging fault payload) = (apply_set_logging s fault payload).1
after s (telemetry fault payload) = (apply_set_telemetry s fault payload).1

abbrev pub after_all : ConfigStore → List Call → ConfigStore
after_all s [] = s
after_all s (c ∷ cs) = after_all (after s c) cs

after-IsSound : (s : ConfigStore) (c : Call) → IsSound s → IsSound (after s c)
unfolding apply_set_general apply_set_logging
after-IsSound s (load_call fault) h = load-IsSound s fault h
after-IsSound s (general fault payload) h =
    Transition-IsSound s h (apply_top_level_keys-Transition s fault payload cfg_general_keys)
after-IsSound s (logging fault payload) h =
    Transition-IsSound s h (apply_top_level_keys-Transition s fault payload cfg_logging_keys)
after-IsSound s (telemetry fault payload) h =
    Transition-IsSound s h (apply_set_telemetry-Transition s fault payload)

after_all-IsSound : (s : ConfigStore) (cs : List Call) → IsSound s → IsSound (after_all s cs)
after_all-IsSound s [] h = h
after_all-IsSound s (c ∷ cs) h = after_all-IsSound (after s c) cs (after-IsSound s c h)

-- From a new store, whatever its file holds and whatever is loaded, applied or fails, the cache
-- never holds a configuration that `validate` rejects.
pub cache_always_valid :
    (file : File) (cs : List Call) (cfg : Fields)
    → (after_all (new file) cs).cache ≡ some cfg
    → validate (dict cfg) ≡ none
cache_always_valid file cs = after_all-IsSound (new file) cs (λ cfg e. cc e)

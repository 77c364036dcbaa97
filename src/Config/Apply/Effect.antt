-- ===== src/Config/Apply/Effect.antt =====
-- What an accepted `cfg/set` of core/config/store.py changes, key by key, and what it leaves.
use lucid_agent_core.Prelude.{
  String, ◌≡◌, refl, ◌∙◌, true, ◌⊎◌, inl, inr, Option, none, some, List, [], ◌∷◌, arith, contains,
  eq_iff, if◌then◌else◌, Option-cases,
}
use lucid_agent_core.Prelude.Errors.{ok}
use lucid_agent_core.Prelude.Json.{Value, dict, Fields, end, field, get, has, put, get-put}
use lucid_agent_core.Config.Store.{ConfigStore, WriteFault, save, get_cached}
use lucid_agent_core.Config.Apply.{
  ApplyError, commit, apply_top_level_keys, apply_known, request_id_of, accepted, extract_set_dict,
  unknown_of, copy_keys, restrict,
}

-- `new or old`, where the new value is there
abbrev pub override : Option Value → Option Value → Option Value
override none old = old
override (some v) old = some v

get-copy_keys :
    (allowed : List String) (d cfg : Fields) (k : String)
    → get k (copy_keys allowed d cfg)
      ≡ (if contains allowed k then override (get k d) (get k cfg) else get k cfg)
unfolding copy_keys
get-copy_keys [] d cfg k = refl
get-copy_keys (a ∷ others) d cfg k = elim (Option-cases (get a d)) [
  | inl absent ↦ rw absent (rw (get-copy_keys others d cfg k) (ground (arith, eq_iff a k, absent)))
  | inr (v, present) ↦
      rw present
        (rw (get-copy_keys others d (put a v cfg) k, get-put) (ground (arith, eq_iff a k, present)))
]

unknown_of-nil :
    (allowed : List String) (d : Fields) (k : String)
    → unknown_of allowed d ≡ []
    → has k d ≡ true
    → contains allowed k ≡ true
unfolding unknown_of has
unknown_of-nil allowed end k h p = cc
unknown_of-nil allowed (field j v d) k h p = ground (arith, eq_iff j k, unknown_of-nil allowed d k)

restrict_all :
    (allowed : List String) (d : Fields) → unknown_of allowed d ≡ [] → restrict allowed d ≡ d
unfolding unknown_of restrict
restrict_all allowed end h = refl
restrict_all allowed (field j v d) h = ground (arith, restrict_all allowed d)

commit-accepted :
    (s t : ConfigStore) (fault : WriteFault) (rid rid' : Value)
    (current cfg applied new applied' : Fields)
    → commit s fault rid current cfg applied ≡ (ok (accepted new rid' applied'), t)
    → (new ≡ cfg) × (rid' ≡ rid) × (applied' ≡ applied) × (t.cache ≡ some cfg)
unfolding commit save
commit-accepted s t fault rid rid' current cfg applied new applied' h =
    (ground arith, ground arith, ground arith, ground arith)

extract_set_dict_lem :
    (payload d : Fields) → extract_set_dict payload ≡ inl d → get "set" payload ≡ some (dict d)
unfolding extract_set_dict
extract_set_dict_lem payload d h = ground arith

module _ (allowed : List String) (s t : ConfigStore) (fault : WriteFault) (payload : Fields) where
  -- If `cmd/cfg/set` or `cmd/cfg/logging/set` accepts a payload, then its `set` is a dict with
  -- allowed keys only; the answer echoes the request id and that dict; the cache holds the answered
  -- configuration; and in it an allowed key has the value that was set, if one was, while every
  -- other value is the one cached before.
  pub apply_top_level_keys_effect :
      (new : Fields) (rid : Value) (applied : Fields)
      → apply_top_level_keys allowed s fault payload ≡ (ok (accepted new rid applied), t)
      → (get "set" payload ≡ some (dict applied))
        × (rid ≡ request_id_of payload)
        × ((k : String) → has k applied ≡ true → contains allowed k ≡ true)
        × (t.cache ≡ some new)
        × ((k : String)
            → get k new ≡ (
                if contains allowed k
                then override (get k applied) (get k (get_cached s))
                else get k (get_cached s)))
  unfolding apply_top_level_keys
  apply_top_level_keys_effect new rid applied h = extracted (extract_set_dict payload) refl h
    where
      known :
          (d : Fields) (ks : List String)
          → extract_set_dict payload ≡ inl d
          → unknown_of allowed d ≡ ks
          → apply_known allowed s fault (request_id_of payload) d ks
            ≡ (ok (accepted new rid applied), t)
          → (get "set" payload ≡ some (dict applied))
            × (rid ≡ request_id_of payload)
            × ((k : String) → has k applied ≡ true → contains allowed k ≡ true)
            × (t.cache ≡ some new)
            × ((k : String)
                → get k new ≡ (
                    if contains allowed k
                    then override (get k applied) (get k (get_cached s))
                    else get k (get_cached s)))
      known d (k ∷ ks) e u h = absurd (cc h)
      known d [] e u h =
          let (cfg, id, applied_is, cached) = commit-accepted s t fault _ rid _ _ _ new applied h in
          let same : applied ≡ d = applied_is ∙ restrict_all allowed d u in
          (
            rw same (extract_set_dict_lem payload d e),
            id,
            λ k. rw same (unknown_of-nil allowed d k u),
            rw cfg cached,
            λ k. rw (same, cfg) (get-copy_keys allowed d (get_cached s) k),
          )

      extracted :
          (x : Fields ⊎ ApplyError)
          → extract_set_dict payload ≡ x
          → apply_top_level_keys allowed s fault payload ≡ (ok (accepted new rid applied), t)
          → (get "set" payload ≡ some (dict applied))
            × (rid ≡ request_id_of payload)
            × ((k : String) → has k applied ≡ true → contains allowed k ≡ true)
            × (t.cache ≡ some new)
            × ((k : String)
                → get k new ≡ (
                    if contains allowed k
                    then override (get k applied) (get k (get_cached s))
                    else get k (get_cached s)))
      extracted (inl d) e h =
          known d (unknown_of allowed d) e refl (rw (e, apply_top_level_keys) at h)
      extracted (inr error) e h = absurd (cc (rw (e, apply_top_level_keys) at h))

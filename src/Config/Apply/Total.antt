-- ===== src/Config/Apply/Total.antt =====
-- On a store with a valid cache, `apply_set_telemetry` of core/config/store.py returns.
use lucid_agent_core.Prelude.{
  String, ◌≡◌, ◌≢◌, refl, ◌⊎◌, inl, inr, Option, none, some, arith, ◌==◌, Option-cases, Bool-cases,
}
use lucid_agent_core.Prelude.Errors.{ok}
use lucid_agent_core.Prelude.Json.{Value, dict, Fields, end, field, get, put, merge, get-put}
use lucid_agent_core.Config.Validation.{validate}
use lucid_agent_core.Config.Validation.Rules.{IsTelemetry, IsMetrics}
use lucid_agent_core.Config.Validation.Exact.{validate-IsConfig}
use lucid_agent_core.Config.Store.{ConfigStore, WriteFault, get_cached, save}
use lucid_agent_core.Config.Apply.{
  ApplyError, ApplyResult, bad_metric, invalid, save_failed, refused, accepted, expand,
  dict_or_empty, merge_metrics, commit, after_save, apply_set_telemetry, apply_metrics,
  finish_telemetry, extract_set_dict, request_id_of,
}
use lucid_agent_core.Config.Apply.Atomic.{IsSound}

-- Absent, or a dict.
abbrev AbsentOrDict : Option Value → Type 0
AbsentOrDict o = (v : Value) → o ≡ some v → (f : Fields) × (v ≡ dict f)

dict_or_empty_lem : (o : Option Value) → AbsentOrDict o → (f : Fields) × (dict_or_empty o ≡ ok f)
unfolding dict_or_empty
dict_or_empty_lem none h = (end, refl)
dict_or_empty_lem (some v) h = let (f, e) = h v refl in rw e (returns f)
  where
    returns : (f : Fields) → (g : Fields) × (dict_or_empty (some (dict f)) ≡ ok g)
    returns end = (end, refl)
    returns (field k w d) = (field k w d, refl)

AbsentOrDict-put :
    (j name : String) (f m : Fields)
    → AbsentOrDict (get name m)
    → AbsentOrDict (get name (put j (dict f) m))
AbsentOrDict-put j name f m h v e = elim (Bool-cases (j == name)) [
  | inl here ↦ (f, ground (arith, get-put j name (dict f) m))
  | inr there ↦ h v (ground (arith, get-put j name (dict f) m))
]

merge_metrics_returns :
    (d m : Fields)
    → ((name : String) → AbsentOrDict (get name m))
    → (r : Fields ⊎ ApplyError) × (merge_metrics d m ≡ ok r)
unfolding merge_metrics
merge_metrics_returns end m h = (inl m, refl)
merge_metrics_returns (field j v d) m h = elim (Option-cases (expand v)) [
  | inl bad ↦ (inr (bad_metric j), rw (bad, merge_metrics) refl)
  | inr (cfg, good) ↦
      let (existing, found) = dict_or_empty_lem (get j m) (h j) in
      let (r, e) =
        merge_metrics_returns d (put j (dict (merge existing cfg)) m)
          (λ name. AbsentOrDict-put j name (merge existing cfg) m (h name)) in
      (r, ground (arith, good, found, e))
]

-- The dict found, and whether it is the value or stands for its absence.
dict_or_empty_link :
    (o : Option Value)
    → AbsentOrDict o
    → (f : Fields) × (dict_or_empty o ≡ ok f) × ((o ≡ some (dict f)) ⊎ (f ≡ end))
unfolding dict_or_empty
dict_or_empty_link none h = (end, refl, inr refl)
dict_or_empty_link (some v) h = let (f, e) = h v refl in rw e (link f)
  where
    link :
        (f : Fields)
        → (g : Fields) × (dict_or_empty (some (dict f)) ≡ ok g)
          × ((some (dict f) ≡ some (dict g)) ⊎ (g ≡ end))
    link end = (end, refl, inl refl)
    link (field k w d) = (field k w d, refl, inl refl)

commit_returns :
    (s : ConfigStore) (fault : WriteFault) (rid : Value) (current cfg applied : Fields)
    → fault ≢ WriteFault.mkdir_fails
    → (a : Fields × ApplyResult) × ((commit s fault rid current cfg applied).0 ≡ ok a)
unfolding commit save
commit_returns s fault rid current cfg applied n = elim (Option-cases (validate (dict cfg))) [
  | inr (e, bad) ↦ rw (bad, commit) (refused current rid (invalid e), refl)
  | inl good ↦ rw (good, commit) (write good fault n)
]
  where
    write :
        validate (dict cfg) ≡ none
        → (f : WriteFault) → f ≢ WriteFault.mkdir_fails
        → (a : Fields × ApplyResult) × ((after_save rid current cfg applied (save s f cfg)).0
            ≡ ok a)
    write good WriteFault.mkdir_fails n = absurd (n refl)
    write good WriteFault.no_fault n = rw (good, save) (accepted cfg rid applied, refl)
    write good _ n = rw (good, save) (refused current rid save_failed, refl)

finish_telemetry_returns :
    (s : ConfigStore) (fault : WriteFault) (rid : Value) (d t : Fields) (r : Fields ⊎ ApplyError)
    → fault ≢ WriteFault.mkdir_fails
    → (a : Fields × ApplyResult) × ((finish_telemetry s fault rid d t (ok r)).0 ≡ ok a)
unfolding finish_telemetry
finish_telemetry_returns s fault rid d t (inl m) n = commit_returns s fault rid _ _ d n
finish_telemetry_returns s fault rid d t (inr e) n = (refused (get_cached s) rid e, refl)

metrics_return :
    (s : ConfigStore) (fault : WriteFault) (rid : Value) (d t : Fields)
    → fault ≢ WriteFault.mkdir_fails
    → AbsentOrDict (get "metrics" t)
    → ((m : Fields) → get "metrics" t ≡ some (dict m) → (name : String) → AbsentOrDict (get name m))
    → (a : Fields × ApplyResult) × ((apply_metrics s fault rid d (ok t)).0 ≡ ok a)
unfolding apply_metrics get
metrics_return s fault rid d t n h each =
    let (m, found, link) = dict_or_empty_link (get "metrics" t) h in
    let dicts : (name : String) → AbsentOrDict (get name m) = λ name. elim link [
      | inl same ↦ each m same name
      | inr empty ↦ rw empty (λ v e. absurd (cc e))
    ] in
    let (r, e) = merge_metrics_returns d m dicts in
    rw (found, e) (finish_telemetry_returns s fault rid d t r n)

-- What a valid cached configuration has under `telemetry`.
cached-IsTelemetry :
    (s : ConfigStore)
    → IsSound s
    → (v : Value) → get "telemetry" (get_cached s) ≡ some v
    → IsTelemetry v
unfolding get_cached get
cached-IsTelemetry s sound v e = elim (Option-cases s.cache) [
  | inl empty ↦ absurd (ground arith)
  | inr (cfg, full) ↦
      (validate-IsConfig cfg (sound cfg full)).telemetry v (rw (full, get_cached) at e)
]

telemetry_return :
    (s : ConfigStore) (fault : WriteFault) (rid : Value) (d : Fields)
    → IsSound s
    → fault ≢ WriteFault.mkdir_fails
    → (a : Fields × ApplyResult) × ((apply_metrics s fault rid d
          (dict_or_empty (get "telemetry" (get_cached s)))).0
        ≡ ok a)
unfolding get
telemetry_return s fault rid d sound n =
    let at_cache = cached-IsTelemetry s sound in
    let (t, found, link) =
      dict_or_empty_link (get "telemetry" (get_cached s))
        (λ v e. let i = at_cache v e in (i.fields, i.is_dict)) in
    rw found (metrics_return s fault rid d t n (shape t link) (each t link))
  where
    metrics_of :
        (t : Fields)
        → get "telemetry" (get_cached s) ≡ some (dict t)
        → (m : Value) → get "metrics" t ≡ some m
        → IsMetrics m
    metrics_of t e m q =
        let i = cached-IsTelemetry s sound (dict t) e in
        let same : i.fields ≡ t = cc (i.is_dict) in i.metrics m (rw same q)

    shape :
        (t : Fields)
        → (get "telemetry" (get_cached s) ≡ some (dict t)) ⊎ (t ≡ end)
        → AbsentOrDict (get "metrics" t)
    shape t (inl e) m q = let i = metrics_of t e m q in (i.fields, i.is_dict)
    shape t (inr e) m q = absurd (cc (rw e at q))

    each :
        (t : Fields)
        → (get "telemetry" (get_cached s) ≡ some (dict t)) ⊎ (t ≡ end)
        → (m : Fields) → get "metrics" t ≡ some (dict m)
        → (name : String) → AbsentOrDict (get name m)
    each t (inl e) m q name v p =
        let i = metrics_of t e (dict m) q in
        let same : i.fields ≡ m = cc (i.is_dict) in
        let (f, is_dict, _) = i.metric name v (rw same p) in (f, is_dict)
    each t (inr e) m q name v p = absurd (cc (rw e at q))

-- With a valid cache, `cmd/cfg/telemetry/set` returns a configuration and a result for every
-- payload, whatever it holds, unless `mkdir` fails otherwise than by a refused permission.
pub apply_set_telemetry_returns :
    (s : ConfigStore) (fault : WriteFault) (payload : Fields)
    → IsSound s
    → fault ≢ WriteFault.mkdir_fails
    → (a : Fields × ApplyResult) × ((apply_set_telemetry s fault payload).0 ≡ ok a)
unfolding apply_set_telemetry
apply_set_telemetry_returns s fault payload sound n = extracted (extract_set_dict payload) refl
  where
    extracted :
        (x : Fields ⊎ ApplyError)
        → extract_set_dict payload ≡ x
        → (a : Fields × ApplyResult) × ((apply_set_telemetry s fault payload).0 ≡ ok a)
    extracted (inl d) e =
        rw (e, apply_set_telemetry) (telemetry_return s fault (request_id_of payload) d sound n)
    extracted (inr error) e =
        rw (e, apply_set_telemetry) (refused (get_cached s) (request_id_of payload) error, refl)

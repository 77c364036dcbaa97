-- ===== src/Config/Apply/Metrics.antt =====
-- The deep merge of `apply_set_telemetry` in core/config/store.py, metric by metric.
use lucid_agent_core.Prelude.{
  String, ◌≡◌, refl, ◌∙◌, inl, inr, Option, none, some, arith, ◌==◌, eq_iff, Option-cases,
  Bool-cases, Bool, true, false, if◌then◌else◌,
}
use lucid_agent_core.Prelude.Errors.{ok, Outcome-cases}
use lucid_agent_core.Prelude.Json.{
  has, Value, null, bool, int, float, special, str, list, dict, Fields, end, field, get, put, merge,
  get-put, NodupFields, get-eq-none_of_has,
}
use lucid_agent_core.Config.Apply.{
  list, str, type_error, float, raise, int, false, is_falsy, bool, expand, dict_or_empty,
  merge_metrics,
}
use lucid_agent_core.Config.Apply.Effect.{override}

-- `{**a, **b}`: the second dict wins.
pub get-merge :
    (k : String) (a b : Fields) → NodupFields b → get k (merge a b) ≡ override (get k b) (get k a)
unfolding merge get
get-merge k a end d = refl
get-merge k a (field j v b) d =
    rw (get-merge k (put j v a) b d.1, get-put) (ground (arith, eq_iff j k, get-eq-none_of_has j b))

-- One round of the loop that does not end it.
pub record Round (j : String) (v : Value) (rest m m' : Fields) : Type 0 where
  pub cfg : Fields
  pub existing : Fields
  pub expands : expand v ≡ some cfg
  pub exists : dict_or_empty (get j m) ≡ ok existing
  pub goes_on : merge_metrics rest (put j (dict (merge existing cfg)) m) ≡ ok (inl m')

merge_metrics-Round :
    (j : String) (v : Value) (rest m m' : Fields)
    → merge_metrics (field j v rest) m ≡ ok (inl m')
    → Round j v rest m m'
unfolding merge_metrics
merge_metrics-Round j v rest m m' h = elim (Option-cases (expand v)) [
  | inl bad ↦ absurd (cc (rw (bad, merge_metrics) at h))
  | inr (cfg, good) ↦ elim (Outcome-cases (dict_or_empty (get j m))) [
    | inl (existing, found) ↦ record {
      cfg = cfg;
      existing = existing;
      expands = good;
      exists = found;
      goes_on = ground arith;
    }
    | inr (e, fails) ↦ absurd (ground arith)
  ]
]

merge_metrics_absent :
    (d m m' : Fields) (name : String)
    → merge_metrics d m ≡ ok (inl m')
    → get name d ≡ none
    → get name m' ≡ get name m
unfolding get merge_metrics
merge_metrics_absent end m m' name h a = ground arith
merge_metrics_absent (field j v d) m m' name h a =
    let r = merge_metrics-Round j v d m m' h in
    merge_metrics_absent d _ m' name r.goes_on (ground arith) ∙ rw get-put (ground arith)

-- What a payload gives for a setting of a metric: a bool stands for `enabled`.
abbrev pub given : String → Value → Option Value
given k (bool b) = if "enabled" == k then some (bool b) else none
given k (dict d) = get k d
given k _ = none

-- What was stored of it.
abbrev pub stored : String → Option Value → Option Value
stored k (some (dict d)) = get k d
stored k _ = none

-- The keys of a decoded payload are distinct, and those of its metrics.
abbrev pub DistinctIn : Value → Type 0
DistinctIn (dict d) = NodupFields d
DistinctIn _ = Unit

abbrev pub AllDistinct : Fields → Type 0
AllDistinct end = Unit
AllDistinct (field k v d) = (has k d ≡ false) × DistinctIn v × AllDistinct d

get-expand : (k : String) (v : Value) (cfg : Fields) → expand v ≡ some cfg → get k cfg ≡ given k v
unfolding expand get
get-expand k (bool b) cfg h =
    let same : field "enabled" (bool b) end ≡ cfg = cc h in rw (← same) refl
get-expand k (dict d) cfg h = let same : d ≡ cfg = cc h in rw (← same) refl
get-expand k _ cfg h = absurd (cc h)

expand-NodupFields :
    (v : Value) (cfg : Fields) → expand v ≡ some cfg → DistinctIn v → NodupFields cfg
unfolding expand has
expand-NodupFields (bool b) cfg h n =
    let same : field "enabled" (bool b) end ≡ cfg = cc h in rw (← same) (refl, tt)
expand-NodupFields (dict d) cfg h n = let same : d ≡ cfg = cc h in rw (← same) n
expand-NodupFields _ cfg h n = absurd (cc h)

get-falsy :
    (k : String) (falsy : Bool) (d : Fields)
    → (if falsy then ok end else raise type_error) ≡ ok d
    → get k d ≡ none
unfolding get
get-falsy k true d h = let same : end ≡ d = cc h in rw (← same) refl
get-falsy k false d h = absurd (cc h)

get-dict_or_empty :
    (k : String) (o : Option Value) (d : Fields) → dict_or_empty o ≡ ok d → get k d ≡ stored k o
unfolding dict_or_empty is_falsy get
get-dict_or_empty k none d h = let same : end ≡ d = cc h in rw (← same) refl
get-dict_or_empty k (some (dict end)) d h = let same : end ≡ d = cc h in rw (← same) refl
get-dict_or_empty k (some (dict (field j v e))) d h =
    let same : field j v e ≡ d = cc h in rw (← same) refl
get-dict_or_empty k (some null) d h = get-falsy k (is_falsy null) d h
get-dict_or_empty k (some (bool b)) d h = get-falsy k (is_falsy (bool b)) d h
get-dict_or_empty k (some (int z)) d h = get-falsy k (is_falsy (int z)) d h
get-dict_or_empty k (some (float z n)) d h = get-falsy k (is_falsy (float z n)) d h
get-dict_or_empty k (some (special x)) d h = get-falsy k (is_falsy (special x)) d h
get-dict_or_empty k (some (str s)) d h = get-falsy k (is_falsy (str s)) d h
get-dict_or_empty k (some (list xs)) d h = get-falsy k (is_falsy (list xs)) d h

-- What became of a metric that the payload names: each setting is the given one, else the old one.
pub record Merged (v : Value) (old new : Option Value) : Type 0 where
  pub settings : Fields
  pub is_dict : new ≡ some (dict settings)
  pub each : (k : String) → get k settings ≡ override (given k v) (stored k old)

merge_metrics_present :
    (d m m' : Fields) (name : String) (v : Value)
    → merge_metrics d m ≡ ok (inl m')
    → AllDistinct d
    → get name d ≡ some v
    → Merged v (get name m) (get name m')
unfolding get
merge_metrics_present end m m' name v h n p = absurd (cc p)
merge_metrics_present (field j w d) m m' name v h n p =
    let r = merge_metrics-Round j w d m m' h in
    elim (Bool-cases (j == name)) [
      | inl here ↦
          let key : j ≡ name = (eq_iff j name).0 here in
          let value : w ≡ v = ground arith in
          record {
            settings = merge r.existing r.cfg;
            is_dict =
                merge_metrics_absent d _ m' name r.goes_on (rw (← key) (get-eq-none_of_has j d n.0))
                ∙ rw get-put (rw here refl);
            each = λ k.
                rw (← value, ← key)
                  (rw
                    (
                      get-merge k r.existing r.cfg (expand-NodupFields w r.cfg r.expands n.1),
                      get-expand k w r.cfg r.expands,
                      get-dict_or_empty k (get j m) r.existing r.exists,
                    )
                    refl);
          }
      | inr there ↦
          let k = merge_metrics_present d _ m' name v r.goes_on n.2 (ground arith) in
          record {
            settings = k.settings;
            is_dict = k.is_dict;
            each = λ i. rw (get-put j name (dict (merge r.existing r.cfg)) m, there) at k.each i;
          }
    ]

-- After the loop over a payload whose names, and keys in each metric, are distinct, a metric that the payload does not name is as
-- before; and one that it names has each setting that the payload gives for it (a bool standing for
-- `enabled`), and the others as before.
pub merge_metrics_effect :
    (d m m' : Fields) (name : String)
    → merge_metrics d m ≡ ok (inl m')
    → AllDistinct d
    → (get name d ≡ none → get name m' ≡ get name m)
      × ((v : Value) → get name d ≡ some v → Merged v (get name m) (get name m'))
merge_metrics_effect d m m' name h n =
    (merge_metrics_absent d m m' name h, λ v p. merge_metrics_present d m m' name v h n p)

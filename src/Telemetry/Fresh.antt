-- ===== src/Telemetry/Fresh.antt =====
-- What a cycle of mqtt/telemetry.py does to one metric, and how current it leaves its last value.
use mathlib.Core.Path.{subst}
use native.Mathlib.Nat.{mul-add, mul_comm, mul-le-mul_left}
use lucid_agent_core.Prelude.{
  nat_eq, ◌≤◌, ◌-◌, ◌^◌, leb, ℕ, ◌<◌, ◌+◌, ◌*◌, String, ◌≡◌, ◌≢◌, refl, ap, ◌∙◌, sym, ◌⊎◌, inl, inr,
  true, false, ◌&&◌, Option, none, some, List, [], ◌∷◌, ◌++◌, contains, arith, Option-cases,
  Bool-cases, ◌==◌, eq_iff, eq_refl, if◌then◌else◌,
}
use lucid_agent_core.Prelude.Dict.{Dict, lookup, keys, NodupKeys, lookup-insert}
use lucid_agent_core.Prelude.Errors.{ok}
use lucid_agent_core.Snapshots.{Metric}
use lucid_agent_core.Telemetry.{
  Reading, Last, interval_of, threshold_of, changed, should_publish, Cycle, publish_metric,
  publish_metrics, with_readings, with_metrics, cycle,
}

-- The publications of a metric.
unfoldable pub count : String → List (String × Reading) → ℕ
count name [] = 0
count name ((other, v) ∷ sent) = if other == name then 1 + count name sent else count name sent

pub count-append :
    (name : String) (xs ys : List (String × Reading))
    → count name (xs ++ ys) ≡ count name xs + count name ys
unfolding count
count-append name [] ys = omega arith
count-append name ((other, v) ∷ xs) ys = ground (arith, count-append name xs ys)

-- What a metric's last entry and the count of its publications become.
abbrev pub effect : String → Last × List (String × Reading) → Option (Reading × ℕ) × ℕ
effect name (last, sent) = (lookup name last, count name sent)

abbrev pub decided :
    Cycle → String → Reading → Metric → Option (Reading × ℕ) → Option (Reading × ℕ) × ℕ
decided c name v m entry =
    if should_publish entry (c.now name) v m && c.works name
    then (some (v, c.after name), 1)
    else (entry, 0)

module _ (c : Cycle) (readings : Dict Reading) (name : String) where
  publish_metric-same :
      (m : Metric) (v : Reading) (last : Last)
      → lookup name readings ≡ some v
      → effect name (publish_metric c readings name m last) ≡ decided c name v m (lookup name last)
  unfolding publish_metric count
  publish_metric-same m v last p =
      rw (p, publish_metric)
        (ground (arith, eq_refl name, lookup-insert name name (v, c.after name) last))

  publish_metric-other :
      (other : String) (m : Metric) (last : Last)
      → (other == name) ≡ false
      → effect name (publish_metric c readings other m last) ≡ (lookup name last, 0)
  unfolding publish_metric count
  publish_metric-other other m last p = elim (Option-cases (lookup other readings)) [
    | inl e ↦ rw (e, publish_metric) refl
    | inr (v, e) ↦
        rw (e, publish_metric) (ground (arith, p, lookup-insert other name (v, c.after other) last))
  ]

  -- The count of a metric and of those after it.
  abbrev next : Last × List (String × Reading) → List (String × Metric) → Option (Reading × ℕ) × ℕ
  next (last, sent) ms =
      let r = effect name (publish_metrics c readings ms last) in (r.0, count name sent + r.1)

  publish_metrics-next :
      (other : String) (m : Metric) (ms : List (String × Metric)) (last : Last)
      → effect name (publish_metrics c readings ((other, m) ∷ ms) last)
        ≡ next (publish_metric c readings other m last) ms
  unfolding publish_metrics
  publish_metrics-next other m ms last =
      ap (λ n. (lookup name (publish_metrics c readings ((other, m) ∷ ms) last).0, n))
        (count-append name (publish_metric c readings other m last).1 _)

  next-absent :
      (r : Last × List (String × Reading)) (ms : List (String × Metric))
      → effect name (publish_metrics c readings ms r.0) ≡ (lookup name r.0, 0)
      → next r ms ≡ effect name r
  next-absent r ms p =
      ap (λ e. (e.0, count name r.1 + e.1)) p ∙ ap (λ n. (lookup name r.0, n)) (omega arith)

  next-present :
      (r : Last × List (String × Reading)) (ms : List (String × Metric))
      (entry : Option (Reading × ℕ)) (d : Option (Reading × ℕ) → Option (Reading × ℕ) × ℕ)
      → effect name r ≡ (entry, 0)
      → effect name (publish_metrics c readings ms r.0) ≡ d (lookup name r.0)
      → next r ms ≡ d entry
  next-present r ms entry d p q =
      ap (λ e. (e.0, count name r.1 + e.1)) (q ∙ ap (λ e. d e.0) p)
      ∙ ap (λ e. ((d entry).0, e.1 + (d entry).1)) p
      ∙ ap (λ n. ((d entry).0, n)) (omega arith)

  publish_metrics-absent :
      (ms : List (String × Metric)) (last : Last)
      → contains (keys ms) name ≡ false
      → effect name (publish_metrics c readings ms last) ≡ (lookup name last, 0)
  unfolding keys
  publish_metrics-absent [] last p = unfold count in unfold publish_metrics in refl
  publish_metrics-absent ((other, m) ∷ ms) last p =
      let q : (other == name) ≡ false = ground (arith, p) in
      let r = publish_metric c readings other m last in
      publish_metrics-next other m ms last
      ∙ next-absent r ms (publish_metrics-absent ms r.0 (ground (arith, p)))
      ∙ publish_metric-other other m last q

  -- The settings of a metric decide, once in a cycle, what becomes of its entry.
  pub publish_metrics-present :
      (ms : List (String × Metric)) (m : Metric) (v : Reading) (last : Last)
      → NodupKeys ms
      → lookup name ms ≡ some m
      → lookup name readings ≡ some v
      → effect name (publish_metrics c readings ms last) ≡ decided c name v m (lookup name last)
  unfolding lookup keys
  publish_metrics-present [] m v last n e p = absurd (cc e)
  publish_metrics-present ((other, m') ∷ ms) m v last n e p = elim (Bool-cases (other == name)) [
    | inl same ↦
        let q : other ≡ name = ground (arith, same, eq_iff other name) in
        let s : m' ≡ m = ground (arith, same, e) in
        let r = publish_metric c readings name m last in
        rw (q, s)
          (publish_metrics-next name m ms last
            ∙ next-absent r ms (publish_metrics-absent ms r.0 (rw q at n.0))
            ∙ publish_metric-same m v last p)
    | inr distinct ↦
        let r = publish_metric c readings other m' last in
        publish_metrics-next other m' ms last
        ∙ next-present r ms (lookup name last) (decided c name v m)
            (publish_metric-other other m' last distinct)
            (publish_metrics-present ms m v r.0 n.1 (ground (arith, distinct, e)) p)
  ]

-- What a cycle meets for a metric: a connection, settings and a reading.
pub record Meets (c : Cycle) (name : String) (m : Metric) (v : Reading) : Type 0 where
  pub ready : c.ready ≡ true
  pub settings : List (String × Metric)
  pub metrics : c.metrics ≡ ok settings
  pub distinct : NodupKeys settings
  pub found : lookup name settings ≡ some m
  pub read : Dict Reading
  pub readings : c.readings ≡ ok read
  pub value : lookup name read ≡ some v

-- A reading a / 2^i that differs from the last one, b / 2^j, by less than t / 2^k percent of that; or
-- both are 0. An infinite threshold is always kept from a reading that is not 0. Written without division and subtraction.
abbrev pub Within : Reading → Reading → Option (ℕ × ℕ) → Type 0
Within (b, j) (a, i) none = ((b ≡ 0) × (a ≡ 0)) ⊎ (b ≢ 0)
Within (b, j) (a, i) (some (t, k)) =
    ((b ≡ 0) × (a ≡ 0))
    ⊎ ((100 * 2 ^ k * (a * 2 ^ j) < t * (b * 2 ^ i) + 100 * 2 ^ k * (b * 2 ^ i))
        × (100 * 2 ^ k * (b * 2 ^ i) < t * (b * 2 ^ i) + 100 * 2 ^ k * (a * 2 ^ j)))

below : (x y d h t : ℕ) → d * h < t → x ≤ y + d → h * x < t + h * y
below x y d h t p q = omega (arith, p, mul-le-mul_left h q, mul-add h y d, mul_comm d h)

changed-Within : (u v : Reading) (t : Option (ℕ × ℕ)) → changed u v t ≡ false → Within u v t
unfolding changed
changed-Within (b, j) (a, i) none h = elim (Bool-cases (nat_eq b 0)) [
  | inl z ↦ inl (ground (arith, z), ground (arith, z, h))
  | inr z ↦ inr (ground (arith, z))
]
changed-Within (b, j) (a, i) (some (t, k)) h = elim (Bool-cases (nat_eq b 0)) [
  | inl z ↦ inl (ground (arith, z), ground (arith, z, h))
  | inr z ↦
      let x = a * 2 ^ j in
      let y = b * 2 ^ i in
      let gap = (x - y) + (y - x) in
      let p : gap * (100 * 2 ^ k) < t * y = ground (arith, z, h) in
      inr (
        below x y gap (100 * 2 ^ k) (t * y) p (omega arith),
        below y x gap (100 * 2 ^ k) (t * y) p (omega arith),
      )
]

module _ (c : Cycle) (name : String) (m : Metric) (v : Reading) (last : Last) where
  with_metrics-present :
      (ms : List (String × Metric))
      → lookup name ms ≡ some m
      → with_metrics c last (ok ms) ≡ with_readings c ms last c.readings
  unfolding with_metrics lookup
  with_metrics-present [] e = absurd (cc e)
  with_metrics-present ((other, m') ∷ ms) e = refl

  pub cycle-decided :
      Meets c name m v → effect name (cycle c last) ≡ decided c name v m (lookup name last)
  unfolding cycle lookup
  cycle-decided h =
      rw (h.ready, h.metrics, cycle)
        (ap (effect name) (with_metrics-present h.settings h.found)
          ∙ (unfold with_readings in
              rw (h.readings, with_readings)
                (publish_metrics-present c h.read name h.settings m v last h.distinct h.found
                  h.value)))

  -- The last published value and its time are those of the cycle, or they are younger than the interval
  -- and the reading is within the threshold of that value.
  abbrev pub Current : Option (Reading × ℕ) → Type 0
  Current entry =
      (u : Reading) × (ts : ℕ) × (entry ≡ some (u, ts))
      × (((u ≡ v) × (ts ≡ c.after name))
          ⊎ ((c.now name < ts + 1000 * interval_of m) × Within u v (threshold_of m)))

  decided-Current :
      (entry : Option (Reading × ℕ))
      → m.enabled ≡ true
      → c.works name ≡ true
      → Current (decided c name v m entry).0
  unfolding should_publish
  decided-Current none e w = rw (e, w) (v, c.after name, refl, inl (refl, refl))
  decided-Current (some (u, ts)) e w =
      elim (Bool-cases (leb (ts + 1000 * interval_of m) (c.now name))) [
        | inl due ↦ rw (e, w, due) (v, c.after name, refl, inl (refl, refl))
        | inr early ↦ elim (Bool-cases (changed u v (threshold_of m))) [
          | inl new ↦ rw (e, w, early, new) (v, c.after name, refl, inl (refl, refl))
          | inr same ↦ (
            u,
            ts,
            rw (e, w, early, same) refl,
            inr (ground (arith, early), changed-Within u v (threshold_of m) same),
          )
        ]
      ]

  -- After every cycle that meets an enabled metric and whose publish succeeds, what was last published
  -- of the metric is the present reading, or it is younger than the interval and within the threshold.
  pub cycle-Current :
      Meets c name m v
      → m.enabled ≡ true
      → c.works name ≡ true
      → Current (lookup name (cycle c last).0)
  cycle-Current h e w =
      subst Current (sym (ap (λ x. x.0) (cycle-decided h))) (decided-Current (lookup name last) e w)

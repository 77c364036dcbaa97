-- ===== src/Telemetry/Rate.antt =====
-- How often mqtt/telemetry.py publishes a metric whose reading does not change.
use native.Mathlib.Nat.{
  zero-add, mul-add, mul-one, mul-zero, sub_self, zero-mul, one-le-mul, one-le-pow,
}
use lucid_agent_core.Prelude.{
  nat_eq, ℕ, ◌≤◌, ◌+◌, ◌*◌, ◌^◌, String, ◌≡◌, refl, ap, ◌∙◌, ◌⊎◌, inl, inr, true, false, ◌&&◌,
  Option, none, some, List, [], ◌∷◌, arith, Bool-cases, leb,
}
use lucid_agent_core.Prelude.Dict.{lookup}
use lucid_agent_core.Snapshots.{Metric}
use lucid_agent_core.Telemetry.{
  Reading, Last, interval_of, threshold_of, changed, should_publish, Cycle, cycle, run,
}
use lucid_agent_core.Telemetry.Fresh.{count, count-append, effect, decided, Meets, cycle-decided}

abbrev pub IsPositive : Option (ℕ × ℕ) → Type 0
IsPositive none = Unit
IsPositive (some (t, k)) = 1 ≤ t

-- An unchanged reading does not reach a positive threshold.
changed_self : (v : Reading) (t : Option (ℕ × ℕ)) → IsPositive t → changed v v t ≡ false
unfolding changed
changed_self (a, i) none h = ground arith
changed_self (a, i) (some (t, k)) h = elim (Bool-cases (nat_eq a 0)) [
  | inl z ↦ rw z refl
  | inr z ↦
      let a_pos : 1 ≤ a = ground (arith, z) in
      let p = one-le-mul h (one-le-mul a_pos (one-le-pow i 2 (omega arith))) in
      rw (z, sub_self (a * 2 ^ i), zero-mul (100 * 2 ^ k)) (ground (arith, p))
]

-- A cycle of which the clocks lie between two times, and that meets a metric, with these settings and
-- this reading, unless there is no connection.
pub record Steady (start stop : ℕ) (name : String) (m : Metric) (v : Reading) (c : Cycle)
    : Type 0 where
  pub meets : Meets c name m v ⊎ (c.ready ≡ false)
  pub begun : start ≤ c.now name
  pub forward : c.now name ≤ c.after name
  pub ended : c.after name ≤ stop

pub data AllSteady (start stop : ℕ) (name : String) (m : Metric) (v : Reading)
    : List Cycle → Type 0 where
  done : AllSteady start stop name m v []
  next :
      (c : Cycle) (cs : List Cycle)
      → Steady start stop name m v c
      → AllSteady start stop name m v cs
      → AllSteady start stop name m v (c ∷ cs)

module _ (start stop : ℕ) (name : String) (m : Metric) (v : Reading)
    (positive : IsPositive (threshold_of m)) where
  abbrev period : ℕ
  period = 1000 * interval_of m

  -- A publication comes a period after one of the same reading.
  abbrev Published : Cycle → Option (Reading × ℕ) → Option (Reading × ℕ) × ℕ → Type 0
  Published c entry e =
      (e ≡ (some (v, c.after name), 1))
      × ((ts : ℕ) → entry ≡ some (v, ts) → ts + period ≤ c.now name)

  due : (ts now : ℕ) → should_publish (some (v, ts)) now v m ≡ true → ts + period ≤ now
  unfolding should_publish
  due ts now h = elim (Bool-cases (leb (ts + 1000 * interval_of m) now)) [
    | inl p ↦ ground (arith, p)
    | inr p ↦ ground (arith, p, h, changed_self v (threshold_of m) positive)
  ]

  decided-cases :
      (c : Cycle) (entry : Option (Reading × ℕ))
      → (decided c name v m entry ≡ (entry, 0)) ⊎ Published c entry (decided c name v m entry)
  decided-cases c entry =
      elim (Bool-cases (should_publish entry (c.now name) v m && c.works name)) [
        | inl sent ↦ inr (
          rw sent refl,
          λ ts e.
              let y : should_publish entry (c.now name) v m ≡ true = ground (arith, sent) in
              due ts (c.now name) (rw e at y),
        )
        | inr never ↦ inl (rw never refl)
      ]

  cycle-cases :
      (c : Cycle) (last : Last)
      → Steady start stop name m v c
      → (effect name (cycle c last) ≡ (lookup name last, 0))
        ⊎ Published c (lookup name last) (effect name (cycle c last))
  unfolding cycle
  cycle-cases c last s = elim s.meets [
    | inl h ↦ rw (cycle-decided c name m v last h) (decided-cases c (lookup name last))
    | inr off ↦ inl (unfold count in rw (off, cycle) refl)
  ]

  -- The count of a cycle, and of those after it.
  run-count :
      (c : Cycle) (cs : List Cycle) (last : Last)
      → count name (run (c ∷ cs) last).1
        ≡ count name (cycle c last).1 + count name (run cs (cycle c last).0).1
  unfolding run
  run-count c cs last = count-append name (cycle c last).1 _

  count_after : (n k limit : ℕ) → n + period + period * k ≤ limit → n + period * (1 + k) ≤ limit
  count_after n k limit h = omega (arith, mul-add period 1 k, mul-one period)

  run-bound_after :
      (cs : List Cycle) (last : Last) (ts : ℕ)
      → AllSteady start stop name m v cs
      → lookup name last ≡ some (v, ts)
      → ts ≤ stop
      → ts + period * count name (run cs last).1 ≤ stop
  run-bound_after [] last ts a e h = unfold run in unfold count in omega (arith, mul-zero period)
  run-bound_after (c ∷ cs) last ts (next _ _ s a) e h = elim (cycle-cases c last s) [
    | inl p ↦
        let q = run-bound_after cs (cycle c last).0 ts a (ap (λ x. x.0) p ∙ e) h in
        rw (run-count c cs last, ap (λ x. x.1) p, zero-add (count name (run cs (cycle c last).0).1))
          q
    | inr (p, early) ↦
        let q = run-bound_after cs (cycle c last).0 (c.after name) a (ap (λ x. x.0) p) s.ended in
        let d = early ts e in
        rw (run-count c cs last, ap (λ x. x.1) p)
          (count_after ts _ stop (omega (arith, q, d, s.forward)))
  ]

-- A metric whose reading does not change is published at most once in each interval: over cycles that
-- lie between two times, with one threshold that is positive or infinite, the publications take no
-- more intervals than the time between, and one more. Whatever was published before, and whether publishing succeeds.
pub run-rate :
    (start stop : ℕ) (name : String) (m : Metric) (v : Reading) (cs : List Cycle) (last : Last)
    → IsPositive (threshold_of m)
    → start ≤ stop
    → AllSteady start stop name m v cs
    → start + 1000 * interval_of m * count name (run cs last).1 ≤ stop + 1000 * interval_of m
run-rate start stop name m v [] last t h done =
    unfold run in unfold count in omega (arith, mul-zero (1000 * interval_of m))
run-rate start stop name m v (c ∷ cs) last t h (next _ _ s a) =
    elim (cycle-cases start stop name m v t c last s) [
      | inl p ↦
          rw
            (
              run-count start stop name m v t c cs last,
              ap (λ x. x.1) p,
              zero-add (count name (run cs (cycle c last).0).1),
            )
            (run-rate start stop name m v cs (cycle c last).0 t h a)
      | inr (p, early) ↦
          let q =
            run-bound_after start stop name m v t cs (cycle c last).0 (c.after name) a
              (ap (λ x. x.0) p) s.ended in
          rw (run-count start stop name m v t c cs last, ap (λ x. x.1) p)
            (count_after start stop name m v t start _ _ (omega (arith, q, s.begun, s.forward)))
    ]

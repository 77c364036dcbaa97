-- ===== src/LogHandler/Rate.antt =====
-- The rate limit of core/mqtt_log_handler.py over a whole run: how many batches are published in a
-- window of two seconds.
use mathlib.Core.List.{append-nil, append_assoc}
use lucid_agent_core.Prelude.{
  ℕ, ◌≤◌, ◌<◌, String, ◌≡◌, refl, ◌∙◌, sym, false, Option, none, some, List, [], ◌∷◌, ◌++◌, arith,
  Bool-cases, inl, inr, length, length-append, leb, ◌==◌,
}
use lucid_agent_core.LogHandler.{
  LogHandler, Delivery, rate_limited, Effect, batch, warning, recent, publish_batch,
  publish_batch_timer, emit, publish_buffer, max_lines_per_batch, max_batches_per_window,
  logger_name, new,
}
use lucid_agent_core.LogHandler.Buffer.{length-recent-le}

-- When the batches of a call were published: those that the rate limit did not hold back.
abbrev pub published : {Line : Type 0} → ℕ → List (Effect Line) → List ℕ
published now [] = []
published now (batch rate_limited ls ∷ es) = published now es
published now (batch _ ls ∷ es) = now ∷ published now es
published now (warning n ∷ es) = published now es

recent-append : (t : ℕ) (xs ys : List ℕ) → recent t (xs ++ ys) ≡ recent t xs ++ recent t ys
unfolding recent
recent-append t [] ys = refl
recent-append t (x ∷ xs) ys = ground (arith, recent-append t xs ys)

-- What an earlier call dropped from the record is outside every later window.
recent-recent : (t now : ℕ) (xs : List ℕ) → now ≤ t → recent t (recent now xs) ≡ recent t xs
unfolding recent
recent-recent t now [] h = refl
recent-recent t now (x ∷ xs) h = ground (arith, recent-recent t now xs h)

-- What a call does to the record, beside the times at which it publishes.
data Recorded (now : ℕ) (old : List ℕ) (new_ out : List ℕ) : Type 0 where
  same : new_ ≡ old → out ≡ [] → Recorded now old new_ out
  pruned : new_ ≡ recent now old → out ≡ [] → Recorded now old new_ out
  added :
      length (recent now old) < max_batches_per_window
      → new_ ≡ recent now old ++ now ∷ []
      → out ≡ now ∷ []
      → Recorded now old new_ out

module _ {Line : Type 0} (now : ℕ) (delivery : Delivery) where
  publish_buffer-Recorded :
      (s : LogHandler Line) (ls : List Line)
      → Recorded now s.batch_timestamps
          (publish_buffer s now delivery ls).0.batch_timestamps
          (published now (publish_buffer s now delivery ls).1)
  unfolding publish_buffer
  publish_buffer-Recorded s [] = same refl refl
  publish_buffer-Recorded s (l ∷ ls) =
      elim (Bool-cases (leb max_batches_per_window (length (recent now s.batch_timestamps)))) [
        | inl full ↦ pruned (ground (arith, full)) (ground (arith, full))
        | inr room ↦ added (ground arith) (ground (arith, room)) (ground (arith, room))
      ]

  emit-Recorded :
      (s : LogHandler Line) (name : String) (line : Option Line)
      → Recorded now s.batch_timestamps
          (emit s now delivery name line).0.batch_timestamps
          (published now (emit s now delivery name line).1)
  unfolding emit publish_batch
  emit-Recorded s name none = same (ground arith) (ground arith)
  emit-Recorded s name (some l) = elim (Bool-cases (name == logger_name)) [
    | inl own ↦ rw own (same refl refl)
    | inr other ↦ elim (Bool-cases (leb max_lines_per_batch (length (s.buffer ++ l ∷ [])))) [
      | inl full ↦
          rw (other, full)
            (publish_buffer-Recorded (record s { buffer = s.buffer ++ l ∷ [] })
              (s.buffer ++ l ∷ []))
      | inr room ↦ rw (other, room) (same refl refl)
    ]
  ]

Recorded-window :
    (last now : ℕ) (old new_ out log : List ℕ)
    → last ≤ now
    → ((t : ℕ) → last ≤ t → recent t log ≡ recent t old)
    → Recorded now old new_ out
    → (t : ℕ) → now ≤ t
    → recent t (log ++ out) ≡ recent t new_
Recorded-window last now old new_ out log later w (same e o) t h =
    rw (o, e, append-nil log) (w t (omega arith))
Recorded-window last now old new_ out log later w (pruned e o) t h =
    rw (o, e, append-nil log) (w t (omega arith) ∙ sym (recent-recent t now old h))
Recorded-window last now old new_ out log later w (added r e o) t h =
    rw
      (
        o,
        e,
        recent-append t log (now ∷ []),
        recent-append t (recent now old) (now ∷ []),
        recent-recent t now old h,
        w t (omega arith),
      )
      refl

Recorded-limited :
    (now : ℕ) (old new_ out : List ℕ)
    → length old ≤ max_batches_per_window
    → Recorded now old new_ out
    → length new_ ≤ max_batches_per_window
Recorded-limited now old new_ out h (same e o) = rw e h
Recorded-limited now old new_ out h (pruned e o) = rw e (omega (arith, length-recent-le now old))
Recorded-limited now old new_ out h (added r e o) =
    rw e (omega (arith, length-append (recent now old) (now ∷ [])))

-- A run: records and timers, each with its time and what its publish would meet.
pub data Event (Line : Type 0) : Type 0 where
  emitted : ℕ → Delivery → String → Option Line → Event Line
  timer : ℕ → Delivery → Event Line

abbrev pub time_of : {Line : Type 0} → Event Line → ℕ
time_of (emitted now delivery name line) = now
time_of (timer now delivery) = now

unfoldable pub step :
    {Line : Type 0} → LogHandler Line → Event Line → LogHandler Line × List (Effect Line)
step s (emitted now delivery name line) = emit s now delivery name line
step s (timer now delivery) = publish_batch_timer s now delivery

-- The times at which a run publishes.
unfoldable pub publish_times : {Line : Type 0} → LogHandler Line → List (Event Line) → List ℕ
unfolding step
publish_times s [] = []
publish_times s (e ∷ es) = published (time_of e) (step s e).1 ++ publish_times (step s e).0 es

-- The clock does not run backwards, from `last` on.
abbrev pub IsOrdered : {Line : Type 0} → ℕ → List (Event Line) → Type 0
IsOrdered last [] = Unit
IsOrdered last (e ∷ es) = (last ≤ time_of e) × IsOrdered (time_of e) es

abbrev pub end_time : {Line : Type 0} → ℕ → List (Event Line) → ℕ
end_time last [] = last
end_time last (e ∷ es) = end_time (time_of e) es

step-Recorded :
    {Line : Type 0} (s : LogHandler Line) (e : Event Line)
    → Recorded
        (time_of e)
        s.batch_timestamps
        (step s e).0.batch_timestamps
        (published (time_of e) (step s e).1)
unfolding step publish_batch_timer publish_batch
step-Recorded s (emitted now delivery name line) = emit-Recorded now delivery s name line
step-Recorded s (timer now delivery) =
    publish_buffer-Recorded now delivery (record s { batch_timer = false }) s.buffer

run-limited :
    {Line : Type 0} (last : ℕ) (s : LogHandler Line) (log : List ℕ) (es : List (Event Line))
    → length s.batch_timestamps ≤ max_batches_per_window
    → ((t : ℕ) → last ≤ t → recent t log ≡ recent t s.batch_timestamps)
    → IsOrdered last es
    → (t : ℕ) → end_time last es ≤ t
    → length (recent t (log ++ publish_times s es)) ≤ max_batches_per_window
unfolding publish_times
run-limited last s log [] l w o t h =
    rw (append-nil log, w t h) (omega (arith, l, length-recent-le t s.batch_timestamps))
run-limited last s log (e ∷ es) l w o t h =
    let r = step-Recorded s e in
    rw (← append_assoc log (published (time_of e) (step s e).1) (publish_times (step s e).0 es)) (
      run-limited (time_of e) (step s e).0 (log ++ published (time_of e) (step s e).1) es
        (Recorded-limited (time_of e) _ _ _ l r)
        (Recorded-window last (time_of e) _ _ _ log o.0 w r) o.1 t h)

-- Whatever is logged, and however publishes end: if the clock does not run backwards, then at every
-- time from the last call on, at most 25 batches were published in the two seconds before it.
pub rate_limit :
    {Line : Type 0} (start : ℕ) (es : List (Event Line))
    → IsOrdered start es
    → (t : ℕ) → end_time start es ≤ t
    → length (recent t (publish_times (new start) es)) ≤ max_batches_per_window
rate_limit start es o t h = run-limited start (new start) [] es (omega arith) (λ t h. refl) o t h

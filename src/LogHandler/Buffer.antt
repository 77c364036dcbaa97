-- ===== src/LogHandler/Buffer.antt =====
-- The buffer of core/mqtt_log_handler.py: it stays below a full batch, a line in it always has a
-- timer that will publish it, and every line leaves it once and in order.
use mathlib.Core.List.{append-nil}
use lucid_agent_core.Prelude.{
  ℕ, ◌≤◌, ◌<◌, String, ◌≡◌, ◌≢◌, refl, true, false, Option, none, some, List, [], ◌∷◌, ◌++◌, arith,
  Bool-cases, inl, inr, eq_iff, length, length-append, leb, ◌==◌,
}
use lucid_agent_core.LogHandler.{
  LogHandler, Delivery, Effect, batch, warning, recent, publish_batch, publish_batch_timer, emit,
  max_lines_per_batch, max_batches_per_window, logger_name, publish_buffer,
}

pub record IsValid {Line : Type 0} (s : LogHandler Line) : Type 0 where
  pub bounded : length s.buffer < max_lines_per_batch
  pub scheduled : s.buffer ≢ [] → s.batch_timer ≡ true
  pub limited : length s.batch_timestamps ≤ max_batches_per_window

pub length-recent-le : (now : ℕ) (ts : List ℕ) → length (recent now ts) ≤ length ts
unfolding recent
length-recent-le now [] = omega arith
length-recent-le now (t ∷ ts) = ground (arith, length-recent-le now ts)

-- The lines of the batches that a call lets out.
abbrev pub lines_out : {Line : Type 0} → List (Effect Line) → List Line
lines_out [] = []
lines_out (batch fate ls ∷ es) = ls ++ lines_out es
lines_out (warning n ∷ es) = lines_out es

module _ {Line : Type 0} (now : ℕ) (delivery : Delivery) where
  -- `_publish_batch` empties the buffer, whatever it meets.
  publish_batch-empty : (s : LogHandler Line) → (publish_batch s now delivery).0.buffer ≡ []
  unfolding publish_batch
  publish_batch-empty s = ground arith

  publish_batch-limited :
      (s : LogHandler Line)
      → length s.batch_timestamps ≤ max_batches_per_window
      → length (publish_batch s now delivery).0.batch_timestamps ≤ max_batches_per_window
  unfolding publish_batch
  publish_batch-limited s h = ground (
    arith,
    length-recent-le now s.batch_timestamps,
    length-append (recent now s.batch_timestamps) (now ∷ []),
  )

  publish_buffer-lines :
      (s : LogHandler Line) (ls : List Line) → lines_out (publish_buffer s now delivery ls).1 ≡ ls
  unfolding publish_buffer
  publish_buffer-lines s [] = refl
  publish_buffer-lines s (l ∷ ls) = ground (arith, append-nil (l ∷ ls))

  publish_batch-lines :
      (s : LogHandler Line) → lines_out (publish_batch s now delivery).1 ≡ s.buffer
  unfolding publish_batch
  publish_batch-lines s = publish_buffer-lines s s.buffer

  -- Every call of `emit` leaves less than a full batch in the buffer, a pending timer if there is a
  -- line in it, and at most 25 batches on record.
  pub emit-IsValid :
      (s : LogHandler Line) (name : String) (line : Option Line)
      → IsValid s
      → IsValid (emit s now delivery name line).0
  unfolding emit
  emit-IsValid s name none v = ground arith
  emit-IsValid s name (some l) v = elim (Bool-cases (name == logger_name)) [
    | inl own ↦ rw own v
    | inr other ↦ elim (Bool-cases (leb max_lines_per_batch (length (s.buffer ++ l ∷ [])))) [
      | inl full ↦
          let s' = record s { buffer = s.buffer ++ l ∷ [] } in
          rw (other, full)
            (record {
              bounded = rw (publish_batch-empty s') (omega arith);
              scheduled = λ n. absurd (n (publish_batch-empty s'));
              limited = publish_batch-limited s' v.limited;
            })
      | inr room ↦
          rw (other, room)
            (record { bounded = ground arith; scheduled = λ n. refl; limited = v.limited })
    ]
  ]

  -- When the timer fires, the buffer is emptied, so no line waits without a timer.
  publish_batch_timer-IsValid :
      (s : LogHandler Line)
      → IsValid s
      → IsValid (publish_batch_timer s now delivery).0
        × ((publish_batch_timer s now delivery).0.buffer ≡ [])
  unfolding publish_batch_timer
  publish_batch_timer-IsValid s v =
      let s' = record s { batch_timer = false } in
      (
        record {
          bounded = rw (publish_batch-empty s') (omega arith);
          scheduled = λ n. absurd (n (publish_batch-empty s'));
          limited = publish_batch-limited s' v.limited;
        },
        publish_batch-empty s',
      )

  -- A line that `emit` takes is appended to those waiting, and what leaves the buffer is its front,
  -- in order: nothing is lost, doubled or reordered between the two.
  pub emit-lines :
      (s : LogHandler Line) (name : String) (l : Line)
      → name ≢ logger_name
      → lines_out (emit s now delivery name (some l)).1
          ++ (emit s now delivery name (some l)).0.buffer
        ≡ s.buffer ++ l ∷ []
  unfolding emit
  emit-lines s name l other =
      let s' = record s { buffer = s.buffer ++ l ∷ [] } in
      ground (
        arith,
        eq_iff name logger_name,
        publish_batch-lines s',
        publish_batch-empty s',
        append-nil (s.buffer ++ l ∷ []),
      )

  -- A fired timer lets the whole buffer out, in order.
  publish_batch_timer-lines :
      (s : LogHandler Line) → lines_out (publish_batch_timer s now delivery).1 ≡ s.buffer
  unfolding publish_batch_timer
  publish_batch_timer-lines s = publish_batch-lines (record s { batch_timer = false })

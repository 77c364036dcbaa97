-- ===== src/LogHandler/Drops.antt =====
-- What the drop counter of core/mqtt_log_handler.py counts.
use lucid_agent_core.Prelude.{
  ℕ, ◌+◌, String, ◌≡◌, Option, none, some, List, [], ◌∷◌, ◌++◌, arith, length, ◌==◌, if◌then◌else◌,
}
use lucid_agent_core.LogHandler.{
  LogHandler, Delivery, failed, rate_limited, Effect, batch, warning, publish_batch, emit,
  publish_buffer, logger_name,
}

-- The lines of the batches that the rate limit or a failing publish lost.
abbrev pub counted : {Line : Type 0} → List (Effect Line) → ℕ
counted [] = 0
counted (batch failed ls ∷ es) = length ls + counted es
counted (batch rate_limited ls ∷ es) = length ls + counted es
counted (_ ∷ es) = counted es

-- What the handler's warnings have reported.
abbrev pub reported : {Line : Type 0} → List (Effect Line) → ℕ
reported [] = 0
reported (warning n ∷ es) = n + reported es
reported (_ ∷ es) = reported es

-- One for a record whose line could not be built.
abbrev pub unbuilt : {Line : Type 0} → String → Option Line → ℕ
unbuilt name none = if name == logger_name then 0 else 1
unbuilt name (some l) = 0

module _ {Line : Type 0} (now : ℕ) (delivery : Delivery) where
  publish_buffer-counted :
      (s : LogHandler Line) (ls : List Line)
      → (publish_buffer s now delivery ls).0.dropped_count
          + reported (publish_buffer s now delivery ls).1
        ≡ s.dropped_count + counted (publish_buffer s now delivery ls).1
  unfolding publish_buffer
  publish_buffer-counted s [] = omega arith
  publish_buffer-counted s (l ∷ ls) = ground arith

  -- The counter and what the warnings have reported grow together by exactly the lines that the
  -- rate limit or a failing publish lost, and by one for a record that could not be built. A batch
  -- that meets no connection is not counted, and a warning starts the count anew.
  pub emit-counted :
      (s : LogHandler Line) (name : String) (line : Option Line)
      → (emit s now delivery name line).0.dropped_count + reported (emit s now delivery name line).1
        ≡ s.dropped_count + counted (emit s now delivery name line).1 + unbuilt name line
  unfolding emit publish_batch
  emit-counted s name none = ground arith
  emit-counted s name (some l) =
      let s' = record s { buffer = s.buffer ++ l ∷ [] } in
      ground (arith, publish_buffer-counted s' (s.buffer ++ l ∷ []))

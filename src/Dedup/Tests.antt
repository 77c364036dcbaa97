-- ===== src/Dedup/Tests.antt =====
-- Runs of core/handlers/_dedup.py on the inputs of its tests, and the theorems at concrete data.
use lucid_agent_core.Prelude.{
  ◌≤◌, ◌≡◌, refl, Bool, true, false, none, some, [], ◌∷◌, arith, length, eq_iff,
}
use lucid_agent_core.Dedup.{SeenRequestIds, new, check_and_add, run}
use lucid_agent_core.Dedup.Bounds.{IsValid, check_and_add-IsValid}
use lucid_agent_core.Dedup.Window.{last_n, ideal_answers, ideal_admitted, run-refines_ideal}

abbrev two : SeenRequestIds
two = record { maxsize = 2; queue = "a" ∷ "b" ∷ []; seen = "b" ∷ "a" ∷ [] }

two-IsValid : IsValid two
two-IsValid = record {
  positive = omega arith;
  bounded = omega arith;
  distinct = (refl, (refl, tt));
  same = λ k. ground (arith, eq_iff "a" k, eq_iff "b" k);
}

-- The oldest id is evicted at the cap, so it is admitted again.
oldest_evicted :
    run (new 2) ("a" ∷ "b" ∷ "a" ∷ "c" ∷ "a" ∷ "" ∷ [])
    ≡ some (
      record { maxsize = 2; queue = "c" ∷ "a" ∷ []; seen = "a" ∷ "c" ∷ [] },
      false ∷ false ∷ true ∷ false ∷ false ∷ false ∷ [],
    )
unfolding run check_and_add
oldest_evicted = refl

-- With a cap of 0 the first call fails.
no_room : check_and_add (new 0) "a" ≡ none
unfolding check_and_add
no_room = refl

check_and_add-IsValid_example :
    (t : SeenRequestIds) × (dup : Bool) × (check_and_add two "c" ≡ some (t, dup)) × IsValid t
check_and_add-IsValid_example = check_and_add-IsValid two "c" two-IsValid

run-refines_ideal_example :
    (t : SeenRequestIds) × (run (new 2) ("a" ∷ "b" ∷ "c" ∷ "a" ∷ [])
      ≡ some (t, ideal_answers 2 [] ("a" ∷ "b" ∷ "c" ∷ "a" ∷ [])))
    × (t.queue ≡ last_n 2 (ideal_admitted 2 [] ("a" ∷ "b" ∷ "c" ∷ "a" ∷ [])))
    × (length t.queue ≤ 2)
run-refines_ideal_example = run-refines_ideal 2 ("a" ∷ "b" ∷ "c" ∷ "a" ∷ []) (omega arith)

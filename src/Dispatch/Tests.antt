-- ===== src/Dispatch/Tests.antt =====
-- Schedules of mqtt/client.py with one slot, and the theorems at them.
use lucid_agent_core.Prelude.{◌+◌, ◌≤◌, ◌≡◌, refl, none, List, [], ◌∷◌, arith, length}
use lucid_agent_core.Dispatch.{
  Message, new, Action, arrives, goes_on, begins, releases, leaves, step, run,
}
use lucid_agent_core.Dispatch.Slots.{held, inflight_limit}
use lucid_agent_core.Dispatch.Once.{places, handled_once}
use lucid_agent_core.Dispatch.Cancel.{Displaced, full-goes_on}

abbrev first : Message
first = record { topic = "t"; request_id = "1" }

abbrev second : Message
second = record { topic = "t"; request_id = "2" }

-- The first command waits in the pool when the second arrives.
abbrev overtaken : List Action
overtaken = arrives first ∷ goes_on ∷ goes_on ∷ arrives second ∷ []

-- The first command is displaced, and the second is handled.
abbrev whole : List Action
whole =
    arrives first
    ∷ goes_on
    ∷ goes_on
    ∷ arrives second
    ∷ goes_on
    ∷ goes_on
    ∷ goes_on
    ∷ goes_on
    ∷ goes_on
    ∷ begins
    ∷ releases 1 none
    ∷ leaves 1
    ∷ []

run-whole : run (new 1 1) whole ≡ record (new 1 1) {
  next_future = 2;
  finished = record { future = 1; topic = "t"; request_id = "2" } ∷ [];
  cancelled = record { future = 0; topic = "t"; request_id = "1" } ∷ [];
  failures =
      record { cmd_topic = "t"; request_id = "1"; error = "cancelled by newer command" } ∷ [];
}
unfolding run
run-whole = refl

inflight_limit_example :
    ((run (new 1 1) whole).permits
        + length (run (new 1 1) whole).queued
        + length (run (new 1 1) whole).running
        + held (run (new 1 1) whole).phase
      ≡ 1)
    × (length (run (new 1 1) whole).queued + length (run (new 1 1) whole).running ≤ 1)
inflight_limit_example = inflight_limit 1 1 whole

handled_once_example : places 0 (run (new 1 1) whole) ≡ 1
unfolding run
handled_once_example = handled_once 1 1 whole 0 (omega arith)

full-goes_on_example :
    Displaced (run (new 1 1) overtaken) second (step (run (new 1 1) overtaken) goes_on)
unfolding run
full-goes_on_example = full-goes_on (run (new 1 1) overtaken) second refl

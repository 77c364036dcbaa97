-- ===== src/Handlers/Answers.antt =====
-- Reasoning about the results that a handler of core/handlers publishes on a topic, action by action.
pub mod Each
pub mod Compound
pub mod Changes
use lucid_agent_core.Prelude.{
  ℕ, ◌≤◌, ◌<◌, ◌+◌, String, ◌≡◌, refl, ap, ◌∙◌, sym, Bool, true, false, Option, none, some, List,
  [], ◌∷◌, ◌++◌, arith, ◌==◌, eq_refl, if◌then◌else◌,
}
use lucid_agent_core.Prelude.Errors.{Exn, Outcome, ok, raise}
use lucid_agent_core.Prelude.Json.{Value}
use lucid_agent_core.Dedup.{check_and_add}
use lucid_agent_core.Topics.{Command}
use lucid_agent_core.Upgrade.{World}
use lucid_agent_core.Handlers.{
  Setup, Agent, Action, Event, published, Message, result, cfg_result, install_result,
  uninstall_result, upgrade_result, core_result, retained, retained_metrics, return, lift, emit,
  and_then, caught, attempt, on_world, ◌>>=◌, publish, publish_result, result_topic, remember,
  check_duplicate, unless_duplicate, request_restart, flush, id_text,
}

-- The topic of a result; retained messages are none.
unfoldable pub result_on : Message → Option String
result_on (result topic rid success) = some topic
result_on (cfg_result topic rid r) = some topic
result_on (install_result topic r) = some topic
result_on (uninstall_result topic r) = some topic
result_on (upgrade_result topic r) = some topic
result_on (core_result topic r) = some topic
result_on (retained topic v) = none
result_on (retained_metrics topic ms) = none

-- Whether an event is a result on the topic.
unfoldable pub is_answer : String → Event → Bool
unfolding result_on
is_answer topic (published m) = elim (result_on m) [ none ↦ false | some t ↦ t == topic ]
is_answer topic _ = false

unfoldable pub answers : String → List Event → ℕ
answers topic [] = 0
answers topic (e ∷ es) = if is_answer topic e then 1 + answers topic es else answers topic es

answers-append :
    (topic : String) (es : List Event) (e : Event)
    → answers topic (es ++ e ∷ [])
      ≡ (if is_answer topic e then answers topic es + 1 else answers topic es)
unfolding answers
answers-append topic [] e = ground arith
answers-append topic (d ∷ es) e = ground (arith, answers-append topic es e)

module _ (topic : String) where
  -- No result is lost.
  pub record Keeps {A : Type 0} (m : Action A) : Type 0 where
    pub keeps : (a : Agent) → answers topic a.events ≤ answers topic (m a).1.events

  -- Where the action returns a value with the property, a result was published.
  pub record When {A : Type 0} (P : A → Type 0) (m : Action A) : Type 0 where
    pub published_one :
        (a : Agent) (x : A)
        → (m a).0 ≡ ok x
        → P x
        → answers topic a.events < answers topic (m a).1.events

  abbrev pub Answers : {A : Type 0} → Action A → Type 0
  Answers m = When (λ _. Unit {0}) m

  pub emit-Keeps : (e : Event) → Keeps (emit e)
  emit-Keeps e = record { keeps = λ a. ground (arith, answers-append topic a.events e) }

  pub bind-Keeps :
      {A B : Type 0} {m : Action A} {f : A → Action B}
      → Keeps m
      → ((x : A) → Keeps (f x))
      → Keeps (m >>= f)
  bind-Keeps {A} {B} {m} {f} k l = record { keeps = λ a. go a (m a) (k.keeps a) }
    where
      go :
          (a : Agent) (r : Outcome A × Agent)
          → answers topic a.events ≤ answers topic r.1.events
          → answers topic a.events ≤ answers topic (and_then r f).1.events
      go a (ok x, b) h = let q = (l x).keeps b in omega (arith, h, q)
      go a (raise e, b) h = h

  pub attempt-Keeps :
      {A : Type 0} {m : Action A} {f : Exn → Action A}
      → Keeps m
      → ((e : Exn) → Keeps (f e))
      → Keeps (attempt m f)
  attempt-Keeps {A} {m} {f} k l = record { keeps = λ a. go a (m a) (k.keeps a) }
    where
      go :
          (a : Agent) (r : Outcome A × Agent)
          → answers topic a.events ≤ answers topic r.1.events
          → answers topic a.events ≤ answers topic (caught r f).1.events
      go a (ok x, b) h = h
      go a (raise e, b) h = let q = (l e).keeps b in omega (arith, h, q)

  pub on_world-Keeps : {A : Type 0} (f : World → Outcome A × World) → Keeps (on_world f)
  on_world-Keeps f = record { keeps = λ a. omega arith }

  -- An action that published, before others.
  pub bind-When_first :
      {A B : Type 0} {P : B → Type 0} {m : Action A} {f : A → Action B}
      → Answers m
      → ((x : A) → Keeps (f x))
      → When P (m >>= f)
  bind-When_first {A} {B} {P} {m} {f} k l = record {
    published_one = λ a y e p. go a y (m a) (λ x q. k.published_one a x q tt) e;
  }
    where
      go :
          (a : Agent) (y : B) (r : Outcome A × Agent)
          → ((x : A) → r.0 ≡ ok x → answers topic a.events < answers topic r.1.events)
          → (and_then r f).0 ≡ ok y
          → answers topic a.events < answers topic (and_then r f).1.events
      go a y (ok x, b) h q = let g = (l x).keeps b in let i = h x refl in omega (arith, i, g)
      go a y (raise e, b) h q = absurd (cc q)

  -- An action that publishes, after another.
  pub bind-When :
      {A B : Type 0} {P : B → Type 0} {m : Action A} {f : A → Action B}
      → Keeps m
      → ((x : A) → When P (f x))
      → When P (m >>= f)
  bind-When {A} {B} {P} {m} {f} k l = record {
    published_one = λ a y e p. go a y (m a) (k.keeps a) e p;
  }
    where
      go :
          (a : Agent) (y : B) (r : Outcome A × Agent)
          → answers topic a.events ≤ answers topic r.1.events
          → (and_then r f).0 ≡ ok y
          → P y
          → answers topic a.events < answers topic (and_then r f).1.events
      go a y (ok x, b) h q p = let g = (l x).published_one b y q p in omega (arith, h, g)
      go a y (raise e, b) h q p = absurd (cc q)

  pub attempt-Answers :
      {A : Type 0} {m : Action A} {f : Exn → Action A}
      → Answers m
      → Keeps m
      → ((e : Exn) → Answers (f e))
      → Answers (attempt m f)
  attempt-Answers {A} {m} {f} k n l = record {
    published_one = λ a y e p. go a y (m a) (n.keeps a) (λ x q. k.published_one a x q tt) e;
  }
    where
      go :
          (a : Agent) (y : A) (r : Outcome A × Agent)
          → answers topic a.events ≤ answers topic r.1.events
          → ((x : A) → r.0 ≡ ok x → answers topic a.events < answers topic r.1.events)
          → (caught r f).0 ≡ ok y
          → answers topic a.events < answers topic (caught r f).1.events
      go a y (ok x, b) g h q = h x refl
      go a y (raise e, b) g h q = let i = (l e).published_one b y q tt in omega (arith, g, i)

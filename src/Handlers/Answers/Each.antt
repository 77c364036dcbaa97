-- ===== src/Handlers/Answers/Each.antt =====
-- The results of the actions that the handlers of core/handlers share.
use lucid_agent_core.Prelude.{
  ◌≤◌, ◌<◌, String, ◌≡◌, refl, ap, Bool, true, false, Option, none, some, List, arith, eq_refl,
  if◌then◌else◌, Bool-cases, inl, inr,
}
use lucid_agent_core.Prelude.Errors.{Outcome, ok, raise}
use lucid_agent_core.Prelude.Json.{Value}
use lucid_agent_core.Dedup.{SeenRequestIds, check_and_add}
use lucid_agent_core.Topics.{Command}
use lucid_agent_core.Restart.{request_systemd_restart}
use lucid_agent_core.Handlers.{
  Setup, Agent, Event, restart_requested, and_then, Action, published, Message, result, return,
  lift, ask, call, ◌>>=◌, publish, publish_result, result_topic, remember, remembered,
  check_duplicate, unless_duplicate, request_restart, flush, id_text,
}
use lucid_agent_core.Handlers.Answers.{
  result_on, is_answer, answers, answers-append, Keeps, When, Answers, emit-Keeps, bind-Keeps,
  attempt-Keeps, bind-When, bind-When_first,
}

module _ (s : Setup) (topic : String) where
  pub return-Keeps : {A : Type 0} (x : A) → Keeps topic (return x)
  return-Keeps x = record { keeps = λ a. omega arith }

  pub lift-Keeps : {A : Type 0} (o : Outcome A) → Keeps topic (lift o)
  lift-Keeps o = record { keeps = λ a. omega arith }

  pub call-Keeps : {A : Type 0} (f : List Event → Outcome A) → Keeps topic (call f)
  call-Keeps f = record { keeps = λ a. omega arith }

  pub ask-Keeps : {A : Type 0} (f : Agent → A) → Keeps topic (ask f)
  ask-Keeps f = record { keeps = λ a. omega arith }

  pub if-Keeps :
      {A : Type 0} (b : Bool) {m k : Action A}
      → Keeps topic m
      → Keeps topic k
      → Keeps topic (if b then m else k)
  if-Keeps true h g = h
  if-Keeps false h g = g

  pub if-Answers :
      {A : Type 0} (b : Bool) {m k : Action A}
      → Answers topic m
      → Answers topic k
      → Answers topic (if b then m else k)
  if-Answers true h g = h
  if-Answers false h g = g

  pub publish-Keeps : (m : Message) → Keeps topic (publish s m)
  unfolding publish
  publish-Keeps m = record {
    keeps = λ a. elim (Bool-cases (s.publishes a.events m)) [
      | inl e ↦ ground (arith, e, (emit-Keeps topic (published m)).keeps a)
      | inr e ↦ ground (arith, e)
    ];
  }

  pub publish-Answers : (m : Message) → result_on m ≡ some topic → Answers topic (publish s m)
  unfolding publish is_answer
  publish-Answers m r = record {
    published_one = λ a x e p. elim (Bool-cases (s.publishes a.events m)) [
      | inl w ↦ ground (arith, w, r, eq_refl topic, answers-append topic a.events (published m))
      | inr w ↦ ground (arith, w, e)
    ];
  }

  pub publish_result-Keeps :
      (t : String) (rid : Value) (b : Bool) → Keeps topic (publish_result s t rid b)
  unfolding publish_result
  publish_result-Keeps t rid b =
      attempt-Keeps topic (publish-Keeps (result t rid b)) (λ e. return-Keeps tt)

  remember-Keeps : (id : String) → Keeps topic (remember s id)
  unfolding remember remembered
  remember-Keeps id = record { keeps = λ a. go a (check_and_add a.seen id) }
    where
      go :
          (a : Agent) (o : Option (SeenRequestIds × Bool))
          → answers topic a.events ≤ answers topic (remembered s a o).1.events
      go a none = omega arith
      go a (some (seen, dup)) = omega arith

  check_duplicate-Keeps : (rid : Value) (t : String) → Keeps topic (check_duplicate s rid t)
  unfolding check_duplicate
  check_duplicate-Keeps rid t = bind-Keeps topic (lift-Keeps (id_text s rid)) (λ id.
      bind-Keeps topic (remember-Keeps id) (λ dup.
        if-Keeps dup
          (bind-Keeps topic (publish-Keeps (result t rid false)) (λ _. return-Keeps true))
          (return-Keeps false)))

  -- A rejected id is answered.
  check_duplicate-When :
      (rid : Value) (t : String)
      → t ≡ topic
      → When topic (λ dup. dup ≡ true) (check_duplicate s rid t)
  unfolding check_duplicate result_on
  check_duplicate-When rid t e =
      bind-When topic (lift-Keeps (id_text s rid)) (λ id. bind-When topic (remember-Keeps id) go)
    where
      go :
          (dup : Bool)
          → When topic
              (λ dup. dup ≡ true)
              (if dup then (do _ ← publish s (result t rid false); return true) else return false)
      go true =
          bind-When_first topic (publish-Answers (result t rid false) (ap some e))
            (λ _. return-Keeps true)
      go false = record { published_one = λ a x p q. absurd (cc (p, q)) }

  pub unless_duplicate-Answers :
      (rid : Value) (c : Command) (body : Action (Unit {0}))
      → result_topic s c ≡ topic
      → Answers topic body
      → Answers topic (unless_duplicate s rid c body)
  unless_duplicate-Answers rid c body e h = record {
    published_one = λ a x p q.
        let m = check_duplicate s rid (result_topic s c) in
        go a x (m a) ((check_duplicate-Keeps rid (result_topic s c)).keeps a)
          ((check_duplicate-When rid (result_topic s c) e).published_one a true) p;
  }
    where
      go :
          (a : Agent) (x : Unit {0}) (r : Outcome Bool × Agent)
          → answers topic a.events ≤ answers topic r.1.events
          → (r.0 ≡ ok true → true ≡ true → answers topic a.events < answers topic r.1.events)
          → (and_then r (λ dup. if dup then return tt else body)).0 ≡ ok x
          → answers topic a.events
            < answers topic (and_then r (λ dup. if dup then return tt else body)).1.events
      go a x (ok true, b) k w p = w refl refl
      go a x (ok false, b) k w p = let q = h.published_one b x p tt in omega (arith, k, q)
      go a x (raise e, b) k w p = absurd (cc p)

  pub request_restart-Keeps : Keeps topic (request_restart s)
  unfolding request_restart
  request_restart-Keeps = record {
    keeps = λ a.
        (emit-Keeps topic (
            restart_requested
              (request_systemd_restart s.host (s.request a.events) a.sentinel).0)).keeps
          a;
  }

  pub flush-Keeps : Keeps topic (flush s)
  unfolding flush
  flush-Keeps = record { keeps = λ a. ground arith }

  pub publish_result-Answers :
      (rid : Value) (b : Bool)
      → ((es : List Event) (m : Message) → s.publishes es m ≡ true)
      → Answers topic (publish_result s topic rid b)
  unfolding publish_result publish result_on is_answer
  publish_result-Answers rid b works = record {
    published_one = λ a x p q. ground (
      arith,
      works a.events (result topic rid b),
      eq_refl topic,
      answers-append topic a.events (published (result topic rid b)),
    );
  }

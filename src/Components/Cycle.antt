-- ===== src/Components/Cycle.antt =====
-- A component of mqtt/client.py that is started and then stopped leaves no handler behind.
use mathlib.Core.Path.{subst, sym}
use lucid_agent_core.Prelude.{
  String, ◌≡◌, refl, ap, ◌∙◌, Bool, true, false, inl, inr, none, some, List, [], ◌∷◌, arith,
  contains, ◌<>◌, eq_iff, eq_refl, if◌then◌else◌, Bool-cases, Option-cases,
}
use lucid_agent_core.Prelude.Dict.{Dict, lookup, insert, erase, lookup-insert, lookup-erase}
use lucid_agent_core.Prelude.Errors.{Outcome, ok, raise}
use lucid_agent_core.Topics.{component_cmd, component_topic}
use lucid_agent_core.Components.{
  Component, Client, tracked_topics, add_handler, add_topic, try_topic, subscribe_actions,
  subscribe_cfg, cfg_topic, after_cfg, cfg_actions, cap_list, subscribe_component_topics,
  unsubscribe, unsubscribe_component_topics, find_component, stop_component, action_to_method_name,
}

-- How far a client `t` is from `s` while the topics of a component are added: a topic that is tracked
-- had no handler in `s`, and any other has the one it had.
record Grown (s : Client) (cid : String) (t : Client) : Type 0 where
  connected : t.connected ≡ s.connected
  components : t.components ≡ s.components
  added : (k : String) → contains (tracked_topics t cid) k ≡ true → lookup k s.handlers ≡ none
  kept :
      (k : String)
      → contains (tracked_topics t cid) k ≡ false
      → lookup k t.handlers ≡ lookup k s.handlers

module _ (s : Client) (cid : String) where
  lookup-insert_same : {V : Type 0} (v : V) (d : Dict V) → lookup cid (insert cid v d) ≡ some v
  lookup-insert_same v d = rw lookup-insert (rw eq_refl refl)

  tracked-insert :
      (ts : List String) (t : Client)
      → tracked_topics (record t { tracked = insert cid ts t.tracked }) cid ≡ ts
  tracked-insert ts t = rw (lookup-insert_same ts t.tracked, tracked_topics) refl

  add_handler-tracked :
      (t : Client) (action topic : String)
      → tracked_topics (add_handler t cid action topic) cid ≡ topic ∷ tracked_topics t cid
  unfolding add_handler
  add_handler-tracked t action topic = tracked-insert (topic ∷ tracked_topics t cid) t

  add_handler-Grown :
      (t : Client) (action topic : String)
      → lookup topic t.handlers ≡ none
      → Grown s cid t
      → Grown s cid (add_handler t cid action topic)
  unfolding add_handler
  add_handler-Grown t action topic n g = record {
    connected = g.connected;
    components = g.components;
    added = λ k h. elim (Bool-cases (contains (tracked_topics t cid) k)) [
      | inl old ↦ g.added k old
      | inr new ↦
          let h' = rw (add_handler-tracked t action topic) at h in
          let same : topic ≡ k = ground (arith, eq_iff topic k, eq_iff k topic, h', new) in
          sym (g.kept k new) ∙ rw (← same) n
    ];
    kept = λ k h.
        let h' = rw (add_handler-tracked t action topic) at h in
        rw lookup-insert (ground (arith, eq_iff topic k, eq_iff k topic, h', g.kept k));
  }

  add_topic-Grown :
      (t : Client) (action topic : String)
      → Grown s cid t
      → Grown s cid (add_topic t cid action topic)
  unfolding add_topic
  add_topic-Grown t action topic g = elim (Option-cases (lookup topic t.handlers)) [
    | inl n ↦ rw (n, add_topic) (add_handler-Grown t action topic n g)
    | inr (h, p) ↦ rw (p, add_topic) g
  ]

  try_topic-Grown :
      (t : Client) (action : String) (o : Outcome String)
      → Grown s cid t
      → Grown s cid (try_topic t cid action o)
  unfolding try_topic
  try_topic-Grown t action (ok topic) g = add_topic-Grown t action topic g
  try_topic-Grown t action (raise x) g = g

  subscribe_actions-Grown :
      (comp : Component) (actions : List String) (t : Client)
      → Grown s cid t
      → Grown s cid (subscribe_actions comp cid actions t)
  unfolding subscribe_actions
  subscribe_actions-Grown comp [] t g = g
  subscribe_actions-Grown comp (action ∷ actions) t g =
      subscribe_actions-Grown comp actions _
        (elim (Bool-cases (comp.has_method (action_to_method_name action))) [
          | inl has ↦ rw has (try_topic-Grown t action (component_cmd t.topics cid action) g)
          | inr lacks ↦ rw lacks g
        ])

  cfg_topic-Grown :
      (t : Client) (action : String) (o : Outcome String)
      → Grown s cid t
      → Grown s cid (cfg_topic t cid action o).1
  unfolding cfg_topic
  cfg_topic-Grown t action (ok topic) g = add_topic-Grown t action topic g
  cfg_topic-Grown t action (raise x) g = g

  after_cfg-Grown :
      (f : Client → Outcome (Unit {0}) × Client) (o : Outcome (Unit {0}) × Client)
      → ((t : Client) → Grown s cid t → Grown s cid (f t).1)
      → Grown s cid o.1
      → Grown s cid (after_cfg f o).1
  unfolding after_cfg
  after_cfg-Grown f (ok _, t) h g = h t g
  after_cfg-Grown f (raise x, t) h g = g

  subscribe_cfg-Grown :
      (comp : Component) (actions : List (String × String)) (t : Client)
      → Grown s cid t
      → Grown s cid (subscribe_cfg comp cid actions t).1
  unfolding subscribe_cfg
  subscribe_cfg-Grown comp [] t g = g
  subscribe_cfg-Grown comp ((action, attr) ∷ actions) t g =
      after_cfg-Grown (subscribe_cfg comp cid actions) _
        (λ t g. subscribe_cfg-Grown comp actions t g) (maybe (comp.has_method attr))
    where
      maybe :
          (b : Bool)
          → Grown s cid
              (if b
                then cfg_topic t cid action (component_topic t.topics cid ("cmd/" <> action))
                else (ok tt, t)).1
      maybe true = cfg_topic-Grown t action _ g
      maybe false = g

  subscribe-Grown :
      (comp : Component)
      → s.connected ≡ true
      → tracked_topics s cid ≡ []
      → Grown s cid (subscribe_component_topics comp cid s).1
  unfolding subscribe_component_topics
  subscribe-Grown comp c e =
      let s' = record s { tracked = insert cid (tracked_topics s cid) s.tracked } in
      let none_yet : tracked_topics s' cid ≡ [] = tracked-insert (tracked_topics s cid) s ∙ e in
      let start : Grown s cid s' = record {
        connected = refl;
        components = refl;
        added = λ k h. let h' = rw none_yet at h in cc h';
        kept = λ k h. refl;
      } in
      subst
        (λ b.
          Grown s cid
            (if b
              then subscribe_cfg comp cid cfg_actions
                  (subscribe_actions comp cid (cap_list comp) s')
              else (ok tt, s)).1)
        (sym c)
        (subscribe_cfg-Grown comp cfg_actions _
          (subscribe_actions-Grown comp (cap_list comp) s' start))

-- Where no call of paho fails, the topics lose their handlers and no other topic does.
lookup-unsubscribe :
    (topics : List String) (s : Client) (k : String)
    → lookup k (unsubscribe (λ _. false) topics s).handlers
      ≡ (if contains topics k then none else lookup k s.handlers)
unfolding unsubscribe
lookup-unsubscribe [] s k = refl
lookup-unsubscribe (topic ∷ topics) s k = elim (Option-cases (lookup topic s.handlers)) [
  | inl n ↦
      rw (lookup-unsubscribe topics _ k, n) (ground (arith, n, eq_iff topic k, eq_iff k topic))
  | inr (h, p) ↦
      rw (lookup-unsubscribe topics _ k, p)
        (ground (arith, eq_iff topic k, eq_iff k topic, lookup-erase topic k s.handlers))
]

-- The same, where the component found under the id may be another one.
pub stop-subscribe_found :
    (s : Client) (comp found : Component) (cid : String)
    → s.connected ≡ true
    → tracked_topics s cid ≡ []
    → let t = (subscribe_component_topics comp cid s).1 in
      find_component cid t.components ≡ some found
      → let r = stop_component (λ _. false) true cid t in
        (r.0 ≡ true) × ((k : String) → lookup k r.1.handlers ≡ lookup k s.handlers)
unfolding stop_component unsubscribe_component_topics
stop-subscribe_found s comp found cid c e known =
    let t = (subscribe_component_topics comp cid s).1 in
    let g : Grown s cid t = subscribe-Grown s cid comp c e in
    let up : t.connected ≡ true = g.connected ∙ c in
    let after =
      lookup-unsubscribe (tracked_topics t cid) (record t { tracked = erase cid t.tracked }) in
    rw (known, stop_component) (refl, λ k. ground (arith, up, after k, g.added k, g.kept k))

-- A component that is known, has no topic tracked, is subscribed and then stopped, on a connection
-- that is up and where no unsubscription fails: the stop succeeds, and every topic has the handler
-- that it had before, those of other components included.
stop-subscribe :
    (s : Client) (comp : Component) (cid : String)
    → s.connected ≡ true
    → find_component cid s.components ≡ some comp
    → tracked_topics s cid ≡ []
    → let t = (subscribe_component_topics comp cid s).1 in
      let r = stop_component (λ _. false) true cid t in
      (r.0 ≡ true) × ((k : String) → lookup k r.1.handlers ≡ lookup k s.handlers)
stop-subscribe s comp cid c f e =
    let g : Grown s cid (subscribe_component_topics comp cid s).1 =
      subscribe-Grown s cid comp c e in
    stop-subscribe_found s comp comp cid c e (ap (find_component cid) g.components ∙ f)

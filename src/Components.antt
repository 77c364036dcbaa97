-- ===== src/Components.antt =====
-- mqtt/component_subscriptions.py, and the stop of a component in mqtt/client.py: which command topics
-- of components are subscribed and handled. The locks make each call atomic.
pub mod Cycle
pub mod Loader
pub mod Start
mod Tests
use lucid_agent_core.Prelude.{
  ℕ, String, Bool, true, false, Option, none, some, List, [], ◌∷◌, ◌++◌, contains, discard, ◌==◌,
  ◌<>◌, if◌then◌else◌,
}
use lucid_agent_core.Prelude.Dict.{Dict, lookup, insert, erase}
use lucid_agent_core.Prelude.Errors.{Exn, Outcome, ok, raise}
use lucid_agent_core.Prelude.Json.{Value, bool, Fields, get}
use lucid_agent_core.Prelude.Text.{replace_char}
use lucid_agent_core.Topics.{TopicSchema, component_cmd, component_topic}

-- A component object: its list of capabilities, if it has that method, and whether it has a callable
-- attribute of a name.
pub record Component : Type 0 where
  pub component_id : String
  pub capabilities : Option (List String)
  pub has_method : String → Bool

-- A handler, by the component and the action that `_make_cmd_handler` was given.
pub record Handler : Type 0 where
  pub component_id : String
  pub action : String

pub record Client : Type 0 where
  pub connected : Bool
  pub topics : TopicSchema
  pub components : List Component
  pub handlers : Dict Handler
  -- `_component_cmd_topics`
  pub tracked : Dict (List String)
  -- what the broker was told
  pub subscribed : List String

abbrev pub action_to_method_name : String → String
action_to_method_name action = "on_cmd_" <> replace_char 45 "_" (replace_char 47 "_" action)

abbrev pub tracked_topics : Client → String → List String
tracked_topics s component_id = elim (lookup component_id s.tracked) [ none ↦ [] | some ts ↦ ts ]

-- `handlers[topic] = …`, `subscribe` and `topics_for_cid.add`
unfoldable pub add_handler : Client → String → String → String → Client
add_handler s component_id action topic = record s {
  handlers = insert topic (record { component_id = component_id; action = action }) s.handlers;
  tracked = insert component_id (topic ∷ tracked_topics s component_id) s.tracked;
  subscribed = topic ∷ s.subscribed;
}

-- A topic that has a handler keeps it.
unfoldable pub add_topic : Client → String → String → String → Client
unfolding add_handler
add_topic s component_id action topic = elim (lookup topic s.handlers) [
  | some _ ↦ s
  | none ↦ add_handler s component_id action topic
]

-- A topic that cannot be built is skipped.
try_topic : Client → String → String → Outcome String → Client
unfolding add_topic
try_topic s component_id action (ok topic) = add_topic s component_id action topic
try_topic s component_id action (raise _) = s

-- The loop over the capabilities.
unfoldable pub subscribe_actions : Component → String → List String → Client → Client
unfolding try_topic
subscribe_actions comp component_id [] s = s
subscribe_actions comp component_id (action ∷ actions) s =
    subscribe_actions comp component_id actions (
      if comp.has_method (action_to_method_name action)
      then try_topic s component_id action (component_cmd s.topics component_id action)
      else s)

abbrev pub cfg_actions : List (String × String)
cfg_actions =
    ("cfg/set", "on_cmd_cfg_set")
    ∷ ("cfg/logging/set", "on_cmd_cfg_logging_set")
    ∷ ("cfg/telemetry/set", "on_cmd_cfg_telemetry_set")
    ∷ []

-- Here a topic that cannot be built is an exception.
cfg_topic : Client → String → String → Outcome String → Outcome (Unit {0}) × Client
unfolding add_topic
cfg_topic s component_id action (ok topic) = (ok tt, add_topic s component_id action topic)
cfg_topic s component_id action (raise x) = (raise x, s)

after_cfg :
    (Client → Outcome (Unit {0}) × Client)
    → Outcome (Unit {0}) × Client
    → Outcome (Unit {0}) × Client
after_cfg rest (ok _, s) = rest s
after_cfg rest (raise x, s) = (raise x, s)

-- The loop over the three `cfg` actions.
unfoldable pub subscribe_cfg :
    Component → String → List (String × String) → Client → Outcome (Unit {0}) × Client
unfolding cfg_topic after_cfg
subscribe_cfg comp component_id [] s = (ok tt, s)
subscribe_cfg comp component_id ((action, attr_name) ∷ actions) s =
    after_cfg (subscribe_cfg comp component_id actions) (
      if comp.has_method attr_name
      then cfg_topic s component_id action
          (component_topic s.topics component_id ("cmd/" <> action))
      else (ok tt, s))

abbrev pub cap_list : Component → List String
cap_list comp = elim comp.capabilities [ none ↦ [] | some caps ↦ caps ]

unfoldable pub subscribe_component_topics :
    Component → String → Client → Outcome (Unit {0}) × Client
unfolding subscribe_actions subscribe_cfg
subscribe_component_topics comp component_id s =
    if s.connected
    then subscribe_cfg comp component_id cfg_actions (
        subscribe_actions comp component_id (cap_list comp)
          (record s { tracked = insert component_id (tracked_topics s component_id) s.tracked }))
    else (ok tt, s)

-- The loop of `unsubscribe_component_topics`, where paho's `unsubscribe` may raise for a topic.
unfoldable pub unsubscribe : (String → Bool) → List String → Client → Client
unsubscribe fails [] s = s
unsubscribe fails (topic ∷ topics) s = unsubscribe fails topics (elim (lookup topic s.handlers) [
  | none ↦ s
  | some _ ↦
      if fails topic
      then s
      else record s { handlers = erase topic s.handlers; subscribed = discard s.subscribed topic }
])

unfoldable pub unsubscribe_component_topics : (String → Bool) → List String → Client → Client
unfolding unsubscribe
unsubscribe_component_topics fails topics s = if s.connected then unsubscribe fails topics s else s

-- `get_component`
unfoldable pub find_component : String → List Component → Option Component
find_component component_id [] = none
find_component component_id (comp ∷ comps) =
    if comp.component_id == component_id then some comp else find_component component_id comps

-- `stop_component`, where the component's own `stop` returns or raises.
unfoldable pub stop_component : (String → Bool) → Bool → String → Client → Bool × Client
unfolding unsubscribe_component_topics find_component
stop_component fails stops component_id s = elim (find_component component_id s.components) [
  | none ↦ (false, s)
  | some _ ↦
      if stops
      then (
        true,
        unsubscribe_component_topics fails (tracked_topics s component_id)
            (record s { tracked = erase component_id s.tracked }),
      )
      else (false, s)
]

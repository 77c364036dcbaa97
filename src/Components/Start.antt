-- ===== src/Components/Start.antt =====
-- mqtt/client.py, `add_component_handlers` and `_start_component_locked`, and `add_component_handlers` of
-- mqtt/component_subscriptions.py. The locks make each call atomic.
pub mod Reverse
use lucid_agent_core.Prelude.{
  String, Bool, true, false, Option, none, some, List, [], ◌∷◌, ◌++◌, ◌==◌, if◌then◌else◌,
}
use lucid_agent_core.Prelude.Dict.{lookup}
use lucid_agent_core.Prelude.Errors.{Outcome, ok, raise}
use lucid_agent_core.Prelude.Json.{Value, bool, Fields, get}
use lucid_agent_core.Registry.{Registry}
use lucid_agent_core.Components.{Component, Client, subscribe_component_topics, find_component}
use lucid_agent_core.Components.Loader.{Runtime, load_single_component}

-- `meta.get("enabled") is False`
unfoldable pub is_disabled : Fields → Bool
is_disabled meta = elim (get "enabled" meta) [
  | none ↦ false
  | some v ↦ elim v [ bool b ↦ if b then false else true | _ ↦ false ]
]

-- `cid in registry and registry[cid].get("enabled") is False`
skipped : Registry → String → Bool
unfolding is_disabled
skipped reg cid = elim (lookup cid reg) [ none ↦ false | some meta ↦ is_disabled meta ]

after_one :
    (Client → Outcome (Unit {0}) × Client)
    → Outcome (Unit {0}) × Client
    → Outcome (Unit {0}) × Client
after_one rest (ok _, s) = rest s
after_one rest (raise x, s) = (raise x, s)

-- The loop of `add_component_handlers`.
subscribe_all : Registry → List Component → Client → Outcome (Unit {0}) × Client
unfolding skipped after_one subscribe_component_topics
subscribe_all reg [] s = (ok tt, s)
subscribe_all reg (comp ∷ comps) s = after_one (subscribe_all reg comps) (
    if comp.component_id == ""
    then (ok tt, s)
    else if skipped reg comp.component_id
    then (ok tt, s)
    else subscribe_component_topics comp comp.component_id s)

unfoldable pub add_component_handlers :
    List Component → Registry → Client → Outcome (Unit {0}) × Client
unfolding subscribe_all
add_component_handlers components reg s =
    let s' = record s { components = components } in
    if s.connected then subscribe_all reg components s' else (ok tt, s')

-- `ComponentStatus`
pub data Status : Type 0 where
  running stopped failed starting stopping : Status

-- The answer once the topics are subscribed: outside a `try`, and inside one.
unguarded : Outcome (Unit {0}) × Client → Outcome Bool × Client
unguarded (ok _, s) = (ok true, s)
unguarded (raise x, s) = (raise x, s)

guarded : Outcome (Unit {0}) × Client → Outcome Bool × Client
guarded (ok _, s) = (ok true, s)
guarded (raise _, s) = (ok false, s)

module _ (r : Runtime) where
  start_new : String → Component → Outcome (Unit {0}) → Client → Outcome Bool × Client
  unfolding guarded subscribe_component_topics
  start_new component_id comp (raise _) s = (ok false, s)
  start_new component_id comp (ok _) s = guarded (subscribe_component_topics comp component_id s)

  -- The dynamic loading.
  load_and_start : String → Outcome (Option Component) → Client → Outcome Bool × Client
  unfolding start_new
  load_and_start component_id (raise _) s = (ok false, s)
  load_and_start component_id (ok none) s = (ok false, s)
  load_and_start component_id (ok (some comp)) s = elim (r.start comp) [
    | raise _ ↦ (ok false, s)
    | ok _ ↦
        start_new component_id comp (ok tt) (record s { components = s.components ++ comp ∷ [] })
  ]

  -- A component in memory, by its status, if it has one.
  start_found : String → Component → Option Status → Client → Outcome Bool × Client
  unfolding start_new unguarded subscribe_component_topics
  start_found component_id comp (some running) s =
      unguarded (subscribe_component_topics comp component_id s)
  start_found component_id comp (some starting) s = (ok false, s)
  start_found component_id comp (some stopping) s = (ok false, s)
  start_found component_id comp _ s = start_new component_id comp (r.start comp) s

  start_known :
      String
      → (Component → Option Status)
      → Fields
      → Option Component
      → Client
      → Outcome Bool × Client
  unfolding start_found load_and_start load_single_component
  start_known component_id status meta (some comp) s = start_found component_id comp (status comp) s
  start_known component_id status meta none s =
      load_and_start component_id (load_single_component r component_id meta) s

  start_entry :
      String → (Component → Option Status) → Option Fields → Client → Outcome Bool × Client
  unfolding start_known is_disabled find_component
  start_entry component_id status none s = (ok false, s)
  start_entry component_id status (some meta) s =
      if is_disabled meta
      then (ok false, s)
      else start_known component_id status meta (find_component component_id s.components) s

  -- `start_component`, for the registry it is given, and what a read of the registry would answer.
  unfoldable pub start_component :
      String
      → (Component → Option Status)
      → Registry
      → Outcome Registry
      → Client
      → Outcome Bool × Client
  unfolding start_entry
  start_component component_id status [] (raise x) s = (raise x, s)
  start_component component_id status [] (ok reg) s =
      start_entry component_id status (lookup component_id reg) s
  start_component component_id status reg _ s =
      start_entry component_id status (lookup component_id reg) s

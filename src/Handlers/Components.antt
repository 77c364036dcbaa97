-- ===== src/Handlers/Components.antt =====
-- core/handlers/component_handlers.py: enabling and disabling a component.
use lucid_agent_core.Prelude.{String, Bool, true, false, Option, none, some, if◌then◌else◌}
use lucid_agent_core.Prelude.Dict.{lookup, insert}
use lucid_agent_core.Prelude.Errors.{type_error, Outcome, ok, raise}
use lucid_agent_core.Prelude.Json.{Value, bool, str, list, dict, Fields, put}
use lucid_agent_core.Config.Apply.{is_falsy}
use lucid_agent_core.Config.Store.{File}
use lucid_agent_core.Registry.{Registry, write_registry}
use lucid_agent_core.Upgrade.{World}
use lucid_agent_core.Snapshots.{get_or, build_components_list}
use lucid_agent_core.Topics.{Command, components_enable, components_disable}
use lucid_agent_core.Handlers.{
  Setup, Action, component_started, component_stopped, Manager, return, lift, call, emit, attempt,
  on_world, ◌>>=◌, result, publish, publish_result, result_topic, parse_payload, check_duplicate,
  unless_duplicate, read_registry,
}
use lucid_agent_core.Handlers.Simple.{publish_retained_state}

-- `registry[component_id]`, if the id is in the registry: a list or dict has no hash.
unfoldable pub find_entry : Registry → Value → Outcome (Option (String × Fields))
find_entry reg (str cid) = elim (lookup cid reg) [
  | none ↦ ok none
  | some entry ↦ ok (some (cid, entry))
]
find_entry reg (list _) = raise type_error
find_entry reg (dict _) = raise type_error
find_entry reg _ = ok none

abbrev pub filed : World → Outcome (Unit {0}) × File → Outcome (Unit {0}) × World
filed w (o, file) = (o, record w { registry_file = file })

module _ (s : Setup) where
  -- `write_registry(registry)`
  abbrev pub store_registry : Registry → Action (Unit {0})
  store_registry reg =
      on_world (λ w. filed w (write_registry s.env.write_fault reg w.registry_file))

  -- The entry with `enabled`, in the registry.
  abbrev pub with_enabled : Bool → String → Fields → Registry → Registry
  with_enabled b cid entry reg = insert cid (put "enabled" (bool b) entry) reg

  unfoldable pub start_with : Option Manager → String → Registry → Action (Unit {0})
  start_with none cid reg = return tt
  start_with (some m) cid reg = do
    started ← call (λ es. m.start_component es cid reg)
    emit (component_started cid started)

  unfoldable pub stop_with : Option Manager → String → Action (Unit {0})
  stop_with none cid = return tt
  stop_with (some m) cid = do
    stopped ← call (λ es. m.stop_component es cid)
    emit (component_stopped cid stopped)

  -- The state and the result.
  unfoldable pub report : Command → Value → Registry → Action (Unit {0})
  unfolding publish publish_retained_state
  report c rid reg = do
    _ ← publish_retained_state s (build_components_list reg)
    publish s (result (result_topic s c) rid true)

  unfoldable pub enable : Value → String → Fields → Registry → Action (Unit {0})
  unfolding start_with report
  enable rid cid entry reg = do
    _ ← store_registry (with_enabled true cid entry reg)
    _ ← start_with s.manager cid (with_enabled true cid entry reg)
    report components_enable rid (with_enabled true cid entry reg)

  unfoldable pub disable : Value → String → Fields → Registry → Action (Unit {0})
  unfolding stop_with report
  disable rid cid entry reg = do
    _ ← stop_with s.manager cid
    _ ← store_registry (with_enabled false cid entry reg)
    report components_disable rid (with_enabled false cid entry reg)

  unfoldable pub refuse : Command → Value → Action (Unit {0})
  unfolding publish_result
  refuse c rid = publish_result s (result_topic s c) rid false

  unfoldable pub found :
      Command
      → Value
      → (String → Fields → Registry → Action (Unit {0}))
      → Registry
      → Option (String × Fields)
      → Action (Unit {0})
  unfolding refuse
  found c rid act reg none = refuse c rid
  found c rid act reg (some (cid, entry)) = act cid entry reg

  -- What both handlers have in common, with what they do to the entry.
  unfoldable pub switch_with :
      Command
      → (Value → String → Fields → Registry → Action (Unit {0}))
      → String
      → Action (Unit {0})
  unfolding check_duplicate found refuse find_entry
  switch_with c act raw = do
    payload ← lift (parse_payload s raw)
    rid ← return (get_or "request_id" (str "") payload)
    component_id ← return (get_or "component_id" (str "") payload)
    unless_duplicate s rid c (
        if is_falsy component_id
        then refuse c rid
        else attempt
            (do
              reg ← read_registry s
              entry ← lift (find_entry reg component_id)
              found c rid (act rid) reg entry)
            (λ _. refuse c rid))

  unfoldable pub on_components_enable : String → Action (Unit {0})
  unfolding switch_with enable
  on_components_enable = switch_with components_enable enable

  unfoldable pub on_components_disable : String → Action (Unit {0})
  unfolding switch_with disable
  on_components_disable = switch_with components_disable disable

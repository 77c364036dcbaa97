-- ===== src/Handlers/Upgrades.antt =====
-- core/handlers: install_handler.py, uninstall_handler.py and upgrade_handler.py.
use lucid_agent_core.Prelude.{String, Bool, true, false, ◌&&◌, none, some, if◌then◌else◌}
use lucid_agent_core.Prelude.Dict.{lookup, insert}
use lucid_agent_core.Prelude.Json.{Value, str, end, put}
use lucid_agent_core.Registry.{Registry}
use lucid_agent_core.Upgrade.Install.{handle_install_component}
use lucid_agent_core.Upgrade.Uninstall.{handle_uninstall_component}
use lucid_agent_core.Upgrade.Component.{handle_component_upgrade}
use lucid_agent_core.Upgrade.Component
use lucid_agent_core.Upgrade.Core.{handle_core_upgrade}
use lucid_agent_core.Snapshots.{build_components_list}
use lucid_agent_core.Topics.{
  Command, components_install, components_uninstall, components_upgrade, core_upgrade,
}
use lucid_agent_core.Handlers.{
  Setup, Action, install_result, uninstall_result, upgrade_result, core_result, return, lift,
  attempt, on_world, ◌>>=◌, publish, publish_result, result_topic, request_id, check_duplicate,
  unless_duplicate, read_registry, request_restart, flush,
}
use lucid_agent_core.Handlers.Simple.{publish_retained_state, publish_component_metadata}

-- `registry[id] = registry.get(id, {})`, and its version. The id of a result that is ok is a text.
unfoldable pub with_version : Value → Value → Registry → Registry
with_version (str cid) version reg =
    insert cid (put "version" version (elim (lookup cid reg) [ none ↦ end | some entry ↦ entry ]))
      reg
with_version _ version reg = reg

module _ (s : Setup) where
  -- `wait_for_publish` and the restart: for an installation they fail together.
  unfoldable pub restart_once_flushed : Bool → Action (Unit {0})
  unfolding flush request_restart
  restart_once_flushed false = return tt
  restart_once_flushed true =
      attempt (do _ ← flush s; _ ← request_restart s; return tt) (λ _. return tt)

  -- For an upgrade the restart follows in any case.
  unfoldable pub restart_after_flush : Bool → Action (Unit {0})
  unfolding flush request_restart
  restart_after_flush false = return tt
  restart_after_flush true = do
    _ ← attempt (flush s) (λ _. return tt)
    _ ← request_restart s
    return tt

  -- The handlers' common shape: the id, the guard, the body, and the answer to what the body raises.
  unfoldable pub guarded : Command → (String → Action (Unit {0})) → String → Action (Unit {0})
  unfolding check_duplicate publish_result
  guarded c body raw = do
    rid ← lift (request_id s raw)
    unless_duplicate s rid c (
        attempt (body raw)
          (λ _. do rid ← lift (request_id s raw); publish_result s (result_topic s c) rid false))

  -- The state, from the registry as it is now.
  abbrev pub publish_current_state : Action (Unit {0})
  publish_current_state = do
    reg ← read_registry s
    publish_retained_state s (build_components_list reg)

  unfoldable pub install_component : String → Action (Unit {0})
  unfolding publish publish_retained_state restart_once_flushed
  install_component raw = do
    r ← on_world (handle_install_component s.env raw)
    _ ← publish s (install_result (result_topic s components_install) r)
    _ ← publish_current_state
    restart_once_flushed (r.accepted && r.restart_required)

  unfoldable pub uninstall_component : String → Action (Unit {0})
  unfolding publish publish_retained_state restart_once_flushed
  uninstall_component raw = do
    r ← on_world (handle_uninstall_component s.env raw)
    _ ← publish s (uninstall_result (result_topic s components_uninstall) r)
    _ ← publish_current_state
    restart_once_flushed (r.accepted && r.restart_required)

  -- The component's metadata, of an upgrade that was accepted.
  unfoldable pub new_metadata : Component.UpgradeResult → Action (Unit {0})
  unfolding publish_component_metadata
  new_metadata r = elim r.accepted [
    | false ↦ return tt
    | true ↦ elim r.component_id [
      | str cid ↦ publish_component_metadata s cid r.version
      | _ ↦ return tt
    ]
  ]

  unfoldable pub upgrade_component : String → Action (Unit {0})
  unfolding publish publish_retained_state restart_after_flush new_metadata with_version
  upgrade_component raw = do
    r ← on_world (handle_component_upgrade s.env raw)
    _ ← publish s (upgrade_result (result_topic s components_upgrade) r)
    reg ← read_registry s
    _ ← publish_retained_state s (
        build_components_list
          (if r.accepted then with_version r.component_id r.version reg else reg))
    _ ← new_metadata r
    restart_after_flush (r.accepted && r.restart_required)

  unfoldable pub upgrade_core : String → Action (Unit {0})
  unfolding publish restart_after_flush
  upgrade_core raw = do
    r ← on_world (handle_core_upgrade s.env s.reader raw)
    _ ← publish s (core_result (result_topic s core_upgrade) r)
    restart_after_flush (r.succeeded && r.restart_required)

  unfoldable pub on_components_install : String → Action (Unit {0})
  unfolding guarded install_component
  on_components_install = guarded components_install install_component

  unfoldable pub on_components_uninstall : String → Action (Unit {0})
  unfolding guarded uninstall_component
  on_components_uninstall = guarded components_uninstall uninstall_component

  unfoldable pub on_components_upgrade : String → Action (Unit {0})
  unfolding guarded upgrade_component
  on_components_upgrade = guarded components_upgrade upgrade_component

  unfoldable pub on_core_upgrade : String → Action (Unit {0})
  unfolding guarded upgrade_core
  on_core_upgrade = guarded core_upgrade upgrade_core

-- ===== src/Handlers/Simple.antt =====
-- core/handlers: ping_handler.py, restart_handler.py and refresh_handler.py; mqtt/retained.py.
use lucid_agent_core.Prelude.{String, true, false, none, some, [], ◌∷◌, if◌then◌else◌}
use lucid_agent_core.Prelude.Errors.{Outcome, ok}
use lucid_agent_core.Prelude.Json.{Value, str, list, nil, Items, Fields, end, field, dict}
use lucid_agent_core.Config.Store.{get_cached}
use lucid_agent_core.Registry.{Registry}
use lucid_agent_core.Snapshots.{
  get_or, build_components_list, build_state, build_cfg, build_cfg_logging, build_cfg_telemetry,
}
use lucid_agent_core.Snapshots.Schema.{build_agent_schema}
use lucid_agent_core.Topics.{ping, restart, refresh, Retained, retained_topic, component_topic}
use lucid_agent_core.Handlers.{
  Setup, Action, return, attempt, lift, ask, ◌>>=◌, publish, publish_result, result_topic,
  request_id, check_duplicate, unless_duplicate, request_restart, read_registry, retained,
  retained_metrics,
}

module _ (s : Setup) where
  unfoldable pub on_ping : String → Action (Unit {0})
  unfolding check_duplicate publish_result
  on_ping raw = do
    rid ← lift (request_id s raw)
    unless_duplicate s rid ping (publish_result s (result_topic s ping) rid true)

  unfoldable pub on_restart : String → Action (Unit {0})
  unfolding check_duplicate publish_result request_restart
  on_restart raw = do
    rid ← lift (request_id s raw)
    unless_duplicate s rid restart
        (do sent ← request_restart s; publish_result s (result_topic s restart) rid sent)

  abbrev pub publish_retained : Retained → Value → Action (Unit {0})
  publish_retained r v = publish s (retained (retained_topic s.topics r) v)

  -- The capabilities of a component, where there is a manager.
  abbrev pub capabilities_of : String → Outcome Value
  capabilities_of component_id = elim s.manager [
    | none ↦ ok (list nil)
    | some m ↦ m.capabilities component_id
  ]

  -- `_publish_component_metadata`: only the publish is guarded.
  unfoldable pub publish_component_metadata : String → Value → Action (Unit {0})
  unfolding publish component_topic
  publish_component_metadata component_id version = do
    capabilities ← lift (capabilities_of component_id)
    attempt
        (do
          topic ← lift (component_topic s.topics component_id "metadata")
          publish s (
              retained topic (
                dict (
                  field "component_id" (str component_id)
                    (field "version" version (field "capabilities" capabilities end))))))
        (λ _. return tt)

  -- `publish_retained_state`
  unfoldable pub publish_retained_state : Items → Action (Unit {0})
  unfolding publish
  publish_retained_state components = publish_retained Retained.state (build_state components)

  -- The configuration's three topics.
  unfoldable pub publish_cfgs_of : Fields → Action (Unit {0})
  unfolding publish
  publish_cfgs_of raw_cfg = do
    cfg ← lift (build_cfg s.convert raw_cfg)
    _ ← publish_retained Retained.cfg cfg
    _ ← publish_retained Retained.cfg_logging (build_cfg_logging s.convert raw_cfg)
    metrics ← lift (build_cfg_telemetry s.convert raw_cfg)
    publish s (retained_metrics (retained_topic s.topics Retained.cfg_telemetry) metrics)

  unfoldable pub publish_cfgs : Action (Unit {0})
  unfolding publish_cfgs_of
  publish_cfgs = do raw_cfg ← ask (λ a. get_cached a.store); publish_cfgs_of raw_cfg

  unfoldable pub publish_status : Action (Unit {0})
  unfolding publish
  publish_status = do status ← ask (λ a. s.status a.events); publish_retained Retained.status status

  -- `publish_retained_refresh`
  unfoldable pub publish_retained_refresh : Items → Action (Unit {0})
  unfolding publish publish_cfgs publish_status
  publish_retained_refresh components = do
    _ ← publish_retained Retained.metadata s.metadata
    _ ← λ a. publish_retained Retained.status (s.status a.events) a
    _ ← publish_retained Retained.state (build_state components)
    _ ← publish_cfgs
    publish_retained Retained.schema build_agent_schema

  -- What `on_refresh` does with a publisher that cannot refresh by itself.
  unfoldable pub refresh_here : Items → Action (Unit {0})
  unfolding publish publish_cfgs
  refresh_here components = do
    _ ← publish_retained Retained.metadata s.metadata
    _ ← publish_retained Retained.state (build_state components)
    publish_cfgs

  -- The loop over the registry.
  unfoldable pub publish_all_metadata : Registry → Action (Unit {0})
  unfolding publish_component_metadata
  publish_all_metadata [] = return tt
  publish_all_metadata ((cid, meta) ∷ reg) = do
    _ ← publish_component_metadata cid (get_or "version" (str "?") meta)
    publish_all_metadata reg

  unfoldable pub refresh_all : Action (Unit {0})
  unfolding publish_retained_refresh refresh_here publish_all_metadata
  refresh_all = do
    registry ← read_registry s
    _ ←
        if s.refreshes
        then publish_retained_refresh (build_components_list registry)
        else refresh_here (build_components_list registry)
    publish_all_metadata registry

  unfoldable pub on_refresh : String → Action (Unit {0})
  unfolding check_duplicate publish_result refresh_all
  on_refresh raw = do
    rid ← lift (request_id s raw)
    unless_duplicate s rid refresh (
        attempt (do _ ← refresh_all; publish_result s (result_topic s refresh) rid true)
          (λ _. publish_result s (result_topic s refresh) rid false))

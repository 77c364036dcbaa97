-- ===== src/Handlers/Settings.antt =====
-- core/handlers/config_handlers.py.
use lucid_agent_core.Prelude.{String, Bool, true, false, inl, inr, Option, none, some}
use lucid_agent_core.Prelude.Errors.{Outcome}
use lucid_agent_core.Prelude.Json.{Value, str, Fields, get}
use lucid_agent_core.Config.Apply.{
  ApplyResult, Applied, apply_set_general, apply_set_logging, apply_set_telemetry,
}
use lucid_agent_core.Config.Store.{ConfigStore}
use lucid_agent_core.Config.Store
use lucid_agent_core.Snapshots.{get_or, to_int, build_cfg, build_cfg_logging, build_cfg_telemetry}
use lucid_agent_core.Topics.{
  Command, cfg_set, cfg_logging_set, cfg_telemetry_set, Retained, retained_topic,
}
use lucid_agent_core.Handlers.{
  Setup, Action, Agent, heartbeat_set, log_level_applied, return, lift, emit, ◌>>=◌, publish,
  cfg_result, retained, retained_metrics, result_topic, parse_payload, check_duplicate,
  unless_duplicate,
}

-- Whether a result is ok.
abbrev pub is_ok : ApplyResult → Bool
is_ok r = elim r.verdict [ inl _ ↦ true | inr _ ↦ false ]

module _ (s : Setup) where
  stored : Agent → Applied → Outcome (Fields × ApplyResult) × Agent
  stored a (o, store) = (o, record a { store = store })

  -- A call of the store.
  unfoldable pub apply_set :
      (ConfigStore → Store.WriteFault → Fields → Applied) → Fields → Action (Fields × ApplyResult)
  unfolding stored
  apply_set method payload a = stored a (method a.store (s.config_fault a.events) payload)

  -- What follows an accepted change.
  unfoldable pub announce : (Fields → Action (Unit {0})) → Fields → ApplyResult → Action (Unit {0})
  announce act new_cfg r = elim (is_ok r) [ true ↦ act new_cfg | false ↦ return tt ]

  -- The three handlers, by their command, the method of the store and what follows a change.
  unfoldable pub set_with :
      Command
      → (ConfigStore → Store.WriteFault → Fields → Applied)
      → (Fields → Action (Unit {0}))
      → String
      → Action (Unit {0})
  unfolding check_duplicate apply_set announce publish
  set_with c method act raw = do
    payload ← lift (parse_payload s raw)
    rid ← return (get_or "request_id" (str "") payload)
    unless_duplicate s rid c (do
      cfg_and_result ← apply_set method payload
      _ ← announce act cfg_and_result.0 cfg_and_result.1
      publish s (cfg_result (result_topic s c) rid cfg_and_result.1))

  -- `ctx.mqtt.set_heartbeat_interval(int(new_cfg["heartbeat_s"]))`
  unfoldable pub set_heartbeat : Option Value → Action (Unit {0})
  set_heartbeat none = return tt
  set_heartbeat (some v) = do z ← lift (to_int s.convert v); emit (heartbeat_set z)

  unfoldable pub after_general : Fields → Action (Unit {0})
  unfolding publish set_heartbeat
  after_general new_cfg = do
    cfg ← lift (build_cfg s.convert new_cfg)
    _ ← publish s (retained (retained_topic s.topics Retained.cfg) cfg)
    set_heartbeat (get "heartbeat_s" new_cfg)

  unfoldable pub after_logging : Fields → Action (Unit {0})
  unfolding publish
  after_logging new_cfg = do
    _ ← emit (log_level_applied new_cfg)
    publish s (
        retained (retained_topic s.topics Retained.cfg_logging)
          (build_cfg_logging s.convert new_cfg))

  unfoldable pub after_telemetry : Fields → Action (Unit {0})
  unfolding publish
  after_telemetry new_cfg = do
    metrics ← lift (build_cfg_telemetry s.convert new_cfg)
    publish s (retained_metrics (retained_topic s.topics Retained.cfg_telemetry) metrics)

  unfoldable pub on_cfg_set : String → Action (Unit {0})
  unfolding set_with after_general
  on_cfg_set = set_with cfg_set apply_set_general after_general

  unfoldable pub on_cfg_logging_set : String → Action (Unit {0})
  unfolding set_with after_logging
  on_cfg_logging_set = set_with cfg_logging_set apply_set_logging after_logging

  unfoldable pub on_cfg_telemetry_set : String → Action (Unit {0})
  unfolding set_with after_telemetry
  on_cfg_telemetry_set = set_with cfg_telemetry_set apply_set_telemetry after_telemetry

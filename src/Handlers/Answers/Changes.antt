-- ===== src/Handlers/Answers/Changes.antt =====
-- The handlers of core/handlers that change the configuration or the registry answer the command.
use lucid_agent_core.Prelude.{String, ◌≡◌, refl, Bool, true, false, Option, none, some, List}
use lucid_agent_core.Prelude.Json.{Value, str, Fields}
use lucid_agent_core.Registry.{Registry, write_registry}
use lucid_agent_core.Topics.{Command}
use lucid_agent_core.Snapshots.{build_cfg_logging, build_cfg, build_cfg_telemetry, to_int, get_or}
use lucid_agent_core.Config.Apply.{is_falsy, ApplyResult, Applied}
use lucid_agent_core.Config.Store.{ConfigStore}
use lucid_agent_core.Config.Store
use lucid_agent_core.Handlers.{
  Retained, retained_topic, retained, component_stopped, component_started, heartbeat_set,
  log_level_applied, Manager, Setup, Action, Event, Message, return, result_topic, parse_payload,
}
use lucid_agent_core.Handlers.Settings.{
  is_ok, set_with, apply_set, announce, set_heartbeat, after_general, after_logging,
  after_telemetry,
}
use lucid_agent_core.Handlers.Components.{
  switch_with, start_with, stop_with, with_enabled, store_registry, filed, report, enable, disable,
  refuse, found, find_entry,
}
use lucid_agent_core.Handlers.Answers.Compound.{publish_retained_state-Keeps, read_registry-Keeps}
use lucid_agent_core.Handlers.Answers.{
  arith, result_on, Keeps, Answers, emit-Keeps, bind-Keeps, on_world-Keeps, bind-When,
  attempt-Answers,
}
use lucid_agent_core.Handlers.Answers.Each.{
  return-Keeps, lift-Keeps, call-Keeps, if-Answers, publish-Keeps, publish-Answers,
  publish_result-Keeps, publish_result-Answers, unless_duplicate-Answers,
}

module _ (s : Setup) where
  set_heartbeat-Keeps : (t : String) (o : Option Value) → Keeps t (set_heartbeat s o)
  unfolding set_heartbeat
  set_heartbeat-Keeps t none = return-Keeps s t tt
  set_heartbeat-Keeps t (some v) =
      bind-Keeps t (lift-Keeps s t (to_int s.convert v)) (λ z. emit-Keeps t (heartbeat_set z))

  pub after_general-Keeps : (t : String) (cfg : Fields) → Keeps t (after_general s cfg)
  unfolding after_general
  after_general-Keeps t cfg =
      bind-Keeps t (lift-Keeps s t (build_cfg s.convert cfg))
        (λ v. bind-Keeps t (publish-Keeps s t _) (λ _. set_heartbeat-Keeps t _))

  pub after_logging-Keeps : (t : String) (cfg : Fields) → Keeps t (after_logging s cfg)
  unfolding after_logging
  after_logging-Keeps t cfg = bind-Keeps t (emit-Keeps t (log_level_applied cfg)) (λ _.
      publish-Keeps s t
        (retained (retained_topic s.topics Retained.cfg_logging) (build_cfg_logging s.convert cfg)))

  pub after_telemetry-Keeps : (t : String) (cfg : Fields) → Keeps t (after_telemetry s cfg)
  unfolding after_telemetry
  after_telemetry-Keeps t cfg =
      bind-Keeps t (lift-Keeps s t (build_cfg_telemetry s.convert cfg)) (λ v. publish-Keeps s t _)

  announce-Keeps :
      (t : String) (act : Fields → Action (Unit {0})) (cfg : Fields) (r : ApplyResult)
      → ((cfg : Fields) → Keeps t (act cfg))
      → Keeps t (announce s act cfg r)
  unfolding announce
  announce-Keeps t act cfg r k = go (is_ok r)
    where
      go : (b : Bool) → Keeps t (elim b [ true ↦ act cfg | false ↦ return tt ])
      go true = k cfg
      go false = return-Keeps s t tt

  apply_set-Keeps :
      (t : String) (method : ConfigStore → Store.WriteFault → Fields → Applied) (d : Fields)
      → Keeps t (apply_set s method d)
  unfolding apply_set
  apply_set-Keeps t method d = record { keeps = λ a. omega arith }

  pub set_with-Answers :
      (c : Command) (method : ConfigStore → Store.WriteFault → Fields → Applied)
      (act : Fields → Action (Unit {0})) (raw : String)
      → ((cfg : Fields) → Keeps (result_topic s c) (act cfg))
      → Answers (result_topic s c) (set_with s c method act raw)
  unfolding set_with result_on
  set_with-Answers c method act raw k =
      let t = result_topic s c in
      bind-When t (lift-Keeps s t (parse_payload s raw)) (λ payload.
        unless_duplicate-Answers s t (get_or "request_id" (str "") payload) c _ refl (
          bind-When t (apply_set-Keeps t method payload)
            (λ x. bind-When t (announce-Keeps t act x.0 x.1 k) (λ _. publish-Answers s t _ refl))))

  start_with-Keeps :
      (t : String) (o : Option Manager) (cid : String) (reg : Registry)
      → Keeps t (start_with s o cid reg)
  unfolding start_with
  start_with-Keeps t none cid reg = return-Keeps s t tt
  start_with-Keeps t (some m) cid reg =
      bind-Keeps t (call-Keeps s t (λ es. m.start_component es cid reg))
        (λ b. emit-Keeps t (component_started cid b))

  stop_with-Keeps : (t : String) (o : Option Manager) (cid : String) → Keeps t (stop_with s o cid)
  unfolding stop_with
  stop_with-Keeps t none cid = return-Keeps s t tt
  stop_with-Keeps t (some m) cid =
      bind-Keeps t (call-Keeps s t (λ es. m.stop_component es cid))
        (λ b. emit-Keeps t (component_stopped cid b))

  report-Answers :
      (c : Command) (rid : Value) (reg : Registry) → Answers (result_topic s c) (report s c rid reg)
  unfolding report result_on
  report-Answers c rid reg =
      let t = result_topic s c in
      bind-When t (publish_retained_state-Keeps s t _) (λ _. publish-Answers s t _ refl)

  report-Keeps :
      (t : String) (c : Command) (rid : Value) (reg : Registry) → Keeps t (report s c rid reg)
  unfolding report
  report-Keeps t c rid reg =
      bind-Keeps t (publish_retained_state-Keeps s t _) (λ _. publish-Keeps s t _)

  store_registry-Keeps : (t : String) (reg : Registry) → Keeps t (store_registry s reg)
  store_registry-Keeps t reg =
      on_world-Keeps t (λ w. filed w (write_registry s.env.write_fault reg w.registry_file))

  -- What changes an entry answers in the end, and loses no result.
  abbrev pub AnswersAt : Command → (Value → String → Fields → Registry → Action (Unit {0})) → Type 0
  AnswersAt c act =
      (rid : Value) (cid : String) (entry : Fields) (reg : Registry)
      → Answers (result_topic s c) (act rid cid entry reg)
        × Keeps (result_topic s c) (act rid cid entry reg)

  pub enable-Answers : AnswersAt Command.components_enable (enable s)
  unfolding enable
  enable-Answers rid cid entry reg =
      let c = Command.components_enable in
      let t = result_topic s c in
      let reg' = with_enabled s true cid entry reg in
      (
        bind-When t (store_registry-Keeps t reg') (λ _.
            bind-When t (start_with-Keeps t s.manager cid reg') (λ _. report-Answers c rid reg')),
        bind-Keeps t (store_registry-Keeps t reg') (λ _.
            bind-Keeps t (start_with-Keeps t s.manager cid reg') (λ _. report-Keeps t c rid reg')),
      )

  pub disable-Answers : AnswersAt Command.components_disable (disable s)
  unfolding disable
  disable-Answers rid cid entry reg =
      let c = Command.components_disable in
      let t = result_topic s c in
      let reg' = with_enabled s false cid entry reg in
      (
        bind-When t (stop_with-Keeps t s.manager cid)
            (λ _. bind-When t (store_registry-Keeps t reg') (λ _. report-Answers c rid reg')),
        bind-Keeps t (stop_with-Keeps t s.manager cid)
            (λ _. bind-Keeps t (store_registry-Keeps t reg') (λ _. report-Keeps t c rid reg')),
      )

module _ (s : Setup) (works : (es : List Event) (m : Message) → s.publishes es m ≡ true) where
  refuse-Answers : (c : Command) (rid : Value) → Answers (result_topic s c) (refuse s c rid)
  unfolding refuse
  refuse-Answers c rid = publish_result-Answers s (result_topic s c) rid false works

  found-Answers :
      (c : Command) (rid : Value) (act : Value → String → Fields → Registry → Action (Unit {0}))
      (reg : Registry) (o : Option (String × Fields))
      → AnswersAt s c act
      → Answers (result_topic s c) (found s c rid (act rid) reg o)
        × Keeps (result_topic s c) (found s c rid (act rid) reg o)
  unfolding found refuse
  found-Answers c rid act reg none h =
      (refuse-Answers c rid, publish_result-Keeps s (result_topic s c) _ rid false)
  found-Answers c rid act reg (some (cid, entry)) h = h rid cid entry reg

  pub switch_with-Answers :
      (c : Command) (act : Value → String → Fields → Registry → Action (Unit {0})) (raw : String)
      → AnswersAt s c act
      → Answers (result_topic s c) (switch_with s c act raw)
  unfolding switch_with
  switch_with-Answers c act raw h =
      let t = result_topic s c in
      bind-When t (lift-Keeps s t (parse_payload s raw)) (λ payload.
        let rid = get_or "request_id" (str "") payload in
        let v = get_or "component_id" (str "") payload in
        unless_duplicate-Answers s t rid c _ refl (
          if-Answers s t (is_falsy v) (refuse-Answers c rid) (
            attempt-Answers t
              (bind-When t (read_registry-Keeps s t) (λ reg.
                bind-When t (lift-Keeps s t (find_entry reg v))
                  (λ o. (found-Answers c rid act reg o h).0)))
              (bind-Keeps t (read_registry-Keeps s t) (λ reg.
                bind-Keeps t (lift-Keeps s t (find_entry reg v))
                  (λ o. (found-Answers c rid act reg o h).1)))
              (λ e. refuse-Answers c rid))))

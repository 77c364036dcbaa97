-- ===== src/Handlers/Answered.antt =====
-- Each handler of core/handlers answers the command.
use lucid_agent_core.Prelude.{◌<◌, String, ◌≡◌, refl, true, false, ◌&&◌, some, List}
use lucid_agent_core.Prelude.Errors.{Outcome, ok}
use lucid_agent_core.Topics.{Command}
use lucid_agent_core.Config.Apply.{apply_set_general, apply_set_logging, apply_set_telemetry}
use lucid_agent_core.Upgrade.{World}
use lucid_agent_core.Upgrade.Install.{handle_install_component}
use lucid_agent_core.Upgrade.Uninstall.{handle_uninstall_component}
use lucid_agent_core.Upgrade.Component.{handle_component_upgrade}
use lucid_agent_core.Upgrade.Core.{handle_core_upgrade}
use lucid_agent_core.Handlers.{
  install_result, uninstall_result, upgrade_result, core_result, on_world, Setup, Agent, Action,
  Event, Message, ◌>>=◌, publish, result_topic, request_id,
}
use lucid_agent_core.Handlers.Simple.{on_ping, on_restart, on_refresh}
use lucid_agent_core.Handlers.Settings.{
  on_cfg_set, on_cfg_logging_set, on_cfg_telemetry_set, after_general, after_logging,
  after_telemetry,
}
use lucid_agent_core.Handlers.Components.{
  on_components_enable, on_components_disable, enable, disable,
}
use lucid_agent_core.Handlers.Upgrades.{
  publish_current_state, guarded, restart_once_flushed, restart_after_flush, install_component,
  uninstall_component, upgrade_component, upgrade_core, on_components_install,
  on_components_uninstall, on_components_upgrade, on_core_upgrade,
}
use lucid_agent_core.Handlers.Handle.{handle}
use lucid_agent_core.Handlers.Answers.Changes.{
  switch_with-Answers, set_with-Answers, enable-Answers, disable-Answers, after_general-Keeps,
  after_logging-Keeps, after_telemetry-Keeps,
}
use lucid_agent_core.Handlers.Answers.Compound.{
  refresh_all-Keeps, current_state-Keeps, restart_once_flushed-Keeps, restart_after_flush-Keeps,
  after_upgrade-Keeps,
}
use lucid_agent_core.Handlers.Answers.{
  result_on, answers, Keeps, Answers, bind-Keeps, on_world-Keeps, bind-When, bind-When_first,
  attempt-Answers,
}
use lucid_agent_core.Handlers.Answers.Each.{
  lift-Keeps, publish-Keeps, publish-Answers, publish_result-Keeps, publish_result-Answers,
  unless_duplicate-Answers, request_restart-Keeps,
}

module _ (s : Setup) (works : (es : List Event) (m : Message) → s.publishes es m ≡ true) where
  on_ping-Answers : (raw : String) → Answers (result_topic s Command.ping) (on_ping s raw)
  unfolding on_ping
  on_ping-Answers raw =
      let t = result_topic s Command.ping in
      bind-When t (lift-Keeps s t (request_id s raw)) (λ rid.
        unless_duplicate-Answers s t rid Command.ping _ refl
          (publish_result-Answers s t rid true works))

  on_restart-Answers : (raw : String) → Answers (result_topic s Command.restart) (on_restart s raw)
  unfolding on_restart
  on_restart-Answers raw =
      let t = result_topic s Command.restart in
      bind-When t (lift-Keeps s t (request_id s raw)) (λ rid.
        unless_duplicate-Answers s t rid Command.restart _ refl (
          bind-When t (request_restart-Keeps s t)
            (λ sent. publish_result-Answers s t rid sent works)))

  guarded-Answers :
      (c : Command) (body : String → Action (Unit {0})) (raw : String)
      → Answers (result_topic s c) (body raw)
      → Keeps (result_topic s c) (body raw)
      → Answers (result_topic s c) (guarded s c body raw)
  unfolding guarded
  guarded-Answers c body raw h k =
      let t = result_topic s c in
      bind-When t (lift-Keeps s t (request_id s raw)) (λ rid.
        unless_duplicate-Answers s t rid c _ refl (
          attempt-Answers t h k (λ e.
            bind-When t (lift-Keeps s t (request_id s raw))
              (λ rid. publish_result-Answers s t rid false works))))

  on_refresh-Answers : (raw : String) → Answers (result_topic s Command.refresh) (on_refresh s raw)
  unfolding on_refresh
  on_refresh-Answers raw =
      let t = result_topic s Command.refresh in
      bind-When t (lift-Keeps s t (request_id s raw)) (λ rid.
        unless_duplicate-Answers s t rid Command.refresh _ refl (
          attempt-Answers t
            (bind-When t (refresh_all-Keeps s t) (λ _. publish_result-Answers s t rid true works))
            (bind-Keeps t (refresh_all-Keeps s t) (λ _. publish_result-Keeps s t t rid true))
            (λ e. publish_result-Answers s t rid false works)))

  -- A handler that publishes the result of an installer, and goes on.
  installer-Answers :
      {A : Type 0} (c : Command) (run : World → Outcome A × World) (m : A → Message)
      (rest : A → Action (Unit {0}))
      → ((r : A) → result_on (m r) ≡ some (result_topic s c))
      → ((r : A) → Keeps (result_topic s c) (rest r))
      → Answers (result_topic s c) (do r ← on_world run; _ ← publish s (m r); rest r)
        × Keeps (result_topic s c) (do r ← on_world run; _ ← publish s (m r); rest r)
  installer-Answers c run m rest on k =
      let t = result_topic s c in
      (
        bind-When t (on_world-Keeps t run)
            (λ r. bind-When_first t (publish-Answers s t (m r) (on r)) (λ _. k r)),
        bind-Keeps t (on_world-Keeps t run)
            (λ r. bind-Keeps t (publish-Keeps s t (m r)) (λ _. k r)),
      )

  on_components_install-Answers :
      (raw : String)
      → Answers (result_topic s Command.components_install) (on_components_install s raw)
  unfolding on_components_install install_component result_on
  on_components_install-Answers raw =
      let c = Command.components_install in
      let t = result_topic s c in
      let (h, k) =
        installer-Answers c (handle_install_component s.env raw) (install_result t)
          (λ r. do
            _ ← publish_current_state s
            restart_once_flushed s (r.accepted && r.restart_required))
          (λ r. refl)
          (λ r. bind-Keeps t (current_state-Keeps s t) (λ _. restart_once_flushed-Keeps s t _)) in
      guarded-Answers c (install_component s) raw h k

  on_components_uninstall-Answers :
      (raw : String)
      → Answers (result_topic s Command.components_uninstall) (on_components_uninstall s raw)
  unfolding on_components_uninstall uninstall_component result_on
  on_components_uninstall-Answers raw =
      let c = Command.components_uninstall in
      let t = result_topic s c in
      let (h, k) =
        installer-Answers c (handle_uninstall_component s.env raw) (uninstall_result t)
          (λ r. do
            _ ← publish_current_state s
            restart_once_flushed s (r.accepted && r.restart_required))
          (λ r. refl)
          (λ r. bind-Keeps t (current_state-Keeps s t) (λ _. restart_once_flushed-Keeps s t _)) in
      guarded-Answers c (uninstall_component s) raw h k

  on_components_upgrade-Answers :
      (raw : String)
      → Answers (result_topic s Command.components_upgrade) (on_components_upgrade s raw)
  unfolding on_components_upgrade upgrade_component result_on
  on_components_upgrade-Answers raw =
      let c = Command.components_upgrade in
      let t = result_topic s c in
      let (h, k) =
        installer-Answers c (handle_component_upgrade s.env raw) (upgrade_result t) _ (λ r. refl)
          (after_upgrade-Keeps s t) in
      guarded-Answers c (upgrade_component s) raw h k

  on_core_upgrade-Answers :
      (raw : String) → Answers (result_topic s Command.core_upgrade) (on_core_upgrade s raw)
  unfolding on_core_upgrade upgrade_core result_on
  on_core_upgrade-Answers raw =
      let c = Command.core_upgrade in
      let t = result_topic s c in
      let (h, k) =
        installer-Answers c (handle_core_upgrade s.env s.reader raw) (core_result t)
          (λ r. restart_after_flush s (r.succeeded && r.restart_required)) (λ r. refl)
          (λ r. restart_after_flush-Keeps s t _) in
      guarded-Answers c (upgrade_core s) raw h k

  handler-Answers : (c : Command) (raw : String) → Answers (result_topic s c) (handle s c raw)
  unfolding handle on_cfg_set on_cfg_logging_set on_cfg_telemetry_set on_components_enable
      on_components_disable
  handler-Answers Command.ping raw = on_ping-Answers raw
  handler-Answers Command.restart raw = on_restart-Answers raw
  handler-Answers Command.refresh raw = on_refresh-Answers raw
  handler-Answers Command.components_install raw = on_components_install-Answers raw
  handler-Answers Command.components_uninstall raw = on_components_uninstall-Answers raw
  handler-Answers Command.components_enable raw =
      switch_with-Answers s works Command.components_enable (enable s) raw (enable-Answers s)
  handler-Answers Command.components_disable raw =
      switch_with-Answers s works Command.components_disable (disable s) raw (disable-Answers s)
  handler-Answers Command.components_upgrade raw = on_components_upgrade-Answers raw
  handler-Answers Command.core_upgrade raw = on_core_upgrade-Answers raw
  handler-Answers Command.cfg_set raw =
      set_with-Answers s Command.cfg_set apply_set_general (after_general s) raw
        (after_general-Keeps s (result_topic s Command.cfg_set))
  handler-Answers Command.cfg_logging_set raw =
      set_with-Answers s Command.cfg_logging_set apply_set_logging (after_logging s) raw
        (after_logging-Keeps s (result_topic s Command.cfg_logging_set))
  handler-Answers Command.cfg_telemetry_set raw =
      set_with-Answers s Command.cfg_telemetry_set apply_set_telemetry (after_telemetry s) raw
        (after_telemetry-Keeps s (result_topic s Command.cfg_telemetry_set))

  -- Where publishing works, every handler that returns has published a result on its command's own
  -- result topic: for all twelve commands, whatever the payload, the registry, the downloads, pip and
  -- the component manager do. A handler that does not return raises.
  pub handle-answers :
      (c : Command) (raw : String) (a : Agent)
      → (handle s c raw a).0 ≡ ok tt
      → answers (result_topic s c) a.events < answers (result_topic s c) (handle s c raw a).1.events
  handle-answers c raw a p = (handler-Answers c raw).published_one a tt p tt

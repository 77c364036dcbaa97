-- ===== src/Topics/Distinct.antt =====
-- The command topics of mqtt_topics.py are distinct, so the handler table of mqtt/client.py has an
-- entry for each command.
use text.Mathlib.TextLemmas.{append_cancel_left}
use mathlib.Core.Path.{sym}
use lucid_agent_core.Prelude.{String, ◌≡◌, refl, ap, ◌∙◌, ◌==◌, if◌then◌else◌}
use lucid_agent_core.Topics.{
  TopicSchema, Command, ping, restart, refresh, components_install, components_uninstall,
  components_enable, components_disable, components_upgrade, core_upgrade, cfg_set, cfg_logging_set,
  cfg_telemetry_set, base, action_of, cmd_topic,
}

-- The command of an action; an unknown action is taken for the last one.
abbrev command_of : String → Command
command_of a =
    if a == "ping"
    then ping
    else if a == "restart"
    then restart
    else if a == "refresh"
    then refresh
    else if a == "components/install"
    then components_install
    else if a == "components/uninstall"
    then components_uninstall
    else if a == "components/enable"
    then components_enable
    else if a == "components/disable"
    then components_disable
    else if a == "components/upgrade"
    then components_upgrade
    else if a == "core/upgrade"
    then core_upgrade
    else if a == "cfg/set"
    then cfg_set
    else if a == "cfg/logging/set"
    then cfg_logging_set
    else cfg_telemetry_set

command_of-action_of : (c : Command) → command_of (action_of c) ≡ c
command_of-action_of ping = refl
command_of-action_of restart = refl
command_of-action_of refresh = refl
command_of-action_of components_install = refl
command_of-action_of components_uninstall = refl
command_of-action_of components_enable = refl
command_of-action_of components_disable = refl
command_of-action_of components_upgrade = refl
command_of-action_of core_upgrade = refl
command_of-action_of cfg_set = refl
command_of-action_of cfg_logging_set = refl
command_of-action_of cfg_telemetry_set = refl

-- Two commands of an agent with the same topic are the same command.
cmd_topic_inj : (t : TopicSchema) (c d : Command) → cmd_topic t c ≡ cmd_topic t d → c ≡ d
cmd_topic_inj t c d h =
    let same : action_of c ≡ action_of d =
      append_cancel_left "/cmd/" _ _ (append_cancel_left (base t) _ _ h) in
    sym (command_of-action_of c) ∙ (ap command_of same ∙ command_of-action_of d)

-- ===== src/Handlers/Handle.antt =====
-- core/handlers/__init__.py and mqtt/client.py, `_build_handlers`: the handler of each command.
use lucid_agent_core.Prelude.{String}
use lucid_agent_core.Topics.{Command}
use lucid_agent_core.Handlers.{Setup, Action}
use lucid_agent_core.Handlers.Simple.{on_ping, on_restart, on_refresh}
use lucid_agent_core.Handlers.Settings.{on_cfg_set, on_cfg_logging_set, on_cfg_telemetry_set}
use lucid_agent_core.Handlers.Components.{on_components_enable, on_components_disable}
use lucid_agent_core.Handlers.Upgrades.{
  on_components_install, on_components_uninstall, on_components_upgrade, on_core_upgrade,
}

unfoldable pub handle : Setup → Command → String → Action (Unit {0})
unfolding on_ping on_restart on_refresh on_cfg_set on_cfg_logging_set on_cfg_telemetry_set
    on_components_enable on_components_disable on_components_install on_components_uninstall
    on_components_upgrade on_core_upgrade
handle s Command.ping = on_ping s
handle s Command.restart = on_restart s
handle s Command.refresh = on_refresh s
handle s Command.components_install = on_components_install s
handle s Command.components_uninstall = on_components_uninstall s
handle s Command.components_enable = on_components_enable s
handle s Command.components_disable = on_components_disable s
handle s Command.components_upgrade = on_components_upgrade s
handle s Command.core_upgrade = on_core_upgrade s
handle s Command.cfg_set = on_cfg_set s
handle s Command.cfg_logging_set = on_cfg_logging_set s
handle s Command.cfg_telemetry_set = on_cfg_telemetry_set s

-- ===== src/Upgrade/Component/Tests.antt =====
-- Upgrades of a component in a small environment.
use lucid_agent_core.Prelude.{◌≡◌, ◌≢◌, refl, true, false, none, [], ◌∷◌, leb, ◌&&◌}
use lucid_agent_core.Prelude.Dict.{lookup}
use lucid_agent_core.Prelude.Errors.{ok}
use lucid_agent_core.Prelude.Json.{str, dict, nil, list, Fields, end, field}
use lucid_agent_core.Config.Store.{json}
use lucid_agent_core.Registry.{ReadFault, WriteFault, after_rename, load_registry, write_registry}
use lucid_agent_core.Upgrade.{Env, World, verified_wheel, pip_upgrade_wheel}
use lucid_agent_core.Upgrade.Verified.{all_verified}
use lucid_agent_core.Upgrade.Component.{UpgradeRequest, upgrade_request}
use lucid_agent_core.Upgrade.Component.Safety.{upgrade_request-verified, upgrade_request-failure}
use lucid_agent_core.Upgrade.Component.Effect.{Recorded, upgrade_request-Recorded}

-- Each address has a wheel of one byte, and pip succeeds. The hash of all bytes is "aa".
abbrev env : WriteFault → Env
env fault = record {
  loads = λ raw. ok none;
  is_digit = λ c. leb 48 c && leb c 57;
  lower = λ s. s;
  sha256 = λ bytes. "aa";
  release = λ url. ok (list nil);
  response = λ url. ok ((7 ∷ []) ∷ []);
  pip_exists = true;
  returncode = λ log c. 0;
  entry_points = λ log. [];
  importable = λ log module_name class_name. true;
  read_fault = ReadFault.readable;
  write_fault = fault;
}

abbrev wanted : UpgradeRequest
wanted = record {
  request_id = "r";
  component_id = "led";
  version = "2.0.0";
  sha256 = "aa";
  owner = "Lucid";
  repo = "led";
  dist_name = "led-strip";
}

abbrev old_entry : Fields
old_entry = field "wheel_url" (str "old") (field "version" (str "1.0.0") end)

abbrev old_world : World
old_world = record { registry_file = json (dict (field "led" (dict old_entry) end)); pip_log = [] }

upgrade_request-verified_example :
    all_verified
      (env WriteFault.writable)
      false
      "aa"
      (upgrade_request (env WriteFault.writable) wanted old_world).1.pip_log
    ≡ true
unfolding all_verified
upgrade_request-verified_example =
    upgrade_request-verified (env WriteFault.writable) wanted false old_world refl refl

upgrade_request-failure_example :
    ((upgrade_request (env WriteFault.before_rename) wanted old_world).0.restart_required ≡ false)
    × ((env WriteFault.before_rename).write_fault ≢ after_rename
        → load_registry ReadFault.readable
            (upgrade_request (env WriteFault.before_rename) wanted old_world).1.registry_file
          ≡ load_registry ReadFault.readable old_world.registry_file)
unfolding upgrade_request load_registry lookup verified_wheel pip_upgrade_wheel write_registry
upgrade_request-failure_example =
    upgrade_request-failure (env WriteFault.before_rename) wanted old_world refl

upgrade_request-Recorded_example :
    ((upgrade_request (env WriteFault.writable) wanted old_world).0.restart_required ≡ true)
    × Recorded
        (env WriteFault.writable)
        wanted
        (("led", old_entry) ∷ [])
        (upgrade_request (env WriteFault.writable) wanted old_world).1.registry_file
unfolding upgrade_request load_registry lookup verified_wheel pip_upgrade_wheel write_registry
upgrade_request-Recorded_example =
    upgrade_request-Recorded (env WriteFault.writable) wanted old_world (("led", old_entry) ∷ [])
      old_world.registry_file refl refl

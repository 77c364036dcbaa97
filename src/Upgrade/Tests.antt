-- ===== src/Upgrade/Tests.antt =====
-- Installations and uninstallations of core/upgrade in a small environment.
use lucid_agent_core.Config.Apply.{is_falsy}
use lucid_agent_core.Upgrade.Install.{extract_dist_name_from_wheel}
use lucid_agent_core.Upgrade.{pip_uninstall_dist}
use lucid_agent_core.Registry.{write_registry}
use lucid_agent_core.Upgrade.{pip_install_wheel}
use lucid_agent_core.Upgrade.{verified_wheel}
use lucid_agent_core.Prelude.Json.{get}
use lucid_agent_core.Upgrade.{fetch_release_asset}
use lucid_agent_core.Prelude.{
  String, ◌≡◌, ◌≢◌, refl, true, false, ◌&&◌, ◌⊎◌, none, some, [], ◌∷◌, leb, ◌==◌, if◌then◌else◌,
}
use lucid_agent_core.Prelude.Dict.{lookup}
use lucid_agent_core.Prelude.Errors.{type_error, runtime_error, ok, raise}
use lucid_agent_core.Prelude.Json.{Value, str, list, nil, cons, dict, Fields, end, field}
use lucid_agent_core.Config.Store.{missing, json}
use lucid_agent_core.Registry.{ReadFault, WriteFault, after_rename, load_registry}
use lucid_agent_core.Upgrade.{Env, World, install, uninstall}
use lucid_agent_core.Upgrade.Request.{InstallRequest, UninstallRequest, parse_install}
use lucid_agent_core.Upgrade.Install.{InstallResult, install_request, handle_install_component}
use lucid_agent_core.Upgrade.Verified.{all_verified}
use lucid_agent_core.Upgrade.Install.Safety.{install_request-verified, install_request-failure}
use lucid_agent_core.Upgrade.Install.Stored.{Stored, install_request-success}
use lucid_agent_core.Upgrade.Install.Raises.{Unanswered, handle_install_component_answers}
use lucid_agent_core.Upgrade.Uninstall.{uninstall_request}
use lucid_agent_core.Upgrade.Uninstall.Effect.{Accepted, uninstall_request-Accepted}

-- A payload without an owner, as `json.loads` decodes it.
abbrev ownerless : Value
ownerless = dict (
    field "request_id" (str "r") (
      field "component_id" (str "led")
        (field "source" (dict (field "type" (str "github_release") end)) end)))

-- One release with one wheel of one byte, and pip that succeeds. The hash of all bytes is "aa".
abbrev env : WriteFault → Env
env fault = record {
  loads = λ raw.
      if raw == "deep"
      then raise runtime_error
      else ok (if raw == "ownerless" then some ownerless else none);
  is_digit = λ c. leb 48 c && leb c 57;
  lower = λ s. s;
  sha256 = λ bytes. "aa";
  release = λ url. ok (
      dict (
        field "assets"
          (list (cons (dict (field "name" (str "led_strip-1.0.0-py3-none-any.whl") end)) nil))
          end));
  response = λ url. ok ((7 ∷ []) ∷ []);
  pip_exists = true;
  returncode = λ log c. 0;
  entry_points = λ log. ("led", "led.main:Led") ∷ [];
  importable = λ log module_name class_name. true;
  read_fault = ReadFault.readable;
  write_fault = fault;
}

abbrev wanted : String → InstallRequest
wanted sha256 = record {
  request_id = "r";
  component_id = "led";
  owner = "Lucid";
  repo = "led";
  version = "1.0.0";
  sha256 = sha256;
}

abbrev empty : World
empty = record { registry_file = missing; pip_log = [] }

-- A finished installation ran pip on the wheel.
installed_log :
    (install_request (env WriteFault.writable) (wanted "aa") empty).1.pip_log
    ≡ install "led_strip-1.0.0-py3-none-any.whl" (7 ∷ []) ∷ []
unfolding install_request load_registry lookup fetch_release_asset get verified_wheel
    pip_install_wheel write_registry
installed_log = refl

-- A failing write is rolled back.
rolled_back_log :
    (install_request (env WriteFault.before_rename) (wanted "aa") empty).1.pip_log
    ≡ install "led_strip-1.0.0-py3-none-any.whl" (7 ∷ []) ∷ uninstall "led-strip" ∷ []
unfolding install_request load_registry lookup fetch_release_asset get verified_wheel
    pip_install_wheel write_registry pip_uninstall_dist extract_dist_name_from_wheel
rolled_back_log = refl

-- A wrong hash keeps pip from running.
mismatch_log : (install_request (env WriteFault.writable) (wanted "bb") empty).1 ≡ empty
unfolding install_request load_registry lookup fetch_release_asset get verified_wheel
mismatch_log = refl

-- A payload without `source.owner` makes the handler raise `TypeError`.
ownerless_raises :
    (handle_install_component (env WriteFault.writable) "ownerless" empty).0 ≡ raise type_error
unfolding handle_install_component parse_install get
ownerless_raises = refl

-- A payload that is nested too deep makes it raise, too.
deep_raises :
    (handle_install_component (env WriteFault.writable) "deep" empty).0 ≡ raise runtime_error
unfolding handle_install_component parse_install
deep_raises = refl

install_request-verified_example :
    all_verified
      (env WriteFault.writable)
      false
      "aa"
      (install_request (env WriteFault.writable) (wanted "aa") empty).1.pip_log
    ≡ true
unfolding all_verified
install_request-verified_example =
    install_request-verified (env WriteFault.writable) (wanted "aa") false empty
      (λ l. absurd (cc l)) refl

install_request-failure_example :
    ((install_request (env WriteFault.before_rename) (wanted "aa") empty).0.restart_required
      ≡ false)
    × ((env WriteFault.before_rename).write_fault ≢ after_rename
        → (install_request (env WriteFault.before_rename) (wanted "aa") empty).1.registry_file
          ≡ (load_registry ReadFault.readable missing).1)
unfolding all_verified install_request load_registry lookup fetch_release_asset get verified_wheel
    pip_install_wheel write_registry
install_request-failure_example =
    install_request-failure (env WriteFault.before_rename) (wanted "aa") empty refl

install_request-success_example :
    Stored
      (env WriteFault.writable)
      (wanted "aa")
      []
      (install_request (env WriteFault.writable) (wanted "aa") empty).1
unfolding install_request load_registry lookup fetch_release_asset get verified_wheel
    pip_install_wheel write_registry
install_request-success_example =
    install_request-success (env WriteFault.writable) (wanted "aa") empty [] missing refl refl

handle_install_component_answers_example :
    ((r : InstallResult) × ((handle_install_component (env WriteFault.writable) "ownerless" empty).0
        ≡ ok r))
    ⊎ Unanswered (env WriteFault.writable) "ownerless" empty
handle_install_component_answers_example =
    handle_install_component_answers (env WriteFault.writable) "ownerless" empty

abbrev gone : UninstallRequest
gone = record { request_id = "r"; component_id = "led" }

abbrev led_only : Fields
led_only = field "dist_name" (str "led-strip") end

abbrev has_led : World
has_led = record { registry_file = json (dict (field "led" (dict led_only) end)); pip_log = [] }

uninstall_request-Accepted_example :
    Accepted
      (env WriteFault.writable)
      gone
      (("led", led_only) ∷ [])
      has_led
      (uninstall_request (env WriteFault.writable) gone has_led)
unfolding load_registry uninstall_request lookup get is_falsy pip_uninstall_dist write_registry
uninstall_request-Accepted_example =
    uninstall_request-Accepted (env WriteFault.writable) gone has_led (("led", led_only) ∷ [])
      (json (dict (field "led" (dict led_only) end))) refl refl

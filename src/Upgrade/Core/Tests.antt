-- ===== src/Upgrade/Core/Tests.antt =====
-- Upgrades of the core in a small environment.
use lucid_agent_core.Prelude.{
  false, ◌≡◌, refl, true, ◌&&◌, none, some, [], ◌∷◌, leb, ◌==◌, if◌then◌else◌,
}
use lucid_agent_core.Prelude.Errors.{ok}
use lucid_agent_core.Prelude.Json.{Value, str, list, nil, cons, dict, end, field, get}
use lucid_agent_core.Config.Store.{missing}
use lucid_agent_core.Registry.{ReadFault, WriteFault}
use lucid_agent_core.Upgrade.{
  Env, World, install, verified_wheel, pip_upgrade_wheel, fetch_release_wheel_sha256,
}
use lucid_agent_core.Upgrade.Core.{
  UpgradeRequest, Dep, Reader, upgrade_request, auto_upgrade, read_lucid_git_deps,
}
use lucid_agent_core.Upgrade.Core.Trust.{all_trusted, named_deps, upgrade_request-trusted}
use lucid_agent_core.Upgrade.Core.Effect.{Finished, upgrade_request-Finished}

-- One release, of a dependency, whose wheel is declared with the hash "aa" of all bytes.
abbrev release : Value
release = dict (
    field "assets"
      (list (
        cons
          (dict (field "name" (str "lucid_base-1.0.0.whl") (field "digest" (str "sha256:aa") end)))
          nil))
      end)

abbrev env : Env
env = record {
  loads = λ raw. ok none;
  is_digit = λ c. leb 48 c && leb c 57;
  lower = λ s. s;
  sha256 = λ bytes. "aa";
  release = λ url. ok release;
  response = λ url. ok ((7 ∷ []) ∷ []);
  pip_exists = true;
  returncode = λ log c. 0;
  entry_points = λ log. [];
  importable = λ log module_name class_name. true;
  read_fault = ReadFault.readable;
  write_fault = WriteFault.writable;
}

abbrev base : Dep
base = record { pkg = "lucid-base"; owner = "Lucid"; repo = "base"; version = "1.0.0" }

-- A wheel whose METADATA has one line that names a dependency.
abbrev reader : Reader
reader = record {
  archive = λ bytes. some (("core.dist-info/METADATA", some "text") ∷ []);
  splitlines = λ s. "Name: x" ∷ "Requires-Dist: base" ∷ [];
  strip = λ s. s;
  match_dep = λ s. if s == " base" then some base else none;
}

abbrev wanted : UpgradeRequest
wanted = record { request_id = "r"; version = "2.0.0"; sha256 = "aa" }

abbrev empty : World
empty = record { registry_file = missing; pip_log = [] }

-- The dependency is installed before the core.
two_wheels :
    (upgrade_request env reader wanted empty).1.pip_log
    ≡ install "lucid_base-1.0.0.whl" (7 ∷ [])
      ∷ install "lucid_agent_core-2.0.0-py3-none-any.whl" (7 ∷ [])
      ∷ []
unfolding upgrade_request verified_wheel pip_upgrade_wheel fetch_release_wheel_sha256 auto_upgrade
    read_lucid_git_deps get
two_wheels = refl

upgrade_request-trusted_example :
    all_trusted env false "aa" (base ∷ []) (upgrade_request env reader wanted empty).1.pip_log
    ≡ true
unfolding all_trusted named_deps verified_wheel read_lucid_git_deps
upgrade_request-trusted_example = upgrade_request-trusted env reader wanted false empty refl

upgrade_request-Finished_example :
    Finished env reader wanted empty (upgrade_request env reader wanted empty)
upgrade_request-Finished_example = upgrade_request-Finished env reader wanted empty

-- ===== src/Upgrade/Uninstall.antt =====
-- core/upgrade/component_uninstaller.py: `handle_uninstall_component`, stage by stage.
pub mod Effect
use lucid_agent_core.Prelude.{
  ℕ, String, Bool, true, false, Option, none, some, List, [], ◌∷◌, ◌==◌, if◌then◌else◌,
}
use lucid_agent_core.Prelude.Dict.{lookup, erase}
use lucid_agent_core.Prelude.Errors.{Exn, type_error, validation_error, Outcome, ok, raise}
use lucid_agent_core.Prelude.Json.{Value, str, Fields, get}
use lucid_agent_core.Config.Store.{File}
use lucid_agent_core.Config.Apply.{is_falsy}
use lucid_agent_core.Registry.{Registry, load_registry, write_registry}
use lucid_agent_core.Upgrade.{World, Env, pip_uninstall_dist}
use lucid_agent_core.Upgrade.Request.{UninstallRequest, parse_uninstall, extract_best_effort}

-- Why an uninstallation failed: an exception, or an entry without `dist_name`.
pub data UninstallError : Type 0 where
  raised : Exn → UninstallError
  no_dist_name : UninstallError

pub record UninstallResult : Type 0 where
  pub request_id : String
  pub component_id : String
  pub accepted : Bool
  pub noop : Bool
  pub error : Option UninstallError
  pub restart_required : Bool

abbrev pub answer : UninstallRequest → Bool → Bool → Option UninstallError → Bool → UninstallResult
answer req accepted noop error restart_required = record {
  request_id = req.request_id;
  component_id = req.component_id;
  accepted = accepted;
  noop = noop;
  error = error;
  restart_required = restart_required;
}

-- The `except` at the end.
abbrev pub failed : UninstallRequest → Exn → UninstallResult
failed req x = answer req false false (some (raised x)) false

-- `existing.get("dist_name")`, where a falsy one is missing; pip's argument must be a text.
unfoldable pub dist_name_of : Fields → Option (Outcome String)
dist_name_of entry = elim (get "dist_name" entry) [
  | none ↦ none
  | some v ↦ if is_falsy v then none else some (elim v [ str s ↦ ok s | _ ↦ raise type_error ])
]

module _ (e : Env) (req : UninstallRequest) where
  written : World → Outcome (Unit {0}) × File → UninstallResult × World
  written w (ok _, file) = (answer req true false none true, record w { registry_file = file })
  written w (raise x, file) = (failed req x, record w { registry_file = file })

  removed : Registry → Outcome (Unit {0}) × World → UninstallResult × World
  unfolding written
  removed reg (raise x, w) = (failed req x, w)
  removed reg (ok _, w) =
      written w (write_registry e.write_fault (erase req.component_id reg) w.registry_file)

  named : Registry → World → Option (Outcome String) → UninstallResult × World
  unfolding removed
  named reg w none = (answer req false false (some no_dist_name) false, w)
  named reg w (some (raise x)) = (failed req x, w)
  named reg w (some (ok dist_name)) = removed reg (pip_uninstall_dist e dist_name w)

  found : Registry → World → Option Fields → UninstallResult × World
  unfolding named dist_name_of
  found reg w none = (answer req true true none false, w)
  found reg w (some entry) = named reg w (dist_name_of entry)

  loaded : World → Outcome Registry × File → UninstallResult × World
  unfolding found
  loaded w (raise x, file) = (failed req x, record w { registry_file = file })
  loaded w (ok reg, file) =
      found reg (record w { registry_file = file }) (lookup req.component_id reg)

  -- What follows the validation of the payload.
  unfoldable pub uninstall_request : World → UninstallResult × World
  unfolding loaded
  uninstall_request w = loaded w (load_registry e.read_fault w.registry_file)

handled : Env → String → World → Outcome UninstallRequest → Outcome UninstallResult × World
unfolding uninstall_request
handled e raw w (ok req) = let (r, w') = uninstall_request e req w in (ok r, w')
handled e raw w (raise validation_error) = (
  ok (record {
    request_id = extract_best_effort e "request_id" raw;
    component_id = extract_best_effort e "component_id" raw;
    accepted = false;
    noop = false;
    error = some (raised validation_error);
    restart_required = false;
  }),
  w,
)
handled e raw w (raise x) = (raise x, w)

unfoldable pub handle_uninstall_component : Env → String → World → Outcome UninstallResult × World
unfolding handled
handle_uninstall_component e raw w = handled e raw w (parse_uninstall e raw)

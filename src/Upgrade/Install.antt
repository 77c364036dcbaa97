-- ===== src/Upgrade/Install.antt =====
-- core/upgrade/component_installer.py: `handle_install_component`, stage by stage. An exception of
-- a stage ends in the answer of the outer `except`.
pub mod Safety
pub mod Entrypoint
pub mod Stored
pub mod Raises
use lucid_agent_core.Prelude.{
  ℕ, String, Bool, true, false, Option, none, some, List, [], ◌∷◌, ◌==◌, ◌<>◌, if◌then◌else◌,
}
use lucid_agent_core.Prelude.Dict.{lookup, insert}
use lucid_agent_core.Prelude.Errors.{
  Exn, validation_error, value_error, attribute_error, Outcome, ok, raise, ◌>>=◌,
}
use lucid_agent_core.Prelude.Json.{Value, bool, str, dict, Fields, end, field, get}
use lucid_agent_core.Prelude.Text.{split_once, strip_end, replace_char}
use lucid_agent_core.Config.Store.{File}
use lucid_agent_core.Registry.{Registry, load_registry, write_registry, is_same_install}
use lucid_agent_core.Upgrade.{
  Bytes, PipCommand, World, Env, verified_wheel, pip_install_wheel, pip_uninstall_dist,
  fetch_release_asset, build_wheel_url,
}
use lucid_agent_core.Upgrade.Request.{
  InstallRequest, parse_install, extract_best_effort, extract_version_best_effort,
}

-- The answer; its time and pip's output are left out, and an error is its exception.
pub record InstallResult : Type 0 where
  pub request_id : String
  pub component_id : String
  pub version : String
  pub accepted : Bool
  pub wheel_url : Option Value
  pub sha256 : Option String
  pub error : Option Exn
  pub restart_required : Bool

abbrev pub tag_of : InstallRequest → String
tag_of req = "v" <> req.version

abbrev pub repo_of : InstallRequest → String
repo_of req = req.owner <> "/" <> req.repo

abbrev pub url_of : InstallRequest → String → String
url_of req asset = build_wheel_url req.owner req.repo (tag_of req) asset

unfoldable pub extract_dist_name_from_wheel : String → String
extract_dist_name_from_wheel wheel_filename =
    let stem = strip_end ".whl" wheel_filename in
    elim (split_once 45 stem) [
      | none ↦ replace_char 95 "-" stem
      | some (distribution, _) ↦ replace_char 95 "-" distribution
    ]

-- `_discover_entrypoint`
unfoldable pub discover_entrypoint : String → List (String × String) → Outcome String
discover_entrypoint component_id [] = raise validation_error
discover_entrypoint component_id ((name, value) ∷ eps) =
    if name == component_id then ok value else discover_entrypoint component_id eps

-- `_verify_entrypoint`; a failing import is an `AttributeError` here.
unfoldable pub verify_entrypoint : Env → List PipCommand → String → Outcome (Unit {0})
verify_entrypoint e log entrypoint = elim (split_once 58 entrypoint) [
  | none ↦ raise value_error
  | some (module_name, class_name) ↦
      if e.importable log module_name class_name then ok tt else raise attribute_error
]

-- The registry entry, without its time.
abbrev pub entry_of : Env → InstallRequest → String → String → Fields
entry_of e req asset entrypoint = field "repo" (str (repo_of req)) (
    field "version" (str req.version) (
      field "wheel_url" (str (url_of req asset)) (
        field "entrypoint" (str entrypoint) (
          field "sha256" (str (e.lower req.sha256)) (
            field "dist_name" (str (extract_dist_name_from_wheel asset)) (
              field "enabled" (bool true) (
                field "source"
                  (dict (
                    field "type" (str "github_release") (
                      field "owner" (str req.owner) (
                        field "repo" (str req.repo)
                          (field "tag" (str (tag_of req)) (field "asset" (str asset) end))))))
                  end)))))))

abbrev pub answer : Env → InstallRequest → Bool → Option Value → Option Exn → Bool → InstallResult
answer e req accepted wheel_url error restart_required = record {
  request_id = req.request_id;
  component_id = req.component_id;
  version = req.version;
  accepted = accepted;
  wheel_url = wheel_url;
  sha256 = some (e.lower req.sha256);
  error = error;
  restart_required = restart_required;
}

-- The outer `except`.
abbrev pub failed : Env → InstallRequest → Option Value → Exn → InstallResult
failed e req wheel_url x = answer e req false wheel_url (some x) false

module _ (e : Env) (req : InstallRequest) where
  written : Outcome (Unit {0}) × File → World → Outcome (Unit {0}) × World
  written (r, file) w = (r, record w { registry_file = file })

  recorded : Registry → String → World → Outcome String → Outcome (Unit {0}) × World
  unfolding written
  recorded reg asset w (raise x) = (raise x, w)
  recorded reg asset w (ok entrypoint) =
      written
        (write_registry e.write_fault
          (insert req.component_id (entry_of e req asset entrypoint) reg) w.registry_file)
        w

  -- The inner `try`: discovery, verification, and the write of the registry.
  unfoldable pub register : Registry → String → World → Outcome (Unit {0}) × World
  unfolding recorded discover_entrypoint verify_entrypoint
  register reg asset w = recorded reg asset w (do
    entrypoint ← discover_entrypoint req.component_id (e.entry_points w.pip_log)
    _ ← verify_entrypoint e w.pip_log entrypoint
    ok entrypoint)

  -- The inner `except` rolls back; whether that works only shows in the log.
  registered : String → Outcome (Unit {0}) × World → InstallResult × World
  registered asset (ok _, w) = (answer e req true (some (str (url_of req asset))) none true, w)
  registered asset (raise x, w) = (
    failed e req (some (str (url_of req asset))) x,
    (pip_uninstall_dist e (extract_dist_name_from_wheel asset) w).1,
  )

  installed : Registry → String → Outcome (Unit {0}) × World → InstallResult × World
  unfolding registered register
  installed reg asset (raise x, w) = (failed e req (some (str (url_of req asset))) x, w)
  installed reg asset (ok _, w) = registered asset (register reg asset w)

  downloaded : Registry → String → World → Outcome Bytes → InstallResult × World
  unfolding installed
  downloaded reg asset w (raise x) = (failed e req (some (str (url_of req asset))) x, w)
  downloaded reg asset w (ok bytes) =
      installed reg asset (pip_install_wheel e asset bytes req.component_id w)

  fetched : Registry → World → Outcome String → InstallResult × World
  unfolding downloaded
  fetched reg w (raise x) = (failed e req none x, w)
  fetched reg w (ok asset) = downloaded reg asset w (verified_wheel e (url_of req asset) req.sha256)

  -- The caller hands `is_same_install` the entry's own entrypoint, or "" for a missing one.
  abbrev pub has_entrypoint : Option Value → Bool
  has_entrypoint none = false
  has_entrypoint (some _) = true

  abbrev pub known_url : Option Fields → Option Value
  known_url none = none
  known_url (some entry) = get "wheel_url" entry

  loaded : World → Outcome Registry × File → InstallResult × World
  unfolding fetched is_same_install
  loaded w (raise x, file) = (failed e req none x, record w { registry_file = file })
  loaded w (ok reg, file) =
      if is_same_install (lookup req.component_id reg) (repo_of req) req.version has_entrypoint
      then (
        answer e req true (known_url (lookup req.component_id reg)) none false,
        record w { registry_file = file },
      )
      else fetched reg (record w { registry_file = file })
          (fetch_release_asset e req.owner req.repo (tag_of req))

  -- What follows the validation of the payload.
  unfoldable pub install_request : World → InstallResult × World
  unfolding loaded
  install_request w = loaded w (load_registry e.read_fault w.registry_file)

-- `except ValidationError`; any other exception of the parser is not caught.
handled : Env → String → World → Outcome InstallRequest → Outcome InstallResult × World
unfolding install_request
handled e raw w (ok req) = let (r, w') = install_request e req w in (ok r, w')
handled e raw w (raise validation_error) = (
  ok (record {
    request_id = extract_best_effort e "request_id" raw;
    component_id = extract_best_effort e "component_id" raw;
    version = extract_version_best_effort e raw;
    accepted = false;
    wheel_url = none;
    sha256 = none;
    error = some validation_error;
    restart_required = false;
  }),
  w,
)
handled e raw w (raise x) = (raise x, w)

unfoldable pub handle_install_component : Env → String → World → Outcome InstallResult × World
unfolding handled
handle_install_component e raw w = handled e raw w (parse_install e raw)

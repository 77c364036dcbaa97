-- ===== src/Upgrade/Component.antt =====
-- core/upgrade/component_upgrader.py: `handle_component_upgrade`, stage by stage, on the world of the
-- installer.
pub mod Safety
pub mod Effect
mod Tests
use lucid_agent_core.Prelude.{
  ℕ, String, Bool, true, false, Option, none, some, List, [], ◌∷◌, ◌==◌, ◌<>◌, if◌then◌else◌,
}
use lucid_agent_core.Prelude.Dict.{lookup, insert}
use lucid_agent_core.Prelude.Errors.{
  Exn, validation_error, attribute_error, type_error, Outcome, ok, raise, ◌>>=◌,
}
use lucid_agent_core.Prelude.Json.{Value, str, list, dict, Fields, end, get, put}
use lucid_agent_core.Prelude.Text.{full_match, split_once, replace_char}
use lucid_agent_core.Config.Store.{File}
use lucid_agent_core.Config.Apply.{is_falsy}
use lucid_agent_core.Registry.{Registry, load_registry, write_registry}
use lucid_agent_core.Upgrade.{
  Bytes, World, Env, download_wheel, verified_wheel, pip_upgrade_wheel, build_wheel_url,
}
use lucid_agent_core.Upgrade.Request.{
  is_id_char, is_semver, is_sha256, non_empty, text_where, as_object,
}

-- `ComponentUpgradeRequest`, whose `release_type` is "github_release" once it is valid.
pub record UpgradeRequest : Type 0 where
  pub request_id : String
  pub component_id : String
  pub version : String
  pub sha256 : String
  pub owner : String
  pub repo : String
  pub dist_name : String

-- `json.loads(raw_payload) if raw_payload else {}`
unfoldable pub loads_or_empty : Env → String → Outcome (Option Value)
loads_or_empty e raw = if raw == "" then ok (some (dict end)) else e.loads raw

-- `component_id not in registry`, for an id that may be any JSON value: a list or dict has no hash.
find_entry : Registry → Option Value → Outcome Fields
find_entry reg (some (str cid)) = elim (lookup cid reg) [
  | none ↦ raise validation_error
  | some entry ↦ ok entry
]
find_entry reg (some (list _)) = raise type_error
find_entry reg (some (dict _)) = raise type_error
find_entry reg (some _) = raise validation_error
find_entry reg none = elim (lookup "" reg) [ none ↦ raise validation_error | some entry ↦ ok entry ]

-- A truthy `repo` that holds a "/", split at the first one. A list or dict holds none.
split_repo : Value → Outcome (String × String)
split_repo (str s) = elim (split_once 47 s) [ none ↦ raise validation_error | some p ↦ ok p ]
split_repo (list _) = raise validation_error
split_repo (dict _) = raise validation_error
split_repo _ = raise type_error

repo_of : Option Value → Outcome (String × String)
unfolding split_repo
repo_of none = raise validation_error
repo_of (some v) = if is_falsy v then raise validation_error else split_repo v

-- `obj.get("release_type", "github_release")`
unfoldable pub release_type_of : Option Value → Outcome String
release_type_of none = ok "github_release"
release_type_of (some v) = text_where (λ s. s == "github_release") (some v)

-- `ComponentUpgradeRequest.validate`. A missing `dist_name` fails before it, with the same class.
unfoldable pub validate_upgrade : Env → Fields → Fields → String × String → Outcome UpgradeRequest
unfolding text_where release_type_of
validate_upgrade e obj entry (owner, repo) = do
  dist_name ← text_where non_empty (get "dist_name" entry)
  request_id ← text_where non_empty (get "request_id" obj)
  component_id ← text_where (full_match is_id_char) (get "component_id" obj)
  _ ← release_type_of (get "release_type" obj)
  version ← text_where (is_semver e.is_digit) (get "version" obj)
  sha256 ← text_where is_sha256 (get "sha256" obj)
  owner ← text_where non_empty (some (str owner))
  repo ← text_where non_empty (some (str repo))
  ok (record {
    request_id = request_id;
    component_id = component_id;
    version = version;
    sha256 = sha256;
    owner = owner;
    repo = repo;
    dist_name = dist_name;
  })

-- The rest of `_parse_and_validate`, once the registry is read.
unfoldable pub parse_with : Env → Fields → Registry → Outcome UpgradeRequest
unfolding validate_upgrade find_entry repo_of
parse_with e obj reg = do
  entry ← find_entry reg (get "component_id" obj)
  owner_repo ← repo_of (get "repo" entry)
  validate_upgrade e obj entry owner_repo

parse_loaded : Env → Fields → World → Outcome Registry × File → Outcome UpgradeRequest × World
unfolding parse_with
parse_loaded e obj w (raise x, file) = (raise x, record w { registry_file = file })
parse_loaded e obj w (ok reg, file) = (parse_with e obj reg, record w { registry_file = file })

parse_obj : Env → World → Outcome Fields → Outcome UpgradeRequest × World
unfolding parse_loaded
parse_obj e w (raise x) = (raise x, w)
parse_obj e w (ok obj) = parse_loaded e obj w (load_registry e.read_fault w.registry_file)

-- `_parse_and_validate`
unfoldable pub parse_upgrade : Env → String → World → Outcome UpgradeRequest × World
unfolding parse_obj as_object loads_or_empty
parse_upgrade e raw w = parse_obj e w (loads_or_empty e raw >>= as_object)

-- The answer; its time and pip's output are left out. The three names are JSON values where the
-- payload was not valid.
pub record UpgradeResult : Type 0 where
  pub request_id : Value
  pub component_id : Value
  pub version : Value
  pub accepted : Bool
  pub wheel_url : Option String
  pub sha256 : Option String
  pub error : Option Exn
  pub restart_required : Bool

-- `wheel_filename` of a distribution and a version
abbrev pub wheel_filename : String → String → String
wheel_filename dist_name version =
    replace_char 45 "_" dist_name <> "-" <> version <> "-py3-none-any.whl"

abbrev pub filename_of : UpgradeRequest → String
filename_of req = wheel_filename req.dist_name req.version

abbrev pub url_of : UpgradeRequest → String
url_of req = build_wheel_url req.owner req.repo ("v" <> req.version) (filename_of req)

abbrev pub answer : Env → UpgradeRequest → Bool → Option Exn → Bool → UpgradeResult
answer e req accepted error restart_required = record {
  request_id = str req.request_id;
  component_id = str req.component_id;
  version = str req.version;
  accepted = accepted;
  wheel_url = some (url_of req);
  sha256 = some (e.lower req.sha256);
  error = error;
  restart_required = restart_required;
}

-- The outer `except`.
abbrev pub failed : Env → UpgradeRequest → Exn → UpgradeResult
failed e req x = answer e req false (some x) false

-- `registry.get(component_id) or {}`
abbrev pub entry_at : UpgradeRequest → Registry → Fields
entry_at req reg = elim (lookup req.component_id reg) [ none ↦ end | some entry ↦ entry ]

-- The three assignments to the entry.
abbrev pub upgraded_entry : Env → UpgradeRequest → Fields → Fields
upgraded_entry e req entry =
    put "sha256" (str (e.lower req.sha256))
      (put "wheel_url" (str (url_of req)) (put "version" (str req.version) entry))

-- A text that is there and not empty. The entry's fields are texts, as their writers make them.
abbrev pub text_of : Option Value → Option String
text_of (some (str s)) = if s == "" then none else some s
text_of _ = none

-- `old_entry.get("dist_name") or req.dist_name`, and the file name made of it
abbrev pub old_filename : UpgradeRequest → Fields → String → String
old_filename req old version =
    wheel_filename (elim (text_of (get "dist_name" old)) [ none ↦ req.dist_name | some d ↦ d ])
      version

module _ (e : Env) (req : UpgradeRequest) where
  -- The old wheel, which is not checked against a hash.
  reinstall : String → World → Outcome Bytes → World
  reinstall name w (raise x) = w
  reinstall name w (ok bytes) = (pip_upgrade_wheel e name bytes w).1

  rolled_back : Fields → World → Option String → Option String → World
  unfolding reinstall
  rolled_back old w (some url) (some version) =
      reinstall (old_filename req old version) w (download_wheel e url)
  rolled_back old w _ _ = w

  -- The `except` after a failed write: the old wheel is installed again, if it is known.
  unfoldable pub rollback : Fields → World → World
  unfolding rolled_back
  rollback old w = rolled_back old w (text_of (get "wheel_url" old)) (text_of (get "version" old))

  written : Fields → World → Outcome (Unit {0}) × File → UpgradeResult × World
  unfolding rollback
  written old w (ok _, file) = (answer e req true none true, record w { registry_file = file })
  written old w (raise x, file) = (failed e req x, rollback old (record w { registry_file = file }))

  recorded : World → Outcome Registry × File → UpgradeResult × World
  unfolding written
  recorded w (raise x, file) = (failed e req x, record w { registry_file = file })
  recorded w (ok reg, file) =
      written (entry_at req reg) (record w { registry_file = file })
        (write_registry e.write_fault
          (insert req.component_id (upgraded_entry e req (entry_at req reg)) reg) file)

  upgraded : Outcome (Unit {0}) × World → UpgradeResult × World
  unfolding recorded
  upgraded (raise x, w) = (failed e req x, w)
  upgraded (ok _, w) = recorded w (load_registry e.read_fault w.registry_file)

  downloaded : World → Outcome Bytes → UpgradeResult × World
  unfolding upgraded
  downloaded w (raise x) = (failed e req x, w)
  downloaded w (ok bytes) = upgraded (pip_upgrade_wheel e (filename_of req) bytes w)

  -- What follows the validation of the payload.
  unfoldable pub upgrade_request : World → UpgradeResult × World
  unfolding downloaded
  upgrade_request w = downloaded w (verified_wheel e (url_of req) req.sha256)

-- `payload_obj.get(key, "")`
abbrev field_or_empty : String → Fields → Value
field_or_empty key d = elim (get key d) [ none ↦ str "" | some v ↦ v ]

rejection : Fields → UpgradeResult
rejection d = record {
  request_id = field_or_empty "request_id" d;
  component_id = field_or_empty "component_id" d;
  version = field_or_empty "version" d;
  accepted = false;
  wheel_url = none;
  sha256 = none;
  error = some validation_error;
  restart_required = false;
}

-- The payload is read again for the answer: one that is JSON but no object has no `get`.
rejected : Option Value → Outcome UpgradeResult
unfolding rejection
rejected none = ok (rejection end)
rejected (some (dict d)) = ok (rejection d)
rejected (some _) = raise attribute_error

handled : Env → String → Outcome UpgradeRequest × World → Outcome UpgradeResult × World
unfolding upgrade_request rejected
handled e raw (ok req, w) = let (r, w') = upgrade_request e req w in (ok r, w')
handled e raw (raise validation_error, w) = (loads_or_empty e raw >>= rejected, w)
handled e raw (raise x, w) = (raise x, w)

unfoldable pub handle_component_upgrade : Env → String → World → Outcome UpgradeResult × World
unfolding handled
handle_component_upgrade e raw w = handled e raw (parse_upgrade e raw w)

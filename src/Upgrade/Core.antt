-- ===== src/Upgrade/Core.antt =====
-- core/upgrade/core_upgrader.py: `handle_core_upgrade`, which upgrades the dependencies that the new
-- wheel names before the wheel itself.
pub mod Trust
pub mod Effect
mod Tests
use lucid_agent_core.Prelude.{
  ℕ, String, Bool, true, false, Option, none, some, List, [], ◌∷◌, ◌==◌, ◌<>◌, if◌then◌else◌,
}
use lucid_agent_core.Prelude.Errors.{
  Exn, validation_error, attribute_error, Outcome, ok, raise, ◌>>=◌,
}
use lucid_agent_core.Prelude.Json.{Value, str, dict, Fields, end, get}
use lucid_agent_core.Prelude.Text.{ends_with, strip_start}
use lucid_agent_core.Upgrade.{
  Bytes, World, Env, verified_wheel, pip_upgrade_wheel, build_wheel_url, fetch_release_wheel_sha256,
}
use lucid_agent_core.Upgrade.Request.{is_semver, is_sha256, non_empty, text_where, as_object}
use lucid_agent_core.Upgrade.Component.{loads_or_empty, release_type_of}

-- `UpgradeRequest`, whose `release_type` is "github_release" once it is valid.
pub record UpgradeRequest : Type 0 where
  pub request_id : String
  pub version : String
  pub sha256 : String

-- A dependency of a wheel: name, owner, repository, version.
pub record Dep : Type 0 where
  pub pkg : String
  pub owner : String
  pub repo : String
  pub version : String

-- What the reading of a wheel calls: `zipfile`, with the names in a wheel and their decoded contents,
-- where they can be read; `splitlines` and `strip` of texts; `_LUCID_GIT_DEP_RE.match`.
pub record Reader : Type 0 where
  pub archive : Bytes → Option (List (String × Option String))
  pub splitlines : String → List String
  pub strip : String → String
  pub match_dep : String → Option Dep

-- `_parse_and_validate`
parse_fields : Env → Fields → Outcome UpgradeRequest
unfolding text_where release_type_of
parse_fields e obj = do
  request_id ← text_where non_empty (get "request_id" obj)
  _ ← release_type_of (get "release_type" obj)
  version ← text_where (is_semver e.is_digit) (get "version" obj)
  sha256 ← text_where is_sha256 (get "sha256" obj)
  ok (record { request_id = request_id; version = version; sha256 = sha256 })

unfoldable pub parse_upgrade : Env → String → Outcome UpgradeRequest
unfolding as_object loads_or_empty parse_fields
parse_upgrade e raw = loads_or_empty e raw >>= as_object >>= parse_fields e

-- The answer; its time and pip's output are left out. The names are JSON values where the payload was
-- not valid.
pub record UpgradeResult : Type 0 where
  pub request_id : Value
  pub version : Value
  pub succeeded : Bool
  pub wheel_url : Option String
  pub sha256 : Option String
  pub error : Option Exn
  pub restart_required : Bool

-- `wheel_filename` and `wheel_url`
abbrev pub filename_of : UpgradeRequest → String
filename_of req = "lucid_agent_core-" <> req.version <> "-py3-none-any.whl"

abbrev pub url_of : UpgradeRequest → String
url_of req =
    build_wheel_url "LucidLabPlatform" "lucid-agent-core" ("v" <> req.version) (filename_of req)

-- The loop over the lines of METADATA.
deps_in : Reader → List String → List Dep
deps_in r [] = []
deps_in r (line ∷ lines) = elim (strip_start "Requires-Dist:" line) [
  | none ↦ deps_in r lines
  | some value ↦ elim (r.match_dep (r.strip value)) [
    | none ↦ deps_in r lines
    | some dep ↦ dep ∷ deps_in r lines
  ]
]

-- The first name that ends with "/METADATA", with its contents.
metadata_in : List (String × Option String) → Option String
metadata_in [] = none
metadata_in ((name, text) ∷ files) =
    let rest = metadata_in files in if ends_with "/METADATA" name then text else rest

-- `_read_lucid_git_deps`: none where the wheel or its METADATA cannot be read.
unfoldable pub read_lucid_git_deps : Reader → Bytes → List Dep
unfolding metadata_in deps_in
read_lucid_git_deps r bytes = elim (r.archive bytes) [
  | none ↦ []
  | some files ↦ elim (metadata_in files) [ none ↦ [] | some text ↦ deps_in r (r.splitlines text) ]
]

module _ (e : Env) where
  -- The release of a dependency: the name of its wheel, and its hash.
  abbrev pub release_of : Dep → Outcome (String × String)
  release_of dep = fetch_release_wheel_sha256 e dep.owner dep.repo ("v" <> dep.version)

  upgrade_wheel : String → World → Outcome Bytes → World
  upgrade_wheel name w (raise x) = w
  upgrade_wheel name w (ok bytes) = (pip_upgrade_wheel e name bytes w).1

  upgrade_release : Dep → World → Outcome (String × String) → World
  unfolding upgrade_wheel
  upgrade_release dep w (raise x) = w
  upgrade_release dep w (ok (name, h)) =
      upgrade_wheel name w
        (verified_wheel e (build_wheel_url dep.owner dep.repo ("v" <> dep.version) name) h)

  -- The loop of `_auto_upgrade_lucid_deps`: what fails for one dependency is logged.
  unfoldable pub auto_upgrade : List Dep → World → World
  unfolding upgrade_release
  auto_upgrade [] w = w
  auto_upgrade (dep ∷ deps) w = auto_upgrade deps (upgrade_release dep w (release_of dep))

abbrev pub answer : Env → UpgradeRequest → Bool → Option Exn → Bool → UpgradeResult
answer e req succeeded error restart_required = record {
  request_id = str req.request_id;
  version = str req.version;
  succeeded = succeeded;
  wheel_url = some (url_of req);
  sha256 = some (e.lower req.sha256);
  error = error;
  restart_required = restart_required;
}

module _ (e : Env) (r : Reader) (req : UpgradeRequest) where
  upgraded : Outcome (Unit {0}) × World → UpgradeResult × World
  upgraded (ok _, w) = (answer e req true none true, w)
  upgraded (raise x, w) = (answer e req false (some x) false, w)

  downloaded : World → Outcome Bytes → UpgradeResult × World
  unfolding upgraded
  downloaded w (raise x) = (answer e req false (some x) false, w)
  downloaded w (ok bytes) =
      upgraded (
        pip_upgrade_wheel e (filename_of req) bytes
          (auto_upgrade e (read_lucid_git_deps r bytes) w))

  -- What follows the validation of the payload.
  unfoldable pub upgrade_request : World → UpgradeResult × World
  unfolding downloaded
  upgrade_request w = downloaded w (verified_wheel e (url_of req) req.sha256)

abbrev field_or_empty : String → Fields → Value
field_or_empty key d = elim (get key d) [ none ↦ str "" | some v ↦ v ]

rejection : Fields → UpgradeResult
rejection d = record {
  request_id = field_or_empty "request_id" d;
  version = field_or_empty "version" d;
  succeeded = false;
  wheel_url = none;
  sha256 = none;
  error = some validation_error;
  restart_required = true;
}

-- The payload is read again for the answer: one that is JSON but no object has no `get`.
rejected : Option Value → Outcome UpgradeResult
unfolding rejection
rejected none = ok (rejection end)
rejected (some (dict d)) = ok (rejection d)
rejected (some _) = raise attribute_error

handled : Env → Reader → String → World → Outcome UpgradeRequest → Outcome UpgradeResult × World
unfolding upgrade_request rejected
handled e r raw w (ok req) = let (a, w') = upgrade_request e r req w in (ok a, w')
handled e r raw w (raise validation_error) = (loads_or_empty e raw >>= rejected, w)
handled e r raw w (raise x) = (raise x, w)

unfoldable pub handle_core_upgrade : Env → Reader → String → World → Outcome UpgradeResult × World
unfolding handled
handle_core_upgrade e r raw w = handled e r raw w (parse_upgrade e raw)

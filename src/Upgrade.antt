-- ===== src/Upgrade.antt =====
-- core/upgrade/_pip.py, _download.py and _github_release.py: what the installers share. The network,
-- pip, the hash and the interpreter are functions in an environment; the world is the registry's
-- file and the pip commands that were run.
pub mod Request
pub mod Verified
pub mod Install
pub mod Uninstall
pub mod Component
pub mod Core
mod Tests
use lucid_agent_core.Prelude.{
  ℕ, ◌+◌, ◌*◌, String, Bool, true, false, Option, none, some, List, [], ◌∷◌, ◌++◌, length, ltb,
  nat_eq, ◌==◌, ◌<>◌, if◌then◌else◌,
}
use lucid_agent_core.Prelude.Errors.{
  Exn, runtime_error, type_error, attribute_error, validation_error, file_not_found_error, Outcome,
  ok, raise, ◌>>=◌,
}
use lucid_agent_core.Prelude.Json.{Value, str, list, Items, nil, cons, dict, get}
use lucid_agent_core.Prelude.Text.{ends_with, strip_start}
use lucid_agent_core.Config.Store.{File}
use lucid_agent_core.Registry.{ReadFault, WriteFault}

abbrev pub Bytes : Type 0
Bytes = List ℕ

-- A run of pip: of a wheel by its file name and contents, of the [pi] extra, or an uninstallation.
pub data PipCommand : Type 0 where
  install : String → Bytes → PipCommand
  install_extra : PipCommand
  uninstall : String → PipCommand

pub record World : Type 0 where
  pub registry_file : File
  pub pip_log : List PipCommand

pub record Env : Type 0 where
  -- `json.loads`; `none` is `JSONDecodeError`, and another exception is that of an int with too many
  -- digits or of a text nested too deep
  pub loads : String → Outcome (Option Value)
  -- the class `\d` of `re`
  pub is_digit : ℕ → Bool
  -- `str.lower`
  pub lower : String → String
  -- `hashlib.sha256(…).hexdigest()`
  pub sha256 : Bytes → String
  -- `urlopen` of an API address, decoded, and of a download, in the chunks that are read
  pub release : String → Outcome Value
  pub response : String → Outcome (List Bytes)
  -- pip: whether it is there, and the return code of a command after others
  pub pip_exists : Bool
  pub returncode : List PipCommand → PipCommand → ℕ
  -- `entry_points(group="lucid_components")` and the import of a class, after these pip commands
  pub entry_points : List PipCommand → List (String × String)
  pub importable : List PipCommand → String → String → Bool
  pub read_fault : ReadFault
  pub write_fault : WriteFault

-- `MAX_WHEEL_BYTES`
abbrev pub max_wheel_bytes : ℕ
max_wheel_bytes = 200 * 1024 * 1024

-- The loop of `download_wheel`, which has read so much already.
unfoldable pub receive : ℕ → ℕ → List Bytes → Outcome Bytes
receive max_bytes read [] = ok []
receive max_bytes read (chunk ∷ chunks) =
    let rest = receive max_bytes (read + length chunk) chunks in
    if ltb max_bytes (read + length chunk)
    then raise runtime_error
    else (do bytes ← rest; ok (chunk ++ bytes))

unfoldable pub download_wheel : Env → String → Outcome Bytes
unfolding receive
download_wheel e url = do chunks ← e.response url; receive max_wheel_bytes 0 chunks

unfoldable pub verify_sha256 : Env → Bytes → String → Outcome (Unit {0})
verify_sha256 e bytes expected =
    if e.lower (e.sha256 bytes) == e.lower expected then ok tt else raise runtime_error

-- The wheel of an address, once its hash is the expected one.
unfoldable pub verified_wheel : Env → String → String → Outcome Bytes
unfolding download_wheel verify_sha256
verified_wheel e url expected = do
  bytes ← download_wheel e url
  _ ← verify_sha256 e bytes expected
  ok bytes

-- `subprocess.run`: whether the command succeeds, and the world after it.
abbrev pub run_pip : Env → PipCommand → World → Bool × World
run_pip e c w = (nat_eq (e.returncode w.pip_log c) 0, record w { pip_log = w.pip_log ++ c ∷ [] })

-- The extra of the led_strip component, whose failure is only logged.
with_extra : Env → String → Bool × World → Outcome (Unit {0}) × World
with_extra e component_id (false, w) = (raise runtime_error, w)
with_extra e component_id (true, w) =
    (ok tt, if component_id == "led_strip" then (run_pip e install_extra w).1 else w)

unfoldable pub pip_install_wheel :
    Env → String → Bytes → String → World → Outcome (Unit {0}) × World
unfolding with_extra
pip_install_wheel e name bytes component_id w =
    if e.pip_exists
    then with_extra e component_id (run_pip e (install name bytes) w)
    else (raise file_not_found_error, w)

checked : Bool × World → Outcome (Unit {0}) × World
checked (true, w) = (ok tt, w)
checked (false, w) = (raise runtime_error, w)

unfoldable pub pip_uninstall_dist : Env → String → World → Outcome (Unit {0}) × World
unfolding checked
pip_uninstall_dist e dist_name w =
    if e.pip_exists
    then checked (run_pip e (uninstall dist_name) w)
    else (raise file_not_found_error, w)

unfoldable pub pip_upgrade_wheel : Env → String → Bytes → World → Outcome (Unit {0}) × World
unfolding checked
pip_upgrade_wheel e name bytes w =
    if e.pip_exists
    then checked (run_pip e (install name bytes) w)
    else (raise file_not_found_error, w)

-- `asset.get("name", "")`, which is then asked for its end.
asset_name : Value → Outcome String
asset_name (dict d) = elim (get "name" d) [
  | none ↦ ok ""
  | some v ↦ elim v [ str s ↦ ok s | _ ↦ raise attribute_error ]
]
asset_name _ = raise attribute_error

-- The loop over the assets: the first wheel.
first_wheel : Items → Outcome String
unfolding asset_name
first_wheel nil = raise validation_error
first_wheel (cons asset assets) =
    let rest = first_wheel assets in
    do name ← asset_name asset; if ends_with ".whl" name then ok name else rest

-- `asset.get("digest", "")` of a wheel, which must start with the name of the hash.
asset_digest : Value → Outcome String
asset_digest (dict d) = elim (get "digest" d) [
  | none ↦ raise validation_error
  | some v ↦ elim v [
    | str s ↦ elim (strip_start "sha256:" s) [ none ↦ raise validation_error | some h ↦ ok h ]
    | _ ↦ raise attribute_error
  ]
]
asset_digest _ = raise attribute_error

-- The loop of `fetch_release_wheel_sha256`: the first wheel and its hash.
first_wheel_sha256 : Items → Outcome (String × String)
unfolding asset_name asset_digest
first_wheel_sha256 nil = raise validation_error
first_wheel_sha256 (cons asset assets) =
    let rest = first_wheel_sha256 assets in
    do
      name ← asset_name asset
      if ends_with ".whl" name then (do h ← asset_digest asset; ok (name, h)) else rest

-- `data.get("assets", [])`, as the loop takes it. Only a list is a sequence of assets here.
assets_of : Value → Outcome Items
assets_of (dict d) = elim (get "assets" d) [
  | none ↦ ok nil
  | some v ↦ elim v [ list xs ↦ ok xs | _ ↦ raise type_error ]
]
assets_of _ = raise attribute_error

-- `_fetch_release_data`: any failure is a `ValidationError`.
fetch_release_data : Env → String → String → String → Outcome Value
fetch_release_data e owner repo tag =
    elim (e.release
      ("https://api.github.com/repos/" <> owner <> "/" <> repo <> "/releases/tags/" <> tag)) [
        | ok v ↦ ok v
        | raise _ ↦ raise validation_error
      ]

unfoldable pub fetch_release_asset : Env → String → String → String → Outcome String
unfolding fetch_release_data assets_of first_wheel
fetch_release_asset e owner repo tag = do
  data_ ← fetch_release_data e owner repo tag
  assets ← assets_of data_
  first_wheel assets

unfoldable pub fetch_release_wheel_sha256 :
    Env → String → String → String → Outcome (String × String)
unfolding fetch_release_data assets_of first_wheel_sha256
fetch_release_wheel_sha256 e owner repo tag = do
  data_ ← fetch_release_data e owner repo tag
  assets ← assets_of data_
  first_wheel_sha256 assets

abbrev pub build_wheel_url : String → String → String → String → String
build_wheel_url owner repo tag wheel_filename =
    "https://github.com/" <> owner <> "/" <> repo <> "/releases/download/" <> tag <> "/"
    <> wheel_filename

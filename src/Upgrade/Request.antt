-- ===== src/Upgrade/Request.antt =====
-- core/upgrade/_validation.py, and the parsing of a request in component_installer.py and
-- component_uninstaller.py.
use lucid_agent_core.Prelude.{
  ℕ, ◌-◌, String, Bool, false, not, ◌&&◌, ◌||◌, Option, none, some, leb, nat_eq, ◌==◌,
  if◌then◌else◌,
}
use lucid_agent_core.Prelude.Errors.{type_error, validation_error, Outcome, ok, raise, ◌>>=◌}
use lucid_agent_core.Prelude.Json.{Value, str, dict, Fields, get}
use lucid_agent_core.Prelude.Text.{all_chars, full_match, text_length}
use lucid_agent_core.Upgrade.{Env}
use Prim.Native.Char.{code}

abbrev between : ℕ → ℕ → ℕ → Bool
between lo hi c = leb lo c && leb c hi

-- `[a-z0-9_]`
abbrev pub is_id_char : ℕ → Bool
is_id_char c = between 97 122 c || between 48 57 c || nat_eq c 95

-- `[A-Za-z0-9_.-]`
abbrev pub is_name_char : ℕ → Bool
is_name_char c =
    between 65 90 c
    || between 97 122 c
    || between 48 57 c
    || nat_eq c 95
    || nat_eq c 46
    || nat_eq c 45

-- `[a-fA-F0-9]`
abbrev pub is_hex_char : ℕ → Bool
is_hex_char c = between 97 102 c || between 65 70 c || between 48 57 c

-- `^\d+\.\d+\.\d+$` from a place with so many dots to come, and whether a digit precedes it.
unfoldable pub semver_from : (ℕ → Bool) → ℕ → Bool → String → Bool
semver_from is_digit dots seen String.[] = seen && nat_eq dots 0
semver_from is_digit dots seen (String.◌∷◌ c s) =
    let digit = is_digit (code c) in
    let rest = semver_from is_digit (if digit then dots else dots - 1) digit s in
    (digit || nat_eq (code c) 46 && seen && leb 1 dots) && rest

abbrev pub is_semver : (ℕ → Bool) → String → Bool
is_semver is_digit = semver_from is_digit 2 false

abbrev pub is_sha256 : String → Bool
is_sha256 s = all_chars is_hex_char s && nat_eq (text_length s) 64

-- `extract_request_id_best_effort` and `extract_component_id_best_effort`
abbrev text_at : String → Value → String
text_at key (dict d) = elim (get key d) [ none ↦ "" | some v ↦ elim v [ str s ↦ s | _ ↦ "" ] ]
text_at key _ = ""

unfoldable pub extract_best_effort : Env → String → String → String
extract_best_effort e key raw = elim (e.loads raw) [
  | raise _ ↦ ""
  | ok o ↦ elim o [ none ↦ "" | some v ↦ text_at key v ]
]

-- `extract_version_best_effort`
version_at : Value → String
version_at (dict d) = elim (get "source" d) [ none ↦ "" | some source ↦ text_at "version" source ]
version_at _ = ""

unfoldable pub extract_version_best_effort : Env → String → String
unfolding version_at
extract_version_best_effort e raw = elim (e.loads raw) [
  | raise _ ↦ ""
  | ok o ↦ elim o [ none ↦ "" | some v ↦ version_at v ]
]

-- A value that must be a text with a property, else `ValidationError`.
unfoldable pub text_where : (String → Bool) → Option Value → Outcome String
text_where p (some (str s)) = if p s then ok s else raise validation_error
text_where p _ = raise validation_error

-- The same where the pattern is applied without a test of the type: `fullmatch` raises `TypeError`.
unfoldable pub match_where : (String → Bool) → Option Value → Outcome String
match_where p (some (str s)) = if p s then ok s else raise validation_error
match_where p _ = raise type_error

unfoldable pub required : String → Fields → Outcome Value
required key d = elim (get key d) [ none ↦ raise validation_error | some v ↦ ok v ]

unfoldable pub as_object : Option Value → Outcome Fields
as_object (some (dict d)) = ok d
as_object _ = raise validation_error

-- `json.loads`, and the payload as an object
unfoldable pub parse_object : Env → String → Outcome Fields
unfolding as_object
parse_object e raw = e.loads raw >>= as_object

abbrev pub non_empty : String → Bool
non_empty s = not (s == "")

pub record InstallRequest : Type 0 where
  pub request_id : String
  pub component_id : String
  pub owner : String
  pub repo : String
  pub version : String
  pub sha256 : String

-- `GithubReleaseSource.validate` and `InstallRequest.validate`, in their order
unfoldable pub validate_install : Env → Value → Value → Fields → Outcome InstallRequest
unfolding text_where match_where
validate_install e rid cid source = do
  request_id ← text_where non_empty (some rid)
  component_id ← text_where (full_match is_id_char) (some cid)
  _ ← text_where (λ s. s == "github_release") (get "type" source)
  owner ← match_where (full_match is_name_char) (get "owner" source)
  repo ← match_where (full_match is_name_char) (get "repo" source)
  version ← text_where (is_semver e.is_digit) (get "version" source)
  sha256 ← text_where is_sha256 (get "sha256" source)
  ok (record {
    request_id = request_id;
    component_id = component_id;
    owner = owner;
    repo = repo;
    version = version;
    sha256 = sha256;
  })

-- `_parse_and_validate` of component_installer.py
unfoldable pub parse_install : Env → String → Outcome InstallRequest
unfolding parse_object required validate_install
parse_install e raw = do
  payload ← parse_object e raw
  rid ← required "request_id" payload
  cid ← required "component_id" payload
  source ← required "source" payload
  fields ← as_object (some source)
  validate_install e rid cid fields

pub record UninstallRequest : Type 0 where
  pub request_id : String
  pub component_id : String

-- `_parse_and_validate` of component_uninstaller.py
unfoldable pub parse_uninstall : Env → String → Outcome UninstallRequest
unfolding parse_object required text_where
parse_uninstall e raw = do
  payload ← parse_object e raw
  rid ← required "request_id" payload
  cid ← required "component_id" payload
  request_id ← text_where non_empty (some rid)
  component_id ← text_where (full_match is_id_char) (some cid)
  ok (record { request_id = request_id; component_id = component_id })

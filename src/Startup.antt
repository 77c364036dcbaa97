-- ===== src/Startup.antt =====
-- config.py: the configuration that the agent starts with, from the environment and the env files.
pub mod Sound
mod Tests
use Prim.Native.Char.{code}
use lucid_agent_core.Prelude.{
  ℕ, zero, suc, ◌+◌, ◌-◌, ◌*◌, String, Bool, true, false, not, ◌&&◌, ◌||◌, Option, none, some, List,
  [], ◌∷◌, leb, nat_eq, ◌==◌, if◌then◌else◌, ◌⊎◌, inl, inr,
}
use lucid_agent_core.Prelude.Int.{ℤ, pos, negsuc, leb_ℕℤ, leb_ℤℕ}
use lucid_agent_core.Prelude.Dict.{Dict, lookup}
use lucid_agent_core.Prelude.Errors.{Exn, permission_error, Outcome, ok, raise, ◌>>=◌}

-- The rule that a `ConfigError` reports.
pub data ConfigError : Type 0 where
  missing invalid_integer : String → ConfigError
  port_out_of_range heartbeat_negative : ConfigError

abbrev pub Result : Type 0 → Type 0
Result A = ConfigError ⊎ A

-- The variables of the process, `os.environ`.
abbrev pub Environ : Type 0
Environ = Dict String

-- What a `Path` was joined of.
abbrev pub Parts : Type 0
Parts = List String

-- What the configuration asks of its surroundings: `sys.platform`, `Path.home()`, which may read a variable, the version in the
-- package's metadata, if it is installed, `Path.is_file` and `load_dotenv(p, override=False)`, if
-- python-dotenv is installed.
pub record Host : Type 0 where
  pub platform : String
  pub home : Environ → Parts
  pub installed_version : Option String
  pub is_file : Parts → Outcome Bool
  pub load_dotenv : Option (Parts → Environ → Outcome Environ)

pub record AgentConfig : Type 0 where
  pub mqtt_host : String
  pub mqtt_port : ℤ
  pub agent_username : String
  pub agent_password : String
  pub agent_version : String
  pub agent_heartbeat_s : ℤ

unfoldable pub package_version : Host → String
package_version h = elim h.installed_version [ none ↦ "0.0.0+dev" | some v ↦ v ]

abbrev pub system_path : Parts
system_path = "/home/lucid/lucid-agent-core/agent-core.env" ∷ []

abbrev pub project_path : Parts
project_path = ".env" ∷ []

-- `os.environ.get(key, default)`, as the start of a path
abbrev pub base_or : Option String → Parts → Parts
base_or none default = default
base_or (some v) default = v ∷ []

abbrev pub joined : Parts → Parts → Parts
joined [] q = q
joined (p ∷ ps) q = p ∷ joined ps q

unfoldable pub user_path : Host → Environ → Parts
user_path h env =
    joined
      (if h.platform == "win32"
        then base_or (lookup "APPDATA" env) (h.home env)
        else base_or (lookup "XDG_CONFIG_HOME" env) (joined (h.home env) (".config" ∷ [])))
      ("lucid-agent-core" ∷ ".env" ∷ [])

-- The `except PermissionError` of the loop.
abbrev pub unless_forbidden : Environ → Outcome Environ → Outcome Environ
unless_forbidden env (raise permission_error) = ok env
unless_forbidden env m = m

abbrev pub load_if : Bool → (Environ → Outcome Environ) → Environ → Outcome Environ
load_if true load env = load env
load_if false load env = ok env

-- The body of the loop over `_env_paths()`.
unfoldable pub load_path :
    Host → (Parts → Environ → Outcome Environ) → Parts → Environ → Outcome Environ
load_path h load p env =
    unless_forbidden env (h.is_file p >>= λ present. load_if present (load p) env)

-- The loop. `_env_paths` is a generator, so it asks for the user's directory after the first file.
unfoldable pub load_paths : Host → (Parts → Environ → Outcome Environ) → Environ → Outcome Environ
unfolding load_path user_path
load_paths h load env = load_path h load system_path env >>= λ env'.
    load_path h load (user_path h env') env' >>= load_path h load project_path

unfoldable pub load_files : Host → Bool → Environ → Outcome Environ
unfolding load_paths
load_files h enabled env = elim h.load_dotenv [
  | none ↦ ok env
  | some load ↦ if enabled then load_paths h load env else ok env
]

-- An `except` that turns a missing value into a `ConfigError`.
abbrev pub required : {A : Type 0} → ConfigError → Option A → Result A
required e none = inl e
required e (some a) = inr a

abbrev pub nonempty : Option String → Option String
nonempty none = none
nonempty (some v) = if v == "" then none else some v

unfoldable pub require_env : String → Environ → Result String
require_env key env = required (missing key) (nonempty (lookup key env))

-- `s.strip()`, on ASCII
abbrev pub is_space : ℕ → Bool
is_space n = (leb 9 n && leb n 13) || (leb 28 n && leb n 32)

unfoldable pub strip_left : String → String
strip_left String.[] = ""
strip_left (String.◌∷◌ c s) =
    let rest = strip_left s in if is_space (code c) then rest else String.◌∷◌ c s

unfoldable pub strip_right : String → String
strip_right String.[] = ""
strip_right (String.◌∷◌ c s) =
    let rest = strip_right s in if is_space (code c) && rest == "" then "" else String.◌∷◌ c rest

abbrev pub is_digit : ℕ → Bool
is_digit n = leb 48 n && leb n 57

-- Decimal digits with single underscores between them; the flag tells that a digit came before.
unfoldable pub digits : ℕ → Bool → String → Option ℕ
digits n after_digit String.[] = if after_digit then some n else none
digits n after_digit (String.◌∷◌ c s) =
    let rest =
      digits (if is_digit (code c) then n * 10 + (code c - 48) else n) (is_digit (code c)) s in
    if is_digit (code c) || (nat_eq (code c) 95 && after_digit) then rest else none

abbrev pub negated : ℕ → ℤ
negated zero = pos 0
negated (suc n) = negsuc n

unfoldable pub signed : String → Option ℤ
unfolding digits
signed String.[] = none
signed (String.◌∷◌ c s) =
    if nat_eq (code c) 45
    then elim (digits 0 false s) [ none ↦ none | some n ↦ some (negated n) ]
    else if nat_eq (code c) 43
    then elim (digits 0 false s) [ none ↦ none | some n ↦ some (pos n) ]
    else elim (digits 0 false (String.◌∷◌ c s)) [ none ↦ none | some n ↦ some (pos n) ]

-- `int(raw)`, on ASCII; `none` is its `ValueError`.
unfoldable pub int_of : String → Option ℤ
unfolding signed strip_left strip_right
int_of raw = signed (strip_left (strip_right raw))

unfoldable pub parse_int : String → String → Result ℤ
unfolding int_of
parse_int key raw = required (invalid_integer key) (int_of raw)

-- `os.getenv("AGENT_HEARTBEAT", "0")`
abbrev pub default_to : String → Option String → String
default_to d none = d
default_to d (some v) = v

infixl 5 ◌>=>◌
abbrev pub ◌>=>◌ : {A B : Type 0} → Result A → (A → Result B) → Result B
inl e >=> f = inl e
inr a >=> f = f a

-- `if not test: raise error`
abbrev pub check : Bool → ConfigError → Result Unit
check true e = inr tt
check false e = inl e

unfoldable pub read_config : String → Environ → Result AgentConfig
unfolding require_env parse_int
read_config version env = require_env "MQTT_HOST" env >=> λ host.
    require_env "MQTT_PORT" env >=> λ raw. parse_int "MQTT_PORT" raw >=> λ port.
    check (leb_ℕℤ 1 port && leb_ℤℕ port 65535) port_out_of_range >=> λ _.
    require_env "AGENT_USERNAME" env >=> λ username.
    require_env "AGENT_PASSWORD" env >=> λ password.
    parse_int "AGENT_HEARTBEAT" (default_to "0" (lookup "AGENT_HEARTBEAT" env)) >=> λ heartbeat.
    check (leb_ℕℤ 0 heartbeat) heartbeat_negative >=> λ _. inr record {
      mqtt_host = host;
      mqtt_port = port;
      agent_username = username;
      agent_password = password;
      agent_version = version;
      agent_heartbeat_s = heartbeat;
    }

-- The environment after the call, and the configuration; `raise` is an exception of another class.
unfoldable pub load_config : Host → Bool → Environ → Outcome (Environ × Result AgentConfig)
unfolding load_files read_config package_version
load_config h enabled env =
    load_files h enabled env >>= λ env'. ok (env', read_config (package_version h) env')

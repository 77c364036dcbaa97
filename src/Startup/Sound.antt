-- ===== src/Startup/Sound.antt =====
-- What load_config of config.py returns: the values that win, and their ranges. python-dotenv is
-- described by `Filling`, its documented behaviour for `override=False`.
use lucid_agent_core.Prelude.{
  eq_iff, String, ◌≡◌, refl, ap, sym, ◌∙◌, ◌≢◌, Bool, true, false, ◌&&◌, Option, none, some, [],
  arith, inl, inr, ◌==◌, Bool-cases,
}
use lucid_agent_core.Prelude.Int.{ℤ, leb_ℕℤ, leb_ℤℕ}
use lucid_agent_core.Prelude.Dict.{lookup}
use lucid_agent_core.Prelude.Errors.{Exn, Outcome, ok, raise, Outcome-cases, ◌>>=◌}
use lucid_agent_core.Startup.{
  default_to, heartbeat_negative, nonempty, port_out_of_range, missing, required, parse_int, int_of,
  require_env, Host, Parts, Environ, AgentConfig, Result, ConfigError, load_path, load_paths,
  load_files, load_config, user_path, system_path, project_path, unless_forbidden, load_if,
  package_version, read_config, ◌>=>◌, check,
}

abbrev pub first_of : Option String → Option String → Option String
first_of none o = o
first_of (some v) o = some v

-- A file sets the variables that are not set, and no others; one that cannot be read raises.
pub record Filling (load : Parts → Environ → Outcome Environ) : Type 0 where
  pub content : Parts → Outcome Environ
  pub fails : (p : Parts) (env : Environ) (e : Exn) → content p ≡ raise e → load p env ≡ raise e
  pub fills :
      (p : Parts) (env d : Environ)
      → content p ≡ ok d
      → (env' : Environ) × (load p env ≡ ok env')
        × ((k : String) → lookup k env' ≡ first_of (lookup k env) (lookup k d))

abbrev pub seen : Outcome Bool → Outcome Environ → Environ
seen (ok true) (ok d) = d
seen _ _ = []

-- What a path offers: nothing where it is no file or may not be read.
abbrev pub visible : Host → (Parts → Outcome Environ) → Parts → Environ
visible h content p = seen (h.is_file p) (content p)

-- Each variable has its first value in this order: the process, the system file, the user's file,
-- whose place is read off the environment after the system file, and the project's file. A file that
-- is absent or forbidden offers none.
pub record FirstWins (h : Host) (content : Parts → Outcome Environ) (env env' : Environ)
    : Type 0 where
  pub first : Environ
  pub system :
      (k : String)
      → lookup k first ≡ first_of (lookup k env) (lookup k (visible h content system_path))
  pub later :
      (k : String)
      → lookup k env'
        ≡ first_of (lookup k first) (
            first_of
              (lookup k (visible h content (user_path h first)))
              (lookup k (visible h content project_path)))

>>=-ok :
    {A B : Type 0} (m : Outcome A) (f : A → Outcome B) (b : B)
    → (m >>= f) ≡ ok b
    → (a : A) × (m ≡ ok a) × (f a ≡ ok b)
>>=-ok (ok a) f b h = (a, refl, h)
>>=-ok (raise e) f b h = cc h

>=>-inr :
    {A B : Type 0} (m : Result A) (f : A → Result B) (b : B)
    → (m >=> f) ≡ inr b
    → (a : A) × (m ≡ inr a) × (f a ≡ inr b)
>=>-inr (inl e) f b h = cc h
>=>-inr (inr a) f b h = (a, refl, h)

unless_forbidden-raise :
    (env : Environ) (e : Exn) (env' : Environ)
    → unless_forbidden env (raise e) ≡ ok env'
    → env ≡ env'
unless_forbidden-raise env e env' h = ground arith

pub first_of-none : (o : Option String) → o ≡ first_of o none
first_of-none none = refl
first_of-none (some v) = refl

first_of_assoc : (a b c : Option String) → first_of (first_of a b) c ≡ first_of a (first_of b c)
first_of_assoc none b c = refl
first_of_assoc (some v) b c = refl

module _ (h : Host) (load : Parts → Environ → Outcome Environ) (filling : Filling load) where
  load_if-fills :
      (p : Parts) (env env' : Environ) (present : Bool)
      → h.is_file p ≡ ok present
      → unless_forbidden env (load_if present (load p) env) ≡ ok env'
      → (k : String)
      → lookup k env' ≡ first_of (lookup k env) (lookup k (visible h filling.content p))
  unfolding lookup
  load_if-fills p env env' false is eq k =
      let same : env ≡ env' = cc eq in rw (is, ← same) (first_of-none (lookup k env))
  load_if-fills p env env' true is eq k = elim (Outcome-cases (filling.content p)) [
    | inl (d, loaded) ↦
        let (new, returns, values) = filling.fills p env d loaded in
        let same : new ≡ env' = cc (eq, returns) in rw (is, loaded, ← same) (values k)
    | inr (e, failed) ↦
        let same : env ≡ env' =
          unless_forbidden-raise env e env'
            (ap (unless_forbidden env) (sym (filling.fails p env e failed)) ∙ eq) in
        rw (is, failed, ← same) (first_of-none (lookup k env))
  ]

  load_path-fills :
      (p : Parts) (env env' : Environ)
      → load_path h load p env ≡ ok env'
      → (k : String)
      → lookup k env' ≡ first_of (lookup k env) (lookup k (visible h filling.content p))
  unfolding load_path lookup
  load_path-fills p env env' eq k = elim (Outcome-cases (h.is_file p)) [
    | inl (present, is) ↦
        load_if-fills p env env' present is
          (ap (λ m. unless_forbidden env (m >>= λ present. load_if present (load p) env)) (sym is)
            ∙ eq)
          k
    | inr (e, failed) ↦
        let same : env ≡ env' = unless_forbidden-raise env e env' (
          ap (λ m. unless_forbidden env (m >>= λ present. load_if present (load p) env))
            (sym failed)
          ∙ eq) in
        rw (failed, ← same) (first_of-none (lookup k env))
  ]

  load_paths-FirstWins :
      (env env' : Environ) → load_paths h load env ≡ ok env' → FirstWins h filling.content env env'
  unfolding load_paths
  load_paths-FirstWins env env' eq =
      let (after, one, rest) = >>=-ok (load_path h load system_path env) _ env' eq in
      let (second, two, three) = >>=-ok (load_path h load (user_path h after) after) _ env' rest in
      record {
        first = after;
        system = load_path-fills system_path env after one;
        later = λ k.
            load_path-fills project_path second env' three k
            ∙ ap (λ o. first_of o (lookup k (visible h filling.content project_path)))
                (load_path-fills (user_path h after) after second two k)
            ∙ first_of_assoc (lookup k after)
                (lookup k (visible h filling.content (user_path h after)))
                (lookup k (visible h filling.content project_path));
      }

load_files-paths :
    (h : Host) (load : Parts → Environ → Outcome Environ) (env : Environ)
    → h.load_dotenv ≡ some load
    → load_files h true env ≡ load_paths h load env
unfolding load_files
load_files-paths h load env has = rw has refl

-- Where python-dotenv only fills: if `load_config` returns, the environment that it has read the
-- configuration from has the first value of each variable, as `FirstWins` says.
pub load_config-FirstWins :
    (h : Host) (load : Parts → Environ → Outcome Environ)
    → h.load_dotenv ≡ some load
    → (filling : Filling load) (env env' : Environ) (r : Result AgentConfig)
    → load_config h true env ≡ ok (env', r)
    → (r ≡ read_config (package_version h) env') × FirstWins h filling.content env env'
unfolding load_config
load_config-FirstWins h load has filling env env' r eq =
    let (loaded, files, rest) = >>=-ok (load_files h true env) _ (env', r) eq in
    let same : loaded ≡ env' = cc rest in
    let read : read_config (package_version h) loaded ≡ r = cc rest in
    (
      sym read ∙ ap (read_config (package_version h)) same,
      load_paths-FirstWins h load filling env env'
          (sym (load_files-paths h load env has) ∙ files ∙ ap ok same),
    )

-- A configuration that is read from the environment, in its ranges.
pub record IsLoaded (h : Host) (env : Environ) (c : AgentConfig) : Type 0 where
  pub host : (lookup "MQTT_HOST" env ≡ some c.mqtt_host) × (c.mqtt_host ≢ "")
  pub username : (lookup "AGENT_USERNAME" env ≡ some c.agent_username) × (c.agent_username ≢ "")
  pub password : (lookup "AGENT_PASSWORD" env ≡ some c.agent_password) × (c.agent_password ≢ "")
  pub port : (raw : String) × (lookup "MQTT_PORT" env ≡ some raw) × (int_of raw ≡ some c.mqtt_port)
  pub port_range : (leb_ℕℤ 1 c.mqtt_port ≡ true) × (leb_ℤℕ c.mqtt_port 65535 ≡ true)
  pub heartbeat :
      (int_of (default_to "0" (lookup "AGENT_HEARTBEAT" env)) ≡ some c.agent_heartbeat_s)
      × (leb_ℕℤ 0 c.agent_heartbeat_s ≡ true)
  pub version : c.agent_version ≡ package_version h

required-nonempty :
    (e : ConfigError) (o : Option String) (v : String)
    → required e (nonempty o) ≡ inr v
    → (o ≡ some v) × (v ≢ "")
required-nonempty e none v h = cc h
required-nonempty e (some w) v h = elim (Bool-cases (w == "")) [
  | inl empty ↦ cc (h, empty)
  | inr full ↦
      let same : w ≡ v = ground arith in
      (ap some same, λ empty. absurd (ground (arith, eq_iff w "")))
]

require_env-inr :
    (key : String) (env : Environ) (v : String)
    → require_env key env ≡ inr v
    → (lookup key env ≡ some v) × (v ≢ "")
unfolding require_env
require_env-inr key env v h = required-nonempty (missing key) (lookup key env) v h

parse_int-inr : (key raw : String) (z : ℤ) → parse_int key raw ≡ inr z → int_of raw ≡ some z
unfolding parse_int
parse_int-inr key raw z h = ground arith

check-inr : (b : Bool) (e : ConfigError) (u : Unit) → check b e ≡ inr u → b ≡ true
check-inr b e u h = ground arith

read-IsLoaded :
    (h : Host) (env : Environ) (c : AgentConfig) (host raw user pass : String) (port beat : ℤ)
    → (lookup "MQTT_HOST" env ≡ some host) × (host ≢ "")
    → (lookup "MQTT_PORT" env ≡ some raw) × (raw ≢ "")
    → int_of raw ≡ some port
    → (leb_ℕℤ 1 port && leb_ℤℕ port 65535) ≡ true
    → (lookup "AGENT_USERNAME" env ≡ some user) × (user ≢ "")
    → (lookup "AGENT_PASSWORD" env ≡ some pass) × (pass ≢ "")
    → int_of (default_to "0" (lookup "AGENT_HEARTBEAT" env)) ≡ some beat
    → leb_ℕℤ 0 beat ≡ true
    → record {
      mqtt_host = host;
      mqtt_port = port;
      agent_username = user;
      agent_password = pass;
      agent_version = package_version h;
      agent_heartbeat_s = beat;
    }
      ≡ c
    → IsLoaded h env c
read-IsLoaded h env c host raw user pass port beat a b d e f g i j same = rw (← same) record {
  host = a;
  username = f;
  password = g;
  port = (raw, b.0, d);
  port_range = (ground arith, ground arith);
  heartbeat = (i, j);
  version = refl;
}

read_config-IsLoaded :
    (h : Host) (env : Environ) (c : AgentConfig)
    → read_config (package_version h) env ≡ inr c
    → IsLoaded h env c
unfolding read_config
read_config-IsLoaded h env c eq =
    let (host, a, eq1) = >=>-inr (require_env "MQTT_HOST" env) _ c eq in
    let (raw, b, eq2) = >=>-inr (require_env "MQTT_PORT" env) _ c eq1 in
    let (port, d, eq3) = >=>-inr (parse_int "MQTT_PORT" raw) _ c eq2 in
    let (u1, e, eq4) =
      >=>-inr (check (leb_ℕℤ 1 port && leb_ℤℕ port 65535) port_out_of_range) _ c eq3 in
    let (user, f, eq5) = >=>-inr (require_env "AGENT_USERNAME" env) _ c eq4 in
    let (pass, g, eq6) = >=>-inr (require_env "AGENT_PASSWORD" env) _ c eq5 in
    let (beat, i, eq7) =
      >=>-inr (parse_int "AGENT_HEARTBEAT" (default_to "0" (lookup "AGENT_HEARTBEAT" env))) _ c
        eq6 in
    let (u2, j, eq8) = >=>-inr (check (leb_ℕℤ 0 beat) heartbeat_negative) _ c eq7 in
    read-IsLoaded h env c host raw user pass port beat (require_env-inr "MQTT_HOST" env host a)
      (require_env-inr "MQTT_PORT" env raw b) (parse_int-inr "MQTT_PORT" raw port d)
      (check-inr (leb_ℕℤ 1 port && leb_ℤℕ port 65535) port_out_of_range u1 e)
      (require_env-inr "AGENT_USERNAME" env user f) (require_env-inr "AGENT_PASSWORD" env pass g)
      (parse_int-inr "AGENT_HEARTBEAT" (default_to "0" (lookup "AGENT_HEARTBEAT" env)) beat i)
      (check-inr (leb_ℕℤ 0 beat) heartbeat_negative u2 j) (cc eq8)

-- If `load_config` returns a configuration, then it is the one of the environment it has loaded, the
-- host, the name and the password are not empty, the port is an int from 1 to 65535, the heartbeat one
-- that is not negative, 0 if it is not set, and the version that of the package.
pub load_config-IsLoaded :
    (h : Host) (enabled : Bool) (env env' : Environ) (c : AgentConfig)
    → load_config h enabled env ≡ ok (env', inr c)
    → IsLoaded h env' c
unfolding load_config
load_config-IsLoaded h enabled env env' c eq =
    let (loaded, files, rest) = >>=-ok (load_files h enabled env) _ (env', inr c) eq in
    let same : loaded ≡ env' = cc rest in rw (← same) (read_config-IsLoaded h loaded c (cc rest))

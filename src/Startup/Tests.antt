-- ===== src/Startup/Tests.antt =====
-- Runs of load_config of config.py.
use lucid_agent_core.Prelude.{
  eq_iff, arith, map, String, ◌≡◌, refl, true, Option, none, some, [], ◌∷◌, ◌==◌, if◌then◌else◌,
  inr,
}
use lucid_agent_core.Prelude.Int.{pos, negsuc}
use lucid_agent_core.Prelude.Dict.{lookup-insert, lookup, insert}
use lucid_agent_core.Prelude.Errors.{permission_error, Outcome, ok, raise}
use lucid_agent_core.Startup.{
  Host, Parts, Environ, AgentConfig, load_config, int_of, read_config, package_version,
}
use lucid_agent_core.Startup.Sound.{
  Filling, first_of, load_config-FirstWins, load_config-IsLoaded, FirstWins, IsLoaded,
  first_of-none,
}

int_of-text :
    map int_of ("1883" ∷ " +1_000 " ∷ "-2" ∷ "1__0" ∷ "" ∷ "1.5" ∷ "_1" ∷ "-0" ∷ [])
    ≡ some (pos 1883)
      ∷ some (pos 1000)
      ∷ some (negsuc 1)
      ∷ none
      ∷ none
      ∷ none
      ∷ none
      ∷ some (pos 0)
      ∷ []
unfolding int_of
int_of-text = refl

abbrev fill : Environ → Environ → Environ
fill env [] = env
fill env ((k, v) ∷ d) = elim (lookup k env) [ none ↦ insert k v (fill env d) | some w ↦ fill env d ]

lookup-fill_one :
    (j v k : String) (env d : Environ)
    → lookup k (fill env d) ≡ first_of (lookup k env) (lookup k d)
    → (o : Option String) → lookup j env ≡ o
    → lookup k (elim o [ none ↦ insert j v (fill env d) | some w ↦ fill env d ])
      ≡ first_of (lookup k env) (if j == k then some v else lookup k d)
lookup-fill_one j v k env d rest none h =
    rw (lookup-insert j k v (fill env d)) (ground (arith, eq_iff j k, rest))
lookup-fill_one j v k env d rest (some w) h = ground (arith, eq_iff j k, rest)

lookup-fill :
    (env d : Environ) (k : String) → lookup k (fill env d) ≡ first_of (lookup k env) (lookup k d)
unfolding lookup
lookup-fill env [] k = first_of-none (lookup k env)
lookup-fill env ((j, v) ∷ d) k =
    lookup-fill_one j v k env d (lookup-fill env d k) (lookup j env) refl

abbrev content : Parts → Outcome Environ
content [] = raise permission_error
content (p ∷ ps) =
    if p == "/home/lucid/lucid-agent-core/agent-core.env"
    then ok (("MQTT_HOST", "system") ∷ ("MQTT_PORT", "1883") ∷ ("XDG_CONFIG_HOME", "/xdg") ∷ [])
    else if p == ".env"
    then ok (
        ("MQTT_HOST", "project")
        ∷ ("AGENT_USERNAME", "project")
        ∷ ("AGENT_PASSWORD", "secret")
        ∷ [])
    else raise permission_error

abbrev merge : Environ → Outcome Environ → Outcome Environ
merge env (ok d) = ok (fill env d)
merge env (raise e) = raise e

abbrev dotenv : Parts → Environ → Outcome Environ
dotenv p env = merge env (content p)

dotenv-Filling : Filling dotenv
dotenv-Filling = record {
  content = content;
  fails = λ p env e h. rw h refl;
  fills = λ p env d h. (fill env d, rw h refl, lookup-fill env d);
}

abbrev host : Host
host = record {
  platform = "linux";
  home = λ env. "/root" ∷ [];
  installed_version = none;
  is_file = λ p. ok true;
  load_dotenv = some dotenv;
}

abbrev process : Environ
process = ("AGENT_USERNAME", "process") ∷ []

abbrev config : AgentConfig
config = record {
  mqtt_host = "system";
  mqtt_port = pos 1883;
  agent_username = "process";
  agent_password = "secret";
  agent_version = "0.0.0+dev";
  agent_heartbeat_s = pos 0;
}

abbrev loaded : Environ
loaded =
    ("AGENT_USERNAME", "process")
    ∷ ("XDG_CONFIG_HOME", "/xdg")
    ∷ ("MQTT_PORT", "1883")
    ∷ ("MQTT_HOST", "system")
    ∷ ("AGENT_PASSWORD", "secret")
    ∷ []

load_config-runs : load_config host true process ≡ ok (loaded, inr config)
unfolding load_config lookup insert
load_config-runs = refl

load_config-FirstWins_example :
    (inr config ≡ read_config (package_version host) loaded)
    × FirstWins host dotenv-Filling.content process loaded
load_config-FirstWins_example =
    load_config-FirstWins host dotenv refl dotenv-Filling process loaded (inr config)
      load_config-runs

load_config-IsLoaded_example : IsLoaded host loaded config
load_config-IsLoaded_example = load_config-IsLoaded host true process loaded config load_config-runs

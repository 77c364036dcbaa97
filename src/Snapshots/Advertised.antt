-- ===== src/Snapshots/Advertised.antt =====
-- The schema of core/snapshots.py against the topics of mqtt_topics.py.
use lucid_agent_core.Prelude.{String, ◌≡◌, refl, true, List, [], ◌∷◌, map, ◌<>◌}
use lucid_agent_core.Prelude.Json.{Fields, end, field, has}
use lucid_agent_core.Snapshots.Schema.{publishes, subscribes}
use lucid_agent_core.Topics.{Retained, retained_name, Command, action_of}

abbrev pub commands : List Command
commands =
    Command.ping ∷ Command.restart ∷ Command.refresh ∷ Command.cfg_set ∷ Command.cfg_logging_set
    ∷ Command.cfg_telemetry_set ∷ Command.components_install ∷ Command.components_uninstall
    ∷ Command.components_enable ∷ Command.components_disable ∷ Command.components_upgrade
    ∷ Command.core_upgrade ∷ []

abbrev pub keys_of : Fields → List String
keys_of end = []
keys_of (field k v d) = k ∷ keys_of d

has-command : (c : Command) → has ("cmd/" <> action_of c) subscribes ≡ true
unfolding has
has-command Command.ping = refl
has-command Command.restart = refl
has-command Command.refresh = refl
has-command Command.cfg_set = refl
has-command Command.cfg_logging_set = refl
has-command Command.cfg_telemetry_set = refl
has-command Command.components_install = refl
has-command Command.components_uninstall = refl
has-command Command.components_enable = refl
has-command Command.components_disable = refl
has-command Command.components_upgrade = refl
has-command Command.core_upgrade = refl

has-retained : (r : Retained) → has (retained_name r) publishes ≡ true
unfolding has
has-retained Retained.metadata = refl
has-retained Retained.status = refl
has-retained Retained.state = refl
has-retained Retained.cfg = refl
has-retained Retained.cfg_telemetry = refl
has-retained Retained.cfg_logging = refl
has-retained Retained.schema = refl

-- The schema lists every command topic of the agent under "subscribes", and nothing else, and every
-- retained topic under "publishes".
advertised :
    (c : Command) (r : Retained)
    → (has ("cmd/" <> action_of c) subscribes ≡ true)
      × (has (retained_name r) publishes ≡ true)
      × (keys_of subscribes ≡ map (λ d. "cmd/" <> action_of d) commands)
advertised c r = (has-command c, has-retained r, refl)

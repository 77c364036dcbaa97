-- ===== src/Topics.antt =====
-- mqtt_topics.py: the topics of an agent, and mqtt/client.py, `_publish_cmd_failure`: the result topic
-- that is derived from a command's topic.
pub mod Distinct
mod Tests
use Prim.Native.Char.{code}
use lucid_agent_core.Prelude.{String, Option, none, some, nat_eq, ◌==◌, ◌<>◌, if◌then◌else◌}
use lucid_agent_core.Prelude.Errors.{value_error, Outcome, ok, raise, ◌>>=◌}
use lucid_agent_core.Prelude.Text.{full_match}
use lucid_agent_core.Upgrade.Request.{is_id_char}

-- `_validate_agent_id` and `_validate_component_id`; `TopicSchemaError` is a `ValueError`.
unfoldable pub validate_id : String → Outcome String
validate_id s = if full_match is_id_char s then ok s else raise value_error

-- `TopicSchema`, of an agent id that has been validated.
pub record TopicSchema : Type 0 where
  pub agent_username : String

-- `TopicSchema(agent_username)`
unfoldable pub schema_of : String → Outcome TopicSchema
unfolding validate_id
schema_of agent_username = do id ← validate_id agent_username; ok (record { agent_username = id })

abbrev pub base : TopicSchema → String
base t = "lucid/agents/" <> t.agent_username

-- The retained topics of the agent.
pub data Retained : Type 0 where
  metadata status state cfg cfg_telemetry cfg_logging schema : Retained

abbrev pub retained_name : Retained → String
retained_name metadata = "metadata"
retained_name status = "status"
retained_name state = "state"
retained_name cfg = "cfg"
retained_name cfg_telemetry = "cfg/telemetry"
retained_name cfg_logging = "cfg/logging"
retained_name schema = "schema"

abbrev pub retained_topic : TopicSchema → Retained → String
retained_topic t r = base t <> "/" <> retained_name r

abbrev pub logs_topic : TopicSchema → String
logs_topic t = base t <> "/logs"

abbrev pub telemetry_topic : TopicSchema → String → String
telemetry_topic t metric = base t <> "/telemetry/" <> metric

-- The commands of the agent, and their actions.
pub data Command : Type 0 where
  ping restart refresh : Command
  components_install components_uninstall components_enable components_disable : Command
  components_upgrade core_upgrade cfg_set cfg_logging_set cfg_telemetry_set : Command

abbrev pub action_of : Command → String
action_of ping = "ping"
action_of restart = "restart"
action_of refresh = "refresh"
action_of components_install = "components/install"
action_of components_uninstall = "components/uninstall"
action_of components_enable = "components/enable"
action_of components_disable = "components/disable"
action_of components_upgrade = "components/upgrade"
action_of core_upgrade = "core/upgrade"
action_of cfg_set = "cfg/set"
action_of cfg_logging_set = "cfg/logging/set"
action_of cfg_telemetry_set = "cfg/telemetry/set"

-- `cmd_ping()` and the methods after it
abbrev pub cmd_topic : TopicSchema → Command → String
cmd_topic t c = base t <> "/cmd/" <> action_of c

abbrev pub evt_result : TopicSchema → String → String
evt_result t action = base t <> "/evt/" <> action <> "/result"

abbrev pub evt_components_result : TopicSchema → String → String
evt_components_result t action = base t <> "/evt/components/" <> action <> "/result"

unfoldable pub component_base : TopicSchema → String → Outcome String
unfolding validate_id
component_base t component_id = do
  id ← validate_id component_id
  ok (base t <> "/components/" <> id)

-- `component_metadata` and `component_status`, and the three `component_cmd_cfg_…_set`, by their ends
unfoldable pub component_topic : TopicSchema → String → String → Outcome String
unfolding component_base
component_topic t component_id rest = do
  root ← component_base t component_id
  ok (root <> "/" <> rest)

unfoldable pub component_cmd : TopicSchema → String → String → Outcome String
unfolding component_base
component_cmd t component_id action = do
  _ ← validate_id component_id
  if action == ""
      then raise value_error
      else (do root ← component_base t component_id; ok (root <> "/cmd/" <> action))

-- What follows a prefix, if the text starts with it.
unfoldable pub strip_prefix : String → String → Option String
strip_prefix String.[] s = some s
strip_prefix (String.◌∷◌ p ps) String.[] = none
strip_prefix (String.◌∷◌ p ps) (String.◌∷◌ c s) =
    let rest = strip_prefix ps s in if nat_eq (code p) (code c) then rest else none

-- `cmd_topic.replace("/cmd/", "/evt/", 1)`; `none` if there is nothing to replace.
unfoldable pub replace_cmd : String → Option String
unfolding strip_prefix
replace_cmd String.[] = none
replace_cmd (String.◌∷◌ c s) =
    let rest = replace_cmd s in
    elim (strip_prefix "/cmd/" (String.◌∷◌ c s)) [
      | some tail ↦ some ("/evt/" <> tail)
      | none ↦ elim rest [ none ↦ none | some r ↦ some (String.◌∷◌ c r) ]
    ]

-- `_publish_cmd_failure`: the topic it publishes to, if it does.
unfoldable pub failure_topic : String → String → Option String
unfolding replace_cmd
failure_topic cmd_topic request_id =
    if request_id == ""
    then none
    else elim (replace_cmd cmd_topic) [ none ↦ none | some r ↦ some (r <> "/result") ]

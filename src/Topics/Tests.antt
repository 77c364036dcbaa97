-- ===== src/Topics/Tests.antt =====
-- Topics of an agent, and the one case in which a derived result topic is wrong.
use lucid_agent_core.Prelude.{◌≡◌, refl, some}
use lucid_agent_core.Topics.{TopicSchema, ping, cmd_topic, evt_result, failure_topic}

abbrev pi : TopicSchema
pi = record { agent_username = "pi_1" }

abbrev cmd : TopicSchema
cmd = record { agent_username = "cmd" }

result_topic : failure_topic (cmd_topic pi ping) "r" ≡ some (evt_result pi "ping")
unfolding failure_topic
result_topic = refl

-- For the agent id "cmd" the id is replaced, and not the segment after it.
wrong_result_topic :
    failure_topic (cmd_topic cmd ping) "r" ≡ some "lucid/agents/evt/cmd/ping/result"
unfolding failure_topic
wrong_result_topic = refl

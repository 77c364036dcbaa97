-- ===== src/Handlers/Tests.antt =====
-- Commands of core/handlers in a small agent.
use lucid_agent_core.Prelude.{
  ◌≡◌, ◌<◌, refl, true, false, none, some, [], ◌∷◌, leb, ◌==◌, if◌then◌else◌,
}
use lucid_agent_core.Prelude.Errors.{ok}
use lucid_agent_core.Prelude.Json.{null, str, list, nil, dict, end, field, get}
use lucid_agent_core.Config.Store.{missing}
use lucid_agent_core.Config.Store
use lucid_agent_core.Registry.{ReadFault, WriteFault}
use lucid_agent_core.Upgrade.{Env}
use lucid_agent_core.Dedup.{SeenRequestIds, check_and_add}
use lucid_agent_core.Dedup
use lucid_agent_core.Restart.{Sentinel}
use lucid_agent_core.Topics.{Command}
use lucid_agent_core.Handlers.{Setup, Agent, result, published, result_topic, request_id, id_text}
use lucid_agent_core.Handlers.Handle.{handle}
use lucid_agent_core.Handlers.Duplicate.{rejected, handle-rejected}
use lucid_agent_core.Handlers.Answers.{answers}
use lucid_agent_core.Handlers.Answered.{handle-answers}

abbrev env : Env
env = record {
  loads =
      λ raw. ok (if raw == "ping 7" then some (dict (field "request_id" (str "7") end)) else none);
  is_digit = λ c. leb 48 c;
  lower = λ s. s;
  sha256 = λ bytes. "aa";
  release = λ url. ok (list nil);
  response = λ url. ok [];
  pip_exists = true;
  returncode = λ log c. 0;
  entry_points = λ log. [];
  importable = λ log module_name class_name. true;
  read_fault = ReadFault.readable;
  write_fault = WriteFault.writable;
}

abbrev setup : Setup
setup = record {
  env = env;
  reader = record {
    archive = λ bytes. none;
    splitlines = λ s. [];
    strip = λ s. s;
    match_dep = λ s. none;
  };
  topics = record { agent_username = "a" };
  convert = record {
    int_of_text = λ s. none;
    float_of_text = λ s. none;
    float_of_int = λ z. ok (z, 0);
    text_of = λ v. "INFO";
  };
  host = record {
    invocation_id = none;
    systemd_dir = false;
    platform = "linux";
    parent_pid = 2;
    lucid_managed = none;
  };
  request = λ es. record { now = 0; sentinel = Sentinel.works; killable = true };
  publishes = λ es m. true;
  flushes = λ es. true;
  config_fault = λ es. Store.no_fault;
  manager = none;
  name_of = λ v. "";
  refreshes = true;
  metadata = null;
  status = λ es. null;
}

abbrev agent : SeenRequestIds → Agent
agent seen = record {
  seen = seen;
  store = record { cache = none; file = missing };
  world = record { registry_file = missing; pip_log = [] };
  sentinel = none;
  events = [];
}

abbrev seen_7 : SeenRequestIds
seen_7 = record { maxsize = 10; queue = "7" ∷ []; seen = "7" ∷ [] }

-- A new ping is answered.
ping_answered :
    (handle setup Command.ping "ping 7" (agent (Dedup.new 10))).1.events
    ≡ published (result "lucid/agents/a/evt/ping/result" (str "7") true) ∷ []
unfolding handle request_id get check_and_add
ping_answered = refl

handle-rejected_example :
    handle setup Command.ping "ping 7" (agent seen_7)
    ≡ (ok tt, rejected setup Command.ping (str "7") seen_7 (agent seen_7))
unfolding request_id get id_text check_and_add
handle-rejected_example =
    handle-rejected setup Command.ping "ping 7" (str "7") seen_7 (agent seen_7) refl
      (record { id = "7"; text = refl; known = refl; works = refl })

handle-answers_example :
    answers (result_topic setup Command.ping) []
    < answers
        (result_topic setup Command.ping)
        (handle setup Command.ping "ping 7" (agent (Dedup.new 10))).1.events
unfolding handle request_id get check_and_add
handle-answers_example =
    handle-answers setup (λ es m. refl) Command.ping "ping 7" (agent (Dedup.new 10)) refl

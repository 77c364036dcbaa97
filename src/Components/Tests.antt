-- ===== src/Components/Tests.antt =====
-- A component of two actions that is subscribed and stopped.
use lucid_agent_core.Components.{find_component}
use lucid_agent_core.Prelude.Dict.{insert}
use lucid_agent_core.Topics.{component_cmd}
use lucid_agent_core.Prelude.{String, ◌≡◌, refl, Bool, true, false, none, some, [], ◌∷◌, ◌==◌}
use lucid_agent_core.Prelude.Dict.{lookup, keys}
use lucid_agent_core.Components.{Component, Client, subscribe_component_topics, stop_component}
use lucid_agent_core.Components.Loader.{Runtime, entrypoint_of, parse_entrypoint}
use lucid_agent_core.Components.Start.{start_component}
use lucid_agent_core.Components.Start.Reverse.{stop-start}
use lucid_agent_core.Registry.{Registry}
use lucid_agent_core.Prelude.Errors.{ok}
use lucid_agent_core.Prelude.Json.{str, end, field, get}

abbrev led : Component
led = record {
  component_id = "led";
  capabilities = some ("reset" ∷ "effect/glow" ∷ []);
  has_method = λ name. name == "on_cmd_effect_glow";
}

abbrev client : Bool → Client
client connected = record {
  connected = connected;
  topics = record { agent_username = "a" };
  components = led ∷ [];
  handlers = ("lucid/agents/a/cmd/ping", record { component_id = ""; action = "ping" }) ∷ [];
  tracked = [];
  subscribed = [];
}

-- Only the action with a method is subscribed.
keys-subscribed :
    keys (subscribe_component_topics led "led" (client true)).1.handlers
    ≡ "lucid/agents/a/cmd/ping" ∷ "lucid/agents/a/components/led/cmd/effect/glow" ∷ []
unfolding subscribe_component_topics keys component_cmd lookup insert
keys-subscribed = refl

-- A stop without a connection leaves the handler and forgets its topic.
leaked_handler :
    keys
      (stop_component
        (λ _. false)
        true
        "led"
        (record (subscribe_component_topics led "led" (client true)).1 {
          connected = false;
        })).1.handlers
    ≡ "lucid/agents/a/cmd/ping" ∷ "lucid/agents/a/components/led/cmd/effect/glow" ∷ []
unfolding subscribe_component_topics stop_component keys component_cmd lookup insert
leaked_handler = refl

abbrev runtime : Runtime
runtime = record {
  import_class = λ module_path class_name. ok true;
  construct = λ module_path class_name cid meta. ok led;
  start = λ comp. ok tt;
}

-- An entry that can be loaded.
abbrev registry : Registry
registry = ("led", field "entrypoint" (str "led.main:Led") end) ∷ []

-- A client without components.
abbrev bare : Client
bare = record (client true) { components = [] }

-- The component is loaded, and its topic subscribed.
abbrev started : Client
started = (subscribe_component_topics led "led" (client true)).1

started_led :
    start_component runtime "led" (λ comp. none) registry (ok []) bare ≡ (ok true, started)
unfolding start_component subscribe_component_topics find_component component_cmd lookup insert get
    entrypoint_of parse_entrypoint
started_led = refl

stop-start_example :
    ((stop_component (λ _. false) true "led" started).0 ≡ true)
    × ((k : String)
        → lookup k (stop_component (λ _. false) true "led" started).1.handlers
          ≡ lookup k bare.handlers)
unfolding find_component lookup subscribe_component_topics component_cmd insert
stop-start_example =
    stop-start runtime "led" (λ comp. none) registry (ok []) bare started led refl refl started_led
      refl

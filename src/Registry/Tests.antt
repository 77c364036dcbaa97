-- ===== src/Registry/Tests.antt =====
-- The registry of components/registry.py at concrete data.
use lucid_agent_core.Config.Store.Sorted.{insert_field}
use lucid_agent_core.Registry.{to_fields}
use mathlib.Core.Option
use lucid_agent_core.Prelude.{String, ◌≡◌, refl, [], ◌∷◌}
use lucid_agent_core.Prelude.Dict.{lookup}
use lucid_agent_core.Prelude.Errors.{ok}
use lucid_agent_core.Prelude.Json.{str, dict, end, field}
use lucid_agent_core.Config.Store.{missing, json}
use lucid_agent_core.Config.Store.Sorted.{sorted_fields}
use lucid_agent_core.Registry.{Registry, ReadFault, WriteFault, load_registry, write_registry}
use lucid_agent_core.Registry.Reload.{load-write}

abbrev two : Registry
two = ("led", field "version" (str "1.0.0") end) ∷ ("cam", field "version" (str "2.0.0") end) ∷ []

load-write_example :
    (back : Registry) × (load_registry ReadFault.readable (
        json (
          dict (
            field "cam"
              (dict (field "version" (str "2.0.0") end))
              (field "led" (dict (field "version" (str "1.0.0") end)) end))))
      ≡ (
        ok back,
        json (
            dict (
              field "cam"
                (dict (field "version" (str "2.0.0") end))
                (field "led" (dict (field "version" (str "1.0.0") end)) end))),
      ))
    × ((k : String) → lookup k back ≡ Option.map sorted_fields (lookup k two))
unfolding write_registry sorted_fields to_fields insert_field
load-write_example = load-write two WriteFault.writable missing _ refl

-- ===== src/Components/Loader.antt =====
-- components/loader.py: the components that a start of the agent loads, and one that is loaded later.
use lucid_agent_core.Prelude.{
  String, Bool, true, false, not, ◌||◌, Option, none, some, List, [], ◌∷◌, ◌==◌, if◌then◌else◌,
}
use lucid_agent_core.Prelude.Errors.{Exn, type_error, value_error, Outcome, ok, raise, ◌>>=◌}
use lucid_agent_core.Prelude.Json.{str, bool, Fields, get}
use lucid_agent_core.Prelude.Text.{split_once}
use lucid_agent_core.Config.Apply.{is_falsy}
use lucid_agent_core.Registry.{Registry}
use lucid_agent_core.Snapshots.{get_or}
use lucid_agent_core.Components.{Component}

-- The interpreter: the import of a class, and whether it is a subclass of `Component`; its
-- instance for an id and a registry entry; the instance's `start`.
pub record Runtime : Type 0 where
  pub import_class : String → String → Outcome Bool
  pub construct : String → String → String → Fields → Outcome Component
  pub start : Component → Outcome (Unit {0})

-- `ComponentLoadResult`
pub record LoadResult : Type 0 where
  pub component_id : String
  pub succeeded : Bool
  pub entrypoint : Option String
  pub error : Option Exn
  pub started : Bool

-- `_parse_entrypoint`
unfoldable pub parse_entrypoint : String → Outcome (String × String)
parse_entrypoint entrypoint = elim (split_once 58 entrypoint) [
  | none ↦ raise value_error
  | some (module_path, class_name) ↦
      if module_path == "" || class_name == ""
      then raise value_error
      else ok (module_path, class_name)
]

-- `meta.get("entrypoint")`, if it is a text and not empty
unfoldable pub entrypoint_of : Fields → Option String
entrypoint_of meta = elim (get "entrypoint" meta) [
  | none ↦ none
  | some v ↦ elim v [ str s ↦ if s == "" then none else some s | _ ↦ none ]
]

-- `meta.get("enabled", True)`, as a condition
unfoldable pub is_enabled : Fields → Bool
is_enabled meta = not (is_falsy (get_or "enabled" (bool true) meta))

module _ (r : Runtime) where
  -- The instance of an entry point's class.
  unfoldable pub instantiate : String → Fields → String → Outcome Component
  unfolding parse_entrypoint
  instantiate component_id meta entrypoint = do
    path ← parse_entrypoint entrypoint
    is_component ← r.import_class path.0 path.1
    if is_component then r.construct path.0 path.1 component_id meta else raise type_error

  -- The instance, started if the entry is enabled.
  unfoldable pub load_enabled : String → Fields → String → Outcome Component
  unfolding instantiate is_enabled
  load_enabled component_id meta entrypoint = do
    component ← instantiate component_id meta entrypoint
    _ ← if is_enabled meta then r.start component else ok tt
    ok component

  with_result :
      String
      → Fields
      → String
      → Outcome Component
      → List Component × List LoadResult
      → List Component × List LoadResult
  unfolding is_enabled
  with_result component_id meta entrypoint (ok component) (components, results) = (
    component ∷ components,
    record {
      component_id = component_id;
      succeeded = true;
      entrypoint = some entrypoint;
      error = none;
      started = is_enabled meta;
    }
        ∷ results,
  )
  with_result component_id meta entrypoint (raise x) (components, results) = (
    components,
    record {
      component_id = component_id;
      succeeded = false;
      entrypoint = some entrypoint;
      error = some x;
      started = false;
    }
        ∷ results,
  )

  -- The loop over the registry. A missing entry point has an error of its own, here `value_error`.
  unfoldable pub load_components : Registry → List Component × List LoadResult
  unfolding load_enabled with_result entrypoint_of
  load_components [] = ([], [])
  load_components ((component_id, meta) ∷ reg) =
      let rest = load_components reg in
      elim (entrypoint_of meta) [
        | none ↦ (
          rest.0,
          record {
            component_id = component_id;
            succeeded = false;
            entrypoint = none;
            error = some value_error;
            started = false;
          }
              ∷ rest.1,
        )
        | some entrypoint ↦
            with_result component_id meta entrypoint (load_enabled component_id meta entrypoint)
              rest
      ]

  -- `load_single_component`: no component without an entry point, and an exception goes through.
  unfoldable pub load_single_component : String → Fields → Outcome (Option Component)
  unfolding instantiate entrypoint_of
  load_single_component component_id meta = elim (entrypoint_of meta) [
    | none ↦ ok none
    | some entrypoint ↦ (do
      component ← instantiate component_id meta entrypoint
      ok (some component))
  ]

-- ===== src/Handlers.antt =====
-- core/cmd_context.py and core/handlers: what the command handlers share. A handler is an action on the
-- agent's state, which returns or raises; what it publishes or asks for is recorded in order.
pub mod Simple
pub mod Settings
pub mod Components
pub mod Upgrades
pub mod Handle
pub mod Duplicate
pub mod Answers
pub mod Answered
mod Tests
use mathlib.Core.Option
use lucid_agent_core.Prelude.{
  ℕ, String, Bool, true, false, Option, none, some, List, [], ◌∷◌, ◌++◌, ◌==◌, if◌then◌else◌,
}
use lucid_agent_core.Prelude.Int.{ℤ}
use lucid_agent_core.Prelude.Errors.{
  Exn, attribute_error, type_error, index_error, runtime_error, Outcome, ok, raise,
}
use lucid_agent_core.Prelude.Json.{Value, str, list, dict, Items, Fields, end, get}
use lucid_agent_core.Config.Apply.{is_falsy, ApplyResult}
use lucid_agent_core.Config.Store.{ConfigStore}
use lucid_agent_core.Config.Store
use lucid_agent_core.Registry.{Registry, load_registry}
use lucid_agent_core.Upgrade.{Env, World}
use lucid_agent_core.Upgrade.Install.{InstallResult}
use lucid_agent_core.Upgrade.Uninstall.{UninstallResult}
use lucid_agent_core.Upgrade.Component
use lucid_agent_core.Upgrade.Component.{loads_or_empty}
use lucid_agent_core.Upgrade.Core
use lucid_agent_core.Upgrade.Core.{Reader}
use lucid_agent_core.Dedup.{SeenRequestIds, check_and_add}
use lucid_agent_core.Restart.{Host, Request, request_systemd_restart}
use lucid_agent_core.Topics.{TopicSchema, Command, action_of, evt_result, Retained, retained_topic}
use lucid_agent_core.Snapshots.{Convert, Metric, get_or}

-- A payload with its topic. A result has the fields request_id and ok; the error's text is left out.
pub data Message : Type 0 where
  result : String → Value → Bool → Message
  cfg_result : String → Value → ApplyResult → Message
  install_result : String → InstallResult → Message
  uninstall_result : String → UninstallResult → Message
  upgrade_result : String → Component.UpgradeResult → Message
  core_result : String → Core.UpgradeResult → Message
  retained : String → Value → Message
  retained_metrics : String → List (String × Metric) → Message

-- What a handler does, in order. A restart request has its answer.
pub data Event : Type 0 where
  published : Message → Event
  restart_requested : Bool → Event
  heartbeat_set : ℤ → Event
  log_level_applied : Fields → Event
  component_started component_stopped : String → Bool → Event

pub record Agent : Type 0 where
  pub seen : SeenRequestIds
  pub store : ConfigStore
  pub world : World
  -- the time of the restart's sentinel file
  pub sentinel : Option ℕ
  pub events : List Event

-- `ComponentManager`, which the MQTT client implements; its answer may depend on what was done.
pub record Manager : Type 0 where
  pub capabilities : String → Outcome Value
  pub start_component : List Event → String → Registry → Outcome Bool
  pub stop_component : List Event → String → Outcome Bool

-- What surrounds the handlers. After the same events the answers are the same.
pub record Setup : Type 0 where
  pub env : Env
  pub reader : Reader
  pub topics : TopicSchema
  pub convert : Convert
  pub host : Host
  pub request : List Event → Request
  -- whether a publish returns, and whether `wait_for_publish` does
  pub publishes : List Event → Message → Bool
  pub flushes : List Event → Bool
  pub config_fault : List Event → Store.WriteFault
  pub manager : Option Manager
  -- a name for each request id that is no text, the same for equal ids and no text's own
  pub name_of : Value → String
  -- `hasattr(ctx.mqtt, "publish_retained_refresh")`, and the payloads of metadata and status
  pub refreshes : Bool
  pub metadata : Value
  pub status : List Event → Value

abbrev pub Action : Type 0 → Type 0
Action A = Agent → Outcome A × Agent

abbrev pub return : {A : Type 0} → A → Action A
return x a = (ok x, a)

abbrev pub throw : {A : Type 0} → Exn → Action A
throw x a = (raise x, a)

abbrev pub and_then : {A B : Type 0} → Outcome A × Agent → (A → Action B) → Outcome B × Agent
and_then (ok x, a) f = f x a
and_then (raise e, a) f = (raise e, a)

infixl 5 ◌>>=◌ ◌>>◌
abbrev pub ◌>>=◌ : {A B : Type 0} → Action A → (A → Action B) → Action B
(m >>= f) a = and_then (m a) f

abbrev pub ◌>>◌ : {A B : Type 0} → Action A → Action B → Action B
m >> k = m >>= λ _. k

-- `try: … except Exception as exc: …`
abbrev pub caught : {A : Type 0} → Outcome A × Agent → (Exn → Action A) → Outcome A × Agent
caught (ok x, a) f = (ok x, a)
caught (raise e, a) f = f e a

abbrev pub attempt : {A : Type 0} → Action A → (Exn → Action A) → Action A
attempt m f a = caught (m a) f

abbrev pub lift : {A : Type 0} → Outcome A → Action A
lift o a = (o, a)

abbrev pub ask : {A : Type 0} → (Agent → A) → Action A
ask f a = (ok (f a), a)

-- A call whose answer may depend on what was done.
abbrev pub call : {A : Type 0} → (List Event → Outcome A) → Action A
call f a = (f a.events, a)

abbrev pub emit : Event → Action (Unit {0})
emit e a = (ok tt, record a { events = a.events ++ e ∷ [] })

-- `load_registry()`
abbrev in_file : World → Outcome Registry × Store.File → Outcome Registry × World
in_file w (o, file) = (o, record w { registry_file = file })

-- A function of the installers, on the world.
abbrev pub on_world : {A : Type 0} → (World → Outcome A × World) → Action A
on_world f a = let (o, w) = f a.world in (o, record a { world = w })

module _ (s : Setup) where
  abbrev pub read_registry : Action Registry
  read_registry = on_world (λ w. in_file w (load_registry s.env.read_fault w.registry_file))

  -- `publish`
  unfoldable pub publish : Message → Action (Unit {0})
  publish m a = if s.publishes a.events m then emit (published m) a else (raise runtime_error, a)

  -- `publish_result_error`, and `publish_result` on the topic of the action
  unfoldable pub publish_result : String → Value → Bool → Action (Unit {0})
  unfolding publish
  publish_result topic rid success = attempt (publish (result topic rid success)) (λ _. return tt)

  abbrev pub result_topic : Command → String
  result_topic c = evt_result s.topics (action_of c)

  -- `request_id` of _parsing.py, and `parse_payload(…).get("request_id", "")`
  unfoldable pub request_id : String → Outcome Value
  unfolding loads_or_empty
  request_id raw = elim (loads_or_empty s.env raw) [
    | raise x ↦ raise x
    | ok o ↦ elim o [
      | none ↦ ok (str "")
      | some v ↦ elim v [ dict d ↦ ok (get_or "request_id" (str "") d) | _ ↦ raise attribute_error ]
    ]
  ]

  -- `parse_payload`, of which `get` is called
  unfoldable pub parse_payload : String → Outcome Fields
  unfolding loads_or_empty
  parse_payload raw = elim (loads_or_empty s.env raw) [
    | raise x ↦ raise x
    | ok o ↦ elim o [
      | none ↦ ok end
      | some v ↦ elim v [ dict d ↦ ok d | _ ↦ raise attribute_error ]
    ]
  ]

  -- An id as the memory of ids holds it: a list or dict has no hash, and what is falsy is no id.
  unfoldable pub id_text : Value → Outcome String
  id_text (str t) = ok t
  id_text (list v) = if is_falsy (list v) then ok "" else raise type_error
  id_text (dict v) = if is_falsy (dict v) then ok "" else raise type_error
  id_text v = if is_falsy v then ok "" else ok (s.name_of v)

  -- `check_and_add`; `none` is an `IndexError`.
  remembered : Agent → Option (SeenRequestIds × Bool) → Outcome Bool × Agent
  remembered a none = (raise index_error, a)
  remembered a (some (seen, dup)) = (ok dup, record a { seen = seen })

  unfoldable pub remember : String → Action Bool
  unfolding remembered
  remember rid a = remembered a (check_and_add a.seen rid)

  unfoldable pub check_duplicate : Value → String → Action Bool
  unfolding remember publish id_text
  check_duplicate rid topic = do
    id ← lift (id_text rid)
    dup ← remember id
    if dup then (do _ ← publish (result topic rid false); return true) else return false

  -- A handler once its id is known to be new.
  abbrev pub unless_duplicate : Value → Command → Action (Unit {0}) → Action (Unit {0})
  unless_duplicate rid c body = do
    dup ← check_duplicate rid (result_topic c)
    if dup then return tt else body

  -- `request_systemd_restart`
  unfoldable pub request_restart : Action Bool
  request_restart a =
      let (sent, sentinel) = request_systemd_restart s.host (s.request a.events) a.sentinel in
      (ok sent, record a { sentinel = sentinel; events = a.events ++ restart_requested sent ∷ [] })

  -- `wait_for_publish`
  unfoldable pub flush : Action (Unit {0})
  flush a = if s.flushes a.events then (ok tt, a) else (raise runtime_error, a)

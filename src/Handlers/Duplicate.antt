-- ===== src/Handlers/Duplicate.antt =====
-- What a command does whose request id was seen before: core/handlers, each handler's guard.
use lucid_agent_core.Prelude.{
  String, ◌≡◌, refl, ap, ◌∙◌, Bool, true, false, Option, none, some, if◌then◌else◌, [], ◌∷◌, ◌++◌,
}
use lucid_agent_core.Prelude.Errors.{attribute_error, Outcome, ok, raise}
use lucid_agent_core.Prelude.Json.{Value, str, dict, Fields, end, get}
use lucid_agent_core.Upgrade.Component.{loads_or_empty}
use lucid_agent_core.Dedup.{SeenRequestIds, check_and_add}
use lucid_agent_core.Topics.{Command}
use lucid_agent_core.Snapshots.{get_or}
use lucid_agent_core.Handlers.{
  return, Setup, Agent, Action, Message, result, published, and_then, publish, result_topic,
  request_id, parse_payload, id_text, remember, ◌>>=◌, return, check_duplicate, unless_duplicate,
}
use lucid_agent_core.Handlers.Handle.{handle}

module _ (s : Setup) where
  -- The agent after the rejection of an id.
  abbrev pub rejected : Command → Value → SeenRequestIds → Agent → Agent
  rejected c rid seen a = record a {
    seen = seen;
    events = a.events ++ published (result (result_topic s c) rid false) ∷ [];
  }

  -- An id that is in the memory, which stays what it is, and a publish that works.
  pub record Seen (c : Command) (rid : Value) (seen : SeenRequestIds) (a : Agent) : Type 0 where
    pub id : String
    pub text : id_text s rid ≡ ok id
    pub known : check_and_add a.seen id ≡ some (seen, true)
    pub works : s.publishes a.events (result (result_topic s c) rid false) ≡ true

  lifted :
      {A B : Type 0} (o : Outcome A) (x : A) (f : A → Action B) (a : Agent)
      → o ≡ ok x
      → and_then (o, a) f ≡ f x a
  lifted o x f a p = ap (λ o. and_then (o, a) f) p

  remember-known :
      (id : String) (seen : SeenRequestIds) (a : Agent)
      → check_and_add a.seen id ≡ some (seen, true)
      → remember s id a ≡ (ok true, record a { seen = seen })
  unfolding remember
  remember-known id seen a p = rw (p, remember) refl

  publish-works :
      (m : Message) (a : Agent)
      → s.publishes a.events m ≡ true
      → publish s m a ≡ (ok tt, record a { events = a.events ++ published m ∷ [] })
  unfolding publish
  publish-works m a p = rw (p, publish) refl

  check_duplicate-Seen :
      (c : Command) (rid : Value) (seen : SeenRequestIds) (a : Agent)
      → Seen c rid seen a
      → check_duplicate s rid (result_topic s c) a ≡ (ok true, rejected c rid seen a)
  unfolding check_duplicate
  check_duplicate-Seen c rid seen a h =
      let m = result (result_topic s c) rid false in
      let reject : Bool → Action Bool =
        λ dup. if dup then (do _ ← publish s m; return true) else return false in
      lifted (id_text s rid) h.id (λ id. remember s id >>= reject) a h.text
      ∙ ap (λ r. and_then r reject) (remember-known h.id seen a h.known)
      ∙ ap (λ r. and_then r (λ _. return true)) (publish-works m (record a { seen = seen }) h.works)

  unless_duplicate-rejected :
      (c : Command) (rid : Value) (seen : SeenRequestIds) (body : Action (Unit {0})) (a : Agent)
      → Seen c rid seen a
      → unless_duplicate s rid c body a ≡ (ok tt, rejected c rid seen a)
  unless_duplicate-rejected c rid seen body a h =
      ap (λ r. and_then r (λ dup. if dup then return tt else body))
        (check_duplicate-Seen c rid seen a h)

  -- A payload with a request id is one that can be asked for it.
  parsed :
      (raw : String) (rid : Value)
      → request_id s raw ≡ ok rid
      → (d : Fields) × (parse_payload s raw ≡ ok d) × (get_or "request_id" (str "") d ≡ rid)
  unfolding request_id parse_payload get
  parsed raw rid = go (loads_or_empty s.env raw)
    where
      go :
          (m : Outcome (Option Value))
          → ((elim m [
            | raise x ↦ raise x
            | ok o ↦ elim o [
              | none ↦ ok (str "")
              | some v ↦ elim v [
                | dict d ↦ ok (get_or "request_id" (str "") d)
                | _ ↦ raise attribute_error
              ]
            ]
          ])
              ≡ ok rid)
          → (d : Fields) × ((elim m [
            | raise x ↦ raise x
            | ok o ↦ elim o [
              | none ↦ ok end
              | some v ↦ elim v [ dict d ↦ ok d | _ ↦ raise attribute_error ]
            ]
          ])
              ≡ ok d)
            × (get_or "request_id" (str "") d ≡ rid)
      go (raise x) p = absurd (cc p)
      go (ok none) p = (end, refl, cc p)
      go (ok (some (dict d))) p = (d, refl, cc p)
      go (ok (some _)) p = absurd (cc p)

  -- The two ways in which a handler begins.
  begun-rejected :
      (c : Command) (raw : String) (rid : Value) (seen : SeenRequestIds)
      (body : Value → Action (Unit {0})) (a : Agent)
      → request_id s raw ≡ ok rid
      → Seen c rid seen a
      → and_then (request_id s raw, a) (λ rid. unless_duplicate s rid c (body rid))
        ≡ (ok tt, rejected c rid seen a)
  begun-rejected c raw rid seen body a p h =
      lifted (request_id s raw) rid (λ rid. unless_duplicate s rid c (body rid)) a p
      ∙ unless_duplicate-rejected c rid seen (body rid) a h

  parsed-rejected :
      (c : Command) (raw : String) (rid : Value) (seen : SeenRequestIds)
      (body : Fields → Action (Unit {0})) (a : Agent)
      → request_id s raw ≡ ok rid
      → Seen c rid seen a
      → and_then
          (parse_payload s raw, a)
          (λ d. unless_duplicate s (get_or "request_id" (str "") d) c (body d))
        ≡ (ok tt, rejected c rid seen a)
  parsed-rejected c raw rid seen body a p h =
      let (d, q, e) = parsed raw rid p in
      let f : Value → Action (Unit {0}) = λ rid. unless_duplicate s rid c (body d) in
      lifted (parse_payload s raw) d
        (λ d. unless_duplicate s (get_or "request_id" (str "") d) c (body d)) a q
      ∙ ap (λ rid. f rid a) e
      ∙ unless_duplicate-rejected c rid seen (body d) a h

  -- A command whose request id was seen before does nothing but publish one failure, with its id, on
  -- its own result topic: no handler runs. Where the payload has an id that can be looked up, and the
  -- publish works.
  pub handle-rejected :
      (c : Command) (raw : String) (rid : Value) (seen : SeenRequestIds) (a : Agent)
      → request_id s raw ≡ ok rid
      → Seen c rid seen a
      → handle s c raw a ≡ (ok tt, rejected c rid seen a)
  unfolding handle
  handle-rejected Command.ping raw rid seen a p h = begun-rejected Command.ping raw rid seen _ a p h
  handle-rejected Command.restart raw rid seen a p h =
      begun-rejected Command.restart raw rid seen _ a p h
  handle-rejected Command.refresh raw rid seen a p h =
      begun-rejected Command.refresh raw rid seen _ a p h
  handle-rejected Command.components_install raw rid seen a p h =
      begun-rejected Command.components_install raw rid seen _ a p h
  handle-rejected Command.components_uninstall raw rid seen a p h =
      begun-rejected Command.components_uninstall raw rid seen _ a p h
  handle-rejected Command.components_upgrade raw rid seen a p h =
      begun-rejected Command.components_upgrade raw rid seen _ a p h
  handle-rejected Command.core_upgrade raw rid seen a p h =
      begun-rejected Command.core_upgrade raw rid seen _ a p h
  handle-rejected Command.components_enable raw rid seen a p h =
      parsed-rejected Command.components_enable raw rid seen _ a p h
  handle-rejected Command.components_disable raw rid seen a p h =
      parsed-rejected Command.components_disable raw rid seen _ a p h
  handle-rejected Command.cfg_set raw rid seen a p h =
      parsed-rejected Command.cfg_set raw rid seen _ a p h
  handle-rejected Command.cfg_logging_set raw rid seen a p h =
      parsed-rejected Command.cfg_logging_set raw rid seen _ a p h
  handle-rejected Command.cfg_telemetry_set raw rid seen a p h =
      parsed-rejected Command.cfg_telemetry_set raw rid seen _ a p h

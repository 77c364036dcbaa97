-- ===== src/Components/Start/Reverse.antt =====
-- A start of a component by mqtt/client.py, and the stop that undoes it.
use mathlib.Core.Path.{subst}
use lucid_agent_core.Prelude.{
  String, ◌≡◌, refl, ap, ◌∙◌, sym, Bool, true, false, Option, none, some, if◌then◌else◌, [], ◌∷◌,
  ◌++◌,
}
use lucid_agent_core.Prelude.Dict.{lookup}
use lucid_agent_core.Prelude.Errors.{Outcome, ok, raise}
use lucid_agent_core.Prelude.Json.{Fields}
use lucid_agent_core.Registry.{Registry}
use lucid_agent_core.Components.{
  Component, Client, tracked_topics, subscribe_component_topics, find_component, stop_component,
}
use lucid_agent_core.Components.Cycle.{stop-subscribe_found}
use lucid_agent_core.Components.Loader.{Runtime}
use lucid_agent_core.Components.Start.{
  Status, unguarded, guarded, start_new, load_and_start, start_found, start_known, start_entry,
  start_component, is_disabled,
}

-- The client after a start is one whose components may have grown by one, and then subscribed.
record Began (cid : String) (s t : Client) : Type 0 where
  comp : Component
  before : Client
  connected : before.connected ≡ s.connected
  tracked : before.tracked ≡ s.tracked
  handlers : before.handlers ≡ s.handlers
  subscribes : t ≡ (subscribe_component_topics comp cid before).1

module _ (r : Runtime) (cid : String) where
  unguarded-Began :
      (o : Outcome (Unit {0}) × Client) (t : Client) → unguarded o ≡ (ok true, t) → t ≡ o.1
  unfolding unguarded
  unguarded-Began (ok _, s) t p = sym (ap (λ x. x.1) p)
  unguarded-Began (raise x, s) t p = absurd (cc p)

  guarded-Began :
      (o : Outcome (Unit {0}) × Client) (t : Client) → guarded o ≡ (ok true, t) → t ≡ o.1
  unfolding guarded
  guarded-Began (ok _, s) t p = sym (ap (λ x. x.1) p)
  guarded-Began (raise x, s) t p = absurd (cc p)

  start_new-Began :
      (comp : Component) (o : Outcome (Unit {0})) (s b t : Client)
      → b.connected ≡ s.connected
      → b.tracked ≡ s.tracked
      → b.handlers ≡ s.handlers
      → start_new r cid comp o b ≡ (ok true, t)
      → Began cid s t
  unfolding start_new
  start_new-Began comp (raise x) s b t c k h p = absurd (cc p)
  start_new-Began comp (ok _) s b t c k h p = record {
    comp = comp;
    before = b;
    connected = c;
    tracked = k;
    handlers = h;
    subscribes = guarded-Began (subscribe_component_topics comp cid b) t p;
  }

  start_found-Began :
      (comp : Component) (o : Option Status) (s t : Client)
      → start_found r cid comp o s ≡ (ok true, t)
      → Began cid s t
  unfolding start_found
  start_found-Began comp (some Status.running) s t p = record {
    comp = comp;
    before = s;
    connected = refl;
    tracked = refl;
    handlers = refl;
    subscribes = unguarded-Began (subscribe_component_topics comp cid s) t p;
  }
  start_found-Began comp (some Status.starting) s t p = absurd (cc p)
  start_found-Began comp (some Status.stopping) s t p = absurd (cc p)
  start_found-Began comp (some Status.stopped) s t p =
      start_new-Began comp (r.start comp) s s t refl refl refl p
  start_found-Began comp (some Status.failed) s t p =
      start_new-Began comp (r.start comp) s s t refl refl refl p
  start_found-Began comp none s t p = start_new-Began comp (r.start comp) s s t refl refl refl p

  load_and_start-Began :
      (o : Outcome (Option Component)) (s t : Client)
      → load_and_start r cid o s ≡ (ok true, t)
      → Began cid s t
  unfolding load_and_start
  load_and_start-Began (raise x) s t p = absurd (cc p)
  load_and_start-Began (ok none) s t p = absurd (cc p)
  load_and_start-Began (ok (some comp)) s t p = go (r.start comp) p
    where
      go :
          (o : Outcome (Unit {0}))
          → ((elim o [
            | raise _ ↦ (ok false, s)
            | ok _ ↦
                start_new r cid comp (ok tt) (record s { components = s.components ++ comp ∷ [] })
          ])
              ≡ (ok true, t))
          → Began cid s t
      go (raise x) p = absurd (cc p)
      go (ok _) p =
          start_new-Began comp (ok tt) s (record s { components = s.components ++ comp ∷ [] }) t
            refl refl refl p

  start_known-Began :
      (status : Component → Option Status) (meta : Fields) (o : Option Component) (s t : Client)
      → start_known r cid status meta o s ≡ (ok true, t)
      → Began cid s t
  unfolding start_known
  start_known-Began status meta (some comp) s t p = start_found-Began comp (status comp) s t p
  start_known-Began status meta none s t p = load_and_start-Began _ s t p

  start_entry-Began :
      (status : Component → Option Status) (o : Option Fields) (s t : Client)
      → start_entry r cid status o s ≡ (ok true, t)
      → Began cid s t
  unfolding start_entry
  start_entry-Began status none s t p = absurd (cc p)
  start_entry-Began status (some meta) s t p = go (is_disabled meta) p
    where
      go :
          (b : Bool)
          → (if b
              then (ok false, s)
              else start_known r cid status meta (find_component cid s.components) s)
            ≡ (ok true, t)
          → Began cid s t
      go true p = absurd (cc p)
      go false p = start_known-Began status meta _ s t p

  start_component-Began :
      (status : Component → Option Status) (reg : Registry) (read : Outcome Registry) (s t : Client)
      → start_component r cid status reg read s ≡ (ok true, t)
      → Began cid s t
  unfolding start_component
  start_component-Began status [] (raise x) s t p = absurd (cc p)
  start_component-Began status [] (ok reg) s t p = start_entry-Began status _ s t p
  start_component-Began status (_ ∷ _) read s t p = start_entry-Began status _ s t p

-- A stop undoes a start, whether the component was running, stopped or not yet loaded: after a start
-- that answers true, on a connection that is up, of a component with no topic tracked that is then
-- found under its id, a stop where no call fails answers true, and every topic has the handler it had.
pub stop-start :
    (r : Runtime) (cid : String) (status : Component → Option Status) (reg : Registry)
    (read : Outcome Registry) (s t : Client) (found : Component)
    → s.connected ≡ true
    → tracked_topics s cid ≡ []
    → start_component r cid status reg read s ≡ (ok true, t)
    → find_component cid t.components ≡ some found
    → let u = stop_component (λ _. false) true cid t in
      (u.0 ≡ true) × ((k : String) → lookup k u.1.handlers ≡ lookup k s.handlers)
stop-start r cid status reg read s t found c e p f =
    let b = start_component-Began r cid status reg read s t p in
    let none_yet : tracked_topics b.before cid ≡ [] =
      ap (λ ts. elim (lookup cid ts) [ none ↦ [] | some ts ↦ ts ]) b.tracked ∙ e in
    let known = ap (λ u. find_component cid u.components) (sym b.subscribes) ∙ f in
    let h = stop-subscribe_found b.before b.comp found cid (b.connected ∙ c) none_yet known in
    subst
      (λ t.
        let u = stop_component (λ _. false) true cid t in
        (u.0 ≡ true) × ((k : String) → lookup k u.1.handlers ≡ lookup k s.handlers))
      (sym b.subscribes) (h.0, λ k. h.1 k ∙ ap (lookup k) b.handlers)

-- ===== src/Dispatch/Cancel.antt =====
-- What `_try_cancel_oldest_pending` of mqtt/client.py picks, and what the network thread makes of it.
use mathlib.Core.Path.{subst, sym}
use lucid_agent_core.Prelude.{
  ◌≡◌, ◌⊎◌, refl, ap, true, false, Option, none, some, List, [], ◌∷◌, ◌++◌, arith, Bool-cases, inl,
  inr, ℕ, nat_eq, ◌==◌, if◌then◌else◌,
}
use lucid_agent_core.Dispatch.{
  ℕ, nat_eq, Message, PendingCommand, Failure, idle, full, displaced, System, has_future,
  remove_future, first_queued, prune, is_done, take_out, try_cancel_oldest_pending, after_cancel,
  network, network_in, step, goes_on,
}

-- No entry of the list waits in the queue.
abbrev pub NoneQueued : List PendingCommand → List PendingCommand → Type 0
NoneQueued queued [] = Unit
NoneQueued queued (c ∷ cs) = (has_future c.future queued ≡ false) × NoneQueued queued cs

-- The entry picked is the oldest that waits: everything before it runs or is done, and what is left
-- is all but this entry.
pub data Oldest (queued pending : List PendingCommand) (c : PendingCommand)
    : List PendingCommand → Type 0 where
  oldest :
      (before after : List PendingCommand)
      → pending ≡ before ++ c ∷ after
      → NoneQueued queued before
      → has_future c.future queued ≡ true
      → Oldest queued pending c (before ++ after)

Oldest-cons :
    (queued pending left : List PendingCommand) (c d : PendingCommand)
    → has_future d.future queued ≡ false
    → Oldest queued pending c left
    → Oldest queued (d ∷ pending) c (d ∷ left)
Oldest-cons queued pending left c d busy (oldest before after e n q) =
    oldest (d ∷ before) after (ap (◌∷◌ d) e) (busy, n) q

first_queued-waits :
    (queued pending : List PendingCommand) (c : PendingCommand)
    → first_queued queued pending ≡ some c
    → has_future c.future queued ≡ true
unfolding first_queued
first_queued-waits queued [] c h = absurd (cc h)
first_queued-waits queued (d ∷ pending) c h = elim (Bool-cases (has_future d.future queued)) [
  | inl waits ↦ let same : d ≡ c = ground arith in rw (← same) waits
  | inr busy ↦ first_queued-waits queued pending c (ground arith)
]

nat_eq_refl : (n : ℕ) → nat_eq n n ≡ true
nat_eq_refl n = ground arith

distinct :
    (j k : ℕ) (queued : List PendingCommand)
    → has_future j queued ≡ false
    → has_future k queued ≡ true
    → nat_eq j k ≡ false
distinct j k queued p q = elim (Bool-cases (nat_eq j k)) [
  | inl same ↦
      let e : j ≡ k = ground (arith, same) in absurd (cc (p, q, ap (λ n. has_future n queued) e))
  | inr other ↦ other
]

first_queued-Oldest :
    (queued pending : List PendingCommand) (c : PendingCommand)
    → first_queued queued pending ≡ some c
    → Oldest queued pending c (remove_future c.future pending)
unfolding first_queued remove_future
first_queued-Oldest queued [] c h = absurd (cc h)
first_queued-Oldest queued (d ∷ pending) c h = elim (Bool-cases (has_future d.future queued)) [
  | inl waits ↦
      let same : d ≡ c = ground arith in
      subst (λ x. Oldest queued (d ∷ pending) x (remove_future x.future (d ∷ pending))) same
        (rw (nat_eq_refl d.future) (oldest [] pending refl tt waits))
  | inr busy ↦
      let h' : first_queued queued pending ≡ some c = ground arith in
      let other : nat_eq d.future c.future ≡ false =
        distinct d.future c.future queued busy (first_queued-waits queued pending c h') in
      rw other (
        Oldest-cons queued pending (remove_future c.future pending) c d busy
          (first_queued-Oldest queued pending c h'))
]

first_queued-NoneQueued :
    (queued pending : List PendingCommand)
    → first_queued queued pending ≡ none
    → NoneQueued queued pending
unfolding first_queued
first_queued-NoneQueued queued [] h = tt
first_queued-NoneQueued queued (d ∷ pending) h =
    (ground arith, first_queued-NoneQueued queued pending (ground arith))

-- Pruning takes no entry that waits.
prune-NoneQueued :
    (s : System) (pending : List PendingCommand)
    → NoneQueued s.queued (prune (is_done s) pending)
    → NoneQueued s.queued pending
unfolding prune is_done
prune-NoneQueued s [] h = tt
prune-NoneQueued s (c ∷ cs) h = elim (Bool-cases (is_done s c)) [
  | inl done ↦ (ground arith, prune-NoneQueued s cs (rw (done, prune) at h))
  | inr live ↦ rw (live, prune) at h
]

abbrev pub overloaded : Message → Failure
overloaded m = record { cmd_topic = m.topic; request_id = m.request_id; error = "agent overloaded" }

abbrev pub cancelled_by_newer : PendingCommand → Failure
cancelled_by_newer c = record {
  cmd_topic = c.topic;
  request_id = c.request_id;
  error = "cancelled by newer command";
}

-- What the step makes of the full phase.
abbrev pub Displaced : System → Message → System → Type 0
Displaced s m t =
    (t.phase ≡ idle)
      × (t.failures ≡ s.failures ++ (if m.request_id == "" then [] else overloaded m ∷ []))
      × (t.queued ≡ s.queued)
      × NoneQueued s.queued s.pending
    ⊎ (c : PendingCommand) × (t.phase ≡ displaced m c)
      × (t.queued ≡ remove_future c.future s.queued)
      × (t.cancelled ≡ s.cancelled ++ c ∷ [])
      × (t.failures ≡ s.failures)
      × Oldest s.queued (prune (is_done s) s.pending) c t.pending

take_out-Displaced :
    (s : System) (m : Message) (o : Option PendingCommand)
    → first_queued s.queued (prune (is_done s) s.pending) ≡ o
    → Displaced s m
        (after_cancel m (take_out (record s { pending = prune (is_done s) s.pending }) o))
unfolding after_cancel take_out
take_out-Displaced s m none e =
    inl (refl, refl, refl, prune-NoneQueued s s.pending (first_queued-NoneQueued s.queued _ e))
take_out-Displaced s m (some c) e =
    inr (c, refl, refl, refl, refl, first_queued-Oldest s.queued _ c e)

-- With all slots taken, one step of the network thread either drops the new command and, if that has a
-- request id, publishes that the agent is overloaded, and then no pending command was waiting in the
-- pool; or it takes the oldest waiting command out of the pool and off the deque, which keeps its
-- other live entries in their order, publishes nothing yet, and goes on to release its slot.
pub full-goes_on : (s : System) (m : Message) → s.phase ≡ full m → Displaced s m (step s goes_on)
unfolding step network network_in try_cancel_oldest_pending
full-goes_on s m e =
    subst (λ p. Displaced s m (network_in s p)) (sym e) (take_out-Displaced s m _ refl)

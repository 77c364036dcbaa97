-- ===== src/Dispatch/Slots.antt =====
-- The slots of `_inflight_sem` in mqtt/client.py under every schedule: each is free, held by one
-- command in the pool, or held by the network thread.
use lucid_agent_core.Prelude.{
  ℕ, ◌+◌, ◌≤◌, ◌<◌, ◌≡◌, refl, ap, true, Option, none, some, List, [], ◌∷◌, arith, length,
  length-append, ltb, Bool-cases, inl, inr, String,
}
use lucid_agent_core.Dispatch.{
  Message, PendingCommand, Phase, idle, full, retry, admitted, displaced, submitted, System, new,
  has_future, remove_future, find_future, first_queued, prune, is_done, take_out, after_cancel,
  network_in, network, arrive, begin, release, leave, Action, arrives, goes_on, begins, releases,
  leaves, step, run,
}

-- The slots that the network thread holds.
abbrev pub held : Phase → ℕ
held (admitted m) = 1
held (displaced m c) = 1
held _ = 0

-- The second `acquire` finds a free slot.
abbrev pub HasFree : Phase → ℕ → Type 0
HasFree (retry m) permits = 0 < permits
HasFree _ permits = Unit

pub record IsValid (limit : ℕ) (s : System) : Type 0 where
  pub slots : s.permits + length s.queued + length s.running + held s.phase ≡ limit
  pub free : HasFree s.phase s.permits

pub length-remove_future :
    (k : ℕ) (cs : List PendingCommand)
    → has_future k cs ≡ true
    → length (remove_future k cs) + 1 ≡ length cs
unfolding has_future remove_future
length-remove_future k [] h = absurd (cc h)
length-remove_future k (c ∷ cs) h = ground (arith, length-remove_future k cs)

pub has_future_of_find :
    (k : ℕ) (cs : List PendingCommand) (c : PendingCommand)
    → find_future k cs ≡ some c
    → (has_future k cs ≡ true) × (c.future ≡ k)
unfolding has_future find_future
has_future_of_find k [] c h = absurd (cc h)
has_future_of_find k (d ∷ cs) c h = ground (arith, has_future_of_find k cs c)

pub has_future_of_first_queued :
    (queued pending : List PendingCommand) (c : PendingCommand)
    → first_queued queued pending ≡ some c
    → has_future c.future queued ≡ true
unfolding first_queued
has_future_of_first_queued queued [] c h = absurd (cc h)
has_future_of_first_queued queued (d ∷ pending) c h =
    ground (arith, has_future_of_first_queued queued pending c)

module _ (limit : ℕ) where
  try_cancel-slots :
      (s : System) (m : Message) (o : Option PendingCommand) (pending : List PendingCommand)
      → s.permits + length s.queued + length s.running ≡ limit
      → ((c : PendingCommand) → o ≡ some c → has_future c.future s.queued ≡ true)
      → IsValid limit (after_cancel m (take_out (record s { pending = pending }) o))
  unfolding after_cancel take_out
  try_cancel-slots s m none pending e h = ground arith
  try_cancel-slots s m (some c) pending e h =
      ground (arith, length-remove_future c.future s.queued (h c refl))

  network_in-IsValid :
      (s : System) (p : Phase) → s.phase ≡ p → IsValid limit s → IsValid limit (network_in s p)
  unfolding network_in
  network_in-IsValid s idle e v = v
  network_in-IsValid s (full m) e v =
      try_cancel-slots s m _ (prune (is_done s) s.pending) (omega (arith, v.slots, ap held e))
        (λ c h. has_future_of_first_queued s.queued _ c h)
  network_in-IsValid s (displaced m c) e v = ground (arith, v.slots)
  network_in-IsValid s (retry m) e v = ground (arith, v.slots, v.free)
  network_in-IsValid s (admitted m) e v =
      let c : PendingCommand = record {
        future = s.next_future;
        topic = m.topic;
        request_id = m.request_id;
      } in
      ground (arith, v.slots, ap held e, length-append s.queued (c ∷ []))
  network_in-IsValid s (submitted c) e v = ground (arith, v.slots)

  arrive-IsValid : (s : System) (m : Message) → IsValid limit s → IsValid limit (arrive s m)
  unfolding arrive
  arrive-IsValid s m v = ground (arith, v.slots, v.free)

  begin-IsValid :
      (s : System) (q : List PendingCommand)
      → s.queued ≡ q
      → IsValid limit s
      → IsValid limit (begin s q)
  unfolding begin
  begin-IsValid s [] e v = v
  begin-IsValid s (c ∷ cs) e v =
      elim (Bool-cases (ltb (length s.running + length s.finishing) s.max_workers)) [
        | inl room ↦ rw room (record {
          slots = omega (arith, v.slots, ap length e, length-append s.running (c ∷ []));
          free = v.free;
        })
        | inr busy ↦ rw busy v
      ]

  HasFree-suc : (p : Phase) (n : ℕ) → HasFree p n → HasFree p (n + 1)
  HasFree-suc (retry m) n h = omega arith
  HasFree-suc idle n h = tt
  HasFree-suc (full m) n h = tt
  HasFree-suc (admitted m) n h = tt
  HasFree-suc (displaced m c) n h = tt
  HasFree-suc (submitted c) n h = tt

  release-IsValid :
      (s : System) (o : Option PendingCommand) (error : Option String)
      → ((c : PendingCommand) → o ≡ some c → has_future c.future s.running ≡ true)
      → IsValid limit s
      → IsValid limit (release s o error)
  unfolding release
  release-IsValid s none error h v = v
  release-IsValid s (some c) none h v = record {
    slots = omega (arith, v.slots, length-remove_future c.future s.running (h c refl));
    free = HasFree-suc s.phase s.permits v.free;
  }
  release-IsValid s (some c) (some x) h v = record {
    slots = omega (arith, v.slots, length-remove_future c.future s.running (h c refl));
    free = HasFree-suc s.phase s.permits v.free;
  }

  leave-IsValid :
      (s : System) (o : Option PendingCommand) → IsValid limit s → IsValid limit (leave s o)
  unfolding leave
  leave-IsValid s none v = v
  leave-IsValid s (some c) v = record { slots = v.slots; free = v.free }

  pub step-IsValid : (s : System) (a : Action) → IsValid limit s → IsValid limit (step s a)
  unfolding step
  step-IsValid s (arrives m) v = arrive-IsValid s m v
  step-IsValid s goes_on v = unfold network in network_in-IsValid s s.phase refl v
  step-IsValid s begins v = begin-IsValid s s.queued refl v
  step-IsValid s (releases k error) v =
      release-IsValid s (find_future k s.running) error
        (λ c e. let (there, same) = has_future_of_find k s.running c e in rw same there) v
  step-IsValid s (leaves k) v = leave-IsValid s (find_future k s.finishing) v

  pub run-IsValid : (s : System) (as_ : List Action) → IsValid limit s → IsValid limit (run s as_)
  unfolding run
  run-IsValid s [] v = v
  run-IsValid s (a ∷ as_) v = run-IsValid (step s a) as_ (step-IsValid s a v)

-- Under every schedule of arrivals and workers the free slots, the commands in the pool and the
-- slots in the network thread's hand make up the limit; so the pool never holds more commands,
-- queued or running, than the limit.
pub inflight_limit :
    (limit workers : ℕ) (as_ : List Action)
    → let s = run (new limit workers) as_ in
      (s.permits + length s.queued + length s.running + held s.phase ≡ limit)
      × (length s.queued + length s.running ≤ limit)
inflight_limit limit workers as_ =
    let v : IsValid limit (run (new limit workers) as_) =
      run-IsValid limit (new limit workers) as_ (record { slots = omega arith; free = tt }) in
    (v.slots, omega (arith, v.slots))

-- The fallback for a lost race is never taken: whatever the workers do in between, the second
-- `acquire` of the network thread succeeds, and the newer command is admitted.
second_acquire_succeeds :
    (limit workers : ℕ) (as_ : List Action) (m : Message)
    → (run (new limit workers) as_).phase ≡ retry m
    → (step (run (new limit workers) as_) goes_on).phase ≡ admitted m
unfolding step network
second_acquire_succeeds limit workers as_ m e =
    let s = run (new limit workers) as_ in
    let v : IsValid limit s =
      run-IsValid limit (new limit workers) as_ (record { slots = omega arith; free = tt }) in
    ground (arith, e, v.free)

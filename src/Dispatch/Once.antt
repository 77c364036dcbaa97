-- ===== src/Dispatch/Once.antt =====
-- Where each command of mqtt/client.py ends up under every schedule: handled or cancelled, once.
use lucid_agent_core.Prelude.{
  ℕ, ◌+◌, ◌<◌, ◌≡◌, refl, ap, Bool, true, false, Option, none, some, List, [], ◌∷◌, ◌++◌, arith,
  length, nat_eq, ltb, Bool-cases, inl, inr, String,
}
use lucid_agent_core.Dispatch.{
  Message, PendingCommand, Phase, idle, full, retry, admitted, displaced, submitted, System, new,
  has_future, remove_future, find_future, first_queued, prune, is_done, take_out,
  try_cancel_oldest_pending, after_cancel, network_in, network, arrive, begin, release, leave,
  Action, arrives, goes_on, begins, releases, leaves, step, run,
}
use lucid_agent_core.Dispatch.Slots.{has_future_of_find, has_future_of_first_queued}

abbrev pub one_if : Bool → ℕ
one_if true = 1
one_if false = 0

-- How often a future stands in a list.
abbrev pub count : ℕ → List PendingCommand → ℕ
count k [] = 0
count k (c ∷ cs) = one_if (nat_eq c.future k) + count k cs

count-append : (k : ℕ) (xs ys : List PendingCommand) → count k (xs ++ ys) ≡ count k xs + count k ys
count-append k [] ys = omega arith
count-append k (x ∷ xs) ys = omega (arith, count-append k xs ys)

count-remove_future :
    (k i : ℕ) (cs : List PendingCommand)
    → has_future i cs ≡ true
    → count k (remove_future i cs) + one_if (nat_eq i k) ≡ count k cs
unfolding has_future remove_future
count-remove_future k i [] h = absurd (cc h)
count-remove_future k i (c ∷ cs) h = elim (Bool-cases (nat_eq c.future i)) [
  | inl here ↦ let e : c.future ≡ i = ground arith in rw here (rw e (omega arith))
  | inr there ↦ rw there (omega (arith, count-remove_future k i cs (ground arith)))
]

-- The places of a command: queued, running, handled, cancelled.
abbrev pub places : ℕ → System → ℕ
places k s = count k s.queued + count k s.running + count k s.finished + count k s.cancelled

-- What is in no place has not been submitted; running commands stand in `finished` only later.
abbrev pub IsOnce : System → Type 0
IsOnce s = (k : ℕ) → places k s ≡ one_if (ltb k s.next_future)

take_out-places :
    (k : ℕ) (s : System) (o : Option PendingCommand)
    → ((c : PendingCommand) → o ≡ some c → has_future c.future s.queued ≡ true)
    → places k (take_out s o).0 ≡ places k s
unfolding take_out
take_out-places k s none h = refl
take_out-places k s (some c) h =
    omega (
      arith,
      count-remove_future k c.future s.queued (h c refl),
      count-append k s.cancelled (c ∷ []),
    )

after_cancel-places :
    (k : ℕ) (m : Message) (r : System × Option PendingCommand)
    → (places k (after_cancel m r) ≡ places k r.0)
      × ((after_cancel m r).next_future ≡ r.0.next_future)
unfolding after_cancel
after_cancel-places k m (s, none) = (refl, refl)
after_cancel-places k m (s, some c) = (refl, refl)

take_out-next :
    (s : System) (o : Option PendingCommand) → (take_out s o).0.next_future ≡ s.next_future
unfolding take_out
take_out-next s none = refl
take_out-next s (some c) = refl

network_in-IsOnce : (s : System) (p : Phase) → IsOnce s → IsOnce (network_in s p)
unfolding network_in try_cancel_oldest_pending
network_in-IsOnce s idle h k = h k
network_in-IsOnce s (full m) h k =
    let s' = record s { pending = prune (is_done s) s.pending } in
    let o = first_queued s.queued (prune (is_done s) s.pending) in
    let (p, n) = after_cancel-places k m (take_out s' o) in
    rw (p, n, take_out-next s' o)
      (rw (take_out-places k s' o (λ c e. has_future_of_first_queued s.queued _ c e)) (h k))
network_in-IsOnce s (displaced m c) h k = h k
network_in-IsOnce s (retry m) h k = ground (arith, h k)
network_in-IsOnce s (admitted m) h k =
    let c : PendingCommand = record {
      future = s.next_future;
      topic = m.topic;
      request_id = m.request_id;
    } in
    ground (arith, h k, count-append k s.queued (c ∷ []))
network_in-IsOnce s (submitted c) h k = h k

begin-IsOnce : (s : System) (q : List PendingCommand) → s.queued ≡ q → IsOnce s → IsOnce (begin s q)
unfolding begin
begin-IsOnce s [] e h k = h k
begin-IsOnce s (c ∷ cs) e h k =
    elim (Bool-cases (ltb (length s.running + length s.finishing) s.max_workers)) [
      | inl room ↦ rw room (omega (arith, h k, ap (count k) e, count-append k s.running (c ∷ [])))
      | inr busy ↦ rw busy (h k)
    ]

release-IsOnce :
    (s : System) (o : Option PendingCommand) (error : Option String)
    → ((c : PendingCommand) → o ≡ some c → has_future c.future s.running ≡ true)
    → IsOnce s
    → IsOnce (release s o error)
unfolding release
release-IsOnce s none error there h k = h k
release-IsOnce s (some c) none there h k = omega (
  arith,
  h k,
  count-remove_future k c.future s.running (there c refl),
  count-append k s.finished (c ∷ []),
)
release-IsOnce s (some c) (some x) there h k = omega (
  arith,
  h k,
  count-remove_future k c.future s.running (there c refl),
  count-append k s.finished (c ∷ []),
)

leave-IsOnce : (s : System) (o : Option PendingCommand) → IsOnce s → IsOnce (leave s o)
unfolding leave
leave-IsOnce s none h k = h k
leave-IsOnce s (some c) h k = h k

step-IsOnce : (s : System) (a : Action) → IsOnce s → IsOnce (step s a)
unfolding step
step-IsOnce s (arrives m) h k = unfold arrive in ground (arith, h k)
step-IsOnce s goes_on h k = unfold network in network_in-IsOnce s s.phase h k
step-IsOnce s begins h k = begin-IsOnce s s.queued refl h k
step-IsOnce s (releases i error) h k =
    release-IsOnce s (find_future i s.running) error
      (λ c e. let (there, same) = has_future_of_find i s.running c e in rw same there) h k
step-IsOnce s (leaves i) h k = leave-IsOnce s (find_future i s.finishing) h k

run-IsOnce : (s : System) (as_ : List Action) → IsOnce s → IsOnce (run s as_)
unfolding run
run-IsOnce s [] h = h
run-IsOnce s (a ∷ as_) h = run-IsOnce (step s a) as_ (step-IsOnce s a h)

-- Under every schedule each command that was submitted is in exactly one place, once: waiting,
-- running, handled or cancelled. So none is handled twice, lost, or handled and cancelled.
pub handled_once :
    (limit workers : ℕ) (as_ : List Action) (k : ℕ)
    → k < (run (new limit workers) as_).next_future
    → places k (run (new limit workers) as_) ≡ 1
handled_once limit workers as_ k h =
    ground (arith, run-IsOnce (new limit workers) as_ (λ k. ground arith) k)

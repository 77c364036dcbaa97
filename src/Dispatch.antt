-- ===== src/Dispatch.antt =====
-- mqtt/client.py, `_on_message`: the admission of a command to the thread pool. The network thread,
-- which alone runs `_on_message`, and the pool's workers interleave; an action below is one of their
-- steps between two points at which another thread may run. A schedule is a list of actions.
pub mod Cancel
pub mod Slots
pub mod Once
mod Tests
use lucid_agent_core.Prelude.{
  ◌==◌, ℕ, zero, suc, ◌+◌, ◌-◌, String, Bool, true, false, not, ◌&&◌, ◌||◌, Option, none, some,
  List, [], ◌∷◌, ◌++◌, length, ltb, nat_eq, if◌then◌else◌,
}

-- A command message for which there is a handler, decoded.
pub record Message : Type 0 where
  pub topic : String
  pub request_id : String

-- `_PendingCommand`: the number stands for the identity of its future.
pub record PendingCommand : Type 0 where
  pub future : ℕ
  pub topic : String
  pub request_id : String

-- What `_publish_cmd_failure` publishes on the result topic of the command.
pub record Failure : Type 0 where
  pub cmd_topic : String
  pub request_id : String
  pub error : String

-- Where the network thread stands in `_on_message`: outside; after the first `acquire` failed;
-- with the displaced command cancelled and its slot not yet released; before the second `acquire`;
-- holding a slot; after `submit` and before the append to `_pending`.
pub data Phase : Type 0 where
  idle : Phase
  full retry admitted : Message → Phase
  displaced : Message → PendingCommand → Phase
  submitted : PendingCommand → Phase

pub record System : Type 0 where
  -- the value of `_inflight_sem`
  pub permits : ℕ
  pub max_workers : ℕ
  pub next_future : ℕ
  pub phase : Phase
  -- the pool: submitted and not begun, in a handler, and in the `finally` after the release
  pub queued : List PendingCommand
  pub running : List PendingCommand
  pub finishing : List PendingCommand
  -- the deque `_pending`
  pub pending : List PendingCommand
  -- what has happened: handlers that ended, commands cancelled, failures published
  pub finished : List PendingCommand
  pub cancelled : List PendingCommand
  pub failures : List Failure

-- A client with `inflight_limit` slots
abbrev pub new : ℕ → ℕ → System
new inflight_limit max_workers = record {
  permits = inflight_limit;
  max_workers = max_workers;
  next_future = 0;
  phase = idle;
  queued = [];
  running = [];
  finishing = [];
  pending = [];
  finished = [];
  cancelled = [];
  failures = [];
}

unfoldable pub has_future : ℕ → List PendingCommand → Bool
has_future k [] = false
has_future k (c ∷ cs) = nat_eq c.future k || has_future k cs

unfoldable pub remove_future : ℕ → List PendingCommand → List PendingCommand
remove_future k [] = []
remove_future k (c ∷ cs) = if nat_eq c.future k then cs else c ∷ remove_future k cs

-- `future.done()`: the future of a command in its `finally` is still running.
unfoldable pub is_done : System → PendingCommand → Bool
unfolding has_future
is_done s c = not (
    has_future c.future s.queued
    || has_future c.future s.running
    || has_future c.future s.finishing)

-- `while self._pending and self._pending[0].future.done(): popleft()`
unfoldable pub prune : (PendingCommand → Bool) → List PendingCommand → List PendingCommand
prune done [] = []
prune done (c ∷ cs) = let rest = prune done cs in if done c then rest else c ∷ cs

-- The first entry that can be cancelled, which is one that is queued.
unfoldable pub first_queued : List PendingCommand → List PendingCommand → Option PendingCommand
unfolding has_future
first_queued queued [] = none
first_queued queued (c ∷ cs) = if has_future c.future queued then some c else first_queued queued cs

take_out : System → Option PendingCommand → System × Option PendingCommand
unfolding remove_future
take_out s none = (s, none)
take_out s (some c) = (
  record s {
    queued = remove_future c.future s.queued;
    pending = remove_future c.future s.pending;
    cancelled = s.cancelled ++ c ∷ [];
  },
  some c,
)

-- `_try_cancel_oldest_pending`
unfoldable pub try_cancel_oldest_pending : System → System × Option PendingCommand
unfolding prune is_done first_queued take_out
try_cancel_oldest_pending s =
    let pruned = prune (is_done s) s.pending in
    take_out (record s { pending = pruned }) (first_queued s.queued pruned)

-- `_publish_cmd_failure`, for the topic of a command: without a request id it does nothing.
unfoldable pub fail : System → String → String → String → System
fail s cmd_topic request_id error = record s {
  failures =
      s.failures
      ++ (if request_id == ""
          then []
          else record { cmd_topic = cmd_topic; request_id = request_id; error = error } ∷ []);
}

-- `acquire(blocking=False)`, going on as `admitted` or as another phase.
unfoldable pub acquire : System → Message → Phase → System
acquire s m otherwise = elim s.permits [
  | zero ↦ record s { phase = otherwise }
  | suc p ↦ record s { permits = p; phase = admitted m }
]

after_cancel : Message → System × Option PendingCommand → System
unfolding fail
after_cancel m (s, some c) = record s { phase = displaced m c }
after_cancel m (s, none) = record (fail s m.topic m.request_id "agent overloaded") { phase = idle }

-- The second `acquire`; if it fails, the new command is dropped.
second_acquire : System → Message → System
unfolding fail
second_acquire s m = elim s.permits [
  | zero ↦ record (fail s m.topic m.request_id "agent overloaded") { phase = idle }
  | suc p ↦ record s { permits = p; phase = admitted m }
]

-- The pool's `submit`, and the entry for `_pending`.
submit : System → Message → System
submit s m =
    let c : PendingCommand = record {
      future = s.next_future;
      topic = m.topic;
      request_id = m.request_id;
    } in
    record s { next_future = s.next_future + 1; queued = s.queued ++ c ∷ []; phase = submitted c }

-- The next step of the network thread inside `_on_message`.
network_in : System → Phase → System
unfolding after_cancel try_cancel_oldest_pending second_acquire submit fail
network_in s idle = s
network_in s (full m) = after_cancel m (try_cancel_oldest_pending s)
network_in s (displaced m c) = record (fail s c.topic c.request_id "cancelled by newer command") {
  permits = s.permits + 1;
  phase = retry m;
}
network_in s (retry m) = second_acquire s m
network_in s (admitted m) = submit s m
network_in s (submitted c) = record s { pending = s.pending ++ c ∷ []; phase = idle }

unfoldable pub network : System → System
unfolding network_in
network s = network_in s s.phase

-- A message arrives: the first `acquire`. The network thread takes it only outside a call.
unfoldable pub arrive : System → Message → System
unfolding acquire
arrive s m = elim s.phase [ idle ↦ acquire s m (full m) | _ ↦ s ]

-- A free worker takes the oldest queued command.
begin : System → List PendingCommand → System
begin s [] = s
begin s (c ∷ cs) =
    if ltb (length s.running + length s.finishing) s.max_workers
    then record s { queued = cs; running = s.running ++ c ∷ [] }
    else s

unfoldable pub find_future : ℕ → List PendingCommand → Option PendingCommand
find_future k [] = none
find_future k (c ∷ cs) = if nat_eq c.future k then some c else find_future k cs

-- The failure that a handler's exception publishes.
abbrev report : System → PendingCommand → Option String → System
report s c none = s
report s c (some error) = fail s c.topic c.request_id error

-- A handler returns, or raises with a message: the `finally` releases the slot.
release : System → Option PendingCommand → Option String → System
unfolding remove_future fail
release s none error = s
release s (some c) error = record (report s c error) {
  permits = s.permits + 1;
  running = remove_future c.future s.running;
  finishing = s.finishing ++ c ∷ [];
  finished = s.finished ++ c ∷ [];
}

-- The end of the `finally`: the entry leaves `_pending`, if it is there.
leave : System → Option PendingCommand → System
unfolding remove_future
leave s none = s
leave s (some c) = record s {
  finishing = remove_future c.future s.finishing;
  pending = remove_future c.future s.pending;
}

pub data Action : Type 0 where
  arrives : Message → Action
  goes_on begins : Action
  releases : ℕ → Option String → Action
  leaves : ℕ → Action

unfoldable pub step : System → Action → System
unfolding arrive network begin find_future release leave
step s (arrives m) = arrive s m
step s goes_on = network s
step s begins = begin s s.queued
step s (releases k error) = release s (find_future k s.running) error
step s (leaves k) = leave s (find_future k s.finishing)

unfoldable pub run : System → List Action → System
unfolding step
run s [] = s
run s (a ∷ as_) = run (step s a) as_

-- ===== src/Dedup.antt =====
-- core/handlers/_dedup.py: the bounded memory of request ids, `_SeenRequestIds`, and the guard
-- `check_duplicate` that each command handler runs first. The lock makes each call atomic, so a
-- call is a function from the state to the new state and the answer.
pub mod Bounds
pub mod Window
mod Tests
use lucid_agent_core.Prelude.{
  ℕ, String, Bool, true, false, Option, none, some, List, [], ◌∷◌, ◌++◌, length, contains, discard,
  leb, ◌==◌, if◌then◌else◌,
}

pub record SeenRequestIds : Type 0 where
  pub maxsize : ℕ
  -- insertion order, the oldest first
  pub queue : List String
  pub seen : List String

abbrev pub max_seen : ℕ
max_seen = 10_000

-- `_SeenRequestIds(maxsize)`
abbrev pub new : ℕ → SeenRequestIds
new maxsize = record { maxsize = maxsize; queue = []; seen = [] }

-- `self._queue.append(request_id)` and `self._seen.add(request_id)`; the id is not in the set
append_id : SeenRequestIds → String → SeenRequestIds
append_id s rid = record s { queue = s.queue ++ rid ∷ []; seen = rid ∷ s.seen }

-- The eviction at the cap. `popleft` of an empty deque raises `IndexError`, which is `none`.
evict : List String → SeenRequestIds → Option SeenRequestIds
evict [] s = none
evict (oldest ∷ rest) s = some (record s { queue = rest; seen = discard s.seen oldest })

make_room : SeenRequestIds → Option SeenRequestIds
unfolding evict
make_room s = if leb s.maxsize (length s.queue) then evict s.queue s else some s

admit : Option SeenRequestIds → String → Option (SeenRequestIds × Bool)
unfolding append_id
admit none rid = none
admit (some s) rid = some (append_id s rid, false)

-- The new state, and whether the id is a duplicate. An empty id is never one.
unfoldable pub check_and_add : SeenRequestIds → String → Option (SeenRequestIds × Bool)
unfolding make_room admit discard
check_and_add s rid =
    if rid == ""
    then some (s, false)
    else if contains s.seen rid
    then some (s, true)
    else admit (make_room s) rid

-- The payload that a rejected duplicate publishes on the command's result topic.
pub record Rejection : Type 0 where
  pub topic : String
  pub request_id : String
  pub error : String

-- `check_duplicate`: the answer, the new state, and what is published.
unfoldable pub check_duplicate :
    SeenRequestIds → String → String → Option (SeenRequestIds × Bool × List Rejection)
unfolding check_and_add
check_duplicate s rid result_topic = elim (check_and_add s rid) [
  | none ↦ none
  | some (s', dup) ↦ some (
    s',
    dup,
    if dup
        then record { topic = result_topic; request_id = rid; error = "duplicate request_id" } ∷ []
        else [],
  )
]

-- A run of calls, with the answers in order.
unfoldable pub run : SeenRequestIds → List String → Option (SeenRequestIds × List Bool)
run s [] = some (s, [])
run s (rid ∷ rids) = elim (check_and_add s rid) [
  | none ↦ none
  | some (s', dup) ↦ elim (run s' rids) [ none ↦ none | some (s'', dups) ↦ some (s'', dup ∷ dups) ]
]

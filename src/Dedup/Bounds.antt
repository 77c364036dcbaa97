-- ===== src/Dedup/Bounds.antt =====
-- The invariant of `_SeenRequestIds` (core/handlers/_dedup.py): the deque and the set hold the same
-- ids, none twice, and never more than `maxsize`.
use lucid_agent_core.Prelude.{
  ◌+◌, ◌≤◌, ◌<◌, String, ◌≡◌, refl, Bool, true, false, some, List, [], ◌∷◌, ◌++◌, arith, length,
  length-append, Bool-cases, inl, inr, leb, ◌≢◌, contains, contains-append, contains-discard,
  discard, eq_iff, ◌==◌, ◌||◌,
}
use lucid_agent_core.Dedup.{SeenRequestIds, evict, make_room, append_id, check_and_add}

abbrev pub Distinct : List String → Type 0
Distinct [] = Unit
Distinct (x ∷ xs) = (contains xs x ≡ false) × Distinct xs

pub record IsValid (s : SeenRequestIds) : Type 0 where
  pub positive : 0 < s.maxsize
  pub bounded : length s.queue ≤ s.maxsize
  pub distinct : Distinct s.queue
  pub same : (k : String) → contains s.seen k ≡ contains s.queue k

Distinct-append :
    (xs : List String) (k : String) → Distinct xs → contains xs k ≡ false → Distinct (xs ++ k ∷ [])
Distinct-append [] k d h = (refl, tt)
Distinct-append (x ∷ xs) k d h =
    ground (arith, Distinct-append xs k d.1, contains-append xs (k ∷ []) x, eq_iff x k, eq_iff k x)

-- What `make_room` leaves: room for one id more, and nothing new.
pub record HasRoom (s t : SeenRequestIds) : Type 0 where
  pub maxsize : t.maxsize ≡ s.maxsize
  pub room : length t.queue < t.maxsize
  pub distinct : Distinct t.queue
  pub same : (k : String) → contains t.seen k ≡ contains t.queue k
  pub old : (k : String) → contains s.queue k ≡ false → contains t.queue k ≡ false

evict-HasRoom :
    (q : List String) (s : SeenRequestIds)
    → s.queue ≡ q
    → IsValid s
    → 0 < length q
    → (t : SeenRequestIds) × (evict q s ≡ some t) × HasRoom s t
unfolding evict
evict-HasRoom [] s e v h = absurd (omega arith)
evict-HasRoom (oldest ∷ rest) s e v h = (
  record s { queue = rest; seen = discard s.seen oldest },
  refl,
  record {
    maxsize = refl;
    room = omega (arith, v.bounded, ap_length);
    distinct = d.1;
    same = λ k.
        ground (arith, contains-discard s.seen oldest k, v.same k, has k, d.0, eq_iff oldest k);
    old = λ k. ground (arith, has k);
  },
)
  where
    ap_length : length s.queue ≡ length rest + 1
    ap_length = rw e (omega arith)

    d : Distinct (oldest ∷ rest)
    d = rw e at v.distinct

    has : (k : String) → contains s.queue k ≡ (oldest == k || contains rest k)
    has k = rw e refl

make_room-HasRoom :
    (s : SeenRequestIds) → IsValid s → (t : SeenRequestIds) × (make_room s ≡ some t) × HasRoom s t
unfolding make_room
make_room-HasRoom s v = elim (Bool-cases (leb s.maxsize (length s.queue))) [
  | inl full ↦ rw full (evict-HasRoom s.queue s refl v (ground (arith, v.positive)))
  | inr room ↦ rw room (
    s,
    refl,
    record {
      maxsize = refl;
      room = ground arith;
      distinct = v.distinct;
      same = v.same;
      old = λ k h. h;
    },
  )
]

append_id-IsValid :
    {s t : SeenRequestIds} (rid : String)
    → IsValid s
    → HasRoom s t
    → contains s.queue rid ≡ false
    → IsValid (append_id t rid)
unfolding append_id
append_id-IsValid {s} {t} rid v r new = record {
  positive = omega (arith, v.positive, r.maxsize);
  bounded = omega (arith, r.room, length-append t.queue (rid ∷ []));
  distinct = Distinct-append t.queue rid r.distinct (r.old rid new);
  same = λ k. ground (arith, r.same k, contains-append t.queue (rid ∷ []) k);
}

-- On a memory with a positive cap a call never fails, and the memory stays valid: the deque and
-- the set agree, no id is held twice, and no more than `maxsize` ids are held.
pub check_and_add-IsValid :
    (s : SeenRequestIds) (rid : String)
    → IsValid s
    → (t : SeenRequestIds) × (dup : Bool) × (check_and_add s rid ≡ some (t, dup)) × IsValid t
unfolding check_and_add
check_and_add-IsValid s rid v = elim (Bool-cases (rid == "")) [
  | inl empty ↦ (s, false, rw empty, v)
  | inr named ↦ elim (Bool-cases (contains s.seen rid)) [
    | inl old ↦ (s, true, rw (named, old), v)
    | inr new ↦
        let (t, e, r) = make_room-HasRoom s v in
        (
          append_id t rid,
          false,
          rw (named, new, e),
          append_id-IsValid rid v r (rw (← v.same rid) new),
        )
  ]
]

-- An id that a call has just admitted is a duplicate for the next call, and the next call changes
-- nothing.
check_and_add_twice :
    (s t : SeenRequestIds) (rid : String) (dup : Bool)
    → rid ≢ ""
    → check_and_add s rid ≡ some (t, dup)
    → check_and_add t rid ≡ some (t, true)
unfolding check_and_add make_room evict append_id
check_and_add_twice s t rid dup named h =
    let held : contains t.seen rid ≡ true = ground (arith, eq_iff rid "", eq_iff rid rid) in
    ground (arith, held, eq_iff rid "")

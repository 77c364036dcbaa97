-- ===== src/Dedup/Window.antt =====
-- `_SeenRequestIds` (core/handlers/_dedup.py) against an ideal memory that forgets nothing: what
-- each call answers, and what is published, over any run of request ids.
use lucid_agent_core.Prelude.{
  ℕ, zero, suc, ◌-◌, ◌≤◌, ◌<◌, String, ◌≡◌, refl, ap, Bool, false, some, List, [], ◌∷◌, ◌++◌, arith,
  length, length-append, drop, drop-append, length-drop, discard, sym, ◌∙◌, contains, Bool-cases,
  inl, inr, leb, ◌==◌, if◌then◌else◌,
}
use mathlib.Core.Path.{subst}
use lucid_agent_core.Dedup.{
  SeenRequestIds, new, evict, make_room, append_id, check_and_add, check_duplicate, run,
}
use lucid_agent_core.Dedup.Bounds.{IsValid, check_and_add-IsValid}

-- The last `n` elements.
abbrev pub last_n : ℕ → List String → List String
last_n n xs = drop (length xs - n) xs

-- An ideal memory holds every id ever admitted, the oldest first. An id is a duplicate if it is
-- among the last `maxsize` of them.
abbrev pub is_recent : ℕ → List String → String → Bool
is_recent maxsize admitted rid = if rid == "" then false else contains (last_n maxsize admitted) rid

abbrev pub note : ℕ → List String → String → List String
note maxsize admitted rid =
    if rid == ""
    then admitted
    else if contains (last_n maxsize admitted) rid
    then admitted
    else admitted ++ rid ∷ []

abbrev pub ideal_answers : ℕ → List String → List String → List Bool
ideal_answers maxsize admitted [] = []
ideal_answers maxsize admitted (rid ∷ rids) =
    is_recent maxsize admitted rid ∷ ideal_answers maxsize (note maxsize admitted rid) rids

abbrev pub ideal_admitted : ℕ → List String → List String → List String
ideal_admitted maxsize admitted [] = admitted
ideal_admitted maxsize admitted (rid ∷ rids) =
    ideal_admitted maxsize (note maxsize admitted rid) rids

pub record Tracks (maxsize : ℕ) (s : SeenRequestIds) (admitted : List String) : Type 0 where
  pub valid : IsValid s
  pub cap : s.maxsize ≡ maxsize
  pub window : s.queue ≡ last_n maxsize admitted

drop-suc :
    (n : ℕ) (xs : List String) (x : String) (rest : List String)
    → drop n xs ≡ x ∷ rest
    → drop (suc n) xs ≡ rest
unfolding drop
drop-suc zero [] x rest h = cc
drop-suc zero (y ∷ xs) x rest h = cc
drop-suc (suc n) [] x rest h = cc
drop-suc (suc n) (y ∷ xs) x rest h = drop-suc n xs x rest h

-- The window after one more id: its first id goes if the window is full.
last_n-append_full :
    (m : ℕ) (adm : List String) (rid oldest : String) (rest : List String)
    → 0 < m
    → m ≤ length adm
    → last_n m adm ≡ oldest ∷ rest
    → last_n m (adm ++ rid ∷ []) ≡ rest ++ rid ∷ []
last_n-append_full m adm rid oldest rest p h e =
    let n : length (adm ++ rid ∷ []) - m ≡ suc (length adm - m) =
      omega (arith, length-append adm (rid ∷ [])) in
    rw (n, drop-append (suc (length adm - m)) adm (rid ∷ []) (omega arith))
      (ap (λ xs. xs ++ rid ∷ []) (drop-suc (length adm - m) adm oldest rest e))

last_n_all : (m : ℕ) (xs : List String) → length xs ≤ m → last_n m xs ≡ xs
unfolding drop
last_n_all m xs h = let n : length xs - m ≡ 0 = omega arith in rw n refl

length-last_n : (m : ℕ) (xs : List String) → length (last_n m xs) ≡ length xs - (length xs - m)
length-last_n m xs = length-drop (length xs - m) xs

-- `make_room` and the two appends slide the window by one id.
append_id-window :
    (m : ℕ) (adm : List String) (s : SeenRequestIds) (rid : String)
    → IsValid s
    → s.maxsize ≡ m
    → s.queue ≡ last_n m adm
    → (t : SeenRequestIds) × (make_room s ≡ some t)
      × (t.maxsize ≡ m)
      × (t.queue ++ rid ∷ [] ≡ last_n m (adm ++ rid ∷ []))
unfolding make_room
append_id-window m adm s rid v c w = elim (Bool-cases (leb s.maxsize (length s.queue))) [
  | inl full ↦ rw full (slide s.queue refl (ground arith))
  | inr room ↦
      let n : length adm < m = ground (arith, ap length w, length-last_n m adm, v.positive) in
      rw room (
        s,
        refl,
        c,
        rw
            (
              w,
              last_n_all m adm (omega arith),
              last_n_all m (adm ++ rid ∷ []) (omega (arith, length-append adm (rid ∷ []))),
            )
            refl,
      )
]
  where
    slide :
        (q : List String)
        → s.queue ≡ q
        → s.maxsize ≤ length s.queue
        → (t : SeenRequestIds) × (evict q s ≡ some t)
          × (t.maxsize ≡ m)
          × (t.queue ++ rid ∷ [] ≡ last_n m (adm ++ rid ∷ []))
    slide [] e full = absurd (omega (arith, ap length e, v.positive))
    slide (oldest ∷ rest) e full = (
      record s { queue = rest; seen = discard s.seen oldest },
      refl,
      c,
      sym (
          last_n-append_full m adm rid oldest rest (omega (arith, v.positive))
            (omega (arith, v.positive, ap length w, length-last_n m adm)) (sym w ∙ e)),
    )

-- One call answers as the ideal memory does, and keeps its window.
check_and_add-Tracks :
    (m : ℕ) (adm : List String) (s : SeenRequestIds) (rid : String)
    → Tracks m s adm
    → (t : SeenRequestIds) × (check_and_add s rid ≡ some (t, is_recent m adm rid))
      × Tracks m t (note m adm rid)
unfolding check_and_add append_id
check_and_add-Tracks m adm s rid k = elim (Bool-cases (rid == "")) [
  | inl empty ↦ rw empty (s, refl, k)
  | inr named ↦ elim (Bool-cases (contains (last_n m adm) rid)) [
    | inl old ↦ rw (named, old) (s, rw (k.valid.same rid, k.window, old) refl, k)
    | inr fresh ↦
        let (t, room, cap, window) = append_id-window m adm s rid k.valid k.cap k.window in
        let (t', dup, e, v) = check_and_add-IsValid s rid k.valid in
        let absent : contains s.seen rid ≡ false = rw (k.valid.same rid, k.window) fresh in
        let e' : check_and_add s rid ≡ some (append_id t rid, false) =
          rw (named, absent, room) refl in
        let same : t' ≡ append_id t rid = cc (e, e') in
        rw (named, fresh)
          (
            append_id t rid,
            rw (absent, room) refl,
            record { valid = subst IsValid same v; cap = cap; window = window },
          )
  ]
]

run-Tracks :
    (m : ℕ) (adm : List String) (s : SeenRequestIds) (rids : List String)
    → Tracks m s adm
    → (t : SeenRequestIds) × (run s rids ≡ some (t, ideal_answers m adm rids))
      × Tracks m t (ideal_admitted m adm rids)
unfolding run
run-Tracks m adm s [] k = (s, refl, k)
run-Tracks m adm s (rid ∷ rids) k =
    let (t, e, k') = check_and_add-Tracks m adm s rid k in
    let (u, e', k'') = run-Tracks m (note m adm rid) t rids k' in (u, rw (e, run, e') refl, k'')

-- From an empty memory with a positive cap, no run of calls fails; call by call it answers as an
-- ideal memory that calls an id a duplicate exactly when it is non-empty and among the last
-- `maxsize` ids admitted; and the deque is left holding exactly those last ids, in order.
pub run-refines_ideal :
    (m : ℕ) (rids : List String)
    → 0 < m
    → (t : SeenRequestIds) × (run (new m) rids ≡ some (t, ideal_answers m [] rids))
      × (t.queue ≡ last_n m (ideal_admitted m [] rids))
      × (length t.queue ≤ m)
run-refines_ideal m rids h =
    let (t, e, k) = run-Tracks m [] (new m) rids (record {
      valid = record { positive = h; bounded = omega arith; distinct = tt; same = λ j. refl };
      cap = refl;
      window = sym (last_n_all m [] (omega arith));
    }) in
    (t, e, k.window, omega (arith, k.valid.bounded, k.cap))

-- On a valid memory the guard publishes exactly when the call says duplicate: then one failure,
-- with the command's own id, on the topic that it was given; else nothing.
check_duplicate-publishes :
    (s : SeenRequestIds) (rid topic : String)
    → IsValid s
    → (t : SeenRequestIds) × (dup : Bool) × (check_and_add s rid ≡ some (t, dup))
      × (check_duplicate s rid topic
          ≡ some (
            t,
            dup,
            if dup
                then record { topic = topic; request_id = rid; error = "duplicate request_id" } ∷ []
                else [],
          ))
unfolding check_duplicate
check_duplicate-publishes s rid topic v =
    let (t, dup, e, _) = check_and_add-IsValid s rid v in (t, dup, e, rw (e, check_duplicate) refl)

-- ===== src/Restart/Spacing.antt =====
-- How often core/restart.py can signal a restart.
use lucid_agent_core.Prelude.{
  ℕ, ◌+◌, ◌≤◌, ◌≡◌, Bool, true, false, Option, none, some, List, [], ◌∷◌, arith, Bool-cases, inl,
  inr, if◌then◌else◌,
}
use lucid_agent_core.Restart.{
  Host, Request, works, restart_debounce, is_managed, is_debounced, request_managed,
  request_systemd_restart, signals,
}

-- Each time is at least ten seconds after the one before, and the first after `last`.
abbrev pub Spaced : Option ℕ → List ℕ → Type 0
Spaced last [] = Unit
Spaced none (t ∷ ts) = Spaced (some t) ts
Spaced (some last) (t ∷ ts) = (last + restart_debounce ≤ t) × Spaced (some t) ts

abbrev pub AllWork : List Request → Type 0
AllWork [] = Unit
AllWork (r ∷ rs) = (r.sentinel ≡ works) × AllWork rs

-- An earlier time before the first asks for less.
Spaced-earlier :
    (last now : ℕ) (ts : List ℕ)
    → last + restart_debounce ≤ now
    → Spaced (some now) ts
    → Spaced (some last) ts
Spaced-earlier last now [] h s = tt
Spaced-earlier last now (t ∷ ts) h (le, s) = (omega (arith, h, le), s)

Spaced-none : (now : ℕ) (ts : List ℕ) → Spaced (some now) ts → Spaced none ts
Spaced-none now [] s = tt
Spaced-none now (t ∷ ts) s = s.1

-- A call that passes the debounce at a time, whether or not it can send the signal.
Spaced-passed :
    (now : ℕ) (last : Option ℕ) (sent : Bool) (ts : List ℕ)
    → is_debounced now last ≡ false
    → Spaced (some now) ts
    → Spaced last (if sent then now ∷ ts else ts)
unfolding is_debounced
Spaced-passed now none true ts d s = s
Spaced-passed now none false ts d s = Spaced-none now ts s
Spaced-passed now (some last) true ts d s = (ground arith, s)
Spaced-passed now (some last) false ts d s = Spaced-earlier last now ts (ground arith) s

-- Where the sentinel can be read and written and no call begins before the one before it returned,
-- restarts are debounced: whatever such calls are made and whichever signals can be sent, two that are sent are ten seconds apart or more, and the first is
-- ten seconds or more after the sentinel's time, if there is a sentinel.
pub signals-Spaced :
    (h : Host) (rs : List Request) (last : Option ℕ) → AllWork rs → Spaced last (signals h rs last)
unfolding signals request_systemd_restart request_managed
signals-Spaced h [] last w = tt
signals-Spaced h (r ∷ rs) last (w, ws) = elim (Bool-cases (is_managed h)) [
  | inr bare ↦ rw bare (signals-Spaced h rs last ws)
  | inl managed ↦ elim (Bool-cases (is_debounced r.now last)) [
    | inl soon ↦ rw (managed, w, soon) (signals-Spaced h rs last ws)
    | inr passed ↦
        rw (managed, w, passed)
          (Spaced-passed r.now last r.killable _ passed (signals-Spaced h rs (some r.now) ws))
  ]
]

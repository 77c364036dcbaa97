-- ===== src/Restart/Tests.antt =====
-- Restart requests of core/restart.py under systemd.
use lucid_agent_core.Prelude.{ℕ, ◌≡◌, refl, true, none, some, List, [], ◌∷◌}
use lucid_agent_core.Restart.{Host, Request, works, signals}
use lucid_agent_core.Restart.Spacing.{Spaced, signals-Spaced}

abbrev host : Host
host = record {
  invocation_id = some "x";
  systemd_dir = true;
  platform = "linux";
  parent_pid = 1;
  lucid_managed = none;
}

abbrev at_time : ℕ → Request
at_time now = record { now = now; sentinel = works; killable = true }

abbrev requests : List Request
requests = at_time 0 ∷ at_time 9999 ∷ at_time 10_000 ∷ at_time 12_000 ∷ []

signals-debounced : signals host requests none ≡ 0 ∷ 10_000 ∷ []
unfolding signals
signals-debounced = refl

signals-Spaced_example : Spaced none (signals host requests none)
signals-Spaced_example = signals-Spaced host requests none (refl, (refl, (refl, (refl, tt))))

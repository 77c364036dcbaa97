-- ===== src/Snapshots/Tests.antt =====
-- Payloads of core/snapshots.py for small configurations.
use lucid_agent_core.Config.Validation.{check_metrics}
use lucid_agent_core.Prelude.Json.{get}
use lucid_agent_core.Prelude.{ℕ, ◌≡◌, refl, ◌↔◌, true, none}
use lucid_agent_core.Prelude.Errors.{ok}
use lucid_agent_core.Prelude.Int.{ℤ, pos}
use lucid_agent_core.Prelude.Json.{bool, int, str, dict, Fields, end, field}
use lucid_agent_core.Config.Validation.{validate, check_entry, check_metric}
use lucid_agent_core.Snapshots.{Convert, available_metrics, sub_dict, build_cfg_telemetry}
use lucid_agent_core.Snapshots.Metrics.{Built, build_cfg_telemetry-AllSound}
use lucid_agent_core.Snapshots.Conform.{satisfies, spec_at, satisfies-check_entry}

abbrev convert : Convert
convert = record {
  int_of_text = λ s. none;
  float_of_text = λ s. none;
  float_of_int = λ z. ok (z, 0);
  text_of = λ v. elim v [ str s ↦ s | _ ↦ "?" ];
}

abbrev cpu_on : Fields
cpu_on =
    field "telemetry"
      (dict (
        field "metrics"
          (dict (
            field "cpu_percent"
              (dict (field "enabled" (bool true) (field "interval_s" (int (pos 5)) end))) end))
          end))
      end

keeps_sign :
    (n : ℕ) (z : ℤ) (k : ℕ) → convert.float_of_int (pos n) ≡ ok (z, k) → (m : ℕ) × (z ≡ pos m)
keeps_sign n z k h = (n, cc h)

build_cfg_telemetry-AllSound_example :
    (t : Fields) × (d : Fields) × (sub_dict "telemetry" cpu_on ≡ ok t)
    × (sub_dict "metrics" t ≡ ok d)
    × Built convert d available_metrics (build_cfg_telemetry convert cpu_on)
unfolding validate check_entry get check_metrics check_metric
build_cfg_telemetry-AllSound_example = build_cfg_telemetry-AllSound convert keeps_sign cpu_on refl

satisfies-check_entry_example :
    (satisfies (spec_at "cfg" "heartbeat_s") (int (pos 30)) ≡ true
      ↔ check_entry "heartbeat_s" (int (pos 30)) ≡ none)
    × (satisfies (spec_at "cfg/logging" "log_level") (int (pos 30)) ≡ true
        ↔ check_entry "log_level" (int (pos 30)) ≡ none)
satisfies-check_entry_example = satisfies-check_entry (int (pos 30))

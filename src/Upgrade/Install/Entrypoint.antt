-- ===== src/Upgrade/Install/Entrypoint.antt =====
-- The entry point that the inner `try` of core/upgrade/component_installer.py chooses.
use mathlib.Core.Path.{subst}
use lucid_agent_core.Prelude.{String, ◌≡◌, true, some, List, [], ◌∷◌, arith, Option-cases, inl, inr}
use lucid_agent_core.Prelude.Dict.{lookup}
use lucid_agent_core.Prelude.Errors.{Outcome, ok, Outcome-cases, ◌>>=◌}
use lucid_agent_core.Prelude.Text.{split_once}
use lucid_agent_core.Upgrade.{World, Env}
use lucid_agent_core.Upgrade.Request.{InstallRequest}
use lucid_agent_core.Upgrade.Install.{discover_entrypoint, verify_entrypoint}

discover_entrypoint-ok :
    (cid ep : String) (eps : List (String × String))
    → discover_entrypoint cid eps ≡ ok ep
    → lookup cid eps ≡ some ep
unfolding discover_entrypoint lookup
discover_entrypoint-ok cid ep [] h = absurd (cc h)
discover_entrypoint-ok cid ep ((name, value) ∷ eps) h =
    ground (arith, discover_entrypoint-ok cid ep eps)

module _ (e : Env) (req : InstallRequest) where
  -- The entry point that the inner `try` goes on with.
  abbrev pub chosen : World → Outcome String
  chosen w = do
    entrypoint ← discover_entrypoint req.component_id (e.entry_points w.pip_log)
    _ ← verify_entrypoint e w.pip_log entrypoint
    ok entrypoint

  pub record Chosen (w : World) (ep : String) : Type 0 where
    pub declared : lookup req.component_id (e.entry_points w.pip_log) ≡ some ep
    pub importable :
        (module_name : String) × (class_name : String) × (split_once 58 ep
          ≡ some (module_name, class_name))
        × (e.importable w.pip_log module_name class_name ≡ true)

  verify_entrypoint-ok :
      (w : World) (ep : String)
      → verify_entrypoint e w.pip_log ep ≡ ok tt
      → (module_name : String) × (class_name : String) × (split_once 58 ep
          ≡ some (module_name, class_name))
        × (e.importable w.pip_log module_name class_name ≡ true)
  unfolding verify_entrypoint
  verify_entrypoint-ok w ep h = elim (Option-cases (split_once 58 ep)) [
    | inl bare ↦ absurd (cc (h, bare))
    | inr ((m, c), split) ↦ (m, c, split, ground (arith, h, split))
  ]

  pub chosen-Chosen : (w : World) (ep : String) → chosen w ≡ ok ep → Chosen w ep
  chosen-Chosen w ep h =
      elim (Outcome-cases (discover_entrypoint req.component_id (e.entry_points w.pip_log))) [
        | inr (x, none_found) ↦ absurd (cc (h, none_found))
        | inl (found, p) ↦ elim (Outcome-cases (verify_entrypoint e w.pip_log found)) [
          | inr (x, bad) ↦ absurd (cc (h, p, bad))
          | inl (u, good) ↦
              let same : found ≡ ep = cc (h, p, good) in
              subst (Chosen w) same (record {
                declared = discover_entrypoint-ok req.component_id found _ p;
                importable = verify_entrypoint-ok w found good;
              })
        ]
      ]

-- ===== src/Upgrade/Uninstall/Effect.antt =====
-- What core/upgrade/component_uninstaller.py leaves behind.
use mathlib.Core.Option
use mathlib.Core.Path.{subst, sym}
use lucid_agent_core.Prelude.{
  String, ◌≡◌, ◌≢◌, refl, ap, true, false, ◌⊎◌, inl, inr, Option, none, some, arith, eq_iff,
  eq_refl,
}
use lucid_agent_core.Prelude.Dict.{lookup, erase, lookup-erase}
use lucid_agent_core.Prelude.Errors.{Outcome, ok, raise}
use lucid_agent_core.Prelude.Json.{Fields}
use lucid_agent_core.Config.Store.{File}
use lucid_agent_core.Config.Store.Sorted.{sorted_fields}
use lucid_agent_core.Registry.{Registry, ReadFault, load_registry, write_registry}
use lucid_agent_core.Registry.Reload.{load-write}
use lucid_agent_core.Upgrade.{World, Env}
use lucid_agent_core.Upgrade.Request.{UninstallRequest}
use lucid_agent_core.Upgrade.Uninstall.{
  UninstallResult, written, removed, named, found, loaded, uninstall_request,
}

-- The file holds the registry `reg` without the component; nothing else has changed.
pub record Removed (req : UninstallRequest) (reg : Registry) (file : File) : Type 0 where
  pub back : Registry
  pub reads : load_registry ReadFault.readable file ≡ (ok back, file)
  pub gone : lookup req.component_id back ≡ none
  pub others :
      (k : String) → k ≢ req.component_id → lookup k back ≡ Option.map sorted_fields (lookup k reg)

module _ (e : Env) (req : UninstallRequest) where
  -- An answer that accepts has removed the component, or there was none and nothing was done.
  abbrev pub Accepted : Registry → World → UninstallResult × World → Type 0
  Accepted reg w p =
      ((p.0.restart_required ≡ true) × Removed req reg p.1.registry_file)
      ⊎ (p.0.noop ≡ true)
        × (p.0.restart_required ≡ false)
        × (lookup req.component_id reg ≡ none)
        × (p.1 ≡ w)

  abbrev Accepts : Registry → World → UninstallResult × World → Type 0
  Accepts reg w p = p.0.accepted ≡ true → Accepted reg w p

  write-Removed :
      (reg : Registry) (file file' : File)
      → write_registry e.write_fault (erase req.component_id reg) file ≡ (ok tt, file')
      → Removed req reg file'
  write-Removed reg file file' p =
      let (back, reads, back_at) = load-write _ e.write_fault file file' p in
      record {
        back = back;
        reads = reads;
        gone = rw (back_at req.component_id) (rw lookup-erase (rw eq_refl refl));
        others = λ k n. rw (back_at k) (
            ap (Option.map sorted_fields)
              (ground (arith, n, eq_iff req.component_id k, lookup-erase req.component_id k reg)));
      }

  written-Accepted :
      (reg : Registry) (w₀ w : World) (o : Outcome (Unit {0}) × File)
      → write_registry e.write_fault (erase req.component_id reg) w.registry_file ≡ o
      → Accepts reg w₀ (written e req w o)
  unfolding written
  written-Accepted reg w₀ w (ok _, file) p q = inl (refl, write-Removed reg w.registry_file file p)
  written-Accepted reg w₀ w (raise x, file) p q = absurd (cc q)

  removed-Accepted :
      (reg : Registry) (w₀ : World) (o : Outcome (Unit {0}) × World)
      → Accepts reg w₀ (removed e req reg o)
  unfolding removed
  removed-Accepted reg w₀ (ok _, w) q = written-Accepted reg w₀ w _ refl q
  removed-Accepted reg w₀ (raise x, w) q = absurd (cc q)

  named-Accepted :
      (reg : Registry) (w : World) (o : Option (Outcome String))
      → Accepts reg w (named e req reg w o)
  unfolding named
  named-Accepted reg w none q = absurd (cc q)
  named-Accepted reg w (some (ok dist)) q = removed-Accepted reg w _ q
  named-Accepted reg w (some (raise x)) q = absurd (cc q)

  found-Accepted :
      (reg : Registry) (w : World) (o : Option Fields)
      → lookup req.component_id reg ≡ o
      → Accepts reg w (found e req reg w o)
  unfolding found
  found-Accepted reg w none p q = inr (refl, refl, p, refl)
  found-Accepted reg w (some entry) p q = named-Accepted reg w _ q

  -- An uninstallation that accepts, from a registry that could be read, either has removed the
  -- component from it, leaving each other entry, and asks for a restart; or the component was not
  -- in it, and then it is a noop: no restart, pip not run, and the file as the read left it.
  pub uninstall_request-Accepted :
      (w : World) (reg : Registry) (file : File)
      → load_registry e.read_fault w.registry_file ≡ (ok reg, file)
      → (uninstall_request e req w).0.accepted ≡ true
      → Accepted reg (record w { registry_file = file }) (uninstall_request e req w)
  unfolding uninstall_request loaded
  uninstall_request-Accepted w reg file p =
      subst (λ o. Accepts reg (record w { registry_file = file }) (loaded e req w o)) (sym p)
        (found-Accepted reg (record w { registry_file = file }) (lookup req.component_id reg) refl)

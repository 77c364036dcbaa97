-- ===== src/Upgrade/Component/Safety.antt =====
-- What core/upgrade/component_upgrader.py does to the host: which wheels pip sees, and what a failed
-- upgrade leaves in the registry.
use mathlib.Core.Path.{subst}
use lucid_agent_core.Prelude.{
  String, Bool, ◌≡◌, ◌≢◌, refl, ap, ◌∙◌, true, false, Option, none, some, List,
}
use lucid_agent_core.Prelude.Errors.{Outcome, ok, raise}
use lucid_agent_core.Prelude.Json.{Fields}
use lucid_agent_core.Config.Store.{File}
use lucid_agent_core.Registry.{
  Registry, WriteFault, writable, after_rename, load_registry, write_registry,
}
use lucid_agent_core.Registry.Reload.{load_registry_twice}
use lucid_agent_core.Upgrade.{Bytes, PipCommand, World, Env, verified_wheel}
use lucid_agent_core.Upgrade.Verified.{
  all_verified, verified_wheel-verified, pip_upgrade-verified, pip_upgrade-file,
}
use lucid_agent_core.Upgrade.Component.{
  UpgradeRequest, UpgradeResult, url_of, filename_of, upgrade_request, downloaded, upgraded,
  recorded, written, rollback, rolled_back, reinstall,
}

module _ (e : Env) (req : UpgradeRequest) where
  rollback-file :
      (old : Fields) (w : World) → (rollback e req old w).registry_file ≡ w.registry_file
  unfolding rollback
  rollback-file old w = go _ _
    where
      back :
          (name : String) (o : Outcome Bytes)
          → (reinstall e req name w o).registry_file ≡ w.registry_file
      back name (ok bytes) = pip_upgrade-file e true "" name bytes w
      back name (raise x) = refl

      go :
          (url version : Option String)
          → (rolled_back e req old w url version).registry_file ≡ w.registry_file
      go (some url) (some version) = back _ _
      go (some url) none = refl
      go none version = refl

  -- What holds of an answer and the world with it, when pip's log was `log` and a read of the
  -- registry found `read`.
  record Safe (log : List PipCommand) (read : Outcome Registry × File) (p : UpgradeResult × World)
      : Type 0 where
    verified :
        (x : Bool)
        → e.write_fault ≡ writable
        → all_verified e x req.sha256 log ≡ true
        → all_verified e x req.sha256 p.1.pip_log ≡ true
    no_restart : p.0.accepted ≡ false → p.0.restart_required ≡ false
    kept :
        p.0.accepted ≡ false
        → e.write_fault ≢ after_rename
        → load_registry e.read_fault p.1.registry_file ≡ read

  written-Safe :
      (old : Fields) (reg : Registry) (w : World)
      → Safe w.pip_log
          (load_registry e.read_fault w.registry_file)
          (written e req old w (write_registry e.write_fault reg w.registry_file))
  unfolding written write_registry
  written-Safe old reg w = go e.write_fault refl
    where
      go :
          (fault : WriteFault)
          → e.write_fault ≡ fault
          → Safe w.pip_log
              (load_registry e.read_fault w.registry_file)
              (written e req old w (write_registry fault reg w.registry_file))
      go WriteFault.writable p = record {
        verified = λ x h v. v;
        no_restart = λ q. absurd (cc q);
        kept = λ q n. absurd (cc q);
      }
      go WriteFault.before_rename p = record {
        verified = λ x h v. absurd (cc (p, h));
        no_restart = λ q. refl;
        kept = λ q n. ap (load_registry e.read_fault) (rollback-file old w);
      }
      go WriteFault.after_rename p = record {
        verified = λ x h v. absurd (cc (p, h));
        no_restart = λ q. refl;
        kept = λ q n. absurd (n p);
      }

  recorded-Safe :
      (w : World)
      → Safe w.pip_log
          (load_registry e.read_fault w.registry_file)
          (recorded e req w (load_registry e.read_fault w.registry_file))
  unfolding recorded
  recorded-Safe w = go _ refl
    where
      twice :
          (o : Outcome Registry × File)
          → load_registry e.read_fault w.registry_file ≡ o
          → load_registry e.read_fault o.1 ≡ o
      twice o p =
          subst (λ x. load_registry e.read_fault x.1 ≡ x) p
            (load_registry_twice e.read_fault w.registry_file)

      go :
          (o : Outcome Registry × File)
          → load_registry e.read_fault w.registry_file ≡ o
          → Safe w.pip_log o (recorded e req w o)
      go (raise x, file) p = record {
        verified = λ x h v. v;
        no_restart = λ q. refl;
        kept = λ q n. twice _ p;
      }
      go (ok reg, file) p =
          subst (λ o. Safe w.pip_log o (recorded e req w (ok reg, file))) (twice (ok reg, file) p)
            (written-Safe _ _ (record w { registry_file = file }))

  upgraded-Safe :
      (w : World) (o : Outcome (Unit {0}) × World)
      → o.1.registry_file ≡ w.registry_file
      → ((x : Bool)
          → all_verified e x req.sha256 w.pip_log ≡ true
          → all_verified e x req.sha256 o.1.pip_log ≡ true)
      → Safe w.pip_log (load_registry e.read_fault w.registry_file) (upgraded e req o)
  unfolding upgraded
  upgraded-Safe w (ok _, w') f v =
      let s = recorded-Safe w' in
      record {
        verified = λ x h u. s.verified x h (v x u);
        no_restart = s.no_restart;
        kept = λ q n. s.kept q n ∙ ap (load_registry e.read_fault) f;
      }
  upgraded-Safe w (raise x, w') f v = record {
    verified = λ x h u. v x u;
    no_restart = λ q. refl;
    kept = λ q n. ap (load_registry e.read_fault) f;
  }

  downloaded-Safe :
      (w : World) (o : Outcome Bytes)
      → verified_wheel e (url_of req) req.sha256 ≡ o
      → Safe w.pip_log (load_registry e.read_fault w.registry_file) (downloaded e req w o)
  unfolding downloaded
  downloaded-Safe w (ok bytes) p =
      upgraded-Safe w _ (pip_upgrade-file e true req.sha256 (filename_of req) bytes w) (λ x.
        pip_upgrade-verified e x req.sha256 (filename_of req) bytes w
          (verified_wheel-verified e x (url_of req) req.sha256 (filename_of req) bytes p))
  downloaded-Safe w (raise x) p = record {
    verified = λ x h v. v;
    no_restart = λ q. refl;
    kept = λ q n. refl;
  }

  -- Where the write of the registry does not fail, a component upgrade installs no wheel but one whose
  -- hash is the requested one: if each wheel in pip's log so far has that hash, so has each after it, and it
  -- adds no run of the unchecked [pi] extra.
  pub upgrade_request-verified :
      (x : Bool) (w : World)
      → e.write_fault ≡ writable
      → all_verified e x req.sha256 w.pip_log ≡ true
      → all_verified e x req.sha256 (upgrade_request e req w).1.pip_log ≡ true
  unfolding upgrade_request
  upgrade_request-verified x w = (downloaded-Safe w _ refl).verified x

  -- A failed component upgrade asks for no restart, and a read of the registry after it finds what one
  -- before it would have found, unless the write failed only after the file was replaced.
  pub upgrade_request-failure :
      (w : World)
      → (upgrade_request e req w).0.accepted ≡ false
      → ((upgrade_request e req w).0.restart_required ≡ false)
        × (e.write_fault ≢ after_rename
            → load_registry e.read_fault (upgrade_request e req w).1.registry_file
              ≡ load_registry e.read_fault w.registry_file)
  unfolding upgrade_request
  upgrade_request-failure w q = let s = downloaded-Safe w _ refl in (s.no_restart q, s.kept q)

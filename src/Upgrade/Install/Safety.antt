-- ===== src/Upgrade/Install/Safety.antt =====
-- What core/upgrade/component_installer.py does to the host: which wheels pip sees, and what a
-- failed and a finished installation leave in the registry.
use mathlib.Core.Path.{sym}
use lucid_agent_core.Prelude.{
  String, Bool, ◌≡◌, ◌≢◌, refl, ap, ◌∙◌, true, false, List, arith, Bool-cases, inl, inr,
}
use lucid_agent_core.Prelude.Dict.{lookup}
use lucid_agent_core.Prelude.Errors.{Exn, Outcome, ok, raise}
use lucid_agent_core.Config.Store.{File}
use lucid_agent_core.Registry.{
  Registry, after_rename, load_registry, write_registry, is_same_install,
}
use lucid_agent_core.Upgrade.{Bytes, PipCommand, World, Env, verified_wheel}
use lucid_agent_core.Upgrade.Verified.{
  all_verified, verified_wheel-verified, pip_install-verified, pip_install-file,
  pip_uninstall-verified, pip_uninstall-file,
}
use lucid_agent_core.Upgrade.Request.{InstallRequest}
use lucid_agent_core.Upgrade.Install.{
  InstallResult, repo_of, url_of, register, recorded, registered, installed, downloaded, fetched,
  loaded, install_request, has_entrypoint,
}

-- What holds of an answer and the world with it, when pip's log was `log` and the registry's file
-- was `file`.
record Safe (e : Env) (id h : String) (log : List PipCommand) (file : File)
    (p : InstallResult × World) : Type 0 where
  verified :
      (x : Bool)
      → (id ≡ "led_strip" → x ≡ true)
      → all_verified e x h log ≡ true
      → all_verified e x h p.1.pip_log ≡ true
  no_restart : p.0.accepted ≡ false → p.0.restart_required ≡ false
  kept : p.0.accepted ≡ false → e.write_fault ≢ after_rename → p.1.registry_file ≡ file

module _ (e : Env) (req : InstallRequest) where
  register-log :
      (reg : Registry) (asset : String) (w : World)
      → (register e req reg asset w).1.pip_log ≡ w.pip_log
  unfolding register recorded
  register-log reg asset w = go _
    where
      go : (o : Outcome String) → (recorded e req reg asset w o).1.pip_log ≡ w.pip_log
      go (ok x) = refl
      go (raise x) = refl

  register-file :
      (reg : Registry) (asset : String) (w : World) (x : Exn)
      → (register e req reg asset w).0 ≡ raise x
      → e.write_fault ≢ after_rename
      → (register e req reg asset w).1.registry_file ≡ w.registry_file
  unfolding register recorded write_registry
  register-file reg asset w x p n = go _ p
    where
      go :
          (o : Outcome String)
          → (recorded e req reg asset w o).0 ≡ raise x
          → (recorded e req reg asset w o).1.registry_file ≡ w.registry_file
      go (ok ep) q = ground (arith, q, n)
      go (raise y) q = refl

  registered-Safe :
      (reg : Registry) (asset : String) (w : World)
      → Safe e req.component_id req.sha256 w.pip_log w.registry_file
          (registered e req asset (register e req reg asset w))
  unfolding registered
  registered-Safe reg asset w = go (register e req reg asset w) refl
    where
      go :
          (o : Outcome (Unit {0}) × World)
          → register e req reg asset w ≡ o
          → Safe e req.component_id req.sha256 w.pip_log w.registry_file (registered e req asset o)
      go (ok _, w') p = record {
        verified = λ x l v. rw (← ap (λ o. o.1.pip_log) p ∙ refl) (rw (register-log reg asset w) v);
        no_restart = λ q. cc;
        kept = λ q n. cc;
      }
      go (raise x, w') p = record {
        verified = λ x l v.
            pip_uninstall-verified e x req.sha256 _ w'
              (rw (← ap (λ o. o.1.pip_log) p) (rw (register-log reg asset w) v));
        no_restart = λ q. refl;
        kept = λ q n.
            pip_uninstall-file e true req.sha256 _ w'
            ∙ (sym (ap (λ o. o.1.registry_file) p)
                ∙ register-file reg asset w x (ap (λ o. o.0) p) n);
      }

  installed-Safe :
      (reg : Registry) (asset : String) (w : World) (o : Outcome (Unit {0}) × World)
      → o.1.registry_file ≡ w.registry_file
      → ((x : Bool)
          → (req.component_id ≡ "led_strip" → x ≡ true)
          → all_verified e x req.sha256 w.pip_log ≡ true
          → all_verified e x req.sha256 o.1.pip_log ≡ true)
      → Safe e req.component_id req.sha256 w.pip_log w.registry_file (installed e req reg asset o)
  unfolding installed
  installed-Safe reg asset w (ok _, w') f v =
      let s = registered-Safe reg asset w' in
      record {
        verified = λ x l u. s.verified x l (v x l u);
        no_restart = s.no_restart;
        kept = λ q n. s.kept q n ∙ f;
      }
  installed-Safe reg asset w (raise x, w') f v = record {
    verified = v;
    no_restart = λ q. refl;
    kept = λ q n. f;
  }

  downloaded-Safe :
      (reg : Registry) (asset : String) (w : World) (o : Outcome Bytes)
      → verified_wheel e (url_of req asset) req.sha256 ≡ o
      → Safe e req.component_id req.sha256 w.pip_log w.registry_file
          (downloaded e req reg asset w o)
  unfolding downloaded
  downloaded-Safe reg asset w (ok bytes) p =
      installed-Safe reg asset w _
        (pip_install-file e true req.sha256 asset req.component_id bytes w)
        (λ x l.
          pip_install-verified e x req.sha256 asset req.component_id bytes w l
            (verified_wheel-verified e x (url_of req asset) req.sha256 asset bytes p))
  downloaded-Safe reg asset w (raise x) p = record {
    verified = λ x l v. v;
    no_restart = λ q. refl;
    kept = λ q n. refl;
  }

  fetched-Safe :
      (reg : Registry) (w : World) (o : Outcome String)
      → Safe e req.component_id req.sha256 w.pip_log w.registry_file (fetched e req reg w o)
  unfolding fetched
  fetched-Safe reg w (ok asset) = downloaded-Safe reg asset w _ refl
  fetched-Safe reg w (raise x) = record {
    verified = λ x l v. v;
    no_restart = λ q. refl;
    kept = λ q n. refl;
  }

  loaded-Safe :
      (w : World) (o : Outcome Registry × File)
      → Safe e req.component_id req.sha256 w.pip_log o.1 (loaded e req w o)
  unfolding loaded
  loaded-Safe w (raise x, file) = record {
    verified = λ x l v. v;
    no_restart = λ q. refl;
    kept = λ q n. refl;
  }
  loaded-Safe w (ok reg, file) =
      elim (Bool-cases (
        is_same_install (lookup req.component_id reg) (repo_of req) req.version
          (has_entrypoint e req))) [
            | inl same ↦
                rw same (record { verified = λ x l v. v; no_restart = λ q. cc; kept = λ q n. cc })
            | inr other ↦ rw other (fetched-Safe reg (record w { registry_file = file }) _)
          ]

  -- An installation installs no wheel file but one whose hash is the requested one, and beyond that runs
  -- only the [pi] extra, which pip takes from its index with no hash, and only for `led_strip`: if each
  -- wheel in pip's log so far has that hash, then so has each after it, however it ends; and if the
  -- log is to hold no run of the extra, it holds none after the installation of another component.
  pub install_request-verified :
      (x : Bool) (w : World)
      → (req.component_id ≡ "led_strip" → x ≡ true)
      → all_verified e x req.sha256 w.pip_log ≡ true
      → all_verified e x req.sha256 (install_request e req w).1.pip_log ≡ true
  unfolding install_request
  install_request-verified x w l v =
      (loaded-Safe w (load_registry e.read_fault w.registry_file)).verified x l v

  -- A failed installation asks for no restart and leaves the registry's file as the read of it left
  -- it, unless the write failed only after the file was replaced.
  pub install_request-failure :
      (w : World)
      → (install_request e req w).0.accepted ≡ false
      → ((install_request e req w).0.restart_required ≡ false)
        × (e.write_fault ≢ after_rename
            → (install_request e req w).1.registry_file
              ≡ (load_registry e.read_fault w.registry_file).1)
  unfolding install_request
  install_request-failure w q =
      let s = loaded-Safe w (load_registry e.read_fault w.registry_file) in
      (s.no_restart q, s.kept q)

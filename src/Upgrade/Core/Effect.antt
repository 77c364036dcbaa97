-- ===== src/Upgrade/Core/Effect.antt =====
-- The outcome of core/upgrade/core_upgrader.py.
use lucid_agent_core.Prelude.{String, ◌≡◌, refl, ap, ◌∙◌, sym, true, List, [], ◌∷◌, ◌++◌, arith}
use lucid_agent_core.Prelude.Errors.{Outcome, ok, raise}
use lucid_agent_core.Upgrade.{Bytes, install, World, Env, verified_wheel, pip_upgrade_wheel}
use lucid_agent_core.Upgrade.Verified.{pip_upgrade-file}
use lucid_agent_core.Upgrade.Core.{
  UpgradeRequest, UpgradeResult, Dep, Reader, filename_of, url_of, read_lucid_git_deps, release_of,
  upgrade_wheel, upgrade_release, auto_upgrade, upgraded, downloaded, upgrade_request,
}

module _ (e : Env) where
  upgrade_wheel-file :
      (name : String) (w : World) (o : Outcome Bytes)
      → (upgrade_wheel e name w o).registry_file ≡ w.registry_file
  unfolding upgrade_wheel
  upgrade_wheel-file name w (raise x) = refl
  upgrade_wheel-file name w (ok bytes) = pip_upgrade-file e true "" name bytes w

  upgrade_release-file :
      (dep : Dep) (w : World) (o : Outcome (String × String))
      → (upgrade_release e dep w o).registry_file ≡ w.registry_file
  unfolding upgrade_release
  upgrade_release-file dep w (raise x) = refl
  upgrade_release-file dep w (ok (name, h)) = upgrade_wheel-file name w _

  auto_upgrade-file :
      (deps : List Dep) (w : World) → (auto_upgrade e deps w).registry_file ≡ w.registry_file
  unfolding auto_upgrade
  auto_upgrade-file [] w = refl
  auto_upgrade-file (dep ∷ deps) w =
      auto_upgrade-file deps _ ∙ upgrade_release-file dep w (release_of e dep)

module _ (e : Env) (r : Reader) (req : UpgradeRequest) where
  -- The world once the dependencies were tried.
  abbrev deps_done : Bytes → World → World
  deps_done bytes w = auto_upgrade e (read_lucid_git_deps r bytes) w

  pub record Finished (w : World) (p : UpgradeResult × World) : Type 0 where
    pub restart : p.0.restart_required ≡ p.0.succeeded
    pub kept : p.1.registry_file ≡ w.registry_file
    pub last :
        p.0.succeeded ≡ true
        → (bytes : Bytes) × (verified_wheel e (url_of req) req.sha256 ≡ ok bytes)
          × (p.1.pip_log ≡ (deps_done bytes w).pip_log ++ install (filename_of req) bytes ∷ [])

  deps_done-file :
      (w w' : World) (bytes : Bytes) (o : Outcome (Unit {0}) × World)
      → w' ≡ deps_done bytes w
      → pip_upgrade_wheel e (filename_of req) bytes w' ≡ o
      → o.1.registry_file ≡ w.registry_file
  deps_done-file w w' bytes o d q =
      sym (ap (λ o. o.1.registry_file) q)
      ∙ pip_upgrade-file e true "" (filename_of req) bytes w'
      ∙ ap (λ v. v.registry_file) d
      ∙ auto_upgrade-file e (read_lucid_git_deps r bytes) w

  upgraded-Finished :
      (w w' : World) (bytes : Bytes) (o : Outcome (Unit {0}) × World)
      → verified_wheel e (url_of req) req.sha256 ≡ ok bytes
      → w' ≡ deps_done bytes w
      → pip_upgrade_wheel e (filename_of req) bytes w' ≡ o
      → Finished w (upgraded e r req o)
  unfolding upgraded pip_upgrade_wheel
  upgraded-Finished w w' bytes (ok _, v) p d q = record {
    restart = refl;
    kept = deps_done-file w w' bytes _ d q;
    last = λ _. (bytes, p, ground (arith, q, d));
  }
  upgraded-Finished w w' bytes (raise x, v) p d q = record {
    restart = refl;
    kept = deps_done-file w w' bytes _ d q;
    last = λ s. absurd (cc s);
  }

  -- Once its payload is validated, a core upgrade asks for a restart exactly when it succeeds and leaves
  -- the registry alone; when it
  -- succeeds, the requested wheel was downloaded, its hash was the requested one, and its
  -- installation is the last thing pip ran, after the upgrades of its dependencies.
  pub upgrade_request-Finished : (w : World) → Finished w (upgrade_request e r req w)
  unfolding upgrade_request downloaded
  upgrade_request-Finished w = go _ refl
    where
      go :
          (o : Outcome Bytes)
          → verified_wheel e (url_of req) req.sha256 ≡ o
          → Finished w (downloaded e r req w o)
      go (ok bytes) p = upgraded-Finished w _ bytes _ p refl refl
      go (raise x) p = record { restart = refl; kept = refl; last = λ s. absurd (cc s) }

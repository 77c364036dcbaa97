-- ===== src/Upgrade/Core/Trust.antt =====
-- Which wheels core/upgrade/core_upgrader.py lets pip install.
use lucid_agent_core.Prelude.{
  String, ◌≡◌, refl, Bool, true, false, ◌&&◌, ◌||◌, ◌==◌, List, [], ◌∷◌, ◌++◌, arith, eq_refl,
}
use lucid_agent_core.Prelude.Errors.{Outcome, ok, raise}
use lucid_agent_core.Upgrade.{
  Bytes, PipCommand, install, World, Env, verified_wheel, pip_upgrade_wheel,
}
use lucid_agent_core.Upgrade.Verified.{is_verified, verified_wheel-verified}
use lucid_agent_core.Upgrade.Core.{
  UpgradeRequest, Dep, Reader, filename_of, url_of, read_lucid_git_deps, release_of, upgrade_wheel,
  upgrade_release, auto_upgrade, upgraded, downloaded, upgrade_request,
}

-- Whether a command installs the wheel of a release, under its name and with its hash.
unfoldable pub is_released : Env → Outcome (String × String) → PipCommand → Bool
is_released e (raise x) c = false
is_released e (ok (name, h)) (install file bytes) =
    file == name && is_verified e false h (install file bytes)
is_released e (ok (name, h)) c = false

unfoldable pub of_some_dep : Env → List Dep → PipCommand → Bool
of_some_dep e [] c = false
of_some_dep e (dep ∷ deps) c = is_released e (release_of e dep) c || of_some_dep e deps c

-- A wheel with the requested hash, or the release of a dependency; the [pi] extra, which has no hash, is
-- allowed or not.
unfoldable pub is_trusted : Env → Bool → String → List Dep → PipCommand → Bool
is_trusted e x h deps c = is_verified e x h c || of_some_dep e deps c

unfoldable pub all_trusted : Env → Bool → String → List Dep → List PipCommand → Bool
all_trusted e x h deps [] = true
all_trusted e x h deps (c ∷ cs) = is_trusted e x h deps c && all_trusted e x h deps cs

-- The dependencies that the requested wheel names, once its hash is the requested one.
unfoldable pub named_deps : Env → Reader → UpgradeRequest → List Dep
named_deps e r req = elim (verified_wheel e (url_of req) req.sha256) [
  | ok bytes ↦ read_lucid_git_deps r bytes
  | raise _ ↦ []
]

module _ (e : Env) (x : Bool) (h : String) where
  all_trusted-append :
      (deps : List Dep) (cs : List PipCommand) (c : PipCommand)
      → all_trusted e x h deps cs ≡ true
      → is_trusted e x h deps c ≡ true
      → all_trusted e x h deps (cs ++ c ∷ []) ≡ true
  unfolding all_trusted
  all_trusted-append deps [] c v i = rw i refl
  all_trusted-append deps (d ∷ cs) c v i = ground (arith, all_trusted-append deps cs c)

  pip_upgrade-trusted :
      (deps : List Dep) (name : String) (bytes : Bytes) (w : World)
      → is_trusted e x h deps (install name bytes) ≡ true
      → all_trusted e x h deps w.pip_log ≡ true
      → all_trusted e x h deps (pip_upgrade_wheel e name bytes w).1.pip_log ≡ true
  unfolding pip_upgrade_wheel
  pip_upgrade-trusted deps name bytes w i v =
      ground (arith, all_trusted-append deps w.pip_log (install name bytes) v i)

  upgrade_wheel-trusted :
      (deps : List Dep) (url name d : String) (w : World) (o : Outcome Bytes)
      → verified_wheel e url d ≡ o
      → ((c : PipCommand) → is_released e (ok (name, d)) c ≡ true → of_some_dep e deps c ≡ true)
      → all_trusted e x h deps w.pip_log ≡ true
      → all_trusted e x h deps (upgrade_wheel e name w o).pip_log ≡ true
  unfolding upgrade_wheel is_trusted is_released
  upgrade_wheel-trusted deps url name d w (raise y) p s v = v
  upgrade_wheel-trusted deps url name d w (ok bytes) p s v =
      pip_upgrade-trusted deps name bytes w
        (ground (
          arith,
          s (install name bytes),
          eq_refl name,
          verified_wheel-verified e false url d name bytes p,
        ))
        v

  upgrade_release-trusted :
      (deps : List Dep) (dep : Dep) (w : World) (o : Outcome (String × String))
      → ((c : PipCommand) → is_released e o c ≡ true → of_some_dep e deps c ≡ true)
      → all_trusted e x h deps w.pip_log ≡ true
      → all_trusted e x h deps (upgrade_release e dep w o).pip_log ≡ true
  unfolding upgrade_release
  upgrade_release-trusted deps dep w (raise y) s v = v
  upgrade_release-trusted deps dep w (ok (name, d)) s v =
      upgrade_wheel-trusted deps _ name d w _ refl s v

  auto_upgrade-trusted :
      (all deps : List Dep) (w : World)
      → ((c : PipCommand) → of_some_dep e deps c ≡ true → of_some_dep e all c ≡ true)
      → all_trusted e x h all w.pip_log ≡ true
      → all_trusted e x h all (auto_upgrade e deps w).pip_log ≡ true
  unfolding auto_upgrade of_some_dep
  auto_upgrade-trusted all [] w s v = v
  auto_upgrade-trusted all (dep ∷ deps) w s v =
      auto_upgrade-trusted all deps _ (λ c p. s c (ground (arith, p)))
        (upgrade_release-trusted all dep w (release_of e dep) (λ c p. s c (ground (arith, p))) v)

module _ (e : Env) (r : Reader) (req : UpgradeRequest) where
  upgraded-log : (o : Outcome (Unit {0}) × World) → (upgraded e r req o).1.pip_log ≡ o.1.pip_log
  unfolding upgraded
  upgraded-log (ok _, w) = refl
  upgraded-log (raise x, w) = refl

  -- Every wheel that a core upgrade lets pip install has the requested hash, or is the wheel of a
  -- release, with the hash the release declares, of a dependency that the requested wheel names: if
  -- that is so of pip's log before, it is so of the log after, whether the log may hold the unchecked
  -- [pi] extra or not.
  pub upgrade_request-trusted :
      (x : Bool) (w : World)
      → all_trusted e x req.sha256 (named_deps e r req) w.pip_log ≡ true
      → all_trusted e x req.sha256 (named_deps e r req) (upgrade_request e r req w).1.pip_log ≡ true
  unfolding upgrade_request downloaded is_trusted named_deps
  upgrade_request-trusted x w v = go _ refl v
    where
      go :
          (o : Outcome Bytes)
          → verified_wheel e (url_of req) req.sha256 ≡ o
          → all_trusted e x req.sha256
              (elim o [ ok bytes ↦ read_lucid_git_deps r bytes | raise _ ↦ [] ])
              w.pip_log
            ≡ true
          → all_trusted e x req.sha256
              (elim o [ ok bytes ↦ read_lucid_git_deps r bytes | raise _ ↦ [] ])
              (downloaded e r req w o).1.pip_log
            ≡ true
      go (raise y) p v = v
      go (ok bytes) p v =
          let deps = read_lucid_git_deps r bytes in
          rw (upgraded-log (pip_upgrade_wheel e (filename_of req) bytes (auto_upgrade e deps w))) (
            pip_upgrade-trusted e x req.sha256 deps (filename_of req) bytes (auto_upgrade e deps w)
              (ground (
                arith,
                verified_wheel-verified e x (url_of req) req.sha256 (filename_of req) bytes p,
              ))
              (auto_upgrade-trusted e x req.sha256 deps deps w (λ c q. q) v))

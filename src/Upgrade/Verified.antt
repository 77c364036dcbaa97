-- ===== src/Upgrade/Verified.antt =====
-- Which wheels the pip commands of core/upgrade install: the hash is checked before pip runs.
use lucid_agent_core.Prelude.{
  String, ◌≡◌, refl, Bool, true, ◌&&◌, List, [], ◌∷◌, ◌++◌, arith, ◌==◌, Bool-cases, inl, inr,
  eq_iff,
}
use lucid_agent_core.Prelude.Errors.{ok, Outcome-cases}
use lucid_agent_core.Upgrade.{
  Bytes, PipCommand, install, install_extra, uninstall, World, Env, verified_wheel, verify_sha256,
  download_wheel, pip_install_wheel, pip_uninstall_dist, pip_upgrade_wheel,
}

-- Whether a command installs nothing, or a wheel with this hash; the packages of the [pi] extra are
-- checked against no hash, and are allowed or not.
unfoldable pub is_verified : Env → Bool → String → PipCommand → Bool
is_verified e extra expected (install name bytes) = e.lower (e.sha256 bytes) == e.lower expected
is_verified e extra expected install_extra = extra
is_verified e extra expected (uninstall dist) = true

unfoldable pub all_verified : Env → Bool → String → List PipCommand → Bool
all_verified e x expected [] = true
all_verified e x expected (c ∷ cs) = is_verified e x expected c && all_verified e x expected cs

pub all_verified-append :
    (e : Env) (x : Bool) (h : String) (cs : List PipCommand) (c : PipCommand)
    → all_verified e x h cs ≡ true
    → is_verified e x h c ≡ true
    → all_verified e x h (cs ++ c ∷ []) ≡ true
unfolding all_verified
all_verified-append e x h [] c v i = rw i refl
all_verified-append e x h (d ∷ cs) c v i = ground (arith, all_verified-append e x h cs c)

pub verified_wheel-verified :
    (e : Env) (x : Bool) (url h name : String) (bytes : Bytes)
    → verified_wheel e url h ≡ ok bytes
    → is_verified e x h (install name bytes) ≡ true
unfolding verified_wheel verify_sha256 is_verified
verified_wheel-verified e x url h name bytes p = elim (Outcome-cases (download_wheel e url)) [
  | inl (got, q) ↦ elim (Bool-cases (e.lower (e.sha256 got) == e.lower h)) [
    | inl same ↦ let r : got ≡ bytes = ground (arith, q, same) in rw (← r) same
    | inr other ↦ ground (arith, q, other)
  ]
  | inr (y, q) ↦ ground (arith, q)
]

module _ (e : Env) (x : Bool) (h : String) where
  pub pip_install-verified :
      (name cid : String) (bytes : Bytes) (w : World)
      → (cid ≡ "led_strip" → x ≡ true)
      → is_verified e x h (install name bytes) ≡ true
      → all_verified e x h w.pip_log ≡ true
      → all_verified e x h (pip_install_wheel e name bytes cid w).1.pip_log ≡ true
  unfolding pip_install_wheel
  pip_install-verified name cid bytes w only i v =
      let one = all_verified-append e x h w.pip_log (install name bytes) v i in
      elim (Bool-cases (cid == "led_strip")) [
        | inl led ↦ ground (
          arith,
          led,
          one,
          all_verified-append e x h (w.pip_log ++ install name bytes ∷ []) install_extra one
              (unfold is_verified in only ((eq_iff cid "led_strip").0 led)),
        )
        | inr other ↦ ground (arith, other, one)
      ]

  pub pip_install-file :
      (name cid : String) (bytes : Bytes) (w : World)
      → (pip_install_wheel e name bytes cid w).1.registry_file ≡ w.registry_file
  unfolding pip_install_wheel
  pip_install-file name cid bytes w = ground arith

  pub pip_uninstall-verified :
      (dist : String) (w : World)
      → all_verified e x h w.pip_log ≡ true
      → all_verified e x h (pip_uninstall_dist e dist w).1.pip_log ≡ true
  unfolding pip_uninstall_dist
  pip_uninstall-verified dist w v =
      ground
        (arith, all_verified-append e x h w.pip_log (uninstall dist) v (unfold is_verified in refl))

  pub pip_uninstall-file :
      (dist : String) (w : World) → (pip_uninstall_dist e dist w).1.registry_file ≡ w.registry_file
  unfolding pip_uninstall_dist
  pip_uninstall-file dist w = ground arith

  pub pip_upgrade-verified :
      (name : String) (bytes : Bytes) (w : World)
      → is_verified e x h (install name bytes) ≡ true
      → all_verified e x h w.pip_log ≡ true
      → all_verified e x h (pip_upgrade_wheel e name bytes w).1.pip_log ≡ true
  unfolding pip_upgrade_wheel
  pip_upgrade-verified name bytes w i v =
      ground (arith, all_verified-append e x h w.pip_log (install name bytes) v i)

  pub pip_upgrade-file :
      (name : String) (bytes : Bytes) (w : World)
      → (pip_upgrade_wheel e name bytes w).1.registry_file ≡ w.registry_file
  unfolding pip_upgrade_wheel
  pip_upgrade-file name bytes w = ground arith

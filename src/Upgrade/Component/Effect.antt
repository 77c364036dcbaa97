-- ===== src/Upgrade/Component/Effect.antt =====
-- What a finished upgrade of core/upgrade/component_upgrader.py leaves in the registry, and what its
-- rollback runs.
use mathlib.Core.Option
use mathlib.Core.Path.{subst, sym}
use lucid_agent_core.Prelude.{
  eq_iff, if◌then◌else◌, ◌==◌, ◌<>◌, false, ◌≢◌, String, ◌≡◌, refl, ap, ◌∙◌, true, none, some, [],
  ◌∷◌, ◌++◌, arith,
}
use lucid_agent_core.Prelude.Dict.{insert, lookup}
use lucid_agent_core.Prelude.Errors.{Outcome, ok, raise}
use lucid_agent_core.Prelude.Json.{Fields, end, get, str, get-put}
use lucid_agent_core.Config.Store.{File}
use lucid_agent_core.Config.Store.Sorted.{sorted_fields, sorted_value, get-sorted_fields}
use lucid_agent_core.Prelude.Text.{replace_char}
use lucid_agent_core.Registry.{ReadFault, Registry, load_registry, write_registry}
use lucid_agent_core.Registry.Reload.{Updated, write-Updated}
use lucid_agent_core.Upgrade.{Bytes, install, World, Env, pip_upgrade_wheel, download_wheel}
use lucid_agent_core.Upgrade.Verified.{pip_upgrade-file}
use lucid_agent_core.Upgrade.Component.{
  url_of, old_filename, UpgradeRequest, UpgradeResult, filename_of, entry_at, upgraded_entry,
  upgrade_request, downloaded, upgraded, recorded, written, rollback, text_of,
}

-- What a read of the registry's file finds after an upgrade from the registry `reg`: under the id of the
-- component an entry with the new version, address and hash, and each other key of the old one.
pub record Recorded (e : Env) (req : UpgradeRequest) (reg : Registry) (file : File) : Type 0 where
  pub back : Registry
  pub reads : load_registry ReadFault.readable file ≡ (ok back, file)
  pub entry : Fields
  pub there : lookup req.component_id back ≡ some entry
  pub version : get "version" entry ≡ some (str req.version)
  pub wheel_url :
      get "wheel_url" entry
      ≡ some (
          str (
            "https://github.com/"
            <> req.owner
            <> "/"
            <> req.repo
            <> "/releases/download/"
            <> ("v" <> req.version)
            <> "/"
            <> (replace_char 45 "_" req.dist_name <> "-" <> req.version <> "-py3-none-any.whl")))
  pub sha256 : get "sha256" entry ≡ some (str (e.lower req.sha256))
  pub kept :
      (old : Fields) (k : String)
      → lookup req.component_id reg ≡ some old
      → k ≢ "version"
      → k ≢ "wheel_url"
      → k ≢ "sha256"
      → get k entry ≡ Option.map sorted_value (get k old)
  pub others :
      (k : String) → k ≢ req.component_id → lookup k back ≡ Option.map sorted_fields (lookup k reg)

get-upgraded_entry :
    (e : Env) (req : UpgradeRequest) (old : Fields) (k : String)
    → get k (upgraded_entry e req old) ≡ (
        if "sha256" == k
        then some (str (e.lower req.sha256))
        else if "wheel_url" == k
        then some (str (url_of req))
        else if "version" == k
        then some (str req.version)
        else get k old)
get-upgraded_entry e req old k = rw (get-put, get-put, get-put) refl

get-sorted_entry :
    (e : Env) (req : UpgradeRequest) (old : Fields) (k : String)
    → get k (sorted_fields (upgraded_entry e req old))
      ≡ Option.map sorted_value (
          if "sha256" == k
          then some (str (e.lower req.sha256))
          else if "wheel_url" == k
          then some (str (url_of req))
          else if "version" == k
          then some (str req.version)
          else get k old)
get-sorted_entry e req old k =
    get-sorted_fields k (upgraded_entry e req old)
    ∙ ap (Option.map sorted_value) (get-upgraded_entry e req old k)

other_key : (j k : String) → k ≢ j → (j == k) ≡ false
other_key j k n = ground (arith, n, eq_iff j k)

Updated-Recorded :
    (e : Env) (req : UpgradeRequest) (reg : Registry) (file : File)
    → Updated req.component_id (some (upgraded_entry e req (entry_at req reg))) reg file
    → Recorded e req reg file
unfolding sorted_value
Updated-Recorded e req reg file u = record {
  back = u.back;
  reads = u.reads;
  entry = sorted_fields (upgraded_entry e req (entry_at req reg));
  there = u.there;
  version = get-sorted_entry e req (entry_at req reg) "version";
  wheel_url = get-sorted_entry e req (entry_at req reg) "wheel_url";
  sha256 = get-sorted_entry e req (entry_at req reg) "sha256";
  kept = λ old k there v w h.
      get-sorted_entry e req (entry_at req reg) k
      ∙ rw (other_key "version" k v, other_key "wheel_url" k w, other_key "sha256" k h)
          (ap (λ o. Option.map sorted_value (get k (elim o [ none ↦ end | some entry ↦ entry ])))
            there);
  others = u.others;
}

module _ (e : Env) (req : UpgradeRequest) where
  -- An accepted answer asks for a restart, and the registry has the entry with the three new values.
  abbrev Accepts : Registry → UpgradeResult × World → Type 0
  Accepts reg p =
      p.0.accepted ≡ true
      → (p.0.restart_required ≡ true)
        × Updated req.component_id (some (upgraded_entry e req (entry_at req reg))) reg
            p.1.registry_file

  written-Accepts :
      (reg : Registry) (w : World) (o : Outcome (Unit {0}) × File)
      → write_registry e.write_fault
          (insert req.component_id (upgraded_entry e req (entry_at req reg)) reg)
          w.registry_file
        ≡ o
      → Accepts reg (written e req (entry_at req reg) w o)
  unfolding written
  written-Accepts reg w (ok _, file) p q =
      (refl, write-Updated req.component_id _ reg e.write_fault w.registry_file file p)
  written-Accepts reg w (raise x, file) p q = absurd (cc q)

  recorded-Accepts :
      (reg : Registry) (file : File) (w : World) → Accepts reg (recorded e req w (ok reg, file))
  unfolding recorded
  recorded-Accepts reg file w = written-Accepts reg (record w { registry_file = file }) _ refl

  upgraded-Accepts :
      (reg : Registry) (file : File) (o : Outcome (Unit {0}) × World)
      → load_registry e.read_fault o.1.registry_file ≡ (ok reg, file)
      → Accepts reg (upgraded e req o)
  unfolding upgraded
  upgraded-Accepts reg file (ok _, w) p q =
      subst (λ o. Accepts reg (recorded e req w o)) (sym p) (recorded-Accepts reg file w) q
  upgraded-Accepts reg file (raise x, w) p q = absurd (cc q)

  downloaded-Accepts :
      (reg : Registry) (file : File) (w : World) (o : Outcome Bytes)
      → load_registry e.read_fault w.registry_file ≡ (ok reg, file)
      → Accepts reg (downloaded e req w o)
  unfolding downloaded
  downloaded-Accepts reg file w (ok bytes) p q =
      upgraded-Accepts reg file _
        (ap (load_registry e.read_fault) (pip_upgrade-file e true "" (filename_of req) bytes w) ∙ p)
        q
  downloaded-Accepts reg file w (raise x) p q = absurd (cc q)

  -- An accepted component upgrade, from a registry that could be read, asks for a restart and leaves
  -- the registry with the component's entry given the new version, address and hash: a read of the
  -- file finds these three and the entry's other keys as they were, and under each other id what was
  -- there, with keys in order.
  pub upgrade_request-Recorded :
      (w : World) (reg : Registry) (file : File)
      → load_registry e.read_fault w.registry_file ≡ (ok reg, file)
      → (upgrade_request e req w).0.accepted ≡ true
      → ((upgrade_request e req w).0.restart_required ≡ true)
        × Recorded e req reg (upgrade_request e req w).1.registry_file
  unfolding upgrade_request
  upgrade_request-Recorded w reg file p q =
      let (restart, u) = downloaded-Accepts reg file w _ p q in
      (restart, Updated-Recorded e req reg _ u)

  -- If the write of the registry fails after the new wheel was installed, the old wheel is downloaded
  -- from the address in the old entry and is what pip runs next, and last: where the entry names an
  -- address and a version, the download returns, and pip is there.
  rollback-log :
      (old : Fields) (w : World) (url version : String) (bytes : Bytes)
      → e.pip_exists ≡ true
      → text_of (get "wheel_url" old) ≡ some url
      → text_of (get "version" old) ≡ some version
      → download_wheel e url ≡ ok bytes
      → (rollback e req old w).pip_log
        ≡ w.pip_log ++ install (old_filename req old version) bytes ∷ []
  unfolding rollback pip_upgrade_wheel
  rollback-log old w url version bytes p u v d = rw (u, v, d) (ground (arith, p))

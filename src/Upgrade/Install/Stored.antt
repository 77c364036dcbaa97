-- ===== src/Upgrade/Install/Stored.antt =====
-- What a finished installation of core/upgrade/component_installer.py leaves in the registry.
use mathlib.Core.Option
use mathlib.Core.Path.{subst, sym}
use lucid_agent_core.Prelude.{String, ◌≡◌, ◌≢◌, refl, ap, true, some, ◌<>◌, Bool-cases, inl, inr}
use lucid_agent_core.Prelude.Dict.{lookup, insert}
use lucid_agent_core.Prelude.Errors.{Outcome, ok, raise}
use lucid_agent_core.Prelude.Json.{bool, str, dict, Fields, end, field, get}
use lucid_agent_core.Prelude.Text.{split_once}
use lucid_agent_core.Config.Store.{File}
use lucid_agent_core.Config.Store.Sorted.{sorted_fields, sorted_value, insert_field}
use lucid_agent_core.Registry.{Registry, ReadFault, load_registry, write_registry, is_same_install}
use lucid_agent_core.Registry.Reload.{write-Updated}
use lucid_agent_core.Upgrade.{Bytes, World, Env, fetch_release_asset, verified_wheel}
use lucid_agent_core.Upgrade.Request.{InstallRequest}
use lucid_agent_core.Upgrade.Install.Entrypoint.{Chosen, chosen, chosen-Chosen}
use lucid_agent_core.Upgrade.Install.{
  InstallResult, repo_of, url_of, extract_dist_name_from_wheel, entry_of, register, recorded,
  registered, installed, downloaded, fetched, loaded, install_request, has_entrypoint,
}

-- The new entry, by its keys.
pub record Holds (e : Env) (req : InstallRequest) (asset ep : String) (entry : Fields)
    : Type 0 where
  pub repo : get "repo" entry ≡ some (str (req.owner <> "/" <> req.repo))
  pub version : get "version" entry ≡ some (str req.version)
  pub wheel_url :
      get "wheel_url" entry
      ≡ some (
          str (
            "https://github.com/"
            <> req.owner
            <> "/"
            <> req.repo
            <> "/releases/download/"
            <> ("v" <> req.version)
            <> "/"
            <> asset))
  pub entrypoint : get "entrypoint" entry ≡ some (str ep)
  pub sha256 : get "sha256" entry ≡ some (str (e.lower req.sha256))
  pub dist_name : get "dist_name" entry ≡ some (str (extract_dist_name_from_wheel asset))
  pub enabled : get "enabled" entry ≡ some (bool true)
  pub source :
      get "source" entry
      ≡ some (
          dict (
            field "asset" (str asset) (
              field "owner" (str req.owner) (
                field "repo" (str req.repo) (
                  field "tag"
                    (str ("v" <> req.version))
                    (field "type" (str "github_release") end))))))

-- What the registry's file holds after an installation from the registry `reg`, in the world after it:
-- the entry has the first wheel of the release, whose contents had the requested hash, and the entry
-- point that the installed packages declare for the component, which can be imported.
pub record Stored (e : Env) (req : InstallRequest) (reg : Registry) (w : World) : Type 0 where
  pub asset : String
  pub released : fetch_release_asset e req.owner req.repo ("v" <> req.version) ≡ ok asset
  pub bytes : Bytes
  pub downloaded_wheel : verified_wheel e (url_of req asset) req.sha256 ≡ ok bytes
  pub entrypoint : String
  pub declared : lookup req.component_id (e.entry_points w.pip_log) ≡ some entrypoint
  pub importable :
      (module_name : String) × (class_name : String) × (split_once 58 entrypoint
        ≡ some (module_name, class_name))
      × (e.importable w.pip_log module_name class_name ≡ true)
  pub back : Registry
  pub reads : load_registry ReadFault.readable w.registry_file ≡ (ok back, w.registry_file)
  pub entry : Fields
  pub there : lookup req.component_id back ≡ some entry
  pub holds : Holds e req asset entrypoint entry
  pub others :
      (k : String) → k ≢ req.component_id → lookup k back ≡ Option.map sorted_fields (lookup k reg)

entry_of-Holds :
    (e : Env) (req : InstallRequest) (asset ep : String)
    → Holds e req asset ep (sorted_fields (entry_of e req asset ep))
unfolding get sorted_fields insert_field sorted_value
entry_of-Holds e req asset ep = record {
  repo = refl;
  version = refl;
  wheel_url = refl;
  entrypoint = refl;
  sha256 = refl;
  dist_name = refl;
  enabled = refl;
  source = refl;
}

-- What a stage leaves if it asks for a restart.
abbrev Leaves : Env → InstallRequest → Registry → InstallResult × World → Type 0
Leaves e req reg p = p.0.restart_required ≡ true → Stored e req reg p.1

module _ (e : Env) (req : InstallRequest) where
  module _ (reg : Registry) (asset : String) (bytes : Bytes)
      (released : fetch_release_asset e req.owner req.repo ("v" <> req.version) ≡ ok asset)
      (verified : verified_wheel e (url_of req asset) req.sha256 ≡ ok bytes) where
    write-Stored :
        (ep : String) (w : World) (file : File)
        → Chosen e req w ep
        → write_registry e.write_fault
            (insert req.component_id (entry_of e req asset ep) reg)
            w.registry_file
          ≡ (ok tt, file)
        → Stored e req reg (record w { registry_file = file })
    write-Stored ep w file c p =
        let u =
          write-Updated req.component_id (entry_of e req asset ep) reg e.write_fault w.registry_file
            file p in
        record {
          asset = asset;
          released = released;
          bytes = bytes;
          downloaded_wheel = verified;
          entrypoint = ep;
          declared = c.declared;
          importable = c.importable;
          back = u.back;
          reads = u.reads;
          entry = sorted_fields (entry_of e req asset ep);
          there = u.there;
          holds = entry_of-Holds e req asset ep;
          others = u.others;
        }

    register-Stored :
        (w w' : World) → register e req reg asset w ≡ (ok tt, w') → Stored e req reg w'
    unfolding register recorded
    register-Stored w w' p = go _ refl p
      where
        written :
            (ep : String) (o : Outcome (Unit {0}) × File)
            → Chosen e req w ep
            → write_registry e.write_fault
                (insert req.component_id (entry_of e req asset ep) reg)
                w.registry_file
              ≡ o
            → ◌≡◌ {A = Outcome (Unit {0}) × World}
                (o.0, record w { registry_file = o.1 })
                (ok tt, w')
            → Stored e req reg w'
        written ep (ok _, file) c q r =
            subst (Stored e req reg) (ap (λ x. x.1) r) (write-Stored ep w file c q)
        written ep (raise x, file) c q r = absurd (cc r)

        go :
            (o : Outcome String)
            → chosen e req w ≡ o
            → recorded e req reg asset w o ≡ (ok tt, w')
            → Stored e req reg w'
        go (ok ep) c q = written ep _ (chosen-Chosen e req w ep c) refl q
        go (raise x) c q = absurd (cc q)

    registered-Leaves :
        (w : World) (o : Outcome (Unit {0}) × World)
        → register e req reg asset w ≡ o
        → Leaves e req reg (registered e req asset o)
    unfolding registered
    registered-Leaves w (ok _, w') p q = register-Stored w w' p
    registered-Leaves w (raise x, w') p q = absurd (cc q)

    installed-Leaves :
        (o : Outcome (Unit {0}) × World) → Leaves e req reg (installed e req reg asset o)
    unfolding installed
    installed-Leaves (ok _, w) q = registered-Leaves w _ refl q
    installed-Leaves (raise x, w) q = absurd (cc q)

  downloaded-Leaves :
      (reg : Registry) (asset : String) (w : World) (o : Outcome Bytes)
      → fetch_release_asset e req.owner req.repo ("v" <> req.version) ≡ ok asset
      → verified_wheel e (url_of req asset) req.sha256 ≡ o
      → Leaves e req reg (downloaded e req reg asset w o)
  unfolding downloaded
  downloaded-Leaves reg asset w (ok bytes) r v q = installed-Leaves reg asset bytes r v _ q
  downloaded-Leaves reg asset w (raise x) r v q = absurd (cc q)

  fetched-Leaves :
      (reg : Registry) (w : World) (o : Outcome String)
      → fetch_release_asset e req.owner req.repo ("v" <> req.version) ≡ o
      → Leaves e req reg (fetched e req reg w o)
  unfolding fetched
  fetched-Leaves reg w (ok asset) r q = downloaded-Leaves reg asset w _ r refl q
  fetched-Leaves reg w (raise x) r q = absurd (cc q)

  loaded-Leaves :
      (w : World) (reg : Registry) (file : File) → Leaves e req reg (loaded e req w (ok reg, file))
  unfolding loaded
  loaded-Leaves w reg file =
      elim (Bool-cases (
        is_same_install (lookup req.component_id reg) (repo_of req) req.version
          (has_entrypoint e req))) [
            | inl same ↦ rw same (λ q. absurd (cc q))
            | inr other ↦ rw other (fetched-Leaves reg (record w { registry_file = file }) _ refl)
          ]

  -- An installation that asks for a restart, from a registry that could be read, has stored it with
  -- the component's new entry: a read of the file finds under the component's id the request's
  -- repository, version and hash, the wheel of the release, whose contents had that hash, and the
  -- entry point that is declared after pip ran and can be imported; and under each other id what was
  -- there, with keys in order.
  pub install_request-success :
      (w : World) (reg : Registry) (file : File)
      → load_registry e.read_fault w.registry_file ≡ (ok reg, file)
      → (install_request e req w).0.restart_required ≡ true
      → Stored e req reg (install_request e req w).1
  unfolding install_request
  install_request-success w reg file p =
      subst (λ o. Leaves e req reg (loaded e req w o)) (sym p) (loaded-Leaves w reg file)

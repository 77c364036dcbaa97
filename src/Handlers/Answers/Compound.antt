-- ===== src/Handlers/Answers/Compound.antt =====
-- The results of the handlers' longer actions in core/handlers: none is lost.
use lucid_agent_core.Prelude.{String, Bool, true, false, ◌&&◌, [], ◌∷◌, if◌then◌else◌}
use lucid_agent_core.Prelude.Json.{Value, str, Items, Fields}
use lucid_agent_core.Registry.{Registry}
use lucid_agent_core.Topics.{component_topic}
use lucid_agent_core.Snapshots.{build_components_list, build_cfg_telemetry, build_cfg}
use lucid_agent_core.Config.Store.{get_cached}
use lucid_agent_core.Upgrade.Component
use lucid_agent_core.Handlers.{
  Retained, retained_topic, retained, Setup, return, ◌>>=◌, read_registry,
}
use lucid_agent_core.Handlers.Simple.{
  capabilities_of, publish_component_metadata, publish_retained_state, publish_retained_refresh,
  publish_cfgs_of, publish_status, publish_cfgs, refresh_here, publish_all_metadata, refresh_all,
}
use lucid_agent_core.Handlers.Upgrades.{
  with_version, publish_current_state, restart_once_flushed, restart_after_flush, new_metadata,
}
use lucid_agent_core.Handlers.Answers.{Keeps, bind-Keeps, attempt-Keeps, on_world-Keeps}
use lucid_agent_core.Handlers.Answers.Each.{
  return-Keeps, lift-Keeps, ask-Keeps, if-Keeps, publish-Keeps, request_restart-Keeps, flush-Keeps,
}

module _ (s : Setup) (t : String) where
  pub publish_retained_state-Keeps : (xs : Items) → Keeps t (publish_retained_state s xs)
  unfolding publish_retained_state
  publish_retained_state-Keeps xs = publish-Keeps s t _

  pub read_registry-Keeps : Keeps t (read_registry s)
  read_registry-Keeps = on_world-Keeps t _

  pub current_state-Keeps : Keeps t (publish_current_state s)
  current_state-Keeps = bind-Keeps t read_registry-Keeps (λ reg. publish_retained_state-Keeps _)

  pub restart_once_flushed-Keeps : (b : Bool) → Keeps t (restart_once_flushed s b)
  unfolding restart_once_flushed
  restart_once_flushed-Keeps false = return-Keeps s t tt
  restart_once_flushed-Keeps true =
      attempt-Keeps t
        (bind-Keeps t (flush-Keeps s t)
          (λ _. bind-Keeps t (request_restart-Keeps s t) (λ _. return-Keeps s t tt)))
        (λ _. return-Keeps s t tt)

  pub restart_after_flush-Keeps : (b : Bool) → Keeps t (restart_after_flush s b)
  unfolding restart_after_flush
  restart_after_flush-Keeps false = return-Keeps s t tt
  restart_after_flush-Keeps true =
      bind-Keeps t (attempt-Keeps t (flush-Keeps s t) (λ _. return-Keeps s t tt))
        (λ _. bind-Keeps t (request_restart-Keeps s t) (λ _. return-Keeps s t tt))

  publish_component_metadata-Keeps :
      (cid : String) (v : Value) → Keeps t (publish_component_metadata s cid v)
  unfolding publish_component_metadata
  publish_component_metadata-Keeps cid v =
      bind-Keeps t (lift-Keeps s t (capabilities_of s cid)) (λ cap.
        attempt-Keeps t
          (bind-Keeps t (lift-Keeps s t (component_topic s.topics cid "metadata"))
            (λ topic. publish-Keeps s t _))
          (λ _. return-Keeps s t tt))

  -- What follows the result of an upgrade.
  pub after_upgrade-Keeps :
      (r : Component.UpgradeResult)
      → Keeps t (do
        reg ← read_registry s
        _ ← publish_retained_state s (
            build_components_list
              (if r.accepted then with_version r.component_id r.version reg else reg))
        _ ← new_metadata s r
        restart_after_flush s (r.accepted && r.restart_required))
  unfolding new_metadata
  after_upgrade-Keeps r = bind-Keeps t read_registry-Keeps (λ reg.
      bind-Keeps t (publish_retained_state-Keeps _) (λ _.
        bind-Keeps t (new_metadata-Keeps r.accepted r.component_id)
          (λ _. restart_after_flush-Keeps _)))
    where
      new_metadata-Keeps :
          (b : Bool) (v : Value)
          → Keeps t (elim b [
            | false ↦ return tt
            | true ↦ elim v [ str cid ↦ publish_component_metadata s cid r.version | _ ↦ return tt ]
          ])
      new_metadata-Keeps true (str cid) = publish_component_metadata-Keeps cid r.version
      new_metadata-Keeps true _ = return-Keeps s t tt
      new_metadata-Keeps false v = return-Keeps s t tt

  publish_cfgs_of-Keeps : (raw_cfg : Fields) → Keeps t (publish_cfgs_of s raw_cfg)
  unfolding publish_cfgs_of
  publish_cfgs_of-Keeps raw_cfg =
      bind-Keeps t (lift-Keeps s t (build_cfg s.convert raw_cfg)) (λ cfg.
        bind-Keeps t (publish-Keeps s t _) (λ _. bind-Keeps t (publish-Keeps s t _) (λ _.
          bind-Keeps t (lift-Keeps s t (build_cfg_telemetry s.convert raw_cfg))
            (λ metrics. publish-Keeps s t _))))

  publish_cfgs-Keeps : Keeps t (publish_cfgs s)
  unfolding publish_cfgs
  publish_cfgs-Keeps = bind-Keeps t (ask-Keeps s t (λ a. get_cached a.store)) publish_cfgs_of-Keeps

  publish_status-Keeps : Keeps t (publish_status s)
  unfolding publish_status
  publish_status-Keeps =
      bind-Keeps t (ask-Keeps s t (λ a. s.status a.events))
        (λ v. publish-Keeps s t (retained (retained_topic s.topics Retained.status) v))

  publish_all_metadata-Keeps : (reg : Registry) → Keeps t (publish_all_metadata s reg)
  unfolding publish_all_metadata
  publish_all_metadata-Keeps [] = return-Keeps s t tt
  publish_all_metadata-Keeps ((cid, meta) ∷ reg) =
      bind-Keeps t (publish_component_metadata-Keeps cid _) (λ _. publish_all_metadata-Keeps reg)

  publish_retained_refresh-Keeps : (xs : Items) → Keeps t (publish_retained_refresh s xs)
  unfolding publish_retained_refresh
  publish_retained_refresh-Keeps xs = bind-Keeps t (publish-Keeps s t _) (λ _.
      bind-Keeps t publish_status-Keeps (λ _.
        bind-Keeps t (publish-Keeps s t _)
          (λ _. bind-Keeps t publish_cfgs-Keeps (λ _. publish-Keeps s t _))))

  refresh_here-Keeps : (xs : Items) → Keeps t (refresh_here s xs)
  unfolding refresh_here
  refresh_here-Keeps xs =
      bind-Keeps t (publish-Keeps s t _)
        (λ _. bind-Keeps t (publish-Keeps s t _) (λ _. publish_cfgs-Keeps))

  pub refresh_all-Keeps : Keeps t (refresh_all s)
  unfolding refresh_all
  refresh_all-Keeps = bind-Keeps t read_registry-Keeps (λ reg.
      bind-Keeps t
        (if-Keeps s t s.refreshes (publish_retained_refresh-Keeps _) (refresh_here-Keeps _))
        (λ _. publish_all_metadata-Keeps reg))

-- ===== src/Snapshots/Schema.antt =====
-- core/snapshots.py, `build_agent_schema`: the topics of the agent, as it publishes them.
use lucid_agent_core.Prelude.{String, List, [], ◌∷◌}
use lucid_agent_core.Prelude.Int.{pos}
use lucid_agent_core.Prelude.Json.{
  Value, int, str, list, Items, nil, cons, dict, Fields, end, field,
}

-- A dict, and a list of texts.
abbrev entries : List (String × Value) → Fields
entries [] = end
entries ((k, v) ∷ kvs) = field k v (entries kvs)

abbrev object : List (String × Value) → Value
object kvs = dict (entries kvs)

abbrev texts : List String → Items
texts [] = nil
texts (s ∷ ss) = cons (str s) (texts ss)

-- The dicts that the schema is written with: a type, with a description, a choice of texts, fields.
abbrev of_type : String → Value
of_type t = object (("type", str t) ∷ [])

abbrev described : String → String → Value
described t text = object (("type", str t) ∷ ("description", str text) ∷ [])

abbrev one_of : List String → Value
one_of names = object (("type", str "string") ∷ ("enum", list (texts names)) ∷ [])

abbrev fields : List (String × Value) → Value
fields kvs = object (("fields", object kvs) ∷ [])

abbrev object_of : List (String × Value) → Value
object_of kvs = object (("type", str "object") ∷ ("fields", object kvs) ∷ [])

-- The dicts that occur more than once.
abbrev pub heartbeat_s : Value
heartbeat_s = object (("type", str "integer") ∷ ("min", int (pos 5)) ∷ ("max", int (pos 3600)) ∷ [])

abbrev pub log_level : Value
log_level = one_of ("DEBUG" ∷ "INFO" ∷ "WARNING" ∷ "ERROR" ∷ "CRITICAL" ∷ [])

abbrev pub telemetry_metric_cfg : Value
telemetry_metric_cfg = object_of (
    ("enabled", of_type "boolean")
    ∷ ("interval_s", object (("type", str "integer") ∷ ("min", int (pos 1)) ∷ []))
    ∷ ("change_threshold_percent", object (("type", str "float") ∷ ("min", int (pos 0)) ∷ []))
    ∷ [])

abbrev percentage : Value
percentage = fields (
    (
      "value",
      object (
          ("type", str "float")
          ∷ ("min", int (pos 0))
          ∷ ("max", int (pos 100))
          ∷ ("unit", str "%")
          ∷ []),
    )
    ∷ [])

abbrev source : Value
source = object_of (
    ("type", one_of ("github_release" ∷ []))
    ∷ ("owner", of_type "string")
    ∷ ("repo", of_type "string")
    ∷ ("version", of_type "string")
    ∷ ("sha256", of_type "string")
    ∷ [])

-- The topics under "publishes" and under "subscribes".
abbrev pub publishes : Fields
publishes = entries (
    (
      "metadata",
      fields (
          ("version", of_type "string")
          ∷ ("platform", of_type "string")
          ∷ ("architecture", of_type "string")
          ∷ ("ip_address", of_type "string")
          ∷ []),
    )
    ∷ (
      "status",
      fields (
          ("state", one_of ("online" ∷ "offline" ∷ "error" ∷ "starting" ∷ []))
          ∷ ("connected_since_ts", described "string" "ISO8601 UTC")
          ∷ ("uptime_s", of_type "float")
          ∷ []),
    )
    ∷ (
      "state",
      fields (
          (
            "components",
            object (
                ("type", str "array")
                ∷ (
                  "items",
                  object_of (
                      ("component_id", of_type "string")
                      ∷ ("version", of_type "string")
                      ∷ ("enabled", of_type "boolean")
                      ∷ (
                        "load_failed",
                        described "boolean" "True if the component failed to load on agent startup",
                      )
                      ∷ []),
                )
                ∷ []),
          )
          ∷ []),
    )
    ∷ ("cfg", fields (("heartbeat_s", heartbeat_s) ∷ []))
    ∷ ("cfg/logging", fields (("log_level", log_level) ∷ []))
    ∷ (
      "cfg/telemetry",
      fields (
          ("cpu_percent", telemetry_metric_cfg)
          ∷ ("memory_percent", telemetry_metric_cfg)
          ∷ ("disk_percent", telemetry_metric_cfg)
          ∷ []),
    )
    ∷ ("logs", fields (("level", log_level) ∷ ("message", of_type "string") ∷ []))
    ∷ ("telemetry/cpu_percent", percentage)
    ∷ ("telemetry/memory_percent", percentage)
    ∷ ("telemetry/disk_percent", percentage)
    ∷ ("schema", dict end)
    ∷ [])

abbrev pub subscribes : Fields
subscribes = entries (
    ("cmd/ping", fields ([]))
    ∷ ("cmd/restart", fields ([]))
    ∷ ("cmd/refresh", fields ([]))
    ∷ ("cmd/cfg/set", fields (("set", object_of (("heartbeat_s", heartbeat_s) ∷ [])) ∷ []))
    ∷ ("cmd/cfg/logging/set", fields (("set", object_of (("log_level", log_level) ∷ [])) ∷ []))
    ∷ (
      "cmd/cfg/telemetry/set",
      fields (
          (
            "set",
            described "object"
                "Per-metric config: {metric_name: {enabled, interval_s, change_threshold_percent}}",
          )
          ∷ []),
    )
    ∷ (
      "cmd/components/install",
      fields (("component_id", of_type "string") ∷ ("source", source) ∷ []),
    )
    ∷ ("cmd/components/uninstall", fields (("component_id", of_type "string") ∷ []))
    ∷ ("cmd/components/enable", fields (("component_id", of_type "string") ∷ []))
    ∷ ("cmd/components/disable", fields (("component_id", of_type "string") ∷ []))
    ∷ (
      "cmd/components/upgrade",
      fields (("component_id", of_type "string") ∷ ("source", source) ∷ []),
    )
    ∷ (
      "cmd/core/upgrade",
      fields (
          (
            "source",
            object_of (
                ("type", one_of ("github_release" ∷ []))
                ∷ ("version", of_type "string")
                ∷ ("sha256", of_type "string")
                ∷ []),
          )
          ∷ []),
    )
    ∷ [])

abbrev pub build_agent_schema : Value
build_agent_schema = object (("publishes", dict publishes) ∷ ("subscribes", dict subscribes) ∷ [])

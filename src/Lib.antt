-- ===== src/Lib.antt =====
-- lucid-agent-core: the agent of a fleet that takes MQTT commands, keeps a runtime configuration
-- and runs components. This library models its parts that decide what happens to a command, a
-- configuration or a log line. Paths below are from the repository's root.
--
-- - Dedup: src/lucid_agent_core/core/handlers/_dedup.py. `SeenRequestIds` is the deque and the set
--   of `_SeenRequestIds`; `check_and_add` is the method, `check_duplicate` the guard. A Python
--   exception (`popleft` of an empty deque) is `none`.
-- - Config: src/lucid_agent_core/core/config. `Config.Validation` is `validate` of _validation.py;
--   `Config.Store` the cache and the file with `load`, `save` and `atomic_write` (store.py,
--   _file_io.py); `Config.Apply` the methods that apply a `cfg/set` payload. JSON values are
--   Prelude.Json: a dict is a list of fields in insertion order, a finite float is the value
--   m / 2^k it has, and NaN and the infinities are values of their own.
-- - LogHandler: src/lucid_agent_core/core/mqtt_log_handler.py. The buffer, the timer, the batches on
--   record and the drop counter; the clock and the fate of a publish are arguments.
-- - Dispatch: `_on_message` of src/lucid_agent_core/mqtt/client.py from the first `acquire` on, the
--   executor's queue and workers, `_pending` and the semaphore. A schedule is a list of actions of
--   the network thread and the workers, so a theorem about all schedules covers each interleaving.
-- - Registry: src/lucid_agent_core/components/registry.py, the file of installed components.
-- - Upgrade: src/lucid_agent_core/core/upgrade. `Upgrade` holds what _pip.py, _download.py and
--   _github_release.py offer; `Upgrade.Request` the parsing of payloads (_validation.py and the
--   `_parse_and_validate` functions); `Upgrade.Install`, `Upgrade.Uninstall`, `Upgrade.Component` and
--   `Upgrade.Core` the handlers of component_installer.py, component_uninstaller.py,
--   component_upgrader.py and core_upgrader.py as chains of stages. `Env` holds the network, pip, the
--   hash and the import system as functions; `World` the registry's file and pip's log. `Reader`
--   stands for the zip file and the regular expression by which a wheel names its dependencies.
-- - Handlers: src/lucid_agent_core/core/cmd_context.py, core/handlers and mqtt/retained.py. A handler
--   is an action on `Agent`, which returns or raises, in do blocks like the source's statements;
--   `Agent.events` records what is published and asked for, in order. `Setup` holds the publisher, the
--   component manager and the parts above. `Handlers.Handle.handle` is the table of `_build_handlers`.
-- - Snapshots: src/lucid_agent_core/core/snapshots.py, the payloads; `Snapshots.Schema` is the value of
--   `build_agent_schema`. `Convert` stands for Python's conversions of texts and ints to numbers.
-- - Telemetry: src/lucid_agent_core/mqtt/telemetry.py and, in `Telemetry.Heartbeat`, heartbeat.py. A
--   cycle of a loop is a function of what it meets: the connection, psutil, the clock, the publisher.
-- - Topics: src/lucid_agent_core/mqtt_topics.py, and the result topic of `_publish_cmd_failure` of
--   mqtt/client.py.
-- - Components: src/lucid_agent_core/mqtt/component_subscriptions.py and the `stop_component` of
--   mqtt/client.py, on the handlers and the tracked topics; `Components.Start` is `start_component` and
--   `add_component_handlers`; `Components.Loader` is components/loader.py.
-- - Restart: src/lucid_agent_core/core/restart.py, on the sentinel's time.
-- - Startup: `load_config` of src/lucid_agent_core/config.py on the variables of the process; `int()`
--   is written out for ASCII texts, python-dotenv and the tests on files are arguments (`Startup.Host`).
-- - Prelude: lists, dicts, JSON, text, integers, and `Outcome`, which is a result or an exception.
--
-- The parts meet as in the program: Dispatch runs a handler of Handlers in a worker; a handler first
-- asks Dedup, then calls Config, Upgrade or the component manager, whose methods are those of
-- Components; Upgrade reads and writes Registry, and a finished one asks Restart; what is published
-- comes from Snapshots. All logging goes through LogHandler. Components adds and removes the handlers
-- that Dispatch runs, under the names of Topics.
--
-- All loops are structural recursions on lists, so there is no fuel: a thread's loop is one on the list
-- of its iterations. Times are natural numbers of
-- milliseconds. A lock that a method holds makes its call one step.
--
-- Not modelled: restart requests that overlap in two workers, paho-mqtt, the thread pool's own code, the file system beyond the faults named in
-- `Config.Store` and `Registry`, messages and timestamps of answers, rounding of floats, the
-- connection's callbacks in mqtt/client.py, paths, main.py and the system installer.
pub mod Prelude
pub mod Dedup
pub mod Config
pub mod LogHandler
pub mod Dispatch
pub mod Registry
pub mod Upgrade
pub mod Topics
pub mod Components
pub mod Restart
pub mod Startup
pub mod Snapshots
pub mod Telemetry
pub mod Handlers

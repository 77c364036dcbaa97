-- ===== src/Config/Store.antt =====
-- core/config/store.py and core/config/_file_io.py: the store's cache, its file, and each method as
-- a function from the state to the result and the new state. Where the operating system may fail,
-- the point of failure is an argument.
pub mod Sorted
pub mod Reload
use lucid_agent_core.Prelude.{
  ℕ, String, Bool, true, false, not, ◌&&◌, ◌||◌, Option, none, some, List, [], ◌∷◌, contains, ◌==◌,
  if◌then◌else◌,
}
use lucid_agent_core.Prelude.Errors.{
  Exn, config_store_error, os_error, type_error, unicode_decode_error, Outcome, ok, raise,
}
use lucid_agent_core.Prelude.Int.{pos}
use lucid_agent_core.Prelude.Json.{
  Value, null, bool, int, float, str, list, nil, dict, Fields, end, field, get, has, put, merge,
}
use lucid_agent_core.Config.Validation.{Reason, validate, cfg_general_keys, cfg_logging_keys}
use lucid_agent_core.Config.Store.Sorted.{sorted_fields, sorted_texts}

-- What the configuration file holds.
pub data File : Type 0 where
  missing not_utf8 not_json : File
  json : Value → File

pub record ConfigStore : Type 0 where
  pub cache : Option Fields
  pub file : File

-- `ConfigStore(path)`
abbrev pub new : File → ConfigStore
new file = record { cache = none; file = file }

-- Where a write can fail: at `mkdir` with or without `PermissionError`, before the rename of
-- `atomic_write`, or at the flush of the directory after it.
pub data WriteFault : Type 0 where
  no_fault mkdir_denied mkdir_fails before_rename after_rename : WriteFault

-- Where `load` can fail besides the contents of the file.
pub data ReadFault : Type 0 where
  no_fault mkdir_denied mkdir_fails open_fails : ReadFault

-- `self._cache = {}; return {}`
use_defaults : ConfigStore → Outcome Fields × ConfigStore
use_defaults s = (ok end, record s { cache = some end })

load_value : ConfigStore → Value → Outcome Fields × ConfigStore
unfolding use_defaults
load_value s (dict data_) = elim (validate (dict data_)) [
  | none ↦ (ok data_, record s { cache = some data_ })
  | some error ↦ use_defaults s
]
load_value s _ = use_defaults s

load_file : ConfigStore → ReadFault → File → Outcome Fields × ConfigStore
unfolding use_defaults load_value
load_file s fault missing = use_defaults s
load_file s ReadFault.open_fails _ = (raise config_store_error, s)
load_file s fault not_utf8 = (raise unicode_decode_error, s)
load_file s fault not_json = use_defaults s
load_file s fault (json v) = load_value s v

-- `load`
unfoldable pub load : ConfigStore → ReadFault → Outcome Fields × ConfigStore
unfolding load_file
load s ReadFault.mkdir_denied = (raise config_store_error, s)
load s ReadFault.mkdir_fails = (raise os_error, s)
load s fault = load_file s fault s.file

-- `atomic_write`: the file is replaced as a whole or not at all.
unfoldable pub atomic_write : WriteFault → Fields → File → Outcome (Unit {0}) × File
atomic_write WriteFault.before_rename cfg file = (raise os_error, file)
atomic_write WriteFault.after_rename cfg file = (raise os_error, json (dict (sorted_fields cfg)))
atomic_write fault cfg file = (ok tt, json (dict (sorted_fields cfg)))

-- The `try` of `save`: the cache follows the file only when the write returns.
finish_save : Fields → ConfigStore → Outcome (Unit {0}) × File → Outcome (Unit {0}) × ConfigStore
finish_save cfg s (ok _, file) = (ok tt, record { cache = some cfg; file = file })
finish_save cfg s (raise _, file) = (raise config_store_error, record s { file = file })

write_config : ConfigStore → WriteFault → Fields → Outcome (Unit {0}) × ConfigStore
unfolding finish_save atomic_write
write_config s WriteFault.mkdir_denied cfg = (raise config_store_error, s)
write_config s WriteFault.mkdir_fails cfg = (raise os_error, s)
write_config s fault cfg = finish_save cfg s (atomic_write fault cfg s.file)

-- `save`
unfoldable pub save : ConfigStore → WriteFault → Fields → Outcome (Unit {0}) × ConfigStore
unfolding write_config
save s fault cfg = elim (validate (dict cfg)) [
  | some error ↦ (raise config_store_error, s)
  | none ↦ write_config s fault cfg
]

-- `get_cached`
unfoldable pub get_cached : ConfigStore → Fields
get_cached s = elim s.cache [ none ↦ end | some cfg ↦ cfg ]

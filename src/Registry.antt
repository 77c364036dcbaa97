-- ===== src/Registry.antt =====
-- components/registry.py: the persistent registry of installed components.
pub mod Reload
mod Tests
use lucid_agent_core.Prelude.{
  ℕ, String, Bool, true, false, ◌&&◌, Option, none, some, List, [], ◌∷◌, ◌==◌, if◌then◌else◌,
}
use lucid_agent_core.Prelude.Dict.{Dict}
use lucid_agent_core.Prelude.Errors.{
  Exn, os_error, registry_error, unicode_decode_error, Outcome, ok, raise,
}
use lucid_agent_core.Prelude.Json.{Value, str, dict, Fields, end, field, get}
use lucid_agent_core.Config.Store.{File, missing, not_utf8, not_json, json}
use lucid_agent_core.Config.Store.Sorted.{sorted_fields}

-- The registry in memory: an entry for each component id.
abbrev pub Registry : Type 0
Registry = Dict Fields

-- What a read meets besides the contents of the file; `locked` is a corrupt file that cannot be moved.
pub data ReadFault : Type 0 where
  readable locked unreadable : ReadFault

-- Where a write fails: before the rename, or at the flush of the directory after it.
pub data WriteFault : Type 0 where
  writable before_rename after_rename : WriteFault

-- The loop of `_validate_registry_shape`: an entry that is no dict is dropped.
unfoldable pub entries : Fields → Registry
entries end = []
entries (field k (dict entry) d) = (k, entry) ∷ entries d
entries (field k _ d) = entries d

-- `_validate_registry_shape`
unfoldable pub validate_registry_shape : Value → Registry
unfolding entries
validate_registry_shape (dict d) = entries d
validate_registry_shape _ = []

-- A registry as a JSON object.
unfoldable pub to_fields : Registry → Fields
to_fields [] = end
to_fields ((k, entry) ∷ reg) = field k (dict entry) (to_fields reg)

load_file : ReadFault → File → Outcome Registry × File
unfolding validate_registry_shape
load_file fault missing = (ok [], missing)
load_file ReadFault.unreadable file = (raise registry_error, file)
load_file fault not_utf8 = (raise unicode_decode_error, not_utf8)
load_file ReadFault.locked not_json = (ok [], not_json)
load_file fault not_json = (ok [], missing)
load_file fault (json v) = (ok (validate_registry_shape v), json v)

-- `load_registry`: a corrupt file is moved away.
unfoldable pub load_registry : ReadFault → File → Outcome Registry × File
unfolding load_file
load_registry fault file = load_file fault file

-- `write_registry`; the shape check changes no registry.
unfoldable pub write_registry : WriteFault → Registry → File → Outcome (Unit {0}) × File
write_registry WriteFault.before_rename reg file = (raise os_error, file)
write_registry WriteFault.after_rename reg file =
    (raise os_error, json (dict (sorted_fields (to_fields reg))))
write_registry WriteFault.writable reg file = (ok tt, json (dict (sorted_fields (to_fields reg))))

-- `entry.get(key) == text`
abbrev pub is_text : Option Value → String → Bool
is_text (some (str s)) t = s == t
is_text _ t = false

-- `is_same_install`; the comparison with the caller's entrypoint is an argument.
unfoldable pub is_same_install : Option Fields → String → String → (Option Value → Bool) → Bool
is_same_install none repo version is_entrypoint = false
is_same_install (some entry) repo version is_entrypoint =
    is_text (get "repo" entry) repo
    && is_text (get "version" entry) version
    && is_entrypoint (get "entrypoint" entry)

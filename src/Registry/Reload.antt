-- ===== src/Registry/Reload.antt =====
-- What components/registry.py reads back after it has written.
use mathlib.Core.Option
use lucid_agent_core.Prelude.{
  eq_iff, ap, eq_refl, ◌≢◌, String, ◌≡◌, refl, Option, none, some, [], ◌∷◌, arith,
}
use lucid_agent_core.Prelude.Dict.{lookup-insert, insert, lookup}
use lucid_agent_core.Prelude.Errors.{ok}
use lucid_agent_core.Prelude.Json.{Value, dict, Fields, end, field, get}
use lucid_agent_core.Config.Store.{File}
use lucid_agent_core.Config.Store.Sorted.{
  sorted_fields, sorted_value, insert_field, get-sorted_fields,
}
use lucid_agent_core.Registry.{
  Registry, ReadFault, WriteFault, entries, to_fields, load_registry, write_registry,
  validate_registry_shape,
}

-- The registry that holds what a JSON object holds, with its entries that are no dict.
as_entry : Option Value → Option Fields
as_entry (some (dict d)) = some d
as_entry _ = none

AllDicts : Fields → Type 0
AllDicts end = Unit
AllDicts (field k v d) = ((e : Fields) × (v ≡ dict e)) × AllDicts d

insert_field-AllDicts :
    (k : String) (e d : Fields) → AllDicts d → AllDicts (insert_field k (dict e) d)
unfolding insert_field AllDicts
insert_field-AllDicts k e end h = ((e, refl), tt)
insert_field-AllDicts k e (field j w d) h = ground (arith, insert_field-AllDicts k e d h.1)

sorted-AllDicts : (reg : Registry) → AllDicts (sorted_fields (to_fields reg))
unfolding sorted_fields to_fields AllDicts
sorted-AllDicts [] = tt
sorted-AllDicts ((k, e) ∷ reg) = insert_field-AllDicts k (sorted_fields e) _ (sorted-AllDicts reg)

lookup-entries : (k : String) (d : Fields) → AllDicts d → lookup k (entries d) ≡ as_entry (get k d)
unfolding lookup entries AllDicts as_entry get
lookup-entries k end h = refl
lookup-entries k (field j v d) ((e, is_dict), h) = rw is_dict (ground (arith, lookup-entries k d h))

get-to_fields :
    (k : String) (reg : Registry) → get k (to_fields reg) ≡ Option.map dict (lookup k reg)
unfolding get to_fields lookup
get-to_fields k [] = refl
get-to_fields k ((j, e) ∷ reg) = ground (arith, get-to_fields k reg)

as_entry-sorted :
    (o : Option Fields)
    → as_entry (Option.map sorted_value (Option.map dict o)) ≡ Option.map sorted_fields o
unfolding as_entry sorted_value
as_entry-sorted none = refl
as_entry-sorted (some e) = refl

-- If a write of a registry returns, then a read of the file it leaves succeeds, keeps the file, and
-- finds for every component id the entry that was written, with its keys in order.
pub load-write :
    (reg : Registry) (fault : WriteFault) (file file' : File)
    → write_registry fault reg file ≡ (ok tt, file')
    → (back : Registry) × (load_registry ReadFault.readable file' ≡ (ok back, file'))
      × ((k : String) → lookup k back ≡ Option.map sorted_fields (lookup k reg))
unfolding write_registry load_registry validate_registry_shape
load-write reg WriteFault.writable file file' h =
    let same : File.json (dict (sorted_fields (to_fields reg))) ≡ file' = cc h in
    (
      entries (sorted_fields (to_fields reg)),
      rw (← same) refl,
      λ k.
          rw
            (
              lookup-entries k _ (sorted-AllDicts reg),
              get-sorted_fields k (to_fields reg),
              get-to_fields k reg,
            )
            (as_entry-sorted (lookup k reg)),
    )
load-write reg WriteFault.before_rename file file' h = absurd (cc h)
load-write reg WriteFault.after_rename file file' h = absurd (cc h)

-- The file holds the registry `reg` with this at an id; nothing else has changed.
pub record Updated (id : String) (entry : Option Fields) (reg : Registry) (file : File)
    : Type 0 where
  pub back : Registry
  pub reads : load_registry ReadFault.readable file ≡ (ok back, file)
  pub there : lookup id back ≡ Option.map sorted_fields entry
  pub others : (k : String) → k ≢ id → lookup k back ≡ Option.map sorted_fields (lookup k reg)

pub write-Updated :
    (id : String) (entry : Fields) (reg : Registry) (fault : WriteFault) (file file' : File)
    → write_registry fault (insert id entry reg) file ≡ (ok tt, file')
    → Updated id (some entry) reg file'
write-Updated id entry reg fault file file' p =
    let (back, reads, found) = load-write _ fault file file' p in
    record {
      back = back;
      reads = reads;
      there = rw (found id) (rw lookup-insert (rw eq_refl refl));
      others = λ k n. rw (found k) (
          ap (Option.map sorted_fields)
            (ground (arith, n, eq_iff id k, lookup-insert id k entry reg)));
    }

-- A second read finds what the first one found and left.
pub load_registry_twice :
    (fault : ReadFault) (file : File)
    → load_registry fault (load_registry fault file).1 ≡ load_registry fault file
unfolding load_registry
load_registry_twice ReadFault.readable File.missing = refl
load_registry_twice ReadFault.readable File.not_utf8 = refl
load_registry_twice ReadFault.readable File.not_json = refl
load_registry_twice ReadFault.readable (File.json v) = refl
load_registry_twice ReadFault.locked File.missing = refl
load_registry_twice ReadFault.locked File.not_utf8 = refl
load_registry_twice ReadFault.locked File.not_json = refl
load_registry_twice ReadFault.locked (File.json v) = refl
load_registry_twice ReadFault.unreadable File.missing = refl
load_registry_twice ReadFault.unreadable File.not_utf8 = refl
load_registry_twice ReadFault.unreadable File.not_json = refl
load_registry_twice ReadFault.unreadable (File.json v) = refl

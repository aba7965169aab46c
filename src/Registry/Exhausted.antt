-- ===== src/Registry/Exhausted.antt =====
-- MRRegisterMethod of src/module_registry.c when the allocator has no block for a new node.
use nxdk_dyndxt.Base.{
  ℕ, zero, suc, ◌<◌, ◌≡◌, refl, inl, inr, false, none, some, List, [], ◌∷◌, Bytes, arith, ◌==◌,
  Bool-cases, length, ≢→==,
}
use nxdk_dyndxt.Pool.{Ptr, null, ModuleExport, Heap, Allocator, ok, fault}
use nxdk_dyndxt.Pool.Nodes.{alloc_node, write_node}
use nxdk_dyndxt.Registry.{k_tag}
use nxdk_dyndxt.Registry.Update.{
  set_export_entry, find_slot, link_export, append_export, register_method,
}
use nxdk_dyndxt.Registry.Chains.{
  Export, Module, IsChain, IsRegistry, HaveRoom, read_table-look, read_node-look,
}
use nxdk_dyndxt.Registry.Lookup.{
  find_module, first, has_ordinal, Found, find_table-Found, HasRoom, find_module-HasRoom,
}

set_export_entry_refused :
    (a : Allocator) (h : Heap) (e : ModuleExport)
    → a.pick h 20 k_tag ≡ null
    → set_export_entry a e h ≡ fault
unfolding set_export_entry alloc_node write_node
set_export_entry_refused a h e refuses = rw refuses refl

-- No node has the ordinal: the walk ends at the last one.
find_slot_absent :
    (f : ℕ) (h : Heap) (last n : Ptr) (xs : List Export) (ordinal : ℕ)
    → IsChain h n xs
    → length xs < f
    → first (has_ordinal ordinal) xs ≡ none
    → (p : Ptr) × (find_slot f last n ordinal h ≡ ok (false, p) h)
unfolding find_slot
find_slot_absent zero h last n xs ordinal r l absent = absurd (omega arith)
find_slot_absent (suc f) h last n [] ordinal r l absent = (last, rw r refl)
find_slot_absent (suc f) h last n (x ∷ xs) ordinal (ne, node, e, is, rest) l absent =
    elim (Bool-cases (x.ordinal == ordinal)) [
      | inl y ↦ absurd (ground arith)
      | inr y ↦
          let (p, run) =
            find_slot_absent f h n node.next xs ordinal rest (omega arith) (rw y at absent) in
          (p, rw (≢→== n null ne, read_node-look h n node ne e, is.ordinal, y) run)
    ]

append_export_refused :
    (a : Allocator) (f : ℕ) (h : Heap) (q : Ptr) (m : Module) (e : ModuleExport)
    → Found h (some m) q
    → length m.exports < f
    → first (has_ordinal e.ordinal) m.exports ≡ none
    → a.pick h 20 k_tag ≡ null
    → append_export a f q e h ≡ fault
unfolding append_export link_export
append_export_refused a f h q m e (ne, t, there, (named, chain)) room absent refuses =
    let (p, run) = find_slot_absent f h t.exports t.exports m.exports e.ordinal chain room absent in
    elim (Bool-cases (t.exports == null)) [
      | inl y ↦ rw (read_table-look h q t ne there, y, set_export_entry_refused a h e refuses) refl
      | inr y ↦
          rw (read_table-look h q t ne there, y, run, set_export_entry_refused a h e refuses) refl
    ]

-- On lists that hold `ms` and that the fuel lasts for, MRRegisterMethod for a module that is there
-- and an ordinal that it does not have writes through a null pointer, a fault, if the allocator
-- answers NULL to the request for the new node.
pub register_method_refused :
    (a : Allocator) (f : ℕ) (h : Heap) (export_table : Ptr) (ms : List Module) (module_name : Bytes)
    (m : Module) (e : ModuleExport)
    → IsRegistry h export_table ms
    → length ms < f
    → HaveRoom f ms
    → find_module module_name ms ≡ some m
    → first (has_ordinal e.ordinal) m.exports ≡ none
    → a.pick h 20 k_tag ≡ null
    → register_method a f export_table module_name e h ≡ fault
unfolding register_method
register_method_refused a f h p ms s m e r l room there absent refuses =
    let (q, run, found) = find_table-Found f h p ms s r l in
    let found' : Found h (some m) q = rw there at found in
    let fits : HasRoom f (some m) = rw there at (find_module-HasRoom f s ms room) in
    rw (run, ≢→== q null found'.0, append_export_refused a f h q m e found' fits absent refuses)
      refl

-- ===== src/Command/Frame.antt =====
-- The heap operations of src/command_processor_util.c and the lists of the module registry; Frame.Parse
-- goes on with what is made of them.
pub mod Parse
use nxdk_dyndxt.Base.{
  ℕ, zero, suc, ◌+◌, ◌-◌, ◌*◌, ◌%◌, ◌^◌, ◌≡◌, refl, inl, inr, Bool, true, false, ◌||◌, not, none,
  some, List, [], ◌∷◌, ◌++◌, Bytes, ◌==◌, ltb, leb, Bool-cases, Option-cases, if◌then◌else◌, ℤ, pos,
  length, Option, get_elem?, arith,
}
use nxdk_dyndxt.Pool.{
  Ptr, null, ExportNode, ModuleExportTable, Region, Heap, Allocator, Run, ok, fault, out_of_fuel, M,
  and_then, look, alloc_string, alloc_array, free_string, free_array, write_string, read_slot,
  write_slot, copy_slots,
}
use nxdk_dyndxt.Command.{
  CommandParameters, k_tag, zeroed, default_reserve_size, pcp_err_invalid_key,
  pcp_err_out_of_memory,
}
use nxdk_dyndxt.Command.Scan.Cases.{found, bad_key, no_quote, beyond, scan_cases}
use nxdk_dyndxt.Command.Scan.{Item, deref, scan, first_non_space}
use nxdk_dyndxt.Command.Storage.{
  free_entry, delete_loop, free_slots, delete, move_slots, clear_slots, reserve_values, reserve,
  unescape, fill_unescaped, fill_value, append_value, append_entry, append,
}
use nxdk_dyndxt.Command.Parse.{is_zero, give_up, parse_loop, parse_into}

abbrev pub Lists : Type 0
Lists = Region ExportNode × Region ModuleExportTable

abbrev pub lists : Heap → Lists
lists h = (h.nodes, h.tables)

pub data Kept (b : Lists) {A : Type 0} : Run A → Type 0 where
  kept : (a : A) (h : Heap) → lists h ≡ b → Kept b (ok a h)
  faulted : Kept b fault
  cut_off : Kept b out_of_fuel

pub Kept-bind :
    {b : Lists} {A B : Type 0} {r : Run A} {f : A → M B}
    → Kept b r
    → ((a : A) (h : Heap) → lists h ≡ b → Kept b (f a h))
    → Kept b (and_then r f)
Kept-bind (kept a h e) k = k a h e
Kept-bind faulted k = faulted
Kept-bind cut_off k = cut_off

module _ {b : Lists} (h : Heap) (e : lists h ≡ b) where
  pub alloc_string-Kept : (a : Allocator) (n t : ℕ) → Kept b (alloc_string a n t h)
  unfolding alloc_string
  alloc_string-Kept a n t = elim (Bool-cases (a.pick h n t == null)) [
    | inl y ↦ rw y (kept _ _ e)
    | inr y ↦ rw y (kept _ _ e)
  ]

  pub alloc_array-Kept : (a : Allocator) (n t : ℕ) → Kept b (alloc_array a n t h)
  unfolding alloc_array
  alloc_array-Kept a n t = elim (Bool-cases (a.pick h n t == null)) [
    | inl y ↦ rw y (kept _ _ e)
    | inr y ↦ rw y (kept _ _ e)
  ]

  pub free_string-Kept : (p : Ptr) → Kept b (free_string p h)
  unfolding free_string
  free_string-Kept p = elim (Option-cases (look h.strings p)) [
    | inl y ↦ rw (y, free_string) faulted
    | inr (t, y) ↦ rw (y, free_string) (kept _ _ e)
  ]

  pub free_array-Kept : (p : Ptr) → Kept b (free_array p h)
  unfolding free_array
  free_array-Kept p = elim (Option-cases (look h.arrays p)) [
    | inl y ↦ rw (y, free_array) faulted
    | inr (t, y) ↦ rw (y, free_array) (kept _ _ e)
  ]

  pub write_string-Kept : (p : Ptr) (s : Bytes) → Kept b (write_string p s h)
  unfolding write_string
  write_string-Kept p s = elim (Option-cases (look h.strings p)) [
    | inl y ↦ rw (y, write_string) faulted
    | inr (t, y) ↦ elim (Bool-cases (ltb t.size (length s))) [
      | inl z ↦ rw (y, write_string, z) faulted
      | inr z ↦ rw (y, write_string, z) (kept _ _ e)
    ]
  ]

  pub write_slot-Kept : (p : Ptr) (i : ℕ) (q : Ptr) → Kept b (write_slot p i q h)
  unfolding write_slot
  write_slot-Kept p i q = elim (Option-cases (look h.arrays p)) [
    | inl y ↦ rw (y, write_slot) faulted
    | inr (xs, y) ↦ elim (Bool-cases (ltb i (length xs))) [
      | inl z ↦ rw (y, write_slot, z) (kept _ _ e)
      | inr z ↦ rw (y, write_slot, z) faulted
    ]
  ]

  pub read_slot-Kept : (p : Ptr) (i : ℕ) → Kept b (read_slot p i h)
  unfolding read_slot
  read_slot-Kept p i = elim (Option-cases (look h.arrays p)) [
    | inl y ↦ rw (y, read_slot) faulted
    | inr (xs, y) ↦ elim (Option-cases (get_elem? xs i)) [
      | inl z ↦ rw (y, read_slot, z) faulted
      | inr (none, z) ↦ rw (y, read_slot, z) faulted
      | inr (some q, z) ↦ rw (y, read_slot, z) (kept _ _ e)
    ]
  ]

  pub copy_slots-Kept : (dst src : Ptr) (n : ℕ) → Kept b (copy_slots dst src n h)
  unfolding copy_slots
  copy_slots-Kept dst src n = elim (Option-cases (look h.arrays src)) [
    | inl y ↦ rw (y, copy_slots) faulted
    | inr (xs, y) ↦ elim (Option-cases (look h.arrays dst)) [
      | inl z ↦ rw (y, copy_slots, z) faulted
      | inr (ys, z) ↦ elim (Bool-cases (ltb (length xs) n || ltb (length ys) n)) [
        | inl u ↦ rw (y, copy_slots, z, u) faulted
        | inr u ↦ rw (y, copy_slots, z, u) (kept _ _ e)
      ]
    ]
  ]

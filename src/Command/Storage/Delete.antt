-- ===== src/Command/Storage/Delete.antt =====
-- CPDelete frees what the parameters own, each block once.
use mathlib.Core.List.{append_assoc}
use nxdk_dyndxt.Base.{
  ℕ, ◌+◌, ◌≡◌, ◌≢◌, refl, ap, ◌∙◌, Option, none, some, List, [], ◌∷◌, ◌++◌, arith, map, length,
  get_elem?, get_elem?-append_at, length-append,
}
use nxdk_dyndxt.Pool.{look, Ptr, null, Text, Slots, Heap, Region, update, ok, free_array}
use nxdk_dyndxt.Pool.Owned.{Owned, Owned-free}
use nxdk_dyndxt.Command.{CommandParameters, zeroed}
use nxdk_dyndxt.Command.Storage.{free_entry, delete_loop, free_slots, delete}
use nxdk_dyndxt.Command.Storage.Holds.{
  Entry, key_slot, value_slot, value_at, value_blocks, blocks, Holds, Restored,
}

module _ (h : Heap) {array : Ptr} {xs : Slots} (there : look h.arrays array ≡ some xs)
    (ne : array ≢ null) where
  free_entry-some :
      {q : Ptr} {t : Text} (i : ℕ)
      → get_elem? xs i ≡ some (some q)
      → q ≢ null
      → look h.strings q ≡ some t
      → free_entry array i h ≡ ok tt (record h { strings = update h.strings q none })
  unfolding free_entry
  free_entry-some i e n s = ground arith

  free_entry-null : (i : ℕ) → get_elem? xs i ≡ some (some null) → free_entry array i h ≡ ok tt h
  unfolding free_entry
  free_entry-null i e = ground arith

  free_slots-some : free_slots array h ≡ ok tt (record h { arrays = update h.arrays array none })
  unfolding free_slots free_array
  free_slots-some = ground arith

-- One value, present or not.
free_value :
    (v : Option (Ptr × Text)) {bs : List (Ptr × Text)} {h : Heap} {f : Region Text} {array : Ptr}
    {xs : Slots} (i : ℕ)
    → look h.arrays array ≡ some xs
    → array ≢ null
    → get_elem? xs i ≡ some (some (value_at v))
    → Owned (value_blocks v ++ bs) f h.strings
    → (s : Region Text) × (free_entry array i h ≡ ok tt (record h { strings = s })) × Owned bs f s
free_value none {h} i there ne e o = (h.strings, free_entry-null h there ne i e, o)
free_value (some (p, t)) {h} i there ne e o =
    (update h.strings p none, free_entry-some h there ne i e o.held.1 o.held.0, Owned-free o)

delete_loop-Owned :
    (es : List Entry) (pk pv kt vt : Slots) (i : ℕ) (cp : CommandParameters) (h : Heap)
    {f : Region Text}
    → length pk ≡ i
    → length pv ≡ i
    → cp.keys ≢ null
    → cp.values ≢ null
    → look h.arrays cp.keys ≡ some (pk ++ (map key_slot es ++ kt))
    → look h.arrays cp.values ≡ some (pv ++ (map value_slot es ++ vt))
    → Owned (blocks es) f h.strings
    → (s : Region Text) × (delete_loop (length es) i cp h ≡ ok tt (record h { strings = s }))
      × Owned [] f s
unfolding delete_loop
delete_loop-Owned [] pk pv kt vt i cp h lk lv nk nv ak av o = (h.strings, refl, o)
delete_loop-Owned (e ∷ es) pk pv kt vt i cp h lk lv nk nv ak av o =
    let h₁ : Heap = record h { strings = update h.strings e.key_at none } in
    let first =
      free_entry-some h ak nk i (rw (← lk) (get_elem?-append_at pk _ (key_slot e))) o.held.1
        o.held.0 in
    let (s₂, second, o₂) =
      free_value e.value {h = h₁} i av nv (rw (← lv) (get_elem?-append_at pv _ (value_slot e)))
        (Owned-free o) in
    let (s₃, rest, o₃) =
      delete_loop-Owned es (pk ++ key_slot e ∷ []) (pv ++ value_slot e ∷ []) kt vt (i + 1) cp
        (record h { strings = s₂ }) (omega (arith, length-append {0} pk (key_slot e ∷ [])))
        (omega (arith, length-append {0} pv (value_slot e ∷ []))) nk nv (rw append_assoc ak)
        (rw append_assoc av) o₂ in
    (s₃, rw (first, second) rest, o₃)

-- CPDelete never faults on parameters that are held, and leaves the pool as it was before them.
pub delete-Restored :
    {h₀ h : Heap} {cp : CommandParameters} {es : List Entry} (kt vt : Slots)
    → Holds h₀ h cp es kt vt
    → (h' : Heap) × (delete cp h ≡ ok zeroed h') × Restored h₀ h'
unfolding delete
delete-Restored {h₀} {h} {cp} {es} kt vt held =
    let (ak, nk, apart, (av, nv, _, _)) = held.arrays.held in
    let (s, loop, o) = delete_loop-Owned es [] [] kt vt 0 cp h refl refl nk nv ak av held.strings in
    let h₁ : Heap = record h { strings = s } in
    let h₂ : Heap = record h₁ { arrays = update h.arrays cp.keys none } in
    let first = free_slots-some h₁ ak nk in
    let second =
      free_slots-some h₂ {array = cp.values} {xs = map value_slot es ++ vt} (ground arith) nv in
    let o' = Owned-free (Owned-free held.arrays) in
    (
      record h₂ { arrays = update h₂.arrays cp.values none },
      rw (ap (λ n. delete_loop n 0 cp h) held.entries ∙ loop, first, second) refl,
      record { strings = λ p. o.same p refl; arrays = λ p. o'.same p refl },
    )

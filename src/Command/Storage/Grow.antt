-- ===== src/Command/Storage/Grow.antt =====
-- CommandParametersReserve where it moves the entries to larger arrays.
use mathlib.Core.Path.{subst}
use mathlib.Core.List.{append-nil}
use nxdk_dyndxt.Base.{
  ℕ, ◌+◌, ◌-◌, ◌*◌, ◌/◌, ◌%◌, ◌^◌, ◌<◌, ◌≡◌, ◌≢◌, refl, sym, none, List, [], ◌∷◌, ◌++◌, arith, map,
  length, replicate, length-map, ≢→==,
}
use nxdk_dyndxt.Pool.{look, Ptr, null, Slots, Heap, Allocator}
use nxdk_dyndxt.Pool.Alloc.{refused, granted, with_array, alloc_array-Outcome}
use nxdk_dyndxt.Pool.Owned.{Owned, Owned-cons, Owned-insert, Owned-extract}
use nxdk_dyndxt.Command.{CommandParameters, k_tag}
use nxdk_dyndxt.Command.Storage.{reserve_values, reserve}
use nxdk_dyndxt.Command.Storage.Holds.{Entry, key_slot, value_slot, blocks, Holds}
use nxdk_dyndxt.Command.Storage.Delete.{delete-Restored}
use nxdk_dyndxt.Command.Storage.Reserve.{
  Reserved, reserved, not_reserved, clear_slots-Owned, move_slots-Owned,
}

abbrev array_size : ℕ → ℕ
array_size n = (4 * n) % 2 ^ 32

slots_of_size : (n : ℕ) → n < 2 ^ 30 → array_size n / 4 ≡ n
slots_of_size n small = omega arith

-- A new array of `n` slots beside those that are owned.
with_array-Owned :
    (h : Heap) (n : ℕ) (p : Ptr) {bs : List (Ptr × Slots)} {f : _}
    → n < 2 ^ 30
    → Owned bs f h.arrays
    → look h.arrays p ≡ none
    → p ≢ null
    → Owned ((p, replicate n none) ∷ bs) f (with_array h (array_size n) p).arrays
with_array-Owned h n p {bs} {f} small o unused ne =
    subst (λ m. Owned ((p, replicate m none) ∷ bs) f (with_array h (array_size n) p).arrays)
      (slots_of_size n small) (Owned-cons p (replicate (array_size n / 4) none) o unused ne)

module _ (a : Allocator) (h₀ : Heap) (es : List Entry) (room : ℕ)
    (small : length es + room < 2 ^ 30) where
  abbrev keys_array : Slots
  keys_array = map key_slot es ++ []

  abbrev values_array : Slots
  values_array = map value_slot es ++ []

  length-keys_array : length keys_array ≡ length es
  length-keys_array = rw append-nil (length-map key_slot es)

  length-values_array : length values_array ≡ length es
  length-values_array = rw append-nil (length-map value_slot es)

  abbrev max_entries : ℕ
  max_entries = length es + room

  rest : max_entries - length es ≡ room
  rest = omega arith

  reserve_values_grow :
      (h : Heap) (k v : Ptr)
      → Owned (blocks es) h₀.strings h.strings
      → Owned ((k, keys_array ++ replicate room none) ∷ (v, values_array) ∷ []) h₀.arrays h.arrays
      → Reserved a h₀ es room
          (reserve_values a max_entries (record { entries = length es; keys = k; values = v }) h)
  unfolding reserve_values
  reserve_values_grow h k v s o = elim (alloc_array-Outcome a h (array_size max_entries) k_tag) [
    | refused run why ↦ rw run (
        not_reserved
          (delete-Restored (replicate room none) []
            (record { strings = s; arrays = rw append-nil at o; entries = refl }))
          why)
    | granted q run ne unused ↦
        let h₁ : Heap = with_array h (array_size max_entries) q in
        let o₁ = with_array-Owned h max_entries q small o unused.1 ne in
        let o₂ =
          Owned-insert ((q, replicate max_entries none) ∷ [])
            ((k, keys_array ++ replicate room none) ∷ []) v values_array
            (Owned-extract
              ((q, replicate max_entries none) ∷ (k, keys_array ++ replicate room none) ∷ []) [] v
              values_array o₁) in
        let (g, moved, o₃) =
          move_slots-Owned h₁ q v (length es) room values_array length-values_array o₂ in
        let cp : CommandParameters = record { entries = length es; keys = k; values = q } in
        let (g', cleared, o₄) =
          clear_slots-Owned room (length es) cp (record h₁ { arrays = g }) keys_array values_array
            length-keys_array length-values_array
            (Owned-insert ((k, keys_array ++ replicate room none) ∷ []) [] q _ o₃) in
        rw (run, ≢→== q null ne, moved, rest, cleared)
          (reserved
            (record { strings = s; arrays = rw (append-nil, append-nil) at o₄; entries = refl }))
  ]

  -- The reservation that doubles full arrays.
  reserve_grow :
      (h : Heap) (k v : Ptr)
      → Owned (blocks es) h₀.strings h.strings
      → Owned ((k, keys_array) ∷ (v, values_array) ∷ []) h₀.arrays h.arrays
      → Reserved a h₀ es room
          (reserve a max_entries (record { entries = length es; keys = k; values = v }) h)
  unfolding reserve
  reserve_grow h k v s o = elim (alloc_array-Outcome a h (array_size max_entries) k_tag) [
    | refused run why ↦ rw run (
        not_reserved (delete-Restored [] [] (record { strings = s; arrays = o; entries = refl }))
          why)
    | granted p run ne unused ↦
        let h₁ : Heap = with_array h (array_size max_entries) p in
        let o₁ = with_array-Owned h max_entries p small o unused.1 ne in
        let (g, moved, o₂) =
          move_slots-Owned h₁ p k (length es) room keys_array length-keys_array o₁ in
        rw (run, ≢→== p null ne, moved) (reserve_values_grow (record h₁ { arrays = g }) p v s o₂)
  ]

  pub reserve-Reserved :
      {h : Heap} {cp : CommandParameters}
      → Holds h₀ h cp es [] []
      → Reserved a h₀ es room (reserve a max_entries cp h)
  reserve-Reserved {h} {cp} held =
      subst (λ n. Reserved a h₀ es room (reserve a max_entries (record cp { entries = n }) h))
        (sym held.entries) (reserve_grow h cp.keys cp.values held.strings held.arrays)

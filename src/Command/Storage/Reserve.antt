-- ===== src/Command/Storage/Reserve.antt =====
-- CommandParametersReserve, the first time and when it grows the arrays.
use mathlib.Core.List.{append_assoc}
use nxdk_dyndxt.Base.{
  ℕ, zero, suc, ◌+◌, ◌≡◌, refl, Bool, true, false, none, some, List, [], ◌∷◌, ◌++◌, arith, length,
  replicate, length-append, ≢→==,
}
use nxdk_dyndxt.Pool.{
  tick, look, Ptr, null, Slots, Region, Heap, Allocator, Run, ok, update, free_array,
}
use nxdk_dyndxt.Pool.Alloc.{
  Refusal, with_array, refused, granted, alloc_array-Outcome, write_slot-Owned,
  write_slot-Owned_second, copy_slots-Owned,
}
use nxdk_dyndxt.Pool.Owned.{Owned, Owned-nil, Owned-cons, Owned-free, Owned-insert, Owned-extract}
use nxdk_dyndxt.Command.{CommandParameters, zeroed, k_tag, default_reserve_size}
use nxdk_dyndxt.Command.Storage.{
  move_slots, clear_slots, reserve_values, reserve, delete, delete_loop, free_slots,
}
use nxdk_dyndxt.Command.Storage.Holds.{Entry, Holds, Restored}

abbrev pub nulls : ℕ → Slots
nulls n = replicate n (some null)

-- CPDelete of `cp` brings the pool back to `h₀`.
abbrev pub Discardable : (h₀ h : Heap) → CommandParameters → Type 0
Discardable h₀ h cp = (h' : Heap) × (delete cp h ≡ ok zeroed h') × Restored h₀ h'

-- The outcomes of a reservation: `room` free slots, or an allocation that failed.
pub data Reserved (a : Allocator) (h₀ : Heap) (es : List Entry) (room : ℕ)
    : Run (Bool × CommandParameters) → Type 0 where
  reserved :
      {h : Heap} {cp : CommandParameters}
      → Holds h₀ h cp es (nulls room) (nulls room)
      → Reserved a h₀ es room (ok (true, cp) h)
  not_reserved :
      {h : Heap} {cp : CommandParameters}
      → Discardable h₀ h cp
      → Refusal a k_tag
      → Reserved a h₀ es room (ok (false, cp) h)

pub clear_slots-Owned :
    (n i : ℕ) (cp : CommandParameters) (h : Heap) (xs ys : Slots) {f : Region Slots}
    → length xs ≡ i
    → length ys ≡ i
    → Owned
        ((cp.keys, xs ++ replicate n none) ∷ (cp.values, ys ++ replicate n none) ∷ [])
        f
        h.arrays
    → (g : Region Slots) × (clear_slots n i cp h ≡ ok tt (record h { arrays = g }))
      × Owned ((cp.keys, xs ++ nulls n) ∷ (cp.values, ys ++ nulls n) ∷ []) f g
unfolding clear_slots
clear_slots-Owned zero i cp h xs ys lx ly o = (h.arrays, refl, o)
clear_slots-Owned (suc n) i cp h xs ys {f} lx ly o =
    let (g₁, first, o₁) = write_slot-Owned h cp.keys i null xs (replicate n none) none lx o in
    let h₁ : Heap = record h { arrays = g₁ } in
    let (g₂, second, o₂) =
      write_slot-Owned_second h₁ cp.values i null ys (replicate n none) none ly o₁ in
    let (g₃, rest, o₃) =
      clear_slots-Owned n (i + 1) cp (record h { arrays = g₂ }) (xs ++ some null ∷ [])
        (ys ++ some null ∷ []) {f = f} (omega (arith, length-append {0} xs (some null ∷ [])))
        (omega (arith, length-append {0} ys (some null ∷ [])))
        (rw (append_assoc, append_assoc) o₂) in
    (g₃, rw (first, second) rest, rw (append_assoc, append_assoc) at o₃)

pub move_slots-Owned :
    (h : Heap) (dst src : Ptr) (n room : ℕ) (xs : Slots) {bs : List (Ptr × Slots)}
    {f : Region Slots}
    → length xs ≡ n
    → Owned ((dst, replicate (n + room) none) ∷ (src, xs) ∷ bs) f h.arrays
    → (g : Region Slots) × (move_slots dst src n h ≡ ok tt (record h { arrays = g }))
      × Owned ((dst, xs ++ replicate room none) ∷ bs) f g
unfolding move_slots free_array
move_slots-Owned h dst src n room xs {bs} l o =
    let (g, copied, o') = copy_slots-Owned h dst src n room xs l o in
    let o'' = Owned-extract ((dst, xs ++ replicate room none) ∷ []) bs src xs o' in
    (update g src none, ground (arith, copied, o''.held.0, o''.held.1), Owned-free o'')

module _ (a : Allocator) (h₀ : Heap) where
  reserve_values_first :
      (h : Heap) (p : Ptr)
      → Owned ((p, replicate 4 none) ∷ []) h₀.arrays h.arrays
      → ((q : Ptr) → look h.strings q ≡ look h₀.strings q)
      → Reserved a h₀ [] 4 (reserve_values a 4 (record { entries = 0; keys = p; values = null }) h)
  unfolding reserve_values move_slots delete delete_loop free_slots free_array
  reserve_values_first h p o same = elim (alloc_array-Outcome a h 16 k_tag) [
    | refused run why ↦ rw run (
        not_reserved
          (
            record (tick h) { arrays = update h.arrays p none },
            ground (arith, o.held.0, o.held.1),
            record { strings = same; arrays = λ q. (Owned-free o).same q refl },
          )
          why)
    | granted q run ne unused ↦
        let cp : CommandParameters = record { entries = 0; keys = p; values = q } in
        let both = Owned-cons q (replicate 4 none) o unused.1 ne in
        let (g, cleared, o') =
          clear_slots-Owned 4 0 cp (with_array h 16 q) [] [] refl refl
            (Owned-insert ((p, replicate 4 none) ∷ []) [] q _ both) in
        rw (run, ≢→== q null ne, cleared)
          (reserved (record { strings = Owned-nil same; arrays = o'; entries = refl }))
  ]

  -- The reservation that starts a parse.
  pub reserve_first :
      Reserved a h₀ [] default_reserve_size (reserve a default_reserve_size zeroed h₀)
  unfolding reserve move_slots delete delete_loop free_slots
  reserve_first = elim (alloc_array-Outcome a h₀ 16 k_tag) [
    | refused run why ↦
        rw run
          (not_reserved (tick h₀, refl, record { strings = λ p. refl; arrays = λ p. refl }) why)
    | granted p run ne unused ↦
        rw (run, ≢→== p null ne)
          (reserve_values_first (with_array h₀ 16 p) p
            (Owned-cons p (replicate 4 none) (Owned-nil λ q. refl) unused.1 ne) λ q. refl)
  ]

-- ===== src/Pool/Alloc.antt =====
-- Both outcomes of an allocation, and writes and copies within blocks that are owned.
use nxdk_dyndxt.Base.{
  ℕ, ◌+◌, ◌/◌, ◌≡◌, ◌≢◌, refl, inl, inr, Option, none, some, List, [], ◌∷◌, ◌++◌, Bytes, arith,
  ◌==◌, Bool-cases, length, replicate, length-append, length-replicate, set-append_at, take-length,
  drop-replicate, ==→≡, ◌≤◌,
}
use nxdk_dyndxt.Pool.{
  Ptr, null, Text, Slots, Region, Heap, Allocator, IsUnused, Run, ok, tick, update, alloc_string,
  alloc_array, write_string, write_slot, copy_slots,
}
use nxdk_dyndxt.Pool.Owned.{Owned, Owned-write, Owned-insert, Owned-extract}

-- The allocator fails some request for a block with this tag.
abbrev pub Refusal : Allocator → ℕ → Type 0
Refusal a tag = (h : Heap) × (size : ℕ) × (a.pick h size tag ≡ null)

-- The allocator has a block for every request with this tag.
abbrev pub NeverRefuses : Allocator → ℕ → Type 0
NeverRefuses a tag = (h : Heap) (size : ℕ) → a.pick h size tag ≢ null

-- The heap with a new string block, or array, at `p`.
abbrev pub with_string : Heap → ℕ → Ptr → Heap
with_string h size p = record (tick h) {
  strings = update h.strings p (some (record { size = size; bytes = [] }));
}

abbrev pub with_array : Heap → ℕ → Ptr → Heap
with_array h size p = record (tick h) {
  arrays = update h.arrays p (some (replicate (size / 4) none));
}

-- The two outcomes of an allocation that fills the heap by `fill`.
pub data Outcome (a : Allocator) (h : Heap) (tag : ℕ) (run : Run Ptr) (fill : Ptr → Heap)
    : Type 0 where
  refused : run ≡ ok null (tick h) → Refusal a tag → Outcome a h tag run fill
  granted : (p : Ptr) → run ≡ ok p (fill p) → p ≢ null → IsUnused h p → Outcome a h tag run fill

module _ (a : Allocator) (h : Heap) (size tag : ℕ) where
  pub alloc_string-Outcome : Outcome a h tag (alloc_string a size tag h) (with_string h size)
  unfolding alloc_string
  alloc_string-Outcome = elim (Bool-cases (a.pick h size tag == null)) [
    | inl e ↦ refused (rw e refl) (h, size, ==→≡ _ _ e)
    | inr e ↦
        let ne : a.pick h size tag ≢ null = ground arith in
        granted (a.pick h size tag) (rw e refl) ne (a.pick_unused h size tag ne)
  ]

  pub alloc_array-Outcome : Outcome a h tag (alloc_array a size tag h) (with_array h size)
  unfolding alloc_array
  alloc_array-Outcome = elim (Bool-cases (a.pick h size tag == null)) [
    | inl e ↦ refused (rw e refl) (h, size, ==→≡ _ _ e)
    | inr e ↦
        let ne : a.pick h size tag ≢ null = ground arith in
        granted (a.pick h size tag) (rw e refl) ne (a.pick_unused h size tag ne)
  ]

-- A write of one slot in the first of the owned arrays.
pub write_slot-Owned :
    {bs : List (Ptr × Slots)} {f : Region Slots} (h : Heap) (p : Ptr) (i : ℕ) (q : Ptr)
    (xs ys : Slots) (x : Option Ptr)
    → length xs ≡ i
    → Owned ((p, xs ++ x ∷ ys) ∷ bs) f h.arrays
    → (g : Region Slots) × (write_slot p i q h ≡ ok tt (record h { arrays = g }))
      × Owned ((p, xs ++ some q ∷ ys) ∷ bs) f g
unfolding write_slot
write_slot-Owned h p i q xs ys x l o = (
  update h.arrays p (some (xs ++ some q ∷ ys)),
  ground (arith, o.held.0, length-append {0} xs (x ∷ ys), set-append_at {0} xs ys x (some q)),
  Owned-write (xs ++ some q ∷ ys) o,
)

-- The same in the second.
pub write_slot-Owned_second :
    {b : Ptr × Slots} {bs : List (Ptr × Slots)} {f : Region Slots} (h : Heap) (p : Ptr) (i : ℕ)
    (q : Ptr) (xs ys : Slots) (x : Option Ptr)
    → length xs ≡ i
    → Owned (b ∷ (p, xs ++ x ∷ ys) ∷ bs) f h.arrays
    → (g : Region Slots) × (write_slot p i q h ≡ ok tt (record h { arrays = g }))
      × Owned (b ∷ (p, xs ++ some q ∷ ys) ∷ bs) f g
write_slot-Owned_second {b} {bs} h p i q xs ys x l o =
    let (g, run, o') = write_slot-Owned h p i q xs ys x l (Owned-extract (b ∷ []) bs p _ o) in
    (g, run, Owned-insert (b ∷ []) bs p _ o')

-- A copy of a whole array to the start of a new one.
pub copy_slots-Owned :
    {bs : List (Ptr × Slots)} {f : Region Slots} (h : Heap) (dst src : Ptr) (n room : ℕ)
    (xs : Slots)
    → length xs ≡ n
    → Owned ((dst, replicate (n + room) none) ∷ (src, xs) ∷ bs) f h.arrays
    → (g : Region Slots) × (copy_slots dst src n h ≡ ok tt (record h { arrays = g }))
      × Owned ((dst, xs ++ replicate room none) ∷ (src, xs) ∷ bs) f g
unfolding copy_slots
copy_slots-Owned h dst src n room xs l o = (
  update h.arrays dst (some (xs ++ replicate room none)),
  ground (
    arith,
    o.held.0,
    o.held.3.0,
    take-length {0} xs n l,
    drop-replicate {0} {A = Option Ptr} n room none,
    length-replicate {0} {A = Option Ptr} (n + room) none,
  ),
  Owned-write (xs ++ replicate room none) o,
)

-- A string written into the first of the owned blocks, which has room for it.
pub write_string-Owned :
    {bs : List (Ptr × Text)} {f : Region Text} (h : Heap) (p : Ptr) (s : Bytes) (t : Text)
    → length s ≤ t.size
    → Owned ((p, t) ∷ bs) f h.strings
    → (g : Region Text) × (write_string p s h ≡ ok tt (record h { strings = g }))
      × Owned ((p, record { size = t.size; bytes = s }) ∷ bs) f g
unfolding write_string
write_string-Owned h p s t fits o = (
  update h.strings p (some (record { size = t.size; bytes = s })),
  ground (arith, o.held.0),
  Owned-write (record { size = t.size; bytes = s }) o,
)

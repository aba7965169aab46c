-- ===== src/Pool.antt =====
-- The debug heap behind xbdm.h's DmAllocatePoolWithTag and DmFreePool, as C sees it: blocks of
-- one type each, found by their address. The allocator itself is not part of the repository: it
-- is the parameter `Allocator`, of which only freshness is assumed.
pub mod Alloc
pub mod Nodes
mod Blocks
pub mod Owned
pub mod Context
pub mod Strings
pub mod Regions
pub mod Sample
pub use Blocks.*
use nxdk_dyndxt.Base.{
  ℕ, ◌+◌, ◌/◌, ◌≡◌, ◌≢◌, Bool, true, false, ◌&&◌, ◌||◌, Option, none, some, List, [], ◌∷◌, ◌++◌,
  Bytes, ◌==◌, ltb, if◌then◌else◌, length, get_elem?, set, take, drop, replicate,
}

-- The blocks of one type, newest write first; `none` records a free.
abbrev pub Region : Type 0 → Type 0
Region B = List (Ptr × Option B)

abbrev pub look : {B : Type 0} → Region B → Ptr → Option B
look [] q = none
look ((p, b) ∷ f) q = if p == q then b else look f q

pub record Heap : Type 0 where
  pub strings : Region Text
  pub arrays : Region Slots
  pub nodes : Region ExportNode
  pub tables : Region ModuleExportTable
  -- the allocations requested so far
  pub calls : ℕ

abbrev pub update : {B : Type 0} → Region B → Ptr → Option B → Region B
update f p b = (p, b) ∷ f

-- No block of any type stands at `p`.
abbrev pub IsUnused : Heap → Ptr → Type 0
IsUnused h p =
    (look h.strings p ≡ none)
    × (look h.arrays p ≡ none)
    × (look h.nodes p ≡ none)
    × (look h.tables p ≡ none)

-- What DmAllocatePoolWithTag answers to a size and a tag; `null` is a failure. It may depend on
-- all that happened before, and never hands out a block that is in use.
pub record Allocator : Type 0 where
  pub pick : Heap → ℕ → ℕ → Ptr
  pub pick_unused :
      (h : Heap) (size tag : ℕ) → pick h size tag ≢ null → IsUnused h (pick h size tag)

-- A run ends with a value and a heap, or in an access that C leaves undefined, or is cut off.
pub data Run (A : Type 0) : Type 0 where
  ok : A → Heap → Run A
  fault : Run A
  out_of_fuel : Run A

abbrev pub M : Type 0 → Type 0
M A = Heap → Run A

abbrev pub pure : {A : Type 0} → A → M A
pure a h = ok a h

abbrev pub and_then : {A B : Type 0} → Run A → (A → M B) → Run B
and_then (ok a h) f = f a h
and_then fault f = fault
and_then out_of_fuel f = out_of_fuel

infixl 5 ◌>>=◌ ◌>>◌
abbrev pub ◌>>=◌ : {A B : Type 0} → M A → (A → M B) → M B
◌>>=◌ m f h = and_then (m h) f

abbrev pub ◌>>◌ : {B : Type 0} → M (Unit {0}) → M B → M B
m >> k = m >>= λ _. k

abbrev pub crash : {A : Type 0} → M A
crash h = fault

-- The bytes up to the first NUL.
unfoldable pub c_string : Bytes → Bytes
c_string [] = []
c_string (c ∷ s) = if c == 0 then [] else c ∷ c_string s

-- `!strcmp(a, b)`, of what stands before the terminators
unfoldable pub same_string : Bytes → Bytes → Bool
same_string [] [] = true
same_string (x ∷ xs) (y ∷ ys) = x == y && same_string xs ys
same_string _ _ = false

-- A request counts also where it fails.
abbrev pub tick : Heap → Heap
tick h = record h { calls = h.calls + 1 }

-- `(char *)DmAllocatePoolWithTag(size, tag)`
unfoldable pub alloc_string : Allocator → ℕ → ℕ → M Ptr
alloc_string a size tag h =
    let p = a.pick h size tag in
    if p == null
    then ok null (tick h)
    else ok p (record (tick h) {
      strings = update h.strings p (some (record { size = size; bytes = [] }));
    })

-- `(char **)DmAllocatePoolWithTag(size, tag)`; a `char *` has 4 bytes
unfoldable pub alloc_array : Allocator → ℕ → ℕ → M Ptr
alloc_array a size tag h =
    let p = a.pick h size tag in
    if p == null
    then ok null (tick h)
    else ok p (record (tick h) { arrays = update h.arrays p (some (replicate (size / 4) none)) })

-- `DmFreePool(p)`: to free what is not allocated is a fault.
unfoldable pub free_string : Ptr → M (Unit {0})
free_string p h = elim (look h.strings p) [
  | none ↦ fault
  | some _ ↦ ok tt (record h { strings = update h.strings p none })
]

unfoldable pub free_array : Ptr → M (Unit {0})
free_array p h = elim (look h.arrays p) [
  | none ↦ fault
  | some _ ↦ ok tt (record h { arrays = update h.arrays p none })
]

-- Writes `s` from the start of the block at `p`, and not past its end.
unfoldable pub write_string : Ptr → Bytes → M (Unit {0})
write_string p s h = elim (look h.strings p) [
  | none ↦ fault
  | some t ↦
      if ltb t.size (length s)
      then fault
      else ok tt
          (record h { strings = update h.strings p (some (record { size = t.size; bytes = s })) })
]

-- The string at `p`, up to its terminator.
unfoldable pub read_string : Ptr → M Bytes
read_string p h = elim (look h.strings p) [ none ↦ fault | some t ↦ ok (c_string t.bytes) h ]

-- `p[i]`; a slot that was never written has no value.
unfoldable pub read_slot : Ptr → ℕ → M Ptr
read_slot p i h = elim (look h.arrays p) [
  | none ↦ fault
  | some xs ↦ elim (get_elem? xs i) [
    | none ↦ fault
    | some slot ↦ elim slot [ none ↦ fault | some q ↦ ok q h ]
  ]
]

-- `p[i] = q`
unfoldable pub write_slot : Ptr → ℕ → Ptr → M (Unit {0})
write_slot p i q h = elim (look h.arrays p) [
  | none ↦ fault
  | some xs ↦
      if ltb i (length xs)
      then ok tt (record h { arrays = update h.arrays p (some (set xs i (some q))) })
      else fault
]

-- `memcpy(dst, src, n * sizeof(char *))`
unfoldable pub copy_slots : (dst src : Ptr) → ℕ → M (Unit {0})
copy_slots dst src n h = elim (look h.arrays src) [
  | none ↦ fault
  | some xs ↦ elim (look h.arrays dst) [
    | none ↦ fault
    | some ys ↦
        if ltb (length xs) n || ltb (length ys) n
        then fault
        else ok tt (record h { arrays = update h.arrays dst (some (take n xs ++ drop n ys)) })
  ]
]

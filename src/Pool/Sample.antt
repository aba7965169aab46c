-- ===== src/Pool/Sample.antt =====
-- An allocator that meets what is assumed of one: it hands out the address above all others.
use nxdk_dyndxt.Base.{ℕ, ◌+◌, ◌<◌, ◌≡◌, ◌≢◌, refl, none, [], ◌∷◌, arith}
use Prim.Native.Nat.{max}
use nxdk_dyndxt.Pool.{Ptr, null, Region, look, Heap, IsUnused, Allocator}
use nxdk_dyndxt.Pool.Alloc.{NeverRefuses}

abbrev pub top : {B : Type 0} → Region B → ℕ
top [] = 0
top ((p, b) ∷ f) = max p (top f)

look_above : {B : Type 0} (f : Region B) (p : Ptr) → top f < p → look f p ≡ none
look_above [] p l = refl
look_above ((q, b) ∷ f) p l = ground (arith, look_above f p)

abbrev pub next_address : Heap → ℕ → ℕ → Ptr
next_address h size tag = 1 + (top h.strings + top h.arrays + top h.nodes + top h.tables)

pub next_address-IsUnused :
    (h : Heap) (size tag : ℕ)
    → next_address h size tag ≢ null
    → IsUnused h (next_address h size tag)
next_address-IsUnused h size tag ne = (
  look_above h.strings _ (omega arith),
  look_above h.arrays _ (omega arith),
  look_above h.nodes _ (omega arith),
  look_above h.tables _ (omega arith),
)

abbrev pub ascending : Allocator
ascending = record { pick = next_address; pick_unused = next_address-IsUnused }

pub ascending-NeverRefuses : (tag : ℕ) → NeverRefuses ascending tag
ascending-NeverRefuses tag h size e = omega arith

-- An allocator with no memory at all.
abbrev pub exhausted : Allocator
exhausted = record { pick = λ h size tag. null; pick_unused = λ h size tag ne. absurd (ne refl) }

abbrev pub fresh : Heap
fresh = record { strings = []; arrays = []; nodes = []; tables = []; calls = 0 }

-- ===== src/Command/Storage/Holds.antt =====
-- What a filled `CommandParameters` owns in the pool: two arrays, and a string for each key and
-- each value that is present.
use nxdk_dyndxt.Base.{◌≡◌, Option, none, some, List, [], ◌∷◌, ◌++◌, Bytes, map, length}
use nxdk_dyndxt.Pool.{look, Ptr, null, Text, Slots, Heap}
use nxdk_dyndxt.Pool.Owned.{Owned}
use nxdk_dyndxt.Command.{CommandParameters}

-- An appended entry: the blocks of its key and of its value.
pub record Entry : Type 0 where
  pub key_at : Ptr
  pub key_text : Text
  pub value : Option (Ptr × Text)

abbrev pub key_slot : Entry → Option Ptr
key_slot e = some e.key_at

abbrev pub value_at : Option (Ptr × Text) → Ptr
value_at none = null
value_at (some (p, _)) = p

abbrev pub value_slot : Entry → Option Ptr
value_slot e = some (value_at e.value)

abbrev pub value_blocks : Option (Ptr × Text) → List (Ptr × Text)
value_blocks none = []
value_blocks (some (p, t)) = (p, t) ∷ []

abbrev pub blocks : List Entry → List (Ptr × Text)
blocks [] = []
blocks (e ∷ es) = (e.key_at, e.key_text) ∷ (value_blocks e.value ++ blocks es)

-- `h` is `h₀` and what `cp` owns. The arrays may go on behind the entries, by `kt` and `vt`.
pub record Holds (h₀ h : Heap) (cp : CommandParameters) (es : List Entry) (kt vt : Slots)
    : Type 0 where
  pub strings : Owned (blocks es) h₀.strings h.strings
  pub arrays :
      Owned
        ((cp.keys, map key_slot es ++ kt) ∷ (cp.values, map value_slot es ++ vt) ∷ [])
        h₀.arrays
        h.arrays
  pub entries : cp.entries ≡ length es

-- Every block is as it was: nothing is leaked, and nothing else freed or overwritten.
pub record Restored (h₀ h : Heap) : Type 0 where
  pub strings : (p : Ptr) → look h.strings p ≡ look h₀.strings p
  pub arrays : (p : Ptr) → look h.arrays p ≡ look h₀.arrays p

-- A string block that holds `s` and its terminator.
abbrev pub IsText : Text → Bytes → Type 0
IsText t s = t.bytes ≡ s ++ 0 ∷ []

abbrev pub IsValue : Option (Ptr × Text) → Option Bytes → Type 0
IsValue none none = Unit
IsValue (some (p, t)) (some v) = IsText t v
IsValue _ _ = ⊥

-- A parsed key with its value.
abbrev pub Pair : Type 0
Pair = Bytes × Option Bytes

-- The entries stand for the keys and values, in order.
abbrev pub Stored : List Entry → List Pair → Type 0
Stored [] [] = Unit
Stored (e ∷ es) ((k, v) ∷ kvs) = IsText e.key_text k × IsValue e.value v × Stored es kvs
Stored _ _ = ⊥

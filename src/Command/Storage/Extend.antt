-- ===== src/Command/Storage/Extend.antt =====
-- CommandParametersAppend, with or without growth of the arrays.
use mathlib.Core.Path.{subst}
use nxdk_dyndxt.Base.{
  ℕ, zero, suc, ◌+◌, ◌*◌, ◌^◌, ◌<◌, ◌≡◌, sym, Bool, true, false, Option, List, [], ◌∷◌, ◌++◌, Bytes,
  arith, length, ◌==◌, leb, if◌then◌else◌, not, ◌-◌, ℤ, pos,
}
use nxdk_dyndxt.Pool.{Heap, Allocator, Run, ok, and_then, pure}
use nxdk_dyndxt.Pool.Alloc.{Refusal}
use nxdk_dyndxt.Command.{
  CommandParameters, k_tag, pcp_err_out_of_memory, pcp_err_unterminated_escape,
}
use nxdk_dyndxt.Command.Scan.{Item}
use nxdk_dyndxt.Command.Storage.{append_entry, reserve, append}
use nxdk_dyndxt.Command.Storage.Holds.{Entry, Holds, IsText, IsValue}
use nxdk_dyndxt.Command.Storage.Reserve.{nulls, Discardable, Reserved, reserved, not_reserved}
use nxdk_dyndxt.Command.Storage.Grow.{reserve-Reserved}
use nxdk_dyndxt.Command.Storage.Append
use nxdk_dyndxt.Command.Storage.Append.{
  value, unterminated_escape, decode, Appended, append_entry-Appended,
}

-- The outcomes of CommandParametersAppend behind the entries `es`.
pub data Extended (a : Allocator) (h₀ : Heap) (es : List Entry) (it : Item)
    : Run (ℤ × ℕ × CommandParameters) → Type 0 where
  extended :
      {h : Heap} {cp : CommandParameters} {v : Option Bytes} (e : Entry) (room max : ℕ)
      → max ≡ length es + 1 + room
      → Holds h₀ h cp (es ++ e ∷ []) (nulls room) (nulls room)
      → IsText e.key_text it.key
      → IsValue e.value v
      → decode it.value it.value_needs_unescaping ≡ value v
      → Extended a h₀ es it (ok (pos 0, max, cp) h)
  bad_escape :
      {h : Heap} {cp : CommandParameters} {max : ℕ}
      → Discardable h₀ h cp
      → decode it.value it.value_needs_unescaping ≡ unterminated_escape
      → Extended a h₀ es it (ok (pcp_err_unterminated_escape, max, cp) h)
  exhausted :
      {h : Heap} {cp : CommandParameters} {max : ℕ}
      → Discardable h₀ h cp
      → Refusal a k_tag
      → Extended a h₀ es it (ok (pcp_err_out_of_memory, max, cp) h)

module _ (a : Allocator) (h₀ : Heap) (es : List Entry) (it : Item) where
  -- With a free slot.
  append_entry-Extended :
      {h : Heap} {cp : CommandParameters} (room max : ℕ)
      → max ≡ length es + suc room
      → Holds h₀ h cp es (nulls (suc room)) (nulls (suc room))
      → Extended a h₀ es it
          (and_then (append_entry a it cp h) (λ (code, cp'). pure (code, max, cp')))
  append_entry-Extended {h} {cp} room max fits held = finish appended
    where
      appended : Appended a h₀ es room it (append_entry a it cp h)
      appended =
          subst (λ n. Appended a h₀ es room it (append_entry a it (record cp { entries = n }) h))
            (sym held.entries)
            (append_entry-Appended h₀ es room cp.keys cp.values a h it held.strings held.arrays)

      finish :
          {r : Run (ℤ × CommandParameters)}
          → Appended a h₀ es room it r
          → Extended a h₀ es it (and_then r (λ (code, cp'). pure (code, max, cp')))
      finish (Append.appended e held' text is d) = extended e room max (omega arith) held' text is d
      finish (Append.bad_escape d e) = bad_escape d e
      finish (Append.exhausted d why) = exhausted d why

  append_grown :
      (max : ℕ) {r : Run (Bool × CommandParameters)} (room : ℕ)
      → max ≡ length es + suc room
      → Reserved a h₀ es (suc room) r
      → Extended a h₀ es it (
          and_then r (λ (done, cp). if not done then pure (pcp_err_out_of_memory, max, cp) else λ h.
          and_then (append_entry a it cp h) (λ (code, cp'). pure (code, max, cp'))))
  append_grown max room fits (reserved held) = append_entry-Extended room max fits held
  append_grown max room fits (not_reserved d why) = exhausted d why

  double : (n : ℕ) → n * 2 ≡ n + n
  double n = omega arith

  -- Full arrays are doubled first.
  append_full :
      {h : Heap} {cp : CommandParameters} (n : ℕ)
      → length es ≡ suc n
      → length es < 2 ^ 28
      → Holds h₀ h cp es [] []
      → Extended a h₀ es it (append a (length es) it cp h)
  unfolding append
  append_full {h} {cp} n some_entries small held =
      rw (entries, room, double (length es))
        (append_grown (length es + length es) n (omega arith) (
          subst (λ m. Reserved a h₀ es m (reserve a (length es + length es) cp h)) some_entries
            (reserve-Reserved a h₀ es (length es) (omega arith) held)))
    where
      entries : (cp.entries == length es) ≡ true
      entries = ground (arith, held.entries)

      room : leb (2 ^ 31) (length es * 2) ≡ false
      room = ground arith

  pub append-Extended :
      {h : Heap} {cp : CommandParameters} (room max : ℕ)
      → max ≡ length es + room
      → 0 < max
      → length es < 2 ^ 28
      → Holds h₀ h cp es (nulls room) (nulls room)
      → Extended a h₀ es it (append a max it cp h)
  unfolding append
  append-Extended {cp} (suc room) max fits positive small held =
      rw not_full (append_entry-Extended room max fits held)
    where
      not_full : (cp.entries == max) ≡ false
      not_full = ground (arith, held.entries)
  append-Extended {h} {cp} zero max fits positive small held =
      subst (λ m. Extended a h₀ es it (append a m it cp h)) full
        (append_full (max - 1) (omega arith) small held)
    where
      full : length es ≡ max
      full = omega arith

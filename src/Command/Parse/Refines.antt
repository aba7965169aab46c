-- ===== src/Command/Parse/Refines.antt =====
-- CPParseCommandParameters against the meaning of its text: what it returns, what it stores, and
-- that it gives every block back when it fails.
use mathlib.Core.List.{append-nil}
use nxdk_dyndxt.Base.{
  ℕ, zero, suc, ◌+◌, ◌^◌, ◌<◌, ◌≡◌, refl, ap, ◌∙◌, inl, inr, Bool, true, false, Option, some, List,
  [], ◌∷◌, ◌++◌, Bytes, arith, ◌==◌, Bool-cases, not, if◌then◌else◌, ℤ, pos, length, length-append,
}
use nxdk_dyndxt.Pool.{Heap, Allocator, Run, ok, fault, and_then}
use nxdk_dyndxt.Pool.Alloc.{Refusal}
use nxdk_dyndxt.Command.{
  CommandParameters, zeroed, k_tag, default_reserve_size, pcp_err_out_of_memory,
  pcp_err_unterminated_escape,
}
use nxdk_dyndxt.Command.Scan.{Item, deref, first_non_space, scan}
use nxdk_dyndxt.Command.Scan.Cases.{found, bad_key, no_quote, beyond, scan_cases}
use nxdk_dyndxt.Command.Scan.Lengths.{scan-LeavesBelow, length-first_non_space}
use nxdk_dyndxt.Command.Storage.{append, delete}
use nxdk_dyndxt.Command.Storage.Holds.{Entry, Holds, Restored, Pair, Stored, IsText, IsValue}
use nxdk_dyndxt.Command.Storage.Delete.{delete-Restored}
use nxdk_dyndxt.Command.Storage.Reserve.{
  nulls, Discardable, Reserved, reserved, not_reserved, reserve_first,
}
use nxdk_dyndxt.Command.Storage
use nxdk_dyndxt.Command.Storage.Extend
use nxdk_dyndxt.Command.Storage.Extend.{Extended, append-Extended}
use nxdk_dyndxt.Command.Parse.{give_up, is_zero, parse_loop, parse_into}
use nxdk_dyndxt.Command.Parse.Text
use nxdk_dyndxt.Command.Parse.Text.{
  Verdict, parsed, undefined, prefix, with_value, read_entries, read_text, prefix-prefix,
  prefix-nil,
}

-- How a run of the parser from `h₀` may end, where the text has this meaning.
pub data Parsed (a : Allocator) (h₀ : Heap) : Verdict → Run (ℤ × CommandParameters) → Type 0 where
  -- its pairs are stored, and their number is returned
  stored :
      {h : Heap} {cp : CommandParameters} {kvs : List Pair} (es : List Entry) (room n : ℕ)
      → n ≡ length kvs
      → Holds h₀ h cp es (nulls room) (nulls room)
      → Stored es kvs
      → Parsed a h₀ (parsed kvs) (ok (pos n, cp) h)
  -- an empty text stores nothing
  empty : {h : Heap} → Restored h₀ h → Parsed a h₀ (parsed []) (ok (pos 0, zeroed) h)
  -- its error is returned, with nothing stored or leaked
  rejected : {h : Heap} {c : ℤ} → Restored h₀ h → Parsed a h₀ (Text.rejected c) (ok (c, zeroed) h)
  -- an allocation failed, and nothing is stored or leaked
  out_of_memory :
      {h : Heap} {v : Verdict}
      → Restored h₀ h
      → Refusal a k_tag
      → Parsed a h₀ v (ok (pcp_err_out_of_memory, zeroed) h)
  overrun : Parsed a h₀ undefined fault

Stored-append :
    (es : List Entry) (kvs : List Pair) (e : Entry) (k : Bytes) (v : Option Bytes)
    → Stored es kvs
    → IsText e.key_text k
    → IsValue e.value v
    → Stored (es ++ e ∷ []) (kvs ++ (k, v) ∷ [])
Stored-append [] [] e k v s t w = (t, w, tt)
Stored-append [] (y ∷ kvs) e k v s t w = absurd s
Stored-append (x ∷ es) [] e k v s t w = absurd s
Stored-append (x ∷ es) (y ∷ kvs) e k v s t w = (s.0, s.1, Stored-append es kvs e k v s.2 t w)

length-Stored : (es : List Entry) (kvs : List Pair) → Stored es kvs → length es ≡ length kvs
length-Stored [] [] s = refl
length-Stored [] (y ∷ kvs) s = absurd s
length-Stored (x ∷ es) [] s = absurd s
length-Stored (x ∷ es) (y ∷ kvs) s = ap suc (length-Stored es kvs s.2)

read_entries_end :
    (f : ℕ) (s : Bytes) → 0 < f → (deref s == 0) ≡ true → read_entries f s ≡ parsed []
unfolding read_entries
read_entries_end zero s l e = absurd (omega arith)
read_entries_end (suc f) s l e = rw (e, read_entries)

module _ (a : Allocator) (h₀ : Heap) where
  give_up-rejected :
      (h : Heap) (cp : CommandParameters) (c : ℤ)
      → Discardable h₀ h cp
      → Parsed a h₀ (Text.rejected c) (give_up c cp h)
  unfolding give_up
  give_up-rejected h cp c (h', run, restored) = rw run (rejected restored)

  give_up-empty :
      (h : Heap) (cp : CommandParameters)
      → Discardable h₀ h cp
      → Parsed a h₀ (parsed []) (give_up (pos 0) cp h)
  unfolding give_up
  give_up-empty h cp (h', run, restored) = rw run (empty restored)

  give_up-out_of_memory :
      (h : Heap) (cp : CommandParameters) (v : Verdict)
      → Discardable h₀ h cp
      → Refusal a k_tag
      → Parsed a h₀ v (give_up pcp_err_out_of_memory cp h)
  unfolding give_up
  give_up-out_of_memory h cp v (h', run, restored) why = rw run (out_of_memory restored why)

  -- One round of the loop, and the rest of it as an argument.
  round :
      (f : ℕ) (s : Bytes) (it : Item) (es : List Entry) (kvs : List Pair)
      {r : Run (ℤ × ℕ × CommandParameters)}
      → Stored es kvs
      → ((h : Heap) (cp : CommandParameters) (e : Entry) (v : Option Bytes) (room max : ℕ)
          → max ≡ length es + 1 + room
          → Holds h₀ h cp (es ++ e ∷ []) (nulls room) (nulls room)
          → Stored (es ++ e ∷ []) (kvs ++ (it.key, v) ∷ [])
          → Parsed a h₀
              (prefix (kvs ++ (it.key, v) ∷ []) (read_entries f (first_non_space it.entry_end)))
              (parse_loop a f max (first_non_space it.entry_end) cp h))
      → Extended a h₀ es it r
      → Parsed a h₀
          (prefix kvs (
            with_value it.key
              (Storage.Append.decode it.value it.value_needs_unescaping)
              (read_entries f (first_non_space it.entry_end))))
          (and_then r (λ (code, max', cp'). elim (is_zero code) [
            | true ↦ parse_loop a f max' (first_non_space it.entry_end) cp'
            | false ↦ give_up code cp'
          ]))
  round f s it es kvs st rest (Extend.extended {h} {cp} {v} e room max fits held text is d) =
      rw (d, prefix-prefix kvs ((it.key, v) ∷ []) (read_entries f (first_non_space it.entry_end)))
        (rest h cp e v room max fits held (Stored-append es kvs e it.key v st text is))
  round f s it es kvs st rest (Extend.bad_escape disc d) =
      rw d (give_up-rejected _ _ pcp_err_unterminated_escape disc)
  round f s it es kvs st rest (Extend.exhausted disc why) = give_up-out_of_memory _ _ _ disc why

  parse_loop-Parsed :
      (f : ℕ) (s : Bytes) (max : ℕ) (h : Heap) (cp : CommandParameters) (es : List Entry) (room : ℕ)
      (kvs : List Pair)
      → max ≡ length es + room
      → 0 < max
      → length s < f
      → length es + length s < 2 ^ 28
      → Holds h₀ h cp es (nulls room) (nulls room)
      → Stored es kvs
      → Parsed a h₀ (prefix kvs (read_entries f s)) (parse_loop a f max s cp h)
  unfolding parse_loop read_entries
  parse_loop-Parsed zero s max h cp es room kvs fits positive fuel small held st =
      absurd (omega arith)
  parse_loop-Parsed (suc f) s max h cp es room kvs fits positive fuel small held st =
      elim (Bool-cases (deref s == 0)) [
        | inl e ↦
            rw (e, read_entries, parse_loop, append-nil)
              (stored es room cp.entries (held.entries ∙ length-Stored es kvs st) held st)
        | inr e ↦
            rw (e, read_entries, parse_loop)
              (elim (scan_cases (scan s)) [
                | bad_key e' ↦ rw e' (give_up-rejected h cp _ discarded)
                | no_quote e' ↦ rw e' (give_up-rejected h cp _ discarded)
                | beyond e' ↦ rw e' overrun
                | found it e' ↦
                    let below : length it.entry_end < length s = rw e' at (scan-LeavesBelow s) in
                    let shorter = length-first_non_space it.entry_end in
                    rw e' (
                      round f s it es kvs st
                        (λ h' cp' e v room' max' fits' held' st'.
                          parse_loop-Parsed f (first_non_space it.entry_end) max' h' cp'
                            (es ++ e ∷ []) room' (kvs ++ (it.key, v) ∷ [])
                            (omega (arith, length-append {0} es (e ∷ []))) (omega arith)
                            (omega arith) (omega (arith, length-append {0} es (e ∷ []))) held' st')
                        (append-Extended a h₀ es it room max fits positive (omega arith) held))
              ])
      ]
    where
      discarded : Discardable h₀ h cp
      discarded = delete-Restored (nulls room) (nulls room) held

  -- For every allocator, heap and text of fewer than 2 ^ 28 characters, CPParseCommandParameters
  -- ends in one of five ways. It returns the number of pairs that the text means and holds exactly
  -- these in new blocks, with every older block as it was; or, for no pairs, it returns 0 and holds
  -- nothing; or it returns the text's error, or the out-of-memory error if the allocator can
  -- refuse, both with the parameters cleared and the heap as before; or it faults, only where the
  -- text makes a scan pass its terminator.
  pub parse_into-Parsed :
      (s : Bytes) → length s < 2 ^ 28 → Parsed a h₀ (read_text s) (parse_into a (some s) h₀)
  unfolding parse_into read_text
  parse_into-Parsed s small = go (reserve_first a h₀)
    where
      start : Bytes
      start = first_non_space s

      go :
          {r : Run (Bool × CommandParameters)}
          → Reserved a h₀ [] default_reserve_size r
          → Parsed a h₀ (read_entries (length start + 1) start) (
              and_then r (λ (done, cp).
                if not done
                then give_up pcp_err_out_of_memory cp
                else if deref start == 0
                then give_up (pos 0) cp
                else parse_loop a (length start + 1) default_reserve_size start cp))
      go (not_reserved {h} {cp} d why) = give_up-out_of_memory h cp _ d why
      go (reserved {h} {cp} held) = elim (Bool-cases (deref start == 0)) [
        | inl e ↦
            rw (e, read_entries_end (length start + 1) start (omega arith) e)
              (give_up-empty h cp (delete-Restored (nulls 4) (nulls 4) held))
        | inr e ↦
            rw (e, ← prefix-nil (read_entries (length start + 1) start))
              (parse_loop-Parsed (length start + 1) start default_reserve_size h cp [] 4 [] refl
                (omega arith) (omega arith) (omega (arith, length-first_non_space s)) held tt)
      ]

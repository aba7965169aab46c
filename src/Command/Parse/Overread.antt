-- ===== src/Command/Parse/Overread.antt =====
-- A backslash at the very end of a quoted value moves ValueEnd past the terminator.
use nxdk_dyndxt.Base.{
  ℕ, zero, suc, ◌+◌, ◌^◌, ◌<◌, ◌≡◌, ◌≢◌, refl, ◌∙◌, inl, inr, Bool, true, false, none, some, [],
  ◌∷◌, ◌++◌, Bytes, arith, Bool-cases, length, ℤ,
}
use nxdk_dyndxt.Pool.{Heap, Allocator, Run, fault}
use nxdk_dyndxt.Pool.Alloc.{NeverRefuses}
use nxdk_dyndxt.Command.{CommandParameters, k_tag}
use nxdk_dyndxt.Command.Scan.{quoted_end, value_end, overread, scan_value, scan}
use nxdk_dyndxt.Command.Parse.{parse_into}
use nxdk_dyndxt.Command.Parse.Text.{undefined, read_entries, read_text}
use nxdk_dyndxt.Command.Parse.Refines
use nxdk_dyndxt.Command.Parse.Refines.{Parsed, parse_into-Parsed}
use nxdk_dyndxt.Command.Parse.Print.{
  is_special, escape, AreKeyChars, AreValueChars, quoted_end-cons, key_end-append, nonempty_range,
  no_space_first, key_starts,
}

-- A key, and a quoted value that is cut off behind a backslash.
abbrev pub cut_off : Bytes → Bytes → Bytes
cut_off k v = k ++ b'=' ∷ b'"' ∷ (escape v ++ b'\\' ∷ [])

quoted_end_cut_off :
    (v : Bytes) (b : Bool) → AreValueChars v → quoted_end (escape v ++ b'\\' ∷ []) b ≡ none
unfolding escape quoted_end
quoted_end_cut_off [] b h = refl
quoted_end_cut_off (c ∷ v) b h = elim (Bool-cases (is_special c)) [
  | inl e ↦ rw e (quoted_end_cut_off v true h.1)
  | inr e ↦ rw e (quoted_end-cons c (escape v ++ b'\\' ∷ []) b h.0 e ∙ quoted_end_cut_off v b h.1)
]

scan-cut_off :
    (k v : Bytes) → k ≢ [] → AreKeyChars k → AreValueChars v → scan (cut_off k v) ≡ overread
unfolding scan scan_value value_end
scan-cut_off k v ne h hv =
    let body : Bytes = b'=' ∷ b'"' ∷ (escape v ++ b'\\' ∷ []) in
    rw
      (
        key_end-append k b'=' (b'"' ∷ (escape v ++ b'\\' ∷ [])) h refl,
        scan,
        nonempty_range k body ne,
        quoted_end_cut_off v false hv,
      )
      refl

module _ (k v : Bytes) (ne : k ≢ []) (chars : AreKeyChars k) (chars' : AreValueChars v) where
  read_entries-cut_off : (f : ℕ) → 0 < f → read_entries f (cut_off k v) ≡ undefined
  unfolding read_entries
  read_entries-cut_off zero l = absurd (omega arith)
  read_entries-cut_off (suc f) l =
      rw (key_starts k _ ne chars, read_entries, scan-cut_off k v ne chars chars') refl

  read_text-cut_off : read_text (cut_off k v) ≡ undefined
  unfolding read_text
  read_text-cut_off =
      rw (no_space_first k _ ne chars)
        (read_entries-cut_off (length (cut_off k v) + 1) (omega arith))

Parsed-undefined :
    {a : Allocator} {h₀ : Heap} {r : Run (ℤ × CommandParameters)}
    → NeverRefuses a k_tag
    → Parsed a h₀ undefined r
    → r ≡ fault
Parsed-undefined full (Refines.out_of_memory restored (h, size, e)) = absurd (full h size e)
Parsed-undefined full Refines.overrun = refl

-- With an allocator that never refuses, a text of fewer than 2 ^ 28 characters that is a non-empty
-- key without NUL, space or equals sign, then `=`, a quotation mark, an escaped value without NUL
-- and one more backslash makes CPParseCommandParameters read behind the terminator: it faults.
pub parse_into-cut_off :
    (a : Allocator) (h₀ : Heap) (k v : Bytes)
    → NeverRefuses a k_tag
    → k ≢ []
    → AreKeyChars k
    → AreValueChars v
    → length (cut_off k v) < 2 ^ 28
    → parse_into a (some (cut_off k v)) h₀ ≡ fault
parse_into-cut_off a h₀ k v full ne chars chars' small =
    Parsed-undefined full
      (rw (read_text-cut_off k v ne chars chars') at (parse_into-Parsed a h₀ (cut_off k v) small))

-- ===== src/Command/Parse/Inside.antt =====
-- Without a backslash in its text the parser stays inside its memory.
use nxdk_dyndxt.Base.{
  ℕ, zero, suc, ◌^◌, ◌<◌, ◌≡◌, ◌≢◌, refl, inl, inr, Bool, false, not, ◌&&◌, ◌||◌, Option, none,
  some, [], ◌∷◌, Bytes, arith, ◌==◌, Bool-cases, length, drop, ℤ,
}
use nxdk_dyndxt.Pool.{Heap, Allocator, Run, fault}
use nxdk_dyndxt.Command.{CommandParameters}
use nxdk_dyndxt.Command.Scan.{
  deref, first_non_space, key_end, quoted_end, unquoted_end, value_end, Scan, item, overread, range,
  scan_value, scan,
}
use nxdk_dyndxt.Command.Scan.Cases.{found, bad_key, no_quote, beyond, scan_cases}
use nxdk_dyndxt.Command.Storage.Append.{Value, value, unterminated_escape}
use nxdk_dyndxt.Command.Parse.{parse_into}
use nxdk_dyndxt.Command.Parse.Text
use nxdk_dyndxt.Command.Parse.Text.{Verdict, undefined, read_entries, read_text}
use nxdk_dyndxt.Command.Parse.Refines
use nxdk_dyndxt.Command.Parse.Refines.{Parsed, parse_into-Parsed}

abbrev pub has_backslash : Bytes → Bool
has_backslash [] = false
has_backslash (c ∷ s) = c == b'\\' || has_backslash s

abbrev Plain : Bytes → Type 0
Plain s = has_backslash s ≡ false

first_non_space-Plain : (s : Bytes) → Plain s → Plain (first_non_space s)
unfolding first_non_space
first_non_space-Plain [] h = refl
first_non_space-Plain (c ∷ s) h = ground (arith, first_non_space-Plain s)

key_end-Plain : (s : Bytes) → Plain s → Plain (key_end s)
unfolding key_end
key_end-Plain [] h = refl
key_end-Plain (c ∷ s) h = ground (arith, key_end-Plain s)

unquoted_end-Plain : (s : Bytes) → Plain s → Plain (unquoted_end s)
unfolding unquoted_end
unquoted_end-Plain [] h = refl
unquoted_end-Plain (c ∷ s) h = ground (arith, unquoted_end-Plain s)

drop_one-Plain : (s : Bytes) → Plain s → Plain (drop 1 s)
drop_one-Plain [] h = refl
drop_one-Plain (c ∷ s) h = ground arith

-- The end of a value is found, and no backslash follows.
abbrev IsFound : Option (Bytes × Bool) → Type 0
IsFound none = ⊥
IsFound (some (e, b)) = Plain e

quoted_end-IsFound : (s : Bytes) (b : Bool) → Plain s → IsFound (quoted_end s b)
unfolding quoted_end
quoted_end-IsFound [] b h = refl
quoted_end-IsFound (c ∷ []) b h = ground arith
quoted_end-IsFound (c ∷ d ∷ s) b h =
    let no_escape : (c == b'\\') ≡ false = ground arith in
    let next = quoted_end-IsFound (d ∷ s) b (ground arith) in
    elim (Bool-cases (c == 0 || c == b'"')) [ inl e ↦ rw e h | inr e ↦ rw (e, no_escape) next ]

value_end-IsFound : (s : Bytes) → Plain s → IsFound (value_end s)
unfolding value_end
value_end-IsFound s h = elim (Bool-cases (not (deref s == 0) && deref s == b'"')) [
  | inl e ↦ rw e (quoted_end-IsFound (drop 1 s) false (drop_one-Plain s h))
  | inr e ↦ rw e (unquoted_end-Plain s h)
]

abbrev StaysInside : Scan → Type 0
StaysInside overread = ⊥
StaysInside (item it) = Plain it.entry_end
StaysInside _ = Unit

scan_value-StaysInside :
    (key s : Bytes) (r : Option (Bytes × Bool)) → IsFound r → StaysInside (scan_value key s r)
unfolding scan_value
scan_value-StaysInside key s none h = absurd h
scan_value-StaysInside key s (some (e, b)) h = ground (arith, drop_one-Plain e)

scan-StaysInside : (s : Bytes) → Plain s → StaysInside (scan s)
unfolding scan
scan-StaysInside s h =
    let inside = key_end-Plain s h in
    elim (Bool-cases (length (key_end s) == length s)) [
      | inl e ↦ rw e tt
      | inr e ↦ rw e (elim (Bool-cases (deref (key_end s) == b'=')) [
        | inl e' ↦ rw e' (
            scan_value-StaysInside (range s (key_end s)) (drop 1 (key_end s)) _
              (value_end-IsFound (drop 1 (key_end s)) (drop_one-Plain (key_end s) inside)))
        | inr e' ↦ rw e' inside
      ])
    ]

abbrev IsDefined : Verdict → Type 0
IsDefined undefined = ⊥
IsDefined _ = Unit

with_value-IsDefined :
    (key : Bytes) (v : Value) (rest : Verdict)
    → IsDefined rest
    → IsDefined (Text.with_value key v rest)
with_value-IsDefined key unterminated_escape rest h = tt
with_value-IsDefined key (value v) (Text.parsed kvs) h = tt
with_value-IsDefined key (value v) (Text.rejected c) h = tt
with_value-IsDefined key (value v) undefined h = absurd h
with_value-IsDefined key (value v) Text.unfinished h = tt

read_entries-IsDefined : (f : ℕ) (s : Bytes) → Plain s → IsDefined (read_entries f s)
unfolding read_entries
read_entries-IsDefined zero s h = tt
read_entries-IsDefined (suc f) s h = elim (Bool-cases (deref s == 0)) [
  | inl e ↦ rw (e, read_entries) tt
  | inr e ↦
      rw (e, read_entries)
        (elim (scan_cases (scan s)) [
          | bad_key e' ↦ rw e' tt
          | no_quote e' ↦ rw e' tt
          | beyond e' ↦ absurd (rw e' at (scan-StaysInside s h))
          | found it e' ↦
              let inside = rw e' at (scan-StaysInside s h) in
              let later = first_non_space it.entry_end in
              rw e' (
                with_value-IsDefined it.key _ _
                  (read_entries-IsDefined f later (first_non_space-Plain it.entry_end inside)))
        ])
]

Parsed-ne-fault :
    {a : Allocator} {h₀ : Heap} {v : Verdict} {r : Run (ℤ × CommandParameters)}
    → Parsed a h₀ v r
    → IsDefined v
    → r ≢ fault
Parsed-ne-fault (Refines.stored es room n l held st) d e = cc
Parsed-ne-fault (Refines.empty restored) d e = cc
Parsed-ne-fault (Refines.rejected restored) d e = cc
Parsed-ne-fault (Refines.out_of_memory restored why) d e = cc
Parsed-ne-fault Refines.overrun d e = d

-- On a text of fewer than 2 ^ 28 characters without a backslash CPParseCommandParameters does not
-- fault, for every allocator and heap: no read behind the text's end, no access outside a block,
-- no free of what is not allocated.
pub parse_into-ne-fault :
    (a : Allocator) (h₀ : Heap) (s : Bytes)
    → length s < 2 ^ 28
    → has_backslash s ≡ false
    → parse_into a (some s) h₀ ≢ fault
unfolding read_text
parse_into-ne-fault a h₀ s small plain =
    Parsed-ne-fault (parse_into-Parsed a h₀ s small)
      (read_entries-IsDefined _ (first_non_space s) (first_non_space-Plain s plain))

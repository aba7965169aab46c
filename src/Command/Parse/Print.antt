-- ===== src/Command/Parse/Print.antt =====
-- A printer for parameters, and that the parser reads back what it prints: keys are bare, values
-- are quoted, and a quotation mark or backslash inside a value is escaped.
use nxdk_dyndxt.Base.{
  ℕ, zero, suc, ◌+◌, ◌<◌, ◌≤◌, ◌≡◌, ◌≢◌, refl, ◌∙◌, inl, inr, Bool, true, false, ◌||◌, Option, none,
  some, List, [], ◌∷◌, ◌++◌, Bytes, arith, ◌==◌, Bool-cases, if◌then◌else◌, length, length-append,
}
use nxdk_dyndxt.Command.Scan.{
  deref, first_non_space, key_end, quoted_end, value_end, item, scan_value, scan,
}
use nxdk_dyndxt.Command.Scan.Escapes.{range-append, unescape-cons, unescape_pair}
use nxdk_dyndxt.Command.Storage.{unescape}
use nxdk_dyndxt.Command.Storage.Holds.{Pair}
use nxdk_dyndxt.Command.Storage.Append.{value, decode_some}
use nxdk_dyndxt.Command.Parse.Text.{parsed, read_entries, read_text}

abbrev pub is_special : ℕ → Bool
is_special c = c == b'"' || c == b'\\'

abbrev pub has_special : Bytes → Bool
has_special [] = false
has_special (c ∷ s) = is_special c || has_special s

unfoldable pub escape : Bytes → Bytes
escape [] = []
escape (c ∷ s) = if is_special c then b'\\' ∷ c ∷ escape s else c ∷ escape s

abbrev pub print_pair : Pair → Bytes → Bytes
print_pair (k, none) rest = k ++ rest
print_pair (k, some v) rest = k ++ b'=' ∷ b'"' ∷ (escape v ++ b'"' ∷ rest)

abbrev pub print : List Pair → Bytes
print [] = []
print (p ∷ ps) = print_pair p (b' ' ∷ print ps)

-- Characters of a key, and of a value.
abbrev pub AreKeyChars : Bytes → Type 0
AreKeyChars [] = Unit
AreKeyChars (c ∷ s) = (c ≢ 0) × (c ≢ b' ') × (c ≢ b'=') × AreKeyChars s

abbrev pub AreValueChars : Bytes → Type 0
AreValueChars [] = Unit
AreValueChars (c ∷ s) = (c ≢ 0) × AreValueChars s

abbrev pub IsPrintableValue : Option Bytes → Type 0
IsPrintableValue none = Unit
IsPrintableValue (some v) = (v ≢ []) × AreValueChars v

-- Keys are not empty and hold no NUL, space or equals sign; values that are present are not
-- empty and hold no NUL.
abbrev pub ArePrintable : List Pair → Type 0
ArePrintable [] = Unit
ArePrintable ((k, v) ∷ kvs) = (k ≢ []) × AreKeyChars k × IsPrintableValue v × ArePrintable kvs

unescape-escape : (v : Bytes) → unescape (escape v) ≡ (v, true)
unfolding escape unescape
unescape-escape [] = refl
unescape-escape (c ∷ v) = elim (Bool-cases (is_special c)) [
  | inl e ↦ rw (e, unescape_pair b'\\' c (escape v) refl, unescape-escape v) refl
  | inr e ↦
      let plain : (c == b'\\') ≡ false = ground arith in
      rw (e, unescape-cons c (escape v) plain, unescape-escape v) refl
]

escape_plain : (v : Bytes) → has_special v ≡ false → escape v ≡ v
unfolding escape
escape_plain [] h = refl
escape_plain (c ∷ v) h = ground (arith, escape_plain v)

pub quoted_end-cons :
    (c : ℕ) (t : Bytes) (b : Bool)
    → c ≢ 0
    → is_special c ≡ false
    → quoted_end (c ∷ t) b ≡ quoted_end t b
unfolding quoted_end
quoted_end-cons c [] b nz plain = ground arith
quoted_end-cons c (d ∷ t) b nz plain = ground arith

pub quoted_end-escape :
    (v rest : Bytes) (b : Bool)
    → AreValueChars v
    → quoted_end (escape v ++ b'"' ∷ rest) b ≡ some (b'"' ∷ rest, b || has_special v)
unfolding escape quoted_end
quoted_end-escape [] [] b h = ground arith
quoted_end-escape [] (x ∷ rest) b h = ground arith
quoted_end-escape (c ∷ v) rest b h = elim (Bool-cases (is_special c)) [
  | inl e ↦ rw e (quoted_end-escape v rest true h.1 ∙ ground arith)
  | inr e ↦
      rw e (quoted_end-cons c (escape v ++ b'"' ∷ rest) b h.0 e ∙ quoted_end-escape v rest b h.1)
]

pub key_end-append :
    (k : Bytes) (c : ℕ) (rest : Bytes)
    → AreKeyChars k
    → (c == b' ' || c == b'=') ≡ true
    → key_end (k ++ c ∷ rest) ≡ c ∷ rest
unfolding key_end
key_end-append [] c rest h e = ground arith
key_end-append (x ∷ k) c rest h e = ground (arith, key_end-append k c rest h.3 e)

pub no_space_first :
    (k rest : Bytes) → k ≢ [] → AreKeyChars k → first_non_space (k ++ rest) ≡ k ++ rest
unfolding first_non_space
no_space_first [] rest ne h = absurd (ne refl)
no_space_first (c ∷ k) rest ne h = ground arith

pub nonempty_range : (k e : Bytes) → k ≢ [] → (length e == length (k ++ e)) ≡ false
nonempty_range [] e ne = absurd (ne refl)
nonempty_range (c ∷ k) e ne = ground (arith, length-append {0} k e)

scan_key :
    (k rest : Bytes)
    → k ≢ []
    → AreKeyChars k
    → scan (k ++ b' ' ∷ rest)
      ≡ item (record {
        key = k;
        value = none;
        value_needs_unescaping = false;
        entry_end = b' ' ∷ rest;
      })
unfolding scan
scan_key k rest ne h =
    rw
      (
        key_end-append k b' ' rest h refl,
        scan,
        nonempty_range k (b' ' ∷ rest) ne,
        range-append k (b' ' ∷ rest),
      )
      refl

scan_quoted :
    (k v rest : Bytes)
    → k ≢ []
    → AreKeyChars k
    → AreValueChars v
    → scan (k ++ b'=' ∷ b'"' ∷ (escape v ++ b'"' ∷ rest))
      ≡ item (record {
        key = k;
        value = some (escape v);
        value_needs_unescaping = has_special v;
        entry_end = rest;
      })
unfolding scan scan_value value_end
scan_quoted k v rest ne h hv =
    let body : Bytes = b'=' ∷ b'"' ∷ (escape v ++ b'"' ∷ rest) in
    rw
      (
        key_end-append k b'=' (b'"' ∷ (escape v ++ b'"' ∷ rest)) h refl,
        scan,
        nonempty_range k body ne,
        range-append k body,
        quoted_end-escape v rest false hv,
        range-append (escape v) (b'"' ∷ rest),
      )
      refl

length-escape_pos : (v : Bytes) → v ≢ [] → (length (escape v) == 0) ≡ false
unfolding escape
length-escape_pos [] ne = absurd (ne refl)
length-escape_pos (c ∷ v) ne = ground arith

decode-escape : (v : Bytes) → v ≢ [] → decode_some (escape v) (has_special v) ≡ value (some v)
decode-escape v ne = elim (Bool-cases (has_special v)) [
  | inl e ↦ rw (length-escape_pos v ne, e, unescape-escape v) refl
  | inr e ↦ rw (length-escape_pos v ne, e, escape_plain v e) refl
]

-- Behind an entry the next one starts, if there is one.
next_print : (kvs : List Pair) → ArePrintable kvs → first_non_space (b' ' ∷ print kvs) ≡ print kvs
unfolding first_non_space
next_print [] h = refl
next_print ((k, none) ∷ kvs) h = no_space_first k _ h.0 h.1
next_print ((k, some v) ∷ kvs) h = no_space_first k _ h.0 h.1

start_print : (kvs : List Pair) → ArePrintable kvs → first_non_space (print kvs) ≡ print kvs
unfolding first_non_space
start_print [] h = refl
start_print ((k, none) ∷ kvs) h = no_space_first k _ h.0 h.1
start_print ((k, some v) ∷ kvs) h = no_space_first k _ h.0 h.1

pub key_starts : (k rest : Bytes) → k ≢ [] → AreKeyChars k → (deref (k ++ rest) == 0) ≡ false
key_starts [] rest ne h = absurd (ne refl)
key_starts (c ∷ k) rest ne h = ground arith

read_entries-print :
    (f : ℕ) (kvs : List Pair)
    → length kvs < f
    → ArePrintable kvs
    → read_entries f (print kvs) ≡ parsed kvs
unfolding read_entries
read_entries-print zero kvs l h = absurd (omega arith)
read_entries-print (suc f) [] l h = refl
read_entries-print (suc f) ((k, none) ∷ kvs) l (ne, chars, _, h) =
    rw
      (
        key_starts k (b' ' ∷ print kvs) ne chars,
        read_entries,
        scan_key k (print kvs) ne chars,
        next_print kvs h,
        read_entries-print f kvs (omega arith) h,
      )
      refl
read_entries-print (suc f) ((k, some v) ∷ kvs) l (ne, chars, (ne', chars'), h) =
    rw
      (
        key_starts k _ ne chars,
        read_entries,
        scan_quoted k v (b' ' ∷ print kvs) ne chars chars',
        decode-escape v ne',
        next_print kvs h,
        read_entries-print f kvs (omega arith) h,
      )
      refl

length-print : (kvs : List Pair) → length kvs ≤ length (print kvs)
length-print [] = omega arith
length-print ((k, none) ∷ kvs) =
    omega (arith, length-print kvs, length-append {0} k (b' ' ∷ print kvs))
length-print ((k, some v) ∷ kvs) = omega (
  arith,
  length-print kvs,
  length-append {0} k (b'=' ∷ b'"' ∷ (escape v ++ b'"' ∷ b' ' ∷ print kvs)),
  length-append {0} (escape v) (b'"' ∷ b' ' ∷ print kvs),
)

-- Reading a printed list of keys and values gives the list back, whatever the values hold.
pub read_text-print : (kvs : List Pair) → ArePrintable kvs → read_text (print kvs) ≡ parsed kvs
unfolding read_text
read_text-print kvs h =
    rw (start_print kvs h)
      (read_entries-print (length (print kvs) + 1) kvs (omega (arith, length-print kvs)) h)

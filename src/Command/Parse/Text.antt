-- ===== src/Command/Parse/Text.antt =====
-- What a parameter string means, with no memory: the keys and values in order, or the error that
-- the first bad entry has. CPParseCommandParameters is held against it.
use mathlib.Core.List.{append_assoc}
use nxdk_dyndxt.Base.{
  ℕ, zero, suc, ◌+◌, ◌≡◌, refl, ap, sym, true, false, List, [], ◌∷◌, ◌++◌, Bytes, ◌==◌, ℤ, length,
}
use nxdk_dyndxt.Command.{
  pcp_err_invalid_key, pcp_err_unterminated_quoted_key, pcp_err_unterminated_escape,
}
use nxdk_dyndxt.Command.Scan.{
  item, invalid_key, unterminated_quote, overread, deref, first_non_space, scan,
}
use nxdk_dyndxt.Command.Storage.Holds.{Pair}
use nxdk_dyndxt.Command.Storage.Append.{Value, value, unterminated_escape, decode}

pub data Verdict : Type 0 where
  parsed : List Pair → Verdict
  rejected : ℤ → Verdict
  -- the text makes the scanner read behind its end
  undefined : Verdict
  -- the fuel has run out
  unfinished : Verdict

abbrev pub prefix : List Pair → Verdict → Verdict
prefix kvs (parsed rest) = parsed (kvs ++ rest)
prefix kvs v = v

abbrev pub with_value : Bytes → Value → Verdict → Verdict
with_value key (value v) rest = prefix ((key, v) ∷ []) rest
with_value key unterminated_escape rest = rejected pcp_err_unterminated_escape

-- The entries from `s` on, where a key may start.
unfoldable pub read_entries : ℕ → Bytes → Verdict
read_entries zero s = unfinished
read_entries (suc f) s = elim (deref s == 0) [
  | true ↦ parsed []
  | false ↦ elim (scan s) [
    | invalid_key ↦ rejected pcp_err_invalid_key
    | unterminated_quote ↦ rejected pcp_err_unterminated_quoted_key
    | overread ↦ undefined
    | item it ↦
        let rest = read_entries f (first_non_space it.entry_end) in
        with_value it.key (decode it.value it.value_needs_unescaping) rest
  ]
]

-- The entries of a whole parameter string; each takes a character at least.
unfoldable pub read_text : Bytes → Verdict
unfolding read_entries
read_text s = let start = first_non_space s in read_entries (length start + 1) start

pub prefix-prefix :
    (xs ys : List Pair) (v : Verdict) → prefix xs (prefix ys v) ≡ prefix (xs ++ ys) v
prefix-prefix xs ys (parsed zs) = ap parsed (sym (append_assoc xs ys zs))
prefix-prefix xs ys (rejected c) = refl
prefix-prefix xs ys _ = refl

pub prefix-nil : (v : Verdict) → prefix [] v ≡ v
prefix-nil (parsed zs) = refl
prefix-nil (rejected c) = refl
prefix-nil _ = refl

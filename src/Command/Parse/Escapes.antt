-- ===== src/Command/Parse/Escapes.antt =====
-- PCP_ERR_INVALID_INPUT_UNTERMINATED_ESCAPE is never returned.
use nxdk_dyndxt.Base.{
  ℕ, zero, suc, ◌^◌, ◌+◌, [], ◌∷◌, ◌<◌, ◌≢◌, inl, inr, Option, none, some, Bytes, arith, ◌==◌,
  Bool-cases, ℤ, length,
}
use nxdk_dyndxt.Pool.{Heap, Allocator, Run, ok}
use nxdk_dyndxt.Command.{CommandParameters, pcp_err_unterminated_escape}
use nxdk_dyndxt.Command.Scan.{deref, first_non_space, scan}
use nxdk_dyndxt.Command.Scan.Cases.{found, bad_key, no_quote, beyond, scan_cases}
use nxdk_dyndxt.Command.Scan.Escapes.{scan-Decodes}
use nxdk_dyndxt.Command.Parse.{parse_into}
use nxdk_dyndxt.Command.Parse.Text.{
  Verdict, parsed, rejected, undefined, unfinished, prefix, read_entries, read_text,
}
use nxdk_dyndxt.Command.Parse.Refines
use nxdk_dyndxt.Command.Parse.Refines.{Parsed, parse_into-Parsed}

-- The verdict is not that error.
abbrev HasNoEscapeError : Verdict → Type 0
HasNoEscapeError (rejected c) = c ≢ pcp_err_unterminated_escape
HasNoEscapeError _ = Unit

prefix-HasNoEscapeError :
    (kvs : _) (v : Verdict) → HasNoEscapeError v → HasNoEscapeError (prefix kvs v)
prefix-HasNoEscapeError kvs (parsed r) h = tt
prefix-HasNoEscapeError kvs (rejected c) h = h
prefix-HasNoEscapeError kvs undefined h = tt
prefix-HasNoEscapeError kvs unfinished h = tt

read_entries-HasNoEscapeError : (f : ℕ) (s : Bytes) → HasNoEscapeError (read_entries f s)
unfolding read_entries
read_entries-HasNoEscapeError zero s = tt
read_entries-HasNoEscapeError (suc f) s = elim (Bool-cases (deref s == 0)) [
  | inl e ↦ rw (e, read_entries) tt
  | inr e ↦
      rw (e, read_entries)
        (elim (scan_cases (scan s)) [
          | bad_key e' ↦ rw e' (λ h. cc)
          | no_quote e' ↦ rw e' (λ h. cc)
          | beyond e' ↦ rw e' tt
          | found it e' ↦
              let (v, d) = rw e' at (scan-Decodes s) in
              rw (e', d)
                (prefix-HasNoEscapeError ((it.key, v) ∷ []) _
                  (read_entries-HasNoEscapeError f (first_non_space it.entry_end)))
        ])
]

-- What a run returns, if it ends.
abbrev pub returned : Run (ℤ × CommandParameters) → Option ℤ
returned (ok (code, cp) h) = some code
returned _ = none

returned-Parsed :
    {a : Allocator} {h₀ : Heap} {v : Verdict} {r : Run (ℤ × CommandParameters)}
    → Parsed a h₀ v r
    → HasNoEscapeError v
    → returned r ≢ some pcp_err_unterminated_escape
returned-Parsed (Refines.stored es room n l held st) no_error e = cc
returned-Parsed (Refines.empty restored) no_error e = cc
returned-Parsed (Refines.rejected restored) no_error e = ground arith
returned-Parsed (Refines.out_of_memory restored why) no_error e = cc
returned-Parsed Refines.overrun no_error e = cc

-- CPParseCommandParameters never returns the error for an unterminated escape, whatever a text of
-- fewer than 2 ^ 28 characters holds and whatever the allocator answers.
pub parse_into-ne-unterminated_escape :
    (a : Allocator) (h₀ : Heap) (s : Bytes)
    → length s < 2 ^ 28
    → returned (parse_into a (some s) h₀) ≢ some pcp_err_unterminated_escape
unfolding read_text
parse_into-ne-unterminated_escape a h₀ s small =
    returned-Parsed (parse_into-Parsed a h₀ s small)
      (read_entries-HasNoEscapeError (length (first_non_space s) + 1) (first_non_space s))

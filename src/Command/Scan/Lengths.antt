-- ===== src/Command/Scan/Lengths.antt =====
-- Every round of the parse loop takes characters off its input.
use nxdk_dyndxt.Base.{
  ℕ, ◌<◌, ◌≤◌, suc, inl, inr, not, ◌&&◌, ◌||◌, Bool, true, false, Option, none, some, [], ◌∷◌,
  Bytes, arith, ◌==◌, Bool-cases, length, drop,
}
use nxdk_dyndxt.Command.Scan.{
  deref, first_non_space, key_end, quoted_end, unquoted_end, value_end, Scan, item, range,
  scan_value, scan,
}

pub length-first_non_space : (s : Bytes) → length (first_non_space s) ≤ length s
unfolding first_non_space
length-first_non_space [] = omega arith
length-first_non_space (c ∷ s) = ground (arith, length-first_non_space s)

pub length-key_end : (s : Bytes) → length (key_end s) ≤ length s
unfolding key_end
length-key_end [] = omega arith
length-key_end (c ∷ s) = ground (arith, length-key_end s)

length-unquoted_end : (s : Bytes) → length (unquoted_end s) ≤ length s
unfolding unquoted_end
length-unquoted_end [] = omega arith
length-unquoted_end (c ∷ s) = ground (arith, length-unquoted_end s)

-- The end of a value, if there is one, has at most `n` characters behind it.
abbrev EndsWithin : ℕ → Option (Bytes × Bool) → Type 0
EndsWithin n none = Unit
EndsWithin n (some (e, _)) = length e ≤ n

EndsWithin-mono : (m n : ℕ) (r : Option (Bytes × Bool)) → m ≤ n → EndsWithin m r → EndsWithin n r
EndsWithin-mono m n none l h = tt
EndsWithin-mono m n (some (e, b)) l h = omega arith

quoted_end-EndsWithin : (s : Bytes) (b : Bool) → EndsWithin (length s) (quoted_end s b)
unfolding quoted_end
quoted_end-EndsWithin [] b = omega arith
quoted_end-EndsWithin (c ∷ []) b = ground arith
quoted_end-EndsWithin (c ∷ d ∷ s) b =
    let n : ℕ = length s in
    let skipped =
      EndsWithin-mono n (suc (suc n)) (quoted_end s true) (omega arith)
        (quoted_end-EndsWithin s true) in
    let next =
      EndsWithin-mono (suc n) (suc (suc n)) (quoted_end (d ∷ s) b) (omega arith)
        (quoted_end-EndsWithin (d ∷ s) b) in
    elim (Bool-cases (c == 0 || c == b'"')) [
      | inl e ↦ rw e (omega arith)
      | inr e ↦ rw e (elim (Bool-cases (c == b'\\')) [ inl e ↦ rw e skipped | inr e ↦ rw e next ])
    ]

length-drop_one : (s : Bytes) → length (drop 1 s) ≤ length s
length-drop_one [] = omega arith
length-drop_one (c ∷ s) = omega arith

value_end-EndsWithin : (s : Bytes) → EndsWithin (length s) (value_end s)
unfolding value_end
value_end-EndsWithin s = elim (Bool-cases (not (deref s == 0) && deref s == b'"')) [
  | inl e ↦
      rw e (EndsWithin-mono _ _ _ (length-drop_one s) (quoted_end-EndsWithin (drop 1 s) false))
  | inr e ↦ rw e (length-unquoted_end s)
]

-- An item leaves fewer than `n` characters to read.
abbrev pub LeavesBelow : ℕ → Scan → Type 0
LeavesBelow n (item it) = length it.entry_end < n
LeavesBelow n _ = Unit

scan_value-LeavesBelow :
    (n : ℕ) (key s : Bytes) (r : Option (Bytes × Bool))
    → length s < n
    → EndsWithin (length s) r
    → LeavesBelow n (scan_value key s r)
unfolding scan_value
scan_value-LeavesBelow n key s none l h = tt
scan_value-LeavesBelow n key s (some (e, b)) l h = ground (arith, length-drop_one e)

pub scan-LeavesBelow : (s : Bytes) → LeavesBelow (length s) (scan s)
unfolding scan
scan-LeavesBelow s =
    let end = key_end s in
    let within = length-key_end s in
    elim (Bool-cases (length end == length s)) [
      | inl e ↦ rw e tt
      | inr e ↦ rw e (elim (Bool-cases (deref end == b'=')) [
        | inl e' ↦ rw e' (
            scan_value-LeavesBelow (length s) (range s end) (drop 1 end) (value_end (drop 1 end))
              (ground (arith, length-drop_one end)) (value_end-EndsWithin (drop 1 end)))
        | inr e' ↦ rw e' (ground arith)
      ])
    ]

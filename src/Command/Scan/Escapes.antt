-- ===== src/Command/Scan/Escapes.antt =====
-- Escapes inside quoted values: whatever ValueEnd accepts, the unescaping loop completes.
use nxdk_dyndxt.Base.{
  ℕ, ◌≡◌, ◌≢◌, refl, ap, ◌∙◌, inl, inr, Bool, true, false, not, ◌&&◌, ◌||◌, Option, none, some, [],
  ◌∷◌, ◌++◌, Bytes, arith, ◌==◌, Bool-cases, if◌then◌else◌, length, length-append, take,
  take-length-append, drop,
}
use nxdk_dyndxt.Command.Scan.{
  deref, key_end, quoted_end, unquoted_end, value_end, Scan, item, range, scan_value, scan,
}
use nxdk_dyndxt.Command.Storage.{unescape}
use nxdk_dyndxt.Command.Storage.Append.{value, unescaped, decode_some, decode}

pub range-append : (x e : Bytes) → range (x ++ e) e ≡ x
range-append x e =
    ap (λ n. take n (x ++ e)) (omega (arith, length-append {0} x e)) ∙ take-length-append x e

-- What ValueEnd has passed over, `x`, is complete, and has no escape where the flag is down.
abbrev pub Quoted : Bytes → Option (Bytes × Bool) → Type 0
Quoted s none = Unit
Quoted s (some (e, b)) =
    (x : Bytes) × (s ≡ x ++ e) × ((unescape x).1 ≡ true) × (b ≡ false → unescape x ≡ (x, true))

pub unescape-cons :
    (c : ℕ) (x : Bytes)
    → (c == b'\\') ≡ false
    → unescape (c ∷ x) ≡ (c ∷ (unescape x).0, (unescape x).1)
unfolding unescape
unescape-cons c [] e = rw (e, unescape)
unescape-cons c (d ∷ x) e = rw (e, unescape)

pub unescape_pair :
    (c d : ℕ) (x : Bytes)
    → (c == b'\\') ≡ true
    → unescape (c ∷ d ∷ x) ≡ (d ∷ (unescape x).0, (unescape x).1)
unfolding unescape
unescape_pair c d x e = rw (e, unescape)

-- The flag never goes down again.
quoted_end_flag : (s : Bytes) (e : Bytes) → quoted_end s true ≢ some (e, false)
unfolding quoted_end
quoted_end_flag [] e h = cc
quoted_end_flag (c ∷ []) e h = ground arith
quoted_end_flag (c ∷ d ∷ s) e h = ground (arith, quoted_end_flag s e, quoted_end_flag (d ∷ s) e)

Quoted-nil : (s : Bytes) (b : Bool) → Quoted s (some (s, b))
unfolding unescape
Quoted-nil s b = ([], refl, refl, λ h. refl)

Quoted-cons :
    (c : ℕ) (s : Bytes) (r : Option (Bytes × Bool))
    → (c == b'\\') ≡ false
    → Quoted s r
    → Quoted (c ∷ s) r
Quoted-cons c s none e q = tt
Quoted-cons c s (some (t, b)) e (x, split, complete, plain) = (
  c ∷ x,
  ap (◌∷◌ c) split,
  rw (unescape-cons c x e) complete,
  λ h. rw (unescape-cons c x e, plain h) refl,
)

Quoted-pair :
    (c d : ℕ) (s : Bytes) (r : Option (Bytes × Bool))
    → ((e : Bytes) → r ≢ some (e, false))
    → (c == b'\\') ≡ true
    → Quoted s r
    → Quoted (c ∷ d ∷ s) r
Quoted-pair c d s none up e q = tt
Quoted-pair c d s (some (t, true)) up e (x, split, complete, plain) =
    (c ∷ d ∷ x, ap (λ u. c ∷ d ∷ u) split, rw (unescape_pair c d x e) complete, λ h. cc)
Quoted-pair c d s (some (t, false)) up e q = absurd (up t refl)

pub quoted_end-Quoted : (s : Bytes) (b : Bool) → Quoted s (quoted_end s b)
unfolding quoted_end
quoted_end-Quoted [] b = Quoted-nil [] b
quoted_end-Quoted (c ∷ []) b = elim (Bool-cases (c == 0 || c == b'"')) [
  | inl e ↦ rw e (Quoted-nil (c ∷ []) b)
  | inr e ↦ rw e (elim (Bool-cases (c == b'\\')) [
    | inl e' ↦ rw e' tt
    | inr e' ↦ rw e' (Quoted-cons c [] (some ([], b)) e' (Quoted-nil [] b))
  ])
]
quoted_end-Quoted (c ∷ d ∷ s) b =
    let skipped = quoted_end-Quoted s true in
    let next = quoted_end-Quoted (d ∷ s) b in
    elim (Bool-cases (c == 0 || c == b'"')) [
      | inl e ↦ rw e (Quoted-nil (c ∷ d ∷ s) b)
      | inr e ↦ rw e (elim (Bool-cases (c == b'\\')) [
        | inl e' ↦ rw e' (Quoted-pair c d s (quoted_end s true) (quoted_end_flag s) e' skipped)
        | inr e' ↦ rw e' (Quoted-cons c (d ∷ s) (quoted_end (d ∷ s) b) e' next)
      ])
    ]

abbrev pub Decodes : Scan → Type 0
Decodes (item it) = (v : Option Bytes) × (decode it.value it.value_needs_unescaping ≡ value v)
Decodes _ = Unit

unescaped-some : (u : Bytes × Bool) → u.1 ≡ true → (v : Option Bytes) × (unescaped u ≡ value v)
unescaped-some (s, true) e = (some s, refl)
unescaped-some (s, false) e = cc

decode_some-value :
    (x : Bytes) (b : Bool)
    → (unescape x).1 ≡ true
    → (v : Option Bytes) × (decode_some x b ≡ value v)
decode_some-value x b complete = elim (Bool-cases (length x == 0)) [
  | inl e ↦ (none, rw e refl)
  | inr e ↦ rw e (by_flag b)
]
  where
    by_flag :
        (b : Bool)
        → (v : Option Bytes) × ((if not b then value (some x) else unescaped (unescape x))
            ≡ value v)
    by_flag false = (some x, refl)
    by_flag true = unescaped-some (unescape x) complete

range-Decodes :
    (t e : Bytes) (b : Bool)
    → Quoted t (some (e, b))
    → (v : Option Bytes) × (decode_some (range t e) b ≡ value v)
range-Decodes t e b (x, split, complete, plain) =
    rw (split, range-append x e) (decode_some-value x b complete)

closing-Decodes :
    (key vs : Bytes) (r : Option (Bytes × Bool))
    → (deref vs == b'"') ≡ true
    → Quoted (drop 1 vs) r
    → Decodes (scan_value key vs r)
unfolding scan_value
closing-Decodes key vs none q quoted = tt
closing-Decodes key vs (some (e, b)) q quoted = elim (Bool-cases (deref e == b'"')) [
  | inl closed ↦ rw (q, closed) (range-Decodes (drop 1 vs) e b quoted)
  | inr open_end ↦ rw (q, open_end) tt
]

plain_value : (s : Bytes) → (v : Option Bytes) × (decode_some s false ≡ value v)
plain_value s = elim (Bool-cases (length s == 0)) [
  | inl e ↦ (none, rw e refl)
  | inr e ↦ (some s, rw e refl)
]

scan_value-Decodes : (key vs : Bytes) → Decodes (scan_value key vs (value_end vs))
unfolding scan_value value_end
scan_value-Decodes key vs = elim (Bool-cases (deref vs == b'"')) [
  | inl q ↦
      let starts : (not (deref vs == 0) && deref vs == b'"') ≡ true = ground arith in
      rw starts (
        closing-Decodes key vs (quoted_end (drop 1 vs) false) q
          (quoted_end-Quoted (drop 1 vs) false))
  | inr q ↦
      let starts : (not (deref vs == 0) && deref vs == b'"') ≡ false = ground arith in
      rw (starts, scan_value, q) (plain_value (range vs (unquoted_end vs)))
]

-- Every item that the loop finds has a value that unescapes.
pub scan-Decodes : (s : Bytes) → Decodes (scan s)
unfolding scan
scan-Decodes s = elim (Bool-cases (length (key_end s) == length s)) [
  | inl e ↦ rw e tt
  | inr e ↦ rw e (elim (Bool-cases (deref (key_end s) == b'=')) [
    | inl e' ↦ rw e' (scan_value-Decodes (range s (key_end s)) (drop 1 (key_end s)))
    | inr e' ↦ rw e' (none, refl)
  ])
]

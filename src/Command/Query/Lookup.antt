-- ===== src/Command/Query/Lookup.antt =====
-- The lookups against the keys and values that are stored.
use mathlib.Core.List.{append_assoc}
use nxdk_dyndxt.Base.{
  ℕ, ◌+◌, ◌≡◌, ◌≢◌, refl, ap, ◌∙◌, inl, inr, Bool, true, false, not, Option, none, some, List, [],
  ◌∷◌, ◌++◌, Bytes, arith, map, ◌==◌, Bool-cases, if◌then◌else◌, length, get_elem?-append_at,
  length-append, ≢→==,
}
use nxdk_dyndxt.Pool.{
  look, Ptr, null, Text, Slots, Heap, ok, c_string, same_string, read_string, read_slot,
}
use nxdk_dyndxt.Pool.Owned.{Held}
use nxdk_dyndxt.Pool.Context.{Held-append_right}
use nxdk_dyndxt.Pool.Strings.{c_string-terminated}
use nxdk_dyndxt.Command.{CommandParameters}
use nxdk_dyndxt.Command.Storage.Holds.{
  Entry, key_slot, value_slot, value_at, value_blocks, blocks, Holds, Pair, Stored, IsText, IsValue,
}
use nxdk_dyndxt.Command.Query.{has_key_loop, has_key, get_string_loop, get_string}

-- The stored string that a key stands for, the first time that it occurs.
abbrev pub value_of : Bytes → List Pair → Option (Option Bytes)
value_of key [] = none
value_of key ((k, v) ∷ kvs) =
    if same_string (c_string k) (c_string key) then some v else value_of key kvs

abbrev pub is_present : Option (Option Bytes) → Bool
is_present none = false
is_present (some v) = true

-- What CPGetString answers: the address of the value's string, where the first entry with the
-- key has a value.
abbrev pub Answers : Heap → Option (Option Bytes) → Bool × Ptr → Type 0
Answers h (some (some v)) (found, p) =
    (found ≡ true) × (p ≢ null) × ((t : Text) × (look h.strings p ≡ some t) × IsText t v)
Answers h _ (found, p) = (found ≡ false) × (p ≡ null)

module _ (h : Heap) where
  read_slot-at :
      (array : Ptr) (i : ℕ) (pre post : Slots) (p : Ptr)
      → length pre ≡ i
      → look h.arrays array ≡ some (pre ++ some p ∷ post)
      → read_slot array i h ≡ ok p h
  unfolding read_slot
  read_slot-at array i pre post p l e =
      rw (e, read_slot, ← l, get_elem?-append_at pre post (some p)) refl

  pub read_string-at :
      (p : Ptr) (t : Text) (k : Bytes)
      → look h.strings p ≡ some t
      → IsText t k
      → read_string p h ≡ ok (c_string k) h
  unfolding read_string
  read_string-at p t k e text = rw (e, read_string, text, c_string-terminated k) refl

  value-Answers :
      (v : Option (Ptr × Text)) (x : Option Bytes) (bs : List (Ptr × Text))
      → Held (value_blocks v ++ bs) h.strings
      → IsValue v x
      → Answers h (some x) (not (value_at v == null), value_at v)
  value-Answers none none bs held is = (refl, refl)
  value-Answers none (some x) bs held is = absurd is
  value-Answers (some (p, t)) none bs held is = absurd is
  value-Answers (some (p, t)) (some x) bs held is =
      (rw (≢→== p null held.1) refl, held.1, (t, held.0, is))

  module _ (key : Bytes) (cp : CommandParameters) where
    has_key_loop-value_of :
        (es : List Entry) (kvs : List Pair) (i : ℕ) (pk kt : Slots)
        → length pk ≡ i
        → look h.arrays cp.keys ≡ some (pk ++ (map key_slot es ++ kt))
        → Held (blocks es) h.strings
        → Stored es kvs
        → has_key_loop (length es) i key cp h ≡ ok (is_present (value_of key kvs)) h
    unfolding has_key_loop
    has_key_loop-value_of [] [] i pk kt l a held st = refl
    has_key_loop-value_of [] (x ∷ kvs) i pk kt l a held st = absurd st
    has_key_loop-value_of (e ∷ es) [] i pk kt l a held st = absurd st
    has_key_loop-value_of (e ∷ es) ((k, v) ∷ kvs) i pk kt l a held st =
        let rest =
          has_key_loop-value_of es kvs (i + 1) (pk ++ key_slot e ∷ []) kt
            (omega (arith, length-append {0} pk (key_slot e ∷ []))) (rw append_assoc a)
            (Held-append_right (value_blocks e.value) (blocks es) h.strings held.3) st.2 in
        rw
          (
            read_slot-at cp.keys i pk (map key_slot es ++ kt) e.key_at l a,
            read_string-at e.key_at e.key_text k held.0 st.0,
          )
          (elim (Bool-cases (same_string (c_string k) (c_string key))) [
            | inl hit ↦ rw hit refl
            | inr miss ↦ rw miss rest
          ])

    get_string_loop-value_of :
        (es : List Entry) (kvs : List Pair) (i : ℕ) (pk pv kt vt : Slots)
        → length pk ≡ i
        → length pv ≡ i
        → look h.arrays cp.keys ≡ some (pk ++ (map key_slot es ++ kt))
        → look h.arrays cp.values ≡ some (pv ++ (map value_slot es ++ vt))
        → Held (blocks es) h.strings
        → Stored es kvs
        → (r : Bool × Ptr) × (get_string_loop (length es) i key cp h ≡ ok r h)
          × Answers h (value_of key kvs) r
    unfolding get_string_loop
    get_string_loop-value_of [] [] i pk pv kt vt l l' a b held st =
        ((false, null), refl, (refl, refl))
    get_string_loop-value_of [] (x ∷ kvs) i pk pv kt vt l l' a b held st = absurd st
    get_string_loop-value_of (e ∷ es) [] i pk pv kt vt l l' a b held st = absurd st
    get_string_loop-value_of (e ∷ es) ((k, v) ∷ kvs) i pk pv kt vt l l' a b held st =
        let (r, run, answers) =
          get_string_loop-value_of es kvs (i + 1) (pk ++ key_slot e ∷ []) (pv ++ value_slot e ∷ [])
            kt vt (omega (arith, length-append {0} pk (key_slot e ∷ [])))
            (omega (arith, length-append {0} pv (value_slot e ∷ []))) (rw append_assoc a)
            (rw append_assoc b)
            (Held-append_right (value_blocks e.value) (blocks es) h.strings held.3) st.2 in
        let slot = read_slot-at cp.keys i pk (map key_slot es ++ kt) e.key_at l a in
        let text = read_string-at e.key_at e.key_text k held.0 st.0 in
        elim (Bool-cases (same_string (c_string k) (c_string key))) [
          | inl hit ↦ (
            (not (value_at e.value == null), value_at e.value),
            rw (slot, text, hit, read_slot-at cp.values i pv _ (value_at e.value) l' b) refl,
            rw hit (value-Answers e.value v (blocks es) held.3 st.1),
          )
          | inr miss ↦ (r, rw (slot, text, miss) run, rw miss answers)
        ]

module _ {h₀ h : Heap} {cp : CommandParameters} {es : List Entry} (kt vt : Slots) (kvs : List Pair)
    (key : Bytes) (held : Holds h₀ h cp es kt vt) (st : Stored es kvs) where
  -- On stored parameters CPHasKey tells exactly whether one of the keys is `key`, and changes
  -- nothing.
  pub has_key-value_of : has_key (some key) (some cp) h ≡ ok (is_present (value_of key kvs)) h
  unfolding has_key
  has_key-value_of =
      ap (λ n. has_key_loop n 0 key cp h) held.entries
      ∙ has_key_loop-value_of h key cp es kvs 0 [] kt refl held.arrays.held.0 held.strings.held st

  -- CPGetString finds the value of the first entry with the key, at an address whose block holds
  -- just this value. It answers NULL and false if no entry has the key, or the first one has no
  -- value.
  pub get_string-value_of :
      (r : Bool × Ptr) × (get_string (some key) (some cp) h ≡ ok r h)
      × Answers h (value_of key kvs) r
  unfolding get_string
  get_string-value_of =
      let (r, run, answers) =
        get_string_loop-value_of h key cp es kvs 0 [] [] kt vt refl refl held.arrays.held.0
          held.arrays.held.3.0 held.strings.held st in
      (r, ap (λ n. get_string_loop n 0 key cp h) held.entries ∙ run, answers)

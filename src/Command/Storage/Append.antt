-- ===== src/Command/Storage/Append.antt =====
-- CommandParametersAppend into arrays with a free slot.
use mathlib.Core.List.{append-nil, append_assoc, map-append}
use nxdk_dyndxt.Base.{
  ℕ, suc, ◌+◌, ◌≤◌, ◌≡◌, refl, sym, inl, inr, Bool, true, false, not, Option, none, some, List, [],
  ◌∷◌, ◌++◌, Bytes, arith, map, length, length-append, length-map, ≢→==, ◌==◌, Bool-cases,
  if◌then◌else◌, ℤ, pos,
}
use nxdk_dyndxt.Pool.{
  tick, Ptr, null, Text, Region, Heap, Allocator, Run, ok, pure, and_then, ◌>>◌, write_string,
}
use nxdk_dyndxt.Pool.Alloc.{
  Refusal, refused, granted, with_string, alloc_string-Outcome, write_slot-Owned,
  write_slot-Owned_second, write_string-Owned,
}
use nxdk_dyndxt.Pool.Owned.{Owned, Owned-cons, Owned-insert}
use nxdk_dyndxt.Command.{
  CommandParameters, k_tag, pcp_err_out_of_memory, pcp_err_unterminated_escape,
}
use nxdk_dyndxt.Command.Scan.{Item}
use nxdk_dyndxt.Command.Storage.{unescape, fill_unescaped, fill_value, append_value, append_entry}
use nxdk_dyndxt.Command.Storage.Holds.{
  Entry, key_slot, value_slot, value_blocks, blocks, Holds, IsText, IsValue,
}
use nxdk_dyndxt.Command.Storage.Delete.{delete-Restored}
use nxdk_dyndxt.Command.Storage.Reserve.{nulls, Discardable}

-- The value that an item stands for: absent, present, or ending inside an escape.
pub data Value : Type 0 where
  value : Option Bytes → Value
  unterminated_escape : Value

abbrev pub unescaped : Bytes × Bool → Value
unescaped (s, true) = value (some s)
unescaped (s, false) = unterminated_escape

abbrev pub decode_some : Bytes → Bool → Value
decode_some s escaped =
    if length s == 0
    then value none
    else if not escaped
    then value (some s)
    else unescaped (unescape s)

abbrev pub decode : Option Bytes → Bool → Value
decode none escaped = value none
decode (some s) escaped = decode_some s escaped

-- The outcomes of an append of `it` behind the entries `es`.
pub data Appended (a : Allocator) (h₀ : Heap) (es : List Entry) (room : ℕ) (it : Item)
    : Run (ℤ × CommandParameters) → Type 0 where
  appended :
      {h : Heap} {cp : CommandParameters} {v : Option Bytes} (e : Entry)
      → Holds h₀ h cp (es ++ e ∷ []) (nulls room) (nulls room)
      → IsText e.key_text it.key
      → IsValue e.value v
      → decode it.value it.value_needs_unescaping ≡ value v
      → Appended a h₀ es room it (ok (pos 0, cp) h)
  bad_escape :
      {h : Heap} {cp : CommandParameters}
      → Discardable h₀ h cp
      → decode it.value it.value_needs_unescaping ≡ unterminated_escape
      → Appended a h₀ es room it (ok (pcp_err_unterminated_escape, cp) h)
  exhausted :
      {h : Heap} {cp : CommandParameters}
      → Discardable h₀ h cp
      → Refusal a k_tag
      → Appended a h₀ es room it (ok (pcp_err_out_of_memory, cp) h)

pub length-unescape : (s : Bytes) → length (unescape s).0 ≤ length s
unfolding unescape
length-unescape [] = omega arith
length-unescape (c ∷ []) = ground arith
length-unescape (c ∷ d ∷ s) = ground (arith, length-unescape s, length-unescape (d ∷ s))

blocks-append :
    (es : List Entry) (e : Entry)
    → blocks (es ++ e ∷ []) ≡ blocks es ++ (e.key_at, e.key_text) ∷ value_blocks e.value
blocks-append [] e = rw append-nil refl
blocks-append (x ∷ es) e = rw (blocks-append es e, append_assoc) refl

-- The newest blocks go behind those of the earlier entries.
settle_value :
    (bs : List (Ptr × Text)) (w : Option (Ptr × Text)) (p : Ptr) (t : Text) {f g : Region Text}
    → Owned (value_blocks w ++ (p, t) ∷ bs) f g
    → Owned (bs ++ (p, t) ∷ value_blocks w) f g
settle_value bs none p t {f} {g} o = Owned-insert bs [] p t (rw append-nil o)
settle_value bs (some (q, u)) p t o =
    Owned-insert bs ((q, u) ∷ []) p t (Owned-insert ((p, t) ∷ bs) [] q u (rw append-nil o))

module _ (h₀ : Heap) (es : List Entry) (room : ℕ) (k v : Ptr) where
  -- The parameters before and behind an append.
  abbrev params : ℕ → CommandParameters
  params n = record { entries = n; keys = k; values = v }

  abbrev Filled : Option Ptr → Option Ptr → Heap → Type 0
  Filled x y h =
      Owned ((k, map key_slot es ++ x ∷ nulls room) ∷ (v, map value_slot es ++ y ∷ nulls room) ∷ [])
        h₀.arrays h.arrays

  settle :
      (e : Entry) (h : Heap)
      → Owned (value_blocks e.value ++ (e.key_at, e.key_text) ∷ blocks es) h₀.strings h.strings
      → Filled (key_slot e) (value_slot e) h
      → Holds h₀ h (params (length es + 1)) (es ++ e ∷ []) (nulls room) (nulls room)
  settle e h s o = record {
    strings = rw (blocks-append es e) (settle_value (blocks es) e.value e.key_at e.key_text s);
    arrays = rw (map-append, map-append, append_assoc, append_assoc) o;
    entries = sym (length-append {0} es (e ∷ []));
  }

  -- What an entry brings with it that cannot be kept is freed again.
  unsettle :
      (e : Entry) (h : Heap)
      → Owned (value_blocks e.value ++ (e.key_at, e.key_text) ∷ blocks es) h₀.strings h.strings
      → Filled (key_slot e) (value_slot e) h
      → Discardable h₀ h (params (length es + 1))
  unsettle e h s o = delete-Restored (nulls room) (nulls room) (settle e h s o)

  -- The outcomes of `append_value`, and of `fill_value`, for the entry with this key.
  data Valued (a : Allocator) (p : Ptr) (t : Text) (decoded : Value) : Run ℤ → Type 0 where
    valued :
        {h : Heap} (w : Option (Ptr × Text)) (x : Option Bytes)
        → Holds h₀ h
            (params (length es + 1))
            (es ++ (record { key_at = p; key_text = t; value = w }) ∷ [])
            (nulls room)
            (nulls room)
        → IsValue w x
        → decoded ≡ value x
        → Valued a p t decoded (ok (pos 0) h)
    bad_value :
        {h : Heap}
        → Discardable h₀ h (params (length es + 1))
        → decoded ≡ unterminated_escape
        → Valued a p t decoded (ok pcp_err_unterminated_escape h)
    no_value :
        {h : Heap}
        → Discardable h₀ h (params (length es + 1))
        → Refusal a k_tag
        → Valued a p t decoded (ok pcp_err_out_of_memory h)

  module _ (a : Allocator) (p : Ptr) (t : Text) where
    -- A string that fits, as the entry's value.
    write_value-Valued :
        (h : Heap) (q : Ptr) (size : ℕ) (s : Bytes)
        → length s + 1 ≤ size
        → Owned ((q, record { size = size; bytes = [] }) ∷ (p, t) ∷ blocks es) h₀.strings h.strings
        → Filled (some p) (some q) h
        → Valued a p t (value (some s)) ((write_string q (s ++ 0 ∷ []) >> pure (pos 0)) h)
    write_value-Valued h q size s l o f =
        let (g, run, o') =
          write_string-Owned h q (s ++ 0 ∷ []) _ (omega (arith, length-append {0} s (0 ∷ []))) o in
        let w : Option (Ptr × Text) = some (q, record { size = size; bytes = s ++ 0 ∷ [] }) in
        let e : Entry = record { key_at = p; key_text = t; value = w } in
        rw run (valued w (some s) (settle e (record h { strings = g }) o' f) refl refl)

    fill_unescaped-Valued :
        (h : Heap) (q : Ptr) (size : ℕ) (u : Bytes × Bool)
        → length u.0 + 1 ≤ size
        → Owned ((q, record { size = size; bytes = [] }) ∷ (p, t) ∷ blocks es) h₀.strings h.strings
        → Filled (some p) (some q) h
        → Valued a p t (unescaped u) (fill_unescaped q u h)
    unfolding fill_unescaped
    fill_unescaped-Valued h q size (s, true) l o f = write_value-Valued h q size s l o f
    fill_unescaped-Valued h q size (s, false) l o f =
        let (g, run, o') = write_string-Owned h q s _ (omega arith) o in
        let w : Option (Ptr × Text) = some (q, record { size = size; bytes = s }) in
        let e : Entry = record { key_at = p; key_text = t; value = w } in
        rw run (bad_value (unsettle e (record h { strings = g }) o' f) refl)

    fill_value-Valued :
        (h : Heap) (q : Ptr) (s : Bytes) (escaped : Bool)
        → Owned
            ((q, record { size = 1 + length s; bytes = [] }) ∷ (p, t) ∷ blocks es)
            h₀.strings
            h.strings
        → Filled (some p) (some q) h
        → Valued a p t
            (if not escaped then value (some s) else unescaped (unescape s))
            (fill_value q s escaped h)
    unfolding fill_value
    fill_value-Valued h q s false o f = write_value-Valued h q (1 + length s) s (omega arith) o f
    fill_value-Valued h q s true o f =
        fill_unescaped-Valued h q (1 + length s) (unescape s) (omega (arith, length-unescape s)) o f

    length_slots : length (map value_slot es) ≡ length es
    length_slots = length-map value_slot es

    -- A value that is not there leaves NULL in its slot.
    absent-Valued :
        (h : Heap)
        → Owned ((p, t) ∷ blocks es) h₀.strings h.strings
        → Filled (some p) (some null) h
        → Valued a p t (value none) (ok (pos 0) h)
    absent-Valued h o f =
        let e : Entry = record { key_at = p; key_text = t; value = none } in
        valued none none (settle e h o f) tt refl

    present-Valued :
        (h : Heap) (it : Item) (s : Bytes)
        → (length s == 0) ≡ false
        → Owned ((p, t) ∷ blocks es) h₀.strings h.strings
        → Filled (some p) (some null) h
        → Valued a p t
            (decode_some s it.value_needs_unescaping)
            (append_value a (length es) (record it { value = some s }) (params (length es)) h)
    unfolding append_value
    present-Valued h it s some_bytes o f =
        rw some_bytes (elim (alloc_string-Outcome a h (1 + length s) k_tag) [
          | refused run why ↦
              let (g, written, f') =
                write_slot-Owned_second (tick h) v (length es) null (map value_slot es) (nulls room)
                  (some null) length_slots f in
              let e : Entry = record { key_at = p; key_text = t; value = none } in
              rw (run, written) (no_value (unsettle e (record (tick h) { arrays = g }) o f') why)
          | granted q run ne unused ↦
              let h₁ : Heap = with_string h (1 + length s) q in
              let (g, written, f') =
                write_slot-Owned_second h₁ v (length es) q (map value_slot es) (nulls room)
                  (some null) length_slots f in
              rw (run, written, ≢→== q null ne)
                (fill_value-Valued (record h₁ { arrays = g }) q s it.value_needs_unescaping
                  (Owned-cons q _ o unused.0 ne) f')
        ])

    -- The value is appended behind the key that has just been stored.
    append_value-Valued :
        (h : Heap) (it : Item) (x : Option Bytes)
        → Owned ((p, t) ∷ blocks es) h₀.strings h.strings
        → Filled (some p) (some null) h
        → Valued a p t
            (decode x it.value_needs_unescaping)
            (append_value a (length es) (record it { value = x }) (params (length es)) h)
    unfolding append_value
    append_value-Valued h it none o f = absent-Valued h o f
    append_value-Valued h it (some s) o f = elim (Bool-cases (length s == 0)) [
      | inl e ↦ rw e (absent-Valued h o f)
      | inr e ↦ present-Valued h it s e o f
    ]

  key_stored :
      (a : Allocator) (it : Item) (p : Ptr) (t : Text) {r : Run ℤ}
      → IsText t it.key
      → Valued a p t (decode it.value it.value_needs_unescaping) r
      → Appended a h₀ es room it (and_then r (λ code. pure (code, params (length es + 1))))
  key_stored a it p t text (valued w x held is e) =
      appended (record { key_at = p; key_text = t; value = w }) held text is e
  key_stored a it p t text (bad_value d e) = bad_escape d e
  key_stored a it p t text (no_value d why) = exhausted d why

  -- The whole append behind `es`.
  pub append_entry-Appended :
      (a : Allocator) (h : Heap) (it : Item)
      → Owned (blocks es) h₀.strings h.strings
      → Filled (some null) (some null) h
      → Appended a h₀ es room it (append_entry a it (params (length es)) h)
  unfolding append_entry
  append_entry-Appended a h it o f = elim (alloc_string-Outcome a h (1 + length it.key) k_tag) [
    | refused run why ↦
        let (g, written, f') =
          write_slot-Owned (tick h) k (length es) null (map key_slot es) (nulls room) (some null)
            (length-map key_slot es) f in
        rw (run, written)
          (exhausted
            (delete-Restored (nulls (suc room)) (nulls (suc room))
              (record { strings = o; arrays = f'; entries = refl }))
            why)
    | granted p run ne unused ↦
        let h₁ : Heap = with_string h (1 + length it.key) p in
        let (g, written, f') =
          write_slot-Owned h₁ k (length es) p (map key_slot es) (nulls room) (some null)
            (length-map key_slot es) f in
        let h₂ : Heap = record h₁ { arrays = g } in
        let (s, copied, o') =
          write_string-Owned h₂ p (it.key ++ 0 ∷ []) _
            (omega (arith, length-append {0} it.key (0 ∷ []))) (Owned-cons p _ o unused.0 ne) in
        rw (run, written, ≢→== p null ne, copied)
          (key_stored a it p _ refl
            (append_value-Valued a p _ (record h₂ { strings = s }) it it.value o' f'))
  ]

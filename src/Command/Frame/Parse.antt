-- ===== src/Command/Frame/Parse.antt =====
-- CPParseCommandParameters and CPDelete, and the lists of the module registry.
use nxdk_dyndxt.Base.{
  ℕ, zero, suc, ◌+◌, ◌-◌, ◌*◌, ◌%◌, ◌^◌, ◌≡◌, refl, inl, inr, Bool, true, false, none, some, [],
  ◌∷◌, ◌++◌, Bytes, ◌==◌, leb, Bool-cases, ℤ, length, Option,
}
use nxdk_dyndxt.Pool.{Ptr, null, Heap, Allocator}
use nxdk_dyndxt.Command.{CommandParameters, k_tag, zeroed, default_reserve_size}
use nxdk_dyndxt.Command.Scan.Cases.{found, bad_key, no_quote, beyond, scan_cases}
use nxdk_dyndxt.Command.Scan.{Item, deref, scan, first_non_space}
use nxdk_dyndxt.Command.Storage.{
  free_entry, delete_loop, free_slots, delete, move_slots, clear_slots, reserve_values, reserve,
  unescape, fill_unescaped, fill_value, append_value, append_entry, append,
}
use nxdk_dyndxt.Command.Parse.{is_zero, give_up, parse_loop, parse_into}
use nxdk_dyndxt.Command.Frame.{
  Lists, lists, Kept, kept, faulted, cut_off, Kept-bind, alloc_string-Kept, alloc_array-Kept,
  free_string-Kept, free_array-Kept, write_string-Kept, write_slot-Kept, read_slot-Kept,
  copy_slots-Kept,
}

module _ {b : Lists} where
  free_entry-Kept : (array : Ptr) (i : ℕ) (h : Heap) → lists h ≡ b → Kept b (free_entry array i h)
  unfolding free_entry
  free_entry-Kept array i h e = elim (Bool-cases (array == null)) [
    | inl y ↦ rw y (kept tt h e)
    | inr y ↦ rw y (
        Kept-bind (read_slot-Kept h e array i) (λ q h' e'. (elim (Bool-cases (q == null)) [
          | inl z ↦ rw z (kept tt h' e')
          | inr z ↦ rw z (free_string-Kept h' e' q)
        ])))
  ]

  delete_loop-Kept :
      (n i : ℕ) (cp : CommandParameters) (h : Heap) → lists h ≡ b → Kept b (delete_loop n i cp h)
  unfolding delete_loop
  delete_loop-Kept zero i cp h e = kept tt h e
  delete_loop-Kept (suc n) i cp h e = Kept-bind (free_entry-Kept cp.keys i h e) (λ _ h₁ e₁.
      Kept-bind (free_entry-Kept cp.values i h₁ e₁)
        (λ _ h₂ e₂. delete_loop-Kept n (i + 1) cp h₂ e₂))

  free_slots-Kept : (array : Ptr) (h : Heap) → lists h ≡ b → Kept b (free_slots array h)
  unfolding free_slots
  free_slots-Kept array h e = elim (Bool-cases (array == null)) [
    | inl y ↦ rw y (kept tt h e)
    | inr y ↦ rw y (free_array-Kept h e array)
  ]

  pub delete-Kept : (cp : CommandParameters) (h : Heap) → lists h ≡ b → Kept b (delete cp h)
  unfolding delete
  delete-Kept cp h e = Kept-bind (delete_loop-Kept cp.entries 0 cp h e) (λ _ h₁ e₁.
      Kept-bind (free_slots-Kept cp.keys h₁ e₁)
        (λ _ h₂ e₂. Kept-bind (free_slots-Kept cp.values h₂ e₂) (λ _ h₃ e₃. kept _ h₃ e₃)))

  move_slots-Kept :
      (dst src : Ptr) (n : ℕ) (h : Heap) → lists h ≡ b → Kept b (move_slots dst src n h)
  unfolding move_slots
  move_slots-Kept dst src n h e = elim (Bool-cases (src == null)) [
    | inl y ↦ rw y (kept tt h e)
    | inr y ↦
        rw y (Kept-bind (copy_slots-Kept h e dst src n) (λ _ h₁ e₁. free_array-Kept h₁ e₁ src))
  ]

  clear_slots-Kept :
      (n i : ℕ) (cp : CommandParameters) (h : Heap) → lists h ≡ b → Kept b (clear_slots n i cp h)
  unfolding clear_slots
  clear_slots-Kept zero i cp h e = kept tt h e
  clear_slots-Kept (suc n) i cp h e = Kept-bind (write_slot-Kept h e cp.keys i null) (λ _ h₁ e₁.
      Kept-bind (write_slot-Kept h₁ e₁ cp.values i null)
        (λ _ h₂ e₂. clear_slots-Kept n (i + 1) cp h₂ e₂))

  module _ (a : Allocator) where
    reserve_values-Kept :
        (n : ℕ) (cp : CommandParameters) (h : Heap) → lists h ≡ b → Kept b (reserve_values a n cp h)
    unfolding reserve_values
    reserve_values-Kept n cp h e =
        Kept-bind (alloc_array-Kept h e a ((4 * n) % 2 ^ 32) k_tag) (λ p h₁ e₁.
          (elim (Bool-cases (p == null)) [
            | inl y ↦ rw y (kept _ h₁ e₁)
            | inr y ↦ rw y (
                Kept-bind (move_slots-Kept p cp.values cp.entries h₁ e₁) (λ _ h₂ e₂.
                  Kept-bind
                    (clear_slots-Kept (n - cp.entries) cp.entries (record cp { values = p }) h₂ e₂)
                    (λ _ h₃ e₃. kept _ h₃ e₃)))
          ]))

    reserve-Kept :
        (n : ℕ) (cp : CommandParameters) (h : Heap) → lists h ≡ b → Kept b (reserve a n cp h)
    unfolding reserve
    reserve-Kept n cp h e = Kept-bind (alloc_array-Kept h e a ((4 * n) % 2 ^ 32) k_tag) (λ p h₁ e₁.
        (elim (Bool-cases (p == null)) [
          | inl y ↦ rw y (kept _ h₁ e₁)
          | inr y ↦ rw y (
              Kept-bind (move_slots-Kept p cp.keys cp.entries h₁ e₁)
                (λ _ h₂ e₂. reserve_values-Kept n (record cp { keys = p }) h₂ e₂))
        ]))

  fill_unescaped-Kept :
      (p : Ptr) (s : Bytes × Bool) (h : Heap) → lists h ≡ b → Kept b (fill_unescaped p s h)
  unfolding fill_unescaped
  fill_unescaped-Kept p (written, true) h e =
      Kept-bind (write_string-Kept h e p (written ++ 0 ∷ [])) (λ _ h₁ e₁. kept _ h₁ e₁)
  fill_unescaped-Kept p (written, false) h e =
      Kept-bind (write_string-Kept h e p written) (λ _ h₁ e₁. kept _ h₁ e₁)

  fill_value-Kept :
      (p : Ptr) (value : Bytes) (escaped : Bool) (h : Heap)
      → lists h ≡ b
      → Kept b (fill_value p value escaped h)
  unfolding fill_value
  fill_value-Kept p value true h e = fill_unescaped-Kept p (unescape value) h e
  fill_value-Kept p value false h e =
      Kept-bind (write_string-Kept h e p (value ++ 0 ∷ [])) (λ _ h₁ e₁. kept _ h₁ e₁)

  module _ (a : Allocator) where
    value-Kept :
        (value : Option Bytes) (index : ℕ) (it : Item) (cp : CommandParameters) (h : Heap)
        → it.value ≡ value
        → lists h ≡ b
        → Kept b (append_value a index it cp h)
    unfolding append_value
    value-Kept none index it cp h is e = rw is (kept _ h e)
    value-Kept (some value) index it cp h is e = elim (Bool-cases (length value == 0)) [
      | inl y ↦ rw (is, y) (kept _ h e)
      | inr y ↦
          rw (is, y)
            (Kept-bind (alloc_string-Kept h e a (1 + length value) k_tag) (λ p h₁ e₁.
              Kept-bind (write_slot-Kept h₁ e₁ cp.values index p) (λ _ h₂ e₂.
                (elim (Bool-cases (p == null)) [
                  | inl z ↦ rw z (kept _ h₂ e₂)
                  | inr z ↦ rw z (fill_value-Kept p value it.value_needs_unescaping h₂ e₂)
                ]))))
    ]

    append_entry-Kept :
        (it : Item) (cp : CommandParameters) (h : Heap)
        → lists h ≡ b
        → Kept b (append_entry a it cp h)
    unfolding append_entry
    append_entry-Kept it cp h e =
        Kept-bind (alloc_string-Kept h e a (1 + length it.key) k_tag) (λ p h₁ e₁.
          Kept-bind (write_slot-Kept h₁ e₁ cp.keys cp.entries p) (λ _ h₂ e₂.
            (elim (Bool-cases (p == null)) [
              | inl y ↦ rw y (kept _ h₂ e₂)
              | inr y ↦ rw y (
                  Kept-bind (write_string-Kept h₂ e₂ p (it.key ++ 0 ∷ [])) (λ _ h₃ e₃.
                    Kept-bind (value-Kept it.value cp.entries it cp h₃ refl e₃)
                      (λ c h₄ e₄. kept _ h₄ e₄)))
            ])))

    append-Kept :
        (n : ℕ) (it : Item) (cp : CommandParameters) (h : Heap)
        → lists h ≡ b
        → Kept b (append a n it cp h)
    unfolding append
    append-Kept n it cp h e = elim (Bool-cases (cp.entries == n)) [
      | inl y ↦ elim (Bool-cases (leb (2 ^ 31) (n * 2))) [
        | inl z ↦ rw (y, z) faulted
        | inr z ↦
            rw (y, z)
              (Kept-bind (reserve-Kept a (n * 2) cp h e) (λ (done, cp') h₁ e₁.
                (elim (Bool-cases done) [
                  | inl u ↦
                      rw u (Kept-bind (append_entry-Kept it cp' h₁ e₁) (λ _ h₂ e₂. kept _ h₂ e₂))
                  | inr u ↦ rw u (kept _ h₁ e₁)
                ])))
      ]
      | inr y ↦ rw y (Kept-bind (append_entry-Kept it cp h e) (λ _ h₁ e₁. kept _ h₁ e₁))
    ]

    give_up-Kept :
        (code : ℤ) (cp : CommandParameters) (h : Heap) → lists h ≡ b → Kept b (give_up code cp h)
    unfolding give_up
    give_up-Kept code cp h e = Kept-bind (delete-Kept cp h e) (λ _ h₁ e₁. kept _ h₁ e₁)

    parse_loop-Kept :
        (f n : ℕ) (s : Bytes) (cp : CommandParameters) (h : Heap)
        → lists h ≡ b
        → Kept b (parse_loop a f n s cp h)
    unfolding parse_loop
    parse_loop-Kept zero n s cp h e = cut_off
    parse_loop-Kept (suc f) n s cp h e = elim (Bool-cases (deref s == 0)) [
      | inl y ↦ rw (y, parse_loop) (kept _ h e)
      | inr y ↦ elim (scan_cases (scan s)) [
        | bad_key z ↦ rw (y, parse_loop, z) (give_up-Kept _ cp h e)
        | no_quote z ↦ rw (y, parse_loop, z) (give_up-Kept _ cp h e)
        | beyond z ↦ rw (y, parse_loop, z) faulted
        | found it z ↦
            rw (y, parse_loop, z)
              (Kept-bind (append-Kept n it cp h e) (λ (code, n', cp') h₁ e₁.
                (elim (Bool-cases (is_zero code)) [
                  | inl u ↦ rw u (parse_loop-Kept f n' (first_non_space it.entry_end) cp' h₁ e₁)
                  | inr u ↦ rw u (give_up-Kept code cp' h₁ e₁)
                ])))
      ]
    ]

    pub parse_into-Kept : (s : Bytes) (h : Heap) → lists h ≡ b → Kept b (parse_into a (some s) h)
    unfolding parse_into
    parse_into-Kept s h e =
        Kept-bind (reserve-Kept a default_reserve_size zeroed h e) (λ (done, cp) h₁ e₁.
          (elim (Bool-cases done) [
            | inl y ↦ rw y (elim (Bool-cases (deref (first_non_space s) == 0)) [
              | inl z ↦ rw z (give_up-Kept _ cp h₁ e₁)
              | inr z ↦ rw z (
                  parse_loop-Kept (length (first_non_space s) + 1) default_reserve_size
                    (first_non_space s) cp h₁ e₁)
            ])
            | inr y ↦ rw y (give_up-Kept _ cp h₁ e₁)
          ]))

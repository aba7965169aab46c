-- ===== src/Loader/Kept/Relocate.antt =====
-- DLLRelocate as such a step.
use nxdk_dyndxt.Base.{ℕ, zero, suc, ◌≡◌, inl, inr, ◌==◌, ltb, ◌+◌, ◌^◌, ◌%◌, ◌/◌, Bool-cases, not}
use nxdk_dyndxt.Loader.Types.{ok, State, no_relocation_data}
use nxdk_dyndxt.Loader.Relocate.{
  add_to_word, relocate_entry, relocate_entries, relocate_blocks, set_base, dll_relocate,
  image_delta,
}
use nxdk_dyndxt.Loader.Kept.{
  Blocks, blocks, Kept, went_on, gave_up, cut_off, Kept-bind, check-Kept, read_word16-Kept,
  read_word32-Kept, write_word32-Kept,
}

module _ {b : Blocks} where
  relocate_entry-Kept :
      (delta dest entry : ℕ) (s : State)
      → blocks s ≡ b
      → s.output.status ≡ ok
      → Kept b (relocate_entry delta dest entry s)
  unfolding relocate_entry add_to_word
  relocate_entry-Kept delta dest entry s e g = elim (Bool-cases (entry / 2 ^ 12 == 0)) [
    | inl y ↦ rw y (went_on tt s e g)
    | inr y ↦ elim (Bool-cases (entry / 2 ^ 12 == 3)) [
      | inl z ↦
          rw (y, z)
            (Kept-bind (read_word32-Kept s e g s.output.memory (dest + entry % 2 ^ 12))
              λ w s₁ e₁ g₁.
                write_word32-Kept s₁ e₁ g₁ (dest + entry % 2 ^ 12) ((w + delta) % 2 ^ 32))
      | inr z ↦ rw (y, z) (gave_up _ e (λ p. cc))
    ]
  ]

  relocate_entries-Kept :
      (f delta dest entry end : ℕ) (s : State)
      → blocks s ≡ b
      → s.output.status ≡ ok
      → Kept b (relocate_entries f delta dest entry end s)
  unfolding relocate_entries
  relocate_entries-Kept zero delta dest entry end s e g = cut_off
  relocate_entries-Kept (suc f) delta dest entry end s e g = elim (Bool-cases (ltb entry end)) [
    | inr y ↦ rw y (went_on tt s e g)
    | inl y ↦ rw y (
        Kept-bind (read_word16-Kept s e g s.output.memory entry) λ v s₁ e₁ g₁.
          Kept-bind (relocate_entry-Kept delta dest v s₁ e₁ g₁)
            λ _ s₂ e₂ g₂. relocate_entries-Kept f delta dest (entry + 2) end s₂ e₂ g₂)
  ]

  relocate_blocks-Kept :
      (f inner delta start : ℕ) (s : State)
      → blocks s ≡ b
      → s.output.status ≡ ok
      → Kept b (relocate_blocks f inner delta start s)
  unfolding relocate_blocks
  relocate_blocks-Kept zero inner delta start s e g = cut_off
  relocate_blocks-Kept (suc f) inner delta start s e g =
      Kept-bind (read_word32-Kept s e g s.output.memory start) λ dest s₁ e₁ g₁.
        elim (Bool-cases (dest == 0)) [
          | inl y ↦ rw y (went_on tt s₁ e₁ g₁)
          | inr y ↦ rw y (
              Kept-bind (read_word32-Kept s₁ e₁ g₁ s.output.memory (start + 4)) λ size s₂ e₂ g₂.
                Kept-bind
                  (relocate_entries-Kept inner delta dest (start + 4) (start + size) s₂ e₂ g₂)
                  λ _ s₃ e₃ g₃. relocate_blocks-Kept f inner delta (start + size) s₃ e₃ g₃)
        ]

  pub dll_relocate-Kept :
      (f new_base : ℕ) (s : State)
      → blocks s ≡ b
      → s.output.status ≡ ok
      → Kept b (dll_relocate f new_base s)
  unfolding dll_relocate set_base
  dll_relocate-Kept f new_base s e g = elim (Bool-cases (new_base == s.output.header.image_base)) [
    | inl y ↦ rw y (went_on tt _ e g)
    | inr y ↦ rw y (
        Kept-bind
          (check-Kept _ e g (not (s.output.header.basereloc_directory.size == 0)) no_relocation_data
            (λ p. cc))
          λ _ s₁ e₁ g₁.
            Kept-bind
              (relocate_blocks-Kept f f (image_delta new_base s.output.header.image_base)
                s.output.header.basereloc_directory.virtual_address s₁ e₁ g₁)
              λ _ s₂ e₂ g₂. went_on tt _ e₂ g₂)
  ]

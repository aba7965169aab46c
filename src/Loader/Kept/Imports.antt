-- ===== src/Loader/Kept/Imports.antt =====
-- DLLResolveImports as such a step.
use nxdk_dyndxt.Base.{
  ℕ, zero, suc, ◌≡◌, inl, inr, Bytes, ◌==◌, leb, ◌+◌, ◌^◌, ◌%◌, Bool-cases, if◌then◌else◌,
}
use nxdk_dyndxt.Loader.Types.{
  Resolution, resolved, not_found, lost, endless, ok, DllLoaderInput, State,
  dll_forwarding_not_supported,
}
use nxdk_dyndxt.Loader.Imports.{
  ordinal_text, name_text, resolve_thunk, resolve_thunks, store_resolution, resolve_descriptor,
  resolve_descriptors, dll_resolve_imports,
}
use nxdk_dyndxt.Loader.Kept.{
  Blocks, blocks, Kept, went_on, faulted, cut_off, Kept-bind, check-Kept, read_word32-Kept,
  write_word32-Kept, read_string-Kept, unresolved-Kept,
}

store_resolution-Kept :
    {b : Blocks} (s : State)
    → blocks s ≡ b
    → s.output.status ≡ ok
    → (function : ℕ) (text : Bytes) (r : Resolution) → Kept b (store_resolution function text r s)
unfolding store_resolution
store_resolution-Kept s e g function text (resolved a) = write_word32-Kept s e g function a
store_resolution-Kept s e g function text not_found = unresolved-Kept s e g text
store_resolution-Kept s e g function text lost = faulted
store_resolution-Kept s e g function text endless = cut_off

module _ (i : DllLoaderInput) {b : Blocks} where
  resolve_thunk-Kept :
      (name thunk function : ℕ) (s : State)
      → blocks s ≡ b
      → s.output.status ≡ ok
      → Kept b (resolve_thunk i name thunk function s)
  unfolding resolve_thunk
  resolve_thunk-Kept name thunk function s e g = elim (Bool-cases (leb (2 ^ 31) thunk)) [
    | inl y ↦ rw y (
        Kept-bind (read_string-Kept s e g s.output.memory name) λ image s₁ e₁ g₁.
          store_resolution-Kept s₁ e₁ g₁ function (ordinal_text image (thunk % 2 ^ 16))
            (i.resolve_import_by_ordinal image (thunk % 2 ^ 16)))
    | inr y ↦ rw y (
        Kept-bind (read_string-Kept s e g s.output.memory name) λ image s₁ e₁ g₁.
          Kept-bind (read_string-Kept s₁ e₁ g₁ s.output.memory (thunk + 2)) λ import s₂ e₂ g₂.
            store_resolution-Kept s₂ e₂ g₂ function (name_text image import)
              (i.resolve_import_by_name image import))
  ]

  resolve_thunks-Kept :
      (f name thunk function : ℕ) (s : State)
      → blocks s ≡ b
      → s.output.status ≡ ok
      → Kept b (resolve_thunks i f name thunk function s)
  unfolding resolve_thunks
  resolve_thunks-Kept zero name thunk function s e g = cut_off
  resolve_thunks-Kept (suc f) name thunk function s e g =
      Kept-bind (read_word32-Kept s e g s.output.memory thunk) λ v s₁ e₁ g₁.
        elim (Bool-cases (v == 0)) [
          | inl y ↦ rw y (went_on tt s₁ e₁ g₁)
          | inr y ↦ rw y (
              Kept-bind (resolve_thunk-Kept name v function s₁ e₁ g₁)
                λ _ s₂ e₂ g₂. resolve_thunks-Kept f name (thunk + 4) (function + 4) s₂ e₂ g₂)
        ]

  resolve_descriptor-Kept :
      (f descriptor name : ℕ) (s : State)
      → blocks s ≡ b
      → s.output.status ≡ ok
      → Kept b (resolve_descriptor i f descriptor name s)
  unfolding resolve_descriptor
  resolve_descriptor-Kept f d name s e g =
      Kept-bind (read_word32-Kept s e g s.output.memory (d + 8)) λ v s₁ e₁ g₁.
        Kept-bind (check-Kept s₁ e₁ g₁ (v == 0) dll_forwarding_not_supported (λ p. cc))
          λ _ s₂ e₂ g₂.
            Kept-bind (read_word32-Kept s₂ e₂ g₂ s.output.memory (d + 16)) λ function s₃ e₃ g₃.
              Kept-bind (read_word32-Kept s₃ e₃ g₃ s.output.memory d) λ original s₄ e₄ g₄.
                resolve_thunks-Kept f name (if original == 0 then function else original) function
                  s₄ e₄ g₄

  resolve_descriptors-Kept :
      (f inner descriptor : ℕ) (s : State)
      → blocks s ≡ b
      → s.output.status ≡ ok
      → Kept b (resolve_descriptors i f inner descriptor s)
  unfolding resolve_descriptors
  resolve_descriptors-Kept zero inner d s e g = cut_off
  resolve_descriptors-Kept (suc f) inner d s e g =
      Kept-bind (read_word32-Kept s e g s.output.memory (d + 12)) λ v s₁ e₁ g₁.
        elim (Bool-cases (v == 0)) [
          | inl y ↦ rw y (went_on tt s₁ e₁ g₁)
          | inr y ↦ rw y (
              Kept-bind (resolve_descriptor-Kept inner d v s₁ e₁ g₁)
                λ _ s₂ e₂ g₂. resolve_descriptors-Kept f inner (d + 20) s₂ e₂ g₂)
        ]

  pub dll_resolve_imports-Kept :
      (f : ℕ) (s : State) → blocks s ≡ b → s.output.status ≡ ok → Kept b (dll_resolve_imports i f s)
  unfolding dll_resolve_imports
  dll_resolve_imports-Kept f s e g =
      elim (Bool-cases (s.output.header.import_directory.size == 0)) [
        | inl y ↦ rw y (went_on tt _ e g)
        | inr y ↦
            rw y
              (resolve_descriptors-Kept f f s.output.header.import_directory.virtual_address _ e g)
      ]

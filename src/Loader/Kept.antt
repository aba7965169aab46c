-- ===== src/Loader/Kept.antt =====
-- Steps of the loader that neither allocate nor free, and report every failure by a status.
pub mod Imports
pub mod Relocate
use Prim.Native.Nat.{bit_and}
use nxdk_dyndxt.Base.{
  ℕ, zero, suc, ◌≡◌, ◌≢◌, inl, inr, Bool, true, false, ◌||◌, List, [], ◌∷◌, Bytes, ◌==◌, ltb, leb,
  ◌+◌, ◌-◌, ◌*◌, ◌^◌, ◌%◌, ◌/◌, Bool-cases, Option-cases, if◌then◌else◌, not,
}
use nxdk_dyndxt.Pool.{Ptr}
use nxdk_dyndxt.Loader.Types.{
  Resolution, resolved, not_found, lost, endless, DllLoaderStatus, ok, Memory, ImageNtHeaders,
  ImageSectionHeader, DllLoaderInput, State, invalid_signature, wrong_machine_type, fixed_base,
  dll_forwarding_not_supported, no_relocation_data,
}
use nxdk_dyndxt.Loader.Run.{
  Run, M, returned, failed, fault, out_of_fuel, and_then, check, read_word16, read_word32,
  write_word32, copy_to_image,
}
use nxdk_dyndxt.Loader.Parse.{
  advance_read_ptr, advance_past, read_nt_headers, read_section_headers, check_header,
  process_section, process_section_list,
}
use nxdk_dyndxt.Loader.Imports.{
  string_at, read_string, unresolved, ordinal_text, name_text, resolve_thunk, resolve_thunks,
  store_resolution, resolve_descriptor, resolve_descriptors, dll_resolve_imports,
}
use nxdk_dyndxt.Loader.Relocate.{
  add_to_word, relocate_entry, relocate_entries, relocate_blocks, set_base, dll_relocate,
  image_delta,
}

abbrev pub Blocks : Type 0
Blocks = List Ptr × Ptr × Ptr

-- The blocks that are allocated, and the two that the output points to
abbrev pub blocks : State → Blocks
blocks s = (s.live, s.output.image, s.output.section_headers)

pub data Kept (b : Blocks) {A : Type 0} : Run A → Type 0 where
  went_on : (a : A) (s : State) → blocks s ≡ b → s.output.status ≡ ok → Kept b (returned a s)
  gave_up : (s : State) → blocks s ≡ b → s.output.status ≢ ok → Kept b (failed s)
  faulted : Kept b fault
  cut_off : Kept b out_of_fuel

pub Kept-bind :
    {b : Blocks} {A B : Type 0} {r : Run A} {f : A → M B}
    → Kept b r
    → ((a : A) (s : State) → blocks s ≡ b → s.output.status ≡ ok → Kept b (f a s))
    → Kept b (and_then r f)
Kept-bind (went_on a s e g) k = k a s e g
Kept-bind (gave_up s e g) k = gave_up s e g
Kept-bind faulted k = faulted
Kept-bind cut_off k = cut_off

module _ {b : Blocks} (s : State) (e : blocks s ≡ b) (g : s.output.status ≡ ok) where
  pub check-Kept : (t : Bool) (c : DllLoaderStatus) → c ≢ ok → Kept b (check t c s)
  check-Kept true c ne = went_on tt s e g
  check-Kept false c ne = gave_up _ e ne

  pub advance_read_ptr-Kept : (i : DllLoaderInput) (p n : ℕ) → Kept b (advance_read_ptr i p n s)
  unfolding advance_read_ptr
  advance_read_ptr-Kept i p n =
      elim (Bool-cases
        (ltb ((i.raw_data + i.raw.size) % 2 ^ 32) ((i.raw_data + (p + n) % 2 ^ 32) % 2 ^ 32))) [
          | inl y ↦ rw y (gave_up _ e (λ h. cc))
          | inr y ↦ rw y (went_on ((p + n) % 2 ^ 32) s e g)
        ]

  pub advance_past-Kept : (i : DllLoaderInput) (p m n : ℕ) → Kept b (advance_past i p m n s)
  unfolding advance_past
  advance_past-Kept i p m n = elim (Bool-cases (ltb n m)) [
    | inl y ↦ rw y (advance_read_ptr-Kept i p (m - n))
    | inr y ↦ rw y (went_on p s e g)
  ]

  pub read_word16-Kept : (m : Memory) (a : ℕ) → Kept b (read_word16 m a s)
  unfolding read_word16
  read_word16-Kept m a = elim (Bool-cases (ltb m.size (a + 2))) [
    | inl y ↦ rw y faulted
    | inr y ↦ rw y (went_on _ s e g)
  ]

  pub read_word32-Kept : (m : Memory) (a : ℕ) → Kept b (read_word32 m a s)
  unfolding read_word32
  read_word32-Kept m a = elim (Bool-cases (ltb m.size (a + 4))) [
    | inl y ↦ rw y faulted
    | inr y ↦ rw y (went_on _ s e g)
  ]

  pub write_word32-Kept : (a w : ℕ) → Kept b (write_word32 a w s)
  unfolding write_word32
  write_word32-Kept a w = elim (Bool-cases (ltb s.output.memory.size (a + 4))) [
    | inl y ↦ rw y faulted
    | inr y ↦ rw y (went_on tt _ e g)
  ]

  pub read_nt_headers-Kept : (m : Memory) (a : ℕ) → Kept b (read_nt_headers m a s)
  unfolding read_nt_headers
  read_nt_headers-Kept m a = elim (Bool-cases (ltb m.size (a + 248))) [
    | inl y ↦ rw y faulted
    | inr y ↦ rw y (went_on _ s e g)
  ]

  pub read_section_headers-Kept : (m : Memory) (a n : ℕ) → Kept b (read_section_headers m a n s)
  unfolding read_section_headers
  read_section_headers-Kept m a n = elim (Bool-cases (ltb m.size (a + n * 40))) [
    | inl y ↦ rw y faulted
    | inr y ↦ rw y (went_on _ s e g)
  ]

  pub copy_to_image-Kept : (d : ℕ) (m : Memory) (a n : ℕ) → Kept b (copy_to_image d m a n s)
  unfolding copy_to_image
  copy_to_image-Kept d m a n =
      elim (Bool-cases (ltb m.size (a + n) || ltb s.output.memory.size (d + n))) [
        | inl y ↦ rw y faulted
        | inr y ↦ rw y (went_on tt _ e g)
      ]

  pub read_string-Kept : (m : Memory) (a : ℕ) → Kept b (read_string m a s)
  unfolding read_string
  read_string-Kept m a = elim (Option-cases (string_at m.byte (m.size - a) a)) [
    | inl y ↦ rw (y, read_string) faulted
    | inr (t, y) ↦ rw (y, read_string) (went_on t s e g)
  ]

  pub unresolved-Kept : (t : Bytes) → Kept b (unresolved t s)
  unfolding unresolved
  unresolved-Kept t = gave_up _ e (λ h. cc)

pub check_header-Kept :
    {b : Blocks} (h : ImageNtHeaders) (s : State)
    → blocks s ≡ b
    → s.output.status ≡ ok
    → Kept b (check_header h s)
unfolding check_header
check_header-Kept h s e g =
    Kept-bind (check-Kept s e g (h.signature == 0x4550) invalid_signature (λ p. cc)) λ _ s₁ e₁ g₁.
      Kept-bind (check-Kept s₁ e₁ g₁ (h.machine == 0x14c) wrong_machine_type (λ p. cc))
        λ _ s₂ e₂ g₂.
          check-Kept s₂ e₂ g₂ (not (bit_and h.dll_characteristics 0x40 == 0)) fixed_base (λ p. cc)

module _ (i : DllLoaderInput) {b : Blocks} where
  pub process_section-Kept :
      (x : ImageSectionHeader) (s : State)
      → blocks s ≡ b
      → s.output.status ≡ ok
      → Kept b (process_section i x s)
  unfolding process_section
  process_section-Kept x s e g = elim (Bool-cases (x.size_of_raw_data == 0)) [
    | inl y ↦ rw y (went_on tt _ e g)
    | inr y ↦ rw y (
        Kept-bind (advance_read_ptr-Kept _ e g i 0 x.pointer_to_raw_data) λ p s₁ e₁ g₁.
          Kept-bind (advance_read_ptr-Kept s₁ e₁ g₁ i p x.size_of_raw_data)
            λ q s₂ e₂ g₂. copy_to_image-Kept s₂ e₂ g₂ x.virtual_address i.raw p x.size_of_raw_data)
  ]

  pub process_section_list-Kept :
      (xs : List ImageSectionHeader) (s : State)
      → blocks s ≡ b
      → s.output.status ≡ ok
      → Kept b (process_section_list i xs s)
  unfolding process_section_list
  process_section_list-Kept [] s e g = went_on tt s e g
  process_section_list-Kept (x ∷ xs) s e g =
      Kept-bind (process_section-Kept x s e g) λ _ s₁ e₁ g₁. process_section_list-Kept xs s₁ e₁ g₁

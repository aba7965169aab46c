-- ===== src/Loader/Parse/Inside.antt =====
-- Where DLLParseHeader, DLLLoadImage and DLLProcessSections read and write.
use Prim.Native.Nat.{bit_and}
use nxdk_dyndxt.Base.{
  ℕ, ◌+◌, ◌-◌, ◌*◌, ◌%◌, ◌^◌, ◌≤◌, ◌<◌, ◌≡◌, refl, inl, inr, Bool, true, false, not, ◌||◌, arith,
  ◌==◌, ltb, Bool-cases,
}
use nxdk_dyndxt.Pool.{null}
use nxdk_dyndxt.Loader.Types.{
  Memory, DllLoaderStatus, invalid_signature, wrong_machine_type, fixed_base, ImageNtHeaders,
  DllLoaderInput, State,
}
use nxdk_dyndxt.Loader.Run.{
  Run, M, returned, failed, and_then, check, alloc, read_word16, read_word32, copy_to_image, word16,
  word32,
}
use nxdk_dyndxt.Loader.Parse.{
  advance_read_ptr, advance_past, read_nt_headers, read_section_headers, check_header,
  parse_section_table, parse_header,
}

-- The run stays inside its memory and ends; a value that it returns meets `P`, and the image
-- keeps its size.
pub data Ends (size : ℕ) {A : Type 0} (P : A → Type 0) : Run A → Type 0 where
  well : (a : A) (s : State) → P a → s.output.memory.size ≡ size → Ends size P (returned a s)
  refused : (s : State) → Ends size P (failed s)

Ends-bind :
    {z : ℕ} {A B : Type 0} {P : A → Type 0} {Q : B → Type 0} {r : Run A} {f : A → M B}
    → Ends z P r
    → ((a : A) (s : State) → P a → s.output.memory.size ≡ z → Ends z Q (f a s))
    → Ends z Q (and_then r f)
Ends-bind (well a s p e) k = k a s p e
Ends-bind (refused s) k = refused s

Ends-weaken :
    {z : ℕ} {A : Type 0} {P Q : A → Type 0} {r : Run A}
    → ((a : A) → P a → Q a)
    → Ends z P r
    → Ends z Q r
Ends-weaken f (well a s p e) = well a s (f a p) e
Ends-weaken f (refused s) = refused s

abbrev Any : {A : Type 0} → A → Type 0
Any a = Unit

module _ {z : ℕ} (s : State) (e : s.output.memory.size ≡ z) where
  check-Ends : (t : Bool) (c : DllLoaderStatus) → Ends z (λ _. t ≡ true) (check t c s)
  check-Ends true c = well tt s refl e
  check-Ends false c = refused _

  -- where the pointer does not wrap around
  advance_read_ptr-Ends :
      (i : DllLoaderInput) (p n : ℕ)
      → i.raw_data + i.raw.size < 2 ^ 32
      → i.raw_data + (p + n) < 2 ^ 32
      → Ends z (λ q. (q ≡ p + n) × (q ≤ i.raw.size)) (advance_read_ptr i p n s)
  unfolding advance_read_ptr
  advance_read_ptr-Ends i p n file next =
      elim (Bool-cases
        (ltb ((i.raw_data + i.raw.size) % 2 ^ 32) ((i.raw_data + (p + n) % 2 ^ 32) % 2 ^ 32))) [
          | inl y ↦ rw y (refused _)
          | inr y ↦ rw y (well ((p + n) % 2 ^ 32) s (omega arith, ground arith) e)
        ]

  advance_past-Ends :
      (i : DllLoaderInput) (p m n : ℕ)
      → i.raw_data + i.raw.size < 2 ^ 32
      → p ≤ i.raw.size
      → i.raw_data + (p + (m - n)) < 2 ^ 32
      → Ends z (λ q. (p ≤ q) × (q ≤ i.raw.size)) (advance_past i p m n s)
  unfolding advance_past
  advance_past-Ends i p m n file l next = elim (Bool-cases (ltb n m)) [
    | inl y ↦ rw y (
        Ends-weaken (λ q r. (omega (arith, r.0), r.1))
          (advance_read_ptr-Ends i p (m - n) file next))
    | inr y ↦ rw y (well p s (omega arith, l) e)
  ]

  read_word16-Ends : (m : Memory) (a : ℕ) → a + 2 ≤ m.size → Ends z Any (read_word16 m a s)
  unfolding read_word16
  read_word16-Ends m a l =
      let inside : ltb m.size (a + 2) ≡ false = ground arith in rw inside (well _ s tt e)

  read_word32-Ends :
      (m : Memory) (a : ℕ) → a + 4 ≤ m.size → Ends z (λ v. v ≡ word32 m.byte a) (read_word32 m a s)
  unfolding read_word32
  read_word32-Ends m a l =
      let inside : ltb m.size (a + 4) ≡ false = ground arith in rw inside (well _ s refl e)

  read_nt_headers-Ends :
      (m : Memory) (a : ℕ)
      → ((q : ℕ) → m.byte q < 256)
      → a + 248 ≤ m.size
      → Ends z
          (λ h. (h.number_of_sections < 2 ^ 16) × (h.size_of_optional_header < 2 ^ 16))
          (read_nt_headers m a s)
  unfolding read_nt_headers
  read_nt_headers-Ends m a bytes l =
      let inside : ltb m.size (a + 248) ≡ false = ground arith in
      let bound : (q : ℕ) → word16 m.byte q < 2 ^ 16 =
        λ q. (let x = bytes q in let y = bytes (q + 1) in omega arith) in
      rw inside (well _ s (bound (a + 6), bound (a + 20)) e)

  read_section_headers-Ends :
      (m : Memory) (a n : ℕ) → a + n * 40 ≤ m.size → Ends z Any (read_section_headers m a n s)
  unfolding read_section_headers
  read_section_headers-Ends m a n l =
      let inside : ltb m.size (a + n * 40) ≡ false = ground arith in rw inside (well _ s tt e)

  copy_to_image-Ends :
      (d : ℕ) (m : Memory) (a n : ℕ)
      → a + n ≤ m.size
      → d + n ≤ z
      → Ends z Any (copy_to_image d m a n s)
  unfolding copy_to_image
  copy_to_image-Ends d m a n l l' =
      let inside : (ltb m.size (a + n) || ltb s.output.memory.size (d + n)) ≡ false =
        ground arith in
      rw inside (well tt _ tt e)

forget : {z : ℕ} {A : Type 0} {P : A → Type 0} {r : Run A} → Ends z P r → Ends z Any r
forget (well a s p e) = well a s tt e
forget (refused s) = refused s

check_header-Ends :
    {z : ℕ} (h : ImageNtHeaders) (s : State)
    → s.output.memory.size ≡ z
    → Ends z Any (check_header h s)
unfolding check_header
check_header-Ends h s e =
    Ends-bind (check-Ends s e (h.signature == 0x4550) invalid_signature) λ _ s₁ p₁ e₁.
      Ends-bind (check-Ends s₁ e₁ (h.machine == 0x14c) wrong_machine_type) λ _ s₂ p₂ e₂.
        forget (check-Ends s₂ e₂ (not (bit_and h.dll_characteristics 0x40 == 0)) fixed_base)

module _ (i : DllLoaderInput) {z : ℕ} where
  section_table-Ends :
      (h : ImageNtHeaders) (p : ℕ) (s : State)
      → i.raw_data + i.raw.size + 2 ^ 22 ≤ 2 ^ 32
      → h.number_of_sections < 2 ^ 16
      → p ≤ i.raw.size
      → s.output.memory.size ≡ z
      → Ends z Any (parse_section_table i h p s)
  unfolding parse_section_table alloc
  section_table-Ends h p s room few l e =
      let n = h.number_of_sections * 40 in
      let q = i.alloc s.calls n in
      elim (Bool-cases (q == null)) [
        | inl y ↦ rw y (refused _)
        | inr y ↦
            rw (y, y)
              (Ends-bind (advance_read_ptr-Ends _ e i p n (omega arith) (omega arith))
                λ eof s₁ p₁ e₁.
                  Ends-bind
                    (read_section_headers-Ends s₁ e₁ i.raw p h.number_of_sections
                      (omega (arith, p₁.0, p₁.1)))
                    λ xs s₂ p₂ e₂. well tt _ tt e₂)
      ]

  -- DLLParseHeader ends without a read outside the file, and leaves the size of the image as it
  -- was, with every allocator, on every file of bytes that ends at least 2 ^ 22 bytes before the end
  -- of the address space, and whose e_lfanew, taken as an unsigned number, does not lead past that
  -- end.
  pub parse_header-Ends :
      (s : State)
      → ((q : ℕ) → i.raw.byte q < 256)
      → i.raw_data + i.raw.size + 2 ^ 22 ≤ 2 ^ 32
      → i.raw_data + word32 i.raw.byte 60 < 2 ^ 32
      → s.output.memory.size ≡ z
      → Ends z (λ _. Unit) (parse_header i s)
  unfolding parse_header
  parse_header-Ends s bytes room next e =
      let file : i.raw_data + i.raw.size < 2 ^ 32 = omega arith in
      Ends-bind (advance_read_ptr-Ends _ e i 0 64 file (omega arith)) λ p s₁ p₁ e₁.
        Ends-bind (read_word16-Ends s₁ e₁ i.raw 0 (omega arith)) λ magic s₂ p₂ e₂.
          Ends-bind (check-Ends s₂ e₂ (magic == 0x5A4D) invalid_signature) λ _ s₃ p₃ e₃.
            Ends-bind (read_word32-Ends s₃ e₃ i.raw 60 (omega arith)) λ lfanew s₄ p₄ e₄.
              Ends-bind (advance_past-Ends s₄ e₄ i p lfanew 64 file p₁.1 (omega arith))
                λ nt s₅ p₅ e₅.
                  Ends-bind (advance_read_ptr-Ends _ e₅ i nt 248 file (omega arith))
                    λ optional_end s₆ p₆ e₆.
                      Ends-bind (read_nt_headers-Ends s₆ e₆ i.raw nt bytes (omega arith))
                        λ h s₇ p₇ e₇. Ends-bind (check_header-Ends h _ e₇) λ _ s₈ p₈ e₈.
                          Ends-bind
                            (advance_past-Ends s₈ e₈ i optional_end h.size_of_optional_header 224
                              file p₆.1 (omega arith))
                            λ table s₉ p₉ e₉. section_table-Ends h table s₉ room p₇.0 p₉.1 e₉

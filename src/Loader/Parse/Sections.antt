-- ===== src/Loader/Parse/Sections.antt =====
-- What DLLLoadImage and DLLProcessSections leave in the image, and where they leave it.
use nxdk_dyndxt.Base.{
  ℕ, ◌+◌, ◌-◌, ◌^◌, ◌≤◌, ◌<◌, ◌≡◌, ◌≢◌, refl, ◌∙◌, inl, inr, ◌⊎◌, Bool, true, false, ◌||◌, ◌&&◌,
  List, [], ◌∷◌, arith, ◌==◌, ltb, leb, Bool-cases, if◌then◌else◌, ≢→==,
}
use nxdk_dyndxt.Pool.{null}
use nxdk_dyndxt.Loader.Types.{load_section, ImageSectionHeader, DllLoaderInput, State}
use nxdk_dyndxt.Loader.Run.{returned, fault, alloc, copy_to_image, put_bytes}
use nxdk_dyndxt.Loader.Parse.Advance.{advance_inside}
use nxdk_dyndxt.Loader.Parse.{dll_load_image, process_section, process_section_list}

-- The image bytes that a section stands on
abbrev pub covers : ImageSectionHeader → ℕ → Bool
covers x j = leb x.virtual_address j && ltb j (x.virtual_address + x.size_of_raw_data)

abbrev pub covered : ℕ → List ImageSectionHeader → Bool
covered j [] = false
covered j (x ∷ xs) = covers x j || covered j xs

-- The section's bytes lie within the file and within the image.
abbrev pub Fits : ℕ → ℕ → ImageSectionHeader → Type 0
Fits file image x =
    (x.pointer_to_raw_data + x.size_of_raw_data ≤ file)
    × (x.virtual_address + x.size_of_raw_data ≤ image)

abbrev pub IsApart : ImageSectionHeader → List ImageSectionHeader → Type 0
IsApart x [] = Unit
IsApart x (y ∷ ys) =
    ((x.virtual_address + x.size_of_raw_data ≤ y.virtual_address)
      ⊎ (y.virtual_address + y.size_of_raw_data ≤ x.virtual_address))
    × IsApart x ys

-- Each section fits, and no two of them overlap in the image.
abbrev pub AreLoadable : ℕ → ℕ → List ImageSectionHeader → Type 0
AreLoadable file image [] = Unit
AreLoadable file image (x ∷ xs) = Fits file image x × IsApart x xs × AreLoadable file image xs

-- Each section's bytes are those of the file.
abbrev pub AreLoaded : (ℕ → ℕ) → (ℕ → ℕ) → List ImageSectionHeader → Type 0
AreLoaded raw image [] = Unit
AreLoaded raw image (x ∷ xs) =
    ((k : ℕ)
      → k < x.size_of_raw_data
      → image (x.virtual_address + k) ≡ raw (x.pointer_to_raw_data + k))
    × AreLoaded raw image xs

apart-covered :
    (x : ImageSectionHeader) (xs : List ImageSectionHeader) (j : ℕ)
    → IsApart x xs
    → covers x j ≡ true
    → covered j xs ≡ false
apart-covered x [] j a c = refl
apart-covered x (y ∷ ys) j (inl a, rest) c = ground (arith, apart-covered x ys j rest c)
apart-covered x (y ∷ ys) j (inr a, rest) c = ground (arith, apart-covered x ys j rest c)

-- The state behind one section
abbrev with_bytes : State → (ℕ → ℕ) → State
with_bytes s f = record s {
  output = record s.output {
    context = load_section;
    memory = record { size = s.output.memory.size; byte = f };
  };
}

section_bytes : (i : DllLoaderInput) → ImageSectionHeader → (ℕ → ℕ) → ℕ → ℕ
section_bytes i x f =
    if x.size_of_raw_data == 0
    then f
    else put_bytes f x.virtual_address i.raw.byte x.pointer_to_raw_data x.size_of_raw_data

zero_add : (n : ℕ) → 0 + n ≡ n
zero_add n = omega arith

process_section-Fits :
    (i : DllLoaderInput) (x : ImageSectionHeader) (s : State)
    → i.raw_data + i.raw.size < 2 ^ 32
    → Fits i.raw.size s.output.memory.size x
    → process_section i x s ≡ returned tt (with_bytes s (section_bytes i x s.output.memory.byte))
unfolding process_section section_bytes copy_to_image
process_section-Fits i x s addressed (l, l') = elim (Bool-cases (x.size_of_raw_data == 0)) [
  | inl y ↦ rw y refl
  | inr y ↦
      let first = advance_inside i 0 x.pointer_to_raw_data addressed (omega arith) in
      let second = advance_inside i x.pointer_to_raw_data x.size_of_raw_data addressed l in
      let room : ltb s.output.memory.size (x.virtual_address + x.size_of_raw_data) ≡ false =
        ground arith in
      let inside : ltb i.raw.size (x.pointer_to_raw_data + x.size_of_raw_data) ≡ false =
        ground arith in
      rw (y, first, zero_add x.pointer_to_raw_data, second, inside, room) refl
]

section_bytes-covered :
    (i : DllLoaderInput) (x : ImageSectionHeader) (f : ℕ → ℕ) (k : ℕ)
    → k < x.size_of_raw_data
    → section_bytes i x f (x.virtual_address + k) ≡ i.raw.byte (x.pointer_to_raw_data + k)
unfolding section_bytes
section_bytes-covered i x f k l =
    let some_bytes : (x.size_of_raw_data == 0) ≡ false = ground arith in
    let above : leb x.virtual_address (x.virtual_address + k) ≡ true = ground arith in
    let below : ltb (x.virtual_address + k) (x.virtual_address + x.size_of_raw_data) ≡ true =
      ground arith in
    let offset : x.virtual_address + k - x.virtual_address ≡ k = omega arith in
    rw (some_bytes, above, below, offset) refl

section_bytes_outside :
    (i : DllLoaderInput) (x : ImageSectionHeader) (f : ℕ → ℕ) (j : ℕ)
    → covers x j ≡ false
    → section_bytes i x f j ≡ f j
unfolding section_bytes
section_bytes_outside i x f j c = elim (Bool-cases (x.size_of_raw_data == 0)) [
  | inl y ↦ rw y refl
  | inr y ↦ elim (Bool-cases (leb x.virtual_address j)) [
    | inl a ↦
        let below : ltb j (x.virtual_address + x.size_of_raw_data) ≡ false = rw a at c in
        rw (y, a, below) refl
    | inr a ↦ rw (y, a) refl
  ]
]

-- For a file within the address space and section headers whose bytes lie within the file and the
-- image, and do not overlap in the image, DLLProcessSections succeeds; then every byte of every section is the file's, and every
-- other byte of the image is as before.
pub process_section_list-AreLoaded :
    (i : DllLoaderInput) (xs : List ImageSectionHeader) (s : State)
    → i.raw_data + i.raw.size < 2 ^ 32
    → AreLoadable i.raw.size s.output.memory.size xs
    → (t : State) × (process_section_list i xs s ≡ returned tt t)
      × (t.output.memory.size ≡ s.output.memory.size)
      × AreLoaded i.raw.byte t.output.memory.byte xs
      × ((j : ℕ) → covered j xs ≡ false → t.output.memory.byte j ≡ s.output.memory.byte j)
unfolding process_section_list
process_section_list-AreLoaded i [] s addressed l = (s, refl, refl, tt, λ j c. refl)
process_section_list-AreLoaded i (x ∷ xs) s addressed (fits, apart, rest) =
    let f = section_bytes i x s.output.memory.byte in
    let (t, run, size, loaded, same) =
      process_section_list-AreLoaded i xs (with_bytes s f) addressed rest in
    (
      t,
      rw (process_section-Fits i x s addressed fits) run,
      size,
      (
        λ k l.
            same (x.virtual_address + k)
              (apart-covered x xs (x.virtual_address + k) apart (ground arith))
            ∙ section_bytes-covered i x s.output.memory.byte k l,
        loaded,
      ),
      λ j c.
          same j (ground arith) ∙ section_bytes_outside i x s.output.memory.byte j (ground arith),
    )

-- For a file within the address space, a section inside it that does not fit into the image makes DLLProcessSections write
-- outside of the image, if it has bytes and stands first.
pub process_section_overrun :
    (i : DllLoaderInput) (x : ImageSectionHeader) (xs : List ImageSectionHeader) (s : State)
    → i.raw_data + i.raw.size < 2 ^ 32
    → x.pointer_to_raw_data + x.size_of_raw_data ≤ i.raw.size
    → 0 < x.size_of_raw_data
    → s.output.memory.size < x.virtual_address + x.size_of_raw_data
    → process_section_list i (x ∷ xs) s ≡ fault
unfolding process_section_list process_section copy_to_image
process_section_overrun i x xs s addressed l some_bytes over =
    let y : (x.size_of_raw_data == 0) ≡ false = ground arith in
    let first = advance_inside i 0 x.pointer_to_raw_data addressed (omega arith) in
    let second = advance_inside i x.pointer_to_raw_data x.size_of_raw_data addressed l in
    let outside : ltb s.output.memory.size (x.virtual_address + x.size_of_raw_data) ≡ true =
      ground arith in
    let inside : ltb i.raw.size (x.pointer_to_raw_data + x.size_of_raw_data) ≡ false =
      ground arith in
    rw (y, first, zero_add x.pointer_to_raw_data, second, inside, outside) refl

-- Headers that end behind the file, but within the image, make DLLLoadImage read outside of the
-- file, if the image is allocated.
pub load_image_overread :
    (i : DllLoaderInput) (s : State)
    → i.alloc s.calls s.output.header.size_of_image ≢ null
    → s.output.header.size_of_headers ≤ s.output.header.size_of_image
    → i.raw.size < s.output.header.size_of_headers
    → dll_load_image i s ≡ fault
unfolding dll_load_image alloc copy_to_image
load_image_overread i s ne l over =
    let y : (i.alloc s.calls s.output.header.size_of_image == null) ≡ false = ≢→== _ null ne in
    let fits : ltb s.output.header.size_of_image s.output.header.size_of_headers ≡ false =
      ground arith in
    let outside : ltb i.raw.size s.output.header.size_of_headers ≡ true = ground arith in
    rw (y, y, fits, copy_to_image, zero_add s.output.header.size_of_headers, outside) refl

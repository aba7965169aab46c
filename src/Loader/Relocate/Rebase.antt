-- ===== src/Loader/Relocate/Rebase.antt =====
-- What DLLRelocate does to an image with a well-formed relocation table.
use mathlib.Core.Path.{fun_ext}
use nxdk_dyndxt.Base.{
  ℕ, ◌+◌, ◌%◌, ◌^◌, ◌≤◌, ◌<◌, ◌≡◌, ◌≢◌, refl, sym, ap, ◌∙◌, inl, inr, List, arith, ltb, Bool-cases,
  length, ≢→==,
}
use nxdk_dyndxt.Loader.Types.{IsBytes, State, relocate}
use nxdk_dyndxt.Loader.Run.{returned, ◌>>◌, word32}
use nxdk_dyndxt.Loader.Relocate.{image_delta, set_base, dll_relocate}
use nxdk_dyndxt.Loader.Relocate.Words.{
  relocated, AreClear, AreApart, IsIn, relocated_outside, relocated_clear, word32-relocated,
  relocated-relocated, relocated-zero,
}
use nxdk_dyndxt.Loader.Relocate.Table.{RelocationBlock, targets, IsTable, AreInside, HasFuel}
use nxdk_dyndxt.Loader.Relocate.Table.Blocks.{IsTable-agree, relocate_blocks-relocated}

-- The image of `s` holds this relocation table, up to `end`; the words that it lists lie in the
-- image, apart from one another and from the table.
pub record IsRelocatable (bs : List RelocationBlock) (end : ℕ) (s : State) : Type 0 where
  pub listed : s.output.header.basereloc_directory.size ≢ 0
  pub table :
      IsTable s.output.memory.byte s.output.header.basereloc_directory.virtual_address end bs
  pub fits : end ≤ s.output.memory.size
  pub clear : AreClear s.output.header.basereloc_directory.virtual_address end (targets bs)
  pub inside : AreInside s.output.memory.size (targets bs)
  pub apart : AreApart (targets bs)
  pub base : s.output.header.image_base < 2 ^ 32

-- The state that DLLRelocate leaves, with these bytes in the image
abbrev pub rebased : ℕ → (ℕ → ℕ) → State → State
rebased new_base f s = record s {
  output = record s.output {
    context = relocate;
    memory = record { size = s.output.memory.size; byte = f };
    header = record s.output.header { image_base = new_base };
    entrypoint = (new_base + s.output.header.address_of_entry_point) % 2 ^ 32;
  };
}

image_delta_adds :
    (new old : ℕ) → new < 2 ^ 32 → old < 2 ^ 32 → (old + image_delta new old) % 2 ^ 32 ≡ new
unfolding image_delta
image_delta_adds new old l l' = elim (Bool-cases (ltb old new)) [
  | inl y ↦ rw y (ground arith)
  | inr y ↦ rw y (ground arith)
]

module _ (f : ℕ) (bs : List RelocationBlock) (end : ℕ) (l : length bs < f)
    (fuel : HasFuel f bs) where
  relocate-rebased :
      (new_base : ℕ) (s : State)
      → IsRelocatable bs end s
      → new_base ≢ s.output.header.image_base
      → dll_relocate f new_base s
        ≡ returned tt (
            rebased new_base
              (relocated
                (image_delta new_base s.output.header.image_base)
                s.output.memory.byte
                (targets bs))
              s)
  unfolding dll_relocate set_base
  relocate-rebased new_base s r ne =
      rw
        (
          ≢→== new_base s.output.header.image_base ne,
          ≢→== s.output.header.basereloc_directory.size 0 r.listed,
          relocate_blocks-relocated f f (image_delta new_base s.output.header.image_base)
              s.output.header.basereloc_directory.virtual_address end bs
              (record s { output = record s.output { context = relocate } }) l fuel r.fits r.table
              r.clear r.inside,
        )
        refl

  rebased-IsRelocatable :
      (new_base delta : ℕ) (s : State)
      → new_base < 2 ^ 32
      → IsRelocatable bs end s
      → IsRelocatable bs end
          (rebased new_base (relocated delta s.output.memory.byte (targets bs)) s)
  rebased-IsRelocatable new_base delta s small r = record {
    listed = r.listed;
    table =
        IsTable-agree s.output.memory.byte (relocated delta s.output.memory.byte (targets bs))
          s.output.header.basereloc_directory.virtual_address end bs
          (λ j p q.
            relocated_clear delta s.output.header.basereloc_directory.virtual_address end
              (targets bs) s.output.memory.byte j r.clear p q)
          r.table;
    fits = r.fits;
    clear = r.clear;
    inside = r.inside;
    apart = r.apart;
    base = small;
  }

  -- If the image holds a well-formed relocation table, which lists words of the image that are
  -- apart from one another and from the table, and the fuel is more than the blocks and than the
  -- entries of each block and two, then DLLRelocate to a base below 2 ^ 32 that is not the image's returns
  -- true; each word that the table lists points as far from the new base as it did from the old
  -- one, modulo 2 ^ 32, every byte outside of these words is as before, and the header and the
  -- entry point are those of the base.
  pub dll_relocate-shifts :
      (new_base : ℕ) (s : State)
      → IsRelocatable bs end s
      → new_base ≢ s.output.header.image_base
      → new_base < 2 ^ 32
      → (t : State) × (dll_relocate f new_base s ≡ returned tt t)
        × ((x : ℕ)
            → IsIn x (targets bs)
            → (word32 t.output.memory.byte x + s.output.header.image_base) % 2 ^ 32
              ≡ (word32 s.output.memory.byte x + new_base) % 2 ^ 32)
        × ((j : ℕ)
            → AreClear j (j + 1) (targets bs)
            → t.output.memory.byte j ≡ s.output.memory.byte j)
        × (t.output.header.image_base ≡ new_base)
        × (t.output.entrypoint ≡ (new_base + s.output.header.address_of_entry_point) % 2 ^ 32)
  dll_relocate-shifts new_base s r ne small =
      let old = s.output.header.image_base in
      let delta = image_delta new_base old in
      let byte = s.output.memory.byte in
      (
        rebased new_base (relocated delta byte (targets bs)) s,
        relocate-rebased new_base s r ne,
        λ x m.
            ap (λ w. (w + old) % 2 ^ 32) (word32-relocated delta (targets bs) byte x r.apart m)
            ∙ shift (word32 byte x) delta old new_base (image_delta_adds new_base old small r.base),
        λ j c. relocated_outside delta (targets bs) byte j c,
        refl,
        refl,
      )
    where
      shift :
          (w d old new : ℕ)
          → (old + d) % 2 ^ 32 ≡ new
          → ((w + d) % 2 ^ 32 + old) % 2 ^ 32 ≡ (w + new) % 2 ^ 32
      shift w d old new e = omega arith

  -- On such an image, with such fuel, for two bases below 2 ^ 32 that differ from each other and
  -- from the image's, relocation to the first and then to the second gives the same state as
  -- relocation to the second.
  pub dll_relocate-dll_relocate :
      (base new_base : ℕ) (s : State)
      → IsRelocatable bs end s
      → base ≢ s.output.header.image_base
      → new_base ≢ base
      → new_base ≢ s.output.header.image_base
      → base < 2 ^ 32
      → new_base < 2 ^ 32
      → (dll_relocate f base >> dll_relocate f new_base) s ≡ dll_relocate f new_base s
  dll_relocate-dll_relocate base new_base s r ne ne' ne'' small small' =
      let old = s.output.header.image_base in
      let byte = s.output.memory.byte in
      let d = image_delta base old in
      let d' = image_delta new_base base in
      let e = image_delta new_base old in
      let sums : (d + d') % 2 ^ 32 ≡ e % 2 ^ 32 =
        adds d d' e old base new_base (image_delta_adds base old small r.base)
          (image_delta_adds new_base base small' small)
          (image_delta_adds new_base old small' r.base) in
      rw
        (
          relocate-rebased base s r ne,
          relocate-rebased new_base (rebased base (relocated d byte (targets bs)) s)
              (rebased-IsRelocatable base d s small r) ne',
          relocate-rebased new_base s r ne'',
        )
        (ap (λ g. returned tt (rebased new_base g s))
          (fun_ext (λ j. relocated-relocated d d' e (targets bs) byte j sums r.apart)))
    where
      adds :
          (d d' e old base new : ℕ)
          → (old + d) % 2 ^ 32 ≡ base
          → (base + d') % 2 ^ 32 ≡ new
          → (old + e) % 2 ^ 32 ≡ new
          → (d + d') % 2 ^ 32 ≡ e % 2 ^ 32
      adds d d' e old base new p q r = omega arith

  -- On such an image of bytes, with such fuel, relocation to another base below 2 ^ 32 and back
  -- leaves every byte of the image as it was.
  pub dll_relocate_back :
      (base : ℕ) (s : State)
      → IsRelocatable bs end s
      → IsBytes s.output.memory.byte
      → base ≢ s.output.header.image_base
      → base < 2 ^ 32
      → (dll_relocate f base >> dll_relocate f s.output.header.image_base) s
        ≡ returned tt (rebased s.output.header.image_base s.output.memory.byte s)
  dll_relocate_back base s r bytes ne small =
      let old = s.output.header.image_base in
      let byte = s.output.memory.byte in
      let d = image_delta base old in
      let d' = image_delta old base in
      let sums : (d + d') % 2 ^ 32 ≡ 0 % 2 ^ 32 =
        cancels d d' old base (image_delta_adds base old small r.base)
          (image_delta_adds old base r.base small) r.base in
      rw
        (
          relocate-rebased base s r ne,
          relocate-rebased old (rebased base (relocated d byte (targets bs)) s)
              (rebased-IsRelocatable base d s small r) (λ h. ne (sym h)),
        )
        (ap (λ g. returned tt (rebased old g s))
          (fun_ext λ j.
            relocated-relocated d d' 0 (targets bs) byte j sums r.apart
            ∙ relocated-zero (targets bs) byte j bytes r.apart))
    where
      cancels :
          (d d' old base : ℕ)
          → (old + d) % 2 ^ 32 ≡ base
          → (base + d') % 2 ^ 32 ≡ old
          → old < 2 ^ 32
          → (d + d') % 2 ^ 32 ≡ 0 % 2 ^ 32
      cancels d d' old base p q l = omega arith

-- ===== src/Loader/Relocate/Misread.antt =====
-- DLLRelocate on a table whose first block has 2 ^ 12 bytes or more.
use nxdk_dyndxt.Base.{
  ℕ, suc, ◌+◌, ◌*◌, ◌/◌, ◌^◌, ◌≤◌, ◌<◌, ◌≡◌, ◌≢◌, refl, true, false, arith, ltb, ≢→==,
}
use nxdk_dyndxt.Loader.Types.{State, unsupported_relocation_type}
use nxdk_dyndxt.Loader.Run.{failed, word32, read_word16, read_word32}
use nxdk_dyndxt.Loader.Relocate.{relocate_entry, relocate_entries, relocate_blocks, dll_relocate}

large_entry :
    (b₀ b₁ b₂ b₃ : ℕ)
    → 2 ^ 12 ≤ b₀ + 256 * b₁ + 65536 * b₂ + 16777216 * b₃
    → b₀ + 256 * b₁ + 65536 * b₂ + 16777216 * b₃ < 3 * 2 ^ 12
    → ((b₀ + 256 * b₁) / 2 ^ 12 ≢ 0) × ((b₀ + 256 * b₁) / 2 ^ 12 ≢ 3)
large_entry b₀ b₁ b₂ b₃ l l' = (omega arith, omega arith)

-- On an image whose relocation table lies within the image and starts with a block that has an
-- address and a size from 2 ^ 12 to 3 * 2 ^ 12 - 1, DLLRelocate to another base fails, with the
-- status for an unsupported type, whatever entries the block has: it reads the size as an entry.
pub dll_relocate_misread :
    (f new_base : ℕ) (s : State)
    → new_base ≢ s.output.header.image_base
    → s.output.header.basereloc_directory.size ≢ 0
    → s.output.header.basereloc_directory.virtual_address + 8 ≤ s.output.memory.size
    → word32 s.output.memory.byte s.output.header.basereloc_directory.virtual_address ≢ 0
    → 2 ^ 12 ≤ word32 s.output.memory.byte (s.output.header.basereloc_directory.virtual_address + 4)
    → word32 s.output.memory.byte (s.output.header.basereloc_directory.virtual_address + 4)
      < 3 * 2 ^ 12
    → (t : State) × (dll_relocate (suc f) new_base s ≡ failed t)
      × (t.output.status ≡ unsupported_relocation_type)
unfolding dll_relocate relocate_blocks relocate_entries relocate_entry read_word16 read_word32
dll_relocate_misread f new_base s ne listed fits address large small =
    let a = s.output.header.basereloc_directory.virtual_address in
    let byte = s.output.memory.byte in
    let inside : ltb s.output.memory.size (a + 4) ≡ false = ground arith in
    let inside' : ltb s.output.memory.size (a + 4 + 4) ≡ false = ground arith in
    let inside'' : ltb s.output.memory.size (a + 4 + 2) ≡ false = ground arith in
    let some_entries : ltb (a + 4) (a + word32 byte (a + 4)) ≡ true = ground arith in
    let (padding, highlow) =
      large_entry (byte (a + 4)) (byte (a + 4 + 1)) (byte (a + 4 + 2)) (byte (a + 4 + 3)) large
        small in
    rw
      (
        ≢→== new_base s.output.header.image_base ne,
        ≢→== s.output.header.basereloc_directory.size 0 listed,
        inside,
        ≢→== _ 0 address,
        inside',
        some_entries,
        inside'',
        ≢→== _ 0 padding,
        ≢→== _ 3 highlow,
      )
      (_, refl, refl)

-- ===== src/Loader/Relocate/Endless.antt =====
-- DLLRelocate on a table whose first block has no size.
use nxdk_dyndxt.Base.{ℕ, zero, suc, ◌+◌, ◌≤◌, ◌≡◌, ◌≢◌, refl, false, arith, ltb, ≢→==}
use nxdk_dyndxt.Loader.Types.{State, relocate}
use nxdk_dyndxt.Loader.Run.{out_of_fuel, word32, read_word32}
use nxdk_dyndxt.Loader.Relocate.{relocate_entries, relocate_blocks, dll_relocate}

relocate_blocks-endless :
    (f inner delta a : ℕ) (s : State)
    → a + 8 ≤ s.output.memory.size
    → word32 s.output.memory.byte a ≢ 0
    → word32 s.output.memory.byte (a + 4) ≡ 0
    → relocate_blocks f inner delta a s ≡ out_of_fuel
unfolding relocate_blocks relocate_entries read_word32
relocate_blocks-endless zero inner delta a s fits ne none_left = refl
relocate_blocks-endless (suc f) zero delta a s fits ne none_left =
    let inside : ltb s.output.memory.size (a + 4) ≡ false = ground arith in
    let inside' : ltb s.output.memory.size (a + 4 + 4) ≡ false = ground arith in
    rw (inside, ≢→== _ 0 ne, inside') refl
relocate_blocks-endless (suc f) (suc inner) delta a s fits ne none_left =
    let inside : ltb s.output.memory.size (a + 4) ≡ false = ground arith in
    let inside' : ltb s.output.memory.size (a + 4 + 4) ≡ false = ground arith in
    let at_end : ltb (a + 4) (a + 0) ≡ false = ground arith in
    let same : a + 0 ≡ a = omega arith in
    rw (inside, ≢→== _ 0 ne, inside', none_left, at_end, same)
      (relocate_blocks-endless f (suc inner) delta a s fits ne none_left)

-- On an image whose relocation table lies within the image and starts with a block that has an
-- address and the size 0, DLLRelocate to another base does not end, with any fuel.
pub dll_relocate_endless :
    (f new_base : ℕ) (s : State)
    → new_base ≢ s.output.header.image_base
    → s.output.header.basereloc_directory.size ≢ 0
    → s.output.header.basereloc_directory.virtual_address + 8 ≤ s.output.memory.size
    → word32 s.output.memory.byte s.output.header.basereloc_directory.virtual_address ≢ 0
    → word32 s.output.memory.byte (s.output.header.basereloc_directory.virtual_address + 4) ≡ 0
    → dll_relocate f new_base s ≡ out_of_fuel
unfolding dll_relocate
dll_relocate_endless f new_base s ne listed fits address size =
    rw
      (
        ≢→== new_base s.output.header.image_base ne,
        ≢→== s.output.header.basereloc_directory.size 0 listed,
        relocate_blocks-endless f f _ s.output.header.basereloc_directory.virtual_address
            (record s { output = record s.output { context = relocate } }) fits address size,
      )
      refl

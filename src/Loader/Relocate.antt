-- ===== src/Loader/Relocate.antt =====
-- DLLRelocate of dll_loader/dll_loader.c. The loops run on fuel; a pointer into the image is its
-- offset.
pub mod Words
pub mod Table
pub mod Rebase
pub mod Endless
pub mod Misread
use nxdk_dyndxt.Base.{ℕ, zero, suc, ◌+◌, ◌-◌, ◌/◌, ◌%◌, ◌^◌, not, ◌==◌, ltb, if◌then◌else◌}
use nxdk_dyndxt.Loader.Types.{no_relocation_data, relocate, unsupported_relocation_type}
use nxdk_dyndxt.Loader.Run.{
  M, stop, ◌>>=◌, ◌>>◌, pure, get, put, set_error_context, fail, check, read_word16, read_word32,
  write_word32,
}

-- The bits of `image_delta`, which is added to unsigned numbers only
unfoldable pub image_delta : ℕ → ℕ → ℕ
image_delta new_base header_image_base =
    if ltb header_image_base new_base
    then new_base - header_image_base
    else (2 ^ 32 - (header_image_base - new_base)) % 2 ^ 32

-- `sizeof(relocation_start)`: a pointer has 4 bytes on the target
abbrev pub size_of_pointer : ℕ
size_of_pointer = 4

-- `*target += image_delta`
unfoldable pub add_to_word : ℕ → ℕ → M (Unit {0})
add_to_word delta target = do
  o ← get
  word ← read_word32 o.memory target
  write_word32 target ((word + delta) % 2 ^ 32)

-- The body of the inner loop, for `*entry`
unfoldable pub relocate_entry : ℕ → ℕ → ℕ → M (Unit {0})
relocate_entry delta dest entry =
    if entry / 2 ^ 12 == 0
    then pure tt
    else if entry / 2 ^ 12 == 3
    then add_to_word delta (dest + entry % 2 ^ 12)
    else fail unsupported_relocation_type

-- `while ((void *)entry < relocation_end)`
unfoldable pub relocate_entries : ℕ → ℕ → ℕ → ℕ → ℕ → M (Unit {0})
relocate_entries zero delta dest entry relocation_end = stop
relocate_entries (suc f) delta dest entry relocation_end =
    if not (ltb entry relocation_end) then pure tt else do
      o ← get
      value ← read_word16 o.memory entry
      relocate_entry delta dest value
      relocate_entries f delta dest (entry + 2) relocation_end

-- `while (block->VirtualAddress > 0)`
unfoldable pub relocate_blocks : ℕ → ℕ → ℕ → ℕ → M (Unit {0})
relocate_blocks zero inner delta relocation_start = stop
relocate_blocks (suc f) inner delta relocation_start = do
  o ← get
  dest ← read_word32 o.memory relocation_start
  if dest == 0 then pure tt else do
    size_of_block ← read_word32 o.memory (relocation_start + 4)
    let relocation_end = relocation_start + size_of_block
    relocate_entries inner delta dest (relocation_start + size_of_pointer) relocation_end
    relocate_blocks f inner delta relocation_end

-- The assignments at the end of DLLRelocate
unfoldable pub set_base : ℕ → M (Unit {0})
set_base new_base = do
  o ← get
  put (record o {
    header = record o.header { image_base = new_base };
    entrypoint = (new_base + o.header.address_of_entry_point) % 2 ^ 32;
  })

-- DLLRelocate
unfoldable pub dll_relocate : ℕ → ℕ → M (Unit {0})
dll_relocate f new_base = do
  set_error_context relocate
  o ← get
  if new_base == o.header.image_base then pure tt else do
    check (not (o.header.basereloc_directory.size == 0)) no_relocation_data
    relocate_blocks f f (image_delta new_base o.header.image_base)
        o.header.basereloc_directory.virtual_address
    set_base new_base

-- ===== src/Loader/Parse.antt =====
-- DLLParseHeader, DLLLoadImage, DLLProcessSections and DLLFreeContext of dll_loader/dll_loader.c. A
-- pointer into the raw data is its distance from `raw_data` modulo 2 ^ 32, so a pointer in front of
-- the file is a large offset, and a read there is a fault.
pub mod Advance
pub mod Inside
pub mod Sections
use Prim.Native.Nat.{bit_and}
use nxdk_dyndxt.Base.{
  ℕ, zero, suc, ◌+◌, ◌-◌, ◌*◌, ◌%◌, ◌^◌, Bool, true, false, not, List, [], ◌∷◌, ◌==◌, ltb,
  if◌then◌else◌,
}
use nxdk_dyndxt.Pool.{null}
use nxdk_dyndxt.Loader.Types.{
  Memory, dos_header, nt_header, nt_header_section_table, load_image, load_section, error,
  file_too_small, invalid_signature, wrong_machine_type, fixed_base, out_of_memory,
  ImageDataDirectory, ImageNtHeaders, ImageSectionHeader, DllLoaderInput,
}
use nxdk_dyndxt.Loader.Run.{
  M, fault, returned, ◌>>=◌, ◌>>◌, pure, get, put, set_error_context, fail, check, alloc, free,
  word16, word32, read_word16, read_word32, copy_to_image,
}

abbrev pub directory_at : (ℕ → ℕ) → ℕ → ImageDataDirectory
directory_at f a = record { virtual_address = word32 f a; size = word32 f (a + 4) }

-- The IMAGE_NT_HEADERS32 at `a`: 4 bytes of signature, 20 of the file header, 224 of the optional
-- header, which ends with 16 directories of 8 bytes.
abbrev pub nt_headers_at : (ℕ → ℕ) → ℕ → ImageNtHeaders
nt_headers_at f a = record {
  signature = word32 f a;
  machine = word16 f (a + 4);
  number_of_sections = word16 f (a + 6);
  size_of_optional_header = word16 f (a + 20);
  address_of_entry_point = word32 f (a + 40);
  image_base = word32 f (a + 52);
  size_of_image = word32 f (a + 80);
  size_of_headers = word32 f (a + 84);
  dll_characteristics = word16 f (a + 94);
  import_directory = directory_at f (a + 120 + 8 * 1);
  basereloc_directory = directory_at f (a + 120 + 8 * 5);
  tls_directory = directory_at f (a + 120 + 8 * 9);
}

abbrev pub section_header_at : (ℕ → ℕ) → ℕ → ImageSectionHeader
section_header_at f a = record {
  virtual_address = word32 f (a + 12);
  size_of_raw_data = word32 f (a + 16);
  pointer_to_raw_data = word32 f (a + 20);
}

-- An array of such headers, each of 40 bytes
abbrev pub section_headers_at : (ℕ → ℕ) → ℕ → ℕ → List ImageSectionHeader
section_headers_at f a zero = []
section_headers_at f a (suc n) = section_header_at f a ∷ section_headers_at f (a + 40) n

-- `memcpy(&ctx->output.header, nt_header, sizeof(ctx->output.header))`
unfoldable pub read_nt_headers : Memory → ℕ → M ImageNtHeaders
read_nt_headers m a s = if ltb m.size (a + 248) then fault else returned (nt_headers_at m.byte a) s

-- `memcpy(ctx->output.section_headers, section_header_base, section_header_size)`
unfoldable pub read_section_headers : Memory → ℕ → ℕ → M (List ImageSectionHeader)
read_section_headers m a n s =
    if ltb m.size (a + n * 40) then fault else returned (section_headers_at m.byte a n) s

-- DLLParseHeader, its tests of the header in `output`
unfoldable pub check_header : ImageNtHeaders → M (Unit {0})
check_header header = do
  check (header.signature == 0x4550) invalid_signature
  check (header.machine == 0x14c) wrong_machine_type
  check (not (bit_and header.dll_characteristics 0x40 == 0)) fixed_base

module _ (i : DllLoaderInput) where
  -- ADVANCE_READ_PTR, whose test compares addresses
  unfoldable pub advance_read_ptr : ℕ → ℕ → M ℕ
  advance_read_ptr read_ptr bytes =
      let eof = (i.raw_data + i.raw.size) % 2 ^ 32 in
      let advanced = (read_ptr + bytes) % 2 ^ 32 in
      if ltb eof ((i.raw_data + advanced) % 2 ^ 32) then fail file_too_small else pure advanced

  -- `if (declared > size) ADVANCE_READ_PTR(declared - size)`
  unfoldable pub advance_past : ℕ → ℕ → ℕ → M ℕ
  unfolding advance_read_ptr
  advance_past read_ptr declared size =
      if ltb size declared then advance_read_ptr read_ptr (declared - size) else pure read_ptr

  -- DLLParseHeader from the section table on
  unfoldable pub parse_section_table : ImageNtHeaders → ℕ → M (Unit {0})
  unfolding read_section_headers advance_read_ptr
  parse_section_table header read_ptr = do
    set_error_context nt_header_section_table
    let section_header_size = header.number_of_sections * 40
    section_headers ← alloc i section_header_size
    o ← get
    put (record o { section_headers = section_headers })
    check (not (section_headers == null)) out_of_memory
    eof ← advance_read_ptr read_ptr section_header_size
    sections ← read_section_headers i.raw read_ptr header.number_of_sections
    o' ← get
    put (record o' { sections = sections })

  -- DLLParseHeader
  unfoldable pub parse_header : M (Unit {0})
  unfolding advance_past read_nt_headers check_header parse_section_table
  parse_header = do
    set_error_context dos_header
    read_ptr ← advance_read_ptr 0 64
    e_magic ← read_word16 i.raw 0
    check (e_magic == 0x5A4D) invalid_signature
    e_lfanew ← read_word32 i.raw 60
    nt_headers ← advance_past read_ptr e_lfanew 64
    set_error_context nt_header
    optional_end ← advance_read_ptr nt_headers 248
    header ← read_nt_headers i.raw nt_headers
    o ← get
    put (record o { header = header })
    check_header header
    table ← advance_past optional_end header.size_of_optional_header 224
    parse_section_table header table

  -- DLLLoadImage
  unfoldable pub dll_load_image : M (Unit {0})
  unfolding copy_to_image
  dll_load_image = do
    set_error_context load_image
    o ← get
    image ← alloc i o.header.size_of_image
    o' ← get
    put (record o' {
      image = image;
      memory = record { size = o.header.size_of_image; byte = i.fresh };
    })
    check (not (image == null)) out_of_memory
    check (not (ltb o.header.size_of_image o.header.size_of_headers)) error
    copy_to_image 0 i.raw 0 o.header.size_of_headers

  -- ProcessSection; the copy of the name is not used
  unfoldable pub process_section : ImageSectionHeader → M (Unit {0})
  unfolding advance_read_ptr copy_to_image
  process_section header = do
    set_error_context load_section
    if header.size_of_raw_data == 0 then pure tt else do
      section_start ← advance_read_ptr 0 header.pointer_to_raw_data
      section_end ← advance_read_ptr section_start header.size_of_raw_data
      copy_to_image header.virtual_address i.raw section_start header.size_of_raw_data

  -- The loop of DLLProcessSections over the rest of the headers
  unfoldable pub process_section_list : List ImageSectionHeader → M (Unit {0})
  process_section_list [] = pure tt
  process_section_list (header ∷ rest) = do process_section header; process_section_list rest

  -- DLLProcessSections
  unfoldable pub dll_process_sections : M (Unit {0})
  unfolding process_section_list
  dll_process_sections = do o ← get; process_section_list o.sections

-- `if (p) i->free(p);`
unfoldable pub free_block : ℕ → M (Unit {0})
free_block p = if p == null then pure tt else free p

-- DLLFreeContext
unfoldable pub dll_free_context : Bool → M (Unit {0})
unfolding free_block
dll_free_context keep_image = do
  o ← get
  free_block o.section_headers
  put (record o { section_headers = null })
  if keep_image then pure tt else do free_block o.image; o' ← get; put (record o' { image = null })

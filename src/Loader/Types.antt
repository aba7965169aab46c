-- ===== src/Loader/Types.antt =====
-- dll_loader/dll_loader.h: what the loader is given and what it leaves, and the parts of the
-- headers of winapi/winnt.h that it reads.
use nxdk_dyndxt.Base.{ℕ, ◌<◌, List, [], Bytes}
use nxdk_dyndxt.Pool.{Ptr, null}

-- A block of bytes.
pub record Memory : Type 0 where
  pub size : ℕ
  pub byte : ℕ → ℕ

-- `enum DLLLoaderContext`
pub data DllLoaderContext : Type 0 where
  not_parsed : DllLoaderContext
  dos_header : DllLoaderContext
  nt_header : DllLoaderContext
  nt_header_section_table : DllLoaderContext
  load_image : DllLoaderContext
  load_section : DllLoaderContext
  resolve_imports : DllLoaderContext
  relocate : DllLoaderContext
  invoke_tls_callbacks : DllLoaderContext

-- `enum DLLLoaderStatus`
pub data DllLoaderStatus : Type 0 where
  ok : DllLoaderStatus
  error : DllLoaderStatus
  file_too_small : DllLoaderStatus
  invalid_signature : DllLoaderStatus
  wrong_machine_type : DllLoaderStatus
  fixed_base : DllLoaderStatus
  out_of_memory : DllLoaderStatus
  dll_forwarding_not_supported : DllLoaderStatus
  unresolved_import : DllLoaderStatus
  no_relocation_data : DllLoaderStatus
  unsupported_relocation_type : DllLoaderStatus

-- DLLL_MAX_ERROR_LEN
abbrev pub max_error_len : ℕ
max_error_len = 256

pub record ImageDataDirectory : Type 0 where
  pub virtual_address : ℕ
  pub size : ℕ

-- The fields of IMAGE_NT_HEADERS32 that the loader uses, with three data directories.
pub record ImageNtHeaders : Type 0 where
  pub signature : ℕ
  pub machine : ℕ
  pub number_of_sections : ℕ
  pub size_of_optional_header : ℕ
  pub address_of_entry_point : ℕ
  pub image_base : ℕ
  pub size_of_image : ℕ
  pub size_of_headers : ℕ
  pub dll_characteristics : ℕ
  pub import_directory : ImageDataDirectory
  pub basereloc_directory : ImageDataDirectory
  pub tls_directory : ImageDataDirectory

-- The fields of IMAGE_SECTION_HEADER that the loader uses.
pub record ImageSectionHeader : Type 0 where
  pub virtual_address : ℕ
  pub size_of_raw_data : ℕ
  pub pointer_to_raw_data : ℕ

-- What a resolver answers: true with an address, or false; or it leaves the memory that it may
-- read, or does not come back.
pub data Resolution : Type 0 where
  resolved : ℕ → Resolution
  not_found : Resolution
  lost : Resolution
  endless : Resolution

-- `struct DLLLoaderInput`. The file `raw` stands at the address `raw_data`. `alloc` answers the n-th request for so many bytes, `fresh` is what
-- new memory holds. The resolvers take the name of an image, and an ordinal or a name.
pub record DllLoaderInput : Type 0 where
  pub raw_data : ℕ
  pub raw : Memory
  pub alloc : ℕ → ℕ → Ptr
  pub fresh : ℕ → ℕ
  pub resolve_import_by_ordinal : Bytes → ℕ → Resolution
  pub resolve_import_by_name : Bytes → Bytes → Resolution

-- `struct DLLLoaderOutput`; behind the pointers `section_headers` and `image` stand `sections` and
-- `memory`.
pub record DllLoaderOutput : Type 0 where
  pub header : ImageNtHeaders
  pub section_headers : Ptr
  pub sections : List ImageSectionHeader
  pub image : Ptr
  pub memory : Memory
  pub entrypoint : ℕ
  pub context : DllLoaderContext
  pub status : DllLoaderStatus
  pub error_message : Bytes

-- What a run changes: the output, and the allocator's blocks, newest first.
pub record State : Type 0 where
  pub output : DllLoaderOutput
  pub live : List Ptr
  pub calls : ℕ

abbrev no_directory : ImageDataDirectory
no_directory = record { virtual_address = 0; size = 0 }

-- `memset(&ctx->output, 0, sizeof(ctx->output))`
abbrev pub zeroed : DllLoaderOutput
zeroed = record {
  header = record {
    signature = 0;
    machine = 0;
    number_of_sections = 0;
    size_of_optional_header = 0;
    address_of_entry_point = 0;
    image_base = 0;
    size_of_image = 0;
    size_of_headers = 0;
    dll_characteristics = 0;
    import_directory = no_directory;
    basereloc_directory = no_directory;
    tls_directory = no_directory;
  };
  section_headers = null;
  sections = [];
  image = null;
  memory = record { size = 0; byte = λ i. 0 };
  entrypoint = 0;
  context = not_parsed;
  status = ok;
  error_message = [];
}

-- No byte is more than 255.
abbrev pub IsBytes : (ℕ → ℕ) → Type 0
IsBytes f = (i : ℕ) → f i < 256

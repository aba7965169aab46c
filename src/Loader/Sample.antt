-- ===== src/Loader/Sample.antt =====
-- A small PE file: headers up to 352, and one section that holds a word to relocate at 352 and the
-- relocation table at 400.
use nxdk_dyndxt.Base.{ℕ, ◌==◌, if◌then◌else◌, List, [], ◌∷◌}
use nxdk_dyndxt.Loader.Types.{Memory, zeroed, ImageSectionHeader, not_found, DllLoaderInput, State}
use nxdk_dyndxt.Loader.Run.{put_word32}

-- Words at their addresses, all else 0
abbrev pub words : List (ℕ × ℕ) → ℕ → ℕ
words [] i = 0
words ((a, w) ∷ ws) i = put_word32 (words ws) a w i

abbrev pub file_words : List (ℕ × ℕ)
file_words =
    (0, 0x5A4D)
    ∷ (60, 64)
    ∷ (64, 0x4550)
    ∷ (68, 0x1014C)
    ∷ (84, 224)
    ∷ (104, 0x180)
    ∷ (116, 0x10000)
    ∷ (144, 512)
    ∷ (148, 352)
    ∷ (158, 0x40)
    ∷ (224, 400)
    ∷ (228, 16)
    ∷ (324, 352)
    ∷ (328, 96)
    ∷ (332, 352)
    ∷ (352, 0x10180)
    ∷ (400, 352)
    ∷ (404, 12)
    ∷ (408, 0x3000)
    ∷ []

abbrev pub file : ℕ → ℕ
file = words file_words

abbrev pub raw : Memory
raw = record { size = 448; byte = file }

-- The section headers first, and then the image at 0x400000
abbrev pub input : DllLoaderInput
input = record {
  raw_data = 0x1000;
  raw = raw;
  alloc = λ n size. if n == 0 then 0x2000 else 0x400000;
  fresh = λ i. 0xCC;
  resolve_import_by_ordinal = λ image ordinal. not_found;
  resolve_import_by_name = λ image name. not_found;
}

abbrev pub initial : State
initial = record { output = zeroed; live = 7 ∷ []; calls = 0 }

abbrev pub section : ImageSectionHeader
section = record { virtual_address = 352; size_of_raw_data = 96; pointer_to_raw_data = 352 }

-- An image with these bytes, and a table of relocations at 400
abbrev pub image_of : (ℕ → ℕ) → State
image_of f = record initial {
  output = record zeroed {
    header = record zeroed.header {
      image_base = 0x10000;
      address_of_entry_point = 0x180;
      basereloc_directory = record { virtual_address = 400; size = 16 };
      tls_directory = record { virtual_address = 352; size = 24 };
    };
    memory = record { size = 512; byte = f };
  };
}

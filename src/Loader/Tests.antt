-- ===== src/Loader/Tests.antt =====
-- The loader run on a small file, and its theorems at concrete inputs.
use nxdk_dyndxt.Base.{
  ◌==◌, if◌then◌else◌, ℕ, ◌+◌, ◌%◌, ◌^◌, ◌<◌, ◌≡◌, refl, inl, inr, false, Option, none, some, List,
  [], ◌∷◌, arith, length, replicate,
}
use nxdk_dyndxt.Loader.Types.{State}
use nxdk_dyndxt.Loader.Run.{
  failed, Run, M, returned, fault, out_of_fuel, ◌>>◌, word32, alloc, read_word16, read_word32,
  write_word32, copy_to_image,
}
use nxdk_dyndxt.Loader.Imports.{dll_resolve_imports, ordinal_text, name_text}
use nxdk_dyndxt.Loader.Messages.{length-messages}
use nxdk_dyndxt.Loader.Parse.{
  advance_read_ptr, parse_section_table, process_section, parse_header, process_section_list,
  dll_load_image, read_nt_headers, read_section_headers, advance_past, dll_process_sections,
  check_header,
}
use nxdk_dyndxt.Loader.Parse.Inside.{Ends, parse_header-Ends}
use nxdk_dyndxt.Loader.Parse.Advance.{parse_header_in_front}
use nxdk_dyndxt.Loader.Parse.Sections.{
  AreLoaded, covered, process_section_list-AreLoaded, process_section_overrun, load_image_overread,
}
use nxdk_dyndxt.Loader.Relocate.{
  image_delta, relocate_blocks, relocate_entries, relocate_entry, add_to_word, set_base,
  dll_relocate,
}
use nxdk_dyndxt.Loader.Relocate.Words.{AreClear, IsIn}
use nxdk_dyndxt.Loader.Relocate.Table.{RelocationBlock, targets}
use nxdk_dyndxt.Loader.Relocate.Rebase.{
  IsRelocatable, rebased, dll_relocate-shifts, dll_relocate-dll_relocate, dll_relocate_back,
}
use nxdk_dyndxt.Loader.Relocate.Endless.{dll_relocate_endless}
use nxdk_dyndxt.Loader.Relocate.Misread.{dll_relocate_misread}
use nxdk_dyndxt.Loader.Types.{unsupported_relocation_type}
use nxdk_dyndxt.Loader.Load.{dll_parse, or_free, dll_load, dll_invoke_tls_callbacks}
use nxdk_dyndxt.Loader.Load.Settled.{Settled, HasImage, dll_load-Settled}
use nxdk_dyndxt.Loader.Load.Callbacks.{dll_invoke_tls_callbacks_endless}
use nxdk_dyndxt.Loader.Sample.{words, file_words, file, input, initial, section, image_of}

-- What DLLLoad leaves: the entry point, the relocated word, and how many blocks are allocated.
abbrev result : Run (Unit {0}) → Option (ℕ × ℕ × List ℕ)
result (returned a s) = some (s.output.entrypoint, word32 s.output.memory.byte 352, s.live)
result _ = none

load_test :
    result (dll_load input 9 initial) ≡ some (0x400180, 0x400180, 0x400000 ∷ 0x2000 ∷ 7 ∷ [])
unfolding dll_load dll_parse or_free parse_header advance_read_ptr advance_past read_word16
    read_word32 read_nt_headers check_header parse_section_table read_section_headers alloc
    dll_load_image copy_to_image dll_process_sections process_section_list process_section
    dll_resolve_imports dll_relocate image_delta relocate_blocks relocate_entries relocate_entry
    add_to_word write_word32 set_base
load_test = refl

-- The same file, loaded at its own base: the entry point stays 0.
load_at_base_test :
    result
      (dll_load (record input { alloc = λ n size. if n == 0 then 0x2000 else 0x10000 }) 9 initial)
    ≡ some (0, 0x10180, 0x10000 ∷ 0x2000 ∷ 7 ∷ [])
unfolding dll_load dll_parse or_free parse_header advance_read_ptr advance_past read_word16
    read_word32 read_nt_headers check_header parse_section_table read_section_headers alloc
    dll_load_image copy_to_image dll_process_sections process_section_list process_section
    dll_resolve_imports dll_relocate image_delta relocate_blocks relocate_entries relocate_entry
    add_to_word write_word32 set_base
load_at_base_test = refl

abbrev sample_blocks : List RelocationBlock
sample_blocks = record { page = 352; entries = 0x3000 ∷ 0 ∷ [] } ∷ []

sample-IsRelocatable : IsRelocatable sample_blocks 416 (image_of file)
sample-IsRelocatable = record {
  listed = omega arith;
  table =
      (refl, omega arith, refl, omega arith, (refl, inr refl, (refl, inl refl, tt)), (refl, refl));
  fits = omega arith;
  clear = (inl (omega arith), tt);
  inside = (omega arith, tt);
  apart = (tt, tt);
  base = omega arith;
}

words-IsBytes : (ws : List (ℕ × ℕ)) (i : ℕ) → words ws i < 256
words-IsBytes [] i = omega arith
words-IsBytes ((a, w) ∷ ws) i = ground (arith, words-IsBytes ws i)

parse_header-Ends_example : Ends 0 (λ _. Unit) (parse_header input initial)
parse_header-Ends_example =
    parse_header-Ends input initial (λ q. words-IsBytes file_words q) (omega arith) (omega arith)
      refl

-- The same file 4096 bytes behind the start of the address space, with an e_lfanew of -16
parse_header_in_front_test :
    parse_header
      (record input {
        raw = record { size = 448; byte = words ((0, 0x5A4D) ∷ (60, 0xFFFFFFF0) ∷ []) };
      })
      initial
    ≡ fault
parse_header_in_front_test =
    parse_header_in_front
      (record input {
        raw = record { size = 448; byte = words ((0, 0x5A4D) ∷ (60, 0xFFFFFFF0) ∷ []) };
      })
      initial (omega arith) (omega arith) (omega arith) (omega arith) (omega arith)

dll_load-Settled_example : Settled (7 ∷ []) (HasImage (7 ∷ [])) (dll_load input 9 initial)
dll_load-Settled_example = dll_load-Settled input (7 ∷ []) 9 initial refl

-- A space of 512 bytes for the section
abbrev blank : State
blank = image_of (λ i. 0xCC)

process_section_list-AreLoaded_example :
    (t : State) × (process_section_list input (section ∷ []) blank ≡ returned tt t)
    × (t.output.memory.size ≡ 512)
    × AreLoaded file t.output.memory.byte (section ∷ [])
    × ((j : ℕ) → covered j (section ∷ []) ≡ false → t.output.memory.byte j ≡ 0xCC)
process_section_list-AreLoaded_example =
    process_section_list-AreLoaded input (section ∷ []) blank (omega arith)
      ((omega arith, omega arith), tt, tt)

process_section_overrun_example :
    process_section_list input (record section { virtual_address = 500 } ∷ []) blank ≡ fault
process_section_overrun_example =
    process_section_overrun input (record section { virtual_address = 500 }) [] blank (omega arith)
      (omega arith) (omega arith) (omega arith)

-- Headers that claim to be longer than the file
abbrev long_headers : State
long_headers = record blank {
  output = record blank.output {
    header = record blank.output.header { size_of_image = 512; size_of_headers = 500 };
  };
}

load_image_overread_example : dll_load_image input long_headers ≡ fault
load_image_overread_example =
    load_image_overread input long_headers (ground arith) (omega arith) (omega arith)

dll_relocate-shifts_example :
    (t : State) × (dll_relocate 9 0x400000 (image_of file) ≡ returned tt t)
    × ((x : ℕ)
        → IsIn x (targets sample_blocks)
        → (word32 t.output.memory.byte x + 0x10000) % 2 ^ 32 ≡ (word32 file x + 0x400000) % 2 ^ 32)
    × ((j : ℕ) → AreClear j (j + 1) (targets sample_blocks) → t.output.memory.byte j ≡ file j)
    × (t.output.header.image_base ≡ 0x400000)
    × (t.output.entrypoint ≡ (0x400000 + 0x180) % 2 ^ 32)
dll_relocate-shifts_example =
    dll_relocate-shifts 9 sample_blocks 416 (omega arith) (omega arith) 0x400000 (image_of file)
      sample-IsRelocatable (omega arith) (omega arith)

dll_relocate-dll_relocate_example :
    (dll_relocate 9 0x400000 >> dll_relocate 9 0x8000) (image_of file)
    ≡ dll_relocate 9 0x8000 (image_of file)
dll_relocate-dll_relocate_example =
    dll_relocate-dll_relocate 9 sample_blocks 416 (omega arith) (omega arith) 0x400000 0x8000
      (image_of file) sample-IsRelocatable (omega arith) (omega arith) (omega arith) (omega arith)
      (omega arith)

dll_relocate_back_example :
    (dll_relocate 9 0x400000 >> dll_relocate 9 0x10000) (image_of file)
    ≡ returned tt (rebased 0x10000 file (image_of file))
dll_relocate_back_example =
    dll_relocate_back 9 sample_blocks 416 (omega arith) (omega arith) 0x400000 (image_of file)
      sample-IsRelocatable (λ i. words-IsBytes file_words i) (omega arith) (omega arith)

-- A table with a block for the address 352 and no size
abbrev no_size : ℕ → ℕ
no_size = words ((400, 352) ∷ [])

dll_relocate_endless_example : dll_relocate 100 0x400000 (image_of no_size) ≡ out_of_fuel
dll_relocate_endless_example =
    dll_relocate_endless 100 0x400000 (image_of no_size) (omega arith) (omega arith) (omega arith)
      (omega arith) refl

-- A block of 5000 bytes for the address 352
abbrev large_block : ℕ → ℕ
large_block = words ((400, 352) ∷ (404, 5000) ∷ [])

dll_relocate_misread_example :
    (t : State) × (dll_relocate 100 0x400000 (image_of large_block) ≡ failed t)
    × (t.output.status ≡ unsupported_relocation_type)
dll_relocate_misread_example =
    dll_relocate_misread 99 0x400000 (image_of large_block) (omega arith) (omega arith)
      (omega arith) (omega arith) (omega arith) (omega arith)

-- Callbacks that do nothing
abbrev idle : ℕ → M (Unit {0})
idle callback s = returned tt s

dll_invoke_tls_callbacks_endless_example :
    dll_invoke_tls_callbacks idle 100 (image_of (λ i. 1)) ≡ out_of_fuel
dll_invoke_tls_callbacks_endless_example =
    dll_invoke_tls_callbacks_endless idle 100 (image_of (λ i. 1)) (λ callback s. (s, refl))
      (omega arith) (omega arith) (omega arith)

length-messages_example :
    (length (ordinal_text (replicate 300 b'x') 7) < 256)
    × (length (name_text (replicate 300 b'x') (b'y' ∷ [])) < 256)
length-messages_example = length-messages (replicate 300 b'x') (b'y' ∷ []) 7

-- ===== src/Handlers/Commands/Tests.antt =====
-- The handlers run on small inputs, and their theorems at concrete inputs.
use nxdk_dyndxt.Base.{
  ℕ, zero, suc, Option, none, Bytes, ◌+◌, ◌*◌, ◌≡◌, refl, true, some, List, [], ◌∷◌, ◌++◌, arith,
}
use nxdk_dyndxt.Base.Format.{decimal}
use nxdk_dyndxt.Pool
use nxdk_dyndxt.Pool.{null, same_string, c_string}
use nxdk_dyndxt.Pool.Sample.{ascending, ascending-NeverRefuses, fresh}
use nxdk_dyndxt.Response.{def_success, def_error}
use nxdk_dyndxt.Command
use nxdk_dyndxt.Command.Errors.{codes}
use nxdk_dyndxt.Command.Parse.Print.{escape}
use nxdk_dyndxt.Command.Storage.Holds.{Pair}
use nxdk_dyndxt.Loader.Run
use nxdk_dyndxt.Handlers
use nxdk_dyndxt.Handlers.{
  ReceiveImageDataContext, CommandContext, World, Run, M, done, receive_image_data,
  receive_image_data_context,
}
use nxdk_dyndxt.Base.Format.{hexadecimal}
use nxdk_dyndxt.Pool.{free_string}
use nxdk_dyndxt.Response.{store, strncat}
use nxdk_dyndxt.Loader.Run.{read_word16, read_word32, alloc, copy_to_image, free, write_word32}
use nxdk_dyndxt.Loader.Parse.{
  parse_header, dll_load_image, dll_process_sections, process_section, advance_past,
  advance_read_ptr, check_header, dll_free_context, free_block, parse_section_table,
  process_section_list, read_nt_headers, read_section_headers,
}
use nxdk_dyndxt.Loader.Imports.{dll_resolve_imports}
use nxdk_dyndxt.Loader.Relocate.{
  dll_relocate, relocate_blocks, relocate_entries, relocate_entry, add_to_word, image_delta,
  set_base,
}
use nxdk_dyndxt.Handlers.Transfer.{receive_chunk, receive_data}
use nxdk_dyndxt.Loader.Types
use nxdk_dyndxt.Loader.Load.{dll_load, dll_parse, or_free, call_callbacks, dll_invoke_tls_callbacks}
use nxdk_dyndxt.Loader.Sample
use nxdk_dyndxt.Handlers.Transfer.Upload.{store_chunk, transfer}
use nxdk_dyndxt.Handlers.Complete.{
  Platform, input_of, state_of, after_callbacks, after_load, callbacks_failed, enter_image,
  free_context, invoke_callbacks, load_failed, load_image, report, report_loaded,
  receive_image_data_complete,
}
use nxdk_dyndxt.Handlers.Complete.Settled.{Completed, receive_image_data_complete-Completed}
use nxdk_dyndxt.Handlers.Transfer.Begin.{Begun}
use nxdk_dyndxt.Handlers.Transfer.Chunks.{deliver, transferred, deliver-transferred}
use nxdk_dyndxt.Handlers.Commands.{starts_with, signed_decimal, padded_hexadecimal, export_line}
use nxdk_dyndxt.Handlers.Commands.LoadCommand.{load_command, process_command-Begun}
use nxdk_dyndxt.Handlers.Exports.{link_loaded_modules}
use nxdk_dyndxt.Handlers.Exports.Linked.{go_on, link_loaded_modules_stops}

abbrev parameters : List Pair
parameters = (codes "size", some (codes "300")) ∷ []

load_command_test : load_command parameters ≡ codes "ddxt!load size=\"300\" "
unfolding escape
load_command_test = refl

export_line_test :
    export_line (codes "a.dll") 3000000000 (codes "f@4") [] 0xBEEF
    ≡ codes "a.dll @ -1294967296 f@4  = 0x0000BEEF" ++ 0 ∷ []
unfolding export_line signed_decimal padded_hexadecimal decimal
export_line_test = refl

-- A transfer of 300 bytes into a block at 64
abbrev process_context : ReceiveImageDataContext
process_context = record {
  dxt_main = null;
  image_base = 64;
  raw_image_size = 300;
  num_tls_callbacks = 0;
  tls_callbacks = null;
  relocation_needed = true;
}

abbrev start : World
start = record {
  heap = record fresh { strings = (64, some (record { size = 300; bytes = [] })) ∷ [] };
  live = 7 ∷ [];
  calls = 0;
  response = record { size = 256; bytes = [] };
  context = record {
    handler = receive_image_data;
    data_size = 0;
    buffer = 64;
    buffer_size = 300;
    bytes_remaining = 300;
  };
  context_store = receive_image_data_context process_context;
}

abbrev platform : Platform
platform = record {
  alloc = λ n size. 0x10000 * (n + 1);
  fresh = λ i. 0xCC;
  callback = λ entry s. Run.returned tt s;
  enter = λ entry w. done tt w;
}

process_command-Begun_example :
    (v : World) × (Handlers.Commands.process_command ascending null
        (load_command parameters)
        256
        start
      ≡ done (def_success 4) v)
    × Begun 300 v
unfolding escape decimal same_string c_string
process_command-Begun_example =
    process_command-Begun ascending null parameters 300 256 start
      (ascending-NeverRefuses Command.k_tag) (ascending-NeverRefuses Handlers.k_tag) (ground arith)
      (omega arith) refl (omega arith)

deliver-transferred_example :
    deliver platform 9 null 256 100 (150 ∷ 50 ∷ []) start
    ≡ receive_image_data_complete platform 9 null process_context 256
        (transferred platform 9 null 256 100 (150 ∷ 50 ∷ []) start)
deliver-transferred_example =
    deliver-transferred platform 9 null 256 process_context 100 (150 ∷ 50 ∷ []) start refl
      (omega arith) (omega arith) (omega arith) (omega arith, (omega arith, omega arith))

receive_image_data_complete-Completed_example :
    Completed platform.enter start 64
      (dll_load (input_of platform 9 null process_context start) 9 (state_of Types.zeroed start))
      (receive_image_data_complete platform 9 null process_context 256 start)
receive_image_data_complete-Completed_example =
    receive_image_data_complete-Completed platform 9 null start process_context 256 refl
      (λ entry w. (w, refl, refl)) (λ callback s. (s, refl))

-- The bytes of the sample image from `q` on
abbrev image_bytes : (q n : ℕ) → Bytes
image_bytes q zero = []
image_bytes q (suc n) = Sample.file q ∷ image_bytes (q + 1) n

abbrev image_parameters : List Pair
image_parameters = (codes "size", some (codes "448")) ∷ []

abbrev loading : Platform
loading = record platform { alloc = Sample.input.alloc }

-- What the last chunk returns, and the loader's blocks
abbrev answer : Run ℕ → Option (ℕ × List ℕ)
answer (done code w) = some (code, w.live)
answer _ = none

-- The image is loaded and entered.
upload_test :
    answer (
      transfer loading 9 null 64 256 (image_bytes 0 200) (image_bytes 200 248 ∷ []) (record start {
        heap = record fresh { strings = (64, some (record { size = 448; bytes = [] })) ∷ [] };
        context = record start.context { buffer_size = 448; bytes_remaining = 448 };
        context_store =
            receive_image_data_context (record process_context { raw_image_size = 448 });
      }))
    ≡ some (def_success 0, 0x400000 ∷ 7 ∷ [])
unfolding transfer receive_data receive_chunk dll_load dll_parse or_free parse_header read_word16
    read_word32 alloc dll_load_image dll_process_sections process_section dll_resolve_imports
    dll_relocate relocate_blocks relocate_entries relocate_entry decimal hexadecimal after_callbacks
    after_load callbacks_failed enter_image free_context input_of invoke_callbacks load_failed
    load_image receive_image_data_complete report report_loaded store_chunk call_callbacks
    dll_invoke_tls_callbacks advance_past advance_read_ptr check_header dll_free_context free_block
    parse_section_table process_section_list read_nt_headers read_section_headers add_to_word
    image_delta set_base copy_to_image free write_word32 c_string free_string store strncat
upload_test = refl

link_loaded_modules_stops_example :
    link_loaded_modules ascending 9
      (λ i. 0)
      ((codes "a.dll", 0x1000) ∷ (codes "b.dll", 0x2000) ∷ [])
      null
      fresh
    ≡ Pool.and_then
        (link_loaded_modules ascending 9 (λ i. 0) [] null fresh)
        (go_on (λ t. Pool.pure (def_error 0x11, t)))
link_loaded_modules_stops_example =
    link_loaded_modules_stops ascending 9 (λ i. 0) [] ((codes "b.dll", 0x2000) ∷ []) (codes "a.dll")
      0x1000 null fresh (omega arith)

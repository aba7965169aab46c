-- ===== src/Handlers/Commands/LoadCommand.antt =====
-- ProcessCommand on the load command that a client prints.
use nxdk_dyndxt.Base.{
  ℕ, ◌^◌, ◌<◌, ◌≡◌, true, none, some, List, [], ◌∷◌, ◌++◌, Bytes, arith, ltb, false, length,
}
use nxdk_dyndxt.Base.Format.{decimal}
use nxdk_dyndxt.Pool.{Ptr, null, look, Allocator, same_string, c_string}
use nxdk_dyndxt.Pool.Alloc.{NeverRefuses}
use nxdk_dyndxt.Response.{def_success}
use nxdk_dyndxt.Command
use nxdk_dyndxt.Command.Errors.{codes}
use nxdk_dyndxt.Command.Storage.Holds.{Pair}
use nxdk_dyndxt.Command.Parse.Print.{print, ArePrintable}
use nxdk_dyndxt.Command.Query.Lookup.{value_of}
use nxdk_dyndxt.Handlers
use nxdk_dyndxt.Handlers.{World, Run, CommandContext, ReceiveImageDataContext, done}
use nxdk_dyndxt.Loader.Types
use nxdk_dyndxt.Loader.Types.{DllLoaderInput}
use nxdk_dyndxt.Loader.Load.{dll_load}
use nxdk_dyndxt.Handlers.Complete.{
  Platform, written_byte, input_of, state_of, receive_image_data_complete,
}
use nxdk_dyndxt.Handlers.Complete.Settled.{Completed}
use nxdk_dyndxt.Handlers.Transfer.Upload.{joined, transfer}
use nxdk_dyndxt.Handlers.Transfer.Begin.{Begun, handle_dynamic_load-Begun}
use nxdk_dyndxt.Handlers.Commands.{handler_name_size, process_command}

-- `ddxt!load` and the parameters; the handler reads `!load` as a key without a value
abbrev pub load_command : List Pair → Bytes
load_command kvs = codes "ddxt" ++ print ((codes "!load", none) ∷ kvs)

load_key-ArePrintable : ArePrintable ((codes "!load", none) ∷ [])
load_key-ArePrintable = ground arith

-- For printable parameters, with which the command's printed text is shorter than 2 ^ 28
-- characters, an allocator that never refuses, and the decimal text of a number below 2 ^ 32 as the
-- first value of `size`, ProcessCommand on the load command returns XBOX_S_SEND_BINARY, with a new
-- block of this size as the buffer, the whole size remaining, and ReceiveImageData as the handler.
pub process_command-Begun :
    (a : Allocator) (export_table : Ptr) (kvs : List Pair) (size response_len : ℕ) (w : World)
    → NeverRefuses a Command.k_tag
    → NeverRefuses a Handlers.k_tag
    → ArePrintable kvs
    → length (load_command kvs) < 2 ^ 28
    → value_of (codes "size") kvs ≡ some (some (decimal 10 size))
    → size < 2 ^ 32
    → (v : World) × (process_command a export_table (load_command kvs) response_len w
        ≡ done (def_success 4) v)
      × Begun size v
unfolding process_command same_string c_string
process_command-Begun a export_table kvs size response_len w full full' printable small value fits =
    let (v, begun, is) =
      handle_dynamic_load-Begun a ((codes "!load", none) ∷ kvs) size response_len w full full'
        (load_key-ArePrintable.0, load_key-ArePrintable.1, tt, printable) (omega arith) value
        fits in
    let long : ltb (length (load_command kvs)) handler_name_size ≡ false = ground arith in
    (v, rw long begun, is)

-- The contexts of a file of `size` bytes at `base` that is to be relocated
abbrev pub load_context : (base size : ℕ) → ReceiveImageDataContext
load_context base size = record {
  dxt_main = null;
  image_base = base;
  raw_image_size = size;
  num_tls_callbacks = 0;
  tls_callbacks = null;
  relocation_needed = true;
}

-- What DLLLoad is called with in this world for a file that stands at `base`: the bytes of the file,
-- the pool and the registry
abbrev pub file_input : Platform → ℕ → Ptr → Bytes → Ptr → World → DllLoaderInput
file_input platform f export_table file base w =
    record (input_of platform f export_table (load_context base (length file)) w) {
      raw = record { size = length file; byte = written_byte platform.fresh file };
    }

-- The command was accepted; the chunks are then received into a new block, and with the whole file
-- in it ReceiveImageDataComplete is called, which loads it.
pub data Uploaded (platform : Platform) (f : ℕ) (export_table : Ptr) (response_len : ℕ) (c : Bytes)
    (cs : List Bytes) : Run ℕ → Type 0 where
  uploaded :
      (v u : World) (base : Ptr)
      → transfer platform f export_table base response_len c cs v
        ≡ receive_image_data_complete platform f export_table
            (load_context base (length (joined c cs)))
            response_len
            u
      → look u.heap.strings base
        ≡ some (record { size = length (joined c cs); bytes = joined c cs })
      → u.live ≡ v.live
      → Completed platform.enter u base
          (dll_load
            (file_input platform f export_table (joined c cs) base u)
            f
            (state_of Types.zeroed u))
          (transfer platform f export_table base response_len c cs v)
      → Uploaded platform f export_table response_len c cs (done (def_success 4) v)

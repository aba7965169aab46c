-- ===== src/Handlers/Complete.antt =====
-- ReceiveImageDataComplete of src/dxtmain.c: the load of the image that has been received.
pub mod Settled
use nxdk_dyndxt.Base.{
  ℕ, zero, suc, ◌+◌, ◌-◌, ◌*◌, ◌/◌, ◌%◌, ◌^◌, Bool, true, false, not, Option, none, some, [], ◌∷◌,
  ◌++◌, Bytes, ℤ, pos, negsuc, ◌==◌, ltb, if◌then◌else◌, length, get_elem?,
}
use nxdk_dyndxt.Base.Format.{decimal, hexadecimal}
use nxdk_dyndxt.Pool
use nxdk_dyndxt.Pool.{Ptr, null, Text, Heap, Allocator, look, c_string, alloc_string, free_string}
use nxdk_dyndxt.Response
use nxdk_dyndxt.Response.{def_success, def_error, store, strncat, set_xbdm_error}
use nxdk_dyndxt.Command.{CommandParameters}
use nxdk_dyndxt.Command.Storage.{delete}
use nxdk_dyndxt.Command.Parse.{parse_into}
use nxdk_dyndxt.Command.Numbers.{char_at, get_uint32}
use nxdk_dyndxt.Command.Errors.{codes, print_error}
use nxdk_dyndxt.Registry.{get_method_by_ordinal, get_method_by_name}
use nxdk_dyndxt.Loader.Types
use nxdk_dyndxt.Loader.Types.{
  DllLoaderContext, DllLoaderStatus, Resolution, resolved, not_found, lost, endless, DllLoaderInput,
  DllLoaderOutput,
}
use nxdk_dyndxt.Loader.Run
use nxdk_dyndxt.Loader.Parse.{dll_free_context}
use nxdk_dyndxt.Loader.Load.{dll_load, dll_invoke_tls_callbacks}
use nxdk_dyndxt.Handlers.{
  k_tag, ReceiveImageDataContext, unwritten, send_method_addresses_context,
  receive_image_data_context, receive_image_data, World, Run, M, done, undefined, unfinished, pure,
  and_then, ◌>>=◌, ◌>>◌, crash, get, put, on_heap, on_response,
}

-- The numbers of the enumerations
abbrev pub context_number : DllLoaderContext → ℕ
context_number Types.not_parsed = 0
context_number Types.dos_header = 1
context_number Types.nt_header = 2
context_number Types.nt_header_section_table = 3
context_number Types.load_image = 4
context_number Types.load_section = 5
context_number Types.resolve_imports = 6
context_number Types.relocate = 7
context_number Types.invoke_tls_callbacks = 8

abbrev pub status_number : DllLoaderStatus → ℕ
status_number Types.ok = 0
status_number Types.error = 1
status_number Types.file_too_small = 2
status_number Types.invalid_signature = 3
status_number Types.wrong_machine_type = 4
status_number Types.fixed_base = 5
status_number Types.out_of_memory = 6
status_number Types.dll_forwarding_not_supported = 7
status_number Types.unresolved_import = 8
status_number Types.no_relocation_data = 9
status_number Types.unsupported_relocation_type = 10

-- `sprintf(response, "<text>%d::%d ", …)` and the `strncat` of a message that is not empty
unfoldable pub report : Bytes → DllLoaderOutput → ℕ → Text → Option (Unit {0} × Text)
unfolding store strncat decimal
report text o response_len response =
    Response.◌>>=◌
      (store response (
        text
        ++ (decimal 10 (context_number o.context)
            ++ (codes "::" ++ (decimal 10 (status_number o.status) ++ (b' ' ∷ 0 ∷ []))))))
      λ written.
        if char_at o.error_message 0 == 0
        then some (tt, written)
        else Response.◌>>=◌
            (strncat written 0 o.error_message
              ((response_len + 2 ^ 32 - (length (c_string written.bytes) + 1)) % 2 ^ 32))
            λ extended. some (tt, extended)

-- `sprintf(response, "image_base=0x%X entrypoint=0x%X", …)`
unfoldable pub report_loaded : ℕ → ℕ → Text → Option (Unit {0} × Text)
unfolding store hexadecimal
report_loaded image_base entrypoint response =
    Response.◌>>=◌
      (store response (
        codes "image_base=0x"
        ++ (hexadecimal 8 image_base
            ++ (codes " entrypoint=0x" ++ (hexadecimal 8 entrypoint ++ 0 ∷ [])))))
      λ written. some (tt, written)

-- What is not part of this repository: the pool's answer to the loader's n-th request and what its
-- memory holds, the TLS callbacks, and the code at an entry point
pub record Platform : Type 0 where
  pub alloc : ℕ → ℕ → Ptr
  pub fresh : ℕ → ℕ
  pub callback : ℕ → Run.M (Unit {0})
  pub enter : ℕ → M (Unit {0})

-- The bytes of a block of which these were written
abbrev pub written_byte : (ℕ → ℕ) → Bytes → ℕ → ℕ
written_byte fresh bytes q = elim (get_elem? bytes q) [ none ↦ fresh q | some b ↦ b ]

-- A lookup in the registry, as the loader sees it
abbrev pub resolution : Pool.Run (Bool × ℕ) → Resolution
resolution (Pool.ok (true, address) h) = resolved address
resolution (Pool.ok (false, address) h) = not_found
resolution Pool.fault = lost
resolution Pool.out_of_fuel = endless

-- The loader's state in this world, for an output
abbrev pub state_of : DllLoaderOutput → World → Types.State
state_of o w = record { output = o; live = w.live; calls = w.calls }

abbrev pub with_state : World → Types.State → World
with_state w s = record w { live = s.live; calls = s.calls }

abbrev pub in_world : World → Run.Run (Unit {0}) → Run (Unit {0})
in_world w (Run.returned _ s) = done tt (with_state w s)
in_world w (Run.failed s) = done tt (with_state w s)
in_world w Run.fault = undefined
in_world w Run.out_of_fuel = unfinished

-- `DLLFreeContext(&ctx, keep_image)`
unfoldable pub free_context : Bool → DllLoaderOutput → M (Unit {0})
unfolding dll_free_context
free_context keep_image o w = in_world w (dll_free_context keep_image (state_of o w))

-- The branch `if (!DLLLoad(&ctx))`
unfoldable pub load_failed : Ptr → DllLoaderOutput → ℕ → M ℕ
unfolding report free_context
load_failed image_base o response_len = do
  on_response (report (codes "DLLLoad failed ") o response_len)
  free_context false o
  on_heap (free_string image_base)
  pure (def_error 5)

-- The branch `if (!DLLInvokeTLSCallbacks(&ctx))`
unfoldable pub callbacks_failed : DllLoaderOutput → ℕ → M ℕ
unfolding report free_context
callbacks_failed o response_len = do
  on_response (report (codes "Failed to invoke TLS callbacks ") o response_len)
  free_context false o
  pure (def_error 5)

module _ (platform : Platform) (f : ℕ) (export_table : Ptr) where
  -- `ctx.input`
  unfoldable pub input_of : ReceiveImageDataContext → World → DllLoaderInput
  input_of receive_ctx w = record {
    raw_data = receive_ctx.image_base;
    raw = record {
      size = receive_ctx.raw_image_size;
      byte = elim (look w.heap.strings receive_ctx.image_base) [
        | none ↦ platform.fresh
        | some t ↦ written_byte platform.fresh t.bytes
      ];
    };
    alloc = platform.alloc;
    fresh = platform.fresh;
    resolve_import_by_ordinal =
        λ image ordinal. resolution (get_method_by_ordinal f export_table image ordinal w.heap);
    resolve_import_by_name =
        λ image name. resolution (get_method_by_name f export_table image name w.heap);
  }

  -- From the response to a load that succeeded on
  unfoldable pub enter_image : DllLoaderOutput → M ℕ
  unfolding report_loaded free_context
  enter_image o = do
    on_response (report_loaded o.image o.entrypoint)
    platform.enter o.entrypoint
    free_context true o
    pure (def_success 0)

  -- What follows DLLInvokeTLSCallbacks
  unfoldable pub after_callbacks : ℕ → World → Run.Run (Unit {0}) → Run ℕ
  unfolding callbacks_failed enter_image
  after_callbacks response_len w (Run.returned _ s) = enter_image s.output (with_state w s)
  after_callbacks response_len w (Run.failed s) =
      callbacks_failed s.output response_len (with_state w s)
  after_callbacks response_len w Run.fault = undefined
  after_callbacks response_len w Run.out_of_fuel = unfinished

  -- `if (!DLLInvokeTLSCallbacks(&ctx))`, and what follows
  unfoldable pub invoke_callbacks : DllLoaderOutput → ℕ → M ℕ
  unfolding after_callbacks
  invoke_callbacks o response_len w =
      after_callbacks response_len w (dll_invoke_tls_callbacks platform.callback f (state_of o w))

  -- What follows DLLLoad
  unfoldable pub after_load : Ptr → ℕ → World → Run.Run (Unit {0}) → Run ℕ
  unfolding load_failed invoke_callbacks
  after_load image_base response_len w (Run.returned _ s) =
      (on_heap (free_string image_base) >>= λ _. invoke_callbacks s.output response_len)
        (with_state w s)
  after_load image_base response_len w (Run.failed s) =
      load_failed image_base s.output response_len (with_state w s)
  after_load image_base response_len w Run.fault = undefined
  after_load image_base response_len w Run.out_of_fuel = unfinished

  -- ReceiveImageDataComplete on an image that is to be relocated
  unfoldable pub load_image : ReceiveImageDataContext → ℕ → M ℕ
  unfolding after_load input_of
  load_image receive_ctx response_len w =
      after_load receive_ctx.image_base response_len w
        (dll_load (input_of receive_ctx w) f (state_of Types.zeroed w))

  -- ReceiveImageDataComplete
  unfoldable pub receive_image_data_complete : ReceiveImageDataContext → ℕ → M ℕ
  unfolding report_loaded load_image
  receive_image_data_complete receive_ctx response_len =
      if not receive_ctx.relocation_needed
      then (do
        platform.enter receive_ctx.dxt_main
        on_response (report_loaded receive_ctx.image_base receive_ctx.dxt_main)
        pure (def_success 0))
      else load_image receive_ctx response_len

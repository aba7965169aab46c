-- ===== src/Handlers/Transfer.antt =====
-- The binary transfer of an image: HandleDynamicLoad and ReceiveImageData of src/dxtmain.c.
pub mod Chunks
pub mod Upload
pub mod Begin
use nxdk_dyndxt.Base.{
  ℕ, zero, suc, ◌+◌, ◌-◌, ◌*◌, ◌/◌, ◌%◌, ◌^◌, Bool, true, false, not, Option, none, some, [], ◌∷◌,
  ◌++◌, Bytes, ℤ, pos, negsuc, ◌==◌, ltb, if◌then◌else◌, length,
}
use nxdk_dyndxt.Base.Format.{decimal, hexadecimal}
use nxdk_dyndxt.Pool
use nxdk_dyndxt.Pool.{Ptr, null, Text, Heap, Allocator, look, c_string, alloc_string, free_string}
use nxdk_dyndxt.Response
use nxdk_dyndxt.Response.{def_success, def_error, store, strncat, set_xbdm_error}
use nxdk_dyndxt.Command.{CommandParameters}
use nxdk_dyndxt.Command.Storage.{delete}
use nxdk_dyndxt.Command.Parse.{parse_into}
use nxdk_dyndxt.Command.Numbers.{char_at, get_uint32}
use nxdk_dyndxt.Command.Errors.{codes, print_error}
use nxdk_dyndxt.Registry.{get_method_by_ordinal, get_method_by_name}
use nxdk_dyndxt.Loader.Types
use nxdk_dyndxt.Loader.Types.{DllLoaderContext, DllLoaderStatus, DllLoaderInput, DllLoaderOutput}
use nxdk_dyndxt.Loader.Run
use nxdk_dyndxt.Loader.Parse.{dll_free_context}
use nxdk_dyndxt.Loader.Load.{dll_load, dll_invoke_tls_callbacks}
use nxdk_dyndxt.Handlers.{
  k_tag, ReceiveImageDataContext, unwritten, send_method_addresses_context,
  receive_image_data_context, receive_image_data, World, Run, M, done, undefined, unfinished, pure,
  and_then, ◌>>=◌, ◌>>◌, crash, get, put, on_heap, on_response,
}
use nxdk_dyndxt.Handlers.Complete.{Platform, receive_image_data_complete}

-- `result < 0`
abbrev pub is_negative : ℤ → Bool
is_negative (pos n) = false
is_negative (negsuc n) = true

-- HandleDynamicLoad behind CPGetUInt32: the allocation, and the contexts
unfoldable pub begin_transfer : Allocator → ℕ → ℕ → M ℕ
begin_transfer a size response_len = do
  allocation ← on_heap (alloc_string a size k_tag)
  if allocation == null
      then on_response (λ response.
        set_xbdm_error (def_error 0xE) (codes "Allocation failed") response response_len)
      else (do
        w ← get
        put (record w {
          context_store = receive_image_data_context (record {
            dxt_main = null;
            image_base = allocation;
            raw_image_size = size;
            num_tls_callbacks = 0;
            tls_callbacks = null;
            relocation_needed = true;
          });
          context = record w.context {
            buffer = allocation;
            buffer_size = size;
            bytes_remaining = size;
            handler = receive_image_data;
          };
        })
        pure (def_success 4))

-- HandleDynamicLoad
unfoldable pub handle_dynamic_load : Allocator → Bytes → ℕ → M ℕ
unfolding begin_transfer
handle_dynamic_load a command response_len = do
  (result, cp) ← on_heap (parse_into a (some command))
  if is_negative result
      then on_response (λ response. print_error result response response_len)
      else (do
        (size_found, size) ← on_heap (get_uint32 (some (codes "size")) (some cp))
        cp' ← on_heap (delete cp)
        if not size_found
            then on_response (λ response.
              set_xbdm_error (def_error 5) (codes "Missing required 'size' param") response
                response_len)
            else begin_transfer a size response_len)

module _ (platform : Platform) (f : ℕ) (export_table : Ptr) where
  -- ReceiveImageData behind the test of `data_size`; `uint32_t` arithmetic on sizes below 2 ^ 32
  unfoldable pub receive_chunk : ReceiveImageDataContext → ℕ → M ℕ
  unfolding receive_image_data_complete
  receive_chunk process_context response_len = do
    w ← get
    let c = w.context
    let bytes_remaining = (c.bytes_remaining + 2 ^ 32 - c.data_size) % 2 ^ 32
    put (record w {
      context = record c {
        buffer = c.buffer + c.data_size;
        buffer_size = (c.buffer_size + 2 ^ 32 - c.data_size) % 2 ^ 32;
        bytes_remaining = bytes_remaining;
      };
    })
    if not (bytes_remaining == 0)
        then pure (def_success 0)
        else receive_image_data_complete platform f export_table process_context response_len

  -- ReceiveImageData
  unfoldable pub receive_data : ℕ → M ℕ
  unfolding receive_chunk
  receive_data response_len w = elim w.context_store [
    | unwritten ↦ undefined
    | send_method_addresses_context cursor ↦ undefined
    | receive_image_data_context process_context ↦
        if w.context.data_size == 0
        then done (def_error 0) w
        else receive_chunk process_context response_len w
  ]

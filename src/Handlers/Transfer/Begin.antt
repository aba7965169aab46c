-- ===== src/Handlers/Transfer/Begin.antt =====
-- HandleDynamicLoad on the text that a client prints.
use nxdk_dyndxt.Base.{ℕ, ◌^◌, ◌<◌, ◌≡◌, ◌≢◌, refl, true, some, List, [], ≢→==, ==_refl, length}
use nxdk_dyndxt.Base.Format.{decimal}
use nxdk_dyndxt.Pool.{Ptr, null, Allocator, look, alloc_string}
use nxdk_dyndxt.Pool.Alloc.{NeverRefuses}
use nxdk_dyndxt.Response.{def_success}
use nxdk_dyndxt.Command
use nxdk_dyndxt.Command.Errors.{codes}
use nxdk_dyndxt.Command.Storage.Holds.{Pair}
use nxdk_dyndxt.Command.Parse.Print.{print, ArePrintable}
use nxdk_dyndxt.Command.Query.Lookup.{value_of}
use nxdk_dyndxt.Command.Session.{parse_into-print}
use nxdk_dyndxt.Command.Numbers.Decimal.{got_number}
use nxdk_dyndxt.Handlers.{k_tag, receive_image_data, receive_image_data_context, World, done}
use nxdk_dyndxt.Handlers.Transfer.{handle_dynamic_load, begin_transfer}

-- A transfer of `size` bytes into the block at `base` has begun.
pub record Begun (size : ℕ) (w : World) : Type 0 where
  pub base : Ptr
  pub nonnull : base ≢ null
  pub block : look w.heap.strings base ≡ some (record { size = size; bytes = [] })
  pub stored :
      w.context_store
      ≡ receive_image_data_context (record {
        dxt_main = null;
        image_base = base;
        raw_image_size = size;
        num_tls_callbacks = 0;
        tls_callbacks = null;
        relocation_needed = true;
      })
  pub context : w.context ≡ record w.context {
    buffer = base;
    buffer_size = size;
    bytes_remaining = size;
    handler = receive_image_data;
  }

begin_transfer-Begun :
    (a : Allocator) (size response_len : ℕ) (w : World)
    → NeverRefuses a k_tag
    → (v : World) × (begin_transfer a size response_len w ≡ done (def_success 4) v) × Begun size v
unfolding begin_transfer alloc_string
begin_transfer-Begun a size response_len w full =
    let p = a.pick w.heap size k_tag in
    let nonnull : p ≢ null = full w.heap size in
    rw (≢→== p null nonnull, ≢→== p null nonnull)
      (
        _,
        refl,
        record {
          base = p;
          nonnull = nonnull;
          block = rw (==_refl p) refl;
          stored = refl;
          context = refl;
        },
      )

-- For printable keys and values whose printed text is shorter than 2 ^ 28 characters, an allocator
-- that never refuses, and the decimal text of a number below 2 ^ 32 as the first value of `size`,
-- HandleDynamicLoad on the print returns XBOX_S_SEND_BINARY, with a new block of this size as the
-- buffer, the whole size remaining, and ReceiveImageData as the handler.
pub handle_dynamic_load-Begun :
    (a : Allocator) (kvs : List Pair) (size response_len : ℕ) (w : World)
    → NeverRefuses a Command.k_tag
    → NeverRefuses a k_tag
    → ArePrintable kvs
    → length (print kvs) < 2 ^ 28
    → value_of (codes "size") kvs ≡ some (some (decimal 10 size))
    → size < 2 ^ 32
    → (v : World) × (handle_dynamic_load a (print kvs) response_len w ≡ done (def_success 4) v)
      × Begun size v
unfolding handle_dynamic_load
handle_dynamic_load-Begun a kvs size response_len w full full' printable small value fits =
    let session = parse_into-print a w.heap kvs full printable small in
    let (r, run, answers) = session.got (codes "size") in
    let number =
      got_number session.h (codes "size") session.cp size r fits run (rw value at answers) in
    let (h', deleted, restored) = session.deleted in
    let (v, begun, is) = begin_transfer-Begun a size response_len (record w { heap = h' }) full' in
    (v, rw (session.returned, number, deleted) begun, is)

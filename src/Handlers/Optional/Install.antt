-- ===== src/Handlers/Optional/Install.antt =====
-- HandleInstall on the command that a client prints, and the transfer behind it.
use nxdk_dyndxt.Base.{
  ℕ, ◌+◌, ◌%◌, ◌^◌, ◌<◌, ◌≤◌, ◌≡◌, refl, ap, ◌∙◌, inl, inr, true, false, none, some, List, [], ◌∷◌,
  ◌++◌, Bytes, arith, ◌==◌, ltb, leb, Bool-cases, length,
}
use nxdk_dyndxt.Base.Format.{decimal}
use nxdk_dyndxt.Pool.{look, Ptr, null, Heap, Allocator, ok, same_string, c_string}
use nxdk_dyndxt.Pool.Alloc.{NeverRefuses}
use nxdk_dyndxt.Response.{def_success, def_error}
use nxdk_dyndxt.Response.Truncate.{set_xbdm_error-take}
use nxdk_dyndxt.Command
use nxdk_dyndxt.Command.{CommandParameters}
use nxdk_dyndxt.Command.Errors.{codes}
use nxdk_dyndxt.Command.Storage.Holds.{Pair, Restored}
use nxdk_dyndxt.Command.Parse.Print.{print, ArePrintable}
use nxdk_dyndxt.Command.Query.Lookup.{value_of}
use nxdk_dyndxt.Command.Session.{parse_into-print}
use nxdk_dyndxt.Command.Numbers.{get_uint32}
use nxdk_dyndxt.Command.Numbers.Decimal.{got_number}
use nxdk_dyndxt.Handlers.{
  M, ReceiveImageDataContext, CommandContext, receive_image_data, receive_image_data_context, World,
  Run, done, pure, ◌>>◌, on_response,
}
use nxdk_dyndxt.Handlers.Complete.{Platform, report_loaded, receive_image_data_complete}
use nxdk_dyndxt.Handlers.Transfer.Upload.{joined, AreFilled, transfer, Received, transfer-Received}
use nxdk_dyndxt.Handlers.Commands.{handler_name_size}
use nxdk_dyndxt.Handlers.Optional.{
  process_any_command, install_error, begin_install, handle_install, refuse,
}

-- The entry point stands in an image that is not empty, and not at NULL.
abbrev pub IsEntry : (base size dxt_main : ℕ) → Type 0
IsEntry base size dxt_main =
    (0 < base) × (0 < size) × (base ≤ dxt_main) × (dxt_main < (base + size) % 2 ^ 32)

-- The contexts of an image at `base` that needs no relocation
abbrev pub installed_context : (base size dxt_main : ℕ) → ReceiveImageDataContext
installed_context base size dxt_main = record {
  dxt_main = dxt_main;
  image_base = base;
  raw_image_size = size;
  num_tls_callbacks = 0;
  tls_callbacks = null;
  relocation_needed = false;
}

abbrev pub receiving : (base size : ℕ) → CommandContext → CommandContext
receiving base size c = record c {
  buffer = base;
  buffer_size = size;
  bytes_remaining = size;
  handler = receive_image_data;
}

-- The two ends of HandleInstall
pub data Installs (base size dxt_main : ℕ) (w : World) (run : Run ℕ) : Type 0 where
  begun :
      (v : World)
      → IsEntry base size dxt_main
      → run ≡ done (def_success 4) v
      → Restored w.heap v.heap
      → v.context_store ≡ receive_image_data_context (installed_context base size dxt_main)
      → v.context ≡ receiving base size w.context
      → Installs base size dxt_main w run
  refused :
      (v : World)
      → (IsEntry base size dxt_main → ⊥)
      → run ≡ done (def_error 5) v
      → Restored w.heap v.heap
      → v.context_store ≡ w.context_store
      → v.context ≡ w.context
      → Installs base size dxt_main w run

-- The tests of HandleInstall, of three values that were found
data Tested (base size dxt_main : ℕ) : Type 0 where
  passed :
      IsEntry base size dxt_main
      → install_error true true true base size dxt_main ≡ none
      → Tested base size dxt_main
  failed :
      (message : Bytes)
      → (IsEntry base size dxt_main → ⊥)
      → install_error true true true base size dxt_main ≡ some message
      → Tested base size dxt_main

tests : (base size dxt_main : ℕ) → Tested base size dxt_main
unfolding install_error
tests base size dxt_main = elim (Bool-cases (base == 0)) [
  | inl y ↦ failed (codes "Invalid 'base' param") (λ e. ground arith) (rw y refl)
  | inr y ↦ elim (Bool-cases (size == 0)) [
    | inl z ↦ failed (codes "Invalid 'length' param") (λ e. ground arith) (rw (y, z) refl)
    | inr z ↦ elim (Bool-cases (ltb dxt_main base)) [
      | inl u ↦
          failed (codes "Invalid 'entrypoint' param, < base") (λ e. ground arith)
            (rw (y, z, u) refl)
      | inr u ↦ elim (Bool-cases (leb ((base + size) % 2 ^ 32) dxt_main)) [
        | inl v ↦
            failed (codes "Invalid 'entrypoint' param, > image") (λ e. ground arith)
              (rw (y, z, u, v) refl)
        | inr v ↦ passed (ground arith) (rw (y, z, u, v) refl)
      ]
    ]
  ]
]

refuse-Installs :
    (base size dxt_main response_len : ℕ) (message : Bytes) (w : World) (h : Heap)
    → (IsEntry base size dxt_main → ⊥)
    → Restored w.heap h
    → response_len < w.response.size
    → Installs base size dxt_main w
        (refuse (def_error 5) message response_len (record w { heap = h }))
refuse-Installs base size dxt_main len message w h wrong restored room =
    rw (set_xbdm_error-take (def_error 5) message w.response len room)
      (refused _ wrong refl restored refl refl)

module _ (a : Allocator) (kvs : List Pair) (base size dxt_main : ℕ)
    (full : NeverRefuses a Command.k_tag) (printable : ArePrintable kvs)
    (small : length (print kvs) < 2 ^ 28)
    (base_value : value_of (codes "base") kvs ≡ some (some (decimal 10 base)))
    (length_value : value_of (codes "length") kvs ≡ some (some (decimal 10 size)))
    (main_value : value_of (codes "entrypoint") kvs ≡ some (some (decimal 10 dxt_main)))
    (base_fits : base < 2 ^ 32) (size_fits : size < 2 ^ 32) (main_fits : dxt_main < 2 ^ 32) where
  -- For printable parameters with decimal texts of numbers below 2 ^ 32 as the first values of `base`,
  -- `length` and `entrypoint`, a printed text shorter than 2 ^ 28 characters, an allocator that never
  -- refuses, and a response buffer of more than `response_len` bytes: HandleInstall on the print
  -- returns XBOX_S_SEND_BINARY and sets the contexts up for an image that is not relocated, if the
  -- entry point stands in an image that is not empty and not at NULL, where the image's end is taken
  -- modulo 2 ^ 32; otherwise it returns XBOX_E_FAIL and changes no context. It frees the parameters.
  pub handle_install-Installs :
      (w : World) (response_len : ℕ)
      → response_len < w.response.size
      → Installs base size dxt_main w (handle_install a (print kvs) response_len w)
  unfolding handle_install begin_install
  handle_install-Installs w len room =
      let session = parse_into-print a w.heap kvs full printable small in
      let number : (key : Bytes) (n : ℕ)
          → value_of key kvs ≡ some (some (decimal 10 n))
          → n < 2 ^ 32
          → get_uint32 (some key) (some session.cp) session.h ≡ ok (true, n) session.h =
        λ key n value fits.
          (let (r, run, answers) = session.got key in
            got_number session.h key session.cp n r fits run (rw value at answers)) in
      let (h', deleted, restored) = session.deleted in
      let first = number (codes "base") base base_value base_fits in
      let second = number (codes "length") size length_value size_fits in
      let third = number (codes "entrypoint") dxt_main main_value main_fits in
      elim (tests base size dxt_main) [
        | passed is none_fails ↦
            rw (session.returned, first, second, third, deleted, none_fails)
              (begun _ is refl restored refl refl)
        | failed message wrong fails ↦
            rw (session.returned, first, second, third, deleted, fails)
              (refuse-Installs base size dxt_main len message w h' wrong restored room)
      ]

-- `ddxt!install` and the parameters; the handler reads `stall` as a key without a value
abbrev pub install_command : List Pair → Bytes
install_command kvs = codes "ddxt!in" ++ print ((codes "stall", none) ∷ kvs)

stall_key-ArePrintable : ArePrintable ((codes "stall", none) ∷ [])
stall_key-ArePrintable = ground arith

-- The code at the entry point, and the response behind it
abbrev pub enter_installed : Platform → (base dxt_main : ℕ) → M ℕ
enter_installed platform base dxt_main = do
  platform.enter dxt_main
  on_response (report_loaded base dxt_main)
  pure (def_success 0)

Installs-entered :
    (platform : Platform) (f : ℕ) (export_table : Ptr) (response_len : ℕ) (c : Bytes)
    (cs : List Bytes) (base dxt_main size : ℕ) (w : World) (run : Run ℕ)
    → IsEntry base (length (joined c cs)) dxt_main
    → length (joined c cs) < 2 ^ 32
    → AreFilled c cs
    → look w.heap.strings base ≡ some (record { size = size; bytes = [] })
    → length (joined c cs) ≤ size
    → Installs base (length (joined c cs)) dxt_main w run
    → (v : World) × (u : World) × (run ≡ done (def_success 4) v)
      × Restored w.heap v.heap
      × (v.context ≡ receiving base (length (joined c cs)) w.context)
      × (transfer platform f export_table base response_len c cs v
          ≡ enter_installed platform base dxt_main u)
      × Received base size (joined c cs) v u
unfolding receive_image_data_complete
Installs-entered platform f export_table len c cs base dxt_main size w run entry fits filled block
      room (begun v _ is restored stored context) =
    let (u, received, full) =
      transfer-Received platform f export_table base len
        (installed_context base (length (joined c cs)) dxt_main) c cs size v stored
        (restored.strings base ∙ block) (ap (λ x. x.buffer) context)
        (ap (λ x. x.bytes_remaining) context) room fits filled in
    (v, u, is, restored, context, received, full)
Installs-entered platform f export_table len c cs base dxt_main size w run entry fits filled block
      room (refused v wrong is restored stored context) =
    absurd (wrong entry)

-- For printable parameters with decimal texts of numbers below 2 ^ 32 as the first values of `base`,
-- `length` and `entrypoint`, with which the install command's printed text is shorter than 2 ^ 28
-- characters, an allocator that never refuses, a response buffer of more than `response_len` bytes,
-- an entry point in an image that is not empty and not at NULL, a reserved block at `base` that has
-- room for the image and was not written, and chunks that are not empty and make up the image:
-- ProcessCommand returns XBOX_S_SEND_BINARY, with the parameters freed, `base` as the buffer and the
-- image's length as its size and as the bytes that remain; the chunks, written at `ctx->buffer`,
-- put just the bytes of the image at `base` and change no other string; and with them there the last
-- chunk enters the image, reports where it stands, and returns XBOX_S_OK.
pub install-entered :
    (platform : Platform) (a : Allocator) (f : ℕ) (export_table : Ptr) (kvs : List Pair)
    (base dxt_main response_len size : ℕ) (c : Bytes) (cs : List Bytes) (w : World)
    → NeverRefuses a Command.k_tag
    → ArePrintable kvs
    → length (install_command kvs) < 2 ^ 28
    → value_of (codes "base") kvs ≡ some (some (decimal 10 base))
    → value_of (codes "length") kvs ≡ some (some (decimal 10 (length (joined c cs))))
    → value_of (codes "entrypoint") kvs ≡ some (some (decimal 10 dxt_main))
    → base < 2 ^ 32
    → length (joined c cs) < 2 ^ 32
    → IsEntry base (length (joined c cs)) dxt_main
    → AreFilled c cs
    → look w.heap.strings base ≡ some (record { size = size; bytes = [] })
    → length (joined c cs) ≤ size
    → response_len < w.response.size
    → (v : World) × (u : World) × (process_any_command a f export_table
          (install_command kvs)
          response_len
          w
        ≡ done (def_success 4, export_table) v)
      × Restored w.heap v.heap
      × (v.context ≡ receiving base (length (joined c cs)) w.context)
      × (transfer platform f export_table base response_len c cs v
          ≡ enter_installed platform base dxt_main u)
      × Received base size (joined c cs) v u
unfolding process_any_command same_string c_string
install-entered platform a f export_table kvs base dxt_main len size c cs w full printable small
      base_value length_value main_value base_fits size_fits entry filled block fits room =
    let main_fits : dxt_main < 2 ^ 32 = omega (arith, entry.3) in
    let (v, u, run, restored, context, entered, received) =
      Installs-entered platform f export_table len c cs base dxt_main size w _ entry size_fits
        filled block fits
        (handle_install-Installs a ((codes "stall", none) ∷ kvs) base (length (joined c cs))
          dxt_main full (stall_key-ArePrintable.0, stall_key-ArePrintable.1, tt, printable)
          (omega arith) base_value length_value main_value base_fits size_fits main_fits w len
          room) in
    let long : ltb (length (install_command kvs)) handler_name_size ≡ false = ground arith in
    (v, u, rw (long, run) refl, restored, context, entered, received)

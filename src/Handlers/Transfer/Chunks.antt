-- ===== src/Handlers/Transfer/Chunks.antt =====
-- ReceiveImageData called for one chunk after the other, as XBDM does.
use nxdk_dyndxt.Base.{
  ℕ, ◌+◌, ◌-◌, ◌%◌, ◌^◌, ◌<◌, ◌≡◌, ◌≢◌, refl, sym, ap, ◌∙◌, List, [], ◌∷◌, arith, ◌==◌,
  if◌then◌else◌, ≢→==,
}
use nxdk_dyndxt.Pool.{Ptr}
use nxdk_dyndxt.Response.{def_success}
use nxdk_dyndxt.Handlers.{
  ReceiveImageDataContext, receive_image_data_context, World, M, pure, ◌>>=◌, ◌>>◌, get, put,
}
use nxdk_dyndxt.Handlers.Complete.{Platform, receive_image_data_complete}
use nxdk_dyndxt.Handlers.Transfer.{receive_chunk, receive_data}

abbrev pub total : ℕ → List ℕ → ℕ
total n [] = n
total n (m ∷ ms) = n + total m ms

abbrev pub ArePositive : ℕ → List ℕ → Type 0
ArePositive n [] = n ≢ 0
ArePositive n (m ∷ ms) = (n ≢ 0) × ArePositive m ms

abbrev pub last : ℕ → List ℕ → ℕ
last n [] = n
last n (m ∷ ms) = last m ms

module _ (platform : Platform) (f : ℕ) (export_table : Ptr) (response_len : ℕ) where
  -- `n` more bytes stand in the buffer, and the handler is called.
  abbrev pub receive : ℕ → M ℕ
  receive n = do
    w ← get
    put (record w { context = record w.context { data_size = n } })
    receive_data platform f export_table response_len

  -- Chunks of these sizes, until the handler returns something else than XBOX_S_OK
  unfoldable pub deliver : ℕ → List ℕ → M ℕ
  deliver n [] = receive n
  deliver n (m ∷ ms) = do
    code ← receive n
    if code == def_success 0 then deliver m ms else pure code

  -- The world behind all chunks
  abbrev pub transferred : ℕ → List ℕ → World → World
  transferred n ms w = record w {
    context = record w.context {
      data_size = last n ms;
      buffer = w.context.buffer + total n ms;
      buffer_size = 0;
      bytes_remaining = 0;
    };
  }

  abbrev with_store : ReceiveImageDataContext → World → World
  with_store process_context w = record w {
    context_store = receive_image_data_context process_context;
  }

  deliver_stored :
      (process_context : ReceiveImageDataContext) (n : ℕ) (ms : List ℕ) (w : World)
      → w.context.bytes_remaining ≡ total n ms
      → w.context.buffer_size ≡ total n ms
      → total n ms < 2 ^ 32
      → ArePositive n ms
      → deliver n ms (with_store process_context w)
        ≡ receive_image_data_complete platform f export_table process_context response_len
            (transferred n ms (with_store process_context w))
  unfolding deliver receive_data receive_chunk
  deliver_stored pc n [] w left room small positive =
      let none_left : (n + 2 ^ 32 - n) % 2 ^ 32 ≡ 0 = omega arith in
      rw (≢→== n 0 positive, left, room, none_left) refl
  deliver_stored pc n (m ∷ ms) w left room small (positive, rest) =
      let t = total m ms in
      let some_left : (n + t + 2 ^ 32 - n) % 2 ^ 32 ≡ t = omega arith in
      let nonzero : t ≢ 0 = total_positive m ms rest in
      let w' = record w {
        context = record w.context {
          data_size = n;
          buffer = w.context.buffer + n;
          buffer_size = t;
          bytes_remaining = t;
        };
      } in
      let assoc : w.context.buffer + n + t ≡ w.context.buffer + (n + t) = omega arith in
      rw (≢→== n 0 positive, left, room, some_left, ≢→== t 0 nonzero)
        (deliver_stored pc m ms w' refl refl (omega arith) rest
          ∙ ap
              (λ b.
                receive_image_data_complete platform f export_table pc response_len
                  (record (with_store pc w) {
                    context = record w.context {
                      data_size = last m ms;
                      buffer = b;
                      buffer_size = 0;
                      bytes_remaining = 0;
                    };
                  }))
              assoc)
    where
      total_positive : (m : ℕ) (ms : List ℕ) → ArePositive m ms → total m ms ≢ 0
      total_positive m [] p = p
      total_positive m (k ∷ ms) (p, q) = omega arith

  -- If the contexts are those of a transfer of fewer than 2 ^ 32 bytes, and the chunks are not
  -- empty and make up just these bytes, then every call but the last returns XBOX_S_OK, and the last
  -- one is ReceiveImageDataComplete, with the buffer at the end of the file and nothing left.
  pub deliver-transferred :
      (process_context : ReceiveImageDataContext) (n : ℕ) (ms : List ℕ) (w : World)
      → w.context_store ≡ receive_image_data_context process_context
      → w.context.bytes_remaining ≡ total n ms
      → w.context.buffer_size ≡ total n ms
      → total n ms < 2 ^ 32
      → ArePositive n ms
      → deliver n ms w
        ≡ receive_image_data_complete platform f export_table process_context response_len
            (transferred n ms w)
  deliver-transferred pc n ms w store left room small positive =
      let same : w ≡ with_store pc w = ap (λ s. record w { context_store = s }) store in
      ap (deliver n ms) same
      ∙ deliver_stored pc n ms w left room small positive
      ∙ ap
          (λ v.
            receive_image_data_complete platform f export_table pc response_len
              (transferred n ms v))
          (sym same)

-- ===== src/Handlers/Transfer/Upload.antt =====
-- A file handed over in chunks: XBDM puts the bytes of each chunk at `ctx->buffer`, within the block
-- that the handlers of src/dxtmain.c set up, and calls ReceiveImageData.
use mathlib.Core.List.{append-nil, append_assoc}
use nxdk_dyndxt.Base.{
  ℕ, zero, suc, ◌+◌, ◌-◌, ◌%◌, ◌^◌, ◌<◌, ◌≤◌, ◌≡◌, ◌≢◌, refl, ap, ◌∙◌, false, ◌||◌, some, none,
  List, [], ◌∷◌, ◌++◌, Bytes, arith, ◌==◌, ltb, if◌then◌else◌, ≢→==, ==_refl, length, length-append,
  take, drop, take-length,
}
use nxdk_dyndxt.Pool.{Ptr, look, update}
use nxdk_dyndxt.Response.{def_success}
use nxdk_dyndxt.Handlers.{
  ReceiveImageDataContext, receive_image_data_context, World, M, done, undefined, pure, and_then,
  ◌>>=◌, ◌>>◌,
}
use nxdk_dyndxt.Handlers.Complete.{Platform, receive_image_data_complete}
use nxdk_dyndxt.Handlers.Transfer.{receive_chunk, receive_data}
use nxdk_dyndxt.Handlers.Transfer.Chunks.{receive}

-- The file that the chunks make up
abbrev pub joined : Bytes → List Bytes → Bytes
joined c [] = c
joined c (d ∷ ds) = c ++ joined d ds

-- No chunk is empty.
abbrev pub AreFilled : Bytes → List Bytes → Type 0
AreFilled c [] = length c ≢ 0
AreFilled c (d ∷ ds) = (length c ≢ 0) × AreFilled d ds

joined_nonempty : (c : Bytes) (cs : List Bytes) → AreFilled c cs → length (joined c cs) ≢ 0
joined_nonempty c [] p = p
joined_nonempty c (d ∷ ds) (p, q) = omega (arith, length-append {0} c (joined d ds))

-- `bytes` with those of `chunk` from `offset` on
abbrev put_chunk : ℕ → Bytes → Bytes → Bytes
put_chunk offset chunk bytes = take offset bytes ++ (chunk ++ drop (offset + length chunk) bytes)

drop_behind : (n : ℕ) (xs : Bytes) → length xs ≤ n → drop n xs ≡ []
drop_behind zero [] l = refl
drop_behind zero (x ∷ xs) l = absurd (omega arith)
drop_behind (suc n) [] l = refl
drop_behind (suc n) (x ∷ xs) l = drop_behind n xs (omega arith)

put_chunk-length : (got chunk : Bytes) → put_chunk (length got) chunk got ≡ got ++ chunk
put_chunk-length got chunk =
    let before : take (length got) got ≡ got = take-length got (length got) refl in
    let behind : drop (length got + length chunk) got ≡ [] =
      drop_behind (length got + length chunk) got (omega arith) in
    rw (before, behind) (ap (λ s. got ++ s) (append-nil chunk))

-- The bytes of a chunk stand at `ctx->buffer`, which has to lie within the block at `base`, and not
-- behind bytes that were never written.
unfoldable pub store_chunk : Ptr → Bytes → M (Unit {0})
store_chunk base chunk w = elim (look w.heap.strings base) [
  | none ↦ undefined
  | some t ↦
      let offset = w.context.buffer - base in
      if ltb w.context.buffer base
        || (ltb (length t.bytes) offset || ltb t.size (offset + length chunk))
      then undefined
      else done tt (record w {
        heap = record w.heap {
          strings =
              update w.heap.strings base
                (some (record { size = t.size; bytes = put_chunk offset chunk t.bytes }));
        };
      })
]

-- The file stands in the block at `base`, and the other strings, the loader's blocks and the
-- contexts of the transfer are as before.
pub record Received (base : Ptr) (size : ℕ) (file : Bytes) (w v : World) : Type 0 where
  pub block : look v.heap.strings base ≡ some (record { size = size; bytes = file })
  pub others : (q : Ptr) → base ≢ q → look v.heap.strings q ≡ look w.heap.strings q
  pub live : v.live ≡ w.live
  pub store : v.context_store ≡ w.context_store

module _ (platform : Platform) (f : ℕ) (export_table base : Ptr) (response_len : ℕ) where
  abbrev pub receive_bytes : Bytes → M ℕ
  receive_bytes chunk = do
    store_chunk base chunk
    receive platform f export_table response_len (length chunk)

  -- The chunks of a file, until the handler returns something else than XBOX_S_OK
  unfoldable pub transfer : Bytes → List Bytes → M ℕ
  unfolding store_chunk
  transfer c [] = receive_bytes c
  transfer c (d ∷ ds) = do
    code ← receive_bytes c
    if code == def_success 0 then transfer d ds else pure code

  -- The world behind a chunk that was written and is to be received
  abbrev stored : ℕ → Bytes → World → World
  stored size bytes w = record w {
    heap = record w.heap {
      strings = update w.heap.strings base (some (record { size = size; bytes = bytes }));
    };
  }

  store_chunk-stored :
      (chunk got : Bytes) (size : ℕ) (w : World)
      → look w.heap.strings base ≡ some (record { size = size; bytes = got })
      → w.context.buffer ≡ base + length got
      → length got + length chunk ≤ size
      → store_chunk base chunk w ≡ done tt (stored size (got ++ chunk) w)
  unfolding store_chunk
  store_chunk-stored chunk got size w block buffer room =
      let inside : ltb (base + length got) base ≡ false = ground arith in
      let offset : base + length got - base ≡ length got = omega arith in
      let behind : ltb (length got) (length got) ≡ false = ground arith in
      let fits : ltb size (length got + length chunk) ≡ false = ground arith in
      rw (block, store_chunk, buffer, inside, offset, behind, fits, put_chunk-length got chunk) refl

  -- The world behind a chunk, of which `t` bytes follow
  abbrev behind : (chunk got : Bytes) (size t : ℕ) → World → World
  behind chunk got size t w = record (stored size (got ++ chunk) w) {
    context = record w.context {
      data_size = length chunk;
      buffer = w.context.buffer + length chunk;
      buffer_size = (w.context.buffer_size + 2 ^ 32 - length chunk) % 2 ^ 32;
      bytes_remaining = t;
    };
  }

  receive_bytes-behind :
      (pc : ReceiveImageDataContext) (c got : Bytes) (size t : ℕ) (w : World)
      → w.context_store ≡ receive_image_data_context pc
      → look w.heap.strings base ≡ some (record { size = size; bytes = got })
      → w.context.buffer ≡ base + length got
      → w.context.bytes_remaining ≡ length c + t
      → length got + length c ≤ size
      → length c ≢ 0
      → t ≢ 0
      → t < 2 ^ 32
      → receive_bytes c w ≡ done (def_success 0) (behind c got size t w)
  unfolding receive_data receive_chunk
  receive_bytes-behind pc c got size t w store block buffer left room filled more small =
      let some_left : (length c + t + 2 ^ 32 - length c) % 2 ^ 32 ≡ t = omega arith in
      rw
        (
          store_chunk-stored c got size w block buffer room,
          store,
          ≢→== (length c) 0 filled,
          left,
          some_left,
          ≢→== t 0 more,
        )
        refl

  transfer-at :
      (pc : ReceiveImageDataContext) (c : Bytes) (cs : List Bytes) (got : Bytes) (size : ℕ)
      (w : World)
      → w.context_store ≡ receive_image_data_context pc
      → look w.heap.strings base ≡ some (record { size = size; bytes = got })
      → w.context.buffer ≡ base + length got
      → w.context.bytes_remaining ≡ length (joined c cs)
      → length got + length (joined c cs) ≤ size
      → length (joined c cs) < 2 ^ 32
      → AreFilled c cs
      → (v : World) × (transfer c cs w
          ≡ receive_image_data_complete platform f export_table pc response_len v)
        × Received base size (got ++ joined c cs) w v
  unfolding transfer receive_data receive_chunk
  transfer-at pc c [] got size w store block buffer left room small filled =
      let none_left : (length c + 2 ^ 32 - length c) % 2 ^ 32 ≡ 0 = omega arith in
      rw
        (
          store_chunk-stored c got size w block buffer room,
          store,
          ≢→== (length c) 0 filled,
          left,
          none_left,
        )
        (
          _,
          refl,
          record {
            block = rw (==_refl base) refl;
            others = λ q ne. rw (≢→== base q ne) refl;
            live = refl;
            store = refl;
          },
        )
  transfer-at pc c (d ∷ ds) got size w store block buffer left room small (filled, rest) =
      let t = length (joined d ds) in
      let whole : length (joined c (d ∷ ds)) ≡ length c + t = length-append c (joined d ds) in
      let w' = behind c got size t w in
      let longer : length (got ++ c) ≡ length got + length c = length-append got c in
      let (v, run, is) =
        transfer-at pc d ds (got ++ c) size w' store (rw (==_refl base) refl) (omega arith) refl
          (omega arith) (omega arith) rest in
      (
        v,
        ap (λ r. and_then r (λ code. if code == def_success 0 then transfer d ds else pure code))
              (receive_bytes-behind pc c got size t w store block buffer (left ∙ whole)
                (omega arith) filled (joined_nonempty d ds rest) (omega arith))
            ∙ run,
        record {
          block =
              is.block
              ∙ ap (λ s. some (record { size = size; bytes = s }))
                  (append_assoc got c (joined d ds));
          others = λ q ne. is.others q ne ∙ rw (≢→== base q ne) refl;
          live = is.live;
          store = is.store;
        },
      )

  -- If the contexts are those of a transfer into a new block, and the chunks are not empty and make
  -- up the bytes that remain, which fit the block, then every call but the last returns XBOX_S_OK,
  -- and the last one is ReceiveImageDataComplete, with the whole file in the block.
  pub transfer-Received :
      (pc : ReceiveImageDataContext) (c : Bytes) (cs : List Bytes) (size : ℕ) (w : World)
      → w.context_store ≡ receive_image_data_context pc
      → look w.heap.strings base ≡ some (record { size = size; bytes = [] })
      → w.context.buffer ≡ base
      → w.context.bytes_remaining ≡ length (joined c cs)
      → length (joined c cs) ≤ size
      → length (joined c cs) < 2 ^ 32
      → AreFilled c cs
      → (v : World) × (transfer c cs w
          ≡ receive_image_data_complete platform f export_table pc response_len v)
        × Received base size (joined c cs) w v
  transfer-Received pc c cs size w store block buffer left fits small filled =
      transfer-at pc c cs [] size w store block (omega arith) left (omega arith) small filled

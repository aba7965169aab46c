-- ===== src/Handlers.antt =====
-- src/dxtmain.c: what its handlers share. A run of a handler passes on the debug heap, the
-- blocks that the image loader owns, the text of the response, XBDM's context of the command and
-- the memory that is reserved for contexts.
pub mod Complete
pub mod Transfer
pub mod Commands
pub mod Exports
pub mod Optional
use nxdk_dyndxt.Base.{ℕ, Bool, Option, none, some, List, Bytes}
use nxdk_dyndxt.Pool
use nxdk_dyndxt.Pool.{Ptr, Text, Heap}
use nxdk_dyndxt.Registry.{ModuleRegistryCursor}

-- 'ddxt'
abbrev pub k_tag : ℕ
k_tag = 0x64647874

-- `struct ReceiveImageDataContext`
pub record ReceiveImageDataContext : Type 0 where
  pub dxt_main : Ptr
  pub image_base : Ptr
  pub raw_image_size : ℕ
  pub num_tls_callbacks : ℕ
  pub tls_callbacks : Ptr
  pub relocation_needed : Bool

-- The union `context_store`, with the member that was written last
pub data ContextStore : Type 0 where
  unwritten : ContextStore
  send_method_addresses_context : ModuleRegistryCursor → ContextStore
  receive_image_data_context : ReceiveImageDataContext → ContextStore

-- What `handler` points to
pub data ContinuationProc : Type 0 where
  unset : ContinuationProc
  send_method_addresses : ContinuationProc
  receive_image_data : ContinuationProc

-- `struct CommandContext`; `user_data` always points to `context_store`
pub record CommandContext : Type 0 where
  pub handler : ContinuationProc
  pub data_size : ℕ
  pub buffer : Ptr
  pub buffer_size : ℕ
  pub bytes_remaining : ℕ

pub record World : Type 0 where
  pub heap : Heap
  -- the loader's blocks, newest first, and its requests
  pub live : List Ptr
  pub calls : ℕ
  pub response : Text
  pub context : CommandContext
  pub context_store : ContextStore

pub data Run (A : Type 0) : Type 0 where
  done : A → World → Run A
  undefined : Run A
  unfinished : Run A

abbrev pub M : Type 0 → Type 0
M A = World → Run A

abbrev pub pure : {A : Type 0} → A → M A
pure a w = done a w

abbrev pub and_then : {A B : Type 0} → Run A → (A → M B) → Run B
and_then (done a w) f = f a w
and_then undefined f = undefined
and_then unfinished f = unfinished

infixl 5 ◌>>=◌ ◌>>◌
abbrev pub ◌>>=◌ : {A B : Type 0} → M A → (A → M B) → M B
◌>>=◌ m f w = and_then (m w) f

abbrev pub ◌>>◌ : {B : Type 0} → M (Unit {0}) → M B → M B
m >> k = m >>= λ _. k

abbrev pub crash : {A : Type 0} → M A
crash w = undefined

abbrev pub get : M World
get w = done w w

abbrev pub put : World → M (Unit {0})
put w _ = done tt w

abbrev pub lifted : {A : Type 0} → World → Pool.Run A → Run A
lifted w (Pool.ok x h) = done x (record w { heap = h })
lifted w Pool.fault = undefined
lifted w Pool.out_of_fuel = unfinished

-- An operation of the heap
abbrev pub on_heap : {A : Type 0} → Pool.M A → M A
on_heap m w = lifted w (m w.heap)

abbrev pub answered : {A : Type 0} → World → Option (A × Text) → Run A
answered w none = undefined
answered w (some (x, t)) = done x (record w { response = t })

-- A function that writes the response
abbrev pub on_response : {A : Type 0} → (Text → Option (A × Text)) → M A
on_response m w = answered w (m w.response)

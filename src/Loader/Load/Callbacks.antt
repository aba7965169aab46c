-- ===== src/Loader/Load/Callbacks.antt =====
-- DLLInvokeTLSCallbacks on an image with TLS callbacks.
use nxdk_dyndxt.Base.{
  ◌==◌, inl, inr, Bool-cases, ℕ, zero, suc, ◌+◌, ◌≤◌, ◌≡◌, ◌≢◌, refl, false, arith, ltb, ≢→==,
}
use nxdk_dyndxt.Loader.Types.{State, invoke_tls_callbacks}
use nxdk_dyndxt.Loader.Run.{Run, M, fault, returned, out_of_fuel, word32, read_word32}
use nxdk_dyndxt.Loader.Load.{call_callbacks, dll_invoke_tls_callbacks}

-- Every callback comes back.
abbrev pub Return : (ℕ → M (Unit {0})) → Type 0
Return call = (callback : ℕ) (s : State) → (t : State) × (call callback s ≡ returned tt t)

call_callbacks-endless :
    (call : ℕ → M (Unit {0})) (f callback : ℕ) (s : State)
    → Return call
    → callback ≢ 0
    → call_callbacks call f callback s ≡ out_of_fuel
unfolding call_callbacks
call_callbacks-endless call zero callback s back ne = refl
call_callbacks-endless call (suc f) callback s back ne =
    let (t, run) = back callback s in
    rw (≢→== callback 0 ne, run) (call_callbacks-endless call f callback t back ne)

-- On an image whose TLS directory lies within the image and has an address of callbacks,
-- DLLInvokeTLSCallbacks does not end, with any fuel and any callbacks that return.
pub dll_invoke_tls_callbacks_endless :
    (call : ℕ → M (Unit {0})) (f : ℕ) (s : State)
    → Return call
    → s.output.header.tls_directory.size ≢ 0
    → s.output.header.tls_directory.virtual_address + 16 ≤ s.output.memory.size
    → word32 s.output.memory.byte (s.output.header.tls_directory.virtual_address + 12) ≢ 0
    → dll_invoke_tls_callbacks call f s ≡ out_of_fuel
unfolding dll_invoke_tls_callbacks read_word32
dll_invoke_tls_callbacks_endless call f s back listed fits ne =
    let v = s.output.header.tls_directory.virtual_address in
    let inside : ltb s.output.memory.size (v + 12 + 4) ≡ false = ground arith in
    rw (≢→== s.output.header.tls_directory.size 0 listed, inside)
      (call_callbacks-endless call f (word32 s.output.memory.byte (v + 12)) _ back ne)

-- DLLInvokeTLSCallbacks on `s`: it leaves what is allocated, or does not come back.
pub data Invoked (s : State) : Run (Unit {0}) → Type 0 where
  came_back :
      (t : State)
      → t.live ≡ s.live
      → t.output.image ≡ s.output.image
      → t.output.section_headers ≡ s.output.section_headers
      → t.output.entrypoint ≡ s.output.entrypoint
      → Invoked s (returned tt t)
  faulted : Invoked s fault
  cut_off : Invoked s out_of_fuel

callbacks-Invoked :
    (call : ℕ → M (Unit {0})) (f callback : ℕ) (s : State)
    → Return call
    → Invoked s (
        call_callbacks call f callback
          (record s { output = record s.output { context = invoke_tls_callbacks } }))
unfolding call_callbacks
callbacks-Invoked call zero callback s back = cut_off
callbacks-Invoked call (suc f) callback s back = elim (Bool-cases (callback == 0)) [
  | inl y ↦ rw y (came_back _ refl refl refl refl)
  | inr y ↦
      let nonzero : callback ≢ 0 = ground arith in
      let endless =
        call_callbacks-endless call (suc f) callback
          (record s { output = record s.output { context = invoke_tls_callbacks } }) back nonzero in
      rw endless cut_off
]

pub dll_invoke_tls_callbacks-Invoked :
    (call : ℕ → M (Unit {0})) (f : ℕ) (s : State)
    → Return call
    → Invoked s (dll_invoke_tls_callbacks call f s)
unfolding dll_invoke_tls_callbacks read_word32 call_callbacks
dll_invoke_tls_callbacks-Invoked call f s back =
    let d = s.output.header.tls_directory in
    elim (Bool-cases (d.size == 0)) [
      | inl y ↦ rw y (came_back _ refl refl refl refl)
      | inr y ↦ elim (Bool-cases (ltb s.output.memory.size (d.virtual_address + 12 + 4))) [
        | inl z ↦ rw (y, z) faulted
        | inr z ↦
            let address = word32 s.output.memory.byte (d.virtual_address + 12) in
            rw (y, z) (callbacks-Invoked call f address s back)
      ]
    ]

-- ===== src/Loader/Parse/Advance.antt =====
-- Where ADVANCE_READ_PTR leads, and a read of DLLParseHeader in front of the file.
use nxdk_dyndxt.Base.{ℕ, ◌+◌, ◌-◌, ◌%◌, ◌^◌, ◌≤◌, ◌<◌, ◌≡◌, refl, true, false, arith, ltb}
use nxdk_dyndxt.Loader.Types.{DllLoaderInput, State}
use nxdk_dyndxt.Loader.Run.{fault, pure, word16, word32, read_word16, read_word32}
use nxdk_dyndxt.Loader.Parse.{advance_read_ptr, advance_past, read_nt_headers, parse_header}

-- A pointer advances where its new address is not behind the file's end.
advance_to :
    (i : DllLoaderInput) (p n q : ℕ)
    → (p + n) % 2 ^ 32 ≡ q
    → (i.raw_data + q) % 2 ^ 32 ≤ (i.raw_data + i.raw.size) % 2 ^ 32
    → (λ s. advance_read_ptr i p n s) ≡ pure q
unfolding advance_read_ptr
advance_to i p n q same l =
    let inside : ltb ((i.raw_data + i.raw.size) % 2 ^ 32) ((i.raw_data + q) % 2 ^ 32) ≡ false =
      ground arith in
    rw (same, inside) refl

-- So it does where it stays in a file within the address space.
pub advance_inside :
    (i : DllLoaderInput) (p n : ℕ)
    → i.raw_data + i.raw.size < 2 ^ 32
    → p + n ≤ i.raw.size
    → (λ s. advance_read_ptr i p n s) ≡ pure (p + n)
advance_inside i p n addressed l = advance_to i p n (p + n) (omega arith) (omega arith)

-- A negative e_lfanew that leads, past the end of the address space, to an address in front of the
-- file makes DLLParseHeader read there, in every file of at least 248 bytes with the DOS signature.
pub parse_header_in_front :
    (i : DllLoaderInput) (s : State)
    → i.raw_data + i.raw.size < 2 ^ 32
    → 248 ≤ i.raw.size
    → word16 i.raw.byte 0 ≡ 0x5A4D
    → word32 i.raw.byte 60 < 2 ^ 32
    → 2 ^ 32 ≤ i.raw_data + word32 i.raw.byte 60
    → parse_header i s ≡ fault
unfolding parse_header advance_past read_word16 read_word32 read_nt_headers
parse_header_in_front i s file large magic small wraps =
    let e : ℕ = word32 i.raw.byte 60 in
    let first = advance_inside i 0 64 file (omega arith) in
    let read_magic : ltb i.raw.size 2 ≡ false = ground arith in
    let read_lfanew : ltb i.raw.size 64 ≡ false = ground arith in
    let long : ltb 64 e ≡ true = ground arith in
    let second = advance_to i 64 (e - 64) e (omega arith) (omega arith) in
    let third = advance_to i e 248 ((e + 248) % 2 ^ 32) refl (omega arith) in
    let outside : ltb i.raw.size (e + 248) ≡ true = ground arith in
    rw (first, read_magic, magic, read_lfanew, long, second, third, outside) refl

-- ===== src/Response.antt =====
-- src/response_util.c: the text of an error response, and the result codes of src/xbdm_err.h that
-- go with it. `strncat` is the C library's.
pub mod Truncate
mod Tests
use nxdk_dyndxt.Base.{
  ℕ, ◌+◌, ◌-◌, ◌*◌, ◌%◌, ◌^◌, Option, none, some, [], ◌∷◌, ◌++◌, Bytes, ltb, if◌then◌else◌, length,
  take, drop, replicate,
}
use nxdk_dyndxt.Pool.{Text, c_string}

-- FACILITY_XBOX, DEF_SUCCESS and DEF_ERROR of src/xbdm_err.h
abbrev pub def_success : ℕ → ℕ
def_success code = 0x2DB * 2 ^ 16 + code

abbrev pub def_error : ℕ → ℕ
def_error code = 0x80000000 + 0x2DB * 2 ^ 16 + code

infixl 5 ◌>>=◌
abbrev pub ◌>>=◌ : {A B : Type 0} → Option A → (A → Option B) → Option B
none >>= f = none
some x >>= f = f x

-- Writes `s` from the start of the buffer; behind its end is `none`.
unfoldable pub store : Text → Bytes → Option Text
store buffer s =
    if ltb buffer.size (length s) then none else some (record { size = buffer.size; bytes = s })

-- `strncat(buffer + offset, source, n)`: at most `n` characters, and a terminator behind them
unfoldable pub strncat : Text → ℕ → Bytes → ℕ → Option Text
unfolding store
strncat buffer offset source n = store buffer (
    take offset buffer.bytes
    ++ (c_string (drop offset buffer.bytes) ++ (take n (c_string source) ++ 0 ∷ [])))

-- SetXBDMError: what it returns, and the buffer
unfoldable pub set_xbdm_error : ℕ → Bytes → Text → ℕ → Option (ℕ × Text)
set_xbdm_error error_code message response response_len = do
  cleared ← store response (0 ∷ [])
  written ← strncat cleared 0 message response_len
  some (error_code, written)

-- SetXBDMErrorWithSuffix
unfoldable pub set_xbdm_error_with_suffix : ℕ → Bytes → Bytes → Text → ℕ → Option (ℕ × Text)
set_xbdm_error_with_suffix error_code message suffix response response_len = do
  let message_len = length (c_string message) % 2 ^ 32
  cleared ← store response (0 ∷ [])
  written ← strncat cleared 0 message response_len
  if ltb message_len response_len
      then (do
        extended ← strncat written message_len suffix (response_len - message_len)
        some (error_code, extended))
      else some (error_code, written)

-- `strncpy(buffer, source, n)`: at most `n` characters, and NULs up to `n` behind them
unfoldable pub strncpy : Text → Bytes → ℕ → Option Text
unfolding store
strncpy buffer source n = store buffer (
    take n (c_string source) ++ (replicate (n - length (c_string source)) 0 ++ drop n buffer.bytes))

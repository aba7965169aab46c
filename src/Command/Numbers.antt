-- ===== src/Command/Numbers.antt =====
-- CPGetUInt32 and CPGetInt32 of src/command_processor_util.c, with strtoul and strtol of the C
-- library at base 0 and 32 bits.
pub mod Decimal
use nxdk_dyndxt.Base.{
  ℕ, zero, suc, ◌+◌, ◌-◌, ◌*◌, ◌^◌, Bool, true, false, not, ◌&&◌, ◌||◌, Option, none, some, [], ◌∷◌,
  Bytes, ◌==◌, ltb, leb, if◌then◌else◌, ℤ, pos, negsuc, length, drop,
}
use nxdk_dyndxt.Pool.{M, pure, ◌>>=◌, read_string}
use nxdk_dyndxt.Command.{CommandParameters}
use nxdk_dyndxt.Command.Query.{get_string}

-- isspace
abbrev pub is_space : ℕ → Bool
is_space c = c == 32 || (leb 9 c && leb c 13)

unfoldable pub skip_spaces : Bytes → Bytes
skip_spaces [] = []
skip_spaces (c ∷ s) = if is_space c then skip_spaces s else c ∷ s

-- The value of a digit or letter; 36 for any other character
abbrev pub digit_value : ℕ → ℕ
digit_value c =
    if leb b'0' c && leb c b'9'
    then c - b'0'
    else if leb b'a' c && leb c b'z'
    then c - b'a' + 10
    else if leb b'A' c && leb c b'Z'
    then c - b'A' + 10
    else 36

-- The digits in front: the number behind `acc`, and the rest
unfoldable pub scan_digits : ℕ → ℕ → Bytes → ℕ × Bytes
scan_digits base acc [] = (acc, [])
scan_digits base acc (c ∷ s) =
    if ltb (digit_value c) base
    then scan_digits base (acc * base + digit_value c) s
    else (acc, c ∷ s)

-- The character at `i`, 0 behind the end
abbrev pub char_at : Bytes → ℕ → ℕ
char_at [] i = 0
char_at (c ∷ s) zero = c
char_at (c ∷ s) (suc i) = char_at s i

-- 0x in front of a hexadecimal digit
abbrev pub is_hexadecimal : Bytes → Bool
is_hexadecimal s =
    char_at s 0 == b'0'
    && (char_at s 1 == b'x' || char_at s 1 == b'X')
    && ltb (digit_value (char_at s 2)) 16

-- Behind the sign: `none` if there is no digit
unfoldable pub scan_number : Bytes → Option (ℕ × Bytes)
unfolding scan_digits
scan_number s =
    if is_hexadecimal s
    then some (scan_digits 16 0 (drop 2 s))
    else if char_at s 0 == b'0'
    then some (scan_digits 8 0 s)
    else if ltb (digit_value (char_at s 0)) 10
    then some (scan_digits 10 0 s)
    else none

-- The sign, and what stands behind it
abbrev pub is_negative : Bytes → Bool
is_negative s = char_at s 0 == b'-'

abbrev pub unsigned : Bytes → Bytes
unsigned s = if char_at s 0 == b'-' || char_at s 0 == b'+' then drop 1 s else s

-- strtoul(s, &end, 0): the value and `end`
unfoldable pub strtoul : Bytes → ℕ × Bytes
unfolding skip_spaces scan_number
strtoul s =
    let t = skip_spaces s in
    elim (scan_number (unsigned t)) [
      | none ↦ (0, s)
      | some (n, rest) ↦ (
        (if leb (2 ^ 32) n
            then 2 ^ 32 - 1
            else if is_negative t && not (n == 0)
            then 2 ^ 32 - n
            else n),
        rest,
      )
    ]

-- strtol(s, &end, 0)
unfoldable pub strtol : Bytes → ℤ × Bytes
unfolding skip_spaces scan_number
strtol s =
    let t = skip_spaces s in
    elim (scan_number (unsigned t)) [
      | none ↦ (pos 0, s)
      | some (n, rest) ↦ (
        (if is_negative t
            then (if leb (2 ^ 31) n
                then negsuc (2 ^ 31 - 1)
                else if n == 0
                then pos 0
                else negsuc (n - 1))
            else if leb (2 ^ 31) n
            then pos (2 ^ 31 - 1)
            else pos n),
        rest,
      )
    ]

-- `if (end == string_value) …; if (*end != 0) …; return true;`: what is returned, and `*result`
abbrev pub accept : {A : Type 0} → A → Bytes → A × Bytes → Bool × A
accept zero_value s (value, end) =
    if length end == length s
    then (false, value)
    else if length end == 0
    then (true, value)
    else (false, zero_value)

-- CPGetUInt32 behind the test of `result`
unfoldable pub get_uint32 : Option Bytes → Option CommandParameters → M (Bool × ℕ)
unfolding strtoul
get_uint32 key cp = do
  (found, string_value) ← get_string key cp
  if not found
      then pure (false, 0)
      else do s ← read_string string_value; pure (accept 0 s (strtoul s))

-- CPGetInt32 behind the test of `result`
unfoldable pub get_int32 : Option Bytes → Option CommandParameters → M (Bool × ℤ)
unfolding strtol
get_int32 key cp = do
  (found, string_value) ← get_string key cp
  if not found
      then pure (false, pos 0)
      else do s ← read_string string_value; pure (accept (pos 0) s (strtol s))

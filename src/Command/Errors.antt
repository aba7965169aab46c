-- ===== src/Command/Errors.antt =====
-- CPPrintError of src/command_processor_util.c, with strncpy of the C library. `none` is a write
-- behind the end of the buffer.
pub mod Printed
use Prim.Native.Char.{code}
use Prim.Native.String.{String}
use nxdk_dyndxt.Base.{
  ℕ, Bool, false, Option, none, some, [], ◌∷◌, Bytes, ◌==◌, if◌then◌else◌, ℤ, pos, negsuc,
}
use nxdk_dyndxt.Pool.{Text}
use nxdk_dyndxt.Command.{
  pcp_err_invalid_input, pcp_err_out_of_memory, pcp_err_invalid_key,
  pcp_err_unterminated_quoted_key, pcp_err_unterminated_escape,
}
use nxdk_dyndxt.Response.{def_error, ◌>>=◌, store, strncpy}

-- The bytes of an ASCII text.
abbrev pub codes : String → Bytes
codes String.[] = []
codes (String.◌∷◌ c s) = code c ∷ codes s

abbrev pub same_code : ℤ → ℤ → Bool
same_code (pos m) (pos n) = m == n
same_code (negsuc m) (negsuc n) = m == n
same_code _ _ = false

-- The cases of the switch: the text, and what is returned
unfoldable pub error_of : ℤ → Bytes × ℕ
error_of code =
    if same_code code pcp_err_invalid_input
    then (codes "Invalid input", def_error 5)
    else if same_code code pcp_err_out_of_memory
    then (codes "Out of memory", def_error 0xD)
    else if same_code code pcp_err_invalid_key
    then (codes "Malformed key", def_error 5)
    else if same_code code pcp_err_unterminated_quoted_key
    then (codes "Malformed key (unterminated quote)", def_error 5)
    else if same_code code pcp_err_unterminated_escape
    then (codes "Malformed key (unterminated escape char)", def_error 5)
    else (codes "UNKNOWN ERROR", def_error 0)

-- CPPrintError: what it returns, and the buffer
unfoldable pub print_error : ℤ → Text → ℕ → Option (ℕ × Text)
unfolding error_of strncpy
print_error parse_return_code buffer buffer_len = do
  written ← strncpy buffer (error_of parse_return_code).0 buffer_len
  some ((error_of parse_return_code).1, written)

-- ===== src/Command/Parse.antt =====
-- CPParseCommandParameters of src/command_processor_util.c.
pub mod Text
pub mod Refines
pub mod Escapes
pub mod Print
pub mod Overread
pub mod Inside
use nxdk_dyndxt.Base.{
  ℕ, zero, suc, ◌+◌, Bool, true, false, not, Option, none, some, Bytes, ◌==◌, if◌then◌else◌, ℤ, pos,
  negsuc, length,
}
use nxdk_dyndxt.Pool.{Allocator, M, out_of_fuel, pure, ◌>>=◌, crash}
use nxdk_dyndxt.Command.{
  CommandParameters, zeroed, default_reserve_size, pcp_err_invalid_input, pcp_err_out_of_memory,
  pcp_err_invalid_key, pcp_err_unterminated_quoted_key,
}
use nxdk_dyndxt.Command.Scan.{
  item, invalid_key, unterminated_quote, overread, deref, first_non_space, scan,
}
use nxdk_dyndxt.Command.Storage.{reserve, append, delete}

abbrev pub is_zero : ℤ → Bool
is_zero (pos n) = n == 0
is_zero (negsuc n) = false

-- `CPDelete(result); return code;`
unfoldable pub give_up : ℤ → CommandParameters → M (ℤ × CommandParameters)
give_up code cp = do cp' ← delete cp; pure (code, cp')

module _ (a : Allocator) where
  -- The loop `while (*key_start)`; each round takes at least one character off the input.
  unfoldable pub parse_loop : ℕ → ℕ → Bytes → CommandParameters → M (ℤ × CommandParameters)
  parse_loop zero max_entries key_start cp = λ _. out_of_fuel
  parse_loop (suc f) max_entries key_start cp = elim (deref key_start == 0) [
    | true ↦ pure (pos cp.entries, cp)
    | false ↦ elim (scan key_start) [
      | invalid_key ↦ give_up pcp_err_invalid_key cp
      | unterminated_quote ↦ give_up pcp_err_unterminated_quoted_key cp
      | overread ↦ crash
      | item it ↦ do
        (code, max', cp') ← append a max_entries it cp
        elim (is_zero code) [
          | true ↦ parse_loop f max' (first_non_space it.entry_end) cp'
          | false ↦ give_up code cp'
        ]
    ]
  ]

  -- CPParseCommandParameters behind the test of `result`; `params = none` is NULL.
  unfoldable pub parse_into : Option Bytes → M (ℤ × CommandParameters)
  parse_into none = pure (pcp_err_invalid_input, zeroed)
  parse_into (some params) = do
    (done, cp) ← reserve a default_reserve_size zeroed
    if not done
        then give_up pcp_err_out_of_memory cp
        else let key_start = first_non_space params in
          if deref key_start == 0
          then give_up (pos 0) cp
          else parse_loop (length key_start + 1) default_reserve_size key_start cp

  -- CPParseCommandParameters; `result = none` is NULL.
  unfoldable pub parse_command_parameters :
      Option Bytes → Option CommandParameters → M (ℤ × Option CommandParameters)
  parse_command_parameters params none = pure (pcp_err_invalid_input, none)
  parse_command_parameters params (some _) = do (code, cp) ← parse_into params; pure (code, some cp)

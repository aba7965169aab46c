-- ===== src/Handlers/Commands.antt =====
-- The command `hello` and the dispatch of src/dxtmain.c: ProcessCommand, HandleHello and
-- SendMethodAddresses, as compiled with LEAN_BUILD.
pub mod LoadCommand
mod Tests
use nxdk_dyndxt.Base.{
  ℕ, zero, suc, ◌+◌, ◌-◌, ◌/◌, ◌%◌, ◌^◌, Bool, true, false, ◌&&◌, Option, none, some, [], ◌∷◌, ◌++◌,
  Bytes, ◌==◌, ltb, leb, if◌then◌else◌, length, drop,
}
use nxdk_dyndxt.Base.Format.{decimal}
use nxdk_dyndxt.Pool
use nxdk_dyndxt.Pool.{Ptr, null, Text, Allocator, read_string, write_string}
use nxdk_dyndxt.Pool.Nodes.{read_node}
use nxdk_dyndxt.Response
use nxdk_dyndxt.Response.{def_success, def_error, store, strncat, set_xbdm_error_with_suffix}
use nxdk_dyndxt.Command.Errors.{codes}
use nxdk_dyndxt.Registry.{enumerate_registry_begin, enumerate_registry}
use nxdk_dyndxt.Handlers.{
  unwritten, send_method_addresses_context, receive_image_data_context, World, Run, M, undefined,
  pure, ◌>>=◌, ◌>>◌, crash, get, put, on_heap, on_response, CommandContext,
}
use nxdk_dyndxt.Handlers
use nxdk_dyndxt.Handlers.Transfer.{handle_dynamic_load}

-- `%d` of a `uint32_t`
unfoldable pub signed_decimal : ℕ → Bytes
unfolding decimal
signed_decimal n = if ltb n (2 ^ 31) then decimal 10 n else b'-' ∷ decimal 10 (2 ^ 32 - n)

-- `%0nX`, of a number below 16 ^ n
unfoldable pub padded_hexadecimal : ℕ → ℕ → Bytes
padded_hexadecimal zero k = []
padded_hexadecimal (suc n) k =
    padded_hexadecimal n (k / 16)
    ++ (if ltb (k % 16) 10 then b'0' + k % 16 else b'A' + (k % 16 - 10)) ∷ []

-- `p ? p : no_name`, as the string that is printed
unfoldable pub name_or_empty : Ptr → Pool.M Bytes
name_or_empty p = if p == null then Pool.pure [] else read_string p

-- The line of an export
unfoldable pub export_line : Bytes → ℕ → Bytes → Bytes → ℕ → Bytes
unfolding signed_decimal padded_hexadecimal
export_line module_name ordinal export_name alias address =
    module_name
    ++ (codes " @ "
        ++ (signed_decimal ordinal
            ++ (b' '
                ∷ (export_name
                    ++ (b' '
                        ∷ (alias
                            ++ (codes " = 0x" ++ (padded_hexadecimal 8 address ++ 0 ∷ []))))))))

-- SendMethodAddresses behind MREnumerateRegistry: the line in the command's buffer
unfoldable pub send_line : Ptr → Ptr → M ℕ
unfolding name_or_empty export_line
send_line module_name node = do
  n ← on_heap (read_node node)
  name ← on_heap (read_string module_name)
  export_name ← on_heap (name_or_empty n.entry.method_name)
  alias ← on_heap (name_or_empty n.entry.alias)
  w ← get
  on_heap (
      write_string w.context.buffer
        (export_line name n.entry.ordinal export_name alias n.entry.address))
  pure (def_success 0)

-- SendMethodAddresses
unfoldable pub send_addresses : M ℕ
unfolding send_line
send_addresses w = elim w.context_store [
  | unwritten ↦ undefined
  | receive_image_data_context c ↦ undefined
  | send_method_addresses_context cursor ↦
      (on_heap (enumerate_registry cursor) >>= λ next. elim next [
        | none ↦ pure (def_error 0x104)
        | some (module_name, node, cursor') ↦
            (λ v.
              Handlers.done tt (record v { context_store = send_method_addresses_context cursor' }))
            >> send_line module_name node
      ])
        w
]

-- `*response = 0; strncat(response, "Registered exports", response_len);`
unfoldable pub greet : ℕ → Text → Option (Unit {0} × Text)
unfolding store strncat
greet response_len response = Response.◌>>=◌ (store response (0 ∷ [])) λ cleared.
    Response.◌>>=◌ (strncat cleared 0 (codes "Registered exports") response_len)
      λ written. some (tt, written)

-- HandleHello
unfoldable pub handle_hello : Ptr → ℕ → M ℕ
unfolding greet
handle_hello export_table response_len = do
  cursor ← on_heap (enumerate_registry_begin export_table)
  w ← get
  put (record w {
    context_store = send_method_addresses_context cursor;
    context = record w.context { handler = Handlers.send_method_addresses };
  })
  on_response (greet response_len)
  pure (def_success 2)

-- `!strncmp(text, prefix, strlen(prefix))`
abbrev pub starts_with : Bytes → Bytes → Bool
starts_with text [] = true
starts_with [] (p ∷ prefix) = false
starts_with (c ∷ text) (p ∷ prefix) = c == p && starts_with text prefix

-- `sizeof(kHandlerName)`, with its terminator
abbrev pub handler_name_size : ℕ
handler_name_size = 5

-- ProcessCommand; `command + sizeof(kHandlerName)` of a command of four characters is behind its
-- terminator.
unfoldable pub process_command : Allocator → Ptr → Bytes → ℕ → M ℕ
unfolding handle_dynamic_load handle_hello
process_command a export_table command response_len =
    let subcommand = drop handler_name_size command in
    if ltb (length command) handler_name_size
    then crash
    else if starts_with subcommand (codes "hello")
    then handle_hello export_table response_len
    else if starts_with subcommand (codes "load")
    then handle_dynamic_load a (drop 4 command) response_len
    else on_response λ response.
      set_xbdm_error_with_suffix (def_error 7) (codes "Unknown command ") command response
        response_len

-- ===== src/Handlers/Optional.antt =====
-- The handlers that src/dxtmain.c has without LEAN_BUILD: HandleReserve, HandleInstall and
-- HandleRegisterModuleExport, and ProcessCommand as it calls them.
pub mod Install
pub mod Stage
pub mod Steps
pub mod Export
mod Tests
use nxdk_dyndxt.Base.{
  ℕ, ◌+◌, ◌%◌, ◌^◌, Bool, true, false, not, Option, none, some, [], ◌∷◌, ◌++◌, Bytes, ℤ, pos,
  negsuc, ◌==◌, ltb, leb, if◌then◌else◌, length, drop,
}
use nxdk_dyndxt.Base.Format.{hexadecimal}
use nxdk_dyndxt.Pool
use nxdk_dyndxt.Pool.{
  Ptr, null, Text, Allocator, ModuleExport, alloc_string, free_string, read_string,
}
use nxdk_dyndxt.Response
use nxdk_dyndxt.Response.{def_success, def_error, store, set_xbdm_error, set_xbdm_error_with_suffix}
use nxdk_dyndxt.Command.{CommandParameters}
use nxdk_dyndxt.Command.Storage.{delete}
use nxdk_dyndxt.Command.Parse.{parse_into}
use nxdk_dyndxt.Command.Query.{get_string}
use nxdk_dyndxt.Command.Numbers.{get_uint32}
use nxdk_dyndxt.Command.Errors.{codes, print_error}
use nxdk_dyndxt.Registry.Update.{pool_strdup, register_method, free_name}
use nxdk_dyndxt.Handlers.{
  k_tag, receive_image_data_context, receive_image_data, M, pure, ◌>>=◌, ◌>>◌, crash, get, put,
  on_heap, on_response,
}
use nxdk_dyndxt.Handlers.Transfer.{is_negative, handle_dynamic_load}
use nxdk_dyndxt.Handlers.Commands.{handle_hello, starts_with, handler_name_size}

-- `return SetXBDMError(code, message, response, response_len);`
abbrev pub refuse : ℕ → Bytes → ℕ → M ℕ
refuse code message response_len =
    on_response λ response. set_xbdm_error code message response response_len

-- `sprintf(response, "addr=0x%X", …)`
unfoldable pub report_address : Ptr → Text → Option (Unit {0} × Text)
unfolding store hexadecimal
report_address allocation response =
    Response.◌>>=◌ (store response (codes "addr=0x" ++ (hexadecimal 8 allocation ++ 0 ∷ [])))
      λ written. some (tt, written)

-- HandleReserve
unfoldable pub handle_reserve : Allocator → Bytes → ℕ → M ℕ
unfolding report_address
handle_reserve a command response_len = do
  (result, cp) ← on_heap (parse_into a (some command))
  if is_negative result
      then on_response (λ response. print_error result response response_len)
      else (do
        (size_found, size) ← on_heap (get_uint32 (some (codes "size")) (some cp))
        cp' ← on_heap (delete cp)
        if not size_found
            then refuse (def_error 5) (codes "Missing required 'size' param") response_len
            else (do
              allocation ← on_heap (alloc_string a size k_tag)
              if allocation == null
                  then refuse (def_error 0xE) (codes "Allocation failed") response_len
                  else (do on_response (report_address allocation); pure (def_success 0))))

-- The message of the first test of HandleInstall that fails
unfoldable pub install_error :
    (base_found length_found main_found : Bool) (base size dxt_main : ℕ) → Option Bytes
install_error base_found length_found main_found base size dxt_main =
    if not base_found
    then some (codes "Missing required 'base' param")
    else if not length_found
    then some (codes "Missing required 'length' param")
    else if not main_found
    then some (codes "Missing required 'entrypoint' param")
    else if base == 0
    then some (codes "Invalid 'base' param")
    else if size == 0
    then some (codes "Invalid 'length' param")
    else if ltb dxt_main base
    then some (codes "Invalid 'entrypoint' param, < base")
    else if leb ((base + size) % 2 ^ 32) dxt_main
    then some (codes "Invalid 'entrypoint' param, > image")
    else none

-- HandleInstall behind its tests: the contexts
unfoldable pub begin_install : (base size dxt_main : ℕ) → M ℕ
begin_install base size dxt_main = do
  w ← get
  put (record w {
    context_store = receive_image_data_context (record {
      dxt_main = dxt_main;
      image_base = base;
      raw_image_size = size;
      num_tls_callbacks = 0;
      tls_callbacks = null;
      relocation_needed = false;
    });
    context = record w.context {
      buffer = base;
      buffer_size = size;
      bytes_remaining = size;
      handler = receive_image_data;
    };
  })
  pure (def_success 4)

-- HandleInstall
unfoldable pub handle_install : Allocator → Bytes → ℕ → M ℕ
unfolding install_error begin_install
handle_install a command response_len = do
  (result, cp) ← on_heap (parse_into a (some command))
  if is_negative result
      then on_response (λ response. print_error result response response_len)
      else (do
        (base_found, base) ← on_heap (get_uint32 (some (codes "base")) (some cp))
        (length_found, size) ← on_heap (get_uint32 (some (codes "length")) (some cp))
        (main_found, dxt_main) ← on_heap (get_uint32 (some (codes "entrypoint")) (some cp))
        cp' ← on_heap (delete cp)
        elim (install_error base_found length_found main_found base size dxt_main) [
          | some message ↦ refuse (def_error 5) message response_len
          | none ↦ begin_install base size dxt_main
        ])

-- `PoolStrdup(p, kTag)`, of a string of the parameters
unfoldable pub copy_string : Allocator → Ptr → Pool.M Ptr
unfolding pool_strdup
copy_string a p = Pool.◌>>=◌ (read_string p) λ s. pool_strdup a s k_tag

-- `name = NULL; if (found) name = PoolStrdup(…);`: false if there is no block for the copy, and the
-- name
unfoldable pub save_name : Allocator → Bool → Ptr → Pool.M (Bool × Ptr)
unfolding copy_string
save_name a found p =
    if found
    then Pool.◌>>=◌ (copy_string a p) (λ saved. Pool.pure (not (saved == null), saved))
    else Pool.pure (true, null)

module _ (a : Allocator) (f : ℕ) (export_table : Ptr) where
  -- HandleRegisterModuleExport from MRRegisterMethod on: what it returns, and `export_table`
  unfoldable pub register_saved : Ptr → ModuleExport → ℕ → M (ℕ × Ptr)
  unfolding register_method free_name
  register_saved module_name_saved entry response_len = do
    module_name ← on_heap (read_string module_name_saved)
    (registered, export_table') ← on_heap (register_method a f export_table module_name entry)
    if registered
        then (do on_heap (free_string module_name_saved); pure (def_success 0, export_table'))
        else (do
          on_heap (free_name entry.method_name)
          on_heap (free_name entry.alias)
          on_heap (free_string module_name_saved)
          ret ← refuse (def_error 5) (codes "Registration failed") response_len
          pure (ret, export_table'))

  -- `CPDelete(&cp); return SetXBDMError(…);`
  abbrev pub give_up : CommandParameters → ℕ → Bytes → ℕ → M (ℕ × Ptr)
  give_up cp code message response_len = do
    cp' ← on_heap (delete cp)
    ret ← refuse code message response_len
    pure (ret, export_table)

  -- HandleRegisterModuleExport behind its tests: the copies of the strings
  unfoldable pub register_copies :
      CommandParameters
      → Ptr
      → (export_name_found : Bool) → Ptr
      → (alias_found : Bool) → Ptr
      → (ordinal address : ℕ) → ℕ
      → M (ℕ × Ptr)
  unfolding copy_string save_name free_name register_saved
  register_copies cp module_name export_name_found export_name alias_found alias ordinal address
        response_len =
      do
        module_name_saved ← on_heap (copy_string a module_name)
        if module_name_saved == null
            then give_up cp (def_error 0xE) (codes "Out of memory") response_len
            else (do
              (saved, method_name) ← on_heap (save_name a export_name_found export_name)
              if not saved
                  then (do
                    on_heap (free_string module_name_saved)
                    give_up cp (def_error 0xE) (codes "Out of memory") response_len)
                  else (do
                    (alias_saved, alias_name) ← on_heap (save_name a alias_found alias)
                    if not alias_saved
                        then (do
                          on_heap (free_name method_name)
                          on_heap (free_string module_name_saved)
                          give_up cp (def_error 0xE) (codes "Out of memory") response_len)
                        else (do
                          cp' ← on_heap (delete cp)
                          register_saved module_name_saved
                              (record {
                                ordinal = ordinal;
                                method_name = method_name;
                                alias = alias_name;
                                address = address;
                              })
                              response_len)))

  -- HandleRegisterModuleExport
  unfoldable pub handle_register_module_export : Bytes → ℕ → M (ℕ × Ptr)
  unfolding register_copies
  handle_register_module_export command response_len = do
    (result, cp) ← on_heap (parse_into a (some command))
    if is_negative result
        then (do
          ret ← on_response (λ response. print_error result response response_len)
          pure (ret, export_table))
        else (do
          (name_found, module_name) ← on_heap (get_string (some (codes "module")) (some cp))
          (export_name_found, export_name) ← on_heap (get_string (some (codes "name")) (some cp))
          (alias_found, alias) ← on_heap (get_string (some (codes "alias")) (some cp))
          (ordinal_found, ordinal) ← on_heap (get_uint32 (some (codes "ordinal")) (some cp))
          (address_found, address) ← on_heap (get_uint32 (some (codes "addr")) (some cp))
          if not ordinal_found
              then give_up cp (def_error 5) (codes "Missing required 'ordinal' param") response_len
              else if not address_found
              then give_up cp (def_error 5) (codes "Missing required 'address' param") response_len
              else if not name_found
              then give_up cp (def_error 5) (codes "Missing required 'module' param") response_len
              else register_copies cp module_name export_name_found export_name alias_found alias
                  ordinal address response_len)

  -- ProcessCommand with all of its commands: what it returns, and `export_table`
  unfoldable pub process_any_command : Bytes → ℕ → M (ℕ × Ptr)
  unfolding handle_hello handle_dynamic_load handle_reserve handle_install
      handle_register_module_export
  process_any_command command response_len =
      let subcommand = drop handler_name_size command in
      let unchanged : M ℕ → M (ℕ × Ptr) = λ m. m >>= λ ret. pure (ret, export_table) in
      if ltb (length command) handler_name_size
      then crash
      else if starts_with subcommand (codes "hello")
      then unchanged (handle_hello export_table response_len)
      else if starts_with subcommand (codes "load")
      then unchanged (handle_dynamic_load a (drop 4 command) response_len)
      else if starts_with subcommand (codes "reserve")
      then unchanged (handle_reserve a (drop 7 command) response_len)
      else if starts_with subcommand (codes "install")
      then unchanged (handle_install a (drop 7 command) response_len)
      else if starts_with subcommand (codes "export")
      then handle_register_module_export (drop 6 command) response_len
      else unchanged (
          on_response λ response.
            set_xbdm_error_with_suffix (def_error 7) (codes "Unknown command ") command response
              response_len)

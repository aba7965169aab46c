-- ===== src/Loader/Load.antt =====
-- DLLParse, DLLLoad and DLLInvokeTLSCallbacks of dll_loader/dll_loader.c.
pub mod Freed
pub mod Settled
pub mod Callbacks
use nxdk_dyndxt.Base.{ℕ, zero, suc, ◌+◌, ◌%◌, ◌^◌, false, ◌==◌, if◌then◌else◌}
use nxdk_dyndxt.Loader.Types.{zeroed, not_parsed, invoke_tls_callbacks, DllLoaderInput, State}
use nxdk_dyndxt.Loader.Run.{
  Run, M, returned, failed, fault, out_of_fuel, and_then, ◌>>=◌, ◌>>◌, pure, get, put,
  set_error_context, stop, read_word32,
}
use nxdk_dyndxt.Loader.Parse.{parse_header, dll_load_image, dll_process_sections, dll_free_context}
use nxdk_dyndxt.Loader.Imports.{dll_resolve_imports}
use nxdk_dyndxt.Loader.Relocate.{dll_relocate}

-- `return false` with a state
abbrev return_false : {A : Type 0} → M A
return_false s = failed s

-- `if (!step(ctx)) { DLLFreeContext(ctx, false); return false; }`
unfoldable pub or_free : Run (Unit {0}) → Run (Unit {0})
unfolding dll_free_context
or_free (returned x s) = returned x s
or_free (failed s) = (dll_free_context false >> return_false) s
or_free fault = fault
or_free out_of_fuel = out_of_fuel

module _ (i : DllLoaderInput) where
  -- DLLParse
  unfoldable pub dll_parse : ℕ → M (Unit {0})
  dll_parse f = do
    set_error_context not_parsed
    put zeroed
    λ s. or_free (parse_header i s)
    λ s. or_free (dll_load_image i s)
    λ s. or_free (dll_process_sections i s)
    λ s. or_free (dll_resolve_imports i f s)

  -- DLLLoad
  unfoldable pub dll_load : ℕ → M (Unit {0})
  dll_load f = do dll_parse f; o ← get; λ s. or_free (dll_relocate f (o.image % 2 ^ 32) s)

-- `while (callback && *callback) callback(…)`: the target of a function's address is the function,
-- so both tests are of `callback`. What is called is not part of the repository.
unfoldable pub call_callbacks : (ℕ → M (Unit {0})) → ℕ → ℕ → M (Unit {0})
call_callbacks call zero callback = stop
call_callbacks call (suc f) callback =
    if callback == 0 then pure tt else do call callback; call_callbacks call f callback

-- DLLInvokeTLSCallbacks, with _WIN32; the directory's field AddressOfCallBacks is its fourth
unfoldable pub dll_invoke_tls_callbacks : (ℕ → M (Unit {0})) → ℕ → M (Unit {0})
dll_invoke_tls_callbacks call f = do
  set_error_context invoke_tls_callbacks
  o ← get
  if o.header.tls_directory.size == 0 then pure tt else do
    address_of_callbacks ← read_word32 o.memory (o.header.tls_directory.virtual_address + 12)
    call_callbacks call f address_of_callbacks

-- ===== src/Handlers/Exports.antt =====
-- RegisterExport and DXTMain of src/dxtmain.c, and src/link_loaded_modules.c: how the registry is
-- filled. The functions' addresses, the memory that loaded modules stand in, and what
-- DmWalkLoadedModules and DmRegisterCommandProcessor answer are parameters.
pub mod Linked
pub mod Registered
pub mod Images
pub mod Ordinals
pub mod Found
mod Tests
use nxdk_dyndxt.Base.{
  ℕ, zero, suc, ◌+◌, ◌-◌, ◌*◌, ◌%◌, ◌^◌, Bool, true, false, not, Option, none, some, List, [], ◌∷◌,
  Bytes, ◌==◌, if◌then◌else◌,
}
use nxdk_dyndxt.Pool.{Ptr, null, ModuleExport, Allocator, M, pure, ◌>>=◌, ◌>>◌, free_string}
use nxdk_dyndxt.Response.{def_success, def_error}
use nxdk_dyndxt.Command.Errors.{codes}
use nxdk_dyndxt.Registry.Update.{pool_strdup, register_method}
use nxdk_dyndxt.Loader.Run.{word16, word32}
use nxdk_dyndxt.Handlers.{k_tag}

-- kDynamicDXTLoaderDLLName
abbrev pub loader_name : Bytes
loader_name = codes "dynamic_dxt_loader.dll"

-- The functions whose addresses DXTMain registers
pub data Function : Type 0 where
  cp_delete : Function
  cp_parse_command_parameters : Function
  cp_print_error : Function
  cp_has_key : Function
  cp_get_string : Function
  cp_get_uint32 : Function
  cp_get_int32 : Function
  mr_register_method : Function
  mr_get_method_by_ordinal : Function
  mr_get_method_by_name : Function

-- What RegisterExport is called with: the name, the alias, the ordinal and the function
abbrev pub exports : List (Bytes × Bytes × ℕ × Function)
exports =
    (codes "CPDelete@4", codes "CPDelete", 2, cp_delete)
    ∷ (
      codes "CPParseCommandParameters@8",
      codes "CPParseCommandParameters",
      3,
      cp_parse_command_parameters,
    )
    ∷ (codes "CPPrintError@12", codes "CPPrintError", 4, cp_print_error)
    ∷ (codes "CPHasKey@8", codes "CPHasKey", 5, cp_has_key)
    ∷ (codes "CPGetString@12", codes "CPGetString", 6, cp_get_string)
    ∷ (codes "CPGetUInt32@12", codes "CPGetUInt32", 7, cp_get_uint32)
    ∷ (codes "CPGetInt32@12", codes "CPGetInt32", 8, cp_get_int32)
    ∷ (codes "MRRegisterMethod@8", codes "MRRegisterMethod", 9, mr_register_method)
    ∷ (codes "MRGetMethodByOrdinal@12", codes "MRGetMethodByOrdinal", 10, mr_get_method_by_ordinal)
    ∷ (codes "MRGetMethodByName@12", codes "MRGetMethodByName", 11, mr_get_method_by_name)
    ∷ []

module _ (a : Allocator) (f : ℕ) where
  -- The alias of RegisterExport: NULL for none, and false if it cannot be copied
  unfoldable pub copy_alias : Option Bytes → M (Bool × Ptr)
  unfolding pool_strdup
  copy_alias none = pure (true, null)
  copy_alias (some alias) = do p ← pool_strdup a alias k_tag; pure (not (p == null), p)

  -- RegisterExport: what it returns, and `export_table`
  unfoldable pub register_export : Ptr → Bytes → Option Bytes → ℕ → ℕ → M (Bool × Ptr)
  unfolding copy_alias register_method pool_strdup
  register_export export_table name alias ordinal address = do
    method_name ← pool_strdup a name k_tag
    if method_name == null then pure (false, export_table) else do
      (copied, alias_name) ← copy_alias alias
      if not copied
          then (do free_string method_name; pure (false, export_table))
          else register_method a f export_table loader_name (record {
            method_name = method_name;
            alias = alias_name;
            ordinal = ordinal;
            address = address;
          })

  -- The calls of RegisterExport in DXTMain, whose results are not used
  unfoldable pub register_exports :
      (Function → ℕ) → List (Bytes × Bytes × ℕ × Function) → Ptr → M Ptr
  unfolding register_export
  register_exports address_of [] export_table = pure export_table
  register_exports address_of ((name, alias, ordinal, function) ∷ rest) export_table = do
    (registered, export_table') ←
        register_export export_table name (some alias) ordinal (address_of function)
    register_exports address_of rest export_table'

  module _ (memory : ℕ → ℕ) where
    -- The loop of RegisterModuleExports: what it returns, and `export_table`
    unfoldable pub register_functions : ℕ → ℕ → Bytes → (base first array : ℕ) → Ptr → M (ℕ × Ptr)
    unfolding register_method
    register_functions zero i module_name base first array export_table =
        pure (def_success 0, export_table)
    register_functions (suc n) i module_name base first array export_table = do
      let ordinal = (i + first) % 2 ^ 32
      let index = (ordinal + 2 ^ 32 - first) % 2 ^ 32
      (registered, export_table') ← register_method a f export_table module_name (record {
        method_name = null;
        alias = null;
        ordinal = ordinal;
        address = (word32 memory (array + 4 * index) + base) % 2 ^ 32;
      })
      if registered
          then register_functions n (i + 1) module_name base first array export_table'
          else pure (def_error 5, export_table')

    -- RegisterModuleExports from the export directory on
    unfoldable pub register_directory : Bytes → ℕ → ℕ → Ptr → M (ℕ × Ptr)
    unfolding register_functions
    register_directory module_name base directory export_table =
        register_functions (word32 memory (directory + 20)) 0 module_name base
          (word32 memory (directory + 16)) ((base + word32 memory (directory + 28)) % 2 ^ 32)
          export_table

    -- RegisterModuleExports, without its calls of DbgPrint
    unfoldable pub register_module_exports : Bytes → ℕ → Ptr → M (ℕ × Ptr)
    unfolding register_directory
    register_module_exports module_name base export_table =
        if not (word16 memory base == 0x5A4D)
        then pure (def_error 0x11, export_table)
        else let nt_header = (base + word32 memory (base + 60)) % 2 ^ 32 in
          if not (word32 memory nt_header == 0x4550)
          then pure (def_error 0x11, export_table)
          else if word32 memory (nt_header + 124) == 0
          then pure (def_success 0, export_table)
          else register_directory module_name base
              ((base + word32 memory (nt_header + 120)) % 2 ^ 32) export_table

    -- LinkLoadedModules, for the names and the bases that DmWalkLoadedModules answers with
    unfoldable pub link_loaded_modules : List (Bytes × ℕ) → Ptr → M (ℕ × Ptr)
    unfolding register_module_exports
    link_loaded_modules [] export_table = pure (def_success 0, export_table)
    link_loaded_modules ((name, base) ∷ rest) export_table = do
      (ret, export_table') ← register_module_exports name base export_table
      if ret == def_success 0
          then link_loaded_modules rest export_table'
          else pure (ret, export_table')

    -- DXTMain: what DmRegisterCommandProcessor answers, and `export_table`
    unfoldable pub dxt_main : (Function → ℕ) → List (Bytes × ℕ) → ℕ → Ptr → M (ℕ × Ptr)
    unfolding register_exports link_loaded_modules
    dxt_main address_of modules registered export_table = do
      own ← register_exports address_of exports export_table
      (ret, linked) ← link_loaded_modules modules own
      pure (registered, linked)

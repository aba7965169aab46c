-- ===== src/Registry.antt =====
-- src/module_registry.c and .h: the lists of modules and of their exports on the debug heap, their
-- lookups, counts and enumeration. The global `export_table` is passed in, and out where it
-- changes; a `T **` that a function stores to is the value that it leaves there. The loops run
-- on fuel.
pub mod Update
pub mod Chains
pub mod Lookup
pub mod Walk
pub mod Model
pub mod Owns
pub mod Exhausted
mod Tests
use nxdk_dyndxt.Base.{
  ℕ, zero, suc, ◌+◌, ◌%◌, ◌^◌, Bool, true, false, Option, none, some, Bytes, ◌==◌, if◌then◌else◌,
}
use nxdk_dyndxt.Pool.{Ptr, null, M, out_of_fuel, pure, ◌>>=◌, c_string, same_string, read_string}
use nxdk_dyndxt.Pool.Nodes.{read_node, read_table}

-- 'dxmr'
abbrev pub k_tag : ℕ
k_tag = 0x64786D72

-- `struct ModuleRegistryCursor`
pub record ModuleRegistryCursor : Type 0 where
  pub table : Ptr
  pub export : Ptr

abbrev pub stop : {A : Type 0} → M A
stop h = out_of_fuel

-- The walk to the module of this name, or to the end.
unfoldable pub find_table : ℕ → Ptr → Bytes → M Ptr
find_table zero p module_name = stop
find_table (suc f) p module_name = if p == null then pure null else do
  t ← read_table p
  s ← read_string t.module_name
  if same_string s (c_string module_name) then pure p else find_table f t.next module_name

unfoldable pub find_ordinal : ℕ → Ptr → ℕ → M Ptr
find_ordinal zero p ordinal = stop
find_ordinal (suc f) p ordinal = if p == null then pure null else do
  n ← read_node p
  if n.entry.ordinal == ordinal then pure p else find_ordinal f n.next ordinal

-- `p && !strcmp(p, name)`
unfoldable pub is_named : Ptr → Bytes → M Bool
is_named p name =
    if p == null then pure false else do s ← read_string p; pure (same_string s (c_string name))

unfoldable pub find_name : ℕ → Ptr → Bytes → M Ptr
find_name zero p name = stop
find_name (suc f) p name = if p == null then pure null else do
  n ← read_node p
  by_method_name ← is_named n.entry.method_name name
  if by_method_name then pure p else do
    by_alias ← is_named n.entry.alias name
    if by_alias then pure p else find_name f n.next name

-- `if (!node) return false; *result = node->entry.address; return true;`
unfoldable pub address_of : Ptr → M (Bool × ℕ)
address_of node =
    if node == null then pure (false, 0) else do n ← read_node node; pure (true, n.entry.address)

-- MRGetMethodByOrdinal: what it returns, and `*result`
unfoldable pub get_method_by_ordinal : ℕ → Ptr → Bytes → ℕ → M (Bool × ℕ)
get_method_by_ordinal f export_table module_name ordinal = do
  table ← find_table f export_table module_name
  if table == null
      then pure (false, 0)
      else do t ← read_table table; node ← find_ordinal f t.exports ordinal; address_of node

-- MRGetMethodByName
unfoldable pub get_method_by_name : ℕ → Ptr → Bytes → Bytes → M (Bool × ℕ)
get_method_by_name f export_table module_name name = do
  table ← find_table f export_table module_name
  if table == null
      then pure (false, 0)
      else do t ← read_table table; node ← find_name f t.exports name; address_of node

-- MRGetNumRegisteredModules, from `ret` on
unfoldable pub count_modules : ℕ → Ptr → ℕ → M ℕ
count_modules zero table ret = stop
count_modules (suc f) table ret =
    if table == null
    then pure ret
    else do t ← read_table table; count_modules f t.next ((ret + 1) % 2 ^ 32)

abbrev pub get_num_registered_modules : ℕ → Ptr → M ℕ
get_num_registered_modules f export_table = count_modules f export_table 0

-- The inner and the outer loop of MRGetTotalNumExports
unfoldable pub count_nodes : ℕ → Ptr → ℕ → M ℕ
count_nodes zero node ret = stop
count_nodes (suc f) node ret =
    if node == null
    then pure ret
    else do n ← read_node node; count_nodes f n.next ((ret + 1) % 2 ^ 32)

unfoldable pub count_exports : ℕ → ℕ → Ptr → ℕ → M ℕ
count_exports zero inner table ret = stop
count_exports (suc f) inner table ret = if table == null then pure ret else do
  t ← read_table table
  ret' ← count_nodes inner t.exports ret
  count_exports f inner t.next ret'

abbrev pub get_total_num_exports : ℕ → Ptr → M ℕ
get_total_num_exports f export_table = count_exports f f export_table 0

-- MREnumerateRegistryBegin
unfoldable pub enumerate_registry_begin : Ptr → M ModuleRegistryCursor
enumerate_registry_begin export_table = do
  t ← read_table export_table
  pure (record { table = export_table; export = t.exports })

-- `if (table) node = table->exports;`, where `node` is NULL
unfoldable pub first_export : Ptr → M Ptr
first_export table = if table == null then pure null else do t ← read_table table; pure t.exports

-- MREnumerateRegistry: NULL for `false`, else `*module_name`, the node that `*module_export`
-- points into, and the new cursor
unfoldable pub enumerate_registry :
    ModuleRegistryCursor → M (Option (Ptr × Ptr × ModuleRegistryCursor))
enumerate_registry cursor =
    if cursor.table == null then pure none else if cursor.export == null then pure none else do
      t ← read_table cursor.table
      n ← read_node cursor.export
      if n.next == null
          then (do
            node ← first_export t.next
            pure (some (t.module_name, cursor.export, record { table = t.next; export = node })))
          else pure (
              some (t.module_name, cursor.export, record { table = cursor.table; export = n.next }))

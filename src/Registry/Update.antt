-- ===== src/Registry/Update.antt =====
-- How src/module_registry.c changes its lists: MRRegisterMethod and MRResetRegistry, with
-- PoolStrdup of src/util.c.
use nxdk_dyndxt.Base.{
  ℕ, zero, suc, ◌+◌, ◌%◌, ◌^◌, Bool, true, false, [], ◌∷◌, ◌++◌, Bytes, ◌==◌, if◌then◌else◌, length,
  take,
}
use nxdk_dyndxt.Pool.{
  Ptr, null, ModuleExport, Allocator, M, pure, ◌>>=◌, ◌>>◌, c_string, alloc_string, write_string,
  free_string,
}
use nxdk_dyndxt.Pool.Nodes.{
  read_node, read_table, write_node, write_table, alloc_node, alloc_table, free_node, free_table,
}
use nxdk_dyndxt.Registry.{k_tag, stop, find_table}

-- PoolStrdup
unfoldable pub pool_strdup : Allocator → Bytes → ℕ → M Ptr
pool_strdup a source tag = do
  let size = (length (c_string source) + 1) % 2 ^ 32
  ret ← alloc_string a size tag
  if ret == null
      then pure null
      else do write_string ret (take size (c_string source ++ 0 ∷ [])); pure ret

-- `if (p) DmFreePool(p);`, for a string
unfoldable pub free_name : Ptr → M (Unit {0})
free_name p = if p == null then pure tt else free_string p

-- The inner and the outer loop of MRResetRegistry
unfoldable pub reset_nodes : ℕ → Ptr → M (Unit {0})
reset_nodes zero node = stop
reset_nodes (suc f) node = if node == null then pure tt else do
  n ← read_node node
  free_name n.entry.method_name
  free_name n.entry.alias
  free_node node
  reset_nodes f n.next

unfoldable pub reset_tables : ℕ → ℕ → Ptr → M (Unit {0})
reset_tables zero inner table = stop
reset_tables (suc f) inner table = if table == null then pure tt else do
  t ← read_table table
  reset_nodes inner t.exports
  free_string t.module_name
  free_table table
  reset_tables f inner t.next

-- MRResetRegistry, which leaves `export_table` NULL
unfoldable pub reset_registry : ℕ → Ptr → M Ptr
reset_registry f export_table = do reset_tables f f export_table; pure null

-- SetExportEntry: what it returns, and `*n`. Its test `!n` of the address where the block's
-- address is stored never holds, so there is none here.
unfoldable pub set_export_entry : Allocator → ModuleExport → M (Bool × Ptr)
set_export_entry a module_export = do
  n ← alloc_node a k_tag
  write_node n (record { next = null; entry = module_export })
  pure (true, n)

-- The loop of AppendExport, at `n` behind `last`: the node with the ordinal, or else the last
-- one. `true` is the node with the ordinal.
unfoldable pub find_slot : ℕ → Ptr → Ptr → ℕ → M (Bool × Ptr)
find_slot zero last n ordinal = stop
find_slot (suc f) last n ordinal = if n == null then pure (false, last) else do
  node ← read_node n
  if node.entry.ordinal == ordinal then pure (true, n) else find_slot f n node.next ordinal

-- `DmFreePool` of the old names, and the `memcpy` over the entry
unfoldable pub replace_entry : Ptr → ModuleExport → M Bool
replace_entry n module_export = do
  node ← read_node n
  free_name node.entry.method_name
  free_name node.entry.alias
  write_node n (record { next = node.next; entry = module_export })
  pure true

-- The last module of a list that is not empty
unfoldable pub last_table : ℕ → Ptr → M Ptr
last_table zero e = stop
last_table (suc f) e = do t ← read_table e; if t.next == null then pure e else last_table f t.next

module _ (a : Allocator) where
  -- SetExportEntry(&last->next, module_export)
  unfoldable pub link_export : Ptr → ModuleExport → M Bool
  link_export last module_export = do
    (done, n) ← set_export_entry a module_export
    node ← read_node last
    write_node last (record { next = n; entry = node.entry })
    pure done

  -- AppendExport
  unfoldable pub append_export : ℕ → Ptr → ModuleExport → M Bool
  append_export f table module_export = do
    t ← read_table table
    if t.exports == null
        then (do
          (done, n) ← set_export_entry a module_export
          write_table table (record { next = t.next; module_name = t.module_name; exports = n })
          pure done)
        else (do
          (replaced, n) ← find_slot f t.exports t.exports module_export.ordinal
          if replaced then replace_entry n module_export else link_export n module_export)

  -- SetExportTableEntry: what it returns, and `*dest`
  unfoldable pub set_export_table_entry : Bytes → M (Bool × Ptr)
  set_export_table_entry module_name = do
    dest ← alloc_table a k_tag
    if dest == null then pure (false, null) else do
      name ← pool_strdup a module_name k_tag
      if name == null then (do free_table dest; pure (false, null)) else (do
        write_table dest (record { next = null; module_name = name; exports = null })
        pure (true, dest))

  -- SetExportTableEntry(&e->next, module_name)
  unfoldable pub link_table : Ptr → Bytes → M (Bool × Ptr)
  link_table e module_name = do
    (done, next) ← set_export_table_entry module_name
    t ← read_table e
    write_table e (record { next = next; module_name = t.module_name; exports = t.exports })
    pure (done, next)

  -- AppendExportTable: what it returns, and `export_table`
  unfoldable pub append_export_table : ℕ → Ptr → Bytes → ModuleExport → M (Bool × Ptr)
  append_export_table f export_table module_name module_export =
      if export_table == null
      then (do
        (done, table) ← set_export_table_entry module_name
        if done
            then (do appended ← append_export f table module_export; pure (appended, table))
            else pure (false, table))
      else (do
        e ← last_table f export_table
        (done, table) ← link_table e module_name
        if done
            then (do appended ← append_export f table module_export; pure (appended, export_table))
            else pure (false, export_table))

  -- MRRegisterMethod
  unfoldable pub register_method : ℕ → Ptr → Bytes → ModuleExport → M (Bool × Ptr)
  register_method f export_table module_name module_export = do
    e ← find_table f export_table module_name
    if e == null
        then append_export_table f export_table module_name module_export
        else (do appended ← append_export f e module_export; pure (appended, export_table))

-- ===== src/Pool/Nodes.antt =====
-- Blocks of the two list node types of src/module_registry.c: what a dereference, a store, an
-- allocation and a free of each do.
use nxdk_dyndxt.Base.{ℕ, none, some, ◌==◌, if◌then◌else◌}
use nxdk_dyndxt.Pool.{
  Ptr, null, ExportNode, ModuleExportTable, Allocator, M, fault, ok, look, update, tick,
}

-- `*p`
unfoldable pub read_node : Ptr → M ExportNode
read_node p h =
    if p == null then fault else elim (look h.nodes p) [ none ↦ fault | some n ↦ ok n h ]

unfoldable pub read_table : Ptr → M ModuleExportTable
read_table p h =
    if p == null then fault else elim (look h.tables p) [ none ↦ fault | some t ↦ ok t h ]

-- `*p = n`
unfoldable pub write_node : Ptr → ExportNode → M (Unit {0})
write_node p n h = if p == null then fault else elim (look h.nodes p) [
  | none ↦ fault
  | some _ ↦ ok tt (record h { nodes = update h.nodes p (some n) })
]

unfoldable pub write_table : Ptr → ModuleExportTable → M (Unit {0})
write_table p t h = if p == null then fault else elim (look h.tables p) [
  | none ↦ fault
  | some _ ↦ ok tt (record h { tables = update h.tables p (some t) })
]

-- What a new block holds; the registry writes each field before it reads it.
abbrev pub blank_node : ExportNode
blank_node = record {
  next = null;
  entry = record { ordinal = 0; method_name = null; alias = null; address = 0 };
}

abbrev pub blank_table : ModuleExportTable
blank_table = record { next = null; module_name = null; exports = null }

-- `DmAllocatePoolWithTag(sizeof(ExportNode), tag)`; on the target a node has 20 bytes, a table 12
unfoldable pub alloc_node : Allocator → ℕ → M Ptr
alloc_node a tag h =
    let p = a.pick h 20 tag in
    if p == null
    then ok null (tick h)
    else ok p (record (tick h) { nodes = update h.nodes p (some blank_node) })

unfoldable pub alloc_table : Allocator → ℕ → M Ptr
alloc_table a tag h =
    let p = a.pick h 12 tag in
    if p == null
    then ok null (tick h)
    else ok p (record (tick h) { tables = update h.tables p (some blank_table) })

-- `DmFreePool(p)`
unfoldable pub free_node : Ptr → M (Unit {0})
free_node p h = elim (look h.nodes p) [
  | none ↦ fault
  | some _ ↦ ok tt (record h { nodes = update h.nodes p none })
]

unfoldable pub free_table : Ptr → M (Unit {0})
free_table p h = elim (look h.tables p) [
  | none ↦ fault
  | some _ ↦ ok tt (record h { tables = update h.tables p none })
]

-- ===== src/Pool/Blocks.antt =====
-- The types of blocks: strings, pointer arrays, and the list nodes of src/module_registry.c with
-- the `ModuleExport` of src/module_registry.h inside them.
use nxdk_dyndxt.Base.{ℕ, Option, List, Bytes}

abbrev pub Ptr : Type 0
Ptr = ℕ

abbrev pub null : Ptr
null = 0

-- A `char[]` of `size` bytes, and the bytes written so far from its start.
pub record Text : Type 0 where
  pub size : ℕ
  pub bytes : Bytes

-- A `char *[]`; `none` is a slot that was never written.
abbrev pub Slots : Type 0
Slots = List (Option Ptr)

-- `struct ModuleExport`; the names are addresses of strings, or `null`
pub record ModuleExport : Type 0 where
  pub ordinal : ℕ
  pub method_name : Ptr
  pub alias : Ptr
  pub address : ℕ

-- `struct ExportNode`
pub record ExportNode : Type 0 where
  pub next : Ptr
  pub entry : ModuleExport

-- `struct ModuleExportTable`
pub record ModuleExportTable : Type 0 where
  pub next : Ptr
  pub module_name : Ptr
  pub exports : Ptr

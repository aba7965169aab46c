-- ===== src/Registry/Owns.antt =====
-- The blocks that the lists of src/module_registry.c own: tables, nodes and strings.
pub mod Reset
pub mod Locate
pub mod Moves
pub mod Around
pub mod Names
pub mod Outcomes
pub mod Append
pub mod NewTable
pub mod Register
pub mod Lookup
pub mod Session
mod Tests
use nxdk_dyndxt.Base.{
  ◌≡◌, ◌≢◌, refl, ap, Option, none, some, List, [], ◌∷◌, ◌++◌, map, Bytes, ℕ, ◌<◌, length,
}
use nxdk_dyndxt.Pool.{
  Ptr, null, Text, ModuleExport, ExportNode, ModuleExportTable, Heap, look, c_string,
}
use nxdk_dyndxt.Pool.Owned.{Held, Owned}
use nxdk_dyndxt.Pool.Context.{
  IsContext, IsContext-id, IsContext-cons, IsContext-compose, Held-inside,
}
use nxdk_dyndxt.Registry.Chains.{Export, Module}

-- The block of a name that may be NULL
abbrev pub Name : Type 0
Name = Option (Ptr × Text)

-- A `ModuleExport` with the blocks of its names
pub record Item : Type 0 where
  pub ordinal : ℕ
  pub method_name : Name
  pub alias : Name
  pub address : ℕ

pub record Node : Type 0 where
  pub place : Ptr
  pub item : Item

pub record Table : Type 0 where
  pub place : Ptr
  pub name : Ptr × Text
  pub nodes : List Node

abbrev pub name_at : Name → Ptr
name_at none = null
name_at (some (p, t)) = p

abbrev pub entry_of : Item → ModuleExport
entry_of i = record {
  ordinal = i.ordinal;
  method_name = name_at i.method_name;
  alias = name_at i.alias;
  address = i.address;
}

-- The address of a list that ends at `end`
abbrev pub first_node : Ptr → List Node → Ptr
first_node end [] = end
first_node end (n ∷ ns) = n.place

abbrev pub first_table : Ptr → List Table → Ptr
first_table end [] = end
first_table end (t ∷ ts) = t.place

-- The blocks, in front of others. The nodes of a list end at `end`.
abbrev pub nodes_to : Ptr → List Node → List (Ptr × ExportNode) → List (Ptr × ExportNode)
nodes_to end [] bs = bs
nodes_to end (n ∷ ns) bs =
    (n.place, record { next = first_node end ns; entry = entry_of n.item }) ∷ nodes_to end ns bs

abbrev pub all_nodes : List Table → List (Ptr × ExportNode) → List (Ptr × ExportNode)
all_nodes [] bs = bs
all_nodes (t ∷ ts) bs = nodes_to null t.nodes (all_nodes ts bs)

abbrev pub table_of : Ptr → Table → ModuleExportTable
table_of next t = record { next = next; module_name = t.name.0; exports = first_node null t.nodes }

abbrev pub tables_to :
    Ptr → List Table → List (Ptr × ModuleExportTable) → List (Ptr × ModuleExportTable)
tables_to end [] bs = bs
tables_to end (t ∷ ts) bs = (t.place, table_of (first_table end ts) t) ∷ tables_to end ts bs

abbrev pub name_block : Name → List (Ptr × Text) → List (Ptr × Text)
name_block none bs = bs
name_block (some b) bs = b ∷ bs

abbrev pub item_names : Item → List (Ptr × Text) → List (Ptr × Text)
item_names i bs = name_block i.method_name (name_block i.alias bs)

abbrev pub names : List Node → List (Ptr × Text) → List (Ptr × Text)
names [] bs = bs
names (n ∷ ns) bs = item_names n.item (names ns bs)

abbrev pub all_names : List Table → List (Ptr × Text) → List (Ptr × Text)
all_names [] bs = bs
all_names (t ∷ ts) bs = names t.nodes (t.name ∷ all_names ts bs)

-- `h` is `h₀` with the blocks of the list `ts` at `p`, and the strings `extra`.
pub record Owns (h₀ h : Heap) (p : Ptr) (extra : List (Ptr × Text)) (ts : List Table) : Type 0 where
  pub start : p ≡ first_table null ts
  pub strings : Owned (all_names ts extra) h₀.strings h.strings
  pub arrays : (q : Ptr) → look h.arrays q ≡ look h₀.arrays q
  pub nodes : Owned (all_nodes ts []) h₀.nodes h.nodes
  pub tables : Owned (tables_to null ts []) h₀.tables h.tables

-- No list is longer than the fuel `f` lasts.
abbrev pub Lasts : ℕ → List Table → Type 0
Lasts f [] = 0 < f
Lasts f (t ∷ ts) = (length t.nodes < f) × Lasts f ts

-- Every block is as it was: nothing is leaked, and nothing else freed or overwritten.
pub record AllRestored (h₀ h : Heap) : Type 0 where
  pub strings : (p : Ptr) → look h.strings p ≡ look h₀.strings p
  pub arrays : (p : Ptr) → look h.arrays p ≡ look h₀.arrays p
  pub nodes : (p : Ptr) → look h.nodes p ≡ look h₀.nodes p
  pub tables : (p : Ptr) → look h.tables p ≡ look h₀.tables p

-- What the blocks stand for
abbrev pub text_of : Name → Option Bytes
text_of none = none
text_of (some (p, t)) = some (c_string t.bytes)

abbrev pub export_of : Item → Export
export_of i = record {
  ordinal = i.ordinal;
  method_name = text_of i.method_name;
  alias = text_of i.alias;
  address = i.address;
}

abbrev pub exports_of : List Node → List Export
exports_of [] = []
exports_of (n ∷ ns) = export_of n.item ∷ exports_of ns

abbrev pub module_of : Table → Module
module_of t = record { name = c_string t.name.1.bytes; exports = exports_of t.nodes }

abbrev pub modules_of : List Table → List Module
modules_of [] = []
modules_of (t ∷ ts) = module_of t ∷ modules_of ts

pub nodes_to-IsContext : (end : Ptr) (ns : List Node) → IsContext (nodes_to end ns)
nodes_to-IsContext end [] = IsContext-id
nodes_to-IsContext end (n ∷ ns) =
    IsContext-cons (n.place, record { next = first_node end ns; entry = entry_of n.item })
      (nodes_to end ns) (nodes_to-IsContext end ns)

pub all_nodes-IsContext : (ts : List Table) → IsContext (all_nodes ts)
all_nodes-IsContext [] = IsContext-id
all_nodes-IsContext (t ∷ ts) =
    IsContext-compose (nodes_to null t.nodes) (all_nodes ts) (nodes_to-IsContext null t.nodes)
      (all_nodes-IsContext ts)

pub tables_to-IsContext : (end : Ptr) (ts : List Table) → IsContext (tables_to end ts)
tables_to-IsContext end [] = IsContext-id
tables_to-IsContext end (t ∷ ts) =
    IsContext-cons (t.place, table_of (first_table end ts) t) (tables_to end ts)
      (tables_to-IsContext end ts)

pub name_block-IsContext : (n : Name) → IsContext (name_block n)
name_block-IsContext none bs = refl
name_block-IsContext (some b) bs = refl

pub item_names-IsContext : (i : Item) → IsContext (item_names i)
item_names-IsContext i =
    IsContext-compose (name_block i.method_name) (name_block i.alias)
      (name_block-IsContext i.method_name) (name_block-IsContext i.alias)

pub names-IsContext : (ns : List Node) → IsContext (names ns)
names-IsContext [] = IsContext-id
names-IsContext (n ∷ ns) =
    IsContext-compose (item_names n.item) (names ns) (item_names-IsContext n.item)
      (names-IsContext ns)

pub all_names-IsContext : (ts : List Table) → IsContext (all_names ts)
all_names-IsContext [] = IsContext-id
all_names-IsContext (t ∷ ts) =
    IsContext-compose (names t.nodes) (λ bs. t.name ∷ all_names ts bs) (names-IsContext t.nodes)
      (IsContext-cons t.name (all_names ts) (all_names-IsContext ts))

-- ===== src/Registry/Chains.antt =====
-- What the lists of src/module_registry.c stand for: modules with their exports, in order.
use nxdk_dyndxt.Base.{ℕ, ◌<◌, length, ◌≡◌, ◌≢◌, Option, none, some, List, [], ◌∷◌, Bytes, arith}
use nxdk_dyndxt.Pool.{
  Ptr, null, Text, ModuleExport, ExportNode, ModuleExportTable, Heap, ok, look, c_string,
  read_string,
}
use nxdk_dyndxt.Pool.Nodes.{read_node, read_table}

-- An export without its addresses.
pub record Export : Type 0 where
  pub ordinal : ℕ
  pub method_name : Option Bytes
  pub alias : Option Bytes
  pub address : ℕ

pub record Module : Type 0 where
  pub name : Bytes
  pub exports : List Export

abbrev pub Reads : Heap → Ptr → Bytes → Type 0
Reads h p s = (t : Text) × (look h.strings p ≡ some t) × (c_string t.bytes ≡ s)

-- A `char *` that may be NULL.
abbrev pub IsName : Heap → Ptr → Option Bytes → Type 0
IsName h p none = p ≡ null
IsName h p (some s) = (p ≢ null) × Reads h p s

pub record IsExport (h : Heap) (e : ModuleExport) (x : Export) : Type 0 where
  pub ordinal : e.ordinal ≡ x.ordinal
  pub method_name : IsName h e.method_name x.method_name
  pub alias : IsName h e.alias x.alias
  pub address : e.address ≡ x.address

-- The nodes from `p` on, to a NULL, hold these exports.
abbrev pub IsChain : Heap → Ptr → List Export → Type 0
IsChain h p [] = p ≡ null
IsChain h p (x ∷ xs) =
    (p ≢ null)
    × (n : ExportNode) × (look h.nodes p ≡ some n)
    × IsExport h n.entry x
    × IsChain h n.next xs

-- The table `t` holds this module.
abbrev pub IsTable : Heap → ModuleExportTable → Module → Type 0
IsTable h t m = Reads h t.module_name m.name × IsChain h t.exports m.exports

-- The tables from `p` on, to a NULL, hold these modules.
abbrev pub IsRegistry : Heap → Ptr → List Module → Type 0
IsRegistry h p [] = p ≡ null
IsRegistry h p (m ∷ ms) =
    (p ≢ null)
    × (t : ModuleExportTable) × (look h.tables p ≡ some t)
    × IsTable h t m
    × IsRegistry h t.next ms

-- No list is longer than fuel `f` lasts.
abbrev pub HaveRoom : ℕ → List Module → Type 0
HaveRoom f [] = 0 < f
HaveRoom f (m ∷ ms) = (length m.exports < f) × HaveRoom f ms

pub read_string-Reads : (h : Heap) (p : Ptr) (s : Bytes) → Reads h p s → read_string p h ≡ ok s h
unfolding read_string
read_string-Reads h p s (t, e, e') = ground arith

pub read_table-look :
    (h : Heap) (p : Ptr) (t : ModuleExportTable)
    → p ≢ null
    → look h.tables p ≡ some t
    → read_table p h ≡ ok t h
unfolding read_table
read_table-look h p t ne e = ground arith

pub read_node-look :
    (h : Heap) (p : Ptr) (n : ExportNode)
    → p ≢ null
    → look h.nodes p ≡ some n
    → read_node p h ≡ ok n h
unfolding read_node
read_node-look h p n ne e = ground arith

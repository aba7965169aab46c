-- ===== src/Registry/Owns/Around.antt =====
-- Lists that own their blocks, taken apart at one table or at one node.
use mathlib.Core.Path.{subst}
use nxdk_dyndxt.Base.{◌≡◌, refl, sym, ap, ◌∙◌, List, [], ◌∷◌, ◌++◌}
use nxdk_dyndxt.Pool.{Ptr, null, Text, ExportNode, ModuleExportTable, Heap, look}
use nxdk_dyndxt.Pool.Owned.{Owned}
use nxdk_dyndxt.Registry.Owns.{
  Node, Table, first_node, first_table, nodes_to, all_nodes, tables_to, table_of, names, all_names,
  exports_of, modules_of, export_of, module_of, Owns,
}

pub first_node-append :
    (end : Ptr) (xs ys : List Node) → first_node end (xs ++ ys) ≡ first_node (first_node end ys) xs
first_node-append end [] ys = refl
first_node-append end (x ∷ xs) ys = refl

pub first_table-append :
    (end : Ptr) (xs ys : List Table)
    → first_table end (xs ++ ys) ≡ first_table (first_table end ys) xs
first_table-append end [] ys = refl
first_table-append end (x ∷ xs) ys = refl

pub nodes_to-append :
    (end : Ptr) (xs ys : List Node) (bs : List (Ptr × ExportNode))
    → nodes_to end (xs ++ ys) bs ≡ nodes_to (first_node end ys) xs (nodes_to end ys bs)
nodes_to-append end [] ys bs = refl
nodes_to-append end (x ∷ xs) ys bs =
    rw (first_node-append end xs ys, nodes_to-append end xs ys bs) refl

pub tables_to-append :
    (end : Ptr) (xs ys : List Table) (bs : List (Ptr × ModuleExportTable))
    → tables_to end (xs ++ ys) bs ≡ tables_to (first_table end ys) xs (tables_to end ys bs)
tables_to-append end [] ys bs = refl
tables_to-append end (x ∷ xs) ys bs =
    rw (first_table-append end xs ys, tables_to-append end xs ys bs) refl

pub names-append :
    (xs ys : List Node) (bs : List (Ptr × Text)) → names (xs ++ ys) bs ≡ names xs (names ys bs)
names-append [] ys bs = refl
names-append (x ∷ xs) ys bs = rw (names-append xs ys bs) refl

pub all_names-append :
    (xs ys : List Table) (bs : List (Ptr × Text))
    → all_names (xs ++ ys) bs ≡ all_names xs (all_names ys bs)
all_names-append [] ys bs = refl
all_names-append (x ∷ xs) ys bs = rw (all_names-append xs ys bs) refl

pub all_nodes-append :
    (xs ys : List Table) (bs : List (Ptr × ExportNode))
    → all_nodes (xs ++ ys) bs ≡ all_nodes xs (all_nodes ys bs)
all_nodes-append [] ys bs = refl
all_nodes-append (x ∷ xs) ys bs = rw (all_nodes-append xs ys bs) refl

pub exports_of-append : (xs ys : List Node) → exports_of (xs ++ ys) ≡ exports_of xs ++ exports_of ys
exports_of-append [] ys = refl
exports_of-append (x ∷ xs) ys = ap (◌∷◌ (export_of x.item)) (exports_of-append xs ys)

pub modules_of-append :
    (xs ys : List Table) → modules_of (xs ++ ys) ≡ modules_of xs ++ modules_of ys
modules_of-append [] ys = refl
modules_of-append (x ∷ xs) ys = ap (◌∷◌ (module_of x)) (modules_of-append xs ys)

-- `Owns` for a list with the table `t` behind `pre` and before `post`, without its first address
pub record Around (h₀ h : Heap) (pre post : List Table) (extra : List (Ptr × Text)) (t : Table)
    : Type 0 where
  pub strings :
      Owned (all_names pre (names t.nodes (t.name ∷ all_names post extra))) h₀.strings h.strings
  pub arrays : (q : Ptr) → look h.arrays q ≡ look h₀.arrays q
  pub nodes : Owned (all_nodes pre (nodes_to null t.nodes (all_nodes post []))) h₀.nodes h.nodes
  pub tables :
      Owned
        (tables_to t.place pre
          ((t.place, table_of (first_table null post) t) ∷ tables_to null post []))
        h₀.tables
        h.tables

pub Owns-Around :
    {h₀ h : Heap} {p : Ptr} {extra : List (Ptr × Text)} (pre post : List Table) (t : Table)
    → Owns h₀ h p extra (pre ++ t ∷ post)
    → Around h₀ h pre post extra t
Owns-Around {h₀} {h} {extra} pre post t o = record {
  strings =
      subst (λ bs. Owned bs h₀.strings h.strings) (all_names-append pre (t ∷ post) extra) o.strings;
  arrays = o.arrays;
  nodes = subst (λ bs. Owned bs h₀.nodes h.nodes) (all_nodes-append pre (t ∷ post) []) o.nodes;
  tables =
      subst (λ bs. Owned bs h₀.tables h.tables) (tables_to-append null pre (t ∷ post) []) o.tables;
}

pub Around-Owns :
    {h₀ h : Heap} {p : Ptr} {extra : List (Ptr × Text)} (pre post : List Table) (t : Table)
    → p ≡ first_table t.place pre
    → Around h₀ h pre post extra t
    → Owns h₀ h p extra (pre ++ t ∷ post)
Around-Owns {h₀} {h} {extra} pre post t start o = record {
  start = start ∙ sym (first_table-append null pre (t ∷ post));
  strings =
      subst (λ bs. Owned bs h₀.strings h.strings) (sym (all_names-append pre (t ∷ post) extra))
        o.strings;
  arrays = o.arrays;
  nodes =
      subst (λ bs. Owned bs h₀.nodes h.nodes) (sym (all_nodes-append pre (t ∷ post) [])) o.nodes;
  tables =
      subst (λ bs. Owned bs h₀.tables h.tables) (sym (tables_to-append null pre (t ∷ post) []))
        o.tables;
}

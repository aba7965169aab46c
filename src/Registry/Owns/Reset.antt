-- ===== src/Registry/Owns/Reset.antt =====
-- MRResetRegistry on lists that own their blocks.
use nxdk_dyndxt.Base.{
  ℕ, zero, suc, ◌<◌, ◌≡◌, refl, ap, ◌∙◌, none, some, List, [], ◌∷◌, arith, length, ≢→==,
}
use nxdk_dyndxt.Pool.{
  Ptr, null, Text, ExportNode, ModuleExportTable, Heap, Region, ok, look, update, free_string,
}
use nxdk_dyndxt.Pool.Nodes.{free_node, free_table}
use nxdk_dyndxt.Pool.Owned.{Owned, Owned-free}
use nxdk_dyndxt.Registry.Update.{free_name, reset_nodes, reset_tables, reset_registry}
use nxdk_dyndxt.Registry.Chains.{read_table-look, read_node-look}
use nxdk_dyndxt.Registry.Owns.{
  Name, Node, Table, name_at, name_block, names, all_names, first_node, first_table, nodes_to,
  all_nodes, tables_to, Owns, Lasts, AllRestored,
}

free_string-look :
    (p : Ptr) (h : Heap) (t : Text)
    → look h.strings p ≡ some t
    → free_string p h ≡ ok tt (record h { strings = update h.strings p none })
unfolding free_string
free_string-look p h t e = rw (e, free_string) refl

free_node-look :
    (p : Ptr) (h : Heap) (n : ExportNode)
    → look h.nodes p ≡ some n
    → free_node p h ≡ ok tt (record h { nodes = update h.nodes p none })
unfolding free_node
free_node-look p h n e = rw (e, free_node) refl

free_table-look :
    (p : Ptr) (h : Heap) (t : ModuleExportTable)
    → look h.tables p ≡ some t
    → free_table p h ≡ ok tt (record h { tables = update h.tables p none })
unfolding free_table
free_table-look p h t e = rw (e, free_table) refl

pub free_name-Owned :
    (n : Name) (h : Heap) {bs : List (Ptr × Text)} {f : Region Text}
    → Owned (name_block n bs) f h.strings
    → (s : Region Text) × (free_name (name_at n) h ≡ ok tt (record h { strings = s }))
      × Owned bs f s
unfolding free_name
free_name-Owned none h o = (h.strings, refl, o)
free_name-Owned (some (p, t)) h o = (
  update h.strings p none,
  rw (≢→== p null o.held.1) (free_string-look p h t o.held.0),
  Owned-free o,
)

reset_nodes-Owned :
    (f : ℕ) (ns : List Node) (h : Heap) {bs : List (Ptr × Text)} {cs : List (Ptr × ExportNode)}
    {r : Region Text} {q : Region ExportNode}
    → length ns < f
    → Owned (names ns bs) r h.strings
    → Owned (nodes_to null ns cs) q h.nodes
    → (s : Region Text) × (n : Region ExportNode) × (reset_nodes f (first_node null ns) h
        ≡ ok tt (record h { strings = s; nodes = n }))
      × Owned bs r s
      × Owned cs q n
unfolding reset_nodes
reset_nodes-Owned zero ns h l os on = absurd (omega arith)
reset_nodes-Owned (suc f) [] h l os on = (h.strings, h.nodes, refl, os, on)
reset_nodes-Owned (suc f) (x ∷ ns) h l os on =
    let (s₁, first, o₁) = free_name-Owned x.item.method_name h os in
    let (s₂, second, o₂) = free_name-Owned x.item.alias (record h { strings = s₁ }) o₁ in
    let h₃ : Heap = record h { strings = s₂; nodes = update h.nodes x.place none } in
    let (s, n, rest, os', on') = reset_nodes-Owned f ns h₃ (omega arith) o₂ (Owned-free on) in
    (
      s,
      n,
      rw
          (
            ≢→== x.place null on.held.1,
            read_node-look h x.place _ on.held.1 on.held.0,
            first,
            second,
            free_node-look x.place (record h { strings = s₂ }) _ on.held.0,
          )
          rest,
      os',
      on',
    )

reset_tables-Owned :
    (f inner : ℕ) (ts : List Table) (h : Heap) {r : Region Text} {q : Region ExportNode}
    {g : Region ModuleExportTable}
    → length ts < f
    → Lasts inner ts
    → Owned (all_names ts []) r h.strings
    → Owned (all_nodes ts []) q h.nodes
    → Owned (tables_to null ts []) g h.tables
    → (h' : Heap) × (reset_tables f inner (first_table null ts) h ≡ ok tt h')
      × Owned [] r h'.strings
      × Owned [] q h'.nodes
      × Owned [] g h'.tables
      × (h'.arrays ≡ h.arrays)
unfolding reset_tables
reset_tables-Owned zero inner ts h l lasts os on ot = absurd (omega arith)
reset_tables-Owned (suc f) inner [] h l lasts os on ot = (h, refl, os, on, ot, refl)
reset_tables-Owned (suc f) inner (t ∷ ts) h l (room, lasts) os on ot =
    let (s, n, freed, os', on') = reset_nodes-Owned inner t.nodes h room os on in
    let h₁ : Heap = record h { strings = s; nodes = n } in
    let h₂ : Heap = record h₁ { strings = update s t.name.0 none } in
    let h₃ : Heap = record h₂ { tables = update h.tables t.place none } in
    let (h', rest, os₁, on₁, ot₁, same) =
      reset_tables-Owned f inner ts h₃ (omega arith) lasts (Owned-free os') on' (Owned-free ot) in
    (
      h',
      rw
          (
            ≢→== t.place null ot.held.1,
            read_table-look h t.place _ ot.held.1 ot.held.0,
            freed,
            free_string-look t.name.0 h₁ _ os'.held.0,
            free_table-look t.place h₂ _ ot.held.0,
          )
          rest,
      os₁,
      on₁,
      ot₁,
      same,
    )

-- On lists that own their blocks, and that the fuel lasts for, MRResetRegistry ends without a
-- fault and leaves NULL; each string, node and table of the lists is free, and every other block of
-- the heap is as it was before the lists were built.
pub reset_registry-AllRestored :
    (f : ℕ) (h₀ h : Heap) (p : Ptr) (ts : List Table)
    → Owns h₀ h p [] ts
    → length ts < f
    → Lasts f ts
    → (h' : Heap) × (reset_registry f p h ≡ ok null h') × AllRestored h₀ h'
unfolding reset_registry
reset_registry-AllRestored f h₀ h p ts o l lasts =
    let (h', run, os, on, ot, same) =
      reset_tables-Owned f f ts h l lasts o.strings o.nodes o.tables in
    (
      h',
      rw (o.start, run) refl,
      record {
        strings = λ q. os.same q refl;
        arrays = λ q. ap (λ r. look r q) same ∙ o.arrays q;
        nodes = λ q. on.same q refl;
        tables = λ q. ot.same q refl;
      },
    )

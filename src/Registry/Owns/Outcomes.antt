-- ===== src/Registry/Owns/Outcomes.antt =====
-- The three outcomes of AppendExport on lists that own their blocks: a first node, a node that is
-- overwritten, and a new last node.
use mathlib.Core.Path.{subst}
use nxdk_dyndxt.Base.{ℕ, ◌≡◌, refl, sym, ◌∙◌, Bool, true, some, List, [], ◌∷◌, ◌++◌}
use nxdk_dyndxt.Pool.{
  Ptr, null, Text, ExportNode, ModuleExportTable, Heap, Allocator, Run, ok, update, tick,
}
use nxdk_dyndxt.Pool.Alloc.{NeverRefuses}
use nxdk_dyndxt.Pool.Owned.{Owned}
use nxdk_dyndxt.Pool.Context.{IsContext, IsContext-cons, IsContext-compose, Owned-in}
use nxdk_dyndxt.Registry.{k_tag}
use nxdk_dyndxt.Registry.Update.{replace_entry, link_export, append_export}
use nxdk_dyndxt.Registry.Chains.{Export, read_table-look, read_node-look}
use nxdk_dyndxt.Registry.Owns.{
  Item, Node, Table, entry_of, export_of, exports_of, item_names, names, all_names, first_node,
  first_table, nodes_to, all_nodes, all_nodes-IsContext, tables_to, tables_to-IsContext, table_of,
}
use nxdk_dyndxt.Registry.Owns.Moves.{
  look-Owned, write_node-Owned, write_table-Owned, set_export_entry-Owned,
}
use nxdk_dyndxt.Registry.Owns.Names.{
  names_before, nodes_before, names_before-IsContext, nodes_before-IsContext, names_last,
  names_between, free_names-inside,
}
use nxdk_dyndxt.Registry.Owns.Around.{
  Around, nodes_to-append, names-append, exports_of-append, first_node-append,
}

-- The table of these nodes
abbrev pub holding : Ptr → Ptr × Text → List Node → Table
holding q b ns = record { place = q; name = b; nodes = ns }

-- A run that leaves these exports in the table at `q`
pub record Leaves (h₀ : Heap) (pre post : List Table) (more : List (Ptr × Text)) (q : Ptr)
    (b : Ptr × Text) (run : Run Bool) (xs : List Export) : Type 0 where
  pub heap : Heap
  pub nodes : List Node
  pub is : run ≡ ok true heap
  pub owns : Around h₀ heap pre post more (holding q b nodes)
  pub holds : exports_of nodes ≡ xs

module _ (h₀ : Heap) (pre post : List Table) (more : List (Ptr × Text)) (q : Ptr)
    (b : Ptr × Text) where
  -- The table that AppendExport reads
  abbrev pub table_at : List Node → ModuleExportTable
  table_at ns = table_of (first_table null post) (holding q b ns)

  -- The table stays as it is where its first node does.
  same_first :
      (xs ys : List Node) (h : Heap)
      → first_node null xs ≡ first_node null ys
      → Owned (tables_to q pre ((q, table_at xs) ∷ tables_to null post [])) h₀.tables h.tables
      → Owned (tables_to q pre ((q, table_at ys) ∷ tables_to null post [])) h₀.tables h.tables
  same_first xs ys h e o =
      subst
        (λ x.
          Owned
            (tables_to q pre (
              (q, record { next = first_table null post; module_name = b.0; exports = x })
              ∷ tables_to null post []))
            h₀.tables h.tables)
        e o

  pub append_export-empty :
      (a : Allocator) (f : ℕ) (h : Heap) (new : Item)
      → NeverRefuses a k_tag
      → Around h₀ h pre post (item_names new more) (holding q b [])
      → Leaves h₀ pre post more q b (append_export a f q (entry_of new) h) (export_of new ∷ [])
  unfolding append_export
  append_export-empty a f h new full o =
      let (ne, there) =
        look-Owned (tables_to q pre) (tables_to-IsContext q pre) q (table_at [])
          (tables_to null post []) o.tables in
      let (p, g, set, _, on) = set_export_entry-Owned a new h _ full o.nodes in
      let h₁ : Heap = record (tick h) { nodes = g } in
      let node : Node = record { place = p; item = new } in
      let (write, ot) =
        write_table-Owned (tables_to q pre) (tables_to-IsContext q pre) q (table_at [])
          (table_at (node ∷ [])) (tables_to null post []) h₁ o.tables in
      record {
        heap = record h₁ { tables = update h.tables q (some (table_at (node ∷ []))) };
        nodes = node ∷ [];
        is = rw (read_table-look h q _ ne there, set, write) refl;
        owns = record {
          strings = names_last pre post b [] p new more o.strings;
          arrays = o.arrays;
          nodes = Owned-in (all_nodes pre) (all_nodes-IsContext pre) _ (all_nodes post []) on;
          tables = ot;
        };
        holds = refl;
      }

  pub replace_entry-Around :
      (h : Heap) (before after : List Node) (n : Node) (new : Item)
      → Around h₀ h pre post (item_names new more) (holding q b (before ++ n ∷ after))
      → Leaves h₀ pre post more q b
          (replace_entry n.place (entry_of new) h)
          (exports_of before ++ export_of new ∷ exports_of after)
  unfolding replace_entry
  replace_entry-Around h before after n new o =
      let k = names_before pre before in
      let c = names_before-IsContext pre before in
      let l = nodes_before pre n.place before in
      let d = nodes_before-IsContext pre n.place before in
      let rest = names after (b ∷ all_names post (item_names new more)) in
      let nodes_rest = nodes_to null after (all_nodes post []) in
      let old : ExportNode = record { next = first_node null after; entry = entry_of n.item } in
      let entry : ExportNode = record { next = first_node null after; entry = entry_of new } in
      let node : Node = record { place = n.place; item = new } in
      let os : Owned (k (item_names n.item rest)) h₀.strings h.strings =
        subst (λ bs. Owned (all_names pre bs) h₀.strings h.strings)
          (names-append before (n ∷ after) (b ∷ all_names post (item_names new more))) o.strings in
      let on : Owned (l ((n.place, old) ∷ nodes_rest)) h₀.nodes h.nodes =
        subst (λ bs. Owned (all_nodes pre bs) h₀.nodes h.nodes)
          (nodes_to-append null before (n ∷ after) (all_nodes post [])) o.nodes in
      let (s, t, first_run, second_run, os') = free_names-inside k c n.item rest h os in
      let (ne, there) = look-Owned l d n.place old nodes_rest on in
      let h₁ : Heap = record h { strings = t } in
      let (write, on') = write_node-Owned l d n.place old entry nodes_rest h₁ on in
      record {
        heap = record h₁ { nodes = update h.nodes n.place (some entry) };
        nodes = before ++ node ∷ after;
        is = rw (read_node-look h n.place _ ne there, first_run, second_run, write) refl;
        owns = record {
          strings = names_between pre post b before after n.place new more os';
          arrays = o.arrays;
          nodes =
              subst (λ bs. Owned (all_nodes pre bs) h₀.nodes (update h.nodes n.place (some entry)))
                (sym (nodes_to-append null before (node ∷ after) (all_nodes post []))) on';
          tables =
              same_first (before ++ n ∷ after) (before ++ node ∷ after) h
                (first_node-append null before (n ∷ after)
                  ∙ sym (first_node-append null before (node ∷ after)))
                o.tables;
        };
        holds = exports_of-append before (node ∷ after);
      }

  pub link_export-Around :
      (a : Allocator) (h : Heap) (init : List Node) (l : Node) (new : Item)
      → NeverRefuses a k_tag
      → Around h₀ h pre post (item_names new more) (holding q b (init ++ l ∷ []))
      → Leaves h₀ pre post more q b
          (link_export a l.place (entry_of new) h)
          (exports_of (init ++ l ∷ []) ++ export_of new ∷ [])
  unfolding link_export
  link_export-Around a h init l new full o =
      let (p, g, set, ne, on) = set_export_entry-Owned a new h _ full o.nodes in
      let rest = all_nodes post [] in
      let l_ctx = nodes_before pre l.place init in
      let d = nodes_before-IsContext pre l.place init in
      let new_node : ExportNode = record { next = null; entry = entry_of new } in
      let k : List (Ptr × ExportNode) → List (Ptr × ExportNode) = λ r. (p, new_node) ∷ l_ctx r in
      let c : IsContext k = IsContext-cons (p, new_node) l_ctx d in
      let old : ExportNode = record { next = null; entry = entry_of l.item } in
      let linked : ExportNode = record { next = p; entry = entry_of l.item } in
      let node : Node = record { place = p; item = new } in
      let on₁ : Owned (k ((l.place, old) ∷ rest)) h₀.nodes g =
        subst (λ bs. Owned ((p, new_node) ∷ all_nodes pre bs) h₀.nodes g)
          (nodes_to-append null init (l ∷ []) rest) on in
      let h₁ : Heap = record (tick h) { nodes = g } in
      let (ne', there) = look-Owned k c l.place old rest on₁ in
      let (write, on₂) = write_node-Owned k c l.place old linked rest h₁ on₁ in
      let on₃ : Owned (l_ctx ((l.place, linked) ∷ (p, new_node) ∷ rest)) h₀.nodes
          (update g l.place (some linked)) =
        Owned-in (λ r. l_ctx ((l.place, linked) ∷ r))
          (IsContext-compose l_ctx (λ r. (l.place, linked) ∷ r) d (λ r. refl)) (p, new_node) rest
          on₂ in
      record {
        heap = record h₁ { nodes = update g l.place (some linked) };
        nodes = (init ++ l ∷ []) ++ node ∷ [];
        is = rw (set, read_node-look h₁ l.place _ ne' there, write) refl;
        owns = record {
          strings = names_last pre post b (init ++ l ∷ []) p new more o.strings;
          arrays = o.arrays;
          nodes =
              subst (λ bs. Owned (all_nodes pre bs) h₀.nodes (update g l.place (some linked)))
                (sym (nodes_to-append p init (l ∷ []) ((p, new_node) ∷ rest))
                  ∙ sym (nodes_to-append null (init ++ l ∷ []) (node ∷ []) rest))
                on₃;
          tables =
              same_first (init ++ l ∷ []) ((init ++ l ∷ []) ++ node ∷ []) h
                (first_node-append null init (l ∷ [])
                  ∙ sym (first_node-append p init (l ∷ []))
                  ∙ sym (first_node-append null (init ++ l ∷ []) (node ∷ [])))
                o.tables;
        };
        holds = exports_of-append (init ++ l ∷ []) (node ∷ []);
      }

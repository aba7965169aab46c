-- ===== src/Registry/Owns/Append.antt =====
-- AppendExport on lists that own their blocks.
use mathlib.Core.Path.{subst}
use nxdk_dyndxt.Base.{ℕ, ◌<◌, sym, ap, ◌∙◌, Bool, if◌then◌else◌, List, [], ◌∷◌, ◌++◌, length, ≢→==}
use nxdk_dyndxt.Pool.{and_then, Ptr, null, Text, Heap, Allocator, Run}
use nxdk_dyndxt.Pool.Alloc.{NeverRefuses}
use nxdk_dyndxt.Pool.Context.{Held-inside}
use nxdk_dyndxt.Registry.{k_tag}
use nxdk_dyndxt.Registry.Update.{replace_entry, link_export, append_export}
use nxdk_dyndxt.Registry.Chains.{read_table-look}
use nxdk_dyndxt.Registry.Model.{put, put-present, put-absent}
use nxdk_dyndxt.Registry.Owns.{
  Item, Node, Table, entry_of, export_of, exports_of, item_names, all_nodes, all_nodes-IsContext,
  tables_to, tables_to-IsContext,
}
use nxdk_dyndxt.Registry.Owns.Locate.{snoc, last_place, last_place-append, find_slot-Slot, Slot}
use nxdk_dyndxt.Registry.Owns.Moves.{look-Owned}
use nxdk_dyndxt.Registry.Owns.Around.{Around, exports_of-append}
use nxdk_dyndxt.Registry.Owns.Outcomes.{
  holding, Leaves, table_at, append_export-empty, replace_entry-Around, link_export-Around,
}

module _ (h₀ : Heap) (pre post : List Table) (more : List (Ptr × Text)) (q : Ptr)
    (b : Ptr × Text) where
  -- The walk, and what is done where it stops
  Slot-Leaves :
      (a : Allocator) (h : Heap) (new : Item) (x : Node) (xs : List Node) (run : Run (Bool × Ptr))
      → NeverRefuses a k_tag
      → Around h₀ h pre post (item_names new more) (holding q b (x ∷ xs))
      → Slot new.ordinal x.place h run (x ∷ xs)
      → Leaves h₀ pre post more q b
          (and_then run (λ stop.
            if stop.0
            then replace_entry stop.1 (entry_of new)
            else link_export a stop.1 (entry_of new)))
          (put (export_of new) (exports_of (x ∷ xs)))
  Slot-Leaves a h new x xs run full o (Slot.present before after n split none_before is_it run_is) =
      rw run_is (
        subst (λ es. Leaves h₀ pre post more q b (replace_entry n.place (entry_of new) h) es)
          (sym (
            ap (put (export_of new)) (ap exports_of split ∙ exports_of-append before (n ∷ after))
            ∙ put-present (export_of new) (export_of n.item) (exports_of before) (exports_of after)
                none_before is_it))
          (replace_entry-Around h₀ pre post more q b h before after n new
            (subst (λ ns. Around h₀ h pre post (item_names new more) (holding q b ns)) split o)))
  Slot-Leaves a h new x xs run full o (Slot.absent none_there run_is) =
      let (init, l, split) = snoc x xs in
      rw
        (
          run_is,
          put-absent (export_of new) (exports_of (x ∷ xs)) none_there,
          ap (last_place x.place) split,
          last_place-append x.place init l,
        )
        (subst
          (λ es.
            Leaves h₀ pre post more q b (link_export a l.place (entry_of new) h)
              (es ++ export_of new ∷ []))
          (ap exports_of (sym split))
          (link_export-Around h₀ pre post more q b a h init l new full
            (subst (λ ns. Around h₀ h pre post (item_names new more) (holding q b ns)) split o)))

  pub append_export-Leaves :
      (a : Allocator) (f : ℕ) (h : Heap) (new : Item) (ns : List Node)
      → NeverRefuses a k_tag
      → length ns < f
      → Around h₀ h pre post (item_names new more) (holding q b ns)
      → Leaves h₀ pre post more q b
          (append_export a f q (entry_of new) h)
          (put (export_of new) (exports_of ns))
  unfolding append_export
  append_export-Leaves a f h new [] full room o =
      append_export-empty h₀ pre post more q b a f h new full o
  append_export-Leaves a f h new (x ∷ xs) full room o =
      let (ne, there) =
        look-Owned (tables_to q pre) (tables_to-IsContext q pre) q
          (table_at h₀ pre post more q b (x ∷ xs)) (tables_to null post []) o.tables in
      let held = Held-inside (all_nodes pre) (all_nodes-IsContext pre) _ h.nodes o.nodes.held in
      rw (read_table-look h q _ ne there, ≢→== x.place null held.1)
        (Slot-Leaves a h new x xs _ full o
          (find_slot-Slot f new.ordinal x.place (x ∷ xs) h (all_nodes post []) room held))

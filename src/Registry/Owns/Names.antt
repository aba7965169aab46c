-- ===== src/Registry/Owns/Names.antt =====
-- The strings of a registration: those of the new export move from behind the lists to its node,
-- and those of an export that it replaces are freed.
use mathlib.Core.Path.{subst}
use nxdk_dyndxt.Base.{◌≡◌, sym, List, [], ◌∷◌, ◌++◌}
use nxdk_dyndxt.Pool.{Ptr, Text, ExportNode, Heap, Region, ok}
use nxdk_dyndxt.Pool.Owned.{Owned}
use nxdk_dyndxt.Pool.Context.{IsContext, IsContext-cons, IsContext-compose}
use nxdk_dyndxt.Registry.Update.{free_name}
use nxdk_dyndxt.Registry.Owns.{
  name_at, name_block, Item, Node, Table, item_names, names, names-IsContext, all_names,
  all_names-IsContext, nodes_to, nodes_to-IsContext, all_nodes, all_nodes-IsContext,
}
use nxdk_dyndxt.Registry.Owns.Moves.{free_name-inside, move_item}
use nxdk_dyndxt.Registry.Owns.Around.{names-append}

-- What stands before a place in the strings and in the nodes
abbrev pub names_before : List Table → List Node → List (Ptr × Text) → List (Ptr × Text)
names_before pre ns bs = all_names pre (names ns bs)

abbrev pub nodes_before :
    List Table → Ptr → List Node → List (Ptr × ExportNode) → List (Ptr × ExportNode)
nodes_before pre end ns bs = all_nodes pre (nodes_to end ns bs)

pub names_before-IsContext : (pre : List Table) (ns : List Node) → IsContext (names_before pre ns)
names_before-IsContext pre ns =
    IsContext-compose (all_names pre) (names ns) (all_names-IsContext pre) (names-IsContext ns)

pub nodes_before-IsContext :
    (pre : List Table) (end : Ptr) (ns : List Node) → IsContext (nodes_before pre end ns)
nodes_before-IsContext pre end ns =
    IsContext-compose (all_nodes pre) (nodes_to end ns) (all_nodes-IsContext pre)
      (nodes_to-IsContext end ns)

-- The names of a new item, from behind the table to its last node
pub names_last :
    (pre post : List Table) (b : Ptr × Text) (ns : List Node) (p : Ptr) (new : Item)
    (more : List (Ptr × Text)) {f g : Region Text}
    → Owned (all_names pre (names ns (b ∷ all_names post (item_names new more)))) f g
    → Owned
        (all_names pre
          (names (ns ++ record { place = p; item = new } ∷ []) (b ∷ all_names post more)))
        f
        g
names_last pre post b ns p new more {f} {g} o =
    subst (λ bs. Owned (all_names pre bs) f g)
      (sym (names-append ns (record { place = p; item = new } ∷ []) (b ∷ all_names post more)))
      (move_item (names_before pre ns) (λ r. b ∷ all_names post r) (names_before-IsContext pre ns)
        (IsContext-cons b (all_names post) (all_names-IsContext post)) new more o)

-- The names of a new item, from behind the table to the place where an old item's were
pub names_between :
    (pre post : List Table) (b : Ptr × Text) (before after : List Node) (p : Ptr) (new : Item)
    (more : List (Ptr × Text)) {f g : Region Text}
    → Owned
        (all_names pre (names before (names after (b ∷ all_names post (item_names new more)))))
        f
        g
    → Owned
        (all_names pre
          (names (before ++ record { place = p; item = new } ∷ after) (b ∷ all_names post more)))
        f
        g
names_between pre post b before after p new more {f} {g} o =
    subst (λ bs. Owned (all_names pre bs) f g)
      (sym
        (names-append before (record { place = p; item = new } ∷ after) (b ∷ all_names post more)))
      (move_item (names_before pre before) (λ r. names after (b ∷ all_names post r))
        (names_before-IsContext pre before)
        (IsContext-compose (names after) (λ r. b ∷ all_names post r) (names-IsContext after)
          (IsContext-cons b (all_names post) (all_names-IsContext post)))
        new more o)

-- `DmFreePool` of both names of an item
pub free_names-inside :
    (k : List (Ptr × Text) → List (Ptr × Text)) (c : IsContext k) (i : Item)
    (bs : List (Ptr × Text)) (h : Heap) {f : Region Text}
    → Owned (k (item_names i bs)) f h.strings
    → (s t : Region Text) × (free_name (name_at i.method_name) h ≡ ok tt (record h { strings = s }))
      × (free_name (name_at i.alias) (record h { strings = s }) ≡ ok tt (record h { strings = t }))
      × Owned (k bs) f t
free_names-inside k c i bs h o =
    let (s, first_run, o₁) = free_name-inside k c i.method_name (name_block i.alias bs) h o in
    let (t, second_run, o₂) = free_name-inside k c i.alias bs (record h { strings = s }) o₁ in
    (s, t, first_run, second_run, o₂)

-- ===== src/Registry/Owns/Moves.antt =====
-- Steps of MRRegisterMethod on owned blocks, at any place of the lists.
use nxdk_dyndxt.Base.{◌≡◌, ◌≢◌, refl, true, none, some, List, ◌∷◌, ≢→==}
use nxdk_dyndxt.Pool.{
  Ptr, null, Text, ExportNode, ModuleExportTable, Heap, Region, Allocator, ok, look, update, tick,
}
use nxdk_dyndxt.Pool.Alloc.{NeverRefuses}
use nxdk_dyndxt.Pool.Nodes.{blank_node, write_node, write_table, alloc_node}
use nxdk_dyndxt.Pool.Owned.{Owned, Owned-write, Owned-cons}
use nxdk_dyndxt.Pool.Context.{IsContext, IsContext-compose, Owned-out, Owned-in}
use nxdk_dyndxt.Registry.{k_tag}
use nxdk_dyndxt.Registry.Update.{free_name, set_export_entry}
use nxdk_dyndxt.Registry.Owns.{
  Name, Item, name_at, entry_of, name_block, name_block-IsContext, item_names,
}
use nxdk_dyndxt.Registry.Owns.Reset.{free_name-Owned}

-- An owned block can be read at any place.
pub look-Owned :
    {B : Type 0} (k : List (Ptr × B) → List (Ptr × B)) (c : IsContext k) (p : Ptr) (b : B)
    (bs : List (Ptr × B)) {f g : Region B}
    → Owned (k ((p, b) ∷ bs)) f g
    → (p ≢ null) × (look g p ≡ some b)
look-Owned k c p b bs o = let o' = Owned-out k c (p, b) bs o in (o'.held.1, o'.held.0)

pub write_node-Owned :
    (k : List (Ptr × ExportNode) → List (Ptr × ExportNode)) (c : IsContext k) (p : Ptr)
    (old new : ExportNode) (bs : List (Ptr × ExportNode)) (h : Heap) {f : Region ExportNode}
    → Owned (k ((p, old) ∷ bs)) f h.nodes
    → (write_node p new h ≡ ok tt (record h { nodes = update h.nodes p (some new) }))
      × Owned (k ((p, new) ∷ bs)) f (update h.nodes p (some new))
unfolding write_node
write_node-Owned k c p old new bs h o =
    let o' = Owned-out k c (p, old) bs o in
    (
      rw (write_node, ≢→== p null o'.held.1, o'.held.0) refl,
      Owned-in k c (p, new) bs (Owned-write new o'),
    )

pub write_table-Owned :
    (k : List (Ptr × ModuleExportTable) → List (Ptr × ModuleExportTable)) (c : IsContext k)
    (p : Ptr) (old new : ModuleExportTable) (bs : List (Ptr × ModuleExportTable)) (h : Heap)
    {f : Region ModuleExportTable}
    → Owned (k ((p, old) ∷ bs)) f h.tables
    → (write_table p new h ≡ ok tt (record h { tables = update h.tables p (some new) }))
      × Owned (k ((p, new) ∷ bs)) f (update h.tables p (some new))
unfolding write_table
write_table-Owned k c p old new bs h o =
    let o' = Owned-out k c (p, old) bs o in
    (
      rw (write_table, ≢→== p null o'.held.1, o'.held.0) refl,
      Owned-in k c (p, new) bs (Owned-write new o'),
    )

pub free_name-inside :
    (k : List (Ptr × Text) → List (Ptr × Text)) (c : IsContext k) (n : Name)
    (bs : List (Ptr × Text)) (h : Heap) {f : Region Text}
    → Owned (k (name_block n bs)) f h.strings
    → (s : Region Text) × (free_name (name_at n) h ≡ ok tt (record h { strings = s }))
      × Owned (k bs) f s
unfolding free_name
free_name-inside k c none bs h o = (h.strings, refl, o)
free_name-inside k c (some b) bs h o = free_name-Owned (some b) h (Owned-out k c b bs o)

-- The blocks of a name change places: from behind `l` to the front of it.
move_name :
    (k l : List (Ptr × Text) → List (Ptr × Text))
    → IsContext k
    → IsContext l
    → (n : Name) (bs : List (Ptr × Text)) {f g : Region Text} → Owned (k (l (name_block n bs))) f g
    → Owned (k (name_block n (l bs))) f g
move_name k l c d none bs o = o
move_name k l c d (some b) bs o =
    Owned-in k c b (l bs) (Owned-out (λ r. k (l r)) (IsContext-compose k l c d) b bs o)

-- So with both names of an item.
pub move_item :
    (k l : List (Ptr × Text) → List (Ptr × Text))
    → IsContext k
    → IsContext l
    → (i : Item) (bs : List (Ptr × Text)) {f g : Region Text} → Owned (k (l (item_names i bs))) f g
    → Owned (k (item_names i (l bs))) f g
move_item k l c d i bs o =
    move_name (λ r. k (name_block i.method_name r)) l
      (IsContext-compose k (name_block i.method_name) c (name_block-IsContext i.method_name)) d
      i.alias bs (move_name k l c d i.method_name (name_block i.alias bs) o)

-- SetExportEntry: a new node, in front of the owned ones
pub set_export_entry-Owned :
    (a : Allocator) (i : Item) (h : Heap) (bs : List (Ptr × ExportNode)) {f : Region ExportNode}
    → NeverRefuses a k_tag
    → Owned bs f h.nodes
    → (p : Ptr) × (g : Region ExportNode) × (set_export_entry a (entry_of i) h
        ≡ ok (true, p) (record (tick h) { nodes = g }))
      × (p ≢ null)
      × Owned ((p, record { next = null; entry = entry_of i }) ∷ bs) f g
unfolding set_export_entry alloc_node
set_export_entry-Owned a i h bs full o =
    let p = a.pick h 20 k_tag in
    let ne : p ≢ null = full h 20 in
    let (_, _, free, _) = a.pick_unused h 20 k_tag ne in
    let o' = Owned-cons p blank_node o free ne in
    let node : ExportNode = record { next = null; entry = entry_of i } in
    let (run, o'') =
      write_node-Owned (λ r. r) (λ r. refl) p _ node bs
        (record (tick h) { nodes = update h.nodes p (some blank_node) }) o' in
    (p, _, rw (≢→== p null ne, run) refl, ne, o'')

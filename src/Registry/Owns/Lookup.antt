-- ===== src/Registry/Owns/Lookup.antt =====
-- The lookups of src/module_registry.c on lists that own their blocks, before and after a
-- registration.
use nxdk_dyndxt.Base.{
  ℕ, ◌+◌, ◌<◌, ◌^◌, ◌≡◌, refl, ap, Bool, true, ◌&&◌, none, some, List, [], ◌∷◌, Bytes, ◌==◌,
  if◌then◌else◌, length, suc,
}
use nxdk_dyndxt.Pool.{
  Ptr, null, Text, ExportNode, Heap, Allocator, ◌>>=◌, ok, c_string, same_string,
}
use nxdk_dyndxt.Pool.Alloc.{NeverRefuses}
use nxdk_dyndxt.Pool.Owned.{Held}
use nxdk_dyndxt.Pool.Context.{Held-inside}
use nxdk_dyndxt.Registry.{k_tag, get_method_by_ordinal}
use nxdk_dyndxt.Registry.Update.{register_method}
use nxdk_dyndxt.Registry.Chains.{IsName, IsChain, IsRegistry, HaveRoom}
use nxdk_dyndxt.Registry.Lookup.{lookup, has_ordinal, get_method_by_ordinal-lookup}
use nxdk_dyndxt.Registry.Model.{register, lookup-register, length-register, register-HaveRoom}
use nxdk_dyndxt.Registry.Owns.{
  Name, Item, Node, Table, name_at, text_of, name_block, name_block-IsContext, item_names,
  item_names-IsContext, names, names-IsContext, all_names, first_node, first_table, nodes_to,
  nodes_to-IsContext, all_nodes, tables_to, entry_of, export_of, exports_of, modules_of, Owns,
  Lasts,
}
use nxdk_dyndxt.Registry.Owns.Register.{register_method-register}

name_at-IsName :
    (h : Heap) (n : Name) (bs : List (Ptr × Text))
    → Held (name_block n bs) h.strings
    → IsName h (name_at n) (text_of n)
name_at-IsName h none bs held = refl
name_at-IsName h (some b) bs held = (held.1, (b.1, held.0, refl))

exports_of-IsChain :
    (h : Heap) (ns : List Node) (bs : List (Ptr × Text)) (cs : List (Ptr × ExportNode))
    → Held (names ns bs) h.strings
    → Held (nodes_to null ns cs) h.nodes
    → IsChain h (first_node null ns) (exports_of ns)
exports_of-IsChain h [] bs cs hs hn = refl
exports_of-IsChain h (n ∷ ns) bs cs hs hn =
    let behind =
      Held-inside (item_names n.item) (item_names-IsContext n.item) (names ns bs) h.strings hs in
    let alias =
      Held-inside (name_block n.item.method_name) (name_block-IsContext n.item.method_name)
        (name_block n.item.alias (names ns bs)) h.strings hs in
    (
      hn.1,
      record { next = first_node null ns; entry = entry_of n.item },
      hn.0,
      record {
        ordinal = refl;
        method_name = name_at-IsName h n.item.method_name _ hs;
        alias = name_at-IsName h n.item.alias _ alias;
        address = refl;
      },
      exports_of-IsChain h ns bs cs behind hn.3,
    )

modules_of-IsRegistry :
    (h : Heap) (ts : List Table) (bs : List (Ptr × Text)) (cs : List (Ptr × ExportNode))
    → Held (all_names ts bs) h.strings
    → Held (all_nodes ts cs) h.nodes
    → Held (tables_to null ts []) h.tables
    → IsRegistry h (first_table null ts) (modules_of ts)
modules_of-IsRegistry h [] bs cs hs hn ht = refl
modules_of-IsRegistry h (t ∷ ts) bs cs hs hn ht =
    let named = Held-inside (names t.nodes) (names-IsContext t.nodes) _ h.strings hs in
    let rest = Held-inside (nodes_to null t.nodes) (nodes_to-IsContext null t.nodes) _ h.nodes hn in
    (
      ht.1,
      record {
        next = first_table null ts;
        module_name = t.name.0;
        exports = first_node null t.nodes;
      },
      ht.0,
      ((t.name.1, named.0, refl), exports_of-IsChain h t.nodes _ _ hs hn),
      modules_of-IsRegistry h ts bs cs named.3 rest ht.3,
    )

pub Owns-IsRegistry :
    (h₀ h : Heap) (p : Ptr) (extra : List (Ptr × Text)) (ts : List Table)
    → Owns h₀ h p extra ts
    → IsRegistry h p (modules_of ts)
Owns-IsRegistry h₀ h p extra ts o =
    rw o.start (modules_of-IsRegistry h ts extra [] o.strings.held o.nodes.held o.tables.held)

pub length-modules_of : (ts : List Table) → length (modules_of ts) ≡ length ts
length-modules_of [] = refl
length-modules_of (t ∷ ts) = ap suc (length-modules_of ts)

pub length-exports_of : (ns : List Node) → length (exports_of ns) ≡ length ns
length-exports_of [] = refl
length-exports_of (n ∷ ns) = ap suc (length-exports_of ns)

pub Lasts-HaveRoom : (f : ℕ) (ts : List Table) → Lasts f ts → HaveRoom f (modules_of ts)
Lasts-HaveRoom f [] l = l
Lasts-HaveRoom f (t ∷ ts) l = (rw (length-exports_of t.nodes) l.0, Lasts-HaveRoom f ts l.1)

-- Under the conditions of `register_method-register`, MRGetMethodByOrdinal after MRRegisterMethod,
-- on fuel one more, answers the new address under the name of that module and the ordinal of that
-- export, and under any other what it answers before.
pub get_method_by_ordinal-register_method :
    (a : Allocator) (f : ℕ) (module_name : Bytes) (h₀ h : Heap) (export_table : Ptr) (new : Item)
    (more : List (Ptr × Text)) (ts : List Table) (other_name : Bytes) (ordinal : ℕ)
    → NeverRefuses a k_tag
    → length (c_string module_name) + 1 < 2 ^ 32
    → Owns h₀ h export_table (item_names new more) ts
    → length ts < f
    → Lasts f ts
    → (before : Bool × ℕ) × (h' : Heap) × (get_method_by_ordinal f export_table other_name ordinal h
        ≡ ok before h)
      × ((do
        registered ← register_method a f export_table module_name (entry_of new)
        get_method_by_ordinal (suc f) registered.1 other_name ordinal)
            h
          ≡ ok
              (if same_string (c_string module_name) (c_string other_name)
                  && (new.ordinal == ordinal)
                then (true, new.address)
                else before)
              h')
get_method_by_ordinal-register_method a f s h₀ h p new more ts s' o full short owns room lasts =
    let ms = modules_of ts in
    let ms' = register s (export_of new) ms in
    let room₀ : length ms < f = rw (length-modules_of ts) room in
    let lasts₀ = Lasts-HaveRoom f ts lasts in
    let done = register_method-register a f s h₀ h p new more ts full short owns room lasts in
    let holds : IsRegistry done.heap done.start ms' =
      rw (← done.holds) (Owns-IsRegistry h₀ done.heap done.start more done.tables done.owns) in
    let found =
      get_method_by_ordinal-lookup (suc f) done.heap done.start ms' s' o holds
        (length-register f s (export_of new) ms room₀)
        (register-HaveRoom f s (export_of new) ms lasts₀) in
    (
      lookup s' (has_ordinal o) ms,
      done.heap,
      get_method_by_ordinal-lookup f h p ms s' o (Owns-IsRegistry h₀ h p _ ts owns) room₀ lasts₀,
      rw (done.is, found, lookup-register s s' o (export_of new) ms) refl,
    )

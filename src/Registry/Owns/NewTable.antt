-- ===== src/Registry/Owns/NewTable.antt =====
-- PoolStrdup and SetExportTableEntry on owned blocks, with an allocator that never refuses: the new
-- table of a registration.
use mathlib.Core.Path.{subst}
use nxdk_dyndxt.Base.{
  ℕ, ◌+◌, ◌<◌, ◌%◌, ◌^◌, ◌≡◌, ◌≢◌, refl, sym, ◌∙◌, true, some, List, [], ◌∷◌, ◌++◌, length, ≢→==,
  Bytes, arith, take-length, length-append,
}
use nxdk_dyndxt.Pool.{
  Ptr, null, Text, ModuleExportTable, Heap, Region, Allocator, ok, update, tick, c_string,
  alloc_string, write_string,
}
use nxdk_dyndxt.Pool.Alloc.{NeverRefuses, write_string-Owned}
use nxdk_dyndxt.Pool.Strings.{c_string-terminated, c_string_idem}
use nxdk_dyndxt.Pool.Owned.{Owned, Owned-cons}
use nxdk_dyndxt.Pool.Context.{IsContext, IsContext-cons, Owned-in}
use nxdk_dyndxt.Pool.Nodes.{alloc_table, blank_table}
use nxdk_dyndxt.Registry.{k_tag}
use nxdk_dyndxt.Registry.Update.{pool_strdup, set_export_table_entry, link_table}
use nxdk_dyndxt.Registry.Chains.{read_table-look}
use nxdk_dyndxt.Registry.Owns.{
  Table, all_names, all_names-IsContext, tables_to, tables_to-IsContext, table_of, Owns,
}
use nxdk_dyndxt.Registry.Owns.Moves.{look-Owned, write_table-Owned}
use nxdk_dyndxt.Registry.Owns.Around.{Around, tables_to-append}
use nxdk_dyndxt.Registry.Owns.Outcomes.{holding}

pool_strdup_run :
    (a : Allocator) (s : Bytes) (tag : ℕ) (h h₁ h₂ : Heap) (p : Ptr)
    → length (c_string s) + 1 < 2 ^ 32
    → alloc_string a (length (c_string s) + 1) tag h ≡ ok p h₁
    → p ≢ null
    → write_string p (c_string s ++ 0 ∷ []) h₁ ≡ ok tt h₂
    → pool_strdup a s tag h ≡ ok p h₂
unfolding pool_strdup
pool_strdup_run a s tag h h₁ h₂ p short alloc ne write =
    let n = length (c_string s) + 1 in
    let size : n % 2 ^ 32 ≡ n = omega arith in
    let whole = take-length (c_string s ++ 0 ∷ []) n (length-append (c_string s) (0 ∷ [])) in
    rw (size, alloc, ≢→== p null ne, whole, write) refl

-- PoolStrdup: a new string, in front of the owned ones
pub pool_strdup-Owned :
    (a : Allocator) (s : Bytes) (tag : ℕ) (h : Heap) (ss : List (Ptr × Text)) {f : Region Text}
    → NeverRefuses a tag
    → length (c_string s) + 1 < 2 ^ 32
    → Owned ss f h.strings
    → (p : Ptr) × (g : Region Text) × (pool_strdup a s tag h
        ≡ ok p (record (tick h) { strings = g }))
      × (p ≢ null)
      × Owned
          ((p, record { size = length (c_string s) + 1; bytes = c_string s ++ 0 ∷ [] }) ∷ ss)
          f
          g
unfolding alloc_string
pool_strdup-Owned a s tag h ss full short o =
    let n = length (c_string s) + 1 in
    let p = a.pick h n tag in
    let ne : p ≢ null = full h n in
    let (free, _, _, _) = a.pick_unused h n tag ne in
    let empty : Text = record { size = n; bytes = [] } in
    let o₁ = Owned-cons p empty o free ne in
    let whole : length (c_string s ++ 0 ∷ []) ≡ n = length-append (c_string s) (0 ∷ []) in
    let h₁ : Heap = record (tick h) { strings = update h.strings p (some empty) } in
    let (g, write, o₂) = write_string-Owned h₁ p (c_string s ++ 0 ∷ []) empty (omega arith) o₁ in
    let alloc : alloc_string a n tag h ≡ ok p h₁ = rw (≢→== p null ne) refl in
    (p, g, pool_strdup_run a s tag h h₁ _ p short alloc ne write, ne, o₂)

-- SetExportTableEntry: a new table without exports, in front of the owned ones
pub set_export_table_entry-Owned :
    (a : Allocator) (s : Bytes) (h : Heap) (ss : List (Ptr × Text))
    (bs : List (Ptr × ModuleExportTable)) {f : Region Text} {g : Region ModuleExportTable}
    → NeverRefuses a k_tag
    → length (c_string s) + 1 < 2 ^ 32
    → Owned ss f h.strings
    → Owned bs g h.tables
    → (q : Ptr) × (b : Ptr × Text) × (r : Region Text) × (t : Region ModuleExportTable)
      × (set_export_table_entry a s h
          ≡ ok (true, q) (record (tick (tick h)) { strings = r; tables = t }))
      × (q ≢ null)
      × (c_string b.1.bytes ≡ c_string s)
      × Owned (b ∷ ss) f r
      × Owned ((q, table_of null (holding q b [])) ∷ bs) g t
unfolding set_export_table_entry alloc_table
set_export_table_entry-Owned a s h ss bs full short os ot =
    let q = a.pick h 12 k_tag in
    let ne : q ≢ null = full h 12 in
    let (_, _, _, free) = a.pick_unused h 12 k_tag ne in
    let ot₁ = Owned-cons q blank_table ot free ne in
    let h₁ : Heap = record (tick h) { tables = update h.tables q (some blank_table) } in
    let (p, r, dup, ne', os') = pool_strdup-Owned a s k_tag h₁ ss full short os in
    let text : Text = record { size = length (c_string s) + 1; bytes = c_string s ++ 0 ∷ [] } in
    let h₂ : Heap = record (tick h₁) { strings = r } in
    let (write, ot₂) =
      write_table-Owned (λ x. x) (λ x. refl) q blank_table (table_of null (holding q (p, text) []))
        bs h₂ ot₁ in
    (
      q,
      (p, text),
      r,
      _,
      rw (≢→== q null ne, ≢→== q null ne, dup, ≢→== p null ne', write) refl,
      ne,
      c_string-terminated (c_string s) ∙ c_string_idem s,
      os',
      ot₂,
    )

-- SetExportTableEntry(&e->next, module_name), at the last table
pub link_table-Around :
    (a : Allocator) (s : Bytes) (h₀ h : Heap) (p : Ptr) (extra : List (Ptr × Text))
    (init : List Table) (l : Table)
    → NeverRefuses a k_tag
    → length (c_string s) + 1 < 2 ^ 32
    → Owns h₀ h p extra (init ++ l ∷ [])
    → (q : Ptr) × (b : Ptr × Text) × (h' : Heap) × (link_table a l.place s h ≡ ok (true, q) h')
      × (c_string b.1.bytes ≡ c_string s)
      × Around h₀ h' (init ++ l ∷ []) [] extra (holding q b [])
unfolding link_table
link_table-Around a s h₀ h p extra init l full short o =
    let ts = init ++ l ∷ [] in
    let (q, b, r, t, set, ne, named, os, ot) =
      set_export_table_entry-Owned a s h (all_names ts extra) (tables_to null ts []) full short
        o.strings o.tables in
    let new = table_of null (holding q b []) in
    let k : List (Ptr × ModuleExportTable) → List (Ptr × ModuleExportTable) =
      λ x. (q, new) ∷ tables_to l.place init x in
    let c : IsContext k =
      IsContext-cons (q, new) (tables_to l.place init) (tables_to-IsContext l.place init) in
    let ot₁ : Owned (k ((l.place, table_of null l) ∷ [])) h₀.tables t =
      subst (λ x. Owned ((q, new) ∷ x) h₀.tables t) (tables_to-append null init (l ∷ []) []) ot in
    let h₁ : Heap = record (tick (tick h)) { strings = r; tables = t } in
    let (ne', there) = look-Owned k c l.place (table_of null l) [] ot₁ in
    let (write, ot₂) = write_table-Owned k c l.place (table_of null l) (table_of q l) [] h₁ ot₁ in
    let ot₃ : Owned ((q, new) ∷ tables_to q ts []) h₀.tables
        (update t l.place (some (table_of q l))) =
      subst (λ x. Owned ((q, new) ∷ x) h₀.tables (update t l.place (some (table_of q l))))
        (sym (tables_to-append q init (l ∷ []) [])) ot₂ in
    (
      q,
      b,
      record h₁ { tables = update t l.place (some (table_of q l)) },
      rw (set, read_table-look h₁ l.place _ ne' there, write) refl,
      named,
      record {
        strings = Owned-in (all_names ts) (all_names-IsContext ts) b extra os;
        arrays = o.arrays;
        nodes = o.nodes;
        tables = Owned-in (tables_to q ts) (tables_to-IsContext q ts) (q, new) [] ot₃;
      },
    )

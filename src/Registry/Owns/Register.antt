-- ===== src/Registry/Owns/Register.antt =====
-- MRRegisterMethod on lists that own their blocks, with an allocator that never refuses, against
-- `register` of the model.
use mathlib.Core.Path.{subst}
use nxdk_dyndxt.Base.{
  ℕ, ◌+◌, ◌<◌, ◌^◌, ◌≡◌, ◌≢◌, refl, sym, ◌∙◌, Bool, true, none, List, [], ◌∷◌, ◌++◌, ◌==◌, length,
  ≢→==, Bytes, arith, if◌then◌else◌, length-append,
}
use nxdk_dyndxt.Pool.{
  Ptr, null, Text, ModuleExportTable, Heap, Region, Allocator, Run, and_then, ok, pure, ◌>>=◌, tick,
  c_string, same_string,
}
use nxdk_dyndxt.Pool.Alloc.{NeverRefuses}
use nxdk_dyndxt.Pool.Owned.{Held}
use nxdk_dyndxt.Registry.{k_tag}
use nxdk_dyndxt.Registry.Update.{append_export, append_export_table, register_method}
use nxdk_dyndxt.Registry.Chains.{Module}
use nxdk_dyndxt.Registry.Lookup.{find_module}
use nxdk_dyndxt.Registry.Model.{register, register-absent, register-present}
use nxdk_dyndxt.Registry.Owns.{
  Item, Table, entry_of, export_of, item_names, first_table, tables_to, tables_to-IsContext,
  modules_of, module_of, Owns, Lasts,
}
use nxdk_dyndxt.Registry.Owns.Moves.{look-Owned}
use nxdk_dyndxt.Registry.Owns.Around.{
  first_table-append, Around, modules_of-append, Around-Owns, Owns-Around,
}
use nxdk_dyndxt.Registry.Owns.Locate.{snoc, last_table-append, find_table-Located, Located}
use nxdk_dyndxt.Registry.Owns.NewTable.{set_export_table_entry-Owned, link_table-Around}
use nxdk_dyndxt.Registry.Owns.Outcomes.{holding}
use nxdk_dyndxt.Registry.Owns.Append.{append_export-Leaves}

-- A run that leaves lists which stand for these modules
pub record Registers (h₀ : Heap) (more : List (Ptr × Text)) (run : Run (Bool × Ptr))
    (ms : List Module) : Type 0 where
  pub heap : Heap
  pub start : Ptr
  pub tables : List Table
  pub is : run ≡ ok (true, start) heap
  pub owns : Owns h₀ heap start more tables
  pub holds : modules_of tables ≡ ms

start-≢ :
    (init : List Table) (l : Table) (r : Region ModuleExportTable)
    → Held (tables_to null (init ++ l ∷ []) []) r
    → first_table null (init ++ l ∷ []) ≢ null
start-≢ [] l r held = held.1
start-≢ (x ∷ init) l r held = held.1

Lasts-at :
    (f : ℕ) (pre post : List Table) (t : Table) → Lasts f (pre ++ t ∷ post) → length t.nodes < f
Lasts-at f [] post t lasts = lasts.0
Lasts-at f (x ∷ pre) post t lasts = Lasts-at f pre post t lasts.1

module _ (a : Allocator) (full : NeverRefuses a k_tag) (f : ℕ) (s : Bytes)
    (short : length (c_string s) + 1 < 2 ^ 32) (h₀ : Heap) (new : Item)
    (more : List (Ptr × Text)) where
  -- AppendExport on the table that SetExportTableEntry made behind the others
  append_export-Registers :
      (h : Heap) (ts : List Table) (q : Ptr) (b : Ptr × Text) (start : Ptr)
      → 0 < f
      → start ≡ first_table q ts
      → c_string b.1.bytes ≡ c_string s
      → find_module s (modules_of ts) ≡ none
      → Around h₀ h ts [] (item_names new more) (holding q b [])
      → Registers h₀ more
          ((do appended ← append_export a f q (entry_of new); pure (appended, start)) h)
          (register s (export_of new) (modules_of ts))
  append_export-Registers h ts q b start room e named absent o =
      let done = append_export-Leaves h₀ ts [] more q b a f h new [] full room o in
      record {
        heap = done.heap;
        start = start;
        tables = ts ++ holding q b done.nodes ∷ [];
        is = rw done.is refl;
        owns = Around-Owns ts [] (holding q b done.nodes) e done.owns;
        holds =
            modules_of-append ts (holding q b done.nodes ∷ [])
            ∙ rw (done.holds, named, register-absent s (export_of new) (modules_of ts) absent) refl;
      }

  -- AppendExportTable behind the last table, `l`
  append_export_table-behind :
      (h : Heap) (p : Ptr) (init : List Table) (l : Table)
      → length (init ++ l ∷ []) < f
      → find_module s (modules_of (init ++ l ∷ [])) ≡ none
      → Owns h₀ h p (item_names new more) (init ++ l ∷ [])
      → Registers h₀ more
          (append_export_table a f p s (entry_of new) h)
          (register s (export_of new) (modules_of (init ++ l ∷ [])))
  unfolding append_export_table
  append_export_table-behind h p init l room absent o =
      let ts = init ++ l ∷ [] in
      let ne = start-≢ init l h.tables o.tables.held in
      let count = length-append {0} init (l ∷ []) in
      let (q, b, h', link, named, around) =
        link_table-Around a s h₀ h p (item_names new more) init l full short o in
      let walk = last_table-append f init l h (omega arith) o.tables.held in
      let same : first_table null ts ≡ first_table q ts =
        first_table-append null init (l ∷ []) ∙ sym (first_table-append q init (l ∷ [])) in
      rw (o.start, ≢→== (first_table null ts) null ne, walk, link)
        (append_export-Registers h' ts q b (first_table null ts) (omega arith) same named absent
          around)

  append_export_table-Registers :
      (h : Heap) (p : Ptr) (ts : List Table)
      → length ts < f
      → find_module s (modules_of ts) ≡ none
      → Owns h₀ h p (item_names new more) ts
      → Registers h₀ more
          (append_export_table a f p s (entry_of new) h)
          (register s (export_of new) (modules_of ts))
  unfolding append_export_table
  append_export_table-Registers h p [] room absent o =
      let (q, b, r, t, set, ne, named, os, ot) =
        set_export_table_entry-Owned a s h (item_names new more) [] full short o.strings o.tables in
      rw (o.start, set)
        (append_export-Registers (record (tick (tick h)) { strings = r; tables = t }) [] q b q room
          refl named absent
          (record { strings = os; arrays = o.arrays; nodes = o.nodes; tables = ot }))
  append_export_table-Registers h p (x ∷ xs) room absent o =
      let (init, l, split) = snoc x xs in
      subst
        (λ ts.
          length ts < f
          → find_module s (modules_of ts) ≡ none
          → Owns h₀ h p (item_names new more) ts
          → Registers h₀ more (append_export_table a f p s (entry_of new) h)
              (register s (export_of new) (modules_of ts)))
        (sym split) (append_export_table-behind h p init l) room absent o

  -- AppendExport on the module that is there
  append_export-present :
      (h : Heap) (p : Ptr) (pre post : List Table) (t : Table)
      → Lasts f (pre ++ t ∷ post)
      → find_module s (modules_of pre) ≡ none
      → same_string (c_string t.name.1.bytes) (c_string s) ≡ true
      → Owns h₀ h p (item_names new more) (pre ++ t ∷ post)
      → (t.place ≢ null)
        × Registers h₀ more
            ((do appended ← append_export a f t.place (entry_of new); pure (appended, p)) h)
            (register s (export_of new) (modules_of (pre ++ t ∷ post)))
  append_export-present h p pre post t lasts before same o =
      let around = Owns-Around pre post t o in
      let (ne, _) =
        look-Owned (tables_to t.place pre) (tables_to-IsContext t.place pre) t.place _ _
          around.tables in
      let done =
        append_export-Leaves h₀ pre post more t.place t.name a f h new t.nodes full
          (Lasts-at f pre post t lasts) around in
      let t' = holding t.place t.name done.nodes in
      (
        ne,
        record {
          heap = done.heap;
          start = p;
          tables = pre ++ t' ∷ post;
          is = rw done.is refl;
          owns =
              Around-Owns pre post t' (o.start ∙ first_table-append null pre (t ∷ post)) done.owns;
          holds =
              modules_of-append pre (t' ∷ post)
              ∙ rw
                  (
                    done.holds,
                    modules_of-append pre (t ∷ post),
                    register-present s (export_of new) (module_of t) (modules_of pre)
                        (modules_of post) before same,
                  )
                  refl;
        },
      )

  Located-Registers :
      (h : Heap) (p : Ptr) (ts : List Table) (run : Run Ptr)
      → length ts < f
      → Lasts f ts
      → Owns h₀ h p (item_names new more) ts
      → Located s h run ts
      → Registers h₀ more
          (and_then run (λ e.
            if e == null
            then append_export_table a f p s (entry_of new)
            else (do appended ← append_export a f e (entry_of new); pure (appended, p))))
          (register s (export_of new) (modules_of ts))
  Located-Registers h p ts run room lasts o (Located.absent none_there run_is) =
      rw run_is (append_export_table-Registers h p ts room none_there o)
  Located-Registers h p ts run room lasts o
        (Located.present pre post t split none_before same run_is) =
      let (ne, done) =
        subst
          (λ xs.
            Lasts f xs
            → Owns h₀ h p (item_names new more) xs
            → (t.place ≢ null)
              × Registers h₀ more
                  ((do appended ← append_export a f t.place (entry_of new); pure (appended, p)) h)
                  (register s (export_of new) (modules_of xs)))
          (sym split) (λ l o'. append_export-present h p pre post t l none_before same o') lasts
          o in
      rw (run_is, ≢→== t.place null ne) done

-- On lists that own their blocks, beside the strings of a new export, MRRegisterMethod with an
-- allocator that never refuses, a module name whose size fits 32 bits and fuel that exceeds the
-- lists, returns true and leaves lists that own their blocks, these strings among them, with every
-- other block as before the lists were built; they stand for the modules as `register` of the
-- model gives them.
pub register_method-register :
    (a : Allocator) (f : ℕ) (module_name : Bytes) (h₀ h : Heap) (export_table : Ptr) (new : Item)
    (more : List (Ptr × Text)) (ts : List Table)
    → NeverRefuses a k_tag
    → length (c_string module_name) + 1 < 2 ^ 32
    → Owns h₀ h export_table (item_names new more) ts
    → length ts < f
    → Lasts f ts
    → Registers h₀ more
        (register_method a f export_table module_name (entry_of new) h)
        (register module_name (export_of new) (modules_of ts))
unfolding register_method
register_method-register a f s h₀ h p new more ts full short o room lasts = rw o.start (
    Located-Registers a full f s short h₀ new more h (first_table null ts) ts _ room lasts
      (record {
        start = refl;
        strings = o.strings;
        arrays = o.arrays;
        nodes = o.nodes;
        tables = o.tables;
      })
      (find_table-Located f s ts h (item_names new more) room o.tables.held o.strings.held))

-- ===== src/Registry/Owns/Locate.antt =====
-- The walks of MRRegisterMethod on lists that own their blocks: where they stop.
use nxdk_dyndxt.Base.{
  ℕ, zero, suc, ◌<◌, ◌≡◌, refl, ap, inl, inr, Bool, true, false, none, List, [], ◌∷◌, ◌++◌, Bytes,
  arith, ◌==◌, Bool-cases, length, ≢→==, ==→≡,
}
use nxdk_dyndxt.Pool.{Ptr, null, Text, ExportNode, Heap, Run, ok, c_string, same_string}
use nxdk_dyndxt.Pool.Owned.{Held}
use nxdk_dyndxt.Pool.Context.{Held-inside}
use nxdk_dyndxt.Registry.{find_table}
use nxdk_dyndxt.Registry.Update.{find_slot, last_table}
use nxdk_dyndxt.Registry.Chains.{read_table-look, read_node-look, read_string-Reads}
use nxdk_dyndxt.Registry.Lookup.{find_module, first, has_ordinal}
use nxdk_dyndxt.Registry.Owns.{
  Node, Table, first_node, first_table, nodes_to, tables_to, all_names, names, names-IsContext,
  exports_of, modules_of,
}

-- Where the walk for a module stops
pub data Located (s : Bytes) (h : Heap) (run : Run Ptr) : List Table → Type 0 where
  absent :
      {ts : List Table}
      → find_module s (modules_of ts) ≡ none
      → run ≡ ok null h
      → Located s h run ts
  present :
      (pre post : List Table) (t : Table) {ts : List Table}
      → ts ≡ pre ++ t ∷ post
      → find_module s (modules_of pre) ≡ none
      → same_string (c_string t.name.1.bytes) (c_string s) ≡ true
      → run ≡ ok t.place h
      → Located s h run ts

pub find_table-Located :
    (f : ℕ) (s : Bytes) (ts : List Table) (h : Heap) (extra : List (Ptr × Text))
    → length ts < f
    → Held (tables_to null ts []) h.tables
    → Held (all_names ts extra) h.strings
    → Located s h (find_table f (first_table null ts) s h) ts
unfolding find_table
find_table-Located zero s ts h extra l ht hs = absurd (omega arith)
find_table-Located (suc f) s [] h extra l ht hs = absent refl refl
find_table-Located (suc f) s (t ∷ ts) h extra l ht hs =
    let named = Held-inside (names t.nodes) (names-IsContext t.nodes) _ h.strings hs in
    let here = read_table-look h t.place _ ht.1 ht.0 in
    let text = read_string-Reads h t.name.0 (c_string t.name.1.bytes) (t.name.1, named.0, refl) in
    elim (Bool-cases (same_string (c_string t.name.1.bytes) (c_string s))) [
      | inl y ↦ rw (≢→== t.place null ht.1, here, text, y) (present [] ts t refl refl y refl)
      | inr y ↦
          rw (≢→== t.place null ht.1, here, text, y)
            (behind y (find_table-Located f s ts h extra (omega arith) ht.3 named.3))
    ]
  where
    behind :
        {s : Bytes} {h : Heap} {run : Run Ptr} {t : Table} {ts : List Table}
        → same_string (c_string t.name.1.bytes) (c_string s) ≡ false
        → Located s h run ts
        → Located s h run (t ∷ ts)
    behind y (absent none_there run) = absent (rw y none_there) run
    behind {t} y (present pre post u split before is run) =
        present (t ∷ pre) post u (ap (◌∷◌ t) split) (rw y before) is run

-- The address of the last node, or of the one before the list
abbrev pub last_place : Ptr → List Node → Ptr
last_place q [] = q
last_place q (n ∷ ns) = last_place n.place ns

-- Where the walk for an ordinal stops
pub data Slot (ordinal : ℕ) (last : Ptr) (h : Heap) (run : Run (Bool × Ptr))
    : List Node → Type 0 where
  absent :
      {ns : List Node}
      → first (has_ordinal ordinal) (exports_of ns) ≡ none
      → run ≡ ok (false, last_place last ns) h
      → Slot ordinal last h run ns
  present :
      (pre post : List Node) (n : Node) {ns : List Node}
      → ns ≡ pre ++ n ∷ post
      → first (has_ordinal ordinal) (exports_of pre) ≡ none
      → n.item.ordinal ≡ ordinal
      → run ≡ ok (true, n.place) h
      → Slot ordinal last h run ns

pub find_slot-Slot :
    (f ordinal : ℕ) (last : Ptr) (ns : List Node) (h : Heap) (cs : List (Ptr × ExportNode))
    → length ns < f
    → Held (nodes_to null ns cs) h.nodes
    → Slot ordinal last h (find_slot f last (first_node null ns) ordinal h) ns
unfolding find_slot
find_slot-Slot zero ordinal last ns h cs l hn = absurd (omega arith)
find_slot-Slot (suc f) ordinal last [] h cs l hn = Slot.absent refl refl
find_slot-Slot (suc f) ordinal last (n ∷ ns) h cs l hn =
    let here = read_node-look h n.place _ hn.1 hn.0 in
    elim (Bool-cases (n.item.ordinal == ordinal)) [
      | inl y ↦
          rw (≢→== n.place null hn.1, here, y)
            (Slot.present [] ns n refl refl (==→≡ n.item.ordinal ordinal y) refl)
      | inr y ↦
          rw (≢→== n.place null hn.1, here, y)
            (behind y (find_slot-Slot f ordinal n.place ns h cs (omega arith) hn.3))
    ]
  where
    behind :
        {ordinal : ℕ} {last : Ptr} {h : Heap} {run : Run (Bool × Ptr)} {n : Node} {ns : List Node}
        → (n.item.ordinal == ordinal) ≡ false
        → Slot ordinal n.place h run ns
        → Slot ordinal last h run (n ∷ ns)
    behind y (Slot.absent none_there run) = Slot.absent (rw y none_there) run
    behind {n} y (Slot.present pre post m split before is run) =
        Slot.present (n ∷ pre) post m (ap (◌∷◌ n) split) (rw y before) is run

-- A list that is not empty has a last item.
pub snoc :
    {A : Type 0} (x : A) (xs : List A) → (init : List A) × (l : A) × (x ∷ xs ≡ init ++ l ∷ [])
snoc x [] = ([], x, refl)
snoc x (y ∷ xs) = let (init, l, e) = snoc y xs in (x ∷ init, l, ap (◌∷◌ x) e)

pub last_place-append :
    (q : Ptr) (init : List Node) (l : Node) → last_place q (init ++ l ∷ []) ≡ l.place
last_place-append q [] l = refl
last_place-append q (n ∷ init) l = last_place-append n.place init l

pub last_table-append :
    (f : ℕ) (init : List Table) (l : Table) (h : Heap)
    → length init < f
    → Held (tables_to null (init ++ l ∷ []) []) h.tables
    → last_table f (first_table null (init ++ l ∷ [])) h ≡ ok l.place h
unfolding last_table
last_table-append zero init l h lt ht = absurd (omega arith)
last_table-append (suc f) [] l h lt ht = rw (read_table-look h l.place _ ht.1 ht.0) refl
last_table-append (suc f) (t ∷ []) l h lt ht =
    rw (read_table-look h t.place _ ht.1 ht.0, ≢→== l.place null ht.3.1)
      (last_table-append f [] l h (omega arith) ht.3)
last_table-append (suc f) (t ∷ (u ∷ init)) l h lt ht =
    rw (read_table-look h t.place _ ht.1 ht.0, ≢→== u.place null ht.3.1)
      (last_table-append f (u ∷ init) l h (omega arith) ht.3)

-- ===== src/Registry/Lookup.antt =====
-- The lookups of src/module_registry.c against a search in the modules that the lists hold.
use nxdk_dyndxt.Base.{
  ℕ, zero, suc, ◌<◌, ◌≡◌, ◌≢◌, refl, inl, inr, Bool, true, false, ◌||◌, Option, none, some, List,
  [], ◌∷◌, Bytes, arith, ◌==◌, Bool-cases, if◌then◌else◌, length, ≢→==,
}
use nxdk_dyndxt.Pool.{
  Ptr, null, M, pure, ◌>>=◌, Heap, ExportNode, ModuleExportTable, ok, look, c_string, same_string,
}
use nxdk_dyndxt.Pool.Nodes.{read_table}
use nxdk_dyndxt.Registry.{
  find_table, find_ordinal, is_named, find_name, address_of, get_method_by_ordinal,
  get_method_by_name,
}
use nxdk_dyndxt.Registry.Chains.{
  read_string-Reads, read_table-look, read_node-look, HaveRoom, Export, Module, IsName, IsExport,
  IsChain, IsTable, IsRegistry,
}

abbrev pub find_module : Bytes → List Module → Option Module
find_module s [] = none
find_module s (m ∷ ms) = if same_string m.name (c_string s) then some m else find_module s ms

abbrev pub first : (Export → Bool) → List Export → Option Export
first f [] = none
first f (x ∷ xs) = if f x then some x else first f xs

abbrev pub answer : Option Export → Bool × ℕ
answer none = (false, 0)
answer (some x) = (true, x.address)

abbrev answer_in : (Export → Bool) → Option Module → Bool × ℕ
answer_in f none = (false, 0)
answer_in f (some m) = answer (first f m.exports)

-- The answer of a lookup: the first module of this name, and its first export that fits.
abbrev pub lookup : Bytes → (Export → Bool) → List Module → Bool × ℕ
lookup s f ms = answer_in f (find_module s ms)

abbrev pub has_ordinal : ℕ → Export → Bool
has_ordinal ordinal x = x.ordinal == ordinal

abbrev pub is_name : Option Bytes → Bytes → Bool
is_name none s = false
is_name (some n) s = same_string n (c_string s)

-- Either the name or the alias.
abbrev pub goes_by : Bytes → Export → Bool
goes_by s x = is_name x.method_name s || is_name x.alias s

abbrev pub Found : Heap → Option Module → Ptr → Type 0
Found h none q = q ≡ null
Found h (some m) q =
    (q ≢ null) × (t : ModuleExportTable) × (look h.tables q ≡ some t) × IsTable h t m

abbrev FoundExport : Heap → Option Export → Ptr → Type 0
FoundExport h none q = q ≡ null
FoundExport h (some x) q =
    (q ≢ null) × (n : ExportNode) × (look h.nodes q ≡ some n) × IsExport h n.entry x

pub find_table-Found :
    (f : ℕ) (h : Heap) (p : Ptr) (ms : List Module) (s : Bytes)
    → IsRegistry h p ms
    → length ms < f
    → (q : Ptr) × (find_table f p s h ≡ ok q h) × Found h (find_module s ms) q
unfolding find_table
find_table-Found zero h p ms s r l = absurd (omega arith)
find_table-Found (suc f) h p [] s r l = (null, rw r refl, refl)
find_table-Found (suc f) h p (m ∷ ms) s (ne, t, e, (named, chain), rest) l =
    let here : (p == null) ≡ false = ≢→== p null ne in
    elim (Bool-cases (same_string m.name (c_string s))) [
      | inl y ↦ (
        p,
        rw (here, read_table-look h p t ne e, read_string-Reads h t.module_name m.name named, y)
            refl,
        rw y (ne, t, e, (named, chain)),
      )
      | inr y ↦
          let (q, run, found) = find_table-Found f h t.next ms s rest (omega arith) in
          (
            q,
            rw (here, read_table-look h p t ne e, read_string-Reads h t.module_name m.name named, y)
                run,
            rw y found,
          )
    ]

find_ordinal-FoundExport :
    (f : ℕ) (h : Heap) (p : Ptr) (xs : List Export) (ordinal : ℕ)
    → IsChain h p xs
    → length xs < f
    → (q : Ptr) × (find_ordinal f p ordinal h ≡ ok q h)
      × FoundExport h (first (has_ordinal ordinal) xs) q
unfolding find_ordinal
find_ordinal-FoundExport zero h p xs ordinal r l = absurd (omega arith)
find_ordinal-FoundExport (suc f) h p [] ordinal r l = (null, rw r refl, refl)
find_ordinal-FoundExport (suc f) h p (x ∷ xs) ordinal (ne, n, e, is, rest) l =
    let here : (p == null) ≡ false = ≢→== p null ne in
    elim (Bool-cases (x.ordinal == ordinal)) [
      | inl y ↦ (p, rw (here, read_node-look h p n ne e, is.ordinal, y) refl, rw y (ne, n, e, is))
      | inr y ↦
          let (q, run, found) = find_ordinal-FoundExport f h n.next xs ordinal rest (omega arith) in
          (q, rw (here, read_node-look h p n ne e, is.ordinal, y) run, rw y found)
    ]

is_named-is_name :
    (h : Heap) (p : Ptr) (n : Option Bytes) (s : Bytes)
    → IsName h p n
    → is_named p s h ≡ ok (is_name n s) h
unfolding is_named
is_named-is_name h p none s e = rw e refl
is_named-is_name h p (some n) s (ne, r) = rw (≢→== p null ne, read_string-Reads h p n r) refl

find_name-FoundExport :
    (f : ℕ) (h : Heap) (p : Ptr) (xs : List Export) (s : Bytes)
    → IsChain h p xs
    → length xs < f
    → (q : Ptr) × (find_name f p s h ≡ ok q h) × FoundExport h (first (goes_by s) xs) q
unfolding find_name
find_name-FoundExport zero h p xs s r l = absurd (omega arith)
find_name-FoundExport (suc f) h p [] s r l = (null, rw r refl, refl)
find_name-FoundExport (suc f) h p (x ∷ xs) s (ne, n, e, is, rest) l =
    let here : (p == null) ≡ false = ≢→== p null ne in
    let node = read_node-look h p n ne e in
    let name = is_named-is_name h n.entry.method_name x.method_name s is.method_name in
    let alias = is_named-is_name h n.entry.alias x.alias s is.alias in
    elim (Bool-cases (is_name x.method_name s)) [
      | inl y ↦ (p, rw (here, node, name, y) refl, rw y (ne, n, e, is))
      | inr y ↦ elim (Bool-cases (is_name x.alias s)) [
        | inl z ↦ (p, rw (here, node, name, y, alias, z) refl, rw (y, z) (ne, n, e, is))
        | inr z ↦
            let (q, run, found) = find_name-FoundExport f h n.next xs s rest (omega arith) in
            (q, rw (here, node, name, y, alias, z) run, rw (y, z) found)
      ]
    ]

address_of-FoundExport :
    (h : Heap) (x : Option Export) (q : Ptr) → FoundExport h x q → address_of q h ≡ ok (answer x) h
unfolding address_of
address_of-FoundExport h none q e = rw e refl
address_of-FoundExport h (some x) q (ne, n, e, is) =
    rw (≢→== q null ne, read_node-look h q n ne e, is.address) refl

abbrev pub HasRoom : ℕ → Option Module → Type 0
HasRoom f none = Unit
HasRoom f (some m) = length m.exports < f

pub find_module-HasRoom :
    (f : ℕ) (s : Bytes) (ms : List Module) → HaveRoom f ms → HasRoom f (find_module s ms)
find_module-HasRoom f s [] r = tt
find_module-HasRoom f s (x ∷ ms) r = elim (Bool-cases (same_string x.name (c_string s))) [
  | inl y ↦ rw y r.0
  | inr y ↦ rw y (find_module-HasRoom f s ms r.1)
]

in_module :
    (h : Heap) (f : ℕ) (q : Ptr) (o : Option Module) (fits : Export → Bool) (search : Ptr → M Ptr)
    → Found h o q
    → HasRoom f o
    → ((p : Ptr) (xs : List Export)
        → IsChain h p xs
        → length xs < f
        → (r : Ptr) × (search p h ≡ ok r h) × FoundExport h (first fits xs) r)
    → (if q == null
          then pure (false, 0)
          else do t ← read_table q; node ← search t.exports; address_of node)
        h
      ≡ ok (answer_in fits o) h
in_module h f q none fits search e room step = rw e refl
in_module h f q (some m) fits search (ne, t, e, (named, chain)) room step =
    let (n, run, found) = step t.exports m.exports chain room in
    rw (≢→== q null ne, read_table-look h q t ne e, run)
      (address_of-FoundExport h (first fits m.exports) n found)

-- MRGetMethodByOrdinal, on lists that hold `ms` and that the fuel lasts for, returns the address
-- of the first export with this ordinal in the first module of this name, or false where there
-- is none; it changes nothing.
pub get_method_by_ordinal-lookup :
    (f : ℕ) (h : Heap) (export_table : Ptr) (ms : List Module) (module_name : Bytes) (ordinal : ℕ)
    → IsRegistry h export_table ms
    → length ms < f
    → HaveRoom f ms
    → get_method_by_ordinal f export_table module_name ordinal h
      ≡ ok (lookup module_name (has_ordinal ordinal) ms) h
unfolding get_method_by_ordinal
get_method_by_ordinal-lookup f h p ms s ordinal r l room =
    let (q, run, found) = find_table-Found f h p ms s r l in
    rw run (
      in_module h f q (find_module s ms) (has_ordinal ordinal) (λ p'. find_ordinal f p' ordinal)
        found (find_module-HasRoom f s ms room)
        (λ p' xs chain fits. find_ordinal-FoundExport f h p' xs ordinal chain fits))

-- MRGetMethodByName, on lists that hold `ms` and that the fuel lasts for, returns the address of
-- the first export with this name or alias in the first module of this name, or false where there
-- is none; it changes nothing.
pub get_method_by_name-lookup :
    (f : ℕ) (h : Heap) (export_table : Ptr) (ms : List Module) (module_name name : Bytes)
    → IsRegistry h export_table ms
    → length ms < f
    → HaveRoom f ms
    → get_method_by_name f export_table module_name name h
      ≡ ok (lookup module_name (goes_by name) ms) h
unfolding get_method_by_name
get_method_by_name-lookup f h p ms s name r l room =
    let (q, run, found) = find_table-Found f h p ms s r l in
    rw run (
      in_module h f q (find_module s ms) (goes_by name) (λ p'. find_name f p' name) found
        (find_module-HasRoom f s ms room)
        (λ p' xs chain fits. find_name-FoundExport f h p' xs name chain fits))

-- ===== src/Registry/Walk.antt =====
-- The counts and the enumeration of src/module_registry.c against the modules that the lists hold.
use nxdk_dyndxt.Base.{
  ℕ, zero, suc, ◌+◌, ◌<◌, ◌^◌, ◌%◌, ◌≡◌, ◌≢◌, ◌⊎◌, inl, inr, refl, ◌∙◌, ap, none, some, List, [],
  ◌∷◌, ◌++◌, Bytes, arith, length, ≢→==,
}
use nxdk_dyndxt.Pool.{
  Ptr, null, Heap, ExportNode, ModuleExportTable, M, ok, pure, ◌>>=◌, look, read_string,
}
use nxdk_dyndxt.Pool.Nodes.{read_node}
use nxdk_dyndxt.Registry.{
  ModuleRegistryCursor, stop, count_modules, get_num_registered_modules, count_nodes, count_exports,
  get_total_num_exports, enumerate_registry_begin, first_export, enumerate_registry,
}
use nxdk_dyndxt.Registry.Chains.{
  Export, Module, Reads, IsExport, IsChain, IsRegistry, HaveRoom, read_string-Reads,
  read_table-look, read_node-look,
}

-- The number of exports in all modules.
abbrev pub total : List Module → ℕ
total [] = 0
total (m ∷ ms) = length m.exports + total ms

add_one : (n : ℕ) → n + 1 < 2 ^ 32 → (n + 1) % 2 ^ 32 ≡ n + 1
add_one n l = omega arith

count_modules-length :
    (f : ℕ) (h : Heap) (p : Ptr) (ms : List Module) (ret : ℕ)
    → IsRegistry h p ms
    → length ms < f
    → ret + length ms < 2 ^ 32
    → count_modules f p ret h ≡ ok (ret + length ms) h
unfolding count_modules
count_modules-length zero h p ms ret r l small = absurd (omega arith)
count_modules-length (suc f) h p [] ret r l small = rw r (ap (λ z. ok z h) (omega arith))
count_modules-length (suc f) h p (m ∷ ms) ret (ne, t, e, is, rest) l small =
    rw (≢→== p null ne, read_table-look h p t ne e, add_one ret (omega arith))
      (count_modules-length f h t.next ms (ret + 1) rest (omega arith) (omega arith)
        ∙ ap (λ z. ok z h) (omega arith))

count_nodes-length :
    (f : ℕ) (h : Heap) (p : Ptr) (xs : List Export) (ret : ℕ)
    → IsChain h p xs
    → length xs < f
    → ret + length xs < 2 ^ 32
    → count_nodes f p ret h ≡ ok (ret + length xs) h
unfolding count_nodes
count_nodes-length zero h p xs ret r l small = absurd (omega arith)
count_nodes-length (suc f) h p [] ret r l small = rw r (ap (λ z. ok z h) (omega arith))
count_nodes-length (suc f) h p (x ∷ xs) ret (ne, n, e, is, rest) l small =
    rw (≢→== p null ne, read_node-look h p n ne e, add_one ret (omega arith))
      (count_nodes-length f h n.next xs (ret + 1) rest (omega arith) (omega arith)
        ∙ ap (λ z. ok z h) (omega arith))

count_exports-total :
    (f inner : ℕ) (h : Heap) (p : Ptr) (ms : List Module) (ret : ℕ)
    → IsRegistry h p ms
    → length ms < f
    → HaveRoom inner ms
    → ret + total ms < 2 ^ 32
    → count_exports f inner p ret h ≡ ok (ret + total ms) h
unfolding count_exports
count_exports-total zero inner h p ms ret r l room small = absurd (omega arith)
count_exports-total (suc f) inner h p [] ret r l room small = rw r (ap (λ z. ok z h) (omega arith))
count_exports-total (suc f) inner h p (m ∷ ms) ret (ne, t, e, (named, chain), rest) l room small =
    rw
      (
        ≢→== p null ne,
        read_table-look h p t ne e,
        count_nodes-length inner h t.exports m.exports ret chain room.0 (omega arith),
      )
      (count_exports-total f inner h t.next ms (ret + length m.exports) rest (omega arith) room.1
          (omega arith)
        ∙ ap (λ z. ok z h) (omega arith))

-- MRGetNumRegisteredModules and MRGetTotalNumExports, on lists that hold `ms` and that the fuel
-- lasts for, return the number of modules and of all their exports, if these are below 2 ^ 32;
-- they change nothing.
pub counts-length :
    (f : ℕ) (h : Heap) (export_table : Ptr) (ms : List Module)
    → IsRegistry h export_table ms
    → length ms < f
    → HaveRoom f ms
    → length ms < 2 ^ 32
    → total ms < 2 ^ 32
    → (get_num_registered_modules f export_table h ≡ ok (length ms) h)
      × (get_total_num_exports f export_table h ≡ ok (total ms) h)
counts-length f h p ms r l room small small' = (
  count_modules-length f h p ms 0 r l (omega arith) ∙ ap (λ z. ok z h) (omega arith),
  count_exports-total f f h p ms 0 r l room (omega arith) ∙ ap (λ z. ok z h) (omega arith),
)

-- One export as a client of the enumeration sees it: its module's name, its ordinal, its address.
abbrev pub Visit : Type 0
Visit = Bytes × ℕ × ℕ

-- A client's loop: it calls MREnumerateRegistry until that returns false.
unfoldable pub enumerate_all : ℕ → ModuleRegistryCursor → M (List Visit)
enumerate_all zero cursor = stop
enumerate_all (suc f) cursor = do
  r ← enumerate_registry cursor
  elim r [
    | none ↦ pure []
    | some (module_name, module_export, next) ↦ do
      s ← read_string module_name
      n ← read_node module_export
      rest ← enumerate_all f next
      pure ((s, n.entry.ordinal, n.entry.address) ∷ rest)
  ]

abbrev pub visits : Bytes → List Export → List Visit
visits s [] = []
visits s (x ∷ xs) = (s, x.ordinal, x.address) ∷ visits s xs

abbrev pub all_visits : List Module → List Visit
all_visits [] = []
all_visits (m ∷ ms) = visits m.name m.exports ++ all_visits ms

abbrev pub HaveExports : List Module → Type 0
HaveExports [] = Unit
HaveExports (m ∷ ms) = (m.exports ≢ []) × HaveExports ms

List-cases : {A : Type 0} → (xs : List A) → (xs ≡ []) ⊎ ((y : A) × (ys : List A) × (xs ≡ y ∷ ys))
List-cases [] = inl refl
List-cases (y ∷ ys) = inr (y, ys, refl)

enumerate_all-end :
    (f : ℕ) (h : Heap) (q : Ptr)
    → 0 < f
    → enumerate_all f (record { table = null; export = q }) h ≡ ok [] h
unfolding enumerate_all enumerate_registry
enumerate_all-end zero h q l = absurd (omega arith)
enumerate_all-end (suc f) h q l = refl

-- One round of the client's loop.
enumerate_all-step :
    (f : ℕ) (h : Heap) (c c' : ModuleRegistryCursor) (name q : Ptr) (s : Bytes) (n : ExportNode)
    (x : Export) (vs : List Visit)
    → enumerate_registry c h ≡ ok (some (name, q, c')) h
    → Reads h name s
    → read_node q h ≡ ok n h
    → IsExport h n.entry x
    → enumerate_all f c' h ≡ ok vs h
    → enumerate_all (suc f) c h ≡ ok ((s, x.ordinal, x.address) ∷ vs) h
unfolding enumerate_all
enumerate_all-step f h c c' name q s n x vs run named node is rest =
    rw (run, read_string-Reads h name s named, node, rest, is.ordinal, is.address) refl

enumerate_all-visits :
    (f : ℕ) (h : Heap) (p q : Ptr) (t : ModuleExportTable) (s : Bytes) (x : Export)
    (xs : List Export) (ms : List Module)
    → p ≢ null
    → look h.tables p ≡ some t
    → Reads h t.module_name s
    → IsChain h q (x ∷ xs)
    → IsRegistry h t.next ms
    → HaveExports ms
    → length xs + total ms + 1 < f
    → enumerate_all f (record { table = p; export = q }) h
      ≡ ok (visits s (x ∷ xs) ++ all_visits ms) h
unfolding enumerate_registry first_export
enumerate_all-visits zero h p q t s x xs ms np e named (nq, n, en, is, chain) rest some_export l =
    absurd (omega arith)
enumerate_all-visits (suc f) h p q t s x [] [] np e named (nq, n, en, is, chain) rest some_export
      l =
    enumerate_all-step f h (record { table = p; export = q })
      (record { table = null; export = null }) t.module_name q s n x []
      (rw
        (
          ≢→== p null np,
          ≢→== q null nq,
          read_table-look h p t np e,
          read_node-look h q n nq en,
          chain,
          rest,
        )
        refl)
      named (read_node-look h q n nq en) is (enumerate_all-end f h null (omega arith))
enumerate_all-visits (suc f) h p q t s x [] (m ∷ ms) np e named (nq, n, en, is, chain)
      (np', t', e', (named', chain'), rest) (some_export, more) l =
    elim (List-cases m.exports) [
      | inl none_there ↦ absurd (some_export none_there)
      | inr (y, ys, split) ↦
          enumerate_all-step f h (record { table = p; export = q })
            (record { table = t.next; export = t'.exports }) t.module_name q s n x
            (visits m.name m.exports ++ all_visits ms)
            (rw
              (
                ≢→== p null np,
                ≢→== q null nq,
                read_table-look h p t np e,
                read_node-look h q n nq en,
                chain,
                ≢→== t.next null np',
                read_table-look h t.next t' np' e',
              )
              refl)
            named (read_node-look h q n nq en) is
            (rw split (
              enumerate_all-visits f h t.next t'.exports t' m.name y ys ms np' e' named'
                (rw split at chain') rest more (omega (arith, ap length split))))
    ]
enumerate_all-visits (suc f) h p q t s x (y ∷ xs) ms np e named (nq, n, en, is, chain) rest
      some_export l =
    enumerate_all-step f h (record { table = p; export = q })
      (record { table = p; export = n.next }) t.module_name q s n x
      (visits s (y ∷ xs) ++ all_visits ms)
      (rw
        (
          ≢→== p null np,
          ≢→== q null nq,
          read_table-look h p t np e,
          read_node-look h q n nq en,
          ≢→== n.next null chain.0,
        )
        refl)
      named (read_node-look h q n nq en) is
      (enumerate_all-visits f h p n.next t s y xs ms np e named chain rest some_export
        (omega arith))

-- On lists that hold at least one module, each with at least one export, MREnumerateRegistryBegin
-- and then MREnumerateRegistry, called until it returns false, visit every export of every module
-- once, in the order of the lists, and change nothing; the fuel is longer than the visits.
pub enumerate_all-all_visits :
    (f : ℕ) (h : Heap) (export_table : Ptr) (ms : List Module)
    → IsRegistry h export_table ms
    → ms ≢ []
    → HaveExports ms
    → total ms < f
    → (enumerate_registry_begin export_table >>= enumerate_all f) h ≡ ok (all_visits ms) h
unfolding enumerate_registry_begin
enumerate_all-all_visits f h p [] r ne some_export l = absurd (ne refl)
enumerate_all-all_visits f h p (m ∷ ms) (np, t, e, (named, chain), rest) ne (some_export, more) l =
    elim (List-cases m.exports) [
      | inl none_there ↦ absurd (some_export none_there)
      | inr (y, ys, split) ↦
          rw (read_table-look h p t np e, split)
            (enumerate_all-visits f h p t.exports t m.name y ys ms np e named (rw split at chain)
              rest more (omega (arith, ap length split)))
    ]

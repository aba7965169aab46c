-- ===== src/Registry/Model.antt =====
-- What src/module_registry.c promises: a list of modules, and how a registration changes it.
use nxdk_dyndxt.Base.{
  ℕ, suc, ◌-◌, ◌<◌, length, ◌≡◌, refl, sym, ap, inl, inr, true, false, ◌&&◌, none, some, List, [],
  ◌∷◌, ◌++◌, Bytes, arith, ◌==◌, Bool-cases, if◌then◌else◌,
}
use nxdk_dyndxt.Pool.{c_string, same_string}
use nxdk_dyndxt.Pool.Strings.{same_string-≡, same_string_refl}
use nxdk_dyndxt.Registry.Chains.{Export, Module, HaveRoom}
use nxdk_dyndxt.Registry.Lookup.{find_module, first, has_ordinal, lookup}

-- An export takes the place of the one with its ordinal, or comes last.
abbrev pub put : Export → List Export → List Export
put x [] = x ∷ []
put x (y ∷ ys) = if y.ordinal == x.ordinal then x ∷ ys else y ∷ put x ys

-- An export goes to the first module of this name, or to a new last one.
abbrev pub register : Bytes → Export → List Module → List Module
register s x [] = record { name = c_string s; exports = x ∷ [] } ∷ []
register s x (m ∷ ms) =
    if same_string m.name (c_string s)
    then record { name = m.name; exports = put x m.exports } ∷ ms
    else m ∷ register s x ms

pub put-present :
    (x y : Export) (pre post : List Export)
    → first (has_ordinal x.ordinal) pre ≡ none
    → y.ordinal ≡ x.ordinal
    → put x (pre ++ y ∷ post) ≡ pre ++ x ∷ post
put-present x y [] post before same = ground arith
put-present x y (z ∷ pre) post before same = elim (Bool-cases (z.ordinal == x.ordinal)) [
  | inl e ↦ absurd (ground arith)
  | inr e ↦ rw e (ap (◌∷◌ z) (put-present x y pre post (rw e at before) same))
]

pub put-absent :
    (x : Export) (xs : List Export)
    → first (has_ordinal x.ordinal) xs ≡ none
    → put x xs ≡ xs ++ x ∷ []
put-absent x [] absent = refl
put-absent x (z ∷ xs) absent = elim (Bool-cases (z.ordinal == x.ordinal)) [
  | inl e ↦ absurd (ground arith)
  | inr e ↦ rw e (ap (◌∷◌ z) (put-absent x xs (rw e at absent)))
]

pub register-present :
    (s : Bytes) (x : Export) (m : Module) (pre post : List Module)
    → find_module s pre ≡ none
    → same_string m.name (c_string s) ≡ true
    → register s x (pre ++ m ∷ post)
      ≡ pre ++ record { name = m.name; exports = put x m.exports } ∷ post
register-present s x m [] post before same = rw same refl
register-present s x m (z ∷ pre) post before same =
    elim (Bool-cases (same_string z.name (c_string s))) [
      | inl e ↦ absurd (ground arith)
      | inr e ↦ rw e (ap (◌∷◌ z) (register-present s x m pre post (rw e at before) same))
    ]

pub register-absent :
    (s : Bytes) (x : Export) (ms : List Module)
    → find_module s ms ≡ none
    → register s x ms ≡ ms ++ record { name = c_string s; exports = x ∷ [] } ∷ []
register-absent s x [] absent = refl
register-absent s x (z ∷ ms) absent = elim (Bool-cases (same_string z.name (c_string s))) [
  | inl e ↦ absurd (ground arith)
  | inr e ↦ rw e (ap (◌∷◌ z) (register-absent s x ms (rw e at absent)))
]

first-put :
    (o : ℕ) (x : Export) (xs : List Export)
    → first (has_ordinal o) (put x xs)
      ≡ (if x.ordinal == o then some x else first (has_ordinal o) xs)
first-put o x [] = refl
first-put o x (y ∷ xs) = ground (arith, first-put o x xs)

lookup-register-same :
    (s s' : Bytes) (o : ℕ) (x : Export) (ms : List Module)
    → c_string s' ≡ c_string s
    → lookup s' (has_ordinal o) (register s x ms)
      ≡ (if x.ordinal == o then (true, x.address) else lookup s' (has_ordinal o) ms)
lookup-register-same s s' o x [] same =
    rw (same, same_string_refl (c_string s))
      (elim (Bool-cases (x.ordinal == o)) [ inl e ↦ rw e refl | inr e ↦ rw e refl ])
lookup-register-same s s' o x (m ∷ ms) same = elim (Bool-cases (same_string m.name (c_string s))) [
  | inl y ↦
      rw (y, same, y, first-put o x m.exports)
        (elim (Bool-cases (x.ordinal == o)) [ inl e ↦ rw e refl | inr e ↦ rw e refl ])
  | inr y ↦
      let named : same_string m.name (c_string s') ≡ false = rw same y in
      rw (y, named) (lookup-register-same s s' o x ms same)
]

lookup-register-other :
    (s s' : Bytes) (o : ℕ) (x : Export) (ms : List Module)
    → same_string (c_string s) (c_string s') ≡ false
    → lookup s' (has_ordinal o) (register s x ms) ≡ lookup s' (has_ordinal o) ms
lookup-register-other s s' o x [] other = rw (other) refl
lookup-register-other s s' o x (m ∷ ms) other =
    elim (Bool-cases (same_string m.name (c_string s))) [
      | inl y ↦
          let named : same_string m.name (c_string s') ≡ false =
            rw (same_string-≡ m.name (c_string s) y) other in
          rw (y, named) refl
      | inr y ↦ elim (Bool-cases (same_string m.name (c_string s'))) [
        | inl z ↦ rw (y, z) refl
        | inr z ↦ rw (y, z) (lookup-register-other s s' o x ms other)
      ]
    ]

-- A registration changes what one module name and one ordinal stand for, and nothing else.
pub lookup-register :
    (s s' : Bytes) (o : ℕ) (x : Export) (ms : List Module)
    → lookup s' (has_ordinal o) (register s x ms) ≡ (
        if same_string (c_string s) (c_string s') && (x.ordinal == o)
        then (true, x.address)
        else lookup s' (has_ordinal o) ms)
lookup-register s s' o x ms = elim (Bool-cases (same_string (c_string s) (c_string s'))) [
  | inl y ↦ rw y (lookup-register-same s s' o x ms (sym (same_string-≡ _ _ y)))
  | inr y ↦ rw (y, lookup-register-other s s' o x ms y) refl
]

-- A registration makes no list longer by more than one.
length-put : (f : ℕ) (x : Export) (xs : List Export) → length xs < f → length (put x xs) < suc f
length-put f x [] l = omega arith
length-put f x (y ∷ ys) l = elim (Bool-cases (y.ordinal == x.ordinal)) [
  | inl e ↦ rw e (omega arith)
  | inr e ↦ rw e (let rest = length-put (f - 1) x ys (omega arith) in omega arith)
]

pub length-register :
    (f : ℕ) (s : Bytes) (x : Export) (ms : List Module)
    → length ms < f
    → length (register s x ms) < suc f
length-register f s x [] l = omega arith
length-register f s x (m ∷ ms) l = elim (Bool-cases (same_string m.name (c_string s))) [
  | inl e ↦ rw e (omega arith)
  | inr e ↦ rw e (let rest = length-register (f - 1) s x ms (omega arith) in omega arith)
]

HaveRoom-suc : (f : ℕ) (ms : List Module) → HaveRoom f ms → HaveRoom (suc f) ms
HaveRoom-suc f [] r = omega arith
HaveRoom-suc f (m ∷ ms) r = (omega arith, HaveRoom-suc f ms r.1)

pub register-HaveRoom :
    (f : ℕ) (s : Bytes) (x : Export) (ms : List Module)
    → HaveRoom f ms
    → HaveRoom (suc f) (register s x ms)
register-HaveRoom f s x [] r = (omega arith, omega arith)
register-HaveRoom f s x (m ∷ ms) r = elim (Bool-cases (same_string m.name (c_string s))) [
  | inl e ↦ rw e (length-put f x m.exports r.0, HaveRoom-suc f ms r.1)
  | inr e ↦ rw e (omega arith, register-HaveRoom f s x ms r.1)
]

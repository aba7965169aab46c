-- ===== src/Handlers/Exports/Ordinals.antt =====
-- Lookups by ordinal among the exports of images.
use nxdk_dyndxt.Base.{
  ℕ, zero, suc, ◌+◌, ◌-◌, ◌*◌, ◌%◌, ◌^◌, ◌<◌, ◌≤◌, ◌≡◌, refl, ap, ◌∙◌, true, false, List, [], ◌∷◌,
  Bytes, arith, ◌==◌, inl, inr, Bool-cases, ≢→==, ==→≡, ==_refl,
}
use nxdk_dyndxt.Pool.{c_string, same_string}
use nxdk_dyndxt.Pool.Strings.{same_string_refl}
use nxdk_dyndxt.Loader.Run.{word32}
use nxdk_dyndxt.Registry.Chains.{Export, Module}
use nxdk_dyndxt.Registry.Lookup.{lookup, has_ordinal}
use nxdk_dyndxt.Registry.Model.{register, lookup-register}
use nxdk_dyndxt.Handlers.Exports.Images.{
  function_export, function_exports, image_exports, register_list, register_images,
}

-- The registration of other modules' exports does not matter.
lookup-register_list-other :
    (s s' : Bytes) (o : ℕ) (xs : List Export) (ms : List Module)
    → same_string (c_string s) (c_string s') ≡ false
    → lookup s' (has_ordinal o) (register_list s xs ms) ≡ lookup s' (has_ordinal o) ms
lookup-register_list-other s s' o [] ms other = refl
lookup-register_list-other s s' o (x ∷ xs) ms other =
    lookup-register_list-other s s' o xs (register s x ms) other
    ∙ lookup-register s s' o x ms
    ∙ rw other refl

-- No module of the list has this name.
abbrev pub AreOthers : Bytes → List (Bytes × ℕ) → Type 0
AreOthers s [] = Unit
AreOthers s ((name, base) ∷ rest) =
    (same_string (c_string name) (c_string s) ≡ false) × AreOthers s rest

pub lookup-register_images-other :
    (memory : ℕ → ℕ) (s : Bytes) (o : ℕ) (modules : List (Bytes × ℕ)) (ms : List Module)
    → AreOthers s modules
    → lookup s (has_ordinal o) (register_images memory modules ms) ≡ lookup s (has_ordinal o) ms
lookup-register_images-other memory s o [] ms others = refl
lookup-register_images-other memory s o ((name, base) ∷ rest) ms (other, others) =
    lookup-register_images-other memory s o rest (register_list name (image_exports memory base) ms)
      others
    ∙ lookup-register_list-other name s o (image_exports memory base) ms other

-- Nor does that of other ordinals.
lookup-function_exports-later :
    (memory : ℕ → ℕ) (s : Bytes) (n i base first array j : ℕ) (ms : List Module)
    → j < i
    → i + n ≤ 2 ^ 32
    → lookup s
        (has_ordinal ((j + first) % 2 ^ 32))
        (register_list s (function_exports memory n i base first array) ms)
      ≡ lookup s (has_ordinal ((j + first) % 2 ^ 32)) ms
lookup-function_exports-later memory s zero i base first array j ms l fits = refl
lookup-function_exports-later memory s (suc n) i base first array j ms l fits =
    let x = function_export memory base first array i in
    let o = (j + first) % 2 ^ 32 in
    let differs : (x.ordinal == o) ≡ false = ≢→== x.ordinal o (λ e. omega arith) in
    lookup-function_exports-later memory s n (i + 1) base first array j (register s x ms)
      (omega arith) (omega arith)
    ∙ lookup-register s s o x ms
    ∙ rw (same_string_refl (c_string s), differs) refl

-- The wrap-around of an ordinal does not reach the index.
function_export-address :
    (memory : ℕ → ℕ) (base first array i : ℕ)
    → i < 2 ^ 32
    → first < 2 ^ 32
    → (function_export memory base first array i).address
      ≡ (word32 memory (array + 4 * i) + base) % 2 ^ 32
function_export-address memory base first array i l small =
    let index : ((i + first) % 2 ^ 32 + 2 ^ 32 - first) % 2 ^ 32 ≡ i = omega arith in
    ap (λ k. (word32 memory (array + 4 * k) + base) % 2 ^ 32) index

pub lookup-function_exports :
    (memory : ℕ → ℕ) (s : Bytes) (n i base first array j : ℕ) (ms : List Module)
    → i ≤ j
    → j < i + n
    → i + n ≤ 2 ^ 32
    → first < 2 ^ 32
    → lookup s
        (has_ordinal ((j + first) % 2 ^ 32))
        (register_list s (function_exports memory n i base first array) ms)
      ≡ (true, (word32 memory (array + 4 * j) + base) % 2 ^ 32)
lookup-function_exports memory s zero i base first array j ms le l fits small = absurd (omega arith)
lookup-function_exports memory s (suc n) i base first array j ms le l fits small =
    let x = function_export memory base first array i in
    let o = (j + first) % 2 ^ 32 in
    elim (Bool-cases (i == j)) [
      | inl e ↦
          let same : i ≡ j = ==→≡ i j e in
          let this : (x.ordinal == o) ≡ true = rw same (==_refl o) in
          lookup-function_exports-later memory s n (i + 1) base first array j (register s x ms)
            (omega arith) (omega arith)
          ∙ lookup-register s s o x ms
          ∙ rw
              (
                same_string_refl (c_string s),
                this,
                function_export-address memory base first array i (omega arith) small,
                same,
              )
              refl
      | inr e ↦
          lookup-function_exports memory s n (i + 1) base first array j (register s x ms)
            (ground arith) (omega arith) (omega arith) small
    ]

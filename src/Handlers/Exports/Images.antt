-- ===== src/Handlers/Exports/Images.antt =====
-- LinkLoadedModules and DXTMain on loaded images: which exports they leave in the registry.
use mathlib.Core.Path.{subst}
use nxdk_dyndxt.Base.{
  ℕ, zero, suc, ◌+◌, ◌-◌, ◌*◌, ◌%◌, ◌^◌, ◌<◌, ◌≤◌, ◌≡◌, refl, none, List, [], ◌∷◌, Bytes, arith,
  length, ◌==◌, inl, inr, Bool-cases, if◌then◌else◌,
}
use nxdk_dyndxt.Pool.{Ptr, null, Heap, Allocator, ok, c_string}
use nxdk_dyndxt.Pool.Alloc.{NeverRefuses}
use nxdk_dyndxt.Response.{def_success}
use nxdk_dyndxt.Loader.Run.{word16, word32}
use nxdk_dyndxt.Registry.Chains.{Export, Module}
use nxdk_dyndxt.Registry.Model.{register}
use nxdk_dyndxt.Registry.Owns.{Item}
use nxdk_dyndxt.Registry.Owns.Session.{Registered, empty-Registered, register_method-Registered}
use nxdk_dyndxt.Handlers.{k_tag}
use nxdk_dyndxt.Handlers.Exports.{
  Function, exports, register_functions, register_directory, register_module_exports,
  link_loaded_modules, dxt_main,
}
use nxdk_dyndxt.Handlers.Exports.Registered.{register_each, AreShort, register_exports-Registered}

-- An export of an image: no names, the ordinal counted from the directory's base, and the address
-- that the array of functions has for it
abbrev pub function_export : (ℕ → ℕ) → (base first array i : ℕ) → Export
function_export memory base first array i = record {
  ordinal = (i + first) % 2 ^ 32;
  method_name = none;
  alias = none;
  address =
      (word32 memory (array + 4 * (((i + first) % 2 ^ 32 + 2 ^ 32 - first) % 2 ^ 32)) + base)
      % 2 ^ 32;
}

-- From the `i`th on, `n` of them
abbrev pub function_exports : (ℕ → ℕ) → ℕ → (i base first array : ℕ) → List Export
function_exports memory zero i base first array = []
function_exports memory (suc n) i base first array =
    function_export memory base first array i ∷ function_exports memory n (i + 1) base first array

abbrev pub directory_exports : (ℕ → ℕ) → (base directory : ℕ) → List Export
directory_exports memory base directory =
    function_exports memory (word32 memory (directory + 20)) 0 base (word32 memory (directory + 16))
      ((base + word32 memory (directory + 28)) % 2 ^ 32)

abbrev pub image_exports : (ℕ → ℕ) → ℕ → List Export
image_exports memory base =
    let nt_header = (base + word32 memory (base + 60)) % 2 ^ 32 in
    if word32 memory (nt_header + 124) == 0
    then []
    else directory_exports memory base ((base + word32 memory (nt_header + 120)) % 2 ^ 32)

-- Both signatures of an image stand at `base`.
abbrev pub IsImage : (ℕ → ℕ) → ℕ → Type 0
IsImage memory base =
    (word16 memory base ≡ 0x5A4D)
    × (word32 memory ((base + word32 memory (base + 60)) % 2 ^ 32) ≡ 0x4550)

abbrev pub register_list : Bytes → List Export → List Module → List Module
register_list s [] ms = ms
register_list s (x ∷ xs) ms = register_list s xs (register s x ms)

-- The exports of loaded modules, in order
abbrev pub register_images : (ℕ → ℕ) → List (Bytes × ℕ) → List Module → List Module
register_images memory [] ms = ms
register_images memory ((name, base) ∷ rest) ms =
    register_images memory rest (register_list name (image_exports memory base) ms)

abbrev pub count_images : (ℕ → ℕ) → List (Bytes × ℕ) → ℕ
count_images memory [] = 0
count_images memory ((name, base) ∷ rest) =
    length (image_exports memory base) + count_images memory rest

abbrev pub AreImages : (ℕ → ℕ) → List (Bytes × ℕ) → Type 0
AreImages memory [] = Unit
AreImages memory ((name, base) ∷ rest) =
    IsImage memory base × (length (c_string name) + 1 < 2 ^ 32) × AreImages memory rest

module _ (a : Allocator) (f : ℕ) (full : NeverRefuses a nxdk_dyndxt.Registry.k_tag) (h₀ : Heap)
    (memory : ℕ → ℕ) where
  register_functions-Registered :
      (name : Bytes) (n i base first array k : ℕ) (h : Heap) (p : Ptr) (ms : List Module)
      → length (c_string name) + 1 < 2 ^ 32
      → k + length (function_exports memory n i base first array) ≤ f
      → Registered h₀ [] k ms h p
      → (h' : Heap) × (p' : Ptr) × (register_functions a f memory n i name base first array p h
          ≡ ok (def_success 0, p') h')
        × Registered h₀ []
            (k + length (function_exports memory n i base first array))
            (register_list name (function_exports memory n i base first array) ms)
            h'
            p'
  unfolding register_functions
  register_functions-Registered name zero i base first array k h p ms short le r =
      (h, p, refl, subst (λ m. Registered h₀ [] m ms h p) (omega arith) r)
  register_functions-Registered name (suc n) i base first array k h p ms short le r =
      let x = function_export memory base first array i in
      let new : Item = record {
        ordinal = x.ordinal;
        method_name = none;
        alias = none;
        address = x.address;
      } in
      let (h₁, p₁, run, r₁) =
        register_method-Registered a f k name h₀ h p new [] ms full short (omega arith) r in
      let (h', p', runs, r') =
        register_functions-Registered name n (i + 1) base first array (suc k) h₁ p₁
          (register name x ms) short (omega arith) r₁ in
      (
        h',
        p',
        rw run runs,
        subst
            (λ m.
              Registered h₀ [] m
                (register_list name (function_exports memory n (i + 1) base first array)
                  (register name x ms))
                h' p')
            (omega arith) r',
      )

  register_module_exports-Registered :
      (name : Bytes) (base k : ℕ) (h : Heap) (p : Ptr) (ms : List Module)
      → IsImage memory base
      → length (c_string name) + 1 < 2 ^ 32
      → k + length (image_exports memory base) ≤ f
      → Registered h₀ [] k ms h p
      → (h' : Heap) × (p' : Ptr) × (register_module_exports a f memory name base p h
          ≡ ok (def_success 0, p') h')
        × Registered h₀ []
            (k + length (image_exports memory base))
            (register_list name (image_exports memory base) ms)
            h'
            p'
  unfolding register_module_exports register_directory
  register_module_exports-Registered name base k h p ms (dos, nt) short le r =
      let nt_header = (base + word32 memory (base + 60)) % 2 ^ 32 in
      elim (Bool-cases (word32 memory (nt_header + 124) == 0)) [
        | inl y ↦
            rw (dos, nt, y) (h, p, refl, subst (λ m. Registered h₀ [] m ms h p) (omega arith) r)
        | inr y ↦
            rw (dos, nt, y)
              (register_functions-Registered name
                (word32 memory ((base + word32 memory (nt_header + 120)) % 2 ^ 32 + 20)) 0 base
                (word32 memory ((base + word32 memory (nt_header + 120)) % 2 ^ 32 + 16))
                ((base + word32 memory ((base + word32 memory (nt_header + 120)) % 2 ^ 32 + 28))
                  % 2 ^ 32)
                k h p ms short (rw y at le) r)
      ]

  link_loaded_modules-Registered :
      (modules : List (Bytes × ℕ)) (k : ℕ) (h : Heap) (p : Ptr) (ms : List Module)
      → AreImages memory modules
      → k + count_images memory modules ≤ f
      → Registered h₀ [] k ms h p
      → (h' : Heap) × (p' : Ptr) × (link_loaded_modules a f memory modules p h
          ≡ ok (def_success 0, p') h')
        × Registered h₀ []
            (k + count_images memory modules)
            (register_images memory modules ms)
            h'
            p'
  unfolding link_loaded_modules
  link_loaded_modules-Registered [] k h p ms images le r =
      (h, p, refl, subst (λ m. Registered h₀ [] m ms h p) (omega arith) r)
  link_loaded_modules-Registered ((name, base) ∷ rest) k h p ms (image, short, images) le r =
      let xs = image_exports memory base in
      let (h₁, p₁, run, r₁) =
        register_module_exports-Registered name base k h p ms image short (omega arith) r in
      let (h', p', runs, r') =
        link_loaded_modules-Registered rest (k + length xs) h₁ p₁ (register_list name xs ms) images
          (omega arith) r₁ in
      (
        h',
        p',
        rw run runs,
        subst
            (λ m. Registered h₀ [] m (register_images memory rest (register_list name xs ms)) h' p')
            (omega arith) r',
      )

exports-AreShort : AreShort exports
unfolding c_string
exports-AreShort = ground arith

-- Where the allocator never refuses, every loaded module is an image with a name whose size fits 32
-- bits, and the fuel exceeds the number of exports, DXTMain on a NULL `export_table` returns what
-- DmRegisterCommandProcessor answers and leaves a registry that owns its blocks, with every other
-- block as before, and that stands for its own ten exports followed by those of the images, each
-- registered in turn.
pub dxt_main-Registered :
    (a : Allocator) (f : ℕ) (memory : ℕ → ℕ) (address_of : Function → ℕ)
    (modules : List (Bytes × ℕ)) (answer : ℕ) (h : Heap)
    → NeverRefuses a k_tag
    → NeverRefuses a nxdk_dyndxt.Registry.k_tag
    → AreImages memory modules
    → 11 + count_images memory modules ≤ f
    → (h' : Heap) × (p' : Ptr) × (dxt_main a f memory address_of modules answer null h
        ≡ ok (answer, p') h')
      × Registered h []
          (11 + count_images memory modules)
          (register_images memory modules (register_each address_of exports []))
          h'
          p'
unfolding dxt_main
dxt_main-Registered a f memory address_of modules answer h full full_registry images le =
    let (h₁, p₁, own, r₁) =
      register_exports-Registered a f full full_registry h address_of exports 1 h null []
        exports-AreShort (omega arith) (empty-Registered h) in
    let (h', p', linked, r') =
      link_loaded_modules-Registered a f full_registry h memory modules 11 h₁ p₁
        (register_each address_of exports []) images le r₁ in
    (h', p', rw (own, linked) refl, r')

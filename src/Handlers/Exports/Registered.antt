-- ===== src/Handlers/Exports/Registered.antt =====
-- What DXTMain and LinkLoadedModules leave in the registry, where the allocator never refuses.
use mathlib.Core.Path.{subst}
use nxdk_dyndxt.Base.{
  ℕ, suc, ◌+◌, ◌^◌, ◌<◌, ◌≤◌, ◌≡◌, ◌≢◌, refl, ◌∙◌, true, some, List, [], ◌++◌, ◌∷◌, Bytes, arith,
  length, ≢→==,
}
use nxdk_dyndxt.Pool.{Ptr, null, Text, Heap, Allocator, ok, c_string, tick}
use nxdk_dyndxt.Pool.Alloc.{NeverRefuses}
use nxdk_dyndxt.Pool.Context.{IsContext, IsContext-compose, Owned-in}
use nxdk_dyndxt.Pool.Strings.{c_string-terminated, c_string_idem}
use nxdk_dyndxt.Registry.Update.{pool_strdup}
use nxdk_dyndxt.Registry.Chains.{Export, Module}
use nxdk_dyndxt.Registry.Model.{register}
use nxdk_dyndxt.Registry.Owns.{Item, all_names, all_names-IsContext, export_of}
use nxdk_dyndxt.Registry.Owns.NewTable.{pool_strdup-Owned}
use nxdk_dyndxt.Registry.Owns.Session.{Registered, register_method-Registered}
use nxdk_dyndxt.Handlers.{k_tag}
use nxdk_dyndxt.Handlers.Exports.{
  Function, loader_name, copy_alias, register_export, register_exports,
}

-- The block that PoolStrdup fills
abbrev pub copy_of : Bytes → Text
copy_of s = record { size = length (c_string s) + 1; bytes = c_string s ++ 0 ∷ [] }

pub copy_of-c_string : (s : Bytes) → c_string (copy_of s).bytes ≡ c_string s
copy_of-c_string s = c_string-terminated (c_string s) ∙ c_string_idem s

pool_strdup-Registered :
    (a : Allocator) (s : Bytes) (tag k : ℕ) (h₀ h : Heap) (p : Ptr) (ms : List Module)
    (l : List (Ptr × Text) → List (Ptr × Text))
    → IsContext l
    → NeverRefuses a tag
    → length (c_string s) + 1 < 2 ^ 32
    → Registered h₀ (l []) k ms h p
    → (q : Ptr) × (h' : Heap) × (pool_strdup a s tag h ≡ ok q h')
      × (q ≢ null)
      × Registered h₀ (l ((q, copy_of s) ∷ [])) k ms h' p
pool_strdup-Registered a s tag k h₀ h p ms l c full short r =
    let (q, g, run, ne, o) =
      pool_strdup-Owned a s tag h (all_names r.tables (l [])) full short r.owns.strings in
    (
      q,
      record (tick h) { strings = g },
      run,
      ne,
      record {
        tables = r.tables;
        owns = record {
          start = r.owns.start;
          strings =
              Owned-in (λ bs. all_names r.tables (l bs))
                (IsContext-compose (all_names r.tables) l (all_names-IsContext r.tables) c)
                (q, copy_of s) [] o;
          arrays = r.owns.arrays;
          nodes = r.owns.nodes;
          tables = r.owns.tables;
        };
        room = r.room;
        lasts = r.lasts;
        holds = r.holds;
      },
    )

-- What RegisterExport registers
abbrev pub own_export : Bytes → Bytes → ℕ → ℕ → Export
own_export name alias ordinal address = record {
  ordinal = ordinal;
  method_name = some (c_string name);
  alias = some (c_string alias);
  address = address;
}

loader_name_short : length (c_string loader_name) + 1 < 2 ^ 32
unfolding c_string
loader_name_short = omega arith

abbrev pub register_each :
    (Function → ℕ) → List (Bytes × Bytes × ℕ × Function) → List Module → List Module
register_each address_of [] ms = ms
register_each address_of ((name, alias, ordinal, function) ∷ rest) ms =
    register_each address_of rest
      (register loader_name (own_export name alias ordinal (address_of function)) ms)

abbrev pub AreShort : List (Bytes × Bytes × ℕ × Function) → Type 0
AreShort [] = Unit
AreShort ((name, alias, ordinal, function) ∷ rest) =
    (length (c_string name) + 1 < 2 ^ 32) × (length (c_string alias) + 1 < 2 ^ 32) × AreShort rest

module _ (a : Allocator) (f : ℕ) (full : NeverRefuses a k_tag)
    (full_registry : NeverRefuses a nxdk_dyndxt.Registry.k_tag) (h₀ : Heap) where
  register_export-Registered :
      (name alias : Bytes) (ordinal address k : ℕ) (h : Heap) (p : Ptr) (ms : List Module)
      → length (c_string name) + 1 < 2 ^ 32
      → length (c_string alias) + 1 < 2 ^ 32
      → k ≤ f
      → Registered h₀ [] k ms h p
      → (h' : Heap) × (p' : Ptr) × (register_export a f p name (some alias) ordinal address h
          ≡ ok (true, p') h')
        × Registered h₀ []
            (suc k)
            (register loader_name (own_export name alias ordinal address) ms)
            h'
            p'
  unfolding register_export copy_alias
  register_export-Registered name alias ordinal address k h p ms short short' le r =
      let (n, h₁, copy_name, ne, r₁) =
        pool_strdup-Registered a name k_tag k h₀ h p ms (λ bs. bs) (λ bs. refl) full short r in
      let (m, h₂, copy, ne', r₂) =
        pool_strdup-Registered a alias k_tag k h₀ h₁ p ms (λ bs. (n, copy_of name) ∷ bs)
          (λ bs. refl) full short' r₁ in
      let new : Item = record {
        ordinal = ordinal;
        method_name = some (n, copy_of name);
        alias = some (m, copy_of alias);
        address = address;
      } in
      let (h', p', run, done) =
        register_method-Registered a f k loader_name h₀ h₂ p new [] ms full_registry
          loader_name_short le r₂ in
      let same : export_of new ≡ own_export name alias ordinal address =
        rw (copy_of-c_string name, copy_of-c_string alias) refl in
      (
        h',
        p',
        rw (copy_name, ≢→== n null ne, copy, ≢→== m null ne') run,
        subst (λ x. Registered h₀ [] (suc k) (register loader_name x ms) h' p') same done,
      )

  pub register_exports-Registered :
      (address_of : Function → ℕ) (es : List (Bytes × Bytes × ℕ × Function)) (k : ℕ) (h : Heap)
      (p : Ptr) (ms : List Module)
      → AreShort es
      → k + length es ≤ f
      → Registered h₀ [] k ms h p
      → (h' : Heap) × (p' : Ptr) × (register_exports a f address_of es p h ≡ ok p' h')
        × Registered h₀ [] (k + length es) (register_each address_of es ms) h' p'
  unfolding register_exports
  register_exports-Registered address_of [] k h p ms short le r =
      (h, p, refl, subst (λ n. Registered h₀ [] n ms h p) (omega arith) r)
  register_exports-Registered address_of ((name, alias, ordinal, function) ∷ es) k h p ms
        (short, short', rest) le r =
      let x = own_export name alias ordinal (address_of function) in
      let (h₁, p₁, run, r₁) =
        register_export-Registered name alias ordinal (address_of function) k h p ms short short'
          (omega arith) r in
      let (h', p', runs, r') =
        register_exports-Registered address_of es (suc k) h₁ p₁ (register loader_name x ms) rest
          (omega arith) r₁ in
      (
        h',
        p',
        rw run runs,
        subst
            (λ n.
              Registered h₀ [] n (register_each address_of es (register loader_name x ms)) h' p')
            (omega arith) r',
      )

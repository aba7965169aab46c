-- ===== src/Handlers/Exports/Linked.antt =====
-- LinkLoadedModules on lists of modules.
use mathlib.Core.Path.{fun_ext}
use nxdk_dyndxt.Base.{
  ℕ, ◌≡◌, ◌≢◌, refl, ap, ◌∙◌, inl, inr, false, List, [], ◌∷◌, ◌++◌, Bytes, ◌==◌, Bool-cases,
  if◌then◌else◌, ≢→==,
}
use nxdk_dyndxt.Pool.{Ptr, Allocator, Heap, Run, ok, fault, out_of_fuel, M, pure, and_then}
use nxdk_dyndxt.Response.{def_success, def_error}
use nxdk_dyndxt.Loader.Run.{word16}
use nxdk_dyndxt.Handlers.Exports.{register_module_exports, link_loaded_modules}

-- `XBOX_S_OK` goes on, and any other result stays.
abbrev pub go_on : (Ptr → M (ℕ × Ptr)) → ℕ × Ptr → M (ℕ × Ptr)
go_on next (ret, export_table) =
    if ret == def_success 0 then next export_table else pure (ret, export_table)

module _ (a : Allocator) (f : ℕ) (memory : ℕ → ℕ) where
  link_loaded_modules-append :
      (ms ns : List (Bytes × ℕ)) (export_table : Ptr) (h : Heap)
      → link_loaded_modules a f memory (ms ++ ns) export_table h
        ≡ and_then
            (link_loaded_modules a f memory ms export_table h)
            (go_on (link_loaded_modules a f memory ns))
  unfolding link_loaded_modules
  link_loaded_modules-append [] ns export_table h = refl
  link_loaded_modules-append ((name, base) ∷ ms) ns export_table h =
      step (link_loaded_modules-append ms ns)
        (register_module_exports a f memory name base export_table h)
    where
      step :
          ((t : Ptr) (h' : Heap)
            → link_loaded_modules a f memory (ms ++ ns) t h'
              ≡ and_then
                  (link_loaded_modules a f memory ms t h')
                  (go_on (link_loaded_modules a f memory ns)))
          → (r : Run (ℕ × Ptr))
          → and_then r (go_on (link_loaded_modules a f memory (ms ++ ns)))
            ≡ and_then
                (and_then r (go_on (link_loaded_modules a f memory ms)))
                (go_on (link_loaded_modules a f memory ns))
      step rest (ok (ret, t) h') = elim (Bool-cases (ret == def_success 0)) [
        | inl y ↦ rw y (rest t h')
        | inr y ↦ rw (y, y) refl
      ]
      step rest fault = refl
      step rest out_of_fuel = refl

  -- Where a loaded module does not start with the signature of an image, LinkLoadedModules
  -- registers the modules in front of it as if they were all; then it returns what these return, or
  -- XBOX_E_TYPE_INVALID if they are all registered. The modules behind it are left out.
  pub link_loaded_modules_stops :
      (ms rest : List (Bytes × ℕ)) (name : Bytes) (base : ℕ) (export_table : Ptr) (h : Heap)
      → word16 memory base ≢ 0x5A4D
      → link_loaded_modules a f memory (ms ++ (name, base) ∷ rest) export_table h
        ≡ and_then
            (link_loaded_modules a f memory ms export_table h)
            (go_on (λ t. pure (def_error 0x11, t)))
  unfolding link_loaded_modules register_module_exports
  link_loaded_modules_stops ms rest name base export_table h bad =
      let wrong : (word16 memory base == 0x5A4D) ≡ false = ≢→== (word16 memory base) 0x5A4D bad in
      let stops : link_loaded_modules a f memory ((name, base) ∷ rest)
          ≡ (λ t. pure (def_error 0x11, t)) =
        fun_ext λ t. fun_ext λ h'. rw wrong refl in
      link_loaded_modules-append ms ((name, base) ∷ rest) export_table h
      ∙ ap (λ k. and_then (link_loaded_modules a f memory ms export_table h) (go_on k)) stops

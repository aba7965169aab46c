-- ===== src/Handlers/Optional/Export.antt =====
-- HandleRegisterModuleExport on the command that a client prints.
use mathlib.Core.Path.{subst}
use nxdk_dyndxt.Base.{
  ℕ, suc, ◌+◌, ◌^◌, ◌<◌, ◌≤◌, ◌≡◌, refl, ap, ◌∙◌, Bool, true, some, List, [], ◌∷◌, Bytes, length,
}
use nxdk_dyndxt.Base.Format.{decimal}
use nxdk_dyndxt.Pool.{Ptr, Text, Slots, Heap, Allocator, ok, c_string}
use nxdk_dyndxt.Pool.Alloc.{NeverRefuses}
use nxdk_dyndxt.Response.{def_success}
use nxdk_dyndxt.Command
use nxdk_dyndxt.Command.{CommandParameters}
use nxdk_dyndxt.Command.Errors.{codes}
use nxdk_dyndxt.Command.Frame.Parse.{parse_into-Kept}
use nxdk_dyndxt.Command.Parse.Refines.{parse_into-Parsed}
use nxdk_dyndxt.Command.Parse.Print.{print, ArePrintable, read_text-print}
use nxdk_dyndxt.Command.Storage.Holds.{Entry, Pair}
use nxdk_dyndxt.Command.Storage.Reserve.{nulls}
use nxdk_dyndxt.Command.Query.Lookup.{value_of, Answers, get_string-value_of}
use nxdk_dyndxt.Command.Numbers.Decimal.{got_number}
use nxdk_dyndxt.Registry.Chains.{Export, Module}
use nxdk_dyndxt.Registry.Model.{register}
use nxdk_dyndxt.Registry.Owns.{name_at, Item, export_of, name_block, name_block-IsContext}
use nxdk_dyndxt.Registry.Owns.Session.{Registered}
use nxdk_dyndxt.Handlers
use nxdk_dyndxt.Handlers.{k_tag, World, done}
use nxdk_dyndxt.Handlers.Exports.Registered.{copy_of}
use nxdk_dyndxt.Handlers.Optional.{register_copies, handle_register_module_export}
use nxdk_dyndxt.Handlers.Optional.Stage.{
  Stage, given, IsShort, Stage-copy, Stage-save, Stage-delete,
}
use nxdk_dyndxt.Handlers.Optional.Steps.{
  parsed_parameters, register_saved-Registered, handle_run, copies_run,
}

-- The module and the export that a command stands for
abbrev pub command_export : List Pair → (ordinal address : ℕ) → Export
command_export kvs ordinal address = record {
  ordinal = ordinal;
  method_name = given (value_of (codes "name") kvs);
  alias = given (value_of (codes "alias") kvs);
  address = address;
}

module _ (a : Allocator) (f k : ℕ) (h₀ : Heap) (export_table : Ptr) (ms : List Module)
    (kvs : List Pair) (module_name : Bytes) (ordinal address response_len : ℕ)
    (full : NeverRefuses a k_tag) (full_registry : NeverRefuses a nxdk_dyndxt.Registry.k_tag)
    (module_short : length (c_string module_name) + 1 < 2 ^ 32)
    (name_short : IsShort (value_of (codes "name") kvs))
    (alias_short : IsShort (value_of (codes "alias") kvs)) (le : k ≤ f) where
  -- What HandleRegisterModuleExport leaves
  abbrev pub Exported : Handlers.Run (ℕ × Ptr) → Type 0
  Exported run =
      (v : World) × (p' : Ptr) × (run ≡ done (def_success 0, p') v)
      × Registered h₀ [] (suc k)
          (register (c_string module_name) (command_export kvs ordinal address) ms) v.heap p'

  register_copies-Exported :
      (w : World) (w₀ : Heap) (cp : CommandParameters) (es : List Entry) (kt vt : Slots)
      (module_at export_at alias_at : Ptr) (export_found alias_found : Bool)
      → cp.entries ≡ length es
      → Stage w₀ cp es kt vt h₀ k ms export_table [] w.heap
      → Answers w.heap (some (some module_name)) (true, module_at)
      → Answers w.heap (value_of (codes "name") kvs) (export_found, export_at)
      → Answers w.heap (value_of (codes "alias") kvs) (alias_found, alias_at)
      → Exported (
          register_copies a f export_table cp module_at export_found export_at alias_found alias_at
            ordinal address response_len w)
  register_copies-Exported w w₀ cp es kt vt m_at n_at a_at n_found a_found entries st
        (_, _, (t, there, text)) n_answers a_answers =
      let (q, h₂, copy_run, ne, st₂, keeps₂) =
        Stage-copy w₀ cp es kt vt h₀ k ms export_table a module_name t m_at w.heap (λ bs. bs) []
          (λ bs. refl) full module_short there text st in
      let saved : List (Ptr × Text) = (q, copy_of (c_string module_name)) ∷ [] in
      let (name, h₃, name_run, name_text, st₃, keeps₃) =
        Stage-save w₀ cp es kt vt h₀ k ms export_table a (value_of (codes "name") kvs) n_found n_at
          w.heap h₂ (λ bs. bs) saved (λ bs. refl) full name_short n_answers keeps₂ st₂ in
      let (alias, h₄, alias_run, alias_text, st₄, keeps₄) =
        Stage-save w₀ cp es kt vt h₀ k ms export_table a (value_of (codes "alias") kvs) a_found a_at
          w.heap h₃ (name_block name) saved (name_block-IsContext name) full alias_short a_answers
          keeps₃ st₃ in
      let (h₅, delete_run, r₅) =
        Stage-delete w₀ cp es kt vt h₀ k ms export_table (name_block name (name_block alias saved))
          h₄ entries st₄ in
      let new : Item = record {
        ordinal = ordinal;
        method_name = name;
        alias = alias;
        address = address;
      } in
      let (v, p', run, r') =
        register_saved-Registered a f k h₀ export_table q module_name new ms response_len
          (record w { heap = h₅ }) full_registry module_short le r₅ in
      let same : export_of new ≡ command_export kvs ordinal address =
        rw (name_text, alias_text) refl in
      (
        v,
        p',
        copies_run a f export_table cp _ m_at n_at a_at q (name_at name) (name_at alias) n_found
              a_found ordinal address response_len w h₂ h₃ h₄ h₅ copy_run ne name_run alias_run
              delete_run
            ∙ run,
        subst (λ x. Registered h₀ [] (suc k) (register (c_string module_name) x ms) v.heap p') same
            r',
      )

  -- For printable parameters with a first value of `module`, the decimal texts of numbers below
  -- 2 ^ 32 as the first values of `ordinal` and `addr`, a printed text shorter than 2 ^ 28
  -- characters, names whose sizes fit 32 bits, an allocator that never refuses, and a registry that
  -- owns its blocks on lists that the fuel exceeds: HandleRegisterModuleExport on the print returns
  -- XBOX_S_OK, and leaves a registry that owns its blocks and has the export in this module, with
  -- the name and the alias where they have a value; the parameters and the copy of the module's name
  -- are freed.
  pub handle_register_module_export-Exported :
      (w : World)
      → NeverRefuses a Command.k_tag
      → ArePrintable kvs
      → length (print kvs) < 2 ^ 28
      → value_of (codes "module") kvs ≡ some (some module_name)
      → value_of (codes "ordinal") kvs ≡ some (some (decimal 10 ordinal))
      → value_of (codes "addr") kvs ≡ some (some (decimal 10 address))
      → ordinal < 2 ^ 32
      → address < 2 ^ 32
      → Registered h₀ [] k ms w.heap export_table
      → Exported (handle_register_module_export a f export_table (print kvs) response_len w)
  handle_register_module_export-Exported w full_command printable small module_value ordinal_value
        address_value ordinal_fits address_fits r =
      let P =
        parsed_parameters (codes "module") module_name full_command module_value
          (rw (read_text-print kvs printable) at (parse_into-Parsed a w.heap (print kvs) small))
          (parse_into-Kept a (print kvs) w.heap refl) in
      let got = λ (key : Bytes).
        get_string-value_of (nulls P.room) (nulls P.room) kvs key P.held P.stored in
      let ((m_found, m_at), m_run, m_answers) = got (codes "module") in
      let ((n_found, n_at), n_run, n_answers) = got (codes "name") in
      let ((a_found, a_at), a_run, a_answers) = got (codes "alias") in
      let (o, o_run, o_answers) = got (codes "ordinal") in
      let (d, d_run, d_answers) = got (codes "addr") in
      let first =
        got_number P.h (codes "ordinal") P.cp ordinal o ordinal_fits o_run
          (rw ordinal_value at o_answers) in
      let second =
        got_number P.h (codes "addr") P.cp address d address_fits d_run
          (rw address_value at d_answers) in
      let answers : Answers P.h (some (some module_name)) (m_found, m_at) =
        rw module_value at m_answers in
      let st : Stage w.heap P.cp P.es (nulls P.room) (nulls P.room) h₀ k ms export_table [] P.h =
        record {
          base = w.heap.strings;
          params = P.held.strings;
          arrays = P.held.arrays;
          same_lists = P.same_lists;
          registered = r;
        } in
      let (v, p', run, r') =
        register_copies-Exported (record w { heap = P.h }) w.heap P.cp P.es (nulls P.room)
          (nulls P.room) m_at n_at a_at n_found a_found P.held.entries st
          (refl, answers.1, answers.2) n_answers a_answers in
      (
        v,
        p',
        handle_run a f export_table (print kvs) response_len w P.h P.cp P.n m_at n_at a_at n_found
              a_found ordinal address P.is (m_run ∙ ap (λ b. ok (b, m_at) P.h) answers.0) n_run
              a_run first second
            ∙ run,
        r',
      )

-- ===== src/Handlers/Optional/Tests.antt =====
-- The install and the export command at concrete inputs.
use nxdk_dyndxt.Base.{ℕ, Bytes, replicate, ◌≡◌, refl, some, List, [], ◌∷◌, arith}
use nxdk_dyndxt.Base.Format.{decimal}
use nxdk_dyndxt.Pool.{Ptr, null, same_string, c_string}
use nxdk_dyndxt.Pool.Sample.{ascending, ascending-NeverRefuses, fresh}
use nxdk_dyndxt.Response.{def_success}
use nxdk_dyndxt.Command
use nxdk_dyndxt.Command.Errors.{codes}
use nxdk_dyndxt.Command.Parse.Print.{print, escape}
use nxdk_dyndxt.Command.Storage.Holds.{Pair, Restored}
use nxdk_dyndxt.Loader.Run
use nxdk_dyndxt.Handlers
use nxdk_dyndxt.Handlers.{World, done}
use nxdk_dyndxt.Handlers.Complete.{Platform}
use nxdk_dyndxt.Handlers.Transfer.Upload.{joined, transfer, Received}
use nxdk_dyndxt.Handlers.Optional.{handle_install, process_any_command}
use nxdk_dyndxt.Registry.Model.{register}
use nxdk_dyndxt.Registry.Owns.Session.{Registered, empty-Registered}
use nxdk_dyndxt.Handlers.Optional.{handle_register_module_export}
use nxdk_dyndxt.Handlers.Optional.Export.{command_export, handle_register_module_export-Exported}
use nxdk_dyndxt.Handlers.Optional.Install.{
  receiving, Installs, handle_install-Installs, install_command, enter_installed, install-entered,
}

-- An image of 300 bytes at 4096, with its entry point 64 bytes behind the start
abbrev parameters : List Pair
parameters =
    (codes "base", some (codes "4096"))
    ∷ (codes "length", some (codes "300"))
    ∷ (codes "entrypoint", some (codes "4160"))
    ∷ []

abbrev start : World
start = record {
  heap = fresh;
  live = [];
  calls = 0;
  response = record { size = 257; bytes = [] };
  context = record {
    handler = Handlers.unset;
    data_size = 0;
    buffer = null;
    buffer_size = 0;
    bytes_remaining = 0;
  };
  context_store = Handlers.unwritten;
}

abbrev platform : Platform
platform = record {
  alloc = λ n size. null;
  fresh = λ i. 0;
  callback = λ entry s. Run.returned tt s;
  enter = λ entry w. done tt w;
}

handle_install-Installs_example :
    Installs 4096 300 4160 start (handle_install ascending (print parameters) 256 start)
unfolding escape decimal same_string c_string
handle_install-Installs_example =
    handle_install-Installs ascending parameters 4096 300 4160
      (ascending-NeverRefuses Command.k_tag) (ground arith) (omega arith) refl refl refl
      (omega arith) (omega arith) (omega arith) start 256 (omega arith)

-- A reserved block at 4096
abbrev reserved : World
reserved = record start {
  heap = record fresh { strings = (4096, some (record { size = 300; bytes = [] })) ∷ [] };
}

abbrev code_bytes : ℕ → Bytes
code_bytes n = replicate n 0x90

install-entered_example :
    (v : World) × (u : World) × (process_any_command ascending 9 null
        (install_command parameters)
        256
        reserved
      ≡ done (def_success 4, null) v)
    × Restored reserved.heap v.heap
    × (v.context ≡ receiving 4096 300 start.context)
    × (transfer platform 9 null 4096 256 (code_bytes 100) (code_bytes 150 ∷ code_bytes 50 ∷ []) v
        ≡ enter_installed platform 4096 4160 u)
    × Received 4096 300 (joined (code_bytes 100) (code_bytes 150 ∷ code_bytes 50 ∷ [])) v u
unfolding escape decimal same_string c_string
install-entered_example =
    install-entered platform ascending 9 null parameters 4096 4160 256 300 (code_bytes 100)
      (code_bytes 150 ∷ code_bytes 50 ∷ []) reserved (ascending-NeverRefuses Command.k_tag)
      (ground arith) (omega arith) refl refl refl (omega arith) (omega arith)
      (omega arith, omega arith, omega arith, omega arith) (omega arith, (omega arith, omega arith))
      refl (omega arith) (omega arith)

-- An export with a name and no alias
abbrev export_parameters : List Pair
export_parameters =
    (codes "module", some (codes "a.dll"))
    ∷ (codes "name", some (codes "f@4"))
    ∷ (codes "ordinal", some (codes "7"))
    ∷ (codes "addr", some (codes "4096"))
    ∷ []

handle_register_module_export-Exported_example :
    (v : World) × (p' : Ptr) × (handle_register_module_export ascending 9 null
        (print export_parameters)
        256
        start
      ≡ done (def_success 0, p') v)
    × Registered fresh [] 2
        (register (c_string (codes "a.dll")) (command_export export_parameters 7 4096) [])
        v.heap
        p'
unfolding escape decimal same_string c_string
handle_register_module_export-Exported_example =
    handle_register_module_export-Exported ascending 9 1 fresh null [] export_parameters
      (codes "a.dll") 7 4096 256 (ascending-NeverRefuses Handlers.k_tag)
      (ascending-NeverRefuses nxdk_dyndxt.Registry.k_tag) (omega arith) (omega arith) tt
      (omega arith) start (ascending-NeverRefuses Command.k_tag) (ground arith) (omega arith) refl
      refl refl (omega arith) (omega arith) (empty-Registered fresh)

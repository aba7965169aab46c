-- ===== src/Registry/Owns/Tests.antt =====
-- The registrations of src/module_registry.c and its reset at concrete lists.
use nxdk_dyndxt.Base.{
  ℕ, ◌≡◌, refl, Bool, true, ◌&&◌, none, some, List, [], ◌∷◌, arith, ◌==◌, if◌then◌else◌,
}
use nxdk_dyndxt.Pool.{null, Heap, ok, same_string, c_string, ◌>>=◌}
use nxdk_dyndxt.Pool.Owned.{Owned-cons}
use nxdk_dyndxt.Pool.Context.{Owned-in}
use nxdk_dyndxt.Pool.Sample.{ascending, ascending-NeverRefuses, fresh}
use nxdk_dyndxt.Command.Errors.{codes}
use nxdk_dyndxt.Registry.{k_tag, get_method_by_ordinal}
use nxdk_dyndxt.Registry.Update.{register_method, reset_registry}
use nxdk_dyndxt.Registry.Model.{register}
use nxdk_dyndxt.Registry.Tests.{sample}
use nxdk_dyndxt.Registry.Owns.{
  Item, Table, Owns, AllRestored, item_names, entry_of, export_of, modules_of, all_names,
  all_names-IsContext,
}
use nxdk_dyndxt.Registry.Owns.Reset.{reset_registry-AllRestored}
use nxdk_dyndxt.Registry.Owns.Register.{Registers, register_method-register}
use nxdk_dyndxt.Registry.Owns.Lookup.{get_method_by_ordinal-register_method}

-- The lists of `sample`, with their blocks
abbrev tables : List Table
tables =
    record {
      place = 20;
      name = (10, record { size = 9; bytes = codes "xbdm.dll\0" });
      nodes =
          record {
            place = 30;
            item = record {
              ordinal = 30;
              method_name = some (12, record { size = 6; bytes = codes "Reg@8\0" });
              alias = some (13, record { size = 4; bytes = codes "Reg\0" });
              address = 4096;
            };
          }
          ∷ record {
            place = 31;
            item = record { ordinal = 7; method_name = none; alias = none; address = 8192 };
          }
          ∷ [];
    }
    ∷ record {
      place = 21;
      name = (11, record { size = 10; bytes = codes "other.dll\0" });
      nodes =
          record {
            place = 32;
            item = record { ordinal = 30; method_name = none; alias = none; address = 12288 };
          }
          ∷ [];
    }
    ∷ []

sample-Owns : Owns fresh sample 20 [] tables
sample-Owns = record {
  start = refl;
  strings = record { held = ground arith; new = λ p h. refl; same = λ p h. ground arith };
  arrays = λ p. refl;
  nodes = record { held = ground arith; new = λ p h. refl; same = λ p h. ground arith };
  tables = record { held = ground arith; new = λ p h. refl; same = λ p h. ground arith };
}

reset_registry-AllRestored_example :
    (h' : Heap) × (reset_registry 9 20 sample ≡ ok null h') × AllRestored fresh h'
reset_registry-AllRestored_example =
    reset_registry-AllRestored 9 fresh sample 20 tables sample-Owns (omega arith) (ground arith)

-- An export that replaces one, with a string for its name
abbrev item : Item
item = record {
  ordinal = 30;
  method_name = some (14, record { size = 4; bytes = codes "New\0" });
  alias = none;
  address = 16384;
}

abbrev with_name : Heap
with_name = record sample {
  strings = (14, some (record { size = 4; bytes = codes "New\0" })) ∷ sample.strings;
}

with_name-Owns : Owns fresh with_name 20 (item_names item []) tables
with_name-Owns = record {
  start = refl;
  strings =
      Owned-in (all_names tables) (all_names-IsContext tables)
        (14, record { size = 4; bytes = codes "New\0" }) []
        (Owned-cons 14 _ sample-Owns.strings refl (omega arith));
  arrays = λ p. refl;
  nodes = sample-Owns.nodes;
  tables = sample-Owns.tables;
}

register_method-register_example :
    Registers fresh []
      (register_method ascending 9 20 (codes "xbdm.dll") (entry_of item) with_name)
      (register (codes "xbdm.dll") (export_of item) (modules_of tables))
unfolding c_string
register_method-register_example =
    register_method-register ascending 9 (codes "xbdm.dll") fresh with_name 20 item [] tables
      (ascending-NeverRefuses k_tag) (omega arith) with_name-Owns (omega arith) (ground arith)

get_method_by_ordinal-register_method_example :
    (before : Bool × ℕ) × (h' : Heap) × (get_method_by_ordinal 9 20 (codes "other.dll") 30 with_name
      ≡ ok before with_name)
    × ((do
      registered ← register_method ascending 9 20 (codes "xbdm.dll") (entry_of item)
      get_method_by_ordinal 10 registered.1 (codes "other.dll") 30)
          with_name
        ≡ ok
            (if same_string (c_string (codes "xbdm.dll")) (c_string (codes "other.dll"))
                && (30 == 30)
              then (true, 16384)
              else before)
            h')
unfolding c_string
get_method_by_ordinal-register_method_example =
    get_method_by_ordinal-register_method ascending 9 (codes "xbdm.dll") fresh with_name 20 item []
      tables (codes "other.dll") 30 (ascending-NeverRefuses k_tag) (omega arith) with_name-Owns
      (omega arith) (ground arith)

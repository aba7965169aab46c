-- ===== src/Registry/Tests.antt =====
-- The module registry run on small lists, and its theorems at concrete inputs.
use Prim.Native.Char.{code}
use Prim.Native.String.{String}
use nxdk_dyndxt.Base.{ℕ, ◌≡◌, refl, Bool, true, Option, none, some, List, [], ◌∷◌, Bytes, arith}
use nxdk_dyndxt.Pool.{
  Ptr, null, c_string, same_string, alloc_string, write_string, read_string, free_string,
  ModuleExport, Heap, Run, ok, fault, M, pure, ◌>>=◌,
}
use nxdk_dyndxt.Pool.Sample.{ascending, exhausted, fresh}
use nxdk_dyndxt.Pool.Nodes.{
  alloc_table, alloc_node, write_table, read_table, write_node, read_node, free_table, free_node,
}
use nxdk_dyndxt.Registry.{
  find_table, find_ordinal, address_of, count_exports, count_nodes, get_method_by_ordinal,
  get_method_by_name, get_num_registered_modules, get_total_num_exports, enumerate_registry_begin,
}
use nxdk_dyndxt.Registry.Update.{
  register_method, append_export_table, set_export_table_entry, pool_strdup, append_export,
  set_export_entry, last_table, find_slot, free_name, link_export, link_table, replace_entry,
  reset_tables, reset_nodes, reset_registry,
}
use nxdk_dyndxt.Registry.Chains.{Module, IsRegistry}
use nxdk_dyndxt.Registry.Lookup.{
  lookup, has_ordinal, goes_by, get_method_by_ordinal-lookup, get_method_by_name-lookup,
}
use nxdk_dyndxt.Registry.Walk.{enumerate_all, all_visits, counts-length, enumerate_all-all_visits}
use nxdk_dyndxt.Registry.Exhausted.{register_method_refused}

abbrev codes : String → Bytes
codes String.[] = []
codes (String.◌∷◌ c s) = code c ∷ codes s

-- A module with two exports, one of them with a name and an alias.
abbrev xbdm_module : Module
xbdm_module = record {
  name = codes "xbdm.dll";
  exports =
      record {
        ordinal = 30;
        method_name = some (codes "Reg@8");
        alias = some (codes "Reg");
        address = 4096;
      }
      ∷ record { ordinal = 7; method_name = none; alias = none; address = 8192 }
      ∷ [];
}

abbrev modules : List Module
modules =
    xbdm_module
    ∷ record {
      name = codes "other.dll";
      exports = record { ordinal = 30; method_name = none; alias = none; address = 12288 } ∷ [];
    }
    ∷ []

-- A heap that holds them, the first table at 20.
abbrev pub sample : Heap
sample = record {
  strings =
      (10, some (record { size = 9; bytes = codes "xbdm.dll\0" }))
      ∷ (11, some (record { size = 10; bytes = codes "other.dll\0" }))
      ∷ (12, some (record { size = 6; bytes = codes "Reg@8\0" }))
      ∷ (13, some (record { size = 4; bytes = codes "Reg\0" }))
      ∷ [];
  arrays = [];
  nodes =
      (
        30,
        some (record {
          next = 31;
          entry = record { ordinal = 30; method_name = 12; alias = 13; address = 4096 };
        }),
      )
      ∷ (
        31,
        some (record {
          next = null;
          entry = record { ordinal = 7; method_name = null; alias = null; address = 8192 };
        }),
      )
      ∷ (
        32,
        some (record {
          next = null;
          entry = record { ordinal = 30; method_name = null; alias = null; address = 12288 };
        }),
      )
      ∷ [];
  tables =
      (20, some (record { next = 21; module_name = 10; exports = 30 }))
      ∷ (21, some (record { next = null; module_name = 11; exports = 32 }))
      ∷ [];
  calls = 0;
}

sample-IsRegistry : IsRegistry sample 20 modules
unfolding c_string
sample-IsRegistry = (
  ground arith,
  record { next = 21; module_name = 10; exports = 30 },
  refl,
  (
    (record { size = 9; bytes = codes "xbdm.dll\0" }, refl, refl),
    (
      ground arith,
      record {
        next = 31;
        entry = record { ordinal = 30; method_name = 12; alias = 13; address = 4096 };
      },
      refl,
      record {
        ordinal = refl;
        method_name = (ground arith, (record { size = 6; bytes = codes "Reg@8\0" }, refl, refl));
        alias = (ground arith, (record { size = 4; bytes = codes "Reg\0" }, refl, refl));
        address = refl;
      },
      (
        ground arith,
        record {
          next = null;
          entry = record { ordinal = 7; method_name = null; alias = null; address = 8192 };
        },
        refl,
        record { ordinal = refl; method_name = refl; alias = refl; address = refl },
        refl,
      ),
    ),
  ),
  (
    ground arith,
    record { next = null; module_name = 11; exports = 32 },
    refl,
    (
      (record { size = 10; bytes = codes "other.dll\0" }, refl, refl),
      (
        ground arith,
        record {
          next = null;
          entry = record { ordinal = 30; method_name = null; alias = null; address = 12288 };
        },
        refl,
        record { ordinal = refl; method_name = refl; alias = refl; address = refl },
        refl,
      ),
    ),
    refl,
  ),
)

get_method_by_ordinal-lookup_example :
    get_method_by_ordinal 9 20 (codes "other.dll") 30 sample
    ≡ ok (lookup (codes "other.dll") (has_ordinal 30) modules) sample
get_method_by_ordinal-lookup_example =
    get_method_by_ordinal-lookup 9 sample 20 modules (codes "other.dll") 30 sample-IsRegistry
      (omega arith) (ground arith)

get_method_by_name-lookup_example :
    get_method_by_name 9 20 (codes "xbdm.dll") (codes "Reg") sample
    ≡ ok (lookup (codes "xbdm.dll") (goes_by (codes "Reg")) modules) sample
get_method_by_name-lookup_example =
    get_method_by_name-lookup 9 sample 20 modules (codes "xbdm.dll") (codes "Reg") sample-IsRegistry
      (omega arith) (ground arith)

counts-length_example :
    (get_num_registered_modules 9 20 sample ≡ ok 2 sample)
    × (get_total_num_exports 9 20 sample ≡ ok 3 sample)
counts-length_example =
    counts-length 9 sample 20 modules sample-IsRegistry (omega arith) (ground arith) (omega arith)
      (omega arith)

enumerate_all-all_visits_example :
    (enumerate_registry_begin 20 >>= enumerate_all 9) sample ≡ ok (all_visits modules) sample
enumerate_all-all_visits_example =
    enumerate_all-all_visits 9 sample 20 modules sample-IsRegistry (ground arith) (ground arith)
      (omega arith)

abbrev new_export : ModuleExport
new_export = record { ordinal = 31; method_name = null; alias = null; address = 16384 }

register_method_refused_example :
    register_method exhausted 9 20 (codes "xbdm.dll") new_export sample ≡ fault
unfolding c_string same_string
register_method_refused_example =
    register_method_refused exhausted 9 sample 20 modules (codes "xbdm.dll") xbdm_module new_export
      sample-IsRegistry (omega arith) (ground arith) refl refl refl

abbrev result : {A : Type 0} → Run A → Option A
result (ok a h) = some a
result _ = none

-- Two modules, one ordinal registered twice: the second address replaces the first.
abbrev register_three : M (Bool × Ptr)
register_three = do
  (done, t) ← register_method ascending 9 null (codes "a.dll") new_export
  (done', t') ← register_method ascending 9 t (codes "b.dll") new_export
  register_method ascending 9 t' (codes "a.dll")
      (record { ordinal = 31; method_name = null; alias = null; address = 1 })

registered_test :
    result {A = (Bool × ℕ) × ℕ × Ptr} (
      (do
        (done, t) ← register_three
        found ← get_method_by_ordinal 9 t (codes "a.dll") 31
        n ← get_total_num_exports 9 t
        t' ← reset_registry 9 t
        pure (found, n, t'))
        fresh)
    ≡ some ((true, 1), 2, null)
unfolding register_method find_table append_export_table set_export_table_entry pool_strdup c_string
    same_string append_export set_export_entry last_table find_slot free_name link_export link_table
    replace_entry get_method_by_ordinal find_ordinal address_of reset_registry alloc_table
    alloc_node alloc_string write_string read_string write_table read_table write_node read_node
    free_table free_node free_string count_exports count_nodes reset_tables reset_nodes
registered_test = refl

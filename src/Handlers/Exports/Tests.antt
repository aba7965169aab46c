-- ===== src/Handlers/Exports/Tests.antt =====
-- DXTMain with one loaded image.
use nxdk_dyndxt.Base.{ℕ, ◌<◌, ◌≡◌, refl, true, List, [], ◌∷◌, Bytes, arith, ◌==◌, if◌then◌else◌}
use nxdk_dyndxt.Pool.{Ptr, null, Heap, ok, c_string, same_string}
use nxdk_dyndxt.Pool.Sample.{ascending, ascending-NeverRefuses, fresh}
use nxdk_dyndxt.Command.Errors.{codes}
use nxdk_dyndxt.Registry.{get_method_by_ordinal}
use nxdk_dyndxt.Registry.Owns.Session.{Registered}
use nxdk_dyndxt.Handlers.{k_tag}
use nxdk_dyndxt.Handlers.Exports.{
  Function, cp_delete, cp_parse_command_parameters, cp_print_error, cp_has_key, cp_get_string,
  cp_get_uint32, cp_get_int32, mr_register_method, mr_get_method_by_ordinal, mr_get_method_by_name,
  loader_name, exports, dxt_main,
}
use nxdk_dyndxt.Handlers.Exports.Registered.{register_each}
use nxdk_dyndxt.Handlers.Exports.Images.{register_images, AreImages, dxt_main-Registered}
use nxdk_dyndxt.Handlers.Exports.Found.{dxt_main-finds_function, dxt_main-finds_own}

-- An image at 64, with its header at 128, its directory at 192 and two functions at 240; the
-- ordinals start at 5
abbrev memory : ℕ → ℕ
memory q =
    if q == 64
    then 0x4D
    else if q == 65
    then 0x5A
    else if q == 124
    then 64
    else if q == 128
    then 0x50
    else if q == 129
    then 0x45
    else if q == 248
    then 128
    else if q == 252
    then 1
    else if q == 208
    then 5
    else if q == 212
    then 2
    else if q == 220
    then 176
    else if q == 240
    then 16
    else if q == 244
    then 32
    else 0

abbrev addresses : Function → ℕ
addresses cp_delete = 0x100
addresses cp_parse_command_parameters = 0x200
addresses cp_print_error = 0x300
addresses cp_has_key = 0x400
addresses cp_get_string = 0x500
addresses cp_get_uint32 = 0x600
addresses cp_get_int32 = 0x700
addresses mr_register_method = 0x800
addresses mr_get_method_by_ordinal = 0x900
addresses mr_get_method_by_name = 0xA00

memory_bytes : (q : ℕ) → memory q < 256
memory_bytes q = ground arith

abbrev modules : List (Bytes × ℕ)
modules = (codes "a.dll", 64) ∷ []

modules-AreImages : AreImages memory modules
unfolding c_string
modules-AreImages = ((refl, refl), omega arith, tt)

dxt_main-Registered_example :
    (h' : Heap) × (p' : Ptr) × (dxt_main ascending 20 memory addresses modules 7 null fresh
      ≡ ok (7, p') h')
    × Registered fresh [] 13
        (register_images memory modules (register_each addresses exports []))
        h'
        p'
dxt_main-Registered_example =
    dxt_main-Registered ascending 20 memory addresses modules 7 fresh (ascending-NeverRefuses k_tag)
      (ascending-NeverRefuses nxdk_dyndxt.Registry.k_tag) modules-AreImages (omega arith)

dxt_main-finds_function_example :
    (h' : Heap) × (p' : Ptr) × (dxt_main ascending 20 memory addresses modules 7 null fresh
      ≡ ok (7, p') h')
    × (get_method_by_ordinal 20 p' (codes "a.dll") 6 h' ≡ ok (true, 96) h')
dxt_main-finds_function_example =
    dxt_main-finds_function ascending 20 memory addresses [] [] (codes "a.dll") 64 7 1 fresh
      (ascending-NeverRefuses k_tag) (ascending-NeverRefuses nxdk_dyndxt.Registry.k_tag)
      modules-AreImages memory_bytes tt (omega arith) (omega arith) (omega arith)

dxt_main-finds_own_example :
    (h' : Heap) × (p' : Ptr) × (dxt_main ascending 20 memory addresses modules 7 null fresh
      ≡ ok (7, p') h')
    × (get_method_by_ordinal 20 p' loader_name 11 h' ≡ ok (true, 0xA00) h')
unfolding c_string same_string
dxt_main-finds_own_example =
    dxt_main-finds_own ascending 20 memory addresses modules 7 11 fresh
      (ascending-NeverRefuses k_tag) (ascending-NeverRefuses nxdk_dyndxt.Registry.k_tag)
      modules-AreImages (refl, tt) (omega arith)

-- ===== src/Handlers/Exports/Found.antt =====
-- What MRGetMethodByOrdinal finds after DXTMain has filled the registry.
use nxdk_dyndxt.Base.{
  ℕ, ◌+◌, ◌*◌, ◌%◌, ◌^◌, ◌<◌, ◌≤◌, ◌≡◌, ◌≢◌, ap, ◌∙◌, Bool, true, false, Option, none, some, ◌==◌,
  List, [], ◌∷◌, ◌++◌, Bytes, arith, if◌then◌else◌, ≢→==,
}
use nxdk_dyndxt.Pool.{Ptr, null, Heap, Allocator, ok, c_string, same_string}
use nxdk_dyndxt.Pool.Alloc.{NeverRefuses}
use nxdk_dyndxt.Loader.Run.{word32}
use nxdk_dyndxt.Registry.{get_method_by_ordinal}
use nxdk_dyndxt.Registry.Chains.{Module}
use nxdk_dyndxt.Registry.Lookup.{lookup, has_ordinal}
use nxdk_dyndxt.Registry.Owns.Session.{get_method_by_ordinal-Registered}
use nxdk_dyndxt.Handlers.{k_tag}
use nxdk_dyndxt.Handlers.Exports.{
  Function, cp_delete, cp_parse_command_parameters, cp_print_error, cp_has_key, cp_get_string,
  cp_get_uint32, cp_get_int32, mr_register_method, mr_get_method_by_ordinal, mr_get_method_by_name,
  loader_name, exports, dxt_main,
}
use nxdk_dyndxt.Handlers.Exports.Registered.{register_each}
use nxdk_dyndxt.Handlers.Exports.Images.{
  image_exports, register_list, register_images, count_images, AreImages, dxt_main-Registered,
}
use nxdk_dyndxt.Handlers.Exports.Ordinals.{
  lookup-register_images-other, lookup-function_exports, AreOthers,
}

-- The export directory of an image
abbrev pub directory_of : (ℕ → ℕ) → ℕ → ℕ
directory_of memory base =
    (base + word32 memory ((base + word32 memory (base + 60)) % 2 ^ 32 + 120)) % 2 ^ 32

lookup-register_images :
    (memory : ℕ → ℕ) (pre post : List (Bytes × ℕ)) (name : Bytes) (base o : ℕ) (ms : List Module)
    → AreOthers name post
    → (ms' : List Module) × (lookup name
          (has_ordinal o)
          (register_images memory (pre ++ (name, base) ∷ post) ms)
        ≡ lookup name (has_ordinal o) (register_list name (image_exports memory base) ms'))
lookup-register_images memory [] post name base o ms others = (
  ms,
  lookup-register_images-other memory name o post
      (register_list name (image_exports memory base) ms) others,
)
lookup-register_images memory ((s, b) ∷ pre) post name base o ms others =
    lookup-register_images memory pre post name base o (register_list s (image_exports memory b) ms)
      others

word32_bound : (memory : ℕ → ℕ) → ((q : ℕ) → memory q < 256) → (q : ℕ) → word32 memory q < 2 ^ 32
word32_bound memory bytes q =
    let a = bytes q in
    let b = bytes (q + 1) in let c = bytes (q + 2) in let d = bytes (q + 3) in omega arith

-- Under the conditions of `dxt_main-Registered`, on memory of bytes, after DXTMain MRGetMethodByOrdinal finds every
-- function of a loaded image that has an export directory and whose name no later one has: the
-- `j`th under the directory's ordinal base plus `j`, cut to 32 bits, at the image's base plus the
-- `j`th entry of its array of functions.
pub dxt_main-finds_function :
    (a : Allocator) (f : ℕ) (memory : ℕ → ℕ) (address_of : Function → ℕ)
    (pre post : List (Bytes × ℕ)) (name : Bytes) (base answer j : ℕ) (h : Heap)
    → NeverRefuses a k_tag
    → NeverRefuses a nxdk_dyndxt.Registry.k_tag
    → AreImages memory (pre ++ (name, base) ∷ post)
    → ((q : ℕ) → memory q < 256)
    → AreOthers name post
    → 11 + count_images memory (pre ++ (name, base) ∷ post) ≤ f
    → word32 memory ((base + word32 memory (base + 60)) % 2 ^ 32 + 124) ≢ 0
    → j < word32 memory (directory_of memory base + 20)
    → (h' : Heap) × (p' : Ptr) × (dxt_main a f memory address_of
          (pre ++ (name, base) ∷ post)
          answer
          null
          h
        ≡ ok (answer, p') h')
      × (get_method_by_ordinal f p' name
            ((j + word32 memory (directory_of memory base + 16)) % 2 ^ 32)
            h'
          ≡ ok
              (
                true,
                (word32 memory
                        ((base + word32 memory (directory_of memory base + 28)) % 2 ^ 32 + 4 * j)
                      + base)
                    % 2 ^ 32,
              )
              h')
dxt_main-finds_function a f memory address_of pre post name base answer j h full full_registry
      images bytes others le has_directory l =
    let modules = pre ++ (name, base) ∷ post in
    let directory = directory_of memory base in
    let ms = register_each address_of exports [] in
    let first = word32 memory (directory + 16) in
    let o = (j + first) % 2 ^ 32 in
    let (h', p', run, r) =
      dxt_main-Registered a f memory address_of modules answer h full full_registry images le in
    let (ms', last) = lookup-register_images memory pre post name base o ms others in
    let size = word32_bound memory bytes (directory + 20) in
    let small = word32_bound memory bytes (directory + 16) in
    let entry =
      lookup-function_exports memory name (word32 memory (directory + 20)) 0 base first
        ((base + word32 memory (directory + 28)) % 2 ^ 32) j ms' (omega arith) (omega arith)
        (omega arith) small in
    let listed =
      ≢→== (word32 memory ((base + word32 memory (base + 60)) % 2 ^ 32 + 124)) 0 has_directory in
    (
      h',
      p',
      run,
      get_method_by_ordinal-Registered f _ h h' p' [] _ name o le r
          ∙ ap (λ x. ok x h') (last ∙ rw listed entry),
    )

-- The functions by the ordinals of dynamic_dxt_loader.dll.def
abbrev pub own_function : ℕ → Option Function
own_function o =
    if o == 2
    then some cp_delete
    else if o == 3
    then some cp_parse_command_parameters
    else if o == 4
    then some cp_print_error
    else if o == 5
    then some cp_has_key
    else if o == 6
    then some cp_get_string
    else if o == 7
    then some cp_get_uint32
    else if o == 8
    then some cp_get_int32
    else if o == 9
    then some mr_register_method
    else if o == 10
    then some mr_get_method_by_ordinal
    else if o == 11
    then some mr_get_method_by_name
    else none

abbrev pub found : (Function → ℕ) → Option Function → Bool × ℕ
found address_of none = (false, 0)
found address_of (some function) = (true, address_of function)

-- DXTMain's own exports have the ordinals of that file.
lookup-register_each :
    (address_of : Function → ℕ) (o : ℕ)
    → lookup loader_name (has_ordinal o) (register_each address_of exports [])
      ≡ found address_of (own_function o)
unfolding c_string same_string
lookup-register_each address_of o = ground arith

-- Under the conditions of `dxt_main-Registered`, where no loaded module has the name of the dynamic
-- loader itself, MRGetMethodByOrdinal after DXTMain finds with that name and each of the ordinals 2
-- to 11 the address of the function that dynamic_dxt_loader.dll.def lists with the ordinal, and
-- nothing with that name and any other ordinal.
pub dxt_main-finds_own :
    (a : Allocator) (f : ℕ) (memory : ℕ → ℕ) (address_of : Function → ℕ)
    (modules : List (Bytes × ℕ)) (answer ordinal : ℕ) (h : Heap)
    → NeverRefuses a k_tag
    → NeverRefuses a nxdk_dyndxt.Registry.k_tag
    → AreImages memory modules
    → AreOthers loader_name modules
    → 11 + count_images memory modules ≤ f
    → (h' : Heap) × (p' : Ptr) × (dxt_main a f memory address_of modules answer null h
        ≡ ok (answer, p') h')
      × (get_method_by_ordinal f p' loader_name ordinal h'
          ≡ ok (found address_of (own_function ordinal)) h')
dxt_main-finds_own a f memory address_of modules answer o h full full_registry images others le =
    let ms = register_each address_of exports [] in
    let (h', p', run, r) =
      dxt_main-Registered a f memory address_of modules answer h full full_registry images le in
    (
      h',
      p',
      run,
      get_method_by_ordinal-Registered f _ h h' p' [] _ loader_name o le r
          ∙ ap (λ x. ok x h')
              (lookup-register_images-other memory loader_name o modules ms others
                ∙ lookup-register_each address_of o),
    )

-- ===== src/Loader/Imports.antt =====
-- DLLResolveImports of dll_loader/dll_loader.c, with its error texts. The loops run on fuel; a
-- pointer into the image is its offset.
use nxdk_dyndxt.Base.{
  ℕ, zero, suc, ◌+◌, ◌-◌, ◌%◌, ◌^◌, true, false, Option, none, some, [], ◌∷◌, ◌++◌, Bytes, ◌==◌,
  leb, if◌then◌else◌, length,
}
use nxdk_dyndxt.Base.Format.{decimal}
use nxdk_dyndxt.Loader.Types.{
  Memory, max_error_len, resolve_imports, dll_forwarding_not_supported, unresolved_import,
  DllLoaderInput, Resolution, resolved, not_found, lost, endless,
}
use nxdk_dyndxt.Loader.Run.{
  M, fault, crash, stop, returned, ◌>>=◌, ◌>>◌, pure, get, put, set_error_context, fail, check,
  read_word32, write_word32,
}

-- The string at `a`, with the bytes that are left of the block.
unfoldable pub string_at : (ℕ → ℕ) → ℕ → ℕ → Option Bytes
string_at f zero a = none
string_at f (suc n) a = elim (f a == 0) [
  | true ↦ some []
  | false ↦ elim (string_at f n (a + 1)) [ none ↦ none | some s ↦ some (f a ∷ s) ]
]

-- A string of the image; one without a terminator leaves the image.
unfoldable pub read_string : Memory → ℕ → M Bytes
unfolding string_at
read_string m a s = elim (string_at m.byte (m.size - a) a) [ none ↦ fault | some t ↦ returned t s ]

-- " @ "
abbrev pub at_sign : Bytes
at_sign = b' ' ∷ b'@' ∷ b' ' ∷ []

-- "TOOSMALL"
abbrev pub too_small : Bytes
too_small = b'T' ∷ b'O' ∷ b'O' ∷ b'S' ∷ b'M' ∷ b'A' ∷ b'L' ∷ b'L' ∷ []

-- SET_ERROR_MESSAGE: the text in `error_message` for an announced length
unfoldable pub error_text : ℕ → Bytes → Bytes
error_text len text = if leb max_error_len len then too_small else text

-- The two calls of SET_ERROR_MESSAGE
unfoldable pub ordinal_text : Bytes → ℕ → Bytes
unfolding error_text
ordinal_text image_name ordinal =
    error_text (length image_name + 16) (image_name ++ (at_sign ++ decimal 5 ordinal))

unfoldable pub name_text : Bytes → Bytes → Bytes
unfolding error_text
name_text image_name import_name =
    error_text (length image_name + length import_name + 8) (image_name ++ (at_sign ++ import_name))

-- SET_ERROR_MESSAGE, SET_ERROR_STATUS and `return false`
unfoldable pub unresolved : Bytes → M (Unit {0})
unresolved text = do o ← get; put (record o { error_message = text }); fail unresolved_import

-- What follows the call of a resolver, with the text for false
unfoldable pub store_resolution : ℕ → Bytes → Resolution → M (Unit {0})
unfolding unresolved
store_resolution function text (resolved address) = write_word32 function address
store_resolution function text not_found = unresolved text
store_resolution function text lost = crash
store_resolution function text endless = stop

module _ (i : DllLoaderInput) where
  -- The body of the loop over the thunks, for `*thunk`; the resolvers read the image's name
  unfoldable pub resolve_thunk : ℕ → ℕ → ℕ → M (Unit {0})
  unfolding read_string store_resolution
  resolve_thunk name thunk function =
      if leb (2 ^ 31) thunk
      then (do
        let ordinal = thunk % 2 ^ 16
        o ← get
        image_name ← read_string o.memory name
        store_resolution function (ordinal_text image_name ordinal)
            (i.resolve_import_by_ordinal image_name ordinal))
      else (do
        o ← get
        image_name ← read_string o.memory name
        import_name ← read_string o.memory (thunk + 2)
        store_resolution function (name_text image_name import_name)
            (i.resolve_import_by_name image_name import_name))

  -- `for (; *thunk; ++thunk, ++function)`
  unfoldable pub resolve_thunks : ℕ → ℕ → ℕ → ℕ → M (Unit {0})
  resolve_thunks zero name thunk function = stop
  resolve_thunks (suc f) name thunk function = do
    o ← get
    value ← read_word32 o.memory thunk
    if value == 0
        then pure tt
        else do resolve_thunk name value function; resolve_thunks f name (thunk + 4) (function + 4)

  -- The body of the loop over the descriptors, behind the test of `descriptor->Name`
  unfoldable pub resolve_descriptor : ℕ → ℕ → ℕ → M (Unit {0})
  resolve_descriptor f descriptor name = do
    o ← get
    forwarder_chain ← read_word32 o.memory (descriptor + 8)
    check (forwarder_chain == 0) dll_forwarding_not_supported
    function ← read_word32 o.memory (descriptor + 16)
    original_first_thunk ← read_word32 o.memory descriptor
    resolve_thunks f name (if original_first_thunk == 0 then function else original_first_thunk)
        function

  -- `for (; descriptor->Name; ++descriptor)`
  unfoldable pub resolve_descriptors : ℕ → ℕ → ℕ → M (Unit {0})
  resolve_descriptors zero inner descriptor = stop
  resolve_descriptors (suc f) inner descriptor = do
    o ← get
    name ← read_word32 o.memory (descriptor + 12)
    if name == 0 then pure tt else do
      resolve_descriptor inner descriptor name
      resolve_descriptors f inner (descriptor + 20)

  -- DLLResolveImports
  unfoldable pub dll_resolve_imports : ℕ → M (Unit {0})
  dll_resolve_imports f = do
    set_error_context resolve_imports
    o ← get
    if o.header.import_directory.size == 0
        then pure tt
        else resolve_descriptors f f o.header.import_directory.virtual_address

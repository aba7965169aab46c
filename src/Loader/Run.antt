-- ===== src/Loader/Run.antt =====
-- Runs of the loader: a function of dll_loader/dll_loader.c returns true (`returned`, with what it
-- leaves in its variables) or false (`failed`), leaves its memory, or is cut off.
use nxdk_dyndxt.Base.{
  ℕ, ◌+◌, ◌-◌, ◌*◌, ◌%◌, ◌/◌, Bool, false, ◌||◌, List, [], ◌∷◌, ◌==◌, ltb, leb, if◌then◌else◌,
}
use nxdk_dyndxt.Pool.{Ptr, null}
use nxdk_dyndxt.Loader.Types.{
  Memory, DllLoaderContext, DllLoaderStatus, DllLoaderInput, DllLoaderOutput, State,
}

pub data Run (A : Type 0) : Type 0 where
  returned : A → State → Run A
  failed : State → Run A
  fault : Run A
  out_of_fuel : Run A

abbrev pub M : Type 0 → Type 0
M A = State → Run A

abbrev pub and_then : {A B : Type 0} → Run A → (A → M B) → Run B
and_then (returned a s) f = f a s
and_then (failed s) f = failed s
and_then fault f = fault
and_then out_of_fuel f = out_of_fuel

infixl 5 ◌>>=◌ ◌>>◌
abbrev pub ◌>>=◌ : {A B : Type 0} → M A → (A → M B) → M B
◌>>=◌ m f s = and_then (m s) f

abbrev pub ◌>>◌ : {B : Type 0} → M (Unit {0}) → M B → M B
m >> k = m >>= λ _. k

abbrev pub pure : {A : Type 0} → A → M A
pure a s = returned a s

abbrev pub crash : {A : Type 0} → M A
crash s = fault

abbrev pub stop : {A : Type 0} → M A
stop s = out_of_fuel

abbrev pub get : M DllLoaderOutput
get s = returned s.output s

abbrev pub put : DllLoaderOutput → M (Unit {0})
put o s = returned tt (record s { output = o })

-- SET_ERROR_CONTEXT
abbrev pub set_error_context : DllLoaderContext → M (Unit {0})
set_error_context c s = returned tt (record s { output = record s.output { context = c } })

-- SET_ERROR_STATUS and `return false`
abbrev pub fail : {A : Type 0} → DllLoaderStatus → M A
fail e s = failed (record s { output = record s.output { status = e } })

-- `if (!test) { SET_ERROR_STATUS(…); return false; }`
abbrev pub check : Bool → DllLoaderStatus → M (Unit {0})
check test e s = if test then returned tt s else fail e s

-- `input.alloc(size)`; `null` is a failure
unfoldable pub alloc : DllLoaderInput → ℕ → M Ptr
alloc i size s =
    let p = i.alloc s.calls size in
    if p == null
    then returned null (record s { calls = s.calls + 1 })
    else returned p (record s { calls = s.calls + 1; live = p ∷ s.live })

abbrev pub remove : Ptr → List Ptr → List Ptr
remove p [] = []
remove p (q ∷ qs) = if q == p then qs else q ∷ remove p qs

abbrev pub has : Ptr → List Ptr → Bool
has p [] = false
has p (q ∷ qs) = q == p || has p qs

-- `input.free(p)`: to free what is not allocated is a fault.
unfoldable pub free : Ptr → M (Unit {0})
free p s = if has p s.live then returned tt (record s { live = remove p s.live }) else fault

-- The little-endian numbers at an address
abbrev pub word16 : (ℕ → ℕ) → ℕ → ℕ
word16 f a = f a + 256 * f (a + 1)

abbrev pub word32 : (ℕ → ℕ) → ℕ → ℕ
word32 f a = f a + 256 * f (a + 1) + 65536 * f (a + 2) + 16777216 * f (a + 3)

unfoldable pub read_word16 : Memory → ℕ → M ℕ
read_word16 m a s = if ltb m.size (a + 2) then fault else returned (word16 m.byte a) s

unfoldable pub read_word32 : Memory → ℕ → M ℕ
read_word32 m a s = if ltb m.size (a + 4) then fault else returned (word32 m.byte a) s

abbrev pub put_word32 : (ℕ → ℕ) → ℕ → ℕ → ℕ → ℕ
put_word32 f a w i =
    if i == a
    then w % 256
    else if i == a + 1
    then w / 256 % 256
    else if i == a + 2
    then w / 65536 % 256
    else if i == a + 3
    then w / 16777216 % 256
    else f i

-- `*(uint32_t *)(output.image + a) = w`
unfoldable pub write_word32 : ℕ → ℕ → M (Unit {0})
write_word32 a w s =
    let m = s.output.memory in
    if ltb m.size (a + 4)
    then fault
    else returned tt (record s {
      output = record s.output { memory = record { size = m.size; byte = put_word32 m.byte a w } };
    })

abbrev pub put_bytes : (ℕ → ℕ) → ℕ → (ℕ → ℕ) → ℕ → ℕ → ℕ → ℕ
put_bytes f dst g src n i =
    if leb dst i then (if ltb i (dst + n) then g (src + (i - dst)) else f i) else f i

-- `memcpy(output.image + dst, m + src, n)`
unfoldable pub copy_to_image : ℕ → Memory → ℕ → ℕ → M (Unit {0})
copy_to_image dst m src n s =
    let image = s.output.memory in
    if ltb m.size (src + n) || ltb image.size (dst + n)
    then fault
    else returned tt (record s {
      output = record s.output {
        memory = record { size = image.size; byte = put_bytes image.byte dst m.byte src n };
      };
    })

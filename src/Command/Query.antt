-- ===== src/Command/Query.antt =====
-- CPHasKey and CPGetString of src/command_processor_util.c. A `const char *` argument is its
-- characters, and `none` is NULL.
pub mod Lookup
use nxdk_dyndxt.Base.{
  ℕ, zero, suc, ◌+◌, Bool, true, false, not, Option, none, some, Bytes, ◌==◌, if◌then◌else◌,
}
use nxdk_dyndxt.Pool.{Ptr, null, M, pure, ◌>>=◌, c_string, same_string, read_string, read_slot}
use nxdk_dyndxt.Command.{CommandParameters}

-- The loop of CPHasKey, with the rounds that are left.
unfoldable pub has_key_loop : ℕ → ℕ → Bytes → CommandParameters → M Bool
has_key_loop zero i key cp = pure false
has_key_loop (suc n) i key cp = do
  p ← read_slot cp.keys i
  s ← read_string p
  if same_string s (c_string key) then pure true else has_key_loop n (i + 1) key cp

-- CPHasKey
unfoldable pub has_key : Option Bytes → Option CommandParameters → M Bool
unfolding has_key_loop
has_key (some key) (some cp) = has_key_loop cp.entries 0 key cp
has_key _ _ = pure false

-- The loop of CPGetString: what it returns, and `*result`.
unfoldable pub get_string_loop : ℕ → ℕ → Bytes → CommandParameters → M (Bool × Ptr)
get_string_loop zero i key cp = pure (false, null)
get_string_loop (suc n) i key cp = do
  p ← read_slot cp.keys i
  s ← read_string p
  if same_string s (c_string key)
      then (do v ← read_slot cp.values i; pure (not (v == null), v))
      else get_string_loop n (i + 1) key cp

-- CPGetString behind the test of `result`
unfoldable pub get_string : Option Bytes → Option CommandParameters → M (Bool × Ptr)
unfolding get_string_loop
get_string (some key) (some cp) = get_string_loop cp.entries 0 key cp
get_string _ _ = pure (false, null)

-- ===== src/Base/Format.antt =====
-- The text of a number, as printf's `%d` and `%X` and a client write it.
use Prim.Native.Nat.{ℕ, zero, suc, ◌+◌, ◌-◌, ◌/◌, ◌%◌, ◌≤◌}
use mathlib.Core.Logic.{inl, inr}
use mathlib.Core.List.{[], ◌∷◌, ◌++◌}
use native.Mathlib.Omega.{arith}
use nxdk_dyndxt.Base.Tests.{ltb, if◌then◌else◌, Bool-cases}
use nxdk_dyndxt.Base.Lists.{Bytes, length, length-append}

-- `%d`, of a number below 10 ^ n
unfoldable pub decimal : ℕ → ℕ → Bytes
decimal zero k = []
decimal (suc n) k = (if ltb k 10 then [] else decimal n (k / 10)) ++ (b'0' + k % 10) ∷ []

-- `%d` takes no more digits than the number may have.
pub length-decimal : (n k : ℕ) → length (decimal n k) ≤ n
unfolding decimal
length-decimal zero k = omega arith
length-decimal (suc n) k = elim (Bool-cases (ltb k 10)) [
  | inl y ↦ rw y (omega arith)
  | inr y ↦
      rw y
        (omega (arith, length-decimal n (k / 10), length-append {0} (decimal n (k / 10)) (_ ∷ [])))
]

-- `%X`, of a number below 16 ^ n
unfoldable pub hexadecimal : ℕ → ℕ → Bytes
hexadecimal zero k = []
hexadecimal (suc n) k =
    (if ltb k 16 then [] else hexadecimal n (k / 16))
    ++ (if ltb (k % 16) 10 then b'0' + k % 16 else b'A' + (k % 16 - 10)) ∷ []

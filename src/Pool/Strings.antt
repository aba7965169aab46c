-- ===== src/Pool/Strings.antt =====
-- Strings up to their terminators, and `strcmp` as src/module_registry.c and
-- src/command_processor_util.c use it.
use nxdk_dyndxt.Base.{
  ◌≡◌, refl, inl, inr, true, ◌++◌, [], ◌∷◌, Bytes, arith, ◌==◌, ==→≡, Bool-cases,
}
use nxdk_dyndxt.Pool.{c_string, same_string}

pub c_string-terminated : (s : Bytes) → c_string (s ++ 0 ∷ []) ≡ c_string s
unfolding c_string
c_string-terminated [] = refl
c_string-terminated (c ∷ s) = ground (arith, c_string-terminated s)

-- `strcmp` finds no difference between equal strings only.
pub same_string-≡ : (xs ys : Bytes) → same_string xs ys ≡ true → xs ≡ ys
unfolding same_string
same_string-≡ [] [] e = refl
same_string-≡ [] (y ∷ ys) e = absurd (ground arith)
same_string-≡ (x ∷ xs) [] e = absurd (ground arith)
same_string-≡ (x ∷ xs) (y ∷ ys) e = elim (Bool-cases (x == y)) [
  | inl z ↦ rw (==→≡ x y z, same_string-≡ xs ys (rw z at e)) refl
  | inr z ↦ absurd (ground arith)
]

pub same_string_refl : (xs : Bytes) → same_string xs xs ≡ true
unfolding same_string
same_string_refl [] = refl
same_string_refl (x ∷ xs) = ground (arith, same_string_refl xs)

pub c_string_idem : (s : Bytes) → c_string (c_string s) ≡ c_string s
unfolding c_string
c_string_idem [] = refl
c_string_idem (c ∷ s) = ground (arith, c_string_idem s)

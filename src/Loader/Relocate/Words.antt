-- ===== src/Loader/Relocate/Words.antt =====
-- An addition to the words at a list of addresses, as a function on byte contents.
use mathlib.Core.Path.{subst}
use nxdk_dyndxt.Base.{
  ℕ, ◌+◌, ◌*◌, ◌/◌, ◌%◌, ◌^◌, ◌≤◌, ◌<◌, ◌≡◌, refl, ap, ◌∙◌, ◌⊎◌, inl, inr, false, ◌&&◌, List, [],
  ◌∷◌, arith, ◌==◌, ltb, leb, Bool-cases, ==→≡, sym,
}
use nxdk_dyndxt.Loader.Types.{IsBytes}
use nxdk_dyndxt.Loader.Run.{word32, put_word32}

abbrev pub add_word : ℕ → (ℕ → ℕ) → ℕ → ℕ → ℕ
add_word delta f t = put_word32 f t ((word32 f t + delta) % 2 ^ 32)

-- One target after the other
abbrev pub relocated : ℕ → (ℕ → ℕ) → List ℕ → ℕ → ℕ
relocated delta f [] = f
relocated delta f (t ∷ ts) = relocated delta (add_word delta f t) ts

-- The word at `t` does not touch the bytes from `lo` to `hi`.
abbrev pub IsClear : ℕ → ℕ → ℕ → Type 0
IsClear lo hi t = (t + 4 ≤ lo) ⊎ (hi ≤ t)

abbrev pub AreClear : ℕ → ℕ → List ℕ → Type 0
AreClear lo hi [] = Unit
AreClear lo hi (t ∷ ts) = IsClear lo hi t × AreClear lo hi ts

-- No two words overlap.
abbrev pub AreApart : List ℕ → Type 0
AreApart [] = Unit
AreApart (t ∷ ts) = AreClear t (t + 4) ts × AreApart ts

abbrev pub IsIn : ℕ → List ℕ → Type 0
IsIn t [] = ⊥
IsIn t (x ∷ xs) = (t ≡ x) ⊎ IsIn t xs

put_word32_outside : (f : ℕ → ℕ) (t w j : ℕ) → IsClear j (j + 1) t → put_word32 f t w j ≡ f j
put_word32_outside f t w j (inl l) = ground arith
put_word32_outside f t w j (inr l) = ground arith

pub relocated_outside :
    (delta : ℕ) (ts : List ℕ) (f : ℕ → ℕ) (j : ℕ)
    → AreClear j (j + 1) ts
    → relocated delta f ts j ≡ f j
relocated_outside delta [] f j c = refl
relocated_outside delta (t ∷ ts) f j (c, cs) =
    relocated_outside delta ts (add_word delta f t) j cs
    ∙ put_word32_outside f t ((word32 f t + delta) % 2 ^ 32) j c

AreClear-within :
    (ts : List ℕ) (lo hi j : ℕ) → AreClear lo hi ts → lo ≤ j → j < hi → AreClear j (j + 1) ts
AreClear-within [] lo hi j c l l' = tt
AreClear-within (t ∷ ts) lo hi j (inl c, cs) l l' =
    (inl (omega arith), AreClear-within ts lo hi j cs l l')
AreClear-within (t ∷ ts) lo hi j (inr c, cs) l l' =
    (inr (omega arith), AreClear-within ts lo hi j cs l l')

-- What the words leave alone stays.
pub relocated_clear :
    (delta lo hi : ℕ) (ts : List ℕ) (f : ℕ → ℕ) (j : ℕ)
    → AreClear lo hi ts
    → lo ≤ j
    → j < hi
    → relocated delta f ts j ≡ f j
relocated_clear delta lo hi ts f j c l l' =
    relocated_outside delta ts f j (AreClear-within ts lo hi j c l l')

-- The same bytes make the same word.
pub word32_agree :
    (f g : ℕ → ℕ) (t : ℕ) → ((j : ℕ) → t ≤ j → j < t + 4 → g j ≡ f j) → word32 g t ≡ word32 f t
word32_agree f g t h = omega (arith, h t, h (t + 1), h (t + 2), h (t + 3))

put_word32_bytes :
    (f : ℕ → ℕ) (t w : ℕ)
    → (put_word32 f t w t ≡ w % 256)
      × (put_word32 f t w (t + 1) ≡ w / 256 % 256)
      × (put_word32 f t w (t + 2) ≡ w / 65536 % 256)
      × (put_word32 f t w (t + 3) ≡ w / 16777216 % 256)
put_word32_bytes f t w = (ground arith, ground arith, ground arith, ground arith)

word32-put_word32 : (f : ℕ → ℕ) (t w : ℕ) → word32 (put_word32 f t w) t ≡ w % 2 ^ 32
word32-put_word32 f t w =
    let (e, e', e'', e''') = put_word32_bytes f t w in rw (e, e', e'', e''') (digits w)
  where
    digits :
        (w : ℕ)
        → w % 256
            + 256 * (w / 256 % 256)
            + 65536 * (w / 65536 % 256)
            + 16777216 * (w / 16777216 % 256)
          ≡ w % 2 ^ 32
    digits w = omega arith

put_word32_inside :
    (f g : ℕ → ℕ) (t w j : ℕ) → t ≤ j → j < t + 4 → put_word32 f t w j ≡ put_word32 g t w j
put_word32_inside f g t w j l l' = ground arith

-- The digits of a number of four bytes
digits_of :
    (a b c d : ℕ)
    → a < 256
    → b < 256
    → c < 256
    → d < 256
    → let w : ℕ = a + 256 * b + 65536 * c + 16777216 * d in
      (w % 256 ≡ a) × (w / 256 % 256 ≡ b) × (w / 65536 % 256 ≡ c) × (w / 16777216 % 256 ≡ d)
digits_of a b c d la lb lc ld = (omega arith, omega arith, omega arith, omega arith)

put_word32-word32 :
    (f g : ℕ → ℕ) (t j : ℕ) → IsBytes f → t ≤ j → j < t + 4 → put_word32 g t (word32 f t) j ≡ f j
put_word32-word32 f g t j b l l' =
    let (e, e', e'', e''') =
      digits_of (f t) (f (t + 1)) (f (t + 2)) (f (t + 3)) (b t) (b (t + 1)) (b (t + 2))
        (b (t + 3)) in
    let (p, p', p'', p''') = put_word32_bytes g t (word32 f t) in
    elim (Bool-cases (j == t)) [
      | inl y ↦ subst (λ k. put_word32 g t (word32 f t) k ≡ f k) (sym (==→≡ j t y)) (p ∙ e)
      | inr y ↦ elim (Bool-cases (j == t + 1)) [
        | inl y' ↦
            subst (λ k. put_word32 g t (word32 f t) k ≡ f k) (sym (==→≡ j (t + 1) y')) (p' ∙ e')
        | inr y' ↦ elim (Bool-cases (j == t + 2)) [
          | inl y'' ↦
              subst (λ k. put_word32 g t (word32 f t) k ≡ f k) (sym (==→≡ j (t + 2) y''))
                (p'' ∙ e'')
          | inr y'' ↦
              let last : j ≡ t + 3 = ground arith in
              subst (λ k. put_word32 g t (word32 f t) k ≡ f k) (sym last) (p''' ∙ e''')
        ]
      ]
    ]

-- An address of the list is clear of what the whole list is clear of.
clear_in : (ts : List ℕ) (x t : ℕ) → AreClear x (x + 4) ts → IsIn t ts → (t + 4 ≤ x) ⊎ (x + 4 ≤ t)
clear_in [] x t c m = absurd m
clear_in (y ∷ ys) x t (c, cs) (inl e) = rw e c
clear_in (y ∷ ys) x t (c, cs) (inr m) = clear_in ys x t cs m

IsClear-byte : (x t k : ℕ) → (t + 4 ≤ x) ⊎ (x + 4 ≤ t) → t ≤ k → k < t + 4 → IsClear k (k + 1) x
IsClear-byte x t k (inl c) l l' = inr (omega arith)
IsClear-byte x t k (inr c) l l' = inl (omega arith)

-- The bytes at a target are those of its sum.
relocated_at :
    (delta : ℕ) (ts : List ℕ) (f : ℕ → ℕ) (t j : ℕ)
    → AreApart ts
    → IsIn t ts
    → t ≤ j
    → j < t + 4
    → relocated delta f ts j ≡ add_word delta f t j
relocated_at delta [] f t j a m l l' = absurd m
relocated_at delta (x ∷ xs) f t j (a, rest) (inl e) l l' =
    rw e (relocated_clear delta x (x + 4) xs (add_word delta f x) j a (omega arith) (omega arith))
relocated_at delta (x ∷ xs) f t j (a, rest) (inr m) l l' =
    let clear = clear_in xs x t a m in
    relocated_at delta xs (add_word delta f x) t j rest m l l'
    ∙ ap (λ w. put_word32 (add_word delta f x) t ((w + delta) % 2 ^ 32) j)
        (word32_agree f (add_word delta f x) t (λ k p q.
          put_word32_outside f x ((word32 f x + delta) % 2 ^ 32) k (IsClear-byte x t k clear p q)))
    ∙ put_word32_inside (add_word delta f x) f t ((word32 f t + delta) % 2 ^ 32) j l l'

-- Each target's word grows by `delta`, as 32 bits.
pub word32-relocated :
    (delta : ℕ) (ts : List ℕ) (f : ℕ → ℕ) (t : ℕ)
    → AreApart ts
    → IsIn t ts
    → word32 (relocated delta f ts) t ≡ (word32 f t + delta) % 2 ^ 32
word32-relocated delta ts f t a m =
    word32_agree (add_word delta f t) (relocated delta f ts) t
      (λ j l l'. relocated_at delta ts f t j a m l l')
    ∙ word32-put_word32 f t ((word32 f t + delta) % 2 ^ 32)
    ∙ mod_mod (word32 f t + delta)
  where
    mod_mod : (n : ℕ) → n % 2 ^ 32 % 2 ^ 32 ≡ n % 2 ^ 32
    mod_mod n = omega arith

-- A byte belongs to a target's word, or is clear of all.
find_target :
    (ts : List ℕ) (j : ℕ) → ((t : ℕ) × IsIn t ts × (t ≤ j) × (j < t + 4)) ⊎ AreClear j (j + 1) ts
find_target [] j = inr tt
find_target (t ∷ ts) j = elim (find_target ts j) [
  | inl (x, m, l, l') ↦ inl (x, inr m, l, l')
  | inr c ↦ elim (Bool-cases (leb t j && ltb j (t + 4))) [
    | inl y ↦ inl (t, inl refl, ground arith, ground arith)
    | inr y ↦ inr (far t j y, c)
  ]
]
  where
    far : (t j : ℕ) → (leb t j && ltb j (t + 4)) ≡ false → IsClear j (j + 1) t
    far t j y = elim (Bool-cases (leb t j)) [
      | inl z ↦ inl (ground arith)
      | inr z ↦ inr (ground arith)
    ]

-- Two additions make one, of a sum of the same 32 bits.
pub relocated-relocated :
    (d d' e : ℕ) (ts : List ℕ) (f : ℕ → ℕ) (j : ℕ)
    → (d + d') % 2 ^ 32 ≡ e % 2 ^ 32
    → AreApart ts
    → relocated d' (relocated d f ts) ts j ≡ relocated e f ts j
relocated-relocated d d' e ts f j sums a = elim (find_target ts j) [
  | inr c ↦
      relocated_outside d' ts (relocated d f ts) j c
      ∙ relocated_outside d ts f j c
      ∙ sym (relocated_outside e ts f j c)
  | inl (t, m, l, l') ↦
      let g = relocated d f ts in
      let sum : (word32 g t + d') % 2 ^ 32 ≡ (word32 f t + e) % 2 ^ 32 =
        ap (λ w. (w + d') % 2 ^ 32) (word32-relocated d ts f t a m)
        ∙ regroup (word32 f t) d d' e sums in
      relocated_at d' ts g t j a m l l'
      ∙ ap (λ w. put_word32 g t w j) sum
      ∙ put_word32_inside g f t ((word32 f t + e) % 2 ^ 32) j l l'
      ∙ sym (relocated_at e ts f t j a m l l')
]
  where
    regroup :
        (w d d' e : ℕ)
        → (d + d') % 2 ^ 32 ≡ e % 2 ^ 32
        → ((w + d) % 2 ^ 32 + d') % 2 ^ 32 ≡ (w + e) % 2 ^ 32
    regroup w d d' e c = omega arith

-- An addition of nothing changes no byte.
pub relocated-zero :
    (ts : List ℕ) (f : ℕ → ℕ) (j : ℕ) → IsBytes f → AreApart ts → relocated 0 f ts j ≡ f j
relocated-zero ts f j b a = elim (find_target ts j) [
  | inr c ↦ relocated_outside 0 ts f j c
  | inl (t, m, l, l') ↦
      let small : word32 f t < 2 ^ 32 = omega (arith, b t, b (t + 1), b (t + 2), b (t + 3)) in
      let sum : (word32 f t + 0) % 2 ^ 32 ≡ word32 f t = same (word32 f t) small in
      relocated_at 0 ts f t j a m l l'
      ∙ ap (λ w. put_word32 f t w j) sum
      ∙ put_word32-word32 f f t j b l l'
]
  where
    same : (w : ℕ) → w < 2 ^ 32 → (w + 0) % 2 ^ 32 ≡ w
    same w l = omega arith

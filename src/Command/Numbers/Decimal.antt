-- ===== src/Command/Numbers/Decimal.antt =====
-- strtoul on decimal texts, and CPGetUInt32 on a number that a client has printed.
use nxdk_dyndxt.Base.{
  ℕ, zero, suc, ◌+◌, ◌*◌, ◌/◌, ◌%◌, ◌^◌, ◌≤◌, ◌<◌, ◌≡◌, ◌≢◌, refl, ap, ◌∙◌, inl, inr, Bool, true,
  false, some, List, [], ◌∷◌, ◌++◌, Bytes, arith, ◌==◌, ltb, leb, Bool-cases, ==→≡, lt→ltb,
  if◌then◌else◌, pos, length, length-append,
}
use nxdk_dyndxt.Base.Format.{decimal}
use nxdk_dyndxt.Pool.{Heap, Allocator, Ptr, ok, c_string}
use nxdk_dyndxt.Pool.Alloc.{NeverRefuses}
use nxdk_dyndxt.Command.{CommandParameters, k_tag}
use nxdk_dyndxt.Command.Storage.Holds.{Pair}
use nxdk_dyndxt.Command.Parse.{parse_into}
use nxdk_dyndxt.Command.Parse.Print.{print, ArePrintable}
use nxdk_dyndxt.Command.Query.Lookup.{value_of, Answers, read_string-at}
use nxdk_dyndxt.Command.Query.{get_string}
use nxdk_dyndxt.Command.Session.{parse_into-print}
use nxdk_dyndxt.Command.Numbers.{
  is_space, is_negative, skip_spaces, digit_value, scan_digits, char_at, scan_number, strtoul,
  accept, get_uint32,
}

scan_digits-append :
    (acc v c : ℕ) (xs : Bytes)
    → scan_digits 10 acc xs ≡ (v, [])
    → digit_value c < 10
    → scan_digits 10 acc (xs ++ c ∷ []) ≡ (v * 10 + digit_value c, [])
unfolding scan_digits
scan_digits-append acc v c [] e l =
    let digit : ltb (digit_value c) 10 ≡ true = lt→ltb _ _ l in
    let same : acc ≡ v = ap (λ (p : ℕ × Bytes). p.0) e in
    rw digit (ap (λ k. (k * 10 + digit_value c, [])) same)
scan_digits-append acc v c (x ∷ xs) e l = elim (Bool-cases (ltb (digit_value x) 10)) [
  | inl y ↦ rw y (scan_digits-append (acc * 10 + digit_value x) v c xs (rw y at e) l)
  | inr y ↦
      let bad : ◌≡◌ {A = ℕ × Bytes} (acc, x ∷ xs) (v, []) = rw y at e in
      absurd (cons_ne (ap (λ (p : ℕ × Bytes). p.1) bad))
]
  where
    cons_ne : {x : ℕ} {xs : Bytes} → x ∷ xs ≢ []
    cons_ne e = cc

-- 10 ^ f
abbrev pow10 : ℕ → ℕ
pow10 zero = 1
pow10 (suc f) = 10 * pow10 f

last_digit : (n : ℕ) → digit_value (b'0' + n % 10) ≡ n % 10
last_digit n = ground arith

one_digit : (d n : ℕ) → d ≡ n % 10 → n < 10 → 0 * 10 + d ≡ n
one_digit d n e l = omega arith

one_more_digit : (d n : ℕ) → d ≡ n % 10 → n / 10 * 10 + d ≡ n
one_more_digit d n e = omega arith

scan_digits_last : (n : ℕ) → n < 10 → scan_digits 10 0 ([] ++ (b'0' + n % 10) ∷ []) ≡ (n, [])
unfolding scan_digits
scan_digits_last n l =
    scan_digits-append 0 0 (b'0' + n % 10) [] refl (omega (arith, last_digit n))
    ∙ ap (λ k. (k, [])) (one_digit (digit_value (b'0' + n % 10)) n (last_digit n) l)

-- The digits make the number again.
scan_digits-decimal : (f n : ℕ) → n < pow10 (suc f) → scan_digits 10 0 (decimal (suc f) n) ≡ (n, [])
unfolding decimal
scan_digits-decimal zero n l =
    let y : ltb n 10 ≡ true = lt→ltb n 10 l in rw y (scan_digits_last n l)
scan_digits-decimal (suc f) n l = elim (Bool-cases (ltb n 10)) [
  | inl y ↦ rw y (scan_digits_last n (ground arith))
  | inr y ↦ rw y (
      scan_digits-append 0 (n / 10) (b'0' + n % 10) (decimal (suc f) (n / 10))
        (scan_digits-decimal f (n / 10) (omega arith)) (omega (arith, last_digit n))
      ∙ ap (λ k. (k, [])) (one_more_digit (digit_value (b'0' + n % 10)) n (last_digit n)))
]

char_at-append : (xs ys : Bytes) → 0 < char_at xs 0 → char_at (xs ++ ys) 0 ≡ char_at xs 0
char_at-append [] ys l = absurd (omega arith)
char_at-append (x ∷ xs) ys l = refl

-- The first digit of a number that is not 0
first_digit :
    (f n : ℕ)
    → 0 < n
    → n < pow10 (suc f)
    → (b'0' < char_at (decimal (suc f) n) 0) × (char_at (decimal (suc f) n) 0 ≤ b'9')
unfolding decimal
first_digit zero n p l = let y : ltb n 10 ≡ true = lt→ltb n 10 l in rw y (omega arith, omega arith)
first_digit (suc f) n p l = elim (Bool-cases (ltb n 10)) [
  | inl y ↦ let small : n < 10 = ground arith in rw y (omega arith, omega arith)
  | inr y ↦
      let large : 10 ≤ n = ground arith in
      let (low, high) = first_digit f (n / 10) (omega arith) (omega arith) in
      let same = char_at-append (decimal (suc f) (n / 10)) ((b'0' + n % 10) ∷ []) (omega arith) in
      rw (y, same) (low, high)
]

skip_spaces_none : (s : Bytes) → is_space (char_at s 0) ≡ false → skip_spaces s ≡ s
unfolding skip_spaces
skip_spaces_none [] e = refl
skip_spaces_none (c ∷ s) e = rw e refl

-- strtoul of a text that starts with a digit other than 0, and is a number in base 10
strtoul_decimal :
    (s : Bytes) (n : ℕ)
    → b'0' < char_at s 0
    → char_at s 0 ≤ b'9'
    → scan_digits 10 0 s ≡ (n, [])
    → n < 2 ^ 32
    → strtoul s ≡ (n, [])
unfolding strtoul scan_number
strtoul_decimal s n low high e l =
    let no_space : is_space (char_at s 0) ≡ false = ground arith in
    let no_minus : (char_at s 0 == b'-') ≡ false = ground arith in
    let no_plus : (char_at s 0 == b'+') ≡ false = ground arith in
    let no_zero : (char_at s 0 == b'0') ≡ false = ground arith in
    let digit : ltb (digit_value (char_at s 0)) 10 ≡ true = ground arith in
    let fits : leb (2 ^ 32) n ≡ false = ground arith in
    let number : scan_number s ≡ some (n, []) = rw (scan_number, no_zero, digit, e) refl in
    let minus : is_negative s ≡ false = no_minus in
    rw
      (
        strtoul,
        skip_spaces_none s no_space,
        no_minus,
        no_plus,
        number,
        fits,
        skip_spaces_none s no_space,
        minus,
      )
      refl

strtoul_zero : strtoul (decimal 10 0) ≡ (0, [])
unfolding strtoul decimal skip_spaces scan_number scan_digits
strtoul_zero = refl

pub c_string-append : (s t : Bytes) → c_string s ≡ s → c_string (s ++ t) ≡ s ++ c_string t
unfolding c_string
c_string-append [] t e = refl
c_string-append (c ∷ s) t e = elim (Bool-cases (c == 0)) [
  | inl y ↦ absurd (nil_ne (rw y at e))
  | inr y ↦
      let same : c_string s ≡ s = ap tail (rw y at e) in
      rw y (ap (λ u. c ∷ u) (c_string-append s t same))
]
  where
    nil_ne : {x : ℕ} {xs : Bytes} → [] ≢ x ∷ xs
    nil_ne e = cc

    tail : Bytes → Bytes
    tail [] = []
    tail (x ∷ xs) = xs

c_string-one : (c : ℕ) → 0 < c → c_string (c ∷ []) ≡ c ∷ []
unfolding c_string
c_string-one c l = let nonzero : (c == 0) ≡ false = ground arith in rw nonzero refl

-- A string of digits holds no NUL.
c_string-decimal : (f n : ℕ) → c_string (decimal f n) ≡ decimal f n
unfolding c_string decimal
c_string-decimal zero n = refl
c_string-decimal (suc f) n = elim (Bool-cases (ltb n 10)) [
  | inl y ↦ rw y (c_string-one (b'0' + n % 10) (omega arith))
  | inr y ↦ rw y (
      c_string-append (decimal f (n / 10)) _ (c_string-decimal f (n / 10))
      ∙ ap (λ u. decimal f (n / 10) ++ u) (c_string-one (b'0' + n % 10) (omega arith)))
]

strtoul-decimal : (n : ℕ) → n < 2 ^ 32 → strtoul (decimal 10 n) ≡ (n, [])
strtoul-decimal n l = elim (Bool-cases (n == 0)) [
  | inl y ↦ rw (==→≡ n 0 y) strtoul_zero
  | inr y ↦
      let (low, high) = first_digit 9 n (ground arith) (omega arith) in
      strtoul_decimal (decimal 10 n) n low high (scan_digits-decimal 9 n (omega arith)) l
]

decimal_nonempty : (f n : ℕ) → 0 < length (decimal (suc f) n)
unfolding decimal
decimal_nonempty f n =
    omega (
      arith,
      length-append {0} (if ltb n 10 then [] else decimal f (n / 10)) ((b'0' + n % 10) ∷ []),
    )

scanned_all : (n : ℕ) → n < 2 ^ 32 → accept 0 (decimal 10 n) (strtoul (decimal 10 n)) ≡ (true, n)
scanned_all n l =
    let some_digit : 0 < length (decimal 10 n) = decimal_nonempty 9 n in
    let differs : (0 == length (decimal 10 n)) ≡ false = ground (arith, some_digit) in
    rw (strtoul-decimal n l, differs) refl

pub got_number :
    (h : Heap) (key : Bytes) (cp : CommandParameters) (n : ℕ) (r : Bool × Ptr)
    → n < 2 ^ 32
    → get_string (some key) (some cp) h ≡ ok r h
    → Answers h (some (some (decimal 10 n))) r
    → get_uint32 (some key) (some cp) h ≡ ok (true, n) h
unfolding get_uint32
got_number h key cp n (found, p) l run (is, _, (t, at_p, text)) =
    rw
      (
        run,
        is,
        read_string-at h p t (decimal 10 n) at_p text,
        c_string-decimal 10 n,
        scanned_all n l,
      )
      refl

-- For printable keys and values whose printed text is shorter than 2 ^ 28 characters, an allocator
-- that never refuses, and a key whose first value in the list is the decimal text of a number
-- below 2 ^ 32: the parse of the print returns the number of pairs, and CPGetUInt32 then returns
-- true and this number, and changes nothing.
pub get_uint32-parse_into :
    (a : Allocator) (h₀ : Heap) (kvs : List Pair) (key : Bytes) (n : ℕ)
    → NeverRefuses a k_tag
    → ArePrintable kvs
    → length (print kvs) < 2 ^ 28
    → value_of key kvs ≡ some (some (decimal 10 n))
    → n < 2 ^ 32
    → (cp : CommandParameters) × (h : Heap) × (parse_into a (some (print kvs)) h₀
        ≡ ok (pos (length kvs), cp) h)
      × (get_uint32 (some key) (some cp) h ≡ ok (true, n) h)
get_uint32-parse_into a h₀ kvs key n full printable small value fits =
    let session = parse_into-print a h₀ kvs full printable small in
    let (r, run, answers) = session.got key in
    (
      session.cp,
      session.h,
      session.returned,
      got_number session.h key session.cp n r fits run (rw value at answers),
    )

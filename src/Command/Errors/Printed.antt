-- ===== src/Command/Errors/Printed.antt =====
-- The text that CPPrintError leaves.
use mathlib.Core.List.{append-nil}
use mathlib.Core.Path.{subst}
use nxdk_dyndxt.Base.{
  ℕ, zero, suc, ◌-◌, ◌≤◌, ◌<◌, ◌≡◌, refl, ap, ◌∙◌, inl, inr, Option, some, [], ◌∷◌, ◌++◌, Bytes, ℤ,
  pos, negsuc, arith, ≢→==, Bool-cases, length, length-append, length-replicate, take, drop,
  replicate,
}
use nxdk_dyndxt.Pool.{Text, c_string}
use nxdk_dyndxt.Response.{strncpy}
use nxdk_dyndxt.Response.Truncate.{take_all, store_fits}
use nxdk_dyndxt.Command.Numbers.Decimal.{c_string-append}
use nxdk_dyndxt.Command.Errors.{codes, same_code, error_of, print_error}
use nxdk_dyndxt.Command.{
  pcp_err_invalid_input, pcp_err_out_of_memory, pcp_err_invalid_key,
  pcp_err_unterminated_quoted_key, pcp_err_unterminated_escape,
}

-- Every text is at most 40 characters long, and holds no NUL.
error_of_fits :
    (code : ℤ) → (length (error_of code).0 ≤ 40) × (c_string (error_of code).0 ≡ (error_of code).0)
unfolding error_of c_string
error_of_fits code = elim (Bool-cases (same_code code pcp_err_invalid_input)) [
  | inl y ↦ rw y (omega arith, refl)
  | inr n ↦ elim (Bool-cases (same_code code pcp_err_out_of_memory)) [
    | inl y ↦ rw (n, y) (omega arith, refl)
    | inr n' ↦ elim (Bool-cases (same_code code pcp_err_invalid_key)) [
      | inl y ↦ rw (n, n', y) (omega arith, refl)
      | inr n'' ↦ elim (Bool-cases (same_code code pcp_err_unterminated_quoted_key)) [
        | inl y ↦ rw (n, n', n'', y) (omega arith, refl)
        | inr n''' ↦ elim (Bool-cases (same_code code pcp_err_unterminated_escape)) [
          | inl y ↦ rw (n, n', n'', n''', y) (omega arith, refl)
          | inr z ↦ rw (n, n', n'', n''', z) (omega arith, refl)
        ]
      ]
    ]
  ]
]

length-drop : (n : ℕ) (xs : Bytes) → length (drop n xs) ≡ length xs - n
length-drop zero xs = omega arith
length-drop (suc n) [] = omega arith
length-drop (suc n) (x ∷ xs) = omega (arith, length-drop n xs)

c_string-replicate : (k : ℕ) (rest : Bytes) → 0 < k → c_string (replicate k 0 ++ rest) ≡ []
unfolding c_string
c_string-replicate zero rest l = absurd (omega arith)
c_string-replicate (suc k) rest l = refl

print_error_whole :
    (code : ℤ) (buffer : Text) (buffer_len : ℕ)
    → 40 < buffer_len
    → buffer_len ≤ buffer.size
    → length buffer.bytes ≤ buffer.size
    → (written : Text) × (print_error code buffer buffer_len ≡ some ((error_of code).1, written))
      × (written.size ≡ buffer.size)
      × (c_string written.bytes ≡ (error_of code).0)
unfolding print_error strncpy
print_error_whole code buffer n long room bytes =
    let t = (error_of code).0 in
    let (short, plain) = error_of_fits code in
    let zeros : Bytes = replicate (n - length t) 0 in
    let rest : Bytes = drop n buffer.bytes in
    let whole : take n t ≡ t = take_all n t (omega arith) in
    let fits : length (t ++ (zeros ++ rest)) ≤ buffer.size = omega (
      arith,
      length-append {0} t (zeros ++ rest),
      length-append {0} zeros rest,
      length-replicate {A = ℕ} (n - length t) 0,
      length-drop n buffer.bytes,
    ) in
    let written : Text = record { size = buffer.size; bytes = t ++ (zeros ++ rest) } in
    (
      written,
      rw (plain, whole, store_fits buffer (t ++ (zeros ++ rest)) fits) refl,
      refl,
      c_string-append t (zeros ++ rest) plain
          ∙ ap (λ u. t ++ u) (c_string-replicate (n - length t) rest (omega arith))
          ∙ append-nil t,
    )

-- A run of CPPrintError that returns `result` and leaves the terminated text `t` in the buffer
abbrev pub Prints : Text → Option (ℕ × Text) → Bytes → ℕ → Type 0
Prints buffer run t result =
    (written : Text) × (run ≡ some (result, written))
    × (written.size ≡ buffer.size)
    × (c_string written.bytes ≡ t)

-- What a client is told for each code that the parser returns: the ASCII bytes of the text, and
-- XBOX_E_FAIL (0x82DB0005), XBOX_E_CREATE_FILE_FAILED (0x82DB000D) or XBOX_E_UNEXPECTED
-- (0x82DB0000)
pub data Announces : ℤ → Bytes → ℕ → Type 0 where
  invalid_input : Announces (negsuc 0) (codes "Invalid input") 0x82DB0005
  out_of_memory : Announces (negsuc 1) (codes "Out of memory") 0x82DB000D
  malformed_key : Announces (negsuc 9) (codes "Malformed key") 0x82DB0005
  unterminated_quote : Announces (negsuc 10) (codes "Malformed key (unterminated quote)") 0x82DB0005
  unterminated_escape :
      Announces (negsuc 11) (codes "Malformed key (unterminated escape char)") 0x82DB0005
  unknown_count : (n : ℕ) → Announces (pos n) (codes "UNKNOWN ERROR") 0x82DB0000
  unknown_gap : (n : ℕ) → 1 < n → n < 9 → Announces (negsuc n) (codes "UNKNOWN ERROR") 0x82DB0000
  unknown_rest : (n : ℕ) → 11 < n → Announces (negsuc n) (codes "UNKNOWN ERROR") 0x82DB0000

error_of-Announces :
    (code : ℤ) (t : Bytes) (result : ℕ) → Announces code t result → error_of code ≡ (t, result)
unfolding error_of
error_of-Announces code t result invalid_input = refl
error_of-Announces code t result out_of_memory = refl
error_of-Announces code t result malformed_key = refl
error_of-Announces code t result unterminated_quote = refl
error_of-Announces code t result unterminated_escape = refl
error_of-Announces code t result (unknown_count n) = refl
error_of-Announces code t result (unknown_gap n l l') =
    rw
      (
        ≢→== n 0 (omega arith),
        ≢→== n 1 (omega arith),
        ≢→== n 9 (omega arith),
        ≢→== n 10 (omega arith),
        ≢→== n 11 (omega arith),
      )
      refl
error_of-Announces code t result (unknown_rest n l) =
    rw
      (
        ≢→== n 0 (omega arith),
        ≢→== n 1 (omega arith),
        ≢→== n 9 (omega arith),
        ≢→== n 10 (omega arith),
        ≢→== n 11 (omega arith),
      )
      refl

-- Into a buffer of at least `buffer_len` bytes, where `buffer_len` is more than 40, CPPrintError
-- writes inside the buffer the terminated text that stands for the code in `Announces`, a table by
-- the numbers of the codes, and it returns the result that stands there: "Invalid input" and
-- 0x82DB0005 for -1, "Out of memory" and 0x82DB000D for -2, the three texts of a malformed key and
-- 0x82DB0005 for -10, -11 and -12, and "UNKNOWN ERROR" and 0x82DB0000 for every other number.
pub print_error-Announces :
    (code : ℤ) (t : Bytes) (result : ℕ) (buffer : Text) (buffer_len : ℕ)
    → Announces code t result
    → 40 < buffer_len
    → buffer_len ≤ buffer.size
    → length buffer.bytes ≤ buffer.size
    → Prints buffer (print_error code buffer buffer_len) t result
print_error-Announces code t result buffer buffer_len announced long room bytes =
    subst (λ (x : Bytes × ℕ). Prints buffer (print_error code buffer buffer_len) x.0 x.1)
      (error_of-Announces code t result announced)
      (print_error_whole code buffer buffer_len long room bytes)

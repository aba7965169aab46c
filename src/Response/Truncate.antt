-- ===== src/Response/Truncate.antt =====
-- What SetXBDMError and SetXBDMErrorWithSuffix leave in a buffer, and how far they write.
use mathlib.Core.List.{append-nil, append_assoc}
use nxdk_dyndxt.Base.{
  ℕ, zero, suc, ◌+◌, ◌-◌, ◌%◌, ◌^◌, ◌<◌, ◌≤◌, ◌≡◌, refl, ap, inl, inr, none, some, [], ◌∷◌, ◌++◌,
  Bytes, arith, Bool-cases, ltb, length, take, length-append, take-length-append,
  drop-length-append,
}
use nxdk_dyndxt.Pool.{Text, c_string}
use nxdk_dyndxt.Response.{store, strncat, set_xbdm_error, set_xbdm_error_with_suffix}

take_nil : (n : ℕ) → take {A = ℕ} n [] ≡ []
take_nil zero = refl
take_nil (suc n) = refl

sub_zero : (n : ℕ) → n ≡ n - 0
sub_zero n = omega arith

none_left : (n : ℕ) → 0 - suc n ≡ 0
none_left n = omega arith

one_less : (m n : ℕ) → suc m - suc n ≡ m - n
one_less m n = omega arith

take-append : (n : ℕ) (xs ys : Bytes) → take n (xs ++ ys) ≡ take n xs ++ take (n - length xs) ys
take-append n [] ys = rw (take_nil n) (ap (λ k. take k ys) (sub_zero n))
take-append zero (x ∷ xs) ys = rw (none_left (length xs)) refl
take-append (suc n) (x ∷ xs) ys = rw (one_less n (length xs)) (ap (◌∷◌ x) (take-append n xs ys))

pub take_all : (n : ℕ) (xs : Bytes) → length xs ≤ n → take n xs ≡ xs
take_all zero [] l = refl
take_all zero (x ∷ xs) l = absurd (omega arith)
take_all (suc n) [] l = refl
take_all (suc n) (x ∷ xs) l = ap (◌∷◌ x) (take_all n xs (omega arith))

length-take : (n : ℕ) (xs : Bytes) → length (take n xs) ≤ n
length-take zero xs = omega arith
length-take (suc n) [] = omega arith
length-take (suc n) (x ∷ xs) = ground (arith, length-take n xs)

length-take_full : (n : ℕ) (xs : Bytes) → n ≤ length xs → length (take n xs) ≡ n
length-take_full zero xs l = refl
length-take_full (suc n) [] l = absurd (omega arith)
length-take_full (suc n) (x ∷ xs) l = ap suc (length-take_full n xs (omega arith))

pub store_fits :
    (b : Text) (s : Bytes)
    → length s ≤ b.size
    → store b s ≡ some (record { size = b.size; bytes = s })
unfolding store
store_fits b s l = ground arith

store_overruns : (b : Text) (s : Bytes) → b.size < length s → store b s ≡ none
unfolding store
store_overruns b s l = ground arith

-- strncat behind a terminated text
strncat-append :
    (size : ℕ) (xs source : Bytes) (n : ℕ)
    → length xs + length (take n (c_string source)) + 1 ≤ size
    → strncat (record { size = size; bytes = xs ++ 0 ∷ [] }) (length xs) source n
      ≡ some (record { size = size; bytes = xs ++ (take n (c_string source) ++ 0 ∷ []) })
unfolding strncat c_string
strncat-append size xs source n l =
    rw (take-length-append {0} xs (0 ∷ []), drop-length-append {0} xs (0 ∷ []))
      (store_fits (record { size = size; bytes = xs ++ 0 ∷ [] })
        (xs ++ (take n (c_string source) ++ 0 ∷ []))
        (omega (
          arith,
          length-append {0} xs (take n (c_string source) ++ 0 ∷ []),
          length-append {0} (take n (c_string source)) (0 ∷ []),
        )))

strncat_first :
    (size : ℕ) (source : Bytes) (n : ℕ)
    → n < size
    → strncat (record { size = size; bytes = 0 ∷ [] }) 0 source n
      ≡ some (record { size = size; bytes = take n (c_string source) ++ 0 ∷ [] })
strncat_first size source n l =
    strncat-append size [] source n (omega (arith, length-take n (c_string source)))

-- SetXBDMError leaves the first `response_len` characters of the message, and a terminator.
pub set_xbdm_error-take :
    (error_code : ℕ) (message : Bytes) (response : Text) (response_len : ℕ)
    → response_len < response.size
    → set_xbdm_error error_code message response response_len
      ≡ some (
        error_code,
        record { size = response.size; bytes = take response_len (c_string message) ++ 0 ∷ [] },
      )
unfolding set_xbdm_error
set_xbdm_error-take code message response len room =
    rw (store_fits response (0 ∷ []) (omega arith), strncat_first response.size message len room)
      refl

-- In a buffer of more than `response_len` bytes, and with a message of fewer than 2 ^ 32
-- characters, SetXBDMErrorWithSuffix returns the code and leaves the first `response_len`
-- characters of the message and the suffix, and a terminator.
pub set_xbdm_error_with_suffix-take :
    (error_code : ℕ) (message suffix : Bytes) (response : Text) (response_len : ℕ)
    → length (c_string message) < 2 ^ 32
    → response_len < response.size
    → set_xbdm_error_with_suffix error_code message suffix response response_len
      ≡ some (
        error_code,
        record {
          size = response.size;
          bytes = take response_len (c_string message ++ c_string suffix) ++ 0 ∷ [];
        },
      )
unfolding set_xbdm_error_with_suffix
set_xbdm_error_with_suffix-take code message suffix response len small room =
    let m = c_string message in
    let s = c_string suffix in
    let len_m : length m % 2 ^ 32 ≡ length m = omega arith in
    elim (Bool-cases (ltb (length m) len)) [
      | inl y ↦
          let fits : length m ≤ len = ground arith in
          rw
            (
              len_m,
              store_fits response (0 ∷ []) (omega arith),
              strncat_first response.size message len room,
              y,
              take_all len m fits,
              strncat-append response.size m suffix (len - length m)
                  (omega (arith, length-take (len - length m) s)),
              take-append len m s,
              take_all len m fits,
              append_assoc m (take (len - length m) s) (0 ∷ []),
            )
            refl
      | inr y ↦
          let past : len - length m ≡ 0 = ground arith in
          rw
            (
              len_m,
              store_fits response (0 ∷ []) (omega arith),
              strncat_first response.size message len room,
              y,
              take-append len m s,
              past,
              append-nil (take len m),
            )
            refl
    ]

-- In a buffer of `response_len` bytes, at least one, a message of at least `response_len`
-- characters makes SetXBDMError write its terminator behind the end of the buffer.
pub set_xbdm_error_overrun :
    (error_code : ℕ) (message : Bytes) (response : Text) (response_len : ℕ)
    → response.size ≡ response_len
    → 0 < response_len
    → response_len ≤ length (c_string message)
    → set_xbdm_error error_code message response response_len ≡ none
unfolding set_xbdm_error strncat c_string
set_xbdm_error_overrun code message response len same some_room long =
    rw
      (
        store_fits response (0 ∷ []) (omega arith),
        store_overruns (record { size = response.size; bytes = 0 ∷ [] })
            (take len (c_string message) ++ 0 ∷ [])
            (omega (
              arith,
              length-append {0} (take len (c_string message)) (0 ∷ []),
              length-take_full len (c_string message) long,
            )),
      )
      refl

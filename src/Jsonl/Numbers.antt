-- ===== src/Jsonl/Numbers.antt =====
-- Decimal numbers and arrays of them are parsed back.
use windows_vds.Prelude.{
  ℕ, zero, suc, ◌+◌, ◌*◌, ◌/◌, ◌%◌, ◌<◌, ◌≡◌, refl, true, false, [], ◌∷◌, ◌++◌, arith, Bytes, ok,
  ◌∙◌, Bool-cases, ltb, All, ◌>>=◌, if◌then◌else◌, inl, ◌^◌, inr, ap, ◌-◌,
}
use windows_vds.Prelude.Decimal.{is_digit, decimal, to_string}
use windows_vds.Jsonl.Lex.{skip_jsonl_space}
use windows_vds.Jsonl.Parse.{digits, behind_digits, decimal_value, parse_jsonl_unsigned, numeral}

abbrev pub IsDigits : Bytes → Type 0
IsDigits = All (λ c. is_digit c ≡ true)

IsDigits-append : (xs ys : Bytes) → IsDigits xs → IsDigits ys → IsDigits (xs ++ ys)
IsDigits-append [] ys h k = k
IsDigits-append (x ∷ xs) ys h k = (h.0, IsDigits-append xs ys h.1 k)

digit_char : (d : ℕ) → d < 10 → is_digit (d + b'0') ≡ true
unfolding is_digit
digit_char d h = ground arith

decimal-suc :
    (fuel n : ℕ)
    → decimal (suc fuel) n
      ≡ (if ltb n 10 then (n + b'0') ∷ [] else decimal fuel (n / 10) ++ (n % 10 + b'0') ∷ [])
unfolding decimal
decimal-suc fuel n = ground arith

decimal-IsDigits : (fuel n : ℕ) → IsDigits (decimal fuel n)
decimal-IsDigits zero n = unfold decimal in tt
decimal-IsDigits (suc fuel) n = rw decimal-suc (elim (Bool-cases (ltb n 10)) [
  | inl small ↦ rw small (digit_char n (ground arith), tt)
  | inr big ↦ rw big (
      IsDigits-append (decimal fuel (n / 10)) _ (decimal-IsDigits fuel (n / 10))
        (digit_char (n % 10) (omega arith), tt))
])

decimal_value-append :
    (overflow : Bytes) (v : ℕ) (xs ys : Bytes)
    → decimal_value overflow v (xs ++ ys)
      ≡ (decimal_value overflow v xs >>= λ w. decimal_value overflow w ys)
unfolding decimal_value
decimal_value-append overflow v [] ys = refl
decimal_value-append overflow v (x ∷ xs) ys =
    let next = (v * 10 + (x - b'0')) % 2 ^ 64 in
    elim (Bool-cases (ltb 0xffff_ffff next)) [
      | inl e ↦ rw e
      | inr e ↦ rw e (decimal_value-append overflow next xs ys)
    ]

decimal_value-digit :
    (overflow : Bytes) (v d : ℕ)
    → d < 10
    → v * 10 + d < 2 ^ 32
    → decimal_value overflow v ((d + b'0') ∷ []) ≡ ok (v * 10 + d)
unfolding decimal_value
decimal_value-digit overflow v d h k = ground arith

pub decimal_value-decimal :
    (overflow : Bytes) (fuel n : ℕ)
    → n < fuel
    → n < 2 ^ 32
    → decimal_value overflow 0 (decimal fuel n) ≡ ok n
decimal_value-decimal overflow zero n h k = elim h [ ]
decimal_value-decimal overflow (suc fuel) n h k = rw decimal-suc (elim (Bool-cases (ltb n 10)) [
  | inl small ↦
      rw small (decimal_value-digit overflow 0 n (ground arith) (omega arith) ∙ ap ok (omega arith))
  | inr big ↦
      rw
        (
          big,
          decimal_value-append,
          decimal_value-decimal overflow fuel (n / 10) (ground arith) (omega arith),
        )
        (decimal_value-digit overflow (n / 10) (n % 10) (omega arith) (omega arith)
          ∙ ap ok (omega arith))
])

-- The text that follows a number does not begin with a digit.
abbrev pub EndsNumber : Bytes → Type 0
EndsNumber [] = Unit
EndsNumber (c ∷ text) = is_digit c ≡ false

digits-append : (xs rest : Bytes) → IsDigits xs → EndsNumber rest → digits (xs ++ rest) ≡ xs
unfolding digits
digits-append [] [] h e = refl
digits-append [] (c ∷ rest) h e = rw e
digits-append (x ∷ xs) rest h e = rw (h.0, digits-append xs rest h.1 e)

behind_digits-append :
    (xs rest : Bytes) → IsDigits xs → EndsNumber rest → behind_digits (xs ++ rest) ≡ rest
unfolding behind_digits
behind_digits-append [] [] h e = refl
behind_digits-append [] (c ∷ rest) h e = rw e
behind_digits-append (x ∷ xs) rest h e = rw (h.0, behind_digits-append xs rest h.1 e)

pub skip-digit : (c : ℕ) (text : Bytes) → is_digit c ≡ true → skip_jsonl_space (c ∷ text) ≡ c ∷ text
unfolding skip_jsonl_space is_digit
skip-digit c text h = ground arith

-- The printed form has a first digit.
decimal-cons : (fuel n : ℕ) → (c : ℕ) × (cs : Bytes) × (decimal (suc fuel) n ≡ c ∷ cs)
decimal-cons fuel n = rw decimal-suc (elim (Bool-cases (ltb n 10)) [
  | inl small ↦ (n + b'0', [], rw small)
  | inr big ↦ rw big (append-cons (decimal fuel (n / 10)) (n % 10 + b'0'))
])
  where
    append-cons : (xs : Bytes) (d : ℕ) → (c : ℕ) × (cs : Bytes) × (xs ++ d ∷ [] ≡ c ∷ cs)
    append-cons [] d = (d, [], refl)
    append-cons (x ∷ xs) d = (x, xs ++ d ∷ [], refl)

unsigned_at :
    (c : ℕ) (cs rest context : Bytes) (n : ℕ)
    → IsDigits (c ∷ cs)
    → EndsNumber rest
    → ((overflow : Bytes) → decimal_value overflow 0 (c ∷ cs) ≡ ok n)
    → parse_jsonl_unsigned ((c ∷ cs) ++ rest) context ≡ ok (n, rest)
unsigned_at c cs rest context n h e v =
    unfold parse_jsonl_unsigned in
    rw
      (
        skip-digit c (cs ++ rest) h.0,
        digits-append (c ∷ cs) rest h e,
        behind_digits-append (c ∷ cs) rest h e,
      )
      (unfold numeral in rw (v _))

-- A printed number below `2 ^ 32` is parsed back, where no digit follows.
pub parse_jsonl_unsigned-to_string :
    (n : ℕ) (rest context : Bytes)
    → n < 2 ^ 32
    → EndsNumber rest
    → parse_jsonl_unsigned (to_string n ++ rest) context ≡ ok (n, rest)
parse_jsonl_unsigned-to_string n rest context h e =
    let (c, cs, shape) = decimal-cons n n in
    let ds = decimal-IsDigits (suc n) n in
    unfold to_string in
    rw shape (
      unsigned_at c cs rest context n (rw shape at ds) e
        (λ o. rw shape at (decimal_value-decimal o (suc n) n (omega arith) h)))

-- A printed number begins with a digit: no space is skipped in front of it.
pub to_string-cons : (n : ℕ) → (c : ℕ) × (cs : Bytes) × (to_string n ≡ c ∷ cs) × (is_digit c ≡ true)
unfolding to_string
to_string-cons n =
    let (c, cs, shape) = decimal-cons n n in
    let ds = decimal-IsDigits (suc n) n in (c, cs, shape, (rw shape at ds).0)

pub to_string-IsDigits : (n : ℕ) → IsDigits (to_string n)
unfolding to_string
to_string-IsDigits n = decimal-IsDigits (suc n) n

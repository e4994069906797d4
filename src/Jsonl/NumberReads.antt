-- ===== src/Jsonl/NumberReads.antt =====
-- How much of a text the loops over numbers and arrays in src/jsonl.cc leave to read, and the bounds
-- of the numbers.
use windows_vds.Prelude.{
  ℕ, zero, suc, true, false, ok, ◌+◌, ◌≤◌, ◌<◌, ◌≡◌, refl, [], ◌∷◌, arith, length, Bytes, Ensures,
  Ensures-bind, ◌==◌, Ensures-mono, Bool-cases, ◌^◌, inl, ◌*◌, ap, inr, ◌-◌, ◌++◌, ◌%◌, List, All,
  Bool,
}
use windows_vds.Jsonl.Lex.{skip_jsonl_space}
use windows_vds.Jsonl.Parse.{
  digits, behind_digits, decimal_value, numeral, parse_jsonl_unsigned, array_next, array_loop,
  array_body, parse_jsonl_unsigned_array,
}
use windows_vds.Jsonl.StringReads.{Reads, length-skip, require_jsonl_char-Ensures}

length-behind_digits :
    (text : Bytes) → length (digits text) + length (behind_digits text) ≡ length text
unfolding digits behind_digits
length-behind_digits [] = omega arith
length-behind_digits (c ∷ text) = ground (arith, length-behind_digits text)

decimal_value-Ensures :
    (overflow : Bytes) (value : ℕ) (text : Bytes)
    → value < 2 ^ 32
    → Ensures (λ n. n < 2 ^ 32) (decimal_value overflow value text)
unfolding decimal_value
decimal_value-Ensures overflow value [] h = h
decimal_value-Ensures overflow value (c ∷ text) h =
    ground (arith, decimal_value-Ensures overflow ((value * 10 + (c - b'0')) % 2 ^ 64) text)

abbrev IsNumeral : Bytes → Bytes → ℕ × Bytes → Type 0
IsNumeral number text r = (r.0 < 2 ^ 32) × (r.1 ≡ text) × (0 < length number)

numeral-Ensures :
    (number text context : Bytes)
    → Ensures
        (λ r. (r.0 < 2 ^ 32) × (r.1 ≡ text) × (0 < length number))
        (numeral number text context)
unfolding numeral
numeral-Ensures [] text context = tt
numeral-Ensures (c ∷ number) text context =
    Ensures-bind (λ n. n < 2 ^ 32) (IsNumeral (c ∷ number) text) _ _
      (decimal_value-Ensures _ 0 (c ∷ number) (omega arith)) (λ v h. (h, refl, omega arith))

parse_jsonl_unsigned-Ensures :
    (text context : Bytes)
    → Ensures
        (λ r. (r.0 < 2 ^ 32) × (suc (length r.1) ≤ length text))
        (parse_jsonl_unsigned text context)
unfolding parse_jsonl_unsigned
parse_jsonl_unsigned-Ensures text context =
    let start = skip_jsonl_space text in
    Ensures-mono (IsNumeral (digits start) (behind_digits start))
      (λ r. (r.0 < 2 ^ 32) × Reads (length text) r) _
      (numeral-Ensures (digits start) (behind_digits start) context)
      (λ r h. (h.0, omega (arith, length-behind_digits start, length-skip text, ap length h.1)))

array_next-Ensures :
    (text context : Bytes) → Ensures (Reads (length text)) (array_next text context)
unfolding array_next
array_next-Ensures [] context = tt
array_next-Ensures (c ∷ text) context = ground arith

abbrev pub IsNumbers : List ℕ → Type 0
IsNumbers = All (λ n. n < 2 ^ 32)

IsNumbers-append : (ns : List ℕ) (n : ℕ) → IsNumbers ns → n < 2 ^ 32 → IsNumbers (ns ++ n ∷ [])
IsNumbers-append [] n h p = (p, tt)
IsNumbers-append (m ∷ ns) n h p = (h.0, IsNumbers-append ns n h.1 p)

abbrev pub ReadsNumbers : ℕ → List ℕ × Bytes → Type 0
ReadsNumbers n r = IsNumbers r.0 × Reads n r

array_loop-Ensures :
    (fuel : ℕ) (context : Bytes) (values : List ℕ) (text : Bytes)
    → length text < fuel
    → IsNumbers values
    → Ensures (ReadsNumbers (length text)) (array_loop fuel context values text)
unfolding array_loop
array_loop-Ensures zero context values text h ns = absurd (omega arith)
array_loop-Ensures (suc fuel) context values text h ns =
    Ensures-bind (λ r. (r.0 < 2 ^ 32) × Reads (length text) r) (ReadsNumbers (length text)) _ _
      (parse_jsonl_unsigned-Ensures text context)
      λ v p.
        Ensures-bind (Reads (length v.1)) (ReadsNumbers (length text)) _ _
          (Ensures-mono (Reads (length (skip_jsonl_space v.1))) (Reads (length v.1)) _
            (array_next-Ensures (skip_jsonl_space v.1) context)
            (λ r q. omega (arith, length-skip v.1)))
          λ n q. next v n p q (array_loop-Ensures fuel context (values ++ v.0 ∷ []) n.1)
  where
    next :
        (v : ℕ × Bytes) (n : Bool × Bytes)
        → (v.0 < 2 ^ 32) × Reads (length text) v
        → Reads (length v.1) n
        → (length n.1 < fuel
            → IsNumbers (values ++ v.0 ∷ [])
            → Ensures
                (ReadsNumbers (length n.1))
                (array_loop fuel context (values ++ v.0 ∷ []) n.1))
        → Ensures (ReadsNumbers (length text)) (elim n.0 [
          | true ↦ ok (values ++ v.0 ∷ [], n.1)
          | false ↦ array_loop fuel context (values ++ v.0 ∷ []) n.1
        ])
    next v (true, r) p q rest = (IsNumbers-append values v.0 ns p.0, omega arith)
    next v (false, r) p q rest =
        Ensures-mono (ReadsNumbers (length r)) (ReadsNumbers (length text)) _
          (rest (omega arith) (IsNumbers-append values v.0 ns p.0)) (λ s h. (h.0, omega arith))

array_body-Ensures :
    (text context : Bytes) → Ensures (ReadsNumbers (suc (length text))) (array_body text context)
unfolding array_body
array_body-Ensures [] context =
    Ensures-mono (ReadsNumbers 0) (ReadsNumbers 1) (array_loop 1 context [] [])
      (array_loop-Ensures 1 context [] [] (omega arith) tt) (λ r h. (h.0, omega arith))
array_body-Ensures (c ∷ text) context = elim (Bool-cases (c == b']')) [
  | inl e ↦ rw e (tt, omega arith)
  | inr other ↦ rw other (
      Ensures-mono (ReadsNumbers (suc (length text))) (ReadsNumbers (suc (suc (length text)))) _
        (array_loop-Ensures (suc (suc (length text))) context [] (c ∷ text) (omega arith) tt)
        (λ r h. (h.0, omega arith)))
]

-- What the array parser returns are 32-bit numbers.
pub parse_jsonl_unsigned_array-Ensures :
    (text context : Bytes)
    → Ensures (ReadsNumbers (length text)) (parse_jsonl_unsigned_array text context)
unfolding parse_jsonl_unsigned_array
parse_jsonl_unsigned_array-Ensures text context =
    Ensures-bind (λ r. suc (length r) ≤ length text) (ReadsNumbers (length text)) _ _
      (require_jsonl_char-Ensures text b'[' context)
      λ r p.
        Ensures-mono (ReadsNumbers (suc (length (skip_jsonl_space r)))) (ReadsNumbers (length text))
          _ (array_body-Ensures (skip_jsonl_space r) context)
          (λ s h. (h.0, omega (arith, length-skip r)))

-- ===== src/Jsonl/StringReads.antt =====
-- How much of a text the loops over strings in src/jsonl.cc leave to read.
use windows_vds.Prelude.{
  ℕ, zero, suc, ◌≤◌, [], ◌∷◌, arith, length, Bytes, Ensures, Ensures-bind, ◌==◌, Ensures-mono,
  Bool-cases, inl, inr, ◌++◌,
}
use windows_vds.Jsonl.Lex.{
  skip_jsonl_space, take_char, require_jsonl_char, parse_jsonl_escape, parse_jsonl_hex_digit,
  parse_unicode, parse_escaped, string_char, string_loop, quoted, parse_jsonl_string,
}

-- At most `n` bytes are left to read.
abbrev pub Leaves {ℓ} : {A : Type ℓ} → ℕ → A × Bytes → Type 0
Leaves n r = length r.1 ≤ n

-- At least one byte was read of `n`.
abbrev pub Reads {ℓ} : {A : Type ℓ} → ℕ → A × Bytes → Type 0
Reads n r = suc (length r.1) ≤ n

abbrev pub Any {ℓ} : {A : Type ℓ} → A → Type 0
Any a = Unit

pub length-skip : (text : Bytes) → length (skip_jsonl_space text) ≤ length text
unfolding skip_jsonl_space
length-skip [] = omega arith
length-skip (c ∷ text) = ground (arith, length-skip text)

take_char-Ensures :
    (text : Bytes) (c : ℕ) (context : Bytes)
    → Ensures (λ r. suc (length r) ≤ length text) (take_char text c context)
unfolding take_char
take_char-Ensures [] c context = tt
take_char-Ensures (d ∷ text) c context = ground arith

pub require_jsonl_char-Ensures :
    (text : Bytes) (c : ℕ) (context : Bytes)
    → Ensures (λ r. suc (length r) ≤ length text) (require_jsonl_char text c context)
unfolding require_jsonl_char
require_jsonl_char-Ensures text c context =
    Ensures-mono (λ r. suc (length r) ≤ length (skip_jsonl_space text))
      (λ r. suc (length r) ≤ length text) _ (take_char-Ensures (skip_jsonl_space text) c context)
      (λ r h. omega (arith, length-skip text))

hex_digit-Ensures : (c : ℕ) (context : Bytes) → Ensures Any (parse_jsonl_hex_digit c context)
unfolding parse_jsonl_hex_digit
hex_digit-Ensures c context = ground arith

escape-Ensures : (c : ℕ) (context : Bytes) → Ensures Any (parse_jsonl_escape c context)
unfolding parse_jsonl_escape
escape-Ensures c context = ground arith

parse_unicode-Ensures :
    (text context : Bytes) → Ensures (Leaves (length text)) (parse_unicode text context)
unfolding parse_unicode
parse_unicode-Ensures (a ∷ b ∷ c ∷ d ∷ text) context =
    Ensures-bind Any _ _ _ (hex_digit-Ensures a context) λ w _.
      Ensures-bind Any _ _ _ (hex_digit-Ensures b context) λ x _.
        Ensures-bind Any _ _ _ (hex_digit-Ensures c context)
          λ y _. Ensures-bind Any _ _ _ (hex_digit-Ensures d context) λ z _. ground arith
parse_unicode-Ensures _ context = tt

parse_escaped-Ensures :
    (text context : Bytes) → Ensures (Leaves (length text)) (parse_escaped text context)
unfolding parse_escaped
parse_escaped-Ensures [] context = tt
parse_escaped-Ensures (c ∷ text) context = elim (Bool-cases (c == b'u')) [
  | inl u ↦ rw u (
      Ensures-mono (Leaves (length text)) (Leaves (suc (length text))) _
        (parse_unicode-Ensures text context) (λ r h. omega arith))
  | inr other ↦ rw other (
      Ensures-bind Any (Leaves (suc (length text))) _ _ (escape-Ensures c context)
        (λ v _. omega arith))
]

string_char-Ensures :
    (c : ℕ) (text context : Bytes) → Ensures (Leaves (length text)) (string_char c text context)
unfolding string_char
string_char-Ensures c text context = elim (Bool-cases (c == b'\\')) [
  | inl e ↦ rw e (parse_escaped-Ensures text context)
  | inr other ↦ rw other (ground arith)
]

string_loop-Ensures :
    (fuel : ℕ) (context value text : Bytes)
    → length text ≤ fuel
    → Ensures (Leaves (length text)) (string_loop fuel context value text)
unfolding string_loop
string_loop-Ensures fuel context value [] h = tt
string_loop-Ensures zero context value (c ∷ text) h = absurd (omega arith)
string_loop-Ensures (suc fuel) context value (c ∷ text) h = elim (Bool-cases (c == b'"')) [
  | inl e ↦ rw (e, string_loop) (omega arith)
  | inr other ↦
      rw (other, string_loop)
        (Ensures-bind (Leaves (length text)) (Leaves (suc (length text))) _ _
          (string_char-Ensures c text context)
          λ r p.
            Ensures-mono (Leaves (length r.1)) (Leaves (suc (length text))) _
              (string_loop-Ensures fuel context (value ++ r.0 ∷ []) r.1 (omega arith))
              (λ s q. omega arith))
]

quoted-Ensures : (text context : Bytes) → Ensures (Reads (length text)) (quoted text context)
unfolding quoted
quoted-Ensures [] context = tt
quoted-Ensures (c ∷ text) context = elim (Bool-cases (c == b'"')) [
  | inl e ↦ rw e (
      Ensures-mono (Leaves (length text)) (Reads (suc (length text))) _
        (string_loop-Ensures (length text) context [] text (omega arith)) (λ r h. omega arith))
  | inr other ↦ rw other tt
]

pub parse_jsonl_string-Ensures :
    (text context : Bytes) → Ensures (Reads (length text)) (parse_jsonl_string text context)
unfolding parse_jsonl_string
parse_jsonl_string-Ensures text context =
    Ensures-mono (Reads (length (skip_jsonl_space text))) (Reads (length text)) _
      (quoted-Ensures (skip_jsonl_space text) context) (λ r h. omega (arith, length-skip text))

-- ===== src/Jsonl/RoundTrip.antt =====
-- What the printer of src/jsonl.cc writes for a string, its parser reads back.
use windows_vds.Prelude.{
  ℕ, zero, suc, ◌+◌, ◌/◌, ◌%◌, ◌≤◌, ◌<◌, ◌≡◌, refl, false, [], ◌∷◌, ◌++◌, arith, length, Bytes,
  Result, ok, err, append-nil, append_assoc, ◌==◌, ◌∙◌, Bool-cases, if◌then◌else◌, inl, inr, ◌>>=◌,
  ap, length-append,
}
use windows_vds.Jsonl.Lex.{
  string_loop, string_char, parse_unicode, parse_jsonl_hex_digit, parse_jsonl_string,
}
use windows_vds.Jsonl.Print.{hex_char, escape_byte, escape_jsonl_string, jsonl_string_value}

hex_digit-hex_char :
    (d : ℕ) (context : Bytes) → d < 16 → parse_jsonl_hex_digit (hex_char d) context ≡ ok d
unfolding parse_jsonl_hex_digit hex_char
hex_digit-hex_char d context h = ground arith

zero_digit : (context : Bytes) → parse_jsonl_hex_digit b'0' context ≡ ok 0
unfolding parse_jsonl_hex_digit
zero_digit context = refl

parse_unicode-hex_char :
    (b : ℕ) (more context : Bytes)
    → b < 32
    → parse_unicode (b'0' ∷ b'0' ∷ hex_char (b / 16) ∷ hex_char (b % 16) ∷ more) context
      ≡ ok (b, more)
unfolding parse_unicode
parse_unicode-hex_char b more context h = ground (
  arith,
  zero_digit context,
  hex_digit-hex_char (b / 16) context,
  hex_digit-hex_char (b % 16) context,
)

-- One round of the loop on a text that does not begin with the closing quote.
abbrev first_char : Bytes → Bytes → Result (ℕ × Bytes)
first_char [] context = err []
first_char (c ∷ text) context = if c == b'"' then err [] else string_char c text context

string_loop-suc :
    (fuel : ℕ) (context acc text : Bytes) (c : ℕ)
    → (c == b'"') ≡ false
    → string_loop (suc fuel) context acc (c ∷ text)
      ≡ (string_char c text context >>= λ r. string_loop fuel context (acc ++ r.0 ∷ []) r.1)
unfolding string_loop
string_loop-suc fuel context acc text c h = rw (h, string_loop)

string_loop-first_char :
    (fuel : ℕ) (context acc text : Bytes) (b : ℕ) (more : Bytes)
    → first_char text context ≡ ok (b, more)
    → string_loop (suc fuel) context acc text ≡ string_loop fuel context (acc ++ b ∷ []) more
string_loop-first_char fuel context acc [] b more h = cc
string_loop-first_char fuel context acc (c ∷ text) b more h = elim (Bool-cases (c == b'"')) [
  | inl e ↦ absurd (cc (rw e at h))
  | inr other ↦ string_loop-suc fuel context acc text c other ∙ rw (rw other at h)
]

first_char-escape_byte :
    (b : ℕ) (more context : Bytes) → first_char (escape_byte b ++ more) context ≡ ok (b, more)
unfolding string_char escape_byte
first_char-escape_byte b more context = ground (arith, parse_unicode-hex_char b more context)

escape_jsonl_string-cons :
    (c : ℕ) (text more : Bytes)
    → escape_jsonl_string (c ∷ text) ++ more ≡ escape_byte c ++ (escape_jsonl_string text ++ more)
unfolding escape_jsonl_string
escape_jsonl_string-cons c text more = append_assoc (escape_byte c) (escape_jsonl_string text) more

-- The escaped text and its closing quote bring the text back, with whatever follows.
pub string_loop-escape :
    (text : Bytes) (fuel : ℕ) (context acc rest : Bytes)
    → length text < fuel
    → string_loop fuel context acc (escape_jsonl_string text ++ b'"' ∷ rest)
      ≡ ok (acc ++ text, rest)
string_loop-escape text zero context acc rest h = elim h [ ]
string_loop-escape [] (suc fuel) context acc rest h =
    unfold escape_jsonl_string string_loop in rw append-nil
string_loop-escape (c ∷ text) (suc fuel) context acc rest h =
    ap (string_loop (suc fuel) context acc) (escape_jsonl_string-cons c text (b'"' ∷ rest))
    ∙ string_loop-first_char fuel context acc _ c _ (first_char-escape_byte c _ context)
    ∙ string_loop-escape text fuel context (acc ++ c ∷ []) rest (omega arith)
    ∙ rw append_assoc

length-escape_byte : (c : ℕ) → 1 ≤ length (escape_byte c)
unfolding escape_byte
length-escape_byte c = ground arith

length-escape :
    (text more : Bytes) → length text + length more ≤ length (escape_jsonl_string text ++ more)
length-escape [] more = unfold escape_jsonl_string in omega arith
length-escape (c ∷ text) more = rw escape_jsonl_string-cons (
    omega (
      arith,
      length-append (escape_byte c) (escape_jsonl_string text ++ more),
      length-escape_byte c,
      length-escape text more,
    ))

-- A printed string is parsed back to its value, whatever its bytes and whatever text follows it.
pub parse_jsonl_string-jsonl_string_value :
    (value rest context : Bytes)
    → parse_jsonl_string (jsonl_string_value value ++ rest) context ≡ ok (value, rest)
unfolding parse_jsonl_string jsonl_string_value
parse_jsonl_string-jsonl_string_value value rest context =
    rw append_assoc (
      string_loop-escape value _ context [] rest (omega (arith, length-escape value (b'"' ∷ rest))))

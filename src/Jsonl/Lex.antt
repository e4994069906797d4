-- ===== src/Jsonl/Lex.antt =====
-- The scanner of src/jsonl.cc. `text` and `offset` of the source are one value here, the bytes
-- from `offset` on; a parser returns them behind its value.
use Prim.Native.String.{String}
use windows_vds.Prelude.{
  ℕ, zero, suc, ◌+◌, ◌-◌, ◌*◌, Bool, true, false, ◌||◌, [], ◌∷◌, ◌++◌, ltb, ◌==◌, within,
  if◌then◌else◌, length, Bytes, codes, Result, ok, err, out_of_fuel, ◌>>=◌,
}

context_suffix : Bytes → Bytes
context_suffix [] = []
context_suffix (c ∷ context) = codes " in " ++ c ∷ context

-- The message of an exception.
unfoldable pub jsonl_error : String → Bytes → Bytes
unfolding context_suffix
jsonl_error text context = codes text ++ context_suffix context

-- `std::isspace` in the C locale.
unfoldable pub is_space : ℕ → Bool
is_space c = c == b' ' || within 9 13 c

unfoldable pub skip_jsonl_space : Bytes → Bytes
unfolding is_space
skip_jsonl_space [] = []
skip_jsonl_space (c ∷ text) = if is_space c then skip_jsonl_space text else c ∷ text

-- The test behind the skip of `require_jsonl_char`.
unfoldable pub take_char : Bytes → ℕ → Bytes → Result Bytes
take_char [] expected context = err (jsonl_error "invalid JSON object" context)
take_char (c ∷ text) expected context =
    if c == expected then ok text else err (jsonl_error "invalid JSON object" context)

unfoldable pub require_jsonl_char : Bytes → ℕ → Bytes → Result Bytes
unfolding skip_jsonl_space take_char
require_jsonl_char text expected context = take_char (skip_jsonl_space text) expected context

unfoldable pub parse_jsonl_escape : ℕ → Bytes → Result ℕ
parse_jsonl_escape escape context =
    if escape == b'"' || escape == b'\\' || escape == b'/'
    then ok escape
    else if escape == b'b'
    then ok 8
    else if escape == b'f'
    then ok 12
    else if escape == b'n'
    then ok 10
    else if escape == b'r'
    then ok 13
    else if escape == b't'
    then ok 9
    else err (jsonl_error "unsupported JSON escape" context)

unfoldable pub parse_jsonl_hex_digit : ℕ → Bytes → Result ℕ
parse_jsonl_hex_digit ch context =
    if within b'0' b'9' ch
    then ok (ch - b'0')
    else if within b'a' b'f' ch
    then ok (ch - b'a' + 10)
    else if within b'A' b'F' ch
    then ok (ch - b'A' + 10)
    else err (jsonl_error "invalid JSON unicode escape" context)

-- Behind `\u`. A shift by four bits leaves the place of the next digit clear.
unfoldable pub parse_unicode : Bytes → Bytes → Result (ℕ × Bytes)
parse_unicode (a ∷ b ∷ c ∷ d ∷ text) context = do
  w ← parse_jsonl_hex_digit a context
  x ← parse_jsonl_hex_digit b context
  y ← parse_jsonl_hex_digit c context
  z ← parse_jsonl_hex_digit d context
  let code_point = ((w * 16 + x) * 16 + y) * 16 + z
  if ltb 0x7f code_point
      then err (jsonl_error "unsupported JSON unicode escape" context)
      else ok (code_point, text)
parse_unicode _ context = err (jsonl_error "unterminated JSON unicode escape" context)

-- Behind a backslash.
unfoldable pub parse_escaped : Bytes → Bytes → Result (ℕ × Bytes)
unfolding parse_jsonl_escape
parse_escaped [] context = err (jsonl_error "unterminated JSON escape" context)
parse_escaped (escape ∷ text) context =
    if escape == b'u'
    then parse_unicode text context
    else do c ← parse_jsonl_escape escape context; ok (c, text)

-- The rest of the loop's body for a byte that is not the closing quote.
unfoldable pub string_char : ℕ → Bytes → Bytes → Result (ℕ × Bytes)
unfolding parse_escaped
string_char ch text context =
    if ch == b'\\'
    then parse_escaped text context
    else if ltb ch 0x20
    then err (jsonl_error "invalid control character in JSON string" context)
    else ok (ch, text)

-- The `while` loop of `parse_jsonl_string`.
unfoldable pub string_loop : ℕ → Bytes → Bytes → Bytes → Result (Bytes × Bytes)
string_loop fuel context value [] = err (jsonl_error "unterminated JSON string" context)
string_loop zero context value (ch ∷ text) = out_of_fuel
string_loop (suc fuel) context value (ch ∷ text) = elim (ch == b'"') [
  | true ↦ ok (value, text)
  | false ↦ string_char ch text context >>= λ r. string_loop fuel context (value ++ r.0 ∷ []) r.1
]

unfoldable pub quoted : Bytes → Bytes → Result (Bytes × Bytes)
unfolding string_loop string_char parse_unicode parse_jsonl_hex_digit
quoted [] context = err (jsonl_error "expected JSON string" context)
quoted (c ∷ text) context =
    if c == b'"'
    then string_loop (length text) context [] text
    else err (jsonl_error "expected JSON string" context)

unfoldable pub parse_jsonl_string : Bytes → Bytes → Result (Bytes × Bytes)
unfolding skip_jsonl_space quoted
parse_jsonl_string text context = quoted (skip_jsonl_space text) context

-- ===== src/Jsonl/Print.antt =====
-- The printer of src/jsonl.cc. Keys are printed as they are, values with escapes.
use windows_vds.Prelude.{
  ℕ, ◌+◌, ◌/◌, ◌%◌, Bool, List, [], ◌∷◌, ◌++◌, ltb, ◌==◌, if◌then◌else◌, Bytes, codes, ◌-◌,
}
use windows_vds.Prelude.Decimal.{to_string}

-- A digit of `%x`.
unfoldable pub hex_char : ℕ → ℕ
hex_char d = if ltb d 10 then d + b'0' else d - 10 + b'a'

-- What the loop appends for one byte. A control character is below 32, so `%04x` gives two zeros
-- and two digits.
unfoldable pub escape_byte : ℕ → Bytes
escape_byte ch =
    if ch == b'"'
    then b'\\' ∷ b'"' ∷ []
    else if ch == b'\\'
    then b'\\' ∷ b'\\' ∷ []
    else if ch == 8
    then b'\\' ∷ b'b' ∷ []
    else if ch == 12
    then b'\\' ∷ b'f' ∷ []
    else if ch == 10
    then b'\\' ∷ b'n' ∷ []
    else if ch == 13
    then b'\\' ∷ b'r' ∷ []
    else if ch == 9
    then b'\\' ∷ b't' ∷ []
    else if ltb ch 0x20
    then b'\\' ∷ b'u' ∷ b'0' ∷ b'0' ∷ hex_char (ch / 16) ∷ hex_char (ch % 16) ∷ []
    else ch ∷ []

unfoldable pub escape_jsonl_string : Bytes → Bytes
unfolding escape_byte hex_char
escape_jsonl_string [] = []
escape_jsonl_string (ch ∷ text) = escape_byte ch ++ escape_jsonl_string text

unfoldable pub jsonl_string_value : Bytes → Bytes
unfolding escape_jsonl_string
jsonl_string_value value = b'"' ∷ (escape_jsonl_string value ++ b'"' ∷ [])

-- `"key":` as all the field printers begin.
unfoldable pub key_text : Bytes → Bytes
key_text key = b'"' ∷ (key ++ b'"' ∷ b':' ∷ [])

unfoldable pub jsonl_string_field : Bytes → Bytes → Bytes
unfolding key_text jsonl_string_value
jsonl_string_field key value = key_text key ++ jsonl_string_value value

unfoldable pub jsonl_bool_field : Bytes → Bool → Bytes
unfolding key_text
jsonl_bool_field key value = key_text key ++ codes (if value then "true" else "false")

-- The elements behind the first, each with its comma.
unfoldable pub unsigned_tail : List ℕ → Bytes
unfolding to_string
unsigned_tail [] = []
unsigned_tail (n ∷ values) = b',' ∷ (to_string n ++ unsigned_tail values)

unfoldable pub unsigned_items : List ℕ → Bytes
unfolding to_string unsigned_tail
unsigned_items [] = []
unsigned_items (n ∷ values) = to_string n ++ unsigned_tail values

unfoldable pub jsonl_unsigned_array : List ℕ → Bytes
unfolding unsigned_items
jsonl_unsigned_array values = b'[' ∷ (unsigned_items values ++ b']' ∷ [])

unfoldable pub jsonl_unsigned_array_field : Bytes → List ℕ → Bytes
unfolding key_text jsonl_unsigned_array
jsonl_unsigned_array_field key values = key_text key ++ jsonl_unsigned_array values

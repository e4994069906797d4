-- ===== src/Jsonl/Parse.antt =====
-- Numbers, arrays, values and objects: the parser of src/jsonl.cc on top of the scanner.
use windows_vds.Prelude.{
  ℕ, zero, suc, ◌+◌, ◌-◌, ◌*◌, ◌%◌, ◌^◌, Bool, true, false, List, [], ◌∷◌, ◌++◌, ltb, ◌==◌,
  if◌then◌else◌, length, Bytes, Result, ok, err, out_of_fuel, ◌>>=◌,
}
use windows_vds.Prelude.Decimal.{is_digit}
use windows_vds.Jsonl.Lex.{jsonl_error, skip_jsonl_space, require_jsonl_char, parse_jsonl_string}

pub record JsonlValue : Type 0 where
  pub string_value : Bytes
  pub array_value : List ℕ
  pub is_array : Bool

pub record JsonlField : Type 0 where
  pub key : Bytes
  pub value : JsonlValue

-- The digits in front, which `substr` takes, and what follows them.
unfoldable pub digits : Bytes → Bytes
unfolding is_digit
digits [] = []
digits (c ∷ text) = if is_digit c then c ∷ digits text else []

unfoldable pub behind_digits : Bytes → Bytes
unfolding is_digit
behind_digits [] = []
behind_digits (c ∷ text) = if is_digit c then behind_digits text else c ∷ text

-- The loop over the digits, in an `unsigned long long`, with the message of its overflow.
unfoldable pub decimal_value : Bytes → ℕ → Bytes → Result ℕ
decimal_value overflow value [] = ok value
decimal_value overflow value (ch ∷ text) =
    let next = (value * 10 + (ch - b'0')) % 2 ^ 64 in
    if ltb 0xffff_ffff next then err overflow else decimal_value overflow next text

unfoldable pub numeral : Bytes → Bytes → Bytes → Result (ℕ × Bytes)
unfolding decimal_value
numeral [] text context = err (jsonl_error "expected JSON unsigned integer" context)
numeral (c ∷ number) text context = do
  value ← decimal_value (jsonl_error "JSON unsigned integer overflow" context) 0 (c ∷ number)
  ok (value, text)

unfoldable pub parse_jsonl_unsigned : Bytes → Bytes → Result (ℕ × Bytes)
unfolding skip_jsonl_space digits behind_digits numeral
parse_jsonl_unsigned text context =
    let start = skip_jsonl_space text in numeral (digits start) (behind_digits start) context

-- Behind an array's element: whether the array is closed there.
unfoldable pub array_next : Bytes → Bytes → Result (Bool × Bytes)
array_next [] context = err (jsonl_error "unterminated JSON array" context)
array_next (c ∷ text) context =
    if c == b']'
    then ok (true, text)
    else if c == b','
    then ok (false, text)
    else err (jsonl_error "expected JSON array separator" context)

unfoldable pub array_loop : ℕ → Bytes → List ℕ → Bytes → Result (List ℕ × Bytes)
unfolding parse_jsonl_unsigned skip_jsonl_space array_next
array_loop zero context values text = out_of_fuel
array_loop (suc fuel) context values text = parse_jsonl_unsigned text context >>= λ v.
    array_next (skip_jsonl_space v.1) context >>= λ n. elim n.0 [
      | true ↦ ok (values ++ v.0 ∷ [], n.1)
      | false ↦ array_loop fuel context (values ++ v.0 ∷ []) n.1
    ]

unfoldable pub array_body : Bytes → Bytes → Result (List ℕ × Bytes)
unfolding array_loop
array_body [] context = array_loop 1 context [] []
array_body (c ∷ text) context =
    if c == b']' then ok ([], text) else array_loop (suc (suc (length text))) context [] (c ∷ text)

unfoldable pub parse_jsonl_unsigned_array : Bytes → Bytes → Result (List ℕ × Bytes)
unfolding require_jsonl_char skip_jsonl_space array_body
parse_jsonl_unsigned_array text context = do
  rest ← require_jsonl_char text b'[' context
  array_body (skip_jsonl_space rest) context

abbrev pub string_of : Bytes → JsonlValue
string_of s = record { string_value = s; array_value = []; is_array = false }

abbrev pub array_of : List ℕ → JsonlValue
array_of ns = record { string_value = []; array_value = ns; is_array = true }

-- On the first byte behind the space.
unfoldable pub value_at : Bytes → Bytes → Result (JsonlValue × Bytes)
unfolding parse_jsonl_string parse_jsonl_unsigned_array
value_at [] context = err (jsonl_error "missing JSON value" context)
value_at (c ∷ text) context =
    if c == b'"'
    then (parse_jsonl_string (c ∷ text) context >>= λ r. ok (string_of r.0, r.1))
    else if c == b'['
    then (parse_jsonl_unsigned_array (c ∷ text) context >>= λ r. ok (array_of r.0, r.1))
    else err (jsonl_error "unsupported JSON value" context)

unfoldable pub parse_jsonl_value : Bytes → Bytes → Result (JsonlValue × Bytes)
unfolding skip_jsonl_space value_at
parse_jsonl_value text context = value_at (skip_jsonl_space text) context

-- `offset != text.size()` behind the closing brace.
unfoldable pub at_end : Bytes → Bytes → List JsonlField → Result (List JsonlField)
at_end [] context fields = ok fields
at_end (c ∷ text) context fields = err (jsonl_error "trailing data after JSON object" context)

-- Behind a field: whether the object is closed there.
unfoldable pub object_next : Bytes → Bytes → Result (Bool × Bytes)
object_next [] context = err (jsonl_error "unterminated JSON object" context)
object_next (c ∷ text) context =
    if c == b'}'
    then ok (true, text)
    else if c == b','
    then ok (false, text)
    else err (jsonl_error "expected JSON field separator" context)

-- One field, its key, its colon and its value.
unfoldable pub parse_field : Bytes → Bytes → Result (JsonlField × Bytes)
unfolding parse_jsonl_string require_jsonl_char parse_jsonl_value
parse_field text context = parse_jsonl_string text context >>= λ k.
    require_jsonl_char k.1 b':' context >>= λ t.
    parse_jsonl_value t context >>= λ v. ok (record { key = k.0; value = v.0 }, v.1)

unfoldable pub object_loop : ℕ → Bytes → List JsonlField → Bytes → Result (List JsonlField)
unfolding parse_field skip_jsonl_space object_next at_end
object_loop zero context fields text = out_of_fuel
object_loop (suc fuel) context fields text = parse_field text context >>= λ f.
    object_next (skip_jsonl_space f.1) context >>= λ n. elim n.0 [
      | true ↦ at_end (skip_jsonl_space n.1) context (fields ++ f.0 ∷ [])
      | false ↦ object_loop fuel context (fields ++ f.0 ∷ []) n.1
    ]

unfoldable pub object_body : Bytes → Bytes → Result (List JsonlField)
unfolding object_loop at_end skip_jsonl_space
object_body [] context = object_loop 1 context [] []
object_body (c ∷ text) context =
    if c == b'}'
    then at_end (skip_jsonl_space text) context []
    else object_loop (suc (suc (length text))) context [] (c ∷ text)

unfoldable pub parse_jsonl_object : Bytes → Bytes → Result (List JsonlField)
unfolding require_jsonl_char skip_jsonl_space object_body
parse_jsonl_object text context = do
  rest ← require_jsonl_char text b'{' context
  object_body (skip_jsonl_space rest) context

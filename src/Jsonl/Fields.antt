-- ===== src/Jsonl/Fields.antt =====
-- Access to the fields of a parsed object, as in src/jsonl.cc.
use Prim.Native.String.{String}
use windows_vds.Prelude.{
  ℕ, Bool, false, List, [], ◌∷◌, ◌++◌, ◌||◌, if◌then◌else◌, Bytes, codes, bytes_eq, Option, none,
  some, Result, ok, err, ◌>>=◌,
}
use windows_vds.Jsonl.Lex.{jsonl_error}
use windows_vds.Jsonl.Parse.{JsonlValue, JsonlField}

unfoldable pub field_error : String → Bytes → Bytes → Bytes
field_error text context key = jsonl_error text context ++ codes ": " ++ key

-- The loop of `find_jsonl_field`, with the value found so far.
unfoldable pub find_loop :
    Option JsonlValue → List JsonlField → Bytes → Bytes → Result (Option JsonlValue)
unfolding bytes_eq
find_loop found [] key context = ok found
find_loop none (f ∷ fields) key context =
    find_loop (if bytes_eq f.key key then some f.value else none) fields key context
find_loop (some v) (f ∷ fields) key context =
    let rest = find_loop (some v) fields key context in
    if bytes_eq f.key key then err (field_error "duplicate JSON field" context key) else rest

unfoldable pub find_jsonl_field : List JsonlField → Bytes → Bytes → Result (Option JsonlValue)
unfolding find_loop
find_jsonl_field = find_loop none

unfoldable pub string_or_error : Option JsonlValue → Bytes → Bytes → Result Bytes
string_or_error none key context = err (field_error "missing JSON field" context key)
string_or_error (some v) key context =
    if v.is_array
    then err (field_error "JSON field must be a string" context key)
    else ok v.string_value

unfoldable pub require_jsonl_string : List JsonlField → Bytes → Bytes → Result Bytes
unfolding find_jsonl_field string_or_error
require_jsonl_string fields key context = do
  value ← find_jsonl_field fields key context
  string_or_error value key context

unfoldable pub array_or_error : Option JsonlValue → Bytes → Bytes → Result (List ℕ)
array_or_error none key context = err (field_error "missing JSON field" context key)
array_or_error (some v) key context =
    if v.is_array
    then ok v.array_value
    else err (field_error "JSON field must be an array" context key)

unfoldable pub require_jsonl_unsigned_array : List JsonlField → Bytes → Bytes → Result (List ℕ)
unfolding find_jsonl_field array_or_error
require_jsonl_unsigned_array fields key context = do
  value ← find_jsonl_field fields key context
  array_or_error value key context

-- `std::find` over byte strings.
unfoldable pub contains_bytes : List Bytes → Bytes → Bool
unfolding bytes_eq
contains_bytes [] key = false
contains_bytes (k ∷ keys) key = bytes_eq k key || contains_bytes keys key

unfoldable pub reject_unknown_jsonl_fields :
    List JsonlField → List Bytes → Bytes → Result (Unit {0})
unfolding contains_bytes
reject_unknown_jsonl_fields [] expected context = ok tt
reject_unknown_jsonl_fields (f ∷ fields) expected context =
    if contains_bytes expected f.key
    then reject_unknown_jsonl_fields fields expected context
    else err (field_error "unknown JSON field" context f.key)

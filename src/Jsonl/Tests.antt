-- ===== src/Jsonl/Tests.antt =====
-- Runs of the JSONL code, and the theorems at concrete inputs.
use windows_vds.Prelude.{[], ◌∷◌, ◌++◌, ◌≡◌, ◌≢◌, refl, Bytes, codes, ok, err, out_of_fuel, arith}
use windows_vds.Prelude.Decimal.{is_digit, to_string}
use windows_vds.Jsonl.Lex.{jsonl_error, parse_jsonl_string}
use windows_vds.Jsonl.Parse.{
  string_of, array_of, parse_jsonl_object, parse_jsonl_unsigned, parse_jsonl_unsigned_array,
}
use windows_vds.Jsonl.Print.{
  escape_jsonl_string, jsonl_string_value, jsonl_string_field, jsonl_unsigned_array,
  jsonl_unsigned_array_field,
}
use windows_vds.Jsonl.Total.{parse_jsonl_object_total}
use windows_vds.Jsonl.RoundTrip.{parse_jsonl_string-jsonl_string_value}
use windows_vds.Jsonl.Objects.{Printed, PrintedTail, parse_jsonl_object-Printed}
use windows_vds.Jsonl.Arrays.{parse_jsonl_unsigned_array-jsonl_unsigned_array}
use windows_vds.Jsonl.Numbers.{parse_jsonl_unsigned-to_string}

abbrev context : Bytes
context = codes "test"

parse_record :
    parse_jsonl_object (codes " { \"a\\n\\u0041\" : \"x\" , \"ports\":[ 1, 20 ]}\n") context
    ≡ ok (
        record { key = codes "a\nA"; value = string_of (codes "x") }
        ∷ record { key = codes "ports"; value = array_of (1 ∷ 20 ∷ []) }
        ∷ [])
unfolding parse_jsonl_object
parse_record = refl

parse_overflow :
    parse_jsonl_object (codes "{\"p\":[4294967296]}") context
    ≡ err (codes "JSON unsigned integer overflow in test")
unfolding parse_jsonl_object jsonl_error
parse_overflow = refl

print_value : jsonl_string_value (1 ∷ b'"' ∷ b'z' ∷ []) ≡ codes "\"\\u0001\\\"z\""
unfolding jsonl_string_value
print_value = refl

print_array : jsonl_unsigned_array_field (codes "ports") (0 ∷ 123 ∷ []) ≡ codes "\"ports\":[0,123]"
unfolding jsonl_unsigned_array_field
print_array = refl

parse_jsonl_object_total_example : parse_jsonl_object (codes "{\"a\":") context ≢ out_of_fuel
parse_jsonl_object_total_example = parse_jsonl_object_total (codes "{\"a\":") context

parse_jsonl_string-jsonl_string_value_example :
    parse_jsonl_string (jsonl_string_value (1 ∷ b'"' ∷ 200 ∷ []) ++ codes ",") context
    ≡ ok (1 ∷ b'"' ∷ 200 ∷ [], codes ",")
parse_jsonl_string-jsonl_string_value_example =
    parse_jsonl_string-jsonl_string_value (1 ∷ b'"' ∷ 200 ∷ []) (codes ",") context

ports_field :
    Printed
      (record { key = codes "ports"; value = array_of (0 ∷ 123 ∷ []) })
      (jsonl_unsigned_array_field (codes "ports") (0 ∷ 123 ∷ []))
ports_field =
    Printed.array (codes "ports") (0 ∷ 123 ∷ []) (unfold escape_jsonl_string in refl)
      (omega arith, (omega arith, tt))

name_field :
    Printed
      (record { key = codes "name"; value = string_of (codes "a\n") })
      (jsonl_string_field (codes "name") (codes "a\n"))
name_field = Printed.string (codes "name") (codes "a\n") (unfold escape_jsonl_string in refl)

parse_jsonl_object-Printed_example :
    parse_jsonl_object
      (b'{'
        ∷ (jsonl_unsigned_array_field (codes "ports") (0 ∷ 123 ∷ [])
            ++ ((b',' ∷ (jsonl_string_field (codes "name") (codes "a\n") ++ [])) ++ b'}' ∷ [])))
      context
    ≡ ok (
        record { key = codes "ports"; value = array_of (0 ∷ 123 ∷ []) }
        ∷ record { key = codes "name"; value = string_of (codes "a\n") }
        ∷ [])
parse_jsonl_object-Printed_example =
    parse_jsonl_object-Printed context ports_field (PrintedTail.cons name_field PrintedTail.nil)

parse_jsonl_unsigned_array-jsonl_unsigned_array_example :
    parse_jsonl_unsigned_array (jsonl_unsigned_array (7 ∷ 4294967295 ∷ []) ++ codes "}") context
    ≡ ok (7 ∷ 4294967295 ∷ [], codes "}")
parse_jsonl_unsigned_array-jsonl_unsigned_array_example =
    parse_jsonl_unsigned_array-jsonl_unsigned_array (7 ∷ 4294967295 ∷ []) (codes "}") context
      (omega arith, (omega arith, tt))

parse_jsonl_unsigned-to_string_example :
    parse_jsonl_unsigned (to_string 4294967295 ++ codes "]") context ≡ ok (4294967295, codes "]")
unfolding is_digit
parse_jsonl_unsigned-to_string_example =
    parse_jsonl_unsigned-to_string 4294967295 (codes "]") context (omega arith) refl

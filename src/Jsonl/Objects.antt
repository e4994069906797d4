-- ===== src/Jsonl/Objects.antt =====
-- Printed objects are parsed back: the records of the configuration file and the requests of the
-- control channel are such objects.
use windows_vds.Prelude.{
  ℕ, zero, suc, ◌≤◌, ◌<◌, ◌≡◌, refl, true, false, List, [], ◌∷◌, ◌++◌, arith, length, Bytes, ok,
  append_assoc, ◌∙◌, length-append, sym, ap, drop,
}
use windows_vds.Jsonl.Lex.{skip_jsonl_space, parse_jsonl_string, require_jsonl_char}
use windows_vds.Jsonl.Parse.{
  JsonlField, string_of, array_of, parse_jsonl_value, parse_field, object_next, at_end, object_loop,
  parse_jsonl_object, parse_jsonl_unsigned_array, JsonlValue,
}
use windows_vds.Jsonl.Print.{
  escape_jsonl_string, jsonl_string_value, key_text, jsonl_string_field, jsonl_unsigned_array,
  jsonl_unsigned_array_field,
}
use windows_vds.Jsonl.RoundTrip.{parse_jsonl_string-jsonl_string_value}
use windows_vds.Jsonl.Arrays.{IsNumbers, parse_jsonl_unsigned_array-jsonl_unsigned_array}

-- A field and the text that the printers give for it. Keys are printed with no escapes, so a key
-- must need none.
pub data Printed : JsonlField → Bytes → Type 0 where
  string :
      (key value : Bytes)
      → escape_jsonl_string key ≡ key
      → Printed (record { key = key; value = string_of value }) (jsonl_string_field key value)
  array :
      (key : Bytes) (values : List ℕ)
      → escape_jsonl_string key ≡ key
      → IsNumbers values
      → Printed
          (record { key = key; value = array_of values })
          (jsonl_unsigned_array_field key values)

-- The fields behind the first, each behind its comma.
pub data PrintedTail : List JsonlField → Bytes → Type 0 where
  nil : PrintedTail [] []
  cons :
      {f : JsonlField} {fs : List JsonlField} {text more : Bytes}
      → Printed f text
      → PrintedTail fs more
      → PrintedTail (f ∷ fs) (b',' ∷ (text ++ more))

parse_jsonl_string-key_text :
    (key rest context : Bytes)
    → escape_jsonl_string key ≡ key
    → parse_jsonl_string (key_text key ++ rest) context ≡ ok (key, b':' ∷ rest)
parse_jsonl_string-key_text key rest context plain =
    ap (λ t. parse_jsonl_string t context) text
    ∙ parse_jsonl_string-jsonl_string_value key (b':' ∷ rest) context
  where
    text : key_text key ++ rest ≡ jsonl_string_value key ++ b':' ∷ rest
    text = unfold key_text jsonl_string_value in rw plain (simp append_assoc)

-- The three parts of a field.
parse_field-parts :
    (text t r rest context key : Bytes) {v : JsonlValue}
    → parse_jsonl_string text context ≡ ok (key, t)
    → require_jsonl_char t b':' context ≡ ok r
    → parse_jsonl_value r context ≡ ok (v, rest)
    → parse_field text context ≡ ok (record { key = key; value = v }, rest)
unfolding parse_field
parse_field-parts text t r rest context key p q s = rw (p, q, s)

value_string :
    (t value rest context : Bytes)
    → parse_jsonl_string (b'"' ∷ t) context ≡ ok (value, rest)
    → parse_jsonl_value (b'"' ∷ t) context ≡ ok (string_of value, rest)
unfolding parse_jsonl_value
value_string t value rest context h = rw h

value_array :
    (t rest context : Bytes) (values : List ℕ)
    → parse_jsonl_unsigned_array (b'[' ∷ t) context ≡ ok (values, rest)
    → parse_jsonl_value (b'[' ∷ t) context ≡ ok (array_of values, rest)
unfolding parse_jsonl_value
value_array t rest context values h = rw h

parse_jsonl_value-jsonl_string_value :
    (value rest context : Bytes)
    → parse_jsonl_value (jsonl_string_value value ++ rest) context ≡ ok (string_of value, rest)
unfolding jsonl_string_value
parse_jsonl_value-jsonl_string_value value rest context =
    value_string _ value rest context (parse_jsonl_string-jsonl_string_value value rest context)

parse_jsonl_value-jsonl_unsigned_array :
    (values : List ℕ) (rest context : Bytes)
    → IsNumbers values
    → parse_jsonl_value (jsonl_unsigned_array values ++ rest) context ≡ ok (array_of values, rest)
unfolding jsonl_unsigned_array
parse_jsonl_value-jsonl_unsigned_array values rest context ns =
    value_array _ rest context values
      (parse_jsonl_unsigned_array-jsonl_unsigned_array values rest context ns)

colon : (text context : Bytes) → require_jsonl_char (b':' ∷ text) b':' context ≡ ok text
unfolding require_jsonl_char
colon text context = refl

parse_field-Printed :
    {f : JsonlField} {text : Bytes} (rest context : Bytes)
    → Printed f text
    → parse_field (text ++ rest) context ≡ ok (f, rest)
parse_field-Printed rest context (string key value plain) =
    unfold jsonl_string_field in
    rw append_assoc (
      parse_field-parts _ _ _ rest context key (parse_jsonl_string-key_text key _ context plain)
        (colon _ context) (parse_jsonl_value-jsonl_string_value value rest context))
parse_field-Printed rest context (array key values plain ns) =
    unfold jsonl_unsigned_array_field in
    rw append_assoc (
      parse_field-parts _ _ _ rest context key (parse_jsonl_string-key_text key _ context plain)
        (colon _ context) (parse_jsonl_value-jsonl_unsigned_array values rest context ns))

object_loop-close :
    (fuel : ℕ) (context text t r : Bytes) (fields : List JsonlField) {f : JsonlField}
    → parse_field text context ≡ ok (f, t)
    → object_next (skip_jsonl_space t) context ≡ ok (true, r)
    → object_loop (suc fuel) context fields text
      ≡ at_end (skip_jsonl_space r) context (fields ++ f ∷ [])
unfolding object_loop
object_loop-close fuel context text t r fields p q = rw (p, q)

object_loop-more :
    (fuel : ℕ) (context text t r : Bytes) (fields : List JsonlField) {f : JsonlField}
    → parse_field text context ≡ ok (f, t)
    → object_next (skip_jsonl_space t) context ≡ ok (false, r)
    → object_loop (suc fuel) context fields text ≡ object_loop fuel context (fields ++ f ∷ []) r
unfolding object_loop
object_loop-more fuel context text t r fields p q = rw (p, q)

abbrev closing : Bytes
closing = b'}' ∷ []

object_loop-PrintedTail :
    {fs : List JsonlField} {more : Bytes} (fuel : ℕ) (context : Bytes) (fields : List JsonlField)
    {f : JsonlField} {text : Bytes}
    → length fs < fuel
    → Printed f text
    → PrintedTail fs more
    → object_loop fuel context fields (text ++ (more ++ closing)) ≡ ok (fields ++ f ∷ fs)
object_loop-PrintedTail zero context fields h p t = elim h [ ]
object_loop-PrintedTail (suc fuel) context fields {text = text} h p nil =
    object_loop-close fuel context _ _ [] fields (parse_field-Printed closing context p)
      (unfold object_next skip_jsonl_space in refl)
    ∙ (unfold at_end skip_jsonl_space in refl)
object_loop-PrintedTail (suc fuel) context fields h p (cons {f = g} {text = s} {more = m} q t) =
    object_loop-more fuel context _ _ (s ++ (m ++ closing)) fields
      (parse_field-Printed ((b',' ∷ (s ++ m)) ++ closing) context p)
      (unfold object_next skip_jsonl_space in rw append_assoc)
    ∙ object_loop-PrintedTail fuel context (fields ++ _ ∷ []) (omega arith) q t
    ∙ rw append_assoc

length-PrintedTail :
    {fs : List JsonlField} {more : Bytes} → PrintedTail fs more → length fs ≤ length more
length-PrintedTail nil = omega arith
length-PrintedTail (cons {text = s} {more = m} p t) =
    omega (arith, length-append s m, length-PrintedTail t)

-- A printed field begins with a quote.
Printed-quote : {f : JsonlField} {text : Bytes} → Printed f text → text ≡ b'"' ∷ drop 1 text
Printed-quote (string key value plain) = unfold jsonl_string_field key_text in refl
Printed-quote (array key values plain ns) = unfold jsonl_unsigned_array_field key_text in refl

object_quote :
    (t context : Bytes)
    → parse_jsonl_object (b'{' ∷ b'"' ∷ t) context
      ≡ object_loop (suc (suc (length t))) context [] (b'"' ∷ t)
unfolding parse_jsonl_object
object_quote t context = refl

-- An object of one field or more, each a text printed by `jsonl_string_field` or numbers printed by
-- `jsonl_unsigned_array_field`, with the commas and the braces and nothing else, is parsed to just its
-- fields, in order, where the keys need no escape and the numbers are below `2 ^ 32`.
pub parse_jsonl_object-Printed :
    {f : JsonlField} {fs : List JsonlField} {text more : Bytes} (context : Bytes)
    → Printed f text
    → PrintedTail fs more
    → parse_jsonl_object (b'{' ∷ (text ++ (more ++ b'}' ∷ []))) context ≡ ok (f ∷ fs)
parse_jsonl_object-Printed {f} {fs} {text} {more} context p t =
    let quote = Printed-quote p in
    let fuel : ℕ = suc (suc (length (drop 1 text ++ (more ++ closing)))) in
    ap (λ s. parse_jsonl_object (b'{' ∷ (s ++ (more ++ closing))) context) quote
    ∙ object_quote (drop 1 text ++ (more ++ closing)) context
    ∙ ap (λ s. object_loop fuel context [] (s ++ (more ++ closing))) (sym quote)
    ∙ object_loop-PrintedTail fuel context []
        (omega (
          arith,
          length-append (drop 1 text) (more ++ closing),
          length-append more closing,
          length-PrintedTail t,
        ))
        p t

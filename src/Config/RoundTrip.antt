-- ===== src/Config/RoundTrip.antt =====
-- The text of the controller database in src/vds_config.cc is parsed back.
use windows_vds.Prelude.{
  ℕ, ◌+◌, ◌≡◌, refl, Bool, true, false, List, [], ◌∷◌, ◌++◌, arith, append_assoc, append-nil, Bytes,
  ok, ◌==◌, ◌∙◌, none, All, ap, codes, ◌/◌, ◌%◌, not, sym, bytes_eq_comm, ◌&&◌,
}
use windows_vds.Prelude.Decimal.{is_digit, to_string}
use windows_vds.Jsonl.Parse.{string_of, array_of, JsonlField}
use windows_vds.Jsonl.Print.{
  escape_byte, escape_jsonl_string, hex_char, jsonl_string_value, key_text, jsonl_string_field,
  unsigned_tail, unsigned_items, jsonl_unsigned_array, jsonl_unsigned_array_field,
}
use windows_vds.Jsonl.Fields.{
  require_jsonl_string, require_jsonl_unsigned_array, reject_unknown_jsonl_fields,
}
use windows_vds.Jsonl.Objects.{string, array, nil, cons, parse_jsonl_object-Printed}
use windows_vds.Jsonl.Numbers.{IsDigits, to_string-IsDigits}
use windows_vds.Config.Lookup.{IsDistinct}
use windows_vds.Config.Records.{
  ControllerProfile, ControllerConfig, ConfigDb, parse_controller_profile, controller_profile_name,
  find_address, unspecified, ds5, dse,
}
use windows_vds.Config.Db.{
  serialize_controller, serialize_controllers, serialize_config_db, controller_of_fields,
  parse_controller_line, get_lines, strip_cr, parse_stripped, parse_lines, parse_config_db,
  line_context,
}
use windows_vds.Config.Validation.{validate_ports-IsPortList, IsPortList-IsNumbers}
use windows_vds.Config.Invariant.{IsConfig, IsDb}

parse-controller_profile_name :
    (p : ControllerProfile) → parse_controller_profile (controller_profile_name p) ≡ ok p
unfolding parse_controller_profile controller_profile_name
parse-controller_profile_name unspecified = refl
parse-controller_profile_name ds5 = refl
parse-controller_profile_name dse = refl

abbrev fields_of : ControllerConfig → List JsonlField
fields_of c =
    record { key = codes "address"; value = string_of c.address }
    ∷ record { key = codes "profile"; value = string_of (controller_profile_name c.profile) }
    ∷ record { key = codes "ports"; value = array_of c.ports }
    ∷ []

controller_of_fields_of :
    (c : ControllerConfig) (context : Bytes)
    → IsConfig c
    → controller_of_fields (fields_of c) context ≡ ok c
unfolding controller_of_fields reject_unknown_jsonl_fields require_jsonl_string
    require_jsonl_unsigned_array
controller_of_fields_of c context v = rw (
  v.normal,
  parse-controller_profile_name c.profile,
  validate_ports-IsPortList c.ports v.valid_ports,
)

-- A line without its newline.
abbrev line_of : ControllerConfig → Bytes
line_of c =
    b'{'
    ∷ (jsonl_string_field (codes "address") c.address
        ++ ((b','
              ∷ (jsonl_string_field (codes "profile") (controller_profile_name c.profile)
                  ++ (b',' ∷ (jsonl_unsigned_array_field (codes "ports") c.ports ++ []))))
            ++ b'}' ∷ []))

parse_controller_line-line_of :
    (c : ControllerConfig) (n : ℕ) → IsConfig c → parse_controller_line (line_of c) n ≡ ok c
unfolding parse_controller_line
parse_controller_line-line_of c n v =
    rw
      (parse_jsonl_object-Printed (line_context n)
        (string (codes "address") c.address (unfold escape_jsonl_string in refl))
        (cons
          (string (codes "profile") (controller_profile_name c.profile)
            (unfold escape_jsonl_string in refl))
          (cons
            (array (codes "ports") c.ports (unfold escape_jsonl_string in refl)
              (IsPortList-IsNumbers c.ports v.valid_ports))
            nil)))
      (controller_of_fields_of c (line_context n) v)

serialize_controller-line_of :
    (c : ControllerConfig) (rest : Bytes)
    → serialize_controller c ++ rest ≡ line_of c ++ b'\n' ∷ rest
unfolding serialize_controller
serialize_controller-line_of c rest = simp append_assoc

-- No newline stands in a line.
abbrev OneLine : Bytes → Type 0
OneLine = All (λ c. (c == b'\n') ≡ false)

OneLine-append : (xs ys : Bytes) → OneLine xs → OneLine ys → OneLine (xs ++ ys)
OneLine-append [] ys h k = k
OneLine-append (x ∷ xs) ys h k = (h.0, OneLine-append xs ys h.1 k)

hex_char-OneLine : (d : ℕ) → (hex_char d == b'\n') ≡ false
unfolding hex_char
hex_char-OneLine d = ground arith

escape_byte-OneLine : (c : ℕ) → OneLine (escape_byte c)
unfolding escape_byte
escape_byte-OneLine c = ground (arith, hex_char-OneLine (c / 16), hex_char-OneLine (c % 16))

escape-OneLine : (text : Bytes) → OneLine (escape_jsonl_string text)
unfolding escape_jsonl_string
escape-OneLine [] = tt
escape-OneLine (c ∷ text) =
    OneLine-append (escape_byte c) (escape_jsonl_string text) (escape_byte-OneLine c)
      (escape-OneLine text)

IsDigits-OneLine : (xs : Bytes) → IsDigits xs → OneLine xs
unfolding is_digit
IsDigits-OneLine [] h = tt
IsDigits-OneLine (x ∷ xs) h = (ground arith, IsDigits-OneLine xs h.1)

unsigned_tail-OneLine : (ns : List ℕ) → OneLine (unsigned_tail ns)
unfolding unsigned_tail
unsigned_tail-OneLine [] = tt
unsigned_tail-OneLine (n ∷ ns) = (
  refl,
  OneLine-append (to_string n) (unsigned_tail ns)
      (IsDigits-OneLine (to_string n) (to_string-IsDigits n)) (unsigned_tail-OneLine ns),
)

unsigned_items-OneLine : (ns : List ℕ) → OneLine (unsigned_items ns)
unfolding unsigned_items
unsigned_items-OneLine [] = tt
unsigned_items-OneLine (n ∷ ns) =
    OneLine-append (to_string n) (unsigned_tail ns)
      (IsDigits-OneLine (to_string n) (to_string-IsDigits n)) (unsigned_tail-OneLine ns)

string_field-OneLine : (key value : Bytes) → OneLine key → OneLine (jsonl_string_field key value)
unfolding jsonl_string_field
string_field-OneLine key value h =
    OneLine-append (key_text key) (jsonl_string_value value)
      (refl, OneLine-append key _ h (refl, (refl, tt)))
      (refl, OneLine-append (escape_jsonl_string value) _ (escape-OneLine value) (refl, tt))

array_field-OneLine :
    (key : Bytes) (ns : List ℕ) → OneLine key → OneLine (jsonl_unsigned_array_field key ns)
unfolding jsonl_unsigned_array_field
array_field-OneLine key ns h =
    OneLine-append (key_text key) (jsonl_unsigned_array ns)
      (refl, OneLine-append key _ h (refl, (refl, tt)))
      (refl, OneLine-append (unsigned_items ns) _ (unsigned_items-OneLine ns) (refl, tt))

get_lines-OneLine :
    (line rest : Bytes) → OneLine line → get_lines (line ++ b'\n' ∷ rest) ≡ line ∷ get_lines rest
unfolding get_lines
get_lines-OneLine [] rest h = refl
get_lines-OneLine (c ∷ line) rest h = rw (h.0, get_lines-OneLine line rest h.1)

-- The test of a literal key.
one_line : Bytes → Bool
one_line [] = true
one_line (c ∷ text) = not (c == b'\n') && one_line text

solve : (text : Bytes) → one_line text ≡ true → OneLine text
unfolding one_line
solve [] h = tt
solve (c ∷ text) h = (ground arith, solve text (ground arith))

line_of-OneLine : (c : ControllerConfig) → OneLine (line_of c)
unfolding one_line
line_of-OneLine c =
    let name = controller_profile_name c.profile in
    let ports = jsonl_unsigned_array_field (codes "ports") c.ports in
    let address_part =
      string_field-OneLine (codes "address") c.address (solve (codes "address") refl) in
    let profile_part = string_field-OneLine (codes "profile") name (solve (codes "profile") refl) in
    let ports_part = array_field-OneLine (codes "ports") c.ports (solve (codes "ports") refl) in
    let behind =
      OneLine-append (jsonl_string_field (codes "profile") name) (b',' ∷ (ports ++ [])) profile_part
        (refl, OneLine-append ports [] ports_part tt) in
    (
      refl,
      OneLine-append (jsonl_string_field (codes "address") c.address) _ address_part (
          OneLine-append
            (b',' ∷ (jsonl_string_field (codes "profile") name ++ (b',' ∷ (ports ++ []))))
            (b'}' ∷ []) (refl, behind) (refl, tt)),
    )

strip_cr-append :
    (xs : Bytes) (c : ℕ) → (c == b'\r') ≡ false → strip_cr (xs ++ c ∷ []) ≡ xs ++ c ∷ []
unfolding strip_cr
strip_cr-append [] c h = rw h
strip_cr-append (x ∷ []) c h = rw h
strip_cr-append (x ∷ y ∷ xs) c h = rw (strip_cr-append (y ∷ xs) c h)

strip_cr-line_of : (c : ControllerConfig) → strip_cr (line_of c) ≡ line_of c
strip_cr-line_of c =
    let address = jsonl_string_field (codes "address") c.address in
    let behind =
      b','
      ∷ (jsonl_string_field (codes "profile") (controller_profile_name c.profile)
          ++ (b',' ∷ (jsonl_unsigned_array_field (codes "ports") c.ports ++ []))) in
    let shape : line_of c ≡ (b'{' ∷ (address ++ behind)) ++ b'}' ∷ [] =
      ap (◌∷◌ b'{') (sym (append_assoc address behind (b'}' ∷ []))) in
    rw shape (strip_cr-append (b'{' ∷ (address ++ behind)) b'}' refl)

find_address-append_none :
    (xs ys : List ControllerConfig) (a : Bytes)
    → find_address (xs ++ ys) a ≡ none
    → find_address ys a ≡ none
unfolding find_address
find_address-append_none [] ys a h = h
find_address-append_none (x ∷ xs) ys a h = ground (arith, find_address-append_none xs ys a)

IsDistinct-middle :
    (xs ys : List ControllerConfig) (c : ControllerConfig)
    → IsDistinct (xs ++ c ∷ ys)
    → find_address xs c.address ≡ none
unfolding find_address
IsDistinct-middle [] ys c h = refl
IsDistinct-middle (x ∷ xs) ys c h = ground (
  arith,
  find_address-append_none xs (c ∷ ys) x.address h.0,
  bytes_eq_comm x.address c.address,
  IsDistinct-middle xs ys c h.1,
)

parse_stripped-line_of :
    (acc cs : List ControllerConfig) (c : ControllerConfig) (n : ℕ)
    → IsConfig c
    → IsDistinct (acc ++ c ∷ cs)
    → parse_stripped acc (line_of c) n ≡ ok (acc ++ c ∷ [])
unfolding parse_stripped
parse_stripped-line_of acc cs c n v d =
    rw (parse_controller_line-line_of c n v) (ground (arith, IsDistinct-middle acc cs c d))

parse_lines-ok :
    (acc : List ControllerConfig) (line : Bytes) (lines : List Bytes) (n : ℕ)
    {more : List ControllerConfig}
    → parse_stripped acc (strip_cr line) (n + 1) ≡ ok more
    → parse_lines acc n (line ∷ lines) ≡ parse_lines more (n + 1) lines
unfolding parse_lines
parse_lines-ok acc line lines n h = rw h

first_line :
    (c : ControllerConfig) (cs : List ControllerConfig)
    → get_lines (serialize_controllers (c ∷ cs)) ≡ line_of c ∷ get_lines (serialize_controllers cs)
first_line c cs =
    unfold serialize_controllers in
    rw serialize_controller-line_of
      (get_lines-OneLine (line_of c) (serialize_controllers cs) (line_of-OneLine c))

parse_lines-serialize :
    (cs acc : List ControllerConfig) (n : ℕ)
    → All IsConfig cs
    → IsDistinct (acc ++ cs)
    → parse_lines acc n (get_lines (serialize_controllers cs)) ≡ ok (acc ++ cs)
parse_lines-serialize [] acc n v d =
    unfold serialize_controllers get_lines parse_lines in rw append-nil
parse_lines-serialize (c ∷ cs) acc n v d =
    ap (parse_lines acc n) (first_line c cs)
    ∙ parse_lines-ok acc (line_of c) _ n
        (rw strip_cr-line_of (parse_stripped-line_of acc cs c (n + 1) v.0 d))
    ∙ parse_lines-serialize cs (acc ++ c ∷ []) (n + 1) v.1 (rw append_assoc d)
    ∙ rw append_assoc

-- A valid database is read back from the text that is written for it.
pub parse_config_db-serialize_config_db :
    (db : ConfigDb) → IsDb db → parse_config_db (serialize_config_db db) ≡ ok db
unfolding parse_config_db serialize_config_db
parse_config_db-serialize_config_db db v =
    rw (parse_lines-serialize db.controllers [] 0 v.configs v.distinct)

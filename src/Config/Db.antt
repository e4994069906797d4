-- ===== src/Config/Db.antt =====
-- The database of controllers: the changes, the text format and the file of src/vds_config.cc.
use windows_vds.Prelude.{
  ℕ, ◌+◌, Bool, false, not, ◌||◌, List, [], ◌∷◌, ◌++◌, ◌==◌, if◌then◌else◌, length, Bytes, codes,
  bytes_eq, none, some, Result, ok, err, ◌>>=◌, ◌>>◌,
}
use windows_vds.Prelude.Decimal.{to_string}
use windows_vds.Jsonl.Parse.{JsonlField, parse_jsonl_object}
use windows_vds.Jsonl.Fields.{
  require_jsonl_string, require_jsonl_unsigned_array, reject_unknown_jsonl_fields,
}
use windows_vds.Jsonl.Print.{jsonl_string_field, jsonl_unsigned_array_field}
use windows_vds.Config.Ports.{contains, validate_ports}
use windows_vds.Config.Records.{
  ControllerConfig, ConfigDb, normalize_bluetooth_address, parse_controller_profile,
  controller_profile_name, find_address,
}

unfoldable pub serialize_controller : ControllerConfig → Bytes
serialize_controller c =
    b'{'
    ∷ (jsonl_string_field (codes "address") c.address
        ++ (b','
            ∷ (jsonl_string_field (codes "profile") (controller_profile_name c.profile)
                ++ (b','
                    ∷ (jsonl_unsigned_array_field (codes "ports") c.ports ++ b'}' ∷ b'\n' ∷ [])))))

unfoldable pub serialize_controllers : List ControllerConfig → Bytes
serialize_controllers [] = []
serialize_controllers (c ∷ controllers) =
    serialize_controller c ++ serialize_controllers controllers

unfoldable pub serialize_config_db : ConfigDb → Bytes
serialize_config_db db = serialize_controllers db.controllers

abbrev pub record_fields : List Bytes
record_fields = codes "address" ∷ codes "profile" ∷ codes "ports" ∷ []

unfoldable pub line_context : ℕ → Bytes
line_context line_number = codes "config record at line " ++ to_string line_number

-- From the fields of a line, in the order of the initialisers.
unfoldable pub controller_of_fields : List JsonlField → Bytes → Result ControllerConfig
controller_of_fields fields context = do
  reject_unknown_jsonl_fields fields record_fields context
  raw_address ← require_jsonl_string fields (codes "address") context
  address ← normalize_bluetooth_address raw_address
  raw_profile ← require_jsonl_string fields (codes "profile") context
  profile ← parse_controller_profile raw_profile
  raw_ports ← require_jsonl_unsigned_array fields (codes "ports") context
  ports ← validate_ports raw_ports
  ok (record { address = address; profile = profile; ports = ports })

unfoldable pub parse_controller_line : Bytes → ℕ → Result ControllerConfig
unfolding controller_of_fields line_context
parse_controller_line line line_number =
    parse_jsonl_object line (line_context line_number) >>= λ fields.
    controller_of_fields fields (line_context line_number)

-- What `std::getline` reads, one call after the other: no line follows a final newline.
unfoldable pub push_front : ℕ → List Bytes → List Bytes
push_front c [] = (c ∷ []) ∷ []
push_front c (line ∷ lines) = (c ∷ line) ∷ lines

unfoldable pub get_lines : Bytes → List Bytes
unfolding push_front
get_lines [] = []
get_lines (c ∷ text) =
    let rest = get_lines text in if c == b'\n' then [] ∷ rest else push_front c rest

-- `pop_back` of a final carriage return.
unfoldable pub strip_cr : Bytes → Bytes
strip_cr [] = []
strip_cr (c ∷ []) = if c == b'\r' then [] else c ∷ []
strip_cr (c ∷ d ∷ line) = c ∷ strip_cr (d ∷ line)

unfoldable pub duplicate_line : ℕ → Bytes
duplicate_line line_number = codes "duplicate controller address at line " ++ to_string line_number

-- The rest of the loop's body, for a line that is not empty.
unfoldable pub add_line : List ControllerConfig → Bytes → ℕ → Result (List ControllerConfig)
unfolding parse_controller_line
add_line controllers line line_number = parse_controller_line line line_number >>= λ config.
    elim (find_address controllers config.address) [
      | none ↦ ok (controllers ++ config ∷ [])
      | some _ ↦ err (duplicate_line line_number)
    ]

-- The loop's body: an empty line is skipped.
unfoldable pub parse_stripped : List ControllerConfig → Bytes → ℕ → Result (List ControllerConfig)
unfolding add_line
parse_stripped controllers [] line_number = ok controllers
parse_stripped controllers (c ∷ line) line_number = add_line controllers (c ∷ line) line_number

unfoldable pub parse_lines : List ControllerConfig → ℕ → List Bytes → Result (List ControllerConfig)
parse_lines controllers line_number [] = ok controllers
parse_lines controllers line_number (line ∷ lines) =
    parse_stripped controllers (strip_cr line) (line_number + 1) >>= λ more.
    parse_lines more (line_number + 1) lines

unfoldable pub parse_config_db : Bytes → Result ConfigDb
unfolding parse_lines get_lines strip_cr parse_stripped find_address
parse_config_db text =
    parse_lines [] 0 (get_lines text) >>= λ controllers. ok (record { controllers = controllers })

-- The loop of `upsert_controller_config`.
unfoldable pub replace_or_append : List ControllerConfig → ControllerConfig → List ControllerConfig
unfolding bytes_eq
replace_or_append [] config = config ∷ []
replace_or_append (c ∷ controllers) config =
    if bytes_eq c.address config.address
    then config ∷ controllers
    else c ∷ replace_or_append controllers config

unfoldable pub upsert_controller_config : ConfigDb → ControllerConfig → Result ConfigDb
unfolding replace_or_append
upsert_controller_config db config = do
  address ← normalize_bluetooth_address config.address
  ports ← validate_ports config.ports
  let checked = record config { address = address; ports = ports }
  ok (record { controllers = replace_or_append db.controllers checked })

-- `std::remove_if` and `erase`.
unfoldable pub erase_address : List ControllerConfig → Bytes → List ControllerConfig
unfolding bytes_eq
erase_address [] address = []
erase_address (c ∷ controllers) address =
    let rest = erase_address controllers address in
    if bytes_eq c.address address then rest else c ∷ rest

unfoldable pub remove_controller_config : ConfigDb → Bytes → Result (ConfigDb × Bool)
unfolding erase_address
remove_controller_config db address = do
  normalized ← normalize_bluetooth_address address
  let left = erase_address db.controllers normalized
  ok (record { controllers = left }, not (length left == length db.controllers))

-- Whether some port of the list is available.
unfoldable pub some_available : List ℕ → List ℕ → Bool
unfolding contains
some_available available [] = false
some_available available (port ∷ ports) = contains available port || some_available available ports

unfoldable pub check_assignments : List ℕ → List ControllerConfig → Result (Unit {0})
unfolding some_available
check_assignments available [] = ok tt
check_assignments available (config ∷ controllers) =
    let rest = check_assignments available controllers in
    elim config.ports [
      | [] ↦ rest
      | p ∷ ports ↦
          if some_available available (p ∷ ports)
          then rest
          else err (codes "no allowed virtual port for " ++ config.address)
    ]

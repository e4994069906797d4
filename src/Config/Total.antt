-- ===== src/Config/Total.antt =====
-- Termination of the parsers and checks of src/vds_config.cc.
use windows_vds.Prelude.{
  ℕ, ◌+◌, List, [], ◌∷◌, ◌++◌, Bytes, codes, Option, none, some, Result, err, arith, Answers,
  Answers-bind, Answers-of_ne, if◌then◌else◌, bytes_eq,
}
use windows_vds.Jsonl.Parse.{JsonlField, JsonlValue, parse_jsonl_object}
use windows_vds.Jsonl.Fields.{
  require_jsonl_string, require_jsonl_unsigned_array, reject_unknown_jsonl_fields, find_jsonl_field,
  find_loop, string_or_error, array_or_error,
}
use windows_vds.Jsonl.Total.{parse_jsonl_object_total}
use windows_vds.Config.Ports.{check_range, check_sorted, validate_ports, adjacent_find, sort}
use windows_vds.Config.Records.{
  ControllerConfig, ConfigDb, normal_byte, normalize_loop, normalize_bluetooth_address,
  parse_controller_profile, find_address,
}
use windows_vds.Config.Db.{
  line_context, controller_of_fields, parse_controller_line, get_lines, strip_cr, add_line,
  parse_stripped, parse_lines, parse_config_db, upsert_controller_config, remove_controller_config,
  check_assignments, some_available, record_fields,
}
use windows_vds.Config.Paths.{Platform, check_devices, validate_config_assignments, available_ports}

pub cases-Answers {ℓ κ} :
    {A : Type ℓ} {B : Type κ} (o : Option A) (f : Result B) (g : A → Result B)
    → Answers f
    → ((a : A) → Answers (g a))
    → Answers (elim o [ none ↦ f | some a ↦ g a ])
cases-Answers none f g h k = h
cases-Answers (some a) f g h k = k a

find_loop-Answers :
    (found : Option JsonlValue) (fields : List JsonlField) (key context : Bytes)
    → Answers (find_loop found fields key context)
unfolding find_loop
find_loop-Answers found [] key context = tt
find_loop-Answers none (f ∷ fields) key context =
    find_loop-Answers (if bytes_eq f.key key then some f.value else none) fields key context
find_loop-Answers (some v) (f ∷ fields) key context =
    ground (arith, find_loop-Answers (some v) fields key context)

pub require_jsonl_string-Answers :
    (fields : List JsonlField) (key context : Bytes)
    → Answers (require_jsonl_string fields key context)
unfolding require_jsonl_string find_jsonl_field string_or_error
require_jsonl_string-Answers fields key context =
    Answers-bind (find_loop none fields key context) _ (find_loop-Answers none fields key context)
      found
  where
    found : (value : Option JsonlValue) → Answers (string_or_error value key context)
    found none = tt
    found (some v) = ground arith

pub require_jsonl_unsigned_array-Answers :
    (fields : List JsonlField) (key context : Bytes)
    → Answers (require_jsonl_unsigned_array fields key context)
unfolding require_jsonl_unsigned_array find_jsonl_field array_or_error
require_jsonl_unsigned_array-Answers fields key context =
    Answers-bind (find_loop none fields key context) _ (find_loop-Answers none fields key context)
      found
  where
    found : (value : Option JsonlValue) → Answers (array_or_error value key context)
    found none = tt
    found (some v) = ground arith

pub reject_unknown_jsonl_fields-Answers :
    (fields : List JsonlField) (expected : List Bytes) (context : Bytes)
    → Answers (reject_unknown_jsonl_fields fields expected context)
unfolding reject_unknown_jsonl_fields
reject_unknown_jsonl_fields-Answers [] expected context = tt
reject_unknown_jsonl_fields-Answers (f ∷ fields) expected context =
    ground (arith, reject_unknown_jsonl_fields-Answers fields expected context)

normal_byte-Answers : (address : Bytes) (i c : ℕ) → Answers (normal_byte address i c)
unfolding normal_byte
normal_byte-Answers address i c = ground arith

normalize_loop-Answers :
    (address : Bytes) (i : ℕ) (text : Bytes) → Answers (normalize_loop address i text)
unfolding normalize_loop
normalize_loop-Answers address i [] = tt
normalize_loop-Answers address i (c ∷ text) =
    Answers-bind (normal_byte address i c) _ (normal_byte-Answers address i c) λ d.
      Answers-bind (normalize_loop address (i + 1) text) _
        (normalize_loop-Answers address (i + 1) text) (λ n. tt)

pub normalize_bluetooth_address-Answers :
    (address : Bytes) → Answers (normalize_bluetooth_address address)
unfolding normalize_bluetooth_address
normalize_bluetooth_address-Answers address =
    ground (arith, normalize_loop-Answers address 0 address)

pub parse_controller_profile-Answers :
    (profile : Bytes) → Answers (parse_controller_profile profile)
unfolding parse_controller_profile
parse_controller_profile-Answers profile = ground arith

check_range-Answers : (ports : List ℕ) → Answers (check_range ports)
unfolding check_range
check_range-Answers [] = tt
check_range-Answers (port ∷ ports) = ground (arith, check_range-Answers ports)

pub validate_ports-Answers : (ports : List ℕ) → Answers (validate_ports ports)
unfolding validate_ports check_sorted
validate_ports-Answers ports =
    cases-Answers (adjacent_find (sort ports)) _ _
      (Answers-bind (check_range (sort ports)) _ (check_range-Answers (sort ports)) (λ _. tt))
      (λ port. tt)

controller_of_fields-Answers :
    (fields : List JsonlField) (context : Bytes) → Answers (controller_of_fields fields context)
unfolding controller_of_fields
controller_of_fields-Answers fields context =
    Answers-bind _ _ (reject_unknown_jsonl_fields-Answers fields record_fields context) λ _.
      Answers-bind _ _ (require_jsonl_string-Answers fields (codes "address") context)
        λ raw_address. Answers-bind _ _ (normalize_bluetooth_address-Answers raw_address) λ address.
          Answers-bind _ _ (require_jsonl_string-Answers fields (codes "profile") context)
            λ raw_profile.
              Answers-bind _ _ (parse_controller_profile-Answers raw_profile) λ profile.
                Answers-bind _ _
                  (require_jsonl_unsigned_array-Answers fields (codes "ports") context)
                  λ raw_ports. Answers-bind _ _ (validate_ports-Answers raw_ports) (λ ports. tt)

add_line-Answers :
    (cs : List ControllerConfig) (line : Bytes) (n : ℕ) → Answers (add_line cs line n)
unfolding add_line parse_controller_line
add_line-Answers cs line n =
    Answers-bind (parse_controller_line line n) _
      (Answers-bind (parse_jsonl_object line (line_context n)) _
        (Answers-of_ne _ (parse_jsonl_object_total line (line_context n)))
        (λ fields. controller_of_fields-Answers fields (line_context n)))
      λ config. cases-Answers (find_address cs config.address) _ _ tt (λ _. tt)

parse_stripped-Answers :
    (cs : List ControllerConfig) (line : Bytes) (n : ℕ) → Answers (parse_stripped cs line n)
unfolding parse_stripped
parse_stripped-Answers cs [] n = tt
parse_stripped-Answers cs (c ∷ line) n = add_line-Answers cs (c ∷ line) n

parse_lines-Answers :
    (cs : List ControllerConfig) (n : ℕ) (lines : List Bytes) → Answers (parse_lines cs n lines)
unfolding parse_lines
parse_lines-Answers cs n [] = tt
parse_lines-Answers cs n (line ∷ lines) =
    Answers-bind _ _ (parse_stripped-Answers cs (strip_cr line) (n + 1))
      λ more. parse_lines-Answers more (n + 1) lines

pub parse_config_db-Answers : (text : Bytes) → Answers (parse_config_db text)
unfolding parse_config_db
parse_config_db-Answers text =
    Answers-bind _ _ (parse_lines-Answers [] 0 (get_lines text)) (λ controllers. tt)

pub upsert_controller_config-Answers :
    (db : ConfigDb) (config : ControllerConfig) → Answers (upsert_controller_config db config)
unfolding upsert_controller_config
upsert_controller_config-Answers db config =
    Answers-bind _ _ (normalize_bluetooth_address-Answers config.address)
      λ address. Answers-bind _ _ (validate_ports-Answers config.ports) (λ ports. tt)

pub remove_controller_config-Answers :
    (db : ConfigDb) (address : Bytes) → Answers (remove_controller_config db address)
unfolding remove_controller_config
remove_controller_config-Answers db address =
    Answers-bind _ _ (normalize_bluetooth_address-Answers address) (λ normalized. tt)

check_assignments-Answers :
    (available : List ℕ) (cs : List ControllerConfig) → Answers (check_assignments available cs)
unfolding check_assignments
check_assignments-Answers available [] = tt
check_assignments-Answers available (config ∷ cs) =
    assigned config.ports (check_assignments-Answers available cs)
  where
    assigned :
        (ports : List ℕ)
        → Answers (check_assignments available cs)
        → Answers (elim ports [
          | [] ↦ check_assignments available cs
          | p ∷ ports ↦
              if some_available available (p ∷ ports)
              then check_assignments available cs
              else err (codes "no allowed virtual port for " ++ config.address)
        ])
    assigned [] h = h
    assigned (p ∷ ports) h = ground arith

pub validate_config_assignments-Answers :
    (platform : Platform) (db : ConfigDb) (devices : List Bytes)
    → Answers (validate_config_assignments platform db devices)
unfolding validate_config_assignments check_devices
validate_config_assignments-Answers platform db devices = checked db.controllers devices
  where
    checked :
        (cs : List ControllerConfig) (devices : List Bytes)
        → Answers (check_devices platform cs devices)
    checked [] devices = tt
    checked (c ∷ cs) [] = tt
    checked (c ∷ cs) (d ∷ devices) =
        check_assignments-Answers (sort (available_ports platform (d ∷ devices))) (c ∷ cs)

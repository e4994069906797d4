-- ===== src/Config/Ports.antt =====
-- Port lists in src/vds_config.cc: validation, parsing, printing and the choice of a port.
use windows_vds.Prelude.{
  ℕ, ◌-◌, Bool, false, not, ◌||◌, List, [], ◌∷◌, ◌++◌, leb, ◌==◌, if◌then◌else◌, Bytes, codes,
  Option, none, some, Result, ok, err, ◌>>=◌,
}
use windows_vds.Prelude.Decimal.{to_string}
use windows_vds.Hex.{is_decimal_number}
use windows_vds.Jsonl.Parse.{decimal_value}
use windows_vds.Jsonl.Print.{unsigned_items}

-- `VDS_MAX_PORT_COUNT` of include/uapi/vds.h.
abbrev pub max_port_count : ℕ
max_port_count = 4

-- `std::sort` on numbers.
unfoldable pub insert_sorted : ℕ → List ℕ → List ℕ
insert_sorted n [] = n ∷ []
insert_sorted n (m ∷ ns) = if leb n m then n ∷ m ∷ ns else m ∷ insert_sorted n ns

unfoldable pub sort : List ℕ → List ℕ
unfolding insert_sorted
sort [] = []
sort (n ∷ ns) = insert_sorted n (sort ns)

-- `std::adjacent_find`.
unfoldable pub adjacent_find : List ℕ → Option ℕ
adjacent_find [] = none
adjacent_find (n ∷ []) = none
adjacent_find (n ∷ m ∷ ns) = if n == m then some n else adjacent_find (m ∷ ns)

unfoldable pub range_error : ℕ → Bytes
range_error port =
    codes "port must be in range 0.."
    ++ (to_string (max_port_count - 1) ++ (codes ": " ++ to_string port))

-- The loop that refuses ports out of range.
unfoldable pub check_range : List ℕ → Result (Unit {0})
check_range [] = ok tt
check_range (port ∷ ports) =
    if leb max_port_count port then err (range_error port) else check_range ports

unfoldable pub check_sorted : List ℕ → Result (List ℕ)
unfolding adjacent_find check_range
check_sorted ports = elim (adjacent_find ports) [
  | some port ↦ err (codes "duplicate port: " ++ to_string port)
  | none ↦ check_range ports >>= λ _. ok ports
]

-- The sorted list is what the reference argument holds afterwards.
unfoldable pub validate_ports : List ℕ → Result (List ℕ)
unfolding sort check_sorted
validate_ports ports = check_sorted (sort ports)

-- One part of the ports list, as a number.
unfoldable pub parse_port : Bytes → Result ℕ
unfolding is_decimal_number decimal_value
parse_port part =
    if is_decimal_number part
    then decimal_value (codes "port number overflow: " ++ part) 0 part
    else err (codes "port must be a number: " ++ part)

-- The parts of a text between commas. Only the last part has no comma behind it.
unfoldable pub comma_parts : Bytes → List Bytes
comma_parts [] = [] ∷ []
comma_parts (c ∷ text) =
    let rest = comma_parts text in
    if c == b','
    then [] ∷ rest
    else elim rest [ [] ↦ (c ∷ []) ∷ [] | part ∷ parts ↦ (c ∷ part) ∷ parts ]

unfoldable pub reject_empty : List Bytes → Result (List Bytes)
reject_empty [] = ok []
reject_empty ([] ∷ parts) = err (codes "empty port in ports list")
reject_empty ((c ∷ part) ∷ parts) = reject_empty parts >>= λ rest. ok ((c ∷ part) ∷ rest)

unfoldable pub split_commas : Bytes → Result (List Bytes)
unfolding comma_parts reject_empty
split_commas text = reject_empty (comma_parts text)

unfoldable pub parse_each_port : List Bytes → Result (List ℕ)
unfolding parse_port
parse_each_port [] = ok []
parse_each_port (part ∷ parts) =
    parse_port part >>= λ port. parse_each_port parts >>= λ ports. ok (port ∷ ports)

unfoldable pub parse_ports : Bytes → Result (List ℕ)
unfolding split_commas parse_each_port validate_ports
parse_ports [] = ok []
parse_ports (c ∷ text) =
    split_commas (c ∷ text) >>= λ parts. parse_each_port parts >>= λ ports. validate_ports ports

-- Numbers with commas between them, as in the arrays of src/jsonl.cc.
unfoldable pub format_ports : List ℕ → Bytes
unfolding unsigned_items
format_ports ports = unsigned_items ports

-- `std::find` among ports.
unfoldable pub contains : List ℕ → ℕ → Bool
contains [] port = false
contains (p ∷ ports) port = p == port || contains ports port

-- The loop of `select_controller_config_port` over the targets.
unfoldable pub first_free : List ℕ → List ℕ → List ℕ → Option ℕ
unfolding contains
first_free [] candidates occupied = none
first_free (port ∷ targets) candidates occupied =
    let rest = first_free targets candidates occupied in
    if not (contains candidates port)
    then rest
    else if contains occupied port
    then rest
    else some port

-- ===== src/Config/Records.antt =====
-- Controllers in src/vds_config.cc: addresses, profiles and the rules of a controller's ports.
use windows_vds.Prelude.{
  ℕ, ◌+◌, Bool, true, false, ◌||◌, List, [], ◌∷◌, ◌++◌, ◌==◌, within, if◌then◌else◌, length, Bytes,
  codes, bytes_eq, Option, none, some, Result, ok, err, ◌>>=◌,
}
use windows_vds.Config.Ports.{contains, first_free}

pub data ControllerProfile : Type 0 where
  unspecified ds5 dse : ControllerProfile

pub record ControllerConfig : Type 0 where
  pub address : Bytes
  pub profile : ControllerProfile
  pub ports : List ℕ

pub record ConfigDb : Type 0 where
  pub controllers : List ControllerConfig

-- `std::isxdigit` in the C locale.
unfoldable pub is_hex_digit : ℕ → Bool
is_hex_digit c = within b'0' b'9' c || within b'a' b'f' c || within b'A' b'F' c

-- `std::tolower` in the C locale.
unfoldable pub lowercase_hex : ℕ → ℕ
lowercase_hex c = if within b'A' b'Z' c then c + 32 else c

abbrev pub is_separator : ℕ → Bool
is_separator i = i == 2 || i == 5 || i == 8 || i == 11 || i == 14

unfoldable pub invalid_address : Bytes → Bytes
invalid_address address = codes "invalid Bluetooth address: " ++ address

-- What the loop's body appends for the byte at index `i`.
unfoldable pub normal_byte : Bytes → ℕ → ℕ → Result ℕ
unfolding is_hex_digit lowercase_hex
normal_byte address i c =
    if is_separator i
    then (if c == b':' then ok b':' else err (invalid_address address))
    else if is_hex_digit c
    then ok (lowercase_hex c)
    else err (invalid_address address)

-- The loop from index `i` on.
unfoldable pub normalize_loop : Bytes → ℕ → Bytes → Result Bytes
normalize_loop address i [] = ok []
normalize_loop address i (c ∷ text) =
    normal_byte address i c >>= λ d. normalize_loop address (i + 1) text >>= λ n. ok (d ∷ n)

unfoldable pub normalize_bluetooth_address : Bytes → Result Bytes
unfolding normalize_loop normal_byte
normalize_bluetooth_address address =
    if length address == 17 then normalize_loop address 0 address else err (invalid_address address)

unfoldable pub parse_controller_profile : Bytes → Result ControllerProfile
unfolding bytes_eq
parse_controller_profile profile =
    if bytes_eq profile []
    then ok unspecified
    else if bytes_eq profile (codes "ds5")
    then ok ds5
    else if bytes_eq profile (codes "dse")
    then ok dse
    else err (codes "unknown profile: " ++ profile)

unfoldable pub controller_profile_name : ControllerProfile → Bytes
controller_profile_name unspecified = []
controller_profile_name ds5 = codes "ds5"
controller_profile_name dse = codes "dse"

unfoldable pub controller_config_allows_port : ControllerConfig → ℕ → Bool
unfolding contains
controller_config_allows_port config port = elim config.ports [
  | [] ↦ true
  | _ ↦ contains config.ports port
]

-- All ports when the list is empty, `for (port = 0; port < kMaxPortCount; ++port)`.
unfoldable pub controller_config_port_targets : ControllerConfig → List ℕ
controller_config_port_targets config = elim config.ports [
  | [] ↦ 0 ∷ 1 ∷ 2 ∷ 3 ∷ []
  | _ ↦ config.ports
]

unfoldable pub select_controller_config_port : ControllerConfig → List ℕ → List ℕ → Option ℕ
unfolding controller_config_port_targets first_free
select_controller_config_port config candidate_ports occupied_ports =
    first_free (controller_config_port_targets config) candidate_ports occupied_ports

unfoldable pub controller_config_has_candidate_port : ControllerConfig → List ℕ → Bool
unfolding select_controller_config_port
controller_config_has_candidate_port config candidate_ports =
    elim (select_controller_config_port config candidate_ports []) [ none ↦ false | some _ ↦ true ]

-- The address that a search compares with: an exception of the normalisation is caught.
unfoldable pub search_address : Bytes → Bytes
unfolding normalize_bluetooth_address
search_address address =
    if length address == 17
    then elim (normalize_bluetooth_address address) [ ok n ↦ n | _ ↦ address ]
    else address

unfoldable pub find_address : List ControllerConfig → Bytes → Option ControllerConfig
unfolding bytes_eq
find_address [] address = none
find_address (c ∷ controllers) address =
    if bytes_eq c.address address then some c else find_address controllers address

unfoldable pub find_controller_config_by_address : ConfigDb → Bytes → Option ControllerConfig
unfolding find_address search_address
find_controller_config_by_address db address = find_address db.controllers (search_address address)

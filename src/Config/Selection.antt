-- ===== src/Config/Selection.antt =====
-- The choice of a port and the lookups behind the changes, in src/vds_config.cc.
use windows_vds.Prelude.{
  zero, suc, ℕ, ◌<◌, Bool, true, false, List, [], ◌∷◌, Bytes, none, some, ok, arith, ◌≡◌, refl, ◌∙◌,
  bind-eq-ok, if◌then◌else◌, bytes_eq,
}
use windows_vds.Config.Ports.{contains, first_free, validate_ports}
use windows_vds.Config.Records.{
  ControllerConfig, ConfigDb, controller_config_allows_port, controller_config_port_targets,
  select_controller_config_port, normalize_bluetooth_address, search_address,
  find_controller_config_by_address,
}
use windows_vds.Hex.{is_decimal_number}
use windows_vds.Prelude.Decimal.{to_string}
use windows_vds.Config.Paths.{Platform, windows, linux, port_path_for_index, port_index_from_path}
use windows_vds.Config.Db.{
  upsert_controller_config, remove_controller_config, replace_or_append, erase_address,
}
use windows_vds.Config.Lookup.{find_address-replace_or_append, find_address-erase_address}

-- A port may be used: it is a target, a candidate, and not taken.
abbrev Usable : List ℕ → List ℕ → List ℕ → ℕ → Type 0
Usable targets candidates occupied port =
    (contains targets port ≡ true)
    × (contains candidates port ≡ true)
    × (contains occupied port ≡ false)

first_free-Usable :
    (targets candidates occupied : List ℕ) (port : ℕ)
    → first_free targets candidates occupied ≡ some port
    → Usable targets candidates occupied port
unfolding first_free contains
first_free-Usable [] candidates occupied port h = cc h
first_free-Usable (t ∷ targets) candidates occupied port h =
    ground (arith, first_free-Usable targets candidates occupied port)

first_free-none :
    (targets candidates occupied : List ℕ) (port : ℕ)
    → first_free targets candidates occupied ≡ none
    → contains targets port ≡ true
    → contains candidates port ≡ true
    → contains occupied port ≡ true
unfolding first_free contains
first_free-none [] candidates occupied port h t c = cc t
first_free-none (t ∷ targets) candidates occupied port h q c =
    ground (arith, first_free-none targets candidates occupied port)

abbrev with_ports : ControllerConfig → List ℕ → ControllerConfig
with_ports config ports = record config { ports = ports }

targets-allows :
    (config : ControllerConfig) (ports : List ℕ) (port : ℕ)
    → port < 4
    → contains (controller_config_port_targets (with_ports config ports)) port
      ≡ controller_config_allows_port (with_ports config ports) port
unfolding controller_config_port_targets controller_config_allows_port
targets-allows config [] port lt = unfold contains in ground arith
targets-allows config (p ∷ ports) port lt = refl

targets-allowed :
    (config : ControllerConfig) (ports : List ℕ) (port : ℕ)
    → contains (controller_config_port_targets (with_ports config ports)) port ≡ true
    → controller_config_allows_port (with_ports config ports) port ≡ true
unfolding controller_config_port_targets controller_config_allows_port
targets-allowed config [] port h = refl
targets-allowed config (p ∷ ports) port h = h

-- A selected port is one that the configuration allows, that is a candidate, and that is not
-- occupied.
pub select_controller_config_port-some :
    (config : ControllerConfig) (candidates occupied : List ℕ) (port : ℕ)
    → select_controller_config_port config candidates occupied ≡ some port
    → (controller_config_allows_port config port ≡ true)
      × (contains candidates port ≡ true)
      × (contains occupied port ≡ false)
unfolding select_controller_config_port
select_controller_config_port-some config candidates occupied port h =
    let (t, c, o) =
      first_free-Usable (controller_config_port_targets config) candidates occupied port h in
    (targets-allowed config config.ports port t, c, o)

-- No port is selected only if each port that the configuration allows and that is a candidate,
-- among the four ports, is occupied.
pub select_controller_config_port-none :
    (config : ControllerConfig) (candidates occupied : List ℕ) (port : ℕ)
    → select_controller_config_port config candidates occupied ≡ none
    → port < 4
    → controller_config_allows_port config port ≡ true
    → contains candidates port ≡ true
    → contains occupied port ≡ true
unfolding select_controller_config_port
select_controller_config_port-none config candidates occupied port h lt a c =
    first_free-none (controller_config_port_targets config) candidates occupied port h
      (targets-allows config config.ports port lt ∙ a) c

-- After an accepted update a lookup of the normal form of its address finds the checked
-- configuration, and a lookup of any other address finds what it found before.
pub find_address-upsert_controller_config :
    (db db' : ConfigDb) (config : ControllerConfig) (address : Bytes) (ports : List ℕ)
    (searched : Bytes)
    → normalize_bluetooth_address config.address ≡ ok address
    → validate_ports config.ports ≡ ok ports
    → upsert_controller_config db config ≡ ok db'
    → find_controller_config_by_address db' searched ≡ (
        if bytes_eq address (search_address searched)
        then some (record { address = address; profile = config.profile; ports = ports })
        else find_controller_config_by_address db searched)
unfolding upsert_controller_config find_controller_config_by_address
find_address-upsert_controller_config db db' config address ports searched a p h =
    let checked : ControllerConfig = record {
      address = address;
      profile = config.profile;
      ports = ports;
    } in
    let (n, e, rest) = bind-eq-ok (normalize_bluetooth_address config.address) _ h in
    let (ns, f, last) = bind-eq-ok (validate_ports config.ports) _ rest in
    let same : n ≡ address = cc in
    let same_ports : ns ≡ ports = cc in
    let shape : db' ≡ record { controllers = replace_or_append db.controllers checked } = cc in
    rw shape (find_address-replace_or_append db.controllers checked (search_address searched))

-- After an accepted removal a lookup of the normal form of the address finds nothing, and a lookup
-- of any other address finds what it found before.
pub find_address-remove_controller_config :
    (db db' : ConfigDb) (address normal searched : Bytes) (removed : Bool)
    → normalize_bluetooth_address address ≡ ok normal
    → remove_controller_config db address ≡ ok (db', removed)
    → find_controller_config_by_address db' searched ≡ (
        if bytes_eq normal (search_address searched)
        then none
        else find_controller_config_by_address db searched)
unfolding remove_controller_config find_controller_config_by_address
find_address-remove_controller_config db db' address normal searched removed a h =
    let (n, e, rest) = bind-eq-ok (normalize_bluetooth_address address) _ h in
    let same : n ≡ normal = cc in
    let shape : db' ≡ record { controllers = erase_address db.controllers normal } = cc in
    rw shape (find_address-erase_address db.controllers normal (search_address searched))

-- The path of each of the four ports is made, and is read back to that port, on both platforms.
pub port_index_from_path-port_path_for_index :
    (platform : Platform) (port : ℕ)
    → port < 4
    → (path : Bytes) × (port_path_for_index platform port ≡ ok path)
      × (port_index_from_path platform path ≡ some port)
unfolding port_path_for_index port_index_from_path to_string is_decimal_number
port_index_from_path-port_path_for_index windows zero lt = (_, refl, refl)
port_index_from_path-port_path_for_index windows (suc zero) lt = (_, refl, refl)
port_index_from_path-port_path_for_index windows (suc (suc zero)) lt = (_, refl, refl)
port_index_from_path-port_path_for_index windows (suc (suc (suc zero))) lt = (_, refl, refl)
port_index_from_path-port_path_for_index windows (suc (suc (suc (suc n)))) lt = absurd (omega arith)
port_index_from_path-port_path_for_index linux zero lt = (_, refl, refl)
port_index_from_path-port_path_for_index linux (suc zero) lt = (_, refl, refl)
port_index_from_path-port_path_for_index linux (suc (suc zero)) lt = (_, refl, refl)
port_index_from_path-port_path_for_index linux (suc (suc (suc zero))) lt = (_, refl, refl)
port_index_from_path-port_path_for_index linux (suc (suc (suc (suc n)))) lt = absurd (omega arith)

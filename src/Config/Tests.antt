-- ===== src/Config/Tests.antt =====
-- The theorems on the controller database at concrete inputs.
use windows_vds.Config.Paths.{windows, port_path_for_index, port_index_from_path}
use windows_vds.Prelude.{
  ℕ, ◌≡◌, refl, true, false, [], ◌∷◌, Bytes, codes, bytes_eq, some, none, ok, arith, if◌then◌else◌,
  length,
}
use windows_vds.Jsonl.Parse.{parse_jsonl_object}
use windows_vds.Jsonl.Fields.{
  reject_unknown_jsonl_fields, require_jsonl_string, require_jsonl_unsigned_array,
}
use windows_vds.Config.Ports.{validate_ports, contains}
use windows_vds.Config.Records.{
  parse_controller_profile, ControllerConfig, ConfigDb, ds5, dse, unspecified,
  normalize_bluetooth_address, find_controller_config_by_address, search_address,
  controller_config_allows_port, select_controller_config_port,
}
use windows_vds.Config.Db.{
  parse_config_db, serialize_config_db, upsert_controller_config, remove_controller_config,
}
use windows_vds.Config.Validation.{IsPortList, validate_ports-eq-ok}
use windows_vds.Config.Addresses.{IsLoweredFrom, normalize_bluetooth_address-lowered}
use windows_vds.Config.Invariant.{IsDb, parse_config_db-IsDb, upsert_controller_config-IsDb}
use windows_vds.Config.RoundTrip.{parse_config_db-serialize_config_db}
use windows_vds.Config.Selection.{
  select_controller_config_port-some, select_controller_config_port-none,
  find_address-upsert_controller_config, find_address-remove_controller_config,
  port_index_from_path-port_path_for_index,
}

abbrev raw : Bytes
raw = codes "AA:bb:0C:dd:EE:0f"

abbrev normal : Bytes
normal = codes "aa:bb:0c:dd:ee:0f"

abbrev other : Bytes
other = codes "00:11:22:33:44:55"

abbrev first : ControllerConfig
first = record { address = normal; profile = ds5; ports = 0 ∷ 2 ∷ [] }

abbrev second : ControllerConfig
second = record { address = other; profile = unspecified; ports = [] }

abbrev two : ConfigDb
two = record { controllers = first ∷ second ∷ [] }

abbrev changed : ControllerConfig
changed = record { address = raw; profile = dse; ports = 3 ∷ 1 ∷ [] }

abbrev stored : ControllerConfig
stored = record { address = normal; profile = dse; ports = 1 ∷ 3 ∷ [] }

abbrev after_upsert : ConfigDb
after_upsert = record { controllers = stored ∷ second ∷ [] }

abbrev after_removal : ConfigDb
after_removal = record { controllers = second ∷ [] }

normalized : normalize_bluetooth_address raw ≡ ok normal
unfolding normalize_bluetooth_address
normalized = refl

validated : validate_ports (3 ∷ 1 ∷ []) ≡ ok (1 ∷ 3 ∷ [])
unfolding validate_ports
validated = refl

upserted : upsert_controller_config two changed ≡ ok after_upsert
unfolding upsert_controller_config normalize_bluetooth_address validate_ports
upserted = refl

removed : remove_controller_config two raw ≡ ok (after_removal, true)
unfolding remove_controller_config normalize_bluetooth_address
removed = refl

selected : select_controller_config_port first (0 ∷ 1 ∷ 2 ∷ []) (0 ∷ []) ≡ some 2
unfolding select_controller_config_port
selected = refl

unselected : select_controller_config_port first (0 ∷ 1 ∷ 2 ∷ []) (0 ∷ 2 ∷ []) ≡ none
unfolding select_controller_config_port
unselected = refl

two-IsDb : IsDb two
unfolding normalize_bluetooth_address find_controller_config_by_address
two-IsDb = record {
  configs = (
    record { normal = refl; valid_ports = (omega arith, omega arith, omega arith) },
    (record { normal = refl; valid_ports = tt }, tt),
  );
  distinct = (refl, (refl, tt));
}

abbrev file_text : Bytes
file_text = codes "{\"address\":\"AA:bb:0C:dd:EE:0f\",\"profile\":\"dse\",\"ports\":[3,1]}\n\n"

loaded : parse_config_db file_text ≡ ok (record { controllers = stored ∷ [] })
unfolding parse_config_db parse_jsonl_object reject_unknown_jsonl_fields require_jsonl_string
    normalize_bluetooth_address parse_controller_profile require_jsonl_unsigned_array validate_ports
loaded = refl

parse_config_db-serialize_config_db_example : parse_config_db (serialize_config_db two) ≡ ok two
parse_config_db-serialize_config_db_example = parse_config_db-serialize_config_db two two-IsDb

parse_config_db-IsDb_example : IsDb (record { controllers = stored ∷ [] })
parse_config_db-IsDb_example =
    parse_config_db-IsDb file_text (record { controllers = stored ∷ [] }) loaded

upsert_controller_config-IsDb_example : IsDb after_upsert
upsert_controller_config-IsDb_example =
    upsert_controller_config-IsDb two after_upsert changed two-IsDb upserted

find_address-upsert_controller_config_example :
    find_controller_config_by_address after_upsert raw ≡ (
      if bytes_eq normal (search_address raw)
      then some stored
      else find_controller_config_by_address two raw)
find_address-upsert_controller_config_example =
    find_address-upsert_controller_config two after_upsert changed normal (1 ∷ 3 ∷ []) raw
      normalized validated upserted

find_address-remove_controller_config_example :
    find_controller_config_by_address after_removal raw ≡ (
      if bytes_eq normal (search_address raw)
      then none
      else find_controller_config_by_address two raw)
find_address-remove_controller_config_example =
    find_address-remove_controller_config two after_removal raw normal raw true normalized removed

select_controller_config_port-some_example :
    (controller_config_allows_port first 2 ≡ true)
    × (contains (0 ∷ 1 ∷ 2 ∷ []) 2 ≡ true)
    × (contains (0 ∷ []) 2 ≡ false)
select_controller_config_port-some_example =
    select_controller_config_port-some first (0 ∷ 1 ∷ 2 ∷ []) (0 ∷ []) 2 selected

allowed : controller_config_allows_port first 2 ≡ true
unfolding controller_config_allows_port
allowed = refl

candidate : contains (0 ∷ 1 ∷ 2 ∷ []) 2 ≡ true
unfolding contains
candidate = refl

select_controller_config_port-none_example : contains (0 ∷ 2 ∷ []) 2 ≡ true
select_controller_config_port-none_example =
    select_controller_config_port-none first (0 ∷ 1 ∷ 2 ∷ []) (0 ∷ 2 ∷ []) 2 unselected
      (omega arith) allowed candidate

validate_ports-eq-ok_example :
    IsPortList (1 ∷ 3 ∷ []) × ((p : ℕ) → contains (1 ∷ 3 ∷ []) p ≡ contains (3 ∷ 1 ∷ []) p)
validate_ports-eq-ok_example = validate_ports-eq-ok (3 ∷ 1 ∷ []) (1 ∷ 3 ∷ []) validated

normalize_bluetooth_address-lowered_example :
    (length raw ≡ 17)
    × IsLoweredFrom 0 raw normal
    × (normalize_bluetooth_address normal ≡ ok normal)
normalize_bluetooth_address-lowered_example =
    normalize_bluetooth_address-lowered raw normal normalized

port_index_from_path-port_path_for_index_example :
    (path : Bytes) × (port_path_for_index windows 3 ≡ ok path)
    × (port_index_from_path windows path ≡ some 3)
port_index_from_path-port_path_for_index_example =
    port_index_from_path-port_path_for_index windows 3 (omega arith)

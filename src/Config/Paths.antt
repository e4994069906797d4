-- ===== src/Config/Paths.antt =====
-- Port paths and the check of the assignments in src/vds_config.cc, on both platforms.
use windows_vds.Prelude.{
  ℕ, ◌+◌, ◌-◌, ◌*◌, Bool, false, List, [], ◌∷◌, ◌++◌, ltb, leb, ◌==◌, if◌then◌else◌, Bytes, codes,
  Option, none, some, Result, ok, err,
}
use windows_vds.Prelude.Decimal.{to_string}
use windows_vds.Hex.{is_decimal_number}
use windows_vds.Config.Ports.{max_port_count, range_error, sort}
use windows_vds.Config.Records.{ControllerConfig, ConfigDb, controller_config_allows_port}
use windows_vds.Config.Db.{check_assignments}

-- `#ifdef _WIN32`.
pub data Platform : Type 0 where
  windows linux : Platform

-- The path behind a prefix, if it begins with it: `rfind(prefix, 0) == 0` and `substr`.
unfoldable pub strip_prefix : Bytes → Bytes → Option Bytes
strip_prefix [] path = some path
strip_prefix (p ∷ prefix) [] = none
strip_prefix (p ∷ prefix) (c ∷ path) = if p == c then strip_prefix prefix path else none

unfoldable pub path_prefix : Platform → Bytes
path_prefix windows = codes "\\\\.\\vds"
path_prefix linux = codes "/dev/vds"

unfoldable pub port_path_for_index : Platform → ℕ → Result Bytes
unfolding path_prefix
port_path_for_index platform port =
    if leb max_port_count port
    then err (range_error port)
    else ok (path_prefix platform ++ to_string port)

-- The loop over the digits: it gives up above the maximum.
unfoldable pub bounded_value : ℕ → ℕ → Bytes → Option ℕ
bounded_value maximum value [] = some value
bounded_value maximum value (c ∷ text) =
    let next = value * 10 + (c - b'0') in
    let rest = bounded_value maximum next text in if ltb maximum next then none else rest

unfoldable pub port_of_text : Bytes → Option ℕ
unfolding is_decimal_number bounded_value
port_of_text text =
    if is_decimal_number text then bounded_value (max_port_count - 1) 0 text else none

unfoldable pub predecessor : Option ℕ → Option ℕ
predecessor none = none
predecessor (some n) = if n == 0 then none else some (n - 1)

-- The USB/IP path counts the ports from 1.
unfoldable pub usbip_port_of_text : Bytes → Option ℕ
unfolding is_decimal_number bounded_value predecessor
usbip_port_of_text text =
    if is_decimal_number text then predecessor (bounded_value max_port_count 0 text) else none

-- The first prefix that fits decides.
unfoldable pub or_else : Option Bytes → (Bytes → Option ℕ) → Option ℕ → Option ℕ
or_else none f other = other
or_else (some text) f other = f text

unfoldable pub port_index_from_path : Platform → Bytes → Option ℕ
unfolding strip_prefix or_else port_of_text usbip_port_of_text
port_index_from_path windows path =
    or_else (strip_prefix (codes "usbip://127.0.0.1:3240/1-") path) usbip_port_of_text (
      or_else (strip_prefix (codes "\\\\.\\vds") path) port_of_text (
        or_else (strip_prefix (codes "\\\\?\\vds") path) port_of_text
          (or_else (strip_prefix (codes "vds") path) port_of_text none)))
port_index_from_path linux path = or_else (strip_prefix (codes "/dev/vds") path) port_of_text none

unfoldable pub controller_config_allows_path : Platform → ControllerConfig → Bytes → Bool
unfolding port_index_from_path controller_config_allows_port
controller_config_allows_path platform config path = elim (port_index_from_path platform path) [
  | none ↦ false
  | some port ↦ controller_config_allows_port config port
]

-- The ports of the devices that have one.
unfoldable pub available_ports : Platform → List Bytes → List ℕ
unfolding port_index_from_path
available_ports platform [] = []
available_ports platform (device ∷ devices) =
    let rest = available_ports platform devices in
    elim (port_index_from_path platform device) [ none ↦ rest | some port ↦ port ∷ rest ]

-- `std::binary_search` in the sorted list finds what the list holds.
unfoldable pub check_devices : Platform → List ControllerConfig → List Bytes → Result (Unit {0})
unfolding available_ports sort check_assignments
check_devices platform [] devices = ok tt
check_devices platform (c ∷ controllers) [] = err (codes "virtual port provider unavailable")
check_devices platform (c ∷ controllers) (d ∷ devices) =
    check_assignments (sort (available_ports platform (d ∷ devices))) (c ∷ controllers)

unfoldable pub validate_config_assignments : Platform → ConfigDb → List Bytes → Result (Unit {0})
unfolding check_devices
validate_config_assignments platform db devices = check_devices platform db.controllers devices

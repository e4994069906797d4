-- ===== src/Daemon/Replies.antt =====
-- The texts of the control channel in src/vdsd_common.cc.
use Prim.Native.Nat.{bit_and, compare, Ordering}
use windows_vds.Prelude.{
  ℕ, Bool, true, false, not, List, [], ◌∷◌, ◌++◌, ◌==◌, if◌then◌else◌, Bytes, codes, bytes_eq,
  Option, none, some,
}
use windows_vds.Jsonl.Print.{
  jsonl_string_field, jsonl_bool_field, jsonl_unsigned_array_field, jsonl_string_value,
}
use windows_vds.Config.Ports.{format_ports}
use windows_vds.Config.Records.{
  ControllerProfile, ControllerConfig, ConfigDb, controller_profile_name,
  find_controller_config_by_address,
}
use windows_vds.Daemon.Trace.{
  trace_all, trace_input_audio, trace_input_control, trace_output, trace_enabled, add_name,
}
use windows_vds.Daemon.Workers.{VdsdControlPortStatus}

pub record VdsdControlControllerStatus : Type 0 where
  pub address : Bytes
  pub connected : Bool
  pub path : Bytes

pub record ControllerTarget : Type 0 where
  pub address : Bytes
  pub name : Bytes
  pub profile : ControllerProfile
  pub online : Bool
  pub usb : Bool

-- The fields of an object between its braces, with the newline that ends a reply.
unfoldable pub joined : List Bytes → Bytes
joined [] = []
joined (field ∷ []) = field
joined (field ∷ more ∷ fields) = field ++ (b',' ∷ joined (more ∷ fields))

unfoldable pub reply_line : List Bytes → Bytes
unfolding joined
reply_line fields = b'{' ∷ (joined fields ++ b'}' ∷ b'\n' ∷ [])

unfoldable pub port_text : List ℕ → Bytes
port_text [] = codes "[]"
port_text (p ∷ ports) = b'[' ∷ (format_ports (p ∷ ports) ++ b']' ∷ [])

unfoldable pub format_controller_config : ControllerConfig → Bytes
unfolding port_text
format_controller_config config =
    config.address
    ++ (codes " profile=\""
        ++ (controller_profile_name config.profile
            ++ (codes "\" ports=" ++ port_text config.ports)))

unfoldable pub find_status :
    List VdsdControlControllerStatus → Bytes → Option VdsdControlControllerStatus
unfolding bytes_eq
find_status [] address = none
find_status (s ∷ controllers) address =
    if bytes_eq s.address address then some s else find_status controllers address

unfoldable pub is_connected : Option VdsdControlControllerStatus → Bool
is_connected none = false
is_connected (some s) = s.connected

unfoldable pub connected_path : Option VdsdControlControllerStatus → Bytes
connected_path none = []
connected_path (some s) = if s.connected then s.path else []

-- One line of the list reply.
unfoldable pub list_line : ControllerConfig → Option VdsdControlControllerStatus → Bytes
unfolding reply_line is_connected connected_path
list_line c status = reply_line (
    jsonl_string_field (codes "address") c.address
    ∷ jsonl_bool_field (codes "connected") (is_connected status)
    ∷ jsonl_string_field (codes "path") (connected_path status)
    ∷ jsonl_string_field (codes "profile") (controller_profile_name c.profile)
    ∷ jsonl_unsigned_array_field (codes "ports") c.ports
    ∷ [])

unfoldable pub list_lines : List ControllerConfig → List VdsdControlControllerStatus → Bytes
unfolding list_line find_status
list_lines [] controllers = []
list_lines (c ∷ configs) controllers =
    list_line c (find_status controllers c.address) ++ list_lines configs controllers

unfoldable pub format_control_list_reply : ConfigDb → List VdsdControlControllerStatus → Bytes
unfolding list_lines
format_control_list_reply db controllers = list_lines db.controllers controllers

unfoldable pub find_controller_target_by_address :
    List ControllerTarget → Bytes → Option ControllerTarget
unfolding bytes_eq
find_controller_target_by_address [] address = none
find_controller_target_by_address (t ∷ targets) address =
    if bytes_eq t.address address then some t else find_controller_target_by_address targets address

unfoldable pub format_control_target_jsonl : ControllerTarget → Bool → Bytes
unfolding reply_line
format_control_target_jsonl target registered = reply_line (
    jsonl_string_field (codes "address") target.address
    ∷ jsonl_string_field (codes "name") target.name
    ∷ jsonl_bool_field (codes "online") target.online
    ∷ jsonl_bool_field (codes "registered") registered
    ∷ jsonl_bool_field (codes "usb") target.usb
    ∷ [])

-- `<` of two strings, byte by byte.
unfoldable pub bytes_less : Bytes → Bytes → Bool
bytes_less xs [] = false
bytes_less [] (y ∷ ys) = true
bytes_less (x ∷ xs) (y ∷ ys) =
    let rest = bytes_less xs ys in
    elim (compare x y) [ Ordering.lt ↦ true | Ordering.eq ↦ rest | Ordering.gt ↦ false ]

unfoldable pub insert_target : ControllerTarget → List ControllerTarget → List ControllerTarget
unfolding bytes_less
insert_target t [] = t ∷ []
insert_target t (u ∷ targets) =
    if bytes_less u.address t.address then u ∷ insert_target t targets else t ∷ u ∷ targets

-- `std::sort` by address; the addresses that a platform lists are distinct, so the order is fixed.
unfoldable pub sort_targets : List ControllerTarget → List ControllerTarget
unfolding insert_target
sort_targets [] = []
sort_targets (t ∷ targets) = insert_target t (sort_targets targets)

abbrev pub is_found {ℓ} : {A : Type ℓ} → Option A → Bool
is_found none = false
is_found (some a) = true

unfoldable pub target_lines : ConfigDb → List ControllerTarget → Bytes
unfolding format_control_target_jsonl
target_lines db [] = []
target_lines db (t ∷ targets) =
    format_control_target_jsonl t (is_found (find_controller_config_by_address db t.address))
    ++ target_lines db targets

unfoldable pub format_control_list_targets_reply : ConfigDb → List ControllerTarget → Bytes
unfolding target_lines sort_targets
format_control_list_targets_reply db targets = target_lines db (sort_targets targets)

unfoldable pub port_status_paths : List VdsdControlPortStatus → List Bytes
port_status_paths [] = []
port_status_paths (p ∷ ports) = p.path ∷ port_status_paths ports

unfoldable pub format_control_error_reply : Bytes → Bytes
unfolding reply_line
format_control_error_reply error =
    reply_line (jsonl_bool_field (codes "OK") false ∷ jsonl_string_field (codes "error") error ∷ [])

unfoldable pub format_control_attach_reply : Bool → Bytes → ControllerConfig → Bytes
unfolding reply_line
format_control_attach_reply good error config = reply_line (
    jsonl_bool_field (codes "OK") good
    ∷ jsonl_string_field (codes "error") error
    ∷ jsonl_string_field (codes "address") config.address
    ∷ jsonl_unsigned_array_field (codes "ports") config.ports
    ∷ jsonl_string_field (codes "profile") (controller_profile_name config.profile)
    ∷ [])

unfoldable pub format_control_detach_reply : Bool → Bytes → Bytes → Bytes
unfolding reply_line
format_control_detach_reply good error address = reply_line (
    jsonl_bool_field (codes "OK") good
    ∷ jsonl_string_field (codes "error") error
    ∷ jsonl_string_field (codes "address") address
    ∷ [])

-- The scopes of the trace reply, each quoted.
unfoldable pub scope_texts : ℕ → Bytes
unfolding trace_enabled add_name
scope_texts flags =
    add_name (trace_enabled flags trace_output) (jsonl_string_value (codes "output")) (
      add_name (trace_enabled flags trace_input_control)
        (jsonl_string_value (codes "input-control"))
        (add_name (trace_enabled flags trace_input_audio) (jsonl_string_value (codes "input-audio"))
          []))

unfoldable pub format_control_trace_reply : Bool → Bytes → ℕ → Bytes
unfolding scope_texts
format_control_trace_reply good error flags =
    b'{'
    ∷ (jsonl_bool_field (codes "OK") good
        ++ (b','
            ∷ (jsonl_string_field (codes "error") error
                ++ (b','
                    ∷ (jsonl_bool_field (codes "trace") (not (bit_and flags trace_all == 0))
                        ++ (codes ",\"scope\":[" ++ (scope_texts flags ++ codes "]}\n")))))))

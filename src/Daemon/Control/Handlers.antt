-- ===== src/Daemon/Control/Handlers.antt =====
-- The handlers of src/vdsd_common.cc: each answers with a reply and the changed daemon.
pub mod Updates
mod Attach
pub mod Files
use Prim.Native.Nat.{bit_and, bit_or}
use windows_vds.Prelude.{
  ℕ, ◌-◌, Bool, true, false, List, [], ◌∷◌, ◌++◌, Bytes, codes, bytes_eq, Option, none, some,
  Result, ok, err, ◌>>=◌, ◌||◌, if◌then◌else◌,
}
use windows_vds.Jsonl.Parse.{JsonlField, parse_jsonl_object}
use windows_vds.Jsonl.Fields.{
  require_jsonl_string, require_jsonl_unsigned_array, reject_unknown_jsonl_fields,
}
use windows_vds.Config.Records.{
  ControllerConfig, ConfigDb, normalize_bluetooth_address, parse_controller_profile,
  find_controller_config_by_address,
}
use windows_vds.Config.Db.{upsert_controller_config, remove_controller_config}
use windows_vds.Config.Paths.{Platform, validate_config_assignments}
use windows_vds.Daemon.Trace.{parse_trace_scope, trace_scope_name, active_trace_name}
use windows_vds.Daemon.Workers.{VdsdControlPortStatus}
use windows_vds.Daemon.Replies.{
  VdsdControlControllerStatus, ControllerTarget, is_found, find_controller_target_by_address,
  port_status_paths, format_controller_config, format_control_list_reply,
  format_control_list_targets_reply, format_control_error_reply, format_control_attach_reply,
  format_control_detach_reply, format_control_trace_reply,
}
use windows_vds.Daemon.Control.{
  warn, info, Daemon, log_line, Outcome, try_step, load_config_db, update_config_db,
  control_context, empty_config, contains_byte,
}

-- The platform, and what `list_targets` returns or throws.
module _ (platform : Platform) (list_targets : Result (List ControllerTarget)) where
  attach_error : Daemon → ControllerConfig → Bytes → Outcome
  attach_error d config e = ok (format_control_attach_reply false e config, d)

  -- A refusal that is logged: the second text is what the log adds.
  attach_rejected : Daemon → ControllerConfig → Bytes → Bytes → Outcome
  attach_rejected d config error detail = ok (
    format_control_attach_reply false error config,
    log_line warn (codes "attach rejected " ++ (error ++ detail)) d,
  )

  unfoldable pub registered_error : Bytes
  registered_error = codes "address is already registered"

  -- The callback of `update_config_db`: the configuration that was found, if one was.
  unfoldable pub attach_update :
      List Bytes → ControllerConfig → ConfigDb → Result (ConfigDb × Option ControllerConfig)
  attach_update devices config db = elim (find_controller_config_by_address db config.address) [
    | some registered ↦ ok (db, some registered)
    | none ↦ upsert_controller_config db config >>= λ changed.
        validate_config_assignments platform changed devices >>= λ _. ok (changed, none)
  ]

  -- Behind the update.
  attach_done : ControllerConfig → Daemon × Option ControllerConfig → Outcome
  unfolding attach_rejected registered_error
  attach_done config (d, some registered) =
      attach_rejected d registered registered_error (codes ": " ++ registered.address)
  attach_done config (d, none) = ok (
    format_control_attach_reply true [] config,
    log_line info (codes "attached controller config " ++ format_controller_config config)
        (record d { reload_requested = true }),
  )

  -- From the listing of the targets on.
  attach_target :
      List VdsdControlPortStatus → Daemon → ControllerConfig → List ControllerTarget → Outcome
  unfolding attach_rejected attach_error attach_done
  attach_target ports d config targets =
      if is_found (find_controller_target_by_address targets config.address)
      then try_step (update_config_db d (attach_update (port_status_paths ports) config))
          (attach_error d config) (attach_done config)
      else attach_rejected d empty_config
          (codes "address is not paired, not supported, or not attachable; run vdsctl list-targets")
          []

  -- For an address that the file does not hold: the configuration is filled field by field, and
  -- a reply to an exception shows what was filled.
  attach_new : List JsonlField → List VdsdControlPortStatus → Daemon → ControllerConfig → Outcome
  unfolding attach_error attach_target
  attach_new fields ports d named =
      try_step
        (require_jsonl_string fields (codes "profile") control_context >>= parse_controller_profile)
        (attach_error d named)
        λ profile.
          let profiled = record named { profile = profile } in
          try_step (require_jsonl_unsigned_array fields (codes "ports") control_context)
            (attach_error d profiled)
            λ numbers.
              let config = record profiled { ports = numbers } in
              try_step list_targets (attach_error d config) (attach_target ports d config)

  abbrev attach_fields : List Bytes
  attach_fields = codes "command" ∷ codes "address" ∷ codes "profile" ∷ codes "ports" ∷ []

  -- Behind the load of the file, with the configuration that it holds for the address.
  attach_loaded :
      List JsonlField
      → List VdsdControlPortStatus
      → Daemon
      → Bytes
      → Option ControllerConfig
      → Outcome
  unfolding attach_error attach_rejected attach_new registered_error
  attach_loaded fields ports d address (some registered) =
      try_step (reject_unknown_jsonl_fields fields attach_fields control_context)
        (attach_error d registered)
        λ _. attach_rejected d registered registered_error (codes ": " ++ registered.address)
  attach_loaded fields ports d address none =
      try_step (reject_unknown_jsonl_fields fields attach_fields control_context)
        (attach_error d empty_config)
        λ _. attach_new fields ports d (record empty_config { address = address })

  -- A path of a wired device is no address.
  attach_address : List JsonlField → List VdsdControlPortStatus → Daemon → Bytes → Outcome
  unfolding attach_error attach_rejected attach_loaded
  attach_address fields ports d raw_address =
      if contains_byte raw_address b'\\' || contains_byte raw_address b'#'
      then attach_rejected d empty_config
          (codes "USB controllers are already wired and cannot be bridged")
          (codes ": " ++ raw_address)
      else try_step (normalize_bluetooth_address raw_address) (attach_error d empty_config)
          λ address. try_step (load_config_db d) (attach_error d empty_config) λ db.
            attach_loaded fields ports d address (find_controller_config_by_address db address)

  unfoldable pub handle_attach_control_request :
      List JsonlField → List VdsdControlPortStatus → Daemon → Outcome
  unfolding attach_error attach_address
  handle_attach_control_request fields ports d =
      try_step (require_jsonl_string fields (codes "address") control_context)
        (attach_error d empty_config) (attach_address fields ports d)

  abbrev detach_fields : List Bytes
  detach_fields = codes "command" ∷ codes "address" ∷ []

  detach_error : Daemon → Bytes → Bytes → Outcome
  detach_error d address e = ok (format_control_detach_reply false e address, d)

  -- Behind the update, with its result.
  detach_done : Bytes → Daemon × Bool → Outcome
  detach_done address (d, true) = ok (
    format_control_detach_reply true [] address,
    log_line info (codes "detached " ++ address) (record d { reload_requested = true }),
  )
  detach_done address (d, false) = ok (
    format_control_detach_reply false (codes "address is not registered") [],
    log_line info (codes "detach ignored " ++ address) (record d { reload_requested = false }),
  )

  -- `address` is empty where the file does not hold it.
  detach_loaded : List JsonlField → Daemon → Bytes → Outcome
  unfolding detach_error detach_done
  detach_loaded fields d address =
      try_step (reject_unknown_jsonl_fields fields detach_fields control_context)
        (detach_error d address)
        λ _. elim address [
          | [] ↦ detach_error d [] (codes "address is not registered")
          | c ∷ text ↦
              try_step (update_config_db d (λ db. remove_controller_config db (c ∷ text)))
                (detach_error d (c ∷ text)) (detach_done (c ∷ text))
        ]

  unfoldable pub handle_detach_control_request : List JsonlField → Daemon → Outcome
  unfolding detach_error detach_loaded
  handle_detach_control_request fields d =
      try_step
        (require_jsonl_string fields (codes "address") control_context
          >>= normalize_bluetooth_address)
        (detach_error d [])
        λ address. try_step (load_config_db d) (detach_error d address) λ db.
          detach_loaded fields d
            (if is_found (find_controller_config_by_address db address) then address else [])

  abbrev command_field : List Bytes
  command_field = codes "command" ∷ []

  -- The two lists let their exceptions through.
  unfoldable pub handle_list_control_request :
      List JsonlField → List VdsdControlControllerStatus → Daemon → Outcome
  handle_list_control_request fields controllers d =
      reject_unknown_jsonl_fields fields command_field control_context >>= λ _.
      load_config_db d >>= λ db. ok (format_control_list_reply db controllers, d)

  unfoldable pub handle_list_targets_control_request : List JsonlField → Daemon → Outcome
  handle_list_targets_control_request fields d =
      reject_unknown_jsonl_fields fields command_field control_context >>= λ _.
      load_config_db d >>= λ db.
      list_targets >>= λ targets. ok (format_control_list_targets_reply db targets, d)

  abbrev trace_fields : List Bytes
  trace_fields = codes "command" ∷ codes "mode" ∷ codes "scope" ∷ []

  trace_error : Daemon → Bytes → Outcome
  trace_error d e = ok (format_control_trace_reply false e d.trace_flags, d)

  -- The flags that a mode and a scope leave: `~scope` clears the bits of the scope.
  unfoldable pub trace_mode : Bytes → ℕ → ℕ → Result (ℕ × Bool)
  unfolding bytes_eq
  trace_mode mode scope flags =
      if bytes_eq mode (codes "on")
      then ok (bit_or flags scope, true)
      else if bytes_eq mode (codes "off")
      then ok (bit_and flags (0xffff_ffff - scope), false)
      else err (codes "trace mode must be on or off")

  trace_done : Daemon → ℕ → ℕ × Bool → Outcome
  trace_done d scope (flags, enabled) = ok (
    format_control_trace_reply true [] flags,
    log_line info
        (codes "trace "
          ++ (trace_scope_name scope
              ++ (codes (if enabled then " enabled" else " disabled")
                  ++ (codes " active=" ++ active_trace_name flags))))
        (record d { trace_flags = flags }),
  )

  unfoldable pub handle_trace_control_request : List JsonlField → Daemon → Outcome
  unfolding trace_error trace_mode trace_done
  handle_trace_control_request fields d =
      try_step (reject_unknown_jsonl_fields fields trace_fields control_context) (trace_error d)
        λ _.
          try_step (require_jsonl_string fields (codes "mode") control_context) (trace_error d)
            λ mode.
              try_step
                (require_jsonl_string fields (codes "scope") control_context >>= parse_trace_scope)
                (trace_error d)
                λ scope.
                  try_step (trace_mode mode scope d.trace_flags) (trace_error d)
                    (trace_done d scope)

  -- The branch on the command. A command that is not known is logged.
  unfoldable pub dispatch_command :
      List JsonlField
      → Bytes
      → List VdsdControlControllerStatus
      → List VdsdControlPortStatus
      → Daemon
      → Outcome
  unfolding bytes_eq
  dispatch_command fields command controllers ports d =
      if bytes_eq command (codes "attach")
      then handle_attach_control_request fields ports d
      else if bytes_eq command (codes "detach")
      then handle_detach_control_request fields d
      else if bytes_eq command (codes "list")
      then handle_list_control_request fields controllers d
      else if bytes_eq command (codes "list-targets")
      then handle_list_targets_control_request fields d
      else if bytes_eq command (codes "trace")
      then handle_trace_control_request fields d
      else ok (
        format_control_error_reply (codes "unknown command: " ++ command),
        log_line warn (codes "unknown command: " ++ command) d,
      )

  -- The outer `try`: an exception that a handler lets through becomes an error reply, and what
  -- the handler changed before it is nothing.
  unfoldable pub handle_vdsd_control_command :
      Bytes → List VdsdControlControllerStatus → List VdsdControlPortStatus → Daemon → Outcome
  unfolding dispatch_command
  handle_vdsd_control_command request controllers ports d =
      try_step
        (parse_jsonl_object request control_context >>= λ fields.
          require_jsonl_string fields (codes "command") control_context >>= λ command.
          dispatch_command fields command controllers ports d)
        (λ e. ok (format_control_error_reply e, d)) ok

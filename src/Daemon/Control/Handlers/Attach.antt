-- ===== src/Daemon/Control/Handlers/Attach.antt =====
-- What the attach command of src/vdsd_common.cc leaves in the database file.
use windows_vds.Prelude.{
  ◌||◌, List, Bytes, codes, Option, none, some, Result, ok, ◌>>=◌, Ensures, Ensures-bind, Answers,
  Answers-bind,
}
use windows_vds.Jsonl.Parse.{JsonlField}
use windows_vds.Config.Records.{ControllerConfig, ConfigDb, find_controller_config_by_address}
use windows_vds.Config.Db.{upsert_controller_config}
use windows_vds.Config.Paths.{Platform, validate_config_assignments}
use windows_vds.Config.Invariant.{IsDb, upsert_controller_config-IsDb}
use windows_vds.Config.Total.{
  require_jsonl_string-Answers, require_jsonl_unsigned_array-Answers,
  reject_unknown_jsonl_fields-Answers, normalize_bluetooth_address-Answers,
  parse_controller_profile-Answers, upsert_controller_config-Answers,
  validate_config_assignments-Answers,
}
use windows_vds.Daemon.Workers.{VdsdControlPortStatus}
use windows_vds.Daemon.Replies.{
  ControllerTarget, is_found, port_status_paths, find_controller_target_by_address,
}
use windows_vds.Daemon.Control.{Daemon, control_context, contains_byte}
use windows_vds.Daemon.Control.Handlers.{
  attach_error, attach_rejected, attach_update, attach_done, attach_target, attach_new,
  attach_fields, attach_loaded, attach_address, handle_attach_control_request,
}
use windows_vds.Daemon.Control.Handlers.Updates.{
  Loads, Keeps, try_step-Keeps, step, if-Keeps, valid-IsDb, update_config_db-Ensures,
  load_config_db-Answers,
}

module _ (platform : Platform) (list_targets : Result (List ControllerTarget)) where
  attach_update-Ensures :
      (devices : List Bytes) (config : ControllerConfig) (db : ConfigDb)
      → IsDb db
      → Ensures (λ r. IsDb r.0) (attach_update platform list_targets devices config db)
  unfolding attach_update
  attach_update-Ensures devices config db v =
      found (find_controller_config_by_address db config.address)
    where
      found :
          (o : Option ControllerConfig)
          → Ensures
              (λ (r : ConfigDb × Option ControllerConfig). IsDb r.0)
              (elim o [
                | some registered ↦ ok (db, some registered)
                | none ↦ upsert_controller_config db config >>= λ changed.
                    validate_config_assignments platform changed devices >>= λ _. ok (changed, none)
              ])
      found (some registered) = v
      found none =
          Ensures-bind IsDb _ (upsert_controller_config db config) _
            (valid-IsDb (upsert_controller_config db config)
              (upsert_controller_config-Answers db config)
              (λ changed e. upsert_controller_config-IsDb db changed config v e))
            λ changed w.
              Ensures-bind (λ _. Unit) _ (validate_config_assignments platform changed devices) _
                (validate_config_assignments-Answers platform changed devices) (λ _ _. w)

  attach_done-Keeps :
      (config : ControllerConfig) (r : Daemon × Option ControllerConfig)
      → Loads r.0
      → Keeps (attach_done platform list_targets config r)
  unfolding attach_done attach_rejected
  attach_done-Keeps config (d, some registered) h = h
  attach_done-Keeps config (d, none) h = h

  attach_target-Keeps :
      (ports : List VdsdControlPortStatus) (d : Daemon) (config : ControllerConfig)
      (targets : List ControllerTarget)
      → Loads d
      → Keeps (attach_target platform list_targets ports d config targets)
  unfolding attach_target attach_error attach_rejected
  attach_target-Keeps ports d config targets h =
      if-Keeps (is_found (find_controller_target_by_address targets config.address)) _ _
        (try_step-Keeps (λ r. Loads r.0) _ _ _
          (update_config_db-Ensures d _ (attach_update-Ensures (port_status_paths ports) config))
          (λ e. h) (attach_done-Keeps config))
        h

  -- `list_targets` returns or throws.
  module _ (lists : Answers list_targets) where
    attach_new-Keeps :
        (fields : List JsonlField) (ports : List VdsdControlPortStatus) (d : Daemon)
        (named : ControllerConfig)
        → Loads d
        → Keeps (attach_new platform list_targets fields ports d named)
    unfolding attach_new attach_error
    attach_new-Keeps fields ports d named h =
        step _ _ _
          (Answers-bind _ _ (require_jsonl_string-Answers fields (codes "profile") control_context)
            parse_controller_profile-Answers)
          (λ e. h)
          λ profile.
            step _ _ _ (require_jsonl_unsigned_array-Answers fields (codes "ports") control_context)
              (λ e. h)
              λ numbers.
                step _ _ _ lists (λ e. h) λ targets. attach_target-Keeps ports d _ targets h

    attach_loaded-Keeps :
        (fields : List JsonlField) (ports : List VdsdControlPortStatus) (d : Daemon)
        (address : Bytes) (o : Option ControllerConfig)
        → Loads d
        → Keeps (attach_loaded platform list_targets fields ports d address o)
    unfolding attach_loaded attach_error attach_rejected
    attach_loaded-Keeps fields ports d address (some registered) h =
        step _ _ _
          (reject_unknown_jsonl_fields-Answers fields (attach_fields platform list_targets)
            control_context)
          (λ e. h) (λ _. h)
    attach_loaded-Keeps fields ports d address none h =
        step _ _ _
          (reject_unknown_jsonl_fields-Answers fields (attach_fields platform list_targets)
            control_context)
          (λ e. h) (λ _. attach_new-Keeps fields ports d _ h)

    attach_address-Keeps :
        (fields : List JsonlField) (ports : List VdsdControlPortStatus) (d : Daemon)
        (raw_address : Bytes)
        → Loads d
        → Keeps (attach_address platform list_targets fields ports d raw_address)
    unfolding attach_address attach_error attach_rejected
    attach_address-Keeps fields ports d raw_address h =
        if-Keeps (contains_byte raw_address b'\\' || contains_byte raw_address b'#') _ _ h (
          step _ _ _ (normalize_bluetooth_address-Answers raw_address) (λ e. h)
            λ address.
              step _ _ _ (load_config_db-Answers d) (λ e. h)
                λ db.
                  attach_loaded-Keeps fields ports d address
                    (find_controller_config_by_address db address) h)

    pub handle_attach-Keeps :
        (fields : List JsonlField) (ports : List VdsdControlPortStatus) (d : Daemon)
        → Loads d
        → Keeps (handle_attach_control_request platform list_targets fields ports d)
    unfolding handle_attach_control_request attach_error
    handle_attach-Keeps fields ports d h =
        step _ _ _ (require_jsonl_string-Answers fields (codes "address") control_context) (λ e. h)
          λ raw_address. attach_address-Keeps fields ports d raw_address h

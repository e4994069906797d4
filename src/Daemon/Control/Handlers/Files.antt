-- ===== src/Daemon/Control/Handlers/Files.antt =====
-- What the commands of src/vdsd_common.cc leave in the database file.
use windows_vds.Prelude.{
  ℕ, Bool, true, false, List, [], ◌∷◌, Bytes, codes, Result, ok, err, out_of_fuel, ◌>>=◌, ◌≡◌, refl,
  Ensures-bind, Answers, Answers-bind, Answers-of_ne, arith, bytes_eq,
}
use windows_vds.Jsonl.Parse.{JsonlField, parse_jsonl_object}
use windows_vds.Jsonl.Fields.{require_jsonl_string}
use windows_vds.Jsonl.Total.{parse_jsonl_object_total}
use windows_vds.Config.Db.{remove_controller_config}
use windows_vds.Config.Paths.{Platform}
use windows_vds.Config.Total.{
  require_jsonl_string-Answers, reject_unknown_jsonl_fields-Answers,
  normalize_bluetooth_address-Answers,
}
use windows_vds.Daemon.Workers.{VdsdControlPortStatus}
use windows_vds.Daemon.Replies.{VdsdControlControllerStatus, ControllerTarget}
use windows_vds.Daemon.Control.{Daemon, Outcome, try_step, control_context}
use windows_vds.Daemon.Control.Handlers.{
  detach_error, detach_done, detach_loaded, detach_fields, handle_detach_control_request,
  handle_list_control_request, handle_list_targets_control_request, trace_fields, trace_error,
  trace_mode, trace_done, handle_trace_control_request, dispatch_command,
  handle_vdsd_control_command, command_field, format_control_error_reply,
}
use windows_vds.Daemon.Control.Handlers.Updates.{
  Loads, Keeps, try_step-Keeps, step, if-Keeps, update_config_db-Ensures,
  remove_controller_config-Ensures, load_config_db-Answers, parse_trace_scope-Answers,
}
use windows_vds.Daemon.Control.Handlers.Attach.{handle_attach-Keeps}

module _ (platform : Platform) (list_targets : Result (List ControllerTarget)) where
  -- `list_targets` returns or throws.
  module _ (lists : Answers list_targets) where
    detach_done-Keeps :
        (address : Bytes) (r : Daemon × Bool)
        → Loads r.0
        → Keeps (detach_done platform list_targets address r)
    unfolding detach_done
    detach_done-Keeps address (d, true) h = h
    detach_done-Keeps address (d, false) h = h

    detach_loaded-Keeps :
        (fields : List JsonlField) (d : Daemon) (address : Bytes)
        → Loads d
        → Keeps (detach_loaded platform list_targets fields d address)
    unfolding detach_loaded detach_error
    detach_loaded-Keeps fields d [] h =
        step _ _ _
          (reject_unknown_jsonl_fields-Answers fields (detach_fields platform list_targets)
            control_context)
          (λ e. h) (λ _. h)
    detach_loaded-Keeps fields d (c ∷ text) h =
        step _ _ _
          (reject_unknown_jsonl_fields-Answers fields (detach_fields platform list_targets)
            control_context)
          (λ e. h)
          λ _.
            try_step-Keeps (λ r. Loads r.0) _ _ _
              (update_config_db-Ensures d (λ db. remove_controller_config db (c ∷ text))
                (remove_controller_config-Ensures (c ∷ text)))
              (λ e. h) (detach_done-Keeps (c ∷ text))

    handle_detach-Keeps :
        (fields : List JsonlField) (d : Daemon)
        → Loads d
        → Keeps (handle_detach_control_request platform list_targets fields d)
    unfolding handle_detach_control_request detach_error
    handle_detach-Keeps fields d h =
        step _ _ _
          (Answers-bind _ _ (require_jsonl_string-Answers fields (codes "address") control_context)
            normalize_bluetooth_address-Answers)
          (λ e. h)
          λ address.
            step _ _ _ (load_config_db-Answers d) (λ e. h) λ db. detach_loaded-Keeps fields d _ h

    handle_list-Keeps :
        (fields : List JsonlField) (controllers : List VdsdControlControllerStatus) (d : Daemon)
        → Loads d
        → Keeps (handle_list_control_request platform list_targets fields controllers d)
    unfolding handle_list_control_request
    handle_list-Keeps fields controllers d h =
        Ensures-bind (λ _. Unit) _ _ _
          (reject_unknown_jsonl_fields-Answers fields (command_field platform list_targets)
            control_context)
          λ _ _. Ensures-bind (λ _. Unit) _ _ _ (load_config_db-Answers d) (λ _ _. h)

    handle_list_targets-Keeps :
        (fields : List JsonlField) (d : Daemon)
        → Loads d
        → Keeps (handle_list_targets_control_request platform list_targets fields d)
    unfolding handle_list_targets_control_request
    handle_list_targets-Keeps fields d h =
        Ensures-bind (λ _. Unit) _ _ _
          (reject_unknown_jsonl_fields-Answers fields (command_field platform list_targets)
            control_context)
          λ _ _.
            Ensures-bind (λ _. Unit) _ _ _ (load_config_db-Answers d)
              λ _ _. Ensures-bind (λ _. Unit) _ list_targets _ lists (λ _ _. h)

    trace_mode-Answers :
        (mode : Bytes) (scope flags : ℕ)
        → Answers (trace_mode platform list_targets mode scope flags)
    unfolding trace_mode
    trace_mode-Answers mode scope flags = ground arith

    handle_trace-Keeps :
        (fields : List JsonlField) (d : Daemon)
        → Loads d
        → Keeps (handle_trace_control_request platform list_targets fields d)
    unfolding handle_trace_control_request trace_error trace_done
    handle_trace-Keeps fields d h =
        step _ _ _
          (reject_unknown_jsonl_fields-Answers fields (trace_fields platform list_targets)
            control_context)
          (λ e. h)
          λ _.
            step _ _ _ (require_jsonl_string-Answers fields (codes "mode") control_context) (λ e. h)
              λ mode.
                step _ _ _
                  (Answers-bind _ _
                    (require_jsonl_string-Answers fields (codes "scope") control_context)
                    parse_trace_scope-Answers)
                  (λ e. h)
                  λ scope.
                    step _ _ _ (trace_mode-Answers mode scope d.trace_flags) (λ e. h) (λ r. h)

    dispatch_command-Keeps :
        (fields : List JsonlField) (command : Bytes)
        (controllers : List VdsdControlControllerStatus) (ports : List VdsdControlPortStatus)
        (d : Daemon)
        → Loads d
        → Keeps (dispatch_command platform list_targets fields command controllers ports d)
    unfolding dispatch_command
    dispatch_command-Keeps fields command controllers ports d h =
        if-Keeps (bytes_eq command (codes "attach")) _ _
          (handle_attach-Keeps platform list_targets lists fields ports d h)
          (if-Keeps (bytes_eq command (codes "detach")) _ _ (handle_detach-Keeps fields d h) (
            if-Keeps (bytes_eq command (codes "list")) _ _
              (handle_list-Keeps fields controllers d h)
              (if-Keeps (bytes_eq command (codes "list-targets")) _ _
                (handle_list_targets-Keeps fields d h)
                (if-Keeps (bytes_eq command (codes "trace")) _ _ (handle_trace-Keeps fields d h)
                  h))))

    request-Keeps :
        (request : Bytes) (controllers : List VdsdControlControllerStatus)
        (ports : List VdsdControlPortStatus) (d : Daemon)
        → Loads d
        → Keeps (
            parse_jsonl_object request control_context >>= λ fields.
            require_jsonl_string fields (codes "command") control_context >>= λ command.
            dispatch_command platform list_targets fields command controllers ports d)
    request-Keeps request controllers ports d h =
        Ensures-bind (λ _. Unit) _ _ _
          (Answers-of_ne _ (parse_jsonl_object_total request control_context))
          λ fields _.
            Ensures-bind (λ _. Unit) _ _ _
              (require_jsonl_string-Answers fields (codes "command") control_context)
              λ command _. dispatch_command-Keeps fields command controllers ports d h

answer-Keeps :
    (d : Daemon) (m : Outcome)
    → Loads d
    → Keeps m
    → (reply : Bytes) × (d' : Daemon) × (try_step m (λ e. ok (format_control_error_reply e, d)) ok
        ≡ ok (reply, d'))
      × Loads d'
answer-Keeps d (ok r) h k = (r.0, r.1, refl, k)
answer-Keeps d (err e) h k = (_, d, refl, h)
answer-Keeps d out_of_fuel h k = absurd k

-- When the listing of the targets returns or throws, and the database file can be loaded, every
-- request is answered, whatever its bytes, and the file can be loaded afterwards.
pub handle_vdsd_control_command-Loads :
    (platform : Platform) (list_targets : Result (List ControllerTarget)) (request : Bytes)
    (controllers : List VdsdControlControllerStatus) (ports : List VdsdControlPortStatus)
    (d : Daemon)
    → Answers list_targets
    → Loads d
    → (reply : Bytes) × (d' : Daemon) × (handle_vdsd_control_command platform list_targets request
          controllers ports d
        ≡ ok (reply, d'))
      × Loads d'
unfolding handle_vdsd_control_command
handle_vdsd_control_command-Loads platform list_targets request controllers ports d lists h =
    answer-Keeps d _ h (request-Keeps platform list_targets lists request controllers ports d h)

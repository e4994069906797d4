-- ===== src/Daemon/Tests.antt =====
-- The theorems on the daemon at concrete inputs.
use windows_vds.Daemon.Trace.{trace_enabled}
use windows_vds.Prelude.{
  ◌≡◌, refl, true, false, not, ltb, [], ◌∷◌, List, Bytes, codes, bytes_eq, ok, if◌then◌else◌, ◌^◌,
  ◌&&◌, ◌||◌, arith, ℕ,
}
use windows_vds.Jsonl.Fields.{contains_bytes}
use windows_vds.Config.Records.{ControllerConfig, ds5, select_controller_config_port}
use windows_vds.Config.Db.{parse_config_db}
use windows_vds.Config.Paths.{linux}
use windows_vds.Daemon.Replies.{ControllerTarget}
use windows_vds.Daemon.Workers.{
  ready, VdsdWorkerFailureBackoff, select_vdsd_worker_launch_decision, record_vdsd_worker_failure,
  consume_vdsd_worker_retry,
}
use windows_vds.Daemon.Launch.{
  Launches, select_vdsd_worker_launch_decision-ready,
  consume_vdsd_worker_retry-record_vdsd_worker_failure, trace_mode-enabled,
}
use windows_vds.Daemon.Control.{Daemon}
use windows_vds.Daemon.Control.Handlers.{handle_vdsd_control_command, trace_mode}
use windows_vds.Daemon.Control.Handlers.Updates.{Loads}
use windows_vds.Daemon.Control.Handlers.Files.{handle_vdsd_control_command-Loads}

abbrev address : Bytes
address = codes "aa:bb:0c:dd:ee:0f"

abbrev target : ControllerTarget
target = record { address = address; name = codes "pad"; profile = ds5; online = true; usb = false }

abbrev idle : Daemon
idle = record { file = []; trace_flags = 0; reload_requested = false; log = [] }

abbrev attach_request : Bytes
attach_request =
    codes
      "{\"command\":\"attach\",\"address\":\"AA:BB:0C:DD:EE:0F\",\"profile\":\"ds5\",\"ports\":[]}"

idle-Loads : Loads idle
unfolding parse_config_db
idle-Loads = (record { controllers = [] }, refl)

handle_vdsd_control_command-Loads_example :
    (reply : Bytes) × (d' : Daemon) × (handle_vdsd_control_command linux
        (ok (target ∷ []))
        attach_request
        []
        []
        idle
      ≡ ok (reply, d'))
    × Loads d'
handle_vdsd_control_command-Loads_example =
    handle_vdsd_control_command-Loads linux (ok (target ∷ [])) attach_request [] [] idle tt
      idle-Loads

abbrev config : ControllerConfig
config = record { address = address; profile = ds5; ports = 1 ∷ 2 ∷ [] }

chosen :
    (select_vdsd_worker_launch_decision config (1 ∷ 2 ∷ []) (1 ∷ []) address true []).status ≡ ready
unfolding select_vdsd_worker_launch_decision select_controller_config_port
chosen = refl

select_vdsd_worker_launch_decision-ready_example :
    (true ≡ true)
    × (contains_bytes [] address ≡ false)
    × Launches config
        (1 ∷ 2 ∷ [])
        (1 ∷ [])
        (select_vdsd_worker_launch_decision config (1 ∷ 2 ∷ []) (1 ∷ []) address true [])
select_vdsd_worker_launch_decision-ready_example =
    select_vdsd_worker_launch_decision-ready config (1 ∷ 2 ∷ []) (1 ∷ []) address true [] chosen

abbrev waiting : List VdsdWorkerFailureBackoff
waiting = record { address = address; retry_after = 5 } ∷ []

consume_vdsd_worker_retry-record_vdsd_worker_failure_example :
    (consume_vdsd_worker_retry (record_vdsd_worker_failure waiting address 20) address 10).1 ≡ (
      if bytes_eq address address
      then not (ltb 10 20)
      else (consume_vdsd_worker_retry waiting address 10).1)
consume_vdsd_worker_retry-record_vdsd_worker_failure_example =
    consume_vdsd_worker_retry-record_vdsd_worker_failure waiting address address 20 10

trace_mode-enabled_example :
    ((on : ℕ) × (trace_mode linux (ok []) (codes "on") 4 1 ≡ ok (on, true))
      × (trace_enabled on (2 ^ 2) ≡ (trace_enabled 1 (2 ^ 2) || trace_enabled 4 (2 ^ 2))))
    × ((off : ℕ) × (trace_mode linux (ok []) (codes "off") 4 1 ≡ ok (off, false))
        × (trace_enabled off (2 ^ 2) ≡ (trace_enabled 1 (2 ^ 2) && not (trace_enabled 4 (2 ^ 2)))))
trace_mode-enabled_example =
    trace_mode-enabled linux (ok []) 1 4 2 (omega arith) (omega arith) (omega arith)

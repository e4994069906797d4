-- ===== src/Daemon/Launch.antt =====
-- The workers' launches and retries, and the trace flags, in src/vdsd_common.cc.
use windows_vds.Prelude.{
  ℕ, ◌≡◌, refl, Bool, true, false, not, List, [], ◌∷◌, ltb, if◌then◌else◌, Bytes, bytes_eq,
  bytes_eq_iff, Option, none, some, arith, Result, ok, codes, ◌&&◌, ◌||◌, ◌^◌, ◌-◌, ◌<◌,
}
use Prim.Native.Nat.{bit_and, bit_or}
use windows_vds.Config.Paths.{Platform}
use windows_vds.Protocol.Bits.{all_below, all_below_sound, same, same-eq}
use windows_vds.Daemon.Trace.{trace_enabled}
use windows_vds.Daemon.Replies.{ControllerTarget}
use windows_vds.Daemon.Control.Handlers.{trace_mode}
use windows_vds.Jsonl.Fields.{contains_bytes}
use windows_vds.Config.Ports.{contains}
use windows_vds.Config.Records.{
  ControllerConfig, controller_config_allows_port, select_controller_config_port,
}
use windows_vds.Config.Selection.{select_controller_config_port-some}
use windows_vds.Daemon.Workers.{
  ready, device_address_reserved, VdsdWorkerLaunchDecision, launch_on, refusal,
  select_vdsd_worker_launch_decision, VdsdWorkerFailureBackoff, record_vdsd_worker_failure,
  consume_vdsd_worker_retry,
}

-- After a failure a retry of that address waits until the recorded time; the other addresses retry
-- as before.
pub consume_vdsd_worker_retry-record_vdsd_worker_failure :
    (backoffs : List VdsdWorkerFailureBackoff) (failed address : Bytes) (retry_after now : ℕ)
    → (consume_vdsd_worker_retry
        (record_vdsd_worker_failure backoffs failed retry_after)
        address
        now).1
      ≡ (if bytes_eq failed address
          then not (ltb now retry_after)
          else (consume_vdsd_worker_retry backoffs address now).1)
unfolding consume_vdsd_worker_retry record_vdsd_worker_failure
consume_vdsd_worker_retry-record_vdsd_worker_failure [] failed address retry_after now =
    ground arith
consume_vdsd_worker_retry-record_vdsd_worker_failure (b ∷ backoffs) failed address retry_after now =
    ground (
      arith,
      bytes_eq_iff b.address failed,
      bytes_eq_iff b.address address,
      bytes_eq_iff failed address,
      consume_vdsd_worker_retry-record_vdsd_worker_failure backoffs failed address retry_after now,
    )

-- A launch on a port: the configuration allows it, it is available, no worker holds it, the worker's
-- configuration has that port only.
abbrev pub Launches : ControllerConfig → List ℕ → List ℕ → VdsdWorkerLaunchDecision → Type 0
Launches config available reserved d =
    (controller_config_allows_port config d.port ≡ true)
    × (contains available d.port ≡ true)
    × (contains reserved d.port ≡ false)
    × (d.config ≡ record config { ports = d.port ∷ [] })

launch_on-Launches :
    (config : ControllerConfig) (available reserved : List ℕ) (device_address : Bytes)
    (o : Option ℕ)
    → select_controller_config_port config available reserved ≡ o
    → (launch_on o config device_address).status ≡ ready
    → Launches config available reserved (launch_on o config device_address)
unfolding launch_on
launch_on-Launches config available reserved device_address none e h = cc h
launch_on-Launches config available reserved device_address (some port) e h =
    let (a, b, c) = select_controller_config_port-some config available reserved port e in
    (a, b, c, refl)

-- A decision is `ready` only if the provider of the ports is there, the device's address is not
-- reserved, and the port is one that the configuration allows, that is available and not reserved.
pub select_vdsd_worker_launch_decision-ready :
    (config : ControllerConfig) (available reserved : List ℕ) (device_address : Bytes)
    (provider : Bool) (reserved_addresses : List Bytes)
    → (select_vdsd_worker_launch_decision config available reserved device_address provider
        reserved_addresses).status
      ≡ ready
    → (provider ≡ true)
      × (contains_bytes reserved_addresses device_address ≡ false)
      × Launches config available reserved (
          select_vdsd_worker_launch_decision config available reserved device_address provider
            reserved_addresses)
unfolding select_vdsd_worker_launch_decision
select_vdsd_worker_launch_decision-ready config available reserved device_address false
      reserved_addresses h =
    cc h
select_vdsd_worker_launch_decision-ready config available reserved device_address true
      reserved_addresses h =
    split (contains_bytes reserved_addresses device_address) h
  where
    decision : Bool → VdsdWorkerLaunchDecision
    decision b =
        if b
        then refusal device_address_reserved config device_address
        else launch_on (select_controller_config_port config available reserved) config
            device_address

    split :
        (b : Bool)
        → (decision b).status ≡ ready
        → (true ≡ true) × (b ≡ false) × Launches config available reserved (decision b)
    split true k = cc k
    split false k =
        (refl, refl, launch_on-Launches config available reserved device_address _ refl k)

abbrev on_test : ℕ → ℕ → ℕ → Bool
on_test flags scope k =
    same (trace_enabled (bit_or flags scope) (2 ^ k))
      (trace_enabled flags (2 ^ k) || trace_enabled scope (2 ^ k))

abbrev off_test : ℕ → ℕ → ℕ → Bool
off_test flags scope k =
    same (trace_enabled (bit_and flags (0xffff_ffff - scope)) (2 ^ k))
      (trace_enabled flags (2 ^ k) && not (trace_enabled scope (2 ^ k)))

abbrev all_flags : (ℕ → ℕ → ℕ → Bool) → Bool
all_flags test = all_below 8 λ flags. all_below 8 λ scope. all_below 3 λ k. test flags scope k

all_flags_sound :
    (test : ℕ → ℕ → ℕ → Bool) (flags scope k : ℕ)
    → all_flags test ≡ true
    → flags < 8
    → scope < 8
    → k < 3
    → test flags scope k ≡ true
all_flags_sound test flags scope k h f s l =
    let at_flags =
      all_below_sound 8 (λ flags. all_below 8 λ scope. all_below 3 λ k. test flags scope k) flags h
        f in
    let at_scope =
      all_below_sound 8 (λ scope. all_below 3 λ k. test flags scope k) scope at_flags s in
    all_below_sound 3 (λ k. test flags scope k) k at_scope l

on_all : all_flags on_test ≡ true
unfolding all_below trace_enabled
on_all = refl

off_all : all_flags off_test ≡ true
unfolding all_below trace_enabled
off_all = refl

-- For flags and a scope of three bits, the mode `on` enables just what was enabled or is in the
-- scope, and the mode `off` leaves enabled just what was enabled and is not in the scope.
pub trace_mode-enabled :
    (platform : Platform) (list_targets : Result (List ControllerTarget)) (flags scope k : ℕ)
    → flags < 8
    → scope < 8
    → k < 3
    → ((on : ℕ) × (trace_mode platform list_targets (codes "on") scope flags ≡ ok (on, true))
        × (trace_enabled on (2 ^ k) ≡ (trace_enabled flags (2 ^ k) || trace_enabled scope (2 ^ k))))
      × ((off : ℕ) × (trace_mode platform list_targets (codes "off") scope flags ≡ ok (off, false))
          × (trace_enabled off (2 ^ k)
              ≡ (trace_enabled flags (2 ^ k) && not (trace_enabled scope (2 ^ k)))))
unfolding trace_mode
trace_mode-enabled platform list_targets flags scope k f s l = (
  (_, refl, same-eq _ _ (all_flags_sound on_test flags scope k on_all f s l)),
  (_, refl, same-eq _ _ (all_flags_sound off_test flags scope k off_all f s l)),
)

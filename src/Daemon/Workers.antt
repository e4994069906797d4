-- ===== src/Daemon/Workers.antt =====
-- Warnings, port statuses, launch decisions and failure backoffs in src/vdsd_common.cc.
use windows_vds.Prelude.{
  ℕ, Bool, true, false, not, ◌||◌, List, [], ◌∷◌, ◌++◌, ltb, ◌==◌, if◌then◌else◌, Bytes, bytes_eq,
  Option, none, some,
}
use windows_vds.Jsonl.Fields.{contains_bytes}
use windows_vds.Config.Records.{
  ControllerProfile, unspecified, ds5, dse, ControllerConfig, ConfigDb,
  controller_config_allows_port, select_controller_config_port, find_controller_config_by_address,
}
use windows_vds.Config.Paths.{strip_prefix}

unfoldable pub remember_vdsd_warning : List Bytes → Bytes → List Bytes × Bool
unfolding contains_bytes
remember_vdsd_warning warnings key =
    if contains_bytes warnings key then (warnings, false) else (warnings ++ key ∷ [], true)

-- `std::remove_if` and `erase`.
unfoldable pub forget_vdsd_warning : List Bytes → Bytes → List Bytes
unfolding bytes_eq
forget_vdsd_warning [] key = []
forget_vdsd_warning (w ∷ warnings) key =
    let rest = forget_vdsd_warning warnings key in if bytes_eq w key then rest else w ∷ rest

unfoldable pub has_prefix : Bytes → Bytes → Bool
unfolding strip_prefix
has_prefix prefix text = elim (strip_prefix prefix text) [ none ↦ false | some _ ↦ true ]

unfoldable pub forget_prefix : List Bytes → Bytes → List Bytes
unfolding has_prefix
forget_prefix [] prefix = []
forget_prefix (w ∷ warnings) prefix =
    let rest = forget_prefix warnings prefix in if has_prefix prefix w then rest else w ∷ rest

abbrev pub state_prefix : Bytes → Bytes
state_prefix key = key ++ b'\n' ∷ []

unfoldable pub remember_vdsd_warning_state : List Bytes → Bytes → Bytes → List Bytes × Bool
unfolding contains_bytes forget_prefix
remember_vdsd_warning_state warnings key state =
    let entry = state_prefix key ++ state in
    if contains_bytes warnings entry
    then (warnings, false)
    else (forget_prefix warnings (state_prefix key) ++ entry ∷ [], true)

unfoldable pub forget_vdsd_warning_state : List Bytes → Bytes → List Bytes
unfolding forget_prefix
forget_vdsd_warning_state warnings key = forget_prefix warnings (state_prefix key)

pub record VdsdControlPortStatus : Type 0 where
  pub port : ℕ
  pub path : Bytes
  pub occupied : Bool
  pub address : Bytes
  pub device_address : Bytes

pub record VdsdControlPortCandidate : Type 0 where
  pub port : ℕ
  pub path : Bytes

pub record VdsdControlPortBinding : Type 0 where
  pub port : ℕ
  pub address : Bytes
  pub device_address : Bytes

unfoldable pub find_binding : List VdsdControlPortBinding → ℕ → Option VdsdControlPortBinding
find_binding [] port = none
find_binding (b ∷ bindings) port = if b.port == port then some b else find_binding bindings port

unfoldable pub port_status :
    VdsdControlPortCandidate → Option VdsdControlPortBinding → VdsdControlPortStatus
port_status candidate none = record {
  port = candidate.port;
  path = candidate.path;
  occupied = false;
  address = [];
  device_address = [];
}
port_status candidate (some b) = record {
  port = candidate.port;
  path = candidate.path;
  occupied = true;
  address = b.address;
  device_address = b.device_address;
}

unfoldable pub build_vdsd_control_port_statuses :
    List VdsdControlPortCandidate → List VdsdControlPortBinding → List VdsdControlPortStatus
unfolding find_binding port_status
build_vdsd_control_port_statuses [] bindings = []
build_vdsd_control_port_statuses (c ∷ candidates) bindings =
    port_status c (find_binding bindings c.port)
    ∷ build_vdsd_control_port_statuses candidates bindings

pub data VdsdWorkerLaunchStatus : Type 0 where
  ready virtual_port_provider_unavailable device_address_reserved no_available_port :
      VdsdWorkerLaunchStatus

pub record VdsdWorkerLaunchDecision : Type 0 where
  pub status : VdsdWorkerLaunchStatus
  pub config : ControllerConfig
  pub port : ℕ
  pub device_address : Bytes

abbrev pub refusal : VdsdWorkerLaunchStatus → ControllerConfig → Bytes → VdsdWorkerLaunchDecision
refusal status config device_address = record {
  status = status;
  config = config;
  port = 0;
  device_address = device_address;
}

-- On the port that was selected.
unfoldable pub launch_on : Option ℕ → ControllerConfig → Bytes → VdsdWorkerLaunchDecision
launch_on none config device_address = refusal no_available_port config device_address
launch_on (some port) config device_address = record {
  status = ready;
  config = record config { ports = port ∷ [] };
  port = port;
  device_address = device_address;
}

unfoldable pub select_vdsd_worker_launch_decision :
    ControllerConfig → List ℕ → List ℕ → Bytes → Bool → List Bytes → VdsdWorkerLaunchDecision
unfolding contains_bytes select_controller_config_port launch_on
select_vdsd_worker_launch_decision config available reserved device_address provider
      reserved_addresses =
    if not provider
    then refusal virtual_port_provider_unavailable config device_address
    else if contains_bytes reserved_addresses device_address
    then refusal device_address_reserved config device_address
    else launch_on (select_controller_config_port config available reserved) config device_address

unfoldable pub same_profile : ControllerProfile → ControllerProfile → Bool
same_profile unspecified unspecified = true
same_profile ds5 ds5 = true
same_profile dse dse = true
same_profile _ _ = false

unfoldable pub vdsd_worker_config_is_stale : ConfigDb → Bytes → ControllerProfile → ℕ → Bool → Bool
unfolding same_profile controller_config_allows_port find_controller_config_by_address
vdsd_worker_config_is_stale db address profile port port_enabled =
    elim (find_controller_config_by_address db address) [
      | none ↦ true
      | some config ↦
          not (same_profile config.profile profile)
          || not (controller_config_allows_port config port)
          || not port_enabled
    ]

-- Times are ticks of the steady clock.
pub record VdsdWorkerFailureBackoff : Type 0 where
  pub address : Bytes
  pub retry_after : ℕ

unfoldable pub record_vdsd_worker_failure :
    List VdsdWorkerFailureBackoff → Bytes → ℕ → List VdsdWorkerFailureBackoff
unfolding bytes_eq
record_vdsd_worker_failure [] address retry_after =
    record { address = address; retry_after = retry_after } ∷ []
record_vdsd_worker_failure (b ∷ backoffs) address retry_after =
    if bytes_eq b.address address
    then record b { retry_after = retry_after } ∷ backoffs
    else b ∷ record_vdsd_worker_failure backoffs address retry_after

-- The list that is left, and whether a retry may start.
unfoldable pub consume_vdsd_worker_retry :
    List VdsdWorkerFailureBackoff → Bytes → ℕ → List VdsdWorkerFailureBackoff × Bool
unfolding bytes_eq
consume_vdsd_worker_retry [] address now = ([], true)
consume_vdsd_worker_retry (b ∷ backoffs) address now =
    let rest = consume_vdsd_worker_retry backoffs address now in
    if bytes_eq b.address address
    then (if ltb now b.retry_after then (b ∷ backoffs, false) else (backoffs, true))
    else (b ∷ rest.0, rest.1)

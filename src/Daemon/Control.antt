-- ===== src/Daemon/Control.antt =====
-- The commands of the control channel in src/vdsd_common.cc.
pub mod Handlers
use windows_vds.Prelude.{
  ℕ, Bool, true, false, List, [], ◌∷◌, ◌++◌, Bytes, codes, Option, none, some, Result, ok, err,
  out_of_fuel, ◌>>=◌, ◌||◌, ◌==◌, if◌then◌else◌,
}
use windows_vds.Config.Records.{ControllerConfig, ConfigDb, unspecified}
use windows_vds.Config.Db.{parse_config_db, serialize_config_db}

pub data LogLevel : Type 0 where
  warn info : LogLevel

-- What the handlers read and change: the text of the database file, the trace flags, the request
-- to reload, and the lines that were logged, the last one first.
pub record Daemon : Type 0 where
  pub file : Bytes
  pub trace_flags : ℕ
  pub reload_requested : Bool
  pub log : List (LogLevel × Bytes)

abbrev pub log_line : LogLevel → Bytes → Daemon → Daemon
log_line level text d = record d { log = (level, text) ∷ d.log }

-- The reply to a command, and the daemon behind it.
abbrev pub Outcome : Type 0
Outcome = Result (Bytes × Daemon)

-- `catch (const std::exception &error)`: what follows a step, or the handler.
abbrev pub try_step {ℓ} : {A : Type ℓ} → Result A → (Bytes → Outcome) → (A → Outcome) → Outcome
try_step (ok a) handler next = next a
try_step (err e) handler next = handler e
try_step out_of_fuel handler next = out_of_fuel

unfoldable pub load_config_db : Daemon → Result ConfigDb
load_config_db d = parse_config_db d.file

-- `update_config_db`: the file is written only if the update does not throw. `A` is what the
-- update leaves in the variables that it captures.
unfoldable pub update_config_db {ℓ} :
    {A : Type ℓ} → Daemon → (ConfigDb → Result (ConfigDb × A)) → Result (Daemon × A)
update_config_db d update = parse_config_db d.file >>= λ db.
    update db >>= λ r. ok (record d { file = serialize_config_db r.0 }, r.1)

abbrev pub control_context : Bytes
control_context = codes "control request"

abbrev pub empty_config : ControllerConfig
empty_config = record { address = []; profile = unspecified; ports = [] }

unfoldable pub contains_byte : Bytes → ℕ → Bool
contains_byte [] c = false
contains_byte (b ∷ text) c = b == c || contains_byte text c

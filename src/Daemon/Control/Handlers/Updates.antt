-- ===== src/Daemon/Control/Handlers/Updates.antt =====
-- The steps of the handlers in src/vdsd_common.cc: termination, and the database file behind a change.
use windows_vds.Prelude.{
  ◌<◌, suc, zero, ℕ, Bool, true, false, Bytes, Option, none, some, Result, ok, err, out_of_fuel,
  ◌≡◌, refl, Ensures, Ensures-bind, Answers, Answers-bind, arith, if◌then◌else◌, length,
}
use windows_vds.Config.Records.{ConfigDb}
use windows_vds.Config.Db.{remove_controller_config, parse_config_db}
use windows_vds.Config.Invariant.{IsDb, parse_config_db-IsDb, remove_controller_config-IsDb}
use windows_vds.Config.RoundTrip.{parse_config_db-serialize_config_db}
use windows_vds.Config.Total.{parse_config_db-Answers, remove_controller_config-Answers}
use windows_vds.Protocol.Effects.{behind-shorter}
use windows_vds.Protocol.Triggers.Spec.{before, behind}
use Prim.Native.Nat.{bit_or, suc}
use windows_vds.Daemon.Trace.{parse_trace_scope, scope_loop, scope_item}
use windows_vds.Daemon.Control.{Daemon, Outcome, try_step, load_config_db, update_config_db}

-- The file holds a database that can be loaded.
abbrev pub Loads : Daemon → Type 0
Loads d = (db : ConfigDb) × (parse_config_db d.file ≡ ok db)

abbrev pub Keeps : Outcome → Type 0
Keeps m = Ensures (λ r. Loads r.1) m

pub try_step-Keeps {ℓ} :
    {A : Type ℓ} (P : A → Type 0) (m : Result A) (handler : Bytes → Outcome) (next : A → Outcome)
    → Ensures P m
    → ((e : Bytes) → Keeps (handler e))
    → ((a : A) → P a → Keeps (next a))
    → Keeps (try_step m handler next)
try_step-Keeps P (ok a) handler next h k l = l a h
try_step-Keeps P (err e) handler next h k l = k e
try_step-Keeps P out_of_fuel handler next h k l = absurd h

-- A step that does not touch the daemon.
pub step {ℓ} :
    {A : Type ℓ} (m : Result A) (handler : Bytes → Outcome) (next : A → Outcome)
    → Answers m
    → ((e : Bytes) → Keeps (handler e))
    → ((a : A) → Keeps (next a))
    → Keeps (try_step m handler next)
step m handler next h k l = try_step-Keeps (λ _. Unit) m handler next h k (λ a _. l a)

pub if-Keeps : (b : Bool) (m n : Outcome) → Keeps m → Keeps n → Keeps (if b then m else n)
if-Keeps true m n h k = h
if-Keeps false m n h k = k

pub valid-IsDb :
    (m : Result ConfigDb) → Answers m → ((db : ConfigDb) → m ≡ ok db → IsDb db) → Ensures IsDb m
valid-IsDb (ok db) h k = k db refl
valid-IsDb (err e) h k = tt
valid-IsDb out_of_fuel h k = h

-- An update whose result is valid leaves a file that loads.
pub update_config_db-Ensures {ℓ} :
    {A : Type ℓ} (d : Daemon) (update : ConfigDb → Result (ConfigDb × A))
    → ((db : ConfigDb) → IsDb db → Ensures (λ r. IsDb r.0) (update db))
    → Ensures (λ r. Loads r.0) (update_config_db d update)
unfolding update_config_db
update_config_db-Ensures d update h =
    Ensures-bind IsDb _ (parse_config_db d.file) _
      (valid-IsDb (parse_config_db d.file) (parse_config_db-Answers d.file)
        (parse_config_db-IsDb d.file))
      λ db v.
        Ensures-bind (λ r. IsDb r.0) _ (update db) _ (h db v)
          λ r w. (r.0, parse_config_db-serialize_config_db r.0 w)

pub remove_controller_config-Ensures :
    (address : Bytes) (db : ConfigDb)
    → IsDb db
    → Ensures (λ r. IsDb r.0) (remove_controller_config db address)
remove_controller_config-Ensures address db v =
    go (remove_controller_config db address) refl (remove_controller_config-Answers db address)
  where
    go :
        (m : Result (ConfigDb × Bool))
        → remove_controller_config db address ≡ m
        → Answers m
        → Ensures (λ r. IsDb r.0) m
    go (ok (db', removed)) e h = remove_controller_config-IsDb db db' address removed v e
    go (err x) e h = tt
    go out_of_fuel e h = h

scope_item-Answers : (item : Bytes) → Answers (scope_item item)
unfolding scope_item
scope_item-Answers item = ground arith

-- What is behind an item is shorter than the text, so that the fuel of the loop suffices.
scope_loop-Answers :
    (fuel flags : ℕ) (scope : Bytes) → length scope < fuel → Answers (scope_loop fuel flags scope)
unfolding scope_loop
scope_loop-Answers zero flags scope lt = absurd (omega arith)
scope_loop-Answers (suc fuel) flags scope lt =
    Answers-bind _ _ (scope_item-Answers (before b',' scope)) λ item.
      next item (behind b',' scope) (behind-shorter b',' scope)
        λ rest p. scope_loop-Answers fuel (bit_or flags item) rest (omega arith)
  where
    next :
        (item : ℕ) (o : Option Bytes)
        → ((rest : Bytes) → o ≡ some rest → length rest < length scope)
        → ((rest : Bytes)
            → length rest < length scope
            → Answers (scope_loop fuel (bit_or flags item) rest))
        → Answers (elim o [
          | none ↦ ok (bit_or flags item)
          | some rest ↦ scope_loop fuel (bit_or flags item) rest
        ])
    next item none shorter again = tt
    next item (some rest) shorter again = again rest (shorter rest refl)

pub parse_trace_scope-Answers : (scope : Bytes) → Answers (parse_trace_scope scope)
unfolding parse_trace_scope
parse_trace_scope-Answers scope = scope_loop-Answers (suc (length scope)) 0 scope (omega arith)

pub load_config_db-Answers : (d : Daemon) → Answers (load_config_db d)
unfolding load_config_db
load_config_db-Answers d = parse_config_db-Answers d.file

-- ===== src/Config/Invariant.antt =====
-- The invariant of the controller database of src/vds_config.cc: what the file parser makes and
-- what the changes keep.
use windows_vds.Prelude.{
  refl, Bytes, codes, bytes_eq_comm, ◌≡◌, Bool, List, [], ◌∷◌, Bytes, ok, Bool-cases, bind-eq-ok,
  bytes_eq, All, inl, inr, ◌++◌, ℕ, none, false, Option, arith, ◌∙◌, some, ◌+◌, err,
}
use windows_vds.Jsonl.Parse.{JsonlField, parse_jsonl_object}
use windows_vds.Jsonl.Fields.{
  require_jsonl_string, require_jsonl_unsigned_array, reject_unknown_jsonl_fields,
}
use windows_vds.Config.Ports.{validate_ports}
use windows_vds.Config.Records.{
  ControllerConfig, ConfigDb, normalize_bluetooth_address, find_address, parse_controller_profile,
}
use windows_vds.Config.Db.{
  record_fields, line_context, replace_or_append, erase_address, upsert_controller_config,
  remove_controller_config, controller_of_fields, add_line, parse_controller_line, parse_lines,
  strip_cr, duplicate_line, parse_stripped, parse_config_db, get_lines,
}
use windows_vds.Config.Validation.{IsPortList, validate_ports-eq-ok}
use windows_vds.Config.Addresses.{normalize_bluetooth_address_idem}
use windows_vds.Config.Lookup.{
  IsDistinct, replace_or_append-IsDistinct, erase_address-IsDistinct, find_address-append,
}

-- The address is in normal form; the ports are increasing and in range.
pub record IsConfig (c : ControllerConfig) : Type 0 where
  pub normal : normalize_bluetooth_address c.address ≡ ok c.address
  pub valid_ports : IsPortList c.ports

-- Every controller is valid, and no two have one address.
pub record IsDb (db : ConfigDb) : Type 0 where
  pub configs : All IsConfig db.controllers
  pub distinct : IsDistinct db.controllers

replace_or_append-All :
    (cs : List ControllerConfig) (c : ControllerConfig)
    → All IsConfig cs
    → IsConfig c
    → All IsConfig (replace_or_append cs c)
unfolding replace_or_append
replace_or_append-All [] c h k = (k, tt)
replace_or_append-All (d ∷ cs) c h k = elim (Bool-cases (bytes_eq d.address c.address)) [
  | inl same ↦ rw same (k, h.1)
  | inr other ↦ rw other (h.0, replace_or_append-All cs c h.1 k)
]

erase_address-All :
    (cs : List ControllerConfig) (a : Bytes) → All IsConfig cs → All IsConfig (erase_address cs a)
unfolding erase_address
erase_address-All [] a h = tt
erase_address-All (d ∷ cs) a h = elim (Bool-cases (bytes_eq d.address a)) [
  | inl same ↦ rw same (erase_address-All cs a h.1)
  | inr other ↦ rw other (h.0, erase_address-All cs a h.1)
]

-- An update or insertion that is accepted keeps the database valid, whatever configuration the
-- caller gives.
pub upsert_controller_config-IsDb :
    (db db' : ConfigDb) (config : ControllerConfig)
    → IsDb db
    → upsert_controller_config db config ≡ ok db'
    → IsDb db'
unfolding upsert_controller_config
upsert_controller_config-IsDb db db' config v h =
    let (address, a, rest) = bind-eq-ok (normalize_bluetooth_address config.address) _ h in
    let (ports, p, e) = bind-eq-ok (validate_ports config.ports) _ rest in
    let checked = record config { address = address; ports = ports } in
    let k : IsConfig checked = record {
      normal = (normalize_bluetooth_address_idem config.address address a).0;
      valid_ports = (validate_ports-eq-ok config.ports ports p).0;
    } in
    let shape : db' ≡ record { controllers = replace_or_append db.controllers checked } = cc e in
    rw shape (record {
      configs = replace_or_append-All db.controllers checked v.configs k;
      distinct = replace_or_append-IsDistinct db.controllers checked v.distinct;
    })

-- A removal that is accepted keeps the database valid.
pub remove_controller_config-IsDb :
    (db db' : ConfigDb) (address : Bytes) (removed : Bool)
    → IsDb db
    → remove_controller_config db address ≡ ok (db', removed)
    → IsDb db'
unfolding remove_controller_config
remove_controller_config-IsDb db db' address removed v h =
    let (a, n, e) = bind-eq-ok (normalize_bluetooth_address address) _ h in
    let shape : db' ≡ record { controllers = erase_address db.controllers a } = cc e in
    rw shape (record {
      configs = erase_address-All db.controllers a v.configs;
      distinct = erase_address-IsDistinct db.controllers a v.distinct;
    })

controller_of_fields-IsConfig :
    (fields : List JsonlField) (context : Bytes) (c : ControllerConfig)
    → controller_of_fields fields context ≡ ok c
    → IsConfig c
unfolding controller_of_fields
controller_of_fields-IsConfig fields context c h =
    let (_, _, h₁) = bind-eq-ok (reject_unknown_jsonl_fields fields record_fields context) _ h in
    let (raw, _, h₂) = bind-eq-ok (require_jsonl_string fields (codes "address") context) _ h₁ in
    let (address, a, h₃) = bind-eq-ok (normalize_bluetooth_address raw) _ h₂ in
    let (text, _, h₄) = bind-eq-ok (require_jsonl_string fields (codes "profile") context) _ h₃ in
    let (profile, _, h₅) = bind-eq-ok (parse_controller_profile text) _ h₄ in
    let (ns, _, h₆) =
      bind-eq-ok (require_jsonl_unsigned_array fields (codes "ports") context) _ h₅ in
    let (ports, p, e) = bind-eq-ok (validate_ports ns) _ h₆ in
    let shape : c ≡ record { address = address; profile = profile; ports = ports } = cc e in
    rw shape (record {
      normal = (normalize_bluetooth_address_idem raw address a).0;
      valid_ports = (validate_ports-eq-ok ns ports p).0;
    })

All-append :
    (cs : List ControllerConfig) (c : ControllerConfig)
    → All IsConfig cs
    → IsConfig c
    → All IsConfig (cs ++ c ∷ [])
All-append [] c h k = (k, tt)
All-append (d ∷ cs) c h k = (h.0, All-append cs c h.1 k)

find_address-none :
    (cs : List ControllerConfig) (d : ControllerConfig) (a : Bytes)
    → find_address (d ∷ cs) a ≡ none
    → (bytes_eq d.address a ≡ false) × (find_address cs a ≡ none)
unfolding find_address
find_address-none cs d a = ground arith

IsDistinct-append :
    (cs : List ControllerConfig) (c : ControllerConfig)
    → IsDistinct cs
    → find_address cs c.address ≡ none
    → IsDistinct (cs ++ c ∷ [])
IsDistinct-append [] c h k = (unfold find_address in refl, tt)
IsDistinct-append (d ∷ cs) c h k =
    let (differs, absent) = find_address-none cs d c.address k in
    (
      find_address-append cs c d.address h.0 ∙ rw (bytes_eq_comm c.address d.address, differs),
      IsDistinct-append cs c h.1 absent,
    )

abbrev IsList : List ControllerConfig → Type 0
IsList cs = All IsConfig cs × IsDistinct cs

add_line-IsList :
    (cs more : List ControllerConfig) (line : Bytes) (n : ℕ)
    → IsList cs
    → add_line cs line n ≡ ok more
    → IsList more
unfolding add_line
add_line-IsList cs more line n v h =
    let (c, l, rest) = bind-eq-ok (parse_controller_line line n) _ h in
    let (fields, _, made) = bind-eq-ok (parse_jsonl_object line (line_context n)) _ l in
    let k = controller_of_fields-IsConfig fields (line_context n) c made in
    join c k (find_address cs c.address) refl rest
  where
    join :
        (c : ControllerConfig)
        → IsConfig c
        → (found : Option ControllerConfig) → find_address cs c.address ≡ found
        → elim found [ none ↦ ok (cs ++ c ∷ []) | some _ ↦ err (duplicate_line n) ] ≡ ok more
        → IsList more
    join c k none e m =
        let shape : more ≡ cs ++ c ∷ [] = cc m in
        rw shape (All-append cs c v.0 k, IsDistinct-append cs c v.1 e)
    join c k (some _) e m = cc m

parse_stripped-IsList :
    (cs more : List ControllerConfig) (line : Bytes) (n : ℕ)
    → IsList cs
    → parse_stripped cs line n ≡ ok more
    → IsList more
parse_stripped-IsList cs more [] n v h =
    let shape : more ≡ cs = unfold parse_stripped in cc h in rw shape v
parse_stripped-IsList cs more (c ∷ line) n v h =
    add_line-IsList cs more (c ∷ line) n v (unfold parse_stripped in h)

parse_lines-IsList :
    (lines : List Bytes) (cs more : List ControllerConfig) (n : ℕ)
    → IsList cs
    → parse_lines cs n lines ≡ ok more
    → IsList more
unfolding parse_lines
parse_lines-IsList [] cs more n v h = let shape : more ≡ cs = cc h in rw shape v
parse_lines-IsList (line ∷ lines) cs more n v h =
    let (next, l, rest) = bind-eq-ok (parse_stripped cs (strip_cr line) (n + 1)) _ h in
    parse_lines-IsList lines next more (n + 1)
      (parse_stripped-IsList cs next (strip_cr line) (n + 1) v l) rest

-- Whatever text the file holds, a database that is loaded from it is valid.
pub parse_config_db-IsDb : (text : Bytes) (db : ConfigDb) → parse_config_db text ≡ ok db → IsDb db
unfolding parse_config_db
parse_config_db-IsDb text db h =
    let (cs, l, e) = bind-eq-ok (parse_lines [] 0 (get_lines text)) _ h in
    let (configs, distinct) = parse_lines-IsList (get_lines text) [] cs 0 (tt, tt) l in
    let shape : db ≡ record { controllers = cs } = cc e in
    rw shape (record { configs = configs; distinct = distinct })

-- ===== src/Protocol/Triggers/Spec.antt =====
-- `parse_trigger_effect_spec` of src/vds_protocol.cc.
use windows_vds.Prelude.{
  ℕ, zero, suc, ◌+◌, ◌-◌, ◌*◌, List, [], ◌∷◌, ◌++◌, ltb, within, ◌==◌, if◌then◌else◌, length,
  get_or, Bytes, codes, bytes_eq, Option, none, some, Result, ok, err, out_of_fuel, ◌>>=◌,
}
use windows_vds.Prelude.Decimal.{to_string}
use windows_vds.Protocol.Triggers.{
  trigger_effect_off, trigger_effect_feedback, trigger_effect_weapon, trigger_effect_vibration,
  trigger_effect_bow, trigger_effect_galloping, trigger_effect_machine, trigger_ffb_size,
}

-- `substr(0, find(mark))`, and the text behind the mark if there is one.
unfoldable pub before : ℕ → Bytes → Bytes
before mark [] = []
before mark (c ∷ text) = if c == mark then [] else c ∷ before mark text

unfoldable pub behind : ℕ → Bytes → Option Bytes
behind mark [] = none
behind mark (c ∷ text) = if c == mark then some text else behind mark text

unfoldable pub invalid_number : Bytes → Bytes
invalid_number spec = codes "invalid trigger effect number in spec: " ++ spec

-- The loop over the digits: it stops early at a number that is out of every range.
unfoldable pub number_loop : Bytes → ℕ → Bytes → Result ℕ
number_loop spec value [] = ok value
number_loop spec value (c ∷ text) =
    let next = value * 10 + (c - b'0') in
    let rest = number_loop spec next text in
    if within b'0' b'9' c
    then (if ltb 100000 next then ok next else rest)
    else err (invalid_number spec)

unfoldable pub parse_effect_number : Bytes → Bytes → Result ℕ
unfolding number_loop
parse_effect_number [] spec = err (codes "empty trigger effect number in spec: " ++ spec)
parse_effect_number (c ∷ text) spec = number_loop spec 0 (c ∷ text)

-- The `while` loop of `parse_effect_params`.
unfoldable pub params_loop : ℕ → Bytes → Bytes → Result (List ℕ)
unfolding parse_effect_number before behind
params_loop fuel spec [] = ok []
params_loop zero spec (c ∷ text) = out_of_fuel
params_loop (suc fuel) spec (c ∷ text) =
    parse_effect_number (before b',' (c ∷ text)) spec >>= λ value. elim (behind b',' (c ∷ text)) [
      | none ↦ ok (value ∷ [])
      | some rest ↦ params_loop fuel spec rest >>= λ values. ok (value ∷ values)
    ]

unfoldable pub parse_effect_params : Bytes → Bytes → Result (List ℕ)
unfolding params_loop
parse_effect_params params spec = params_loop (length params) spec params

unfoldable pub nibble : ℕ → Result ℕ
nibble c =
    if within b'0' b'9' c
    then ok (c - b'0')
    else if within b'a' b'f' c
    then ok (c - b'a' + 10)
    else if within b'A' b'F' c
    then ok (c - b'A' + 10)
    else err (codes "invalid hex digit in raw trigger effect")

-- The loop over the pairs of digits: a nibble shifted by four leaves the low bits clear.
unfoldable pub raw_bytes : Bytes → Result Bytes
unfolding nibble
raw_bytes [] = ok []
raw_bytes (h ∷ []) = ok []
raw_bytes (h ∷ l ∷ text) = nibble h >>= λ high.
    nibble l >>= λ low. raw_bytes text >>= λ bytes. ok ((high * 16 + low) ∷ bytes)

unfoldable pub raw_effect : Bytes → Result Bytes
unfolding raw_bytes
raw_effect params_text =
    if length params_text == trigger_ffb_size * 2
    then raw_bytes params_text
    else err (codes "raw trigger effect must be exactly 22 hex digits")

unfoldable pub count_error : Bytes → ℕ → Bytes
count_error name count =
    codes "trigger effect '"
    ++ (name ++ (codes "' expects " ++ (to_string count ++ codes " parameters")))

-- `require_count(n)` and the call that follows it.
unfoldable pub with_count : Bytes → ℕ → List ℕ → Result Bytes → Result Bytes
with_count name count params effect =
    if length params == count then effect else err (count_error name count)

abbrev pub param : List ℕ → ℕ → ℕ
param params i = get_or params i 0

-- The branch on the effect's name, for an effect with parameters.
unfoldable pub named_effect : Bytes → Bytes → List ℕ → Result Bytes
unfolding bytes_eq with_count
named_effect name spec params =
    if bytes_eq name (codes "feedback")
    then with_count name 2 params (trigger_effect_feedback (param params 0) (param params 1))
    else if bytes_eq name (codes "weapon")
    then with_count name 3 params
        (trigger_effect_weapon (param params 0) (param params 1) (param params 2))
    else if bytes_eq name (codes "vibration")
    then with_count name 3 params
        (trigger_effect_vibration (param params 0) (param params 1) (param params 2))
    else if bytes_eq name (codes "bow")
    then with_count name 4 params
        (trigger_effect_bow (param params 0) (param params 1) (param params 2) (param params 3))
    else if bytes_eq name (codes "galloping")
    then with_count name 5 params (
        trigger_effect_galloping (param params 0) (param params 1) (param params 2) (param params 3)
          (param params 4))
    else if bytes_eq name (codes "machine")
    then with_count name 6 params (
        trigger_effect_machine (param params 0) (param params 1) (param params 2) (param params 3)
          (param params 4) (param params 5))
    else err (codes "unknown trigger effect: " ++ spec)

unfoldable pub text_or_empty : Option Bytes → Bytes
text_or_empty none = []
text_or_empty (some text) = text

unfoldable pub parse_trigger_effect_spec : Bytes → Result Bytes
unfolding bytes_eq before behind text_or_empty raw_effect parse_effect_params named_effect
parse_trigger_effect_spec spec =
    let name = before b':' spec in
    let params_text = text_or_empty (behind b':' spec) in
    if bytes_eq name (codes "off")
    then ok trigger_effect_off
    else if bytes_eq name (codes "raw")
    then raw_effect params_text
    else (parse_effect_params params_text spec >>= λ params. named_effect name spec params)

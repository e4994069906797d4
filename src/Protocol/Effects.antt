-- ===== src/Protocol/Effects.antt =====
-- What the effect specs of src/vds_protocol.cc are parsed to.
use windows_vds.Prelude.{
  Bool-cases, inl, inr, ==_iff, ℕ, zero, suc, ◌+◌, ◌-◌, ◌*◌, ◌≤◌, ◌<◌, ◌≡◌, refl, Bool, true, false,
  [], ◌∷◌, List, length, if◌then◌else◌, ◌==◌, Bytes, codes, bytes_eq, IsBytes, Option, none, some,
  Result, ok, ◌>>=◌, arith, Ensures, Ensures-bind, Answers, Answers-bind,
}
use windows_vds.Protocol.Triggers.{
  require_effect_range, trigger_effect_off, trigger_effect_feedback, trigger_effect_weapon,
  trigger_effect_vibration, trigger_effect_bow, trigger_effect_galloping, trigger_effect_machine,
}
use windows_vds.Protocol.Triggers.Spec.{
  before, behind, number_loop, parse_effect_number, params_loop, parse_effect_params, nibble,
  raw_bytes, raw_effect, with_count, named_effect, text_or_empty, parse_trigger_effect_spec,
}

-- Eleven bytes.
abbrev pub IsEffect : Bytes → Type 0
IsEffect effect = (length effect ≡ 11) × IsBytes effect

if-Ensures :
    (b : Bool) (m n : Result Bytes)
    → Ensures IsEffect m
    → Ensures IsEffect n
    → Ensures IsEffect (if b then m else n)
if-Ensures true m n h k = h
if-Ensures false m n h k = k

feedback-Ensures : (p s : ℕ) → Ensures IsEffect (trigger_effect_feedback p s)
unfolding require_effect_range trigger_effect_feedback
feedback-Ensures p s = ground arith

weapon-Ensures : (a b s : ℕ) → Ensures IsEffect (trigger_effect_weapon a b s)
unfolding require_effect_range trigger_effect_weapon
weapon-Ensures a b s = ground arith

vibration-Ensures : (p a f : ℕ) → Ensures IsEffect (trigger_effect_vibration p a f)
unfolding require_effect_range trigger_effect_vibration
vibration-Ensures p a f = ground arith

bow-Ensures : (a b s f : ℕ) → Ensures IsEffect (trigger_effect_bow a b s f)
unfolding require_effect_range trigger_effect_bow
bow-Ensures a b s f = ground arith

galloping-Ensures : (a b s t f : ℕ) → Ensures IsEffect (trigger_effect_galloping a b s t f)
unfolding require_effect_range trigger_effect_galloping
galloping-Ensures a b s t f = ground arith

machine-Ensures : (a b s t f p : ℕ) → Ensures IsEffect (trigger_effect_machine a b s t f p)
unfolding require_effect_range trigger_effect_machine
machine-Ensures a b s t f p = ground arith

count-Ensures :
    (name : Bytes) (count : ℕ) (params : List ℕ) (m : Result Bytes)
    → Ensures IsEffect m
    → Ensures IsEffect (with_count name count params m)
unfolding with_count
count-Ensures name count params m h = if-Ensures (length params == count) _ _ h tt

named_effect-Ensures :
    (name spec : Bytes) (params : List ℕ) → Ensures IsEffect (named_effect name spec params)
unfolding named_effect
named_effect-Ensures name spec params =
    if-Ensures (bytes_eq name (codes "feedback")) _ _
      (count-Ensures name 2 params _ (feedback-Ensures _ _))
      (if-Ensures (bytes_eq name (codes "weapon")) _ _
        (count-Ensures name 3 params _ (weapon-Ensures _ _ _))
        (if-Ensures (bytes_eq name (codes "vibration")) _ _
          (count-Ensures name 3 params _ (vibration-Ensures _ _ _))
          (if-Ensures (bytes_eq name (codes "bow")) _ _
            (count-Ensures name 4 params _ (bow-Ensures _ _ _ _))
            (if-Ensures (bytes_eq name (codes "galloping")) _ _
              (count-Ensures name 5 params _ (galloping-Ensures _ _ _ _ _))
              (if-Ensures (bytes_eq name (codes "machine")) _ _
                (count-Ensures name 6 params _ (machine-Ensures _ _ _ _ _ _)) tt)))))

nibble-Ensures : (c : ℕ) → Ensures (λ n. n < 16) (nibble c)
unfolding nibble
nibble-Ensures c = ground arith

raw_bytes-Ensures :
    (n : ℕ) (text : Bytes)
    → length text ≡ n * 2
    → Ensures (λ e. (length e ≡ n) × IsBytes e) (raw_bytes text)
unfolding raw_bytes
raw_bytes-Ensures zero [] h = (refl, tt)
raw_bytes-Ensures zero (c ∷ text) h = absurd (omega arith)
raw_bytes-Ensures (suc n) [] h = absurd (omega arith)
raw_bytes-Ensures (suc n) (c ∷ []) h = absurd (omega arith)
raw_bytes-Ensures (suc n) (c ∷ d ∷ text) h =
    Ensures-bind (λ n. n < 16) _ _ _ (nibble-Ensures c)
      λ high p.
        Ensures-bind (λ n. n < 16) _ _ _ (nibble-Ensures d)
          λ low q.
            Ensures-bind (λ e. (length e ≡ n) × IsBytes e) _ _ _
              (raw_bytes-Ensures n text (omega arith))
              λ bytes r. (omega (arith, r.0), (omega arith, r.1))

raw_effect-Ensures : (text : Bytes) → Ensures IsEffect (raw_effect text)
unfolding raw_effect
raw_effect-Ensures text = elim (Bool-cases (length text == 22)) [
  | inl e ↦ rw e (raw_bytes-Ensures 11 text ((==_iff _ _).0 e))
  | inr other ↦ rw other tt
]

number_loop-Answers :
    (spec : Bytes) (value : ℕ) (text : Bytes) → Answers (number_loop spec value text)
unfolding number_loop
number_loop-Answers spec value [] = tt
number_loop-Answers spec value (c ∷ text) =
    ground (arith, number_loop-Answers spec (value * 10 + (c - b'0')) text)

parse_effect_number-Answers : (text spec : Bytes) → Answers (parse_effect_number text spec)
unfolding parse_effect_number
parse_effect_number-Answers [] spec = tt
parse_effect_number-Answers (c ∷ text) spec = number_loop-Answers spec 0 (c ∷ text)

pub behind-shorter :
    (mark : ℕ) (text rest : Bytes) → behind mark text ≡ some rest → length rest < length text
unfolding behind
behind-shorter mark [] rest h = cc h
behind-shorter mark (c ∷ text) rest h = ground (arith, behind-shorter mark text rest)

params_loop-Answers :
    (fuel : ℕ) (spec text : Bytes) → length text ≤ fuel → Answers (params_loop fuel spec text)
unfolding params_loop
params_loop-Answers fuel spec [] le = tt
params_loop-Answers zero spec (c ∷ text) le = absurd (omega arith)
params_loop-Answers (suc fuel) spec (c ∷ text) le =
    Answers-bind _ _ (parse_effect_number-Answers (before b',' (c ∷ text)) spec) λ value.
      next value (behind b',' (c ∷ text)) (behind-shorter b',' (c ∷ text))
        λ rest p. params_loop-Answers fuel spec rest (omega arith)
  where
    next :
        (value : ℕ) (o : Option Bytes)
        → ((rest : Bytes) → o ≡ some rest → length rest < suc (length text))
        → ((rest : Bytes) → length rest < suc (length text) → Answers (params_loop fuel spec rest))
        → Answers (elim o [
          | none ↦ ok (value ∷ [])
          | some rest ↦ params_loop fuel spec rest >>= λ values. ok (value ∷ values)
        ])
    next value none shorter again = tt
    next value (some rest) shorter again =
        Answers-bind _ _ (again rest (shorter rest refl)) (λ values. tt)

-- Every spec is refused with a message or parsed to an effect of eleven bytes.
pub parse_trigger_effect_spec-IsEffect :
    (spec : Bytes) → Ensures IsEffect (parse_trigger_effect_spec spec)
unfolding parse_trigger_effect_spec trigger_effect_off parse_effect_params
parse_trigger_effect_spec-IsEffect spec =
    let name = before b':' spec in
    let text = text_or_empty (behind b':' spec) in
    if-Ensures (bytes_eq name (codes "off")) _ _ (refl, ground arith)
      (if-Ensures (bytes_eq name (codes "raw")) _ _ (raw_effect-Ensures text) (
        Ensures-bind (λ _. Unit) _ _ _ (params_loop-Answers (length text) spec text (omega arith))
          λ params _. named_effect-Ensures name spec params))

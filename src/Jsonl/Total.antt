-- ===== src/Jsonl/Total.antt =====
-- Termination of the parser of src/jsonl.cc.
use windows_vds.Prelude.{
  ℕ, zero, suc, true, false, ◌≤◌, ◌<◌, [], ◌∷◌, arith, length, Bytes, Ensures, Ensures-bind, ◌==◌,
  Ensures-mono, Bool-cases, inl, inr, ◌++◌, List, Bool, ◌≢◌, out_of_fuel, Ensures-returns,
}
use windows_vds.Jsonl.Lex.{skip_jsonl_space}
use windows_vds.Jsonl.Parse.{
  value_at, parse_jsonl_value, parse_field, object_next, at_end, object_loop, object_body,
  parse_jsonl_object, JsonlField,
}
use windows_vds.Jsonl.StringReads.{
  Leaves, Reads, Any, length-skip, require_jsonl_char-Ensures, parse_jsonl_string-Ensures,
}
use windows_vds.Jsonl.NumberReads.{parse_jsonl_unsigned_array-Ensures, ReadsNumbers}

value_at-Ensures : (text context : Bytes) → Ensures (Leaves (length text)) (value_at text context)
unfolding value_at
value_at-Ensures [] context = tt
value_at-Ensures (c ∷ text) context = elim (Bool-cases (c == b'"')) [
  | inl e ↦ rw e (
      Ensures-bind (Reads (suc (length text))) (Leaves (suc (length text))) _ _
        (parse_jsonl_string-Ensures (c ∷ text) context) (λ r h. omega arith))
  | inr not_string ↦ rw not_string (elim (Bool-cases (c == b'[')) [
    | inl e ↦ rw e (
        Ensures-bind (ReadsNumbers (suc (length text))) (Leaves (suc (length text))) _ _
          (parse_jsonl_unsigned_array-Ensures (c ∷ text) context) (λ r h. omega arith))
    | inr other ↦ rw other tt
  ])
]

parse_jsonl_value-Ensures :
    (text context : Bytes) → Ensures (Leaves (length text)) (parse_jsonl_value text context)
unfolding parse_jsonl_value
parse_jsonl_value-Ensures text context =
    Ensures-mono (Leaves (length (skip_jsonl_space text))) (Leaves (length text)) _
      (value_at-Ensures (skip_jsonl_space text) context) (λ r h. omega (arith, length-skip text))

parse_field-Ensures :
    (text context : Bytes) → Ensures (Reads (length text)) (parse_field text context)
unfolding parse_field
parse_field-Ensures text context =
    Ensures-bind (Reads (length text)) (Reads (length text)) _ _
      (parse_jsonl_string-Ensures text context)
      λ k p.
        Ensures-bind (λ r. suc (length r) ≤ length k.1) (Reads (length text)) _ _
          (require_jsonl_char-Ensures k.1 b':' context)
          λ t q.
            Ensures-bind (Leaves (length t)) (Reads (length text)) _ _
              (parse_jsonl_value-Ensures t context) (λ v h. omega arith)

object_next-Ensures :
    (text context : Bytes) → Ensures (Reads (length text)) (object_next text context)
unfolding object_next
object_next-Ensures [] context = tt
object_next-Ensures (c ∷ text) context = ground arith

at_end-Ensures :
    (text context : Bytes) (fields : List JsonlField) → Ensures Any (at_end text context fields)
unfolding at_end
at_end-Ensures [] context fields = tt
at_end-Ensures (c ∷ text) context fields = tt

object_loop-Ensures :
    (fuel : ℕ) (context : Bytes) (fields : List JsonlField) (text : Bytes)
    → length text < fuel
    → Ensures Any (object_loop fuel context fields text)
unfolding object_loop
object_loop-Ensures zero context fields text h = absurd (omega arith)
object_loop-Ensures (suc fuel) context fields text h =
    Ensures-bind (Reads (length text)) Any _ _ (parse_field-Ensures text context) λ f p.
      Ensures-bind (Reads (length (skip_jsonl_space f.1))) Any _ _
        (object_next-Ensures (skip_jsonl_space f.1) context)
        λ n q.
          next f n (omega (arith, length-skip f.1))
            (object_loop-Ensures fuel context (fields ++ f.0 ∷ []) n.1)
  where
    next :
        (f : JsonlField × Bytes) (n : Bool × Bytes)
        → length n.1 < fuel
        → (length n.1 < fuel → Ensures Any (object_loop fuel context (fields ++ f.0 ∷ []) n.1))
        → Ensures Any (elim n.0 [
          | true ↦ at_end (skip_jsonl_space n.1) context (fields ++ f.0 ∷ [])
          | false ↦ object_loop fuel context (fields ++ f.0 ∷ []) n.1
        ])
    next f (true, r) p rest = at_end-Ensures (skip_jsonl_space r) context (fields ++ f.0 ∷ [])
    next f (false, r) p rest = rest p

object_body-Ensures : (text context : Bytes) → Ensures Any (object_body text context)
unfolding object_body
object_body-Ensures [] context = object_loop-Ensures 1 context [] [] (omega arith)
object_body-Ensures (c ∷ text) context = elim (Bool-cases (c == b'}')) [
  | inl e ↦ rw e (at_end-Ensures (skip_jsonl_space text) context [])
  | inr other ↦
      rw other (object_loop-Ensures (suc (suc (length text))) context [] (c ∷ text) (omega arith))
]

-- Every text is parsed or refused with a message: no loop of the parser runs on, whatever the
-- bytes.
pub parse_jsonl_object_total :
    (text context : Bytes) → parse_jsonl_object text context ≢ out_of_fuel
unfolding parse_jsonl_object
parse_jsonl_object_total text context = Ensures-returns {A = List JsonlField} Any _ (
    Ensures-bind (λ r. suc (length r) ≤ length text) Any _ _
      (require_jsonl_char-Ensures text b'{' context)
      (λ r _. object_body-Ensures (skip_jsonl_space r) context))

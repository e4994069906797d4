-- ===== src/Jsonl/Arrays.antt =====
-- Arrays of numbers are parsed back.
use windows_vds.Prelude.{
  ℕ, zero, suc, ◌≤◌, ◌<◌, ◌≡◌, refl, true, false, List, [], ◌∷◌, ◌++◌, arith, length, Bytes, ok,
  append_assoc, ◌==◌, ◌∙◌, All, length-append, ◌^◌, get_or,
}
use windows_vds.Prelude.Decimal.{is_digit, to_string}
use windows_vds.Jsonl.Lex.{skip_jsonl_space}
use windows_vds.Jsonl.Parse.{
  array_loop, array_next, array_body, parse_jsonl_unsigned, parse_jsonl_unsigned_array,
}
use windows_vds.Jsonl.Print.{unsigned_tail, jsonl_unsigned_array}
use windows_vds.Jsonl.Numbers.{
  EndsNumber, parse_jsonl_unsigned-to_string, to_string-cons, skip-digit,
}

abbrev pub IsNumbers : List ℕ → Type 0
IsNumbers = All (λ n. n < 2 ^ 32)

unsigned_tail-EndsNumber :
    (ns : List ℕ) (rest : Bytes) → EndsNumber (unsigned_tail ns ++ b']' ∷ rest)
unfolding unsigned_tail is_digit
unsigned_tail-EndsNumber [] rest = refl
unsigned_tail-EndsNumber (n ∷ ns) rest = refl

length-unsigned_tail : (ns : List ℕ) (more : Bytes) → length ns ≤ length (unsigned_tail ns ++ more)
unfolding unsigned_tail
length-unsigned_tail [] more = omega arith
length-unsigned_tail (n ∷ ns) more = rw append_assoc (
    omega
      (arith, length-append (to_string n) (unsigned_tail ns ++ more), length-unsigned_tail ns more))

array_loop-close :
    (fuel : ℕ) (context text r t : Bytes) (acc : List ℕ) (v : ℕ)
    → parse_jsonl_unsigned text context ≡ ok (v, t)
    → array_next (skip_jsonl_space t) context ≡ ok (true, r)
    → array_loop (suc fuel) context acc text ≡ ok (acc ++ v ∷ [], r)
unfolding array_loop
array_loop-close fuel context text r t acc v p q = rw (p, q)

array_loop-more :
    (fuel : ℕ) (context text r t : Bytes) (acc : List ℕ) (v : ℕ)
    → parse_jsonl_unsigned text context ≡ ok (v, t)
    → array_next (skip_jsonl_space t) context ≡ ok (false, r)
    → array_loop (suc fuel) context acc text ≡ array_loop fuel context (acc ++ v ∷ []) r
unfolding array_loop
array_loop-more fuel context text r t acc v p q = rw (p, q)

array_next-unsigned_tail :
    (m : ℕ) (ns : List ℕ) (rest context : Bytes)
    → array_next (skip_jsonl_space (unsigned_tail (m ∷ ns) ++ b']' ∷ rest)) context
      ≡ ok (false, to_string m ++ (unsigned_tail ns ++ b']' ∷ rest))
unfolding array_next unsigned_tail
array_next-unsigned_tail m ns rest context = unfold skip_jsonl_space in rw append_assoc

array_loop-unsigned_tail :
    (ns : List ℕ) (fuel : ℕ) (context : Bytes) (acc : List ℕ) (n : ℕ) (rest : Bytes)
    → length ns < fuel
    → n < 2 ^ 32
    → IsNumbers ns
    → array_loop fuel context acc (to_string n ++ (unsigned_tail ns ++ b']' ∷ rest))
      ≡ ok (acc ++ n ∷ ns, rest)
array_loop-unsigned_tail ns zero context acc n rest f h hs = elim f [ ]
array_loop-unsigned_tail [] (suc fuel) context acc n rest f h hs =
    array_loop-close fuel context _ rest _ acc n
      (parse_jsonl_unsigned-to_string n _ context h (unsigned_tail-EndsNumber [] rest))
      (unfold unsigned_tail array_next skip_jsonl_space in refl)
array_loop-unsigned_tail (m ∷ ns) (suc fuel) context acc n rest f h hs =
    array_loop-more fuel context _ _ _ acc n
      (parse_jsonl_unsigned-to_string n _ context h (unsigned_tail-EndsNumber (m ∷ ns) rest))
      (array_next-unsigned_tail m ns rest context)
    ∙ array_loop-unsigned_tail ns fuel context (acc ++ n ∷ []) m rest (omega arith) hs.0 hs.1
    ∙ rw append_assoc

-- On a text that does not close the array at once.
array_body-loop :
    (text context : Bytes)
    → (get_or text 0 0 == b']') ≡ false
    → array_body text context ≡ array_loop (suc (length text)) context [] text
unfolding array_body
array_body-loop [] context h = refl
array_body-loop (c ∷ text) context h = rw h

to_string-first :
    (n : ℕ) (more : Bytes)
    → ((get_or (to_string n ++ more) 0 0 == b']') ≡ false)
      × (skip_jsonl_space (to_string n ++ more) ≡ to_string n ++ more)
to_string-first n more =
    let (c, cs, shape, d) = to_string-cons n in
    rw shape (unfold is_digit in ground arith, skip-digit c (cs ++ more) d)

array_text :
    (n : ℕ) (ns : List ℕ) (rest : Bytes)
    → jsonl_unsigned_array (n ∷ ns) ++ rest
      ≡ b'[' ∷ (to_string n ++ (unsigned_tail ns ++ b']' ∷ rest))
unfolding jsonl_unsigned_array
array_text n ns rest = simp append_assoc

-- A printed array of 32-bit numbers is parsed back, whatever follows it.
pub parse_jsonl_unsigned_array-jsonl_unsigned_array :
    (ns : List ℕ) (rest context : Bytes)
    → IsNumbers ns
    → parse_jsonl_unsigned_array (jsonl_unsigned_array ns ++ rest) context ≡ ok (ns, rest)
parse_jsonl_unsigned_array-jsonl_unsigned_array [] rest context h =
    unfold parse_jsonl_unsigned_array jsonl_unsigned_array in refl
parse_jsonl_unsigned_array-jsonl_unsigned_array (n ∷ ns) rest context h =
    let more = unsigned_tail ns ++ b']' ∷ rest in
    let (head, skips) = to_string-first n more in
    rw array_text (
      unfold parse_jsonl_unsigned_array in
      rw skips (
        array_body-loop (to_string n ++ more) context head
        ∙ array_loop-unsigned_tail ns (suc (length (to_string n ++ more))) context [] n rest
            (omega (arith, length-append (to_string n) more, length-unsigned_tail ns (b']' ∷ rest)))
            h.0 h.1))

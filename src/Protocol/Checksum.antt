-- ===== src/Protocol/Checksum.antt =====
-- What the checksum functions of src/vds_protocol.cc do to a report.
use windows_vds.Prelude.{
  ℕ, zero, suc, ◌+◌, ◌-◌, ◌*◌, ◌^◌, ◌≤◌, ◌<◌, ◌≡◌, refl, ap, ◌∙◌, [], ◌∷◌, ◌++◌, List, length, take,
  drop, length-append, Bytes, ok, arith,
}
use windows_vds.Protocol.Bits.{le_bytes}
use windows_vds.Protocol.Crc.{
  complement, crc32_seeded, output_crc32, feature_crc32, fill_output_report_checksum,
  fill_feature_report_checksum,
}

pub length-take {ℓ} : {A : Type ℓ} (n : ℕ) (xs : List A) → n ≤ length xs → length (take n xs) ≡ n
length-take zero xs h = refl
length-take (suc n) [] h = absurd (omega arith)
length-take (suc n) (x ∷ xs) h = omega (arith, length-take n xs (omega arith))

take-append {ℓ} : {A : Type ℓ} (n : ℕ) (xs ys : List A) → length xs ≡ n → take n (xs ++ ys) ≡ xs
take-append zero [] ys h = refl
take-append zero (x ∷ xs) ys h = absurd (omega arith)
take-append (suc n) [] ys h = absurd (omega arith)
take-append (suc n) (x ∷ xs) ys h = ap (λ t. x ∷ t) (take-append n xs ys (omega arith))

drop-append {ℓ} : {A : Type ℓ} (n : ℕ) (xs ys : List A) → length xs ≡ n → drop n (xs ++ ys) ≡ ys
drop-append zero [] ys h = refl
drop-append zero (x ∷ xs) ys h = absurd (omega arith)
drop-append (suc n) [] ys h = absurd (omega arith)
drop-append (suc n) (x ∷ xs) ys h = drop-append n xs ys (omega arith)

-- The number that bytes spell, the least one first.
abbrev pub word_of : Bytes → ℕ
word_of [] = 0
word_of (b ∷ bytes) = b + 256 * word_of bytes

le_bytes-word_of : (n : ℕ) → n < 2 ^ 32 → word_of (le_bytes n) ≡ n
unfolding le_bytes
le_bytes-word_of n lt = omega arith

complement-bound : (x : ℕ) → complement x < 2 ^ 32
unfolding complement
complement-bound x = omega arith

-- A report is sealed by a checksum: same length, same bytes in front, and the last four bytes spell
-- the checksum of those.
abbrev pub Sealed : (Bytes → ℕ) → Bytes → Bytes → Type 0
Sealed crc report filled =
    (length filled ≡ length report)
    × (take (length report - 4) filled ≡ take (length report - 4) report)
    × (word_of (drop (length report - 4) filled) ≡ crc (take (length filled - 4) filled))

seal :
    (crc : Bytes → ℕ) (report : Bytes)
    → ((bytes : Bytes) → crc bytes < 2 ^ 32)
    → 4 ≤ length report
    → Sealed crc report
        (take (length report - 4) report ++ le_bytes (crc (take (length report - 4) report)))
unfolding le_bytes
seal crc report bound h =
    let n = length report - 4 in
    let front = take n report in
    let sized = length-take n report (omega arith) in
    let ending = le_bytes (crc front) in
    let whole : length (front ++ ending) ≡ length report =
      length-append front ending ∙ omega (arith, sized) in
    let kept = take-append n front ending sized in
    (
      whole,
      kept,
      rw (drop-append n front ending sized, whole, kept)
          (le_bytes-word_of (crc front) (bound front)),
    )

-- A report of four bytes or more keeps its length and all but its last four bytes, which spell the
-- `output_crc32` of the bytes in front of them.
pub fill_output_report_checksum-Sealed :
    (report : Bytes)
    → 4 ≤ length report
    → (filled : Bytes) × (fill_output_report_checksum report ≡ ok filled)
      × Sealed output_crc32 report filled
unfolding fill_output_report_checksum
fill_output_report_checksum-Sealed report h = (
  _,
  ground arith,
  seal output_crc32 report (λ bytes. unfold output_crc32 crc32_seeded in complement-bound _) h,
)

-- A report of four bytes or more keeps its length and all but its last four bytes, which spell the
-- `feature_crc32` of the bytes in front of them.
pub fill_feature_report_checksum-Sealed :
    (report : Bytes)
    → 4 ≤ length report
    → (filled : Bytes) × (fill_feature_report_checksum report ≡ ok filled)
      × Sealed feature_crc32 report filled
unfolding fill_feature_report_checksum
fill_feature_report_checksum-Sealed report h = (
  _,
  ground arith,
  seal feature_crc32 report (λ bytes. unfold feature_crc32 crc32_seeded in complement-bound _) h,
)

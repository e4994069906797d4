-- ===== src/Hcd/Buffers.antt =====
-- Lists of bytes cut and joined: lemmas for the transfers of the kernel module.
use windows_vds.Prelude.{
  ℕ, zero, suc, ◌≡◌, ◌≤◌, ◌+◌, ◌-◌, List, [], ◌∷◌, ◌++◌, arith, length, length-append, take, drop,
  replicate, Bytes, refl, ap,
}
use windows_vds.Hcd.Usb.{min, write_at}

module _ {ℓ} {A : Type ℓ} where
  pub length-take_le : (n : ℕ) (xs : List A) → n ≤ length xs → length (take n xs) ≡ n
  length-take_le zero xs h = refl
  length-take_le (suc n) [] h = omega arith
  length-take_le (suc n) (x ∷ xs) h = omega (arith, length-take_le n xs (omega arith))

  pub length-drop : (n : ℕ) (xs : List A) → length (drop n xs) ≡ length xs - n
  length-drop zero xs = omega arith
  length-drop (suc n) [] = omega arith
  length-drop (suc n) (x ∷ xs) = omega (arith, length-drop n xs)

  pub length-replicate : (n : ℕ) (x : A) → length (replicate n x) ≡ n
  length-replicate zero x = refl
  length-replicate (suc n) x = ap suc (length-replicate n x)

  pub take-length : (xs : List A) → take (length xs) xs ≡ xs
  take-length [] = refl
  take-length (x ∷ xs) = ap (λ t. x ∷ t) (take-length xs)

  pub drop-nil : (n : ℕ) → drop {A = A} n [] ≡ []
  drop-nil zero = refl
  drop-nil (suc n) = refl

  pub take-nil : (n : ℕ) → take {A = A} n [] ≡ []
  take-nil zero = refl
  take-nil (suc n) = refl

  pub drop-drop : (m n s : ℕ) (xs : List A) → s ≡ m + n → drop n (drop m xs) ≡ drop s xs
  drop-drop zero n s xs e = ground arith
  drop-drop (suc m) n zero xs e = absurd (omega arith)
  drop-drop (suc m) n (suc s) [] e = drop-nil n
  drop-drop (suc m) n (suc s) (x ∷ xs) e = drop-drop m n s xs (omega arith)

  -- Where the first list is too short, the rest comes from the second one.
  pub take-append_ge :
      (n : ℕ) (xs ys : List A) → length xs ≤ n → take n (xs ++ ys) ≡ xs ++ take (n - length xs) ys
  take-append_ge n [] ys h = ground arith
  take-append_ge zero (x ∷ xs) ys h = absurd (omega arith)
  take-append_ge (suc n) (x ∷ xs) ys h = ground (arith, take-append_ge n xs ys (omega arith))

  pub take-append_le : (n : ℕ) (xs ys : List A) → n ≤ length xs → take n (xs ++ ys) ≡ take n xs
  take-append_le zero xs ys h = refl
  take-append_le (suc n) [] ys h = ground arith
  take-append_le (suc n) (x ∷ xs) ys h = ap (λ t. x ∷ t) (take-append_le n xs ys (omega arith))

  pub drop-append_ge :
      (n : ℕ) (xs ys : List A) → length xs ≤ n → drop n (xs ++ ys) ≡ drop (n - length xs) ys
  drop-append_ge n [] ys h = ground arith
  drop-append_ge zero (x ∷ xs) ys h = absurd (omega arith)
  drop-append_ge (suc n) (x ∷ xs) ys h = ground (arith, drop-append_ge n xs ys (omega arith))

  pub drop-append_le :
      (n : ℕ) (xs ys : List A) → n ≤ length xs → drop n (xs ++ ys) ≡ drop n xs ++ ys
  drop-append_le zero xs ys h = refl
  drop-append_le (suc n) [] ys h = ground arith
  drop-append_le (suc n) (x ∷ xs) ys h = drop-append_le n xs ys (omega arith)

  -- Two neighbouring slices make one.
  pub take-add : (m n s : ℕ) (xs : List A) → s ≡ m + n → take s xs ≡ take m xs ++ take n (drop m xs)
  take-add zero n s xs e = ground arith
  take-add (suc m) n zero xs e = absurd (omega arith)
  take-add (suc m) n (suc s) [] e = ground (arith, take-nil n)
  take-add (suc m) n (suc s) (x ∷ xs) e = ap (λ t. x ∷ t) (take-add m n s xs (omega arith))

pub min-le : (a b : ℕ) → (min a b ≤ a) × (min a b ≤ b)
unfolding min
min-le a b = ground arith

-- A write inside of a buffer keeps its size.
pub length-write_at :
    (offset : ℕ) (bytes buffer : Bytes)
    → offset + length bytes ≤ length buffer
    → length (write_at offset bytes buffer) ≡ length buffer
unfolding write_at
length-write_at offset bytes buffer h = omega (
  arith,
  length-append (take offset buffer) (bytes ++ drop (offset + length bytes) buffer),
  length-append bytes (drop (offset + length bytes) buffer),
  length-take_le offset buffer (omega arith),
  length-drop (offset + length bytes) buffer,
)

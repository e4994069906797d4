-- ===== src/Protocol/Bits.antt =====
-- Bytes and words as in src/vds_protocol.cc, and the way to check a fact on every byte.
use Prim.Native.Nat.{bit_and, bit_or}
use windows_vds.Prelude.{
  ltb, ◌||◌, ◌-◌, not, sym, refl, false, ℕ, zero, suc, ◌/◌, ◌%◌, ◌^◌, ◌<◌, ◌≡◌, Bool, true, ◌&&◌,
  [], ◌∷◌, ◌==◌, arith, Bytes,
}

-- Bit `k` of a number.
unfoldable pub bit : ℕ → ℕ → Bool
bit n k = n / 2 ^ k % 2 == 1

-- The four bytes of a little-endian 32-bit word.
unfoldable pub le_bytes : ℕ → Bytes
le_bytes n = n % 256 ∷ n / 2 ^ 8 % 256 ∷ n / 2 ^ 16 % 256 ∷ n / 2 ^ 24 % 256 ∷ []

-- The test passes on every number below the bound.
unfoldable pub all_below : ℕ → (ℕ → Bool) → Bool
all_below zero test = true
all_below (suc bound) test = all_below bound test && test bound

pub all_below_sound :
    (bound : ℕ) (test : ℕ → Bool) (k : ℕ) → all_below bound test ≡ true → k < bound → test k ≡ true
unfolding all_below
all_below_sound zero test k passes below = absurd (omega arith)
all_below_sound (suc bound) test k passes below = ground (arith, all_below_sound bound test k)

-- Equality of truth values, as a test.
abbrev pub same : Bool → Bool → Bool
same true b = b
same false b = not b

pub same-eq : (a b : Bool) → same a b ≡ true → a ≡ b
same-eq true b h = sym h
same-eq false true h = cc h
same-eq false false h = refl

all_bits : (ℕ → ℕ → ℕ → Bool) → Bool
all_bits test = all_below 256 λ n. all_below 8 λ k. all_below 8 λ m. test n k m

all_bits_sound :
    (test : ℕ → ℕ → ℕ → Bool) (n k m : ℕ)
    → all_bits test ≡ true
    → n < 256
    → k < 8
    → m < 8
    → test n k m ≡ true
unfolding all_bits
all_bits_sound test n k m h a b c =
    let at_n = all_below_sound 256 (λ n. all_below 8 λ k. all_below 8 λ m. test n k m) n h a in
    let at_k = all_below_sound 8 (λ k. all_below 8 λ m. test n k m) k at_n b in
    all_below_sound 8 (λ m. test n k m) m at_k c

abbrev or_test : ℕ → ℕ → ℕ → Bool
or_test n k m = same (bit (bit_or n (2 ^ k)) m) (bit n m || (m == k)) && ltb (bit_or n (2 ^ k)) 256

abbrev and_test : ℕ → ℕ → ℕ → Bool
and_test n k m =
    same (bit (bit_and n (255 - 2 ^ k)) m) (bit n m && not (m == k))
    && ltb (bit_and n (255 - 2 ^ k)) 256

or_all : all_bits or_test ≡ true
unfolding all_bits all_below bit
or_all = refl

and_all : all_bits and_test ≡ true
unfolding all_bits all_below bit
and_all = refl

-- Setting bit `k` of a byte.
pub bit-bit_or :
    (n k m : ℕ)
    → n < 256
    → k < 8
    → m < 8
    → (bit (bit_or n (2 ^ k)) m ≡ (bit n m || (m == k))) × (bit_or n (2 ^ k) < 256)
bit-bit_or n k m a b c =
    let h = all_bits_sound or_test n k m or_all a b c in
    (
      same-eq (bit (bit_or n (2 ^ k)) m) (bit n m || (m == k)) (ground (arith, h)),
      ground (arith, h),
    )

-- Clearing bit `k` of a byte.
pub bit-bit_and :
    (n k m : ℕ)
    → n < 256
    → k < 8
    → m < 8
    → (bit (bit_and n (255 - 2 ^ k)) m ≡ (bit n m && not (m == k)))
      × (bit_and n (255 - 2 ^ k) < 256)
bit-bit_and n k m a b c =
    let h = all_bits_sound and_test n k m and_all a b c in
    (
      same-eq (bit (bit_and n (255 - 2 ^ k)) m) (bit n m && not (m == k)) (ground (arith, h)),
      ground (arith, h),
    )

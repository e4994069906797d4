-- ===== src/Protocol/Output/Places.antt =====
-- The bytes of the mirrored state of src/vds_protocol.cc, place by place.
use windows_vds.Prelude.{
  ℕ, zero, suc, ◌+◌, ◌-◌, ◌<◌, ◌≡◌, refl, ap, ◌&&◌, [], ◌∷◌, ltb, leb, ◌==◌, if◌then◌else◌, length,
  set, take, get_or, Bytes, arith,
}
use windows_vds.Protocol.Output.{copy_bytes}
use windows_vds.Protocol.Output.Effects.{store_bytes}
use windows_vds.Protocol.Output.Sizes.{length-set}

pub get_or-set :
    (xs : Bytes) (i v j : ℕ)
    → get_or (set xs i v) j 0 ≡ (if (i == j) && ltb j (length xs) then v else get_or xs j 0)
get_or-set [] i v j = ground arith
get_or-set (x ∷ xs) zero v zero = ground arith
get_or-set (x ∷ xs) zero v (suc j) = ground arith
get_or-set (x ∷ xs) (suc i) v zero = ground arith
get_or-set (x ∷ xs) (suc i) v (suc j) = ground (arith, get_or-set xs i v j)

pub get_or-take : (n : ℕ) (xs : Bytes) (j : ℕ) → j < n → get_or (take n xs) j 0 ≡ get_or xs j 0
get_or-take zero xs j lt = absurd (omega (arith, lt))
get_or-take (suc n) [] j lt = refl
get_or-take (suc n) (x ∷ xs) zero lt = refl
get_or-take (suc n) (x ∷ xs) (suc j) lt = get_or-take n xs j (omega (arith, lt))

pub get_or-copy_bytes :
    (offset n : ℕ) (update state : Bytes) (j : ℕ)
    → j < length state
    → get_or (copy_bytes offset n update state) j 0
      ≡ (if leb offset j && ltb j (offset + n) then get_or update j 0 else get_or state j 0)
unfolding copy_bytes
get_or-copy_bytes offset zero update state j lt = ground arith
get_or-copy_bytes offset (suc n) update state j lt =
    let next = set state offset (get_or update offset 0) in
    ground (
      arith,
      lt,
      get_or-copy_bytes (offset + 1) n update next j
          (omega (arith, lt, length-set state offset (get_or update offset 0))),
      get_or-set state offset (get_or update offset 0) j,
    )

get_or-cons :
    (b : ℕ) (bytes : Bytes) (k : ℕ)
    → get_or (b ∷ bytes) k 0 ≡ (if k == 0 then b else get_or bytes (k - 1) 0)
get_or-cons b bytes zero = refl
get_or-cons b bytes (suc k) = ground arith

pub get_or-store_bytes :
    (offset : ℕ) (bytes state : Bytes) (j : ℕ)
    → j < length state
    → get_or (store_bytes offset bytes state) j 0 ≡ (
        if leb offset j && ltb j (offset + length bytes)
        then get_or bytes (j - offset) 0
        else get_or state j 0)
unfolding store_bytes
get_or-store_bytes offset [] state j lt = ground arith
get_or-store_bytes offset (b ∷ bytes) state j lt =
    let next = set state offset b in
    let rest =
      get_or-store_bytes (offset + 1) bytes next j (omega (arith, lt, length-set state offset b)) in
    let step : get_or bytes (j - (offset + 1)) 0 ≡ get_or bytes (j - offset - 1) 0 =
      ap (λ (t : ℕ). get_or bytes t 0) (omega arith) in
    ground (arith, lt, rest, step, get_or-set state offset b j, get_or-cons b bytes (j - offset))

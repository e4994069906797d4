-- ===== src/Config/Addresses.antt =====
-- Normal forms of addresses in src/vds_config.cc.
use windows_vds.Prelude.{
  ◌⊎◌, ◌≢◌, ◌%◌, ◌≤◌, ◌<◌, ℕ, ◌+◌, ◌≡◌, true, [], ◌∷◌, arith, length, Bytes, ok, bind-eq-ok,
}
use windows_vds.Config.Records.{
  is_hex_digit, lowercase_hex, normalize_loop, normalize_bluetooth_address, search_address,
  normal_byte,
}

lowercase_hex-is_hex_digit :
    (c : ℕ)
    → is_hex_digit c ≡ true
    → (is_hex_digit (lowercase_hex c) ≡ true) × (lowercase_hex (lowercase_hex c) ≡ lowercase_hex c)
unfolding is_hex_digit lowercase_hex
lowercase_hex-is_hex_digit c h = ground arith

normal_byte_idem :
    (address other : Bytes) (i c d : ℕ)
    → normal_byte address i c ≡ ok d
    → normal_byte other i d ≡ ok d
unfolding normal_byte
normal_byte_idem address other i c d = ground (arith, lowercase_hex-is_hex_digit c)

normalize_loop_idem :
    (address other : Bytes) (i : ℕ) (text n : Bytes)
    → normalize_loop address i text ≡ ok n
    → (normalize_loop other i n ≡ ok n) × (length n ≡ length text)
unfolding normalize_loop
normalize_loop_idem address other i [] n h = ground arith
normalize_loop_idem address other i (c ∷ text) n h =
    let (d, byte, rest) = bind-eq-ok (normal_byte address i c) _ h in
    let (m, tail, e) = bind-eq-ok (normalize_loop address (i + 1) text) (λ n. ok (d ∷ n)) rest in
    let (again, size) = normalize_loop_idem address other (i + 1) text m tail in
    let shape : n ≡ d ∷ m = cc e in
    rw shape (rw (normal_byte_idem address other i c d byte, again), omega (arith, size))

-- A normalised address has 17 bytes and normalises to itself.
pub normalize_bluetooth_address_idem :
    (address n : Bytes)
    → normalize_bluetooth_address address ≡ ok n
    → (normalize_bluetooth_address n ≡ ok n) × (length n ≡ 17)
unfolding normalize_bluetooth_address
normalize_bluetooth_address_idem address n =
    ground (arith, normalize_loop_idem address n 0 address n)

-- A lower-case digit, which is that digit of the text or its lower case.
abbrev IsLowered : ℕ → ℕ → Type 0
IsLowered c d =
    ((d ≡ c) ⊎ ((65 ≤ c) × (c ≤ 70) × (d ≡ c + 32)))
    × (((48 ≤ d) × (d ≤ 57)) ⊎ ((97 ≤ d) × (d ≤ 102)))

-- From the index `i` on, each third byte is a colon in both texts, and each other one is a digit.
abbrev pub IsLoweredFrom : ℕ → Bytes → Bytes → Type 0
IsLoweredFrom i [] [] = Unit
IsLoweredFrom i [] (d ∷ n) = ⊥
IsLoweredFrom i (c ∷ address) [] = ⊥
IsLoweredFrom i (c ∷ address) (d ∷ n) =
    (((i % 3 ≡ 2) × (c ≡ 58) × (d ≡ 58)) ⊎ ((i % 3 ≢ 2) × IsLowered c d))
    × IsLoweredFrom (i + 1) address n

normal_byte-IsLowered :
    (address : Bytes) (i c d : ℕ)
    → i < 17
    → normal_byte address i c ≡ ok d
    → ((i % 3 ≡ 2) × (c ≡ 58) × (d ≡ 58)) ⊎ ((i % 3 ≢ 2) × IsLowered c d)
unfolding normal_byte is_hex_digit lowercase_hex
normal_byte-IsLowered address i c d lt h = ground (arith, lt, h)

normalize_loop-IsLoweredFrom :
    (address : Bytes) (i : ℕ) (text n : Bytes)
    → i + length text ≡ 17
    → normalize_loop address i text ≡ ok n
    → IsLoweredFrom i text n
unfolding normalize_loop
normalize_loop-IsLoweredFrom address i [] [] size h = tt
normalize_loop-IsLoweredFrom address i [] (d ∷ n) size h = absurd (ground (arith, h))
normalize_loop-IsLoweredFrom address i (c ∷ text) n size h =
    let (d, byte, rest) = bind-eq-ok (normal_byte address i c) _ h in
    let (m, tail, e) = bind-eq-ok (normalize_loop address (i + 1) text) (λ n. ok (d ∷ n)) rest in
    let shape : n ≡ d ∷ m = cc e in
    rw shape (
      normal_byte-IsLowered address i c d (omega (arith, size)) byte,
      normalize_loop-IsLoweredFrom address (i + 1) text m (omega (arith, size)) tail,
    )

-- An address that is accepted has 17 bytes, with a colon at each third place and hexadecimal digits
-- of either case at the others; its normal form has the same colons and digits, all of these in
-- lower case, and normalises to itself.
pub normalize_bluetooth_address-lowered :
    (address n : Bytes)
    → normalize_bluetooth_address address ≡ ok n
    → (length address ≡ 17) × IsLoweredFrom 0 address n × (normalize_bluetooth_address n ≡ ok n)
unfolding normalize_bluetooth_address
normalize_bluetooth_address-lowered address n h =
    let sized : length address ≡ 17 = ground (arith, h) in
    let loop : normalize_loop address 0 address ≡ ok n = ground (arith, h) in
    (
      sized,
      normalize_loop-IsLoweredFrom address 0 address n (omega (arith, sized)) loop,
      (normalize_bluetooth_address_idem address n h).0,
    )

-- A search for a normalised address compares with that address.
pub search_address-normal :
    (n : Bytes) → normalize_bluetooth_address n ≡ ok n → search_address n ≡ n
unfolding search_address
search_address-normal n h = ground (arith, normalize_bluetooth_address_idem n n h)

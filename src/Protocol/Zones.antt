-- ===== src/Protocol/Zones.antt =====
-- The zones of the adaptive triggers' effects in src/vds_protocol.cc: what a controller reads from
-- the bytes that are built.
use windows_vds.Prelude.{
  out_of_fuel, ℕ, ◌+◌, ◌-◌, ◌*◌, ◌/◌, ◌%◌, ◌^◌, ◌≡◌, refl, Bool, true, false, ◌&&◌, leb, ◌==◌,
  if◌then◌else◌, get_or, take, drop, Bytes, ok, Result, ◌≤◌, ==_iff, ◌<◌, err, arith,
}
use windows_vds.Protocol.Bits.{same, same-eq, bit, all_below, all_below_sound}
use windows_vds.Protocol.Checksum.{word_of}
use windows_vds.Protocol.Triggers.{trigger_effect_feedback}

-- Whether zone `z` is active: a bit of the two bytes behind the mode.
abbrev pub zone_active : Bytes → ℕ → Bool
zone_active effect z = bit (word_of (take 2 (drop 1 effect))) z

-- The strength of zone `z`: three bits of the four bytes behind.
abbrev pub zone_strength : Bytes → ℕ → ℕ
zone_strength effect z = word_of (take 4 (drop 3 effect)) / 2 ^ (3 * z) % 8

-- From the position on, each of the ten zones is active with the strength, less one; no zone is in
-- front of it.
abbrev pub Zones : Bytes → ℕ → ℕ → ℕ → Type 0
Zones effect position strength z =
    (zone_active effect z ≡ leb position z)
    × (zone_strength effect z ≡ (if leb position z then strength - 1 else 0))

abbrev zone_test : ℕ → ℕ → ℕ → ℕ → Result Bytes → Bool
zone_test mode position strength z (ok effect) =
    get_or effect 0 0 == mode
    && (same (zone_active effect z) (leb position z)
        && zone_strength effect z == (if leb position z then strength - 1 else 0))
zone_test mode position strength z _ = false

and-both : (a b : Bool) → (a && b) ≡ true → (a ≡ true) × (b ≡ true)
and-both true b h = (refl, h)
and-both false b h = cc h

zone_test-Zones :
    (mode position strength z : ℕ) (m : Result Bytes)
    → zone_test mode position strength z m ≡ true
    → (effect : Bytes) × (m ≡ ok effect)
      × (get_or effect 0 0 ≡ mode)
      × Zones effect position strength z
zone_test-Zones mode position strength z (ok effect) h =
    let (first, rest) = and-both (get_or effect 0 0 == mode) _ h in
    let (active, force) = and-both (same (zone_active effect z) (leb position z)) _ rest in
    (
      effect,
      refl,
      (==_iff _ _).0 first,
      (same-eq (zone_active effect z) (leb position z) active, (==_iff _ _).0 force),
    )
zone_test-Zones mode position strength z (err e) h = cc h
zone_test-Zones mode position strength z out_of_fuel h = cc h

abbrev feedback_test : ℕ → ℕ → ℕ → Bool
feedback_test position s z =
    zone_test 0x21 position (s + 1) z (trigger_effect_feedback position (s + 1))

feedback_all : all_below 10 (λ p. all_below 8 λ s. all_below 10 λ z. feedback_test p s z) ≡ true
unfolding all_below trigger_effect_feedback bit
feedback_all = refl

-- A feedback effect at a position up to 9 and of a strength from 1 to 8 is built; its mode is 0x21,
-- and each of the ten zones is active, with the strength less one, exactly from the position on.
pub trigger_effect_feedback-Zones :
    (position strength z : ℕ)
    → position ≤ 9
    → 1 ≤ strength
    → strength ≤ 8
    → z < 10
    → (effect : Bytes) × (trigger_effect_feedback position strength ≡ ok effect)
      × (get_or effect 0 0 ≡ 0x21)
      × Zones effect position strength z
trigger_effect_feedback-Zones position strength z p s t k =
    let less : strength - 1 + 1 ≡ strength = omega arith in
    let at_position =
      all_below_sound 10 (λ p. all_below 8 λ s. all_below 10 λ z. feedback_test p s z) position
        feedback_all (omega arith) in
    let at_strength =
      all_below_sound 8 (λ s. all_below 10 λ z. feedback_test position s z) (strength - 1)
        at_position (omega arith) in
    let at_zone =
      all_below_sound 10 (λ z. feedback_test position (strength - 1) z) z at_strength k in
    zone_test-Zones 0x21 position strength z (trigger_effect_feedback position strength)
      (rw (← less) at_zone)

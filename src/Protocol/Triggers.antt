-- ===== src/Protocol/Triggers.antt =====
-- The adaptive-trigger effects of src/vds_protocol.cc. An effect is a list of eleven bytes.
pub mod Spec
use Prim.Native.Nat.{bit_and, bit_or}
use Prim.Native.String.{String}
use windows_vds.Prelude.{
  ℕ, zero, suc, ◌+◌, ◌-◌, ◌*◌, ◌/◌, ◌%◌, ◌^◌, Bool, ◌&&◌, List, [], ◌∷◌, ◌++◌, ltb, leb, within,
  if◌then◌else◌, Bytes, codes, Result, ok, err, out_of_fuel, ◌>>=◌, ◌>>◌, replicate,
}

abbrev pub trigger_ffb_size : ℕ
trigger_ffb_size = 11

unfoldable pub require_effect_range : Bool → String → Result (Unit {0})
require_effect_range valid what =
    if valid then ok tt else err (codes "trigger effect parameter out of range: " ++ codes what)

-- The loop over the zones, with `rounds` zones left: `value << (3 * zone)` is gathered.
unfoldable pub zone_values : ℕ → ℕ → ℕ → ℕ → ℕ
zone_values zero zone value gathered = gathered
zone_values (suc rounds) zone value gathered =
    zone_values rounds (zone + 1) value (bit_or gathered (value * 2 ^ (3 * zone) % 2 ^ 32))

-- The same loop: `1u << zone` is gathered, in 16 bits.
unfoldable pub zone_bits : ℕ → ℕ → ℕ → ℕ
zone_bits zero zone gathered = gathered
zone_bits (suc rounds) zone gathered =
    zone_bits rounds (zone + 1) (bit_or gathered (2 ^ zone % 2 ^ 16))

abbrev pub byte_of : ℕ → ℕ → ℕ
byte_of n shift = n / 2 ^ shift % 256

unfoldable pub trigger_effect_off : Bytes
trigger_effect_off = 0x05 ∷ replicate 10 0

unfoldable pub trigger_effect_feedback : ℕ → ℕ → Result Bytes
unfolding require_effect_range zone_values zone_bits
trigger_effect_feedback position strength = do
  require_effect_range (leb position 9) "feedback position 0-9"
  require_effect_range (leb 1 strength && leb strength 8) "feedback strength 1-8"
  let force = bit_and (strength - 1) 0x07
  let force_zones = zone_values (10 - position) position force 0
  let active_zones = zone_bits (10 - position) position 0
  ok (
      0x21
      ∷ byte_of active_zones 0
      ∷ byte_of active_zones 8
      ∷ byte_of force_zones 0
      ∷ byte_of force_zones 8
      ∷ byte_of force_zones 16
      ∷ byte_of force_zones 24
      ∷ replicate 4 0)

-- `(1u << start) | (1u << end)` in 16 bits.
unfoldable pub zone_pair : ℕ → ℕ → ℕ
zone_pair start end = bit_or (2 ^ start) (2 ^ end) % 2 ^ 16

unfoldable pub trigger_effect_weapon : ℕ → ℕ → ℕ → Result Bytes
unfolding require_effect_range zone_pair
trigger_effect_weapon start end strength = do
  require_effect_range (leb 2 start && leb start 7) "weapon start 2-7"
  require_effect_range (ltb start end && leb end 8) "weapon end start+1-8"
  require_effect_range (leb 1 strength && leb strength 8) "weapon strength 1-8"
  let zones = zone_pair start end
  ok (0x25 ∷ byte_of zones 0 ∷ byte_of zones 8 ∷ byte_of (strength - 1) 0 ∷ replicate 7 0)

unfoldable pub trigger_effect_vibration : ℕ → ℕ → ℕ → Result Bytes
unfolding require_effect_range zone_values zone_bits
trigger_effect_vibration position amplitude frequency = do
  require_effect_range (leb position 9) "vibration position 0-9"
  require_effect_range (leb 1 amplitude && leb amplitude 8) "vibration amplitude 1-8"
  require_effect_range (leb 1 frequency && leb frequency 255) "vibration frequency 1-255"
  let strength = bit_and (amplitude - 1) 0x07
  let amplitude_zones = zone_values (10 - position) position strength 0
  let active_zones = zone_bits (10 - position) position 0
  ok (
      0x26
      ∷ byte_of active_zones 0
      ∷ byte_of active_zones 8
      ∷ byte_of amplitude_zones 0
      ∷ byte_of amplitude_zones 8
      ∷ byte_of amplitude_zones 16
      ∷ byte_of amplitude_zones 24
      ∷ 0
      ∷ 0
      ∷ byte_of frequency 0
      ∷ 0
      ∷ [])

unfoldable pub trigger_effect_bow : ℕ → ℕ → ℕ → ℕ → Result Bytes
unfolding require_effect_range zone_pair
trigger_effect_bow start end strength snap_force = do
  require_effect_range (leb start 8) "bow start 0-8"
  require_effect_range (ltb start end && leb end 8) "bow end start+1-8"
  require_effect_range (leb 1 strength && leb strength 8) "bow strength 1-8"
  require_effect_range (leb 1 snap_force && leb snap_force 8) "bow snap force 1-8"
  let zones = zone_pair start end
  let force_pair = bit_or (bit_and (strength - 1) 0x07) (bit_and (snap_force - 1) 0x07 * 8)
  ok (
      0x22
      ∷ byte_of zones 0
      ∷ byte_of zones 8
      ∷ byte_of force_pair 0
      ∷ byte_of force_pair 8
      ∷ replicate 6 0)

unfoldable pub trigger_effect_galloping : ℕ → ℕ → ℕ → ℕ → ℕ → Result Bytes
unfolding require_effect_range zone_pair
trigger_effect_galloping start end first_foot second_foot frequency = do
  require_effect_range (leb start 8) "galloping start 0-8"
  require_effect_range (ltb start end && leb end 9) "galloping end start+1-9"
  require_effect_range (leb first_foot 6) "galloping first foot 0-6"
  require_effect_range (ltb first_foot second_foot && leb second_foot 7)
      "galloping second foot first+1-7"
  require_effect_range (leb 1 frequency && leb frequency 255) "galloping frequency 1-255"
  let zones = zone_pair start end
  let ratio = bit_or (bit_and second_foot 0x07) (bit_and first_foot 0x07 * 8) % 256
  ok (0x23 ∷ byte_of zones 0 ∷ byte_of zones 8 ∷ ratio ∷ byte_of frequency 0 ∷ replicate 6 0)

unfoldable pub trigger_effect_machine : ℕ → ℕ → ℕ → ℕ → ℕ → ℕ → Result Bytes
unfolding require_effect_range zone_pair
trigger_effect_machine start end strength_a strength_b frequency period = do
  require_effect_range (leb start 8) "machine start 0-8"
  require_effect_range (ltb start end && leb end 9) "machine end start+1-9"
  require_effect_range (leb strength_a 7) "machine strength A 0-7"
  require_effect_range (leb strength_b 7) "machine strength B 0-7"
  require_effect_range (leb 1 frequency && leb frequency 255) "machine frequency 1-255"
  require_effect_range (leb period 255) "machine period 0-255"
  let zones = zone_pair start end
  let strength_pair = bit_or (bit_and strength_a 0x07) (bit_and strength_b 0x07 * 8) % 256
  ok (
      0x27
      ∷ byte_of zones 0
      ∷ byte_of zones 8
      ∷ strength_pair
      ∷ byte_of frequency 0
      ∷ byte_of period 0
      ∷ replicate 5 0)

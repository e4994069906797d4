-- ===== src/Protocol/Output/Authored/Written.antt =====
-- What `apply_authored_effects` of src/vds_protocol.cc writes, as a whole.
use windows_vds.Prelude.{
  ◌||◌, ◌&&◌, ◌==◌, refl, ◌⊎◌, ◌≤◌, none, some, if◌then◌else◌, ℕ, ◌+◌, ◌<◌, ◌≡◌, ◌≢◌, ◌∙◌, inl, inr,
  arith, ap, Option, Bool-cases,
}
use windows_vds.Protocol.Output.{OutputState, bit}
use windows_vds.Protocol.Output.Effects.{AuthoredEffects, Colour, apply_authored_effects}
use windows_vds.Protocol.Output.Sizes.{IsOutput}
use windows_vds.Protocol.Output.Authored.{
  at, IsTrigger, authored-place, trigger-away, trigger-inside, colour-away, players-away, mute-away,
  trigger_place, trigger_byte, number_or, masked_or, red_or, green_or, blue_or, mute_place,
  is_effect_place, IsAuthored, colour_place, players_place, enabled, is_set, trigger-enabled,
  bit-enabled, mute-enabled, players-enabled, colour-enabled,
}

colour-spots :
    (o : Option Colour) (b : ℕ)
    → (colour_place o 44 b ≡ red_or o b)
      × (colour_place o 45 b ≡ green_or o b)
      × (colour_place o 46 b ≡ blue_or o b)
colour-spots none b = (refl, refl, refl)
colour-spots (some c) b = (refl, refl, refl)

players-spot : (o : Option ℕ) (b : ℕ) → players_place o 43 b ≡ masked_or o b
players-spot none b = refl
players-spot (some n) b = refl

mute-spot : (o : Option ℕ) (b : ℕ) → mute_place o 8 b ≡ number_or o b
mute-spot none b = refl
mute-spot (some n) b = refl

module _ (e : AuthoredEffects) (s : OutputState) (h : IsOutput s) where
  away_lights :
      (j : ℕ)
      → j < 43
      → j ≢ 1
      → j ≢ 8
      → at j (apply_authored_effects e s)
        ≡ trigger_place 21 0x08 e.left_trigger j (trigger_place 10 0x04 e.right_trigger j (at j s))
  away_lights j lt one eight =
      authored-place e s j (omega (arith, lt)) h
      ∙ mute-away e.mute_light j _ one eight
      ∙ players-away e.player_lights j _ one (omega (arith, lt))
      ∙ colour-away e.led_color j _ one (inl (omega (arith, lt)))

  right_at :
      (k : ℕ)
      → IsTrigger e.left_trigger
      → IsTrigger e.right_trigger
      → k < 11
      → at (10 + k) (apply_authored_effects e s) ≡ trigger_byte e.right_trigger k (at (10 + k) s)
  right_at k left right lt =
      away_lights (10 + k) (omega (arith, lt)) (omega arith) (omega arith)
      ∙ trigger-away 21 0x08 e.left_trigger (10 + k) _ left (inl (omega (arith, lt))) (omega arith)
      ∙ trigger-inside 10 0x04 e.right_trigger k _ right lt

  left_at :
      (k : ℕ)
      → IsTrigger e.left_trigger
      → IsTrigger e.right_trigger
      → k < 11
      → at (21 + k) (apply_authored_effects e s) ≡ trigger_byte e.left_trigger k (at (21 + k) s)
  left_at k left right lt =
      away_lights (21 + k) (omega (arith, lt)) (omega arith) (omega arith)
      ∙ trigger-inside 21 0x08 e.left_trigger k _ left lt
      ∙ ap (trigger_byte e.left_trigger k)
          (trigger-away 10 0x04 e.right_trigger (21 + k) _ right (inr (omega arith)) (omega arith))

  triggers_enabled :
      at 0 s < 256
      → (bit (at 0 (apply_authored_effects e s)) 2 ≡ (bit (at 0 s) 2 || is_set e.right_trigger))
        × (bit (at 0 (apply_authored_effects e s)) 3 ≡ (bit (at 0 s) 3 || is_set e.left_trigger))
  triggers_enabled lt =
      let r = enabled (is_set e.right_trigger) 2 (at 0 s) in
      let whole : at 0 (apply_authored_effects e s) ≡ enabled (is_set e.left_trigger) 3 r =
        away_lights 0 (omega arith) (omega arith) (omega arith)
        ∙ trigger-enabled 21 3 e.left_trigger _ (omega arith)
        ∙ ap (enabled (is_set e.left_trigger) 3)
            (trigger-enabled 10 2 e.right_trigger (at 0 s) (omega arith)) in
      let two = bit-enabled (is_set e.right_trigger) 2 2 (at 0 s) lt (omega arith) (omega arith) in
      let three =
        bit-enabled (is_set e.right_trigger) 2 3 (at 0 s) lt (omega arith) (omega arith) in
      let left_two = bit-enabled (is_set e.left_trigger) 3 2 r two.1 (omega arith) (omega arith) in
      let left_three =
        bit-enabled (is_set e.left_trigger) 3 3 r two.1 (omega arith) (omega arith) in
      (
        ap (λ (b : ℕ). bit b 2) whole ∙ ground (arith, left_two, two),
        ap (λ (b : ℕ). bit b 3) whole ∙ ground (arith, left_three, three),
      )

  lights_bit :
      (m : ℕ)
      → m < 8
      → at 1 s < 256
      → bit
          (enabled
            (is_set e.mute_light)
            0
            (enabled (is_set e.player_lights) 4 (enabled (is_set e.led_color) 2 (at 1 s))))
          m
        ≡ (bit (at 1 s) m
            || ((is_set e.led_color && (m == 2))
                || ((is_set e.player_lights && (m == 4)) || (is_set e.mute_light && (m == 0)))))
  lights_bit m ml lt =
      let c = enabled (is_set e.led_color) 2 (at 1 s) in
      let p = enabled (is_set e.player_lights) 4 c in
      let one = bit-enabled (is_set e.led_color) 2 m (at 1 s) lt (omega arith) ml in
      let two = bit-enabled (is_set e.player_lights) 4 m c one.1 (omega arith) ml in
      let three = bit-enabled (is_set e.mute_light) 0 m p two.1 (omega arith) ml in
      ground (arith, one.0, two.0, three.0)

  lights_enabled :
      IsTrigger e.left_trigger
      → IsTrigger e.right_trigger
      → at 1 s < 256
      → (bit (at 1 (apply_authored_effects e s)) 2 ≡ (bit (at 1 s) 2 || is_set e.led_color))
        × (bit (at 1 (apply_authored_effects e s)) 4 ≡ (bit (at 1 s) 4 || is_set e.player_lights))
        × (bit (at 1 (apply_authored_effects e s)) 0 ≡ (bit (at 1 s) 0 || is_set e.mute_light))
  lights_enabled left right lt =
      let c = enabled (is_set e.led_color) 2 (at 1 s) in
      let p = enabled (is_set e.player_lights) 4 c in
      let same : trigger_place 21 0x08 e.left_trigger 1
            (trigger_place 10 0x04 e.right_trigger 1 (at 1 s))
          ≡ at 1 s =
        trigger-away 21 0x08 e.left_trigger 1 _ left (inl (omega arith)) (omega arith)
        ∙ trigger-away 10 0x04 e.right_trigger 1 _ right (inl (omega arith)) (omega arith) in
      let whole : at 1 (apply_authored_effects e s) ≡ enabled (is_set e.mute_light) 0 p =
        authored-place e s 1 (omega arith) h
        ∙ mute-enabled e.mute_light _
        ∙ ap (enabled (is_set e.mute_light) 0) (players-enabled e.player_lights _)
        ∙ ap (λ (b : ℕ). enabled (is_set e.mute_light) 0 (enabled (is_set e.player_lights) 4 b))
            (colour-enabled e.led_color _)
        ∙ ap
            (λ (b : ℕ).
              enabled (is_set e.mute_light) 0
                (enabled (is_set e.player_lights) 4 (enabled (is_set e.led_color) 2 b)))
            same in
      (
        ap (λ (b : ℕ). bit b 2) whole ∙ (lights_bit 2 (omega arith) lt ∙ ground arith),
        ap (λ (b : ℕ). bit b 4) whole ∙ (lights_bit 4 (omega arith) lt ∙ ground arith),
        ap (λ (b : ℕ). bit b 0) whole ∙ (lights_bit 0 (omega arith) lt ∙ ground arith),
      )

  spot :
      (j : ℕ)
      → IsTrigger e.left_trigger
      → IsTrigger e.right_trigger
      → j < 63
      → (j ≡ 8) ⊎ (32 ≤ j)
      → at j (apply_authored_effects e s)
        ≡ mute_place e.mute_light j
            (players_place e.player_lights j (colour_place e.led_color j (at j s)))
  spot j left right lt far =
      authored-place e s j lt h
      ∙ ap
          (λ (b : ℕ).
            mute_place e.mute_light j
              (players_place e.player_lights j (colour_place e.led_color j b)))
          (trigger-away 21 0x08 e.left_trigger j _ left (ground (arith, far)) (ground (arith, far))
            ∙ trigger-away 10 0x04 e.right_trigger j _ right (ground (arith, far))
                (ground (arith, far)))

  other_at :
      (j : ℕ)
      → IsTrigger e.left_trigger
      → IsTrigger e.right_trigger
      → j < 63
      → at j (apply_authored_effects e s)
        ≡ (if is_effect_place j then at j (apply_authored_effects e s) else at j s)
  other_at j left right lt = elim (Bool-cases (is_effect_place j)) [
    | inl taken ↦ rw taken refl
    | inr free ↦ rw free (
        authored-place e s j lt h
        ∙ mute-away e.mute_light j _ (ground (arith, free)) (ground (arith, free))
        ∙ players-away e.player_lights j _ (ground (arith, free)) (ground (arith, free))
        ∙ colour-away e.led_color j _ (ground (arith, free)) (ground (arith, free))
        ∙ trigger-away 21 0x08 e.left_trigger j _ left (ground (arith, free)) (ground (arith, free))
        ∙ trigger-away 10 0x04 e.right_trigger j _ right (ground (arith, free))
            (ground (arith, free)))
  ]

-- Authored effects on a state of 63 bytes, with triggers of eleven: for every `k` below 11, the byte
-- 10 + k is that of the right trigger and the byte 21 + k that of the left one; the bytes 44, 45 and
-- 46 are red, green and blue, the byte 43 the player lights in their six bits, and the byte 8 the
-- mute light, each where the effect is set, and as before where it is not. The enable bits of the
-- set effects are set and those of the others as before: 2 and 3 of the byte 0 for the right and
-- the left trigger, 2, 4 and 0 of the byte 1 for colour, player lights and mute light. Every byte at
-- another place `j` is as before.
pub apply_authored_effects-IsAuthored :
    (e : AuthoredEffects) (s : OutputState) (k j : ℕ)
    → IsOutput s
    → IsTrigger e.left_trigger
    → IsTrigger e.right_trigger
    → at 0 s < 256
    → at 1 s < 256
    → k < 11
    → j < 63
    → IsAuthored e s (apply_authored_effects e s) k j
apply_authored_effects-IsAuthored e s k j h left right zero one kl jl =
    let triggers = triggers_enabled e s h zero in
    let lights = lights_enabled e s h left right one in
    record {
      right_trigger = right_at e s h k left right kl;
      left_trigger = left_at e s h k left right kl;
      red =
          spot e s h 44 left right (omega arith) (inr (omega arith))
          ∙ mute-away e.mute_light 44 _ (omega arith) (omega arith)
          ∙ players-away e.player_lights 44 _ (omega arith) (omega arith)
          ∙ (colour-spots e.led_color (at 44 s)).0;
      green =
          spot e s h 45 left right (omega arith) (inr (omega arith))
          ∙ mute-away e.mute_light 45 _ (omega arith) (omega arith)
          ∙ players-away e.player_lights 45 _ (omega arith) (omega arith)
          ∙ (colour-spots e.led_color (at 45 s)).1;
      blue =
          spot e s h 46 left right (omega arith) (inr (omega arith))
          ∙ mute-away e.mute_light 46 _ (omega arith) (omega arith)
          ∙ players-away e.player_lights 46 _ (omega arith) (omega arith)
          ∙ (colour-spots e.led_color (at 46 s)).2;
      player_lights =
          spot e s h 43 left right (omega arith) (inr (omega arith))
          ∙ mute-away e.mute_light 43 _ (omega arith) (omega arith)
          ∙ players-spot e.player_lights _
          ∙ ap (masked_or e.player_lights)
              (colour-away e.led_color 43 _ (omega arith) (inl (omega arith)));
      mute_light =
          spot e s h 8 left right (omega arith) (inl refl)
          ∙ mute-spot e.mute_light _
          ∙ ap (number_or e.mute_light) (
              players-away e.player_lights 8 _ (omega arith) (omega arith)
              ∙ colour-away e.led_color 8 _ (omega arith) (inl (omega arith)));
      right_enable = triggers.0;
      left_enable = triggers.1;
      colour_enable = lights.0;
      players_enable = lights.1;
      mute_enable = lights.2;
      others = other_at e s h j left right jl;
    }

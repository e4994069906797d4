-- ===== src/Protocol/Output/Authored.antt =====
-- What the authored effects write, place by place (`apply_authored_effects` of src/vds_protocol.cc).
pub mod Written
use windows_vds.Prelude.{
  ℕ, ◌+◌, ◌-◌, ◌<◌, ◌≡◌, ◌≤◌, ◌⊎◌, ◌≢◌, ◌^◌, ap, refl, Bool, true, false, ◌&&◌, ◌||◌, ltb, leb,
  ◌==◌, if◌then◌else◌, length, set, get_or, Bytes, Option, none, some, arith,
}
use Prim.Native.Nat.{bit_and, bit_or}
use windows_vds.Protocol.Bits.{bit, bit-bit_or}
use windows_vds.Protocol.Output.{OutputState, put, or_at}
use windows_vds.Protocol.Output.Effects.{
  AuthoredEffects, Colour, apply_authored_effects, store_trigger, store_colour, store_player_lights,
  store_mute_light, is_set,
}
use windows_vds.Protocol.Output.Sizes.{IsOutput, length-set}
use windows_vds.Protocol.Output.Streams.{trigger-IsOutput, colour-IsOutput, players-IsOutput}
use windows_vds.Protocol.Output.Places.{get_or-set, get_or-store_bytes}

abbrev pub at : ℕ → OutputState → ℕ
at j s = get_or s.state j 0

-- What each block makes of the byte `b` at the place `j`.
abbrev pub trigger_place : ℕ → ℕ → Option Bytes → ℕ → ℕ → ℕ
trigger_place offset enable none j b = b
trigger_place offset enable (some effect) j b =
    if leb offset j && ltb j (offset + length effect)
    then get_or effect (j - offset) 0
    else if j == 0
    then bit_or b enable
    else b

abbrev pub colour_place : Option Colour → ℕ → ℕ → ℕ
colour_place none j b = b
colour_place (some c) j b =
    if j == 46
    then c.blue
    else if j == 45
    then c.green
    else if j == 44
    then c.red
    else if j == 1
    then bit_or b 0x04
    else b

abbrev pub players_place : Option ℕ → ℕ → ℕ → ℕ
players_place none j b = b
players_place (some lights) j b =
    if j == 43 then bit_and lights 0x3f else if j == 1 then bit_or b 0x10 else b

abbrev pub mute_place : Option ℕ → ℕ → ℕ → ℕ
mute_place none j b = b
mute_place (some light) j b = if j == 8 then light else if j == 1 then bit_or b 0x01 else b

trigger-place :
    (offset enable : ℕ) (o : Option Bytes) (s : OutputState) (j : ℕ)
    → j < 63
    → length s.state ≡ 63
    → at j (store_trigger offset enable o s) ≡ trigger_place offset enable o j (at j s)
unfolding store_trigger or_at put
trigger-place offset enable none s j lt sized = refl
trigger-place offset enable (some effect) s j lt sized =
    let first = bit_or (get_or s.state 0 0) enable in
    let stored =
      get_or-store_bytes offset effect (set s.state 0 first) j
        (omega (arith, lt, sized, length-set s.state 0 first)) in
    ground (arith, lt, sized, stored, get_or-set s.state 0 first j)

colour-place :
    (o : Option Colour) (s : OutputState) (j : ℕ)
    → j < 63
    → length s.state ≡ 63
    → at j (store_colour o s) ≡ colour_place o j (at j s)
unfolding store_colour or_at put
colour-place none s j lt sized = refl
colour-place (some c) s j lt sized =
    let first = bit_or (get_or s.state 1 0) 0x04 in
    let one = set s.state 1 first in
    let two = set one 44 c.red in
    let three = set two 45 c.green in
    ground (
      arith,
      lt,
      sized,
      get_or-set s.state 1 first j,
      get_or-set one 44 c.red j,
      get_or-set two 45 c.green j,
      get_or-set three 46 c.blue j,
      length-set s.state 1 first,
      length-set one 44 c.red,
      length-set two 45 c.green,
    )

players-place :
    (o : Option ℕ) (s : OutputState) (j : ℕ)
    → j < 63
    → length s.state ≡ 63
    → at j (store_player_lights o s) ≡ players_place o j (at j s)
unfolding store_player_lights or_at put
players-place none s j lt sized = refl
players-place (some lights) s j lt sized =
    let first = bit_or (get_or s.state 1 0) 0x10 in
    ground (
      arith,
      lt,
      sized,
      get_or-set s.state 1 first j,
      get_or-set (set s.state 1 first) 43 (bit_and lights 0x3f) j,
      length-set s.state 1 first,
    )

mute-place :
    (o : Option ℕ) (s : OutputState) (j : ℕ)
    → j < 63
    → length s.state ≡ 63
    → at j (store_mute_light o s) ≡ mute_place o j (at j s)
unfolding store_mute_light or_at put
mute-place none s j lt sized = refl
mute-place (some light) s j lt sized =
    let first = bit_or (get_or s.state 1 0) 0x01 in
    ground (
      arith,
      lt,
      sized,
      get_or-set s.state 1 first j,
      get_or-set (set s.state 1 first) 8 light j,
      length-set s.state 1 first,
    )

pub authored-place :
    (e : AuthoredEffects) (s : OutputState) (j : ℕ)
    → j < 63
    → IsOutput s
    → at j (apply_authored_effects e s)
      ≡ mute_place e.mute_light j (
          players_place e.player_lights j (
            colour_place e.led_color j (
              trigger_place 21 0x08 e.left_trigger j
                (trigger_place 10 0x04 e.right_trigger j (at j s)))))
unfolding apply_authored_effects
authored-place e s j lt h =
    let s₁ = store_trigger 10 0x04 e.right_trigger s in
    let s₂ = store_trigger 21 0x08 e.left_trigger s₁ in
    let s₃ = store_colour e.led_color s₂ in
    let s₄ = store_player_lights e.player_lights s₃ in
    let h₁ = trigger-IsOutput 10 0x04 e.right_trigger s h in
    let h₂ = trigger-IsOutput 21 0x08 e.left_trigger s₁ h₁ in
    let h₃ = colour-IsOutput e.led_color s₂ h₂ in
    let h₄ = players-IsOutput e.player_lights s₃ h₃ in
    rw
      (
        mute-place e.mute_light s₄ j lt h₄.sized,
        players-place e.player_lights s₃ j lt h₃.sized,
        colour-place e.led_color s₂ j lt h₂.sized,
        trigger-place 21 0x08 e.left_trigger s₁ j lt h₁.sized,
        trigger-place 10 0x04 e.right_trigger s j lt h.sized,
      )
      refl

-- A trigger effect is an array of eleven bytes.
abbrev pub IsTrigger : Option Bytes → Type 0
IsTrigger none = Unit
IsTrigger (some effect) = length effect ≡ 11

abbrev pub trigger_byte : Option Bytes → ℕ → ℕ → ℕ
trigger_byte none k b = b
trigger_byte (some effect) k b = get_or effect k 0

abbrev pub number_or : Option ℕ → ℕ → ℕ
number_or none b = b
number_or (some n) b = n

abbrev pub masked_or : Option ℕ → ℕ → ℕ
masked_or none b = b
masked_or (some n) b = bit_and n 0x3f

abbrev pub red_or : Option Colour → ℕ → ℕ
red_or none b = b
red_or (some c) b = c.red

abbrev pub green_or : Option Colour → ℕ → ℕ
green_or none b = b
green_or (some c) b = c.green

abbrev pub blue_or : Option Colour → ℕ → ℕ
blue_or none b = b
blue_or (some c) b = c.blue

-- Where effects go: the two bytes of enable bits, the mute light, the triggers, and the lights.
abbrev pub is_effect_place : ℕ → Bool
is_effect_place j = ltb j 2 || (j == 8) || (leb 10 j && ltb j 32) || (leb 43 j && ltb j 47)

pub record IsAuthored (e : AuthoredEffects) (s t : OutputState) (k j : ℕ) : Type 0 where
  pub right_trigger : at (10 + k) t ≡ trigger_byte e.right_trigger k (at (10 + k) s)
  pub left_trigger : at (21 + k) t ≡ trigger_byte e.left_trigger k (at (21 + k) s)
  pub red : at 44 t ≡ red_or e.led_color (at 44 s)
  pub green : at 45 t ≡ green_or e.led_color (at 45 s)
  pub blue : at 46 t ≡ blue_or e.led_color (at 46 s)
  pub player_lights : at 43 t ≡ masked_or e.player_lights (at 43 s)
  pub mute_light : at 8 t ≡ number_or e.mute_light (at 8 s)
  pub right_enable : bit (at 0 t) 2 ≡ (bit (at 0 s) 2 || is_set e.right_trigger)
  pub left_enable : bit (at 0 t) 3 ≡ (bit (at 0 s) 3 || is_set e.left_trigger)
  pub colour_enable : bit (at 1 t) 2 ≡ (bit (at 1 s) 2 || is_set e.led_color)
  pub players_enable : bit (at 1 t) 4 ≡ (bit (at 1 s) 4 || is_set e.player_lights)
  pub mute_enable : bit (at 1 t) 0 ≡ (bit (at 1 s) 0 || is_set e.mute_light)
  pub others : at j t ≡ (if is_effect_place j then at j t else at j s)

abbrev pub enabled : Bool → ℕ → ℕ → ℕ
enabled true k b = bit_or b (2 ^ k)
enabled false k b = b

pub bit-enabled :
    (x : Bool) (k m b : ℕ)
    → b < 256
    → k < 8
    → m < 8
    → (bit (enabled x k b) m ≡ (bit b m || (x && (m == k)))) × (enabled x k b < 256)
bit-enabled true k m b lt kl ml = bit-bit_or b k m lt kl ml
bit-enabled false k m b lt kl ml = (ground arith, lt)

pub trigger-enabled :
    (offset k : ℕ) (o : Option Bytes) (b : ℕ)
    → 1 ≤ offset
    → trigger_place offset (2 ^ k) o 0 b ≡ enabled (is_set o) k b
trigger-enabled offset k none b le = refl
trigger-enabled offset k (some effect) b le = ground (arith, le)

pub colour-enabled : (o : Option Colour) (b : ℕ) → colour_place o 1 b ≡ enabled (is_set o) 2 b
colour-enabled none b = refl
colour-enabled (some c) b = refl

pub players-enabled : (o : Option ℕ) (b : ℕ) → players_place o 1 b ≡ enabled (is_set o) 4 b
players-enabled none b = refl
players-enabled (some n) b = refl

pub mute-enabled : (o : Option ℕ) (b : ℕ) → mute_place o 1 b ≡ enabled (is_set o) 0 b
mute-enabled none b = refl
mute-enabled (some n) b = refl

-- Away from their places the blocks keep the byte.
pub trigger-away :
    (offset enable : ℕ) (o : Option Bytes) (j b : ℕ)
    → IsTrigger o
    → (j < offset) ⊎ (offset + 11 ≤ j)
    → 1 ≤ j
    → trigger_place offset enable o j b ≡ b
trigger-away offset enable none j b len away pos = refl
trigger-away offset enable (some effect) j b len away pos = ground (arith, len, away, pos)

pub trigger-inside :
    (offset enable : ℕ) (o : Option Bytes) (k b : ℕ)
    → IsTrigger o
    → k < 11
    → trigger_place offset enable o (offset + k) b ≡ trigger_byte o k b
trigger-inside offset enable none k b len lt = refl
trigger-inside offset enable (some effect) k b len lt =
    let back : get_or effect (offset + k - offset) 0 ≡ get_or effect k 0 =
      ap (λ (t : ℕ). get_or effect t 0) (omega arith) in
    ground (arith, len, lt, back)

pub colour-away :
    (o : Option Colour) (j b : ℕ) → j ≢ 1 → (j < 44) ⊎ (47 ≤ j) → colour_place o j b ≡ b
colour-away none j b one away = refl
colour-away (some c) j b one away = ground (arith, one, away)

pub players-away : (o : Option ℕ) (j b : ℕ) → j ≢ 1 → j ≢ 43 → players_place o j b ≡ b
players-away none j b one away = refl
players-away (some n) j b one away = ground (arith, one, away)

pub mute-away : (o : Option ℕ) (j b : ℕ) → j ≢ 1 → j ≢ 8 → mute_place o j b ≡ b
mute-away none j b one away = refl
mute-away (some n) j b one away = ground (arith, one, away)

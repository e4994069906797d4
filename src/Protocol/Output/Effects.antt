-- ===== src/Protocol/Output/Effects.antt =====
-- The audio streams, the headset and the authored effects: `set_audio_out_stream_active`,
-- `set_headset_mic_plugged` and `apply_authored_effects` of src/vds_protocol.cc.
use Prim.Native.Nat.{bit_and}
use windows_vds.Prelude.{
  ℕ, ◌+◌, Bool, true, false, [], ◌∷◌, if◌then◌else◌, set, Bytes, Option, none, some, ◌||◌,
}
use windows_vds.Protocol.Output.{
  OutputState, put, or_at, and_at, audio_control_with_output_path, apply_mic_select,
}

-- `audio_output_path_ = path`, and the control byte with it.
unfoldable pub select_path : ℕ → OutputState → OutputState
unfolding put audio_control_with_output_path
select_path path s =
    put 7 (audio_control_with_output_path s.audio_control path)
      (record s { audio_output_path = path })

unfoldable pub route_to_headset : OutputState → OutputState
unfolding put or_at and_at select_path
route_to_headset s =
    select_path 0x00 (put 37 0 (put 5 0 (and_at 1 0x7f (and_at 0 0xdf (or_at 0 0x10 s)))))

unfoldable pub route_to_speaker : OutputState → OutputState
unfolding put or_at select_path
route_to_speaker s =
    select_path 0x30
      (put 37 s.audio_control2 (put 5 s.speaker_volume (or_at 1 0x80 (or_at 0 0x20 s))))

unfoldable pub stop_stream : OutputState → OutputState
unfolding put and_at select_path
stop_stream s = select_path 0x00 (put 37 0 (put 5 0 (and_at 1 0x7f (and_at 0 0xdf s))))

unfoldable pub set_audio_out_stream_active : Bool → Bool → OutputState → OutputState
unfolding put or_at route_to_headset route_to_speaker stop_stream
set_audio_out_stream_active active headset_plugged s =
    let t = put 4 s.headphones_volume (or_at 0 0x80 s) in
    if active
    then (if headset_plugged then route_to_headset t else route_to_speaker t)
    else stop_stream t

unfoldable pub set_headset_mic_plugged : Bool → OutputState → OutputState
unfolding put or_at apply_mic_select
set_headset_mic_plugged plugged s =
    apply_mic_select
      (put 6 s.mic_volume (or_at 0 0xc0 (record s { headset_mic_plugged = plugged })))

pub record Colour : Type 0 where
  pub red : ℕ
  pub green : ℕ
  pub blue : ℕ

pub record AuthoredEffects : Type 0 where
  pub left_trigger : Option Bytes
  pub right_trigger : Option Bytes
  pub led_color : Option Colour
  pub player_lights : Option ℕ
  pub mute_light : Option ℕ
  pub force : Bool

abbrev pub is_set {ℓ} : {A : Type ℓ} → Option A → Bool
is_set none = false
is_set (some a) = true

unfoldable pub any_effect : AuthoredEffects → Bool
any_effect e =
    is_set e.left_trigger
    || is_set e.right_trigger
    || is_set e.led_color
    || is_set e.player_lights
    || is_set e.mute_light

-- `std::copy` of a trigger effect.
unfoldable pub store_bytes : ℕ → Bytes → Bytes → Bytes
store_bytes offset [] state = state
store_bytes offset (b ∷ bytes) state = store_bytes (offset + 1) bytes (set state offset b)

unfoldable pub store_trigger : ℕ → ℕ → Option Bytes → OutputState → OutputState
unfolding or_at store_bytes
store_trigger offset enable none s = s
store_trigger offset enable (some effect) s =
    let t = or_at 0 enable s in record t { state = store_bytes offset effect t.state }

unfoldable pub store_colour : Option Colour → OutputState → OutputState
unfolding or_at put
store_colour none s = s
store_colour (some c) s = put 46 c.blue (
    put 45 c.green (
      put 44 c.red (record (or_at 1 0x04 s) {
        light_red = c.red;
        light_green = c.green;
        light_blue = c.blue;
      })))

unfoldable pub store_player_lights : Option ℕ → OutputState → OutputState
unfolding or_at put
store_player_lights none s = s
store_player_lights (some lights) s = put 43 (bit_and lights 0x3f) (or_at 1 0x10 s)

unfoldable pub store_mute_light : Option ℕ → OutputState → OutputState
unfolding or_at put
store_mute_light none s = s
store_mute_light (some light) s = put 8 light (or_at 1 0x01 s)

unfoldable pub apply_authored_effects : AuthoredEffects → OutputState → OutputState
unfolding store_trigger store_colour store_player_lights store_mute_light
apply_authored_effects e s = store_mute_light e.mute_light (
    store_player_lights e.player_lights (
      store_colour e.led_color
        (store_trigger 21 0x08 e.left_trigger (store_trigger 10 0x04 e.right_trigger s))))

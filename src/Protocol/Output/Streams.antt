-- ===== src/Protocol/Output/Streams.antt =====
-- The audio streams, the authored effects and the haptics packets of src/vds_protocol.cc.
use windows_vds.Prelude.{
  ℕ, ◌+◌, ◌≡◌, refl, ◌∙◌, Bool, true, false, ◌∷◌, [], length, set, Bytes, Option, none, some,
}
use windows_vds.Protocol.Output.{OutputState}
use windows_vds.Protocol.Output.Effects.{
  set_audio_out_stream_active, route_to_headset, route_to_speaker, stop_stream, select_path,
  AuthoredEffects, apply_authored_effects, store_bytes, store_trigger, store_colour,
  store_player_lights, store_mute_light, Colour,
}
use windows_vds.Protocol.Output.Sizes.{
  IsOutput, length-set, put-IsOutput, or_at-IsOutput, and_at-IsOutput, same_state,
}

select_path-IsOutput : (path : ℕ) (s : OutputState) → IsOutput s → IsOutput (select_path path s)
unfolding select_path
select_path-IsOutput path s h = put-IsOutput 7 _ _ (same_state s _ refl refl refl h)

headset-IsOutput : (s : OutputState) → IsOutput s → IsOutput (route_to_headset s)
unfolding route_to_headset
headset-IsOutput s h = select_path-IsOutput 0x00 _ (
    put-IsOutput 37 _ _ (
      put-IsOutput 5 _ _
        (and_at-IsOutput 1 0x7f _ (and_at-IsOutput 0 0xdf _ (or_at-IsOutput 0 0x10 s h)))))

speaker-IsOutput : (s : OutputState) → IsOutput s → IsOutput (route_to_speaker s)
unfolding route_to_speaker
speaker-IsOutput s h =
    select_path-IsOutput 0x30 _ (
      put-IsOutput 37 _ _
        (put-IsOutput 5 _ _ (or_at-IsOutput 1 0x80 _ (or_at-IsOutput 0 0x20 s h))))

stop-IsOutput : (s : OutputState) → IsOutput s → IsOutput (stop_stream s)
unfolding stop_stream
stop-IsOutput s h = select_path-IsOutput 0x00 _ (
    put-IsOutput 37 _ _
      (put-IsOutput 5 _ _ (and_at-IsOutput 1 0x7f _ (and_at-IsOutput 0 0xdf s h))))

-- Starting and stopping the audio stream, on either output, keeps the mirrored state at 63 bytes and
-- the sequence numbers at four bits.
pub set_audio_out_stream_active-IsOutput :
    (active headset_plugged : Bool) (s : OutputState)
    → IsOutput s
    → IsOutput (set_audio_out_stream_active active headset_plugged s)
unfolding set_audio_out_stream_active
set_audio_out_stream_active-IsOutput true true s h =
    headset-IsOutput _ (put-IsOutput 4 _ _ (or_at-IsOutput 0 0x80 s h))
set_audio_out_stream_active-IsOutput true false s h =
    speaker-IsOutput _ (put-IsOutput 4 _ _ (or_at-IsOutput 0 0x80 s h))
set_audio_out_stream_active-IsOutput false headset_plugged s h =
    stop-IsOutput _ (put-IsOutput 4 _ _ (or_at-IsOutput 0 0x80 s h))

length-store_bytes :
    (offset : ℕ) (bytes state : Bytes) → length (store_bytes offset bytes state) ≡ length state
unfolding store_bytes
length-store_bytes offset [] state = refl
length-store_bytes offset (b ∷ bytes) state =
    length-store_bytes (offset + 1) bytes (set state offset b) ∙ length-set state offset b

pub trigger-IsOutput :
    (offset enable : ℕ) (o : Option Bytes) (s : OutputState)
    → IsOutput s
    → IsOutput (store_trigger offset enable o s)
unfolding store_trigger
trigger-IsOutput offset enable none s h = h
trigger-IsOutput offset enable (some effect) s h =
    let k = or_at-IsOutput 0 enable s h in
    record { sized = length-store_bytes offset effect _ ∙ k.sized; report = k.report; mic = k.mic }

pub colour-IsOutput :
    (o : Option Colour) (s : OutputState) → IsOutput s → IsOutput (store_colour o s)
unfolding store_colour
colour-IsOutput none s h = h
colour-IsOutput (some c) s h = put-IsOutput 46 _ _ (
    put-IsOutput 45 _ _
      (put-IsOutput 44 _ _ (same_state _ _ refl refl refl (or_at-IsOutput 1 0x04 s h))))

pub players-IsOutput :
    (o : Option ℕ) (s : OutputState) → IsOutput s → IsOutput (store_player_lights o s)
unfolding store_player_lights
players-IsOutput none s h = h
players-IsOutput (some lights) s h = put-IsOutput 43 _ _ (or_at-IsOutput 1 0x10 s h)

pub mute-IsOutput : (o : Option ℕ) (s : OutputState) → IsOutput s → IsOutput (store_mute_light o s)
unfolding store_mute_light
mute-IsOutput none s h = h
mute-IsOutput (some light) s h = put-IsOutput 8 _ _ (or_at-IsOutput 1 0x01 s h)

-- Authored effects, whichever are set and whatever bytes they hold, keep the mirrored state at 63
-- bytes and the sequence numbers at four bits.
pub apply_authored_effects-IsOutput :
    (effects : AuthoredEffects) (s : OutputState)
    → IsOutput s
    → IsOutput (apply_authored_effects effects s)
unfolding apply_authored_effects
apply_authored_effects-IsOutput e s h = mute-IsOutput e.mute_light _ (
    players-IsOutput e.player_lights _ (
      colour-IsOutput e.led_color _
        (trigger-IsOutput 21 0x08 e.left_trigger _ (trigger-IsOutput 10 0x04 e.right_trigger s h))))

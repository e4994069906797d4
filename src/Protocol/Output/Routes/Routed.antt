-- ===== src/Protocol/Output/Routes/Routed.antt =====
-- What `set_audio_out_stream_active` of src/vds_protocol.cc writes, as a whole.
use windows_vds.Prelude.{
  ℕ, ◌<◌, ◌≡◌, ◌∙◌, refl, ap, inl, inr, Bool, Bool-cases, true, false, not, ◌||◌, ◌&&◌, ◌==◌, arith,
  if◌then◌else◌,
}
use windows_vds.Protocol.Bits.{bit, all_below_sound, same-eq}
use windows_vds.Protocol.Output.{OutputState, put, or_at, audio_control_with_output_path}
use windows_vds.Protocol.Output.Effects.{
  set_audio_out_stream_active, route_to_headset, route_to_speaker, stop_stream, select_path,
}
use windows_vds.Protocol.Output.Sizes.{IsOutput, put-IsOutput, or_at-IsOutput}
use windows_vds.Protocol.Output.Authored.{at}
use windows_vds.Protocol.Output.Routes.{
  is_route_place, put_place, or_place, and_place, at-headset, at-speaker, at-stop, at-started,
  bit-path, flag_test, flag_all, IsRouted,
}

-- The byte of a place, from the mode, the control byte and what was there.
abbrev routed_byte : Bool → Bool → OutputState → ℕ → ℕ → ℕ
routed_byte true true s j b = put_place 7 (audio_control_with_output_path s.audio_control 0x00) j (
    put_place 37 0 j
      (put_place 5 0 j (and_place 1 0x7f j (and_place 0 0xdf j (or_place 0 0x10 j b)))))
routed_byte true false s j b = put_place 7 (audio_control_with_output_path s.audio_control 0x30) j (
    put_place 37 s.audio_control2 j
      (put_place 5 s.speaker_volume j (or_place 1 0x80 j (or_place 0 0x20 j b))))
routed_byte false headset s j b =
    put_place 7 (audio_control_with_output_path s.audio_control 0x00) j
      (put_place 37 0 j (put_place 5 0 j (and_place 1 0x7f j (and_place 0 0xdf j b))))

module _ (s : OutputState) (h : IsOutput s) where
  started-IsOutput : IsOutput (put 4 s.headphones_volume (or_at 0 0x80 s))
  started-IsOutput = put-IsOutput 4 s.headphones_volume _ (or_at-IsOutput 0 0x80 s h)

  at-active :
      (active headset : Bool) (j : ℕ)
      → j < 63
      → at j (set_audio_out_stream_active active headset s)
        ≡ routed_byte active headset s j
            (put_place 4 s.headphones_volume j (or_place 0 0x80 j (at j s)))
  unfolding set_audio_out_stream_active
  at-active true true j lt =
      rw
        (
          at-headset j lt (put 4 s.headphones_volume (or_at 0 0x80 s)) started-IsOutput,
          at-started j lt s h,
        )
        (unfold put or_at in refl)
  at-active true false j lt =
      rw
        (
          at-speaker j lt (put 4 s.headphones_volume (or_at 0 0x80 s)) started-IsOutput,
          at-started j lt s h,
        )
        (unfold put or_at in refl)
  at-active false headset j lt =
      rw
        (
          at-stop j lt (put 4 s.headphones_volume (or_at 0 0x80 s)) started-IsOutput,
          at-started j lt s h,
        )
        (unfold put or_at in refl)

  -- The tests on every byte, at one.
  flags : (n : ℕ) → n < 256 → flag_test n ≡ true
  flags n lt = all_below_sound 256 (λ n. flag_test n) n flag_all lt

  path_of :
      (active headset : Bool)
      → (set_audio_out_stream_active active headset s).audio_output_path
        ≡ (if active && not headset then 0x30 else 0)
  unfolding set_audio_out_stream_active route_to_headset route_to_speaker stop_stream select_path
      put
  path_of true true = refl
  path_of true false = refl
  path_of false headset = refl

  control_of :
      (active headset : Bool) (m : ℕ)
      → s.audio_control < 256
      → m < 8
      → bit (at 7 (set_audio_out_stream_active active headset s)) m
        ≡ (if (m == 4) || (m == 5) then active && not headset else bit s.audio_control m)
  control_of true true m cl ml =
      ap (λ (b : ℕ). bit b m) (at-active true true 7 (omega arith))
      ∙ (bit-path s.audio_control m cl ml).1
  control_of true false m cl ml =
      ap (λ (b : ℕ). bit b m) (at-active true false 7 (omega arith))
      ∙ (bit-path s.audio_control m cl ml).0
  control_of false headset m cl ml =
      ap (λ (b : ℕ). bit b m) (at-active false headset 7 (omega arith))
      ∙ (bit-path s.audio_control m cl ml).1

  others_of :
      (active headset : Bool) (j : ℕ)
      → j < 63
      → at j (set_audio_out_stream_active active headset s)
        ≡ (if is_route_place j then at j (set_audio_out_stream_active active headset s) else at j s)
  others_of active headset j lt = elim (Bool-cases (is_route_place j)) [
    | inl taken ↦ rw taken refl
    | inr free ↦ rw free (at-active active headset j lt ∙ away active headset j free)
  ]
    where
      away :
          (active headset : Bool) (j : ℕ)
          → is_route_place j ≡ false
          → routed_byte active headset s j
              (put_place 4 s.headphones_volume j (or_place 0 0x80 j (at j s)))
            ≡ at j s
      away true true j free = ground (arith, free)
      away true false j free = ground (arith, free)
      away false headset j free = ground (arith, free)

  enables_of :
      (active headset : Bool)
      → at 0 s < 256
      → at 1 s < 256
      → (bit (at 0 (set_audio_out_stream_active active headset s)) 7 ≡ true)
        × (bit (at 0 (set_audio_out_stream_active active headset s)) 5 ≡ (active && not headset))
        × (bit (at 0 (set_audio_out_stream_active active headset s)) 4
            ≡ (bit (at 0 s) 4 || (active && headset)))
        × (bit (at 1 (set_audio_out_stream_active active headset s)) 7 ≡ (active && not headset))
  enables_of true true zero one =
      let f = flags (at 0 s) zero in
      let g = flags (at 1 s) one in
      let at_0 = at-active true true 0 (omega arith) in
      let at_1 = at-active true true 1 (omega arith) in
      (
        ap (λ (b : ℕ). bit b 7) at_0 ∙ same-eq _ true (ground (arith, f)),
        ap (λ (b : ℕ). bit b 5) at_0 ∙ same-eq _ false (ground (arith, f)),
        ap (λ (b : ℕ). bit b 4) at_0 ∙ same-eq _ true (ground (arith, f)) ∙ ground arith,
        ap (λ (b : ℕ). bit b 7) at_1 ∙ same-eq _ false (ground (arith, g)),
      )
  enables_of true false zero one =
      let f = flags (at 0 s) zero in
      let g = flags (at 1 s) one in
      let at_0 = at-active true false 0 (omega arith) in
      let at_1 = at-active true false 1 (omega arith) in
      (
        ap (λ (b : ℕ). bit b 7) at_0 ∙ same-eq _ true (ground (arith, f)),
        ap (λ (b : ℕ). bit b 5) at_0 ∙ same-eq _ true (ground (arith, f)),
        ap (λ (b : ℕ). bit b 4) at_0
            ∙ same-eq _ (bit (at 0 s) 4) (ground (arith, f))
            ∙ ground arith,
        ap (λ (b : ℕ). bit b 7) at_1 ∙ same-eq _ true (ground (arith, g)),
      )
  enables_of false headset zero one =
      let f = flags (at 0 s) zero in
      let g = flags (at 1 s) one in
      let at_0 = at-active false headset 0 (omega arith) in
      let at_1 = at-active false headset 1 (omega arith) in
      (
        ap (λ (b : ℕ). bit b 7) at_0 ∙ same-eq _ true (ground (arith, f)),
        ap (λ (b : ℕ). bit b 5) at_0 ∙ same-eq _ false (ground (arith, f)),
        ap (λ (b : ℕ). bit b 4) at_0
            ∙ same-eq _ (bit (at 0 s) 4) (ground (arith, f))
            ∙ ground arith,
        ap (λ (b : ℕ). bit b 7) at_1 ∙ same-eq _ false (ground (arith, g)),
      )

  volumes_of :
      (active headset : Bool)
      → (at 4 (set_audio_out_stream_active active headset s) ≡ s.headphones_volume)
        × (at 5 (set_audio_out_stream_active active headset s)
            ≡ (if active && not headset then s.speaker_volume else 0))
        × (at 37 (set_audio_out_stream_active active headset s)
            ≡ (if active && not headset then s.audio_control2 else 0))
  volumes_of true true = (
    at-active true true 4 (omega arith),
    at-active true true 5 (omega arith),
    at-active true true 37 (omega arith),
  )
  volumes_of true false = (
    at-active true false 4 (omega arith),
    at-active true false 5 (omega arith),
    at-active true false 37 (omega arith),
  )
  volumes_of false headset = (
    at-active false headset 4 (omega arith),
    at-active false headset 5 (omega arith),
    at-active false headset 37 (omega arith),
  )

-- The stream goes to the speaker when it is active and no headset is plugged. From a state of 63
-- bytes, in each of the modes: the byte 4 is the volume of the headphones; the bytes 5 and 37 are the
-- volume of the speaker and the second control byte when it goes to the speaker, and 0 otherwise; the
-- output path is 0x30 or 0, and the byte 7 is the control byte with the bits 4 and 5 of that path;
-- the enable bit 7 of the byte 0 is set, its bit 5 and the bit 7 of the byte 1 tell whether the
-- stream goes to the speaker, and its bit 4 is set for an active headset and else as before; and a
-- byte at every other place is as before.
pub set_audio_out_stream_active-IsRouted :
    (active headset_plugged : Bool) (s : OutputState) (m j : ℕ)
    → IsOutput s
    → at 0 s < 256
    → at 1 s < 256
    → s.audio_control < 256
    → m < 8
    → j < 63
    → IsRouted
        (active && not headset_plugged)
        (active && headset_plugged)
        s
        (set_audio_out_stream_active active headset_plugged s)
        m
        j
set_audio_out_stream_active-IsRouted active headset_plugged s m j h zero one cl ml jl =
    let volumes = volumes_of s h active headset_plugged in
    let enables = enables_of s h active headset_plugged zero one in
    record {
      headphones = volumes.0;
      speaker_volume = volumes.1;
      control2 = volumes.2;
      path = path_of s h active headset_plugged;
      control = control_of s h active headset_plugged m cl ml;
      control_enable = enables.0;
      speaker_enable = enables.1;
      headphones_enable = enables.2;
      control2_enable = enables.3;
      others = others_of s h active headset_plugged j jl;
    }

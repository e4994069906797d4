-- ===== src/Protocol/Output/Routes.antt =====
-- Where `set_audio_out_stream_active` of src/vds_protocol.cc sends the sound.
pub mod Routed
use windows_vds.Prelude.{
  ℕ, ◌<◌, ◌≡◌, ◌∙◌, refl, Bool, true, false, ◌||◌, ◌&&◌, ltb, ◌==◌, arith, if◌then◌else◌, get_or,
}
use Prim.Native.Nat.{bit_and, bit_or}
use windows_vds.Protocol.Bits.{bit, all_below, all_below_sound, same, same-eq}
use windows_vds.Protocol.Output.{OutputState, put, or_at, and_at, audio_control_with_output_path}
use windows_vds.Protocol.Output.Effects.{
  route_to_headset, route_to_speaker, stop_stream, select_path,
}
use windows_vds.Protocol.Output.Sizes.{IsOutput, put-IsOutput, or_at-IsOutput, and_at-IsOutput}
use windows_vds.Protocol.Output.Places.{get_or-set}
use windows_vds.Protocol.Output.Authored.{at}

-- What one assignment makes of the byte `b` at the place `j`.
abbrev pub put_place : ℕ → ℕ → ℕ → ℕ → ℕ
put_place i v j b = if i == j then v else b

abbrev pub or_place : ℕ → ℕ → ℕ → ℕ → ℕ
or_place i mask j b = if i == j then bit_or b mask else b

abbrev pub and_place : ℕ → ℕ → ℕ → ℕ → ℕ
and_place i mask j b = if i == j then bit_and b mask else b

module _ (j : ℕ) (lt : j < 63) where
  at-put : (i v : ℕ) (s : OutputState) → IsOutput s → at j (put i v s) ≡ put_place i v j (at j s)
  unfolding put
  at-put i v s h = ground (arith, lt, h.sized, get_or-set s.state i v j)

  at-or_at :
      (i mask : ℕ) (s : OutputState)
      → IsOutput s
      → at j (or_at i mask s) ≡ or_place i mask j (at j s)
  unfolding or_at
  at-or_at i mask s h = at-put i (bit_or (at i s) mask) s h ∙ ground arith

  at-and_at :
      (i mask : ℕ) (s : OutputState)
      → IsOutput s
      → at j (and_at i mask s) ≡ and_place i mask j (at j s)
  unfolding and_at
  at-and_at i mask s h = at-put i (bit_and (at i s) mask) s h ∙ ground arith

  at-select_path :
      (path : ℕ) (s : OutputState)
      → IsOutput s
      → at j (select_path path s)
        ≡ put_place 7 (audio_control_with_output_path s.audio_control path) j (at j s)
  unfolding select_path
  at-select_path path s h =
      at-put 7 (audio_control_with_output_path s.audio_control path)
        (record s { audio_output_path = path })
        (record { sized = h.sized; report = h.report; mic = h.mic })

  pub at-headset :
      (s : OutputState)
      → IsOutput s
      → at j (route_to_headset s)
        ≡ put_place 7 (audio_control_with_output_path s.audio_control 0x00) j (
            put_place 37 0 j (
              put_place 5 0 j
                (and_place 1 0x7f j (and_place 0 0xdf j (or_place 0 0x10 j (at j s))))))
  unfolding route_to_headset
  at-headset s h =
      let s₁ = or_at 0 0x10 s in
      let s₂ = and_at 0 0xdf s₁ in
      let s₃ = and_at 1 0x7f s₂ in
      let s₄ = put 5 0 s₃ in
      let s₅ = put 37 0 s₄ in
      let h₁ = or_at-IsOutput 0 0x10 s h in
      let h₂ = and_at-IsOutput 0 0xdf s₁ h₁ in
      let h₃ = and_at-IsOutput 1 0x7f s₂ h₂ in
      let h₄ = put-IsOutput 5 0 s₃ h₃ in
      let h₅ = put-IsOutput 37 0 s₄ h₄ in
      rw
        (
          at-select_path 0x00 s₅ h₅,
          at-put 37 0 s₄ h₄,
          at-put 5 0 s₃ h₃,
          at-and_at 1 0x7f s₂ h₂,
          at-and_at 0 0xdf s₁ h₁,
          at-or_at 0 0x10 s h,
        )
        (unfold put or_at and_at in refl)

  pub at-speaker :
      (s : OutputState)
      → IsOutput s
      → at j (route_to_speaker s)
        ≡ put_place 7 (audio_control_with_output_path s.audio_control 0x30) j (
            put_place 37 s.audio_control2 j
              (put_place 5 s.speaker_volume j (or_place 1 0x80 j (or_place 0 0x20 j (at j s)))))
  unfolding route_to_speaker
  at-speaker s h =
      let s₁ = or_at 0 0x20 s in
      let s₂ = or_at 1 0x80 s₁ in
      let s₃ = put 5 s.speaker_volume s₂ in
      let s₄ = put 37 s.audio_control2 s₃ in
      let h₁ = or_at-IsOutput 0 0x20 s h in
      let h₂ = or_at-IsOutput 1 0x80 s₁ h₁ in
      let h₃ = put-IsOutput 5 s.speaker_volume s₂ h₂ in
      let h₄ = put-IsOutput 37 s.audio_control2 s₃ h₃ in
      rw
        (
          at-select_path 0x30 s₄ h₄,
          at-put 37 s.audio_control2 s₃ h₃,
          at-put 5 s.speaker_volume s₂ h₂,
          at-or_at 1 0x80 s₁ h₁,
          at-or_at 0 0x20 s h,
        )
        (unfold put or_at in refl)

  pub at-stop :
      (s : OutputState)
      → IsOutput s
      → at j (stop_stream s)
        ≡ put_place 7
            (audio_control_with_output_path s.audio_control 0x00)
            j
            (put_place 37 0 j (put_place 5 0 j (and_place 1 0x7f j (and_place 0 0xdf j (at j s)))))
  unfolding stop_stream
  at-stop s h =
      let s₁ = and_at 0 0xdf s in
      let s₂ = and_at 1 0x7f s₁ in
      let s₃ = put 5 0 s₂ in
      let s₄ = put 37 0 s₃ in
      let h₁ = and_at-IsOutput 0 0xdf s h in
      let h₂ = and_at-IsOutput 1 0x7f s₁ h₁ in
      let h₃ = put-IsOutput 5 0 s₂ h₂ in
      let h₄ = put-IsOutput 37 0 s₃ h₃ in
      rw
        (
          at-select_path 0x00 s₄ h₄,
          at-put 37 0 s₃ h₃,
          at-put 5 0 s₂ h₂,
          at-and_at 1 0x7f s₁ h₁,
          at-and_at 0 0xdf s h,
        )
        (unfold put and_at in refl)

  -- The two assignments that come before the branches.
  pub at-started :
      (s : OutputState)
      → IsOutput s
      → at j (put 4 s.headphones_volume (or_at 0 0x80 s))
        ≡ put_place 4 s.headphones_volume j (or_place 0 0x80 j (at j s))
  at-started s h =
      rw
        (
          at-put 4 s.headphones_volume (or_at 0 0x80 s) (or_at-IsOutput 0 0x80 s h),
          at-or_at 0 0x80 s h,
        )
        refl

-- The bytes that the stream writes.
abbrev pub is_route_place : ℕ → Bool
is_route_place j = ltb j 2 || (j == 4) || (j == 5) || (j == 7) || (j == 37)

-- `t` plays on the speaker where `speaker` holds, and not there otherwise.
pub record IsRouted (speaker headset : Bool) (s t : OutputState) (m j : ℕ) : Type 0 where
  pub headphones : at 4 t ≡ s.headphones_volume
  pub speaker_volume : at 5 t ≡ (if speaker then s.speaker_volume else 0)
  pub control2 : at 37 t ≡ (if speaker then s.audio_control2 else 0)
  pub path : t.audio_output_path ≡ (if speaker then 0x30 else 0)
  pub control : bit (at 7 t) m ≡ (if (m == 4) || (m == 5) then speaker else bit s.audio_control m)
  pub control_enable : bit (at 0 t) 7 ≡ true
  pub speaker_enable : bit (at 0 t) 5 ≡ speaker
  pub headphones_enable : bit (at 0 t) 4 ≡ (bit (at 0 s) 4 || headset)
  pub control2_enable : bit (at 1 t) 7 ≡ speaker
  pub others : at j t ≡ (if is_route_place j then at j t else at j s)

abbrev path_test : ℕ → ℕ → Bool
path_test n m =
    same (bit (bit_or (bit_and n 0xcf) 0x30) m) (if (m == 4) || (m == 5) then true else bit n m)
    && same (bit (bit_or (bit_and n 0xcf) 0x00) m) (if (m == 4) || (m == 5) then false else bit n m)

path_all : all_below 256 (λ n. all_below 8 λ m. path_test n m) ≡ true
unfolding all_below bit
path_all = refl

pub bit-path :
    (n m : ℕ)
    → n < 256
    → m < 8
    → (bit (audio_control_with_output_path n 0x30) m
        ≡ (if (m == 4) || (m == 5) then true else bit n m))
      × (bit (audio_control_with_output_path n 0x00) m
          ≡ (if (m == 4) || (m == 5) then false else bit n m))
unfolding audio_control_with_output_path
bit-path n m nl ml =
    let at_n = all_below_sound 256 (λ n. all_below 8 λ m. path_test n m) n path_all nl in
    let at_m = all_below_sound 8 (λ m. path_test n m) m at_n ml in
    (
      same-eq _ (if (m == 4) || (m == 5) then true else bit n m) (ground (arith, at_m)),
      same-eq _ (if (m == 4) || (m == 5) then false else bit n m) (ground (arith, at_m)),
    )

abbrev pub flag_test : ℕ → Bool
flag_test n =
    same (bit (bit_and (bit_or (bit_or n 0x80) 0x10) 0xdf) 7) true
    && (same (bit (bit_and (bit_or (bit_or n 0x80) 0x10) 0xdf) 5) false
        && (same (bit (bit_and (bit_or (bit_or n 0x80) 0x10) 0xdf) 4) true
            && (same (bit (bit_or (bit_or n 0x80) 0x20) 7) true
                && (same (bit (bit_or (bit_or n 0x80) 0x20) 5) true
                    && (same (bit (bit_or (bit_or n 0x80) 0x20) 4) (bit n 4)
                        && (same (bit (bit_and (bit_or n 0x80) 0xdf) 7) true
                            && (same (bit (bit_and (bit_or n 0x80) 0xdf) 5) false
                                && (same (bit (bit_and (bit_or n 0x80) 0xdf) 4) (bit n 4)
                                    && (same (bit (bit_and n 0x7f) 7) false
                                        && same (bit (bit_or n 0x80) 7) true)))))))))

pub flag_all : all_below 256 (λ n. flag_test n) ≡ true
unfolding all_below bit
flag_all = refl

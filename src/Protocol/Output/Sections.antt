-- ===== src/Protocol/Output/Sections.antt =====
-- The motors and the triggers in a USB output report (`apply_usb_output_report` of
-- src/vds_protocol.cc).
use windows_vds.Prelude.{
  ℕ, zero, suc, ◌+◌, ◌<◌, ◌≤◌, ◌≡◌, ◌≢◌, ◌⊎◌, ◌∙◌, not, inl, inr, refl, ap, true, Bool-cases, ◌||◌,
  ◌&&◌, ltb, leb, if◌then◌else◌, length, take, ◌==◌, get_or, set, ◌∷◌, Bytes, arith,
}
use windows_vds.Protocol.Bits.{bit}
use windows_vds.Protocol.Output.{
  OutputState, put, or_at, copy_bytes, copy_state_bytes, set_state_bit, flag, apply_rumble,
  apply_headphone_volume, apply_speaker_volume, apply_mic_volume, apply_audio_control,
  apply_audio_control2, apply_audio_mute, apply_speaker_route, apply_mute_light, apply_triggers,
  apply_brightness, apply_lights, apply_scaled_lights, apply_mic_select, apply_update, update_of,
  apply_usb_output_report,
}
use windows_vds.Protocol.Output.Sizes.{
  IsOutput, bit-IsOutput, length-copy_bytes, rumble-IsOutput, headphone-IsOutput, speaker-IsOutput,
  mic_volume-IsOutput, control-IsOutput, control2-IsOutput, mute-IsOutput, route-IsOutput,
  mute_light-IsOutput,
}
use windows_vds.Protocol.Output.Places.{get_or-copy_bytes, get_or-set, get_or-take}
use windows_vds.Protocol.Output.Authored.{at}

-- The places of the two motors and of the two triggers.
abbrev pub IsActuator : ℕ → Type 0
IsActuator j = ((2 ≤ j) × (j ≤ 3)) ⊎ ((10 ≤ j) × (j < 32))

copy_bytes-away :
    (offset n : ℕ) (u state : Bytes) (j : ℕ)
    → (j < offset) ⊎ (offset + n ≤ j)
    → get_or (copy_bytes offset n u state) j 0 ≡ get_or state j 0
unfolding copy_bytes
copy_bytes-away offset zero u state j away = refl
copy_bytes-away offset (suc n) u state j away =
    copy_bytes-away (offset + 1) n u (set state offset (get_or u offset 0)) j (ground (arith, away))
    ∙ ground (arith, away, get_or-set state offset (get_or u offset 0) j)

module _ (u : Bytes) (j : ℕ) (away : IsActuator j) where
  set-away : (state : Bytes) (i v : ℕ) → i ≢ j → get_or (set state i v) j 0 ≡ get_or state j 0
  set-away state i v other = ground (arith, other, get_or-set state i v j)

  headphone-away : (s : OutputState) → at j (apply_headphone_volume u s) ≡ at j s
  unfolding apply_headphone_volume copy_state_bytes or_at put
  headphone-away s = elim (Bool-cases (flag u 0 4)) [
    | inl e ↦
        rw e
          (copy_bytes-away 4 1 u _ j (ground (arith, away)) ∙ set-away _ 0 _ (ground (arith, away)))
    | inr e ↦ rw e refl
  ]

  speaker-away : (s : OutputState) → at j (apply_speaker_volume u s) ≡ at j s
  unfolding apply_speaker_volume copy_state_bytes or_at put
  speaker-away s = elim (Bool-cases (flag u 0 5)) [
    | inl e ↦
        rw e
          (copy_bytes-away 5 1 u _ j (ground (arith, away)) ∙ set-away _ 0 _ (ground (arith, away)))
    | inr e ↦ rw e refl
  ]

  mic-away : (s : OutputState) → at j (apply_mic_volume u s) ≡ at j s
  unfolding apply_mic_volume or_at put
  mic-away s = elim (Bool-cases (flag u 0 6)) [
    | inl e ↦ rw e (set-away _ 6 _ (ground (arith, away)) ∙ set-away _ 0 _ (ground (arith, away)))
    | inr e ↦ rw e refl
  ]

  control-away : (s : OutputState) → at j (apply_audio_control u s) ≡ at j s
  unfolding apply_audio_control apply_mic_select or_at put
  control-away s = elim (Bool-cases (flag u 0 7)) [
    | inl e ↦ rw e (
        set-away _ 7 _ (ground (arith, away))
        ∙ set-away _ 0 _ (ground (arith, away))
        ∙ set-away _ 0 _ (ground (arith, away)))
    | inr e ↦ rw e refl
  ]

  control2-away : (s : OutputState) → at j (apply_audio_control2 u s) ≡ at j s
  unfolding apply_audio_control2 copy_state_bytes or_at put
  control2-away s = elim (Bool-cases (flag u 1 7)) [
    | inl e ↦
        rw e (
          copy_bytes-away 37 1 u _ j (ground (arith, away)) ∙ set-away _ 1 _ (ground (arith, away)))
    | inr e ↦ rw e refl
  ]

  mute-away : (s : OutputState) → at j (apply_audio_mute u s) ≡ at j s
  unfolding apply_audio_mute or_at put
  mute-away s = elim (Bool-cases (flag u 1 1)) [
    | inl e ↦ rw e (set-away _ 9 _ (ground (arith, away)) ∙ set-away _ 1 _ (ground (arith, away)))
    | inr e ↦ rw e refl
  ]

  route-away : (s : OutputState) → at j (apply_speaker_route u s) ≡ at j s
  unfolding apply_speaker_route or_at put
  route-away s = elim (Bool-cases (flag u 0 5 && not (get_or u 5 0 == 0))) [
    | inl e ↦ rw e (
        set-away _ 37 _ (ground (arith, away))
        ∙ set-away _ 7 _ (ground (arith, away))
        ∙ set-away _ 1 _ (ground (arith, away))
        ∙ set-away _ 0 _ (ground (arith, away)))
    | inr e ↦ rw e refl
  ]

  mute_light-away : (s : OutputState) → at j (apply_mute_light u s) ≡ at j s
  unfolding apply_mute_light copy_state_bytes
  mute_light-away s = elim (Bool-cases (flag u 1 0)) [
    | inl e ↦ rw e (copy_bytes-away 8 1 u _ j (ground (arith, away)))
    | inr e ↦ rw e refl
  ]

  brightness-away : (s : OutputState) → at j (apply_brightness u s) ≡ at j s
  unfolding apply_brightness copy_state_bytes
  brightness-away s = ground (
    arith,
    copy_bytes-away 41 1 u s.state j (ground (arith, away)),
    copy_bytes-away 42 1 u s.state j (ground (arith, away)),
    copy_bytes-away 42 1 u (copy_bytes 41 1 u s.state) j (ground (arith, away)),
  )

  lights-away : (s : OutputState) → at j (apply_lights u s) ≡ at j s
  unfolding apply_lights copy_state_bytes
  lights-away s = ground (
    arith,
    copy_bytes-away 43 1 u s.state j (ground (arith, away)),
    copy_bytes-away 44 3 u s.state j (ground (arith, away)),
    copy_bytes-away 44 3 u (copy_bytes 43 1 u s.state) j (ground (arith, away)),
  )

  scaled-away : (s : OutputState) → at j (apply_scaled_lights u s) ≡ at j s
  unfolding apply_scaled_lights put
  scaled-away s = elim (Bool-cases (s.emulate_light_brightness && (flag u 38 0 || flag u 1 2))) [
    | inl e ↦ rw e (
        set-away _ 46 _ (ground (arith, away))
        ∙ set-away _ 45 _ (ground (arith, away))
        ∙ set-away _ 44 _ (ground (arith, away)))
    | inr e ↦ rw e refl
  ]

  rumble-at :
      (s : OutputState)
      → IsOutput s
      → at j (apply_rumble u s)
        ≡ (if ltb j 4 && (flag u 0 1 || flag u 0 0) then get_or u j 0 else at j s)
  unfolding apply_rumble copy_state_bytes
  rumble-at s h =
      let r₁ = set_state_bit 0 0 (flag u 0 0) s in
      let r₂ = set_state_bit 0 1 (flag u 0 1) r₁ in
      let r₃ = set_state_bit 38 2 (flag u 38 2) r₂ in
      let h₁ = bit-IsOutput 0 0 (flag u 0 0) s h in
      let h₂ = bit-IsOutput 0 1 (flag u 0 1) r₁ h₁ in
      let h₃ = bit-IsOutput 38 2 (flag u 38 2) r₂ h₂ in
      let kept : at j r₃ ≡ at j s =
        unfold set_state_bit put in
        (set-away _ 38 _ (ground (arith, away))
          ∙ set-away _ 0 _ (ground (arith, away))
          ∙ set-away _ 0 _ (ground (arith, away))) in
      ground
        (arith, away, kept, get_or-copy_bytes 2 2 u r₃.state j (ground (arith, away, h₃.sized)))

  triggers-at :
      (s : OutputState)
      → IsOutput s
      → at j (apply_triggers u s) ≡ (
          if (leb 10 j && ltb j 21) && flag u 0 2
          then get_or u j 0
          else if leb 21 j && flag u 0 3
          then get_or u j 0
          else at j s)
  unfolding apply_triggers copy_state_bytes
  triggers-at s h =
      let inside : j < length s.state = ground (arith, away, h.sized) in
      let right = copy_bytes 10 11 u s.state in
      let sized : length right ≡ 63 = length-copy_bytes 10 11 u s.state ∙ h.sized in
      ground (
        arith,
        away,
        get_or-copy_bytes 10 11 u s.state j inside,
        get_or-copy_bytes 21 11 u s.state j inside,
        get_or-copy_bytes 21 11 u right j (ground (arith, away, sized)),
      )

  update-at :
      (s : OutputState)
      → IsOutput s
      → at j (apply_update u s) ≡ (
          if ltb j 4 && (flag u 0 1 || flag u 0 0)
          then get_or u j 0
          else if (leb 10 j && ltb j 21) && flag u 0 2
          then get_or u j 0
          else if leb 21 j && flag u 0 3
          then get_or u j 0
          else at j s)
  unfolding apply_update
  update-at s h =
      let a = apply_rumble u s in
      let b = apply_headphone_volume u a in
      let c = apply_speaker_volume u b in
      let d = apply_mic_volume u c in
      let e = apply_audio_control u d in
      let f = apply_audio_control2 u e in
      let g = apply_audio_mute u f in
      let k = apply_speaker_route u g in
      let l = apply_mute_light u k in
      let m = apply_triggers u l in
      let n = apply_brightness u m in
      let sized = mute_light-IsOutput u k (
        route-IsOutput u g (
          mute-IsOutput u f (
            control2-IsOutput u e (
              control-IsOutput u d (
                mic_volume-IsOutput u c
                  (speaker-IsOutput u b (headphone-IsOutput u a (rumble-IsOutput u s h)))))))) in
      let same : at j l ≡ at j a =
        mute_light-away k
        ∙ route-away g
        ∙ mute-away f
        ∙ control2-away e
        ∙ control-away d
        ∙ mic-away c
        ∙ speaker-away b
        ∙ headphone-away a in
      let late : at j (apply_scaled_lights u (apply_lights u n)) ≡ at j m =
        scaled-away (apply_lights u n) ∙ lights-away n ∙ brightness-away m in
      ground (arith, away, late, same, triggers-at l sized, rumble-at s h)

-- A report of the host with the report id 2 and 47 bytes or more behind it, to a state of 63 bytes:
-- it is applied, and the bytes 2 and 3 (the motors) are those of the report where one of its flags 0
-- and 1 is set, the bytes 10 to 20 (the right trigger) where its flag 2 is set, and the bytes 21 to
-- 31 (the left trigger) where its flag 3 is set; otherwise they are as before. The flags are bits of
-- the first byte behind the id.
pub apply_usb_output_report-actuators :
    (body : Bytes) (s : OutputState) (j : ℕ)
    → IsOutput s
    → 47 ≤ length body
    → IsActuator j
    → ((apply_usb_output_report (0x02 ∷ body) s).1 ≡ true)
      × (at j (apply_usb_output_report (0x02 ∷ body) s).0 ≡ (
          if ltb j 4 && (flag body 0 1 || flag body 0 0)
          then get_or body j 0
          else if (leb 10 j && ltb j 21) && flag body 0 2
          then get_or body j 0
          else if leb 21 j && flag body 0 3
          then get_or body j 0
          else at j s))
unfolding apply_usb_output_report update_of
apply_usb_output_report-actuators body s j h sized away =
    let u = take 47 body in
    let done = update-at u j away s h in
    let byte = get_or-take 47 body j (ground (arith, away)) in
    let first = get_or-take 47 body 0 (omega arith) in
    let f0 = ap (λ (b : ℕ). bit b 0) first in
    let f1 = ap (λ (b : ℕ). bit b 1) first in
    let f2 = ap (λ (b : ℕ). bit b 2) first in
    let f3 = ap (λ (b : ℕ). bit b 3) first in
    (ground (arith, sized), ground (arith, sized, done, byte, f0, f1, f2, f3))

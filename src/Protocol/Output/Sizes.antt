-- ===== src/Protocol/Output/Sizes.antt =====
-- The sizes of the mirrored state and of the reports of src/vds_protocol.cc, and the sequence
-- numbers.
use windows_vds.Prelude.{
  Bool-cases, inl, inr, ℕ, zero, suc, ◌+◌, ◌%◌, ◌<◌, ◌≡◌, refl, ◌∙◌, Bool, true, false, ◌&&◌, ◌||◌,
  not, [], ◌∷◌, List, length, set, take, replicate, get_or, length-append, ◌==◌, Bytes, arith,
}
use windows_vds.Protocol.Bits.{all_below, all_below_sound}
use windows_vds.Protocol.Checksum.{length-take}
use windows_vds.Protocol.Output.{
  OutputState, put, or_at, and_at, copy_bytes, copy_state_bytes, set_state_bit, apply_mic_select,
  when, flag, apply_rumble, apply_headphone_volume, apply_speaker_volume, apply_mic_volume,
  apply_audio_control, apply_audio_control2, apply_audio_mute, apply_speaker_route,
  apply_mute_light, apply_triggers, apply_brightness, apply_lights, apply_scaled_lights,
  apply_update,
}
use windows_vds.Protocol.Output.Reports.{next_sequence, state_frame}

pub length-set {ℓ} : {A : Type ℓ} (xs : List A) (i : ℕ) (v : A) → length (set xs i v) ≡ length xs
length-set [] i v = refl
length-set (x ∷ xs) zero v = refl
length-set (x ∷ xs) (suc i) v = omega (arith, length-set xs i v)

-- The mirrored state has 63 bytes, and both sequence numbers have four bits.
pub record IsOutput (s : OutputState) : Type 0 where
  pub sized : length s.state ≡ 63
  pub report : s.report_sequence < 16
  pub mic : s.mic_sequence < 16

-- A change that touches none of the three.
pub same_state :
    (s t : OutputState)
    → t.state ≡ s.state
    → t.report_sequence ≡ s.report_sequence
    → t.mic_sequence ≡ s.mic_sequence
    → IsOutput s
    → IsOutput t
same_state s t e f g h = record { sized = rw e h.sized; report = rw f h.report; mic = rw g h.mic }

pub put-IsOutput : (i v : ℕ) (s : OutputState) → IsOutput s → IsOutput (put i v s)
unfolding put
put-IsOutput i v s h = record {
  sized = length-set s.state i v ∙ h.sized;
  report = h.report;
  mic = h.mic;
}

pub or_at-IsOutput : (i v : ℕ) (s : OutputState) → IsOutput s → IsOutput (or_at i v s)
unfolding or_at
or_at-IsOutput i v s h = put-IsOutput i _ s h

pub and_at-IsOutput : (i v : ℕ) (s : OutputState) → IsOutput s → IsOutput (and_at i v s)
unfolding and_at
and_at-IsOutput i v s h = put-IsOutput i _ s h

pub length-copy_bytes :
    (offset n : ℕ) (update state : Bytes) → length (copy_bytes offset n update state) ≡ length state
unfolding copy_bytes
length-copy_bytes offset zero update state = refl
length-copy_bytes offset (suc n) update state =
    length-copy_bytes (offset + 1) n update (set state offset (get_or update offset 0))
    ∙ length-set state offset (get_or update offset 0)

pub copy-IsOutput :
    (update : Bytes) (offset n : ℕ) (s : OutputState)
    → IsOutput s
    → IsOutput (copy_state_bytes update offset n s)
unfolding copy_state_bytes
copy-IsOutput update offset n s h = record {
  sized = length-copy_bytes offset n update s.state ∙ h.sized;
  report = h.report;
  mic = h.mic;
}

pub bit-IsOutput :
    (i k : ℕ) (b : Bool) (s : OutputState) → IsOutput s → IsOutput (set_state_bit i k b s)
unfolding set_state_bit
bit-IsOutput i k b s h = put-IsOutput i _ s h

pub when-IsOutput :
    (b : Bool) (f : OutputState → OutputState) (s : OutputState)
    → ((t : OutputState) → IsOutput t → IsOutput (f t))
    → IsOutput s
    → IsOutput (when b f s)
when-IsOutput true f s h k = h s k
when-IsOutput false f s h k = k

pub mic_select-IsOutput : (s : OutputState) → IsOutput s → IsOutput (apply_mic_select s)
unfolding apply_mic_select
mic_select-IsOutput s h =
    put-IsOutput 7 _ _ (or_at-IsOutput 0 0x80 _ (same_state s _ refl refl refl h))

module _ (u : Bytes) where
  pub rumble-IsOutput : (s : OutputState) → IsOutput s → IsOutput (apply_rumble u s)
  unfolding apply_rumble
  rumble-IsOutput s h =
      when-IsOutput _ _ _ (copy-IsOutput u 2 2)
        (bit-IsOutput 38 2 _ _ (bit-IsOutput 0 1 _ _ (bit-IsOutput 0 0 _ s h)))

  pub headphone-IsOutput : (s : OutputState) → IsOutput s → IsOutput (apply_headphone_volume u s)
  unfolding apply_headphone_volume
  headphone-IsOutput s h = elim (Bool-cases (flag u 0 4)) [
    | inl e ↦
        rw e (copy-IsOutput u 4 1 _ (same_state _ _ refl refl refl (or_at-IsOutput 0 0x10 s h)))
    | inr e ↦ rw e h
  ]

  pub speaker-IsOutput : (s : OutputState) → IsOutput s → IsOutput (apply_speaker_volume u s)
  unfolding apply_speaker_volume
  speaker-IsOutput s h = elim (Bool-cases (flag u 0 5)) [
    | inl e ↦
        rw e (copy-IsOutput u 5 1 _ (same_state _ _ refl refl refl (or_at-IsOutput 0 0x20 s h)))
    | inr e ↦ rw e h
  ]

  pub mic_volume-IsOutput : (s : OutputState) → IsOutput s → IsOutput (apply_mic_volume u s)
  unfolding apply_mic_volume
  mic_volume-IsOutput s h = elim (Bool-cases (flag u 0 6)) [
    | inl e ↦ rw e (put-IsOutput 6 _ _ (same_state _ _ refl refl refl (or_at-IsOutput 0 0x40 s h)))
    | inr e ↦ rw e h
  ]

  pub control-IsOutput : (s : OutputState) → IsOutput s → IsOutput (apply_audio_control u s)
  unfolding apply_audio_control
  control-IsOutput s h = elim (Bool-cases (flag u 0 7)) [
    | inl e ↦
        rw e (mic_select-IsOutput _ (same_state _ _ refl refl refl (or_at-IsOutput 0 0x80 s h)))
    | inr e ↦ rw e h
  ]

  pub control2-IsOutput : (s : OutputState) → IsOutput s → IsOutput (apply_audio_control2 u s)
  unfolding apply_audio_control2
  control2-IsOutput s h = elim (Bool-cases (flag u 1 7)) [
    | inl e ↦
        rw e (copy-IsOutput u 37 1 _ (same_state _ _ refl refl refl (or_at-IsOutput 1 0x80 s h)))
    | inr e ↦ rw e h
  ]

  pub mute-IsOutput : (s : OutputState) → IsOutput s → IsOutput (apply_audio_mute u s)
  unfolding apply_audio_mute
  mute-IsOutput s h = elim (Bool-cases (flag u 1 1)) [
    | inl e ↦ rw e (put-IsOutput 9 _ _ (same_state _ _ refl refl refl (or_at-IsOutput 1 0x02 s h)))
    | inr e ↦ rw e h
  ]

  pub route-IsOutput : (s : OutputState) → IsOutput s → IsOutput (apply_speaker_route u s)
  unfolding apply_speaker_route
  route-IsOutput s h = elim (Bool-cases (flag u 0 5 && not (get_or u 5 0 == 0))) [
    | inl e ↦ rw e (
        put-IsOutput 37 _ _
          (put-IsOutput 7 _ _ (or_at-IsOutput 1 0x80 _ (or_at-IsOutput 0 0xa0 s h))))
    | inr e ↦ rw e h
  ]

  pub mute_light-IsOutput : (s : OutputState) → IsOutput s → IsOutput (apply_mute_light u s)
  unfolding apply_mute_light
  mute_light-IsOutput s h = elim (Bool-cases (flag u 1 0)) [
    | inl e ↦ rw e (copy-IsOutput u 8 1 s h)
    | inr e ↦ rw e h
  ]

  triggers-IsOutput : (s : OutputState) → IsOutput s → IsOutput (apply_triggers u s)
  unfolding apply_triggers
  triggers-IsOutput s h =
      when-IsOutput _ _ _ (copy-IsOutput u 21 11) (when-IsOutput _ _ s (copy-IsOutput u 10 11) h)

  brightness-IsOutput : (s : OutputState) → IsOutput s → IsOutput (apply_brightness u s)
  unfolding apply_brightness
  brightness-IsOutput s h =
      let k = when-IsOutput (flag u 38 1) (copy_state_bytes u 41 1) s (copy-IsOutput u 41 1) h in
      elim (Bool-cases (flag u 38 0)) [
        | inl e ↦ rw e (same_state _ _ refl refl refl (copy-IsOutput u 42 1 _ k))
        | inr e ↦ rw e k
      ]

  lights-IsOutput : (s : OutputState) → IsOutput s → IsOutput (apply_lights u s)
  unfolding apply_lights
  lights-IsOutput s h =
      let k = when-IsOutput (flag u 1 4) (copy_state_bytes u 43 1) s (copy-IsOutput u 43 1) h in
      elim (Bool-cases (flag u 1 2)) [
        | inl e ↦ rw e (copy-IsOutput u 44 3 _ (same_state _ _ refl refl refl k))
        | inr e ↦ rw e k
      ]

  scaled-IsOutput : (s : OutputState) → IsOutput s → IsOutput (apply_scaled_lights u s)
  unfolding apply_scaled_lights
  scaled-IsOutput s h =
      elim (Bool-cases (s.emulate_light_brightness && (flag u 38 0 || flag u 1 2))) [
        | inl e ↦ rw e (put-IsOutput 46 _ _ (put-IsOutput 45 _ _ (put-IsOutput 44 _ s h)))
        | inr e ↦ rw e h
      ]

  update-IsOutput : (s : OutputState) → IsOutput s → IsOutput (apply_update u s)
  unfolding apply_update
  update-IsOutput s h =
      let h₁ = headphone-IsOutput _ (rumble-IsOutput s h) in
      let h₂ = mic_volume-IsOutput _ (speaker-IsOutput _ h₁) in
      let h₃ = control2-IsOutput _ (control-IsOutput _ h₂) in
      let h₄ = route-IsOutput _ (mute-IsOutput _ h₃) in
      let h₅ = triggers-IsOutput _ (mute_light-IsOutput _ h₄) in
      scaled-IsOutput _ (lights-IsOutput _ (brightness-IsOutput _ h₅))

-- The sequence numbers count modulo 16.
pub next_sequence-mod : (n : ℕ) → n < 16 → next_sequence n ≡ (n + 1) % 16
unfolding next_sequence
next_sequence-mod n lt =
    let below =
      all_below_sound 16 (λ n. next_sequence n == ((n + 1) % 16)) n
        (unfold all_below next_sequence in refl) lt in
    ground (arith, below)

pub state_frame-length :
    (sequence : ℕ) (state : Bytes) → length state ≡ 63 → length (state_frame sequence state) ≡ 78
unfolding state_frame
state_frame-length sequence state h =
    omega
      (arith, length-append (take 47 state) (replicate 28 0), length-take 47 state (omega arith))

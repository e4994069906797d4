-- ===== src/Protocol/Output.antt =====
-- `DsOutputState` of src/vds_protocol.cc: the state that the daemon mirrors to the controller, and
-- what the USB output reports, the audio streams and the authored effects do to it.
pub mod Reports
pub mod Effects
pub mod Sizes
pub mod Streams
pub mod Places
pub mod Authored
pub mod Routes
pub mod Sent
pub mod Sections
use Prim.Native.Nat.{bit_and, bit_or}
use windows_vds.Prelude.{
  ℕ, zero, suc, ◌+◌, ◌-◌, ◌*◌, ◌/◌, ◌%◌, ◌^◌, Bool, true, false, not, ◌&&◌, ◌||◌, [], ◌∷◌, ◌++◌,
  leb, ◌==◌, if◌then◌else◌, length, get_or, set, take, drop, replicate, Bytes, Option, none, some,
}
use windows_vds.Protocol.Bits.{bit}

abbrev pub set_state_size : ℕ
set_state_size = 47

abbrev pub ds_state_size : ℕ
ds_state_size = 63

-- The members of the class. A three-byte colour is three fields.
pub record OutputState : Type 0 where
  pub state : Bytes
  pub light_red : ℕ
  pub light_green : ℕ
  pub light_blue : ℕ
  pub headphones_volume : ℕ
  pub speaker_volume : ℕ
  pub mic_volume : ℕ
  pub audio_control : ℕ
  pub audio_output_path : ℕ
  pub audio_control2 : ℕ
  pub power_save_control : ℕ
  pub light_brightness : ℕ
  pub emulate_light_brightness : Bool
  pub headset_mic_plugged : Bool
  pub report_sequence : ℕ
  pub mic_sequence : ℕ

-- `kInitialSetStateData`.
abbrev pub initial_set_state_data : Bytes
initial_set_state_data =
    0xfd
    ∷ 0xf7
    ∷ 0
    ∷ 0
    ∷ 0x7f
    ∷ 0x64
    ∷ 0x08
    ∷ 0x09
    ∷ 0
    ∷ 0x0f
    ∷ (replicate 27 0 ++ (0x01 ∷ 0x07 ∷ 0 ∷ 0 ∷ 0x02 ∷ 0x01 ∷ 0 ∷ 0xff ∷ 0xd7 ∷ 0 ∷ []))

unfoldable pub initial_ds_state : Bytes
initial_ds_state = initial_set_state_data ++ replicate 16 0

unfoldable pub initial_output : OutputState
unfolding initial_ds_state
initial_output = record {
  state = initial_ds_state;
  light_red = get_or initial_ds_state 44 0;
  light_green = get_or initial_ds_state 45 0;
  light_blue = get_or initial_ds_state 46 0;
  headphones_volume = get_or initial_ds_state 4 0;
  speaker_volume = get_or initial_ds_state 5 0;
  mic_volume = get_or initial_ds_state 6 0;
  audio_control = bit_and (get_or initial_ds_state 7 0) 0xcf;
  audio_output_path = bit_and (get_or initial_ds_state 7 0) 0x30;
  audio_control2 = get_or initial_ds_state 37 0;
  power_save_control = get_or initial_ds_state 9 0;
  light_brightness = get_or initial_ds_state 42 0;
  emulate_light_brightness = false;
  headset_mic_plugged = false;
  report_sequence = 0;
  mic_sequence = 0;
}

-- `state_[i] = v`, `state_[i] |= mask` and `state_[i] &= mask`.
unfoldable pub put : ℕ → ℕ → OutputState → OutputState
put i v s = record s { state = set s.state i v }

unfoldable pub or_at : ℕ → ℕ → OutputState → OutputState
unfolding put
or_at i mask s = put i (bit_or (get_or s.state i 0) mask) s

unfoldable pub and_at : ℕ → ℕ → OutputState → OutputState
unfolding put
and_at i mask s = put i (bit_and (get_or s.state i 0) mask) s

-- `copy_state_bytes`: the bytes `offset` to `offset + length` of the update.
unfoldable pub copy_bytes : ℕ → ℕ → Bytes → Bytes → Bytes
copy_bytes offset zero update state = state
copy_bytes offset (suc length) update state =
    copy_bytes (offset + 1) length update (set state offset (get_or update offset 0))

unfoldable pub copy_state_bytes : Bytes → ℕ → ℕ → OutputState → OutputState
unfolding copy_bytes
copy_state_bytes update offset length s = record s {
  state = copy_bytes offset length update s.state;
}

unfoldable pub set_state_bit : ℕ → ℕ → Bool → OutputState → OutputState
unfolding put
set_state_bit i k value s =
    put i (bit_or (bit_and (get_or s.state i 0) (0xff - 2 ^ k)) (if value then 2 ^ k else 0)) s

unfoldable pub audio_control_with_output_path : ℕ → ℕ → ℕ
audio_control_with_output_path audio_control output_path =
    bit_or (bit_and audio_control 0xcf) output_path

unfoldable pub scale_light_component : ℕ → ℕ → ℕ
scale_light_component component brightness =
    let scale = if brightness == 1 then 128 else if brightness == 2 then 64 else 255 in
    (component * scale + 127) / 255 % 256

unfoldable pub apply_mic_select : OutputState → OutputState
unfolding put or_at audio_control_with_output_path
apply_mic_select s =
    let control =
      bit_or (bit_and s.audio_control 0xfc) (if s.headset_mic_plugged then 0x00 else 0x01) in
    put 7 (audio_control_with_output_path control s.audio_output_path)
      (or_at 0 0x80 (record s { audio_control = control }))

-- `if (flag) { … }`.
abbrev pub when : Bool → (OutputState → OutputState) → OutputState → OutputState
when flag f s = if flag then f s else s

-- The flags of the decoded update: bit `k` of byte `i`.
abbrev pub flag : Bytes → ℕ → ℕ → Bool
flag update i k = bit (get_or update i 0) k

unfoldable pub apply_rumble : Bytes → OutputState → OutputState
unfolding set_state_bit copy_state_bytes
apply_rumble update s = when (flag update 0 1 || flag update 0 0) (copy_state_bytes update 2 2) (
    set_state_bit 38 2 (flag update 38 2)
      (set_state_bit 0 1 (flag update 0 1) (set_state_bit 0 0 (flag update 0 0) s)))

unfoldable pub apply_headphone_volume : Bytes → OutputState → OutputState
unfolding or_at copy_state_bytes
apply_headphone_volume update s =
    when (flag update 0 4)
      (λ t.
        copy_state_bytes update 4 1
          (record (or_at 0 0x10 t) { headphones_volume = get_or update 4 0 }))
      s

unfoldable pub apply_speaker_volume : Bytes → OutputState → OutputState
unfolding or_at copy_state_bytes
apply_speaker_volume update s =
    when (flag update 0 5)
      (λ t.
        copy_state_bytes update 5 1
          (record (or_at 0 0x20 t) { speaker_volume = get_or update 5 0 }))
      s

unfoldable pub apply_mic_volume : Bytes → OutputState → OutputState
unfolding or_at put
apply_mic_volume update s =
    when (flag update 0 6)
      (λ t. put 6 (get_or update 6 0) (record (or_at 0 0x40 t) { mic_volume = get_or update 6 0 }))
      s

unfoldable pub apply_audio_control : Bytes → OutputState → OutputState
unfolding or_at apply_mic_select
apply_audio_control update s =
    when (flag update 0 7)
      (λ t.
        let requested = get_or update 7 0 in
        let non_path = bit_and requested 0xcf in
        let r = or_at 0 0x80 t in
        apply_mic_select (record r {
          audio_control = if not (non_path == 0) then non_path else r.audio_control;
          audio_output_path = bit_and requested 0x30;
        }))
      s

unfoldable pub apply_audio_control2 : Bytes → OutputState → OutputState
unfolding or_at copy_state_bytes
apply_audio_control2 update s =
    when (flag update 1 7)
      (λ t.
        copy_state_bytes update 37 1
          (record (or_at 1 0x80 t) { audio_control2 = get_or update 37 0 }))
      s

unfoldable pub apply_audio_mute : Bytes → OutputState → OutputState
unfolding or_at put
apply_audio_mute update s =
    when (flag update 1 1)
      (λ t.
        put 9 (get_or update 9 0)
          (record (or_at 1 0x02 t) { power_save_control = get_or update 9 0 }))
      s

-- A nonzero speaker volume routes the sound to the speaker.
unfoldable pub apply_speaker_route : Bytes → OutputState → OutputState
unfolding or_at put audio_control_with_output_path
apply_speaker_route update s =
    when (flag update 0 5 && not (get_or update 5 0 == 0))
      (λ t. put 37 t.audio_control2 (
        put 7 (audio_control_with_output_path t.audio_control 0x30)
          (or_at 1 0x80 (or_at 0 0xa0 t))))
      s

unfoldable pub apply_mute_light : Bytes → OutputState → OutputState
unfolding copy_state_bytes
apply_mute_light update s = when (flag update 1 0) (copy_state_bytes update 8 1) s

unfoldable pub apply_triggers : Bytes → OutputState → OutputState
unfolding copy_state_bytes
apply_triggers update s =
    when (flag update 0 3) (copy_state_bytes update 21 11)
      (when (flag update 0 2) (copy_state_bytes update 10 11) s)

unfoldable pub apply_brightness : Bytes → OutputState → OutputState
unfolding copy_state_bytes
apply_brightness update s =
    when (flag update 38 0)
      (λ t. record (copy_state_bytes update 42 1 t) {
        light_brightness = get_or update 42 0;
        emulate_light_brightness = true;
      })
      (when (flag update 38 1) (copy_state_bytes update 41 1) s)

unfoldable pub apply_lights : Bytes → OutputState → OutputState
unfolding copy_state_bytes
apply_lights update s =
    when (flag update 1 2)
      (λ t. copy_state_bytes update 44 3 (record t {
        light_red = get_or update 44 0;
        light_green = get_or update 45 0;
        light_blue = get_or update 46 0;
      }))
      (when (flag update 1 4) (copy_state_bytes update 43 1) s)

-- The last block: the colour is dimmed here where the host set a brightness.
unfoldable pub apply_scaled_lights : Bytes → OutputState → OutputState
unfolding put scale_light_component
apply_scaled_lights update s =
    when (s.emulate_light_brightness && (flag update 38 0 || flag update 1 2))
      (λ t. put 46 (scale_light_component t.light_blue t.light_brightness) (
        put 45 (scale_light_component t.light_green t.light_brightness)
          (put 44 (scale_light_component t.light_red t.light_brightness) t)))
      s

unfoldable pub apply_update : Bytes → OutputState → OutputState
apply_update update s =
    let s₁ = apply_headphone_volume update (apply_rumble update s) in
    let s₂ = apply_mic_volume update (apply_speaker_volume update s₁) in
    let s₃ = apply_audio_control2 update (apply_audio_control update s₂) in
    let s₄ = apply_speaker_route update (apply_audio_mute update s₃) in
    let s₅ = apply_triggers update (apply_mute_light update s₄) in
    apply_scaled_lights update (apply_lights update (apply_brightness update s₅))

-- The 47 bytes of a report that is long enough and has the report id, or of a bare update.
unfoldable pub update_of : Bytes → Option Bytes
update_of report =
    if leb (1 + set_state_size) (length report) && get_or report 0 0 == 0x02
    then some (take set_state_size (drop 1 report))
    else if length report == set_state_size
    then some report
    else none

-- The flag is the function's result.
unfoldable pub apply_usb_output_report : Bytes → OutputState → OutputState × Bool
unfolding update_of apply_update
apply_usb_output_report report s = elim (update_of report) [
  | none ↦ (s, false)
  | some update ↦ (apply_update update s, true)
]

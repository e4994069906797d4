-- ===== src/Protocol/Output/Reports.antt =====
-- The Bluetooth reports that `DsOutputState` and `HapticsPacketBuilder` of src/vds_protocol.cc build.
use Prim.Native.Nat.{bit_and, bit_or}
use windows_vds.Prelude.{
  ℕ, ◌+◌, ◌*◌, ◌%◌, Bool, not, ◌&&◌, ◌∷◌, ◌++◌, if◌then◌else◌, take, replicate, get_or, set, Bytes,
  Result, ok, ◌>>=◌,
}
use windows_vds.Protocol.Crc.{fill_output_report_checksum}
use windows_vds.Protocol.Output.{
  OutputState, put, or_at, audio_control_with_output_path, set_state_size, ds_state_size,
}

-- `sequence << 4` in a byte, and the next sequence number.
unfoldable pub sequence_byte : ℕ → ℕ
sequence_byte sequence = sequence * 16 % 256

unfoldable pub next_sequence : ℕ → ℕ
next_sequence sequence = bit_and (sequence + 1) 0x0f

-- A report of `BtStateReport` with its checksum place still 0: header, state, padding.
unfoldable pub state_frame : ℕ → Bytes → Bytes
unfolding sequence_byte
state_frame sequence state =
    0x31 ∷ sequence_byte sequence ∷ 0x10 ∷ (take set_state_size state ++ replicate 28 0)

unfoldable pub build_bt_state_report : OutputState → Result (Bytes × OutputState)
unfolding state_frame next_sequence fill_output_report_checksum
build_bt_state_report s =
    fill_output_report_checksum (state_frame s.report_sequence s.state) >>= λ report.
    ok (report, record s { report_sequence = next_sequence s.report_sequence })

-- The motors go into a copy: the mirrored state is not changed.
unfoldable pub rumble_state : ℕ → ℕ → Bytes → Bytes
rumble_state right_motor left_motor state =
    set (set (set state 0 (bit_or (get_or state 0 0) 0x03)) 2 right_motor) 3 left_motor

unfoldable pub build_bt_rumble_report : ℕ → ℕ → OutputState → Result (Bytes × OutputState)
unfolding rumble_state state_frame next_sequence fill_output_report_checksum
build_bt_rumble_report right_motor left_motor s =
    fill_output_report_checksum
      (state_frame s.report_sequence (rumble_state right_motor left_motor s.state))
    >>= λ report. ok (report, record s { report_sequence = next_sequence s.report_sequence })

unfoldable pub build_bt_init_report : OutputState → Result Bytes
unfolding fill_output_report_checksum
build_bt_init_report s =
    fill_output_report_checksum
      (0x32 ∷ 0x10 ∷ 0x90 ∷ ds_state_size ∷ (take ds_state_size s.state ++ replicate 75 0))

unfoldable pub build_bt_mic_report : Bool → OutputState → Result (Bytes × OutputState)
unfolding sequence_byte next_sequence fill_output_report_checksum
build_bt_mic_report active s =
    fill_output_report_checksum (
      0x32
      ∷ sequence_byte s.mic_sequence
      ∷ 0x91
      ∷ 0x07
      ∷ (if active then 0xff else 0xfe)
      ∷ 64
      ∷ 64
      ∷ 64
      ∷ 64
      ∷ 64
      ∷ s.mic_sequence
      ∷ 0x92
      ∷ 0x40
      ∷ replicate 129 0)
    >>= λ report. ok (report, record s { mic_sequence = next_sequence s.mic_sequence })

-- The power-save byte: the mute bit is cleared for an open microphone, and set otherwise.
unfoldable pub mic_power_save : Bool → Bool → OutputState → ℕ
mic_power_save active muted s =
    if active && not muted
    then bit_and s.power_save_control 0xef
    else bit_or s.power_save_control 0x10

-- The changes of the mirrored state in `build_bt_mic_state_report`.
unfoldable pub mic_state : Bool → Bool → OutputState → OutputState
unfolding put or_at audio_control_with_output_path mic_power_save
mic_state active muted s = put 9 (mic_power_save active muted s) (
    put 8 (if muted then 1 else 0) (
      put 37 s.audio_control2 (
        put 7 (audio_control_with_output_path s.audio_control s.audio_output_path) (
          put 6 (if active && not muted then s.mic_volume else 0)
            (or_at 1 0x83 (or_at 0 0xc0 s))))))

-- The report itself: only the microphone's sections are enabled in it.
unfoldable pub mic_state_frame : Bool → Bool → OutputState → Bytes
unfolding sequence_byte audio_control_with_output_path mic_power_save
mic_state_frame active muted s =
    0x31
    ∷ sequence_byte s.report_sequence
    ∷ 0x10
    ∷ 0xc0
    ∷ 0x83
    ∷ 0
    ∷ 0
    ∷ 0
    ∷ 0
    ∷ (if active && not muted then s.mic_volume else 0)
    ∷ audio_control_with_output_path s.audio_control s.audio_output_path
    ∷ (if muted then 1 else 0)
    ∷ mic_power_save active muted s
    ∷ (replicate 27 0 ++ s.audio_control2 ∷ replicate 37 0)

unfoldable pub build_bt_mic_state_report : Bool → Bool → OutputState → Result (Bytes × OutputState)
unfolding mic_state mic_state_frame next_sequence fill_output_report_checksum
build_bt_mic_state_report active muted s =
    fill_output_report_checksum (mic_state_frame active muted s) >>= λ report.
    let t = mic_state active muted s in
    ok (report, record t { report_sequence = next_sequence t.report_sequence })

-- `HapticsPacketBuilder`: the second counter is a byte that wraps.
pub record PacketBuilder : Type 0 where
  pub report_sequence : ℕ
  pub packet_sequence : ℕ

-- The packet of 398 bytes with its checksum place still 0. The haptic samples are the bytes of
-- signed numbers.
unfoldable pub haptics_frame : Bytes → Bytes → Bytes → Bool → Bool → PacketBuilder → Bytes
unfolding sequence_byte
haptics_frame haptics speaker state audio_sections_enabled headset_plugged b =
    0x36
    ∷ sequence_byte b.report_sequence
    ∷ 0x91
    ∷ 7
    ∷ (if audio_sections_enabled then 0xff else 0xfe)
    ∷ 64
    ∷ 64
    ∷ 64
    ∷ 64
    ∷ 64
    ∷ b.packet_sequence
    ∷ 0x90
    ∷ ds_state_size
    ∷ (state
        ++ (0x92
            ∷ 64
            ∷ (haptics
                ++ ((if headset_plugged then 0x96 else 0x93) ∷ 200 ∷ (speaker ++ replicate 54 0)))))

unfoldable pub build_packet :
    Bytes → Bytes → Bytes → Bool → Bool → PacketBuilder → Result (Bytes × PacketBuilder)
unfolding haptics_frame next_sequence fill_output_report_checksum
build_packet haptics speaker state audio_sections_enabled headset_plugged b =
    fill_output_report_checksum
      (haptics_frame haptics speaker state audio_sections_enabled headset_plugged b)
    >>= λ packet. ok (
      packet,
      record {
        report_sequence = next_sequence b.report_sequence;
        packet_sequence = (b.packet_sequence + 1) % 256;
      },
    )

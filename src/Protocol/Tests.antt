-- ===== src/Protocol/Tests.antt =====
-- The theorems on the protocol at concrete inputs.
use windows_vds.Protocol.Output.Sections.{apply_usb_output_report-actuators}
use windows_vds.Protocol.Bits.{bit}
use windows_vds.Protocol.Output.Sent.{
  IsSent, build_bt_state_report-IsSent, build_bt_rumble_report-IsSent,
}
use windows_vds.Protocol.Output.Routes.{IsRouted}
use windows_vds.Protocol.Output.Routes.Routed.{set_audio_out_stream_active-IsRouted}
use windows_vds.Protocol.Output.Authored.{IsAuthored}
use windows_vds.Protocol.Output.Authored.Written.{apply_authored_effects-IsAuthored}
use windows_vds.Protocol.Output.Effects.{
  set_audio_out_stream_active, AuthoredEffects, apply_authored_effects,
}
use Prim.Native.Nat.{bit_or}
use windows_vds.Prelude.{
  inr, ◌<◌, drop, ◌≡◌, refl, true, ◌∷◌, Bytes, codes, some, ok, arith, length, replicate, take,
  Ensures, get_or, none, false, ◌+◌, ◌%◌,
}
use windows_vds.Protocol.Crc.{
  output_crc32, feature_crc32, fill_output_report_checksum, fill_feature_report_checksum,
}
use windows_vds.Protocol.Checksum.{
  Sealed, word_of, fill_output_report_checksum-Sealed, fill_feature_report_checksum-Sealed,
}
use windows_vds.Protocol.Packets.{frame_bytes}
use windows_vds.Protocol.Framing.{frame_bytes-read}
use windows_vds.Protocol.Triggers.{trigger_effect_feedback}
use windows_vds.Protocol.Triggers.Spec.{parse_trigger_effect_spec}
use windows_vds.Protocol.Zones.{Zones, trigger_effect_feedback-Zones}
use windows_vds.Protocol.Effects.{IsEffect, parse_trigger_effect_spec-IsEffect}
use windows_vds.Protocol.Output.{initial_output, initial_ds_state, apply_usb_output_report}
use windows_vds.Protocol.Output.Reports.{
  build_bt_state_report, build_bt_rumble_report, PacketBuilder,
}
use windows_vds.Protocol.Output.Sizes.{IsOutput}

abbrev report : Bytes
report = 0xa2 ∷ 0x31 ∷ replicate 8 7

fill_output_report_checksum-Sealed_example :
    (filled : Bytes) × (fill_output_report_checksum report ≡ ok filled)
    × Sealed output_crc32 report filled
fill_output_report_checksum-Sealed_example = fill_output_report_checksum-Sealed report (omega arith)

fill_feature_report_checksum-Sealed_example :
    (filled : Bytes) × (fill_feature_report_checksum report ≡ ok filled)
    × Sealed feature_crc32 report filled
fill_feature_report_checksum-Sealed_example =
    fill_feature_report_checksum-Sealed report (omega arith)

frame_bytes-read_example :
    (frame : Bytes) × (frame_bytes 300 report ≡ ok frame)
    × (word_of (take 2 frame) ≡ 300)
    × (word_of (take 4 (drop 4 frame)) ≡ length report)
    × (drop 16 frame ≡ report)
frame_bytes-read_example = frame_bytes-read 300 report (omega arith) (omega arith)

trigger_effect_feedback-Zones_example :
    (effect : Bytes) × (trigger_effect_feedback 4 6 ≡ ok effect)
    × (get_or effect 0 0 ≡ 0x21)
    × Zones effect 4 6 9
trigger_effect_feedback-Zones_example =
    trigger_effect_feedback-Zones 4 6 9 (omega arith) (omega arith) (omega arith) (omega arith)

parse_trigger_effect_spec-IsEffect_example :
    Ensures IsEffect (parse_trigger_effect_spec (codes "weapon:2,5,8"))
parse_trigger_effect_spec-IsEffect_example =
    parse_trigger_effect_spec-IsEffect (codes "weapon:2,5,8")

initial-IsOutput : IsOutput initial_output
unfolding initial_output
initial-IsOutput = record { sized = refl; report = omega arith; mic = omega arith }

abbrev host_body : Bytes
host_body = 0xff ∷ 0x17 ∷ replicate 45 3

apply_usb_output_report-actuators_example :
    ((apply_usb_output_report (0x02 ∷ host_body) initial_output).1 ≡ true)
    × (get_or (apply_usb_output_report (0x02 ∷ host_body) initial_output).0.state 12 0 ≡ 3)
unfolding bit
apply_usb_output_report-actuators_example =
    apply_usb_output_report-actuators host_body initial_output 12 initial-IsOutput (omega arith)
      (inr (omega arith))

build_bt_state_report-IsSent_example :
    (report : Bytes) × (build_bt_state_report initial_output
      ≡ ok (
        report,
        record initial_output { report_sequence = (initial_output.report_sequence + 1) % 16 },
      ))
    × IsSent initial_output.report_sequence (take 47 initial_output.state) report
build_bt_state_report-IsSent_example = build_bt_state_report-IsSent initial_output initial-IsOutput

build_bt_rumble_report-IsSent_example :
    (report : Bytes) × (build_bt_rumble_report 10 20 initial_output
      ≡ ok (
        report,
        record initial_output { report_sequence = (initial_output.report_sequence + 1) % 16 },
      ))
    × IsSent initial_output.report_sequence
        (bit_or (get_or initial_output.state 0 0) 0x03
          ∷ get_or initial_output.state 1 0
          ∷ 10
          ∷ 20
          ∷ take 43 (drop 4 initial_output.state))
        report
build_bt_rumble_report-IsSent_example =
    build_bt_rumble_report-IsSent 10 20 initial_output initial-IsOutput

initial-bytes :
    (get_or initial_output.state 0 0 < 256)
    × (get_or initial_output.state 1 0 < 256)
    × (initial_output.audio_control < 256)
unfolding initial_output initial_ds_state
initial-bytes = (omega arith, omega arith, omega arith)

set_audio_out_stream_active-IsRouted_example :
    IsRouted true false initial_output (set_audio_out_stream_active true false initial_output) 4 36
set_audio_out_stream_active-IsRouted_example =
    set_audio_out_stream_active-IsRouted true false initial_output 4 36 initial-IsOutput
      initial-bytes.0 initial-bytes.1 initial-bytes.2 (omega arith) (omega arith)

abbrev effects : AuthoredEffects
effects = record {
  left_trigger = none;
  right_trigger = some (0x05 ∷ replicate 10 0);
  led_color = some (record { red = 1; green = 2; blue = 3 });
  player_lights = none;
  mute_light = some 2;
  force = false;
}

apply_authored_effects-IsAuthored_example :
    IsAuthored effects initial_output (apply_authored_effects effects initial_output) 3 50
apply_authored_effects-IsAuthored_example =
    apply_authored_effects-IsAuthored effects initial_output 3 50 initial-IsOutput tt refl
      initial-bytes.0 initial-bytes.1 (omega arith) (omega arith)

abbrev builder : PacketBuilder
builder = record { report_sequence = 15; packet_sequence = 255 }

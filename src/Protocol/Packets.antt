-- ===== src/Protocol/Packets.antt =====
-- Packets of the Bluetooth HID channels and frames of the driver, as in src/vds_protocol.cc.
use Prim.Native.Nat.{bit_and}
use windows_vds.Prelude.{
  ℕ, ◌+◌, ◌/◌, ◌%◌, Bool, true, false, not, ◌||◌, [], ◌∷◌, ◌++◌, ltb, leb, ◌==◌, if◌then◌else◌,
  length, take, drop, get_or, Bytes, codes, Option, none, some, Result, ok, err, ◌>>=◌,
}
use windows_vds.Protocol.Bits.{le_bytes}
use windows_vds.Protocol.Crc.{fill_feature_report_checksum}

pub data BtInputPayloadType : Type 0 where
  unknown control audio : BtInputPayloadType

abbrev pub mic_opus_size : ℕ
mic_opus_size = 71

-- `kBtInputMinimumSize`: the payload of 63 bytes behind the prefix, the report id and the header.
abbrev pub bt_input_minimum_size : ℕ
bt_input_minimum_size = 66

unfoldable pub hidp_output_packet : Bytes → Bytes
hidp_output_packet report = 0xa2 ∷ report

unfoldable pub feature_get_packet : ℕ → Bytes
feature_get_packet report_id = 0x43 ∷ report_id ∷ []

-- The checksum is put only into a report that has room for it.
unfoldable pub feature_set_packet : Bytes → Result Bytes
feature_set_packet [] = ok []
feature_set_packet (r ∷ report) =
    if leb 4 (length (r ∷ report))
    then (fill_feature_report_checksum (r ∷ report) >>= λ checked. ok (0x53 ∷ checked))
    else ok (0x53 ∷ r ∷ report)

-- The `switch` on the low four bits of the header.
unfoldable pub payload_type_of : ℕ → BtInputPayloadType
payload_type_of header =
    let kind = bit_and header 0x0f in
    if kind == 0x01 then control else if kind == 0x02 then audio else unknown

unfoldable pub bt_input_payload_type : Bytes → BtInputPayloadType
unfolding payload_type_of
bt_input_payload_type packet =
    if leb (length packet) 2 || not (get_or packet 0 0 == 0xa1) || not (get_or packet 1 0 == 0x31)
    then unknown
    else payload_type_of (get_or packet 2 0)

unfoldable pub is_control : BtInputPayloadType → Bool
is_control control = true
is_control _ = false

unfoldable pub is_audio : BtInputPayloadType → Bool
is_audio audio = true
is_audio _ = false

unfoldable pub bt_input_to_usb_input : Bytes → Option Bytes
unfolding is_control
bt_input_to_usb_input packet =
    if ltb (length packet) bt_input_minimum_size
      || not (get_or packet 0 0 == 0xa1)
      || not (get_or packet 1 0 == 0x31)
      || not (is_control (bt_input_payload_type packet))
    then none
    else some (0x01 ∷ take 63 (drop 3 packet))

unfoldable pub bt_mic_opus_payload : Bytes → Option Bytes
unfolding is_audio
bt_mic_opus_payload packet =
    if not (is_audio (bt_input_payload_type packet)) || ltb (length packet) (4 + mic_opus_size)
    then none
    else some (take mic_opus_size (drop 4 packet))

unfoldable pub bt_feature_to_usb_feature_reply : Bytes → Option Bytes
bt_feature_to_usb_feature_reply packet =
    if ltb (length packet) 2 || not (get_or packet 0 0 == 0xa3) then none else some (drop 1 packet)

abbrev pub frame_max_payload : ℕ
frame_max_payload = 4096

-- `vds_frame_header` of include/uapi/vds.h: type, flags, length and sequence, packed.
unfoldable pub frame_header : ℕ → ℕ → Bytes
unfolding le_bytes
frame_header type length =
    type % 256
    ∷ type / 256 % 256
    ∷ 0
    ∷ 0
    ∷ (le_bytes length ++ (0 ∷ 0 ∷ 0 ∷ 0 ∷ 0 ∷ 0 ∷ 0 ∷ 0 ∷ []))

unfoldable pub frame_bytes : ℕ → Bytes → Result Bytes
frame_bytes type payload =
    if ltb frame_max_payload (length payload)
    then err (codes "frame payload exceeds VDS_FRAME_MAX_PAYLOAD")
    else ok (frame_header type (length payload) ++ payload)

unfoldable pub frame_type_name : ℕ → Bytes
frame_type_name type =
    if type == 0
    then codes "STATUS"
    else if type == 1
    then codes "USB_HID_OUT"
    else if type == 2
    then codes "USB_FEATURE_GET"
    else if type == 3
    then codes "USB_FEATURE_SET"
    else if type == 4
    then codes "USB_AUDIO_OUT"
    else if type == 10
    then codes "USB_AUDIO_IN"
    else if type == 5
    then codes "USB_HID_IN"
    else if type == 6
    then codes "USB_FEATURE_REPLY"
    else if type == 7
    then codes "USB_INTERFACE"
    else if type == 8
    then codes "BT_CONTROL_PACKET"
    else if type == 9
    then codes "BT_INTERRUPT_PACKET"
    else codes "UNKNOWN"

-- ===== src/Hcd/Writes.antt =====
-- Frames from user space, in module/vds_hcd_core.c.
pub mod Errors
use windows_vds.Prelude.{
  ℕ, Bool, not, ◌||◌, ◌&&◌, List, [], ◌∷◌, ◌++◌, ◌-◌, ◌+◌, ltb, ◌==◌, if◌then◌else◌, Bytes, length,
  take, get_or,
}
use windows_vds.Hcd.Types.{
  success, einval, enomem, efault, eshutdown, hid_packet_size, vds_frame_max_payload, UrbContext,
  AudioPacket,
}
use windows_vds.Hcd.Usb.{update_feature_reply, copy_to_urb}
use windows_vds.Hcd.Device.{VdsHcdDev, queue_urb_giveback}
use windows_vds.Hcd.Iso.{available, audio_in_queue_max_bytes}
use windows_vds.Hcd.Giveback.{complete_hid_in}

-- The newest report takes the place of the last one that is queued.
unfoldable pub replace_last : List Bytes → Bytes → List Bytes
replace_last [] payload = []
replace_last (packet ∷ packets) payload = elim packets [
  | [] ↦ payload ∷ []
  | _ ∷ _ ↦ packet ∷ replace_last packets payload
]

unfoldable pub queue_input_packet : VdsHcdDev → Bool → Bytes → VdsHcdDev × ℕ
queue_input_packet dev memory payload = elim dev.input_packets [
  | _ ∷ _ ↦ (record dev { input_packets = replace_last dev.input_packets payload }, success)
  | [] ↦
      (if not memory then (dev, enomem) else (
        record dev {
          input_packets = payload ∷ [];
          input_packet_count = dev.input_packet_count + 1;
        },
        success,
      ))
]

unfoldable pub take_input : VdsHcdDev → Bool → Bytes → ℕ → VdsHcdDev × ℕ
take_input dev memory payload now = elim dev.hid_in_urbs [
  | [] ↦ queue_input_packet dev memory payload
  | pending ∷ _ ↦ (complete_hid_in dev pending payload now, success)
]

unfoldable pub count_frame : VdsHcdDev × ℕ → VdsHcdDev × ℕ
count_frame (dev, status) =
    if status == success
    then (record dev { frames_from_user = dev.frames_from_user + 1 }, status)
    else (dev, status)

unfoldable pub write_input_frame : VdsHcdDev → Bool → Bytes → ℕ → VdsHcdDev × ℕ
write_input_frame dev memory payload now =
    if (length payload == 0) || ltb hid_packet_size (length payload)
    then (dev, einval)
    else (if dev.stopping
        then (dev, eshutdown)
        else count_frame (take_input dev memory payload now))

-- The URBs that wait for this report, each filled and given back with its own status.
unfoldable pub complete_feature_replies : VdsHcdDev → Bytes → List UrbContext → VdsHcdDev
complete_feature_replies dev payload [] = dev
complete_feature_replies dev payload (c ∷ contexts) =
    let filled = copy_to_urb c.urb payload in
    complete_feature_replies
      (if c.feature_report_id == get_or payload 0 0
        then queue_urb_giveback dev (record c { urb = filled.0 }) filled.1
        else dev)
      payload contexts

unfoldable pub write_feature_reply : VdsHcdDev → Bytes → VdsHcdDev × ℕ
write_feature_reply dev payload =
    let updated = update_feature_reply dev.usb payload in
    let cached = record dev { usb = updated.0 } in
    if not (updated.1 == success)
    then (cached, updated.1)
    else (if dev.stopping
        then (cached, eshutdown)
        else count_frame (complete_feature_replies cached payload cached.feature_get_urbs, success))

-- The oldest packets go while the queue has no room for the new one.
unfoldable pub drop_oldest : VdsHcdDev → ℕ → List AudioPacket → VdsHcdDev
drop_oldest dev len [] = record dev { audio_in_packets = [] }
drop_oldest dev len (oldest ∷ packets) =
    let rest =
      drop_oldest
        (record dev {
          audio_in_packet_count = dev.audio_in_packet_count - 1;
          audio_in_queued_bytes = dev.audio_in_queued_bytes - available oldest;
        })
        len packets in
    if ltb audio_in_queue_max_bytes (dev.audio_in_queued_bytes + len)
    then rest
    else record dev { audio_in_packets = oldest ∷ packets }

unfoldable pub push_audio : VdsHcdDev → Bytes → VdsHcdDev
push_audio dev payload = record dev {
  audio_in_packets = dev.audio_in_packets ++ record { offset = 0; payload = payload } ∷ [];
  audio_in_packet_count = dev.audio_in_packet_count + 1;
  audio_in_queued_bytes = dev.audio_in_queued_bytes + length payload;
  frames_from_user = dev.frames_from_user + 1;
}

unfoldable pub write_audio_in_frame : VdsHcdDev → Bool → Bytes → VdsHcdDev × ℕ
write_audio_in_frame dev memory payload =
    if length payload == 0
    then (dev, einval)
    else (if not memory
        then (dev, enomem)
        else (if dev.stopping then (dev, eshutdown) else (
          push_audio (drop_oldest dev (length payload) dev.audio_in_packets) payload,
          success,
        )))

-- The arguments of write: the size, whether the header can be read, its fields, the status of the
-- copy of the rest, and the bytes behind the header.
pub record WriteRequest : Type 0 where
  pub count : ℕ
  pub header_copied : Bool
  pub type : ℕ
  pub flags : ℕ
  pub length : ℕ
  pub payload_status : ℕ
  pub payload : Bytes

-- USB_HID_IN, USB_FEATURE_REPLY and USB_AUDIO_IN.
unfoldable pub write_frame : VdsHcdDev → Bool → ℕ → Bytes → ℕ → VdsHcdDev × ℕ
write_frame dev memory type payload now =
    if type == 5
    then write_input_frame dev memory payload now
    else (if type == 6
        then write_feature_reply dev payload
        else write_audio_in_frame dev memory payload)

unfoldable pub write_error : Bool → WriteRequest → ℕ
write_error stopped r =
    if ltb r.count 16
    then einval
    else (if stopped
        then eshutdown
        else (if not r.header_copied
            then efault
            else (if ltb vds_frame_max_payload r.length || not (r.count == 16 + r.length)
                then einval
                else (if not (r.flags == 0)
                    then einval
                    else (if not (r.type == 5) && (not (r.type == 6) && not (r.type == 10))
                        then einval
                        else (if not (r.length == 0) then r.payload_status else success))))))

-- A write that succeeds returns its size. `stopped` is what vds_is_stopping answered before the header
-- was copied; the handlers read the flag again, under the lock.
unfoldable pub vds_write : VdsHcdDev → Bool → Bool → WriteRequest → ℕ → VdsHcdDev × ℕ
vds_write dev memory stopped r now =
    let error = write_error stopped r in
    if error == success
    then write_frame dev memory r.type (take r.length r.payload) now
    else (dev, error)

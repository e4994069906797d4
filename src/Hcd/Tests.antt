-- ===== src/Hcd/Tests.antt =====
-- The kernel module at concrete inputs: a URB for an input report, one for speaker data, and the
-- microphone queue.
use windows_vds.Prelude.{
  ℕ, ◌≡◌, ◌≢◌, ◌+◌, ◌-◌, ◌≤◌, ◌⊎◌, true, false, arith, List, [], ◌∷◌, ◌++◌, refl, length, take,
  drop, replicate, none, some,
}
use windows_vds.Hcd.Types.{
  Urb, UrbContext, UsbCtrlrequest, UsbIsoPacketDescriptor, AudioPacket, success, control_pipe,
  interrupt_pipe, isochronous_pipe, pending_giveback,
}
use windows_vds.Hcd.Device.{VdsHcdDev}
use windows_vds.Hcd.Usb.{usb_device_init, update_feature_reply}
use windows_vds.Hcd.Iso.{fill_audio_in, iso_out_urb}
use windows_vds.Hcd.Giveback.{is_due}
use windows_vds.Hcd.Usb.Control.{UsbCall}
use windows_vds.Hcd.Usb.Standard.{usb_device_control_urb}
use windows_vds.Hcd.Urbs.{UrbCall, vds_usb_ops, new_context, find_context, urb_link}
use windows_vds.Hcd.Writes.{
  WriteRequest, vds_write, write_audio_in_frame, write_error, write_frame, write_feature_reply,
}
use windows_vds.Hcd.Port.{
  hcd_probe, ioc_connect, hcd_start, vds_ioctl, ioctl_command, set_connection, connect,
}
use windows_vds.Hcd.Calls.{
  HcdCall, call_start, call_ioctl, call_write, call_urb_link, call_urb_rest, call_urb_dequeue,
  hcd_initial, IsUnraced, call_giveback, hcd_run, accepted, is_raced, hcd_call, link_urb, dev_call,
}
use windows_vds.Hcd.Urbs.Held.{held}
use windows_vds.Hcd.Urbs.Returned.{given_again}
use windows_vds.Hcd.Calls.Ledger.{places, times, hcd_run-held}
use windows_vds.Hcd.Calls.Invariant.{IsHcd, hcd_run-IsHcd}
use windows_vds.Hcd.Iso.Microphone.{stream}
use windows_vds.Hcd.Iso.AudioQueue.{
  IsAudio, IsWritten, fill_audio_in-stream, write_audio_in_frame-stream,
}
use windows_vds.Hcd.Iso.Chunks.{payloads, fitting_bytes}
use windows_vds.Hcd.Iso.Speaker.{iso_out_urb-payloads}
use windows_vds.Hcd.Giveback.Liveness.{giveback_rounds, given_ids, urb_ids, giveback_rounds-drained}
use windows_vds.Hcd.Usb.Transfers.{IsTransfer, usb_device_control_urb-IsTransfer}
use windows_vds.Hcd.Writes.Errors.{IsUntouched, vds_write-refused}

abbrev test_urb : Urb
test_urb = record {
  id = 7;
  pipe_type = interrupt_pipe;
  endpoint = 4;
  dir_in = true;
  setup_packet = none;
  transfer_buffer = some (0 ∷ 0 ∷ 0 ∷ 0 ∷ []);
  transfer_buffer_length = 4;
  actual_length = 0;
  error_count = 0;
  start_frame = 0;
  iso_frame_desc = [];
}

abbrev test_write : WriteRequest
test_write = record {
  count = 18;
  header_copied = true;
  type = 5;
  flags = 0;
  length = 2;
  payload_status = 0;
  payload = 1 ∷ 128 ∷ [];
}

-- The host polls, then the report arrives, then the thread runs.
abbrev test_calls : List HcdCall
test_calls =
    call_start
    ∷ call_ioctl [] ioc_connect
    ∷ call_urb_link true 0 test_urb
    ∷ call_urb_dequeue 0 8 104
    ∷ call_urb_rest true 7 5000
    ∷ call_write true false test_write 6000
    ∷ call_giveback (λ _. true) 1000000000
    ∷ []

test_calls-IsUnraced : IsUnraced hcd_initial test_calls
unfolding is_raced hcd_call find_context link_urb urb_link new_context dev_call hcd_start vds_ioctl
    ioctl_command hcd_probe set_connection connect
test_calls-IsUnraced = (refl, (refl, (refl, (refl, (refl, (refl, (refl, tt)))))))

hcd_run-held_example :
    (places 7 (hcd_run hcd_initial test_calls) ≡ times 7 (accepted hcd_initial test_calls))
    × (held 7 (given_again (hcd_run hcd_initial test_calls).dev 7 104)
        ≡ held 7 (hcd_run hcd_initial test_calls).dev)
hcd_run-held_example = hcd_run-held 7 7 104 test_calls test_calls-IsUnraced

hcd_run-IsHcd_example : IsHcd (hcd_run hcd_initial test_calls)
hcd_run-IsHcd_example = hcd_run-IsHcd test_calls test_calls-IsUnraced

abbrev test_packet : AudioPacket
test_packet = record { offset = 1; payload = 10 ∷ 11 ∷ 12 ∷ [] }

unfoldable test_audio : VdsHcdDev
test_audio = record hcd_probe {
  audio_in_packets = test_packet ∷ [];
  audio_in_packet_count = 1;
  audio_in_queued_bytes = 2;
}

test_audio-IsAudio : IsAudio test_audio
unfolding test_audio stream
test_audio-IsAudio = record {
  offsets = omega arith;
  counted = refl;
  summed = refl;
  bounded = omega arith;
}

fill_audio_in-stream_example :
    ((fill_audio_in test_audio 3).1
      ≡ take 3 (stream test_audio.audio_in_packets)
        ++ replicate (3 - length (stream test_audio.audio_in_packets)) 0)
    × (stream (fill_audio_in test_audio 3).0.audio_in_packets
        ≡ drop 3 (stream test_audio.audio_in_packets))
    × IsAudio (fill_audio_in test_audio 3).0
fill_audio_in-stream_example = fill_audio_in-stream test_audio 3 test_audio-IsAudio

test_audio-runs : test_audio.stopping ≡ false
unfolding test_audio hcd_probe
test_audio-runs = refl

write_audio_in_frame-stream_example :
    ((write_audio_in_frame test_audio true (20 ∷ 21 ∷ [])).1 ≡ success)
    × IsWritten test_audio (20 ∷ 21 ∷ []) (write_audio_in_frame test_audio true (20 ∷ 21 ∷ [])).0
write_audio_in_frame-stream_example =
    write_audio_in_frame-stream test_audio (20 ∷ 21 ∷ []) test_audio-IsAudio test_audio-runs
      (omega arith) (omega arith)

abbrev desc_at : ℕ → ℕ → UsbIsoPacketDescriptor
desc_at offset length = record { offset = offset; length = length; actual_length = 0; status = 0 }

-- Two neighbours, one outside of the buffer, and one that stands apart.
abbrev test_iso : Urb
test_iso = record test_urb {
  pipe_type = isochronous_pipe;
  endpoint = 1;
  dir_in = false;
  transfer_buffer = some (1 ∷ 2 ∷ 3 ∷ 4 ∷ 5 ∷ 6 ∷ []);
  transfer_buffer_length = 6;
  iso_frame_desc = desc_at 0 2 ∷ desc_at 2 1 ∷ desc_at 5 2 ∷ desc_at 4 2 ∷ [];
}

test_audio-room : test_audio.event_count + 4 ≤ 16384
unfolding test_audio hcd_probe
test_audio-room = omega arith

iso_out_urb-payloads_example :
    payloads (iso_out_urb test_audio (λ _. true) test_iso).0.events
    ≡ payloads test_audio.events
      ++ fitting_bytes test_iso (1 ∷ 2 ∷ 3 ∷ 4 ∷ 5 ∷ 6 ∷ []) test_iso.iso_frame_desc
iso_out_urb-payloads_example =
    iso_out_urb-payloads test_audio (λ _. true) test_iso (1 ∷ 2 ∷ 3 ∷ 4 ∷ 5 ∷ 6 ∷ []) refl
      (λ k. refl) test_audio-runs test_audio-room (omega arith)

unfoldable test_context : ℕ → UrbContext
test_context time = record (new_context test_urb) { state = pending_giveback; ready_time = time }

abbrev test_completed : VdsHcdDev
test_completed = record test_audio { completed_urbs = test_context 0 ∷ test_context 5000 ∷ [] }

test_context-due : (is_due (test_context 0) 9000 ≡ true) × (is_due (test_context 5000) 9000 ≡ true)
unfolding is_due test_context
test_context-due = (refl, refl)

giveback_rounds-drained_example :
    ((giveback_rounds 3 test_completed (λ _ _. true) 9000).completed_urbs ≡ [])
    × (given_ids (giveback_rounds 3 test_completed (λ _ _. true) 9000).given_back
        ≡ given_ids test_completed.given_back ++ urb_ids test_completed.completed_urbs)
giveback_rounds-drained_example =
    giveback_rounds-drained 3 test_completed (λ _ _. true) 9000 (omega arith)
      (test_context-due.0, (test_context-due.1, tt))

-- GET_DESCRIPTOR of the device, with a buffer of four bytes.
abbrev test_setup : UsbCtrlrequest
test_setup = record { request_type = 128; request = 6; value = 256; index = 0; length = 4 }

abbrev test_control : Urb
test_control = record test_urb {
  pipe_type = control_pipe;
  endpoint = 0;
  setup_packet = some test_setup;
}

abbrev test_call : UsbCall UrbCall
test_call = record {
  usb = usb_device_init 1;
  urb = test_control;
  context = record { dev = test_audio; context = new_context test_control };
}

test_control-IsTransfer : IsTransfer test_control
test_control-IsTransfer = record { buffer_length = refl; reported = omega arith }

usb_device_control_urb-IsTransfer_example :
    IsTransfer (usb_device_control_urb (vds_usb_ops true) test_call).0.urb
usb_device_control_urb-IsTransfer_example =
    usb_device_control_urb-IsTransfer (vds_usb_ops true) test_call test_control-IsTransfer

-- The controller stops behind the first check of a feature reply, so the cache changes.
abbrev stopped_write : WriteRequest
stopped_write = record test_write { type = 6 }

abbrev stopped_dev : VdsHcdDev
stopped_dev = record test_audio { stopping = true }

stopped_write-refused : (vds_write stopped_dev true false stopped_write 0).1 ≢ success
unfolding vds_write write_error write_frame write_feature_reply update_feature_reply
stopped_write-refused = ground arith

vds_write-refused_example :
    ((vds_write stopped_dev true false stopped_write 0).0 ≡ stopped_dev)
    ⊎ ((stopped_write.type ≡ 6)
        × IsUntouched stopped_dev
            (take stopped_write.length stopped_write.payload)
            (vds_write stopped_dev true false stopped_write 0))
vds_write-refused_example =
    vds_write-refused stopped_dev true false stopped_write 0 stopped_write-refused

-- ===== src/Hcd/Calls/Inputs.antt =====
-- Frames from user space keep the queues of frames and of microphone audio exact.
use windows_vds.Prelude.{
  ℕ, zero, suc, Bool-cases, ◌≡◌, ◌≤◌, ◌-◌, inl, inr, Bool, true, false, arith, List, [], ◌∷◌,
  length, Bytes, refl, if◌then◌else◌, ◌==◌, get_or, take,
}
use windows_vds.Hcd.Types.{UrbContext, AudioPacket, success}
use windows_vds.Hcd.Usb.{copy_to_urb, update_feature_reply}
use windows_vds.Hcd.Device.{VdsHcdDev, queue_urb_giveback}
use windows_vds.Hcd.Iso.{available}
use windows_vds.Hcd.Iso.AudioQueue.{write_audio_in_frame-IsAudio}
use windows_vds.Hcd.Writes.{
  WriteRequest, vds_write, write_frame, write_error, write_input_frame, take_input,
  queue_input_packet, write_feature_reply, count_frame, complete_feature_replies,
  write_audio_in_frame, push_audio, drop_oldest,
}
use windows_vds.Hcd.Calls.Settled.{
  IsSettled, SameFrames, SameFrames-IsSettled, queue-IsSettled, complete_hid_in-IsSettled,
}

take_input-IsSettled :
    (dev : VdsHcdDev) (memory : Bool) (payload : Bytes) (now : ℕ) (urbs : List UrbContext)
    → dev.hid_in_urbs ≡ urbs
    → IsSettled dev
    → IsSettled (take_input dev memory payload now).0
unfolding take_input queue_input_packet
take_input-IsSettled dev memory payload now [] e h =
    let same : SameFrames dev (take_input dev memory payload now).0 = ground (arith, e) in
    SameFrames-IsSettled dev (take_input dev memory payload now).0 same h
take_input-IsSettled dev memory payload now (c ∷ urbs) e h =
    ground (arith, e, complete_hid_in-IsSettled dev c payload now h)

count_frame-IsSettled :
    (dev : VdsHcdDev) (status : ℕ) → IsSettled dev → IsSettled (count_frame (dev, status)).0
unfolding count_frame
count_frame-IsSettled dev status h = SameFrames-IsSettled dev _ (ground arith) h

write_input_frame-IsSettled :
    (dev : VdsHcdDev) (memory : Bool) (payload : Bytes) (now : ℕ)
    → IsSettled dev
    → IsSettled (write_input_frame dev memory payload now).0
unfolding write_input_frame
write_input_frame-IsSettled dev memory payload now h =
    let taken = take_input dev memory payload now in
    ground (
      arith,
      h,
      count_frame-IsSettled taken.0 taken.1
          (take_input-IsSettled dev memory payload now dev.hid_in_urbs refl h),
    )

complete_feature_replies-IsSettled :
    (dev : VdsHcdDev) (payload : Bytes) (contexts : List UrbContext)
    → IsSettled dev
    → IsSettled (complete_feature_replies dev payload contexts)
unfolding complete_feature_replies
complete_feature_replies-IsSettled dev payload [] h = h
complete_feature_replies-IsSettled dev payload (c ∷ contexts) h =
    let filled = copy_to_urb c.urb payload in
    let back = queue_urb_giveback dev (record c { urb = filled.0 }) filled.1 in
    elim (c.feature_report_id == get_or payload 0 0)
      as (λ b. IsSettled (complete_feature_replies (if b then back else dev) payload contexts)) [
        | true ↦
            complete_feature_replies-IsSettled back payload contexts
              (queue-IsSettled dev (record c { urb = filled.0 }) filled.1 h)
        | false ↦ complete_feature_replies-IsSettled dev payload contexts h
      ]

write_feature_reply-IsSettled :
    (dev : VdsHcdDev) (payload : Bytes)
    → IsSettled dev
    → IsSettled (write_feature_reply dev payload).0
unfolding write_feature_reply
write_feature_reply-IsSettled dev payload h =
    let cached = record dev { usb = (update_feature_reply dev.usb payload).0 } in
    let kept = SameFrames-IsSettled dev cached (ground arith) h in
    let filled = complete_feature_replies cached payload cached.feature_get_urbs in
    ground (
      arith,
      kept,
      count_frame-IsSettled filled success
          (complete_feature_replies-IsSettled cached payload cached.feature_get_urbs kept),
    )

-- What a write of audio leaves alone.
record SameRest (d e : VdsHcdDev) : Type 0 where
  events : e.events ≡ d.events
  event_count : e.event_count ≡ d.event_count
  next_sequence : e.next_sequence ≡ d.next_sequence
  stopping : e.stopping ≡ d.stopping
  connected : e.status_flags.connected ≡ d.status_flags.connected
  connection : e.port_status.connection ≡ d.port_status.connection

drop_oldest-SameRest :
    (dev : VdsHcdDev) (len : ℕ) (packets : List AudioPacket)
    → SameRest dev (drop_oldest dev len packets)
unfolding drop_oldest
drop_oldest-SameRest dev len [] = ground arith
drop_oldest-SameRest dev len (oldest ∷ packets) =
    let less = record dev {
      audio_in_packet_count = dev.audio_in_packet_count - 1;
      audio_in_queued_bytes = dev.audio_in_queued_bytes - available oldest;
    } in
    let rest = drop_oldest-SameRest less len packets in
    ground (
      arith, rest.events, rest.event_count, rest.next_sequence, rest.stopping, rest.connected,
      rest.connection,
    )

write_audio_in_frame-SameRest :
    (dev : VdsHcdDev) (memory : Bool) (payload : Bytes)
    → SameRest dev (write_audio_in_frame dev memory payload).0
unfolding write_audio_in_frame push_audio
write_audio_in_frame-SameRest dev memory payload =
    let rest = drop_oldest-SameRest dev (length payload) dev.audio_in_packets in
    ground (
      arith, rest.events, rest.event_count, rest.next_sequence, rest.stopping, rest.connected,
      rest.connection,
    )

write_audio_in_frame-IsSettled :
    (dev : VdsHcdDev) (memory : Bool) (payload : Bytes)
    → length payload ≤ 4096
    → IsSettled dev
    → IsSettled (write_audio_in_frame dev memory payload).0
write_audio_in_frame-IsSettled dev memory payload small h =
    let s = write_audio_in_frame-SameRest dev memory payload in
    record {
      audio = write_audio_in_frame-IsAudio dev memory payload h.audio small;
      counted = rw (s.events, s.event_count) h.counted;
      bounded = rw s.event_count h.bounded;
      numbered = rw (s.events, s.next_sequence) h.numbered;
      link = rw (s.stopping, s.connected, s.connection) h.link;
    }

length-take-le : (n : ℕ) (xs : Bytes) → length (take n xs) ≤ n
length-take-le zero xs = omega arith
length-take-le (suc n) [] = omega arith
length-take-le (suc n) (x ∷ xs) = omega (arith, length-take-le n xs)

write_error-small :
    (stopped : Bool) (r : WriteRequest) → write_error stopped r ≡ success → r.length ≤ 4096
unfolding write_error
write_error-small stopped r e = ground (arith, e)

pub vds_write-IsSettled :
    (dev : VdsHcdDev) (memory stopped : Bool) (r : WriteRequest) (now : ℕ)
    → IsSettled dev
    → IsSettled (vds_write dev memory stopped r now).0
unfolding vds_write write_frame
vds_write-IsSettled dev memory stopped r now h =
    let payload = take r.length r.payload in
    elim (Bool-cases (write_error stopped r == success)) [
      | inl fine ↦
          let small = write_error-small stopped r (ground (arith, fine)) in
          ground (
            arith,
            fine,
            write_input_frame-IsSettled dev memory payload now h,
            write_feature_reply-IsSettled dev payload h,
            write_audio_in_frame-IsSettled dev memory payload
                (omega (arith, small, length-take-le r.length r.payload)) h,
          )
      | inr bad ↦ ground (arith, bad, h)
    ]

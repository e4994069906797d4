-- ===== src/Hcd/Calls/Frames.antt =====
-- Enqueue, delivery and writes keep the queues of frames and of microphone audio exact.
use windows_vds.Prelude.{
  ℕ, ◌≡◌, ◌<◌, ◌+◌, Bool, true, false, arith, List, [], ◌∷◌, ◌++◌, length-append, Bytes, refl, none,
  some, if◌then◌else◌,
}
use windows_vds.Hcd.Types.{
  UrbContext, VdsEvent, FrameType, Urb, usb_audio_out, UsbIsoPacketDescriptor,
}
use windows_vds.Hcd.Usb.{min, write_at}
use windows_vds.Hcd.Device.{VdsHcdDev, enqueue_frame}
use windows_vds.Hcd.Iso.{
  Chunk, slice, send_chunks, iso_out_urb, iso_in_urb, fill_audio_in, fill_descs, overflows,
  audio_in_bytes_per_ms,
}
use windows_vds.Hcd.Iso.AudioQueue.{fill_audio_in-stream}
use windows_vds.Hcd.Giveback.{deliver_in, deliver_out, give_back, giveback_step}
use windows_vds.Hcd.Calls.Settled.{IsSettled, IsNumbered, SameFrames-IsSettled}

IsNumbered-append :
    (events : List VdsEvent) (event : VdsEvent) (next : ℕ)
    → IsNumbered events next
    → event.sequence ≡ next
    → IsNumbered (events ++ event ∷ []) (next + 1)
IsNumbered-append [] event next h e = (omega arith, tt)
IsNumbered-append (p ∷ events) event next h e = (
  omega (arith, h.0, length-append events (event ∷ [])),
  IsNumbered-append events event next h.1 e,
)

queued-IsSettled :
    (dev : VdsHcdDev) (type : FrameType) (payload : Bytes)
    → dev.event_count < 16384
    → IsSettled dev
    → IsSettled (record dev {
      events =
          dev.events
          ++ record { type = type; sequence = dev.next_sequence; payload = payload } ∷ [];
      next_sequence = dev.next_sequence + 1;
      event_count = dev.event_count + 1;
      frames_to_user = dev.frames_to_user + 1;
    })
queued-IsSettled dev type payload room h =
    let event : VdsEvent = record {
      type = type;
      sequence = dev.next_sequence;
      payload = payload;
    } in
    record {
      audio = record {
        offsets = h.audio.offsets;
        counted = h.audio.counted;
        summed = h.audio.summed;
        bounded = h.audio.bounded;
      };
      counted = omega (arith, h.counted, length-append dev.events (event ∷ []));
      bounded = omega arith;
      numbered = IsNumbered-append dev.events event dev.next_sequence h.numbered refl;
      link = h.link;
    }

pub enqueue_frame-IsSettled :
    (dev : VdsHcdDev) (memory : Bool) (type : FrameType) (payload : Bytes)
    → IsSettled dev
    → IsSettled (enqueue_frame dev memory type payload).0
unfolding enqueue_frame
enqueue_frame-IsSettled dev memory type payload h =
    let queued = λ (room : dev.event_count < 16384). queued-IsSettled dev type payload room h in
    ground (arith, h, queued)

send_chunks-IsSettled :
    (dev : VdsHcdDev) (memory : ℕ → Bool) (n : ℕ) (buffer : Bytes) (chunks : List Chunk)
    → IsSettled dev
    → IsSettled (send_chunks dev memory n buffer chunks)
unfolding send_chunks
send_chunks-IsSettled dev memory n buffer [] h = h
send_chunks-IsSettled dev memory n buffer (chunk ∷ chunks) h =
    let payload = slice chunk.start chunk.chunk_len buffer in
    let sent = (enqueue_frame dev (memory n) usb_audio_out payload).0 in
    send_chunks-IsSettled sent memory (n + 1) buffer chunks
      (enqueue_frame-IsSettled dev (memory n) usb_audio_out payload h)

iso_out_urb-IsSettled :
    (dev : VdsHcdDev) (memory : ℕ → Bool) (urb : Urb)
    → IsSettled dev
    → IsSettled (iso_out_urb dev memory urb).0
unfolding iso_out_urb
iso_out_urb-IsSettled dev memory urb h =
    elim urb.transfer_buffer
      as (λ b. IsSettled (iso_out_urb dev memory (record urb { transfer_buffer = b })).0) [
        | none ↦ h
        | some buffer ↦ send_chunks-IsSettled dev memory 0 buffer _ h
      ]

fill_audio_in-IsSettled :
    (dev : VdsHcdDev) (len : ℕ) → IsSettled dev → IsSettled (fill_audio_in dev len).0
fill_audio_in-IsSettled dev len h =
    let filled = (fill_audio_in-stream dev len h.audio).2 in
    unfold fill_audio_in in
    (record {
      audio = filled;
      counted = h.counted;
      bounded = h.bounded;
      numbered = h.numbered;
      link = h.link;
    })

fill_descs-IsSettled :
    (dev : VdsHcdDev) (urb : Urb) (buffer : Bytes) (descs : List UsbIsoPacketDescriptor)
    → IsSettled dev
    → IsSettled (fill_descs dev urb buffer descs).0
unfolding fill_descs
fill_descs-IsSettled dev urb buffer [] h = h
fill_descs-IsSettled dev urb buffer (desc ∷ descs) h =
    let len = min desc.length audio_in_bytes_per_ms in
    elim (overflows urb desc)
      as (λ skip.
        IsSettled
          (fill_descs (if skip then dev else (fill_audio_in dev len).0) urb
            (if skip then buffer else write_at desc.offset (fill_audio_in dev len).1 buffer)
            descs).0) [
              | true ↦ fill_descs-IsSettled dev urb buffer descs h
              | false ↦
                  fill_descs-IsSettled (fill_audio_in dev len).0 urb _ descs
                    (fill_audio_in-IsSettled dev len h)
            ]

iso_in_urb-IsSettled :
    (dev : VdsHcdDev) (urb : Urb) → IsSettled dev → IsSettled (iso_in_urb dev urb).0
unfolding iso_in_urb
iso_in_urb-IsSettled dev urb h =
    elim urb.transfer_buffer
      as (λ b. IsSettled (iso_in_urb dev (record urb { transfer_buffer = b })).0) [
        | none ↦ h
        | some buffer ↦ fill_descs-IsSettled dev _ buffer urb.iso_frame_desc h
      ]

deliver_out-IsSettled :
    (dev : VdsHcdDev) (memory : ℕ → Bool) (c : UrbContext)
    → IsSettled dev
    → IsSettled (deliver_out dev memory c).0
unfolding deliver_out
deliver_out-IsSettled dev memory c h = ground (arith, h, iso_out_urb-IsSettled dev memory c.urb h)

deliver_in-IsSettled :
    (c : UrbContext) (dev : VdsHcdDev) (urb : Urb) (status : ℕ)
    → IsSettled dev
    → IsSettled (deliver_in c (dev, urb, status)).0
unfolding deliver_in
deliver_in-IsSettled c dev urb status h = ground (arith, h, iso_in_urb-IsSettled dev urb h)

give_back-IsSettled :
    (dev : VdsHcdDev) (urb : Urb) (status : ℕ)
    → IsSettled dev
    → IsSettled (give_back (dev, urb, status))
unfolding give_back
give_back-IsSettled dev urb status h = SameFrames-IsSettled dev _ (ground arith) h

pub giveback_step-IsSettled :
    (dev : VdsHcdDev) (memory : ℕ → Bool) (now : ℕ) (completed : List UrbContext)
    → dev.completed_urbs ≡ completed
    → IsSettled dev
    → IsSettled (giveback_step dev memory now)
unfolding giveback_step
giveback_step-IsSettled dev memory now [] e h = ground (arith, e, h)
giveback_step-IsSettled dev memory now (c ∷ queue) e h =
    let popped = record dev { completed_urbs = queue } in
    let kept = SameFrames-IsSettled dev popped (ground arith) h in
    let out = deliver_out popped memory c in
    let all = deliver_in c out in
    ground (
      arith,
      e,
      h,
      give_back-IsSettled all.0 all.1 all.2
          (deliver_in-IsSettled c out.0 out.1 out.2 (deliver_out-IsSettled popped memory c kept)),
    )

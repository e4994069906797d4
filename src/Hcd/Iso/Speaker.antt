-- ===== src/Hcd/Iso/Speaker.antt =====
-- The frames that carry the speaker data of an isochronous URB.
use windows_vds.Prelude.{
  ℕ, ◌≡◌, ◌≤◌, ◌<◌, ◌+◌, Bool, true, false, arith, List, [], ◌∷◌, ◌++◌, length, Bytes, All,
  append_assoc, append-nil, ◌∙◌, sym, Option, none, some, Bool-cases, inl, inr,
}
use windows_vds.Hcd.Types.{Urb, UsbIsoPacketDescriptor, VdsEvent, usb_audio_out}
use windows_vds.Hcd.Device.{VdsHcdDev, enqueue_frame}
use windows_vds.Hcd.Iso.{
  iso_out_urb, send_chunks, Chunk, slice, skips, joins, grown, desc_chunk, out_chunks,
}
use windows_vds.Hcd.Iso.Chunks.{
  fitting_bytes, chunk_bytes, payloads, payloads-append, out_chunks-bytes, length-slice,
}

abbrev pub IsChunk : Chunk → Type 0
IsChunk chunk = chunk.chunk_len ≤ 4096

abbrev pub IsHeldChunk : Option Chunk → Type 0
IsHeldChunk none = Unit
IsHeldChunk (some chunk) = IsChunk chunk

abbrev pub held_count : Option Chunk → ℕ
held_count none = 0
held_count (some chunk) = 1

-- No chunk is larger than a frame, and there are no more chunks than descriptors.
record IsSendable (bound : ℕ) (chunks : List Chunk) : Type 0 where
  small : All IsChunk chunks
  few : length chunks ≤ bound

out_chunks-IsSendable :
    (urb : Urb) (held : Option Chunk) (descs : List UsbIsoPacketDescriptor)
    → IsHeldChunk held
    → All (λ (desc : UsbIsoPacketDescriptor). desc.length ≤ 4096) descs
    → IsSendable (held_count held + length descs) (out_chunks urb held descs)
unfolding out_chunks joins grown desc_chunk
out_chunks-IsSendable urb none [] h small = record { small = tt; few = omega arith }
out_chunks-IsSendable urb (some chunk) [] h small = record { small = (h, tt); few = omega arith }
out_chunks-IsSendable urb none (desc ∷ descs) h small =
    let first = out_chunks-IsSendable urb none descs tt small.1 in
    let next = out_chunks-IsSendable urb (some (desc_chunk desc)) descs small.0 small.1 in
    ground (arith, first.small, first.few, next.small, next.few)
out_chunks-IsSendable urb (some chunk) (desc ∷ descs) h small =
    let first = out_chunks-IsSendable urb (some chunk) descs h small.1 in
    let next = out_chunks-IsSendable urb (some (desc_chunk desc)) descs small.0 small.1 in
    let more = λ (fits : chunk.chunk_len + desc.length ≤ 4096).
      out_chunks-IsSendable urb (some (grown chunk desc)) descs fits small.1 in
    elim (Bool-cases (skips urb desc)) [
      | inl e ↦ ground (arith, e, first.small, first.few)
      | inr e ↦ (elim (Bool-cases (joins chunk desc)) [
        | inl j ↦
            let grows = more (ground (arith, j)) in ground (arith, e, j, grows.small, grows.few)
        | inr j ↦ ground (arith, e, j, next.small, next.few, h)
      ])
    ]

-- A frame that has room is queued.
record IsSent (dev : VdsHcdDev) (payload : Bytes) (sent : VdsHcdDev) : Type 0 where
  queued : payloads sent.events ≡ payloads dev.events ++ payload
  counted : sent.event_count ≡ dev.event_count + 1
  runs : sent.stopping ≡ false

enqueue_frame-IsSent :
    (dev : VdsHcdDev) (memory : Bool) (payload : Bytes)
    → memory ≡ true
    → dev.stopping ≡ false
    → dev.event_count < 16384
    → length payload ≤ 4096
    → IsSent dev payload (enqueue_frame dev memory usb_audio_out payload).0
unfolding enqueue_frame
enqueue_frame-IsSent dev memory payload has runs room small =
    let event : VdsEvent = record {
      type = usb_audio_out;
      sequence = dev.next_sequence;
      payload = payload;
    } in
    ground (arith, has, runs, room, small, payloads-append dev.events event)

send_chunks-payloads :
    (dev : VdsHcdDev) (memory : ℕ → Bool) (n : ℕ) (buffer : Bytes) (chunks : List Chunk)
    → ((k : ℕ) → memory k ≡ true)
    → dev.stopping ≡ false
    → dev.event_count + length chunks ≤ 16384
    → All IsChunk chunks
    → payloads (send_chunks dev memory n buffer chunks).events
      ≡ payloads dev.events ++ chunk_bytes buffer chunks
unfolding send_chunks chunk_bytes
send_chunks-payloads dev memory n buffer [] has runs room small = sym (append-nil _)
send_chunks-payloads dev memory n buffer (chunk ∷ chunks) has runs room small =
    let payload = slice chunk.start chunk.chunk_len buffer in
    let sent =
      enqueue_frame-IsSent dev (memory n) payload (has n) runs (omega arith)
        (omega (arith, length-slice chunk.start chunk.chunk_len buffer)) in
    let next = (enqueue_frame dev (memory n) usb_audio_out payload).0 in
    send_chunks-payloads next memory (n + 1) buffer chunks has sent.runs
      (omega (arith, sent.counted)) small.1
    ∙ rw sent.queued (append_assoc (payloads dev.events) payload (chunk_bytes buffer chunks))

-- Where the controller runs, memory is there, the queue has room for a frame per descriptor, and no
-- descriptor is larger than a frame: joining neighbouring descriptors to chunks changes no data. The
-- frames sent to user space carry, in order and behind those queued before, the data of just the
-- descriptors that lie inside of the transfer buffer.
pub iso_out_urb-payloads :
    (dev : VdsHcdDev) (memory : ℕ → Bool) (urb : Urb) (buffer : Bytes)
    → urb.transfer_buffer ≡ some buffer
    → ((k : ℕ) → memory k ≡ true)
    → dev.stopping ≡ false
    → dev.event_count + length urb.iso_frame_desc ≤ 16384
    → All (λ (desc : UsbIsoPacketDescriptor). desc.length ≤ 4096) urb.iso_frame_desc
    → payloads (iso_out_urb dev memory urb).0.events
      ≡ payloads dev.events ++ fitting_bytes urb buffer urb.iso_frame_desc
unfolding iso_out_urb
iso_out_urb-payloads dev memory urb buffer e has runs room small =
    let chunks = out_chunks urb none urb.iso_frame_desc in
    let sendable = out_chunks-IsSendable urb none urb.iso_frame_desc tt small in
    ground (
      arith,
      e,
      send_chunks-payloads dev memory 0 buffer chunks has runs (omega (arith, sendable.few))
          sendable.small,
      out_chunks-bytes urb buffer none urb.iso_frame_desc tt,
    )

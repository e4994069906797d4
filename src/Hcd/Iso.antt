-- ===== src/Hcd/Iso.antt =====
-- Isochronous transfers and the thread that gives URBs back, in module/vds_hcd_core.c.
pub mod Chunks
pub mod Speaker
pub mod Microphone
pub mod AudioQueue
use windows_vds.Prelude.{
  ℕ, Bool, ◌||◌, ◌&&◌, List, [], ◌∷◌, ◌++◌, ◌-◌, ◌+◌, ltb, leb, ◌==◌, if◌then◌else◌, Bytes, length,
  take, drop, replicate, Option, none, some,
}
use windows_vds.Hcd.Types.{
  success, epipe, eoverflow, vds_frame_max_payload, Urb, UsbIsoPacketDescriptor, AudioPacket,
  usb_audio_out,
}
use windows_vds.Hcd.Usb.{min, write_at}
use windows_vds.Hcd.Device.{VdsHcdDev, enqueue_frame}

abbrev pub audio_in_bytes_per_ms : ℕ
audio_in_bytes_per_ms = 192

abbrev pub audio_out_bytes_per_ms : ℕ
audio_out_bytes_per_ms = 384

abbrev pub audio_in_queue_max_bytes : ℕ
audio_in_queue_max_bytes = 19200

unfoldable pub slice : ℕ → ℕ → Bytes → Bytes
slice offset count bytes = take count (drop offset bytes)

-- The descriptor lies outside of the transfer buffer.
unfoldable pub overflows : Urb → UsbIsoPacketDescriptor → Bool
overflows urb desc =
    ltb urb.transfer_buffer_length desc.offset
    || ltb (urb.transfer_buffer_length - desc.offset) desc.length

unfoldable pub overflow_desc : UsbIsoPacketDescriptor → UsbIsoPacketDescriptor
overflow_desc desc = record desc { status = eoverflow; actual_length = 0 }

unfoldable pub out_desc : Urb → UsbIsoPacketDescriptor → UsbIsoPacketDescriptor
out_desc urb desc =
    if overflows urb desc
    then overflow_desc desc
    else record desc { status = success; actual_length = desc.length }

unfoldable pub out_descs : Urb → List UsbIsoPacketDescriptor → List UsbIsoPacketDescriptor
out_descs urb [] = []
out_descs urb (desc ∷ descs) = out_desc urb desc ∷ out_descs urb descs

unfoldable pub overflow_count : Urb → List UsbIsoPacketDescriptor → ℕ
overflow_count urb [] = 0
overflow_count urb (desc ∷ descs) = (if overflows urb desc then 1 else 0) + overflow_count urb descs

unfoldable pub total_length : List UsbIsoPacketDescriptor → ℕ
total_length [] = 0
total_length (desc ∷ descs) = desc.actual_length + total_length descs

-- `chunk`, `chunk_len` and `next_offset`, with the start of the chunk as an offset in the buffer.
pub record Chunk : Type 0 where
  pub start : ℕ
  pub chunk_len : ℕ
  pub next_offset : ℕ

unfoldable pub desc_chunk : UsbIsoPacketDescriptor → Chunk
desc_chunk desc = record {
  start = desc.offset;
  chunk_len = desc.length;
  next_offset = desc.offset + desc.length;
}

unfoldable pub joins : Chunk → UsbIsoPacketDescriptor → Bool
joins chunk desc =
    (desc.offset == chunk.next_offset) && leb (chunk.chunk_len + desc.length) vds_frame_max_payload

unfoldable pub grown : Chunk → UsbIsoPacketDescriptor → Chunk
grown chunk desc = record chunk {
  chunk_len = chunk.chunk_len + desc.length;
  next_offset = chunk.next_offset + desc.length;
}

unfoldable pub skips : Urb → UsbIsoPacketDescriptor → Bool
skips urb desc = overflows urb desc || (desc.length == 0)

-- The chunks that the loop sends, in their order, from the chunk that it holds.
unfoldable pub out_chunks : Urb → Option Chunk → List UsbIsoPacketDescriptor → List Chunk
out_chunks urb none [] = []
out_chunks urb (some chunk) [] = chunk ∷ []
out_chunks urb none (desc ∷ descs) =
    out_chunks urb (if skips urb desc then none else some (desc_chunk desc)) descs
out_chunks urb (some chunk) (desc ∷ descs) =
    let held = out_chunks urb (some (if skips urb desc then chunk else grown chunk desc)) descs in
    let sent = chunk ∷ out_chunks urb (some (desc_chunk desc)) descs in
    if skips urb desc || joins chunk desc then held else sent

-- A frame that is refused is dropped. `memory n` answers the n-th kmalloc.
unfoldable pub send_chunks : VdsHcdDev → (ℕ → Bool) → ℕ → Bytes → List Chunk → VdsHcdDev
send_chunks dev memory n buffer [] = dev
send_chunks dev memory n buffer (chunk ∷ chunks) =
    send_chunks
      (enqueue_frame dev (memory n) usb_audio_out (slice chunk.start chunk.chunk_len buffer)).0
      memory (n + 1) buffer chunks

unfoldable pub iso_out_urb : VdsHcdDev → (ℕ → Bool) → Urb → VdsHcdDev × Urb × ℕ
iso_out_urb dev memory urb = elim urb.transfer_buffer [
  | none ↦ (dev, urb, epipe)
  | some buffer ↦ (
    send_chunks dev memory 0 buffer (out_chunks urb none urb.iso_frame_desc),
    record urb {
      iso_frame_desc = out_descs urb urb.iso_frame_desc;
      error_count = overflow_count urb urb.iso_frame_desc;
      actual_length = total_length (out_descs urb urb.iso_frame_desc);
    },
    success,
  )
]

unfoldable pub available : AudioPacket → ℕ
available packet = length packet.payload - packet.offset

-- What the loop leaves of the queue, and what it copied.
pub record Filled : Type 0 where
  pub packets : List AudioPacket
  pub packet_count : ℕ
  pub queued_bytes : ℕ
  pub copied : Bytes

-- The packets from the first on, with `needed` bytes still to copy.
unfoldable pub fill_packets : ℕ → ℕ → ℕ → List AudioPacket → Filled
fill_packets needed count queued [] = record {
  packets = [];
  packet_count = count;
  queued_bytes = queued;
  copied = [];
}
fill_packets needed count queued (packet ∷ packets) =
    let copy_len = min needed (available packet) in
    let rest = fill_packets (needed - copy_len) (count - 1) (queued - copy_len) packets in
    let bytes = slice packet.offset copy_len packet.payload in
    if needed == 0
    then record {
      packets = packet ∷ packets;
      packet_count = count;
      queued_bytes = queued;
      copied = [];
    }
    else (if packet.offset + copy_len == length packet.payload
        then record rest { copied = bytes ++ rest.copied }
        else record {
          packets = record packet { offset = packet.offset + copy_len } ∷ packets;
          packet_count = count;
          queued_bytes = queued - copy_len;
          copied = bytes;
        })

-- The bytes that go to the URB: what the queue has, and zeros.
unfoldable pub fill_audio_in : VdsHcdDev → ℕ → VdsHcdDev × Bytes
fill_audio_in dev len =
    let f =
      fill_packets len dev.audio_in_packet_count dev.audio_in_queued_bytes dev.audio_in_packets in
    (
      record dev {
        audio_in_packets = f.packets;
        audio_in_packet_count = f.packet_count;
        audio_in_queued_bytes = f.queued_bytes;
      },
      f.copied ++ replicate (len - length f.copied) 0,
    )

unfoldable pub in_desc : Urb → UsbIsoPacketDescriptor → UsbIsoPacketDescriptor
in_desc urb desc =
    if overflows urb desc
    then overflow_desc desc
    else record desc { status = success; actual_length = min desc.length audio_in_bytes_per_ms }

unfoldable pub in_descs : Urb → List UsbIsoPacketDescriptor → List UsbIsoPacketDescriptor
in_descs urb [] = []
in_descs urb (desc ∷ descs) = in_desc urb desc ∷ in_descs urb descs

unfoldable pub fill_descs :
    VdsHcdDev → Urb → Bytes → List UsbIsoPacketDescriptor → VdsHcdDev × Bytes
fill_descs dev urb buffer [] = (dev, buffer)
fill_descs dev urb buffer (desc ∷ descs) =
    let filled = fill_audio_in dev (min desc.length audio_in_bytes_per_ms) in
    let skip = overflows urb desc in
    fill_descs (if skip then dev else filled.0) urb
      (if skip then buffer else write_at desc.offset filled.1 buffer) descs

unfoldable pub iso_in_urb : VdsHcdDev → Urb → VdsHcdDev × Urb × ℕ
iso_in_urb dev urb = elim urb.transfer_buffer [
  | none ↦ (dev, urb, epipe)
  | some buffer ↦
      let filled = fill_descs dev urb buffer urb.iso_frame_desc in
      (
        filled.0,
        record urb {
          transfer_buffer = some filled.1;
          iso_frame_desc = in_descs urb urb.iso_frame_desc;
          error_count = overflow_count urb urb.iso_frame_desc;
          actual_length = total_length (in_descs urb urb.iso_frame_desc);
        },
        success,
      )
]

-- ===== src/Hcd/Iso/AudioQueue.antt =====
-- The microphone queue of the controller refines a queue of bytes.
use windows_vds.Prelude.{
  ℕ, zero, suc, ◌≡◌, ◌≤◌, ◌<◌, ◌+◌, ◌-◌, ◌⊎◌, inl, inr, arith, List, [], ◌∷◌, ◌++◌, length, take,
  drop, replicate, Bytes, refl, All, ◌∙◌, sym, ap, Bool-cases, length-append, ltb, append-nil,
  append_assoc, false, Bool, true,
}
use windows_vds.Hcd.Types.{AudioPacket, success}
use windows_vds.Hcd.Device.{VdsHcdDev}
use windows_vds.Hcd.Iso.{available, fill_audio_in}
use windows_vds.Hcd.Buffers.{length-drop, drop-append_ge}
use windows_vds.Hcd.Iso.Microphone.{stream, IsPacket, fill_packets-IsFill, available-drop}
use windows_vds.Hcd.Writes.{drop_oldest, push_audio, write_audio_in_frame}

-- The counters are the sizes of the queue, no packet is read behind its end, and at most 100 ms of
-- audio wait.
pub record IsAudio (dev : VdsHcdDev) : Type 0 where
  pub offsets : All IsPacket dev.audio_in_packets
  pub counted : dev.audio_in_packet_count ≡ length dev.audio_in_packets
  pub summed : dev.audio_in_queued_bytes ≡ length (stream dev.audio_in_packets)
  pub bounded : dev.audio_in_queued_bytes ≤ 19200

length-take_sub : (n : ℕ) (xs : Bytes) → n - length (take n xs) ≡ n - length xs
length-take_sub zero xs = ground arith
length-take_sub (suc n) [] = refl
length-take_sub (suc n) (x ∷ xs) = omega (arith, length-take_sub n xs)

-- A read of the microphone queue for the host takes the first bytes that wait, pads them with zeros
-- to the length asked for, and leaves the other bytes in their order; the counters stay exact.
pub fill_audio_in-stream :
    (dev : VdsHcdDev) (len : ℕ)
    → IsAudio dev
    → (((fill_audio_in dev len).1
          ≡ take len (stream dev.audio_in_packets)
            ++ replicate (len - length (stream dev.audio_in_packets)) 0)
        × (stream (fill_audio_in dev len).0.audio_in_packets
            ≡ drop len (stream dev.audio_in_packets))
        × IsAudio (fill_audio_in dev len).0)
unfolding fill_audio_in
fill_audio_in-stream dev len h =
    let waiting = stream dev.audio_in_packets in
    let f =
      fill_packets-IsFill len dev.audio_in_packet_count dev.audio_in_queued_bytes
        dev.audio_in_packets h.offsets h.counted h.summed in
    (
      rw (f.first, length-take_sub len waiting) refl,
      f.others,
      record {
        offsets = f.offsets;
        counted = f.counted;
        summed = f.summed;
        bounded =
            omega
              (arith, f.summed, ap length f.others, length-drop len waiting, h.summed, h.bounded);
      },
    )

-- What the loop that makes room leaves: `gone` bytes less, none of them without need.
record IsRoom (len : ℕ) (dev : VdsHcdDev) (packets : List AudioPacket) (e : VdsHcdDev)
    : Type 0 where
  gone : ℕ
  others : stream e.audio_in_packets ≡ drop gone (stream packets)
  offsets : All IsPacket e.audio_in_packets
  counted : e.audio_in_packet_count ≡ length e.audio_in_packets
  summed : e.audio_in_queued_bytes ≡ length (stream e.audio_in_packets)
  room : e.audio_in_queued_bytes + len ≤ 19200
  needed : (gone ≡ 0) ⊎ (19200 < length (stream packets) + len)

keep-IsRoom :
    (len : ℕ) (dev : VdsHcdDev) (packets : List AudioPacket)
    → All IsPacket packets
    → dev.audio_in_packet_count ≡ length packets
    → dev.audio_in_queued_bytes ≡ length (stream packets)
    → dev.audio_in_queued_bytes + len ≤ 19200
    → IsRoom len dev packets (record dev { audio_in_packets = packets })
keep-IsRoom len dev packets h counted summed room = record {
  gone = 0;
  others = refl;
  offsets = h;
  counted = counted;
  summed = summed;
  room = room;
  needed = inl refl;
}

abbrev without_oldest : VdsHcdDev → AudioPacket → VdsHcdDev
without_oldest dev oldest = record dev {
  audio_in_packet_count = dev.audio_in_packet_count - 1;
  audio_in_queued_bytes = dev.audio_in_queued_bytes - available oldest;
}

drop-IsRoom :
    (len : ℕ) (dev : VdsHcdDev) (oldest : AudioPacket) (packets : List AudioPacket) (e : VdsHcdDev)
    → 19200 < length (stream (oldest ∷ packets)) + len
    → IsRoom len (without_oldest dev oldest) packets e
    → IsRoom len dev (oldest ∷ packets) e
unfolding stream
drop-IsRoom len dev oldest packets e full r =
    let p = drop oldest.offset oldest.payload in
    record {
      gone = length p + r.gone;
      others =
          r.others
          ∙ sym (
              drop-append_ge (length p + r.gone) p (stream packets) (omega arith)
              ∙ ap (λ n. drop n (stream packets)) (omega arith));
      offsets = r.offsets;
      counted = r.counted;
      summed = r.summed;
      room = r.room;
      needed = inr full;
    }

drop_oldest-IsRoom :
    (len : ℕ) (dev : VdsHcdDev) (packets : List AudioPacket)
    → len ≤ 4096
    → All IsPacket packets
    → dev.audio_in_packet_count ≡ length packets
    → dev.audio_in_queued_bytes ≡ length (stream packets)
    → IsRoom len dev packets (drop_oldest dev len packets)
unfolding drop_oldest stream
drop_oldest-IsRoom len dev [] small h counted summed =
    keep-IsRoom len dev [] tt counted summed (omega (arith, summed))
drop_oldest-IsRoom len dev (oldest ∷ packets) small h counted summed =
    let sizes = length-append (drop oldest.offset oldest.payload) (stream packets) in
    elim (Bool-cases (ltb 19200 (dev.audio_in_queued_bytes + len))) [
      | inl full ↦ rw full (
          drop-IsRoom len dev oldest packets (drop_oldest (without_oldest dev oldest) len packets)
            (ground (arith, full, summed))
            (drop_oldest-IsRoom len (without_oldest dev oldest) packets small h.1 (omega arith)
              (omega (arith, summed, sizes, available-drop oldest))))
      | inr fits ↦
          rw fits (keep-IsRoom len dev (oldest ∷ packets) h counted summed (ground (arith, fits)))
    ]

stream-append :
    (packets : List AudioPacket) (payload : Bytes)
    → stream (packets ++ record { offset = 0; payload = payload } ∷ []) ≡ stream packets ++ payload
unfolding stream
stream-append [] payload = append-nil payload
stream-append (packet ∷ packets) payload =
    rw (stream-append packets payload)
      (sym (append_assoc (drop packet.offset packet.payload) (stream packets) payload))

All-push :
    (packets : List AudioPacket) (packet : AudioPacket)
    → All IsPacket packets
    → IsPacket packet
    → All IsPacket (packets ++ packet ∷ [])
All-push [] packet h p = (p, tt)
All-push (q ∷ packets) packet h p = (h.0, All-push packets packet h.1 p)

-- The queue after a write: the bytes that waited, without the oldest `gone`, then the payload.
pub record IsWritten (dev : VdsHcdDev) (payload : Bytes) (e : VdsHcdDev) : Type 0 where
  pub gone : ℕ
  pub queued : stream e.audio_in_packets ≡ drop gone (stream dev.audio_in_packets) ++ payload
  pub needed : (gone ≡ 0) ⊎ (19200 < length (stream dev.audio_in_packets) + length payload)
  pub audio : IsAudio e

push_audio-IsWritten :
    (dev e : VdsHcdDev) (payload : Bytes)
    → IsRoom (length payload) dev dev.audio_in_packets e
    → IsWritten dev payload (push_audio e payload)
unfolding push_audio
push_audio-IsWritten dev e payload r =
    let new : AudioPacket = record { offset = 0; payload = payload } in
    let waiting = stream e.audio_in_packets in
    let all = stream-append e.audio_in_packets payload in
    record {
      gone = r.gone;
      queued = all ∙ ap (λ t. t ++ payload) r.others;
      needed = r.needed;
      audio = record {
        offsets = All-push e.audio_in_packets new r.offsets (omega arith);
        counted = omega (arith, r.counted, length-append e.audio_in_packets (new ∷ []));
        summed = omega (arith, r.summed, ap length all, length-append waiting payload);
        bounded = r.room;
      };
    }

-- A frame of microphone audio from user space, of one to 4096 bytes, while the controller runs and
-- has memory, is accepted: its bytes stand last in the queue, behind those that waited before, of
-- which the oldest are dropped only where the queue would exceed 100 ms of audio, 19200 bytes; the
-- counters stay exact and the queue stays within that bound.
pub write_audio_in_frame-stream :
    (dev : VdsHcdDev) (payload : Bytes)
    → IsAudio dev
    → dev.stopping ≡ false
    → 0 < length payload
    → length payload ≤ 4096
    → ((write_audio_in_frame dev true payload).1 ≡ success)
      × IsWritten dev payload (write_audio_in_frame dev true payload).0
unfolding write_audio_in_frame
write_audio_in_frame-stream dev payload h runs some_bytes small = ground (
  arith,
  runs,
  some_bytes,
  push_audio-IsWritten dev (drop_oldest dev (length payload) dev.audio_in_packets) payload (
      drop_oldest-IsRoom (length payload) dev dev.audio_in_packets small h.offsets h.counted
        h.summed),
)

-- The same with every outcome, for the invariant.
pub write_audio_in_frame-IsAudio :
    (dev : VdsHcdDev) (memory : Bool) (payload : Bytes)
    → IsAudio dev
    → length payload ≤ 4096
    → IsAudio (write_audio_in_frame dev memory payload).0
unfolding write_audio_in_frame
write_audio_in_frame-IsAudio dev memory payload h small =
    let written =
      push_audio-IsWritten dev (drop_oldest dev (length payload) dev.audio_in_packets) payload (
        drop_oldest-IsRoom (length payload) dev dev.audio_in_packets small h.offsets h.counted
          h.summed) in
    ground (arith, h, written.audio)

-- ===== src/Hcd/Iso/Microphone.antt =====
-- The microphone queue of the kernel module as a queue of bytes.
use windows_vds.Prelude.{
  ℕ, zero, suc, ◌≡◌, ◌≤◌, ◌+◌, ◌-◌, arith, List, [], ◌∷◌, ◌++◌, length, take, drop, Bytes, refl,
  All, sym, ◌∙◌, ◌<◌, length-append, Bool-cases, ◌==◌, inl, inr, ltb,
}
use windows_vds.Hcd.Types.{AudioPacket}
use windows_vds.Hcd.Usb.{min}
use windows_vds.Hcd.Iso.{available, Filled, slice, fill_packets}
use windows_vds.Hcd.Buffers.{
  take-length, drop-drop, take-append_ge, drop-append_le, length-drop, drop-append_ge,
  take-append_le, take-nil, drop-nil,
}

-- The bytes that wait for the host.
unfoldable pub stream : List AudioPacket → Bytes
stream [] = []
stream (packet ∷ packets) = drop packet.offset packet.payload ++ stream packets

abbrev pub IsPacket : AudioPacket → Type 0
IsPacket packet = packet.offset ≤ length packet.payload

-- What `fill_packets` makes of a queue: it copies the first bytes and keeps the others.
pub record IsFill (needed : ℕ) (packets : List AudioPacket) (f : Filled) : Type 0 where
  pub first : f.copied ≡ take needed (stream packets)
  pub others : stream f.packets ≡ drop needed (stream packets)
  pub offsets : All IsPacket f.packets
  pub counted : f.packet_count ≡ length f.packets
  pub summed : f.queued_bytes ≡ length (stream f.packets)

-- The three ways of a round, over the bytes `p` of the first packet and `s` of the others.
whole-first :
    (needed : ℕ) (p s copied : Bytes)
    → length p ≤ needed
    → copied ≡ take (needed - length p) s
    → take (length p) p ++ copied ≡ take needed (p ++ s)
whole-first needed p s copied h e = rw (e, take-length p) (sym (take-append_ge needed p s h))

part-others :
    (needed offset : ℕ) (payload s : Bytes)
    → needed ≤ length (drop offset payload)
    → drop (offset + needed) payload ++ s ≡ drop needed (drop offset payload ++ s)
part-others needed offset payload s h =
    rw
      (
        drop-append_le needed (drop offset payload) s h,
        drop-drop offset needed (offset + needed) payload refl,
      )
      refl

pub available-drop :
    (packet : AudioPacket) → available packet ≡ length (drop packet.offset packet.payload)
unfolding available
available-drop packet = sym (length-drop packet.offset packet.payload)

length-take-min : (n : ℕ) (xs : Bytes) → length (take n xs) ≡ min n (length xs)
unfolding min
length-take-min zero xs = ground arith
length-take-min (suc n) [] = ground arith
length-take-min (suc n) (x ∷ xs) = ground (arith, length-take-min n xs)

stop-IsFill :
    (needed count queued : ℕ) (packets : List AudioPacket)
    → needed ≡ 0
    → All IsPacket packets
    → count ≡ length packets
    → queued ≡ length (stream packets)
    → IsFill needed packets
        (record { packets = packets; packet_count = count; queued_bytes = queued; copied = [] })
stop-IsFill needed count queued packets e h counted summed = record {
  first = rw e refl;
  others = rw e refl;
  offsets = h;
  counted = counted;
  summed = summed;
}

whole-IsFill :
    (needed : ℕ) (packet : AudioPacket) (packets : List AudioPacket) (rest : Filled)
    → IsPacket packet
    → available packet ≤ needed
    → IsFill (needed - available packet) packets rest
    → IsFill needed (packet ∷ packets) (record rest {
      copied = slice packet.offset (available packet) packet.payload ++ rest.copied;
    })
unfolding stream slice
whole-IsFill needed packet packets rest h enough f =
    let p = drop packet.offset packet.payload in
    let e = available-drop packet in
    record {
      first =
          rw e (
            whole-first needed p (stream packets) rest.copied (omega (arith, e))
              (rw (← e) f.first));
      others = f.others ∙ rw e (sym (drop-append_ge needed p (stream packets) (omega (arith, e))));
      offsets = f.offsets;
      counted = f.counted;
      summed = f.summed;
    }

part-IsFill :
    (needed count queued : ℕ) (packet : AudioPacket) (packets : List AudioPacket)
    → All IsPacket (packet ∷ packets)
    → needed < available packet
    → count ≡ length (packet ∷ packets)
    → queued ≡ length (stream (packet ∷ packets))
    → IsFill needed (packet ∷ packets) (record {
      packets = record packet { offset = packet.offset + needed } ∷ packets;
      packet_count = count;
      queued_bytes = queued - needed;
      copied = slice packet.offset needed packet.payload;
    })
unfolding stream slice
part-IsFill needed count queued packet packets h few counted summed =
    let p = drop packet.offset packet.payload in
    let e = available-drop packet in
    record {
      first = sym (take-append_le needed p (stream packets) (omega (arith, e)));
      others = part-others needed packet.offset packet.payload (stream packets) (omega (arith, e));
      offsets = (unfold available in (omega arith), h.1);
      counted = counted;
      summed = omega (
        arith,
        summed,
        length-append p (stream packets),
        length-append (drop (packet.offset + needed) packet.payload) (stream packets),
        length-drop packet.offset packet.payload,
        length-drop (packet.offset + needed) packet.payload,
        e,
        few,
      );
    }

fill_packets-stop :
    (needed count queued : ℕ) (packets : List AudioPacket)
    → needed ≡ 0
    → fill_packets needed count queued packets
      ≡ record { packets = packets; packet_count = count; queued_bytes = queued; copied = [] }
unfolding fill_packets
fill_packets-stop needed count queued [] e = refl
fill_packets-stop needed count queued (packet ∷ packets) e = ground (arith, e)

fill_packets-whole :
    (needed count queued : ℕ) (packet : AudioPacket) (packets : List AudioPacket)
    → IsPacket packet
    → 0 < needed
    → available packet ≤ needed
    → fill_packets needed count queued (packet ∷ packets) ≡ (
        let rest =
          fill_packets
            (needed - available packet)
            (count - 1)
            (queued - available packet)
            packets in
        record rest {
          copied = slice packet.offset (available packet) packet.payload ++ rest.copied;
        })
unfolding fill_packets
fill_packets-whole needed count queued packet packets h some_left enough =
    let whole : min needed (available packet) ≡ available packet = unfold min in (ground arith) in
    let last : packet.offset + available packet ≡ length packet.payload =
      unfold available in (omega arith) in
    rw whole (ground (arith, last))

fill_packets-part :
    (needed count queued : ℕ) (packet : AudioPacket) (packets : List AudioPacket)
    → 0 < needed
    → needed < available packet
    → fill_packets needed count queued (packet ∷ packets) ≡ record {
      packets = record packet { offset = packet.offset + needed } ∷ packets;
      packet_count = count;
      queued_bytes = queued - needed;
      copied = slice packet.offset needed packet.payload;
    }
unfolding fill_packets
fill_packets-part needed count queued packet packets some_left few =
    let part : min needed (available packet) ≡ needed = unfold min in (ground arith) in
    let more : packet.offset + needed < length packet.payload =
      unfold available in (omega (arith, few)) in
    rw part (ground (arith, more))

pub fill_packets-IsFill :
    (needed count queued : ℕ) (packets : List AudioPacket)
    → All IsPacket packets
    → count ≡ length packets
    → queued ≡ length (stream packets)
    → IsFill needed packets (fill_packets needed count queued packets)
unfolding stream
fill_packets-IsFill needed count queued [] h counted summed =
    unfold fill_packets in
    (record {
      first = sym (take-nil needed);
      others = sym (drop-nil needed);
      offsets = tt;
      counted = counted;
      summed = summed;
    })
fill_packets-IsFill needed count queued (packet ∷ packets) h counted summed =
    let size = available packet in
    let e = available-drop packet in
    let rest = fill_packets (needed - size) (count - 1) (queued - size) packets in
    let both = length-append (drop packet.offset packet.payload) (stream packets) in
    elim (Bool-cases (needed == 0)) [
      | inl none_left ↦
          let zero_left : needed ≡ 0 = ground (arith, none_left) in
          rw (fill_packets-stop needed count queued (packet ∷ packets) zero_left)
            (stop-IsFill needed count queued (packet ∷ packets) zero_left h counted summed)
      | inr some_left ↦ (elim (Bool-cases (ltb needed size)) [
        | inl few ↦
            let part : needed < size = ground (arith, few) in
            rw
              (fill_packets-part needed count queued packet packets (ground (arith, some_left))
                part)
              (part-IsFill needed count queued packet packets h part counted summed)
        | inr enough ↦
            let whole : size ≤ needed = ground (arith, enough) in
            rw
              (fill_packets-whole needed count queued packet packets h.0 (ground (arith, some_left))
                whole)
              (whole-IsFill needed packet packets rest h.0 whole (
                fill_packets-IsFill (needed - size) (count - 1) (queued - size) packets h.1
                  (omega arith) (omega (arith, both, e, summed))))
      ])
    ]

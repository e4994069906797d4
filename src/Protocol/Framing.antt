-- ===== src/Protocol/Framing.antt =====
-- The sizes and headers of the packets of src/vds_protocol.cc.
use windows_vds.Prelude.{ℕ, ◌^◌, ◌≤◌, ◌<◌, ◌≡◌, refl, ◌++◌, length, take, drop, Bytes, ok, arith}
use windows_vds.Protocol.Bits.{le_bytes}
use windows_vds.Protocol.Checksum.{word_of}
use windows_vds.Protocol.Packets.{frame_header, frame_bytes, frame_max_payload}

-- A frame whose type is below 2 ^ 16 and whose payload has at most 4096 bytes is made, and read
-- back from its bytes: the type in the first two, the length of the payload in the four behind the
-- flags, and the payload behind the header of sixteen bytes.
pub frame_bytes-read :
    (type : ℕ) (payload : Bytes)
    → type < 2 ^ 16
    → length payload ≤ frame_max_payload
    → (frame : Bytes) × (frame_bytes type payload ≡ ok frame)
      × (word_of (take 2 frame) ≡ type)
      × (word_of (take 4 (drop 4 frame)) ≡ length payload)
      × (drop 16 frame ≡ payload)
unfolding frame_bytes frame_header le_bytes
frame_bytes-read type payload lt le =
    (frame_header type (length payload) ++ payload, ground arith, omega arith, omega arith, refl)

-- ===== src/Hcd/Iso/Chunks.antt =====
-- The speaker data of an isochronous URB on its way to user space.
use windows_vds.Prelude.{
  ℕ, zero, suc, ◌≡◌, ◌≤◌, ◌+◌, true, false, arith, List, [], ◌∷◌, ◌++◌, length, take, drop, Bytes,
  refl, append_assoc, append-nil, ◌∙◌, sym, Option, none, some, if◌then◌else◌, Bool-cases, inl, inr,
}
use windows_vds.Hcd.Types.{Urb, UsbIsoPacketDescriptor, VdsEvent}
use windows_vds.Hcd.Iso.{Chunk, slice, overflows, skips, joins, grown, desc_chunk, out_chunks}
use windows_vds.Hcd.Buffers.{take-add, drop-drop}

-- The data of a descriptor, where it lies inside of the buffer.
unfoldable pub desc_bytes : Urb → Bytes → UsbIsoPacketDescriptor → Bytes
desc_bytes urb buffer desc = if overflows urb desc then [] else slice desc.offset desc.length buffer

unfoldable pub fitting_bytes : Urb → Bytes → List UsbIsoPacketDescriptor → Bytes
fitting_bytes urb buffer [] = []
fitting_bytes urb buffer (desc ∷ descs) =
    desc_bytes urb buffer desc ++ fitting_bytes urb buffer descs

unfoldable pub chunk_bytes : Bytes → List Chunk → Bytes
chunk_bytes buffer [] = []
chunk_bytes buffer (chunk ∷ chunks) =
    slice chunk.start chunk.chunk_len buffer ++ chunk_bytes buffer chunks

unfoldable pub payloads : List VdsEvent → Bytes
payloads [] = []
payloads (event ∷ events) = event.payload ++ payloads events

pub payloads-append :
    (events : List VdsEvent) (event : VdsEvent)
    → payloads (events ++ event ∷ []) ≡ payloads events ++ event.payload
unfolding payloads
payloads-append [] event = append-nil event.payload
payloads-append (e ∷ events) event =
    rw (payloads-append events event) (sym (append_assoc e.payload (payloads events) event.payload))

slice-add :
    (start a b : ℕ) (buffer : Bytes)
    → slice start (a + b) buffer ≡ slice start a buffer ++ slice (start + a) b buffer
unfolding slice
slice-add start a b buffer =
    take-add a b (a + b) (drop start buffer) refl
    ∙ rw (drop-drop start a (start + a) buffer refl) refl

pub length-slice : (start n : ℕ) (buffer : Bytes) → length (slice start n buffer) ≤ n
unfolding slice
length-slice start n buffer = at n (drop start buffer)
  where
    at : (n : ℕ) (xs : Bytes) → length (take n xs) ≤ n
    at zero xs = omega arith
    at (suc n) [] = omega arith
    at (suc n) (x ∷ xs) = omega (arith, at n xs)

desc_bytes-skipped :
    (urb : Urb) (buffer : Bytes) (desc : UsbIsoPacketDescriptor)
    → skips urb desc ≡ true
    → desc_bytes urb buffer desc ≡ []
unfolding desc_bytes skips slice
desc_bytes-skipped urb buffer desc h = elim (Bool-cases (overflows urb desc)) [
  | inl e ↦ rw e refl
  | inr e ↦ let none_left : desc.length ≡ 0 = ground (arith, e, h) in rw (e, none_left) refl
]

desc_bytes-kept :
    (urb : Urb) (buffer : Bytes) (desc : UsbIsoPacketDescriptor)
    → skips urb desc ≡ false
    → desc_bytes urb buffer desc ≡ slice desc.offset desc.length buffer
unfolding desc_bytes skips
desc_bytes-kept urb buffer desc h = ground (arith, h)

slice-grown :
    (buffer : Bytes) (chunk : Chunk) (desc : UsbIsoPacketDescriptor)
    → chunk.next_offset ≡ chunk.start + chunk.chunk_len
    → joins chunk desc ≡ true
    → slice (grown chunk desc).start (grown chunk desc).chunk_len buffer
      ≡ slice chunk.start chunk.chunk_len buffer ++ slice desc.offset desc.length buffer
unfolding joins grown
slice-grown buffer chunk desc next joined =
    let at : desc.offset ≡ chunk.start + chunk.chunk_len = ground (arith, next, joined) in
    rw at (slice-add chunk.start chunk.chunk_len desc.length buffer)

-- What a held chunk stands for, and the form that the loop keeps it in.
abbrev pub held_bytes : Bytes → Option Chunk → Bytes
held_bytes buffer none = []
held_bytes buffer (some chunk) = slice chunk.start chunk.chunk_len buffer

abbrev pub IsHeld : Option Chunk → Type 0
IsHeld none = Unit
IsHeld (some chunk) = chunk.next_offset ≡ chunk.start + chunk.chunk_len

grown-IsHeld :
    (chunk : Chunk) (desc : UsbIsoPacketDescriptor)
    → IsHeld (some chunk)
    → IsHeld (some (grown chunk desc))
unfolding grown
grown-IsHeld chunk desc h = omega arith

desc_chunk-IsHeld : (desc : UsbIsoPacketDescriptor) → IsHeld (some (desc_chunk desc))
unfolding desc_chunk
desc_chunk-IsHeld desc = refl

desc_chunk-bytes :
    (buffer : Bytes) (desc : UsbIsoPacketDescriptor)
    → held_bytes buffer (some (desc_chunk desc)) ≡ slice desc.offset desc.length buffer
unfolding desc_chunk
desc_chunk-bytes buffer desc = refl

pub out_chunks-bytes :
    (urb : Urb) (buffer : Bytes) (held : Option Chunk) (descs : List UsbIsoPacketDescriptor)
    → IsHeld held
    → chunk_bytes buffer (out_chunks urb held descs)
      ≡ held_bytes buffer held ++ fitting_bytes urb buffer descs
unfolding out_chunks chunk_bytes fitting_bytes
out_chunks-bytes urb buffer none [] h = refl
out_chunks-bytes urb buffer (some chunk) [] h = refl
out_chunks-bytes urb buffer none (desc ∷ descs) h = ground (
  arith,
  desc_bytes-skipped urb buffer desc,
  desc_bytes-kept urb buffer desc,
  out_chunks-bytes urb buffer none descs tt,
  out_chunks-bytes urb buffer (some (desc_chunk desc)) descs (desc_chunk-IsHeld desc),
  desc_chunk-bytes buffer desc,
)
out_chunks-bytes urb buffer (some chunk) (desc ∷ descs) h = ground (
  arith,
  desc_bytes-skipped urb buffer desc,
  desc_bytes-kept urb buffer desc,
  out_chunks-bytes urb buffer (some chunk) descs h,
  out_chunks-bytes urb buffer (some (grown chunk desc)) descs (grown-IsHeld chunk desc h),
  out_chunks-bytes urb buffer (some (desc_chunk desc)) descs (desc_chunk-IsHeld desc),
  desc_chunk-bytes buffer desc,
  slice-grown buffer chunk desc h,
  append_assoc (slice chunk.start chunk.chunk_len buffer) (slice desc.offset desc.length buffer)
      (fitting_bytes urb buffer descs),
)

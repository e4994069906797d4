-- ===== src/Hcd/Giveback/Queues.antt =====
-- What leaves the queues of URBs and of reports alone: the frames and the audio of a delivery.
use windows_vds.Prelude.{
  ℕ, ◌≡◌, ◌+◌, Bool, true, false, if◌then◌else◌, arith, List, [], ◌∷◌, Bytes, refl, ◌∙◌, none, some,
  if◌then◌else◌,
}
use windows_vds.Hcd.Types.{Urb, UrbContext, FrameType, UsbIsoPacketDescriptor, usb_audio_out}
use windows_vds.Hcd.Device.{VdsHcdDev, enqueue_frame}
use windows_vds.Hcd.Iso.{
  iso_out_urb, iso_in_urb, send_chunks, Chunk, slice, fill_audio_in, fill_descs, overflows,
  audio_in_bytes_per_ms,
}
use windows_vds.Hcd.Usb.{min, write_at}
use windows_vds.Hcd.Giveback.{deliver_in, deliver_out}

pub record SameUrbs (d e : VdsHcdDev) : Type 0 where
  pub hid_in : e.hid_in_urbs ≡ d.hid_in_urbs
  pub feature_get : e.feature_get_urbs ≡ d.feature_get_urbs
  pub completed : e.completed_urbs ≡ d.completed_urbs
  pub given : e.given_back ≡ d.given_back
  pub packets : e.input_packets ≡ d.input_packets
  pub counted : e.input_packet_count ≡ d.input_packet_count

pub SameUrbs-self : (d : VdsHcdDev) → SameUrbs d d
SameUrbs-self d = record {
  hid_in = refl;
  feature_get = refl;
  completed = refl;
  given = refl;
  packets = refl;
  counted = refl;
}

pub SameUrbs-trans : (d e f : VdsHcdDev) → SameUrbs d e → SameUrbs e f → SameUrbs d f
SameUrbs-trans d e f p q = record {
  hid_in = q.hid_in ∙ p.hid_in;
  feature_get = q.feature_get ∙ p.feature_get;
  completed = q.completed ∙ p.completed;
  given = q.given ∙ p.given;
  packets = q.packets ∙ p.packets;
  counted = q.counted ∙ p.counted;
}

pub enqueue_frame-SameUrbs :
    (dev : VdsHcdDev) (memory : Bool) (type : FrameType) (payload : Bytes)
    → SameUrbs dev (enqueue_frame dev memory type payload).0
unfolding enqueue_frame
enqueue_frame-SameUrbs dev memory type payload = ground arith

send_chunks-SameUrbs :
    (dev : VdsHcdDev) (memory : ℕ → Bool) (n : ℕ) (buffer : Bytes) (chunks : List Chunk)
    → SameUrbs dev (send_chunks dev memory n buffer chunks)
unfolding send_chunks
send_chunks-SameUrbs dev memory n buffer [] = SameUrbs-self dev
send_chunks-SameUrbs dev memory n buffer (chunk ∷ chunks) =
    let payload = slice chunk.start chunk.chunk_len buffer in
    let sent = (enqueue_frame dev (memory n) usb_audio_out payload).0 in
    SameUrbs-trans dev sent _ (enqueue_frame-SameUrbs dev (memory n) usb_audio_out payload)
      (send_chunks-SameUrbs sent memory (n + 1) buffer chunks)

fill_audio_in-SameUrbs : (dev : VdsHcdDev) (len : ℕ) → SameUrbs dev (fill_audio_in dev len).0
unfolding fill_audio_in
fill_audio_in-SameUrbs dev len = record {
  hid_in = refl;
  feature_get = refl;
  completed = refl;
  given = refl;
  packets = refl;
  counted = refl;
}

fill_descs-SameUrbs :
    (dev : VdsHcdDev) (urb : Urb) (buffer : Bytes) (descs : List UsbIsoPacketDescriptor)
    → SameUrbs dev (fill_descs dev urb buffer descs).0
unfolding fill_descs
fill_descs-SameUrbs dev urb buffer [] = SameUrbs-self dev
fill_descs-SameUrbs dev urb buffer (desc ∷ descs) =
    let len = min desc.length audio_in_bytes_per_ms in
    elim (overflows urb desc)
      as (λ skip.
        SameUrbs dev
          (fill_descs (if skip then dev else (fill_audio_in dev len).0) urb
            (if skip then buffer else write_at desc.offset (fill_audio_in dev len).1 buffer)
            descs).0) [
              | true ↦ fill_descs-SameUrbs dev urb buffer descs
              | false ↦
                  SameUrbs-trans dev (fill_audio_in dev len).0 _ (fill_audio_in-SameUrbs dev len)
                    (fill_descs-SameUrbs (fill_audio_in dev len).0 urb _ descs)
            ]

iso_out_urb-SameUrbs :
    (dev : VdsHcdDev) (memory : ℕ → Bool) (urb : Urb) → SameUrbs dev (iso_out_urb dev memory urb).0
unfolding iso_out_urb
iso_out_urb-SameUrbs dev memory urb =
    elim urb.transfer_buffer
      as (λ b. SameUrbs dev (iso_out_urb dev memory (record urb { transfer_buffer = b })).0) [
        | none ↦ SameUrbs-self dev
        | some buffer ↦ send_chunks-SameUrbs dev memory 0 buffer _
      ]

iso_in_urb-SameUrbs : (dev : VdsHcdDev) (urb : Urb) → SameUrbs dev (iso_in_urb dev urb).0
unfolding iso_in_urb
iso_in_urb-SameUrbs dev urb =
    elim urb.transfer_buffer
      as (λ b. SameUrbs dev (iso_in_urb dev (record urb { transfer_buffer = b })).0) [
        | none ↦ SameUrbs-self dev
        | some buffer ↦ fill_descs-SameUrbs dev _ buffer urb.iso_frame_desc
      ]

-- A delivery keeps the queues of URBs, and the URB is the one that was delivered.
pub record IsDelivery (dev : VdsHcdDev) (id : ℕ) (r : VdsHcdDev × Urb × ℕ) : Type 0 where
  pub same : SameUrbs dev r.0
  pub urb_id : r.1.id ≡ id

iso_out_urb-id :
    (dev : VdsHcdDev) (memory : ℕ → Bool) (urb : Urb) → (iso_out_urb dev memory urb).1.id ≡ urb.id
unfolding iso_out_urb
iso_out_urb-id dev memory urb = ground arith

iso_in_urb-id : (dev : VdsHcdDev) (urb : Urb) → (iso_in_urb dev urb).1.id ≡ urb.id
unfolding iso_in_urb
iso_in_urb-id dev urb = ground arith

deliver_out-IsDelivery :
    (dev : VdsHcdDev) (memory : ℕ → Bool) (c : UrbContext)
    → IsDelivery dev c.urb.id (deliver_out dev memory c)
unfolding deliver_out
deliver_out-IsDelivery dev memory c = ground (
  arith,
  SameUrbs-self dev,
  iso_out_urb-SameUrbs dev memory c.urb,
  iso_out_urb-id dev memory c.urb,
)

deliver_in-IsDelivery :
    (c : UrbContext) (dev mid : VdsHcdDev) (urb : Urb) (status : ℕ) (id : ℕ)
    → IsDelivery dev id (mid, urb, status)
    → IsDelivery dev id (deliver_in c (mid, urb, status))
unfolding deliver_in
deliver_in-IsDelivery c dev mid urb status id h = ground (
  arith,
  h.same,
  h.urb_id,
  SameUrbs-trans dev mid (iso_in_urb mid urb).0 h.same (iso_in_urb-SameUrbs mid urb),
  iso_in_urb-id mid urb,
)

pub deliver-IsDelivery :
    (dev : VdsHcdDev) (memory : ℕ → Bool) (c : UrbContext)
    → IsDelivery dev c.urb.id (deliver_in c (deliver_out dev memory c))
deliver-IsDelivery dev memory c =
    let out = deliver_out dev memory c in
    deliver_in-IsDelivery c dev out.0 out.1 out.2 c.urb.id (deliver_out-IsDelivery dev memory c)

-- ===== src/Hcd/Urbs/Conservation.antt =====
-- What comes from user space, from the hub and from the port neither loses nor repeats a URB.
use mathlib.Core.Path.{subst}
use windows_vds.Prelude.{
  All, inl, ℕ, ◌≡◌, Bool, true, false, arith, List, [], ◌∷◌, refl, Bytes, length, take, ◌-◌,
}
use windows_vds.Hcd.Types.{UrbContext, pending_hid_in, AudioPacket, success, eshutdown}
use windows_vds.Hcd.Usb.{update_feature_reply}
use windows_vds.Hcd.Device.{VdsHcdDev, cancel_pending_urbs, flush_buffered_frames, vds_read}
use windows_vds.Hcd.Device.Waiting.{IsWaiting}
use windows_vds.Hcd.Urbs.Kept.{same-IsWaiting}
use windows_vds.Hcd.Urbs.Held.{held, held-queue_pending, occurs}
use windows_vds.Hcd.Urbs.Balance.{cancel_pending_urbs-held, complete_feature_replies-held}
use windows_vds.Hcd.Iso.{available}
use windows_vds.Hcd.Giveback.{fill_hid_in_urb, complete_hid_in}
use windows_vds.Hcd.Writes.{
  WriteRequest, vds_write, write_frame, write_input_frame, take_input, queue_input_packet,
  write_feature_reply, count_frame, complete_feature_replies, write_audio_in_frame, push_audio,
  drop_oldest,
}
use windows_vds.Hcd.Port.{
  hcd_start, hcd_stop, vds_open, vds_release, vds_ioctl, ioctl_command, ioctl_set_profile,
  set_connection, connect, disconnect, disconnect_port, reset_link, Ioctl,
}
use windows_vds.Hcd.Hub.{hub_control, change_port, HubRequest}

complete_hid_in-same :
    (i : ℕ) (dev : VdsHcdDev) (c : UrbContext) (urbs : List UrbContext) (payload : Bytes) (now : ℕ)
    → dev.hid_in_urbs ≡ c ∷ urbs
    → IsWaiting dev
    → held i (complete_hid_in dev c payload now) ≡ held i dev
unfolding complete_hid_in fill_hid_in_urb held occurs
complete_hid_in-same i dev c urbs payload now e h =
    let all : All (λ (p : UrbContext). p.state ≡ pending_hid_in) (c ∷ urbs) =
      subst (λ (l : List UrbContext). All (λ (p : UrbContext). p.state ≡ pending_hid_in) l) e
        h.hid_in in
    held-queue_pending i _ _ success (record { place = inl (all.0, simp e (ground arith)) })

take_input-held :
    (i : ℕ) (dev : VdsHcdDev) (memory : Bool) (payload : Bytes) (now : ℕ) (urbs : List UrbContext)
    → dev.hid_in_urbs ≡ urbs
    → IsWaiting dev
    → held i (take_input dev memory payload now).0 ≡ held i dev
unfolding take_input queue_input_packet held
take_input-held i dev memory payload now [] e h = ground (arith, e)
take_input-held i dev memory payload now (c ∷ urbs) e h =
    ground (arith, e, complete_hid_in-same i dev c urbs payload now e h)

count_frame-held :
    (i : ℕ) (dev : VdsHcdDev) (status : ℕ) → held i (count_frame (dev, status)).0 ≡ held i dev
unfolding count_frame held
count_frame-held i dev status = ground arith

write_input_frame-held :
    (i : ℕ) (dev : VdsHcdDev) (memory : Bool) (payload : Bytes) (now : ℕ)
    → IsWaiting dev
    → held i (write_input_frame dev memory payload now).0 ≡ held i dev
unfolding write_input_frame
write_input_frame-held i dev memory payload now h =
    let taken = take_input dev memory payload now in
    ground (
      arith,
      count_frame-held i taken.0 taken.1,
      take_input-held i dev memory payload now dev.hid_in_urbs refl h,
    )

write_feature_reply-held :
    (i : ℕ) (dev : VdsHcdDev) (payload : Bytes)
    → IsWaiting dev
    → held i (write_feature_reply dev payload).0 ≡ held i dev
unfolding write_feature_reply held
write_feature_reply-held i dev payload h =
    let cached = record dev { usb = (update_feature_reply dev.usb payload).0 } in
    let filled = complete_feature_replies cached payload cached.feature_get_urbs in
    ground (
      arith,
      count_frame-held i filled success,
      complete_feature_replies-held i cached payload cached.feature_get_urbs h.feature_get
          (λ j. omega arith),
    )

drop_oldest-held :
    (i : ℕ) (dev : VdsHcdDev) (len : ℕ) (packets : List AudioPacket)
    → held i (drop_oldest dev len packets) ≡ held i dev
unfolding drop_oldest held
drop_oldest-held i dev len [] = refl
drop_oldest-held i dev len (oldest ∷ packets) = ground (
  arith,
  drop_oldest-held i
      (record dev {
        audio_in_packet_count = dev.audio_in_packet_count - 1;
        audio_in_queued_bytes = dev.audio_in_queued_bytes - available oldest;
      })
      len packets,
)

write_audio_in_frame-held :
    (i : ℕ) (dev : VdsHcdDev) (memory : Bool) (payload : Bytes)
    → held i (write_audio_in_frame dev memory payload).0 ≡ held i dev
unfolding write_audio_in_frame push_audio held
write_audio_in_frame-held i dev memory payload =
    ground (arith, drop_oldest-held i dev (length payload) dev.audio_in_packets)

pub vds_write-held :
    (i : ℕ) (dev : VdsHcdDev) (memory stopped : Bool) (r : WriteRequest) (now : ℕ)
    → IsWaiting dev
    → held i (vds_write dev memory stopped r now).0 ≡ held i dev
unfolding vds_write write_frame
vds_write-held i dev memory stopped r now h =
    let payload = take r.length r.payload in
    ground (
      arith,
      write_input_frame-held i dev memory payload now h,
      write_feature_reply-held i dev payload h,
      write_audio_in_frame-held i dev memory payload,
    )

cancelled-held :
    (i : ℕ) (dev : VdsHcdDev)
    → IsWaiting dev
    → held i (flush_buffered_frames (cancel_pending_urbs dev eshutdown)) ≡ held i dev
unfolding flush_buffered_frames held
cancelled-held i dev h = cancel_pending_urbs-held i dev eshutdown h

pub hcd_stop-held : (i : ℕ) (dev : VdsHcdDev) → IsWaiting dev → held i (hcd_stop dev) ≡ held i dev
unfolding hcd_stop held
hcd_stop-held i dev h =
    let stopped = record dev { stopping = true } in
    cancelled-held i stopped (same-IsWaiting dev stopped refl refl refl refl refl h)

disconnect-held : (i : ℕ) (dev : VdsHcdDev) → IsWaiting dev → held i (disconnect dev) ≡ held i dev
unfolding disconnect disconnect_port reset_link held
disconnect-held i dev h =
    let unplugged = disconnect_port dev in
    cancelled-held i unplugged (same-IsWaiting dev unplugged refl refl refl refl refl h)

set_connection-held :
    (i : ℕ) (dev : VdsHcdDev) (connected : Bool)
    → IsWaiting dev
    → held i (set_connection dev connected) ≡ held i dev
unfolding set_connection connect held
set_connection-held i dev connected h = ground (arith, disconnect-held i dev h)

pub vds_release-held :
    (i : ℕ) (dev : VdsHcdDev) → IsWaiting dev → held i (vds_release dev) ≡ held i dev
unfolding vds_release held
vds_release-held i dev h =
    let closed = record dev { opened = false } in
    ground (
      arith,
      set_connection-held i closed false (same-IsWaiting dev closed refl refl refl refl refl h),
    )

pub vds_ioctl-held :
    (i : ℕ) (version : Bytes) (dev : VdsHcdDev) (cmd : Ioctl)
    → IsWaiting dev
    → held i (vds_ioctl version dev cmd).0 ≡ held i dev
unfolding vds_ioctl ioctl_command ioctl_set_profile held
vds_ioctl-held i version dev cmd h =
    ground (arith, set_connection-held i dev true h, set_connection-held i dev false h)

pub hub_control-held :
    (i : ℕ) (dev : VdsHcdDev) (request : HubRequest) (value index : ℕ)
    → held i (hub_control dev request value index).0 ≡ held i dev
unfolding hub_control change_port held
hub_control-held i dev request value index = ground arith

pub vds_read-held :
    (i : ℕ) (dev : VdsHcdDev) (nonblock : Bool) (count : ℕ) (copied : Bool)
    → held i (vds_read dev nonblock count copied).0 ≡ held i dev
unfolding vds_read held
vds_read-held i dev nonblock count copied = ground arith

pub start_open-held :
    (i : ℕ) (dev : VdsHcdDev)
    → (held i (hcd_start dev) ≡ held i dev) × (held i (vds_open dev).0 ≡ held i dev)
unfolding hcd_start vds_open held
start_open-held i dev = (refl, ground arith)

-- ===== src/Hcd/Calls/Ordered.antt =====
-- The queues of URBs and reports are in order after any calls.
use windows_vds.Prelude.{
  ℕ, inl, Bool, true, false, arith, List, [], ◌∷◌, length, Bytes, refl, Option, none, some, take,
  ◌-◌,
}
use windows_vds.Hcd.Types.{AudioPacket, eshutdown, success}
use windows_vds.Hcd.Device.{
  VdsHcdDev, PortStatus, cancel_pending_urbs, flush_buffered_frames, vds_read,
}
use windows_vds.Hcd.Device.Waiting.{IsWaiting}
use windows_vds.Hcd.Urbs.Pending.{cancel_pending_urbs-IsWaiting, flush_buffered_frames-IsWaiting}
use windows_vds.Hcd.Urbs.Served.{
  urb_dequeue-IsWaiting, write_input_frame-IsWaiting, complete_feature_replies-IsWaiting,
  count_frame-IsWaiting,
}
use windows_vds.Hcd.Urbs.Kept.{same-IsWaiting, giveback_step-IsWaiting}
use windows_vds.Hcd.Iso.{available}
use windows_vds.Hcd.Writes.{
  WriteRequest, vds_write, write_frame, write_feature_reply, complete_feature_replies,
  write_audio_in_frame, push_audio, drop_oldest,
}
use windows_vds.Hcd.Usb.{update_feature_reply}
use windows_vds.Hcd.Port.{
  hcd_probe, hcd_start, hcd_stop, vds_open, vds_release, vds_ioctl, ioctl_command,
  ioctl_set_profile, set_connection, connect, disconnect, disconnect_port, reset_link, Ioctl,
  ioc_get_status, ioc_get_driver_info, ioc_set_profile, ioc_connect, ioc_disconnect, ioc_other,
}
use windows_vds.Hcd.Hub.{hub_control, change_port, HubRequest, clear_feature, set_feature}
use windows_vds.Hcd.Calls.{
  HcdCall, call_start, call_stop, call_open, call_release, call_ioctl, call_read, call_write,
  call_hub_control, call_urb_link, call_urb_rest, call_urb_dequeue, call_giveback, dev_call,
}

write_feature_reply-IsWaiting :
    (dev : VdsHcdDev) (payload : Bytes)
    → IsWaiting dev
    → IsWaiting (write_feature_reply dev payload).0
unfolding write_feature_reply
write_feature_reply-IsWaiting dev payload h =
    let cached = record dev { usb = (update_feature_reply dev.usb payload).0 } in
    let kept = same-IsWaiting dev cached refl refl refl refl refl h in
    let filled = complete_feature_replies cached payload cached.feature_get_urbs in
    ground (
      arith,
      kept,
      count_frame-IsWaiting filled success
          (complete_feature_replies-IsWaiting cached payload cached.feature_get_urbs kept),
    )

drop_oldest-IsWaiting :
    (dev : VdsHcdDev) (len : ℕ) (packets : List AudioPacket)
    → IsWaiting dev
    → IsWaiting (drop_oldest dev len packets)
unfolding drop_oldest
drop_oldest-IsWaiting dev len [] h = same-IsWaiting dev _ refl refl refl refl refl h
drop_oldest-IsWaiting dev len (oldest ∷ packets) h =
    let less = record dev {
      audio_in_packet_count = dev.audio_in_packet_count - 1;
      audio_in_queued_bytes = dev.audio_in_queued_bytes - available oldest;
    } in
    ground (
      arith,
      drop_oldest-IsWaiting less len packets (same-IsWaiting dev less refl refl refl refl refl h),
      same-IsWaiting dev (record dev { audio_in_packets = oldest ∷ packets }) refl refl refl refl
          refl h,
    )

write_audio_in_frame-IsWaiting :
    (dev : VdsHcdDev) (memory : Bool) (payload : Bytes)
    → IsWaiting dev
    → IsWaiting (write_audio_in_frame dev memory payload).0
unfolding write_audio_in_frame push_audio
write_audio_in_frame-IsWaiting dev memory payload h =
    let room = drop_oldest dev (length payload) dev.audio_in_packets in
    let kept = drop_oldest-IsWaiting dev (length payload) dev.audio_in_packets h in
    ground (
      arith, h, kept, kept.hid_in, kept.feature_get, kept.timed, kept.input_counted, kept.newest,
      kept.served,
    )

vds_write-IsWaiting :
    (dev : VdsHcdDev) (memory stopped : Bool) (r : WriteRequest) (now : ℕ)
    → IsWaiting dev
    → IsWaiting (vds_write dev memory stopped r now).0
unfolding vds_write write_frame
vds_write-IsWaiting dev memory stopped r now h =
    let payload = take r.length r.payload in
    ground (
      arith,
      h,
      write_input_frame-IsWaiting dev memory payload now h,
      write_feature_reply-IsWaiting dev payload h,
      write_audio_in_frame-IsWaiting dev memory payload h,
    )

vds_read-IsWaiting :
    (dev : VdsHcdDev) (nonblock : Bool) (count : ℕ) (copied : Bool)
    → IsWaiting dev
    → IsWaiting (vds_read dev nonblock count copied).0
unfolding vds_read
vds_read-IsWaiting dev nonblock count copied h =
    ground
      (arith, h, h.hid_in, h.feature_get, h.completed, h.timed, h.input_counted, h.newest, h.served)

hcd_stop-IsWaiting : (dev : VdsHcdDev) → IsWaiting dev → IsWaiting (hcd_stop dev)
unfolding hcd_stop
hcd_stop-IsWaiting dev h =
    let stopped = record dev { stopping = true } in
    let kept = same-IsWaiting dev stopped refl refl refl refl refl h in
    same-IsWaiting (flush_buffered_frames (cancel_pending_urbs stopped eshutdown)) _ refl refl refl
      refl refl
      (flush_buffered_frames-IsWaiting _ (cancel_pending_urbs-IsWaiting stopped eshutdown kept))

disconnect-IsWaiting : (dev : VdsHcdDev) → IsWaiting dev → IsWaiting (disconnect dev)
unfolding disconnect disconnect_port reset_link
disconnect-IsWaiting dev h =
    let unplugged = disconnect_port dev in
    let kept = same-IsWaiting dev unplugged refl refl refl refl refl h in
    same-IsWaiting (flush_buffered_frames (cancel_pending_urbs unplugged eshutdown)) _ refl refl
      refl refl refl
      (flush_buffered_frames-IsWaiting _ (cancel_pending_urbs-IsWaiting unplugged eshutdown kept))

set_connection-IsWaiting :
    (dev : VdsHcdDev) (connected : Bool) → IsWaiting dev → IsWaiting (set_connection dev connected)
unfolding set_connection connect
set_connection-IsWaiting dev connected h = ground (
  arith,
  h,
  h.hid_in,
  h.feature_get,
  h.completed,
  h.timed,
  h.input_counted,
  h.newest,
  h.served,
  disconnect-IsWaiting dev h,
)

vds_release-IsWaiting : (dev : VdsHcdDev) → IsWaiting dev → IsWaiting (vds_release dev)
unfolding vds_release
vds_release-IsWaiting dev h =
    let closed = record dev { opened = false } in
    let kept = same-IsWaiting dev closed refl refl refl refl refl h in
    ground (arith, kept, set_connection-IsWaiting closed false kept)

vds_ioctl-IsWaiting :
    (version : Bytes) (dev : VdsHcdDev) (cmd : Ioctl)
    → IsWaiting dev
    → IsWaiting (vds_ioctl version dev cmd).0
unfolding vds_ioctl ioctl_command ioctl_set_profile
vds_ioctl-IsWaiting version dev ioc_connect h =
    ground (arith, h, set_connection-IsWaiting dev true h)
vds_ioctl-IsWaiting version dev ioc_disconnect h =
    ground (arith, h, set_connection-IsWaiting dev false h)
vds_ioctl-IsWaiting version dev (ioc_set_profile copied profile mode) h =
    ground
      (arith, h, h.hid_in, h.feature_get, h.completed, h.timed, h.input_counted, h.newest, h.served)
vds_ioctl-IsWaiting version dev (ioc_get_status copied) h = ground (arith, h)
vds_ioctl-IsWaiting version dev (ioc_get_driver_info copied) h = ground (arith, h)
vds_ioctl-IsWaiting version dev ioc_other h = ground (arith, h)

change_port-IsWaiting :
    (dev : VdsHcdDev) (index : ℕ) (port : Option PortStatus)
    → IsWaiting dev
    → IsWaiting (change_port dev index port).0
unfolding change_port
change_port-IsWaiting dev index none h = h
change_port-IsWaiting dev index (some p) h =
    ground
      (arith, h, same-IsWaiting dev (record dev { port_status = p }) refl refl refl refl refl h)

hub_control-IsWaiting :
    (dev : VdsHcdDev) (request : HubRequest) (value index : ℕ)
    → IsWaiting dev
    → IsWaiting (hub_control dev request value index).0
unfolding hub_control
hub_control-IsWaiting dev request value index h = ground (
  arith,
  h,
  change_port-IsWaiting dev index (clear_feature dev.port_status value) h,
  change_port-IsWaiting dev index (set_feature dev.port_status value) h,
)

pub dev_call-IsWaiting :
    (dev : VdsHcdDev) (call : HcdCall) → IsWaiting dev → IsWaiting (dev_call dev call)
unfolding dev_call hcd_start vds_open
dev_call-IsWaiting dev call_start h = same-IsWaiting dev _ refl refl refl refl refl h
dev_call-IsWaiting dev call_stop h = hcd_stop-IsWaiting dev h
dev_call-IsWaiting dev call_open h =
    ground
      (arith, h, h.hid_in, h.feature_get, h.completed, h.timed, h.input_counted, h.newest, h.served)
dev_call-IsWaiting dev call_release h = vds_release-IsWaiting dev h
dev_call-IsWaiting dev (call_ioctl version cmd) h = vds_ioctl-IsWaiting version dev cmd h
dev_call-IsWaiting dev (call_read nonblock count copied) h =
    vds_read-IsWaiting dev nonblock count copied h
dev_call-IsWaiting dev (call_write memory stopped r now) h =
    vds_write-IsWaiting dev memory stopped r now h
dev_call-IsWaiting dev (call_hub_control request value index) h =
    hub_control-IsWaiting dev request value index h
dev_call-IsWaiting dev (call_urb_link memory link_status urb) h = h
dev_call-IsWaiting dev (call_urb_rest memory id now) h = h
dev_call-IsWaiting dev (call_urb_dequeue unlink_status id status) h =
    urb_dequeue-IsWaiting dev unlink_status id status h
dev_call-IsWaiting dev (call_giveback memory now) h =
    giveback_step-IsWaiting dev memory now dev.completed_urbs refl h

pub probe-IsWaiting : IsWaiting hcd_probe
unfolding hcd_probe
probe-IsWaiting = record {
  hid_in = tt;
  feature_get = tt;
  completed = tt;
  timed = tt;
  input_counted = refl;
  newest = omega arith;
  served = inl refl;
}

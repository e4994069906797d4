-- ===== src/Hcd/Writes/Errors.antt =====
-- Frames of user space that the kernel module refuses.
use windows_vds.Prelude.{ℕ, ◌≡◌, ◌≢◌, ◌⊎◌, Bool, true, arith, Bytes, take}
use windows_vds.Hcd.Types.{success, eshutdown}
use windows_vds.Hcd.Usb.{update_feature_reply}
use windows_vds.Hcd.Device.{VdsHcdDev}
use windows_vds.Hcd.Writes.{
  WriteRequest, vds_write, write_frame, write_input_frame, write_feature_reply,
  write_audio_in_frame, count_frame, take_input, queue_input_packet,
}

write_input_frame-refused :
    (dev : VdsHcdDev) (memory : Bool) (payload : Bytes) (now : ℕ)
    → (write_input_frame dev memory payload now).1 ≢ success
    → (write_input_frame dev memory payload now).0 ≡ dev
unfolding write_input_frame count_frame take_input queue_input_packet
write_input_frame-refused dev memory payload now h = ground arith

-- What a feature reply that is refused leaves behind.
abbrev pub IsUntouched : VdsHcdDev → Bytes → VdsHcdDev × ℕ → Type 0
IsUntouched dev payload (after, error) =
    (after ≡ dev)
    ⊎ ((error ≡ eshutdown)
        × (dev.stopping ≡ true)
        × (after ≡ record dev { usb = (update_feature_reply dev.usb payload).0 }))

write_feature_reply-refused :
    (dev : VdsHcdDev) (payload : Bytes)
    → (write_feature_reply dev payload).1 ≢ success
    → IsUntouched dev payload (write_feature_reply dev payload)
unfolding write_feature_reply count_frame update_feature_reply
write_feature_reply-refused dev payload h = ground arith

write_audio_in_frame-refused :
    (dev : VdsHcdDev) (memory : Bool) (payload : Bytes)
    → (write_audio_in_frame dev memory payload).1 ≢ success
    → (write_audio_in_frame dev memory payload).0 ≡ dev
unfolding write_audio_in_frame
write_audio_in_frame-refused dev memory payload h = ground arith

-- A write that fails, at a check of its header, for want of memory, or in the handler of its
-- frame, leaves the controller as it was, whatever the first reading of the stopping flag was: no
-- queue, counter, cache or URB changes. There is one exception: a feature reply to a controller that
-- stops after that reading fails with ESHUTDOWN and changes the cache of replies and nothing else.
pub vds_write-refused :
    (dev : VdsHcdDev) (memory stopped : Bool) (r : WriteRequest) (now : ℕ)
    → (vds_write dev memory stopped r now).1 ≢ success
    → ((vds_write dev memory stopped r now).0 ≡ dev)
      ⊎ ((r.type ≡ 6)
          × IsUntouched dev (take r.length r.payload) (vds_write dev memory stopped r now))
unfolding vds_write write_frame
vds_write-refused dev memory stopped r now h =
    let payload = take r.length r.payload in
    ground (
      arith,
      write_input_frame-refused dev memory payload now,
      write_feature_reply-refused dev payload,
      write_audio_in_frame-refused dev memory payload,
    )

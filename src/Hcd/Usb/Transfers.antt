-- ===== src/Hcd/Usb/Transfers.antt =====
-- Control requests stay inside of the transfer buffer of their URB.
use windows_vds.Prelude.{ℕ, ◌≡◌, ◌≤◌, arith, Bytes, refl, length, take, [], ◌∷◌, Option, none, some}
use windows_vds.Hcd.Types.{Urb, UsbCtrlrequest}
use windows_vds.Hcd.Profile.{VdsControllerProfile, AudioFeature}
use windows_vds.Hcd.Usb.{
  copy_to_urb, copy_string_descriptor, copy_cached_feature_report, min, usb_device_profile,
}
use windows_vds.Hcd.Usb.Control.{
  VdsUsbDeviceOps, UsbCall, reply, reply_string, audio_control, audio_request, audio_get, audio_set,
  set_mute, set_volume, volume_reply, hid_control, get_feature_report, forward_feature_get,
  set_report, set_feature_report,
}
use windows_vds.Hcd.Usb.Standard.{
  standard_control, control_request, usb_device_control_urb, get_string, get_hid_descriptor,
  get_descriptor, get_interface, set_configuration, select_audio_out, select_audio_in,
  set_interface,
}
use windows_vds.Hcd.Buffers.{length-take_le, length-write_at, min-le}

abbrev pub HasLength : Option Bytes → ℕ → Type 0
HasLength none n = Unit
HasLength (some buffer) n = length buffer ≡ n

-- The buffer has the length that the URB tells, and no more bytes are reported than that.
pub record IsTransfer (urb : Urb) : Type 0 where
  pub buffer_length : HasLength urb.transfer_buffer urb.transfer_buffer_length
  pub reported : urb.actual_length ≤ urb.transfer_buffer_length

copy_to_buffer-IsTransfer :
    (urb : Urb) (buffer : Option Bytes) (bytes : Bytes)
    → urb.transfer_buffer ≡ buffer
    → IsTransfer urb
    → IsTransfer (copy_to_urb urb bytes).0
unfolding copy_to_urb
copy_to_buffer-IsTransfer urb none bytes e h =
    ground (arith, h.buffer_length, h.reported, min-le (length bytes) urb.transfer_buffer_length)
copy_to_buffer-IsTransfer urb (some buffer) bytes e h =
    let n = min (length bytes) urb.transfer_buffer_length in
    ground (
      arith,
      h.buffer_length,
      h.reported,
      min-le (length bytes) urb.transfer_buffer_length,
      length-take_le n bytes,
      length-write_at 0 (take n bytes) buffer,
    )

pub copy_to_urb-IsTransfer :
    (urb : Urb) (bytes : Bytes) → IsTransfer urb → IsTransfer (copy_to_urb urb bytes).0
copy_to_urb-IsTransfer urb bytes h = copy_to_buffer-IsTransfer urb urb.transfer_buffer bytes refl h

module _ {ℓ} {C : Type ℓ} (call : UsbCall C) (h : IsTransfer call.urb) where
  reply-IsTransfer : (bytes : Bytes) → IsTransfer (reply call bytes).0.urb
  unfolding reply
  reply-IsTransfer bytes = copy_to_urb-IsTransfer call.urb bytes h

  reply_string-IsTransfer : (text : Option Bytes) → IsTransfer (reply_string call text).0.urb
  unfolding reply_string copy_string_descriptor
  reply_string-IsTransfer none = copy_to_urb-IsTransfer call.urb _ h
  reply_string-IsTransfer (some text) = copy_to_urb-IsTransfer call.urb _ h

  audio_get-IsTransfer :
      (setup : UsbCtrlrequest) (feature : AudioFeature)
      → IsTransfer (audio_get call setup feature).0.urb
  unfolding audio_get volume_reply
  audio_get-IsTransfer setup feature = grind (arith, h, reply-IsTransfer)

  audio_set-IsTransfer :
      (setup : UsbCtrlrequest) (feature : AudioFeature) (buffer : Bytes)
      → IsTransfer (audio_set call setup feature buffer).0.urb
  unfolding audio_set set_mute set_volume
  audio_set-IsTransfer setup feature buffer = ground (arith, h.buffer_length, h.reported)

  audio_control-IsTransfer :
      (setup : UsbCtrlrequest) (profile : VdsControllerProfile)
      → IsTransfer (audio_control call setup profile).0.urb
  unfolding audio_control audio_request
  audio_control-IsTransfer setup profile =
      grind (arith, h, audio_get-IsTransfer, audio_set-IsTransfer)

  get_descriptor-IsTransfer :
      (setup : UsbCtrlrequest) (profile : VdsControllerProfile)
      → IsTransfer (get_descriptor call setup profile).0.urb
  unfolding get_descriptor get_string get_hid_descriptor
  get_descriptor-IsTransfer setup profile =
      grind (arith, h, reply-IsTransfer, reply_string-IsTransfer)

  get_interface-IsTransfer :
      (setup : UsbCtrlrequest) (profile : VdsControllerProfile)
      → IsTransfer (get_interface call setup profile).0.urb
  unfolding get_interface
  get_interface-IsTransfer setup profile = grind (arith, h, reply-IsTransfer)

  module _ (ops : VdsUsbDeviceOps C) where
    get_feature_report-IsTransfer :
        (setup : UsbCtrlrequest) (report_id : ℕ)
        → IsTransfer (get_feature_report ops call setup report_id).0.urb
    unfolding get_feature_report forward_feature_get copy_cached_feature_report
    get_feature_report-IsTransfer setup report_id =
        ground (arith, h, copy_to_urb-IsTransfer call.urb (call.usb.feature_cache report_id))

    set_report-IsTransfer : (setup : UsbCtrlrequest) → IsTransfer (set_report ops call setup).0.urb
    unfolding set_report set_feature_report
    set_report-IsTransfer setup = ground (arith, h.buffer_length, h.reported)

    hid_control-IsTransfer :
        (setup : UsbCtrlrequest) (profile : VdsControllerProfile)
        → IsTransfer (hid_control ops call setup profile).0.urb
    unfolding hid_control
    hid_control-IsTransfer setup profile =
        grind (arith, h, reply-IsTransfer, get_feature_report-IsTransfer, set_report-IsTransfer)

    set_interface-IsTransfer :
        (setup : UsbCtrlrequest) (profile : VdsControllerProfile)
        → IsTransfer (set_interface ops call setup profile).0.urb
    unfolding set_interface select_audio_in select_audio_out
    set_interface-IsTransfer setup profile = ground (arith, h)

    set_configuration-IsTransfer :
        (setup : UsbCtrlrequest) (profile : VdsControllerProfile)
        → IsTransfer (set_configuration ops call setup profile).0.urb
    unfolding set_configuration
    set_configuration-IsTransfer setup profile = ground (arith, h)

    standard_control-IsTransfer :
        (setup : UsbCtrlrequest) (profile : VdsControllerProfile)
        → IsTransfer (standard_control ops call setup profile).0.urb
    unfolding standard_control
    standard_control-IsTransfer setup profile = ground (
      arith,
      h,
      get_descriptor-IsTransfer setup profile,
      set_configuration-IsTransfer setup profile,
      set_interface-IsTransfer setup profile,
      get_interface-IsTransfer setup profile,
      reply-IsTransfer (call.usb.configuration ∷ []),
      reply-IsTransfer (0 ∷ 0 ∷ []),
    )

    control_request-IsTransfer :
        (setup : UsbCtrlrequest) (profile : VdsControllerProfile)
        → IsTransfer (control_request ops call setup profile).0.urb
    unfolding control_request
    control_request-IsTransfer setup profile = ground (
      arith,
      h,
      standard_control-IsTransfer setup profile,
      hid_control-IsTransfer setup profile,
      audio_control-IsTransfer setup profile,
    )

reset-IsTransfer : (urb : Urb) → IsTransfer urb → IsTransfer (record urb { actual_length = 0 })
reset-IsTransfer urb h = record { buffer_length = h.buffer_length; reported = omega arith }

control_setup-IsTransfer :
    {C : Type 0} (ops : VdsUsbDeviceOps C) (call : UsbCall C) (setup : Option UsbCtrlrequest)
    → call.urb.setup_packet ≡ setup
    → IsTransfer call.urb
    → IsTransfer (usb_device_control_urb ops call).0.urb
unfolding usb_device_control_urb
control_setup-IsTransfer ops call none e h = ground (arith, e, h)
control_setup-IsTransfer ops call (some setup) e h =
    let reset = record call { urb = record call.urb { actual_length = 0 } } in
    let profile = usb_device_profile call.usb in
    ground
      (arith, e, control_request-IsTransfer reset (reset-IsTransfer call.urb h) ops setup profile)

-- Every control request, whatever the device asks of its controller: where the URB has a buffer of
-- the length it tells, the buffer keeps that length, so that nothing is written behind its end, and
-- the number of bytes reported as transferred is at most that length.
pub usb_device_control_urb-IsTransfer :
    {C : Type 0} (ops : VdsUsbDeviceOps C) (call : UsbCall C)
    → IsTransfer call.urb
    → IsTransfer (usb_device_control_urb ops call).0.urb
usb_device_control_urb-IsTransfer ops call h =
    control_setup-IsTransfer ops call call.urb.setup_packet refl h

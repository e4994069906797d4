-- ===== src/Hcd/Usb/Control.antt =====
-- Control requests of the virtual USB device: the second part of module/vds_usb_core.c.
use windows_vds.Prelude.{
  ℕ, Bool, true, false, not, ◌&&◌, [], ◌∷◌, ◌*◌, ◌+◌, ◌/◌, ◌%◌, ltb, ◌==◌, if◌then◌else◌, Bytes,
  Option, none, some, take, get_or, replicate,
}
use windows_vds.Hcd.Types.{
  success, epipe, enoent, einprogress, hid_packet_size, Urb, UsbCtrlrequest, FrameType,
  usb_feature_get, usb_feature_set, StatusFlags,
}
use windows_vds.Hcd.Profile.{VdsControllerProfile, AudioFeature, speaker, mic, audio_feature_index}
use windows_vds.Hcd.Usb.{
  VdsUsbDevice, copy_to_urb, copy_string_descriptor, copy_cached_feature_report, le16,
  spk_volume_min, spk_volume_max, spk_volume_res,
}

-- What the device calls of its controller, whose state is `C`.
pub record VdsUsbDeviceOps {ℓ} (C : Type ℓ) : Type ℓ where
  pub enqueue_frame : C → FrameType → Bytes → C × ℕ
  pub defer_feature_get : C → Urb → ℕ → C × ℕ
  pub set_status : C → StatusFlags → Bool → C

-- The device, the request's URB and the controller, as a handler finds and leaves them.
pub record UsbCall {ℓ} (C : Type ℓ) : Type ℓ where
  pub usb : VdsUsbDevice
  pub urb : Urb
  pub context : C

abbrev pub same_feature : AudioFeature → AudioFeature → Bool
same_feature speaker speaker = true
same_feature mic mic = true
same_feature _ _ = false

-- An array of two entries, changed at one.
abbrev pub store_feature : (AudioFeature → ℕ) → AudioFeature → ℕ → AudioFeature → ℕ
store_feature old feature value f = if same_feature f feature then value else old f

abbrev pub is_dir_in : UsbCtrlrequest → Bool
is_dir_in setup = (setup.request_type / 128) % 2 == 1

module _ {ℓ} {C : Type ℓ} where
  unfoldable pub reply : UsbCall C → Bytes → UsbCall C × ℕ
  reply call bytes =
      let answer = copy_to_urb call.urb bytes in (record call { urb = answer.0 }, answer.1)

  unfoldable pub reply_string : UsbCall C → Option Bytes → UsbCall C × ℕ
  reply_string call text =
      let answer = copy_string_descriptor call.urb text in
      (record call { urb = answer.0 }, answer.1)

  -- `none` is a request that is not in the switch.
  unfoldable pub volume_reply : UsbCall C → AudioFeature → ℕ → Option ℕ
  volume_reply call feature request =
      if request == 0x81
      then some (call.usb.audio_volume feature)
      else (if request == 0x82
          then some spk_volume_min
          else (if request == 0x83
              then some spk_volume_max
              else (if request == 0x84 then some spk_volume_res else none)))

  unfoldable pub audio_get : UsbCall C → UsbCtrlrequest → AudioFeature → UsbCall C × ℕ
  audio_get call setup feature =
      let selector = setup.value / 256 in
      if selector == 1
      then (if not (setup.request == 0x81)
          then (call, epipe)
          else reply call (call.usb.audio_mute feature ∷ []))
      else (if selector == 2
          then (elim (volume_reply call feature setup.request) [
            | none ↦ (call, epipe)
            | some volume ↦ reply call (le16 volume)
          ])
          else (call, epipe))

  unfoldable pub set_mute : UsbCall C → AudioFeature → ℕ → UsbCall C × ℕ
  set_mute call feature value = (
    record call {
      usb = record call.usb { audio_mute = store_feature call.usb.audio_mute feature value };
      urb = record call.urb { actual_length = 1 };
    },
    success,
  )

  unfoldable pub set_volume : UsbCall C → AudioFeature → ℕ → UsbCall C × ℕ
  set_volume call feature value = (
    record call {
      usb = record call.usb { audio_volume = store_feature call.usb.audio_volume feature value };
      urb = record call.urb { actual_length = 2 };
    },
    success,
  )

  unfoldable pub audio_set : UsbCall C → UsbCtrlrequest → AudioFeature → Bytes → UsbCall C × ℕ
  audio_set call setup feature buffer =
      let selector = setup.value / 256 in
      if (selector == 1) && ltb 0 call.urb.transfer_buffer_length
      then set_mute call feature (get_or buffer 0 0)
      else (if (selector == 2) && ltb 1 call.urb.transfer_buffer_length
          then set_volume call feature (get_or buffer 0 0 + 256 * get_or buffer 1 0)
          else (call, epipe))

  unfoldable pub audio_request : UsbCall C → UsbCtrlrequest → AudioFeature → UsbCall C × ℕ
  audio_request call setup feature =
      if is_dir_in setup then audio_get call setup feature else (elim call.urb.transfer_buffer [
        | none ↦ (call, epipe)
        | some buffer ↦
            (if not (setup.request == 0x01)
              then (call, epipe)
              else audio_set call setup feature buffer)
      ])

  unfoldable pub audio_control : UsbCall C → UsbCtrlrequest → VdsControllerProfile → UsbCall C × ℕ
  audio_control call setup profile =
      if not (setup.index % 256 == profile.audio_control_interface)
      then (call, epipe)
      else (elim (audio_feature_index profile (setup.index / 256)) [
        | none ↦ (call, epipe)
        | some feature ↦ audio_request call setup feature
      ])

  module _ (ops : VdsUsbDeviceOps C) where
    -- The URB waits for the physical controller before user space sees the request.
    unfoldable pub forward_feature_get : UsbCall C → UsbCtrlrequest → ℕ → UsbCall C × ℕ
    forward_feature_get call setup report_id =
        let deferred = ops.defer_feature_get call.context call.urb report_id in
        let sent =
          ops.enqueue_frame deferred.0 usb_feature_get
            (report_id ∷ setup.length % 256 ∷ setup.length / 256 ∷ []) in
        if not (deferred.1 == success)
        then (record call { context = deferred.0 }, deferred.1)
        else (record call { context = sent.0 }, if sent.1 == success then einprogress else sent.1)

    unfoldable pub get_feature_report : UsbCall C → UsbCtrlrequest → ℕ → UsbCall C × ℕ
    get_feature_report call setup report_id =
        let cached = copy_cached_feature_report call.usb call.urb report_id in
        if not (cached.1 == enoent)
        then (record call { urb = cached.0 }, cached.1)
        else forward_feature_get call setup report_id

    unfoldable pub set_feature_report : UsbCall C → ℕ → Bytes → UsbCall C × ℕ
    set_feature_report call report_id buffer =
        let len = call.urb.transfer_buffer_length in
        let sent = ops.enqueue_frame call.context usb_feature_set (report_id ∷ take len buffer) in
        if ltb hid_packet_size len
        then (call, epipe)
        else (if not (sent.1 == success) then (record call { context = sent.0 }, sent.1) else (
          record call { context = sent.0; urb = record call.urb { actual_length = len } },
          success,
        ))

    unfoldable pub set_report : UsbCall C → UsbCtrlrequest → UsbCall C × ℕ
    set_report call setup =
        if not (setup.value / 256 == 3)
        then (call, epipe)
        else (if call.urb.transfer_buffer_length == 0
            then (record call { urb = record call.urb { actual_length = 0 } }, success)
            else (elim call.urb.transfer_buffer [
              | none ↦ (call, epipe)
              | some buffer ↦ set_feature_report call (setup.value % 256) buffer
            ]))

    unfoldable pub hid_control : UsbCall C → UsbCtrlrequest → VdsControllerProfile → UsbCall C × ℕ
    hid_control call setup profile =
        if not (setup.index % 256 == profile.hid_interface)
        then (call, epipe)
        else (if setup.request == 0x01
            then (if setup.value / 256 == 3
                then get_feature_report call setup (setup.value % 256)
                else reply call (setup.value % 256 ∷ replicate 63 0))
            else (if setup.request == 0x09
                then set_report call setup
                else (if setup.request == 0x02
                    then reply call (call.usb.hid_idle ∷ [])
                    else (if setup.request == 0x03
                        then reply call (call.usb.hid_protocol ∷ [])
                        else (if setup.request == 0x0a
                            then (
                              record call {
                                usb = record call.usb { hid_idle = setup.value / 256 };
                              },
                              success,
                            )
                            else (if setup.request == 0x0b
                                then (
                                  record call {
                                    usb = record call.usb { hid_protocol = setup.value % 256 };
                                  },
                                  success,
                                )
                                else (call, epipe)))))))

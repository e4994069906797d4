-- ===== src/Hcd/Usb/Standard.antt =====
-- The standard requests of the virtual USB device, and the choice of the handler, in
-- module/vds_usb_core.c.
use windows_vds.Prelude.{
  ℕ, true, false, not, ◌||◌, ◌&&◌, [], ◌∷◌, ◌++◌, ◌/◌, ◌%◌, ltb, ◌==◌, if◌then◌else◌, Bytes, none,
  some,
}
use windows_vds.Hcd.Types.{success, epipe, UsbCtrlrequest, usb_interface, StatusFlags}
use windows_vds.Hcd.Profile.{VdsControllerProfile}
use windows_vds.Hcd.Usb.{le16, usb_device_profile}
use windows_vds.Hcd.Usb.Control.{
  VdsUsbDeviceOps, UsbCall, reply, reply_string, audio_control, hid_control,
}

unfoldable pub device_descriptor : VdsControllerProfile → Bytes
unfolding le16
device_descriptor p =
    (18
      ∷ 1
      ∷ 0x00
      ∷ 0x02
      ∷ p.device_class
      ∷ p.device_subclass
      ∷ p.device_protocol
      ∷ p.max_packet_size0
      ∷ le16 0x054c)
    ++ (le16 p.product_id ++ (le16 p.device_version ++ (1 ∷ 2 ∷ 0 ∷ p.num_configurations ∷ [])))

abbrev pub qualifier_desc : Bytes
qualifier_desc = 10 ∷ 6 ∷ 0x00 ∷ 0x02 ∷ 0 ∷ 0 ∷ 0 ∷ 64 ∷ 1 ∷ 0 ∷ []

abbrev pub configured_flags : StatusFlags
configured_flags = record {
  connected = false;
  configured = true;
  hid_enabled = true;
  audio_enabled = false;
}

abbrev pub audio_flag : StatusFlags
audio_flag = record {
  connected = false;
  configured = false;
  hid_enabled = false;
  audio_enabled = true;
}

module _ {ℓ} {C : Type ℓ} where
  unfoldable pub get_string : UsbCall C → VdsControllerProfile → ℕ → UsbCall C × ℕ
  get_string call profile index =
      if index == 0
      then reply_string call none
      else (if index == 1
          then reply_string call (some profile.manufacturer)
          else (if index == 2 then reply_string call (some profile.product) else (call, epipe)))

  unfoldable pub get_hid_descriptor :
      UsbCall C → UsbCtrlrequest → VdsControllerProfile → Bytes → UsbCall C × ℕ
  get_hid_descriptor call setup profile descriptor =
      if not (setup.index % 256 == profile.hid_interface)
      then (call, epipe)
      else reply call descriptor

  unfoldable pub get_descriptor : UsbCall C → UsbCtrlrequest → VdsControllerProfile → UsbCall C × ℕ
  get_descriptor call setup profile =
      let desc_type = setup.value / 256 in
      if desc_type == 0x01
      then reply call (device_descriptor profile)
      else (if desc_type == 0x02
          then reply call profile.configuration_descriptor
          else (if desc_type == 0x06
              then reply call qualifier_desc
              else (if desc_type == 0x03
                  then get_string call profile (setup.value % 256)
                  else (if desc_type == 0x22
                      then get_hid_descriptor call setup profile profile.hid_report_descriptor
                      else (if desc_type == 0x21
                          then get_hid_descriptor call setup profile profile.hid_descriptor
                          else (call, epipe))))))

  unfoldable pub get_interface : UsbCall C → UsbCtrlrequest → VdsControllerProfile → UsbCall C × ℕ
  get_interface call setup profile =
      let intf = setup.index % 256 in
      if intf == profile.audio_out_interface
      then reply call (call.usb.audio_out_altsetting ∷ [])
      else (if not (profile.audio_in_interface == 0xff) && (intf == profile.audio_in_interface)
          then reply call (call.usb.audio_in_altsetting ∷ [])
          else (if intf == profile.hid_interface then reply call (0 ∷ []) else (call, epipe)))

  module _ (ops : VdsUsbDeviceOps C) where
    unfoldable pub enqueue_interface_event : C → ℕ → ℕ → ℕ → C
    enqueue_interface_event context interface_number altsetting interface_type =
        (ops.enqueue_frame context usb_interface
          (interface_number ∷ altsetting ∷ interface_type ∷ 0 ∷ [])).0

    unfoldable pub set_configuration :
        UsbCall C → UsbCtrlrequest → VdsControllerProfile → UsbCall C × ℕ
    set_configuration call setup profile =
        if not (setup.value == 0) && not (setup.value == profile.configuration_value)
        then (call, epipe)
        else (
          record call {
            usb = record call.usb {
              configuration = setup.value % 256;
              audio_out_altsetting = 0;
              audio_in_altsetting = 0;
            };
            context =
                ops.set_status
                  (ops.set_status call.context configured_flags
                    (setup.value % 256 == profile.configuration_value))
                  audio_flag false;
          },
          success,
        )

    unfoldable pub select_audio_out : UsbCall C → VdsControllerProfile → ℕ → UsbCall C × ℕ
    select_audio_out call profile altsetting = (
      record call {
        usb = record call.usb { audio_out_altsetting = altsetting };
        context =
            enqueue_interface_event (ops.set_status call.context audio_flag (altsetting == 1))
              profile.audio_out_interface altsetting 1;
      },
      success,
    )

    unfoldable pub select_audio_in : UsbCall C → VdsControllerProfile → ℕ → UsbCall C × ℕ
    select_audio_in call profile altsetting = (
      record call {
        usb = record call.usb { audio_in_altsetting = altsetting };
        context = enqueue_interface_event call.context profile.audio_in_interface altsetting 2;
      },
      success,
    )

    unfoldable pub set_interface : UsbCall C → UsbCtrlrequest → VdsControllerProfile → UsbCall C × ℕ
    set_interface call setup profile =
        let intf = setup.index % 256 in
        if intf == profile.hid_interface
        then (if not (setup.value == 0) then (call, epipe) else (
          record call { context = enqueue_interface_event call.context profile.hid_interface 0 0 },
          success,
        ))
        else (if ltb 1 setup.value
            then (call, epipe)
            else (if intf == profile.audio_out_interface
                then select_audio_out call profile (setup.value % 256)
                else (if not (profile.audio_in_interface == 0xff)
                      && (intf == profile.audio_in_interface)
                    then select_audio_in call profile (setup.value % 256)
                    else (call, epipe))))

    unfoldable pub standard_control :
        UsbCall C → UsbCtrlrequest → VdsControllerProfile → UsbCall C × ℕ
    standard_control call setup profile =
        if setup.request == 0x06
        then get_descriptor call setup profile
        else (if setup.request == 0x05
            then (record call { usb = record call.usb { address = setup.value % 128 } }, success)
            else (if setup.request == 0x09
                then set_configuration call setup profile
                else (if setup.request == 0x08
                    then reply call (call.usb.configuration ∷ [])
                    else (if setup.request == 0x0b
                        then set_interface call setup profile
                        else (if setup.request == 0x0a
                            then get_interface call setup profile
                            else (if setup.request == 0x00
                                then reply call (0 ∷ 0 ∷ [])
                                else (if (setup.request == 0x01) || (setup.request == 0x03)
                                    then (call, success)
                                    else (call, epipe))))))))

    unfoldable pub control_request :
        UsbCall C → UsbCtrlrequest → VdsControllerProfile → UsbCall C × ℕ
    control_request call setup profile =
        let type = (setup.request_type / 32) % 4 in
        if type == 0
        then standard_control call setup profile
        else (if (type == 1) && (setup.request_type % 32 == 1)
            then (if setup.index % 256 == profile.hid_interface
                then hid_control ops call setup profile
                else audio_control call setup profile)
            else (call, epipe))

    unfoldable pub usb_device_control_urb : UsbCall C → UsbCall C × ℕ
    usb_device_control_urb call = elim call.urb.setup_packet [
      | none ↦ (call, epipe)
      | some setup ↦
          control_request (record call { urb = record call.urb { actual_length = 0 } }) setup
            (usb_device_profile call.usb)
    ]

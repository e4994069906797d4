-- ===== src/Hcd/Usb.antt =====
-- The state of the virtual USB device: module/vds_usb.h and the first part of
-- module/vds_usb_core.c.
pub mod Control
pub mod Standard
pub mod Transfers
pub mod Context
use windows_vds.Prelude.{
  ℕ, Bool, not, ◌||◌, ◌&&◌, [], ◌∷◌, ◌++◌, ◌+◌, ◌/◌, ◌%◌, ltb, ◌==◌, if◌then◌else◌, Bytes, Option,
  none, some, length, take, drop, get_or,
}
use windows_vds.Hcd.Types.{success, einval, epipe, enoent, hid_packet_size, Urb}
use windows_vds.Hcd.Profile.{
  VdsControllerProfile, vds_dualsense_profile, vds_dualsense_edge_profile, vds_profile_ds5,
  vds_profile_dse, AudioFeature,
}

-- A volume is the unsigned 16-bit word of the signed one. `feature_cache` holds the first
-- `feature_cache_len` bytes of each report; a length of zero is the empty list.
pub record VdsUsbDevice : Type 0 where
  pub profile : ℕ
  pub address : ℕ
  pub configuration : ℕ
  pub audio_out_altsetting : ℕ
  pub audio_in_altsetting : ℕ
  pub hid_idle : ℕ
  pub hid_protocol : ℕ
  pub audio_mute : AudioFeature → ℕ
  pub audio_volume : AudioFeature → ℕ
  pub feature_cache : ℕ → Bytes

unfoldable pub valid_profile : ℕ → Bool
valid_profile profile = (profile == vds_profile_ds5) || (profile == vds_profile_dse)

unfoldable pub controller_profile_for_profile : ℕ → VdsControllerProfile
controller_profile_for_profile profile =
    if profile == vds_profile_dse then vds_dualsense_edge_profile else vds_dualsense_profile

-- -100 * 256 as a 16-bit word.
abbrev pub spk_volume_min : ℕ
spk_volume_min = 0x9c00

abbrev pub spk_volume_max : ℕ
spk_volume_max = 0

abbrev pub spk_volume_res : ℕ
spk_volume_res = 0x0100

unfoldable pub reset_state : VdsUsbDevice → VdsUsbDevice
reset_state dev = record dev {
  address = 0;
  configuration = 0;
  audio_out_altsetting = 0;
  audio_in_altsetting = 0;
  hid_idle = 0;
  hid_protocol = 0;
  audio_mute = λ _. 0;
  audio_volume = λ _. spk_volume_min;
  feature_cache = λ _. [];
}

unfoldable pub usb_device_init : ℕ → VdsUsbDevice
usb_device_init profile = reset_state (record {
  profile = if valid_profile profile then profile else vds_profile_ds5;
  address = 0;
  configuration = 0;
  audio_out_altsetting = 0;
  audio_in_altsetting = 0;
  hid_idle = 0;
  hid_protocol = 0;
  audio_mute = λ _. 0;
  audio_volume = λ _. 0;
  feature_cache = λ _. [];
})

unfoldable pub usb_device_set_profile : VdsUsbDevice → ℕ → VdsUsbDevice × ℕ
usb_device_set_profile dev profile =
    if not (valid_profile profile)
    then (dev, einval)
    else (reset_state (record dev { profile = profile }), success)

unfoldable pub usb_device_profile : VdsUsbDevice → VdsControllerProfile
usb_device_profile dev = controller_profile_for_profile dev.profile

-- An array of 256 entries, changed at one index.
abbrev pub store_report : (ℕ → Bytes) → ℕ → Bytes → ℕ → Bytes
store_report cache id report i = if i == id then report else cache i

unfoldable pub update_feature_reply : VdsUsbDevice → Bytes → VdsUsbDevice × ℕ
update_feature_reply dev payload =
    if (length payload == 0) || ltb hid_packet_size (length payload) then (dev, einval) else (
      record dev { feature_cache = store_report dev.feature_cache (get_or payload 0 0) payload },
      success,
    )

-- `& USB_ENDPOINT_NUMBER_MASK`, the low four bits.
unfoldable pub endpoint_number : ℕ → ℕ
endpoint_number address = address % 16

unfoldable pub is_hid_in : VdsUsbDevice → ℕ → Bool
is_hid_in dev endpoint = endpoint == endpoint_number (usb_device_profile dev).hid_in_endpoint

unfoldable pub is_hid_out : VdsUsbDevice → ℕ → Bool
is_hid_out dev endpoint = endpoint == endpoint_number (usb_device_profile dev).hid_out_endpoint

unfoldable pub is_audio_out : VdsUsbDevice → ℕ → Bool
is_audio_out dev endpoint = endpoint == endpoint_number (usb_device_profile dev).audio_out_endpoint

unfoldable pub is_audio_in : VdsUsbDevice → ℕ → Bool
is_audio_in dev endpoint =
    not ((usb_device_profile dev).audio_in_endpoint == 0xff)
    && (endpoint == endpoint_number (usb_device_profile dev).audio_in_endpoint)

unfoldable pub min : ℕ → ℕ → ℕ
min a b = if ltb a b then a else b

-- `memcpy` to an offset of a buffer.
unfoldable pub write_at : ℕ → Bytes → Bytes → Bytes
write_at offset bytes buffer = take offset buffer ++ (bytes ++ drop (offset + length bytes) buffer)

unfoldable pub copy_to_urb : Urb → Bytes → Urb × ℕ
copy_to_urb urb bytes =
    let copy_len = min (length bytes) urb.transfer_buffer_length in
    elim urb.transfer_buffer [
      | none ↦ if copy_len == 0 then (record urb { actual_length = 0 }, success) else (urb, epipe)
      | some buffer ↦ (
        record urb {
          transfer_buffer = some (write_at 0 (take copy_len bytes) buffer);
          actual_length = copy_len;
        },
        success,
      )
    ]

unfoldable pub string_units : Bytes → Bytes
string_units [] = []
string_units (c ∷ text) = c ∷ 0 ∷ string_units text

-- The loop has room for 126 characters.
unfoldable pub copy_string_descriptor : Urb → Option Bytes → Urb × ℕ
copy_string_descriptor urb none = copy_to_urb urb (4 ∷ 0x03 ∷ 0x09 ∷ 0x04 ∷ [])
copy_string_descriptor urb (some text) =
    let units = string_units (take 126 text) in copy_to_urb urb ((2 + length units) ∷ 0x03 ∷ units)

unfoldable pub copy_cached_feature_report : VdsUsbDevice → Urb → ℕ → Urb × ℕ
copy_cached_feature_report dev urb id =
    if length (dev.feature_cache id) == 0
    then (urb, enoent)
    else copy_to_urb urb (dev.feature_cache id)

unfoldable pub le16 : ℕ → Bytes
le16 word = word % 256 ∷ (word / 256) % 256 ∷ []

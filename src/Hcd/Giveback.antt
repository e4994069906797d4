-- ===== src/Hcd/Giveback.antt =====
-- When URBs are given back, and the thread that does it, in module/vds_hcd_core.c. A round of the
-- thread is one step here.
pub mod Queues
pub mod Liveness
use windows_vds.Prelude.{
  ℕ, Bool, ◌||◌, ◌&&◌, List, [], ◌∷◌, ◌++◌, ◌-◌, ◌+◌, ◌*◌, ◌/◌, ◌%◌, ltb, ◌==◌, if◌then◌else◌,
  Bytes, length, take, none, some,
}
use windows_vds.Hcd.Types.{success, Urb, UsbIsoPacketDescriptor, UrbContext}
use windows_vds.Hcd.Usb.{usb_device_profile, min, write_at}
use windows_vds.Hcd.Device.{VdsHcdDev, queue_urb_giveback}
use windows_vds.Hcd.Iso.{iso_out_urb, iso_in_urb, audio_in_bytes_per_ms, audio_out_bytes_per_ms}

unfoldable pub max : ℕ → ℕ → ℕ
max a b = if ltb a b then b else a

-- A URB is due when less than a microsecond is left.
unfoldable pub is_due : UrbContext → ℕ → Bool
is_due c now = (c.ready_time == 0) || ltb c.ready_time (now + 1000)

unfoldable pub deliver_out : VdsHcdDev → (ℕ → Bool) → UrbContext → VdsHcdDev × Urb × ℕ
deliver_out dev memory c =
    if (c.status == success) && c.deliver_iso_out
    then iso_out_urb dev memory c.urb
    else (dev, c.urb, c.status)

unfoldable pub deliver_in : UrbContext → VdsHcdDev × Urb × ℕ → VdsHcdDev × Urb × ℕ
deliver_in c (dev, urb, status) =
    if (status == success) && c.deliver_iso_in then iso_in_urb dev urb else (dev, urb, status)

unfoldable pub give_back : VdsHcdDev × Urb × ℕ → VdsHcdDev
give_back (dev, urb, status) = record dev { given_back = dev.given_back ++ (urb, status) ∷ [] }

-- A round of the thread at the time `now`; while the first URB is not due it sleeps.
unfoldable pub giveback_step : VdsHcdDev → (ℕ → Bool) → ℕ → VdsHcdDev
giveback_step dev memory now = elim dev.completed_urbs [
  | [] ↦ dev
  | c ∷ queue ↦
      (if is_due c now
        then give_back (deliver_in c (deliver_out (record dev { completed_urbs = queue }) memory c))
        else dev)
]

unfoldable pub fill_hid_in_urb : Urb → Bytes → Urb
fill_hid_in_urb urb payload =
    let copy_len = min (length payload) urb.transfer_buffer_length in
    record urb {
      transfer_buffer = elim urb.transfer_buffer [
        | none ↦ none
        | some buffer ↦ some (write_at 0 (take copy_len payload) buffer)
      ];
      actual_length = copy_len;
    }

unfoldable pub hid_in_ready : VdsHcdDev → ℕ → ℕ
hid_in_ready dev now =
    max dev.next_hid_in_ready now + (usb_device_profile dev.usb).hid_in_interval_us * 1000

-- `vds_schedule_hid_in_giveback_locked` and the giveback that follows it.
unfoldable pub complete_hid_in : VdsHcdDev → UrbContext → Bytes → ℕ → VdsHcdDev
complete_hid_in dev c payload now =
    queue_urb_giveback (record dev { next_hid_in_ready = hid_in_ready dev now })
      (record c { urb = fill_hid_in_urb c.urb payload; ready_time = hid_in_ready dev now }) success

-- The sums and products wrap where the source has 32 bits for them.
abbrev pub u32 : ℕ → ℕ
u32 n = n % 4294967296

unfoldable pub iso_bytes : Bool → List UsbIsoPacketDescriptor → ℕ
iso_bytes input [] = 0
iso_bytes input (desc ∷ descs) =
    u32 (
      (if input then min desc.length audio_in_bytes_per_ms else desc.length)
      + iso_bytes input descs)

unfoldable pub iso_duration_us : Bool → List UsbIsoPacketDescriptor → ℕ
iso_duration_us input descs =
    let total = iso_bytes input descs in
    let bytes_per_ms = if input then audio_in_bytes_per_ms else audio_out_bytes_per_ms in
    if total == 0
    then u32 (max (length descs) 1 * 1000)
    else max (u32 ((total * 1000 + (bytes_per_ms - 1)) / bytes_per_ms)) 1000

unfoldable pub iso_base : VdsHcdDev → Bool → ℕ → ℕ
iso_base dev input now = max (if input then dev.next_iso_in_ready else dev.next_iso_out_ready) now

-- `vds_schedule_iso_giveback` and the giveback that follows it. `start_frame` stands for the bits of
-- the `int`.
unfoldable pub schedule_iso : VdsHcdDev → UrbContext → Bool → ℕ → VdsHcdDev
schedule_iso dev c input now =
    let base = iso_base dev input now in
    let ready = base + iso_duration_us input c.urb.iso_frame_desc * 1000 in
    queue_urb_giveback
      (record dev {
        next_iso_in_ready = if input then ready else dev.next_iso_in_ready;
        next_iso_out_ready = if input then dev.next_iso_out_ready else ready;
      })
      (record c { urb = record c.urb { start_frame = u32 (base / 1000000) }; ready_time = ready })
      success

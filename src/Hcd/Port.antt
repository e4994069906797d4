-- ===== src/Hcd/Port.antt =====
-- The port of the controller: connection, root hub, start and stop, and the calls of user space other
-- than read and write, in module/vds_hcd_core.c.
use windows_vds.Prelude.{
  ℕ, Bool, true, false, not, ◌||◌, ◌&&◌, [], ◌==◌, if◌then◌else◌, Bytes, take,
}
use windows_vds.Hcd.Types.{
  success, efault, ebusy, eshutdown, enotty, eopnotsupp, StatusFlags, no_status_flags,
  set_status_flags, status_word,
}
use windows_vds.Hcd.Usb.{usb_device_init, usb_device_set_profile, reset_state}
use windows_vds.Hcd.Device.{VdsHcdDev, PortStatus, cancel_pending_urbs, flush_buffered_frames}

abbrev pub connected_flag : StatusFlags
connected_flag = record no_status_flags { connected = true }

abbrev pub usb_flags : StatusFlags
usb_flags = record {
  connected = false;
  configured = true;
  hid_enabled = true;
  audio_enabled = true;
}

abbrev pub all_flags : StatusFlags
all_flags = record usb_flags { connected = true }

abbrev pub no_port_status : PortStatus
no_port_status = record {
  connection = false;
  enable = false;
  reset = false;
  power = false;
  high_speed = false;
  c_connection = false;
  c_enable = false;
  c_suspend = false;
  c_over_current = false;
  c_reset = false;
}

-- The state that probe sets up.
unfoldable pub hcd_probe : VdsHcdDev
hcd_probe = record {
  events = [];
  hid_in_urbs = [];
  feature_get_urbs = [];
  completed_urbs = [];
  given_back = [];
  input_packets = [];
  audio_in_packets = [];
  frames_to_user = 0;
  frames_from_user = 0;
  next_sequence = 0;
  next_iso_out_ready = 0;
  next_iso_in_ready = 0;
  next_hid_in_ready = 0;
  event_count = 0;
  status_flags = no_status_flags;
  port_status = no_port_status;
  stopping = false;
  opened = false;
  input_packet_count = 0;
  audio_in_packet_count = 0;
  audio_in_queued_bytes = 0;
  usb = usb_device_init 0;
}

unfoldable pub hcd_start : VdsHcdDev → VdsHcdDev
hcd_start dev = record dev {
  stopping = false;
  next_iso_out_ready = 0;
  next_iso_in_ready = 0;
  next_hid_in_ready = 0;
  port_status = record no_port_status { power = true };
  status_flags = set_status_flags dev.status_flags connected_flag false;
}

unfoldable pub hcd_stop : VdsHcdDev → VdsHcdDev
hcd_stop dev =
    record (flush_buffered_frames
      (cancel_pending_urbs (record dev { stopping = true }) eshutdown)) {
        status_flags = no_status_flags;
      }

unfoldable pub connect : VdsHcdDev → VdsHcdDev
connect dev = record dev {
  port_status = record dev.port_status {
    power = true;
    connection = true;
    c_connection = dev.port_status.c_connection || not dev.port_status.connection;
  };
  status_flags = set_status_flags dev.status_flags connected_flag true;
}

unfoldable pub disconnect_port : VdsHcdDev → VdsHcdDev
disconnect_port dev = record dev {
  port_status = record dev.port_status {
    connection = false;
    enable = false;
    high_speed = false;
    c_connection = dev.port_status.c_connection || dev.port_status.connection;
  };
}

unfoldable pub reset_link : VdsHcdDev → VdsHcdDev
reset_link dev = record dev {
  next_iso_out_ready = 0;
  next_iso_in_ready = 0;
  next_hid_in_ready = 0;
  status_flags = set_status_flags dev.status_flags all_flags false;
  usb = reset_state dev.usb;
}

unfoldable pub disconnect : VdsHcdDev → VdsHcdDev
disconnect dev =
    reset_link (flush_buffered_frames (cancel_pending_urbs (disconnect_port dev) eshutdown))

unfoldable pub set_connection : VdsHcdDev → Bool → VdsHcdDev
set_connection dev connected =
    if dev.stopping then dev else (if connected then connect dev else disconnect dev)

-- What an ioctl asks, with whether its argument can be read or written.
pub data Ioctl : Type 0 where
  ioc_get_status : Bool → Ioctl
  ioc_get_driver_info : Bool → Ioctl
  ioc_set_profile : Bool → ℕ → ℕ → Ioctl
  ioc_connect : Ioctl
  ioc_disconnect : Ioctl
  ioc_other : Ioctl

pub data IoctlReply : Type 0 where
  plain : IoctlReply
  status_reply : ℕ → ℕ → ℕ → ℕ → IoctlReply
  driver_info_reply : ℕ → ℕ → Bytes → IoctlReply

abbrev pub answers_when_stopping : Ioctl → Bool
answers_when_stopping (ioc_get_status copied) = true
answers_when_stopping (ioc_get_driver_info copied) = true
answers_when_stopping _ = false

unfoldable pub ioctl_set_profile : VdsHcdDev → ℕ → ℕ → VdsHcdDev × ℕ
ioctl_set_profile dev profile polling_rate_mode =
    let changed = usb_device_set_profile dev.usb profile in
    if not (polling_rate_mode == 0)
    then (dev, eopnotsupp)
    else (if dev.status_flags.connected
        then (dev, ebusy)
        else (if not (changed.1 == success) then (dev, changed.1) else (
          record dev {
            usb = changed.0;
            status_flags = set_status_flags dev.status_flags usb_flags false;
          },
          success,
        )))

module _ (vds_version : Bytes) where
  -- The version is cut to the 64 bytes of its field, the final zero included.
  unfoldable pub ioctl_command : VdsHcdDev → Ioctl → VdsHcdDev × IoctlReply × ℕ
  ioctl_command dev (ioc_get_status copied) =
      if copied
      then (
        dev,
        status_reply (status_word dev.status_flags) dev.usb.profile dev.frames_to_user
            dev.frames_from_user,
        success,
      )
      else (dev, plain, efault)
  ioctl_command dev (ioc_get_driver_info copied) =
      if copied
      then (dev, driver_info_reply 1 72 (take 63 vds_version), success)
      else (dev, plain, efault)
  ioctl_command dev (ioc_set_profile copied profile polling_rate_mode) =
      let changed = ioctl_set_profile dev profile polling_rate_mode in
      if copied then (changed.0, plain, changed.1) else (dev, plain, efault)
  ioctl_command dev ioc_connect = (set_connection dev true, plain, success)
  ioctl_command dev ioc_disconnect = (set_connection dev false, plain, success)
  ioctl_command dev ioc_other = (dev, plain, enotty)

  unfoldable pub vds_ioctl : VdsHcdDev → Ioctl → VdsHcdDev × IoctlReply × ℕ
  vds_ioctl dev cmd =
      if not (answers_when_stopping cmd) && dev.stopping
      then (dev, plain, eshutdown)
      else ioctl_command dev cmd

unfoldable pub vds_open : VdsHcdDev → VdsHcdDev × ℕ
vds_open dev = if dev.opened then (dev, ebusy) else (record dev { opened = true }, success)

unfoldable pub vds_release : VdsHcdDev → VdsHcdDev
vds_release dev =
    let closed = record dev { opened = false } in
    if dev.status_flags.connected then set_connection closed false else closed

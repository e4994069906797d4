-- ===== src/Hcd/Types.antt =====
-- The data of the kernel module: the USB core's requests as module/vds_hcd_core.c reads them, and the
-- frames and statuses of include/uapi/vds.h.
use windows_vds.Prelude.{
  ℕ, Bool, true, false, not, ◌||◌, ◌&&◌, List, if◌then◌else◌, Bytes, Option, ◌+◌,
}

-- The error numbers of Linux; a function that fails with `-EPIPE` has the status `epipe`, and one
-- that succeeds the status `success`.
abbrev pub success : ℕ
success = 0

abbrev pub enoent : ℕ
enoent = 2

abbrev pub eagain : ℕ
eagain = 11

abbrev pub enomem : ℕ
enomem = 12

abbrev pub efault : ℕ
efault = 14

abbrev pub ebusy : ℕ
ebusy = 16

abbrev pub einval : ℕ
einval = 22

abbrev pub enotty : ℕ
enotty = 25

abbrev pub enospc : ℕ
enospc = 28

abbrev pub epipe : ℕ
epipe = 32

abbrev pub eoverflow : ℕ
eoverflow = 75

abbrev pub emsgsize : ℕ
emsgsize = 90

abbrev pub eopnotsupp : ℕ
eopnotsupp = 95

abbrev pub eshutdown : ℕ
eshutdown = 108

abbrev pub einprogress : ℕ
einprogress = 115

abbrev pub vds_frame_max_payload : ℕ
vds_frame_max_payload = 4096

abbrev pub hid_packet_size : ℕ
hid_packet_size = 64

pub data PipeType : Type 0 where
  control_pipe : PipeType
  interrupt_pipe : PipeType
  isochronous_pipe : PipeType
  bulk_pipe : PipeType

pub data FrameType : Type 0 where
  status_frame : FrameType
  usb_hid_out : FrameType
  usb_feature_get : FrameType
  usb_feature_set : FrameType
  usb_audio_out : FrameType
  usb_hid_in : FrameType
  usb_feature_reply : FrameType
  usb_interface : FrameType
  bt_control_packet : FrameType
  bt_interrupt_packet : FrameType
  usb_audio_in : FrameType

pub record UsbCtrlrequest : Type 0 where
  pub request_type : ℕ
  pub request : ℕ
  pub value : ℕ
  pub index : ℕ
  pub length : ℕ

pub record UsbIsoPacketDescriptor : Type 0 where
  pub offset : ℕ
  pub length : ℕ
  pub actual_length : ℕ
  pub status : ℕ

-- The fields of `struct urb` that the module reads or writes. `id` stands for its address, and a
-- transfer buffer is the list of its bytes.
pub record Urb : Type 0 where
  pub id : ℕ
  pub pipe_type : PipeType
  pub endpoint : ℕ
  pub dir_in : Bool
  pub setup_packet : Option UsbCtrlrequest
  pub transfer_buffer : Option Bytes
  pub transfer_buffer_length : ℕ
  pub actual_length : ℕ
  pub error_count : ℕ
  pub start_frame : ℕ
  pub iso_frame_desc : List UsbIsoPacketDescriptor

pub data UrbContextState : Type 0 where
  active : UrbContextState
  pending_hid_in : UrbContextState
  pending_feature_get : UrbContextState
  pending_giveback : UrbContextState
  giving_back : UrbContextState

-- `ready_time` is in nanoseconds; zero is no time.
pub record UrbContext : Type 0 where
  pub urb : Urb
  pub ready_time : ℕ
  pub status : ℕ
  pub feature_report_id : ℕ
  pub state : UrbContextState
  pub deliver_iso_out : Bool
  pub deliver_iso_in : Bool

pub record VdsEvent : Type 0 where
  pub type : FrameType
  pub sequence : ℕ
  pub payload : Bytes

pub record AudioPacket : Type 0 where
  pub offset : ℕ
  pub payload : Bytes

-- A set of the bits VDS_STATUS_*.
pub record StatusFlags : Type 0 where
  pub connected : Bool
  pub configured : Bool
  pub hid_enabled : Bool
  pub audio_enabled : Bool

abbrev pub no_status_flags : StatusFlags
no_status_flags = record {
  connected = false;
  configured = false;
  hid_enabled = false;
  audio_enabled = false;
}

-- `status_flags |= flags` or `status_flags &= ~flags`.
unfoldable pub set_status_flags : StatusFlags → StatusFlags → Bool → StatusFlags
set_status_flags old flags true = record {
  connected = old.connected || flags.connected;
  configured = old.configured || flags.configured;
  hid_enabled = old.hid_enabled || flags.hid_enabled;
  audio_enabled = old.audio_enabled || flags.audio_enabled;
}
set_status_flags old flags false = record {
  connected = old.connected && not flags.connected;
  configured = old.configured && not flags.configured;
  hid_enabled = old.hid_enabled && not flags.hid_enabled;
  audio_enabled = old.audio_enabled && not flags.audio_enabled;
}

unfoldable pub status_word : StatusFlags → ℕ
status_word f =
    (if f.connected then 1 else 0)
    + (if f.configured then 2 else 0)
    + (if f.hid_enabled then 4 else 0)
    + (if f.audio_enabled then 8 else 0)

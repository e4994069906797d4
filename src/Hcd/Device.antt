-- ===== src/Hcd/Device.antt =====
-- The state of one virtual host controller and its frame queues: `struct vds_hcd_dev`, the frames
-- to user space, and the URBs to give back, in module/vds_hcd_core.c.
pub mod Waiting
use windows_vds.Prelude.{
  ℕ, Bool, true, false, not, ◌&&◌, List, [], ◌∷◌, ◌++◌, ◌-◌, ◌+◌, ltb, ◌==◌, if◌then◌else◌, Bytes,
  length,
}
use windows_vds.Hcd.Types.{
  success, eagain, emsgsize, enomem, enospc, eshutdown, efault, vds_frame_max_payload, Urb,
  UrbContext, UrbContextState, pending_hid_in, pending_feature_get, pending_giveback, giving_back,
  VdsEvent, AudioPacket, StatusFlags, FrameType,
}
use windows_vds.Hcd.Usb.{VdsUsbDevice}

-- A set of the bits USB_PORT_STAT_*, those of the changes in the high half included.
pub record PortStatus : Type 0 where
  pub connection : Bool
  pub enable : Bool
  pub reset : Bool
  pub power : Bool
  pub high_speed : Bool
  pub c_connection : Bool
  pub c_enable : Bool
  pub c_suspend : Bool
  pub c_over_current : Bool
  pub c_reset : Bool

-- A queue is the list of its elements, and times are in nanoseconds. `given_back` is what the
-- controller handed to `usb_hcd_giveback_urb`, with the status it passed.
pub record VdsHcdDev : Type 0 where
  pub events : List VdsEvent
  pub hid_in_urbs : List UrbContext
  pub feature_get_urbs : List UrbContext
  pub completed_urbs : List UrbContext
  pub given_back : List (Urb × ℕ)
  pub input_packets : List Bytes
  pub audio_in_packets : List AudioPacket
  pub frames_to_user : ℕ
  pub frames_from_user : ℕ
  pub next_sequence : ℕ
  pub next_iso_out_ready : ℕ
  pub next_iso_in_ready : ℕ
  pub next_hid_in_ready : ℕ
  pub event_count : ℕ
  pub status_flags : StatusFlags
  pub port_status : PortStatus
  pub stopping : Bool
  pub opened : Bool
  pub input_packet_count : ℕ
  pub audio_in_packet_count : ℕ
  pub audio_in_queued_bytes : ℕ
  pub usb : VdsUsbDevice

abbrev pub max_events : ℕ
max_events = 16384

-- `memory` says whether kmalloc succeeds.
unfoldable pub enqueue_frame : VdsHcdDev → Bool → FrameType → Bytes → VdsHcdDev × ℕ
enqueue_frame dev memory type payload =
    if ltb vds_frame_max_payload (length payload)
    then (dev, emsgsize)
    else (if not memory
        then (dev, enomem)
        else (if dev.stopping
            then (dev, eshutdown)
            else (if not (ltb dev.event_count max_events) then (dev, enospc) else (
              record dev {
                events =
                    dev.events
                    ++ record { type = type; sequence = dev.next_sequence; payload = payload } ∷ [];
                next_sequence = dev.next_sequence + 1;
                event_count = dev.event_count + 1;
                frames_to_user = dev.frames_to_user + 1;
              },
              success,
            ))))

pub data ReadResult : Type 0 where
  frame : VdsEvent → ReadResult
  failed : ℕ → ReadResult
  waits : ReadResult

-- Sixteen bytes of header and the payload. `waits` is a read that blocks; `copied` says whether the
-- buffer of the caller can be written.
unfoldable pub vds_read : VdsHcdDev → Bool → ℕ → Bool → VdsHcdDev × ReadResult
vds_read dev nonblock count copied = elim dev.events [
  | [] ↦
      (dev, if dev.stopping then failed eshutdown else (if nonblock then failed eagain else waits))
  | event ∷ events ↦
      (if ltb count (16 + length event.payload) then (dev, failed emsgsize) else (
        record dev { events = events; event_count = dev.event_count - 1 },
        if copied then frame event else failed efault,
      ))
]

pub record PollMask : Type 0 where
  pub pollin : Bool
  pub pollout : Bool
  pub pollhup : Bool

unfoldable pub vds_poll : VdsHcdDev → PollMask
vds_poll dev = record {
  pollin = elim dev.events [ [] ↦ false | _ ∷ _ ↦ true ];
  pollout = true;
  pollhup = dev.stopping;
}

-- `list_del` of the context of a URB.
unfoldable pub remove_context : ℕ → List UrbContext → List UrbContext
remove_context id [] = []
remove_context id (c ∷ contexts) =
    if c.urb.id == id then contexts else c ∷ remove_context id contexts

-- A context without a time goes before the first one with a time.
unfoldable pub insert_untimed : UrbContext → List UrbContext → List UrbContext
insert_untimed c [] = c ∷ []
insert_untimed c (pos ∷ queue) =
    if pos.ready_time == 0 then pos ∷ insert_untimed c queue else c ∷ pos ∷ queue

-- A context with a time goes before the first one with a later time.
unfoldable pub insert_timed : UrbContext → List UrbContext → List UrbContext
insert_timed c [] = c ∷ []
insert_timed c (pos ∷ queue) =
    if not (pos.ready_time == 0) && ltb c.ready_time pos.ready_time
    then c ∷ pos ∷ queue
    else pos ∷ insert_timed c queue

unfoldable pub insert_completed : UrbContext → List UrbContext → List UrbContext
insert_completed c queue =
    if c.ready_time == 0 then insert_untimed c queue else insert_timed c queue

-- The list that the context is on is told by its state.
unfoldable pub unlink_context : VdsHcdDev → UrbContext → VdsHcdDev
unlink_context dev c = elim c.state [
  | pending_hid_in ↦ record dev { hid_in_urbs = remove_context c.urb.id dev.hid_in_urbs }
  | pending_feature_get ↦ record dev {
    feature_get_urbs = remove_context c.urb.id dev.feature_get_urbs;
  }
  | _ ↦ dev
]

unfoldable pub push_completed : VdsHcdDev → UrbContext → VdsHcdDev
push_completed dev c = record dev { completed_urbs = insert_completed c dev.completed_urbs }

abbrev pub is_queued : UrbContextState → Bool
is_queued pending_giveback = true
is_queued giving_back = true
is_queued _ = false

unfoldable pub queue_urb_giveback : VdsHcdDev → UrbContext → ℕ → VdsHcdDev
queue_urb_giveback dev c status =
    if is_queued c.state
    then dev
    else push_completed (unlink_context dev c)
        (record c { status = status; state = pending_giveback })

unfoldable pub giveback_each : VdsHcdDev → List UrbContext → ℕ → VdsHcdDev
giveback_each dev [] status = dev
giveback_each dev (c ∷ contexts) status =
    giveback_each (queue_urb_giveback dev c status) contexts status

-- Both loops keep the next element before they unlink one.
unfoldable pub cancel_pending_urbs : VdsHcdDev → ℕ → VdsHcdDev
cancel_pending_urbs dev status =
    let first = giveback_each dev dev.hid_in_urbs status in
    giveback_each first first.feature_get_urbs status

unfoldable pub flush_buffered_frames : VdsHcdDev → VdsHcdDev
flush_buffered_frames dev = record dev {
  input_packets = [];
  input_packet_count = 0;
  audio_in_packets = [];
  audio_in_packet_count = 0;
  audio_in_queued_bytes = 0;
  events = [];
  event_count = 0;
}

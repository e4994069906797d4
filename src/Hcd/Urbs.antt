-- ===== src/Hcd/Urbs.antt =====
-- URBs that the USB core hands to the controller or takes back, in
-- module/vds_hcd_core.c. An enqueue has two steps, since it drops the lock behind the link.
pub mod Pending
pub mod Served
pub mod Kept
pub mod Held
pub mod Balance
pub mod Returned
pub mod Accepted
pub mod Conservation
use windows_vds.Prelude.{
  ℕ, Bool, true, false, not, ◌&&◌, List, [], ◌∷◌, ◌++◌, ◌-◌, ltb, ◌==◌, if◌then◌else◌, take, Option,
  none, some,
}
use windows_vds.Hcd.Types.{
  success, epipe, enomem, eshutdown, einprogress, hid_packet_size, Urb, UrbContext, active,
  pending_hid_in, pending_feature_get, pending_giveback, control_pipe, interrupt_pipe,
  isochronous_pipe, bulk_pipe, usb_hid_out, set_status_flags,
}
use windows_vds.Hcd.Usb.{is_hid_in, is_hid_out, is_audio_in, is_audio_out}
use windows_vds.Hcd.Usb.Control.{VdsUsbDeviceOps, UsbCall}
use windows_vds.Hcd.Usb.Standard.{usb_device_control_urb}
use windows_vds.Hcd.Device.{VdsHcdDev, enqueue_frame, queue_urb_giveback}
use windows_vds.Hcd.Giveback.{complete_hid_in, schedule_iso}

unfoldable pub interrupt_out : VdsHcdDev → Bool → UrbContext → VdsHcdDev
interrupt_out dev memory c =
    let len = c.urb.transfer_buffer_length in
    let done = record c { urb = record c.urb { actual_length = len } } in
    if len == 0 then queue_urb_giveback dev done success else (elim c.urb.transfer_buffer [
      | none ↦ queue_urb_giveback dev c epipe
      | some buffer ↦
          (if ltb hid_packet_size len
            then queue_urb_giveback dev c epipe
            else queue_urb_giveback (enqueue_frame dev memory usb_hid_out (take len buffer)).0 done
                success)
    ])

unfoldable pub interrupt_in : VdsHcdDev → UrbContext → ℕ → VdsHcdDev
interrupt_in dev c now = elim dev.input_packets [
  | [] ↦ record dev { hid_in_urbs = dev.hid_in_urbs ++ record c { state = pending_hid_in } ∷ [] }
  | packet ∷ packets ↦
      complete_hid_in
        (record dev { input_packets = packets; input_packet_count = dev.input_packet_count - 1 }) c
        packet now
]

unfoldable pub enqueue_interrupt : VdsHcdDev → Bool → UrbContext → ℕ → VdsHcdDev
enqueue_interrupt dev memory c now =
    if c.urb.dir_in && is_hid_in dev.usb c.urb.endpoint
    then interrupt_in dev c now
    else (if not c.urb.dir_in && is_hid_out dev.usb c.urb.endpoint
        then interrupt_out dev memory c
        else queue_urb_giveback dev c epipe)

unfoldable pub enqueue_iso : VdsHcdDev → UrbContext → ℕ → VdsHcdDev
enqueue_iso dev c now = elim c.urb.transfer_buffer [
  | none ↦ queue_urb_giveback dev c epipe
  | some buffer ↦
      (if not c.urb.dir_in && is_audio_out dev.usb c.urb.endpoint
        then schedule_iso dev (record c { deliver_iso_out = true }) false now
        else (if c.urb.dir_in && is_audio_in dev.usb c.urb.endpoint
            then schedule_iso dev (record c { deliver_iso_in = true }) true now
            else queue_urb_giveback dev c epipe))
]

-- The controller and the context of the URB, `urb->hcpriv`.
pub record UrbCall : Type 0 where
  pub dev : VdsHcdDev
  pub context : UrbContext

unfoldable pub deferred : UrbContext → Urb → ℕ → UrbContext
deferred c urb report_id = record c {
  urb = urb;
  feature_report_id = report_id;
  state = pending_feature_get;
}

unfoldable pub vds_usb_ops : Bool → VdsUsbDeviceOps UrbCall
vds_usb_ops memory = record {
  enqueue_frame = λ call type payload.
      let sent = enqueue_frame call.dev memory type payload in
      (record call { dev = sent.0 }, sent.1);
  defer_feature_get = λ call urb report_id. if call.dev.stopping then (call, eshutdown) else (
    record {
      dev = record call.dev {
        feature_get_urbs = call.dev.feature_get_urbs ++ deferred call.context urb report_id ∷ [];
      };
      context = deferred call.context urb report_id;
    },
    success,
  );
  set_status = λ call flags enabled. record call {
    dev = record call.dev { status_flags = set_status_flags call.dev.status_flags flags enabled };
  };
}

unfoldable pub finish_control : UsbCall UrbCall × ℕ → VdsHcdDev
finish_control (call, status) =
    let dev = record call.context.dev { usb = call.usb } in
    if status == einprogress
    then dev
    else queue_urb_giveback dev (record call.context.context { urb = call.urb }) status

unfoldable pub enqueue_control : VdsHcdDev → Bool → UrbContext → VdsHcdDev
enqueue_control dev memory c = finish_control (
    usb_device_control_urb (vds_usb_ops memory)
      (record { usb = dev.usb; urb = c.urb; context = record { dev = dev; context = c } }))

unfoldable pub new_context : Urb → UrbContext
new_context urb = record {
  urb = urb;
  ready_time = 0;
  status = 0;
  feature_report_id = 0;
  state = active;
  deliver_iso_out = false;
  deliver_iso_in = false;
}

-- The second part of vds_urb_enqueue, which starts without the lock.
unfoldable pub enqueue_context : VdsHcdDev → Bool → UrbContext → ℕ → VdsHcdDev
enqueue_context dev memory c now = elim c.urb.pipe_type [
  | control_pipe ↦ enqueue_control dev memory c
  | interrupt_pipe ↦ enqueue_interrupt dev memory c now
  | isochronous_pipe ↦ enqueue_iso dev c now
  | bulk_pipe ↦ queue_urb_giveback dev c epipe
]

-- The first part of vds_urb_enqueue, under the lock: `link_status` is the answer of
-- `usb_hcd_link_urb_to_ep`, and `memory` that of kmalloc. The second part is `enqueue_context`.
unfoldable pub urb_link : VdsHcdDev → Bool → ℕ → ℕ
urb_link dev memory link_status =
    if not memory then enomem else (if dev.stopping then eshutdown else link_status)

unfoldable pub find_context : ℕ → List UrbContext → Option UrbContext
find_context id [] = none
find_context id (c ∷ contexts) =
    let rest = find_context id contexts in if c.urb.id == id then some c else rest

-- The context behind `urb->hcpriv`, which a URB has until the thread takes it.
unfoldable pub hcpriv : VdsHcdDev → ℕ → Option UrbContext
hcpriv dev id = find_context id (dev.hid_in_urbs ++ (dev.feature_get_urbs ++ dev.completed_urbs))

-- A URB that is already to be given back keeps its place.
unfoldable pub cancel_completed : ℕ → ℕ → List UrbContext → List UrbContext
cancel_completed id status [] = []
cancel_completed id status (c ∷ contexts) =
    if c.urb.id == id
    then record c { status = status; ready_time = 0 } ∷ contexts
    else c ∷ cancel_completed id status contexts

unfoldable pub cancel_context : VdsHcdDev → UrbContext → ℕ → VdsHcdDev
cancel_context dev c status = elim c.state [
  | pending_giveback ↦ record dev {
    completed_urbs = cancel_completed c.urb.id status dev.completed_urbs;
  }
  | _ ↦ queue_urb_giveback dev c status
]

unfoldable pub cancel_urb : VdsHcdDev → ℕ → ℕ → VdsHcdDev
cancel_urb dev id status = elim (hcpriv dev id) [
  | none ↦ dev
  | some c ↦ cancel_context dev c status
]

-- `unlink_status` is the answer of `usb_hcd_check_unlink_urb`.
unfoldable pub urb_dequeue : VdsHcdDev → ℕ → ℕ → ℕ → VdsHcdDev × ℕ
urb_dequeue dev unlink_status id status =
    if unlink_status == success then (cancel_urb dev id status, success) else (dev, unlink_status)

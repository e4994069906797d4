-- ===== src/Hcd/Calls/Requests.antt =====
-- URBs that come and go keep the queues of frames and of microphone audio exact.
use windows_vds.Prelude.{
  ℕ, ◌≡◌, ◌-◌, inl, inr, Bool, true, false, arith, List, [], ◌∷◌, Bytes, refl, take,
}
use windows_vds.Hcd.Types.{UrbContext, success, epipe, usb_hid_out, StatusFlags, set_status_flags}
use windows_vds.Hcd.Usb.Control.{UsbCall}
use windows_vds.Hcd.Usb.Standard.{usb_device_control_urb}
use windows_vds.Hcd.Usb.Context.{IsKept, usb_device_control_urb-IsHandled}
use windows_vds.Hcd.Device.{VdsHcdDev, enqueue_frame}
use windows_vds.Hcd.Giveback.{schedule_iso}
use windows_vds.Hcd.Urbs.{
  UrbCall, deferred, vds_usb_ops, finish_control, enqueue_control, enqueue_context,
  enqueue_interrupt, enqueue_iso, interrupt_in, interrupt_out, cancel_urb, cancel_context, hcpriv,
  urb_dequeue, cancel_completed,
}
use windows_vds.Hcd.Urbs.Served.{Option-cases}
use windows_vds.Hcd.Urbs.Kept.{IsOpen, enqueue_frame-done}
use windows_vds.Hcd.Calls.Settled.{
  IsSettled, SameFrames, SameFrames-IsSettled, queue-IsSettled, complete_hid_in-IsSettled,
}
use windows_vds.Hcd.Calls.Frames.{enqueue_frame-IsSettled}

schedule_iso-IsSettled :
    (dev : VdsHcdDev) (c : UrbContext) (input : Bool) (now : ℕ)
    → IsSettled dev
    → IsSettled (schedule_iso dev c input now)
unfolding schedule_iso
schedule_iso-IsSettled dev c input now h =
    queue-IsSettled _ _ success (SameFrames-IsSettled dev _ (ground arith) h)

enqueue_iso-IsSettled :
    (dev : VdsHcdDev) (c : UrbContext) (now : ℕ) → IsSettled dev → IsSettled (enqueue_iso dev c now)
unfolding enqueue_iso
enqueue_iso-IsSettled dev c now h = ground (
  arith,
  queue-IsSettled dev c epipe h,
  schedule_iso-IsSettled dev (record c { deliver_iso_out = true }) false now h,
  schedule_iso-IsSettled dev (record c { deliver_iso_in = true }) true now h,
)

interrupt_in-IsSettled :
    (dev : VdsHcdDev) (c : UrbContext) (packets : List Bytes) (now : ℕ)
    → dev.input_packets ≡ packets
    → IsSettled dev
    → IsSettled (interrupt_in dev c now)
unfolding interrupt_in
interrupt_in-IsSettled dev c [] now e h =
    let same : SameFrames dev (interrupt_in dev c now) = ground (arith, e) in
    SameFrames-IsSettled dev (interrupt_in dev c now) same h
interrupt_in-IsSettled dev c (packet ∷ packets) now e h =
    let popped = record dev {
      input_packets = packets;
      input_packet_count = dev.input_packet_count - 1;
    } in
    let kept = SameFrames-IsSettled dev popped (ground arith) h in
    ground (arith, e, complete_hid_in-IsSettled popped c packet now kept)

interrupt_out-IsSettled :
    (dev : VdsHcdDev) (memory : Bool) (c : UrbContext)
    → IsSettled dev
    → IsSettled (interrupt_out dev memory c)
unfolding interrupt_out
interrupt_out-IsSettled dev memory c h =
    let len = c.urb.transfer_buffer_length in
    let done = record c { urb = record c.urb { actual_length = len } } in
    let refused = queue-IsSettled dev c epipe h in
    let empty = queue-IsSettled dev done success h in
    elim (Option-cases c.urb.transfer_buffer) [
      | inl absent ↦ ground (arith, absent, refused, empty)
      | inr (buffer, present) ↦ ground (
        arith,
        present,
        refused,
        empty,
        queue-IsSettled (enqueue_frame dev memory usb_hid_out (take len buffer)).0 done success
            (enqueue_frame-IsSettled dev memory usb_hid_out (take len buffer) h),
      )
    ]

enqueue_interrupt-IsSettled :
    (dev : VdsHcdDev) (memory : Bool) (c : UrbContext) (now : ℕ)
    → IsSettled dev
    → IsSettled (enqueue_interrupt dev memory c now)
unfolding enqueue_interrupt
enqueue_interrupt-IsSettled dev memory c now h = ground (
  arith,
  interrupt_in-IsSettled dev c dev.input_packets now refl h,
  interrupt_out-IsSettled dev memory c h,
  queue-IsSettled dev c epipe h,
)

set_status_flags-connected :
    (old flags : StatusFlags) (enabled : Bool)
    → flags.connected ≡ false
    → (set_status_flags old flags enabled).connected ≡ old.connected
unfolding set_status_flags
set_status_flags-connected old flags true e = ground (arith, e)
set_status_flags-connected old flags false e = ground (arith, e)

vds_usb_ops-IsSettled :
    (memory : Bool) (n : ℕ)
    → IsKept
        (vds_usb_ops memory)
        (λ (call : UrbCall). IsSettled call.dev)
        (λ (call : UrbCall). IsSettled call.dev)
        IsOpen
        n
unfolding vds_usb_ops
vds_usb_ops-IsSettled memory n = record {
  started = λ c h. h;
  enqueued = λ c type payload h. enqueue_frame-IsSettled c.dev memory type payload h;
  enqueued_open = λ c type payload h. h;
  enqueue_done = λ c type payload. enqueue_frame-done c.dev memory type payload;
  deferred = λ c urb id name h. SameFrames-IsSettled c.dev _ (ground arith) h;
  deferred_open = λ c urb id name h e. unfold deferred in (ground (arith, e));
  defer_done = λ c urb id. ground arith;
  status_set = λ c flags enabled e h.
      SameFrames-IsSettled c.dev _
        (ground (arith, set_status_flags-connected c.dev.status_flags flags enabled e)) h;
}

finish_control-IsSettled :
    (call : UsbCall UrbCall) (status : ℕ)
    → IsSettled call.context.dev
    → IsSettled (finish_control (call, status))
unfolding finish_control
finish_control-IsSettled call status h =
    let dev = record call.context.dev { usb = call.usb } in
    let kept = SameFrames-IsSettled call.context.dev dev (ground arith) h in
    ground (
      arith,
      kept,
      queue-IsSettled dev (record call.context.context { urb = call.urb }) status kept,
    )

enqueue_control-IsSettled :
    (dev : VdsHcdDev) (memory : Bool) (c : UrbContext)
    → IsSettled dev
    → IsSettled (enqueue_control dev memory c)
unfolding enqueue_control
enqueue_control-IsSettled dev memory c h =
    let call : UsbCall UrbCall = record {
      usb = dev.usb;
      urb = c.urb;
      context = record { dev = dev; context = c };
    } in
    let done = usb_device_control_urb (vds_usb_ops memory) call in
    finish_control-IsSettled done.0 done.1
      (usb_device_control_urb-IsHandled (vds_usb_ops memory) (λ (r : UrbCall). IsSettled r.dev)
        (λ (r : UrbCall). IsSettled r.dev) IsOpen c.urb.id (vds_usb_ops-IsSettled memory c.urb.id)
        call h refl).kept

pub enqueue_context-IsSettled :
    (dev : VdsHcdDev) (memory : Bool) (c : UrbContext) (now : ℕ)
    → IsSettled dev
    → IsSettled (enqueue_context dev memory c now)
unfolding enqueue_context
enqueue_context-IsSettled dev memory c now h = ground (
  arith,
  enqueue_control-IsSettled dev memory c h,
  enqueue_interrupt-IsSettled dev memory c now h,
  enqueue_iso-IsSettled dev c now h,
  queue-IsSettled dev c epipe h,
)

cancel_context-IsSettled :
    (dev : VdsHcdDev) (c : UrbContext) (status : ℕ)
    → IsSettled dev
    → IsSettled (cancel_context dev c status)
unfolding cancel_context
cancel_context-IsSettled dev c status h =
    let cancelled = record dev {
      completed_urbs = cancel_completed c.urb.id status dev.completed_urbs;
    } in
    let kept = SameFrames-IsSettled dev cancelled (ground arith) h in
    ground (arith, kept, queue-IsSettled dev c status h)

pub urb_dequeue-IsSettled :
    (dev : VdsHcdDev) (unlink_status id status : ℕ)
    → IsSettled dev
    → IsSettled (urb_dequeue dev unlink_status id status).0
unfolding urb_dequeue cancel_urb
urb_dequeue-IsSettled dev unlink_status id status h = elim (Option-cases (hcpriv dev id)) [
  | inl absent ↦ ground (arith, absent, h)
  | inr (c, found) ↦ ground (arith, found, h, cancel_context-IsSettled dev c status h)
]

-- ===== src/Hcd/Urbs/Kept.antt =====
-- Every call keeps the queues of URBs in order.
use mathlib.Core.Path.{subst}
use windows_vds.Prelude.{ℕ, ◌≡◌, ◌≢◌, Bool, arith, List, [], ◌∷◌, ◌++◌, Bytes, refl, All}
use windows_vds.Hcd.Types.{
  UrbContext, pending_feature_get, Urb, epipe, FrameType, einprogress, pending_giveback,
}
use windows_vds.Hcd.Device.{VdsHcdDev, enqueue_frame}
use windows_vds.Hcd.Device.Waiting.{IsWaiting, IsTimed, All-add}
use windows_vds.Hcd.Urbs.Pending.{
  SameUrbs-IsWaiting, queue_urb_giveback-IsWaiting, enqueue_iso-IsWaiting,
}
use windows_vds.Hcd.Urbs.Served.{enqueue_frame-IsWaiting, enqueue_interrupt-IsWaiting}
use windows_vds.Hcd.Giveback.Queues.{SameUrbs, deliver-IsDelivery}
use windows_vds.Hcd.Usb.Control.{UsbCall}
use windows_vds.Hcd.Usb.Standard.{usb_device_control_urb}
use windows_vds.Hcd.Usb.Context.{IsKept, usb_device_control_urb-IsHandled}
use windows_vds.Hcd.Giveback.{deliver_in, deliver_out, give_back, giveback_step}
use windows_vds.Hcd.Urbs.{
  UrbCall, deferred, vds_usb_ops, finish_control, enqueue_control, enqueue_context,
}

-- Only the queues of URBs and reports count.
pub same-IsWaiting :
    (d e : VdsHcdDev)
    → e.hid_in_urbs ≡ d.hid_in_urbs
    → e.feature_get_urbs ≡ d.feature_get_urbs
    → e.completed_urbs ≡ d.completed_urbs
    → e.input_packets ≡ d.input_packets
    → e.input_packet_count ≡ d.input_packet_count
    → IsWaiting d
    → IsWaiting e
same-IsWaiting d e a b c p q h = record {
  hid_in = rw a h.hid_in;
  feature_get = rw b h.feature_get;
  completed = rw c h.completed;
  timed = rw c h.timed;
  input_counted = rw (p, q) h.input_counted;
  newest = rw p h.newest;
  served = rw (a, p) h.served;
}

-- The context of a request under way: its state and what it is on.
abbrev pub IsOpen : UrbCall → Type 0
IsOpen call = call.context.state ≡ pending_feature_get

pub enqueue_frame-done :
    (dev : VdsHcdDev) (memory : Bool) (type : FrameType) (payload : Bytes)
    → (enqueue_frame dev memory type payload).1 ≢ einprogress
unfolding enqueue_frame
enqueue_frame-done dev memory type payload = ground arith

deferred-IsWaiting :
    (call : UrbCall) (urb : Urb) (id : ℕ)
    → IsWaiting call.dev
    → IsWaiting (record call.dev {
      feature_get_urbs = call.dev.feature_get_urbs ++ deferred call.context urb id ∷ [];
    })
unfolding deferred
deferred-IsWaiting call urb id h = record {
  hid_in = h.hid_in;
  feature_get =
      All-add (λ (p : UrbContext). p.state ≡ pending_feature_get) call.dev.feature_get_urbs
        (deferred call.context urb id) h.feature_get refl;
  completed = h.completed;
  timed = h.timed;
  input_counted = h.input_counted;
  newest = h.newest;
  served = h.served;
}

vds_usb_ops-IsKept :
    (memory : Bool) (n : ℕ)
    → IsKept
        (vds_usb_ops memory)
        (λ (call : UrbCall). IsWaiting call.dev)
        (λ (call : UrbCall). IsWaiting call.dev)
        IsOpen
        n
unfolding vds_usb_ops
vds_usb_ops-IsKept memory n = record {
  started = λ c h. h;
  enqueued = λ c type payload h. enqueue_frame-IsWaiting c.dev memory type payload h;
  enqueued_open = λ c type payload h. h;
  enqueue_done = λ c type payload. enqueue_frame-done c.dev memory type payload;
  deferred = λ c urb id name h. ground (arith, h, deferred-IsWaiting c urb id h);
  deferred_open = λ c urb id name h e. unfold deferred in (ground (arith, e));
  defer_done = λ c urb id. ground arith;
  status_set = λ c flags enabled e h. same-IsWaiting c.dev _ refl refl refl refl refl h;
}

finish_control-IsWaiting :
    (call : UsbCall UrbCall) (status : ℕ)
    → IsWaiting call.context.dev
    → IsWaiting (finish_control (call, status))
unfolding finish_control
finish_control-IsWaiting call status h =
    let dev = record call.context.dev { usb = call.usb } in
    let kept = same-IsWaiting call.context.dev dev refl refl refl refl refl h in
    ground (
      arith,
      kept,
      queue_urb_giveback-IsWaiting dev (record call.context.context { urb = call.urb }) status kept,
    )

enqueue_control-IsWaiting :
    (dev : VdsHcdDev) (memory : Bool) (c : UrbContext)
    → IsWaiting dev
    → IsWaiting (enqueue_control dev memory c)
unfolding enqueue_control
enqueue_control-IsWaiting dev memory c h =
    let call : UsbCall UrbCall = record {
      usb = dev.usb;
      urb = c.urb;
      context = record { dev = dev; context = c };
    } in
    let done = usb_device_control_urb (vds_usb_ops memory) call in
    finish_control-IsWaiting done.0 done.1
      (usb_device_control_urb-IsHandled (vds_usb_ops memory) (λ (r : UrbCall). IsWaiting r.dev)
        (λ (r : UrbCall). IsWaiting r.dev) IsOpen c.urb.id (vds_usb_ops-IsKept memory c.urb.id) call
        h refl).kept

pub enqueue_context-IsWaiting :
    (dev : VdsHcdDev) (memory : Bool) (c : UrbContext) (now : ℕ)
    → IsWaiting dev
    → IsWaiting (enqueue_context dev memory c now)
unfolding enqueue_context
enqueue_context-IsWaiting dev memory c now h = ground (
  arith,
  enqueue_control-IsWaiting dev memory c h,
  enqueue_interrupt-IsWaiting dev memory c now h,
  enqueue_iso-IsWaiting dev c now h,
  queue_urb_giveback-IsWaiting dev c epipe h,
)

All-tail-IsWaiting :
    (dev : VdsHcdDev) (c : UrbContext) (queue : List UrbContext)
    → dev.completed_urbs ≡ c ∷ queue
    → IsWaiting dev
    → IsWaiting (record dev { completed_urbs = queue })
All-tail-IsWaiting dev c queue e h =
    let all : IsTimed (c ∷ queue) = subst IsTimed e h.timed in
    let stated : All (λ (p : UrbContext). p.state ≡ pending_giveback) (c ∷ queue) =
      subst (λ (l : List UrbContext). All (λ (p : UrbContext). p.state ≡ pending_giveback) l) e
        h.completed in
    record {
      hid_in = h.hid_in;
      feature_get = h.feature_get;
      completed = stated.1;
      timed = all.1;
      input_counted = h.input_counted;
      newest = h.newest;
      served = h.served;
    }

give_back-IsWaiting :
    (dev e : VdsHcdDev) (urb : Urb) (status : ℕ)
    → SameUrbs dev e
    → IsWaiting dev
    → IsWaiting (give_back (e, urb, status))
unfolding give_back
give_back-IsWaiting dev e urb status s h =
    same-IsWaiting e _ refl refl refl refl refl (SameUrbs-IsWaiting dev e s h)

pub giveback_step-IsWaiting :
    (dev : VdsHcdDev) (memory : ℕ → Bool) (now : ℕ) (completed : List UrbContext)
    → dev.completed_urbs ≡ completed
    → IsWaiting dev
    → IsWaiting (giveback_step dev memory now)
unfolding giveback_step
giveback_step-IsWaiting dev memory now [] e h = ground (arith, e, h)
giveback_step-IsWaiting dev memory now (c ∷ queue) e h =
    let popped = record dev { completed_urbs = queue } in
    let out = deliver_in c (deliver_out popped memory c) in
    ground (
      arith,
      e,
      h,
      give_back-IsWaiting popped out.0 out.1 out.2 (deliver-IsDelivery popped memory c).same
          (All-tail-IsWaiting dev c queue e h),
    )

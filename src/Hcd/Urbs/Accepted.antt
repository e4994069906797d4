-- ===== src/Hcd/Urbs/Accepted.antt =====
-- A URB that is accepted is held or given back once.
use windows_vds.Prelude.{
  ℕ, ◌≡◌, ◌≢◌, ◌≤◌, ◌+◌, ◌⊎◌, inl, inr, true, false, Bool, arith, List, [], ◌∷◌, ◌++◌, refl, ap,
  Bytes, take, ◌-◌,
}
use windows_vds.Hcd.Urbs.Served.{Option-cases}
use windows_vds.Hcd.Usb.{VdsUsbDevice}
use windows_vds.Hcd.Types.{
  UrbContext, active, pending_hid_in, pending_feature_get, Urb, FrameType, success, epipe,
  einprogress, usb_hid_out,
}
use windows_vds.Hcd.Device.{VdsHcdDev, enqueue_frame}
use windows_vds.Hcd.Urbs.Held.{
  one_if, occurs, held, IsOn, held-queue_pending, held-queue_active, occurs-add, held-SameUrbs,
}
use windows_vds.Hcd.Giveback.Queues.{enqueue_frame-SameUrbs}
use windows_vds.Hcd.Usb.Control.{UsbCall}
use windows_vds.Hcd.Usb.Standard.{usb_device_control_urb}
use windows_vds.Hcd.Usb.Context.{IsKept, IsHandled, usb_device_control_urb-IsHandled}
use windows_vds.Hcd.Urbs.Kept.{IsOpen, enqueue_frame-done}
use windows_vds.Hcd.Giveback.{complete_hid_in, fill_hid_in_urb, schedule_iso}
use windows_vds.Hcd.Urbs.{
  UrbCall, deferred, vds_usb_ops, finish_control, enqueue_control, enqueue_context,
  enqueue_interrupt, enqueue_iso, interrupt_in, interrupt_out,
}

complete_hid_in-held :
    (i : ℕ) (dev : VdsHcdDev) (c : UrbContext) (payload : Bytes) (now : ℕ)
    → c.state ≡ active
    → held i (complete_hid_in dev c payload now) ≡ held i dev + one_if c.urb.id i
unfolding complete_hid_in fill_hid_in_urb held
complete_hid_in-held i dev c payload now e = held-queue_active i _ _ success e

schedule_iso-held :
    (i : ℕ) (dev : VdsHcdDev) (c : UrbContext) (input : Bool) (now : ℕ)
    → c.state ≡ active
    → held i (schedule_iso dev c input now) ≡ held i dev + one_if c.urb.id i
unfolding schedule_iso held
schedule_iso-held i dev c input now e = held-queue_active i _ _ success e

enqueue_iso-held :
    (i : ℕ) (dev : VdsHcdDev) (c : UrbContext) (now : ℕ)
    → c.state ≡ active
    → held i (enqueue_iso dev c now) ≡ held i dev + one_if c.urb.id i
unfolding enqueue_iso
enqueue_iso-held i dev c now e = ground (
  arith,
  held-queue_active i dev c epipe e,
  schedule_iso-held i dev (record c { deliver_iso_out = true }) false now e,
  schedule_iso-held i dev (record c { deliver_iso_in = true }) true now e,
)

interrupt_in-held :
    (i : ℕ) (dev : VdsHcdDev) (c : UrbContext) (packets : List Bytes) (now : ℕ)
    → dev.input_packets ≡ packets
    → c.state ≡ active
    → held i (interrupt_in dev c now) ≡ held i dev + one_if c.urb.id i
unfolding interrupt_in held
interrupt_in-held i dev c [] now e s =
    ground (arith, e, occurs-add i dev.hid_in_urbs (record c { state = pending_hid_in }))
interrupt_in-held i dev c (packet ∷ packets) now e s =
    let popped = record dev {
      input_packets = packets;
      input_packet_count = dev.input_packet_count - 1;
    } in
    ground (arith, e, complete_hid_in-held i popped c packet now s)

sent-held :
    (i : ℕ) (dev : VdsHcdDev) (memory : Bool) (type : FrameType) (payload : Bytes)
    → held i (enqueue_frame dev memory type payload).0 ≡ held i dev
sent-held i dev memory type payload =
    held-SameUrbs i dev _ (enqueue_frame-SameUrbs dev memory type payload)

interrupt_out-held :
    (i : ℕ) (dev : VdsHcdDev) (memory : Bool) (c : UrbContext)
    → c.state ≡ active
    → held i (interrupt_out dev memory c) ≡ held i dev + one_if c.urb.id i
unfolding interrupt_out
interrupt_out-held i dev memory c s =
    let len = c.urb.transfer_buffer_length in
    let done = record c { urb = record c.urb { actual_length = len } } in
    let refused = held-queue_active i dev c epipe s in
    elim (Option-cases c.urb.transfer_buffer) [
      | inl absent ↦ ground (arith, absent, refused, held-queue_active i dev done success s)
      | inr (buffer, present) ↦
          let sent = (enqueue_frame dev memory usb_hid_out (take len buffer)).0 in
          ground (
            arith,
            present,
            refused,
            held-queue_active i dev done success s,
            held-queue_active i sent done success s,
            sent-held i dev memory usb_hid_out (take len buffer),
          )
    ]

enqueue_interrupt-held :
    (i : ℕ) (dev : VdsHcdDev) (memory : Bool) (c : UrbContext) (now : ℕ)
    → c.state ≡ active
    → held i (enqueue_interrupt dev memory c now) ≡ held i dev + one_if c.urb.id i
unfolding enqueue_interrupt
enqueue_interrupt-held i dev memory c now s = ground (
  arith,
  interrupt_in-held i dev c dev.input_packets now refl s,
  interrupt_out-held i dev memory c s,
  held-queue_active i dev c epipe s,
)

-- A control request on its way: not yet counted, or handed over and counted.
record IsTracked (i n total : ℕ) (call : UrbCall) : Type 0 where
  balance :
      ((call.context.state ≡ active) × (held i call.dev ≡ total))
      ⊎ ((call.context.state ≡ pending_feature_get)
          × (held i call.dev ≡ total + one_if n i)
          × (1 ≤ occurs n call.dev.feature_get_urbs))

record IsFresh (i total : ℕ) (call : UrbCall) : Type 0 where
  fresh : call.context.state ≡ active
  counted : held i call.dev ≡ total

deferred-IsTracked :
    (i n total : ℕ) (call : UrbCall) (urb : Urb) (id : ℕ)
    → urb.id ≡ n
    → IsFresh i total call
    → IsTracked i n total (record {
      dev = record call.dev {
        feature_get_urbs = call.dev.feature_get_urbs ++ deferred call.context urb id ∷ [];
      };
      context = deferred call.context urb id;
    })
unfolding deferred held
deferred-IsTracked i n total call urb id name f =
    let entry = deferred call.context urb id in
    record {
      balance = inr (
        refl,
        ground (arith, f.counted, name, occurs-add i call.dev.feature_get_urbs entry),
        ground (arith, name, occurs-add n call.dev.feature_get_urbs entry),
      );
    }

sent-IsTracked :
    (i n total : ℕ) (call : UrbCall) (memory : Bool) (type : FrameType) (payload : Bytes)
    → IsTracked i n total call
    → IsTracked i n total (record call { dev = (enqueue_frame call.dev memory type payload).0 })
sent-IsTracked i n total call memory type payload t =
    let same = enqueue_frame-SameUrbs call.dev memory type payload in
    ground
      (arith, t.balance, sent-held i call.dev memory type payload, ap (occurs n) same.feature_get)

vds_usb_ops-IsTracked :
    (memory : Bool) (i n total : ℕ)
    → IsKept (vds_usb_ops memory) (IsFresh i total) (IsTracked i n total) IsOpen n
unfolding vds_usb_ops
vds_usb_ops-IsTracked memory i n total = record {
  started = λ c f. record { balance = inl (f.fresh, f.counted) };
  enqueued = λ c type payload t. sent-IsTracked i n total c memory type payload t;
  enqueued_open = λ c type payload h. h;
  enqueue_done = λ c type payload. enqueue_frame-done c.dev memory type payload;
  deferred = λ c urb id name f.
      let kept : IsTracked i n total c = record { balance = inl (f.fresh, f.counted) } in
      ground (arith, kept, deferred-IsTracked i n total c urb id name f);
  deferred_open = λ c urb id name f e. unfold deferred in (ground (arith, e));
  defer_done = λ c urb id. ground arith;
  status_set = λ c flags enabled e t. unfold held in (record { balance = t.balance });
}

with_usb-held :
    (i : ℕ) (dev : VdsHcdDev) (usb : VdsUsbDevice) → held i (record dev { usb = usb }) ≡ held i dev
unfolding held
with_usb-held i dev usb = refl

finish_control-held :
    (i n total : ℕ) (call : UsbCall UrbCall) (status : ℕ)
    → IsHandled (IsTracked i n total) IsOpen n (call, status)
    → held i (finish_control (call, status)) ≡ total + one_if n i
unfolding finish_control
finish_control-held i n total call status h =
    let dev = record call.context.dev { usb = call.usb } in
    let c = record call.context.context { urb = call.urb } in
    let same = with_usb-held i call.context.dev call.usb in
    let name = ap (λ (t : ℕ). one_if t i) h.named in
    elim h.kept.balance [
      | inl (fresh, counted) ↦
          let closed : status ≢ einprogress = ground (arith, fresh, h.answered) in
          ground (arith, closed, same, counted, name, held-queue_active i dev c status fresh)
      | inr (waiting, counted, listed) ↦
          let on : IsOn c dev = record { place = inr (waiting, rw h.named listed) } in
          ground (arith, same, counted, held-queue_pending i dev c status on)
    ]

enqueue_control-held :
    (i : ℕ) (dev : VdsHcdDev) (memory : Bool) (c : UrbContext)
    → c.state ≡ active
    → held i (enqueue_control dev memory c) ≡ held i dev + one_if c.urb.id i
unfolding enqueue_control
enqueue_control-held i dev memory c s =
    let id = c.urb.id in
    let call : UsbCall UrbCall = record {
      usb = dev.usb;
      urb = c.urb;
      context = record { dev = dev; context = c };
    } in
    let done = usb_device_control_urb (vds_usb_ops memory) call in
    finish_control-held i id (held i dev) done.0 done.1 (
      usb_device_control_urb-IsHandled (vds_usb_ops memory) (IsFresh i (held i dev))
        (IsTracked i id (held i dev)) IsOpen id (vds_usb_ops-IsTracked memory i id (held i dev))
        call (record { fresh = s; counted = refl }) refl)

-- The second part of an enqueue takes the URB once.
pub enqueue_context-held :
    (i : ℕ) (dev : VdsHcdDev) (memory : Bool) (c : UrbContext) (now : ℕ)
    → c.state ≡ active
    → held i (enqueue_context dev memory c now) ≡ held i dev + one_if c.urb.id i
unfolding enqueue_context
enqueue_context-held i dev memory c now s = ground (
  arith,
  enqueue_control-held i dev memory c s,
  enqueue_interrupt-held i dev memory c now s,
  enqueue_iso-held i dev c now s,
  held-queue_active i dev c epipe s,
)

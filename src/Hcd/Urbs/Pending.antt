-- ===== src/Hcd/Urbs/Pending.antt =====
-- Every operation on URBs keeps the queues of URBs in order.
use windows_vds.Prelude.{
  ℕ, ◌≡◌, ◌-◌, inl, inr, Bool, arith, List, [], ◌∷◌, ◌++◌, length, Bytes, refl, ap,
}
use windows_vds.Hcd.Types.{
  UrbContext, pending_hid_in, pending_feature_get, pending_giveback, success,
}
use windows_vds.Hcd.Device.{
  VdsHcdDev, remove_context, unlink_context, push_completed, queue_urb_giveback, giveback_each,
  cancel_pending_urbs, flush_buffered_frames,
}
use windows_vds.Hcd.Device.Waiting.{
  IsWaiting, All-remove_context, All-insert_completed, insert_completed-IsTimed, All-add,
}
use windows_vds.Hcd.Giveback.Queues.{SameUrbs}
use windows_vds.Hcd.Giveback.{complete_hid_in, schedule_iso}
use windows_vds.Hcd.Urbs.{interrupt_in, enqueue_iso}

pub SameUrbs-IsWaiting : (d e : VdsHcdDev) → SameUrbs d e → IsWaiting d → IsWaiting e
SameUrbs-IsWaiting d e s h = record {
  hid_in = rw s.hid_in h.hid_in;
  feature_get = rw s.feature_get h.feature_get;
  completed = rw s.completed h.completed;
  timed = rw s.completed h.timed;
  input_counted = rw (s.packets, s.counted) h.input_counted;
  newest = rw s.packets h.newest;
  served = rw (s.hid_in, s.packets) h.served;
}

remove_context-nil :
    (id : ℕ) (contexts : List UrbContext) → contexts ≡ [] → remove_context id contexts ≡ []
unfolding remove_context
remove_context-nil id [] e = refl
remove_context-nil id (c ∷ contexts) e = cc

unlink_context-IsWaiting :
    (dev : VdsHcdDev) (c : UrbContext) → IsWaiting dev → IsWaiting (unlink_context dev c)
unfolding unlink_context
unlink_context-IsWaiting dev c h =
    elim c.state as (λ s. IsWaiting (unlink_context dev (record c { state = s }))) [
      | pending_hid_in ↦ record {
        hid_in =
            All-remove_context (λ (p : UrbContext). p.state ≡ pending_hid_in) c.urb.id
              dev.hid_in_urbs h.hid_in;
        feature_get = h.feature_get;
        completed = h.completed;
        timed = h.timed;
        input_counted = h.input_counted;
        newest = h.newest;
        served = ground (arith, h.served, remove_context-nil c.urb.id dev.hid_in_urbs);
      }
      | pending_feature_get ↦ record {
        hid_in = h.hid_in;
        feature_get =
            All-remove_context (λ (p : UrbContext). p.state ≡ pending_feature_get) c.urb.id
              dev.feature_get_urbs h.feature_get;
        completed = h.completed;
        timed = h.timed;
        input_counted = h.input_counted;
        newest = h.newest;
        served = h.served;
      }
      | _ ↦ h
    ]

push_completed-IsWaiting :
    (dev : VdsHcdDev) (c : UrbContext)
    → c.state ≡ pending_giveback
    → IsWaiting dev
    → IsWaiting (push_completed dev c)
unfolding push_completed
push_completed-IsWaiting dev c e h = record {
  hid_in = h.hid_in;
  feature_get = h.feature_get;
  completed =
      All-insert_completed (λ (p : UrbContext). p.state ≡ pending_giveback) c dev.completed_urbs e
        h.completed;
  timed = insert_completed-IsTimed c dev.completed_urbs h.timed;
  input_counted = h.input_counted;
  newest = h.newest;
  served = h.served;
}

pub queue_urb_giveback-IsWaiting :
    (dev : VdsHcdDev) (c : UrbContext) (status : ℕ)
    → IsWaiting dev
    → IsWaiting (queue_urb_giveback dev c status)
unfolding queue_urb_giveback
queue_urb_giveback-IsWaiting dev c status h = ground (
  arith,
  h,
  push_completed-IsWaiting (unlink_context dev c)
      (record c { status = status; state = pending_giveback }) refl
      (unlink_context-IsWaiting dev c h),
)

giveback_each-IsWaiting :
    (dev : VdsHcdDev) (contexts : List UrbContext) (status : ℕ)
    → IsWaiting dev
    → IsWaiting (giveback_each dev contexts status)
unfolding giveback_each
giveback_each-IsWaiting dev [] status h = h
giveback_each-IsWaiting dev (c ∷ contexts) status h =
    giveback_each-IsWaiting (queue_urb_giveback dev c status) contexts status
      (queue_urb_giveback-IsWaiting dev c status h)

pub cancel_pending_urbs-IsWaiting :
    (dev : VdsHcdDev) (status : ℕ) → IsWaiting dev → IsWaiting (cancel_pending_urbs dev status)
unfolding cancel_pending_urbs
cancel_pending_urbs-IsWaiting dev status h =
    giveback_each-IsWaiting _ _ status (giveback_each-IsWaiting dev dev.hid_in_urbs status h)

pub flush_buffered_frames-IsWaiting :
    (dev : VdsHcdDev) → IsWaiting dev → IsWaiting (flush_buffered_frames dev)
unfolding flush_buffered_frames
flush_buffered_frames-IsWaiting dev h = record {
  hid_in = h.hid_in;
  feature_get = h.feature_get;
  completed = h.completed;
  timed = h.timed;
  input_counted = refl;
  newest = omega arith;
  served = inr refl;
}

pub complete_hid_in-IsWaiting :
    (dev : VdsHcdDev) (c : UrbContext) (payload : Bytes) (now : ℕ)
    → IsWaiting dev
    → IsWaiting (complete_hid_in dev c payload now)
unfolding complete_hid_in
complete_hid_in-IsWaiting dev c payload now h = queue_urb_giveback-IsWaiting _ _ success (
    SameUrbs-IsWaiting dev _
      (record {
        hid_in = refl;
        feature_get = refl;
        completed = refl;
        given = refl;
        packets = refl;
        counted = refl;
      })
      h)

schedule_iso-IsWaiting :
    (dev : VdsHcdDev) (c : UrbContext) (input : Bool) (now : ℕ)
    → IsWaiting dev
    → IsWaiting (schedule_iso dev c input now)
unfolding schedule_iso
schedule_iso-IsWaiting dev c input now h = queue_urb_giveback-IsWaiting _ _ success (
    SameUrbs-IsWaiting dev _
      (record {
        hid_in = refl;
        feature_get = refl;
        completed = refl;
        given = refl;
        packets = refl;
        counted = refl;
      })
      h)

pub enqueue_iso-IsWaiting :
    (dev : VdsHcdDev) (c : UrbContext) (now : ℕ) → IsWaiting dev → IsWaiting (enqueue_iso dev c now)
unfolding enqueue_iso
enqueue_iso-IsWaiting dev c now h =
    grind (arith, h, schedule_iso-IsWaiting, queue_urb_giveback-IsWaiting)

pub interrupt_in-IsWaiting :
    (dev : VdsHcdDev) (c : UrbContext) (packets : List Bytes) (now : ℕ)
    → dev.input_packets ≡ packets
    → IsWaiting dev
    → IsWaiting (interrupt_in dev c now)
unfolding interrupt_in
interrupt_in-IsWaiting dev c [] now e h =
    let waiting = record c { state = pending_hid_in } in
    let all =
      All-add (λ (p : UrbContext). p.state ≡ pending_hid_in) dev.hid_in_urbs waiting h.hid_in
        refl in
    let kept : IsWaiting (record dev { hid_in_urbs = dev.hid_in_urbs ++ waiting ∷ [] }) = record {
      hid_in = all;
      feature_get = h.feature_get;
      completed = h.completed;
      timed = h.timed;
      input_counted = h.input_counted;
      newest = h.newest;
      served = inr e;
    } in
    ground (arith, e, kept)
interrupt_in-IsWaiting dev c (packet ∷ packets) now e h =
    let popped = record dev {
      input_packets = packets;
      input_packet_count = dev.input_packet_count - 1;
    } in
    let kept : IsWaiting popped = record {
      hid_in = h.hid_in;
      feature_get = h.feature_get;
      completed = h.completed;
      timed = h.timed;
      input_counted = omega (arith, h.input_counted, ap length e);
      newest = omega (arith, h.newest, ap length e);
      served = inl (ground (arith, h.served, e));
    } in
    ground (arith, e, complete_hid_in-IsWaiting popped c packet now kept)

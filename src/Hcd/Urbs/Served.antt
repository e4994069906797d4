-- ===== src/Hcd/Urbs/Served.antt =====
-- The calls of the USB core and of user space keep the queues of URBs in order.
use windows_vds.Prelude.{
  ℕ, suc, ◌≡◌, ◌+◌, inl, inr, Bool, true, false, arith, List, [], ◌∷◌, length, Bytes, refl, ap, All,
  if◌then◌else◌, ◌==◌, get_or, Option, none, take, ◌⊎◌, Bool-cases, some,
}
use windows_vds.Hcd.Types.{UrbContext, pending_giveback, epipe, FrameType, usb_hid_out, success}
use windows_vds.Hcd.Device.{VdsHcdDev, queue_urb_giveback, enqueue_frame}
use windows_vds.Hcd.Device.Waiting.{IsWaiting, IsTimed, IsBefore}
use windows_vds.Hcd.Urbs.Pending.{
  queue_urb_giveback-IsWaiting, complete_hid_in-IsWaiting, interrupt_in-IsWaiting,
}
use windows_vds.Hcd.Urbs.{
  interrupt_out, enqueue_interrupt, cancel_completed, cancel_context, cancel_urb, hcpriv,
  urb_dequeue,
}
use windows_vds.Hcd.Writes.{
  replace_last, queue_input_packet, take_input, complete_feature_replies, count_frame,
  write_input_frame,
}
use windows_vds.Hcd.Usb.{copy_to_urb}

pub enqueue_frame-IsWaiting :
    (dev : VdsHcdDev) (memory : Bool) (type : FrameType) (payload : Bytes)
    → IsWaiting dev
    → IsWaiting (enqueue_frame dev memory type payload).0
unfolding enqueue_frame
enqueue_frame-IsWaiting dev memory type payload h =
    ground
      (arith, h, h.hid_in, h.feature_get, h.completed, h.timed, h.input_counted, h.newest, h.served)

pub Option-cases {ℓ} : {A : Type ℓ} (o : Option A) → (o ≡ none) ⊎ ((a : A) × (o ≡ some a))
Option-cases none = inl refl
Option-cases (some a) = inr (a, refl)

interrupt_out-IsWaiting :
    (dev : VdsHcdDev) (memory : Bool) (c : UrbContext)
    → IsWaiting dev
    → IsWaiting (interrupt_out dev memory c)
unfolding interrupt_out
interrupt_out-IsWaiting dev memory c h =
    let len = c.urb.transfer_buffer_length in
    let done = record c { urb = record c.urb { actual_length = len } } in
    let sent =
      λ (buffer : Bytes). enqueue_frame-IsWaiting dev memory usb_hid_out (take len buffer) h in
    elim (Bool-cases (len == 0)) [
      | inl e ↦ ground (arith, e, queue_urb_giveback-IsWaiting dev done success h)
      | inr e ↦ (elim (Option-cases c.urb.transfer_buffer) [
        | inl absent ↦ ground (arith, e, absent, queue_urb_giveback-IsWaiting dev c epipe h)
        | inr (buffer, present) ↦ ground (
          arith,
          e,
          present,
          queue_urb_giveback-IsWaiting dev c epipe h,
          queue_urb_giveback-IsWaiting (enqueue_frame dev memory usb_hid_out (take len buffer)).0
              done success (sent buffer),
        )
      ])
    ]

pub enqueue_interrupt-IsWaiting :
    (dev : VdsHcdDev) (memory : Bool) (c : UrbContext) (now : ℕ)
    → IsWaiting dev
    → IsWaiting (enqueue_interrupt dev memory c now)
unfolding enqueue_interrupt
enqueue_interrupt-IsWaiting dev memory c now h = ground (
  arith,
  interrupt_in-IsWaiting dev c dev.input_packets now refl h,
  interrupt_out-IsWaiting dev memory c h,
  queue_urb_giveback-IsWaiting dev c epipe h,
)

All-cancel_completed :
    (p : UrbContext) (id status : ℕ) (queue : List UrbContext)
    → All (IsBefore p) queue
    → All (IsBefore p) (cancel_completed id status queue)
unfolding cancel_completed
All-cancel_completed p id status [] h = tt
All-cancel_completed p id status (c ∷ queue) h =
    elim (c.urb.id == id)
      as (λ b. All (IsBefore p) (
        if b
        then record c { status = status; ready_time = 0 } ∷ queue
        else c ∷ cancel_completed id status queue)) [
          | true ↦ (inr (inl refl), h.1)
          | false ↦ (h.0, All-cancel_completed p id status queue h.1)
        ]

untimed-IsTimed :
    (c : UrbContext) (status : ℕ) (queue : List UrbContext)
    → All (IsBefore (record c { status = status; ready_time = 0 })) queue
untimed-IsTimed c status [] = tt
untimed-IsTimed c status (p ∷ queue) = (inl refl, untimed-IsTimed c status queue)

cancel_completed-IsTimed :
    (id status : ℕ) (queue : List UrbContext)
    → IsTimed queue
    → IsTimed (cancel_completed id status queue)
unfolding cancel_completed
cancel_completed-IsTimed id status [] h = tt
cancel_completed-IsTimed id status (c ∷ queue) h =
    elim (c.urb.id == id)
      as (λ b. IsTimed (
        if b
        then record c { status = status; ready_time = 0 } ∷ queue
        else c ∷ cancel_completed id status queue)) [
          | true ↦ (untimed-IsTimed c status queue, h.1)
          | false ↦ (
            All-cancel_completed c id status queue h.0,
            cancel_completed-IsTimed id status queue h.1,
          )
        ]

stated-cancel_completed :
    (id status : ℕ) (queue : List UrbContext)
    → All (λ (c : UrbContext). c.state ≡ pending_giveback) queue
    → All (λ (c : UrbContext). c.state ≡ pending_giveback) (cancel_completed id status queue)
unfolding cancel_completed
stated-cancel_completed id status [] h = tt
stated-cancel_completed id status (c ∷ queue) h =
    elim (c.urb.id == id)
      as (λ b.
        All (λ (c : UrbContext). c.state ≡ pending_giveback)
          (if b
            then record c { status = status; ready_time = 0 } ∷ queue
            else c ∷ cancel_completed id status queue)) [
              | true ↦ h
              | false ↦ (h.0, stated-cancel_completed id status queue h.1)
            ]

cancel_context-IsWaiting :
    (dev : VdsHcdDev) (c : UrbContext) (status : ℕ)
    → IsWaiting dev
    → IsWaiting (cancel_context dev c status)
unfolding cancel_context
cancel_context-IsWaiting dev c status h =
    let kept : IsWaiting
        (record dev { completed_urbs = cancel_completed c.urb.id status dev.completed_urbs }) =
      record {
        hid_in = h.hid_in;
        feature_get = h.feature_get;
        completed = stated-cancel_completed c.urb.id status dev.completed_urbs h.completed;
        timed = cancel_completed-IsTimed c.urb.id status dev.completed_urbs h.timed;
        input_counted = h.input_counted;
        newest = h.newest;
        served = h.served;
      } in
    ground (arith, kept, queue_urb_giveback-IsWaiting dev c status h)

pub urb_dequeue-IsWaiting :
    (dev : VdsHcdDev) (unlink_status id status : ℕ)
    → IsWaiting dev
    → IsWaiting (urb_dequeue dev unlink_status id status).0
unfolding urb_dequeue cancel_urb
urb_dequeue-IsWaiting dev unlink_status id status h = elim (Option-cases (hcpriv dev id)) [
  | inl absent ↦ ground (arith, absent, h)
  | inr (c, found) ↦ ground (arith, found, h, cancel_context-IsWaiting dev c status h)
]

length-replace_last :
    (packets : List Bytes) (payload : Bytes)
    → length (replace_last packets payload) ≡ length packets
unfolding replace_last
length-replace_last [] payload = refl
length-replace_last (p ∷ []) payload = refl
length-replace_last (p ∷ q ∷ packets) payload = ap suc (length-replace_last (q ∷ packets) payload)

queue_input_packet-IsWaiting :
    (dev : VdsHcdDev) (memory : Bool) (payload : Bytes) (packets : List Bytes)
    → dev.input_packets ≡ packets
    → dev.hid_in_urbs ≡ []
    → IsWaiting dev
    → IsWaiting (queue_input_packet dev memory payload).0
unfolding queue_input_packet
queue_input_packet-IsWaiting dev memory payload [] e idle h =
    let queued : IsWaiting (record dev {
      input_packets = payload ∷ [];
      input_packet_count = dev.input_packet_count + 1;
    }) =
      record {
        hid_in = h.hid_in;
        feature_get = h.feature_get;
        completed = h.completed;
        timed = h.timed;
        input_counted = omega (arith, h.input_counted, ap length e);
        newest = omega arith;
        served = inl idle;
      } in
    ground (arith, e, h, queued)
queue_input_packet-IsWaiting dev memory payload (p ∷ packets) e idle h =
    let replaced : IsWaiting
        (record dev { input_packets = replace_last dev.input_packets payload }) =
      record {
        hid_in = h.hid_in;
        feature_get = h.feature_get;
        completed = h.completed;
        timed = h.timed;
        input_counted =
            omega (arith, h.input_counted, length-replace_last dev.input_packets payload);
        newest = omega (arith, h.newest, length-replace_last dev.input_packets payload);
        served = inl idle;
      } in
    ground (arith, e, replaced)

take_input-IsWaiting :
    (dev : VdsHcdDev) (memory : Bool) (payload : Bytes) (now : ℕ) (urbs : List UrbContext)
    → dev.hid_in_urbs ≡ urbs
    → IsWaiting dev
    → IsWaiting (take_input dev memory payload now).0
unfolding take_input
take_input-IsWaiting dev memory payload now [] e h =
    ground (arith, e, queue_input_packet-IsWaiting dev memory payload dev.input_packets refl e h)
take_input-IsWaiting dev memory payload now (c ∷ urbs) e h =
    ground (arith, e, complete_hid_in-IsWaiting dev c payload now h)

pub count_frame-IsWaiting :
    (dev : VdsHcdDev) (status : ℕ) → IsWaiting dev → IsWaiting (count_frame (dev, status)).0
unfolding count_frame
count_frame-IsWaiting dev status h =
    ground
      (arith, h, h.hid_in, h.feature_get, h.completed, h.timed, h.input_counted, h.newest, h.served)

pub write_input_frame-IsWaiting :
    (dev : VdsHcdDev) (memory : Bool) (payload : Bytes) (now : ℕ)
    → IsWaiting dev
    → IsWaiting (write_input_frame dev memory payload now).0
unfolding write_input_frame
write_input_frame-IsWaiting dev memory payload now h =
    let taken = take_input dev memory payload now in
    ground (
      arith,
      h,
      count_frame-IsWaiting taken.0 taken.1
          (take_input-IsWaiting dev memory payload now dev.hid_in_urbs refl h),
    )

pub complete_feature_replies-IsWaiting :
    (dev : VdsHcdDev) (payload : Bytes) (contexts : List UrbContext)
    → IsWaiting dev
    → IsWaiting (complete_feature_replies dev payload contexts)
unfolding complete_feature_replies
complete_feature_replies-IsWaiting dev payload [] h = h
complete_feature_replies-IsWaiting dev payload (c ∷ contexts) h =
    let filled = copy_to_urb c.urb payload in
    let back = queue_urb_giveback dev (record c { urb = filled.0 }) filled.1 in
    elim (c.feature_report_id == get_or payload 0 0)
      as (λ b. IsWaiting (complete_feature_replies (if b then back else dev) payload contexts)) [
        | true ↦
            complete_feature_replies-IsWaiting back payload contexts
              (queue_urb_giveback-IsWaiting dev (record c { urb = filled.0 }) filled.1 h)
        | false ↦ complete_feature_replies-IsWaiting dev payload contexts h
      ]

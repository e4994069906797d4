-- ===== src/Hcd/Calls/Invariant.antt =====
-- What holds of a controller after any calls.
use windows_vds.Prelude.{ℕ, Bool, false, ◌≡◌, ◌++◌, All, inl, inr, arith, List, [], ◌∷◌, refl}
use windows_vds.Hcd.Types.{Urb, UrbContext, active}
use windows_vds.Hcd.Device.{VdsHcdDev, remove_context}
use windows_vds.Hcd.Urbs.{new_context, find_context, enqueue_context}
use windows_vds.Hcd.Urbs.Kept.{enqueue_context-IsWaiting}
use windows_vds.Hcd.Urbs.Served.{Option-cases}
use windows_vds.Hcd.Device.Waiting.{IsWaiting, All-add, All-remove_context}
use windows_vds.Hcd.Port.{hcd_probe, vds_open}
use windows_vds.Hcd.Calls.{
  HcdCall, call_start, call_stop, call_open, call_release, call_ioctl, call_read, call_write,
  call_hub_control, call_urb_link, call_urb_rest, call_urb_dequeue, call_giveback, dev_call,
  hcd_call, hcd_run, HcdState, hcd_initial, IsUnraced, is_raced, link_urb, urb_rest, hcd_dequeue,
}
use windows_vds.Hcd.Calls.Ordered.{dev_call-IsWaiting, probe-IsWaiting}
use windows_vds.Hcd.Calls.Settled.{IsSettled, SameFrames-IsSettled}
use windows_vds.Hcd.Calls.Frames.{giveback_step-IsSettled}
use windows_vds.Hcd.Calls.Requests.{enqueue_context-IsSettled, urb_dequeue-IsSettled}
use windows_vds.Hcd.Calls.Inputs.{vds_write-IsSettled}
use windows_vds.Hcd.Calls.Links.{
  vds_read-IsSettled, hcd_start-IsSettled, hcd_stop-IsSettled, vds_release-IsSettled,
  vds_ioctl-IsSettled, hub_control-IsSettled, empty-IsSettled,
}

dev_call-IsSettled :
    (dev : VdsHcdDev) (call : HcdCall) → IsSettled dev → IsSettled (dev_call dev call)
unfolding dev_call vds_open
dev_call-IsSettled dev call_start h = hcd_start-IsSettled dev h
dev_call-IsSettled dev call_stop h = hcd_stop-IsSettled dev
dev_call-IsSettled dev call_open h = SameFrames-IsSettled dev _ (ground arith) h
dev_call-IsSettled dev call_release h = vds_release-IsSettled dev h
dev_call-IsSettled dev (call_ioctl version cmd) h = vds_ioctl-IsSettled version dev cmd h
dev_call-IsSettled dev (call_read nonblock count copied) h =
    vds_read-IsSettled dev nonblock count copied dev.events refl h
dev_call-IsSettled dev (call_write memory stopped r now) h =
    vds_write-IsSettled dev memory stopped r now h
dev_call-IsSettled dev (call_hub_control request value index) h =
    hub_control-IsSettled dev request value index h
dev_call-IsSettled dev (call_urb_link memory link_status urb) h = h
dev_call-IsSettled dev (call_urb_rest memory id now) h = h
dev_call-IsSettled dev (call_urb_dequeue unlink_status id status) h =
    urb_dequeue-IsSettled dev unlink_status id status h
dev_call-IsSettled dev (call_giveback memory now) h =
    giveback_step-IsSettled dev memory now dev.completed_urbs refl h

probe-IsSettled : IsSettled hcd_probe
unfolding hcd_probe
probe-IsSettled = empty-IsSettled _ refl refl refl refl refl (inr refl)

-- The invariant of a controller and of the enqueues that run.
pub record IsHcd (s : HcdState) : Type 0 where
  pub waiting : IsWaiting s.dev
  pub settled : IsSettled s.dev
  pub active : All (λ (c : UrbContext). c.state ≡ active) s.linked

dev_call-IsHcd :
    (s : HcdState) (call : HcdCall) → IsHcd s → IsHcd (record s { dev = dev_call s.dev call })
dev_call-IsHcd s call h = record {
  waiting = dev_call-IsWaiting s.dev call h.waiting;
  settled = dev_call-IsSettled s.dev call h.settled;
  active = h.active;
}

link_urb-IsHcd :
    (s : HcdState) (memory : Bool) (link_status : ℕ) (urb : Urb)
    → IsHcd s
    → IsHcd (link_urb s memory link_status urb)
unfolding link_urb
link_urb-IsHcd s memory link_status urb h =
    let linked : IsHcd (record s { linked = s.linked ++ new_context urb ∷ [] }) = record {
      waiting = h.waiting;
      settled = h.settled;
      active =
          All-add (λ (c : UrbContext). c.state ≡ active) s.linked (new_context urb) h.active
            (unfold new_context in refl);
    } in
    ground (arith, h, linked)

urb_rest-IsHcd :
    (s : HcdState) (memory : Bool) (id now : ℕ) → IsHcd s → IsHcd (urb_rest s memory id now)
unfolding urb_rest
urb_rest-IsHcd s memory id now h = elim (Option-cases (find_context id s.linked)) [
  | inl absent ↦ ground (arith, absent, h)
  | inr (c, found) ↦
      let next : IsHcd (record {
        dev = enqueue_context s.dev memory c now;
        linked = remove_context id s.linked;
      }) =
        record {
          waiting = enqueue_context-IsWaiting s.dev memory c now h.waiting;
          settled = enqueue_context-IsSettled s.dev memory c now h.settled;
          active = All-remove_context (λ (c : UrbContext). c.state ≡ active) id s.linked h.active;
        } in
      ground (arith, found, next)
]

hcd_dequeue-IsHcd :
    (s : HcdState) (unlink_status id status : ℕ)
    → is_raced s (call_urb_dequeue unlink_status id status) ≡ false
    → IsHcd s
    → IsHcd (hcd_dequeue s unlink_status id status)
unfolding hcd_dequeue is_raced
hcd_dequeue-IsHcd s unlink_status id status quiet h =
    let call = call_urb_dequeue unlink_status id status in
    let next = dev_call-IsHcd s call h in unfold dev_call in (ground (arith, quiet, h, next))

pub hcd_call-IsHcd :
    (s : HcdState) (call : HcdCall) → is_raced s call ≡ false → IsHcd s → IsHcd (hcd_call s call)
unfolding hcd_call
hcd_call-IsHcd s (call_urb_link memory link_status urb) quiet h =
    link_urb-IsHcd s memory link_status urb h
hcd_call-IsHcd s (call_urb_rest memory id now) quiet h = urb_rest-IsHcd s memory id now h
hcd_call-IsHcd s (call_urb_dequeue unlink_status id status) quiet h =
    hcd_dequeue-IsHcd s unlink_status id status quiet h
hcd_call-IsHcd s call_start quiet h = dev_call-IsHcd s call_start h
hcd_call-IsHcd s call_stop quiet h = dev_call-IsHcd s call_stop h
hcd_call-IsHcd s call_open quiet h = dev_call-IsHcd s call_open h
hcd_call-IsHcd s call_release quiet h = dev_call-IsHcd s call_release h
hcd_call-IsHcd s (call_ioctl version cmd) quiet h = dev_call-IsHcd s (call_ioctl version cmd) h
hcd_call-IsHcd s (call_read nonblock count copied) quiet h =
    dev_call-IsHcd s (call_read nonblock count copied) h
hcd_call-IsHcd s (call_write memory stopped r now) quiet h =
    dev_call-IsHcd s (call_write memory stopped r now) h
hcd_call-IsHcd s (call_hub_control request value index) quiet h =
    dev_call-IsHcd s (call_hub_control request value index) h
hcd_call-IsHcd s (call_giveback memory now) quiet h = dev_call-IsHcd s (call_giveback memory now) h

hcd_run-keeps :
    (s : HcdState) (calls : List HcdCall) → IsUnraced s calls → IsHcd s → IsHcd (hcd_run s calls)
unfolding hcd_run
hcd_run-keeps s [] quiet h = h
hcd_run-keeps s (call ∷ calls) quiet h =
    hcd_run-keeps (hcd_call s call) calls quiet.1 (hcd_call-IsHcd s call quiet.0 h)

pub initial-IsHcd : IsHcd hcd_initial
initial-IsHcd = record { waiting = probe-IsWaiting; settled = probe-IsSettled; active = tt }

-- After any calls of the USB core, of user space and of the thread, in any order and with any answers
-- of the kernel, where other calls may come between the link of a URB and the rest of its enqueue,
-- but none that takes that URB back: a URB that waits for a report, that waits for a feature report
-- or that is to be given back has the state of its queue, and one whose enqueue runs has the state
-- `active`; of the URBs that are to be given back at a time, none stands behind one with a later
-- time; at most one input report is kept for the host, and no URB waits for a report while one is
-- kept; the counters of the frames, of the reports and of the microphone audio are the sizes of
-- their queues, with at most 16384 frames and 19200 bytes of audio; the numbers of the queued frames
-- are consecutive and end before the next number; and unless the controller stops, its status tells
-- that it is connected just when its port has a connection. Each part of an enqueue, each handler of
-- a write and each round of the thread is one step.
pub hcd_run-IsHcd :
    (calls : List HcdCall) → IsUnraced hcd_initial calls → IsHcd (hcd_run hcd_initial calls)
hcd_run-IsHcd calls quiet = hcd_run-keeps hcd_initial calls quiet initial-IsHcd

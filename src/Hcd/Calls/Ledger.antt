-- ===== src/Hcd/Calls/Ledger.antt =====
-- No URB is lost and none is given back twice.
use windows_vds.Prelude.{
  ℕ, Bool, false, Bool-cases, inl, inr, some, ◌==◌, ◌≡◌, ◌+◌, ◌∙◌, arith, List, [], ◌∷◌, ◌++◌, refl,
}
use windows_vds.Hcd.Types.{Urb, UrbContext, active}
use windows_vds.Hcd.Device.{VdsHcdDev, remove_context}
use windows_vds.Hcd.Urbs.{find_context, new_context}
use windows_vds.Hcd.Urbs.Served.{Option-cases}
use windows_vds.Hcd.Device.Waiting.{IsWaiting}
use windows_vds.Hcd.Urbs.Held.{occurs-add, one_if, held, occurs, occurs_given}
use windows_vds.Hcd.Urbs.Returned.{
  given_again, given_again-held, find_context-All, urb_dequeue-held, giveback_step-held,
}
use windows_vds.Hcd.Urbs.Accepted.{enqueue_context-held}
use windows_vds.Hcd.Urbs.Conservation.{
  vds_write-held, hcd_stop-held, vds_release-held, vds_ioctl-held, hub_control-held, vds_read-held,
  start_open-held,
}
use windows_vds.Hcd.Calls.Invariant.{IsHcd, hcd_call-IsHcd, initial-IsHcd, hcd_run-IsHcd}
use windows_vds.Hcd.Port.{hcd_probe}
use windows_vds.Hcd.Calls.{
  HcdCall, call_start, call_stop, call_open, call_release, call_ioctl, call_read, call_write,
  call_hub_control, call_urb_link, call_urb_rest, call_urb_dequeue, call_giveback, HcdState,
  hcd_initial, IsUnraced, is_raced, link_urb, urb_rest, hcd_dequeue, dev_call, hcd_call, hcd_run,
  accepted, accepted_by,
}

-- How often a number stands in a list.
unfoldable pub times : ℕ → List ℕ → ℕ
times i [] = 0
times i (id ∷ ids) = one_if id i + times i ids

times-append : (i : ℕ) (xs ys : List ℕ) → times i (xs ++ ys) ≡ times i xs + times i ys
unfolding times
times-append i [] ys = omega arith
times-append i (x ∷ xs) ys = omega (arith, times-append i xs ys)

dev_call-held :
    (i : ℕ) (dev : VdsHcdDev) (call : HcdCall)
    → IsWaiting dev
    → held i (dev_call dev call) ≡ held i dev
unfolding dev_call
dev_call-held i dev call_start h = omega (arith, (start_open-held i dev).0)
dev_call-held i dev call_stop h = omega (arith, hcd_stop-held i dev h)
dev_call-held i dev call_open h = omega (arith, (start_open-held i dev).1)
dev_call-held i dev call_release h = omega (arith, vds_release-held i dev h)
dev_call-held i dev (call_ioctl version cmd) h = omega (arith, vds_ioctl-held i version dev cmd h)
dev_call-held i dev (call_read nonblock count copied) h =
    omega (arith, vds_read-held i dev nonblock count copied)
dev_call-held i dev (call_write memory stopped r now) h =
    omega (arith, vds_write-held i dev memory stopped r now h)
dev_call-held i dev (call_hub_control request value index) h =
    omega (arith, hub_control-held i dev request value index)
dev_call-held i dev (call_urb_link memory link_status urb) h = refl
dev_call-held i dev (call_urb_rest memory id now) h = refl
dev_call-held i dev (call_urb_dequeue unlink_status id status) h =
    omega (arith, urb_dequeue-held i dev unlink_status id status h)
dev_call-held i dev (call_giveback memory now) h =
    omega (arith, giveback_step-held i dev memory now dev.completed_urbs refl)

-- The places of the URB `i`, those of the enqueues that run included.
unfoldable pub places : ℕ → HcdState → ℕ
places i s = held i s.dev + occurs i s.linked

found-occurs :
    (i id : ℕ) (contexts : List UrbContext) (c : UrbContext)
    → find_context id contexts ≡ some c
    → occurs i (remove_context id contexts) + one_if c.urb.id i ≡ occurs i contexts
unfolding occurs find_context remove_context
found-occurs i id [] c e = cc
found-occurs i id (p ∷ contexts) c e = elim (Bool-cases (p.urb.id == id)) [
  | inl same ↦ let at : p ≡ c = ground (arith, same, e) in rw (same, ← at) (omega arith)
  | inr other ↦
      let rest = found-occurs i id contexts c (ground (arith, other, e)) in
      rw other (omega (arith, rest))
]

new_context-id : (urb : Urb) → (new_context urb).urb.id ≡ urb.id
unfolding new_context
new_context-id urb = refl

link_urb-places :
    (i : ℕ) (s : HcdState) (memory : Bool) (link_status : ℕ) (urb : Urb)
    → places i (link_urb s memory link_status urb)
      ≡ places i s + times i (accepted_by s (call_urb_link memory link_status urb))
unfolding places link_urb accepted_by times
link_urb-places i s memory link_status urb =
    ground (arith, occurs-add i s.linked (new_context urb), new_context-id urb)

urb_rest-places :
    (i : ℕ) (s : HcdState) (memory : Bool) (id now : ℕ)
    → IsHcd s
    → places i (urb_rest s memory id now) ≡ places i s
unfolding places urb_rest
urb_rest-places i s memory id now h = elim (Option-cases (find_context id s.linked)) [
  | inl absent ↦ ground (arith, absent)
  | inr (c, found) ↦
      let fresh =
        find_context-All (λ (p : UrbContext). p.state ≡ active) id s.linked c h.active found in
      ground (
        arith,
        found,
        found-occurs i id s.linked c found,
        enqueue_context-held i s.dev memory c now fresh,
      )
]

hcd_dequeue-places :
    (i : ℕ) (s : HcdState) (unlink_status id status : ℕ)
    → is_raced s (call_urb_dequeue unlink_status id status) ≡ false
    → IsHcd s
    → places i (hcd_dequeue s unlink_status id status) ≡ places i s
unfolding places hcd_dequeue is_raced
hcd_dequeue-places i s unlink_status id status quiet h =
    ground (arith, quiet, urb_dequeue-held i s.dev unlink_status id status h.waiting)

hcd_call-places :
    (i : ℕ) (s : HcdState) (call : HcdCall)
    → is_raced s call ≡ false
    → IsHcd s
    → places i (hcd_call s call) ≡ places i s + times i (accepted_by s call)
unfolding hcd_call
hcd_call-places i s (call_urb_link memory link_status urb) quiet h =
    link_urb-places i s memory link_status urb
hcd_call-places i s (call_urb_rest memory id now) quiet h =
    unfold accepted_by times in (omega (arith, urb_rest-places i s memory id now h))
hcd_call-places i s (call_urb_dequeue unlink_status id status) quiet h =
    unfold accepted_by times in
    (omega (arith, hcd_dequeue-places i s unlink_status id status quiet h))
hcd_call-places i s call_start quiet h =
    unfold accepted_by times places in (omega (arith, dev_call-held i s.dev call_start h.waiting))
hcd_call-places i s call_stop quiet h =
    unfold accepted_by times places in (omega (arith, dev_call-held i s.dev call_stop h.waiting))
hcd_call-places i s call_open quiet h =
    unfold accepted_by times places in (omega (arith, dev_call-held i s.dev call_open h.waiting))
hcd_call-places i s call_release quiet h =
    unfold accepted_by times places in (omega (arith, dev_call-held i s.dev call_release h.waiting))
hcd_call-places i s (call_ioctl version cmd) quiet h =
    unfold accepted_by times places in
    (omega (arith, dev_call-held i s.dev (call_ioctl version cmd) h.waiting))
hcd_call-places i s (call_read nonblock count copied) quiet h =
    unfold accepted_by times places in
    (omega (arith, dev_call-held i s.dev (call_read nonblock count copied) h.waiting))
hcd_call-places i s (call_write memory stopped r now) quiet h =
    unfold accepted_by times places in
    (omega (arith, dev_call-held i s.dev (call_write memory stopped r now) h.waiting))
hcd_call-places i s (call_hub_control request value index) quiet h =
    unfold accepted_by times places in
    (omega (arith, dev_call-held i s.dev (call_hub_control request value index) h.waiting))
hcd_call-places i s (call_giveback memory now) quiet h =
    unfold accepted_by times places in
    (omega (arith, dev_call-held i s.dev (call_giveback memory now) h.waiting))

hcd_run-counted :
    (i : ℕ) (s : HcdState) (calls : List HcdCall)
    → IsUnraced s calls
    → IsHcd s
    → places i (hcd_run s calls) ≡ places i s + times i (accepted s calls)
unfolding hcd_run accepted
hcd_run-counted i s [] quiet h = unfold times in (omega arith)
hcd_run-counted i s (call ∷ calls) quiet h =
    let next = hcd_call s call in
    omega (
      arith,
      hcd_run-counted i next calls quiet.1 (hcd_call-IsHcd s call quiet.0 h),
      hcd_call-places i s call quiet.0 h,
      times-append i (accepted_by s call) (accepted next calls),
    )

-- After any calls of the USB core, of user space and of the thread, in any order and with any answers
-- of the kernel, where other calls may come between the link of a URB and the rest of its enqueue,
-- but none that takes that URB back: for each URB, the number of its places in the queues, among the
-- enqueues that run and among the URBs given back is the number of its accepted enqueues. So an
-- accepted URB is never lost, never in two queues, and never given back twice, and a refused one is
-- not kept. And one more giveback of a URB that has a context, in whichever queue it stands, changes
-- none of these numbers. Each part of an enqueue, each handler of a write and each round of the
-- thread is one step.
pub hcd_run-held :
    (i id status : ℕ) (calls : List HcdCall)
    → IsUnraced hcd_initial calls
    → (places i (hcd_run hcd_initial calls) ≡ times i (accepted hcd_initial calls))
      × (held i (given_again (hcd_run hcd_initial calls).dev id status)
          ≡ held i (hcd_run hcd_initial calls).dev)
hcd_run-held i id status calls quiet = (
  hcd_run-counted i hcd_initial calls quiet initial-IsHcd
      ∙ unfold places held hcd_probe occurs occurs_given in (omega arith),
  given_again-held i (hcd_run hcd_initial calls).dev id status (hcd_run-IsHcd calls quiet).waiting,
)

-- ===== src/Hcd/Urbs/Balance.antt =====
-- Cancelling, answering and giving back neither lose nor repeat a URB.
use windows_vds.Prelude.{
  ℕ, ◌≡◌, ◌≤◌, ◌⊎◌, inl, inr, ◌∙◌, true, false, arith, List, [], ◌∷◌, Bytes, refl, All,
  if◌then◌else◌, ◌==◌, get_or,
}
use windows_vds.Hcd.Types.{
  UrbContext, active, pending_hid_in, pending_feature_get, pending_giveback, giving_back, Urb,
}
use windows_vds.Hcd.Usb.{copy_to_urb}
use windows_vds.Hcd.Device.{
  VdsHcdDev, remove_context, unlink_context, push_completed, queue_urb_giveback, giveback_each,
  cancel_pending_urbs,
}
use windows_vds.Hcd.Device.Waiting.{IsWaiting}
use windows_vds.Hcd.Urbs.Held.{occurs, held, IsOn, held-queue_pending, occurs-remove_context}
use windows_vds.Hcd.Writes.{complete_feature_replies}

queue_pending-lists :
    (dev : VdsHcdDev) (c : UrbContext) (status : ℕ)
    → ((c.state ≡ pending_hid_in)
        × ((queue_urb_giveback dev c status).hid_in_urbs ≡ remove_context c.urb.id dev.hid_in_urbs)
        × ((queue_urb_giveback dev c status).feature_get_urbs ≡ dev.feature_get_urbs))
      ⊎ ((c.state ≡ pending_feature_get)
          × ((queue_urb_giveback dev c status).feature_get_urbs
              ≡ remove_context c.urb.id dev.feature_get_urbs)
          × ((queue_urb_giveback dev c status).hid_in_urbs ≡ dev.hid_in_urbs))
      ⊎ ((c.state ≡ active) ⊎ (c.state ≡ pending_giveback) ⊎ (c.state ≡ giving_back))
unfolding queue_urb_giveback unlink_context push_completed
queue_pending-lists dev c status = ground arith

-- The URBs of a list all stand on another one.
abbrev pub IsPart : List UrbContext → List UrbContext → Type 0
IsPart contexts all = (i : ℕ) → occurs i contexts ≤ occurs i all

pub head-IsOn :
    (c : UrbContext) (contexts all : List UrbContext)
    → IsPart (c ∷ contexts) all
    → 1 ≤ occurs c.urb.id all
unfolding occurs
head-IsOn c contexts all h = ground (arith, h c.urb.id)

tail-IsPart :
    (c : UrbContext) (contexts all : List UrbContext)
    → IsPart (c ∷ contexts) all
    → IsPart contexts (remove_context c.urb.id all)
unfolding occurs
tail-IsPart c contexts all h i =
    omega (arith, h i, occurs-remove_context i c.urb.id all (head-IsOn c contexts all h))

pub rest-IsPart :
    (c : UrbContext) (contexts all : List UrbContext)
    → IsPart (c ∷ contexts) all
    → IsPart contexts all
unfolding occurs
rest-IsPart c contexts all h i = omega (arith, h i)

giveback_each-hid :
    (i : ℕ) (dev : VdsHcdDev) (contexts : List UrbContext) (status : ℕ)
    → All (λ (c : UrbContext). c.state ≡ pending_hid_in) contexts
    → IsPart contexts dev.hid_in_urbs
    → held i (giveback_each dev contexts status) ≡ held i dev
unfolding giveback_each
giveback_each-hid i dev [] status all part = refl
giveback_each-hid i dev (c ∷ contexts) status all part =
    let next = queue_urb_giveback dev c status in
    let on : IsOn c dev = record {
      place = inl (all.0, head-IsOn c contexts dev.hid_in_urbs part);
    } in
    let left : next.hid_in_urbs ≡ remove_context c.urb.id dev.hid_in_urbs =
      ground (arith, all.0, queue_pending-lists dev c status) in
    giveback_each-hid i next contexts status all.1
      (rw left (tail-IsPart c contexts dev.hid_in_urbs part))
    ∙ held-queue_pending i dev c status on

giveback_each-feature :
    (i : ℕ) (dev : VdsHcdDev) (contexts : List UrbContext) (status : ℕ)
    → All (λ (c : UrbContext). c.state ≡ pending_feature_get) contexts
    → IsPart contexts dev.feature_get_urbs
    → held i (giveback_each dev contexts status) ≡ held i dev
unfolding giveback_each
giveback_each-feature i dev [] status all part = refl
giveback_each-feature i dev (c ∷ contexts) status all part =
    let next = queue_urb_giveback dev c status in
    let on : IsOn c dev = record {
      place = inr (all.0, head-IsOn c contexts dev.feature_get_urbs part);
    } in
    let left : next.feature_get_urbs ≡ remove_context c.urb.id dev.feature_get_urbs =
      ground (arith, all.0, queue_pending-lists dev c status) in
    giveback_each-feature i next contexts status all.1
      (rw left (tail-IsPart c contexts dev.feature_get_urbs part))
    ∙ held-queue_pending i dev c status on

giveback_each-feature_get_urbs :
    (dev : VdsHcdDev) (contexts : List UrbContext) (status : ℕ)
    → All (λ (c : UrbContext). c.state ≡ pending_hid_in) contexts
    → (giveback_each dev contexts status).feature_get_urbs ≡ dev.feature_get_urbs
unfolding giveback_each
giveback_each-feature_get_urbs dev [] status all = refl
giveback_each-feature_get_urbs dev (c ∷ contexts) status all =
    giveback_each-feature_get_urbs (queue_urb_giveback dev c status) contexts status all.1
    ∙ ground (arith, all.0, queue_pending-lists dev c status)

pub cancel_pending_urbs-held :
    (i : ℕ) (dev : VdsHcdDev) (status : ℕ)
    → IsWaiting dev
    → held i (cancel_pending_urbs dev status) ≡ held i dev
unfolding cancel_pending_urbs
cancel_pending_urbs-held i dev status h =
    let first = giveback_each dev dev.hid_in_urbs status in
    let same = giveback_each-feature_get_urbs dev dev.hid_in_urbs status h.hid_in in
    giveback_each-feature i first first.feature_get_urbs status (rw same h.feature_get)
      (λ j. omega arith)
    ∙ giveback_each-hid i dev dev.hid_in_urbs status h.hid_in (λ j. omega arith)

copy_to_urb-id : (urb : Urb) (bytes : Bytes) → (copy_to_urb urb bytes).0.id ≡ urb.id
unfolding copy_to_urb
copy_to_urb-id urb bytes = ground arith

pub complete_feature_replies-held :
    (i : ℕ) (dev : VdsHcdDev) (payload : Bytes) (contexts : List UrbContext)
    → All (λ (c : UrbContext). c.state ≡ pending_feature_get) contexts
    → IsPart contexts dev.feature_get_urbs
    → held i (complete_feature_replies dev payload contexts) ≡ held i dev
unfolding complete_feature_replies
complete_feature_replies-held i dev payload [] all part = refl
complete_feature_replies-held i dev payload (c ∷ contexts) all part =
    let filled = copy_to_urb c.urb payload in
    let same = copy_to_urb-id c.urb payload in
    let answered = record c { urb = filled.0 } in
    let next = queue_urb_giveback dev answered filled.1 in
    let there = head-IsOn c contexts dev.feature_get_urbs part in
    let on : IsOn answered dev = record { place = inr (all.0, rw same there) } in
    let left : next.feature_get_urbs ≡ remove_context c.urb.id dev.feature_get_urbs =
      rw (← same) (ground (arith, all.0, queue_pending-lists dev answered filled.1)) in
    elim (c.feature_report_id == get_or payload 0 0)
      as (λ b.
        held i (complete_feature_replies (if b then next else dev) payload contexts) ≡ held i dev) [
          | true ↦
              complete_feature_replies-held i next payload contexts all.1
                (rw left (tail-IsPart c contexts dev.feature_get_urbs part))
              ∙ held-queue_pending i dev answered filled.1 on
          | false ↦
              complete_feature_replies-held i dev payload contexts all.1
                (rest-IsPart c contexts dev.feature_get_urbs part)
        ]

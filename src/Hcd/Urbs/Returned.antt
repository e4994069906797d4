-- ===== src/Hcd/Urbs/Returned.antt =====
-- Taking a URB back and giving it back neither lose nor repeat it.
use windows_vds.Prelude.{
  ℕ, ◌≡◌, inl, inr, Bool, Bool-cases, arith, List, [], ◌∷◌, ◌++◌, ◌⊎◌, refl, ap, All, ◌==◌, some,
  none,
}
use windows_vds.Hcd.Urbs.Served.{Option-cases}
use windows_vds.Hcd.Types.{UrbContext, pending_hid_in, pending_feature_get, pending_giveback, Urb}
use windows_vds.Hcd.Device.{VdsHcdDev, queue_urb_giveback}
use windows_vds.Hcd.Device.Waiting.{IsWaiting}
use windows_vds.Hcd.Urbs.Held.{one_if, occurs, held, IsOn, held-queue_pending, occurs_given-add}
use windows_vds.Hcd.Giveback.Queues.{IsDelivery, deliver-IsDelivery}
use windows_vds.Hcd.Giveback.{deliver_in, deliver_out, give_back, giveback_step}
use windows_vds.Hcd.Urbs.{
  cancel_completed, find_context, cancel_context, cancel_urb, hcpriv, urb_dequeue,
}
use windows_vds.Hcd.Urbs.Balance.{IsPart, head-IsOn, rest-IsPart}

occurs-cancel_completed :
    (i id status : ℕ) (queue : List UrbContext)
    → occurs i (cancel_completed id status queue) ≡ occurs i queue
unfolding occurs cancel_completed
occurs-cancel_completed i id status [] = refl
occurs-cancel_completed i id status (c ∷ queue) =
    ground (arith, occurs-cancel_completed i id status queue)

pub find_context-All :
    (P : UrbContext → Type 0) (id : ℕ) (contexts : List UrbContext) (c : UrbContext)
    → All P contexts
    → find_context id contexts ≡ some c
    → P c
unfolding find_context
find_context-All P id [] c all e = cc
find_context-All P id (p ∷ contexts) c all e = elim (Bool-cases (p.urb.id == id)) [
  | inl same ↦ let at : p ≡ c = ground (arith, same, e) in rw (← at) all.0
  | inr other ↦ find_context-All P id contexts c all.1 (ground (arith, other, e))
]

-- The context is on the list that its state tells, the one of the URBs to give back included.
record IsListed (dev : VdsHcdDev) (c : UrbContext) : Type 0 where
  on : IsOn c dev ⊎ (c.state ≡ pending_giveback)

hid_in-IsListed :
    (dev : VdsHcdDev) (contexts : List UrbContext)
    → All (λ (c : UrbContext). c.state ≡ pending_hid_in) contexts
    → IsPart contexts dev.hid_in_urbs
    → All (IsListed dev) contexts
hid_in-IsListed dev [] h part = tt
hid_in-IsListed dev (c ∷ contexts) h part = (
  record { on = inl (record { place = inl (h.0, head-IsOn c contexts dev.hid_in_urbs part) }) },
  hid_in-IsListed dev contexts h.1 (rest-IsPart c contexts dev.hid_in_urbs part),
)

feature_get-IsListed :
    (dev : VdsHcdDev) (contexts : List UrbContext)
    → All (λ (c : UrbContext). c.state ≡ pending_feature_get) contexts
    → IsPart contexts dev.feature_get_urbs
    → All (IsListed dev) contexts
feature_get-IsListed dev [] h part = tt
feature_get-IsListed dev (c ∷ contexts) h part = (
  record {
    on = inl (record { place = inr (h.0, head-IsOn c contexts dev.feature_get_urbs part) });
  },
  feature_get-IsListed dev contexts h.1 (rest-IsPart c contexts dev.feature_get_urbs part),
)

completed-IsListed :
    (dev : VdsHcdDev) (contexts : List UrbContext)
    → All (λ (c : UrbContext). c.state ≡ pending_giveback) contexts
    → All (IsListed dev) contexts
completed-IsListed dev [] h = tt
completed-IsListed dev (c ∷ contexts) h =
    (record { on = inr h.0 }, completed-IsListed dev contexts h.1)

All-join :
    (P : UrbContext → Type 0) (xs ys : List UrbContext) → All P xs → All P ys → All P (xs ++ ys)
All-join P [] ys h k = k
All-join P (x ∷ xs) ys h k = (h.0, All-join P xs ys h.1 k)

hcpriv-IsListed :
    (dev : VdsHcdDev) (id : ℕ) (c : UrbContext)
    → IsWaiting dev
    → hcpriv dev id ≡ some c
    → IsListed dev c
unfolding hcpriv
hcpriv-IsListed dev id c h found =
    let here = IsListed dev in
    find_context-All here id _ c
      (All-join here dev.hid_in_urbs (dev.feature_get_urbs ++ dev.completed_urbs)
        (hid_in-IsListed dev dev.hid_in_urbs h.hid_in (λ i. omega arith))
        (All-join here dev.feature_get_urbs dev.completed_urbs
          (feature_get-IsListed dev dev.feature_get_urbs h.feature_get (λ i. omega arith))
          (completed-IsListed dev dev.completed_urbs h.completed)))
      found

held-cancel_completed :
    (i : ℕ) (dev : VdsHcdDev) (id status : ℕ)
    → held i (record dev { completed_urbs = cancel_completed id status dev.completed_urbs })
      ≡ held i dev
unfolding held
held-cancel_completed i dev id status =
    rw (occurs-cancel_completed i id status dev.completed_urbs) refl

cancel_context-held :
    (i : ℕ) (dev : VdsHcdDev) (c : UrbContext) (status : ℕ)
    → IsListed dev c
    → held i (cancel_context dev c status) ≡ held i dev
unfolding cancel_context
cancel_context-held i dev c status listed = elim listed.on [
  | inl on ↦ ground (arith, on.place, held-queue_pending i dev c status on)
  | inr back ↦ ground (arith, back, held-cancel_completed i dev c.urb.id status)
]

pub urb_dequeue-held :
    (i : ℕ) (dev : VdsHcdDev) (unlink_status id status : ℕ)
    → IsWaiting dev
    → held i (urb_dequeue dev unlink_status id status).0 ≡ held i dev
unfolding urb_dequeue cancel_urb
urb_dequeue-held i dev unlink_status id status h = elim (Option-cases (hcpriv dev id)) [
  | inl absent ↦ ground (arith, absent)
  | inr (c, found) ↦
      ground (arith, found, cancel_context-held i dev c status (hcpriv-IsListed dev id c h found))
]

-- The giveback of a URB that the controller still holds, wherever it stands.
unfoldable pub given_again : VdsHcdDev → ℕ → ℕ → VdsHcdDev
given_again dev id status = elim (hcpriv dev id) [
  | none ↦ dev
  | some c ↦ queue_urb_giveback dev c status
]

queue_listed-held :
    (i : ℕ) (dev : VdsHcdDev) (c : UrbContext) (status : ℕ)
    → IsListed dev c
    → held i (queue_urb_giveback dev c status) ≡ held i dev
queue_listed-held i dev c status listed = elim listed.on [
  | inl on ↦ held-queue_pending i dev c status on
  | inr back ↦ unfold queue_urb_giveback in (ground (arith, back))
]

pub given_again-held :
    (i : ℕ) (dev : VdsHcdDev) (id status : ℕ)
    → IsWaiting dev
    → held i (given_again dev id status) ≡ held i dev
unfolding given_again
given_again-held i dev id status h = elim (Option-cases (hcpriv dev id)) [
  | inl absent ↦ ground (arith, absent)
  | inr (c, found) ↦
      ground (arith, found, queue_listed-held i dev c status (hcpriv-IsListed dev id c h found))
]

give_back-held :
    (i : ℕ) (dev : VdsHcdDev) (c : UrbContext) (queue : List UrbContext) (e : VdsHcdDev) (urb : Urb)
    (status : ℕ)
    → dev.completed_urbs ≡ c ∷ queue
    → IsDelivery (record dev { completed_urbs = queue }) c.urb.id (e, urb, status)
    → held i (give_back (e, urb, status)) ≡ held i dev
unfolding held occurs give_back
give_back-held i dev c queue e urb status completed d =
    simp (completed, d.same.hid_in, d.same.feature_get, d.same.completed, d.same.given)
      (omega
        (arith, occurs_given-add i dev.given_back urb status, ap (λ (t : ℕ). one_if t i) d.urb_id))

pub giveback_step-held :
    (i : ℕ) (dev : VdsHcdDev) (memory : ℕ → Bool) (now : ℕ) (completed : List UrbContext)
    → dev.completed_urbs ≡ completed
    → held i (giveback_step dev memory now) ≡ held i dev
unfolding giveback_step
giveback_step-held i dev memory now [] e = ground (arith, e)
giveback_step-held i dev memory now (c ∷ queue) e =
    let popped = record dev { completed_urbs = queue } in
    let out = deliver_in c (deliver_out popped memory c) in
    ground (
      arith,
      e,
      give_back-held i dev c queue out.0 out.1 out.2 e (deliver-IsDelivery popped memory c),
    )

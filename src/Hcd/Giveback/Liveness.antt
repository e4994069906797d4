-- ===== src/Hcd/Giveback/Liveness.antt =====
-- The thread of the kernel module gives every completed URB back.
use windows_vds.Prelude.{
  ℕ, zero, suc, ◌≡◌, ◌≤◌, Bool, true, arith, List, [], ◌∷◌, ◌++◌, length, refl, All, ap,
  append_assoc, append-nil, ◌∙◌, sym,
}
use windows_vds.Hcd.Types.{Urb, UrbContext}
use windows_vds.Hcd.Device.{VdsHcdDev}
use windows_vds.Hcd.Giveback.Queues.{IsDelivery, deliver-IsDelivery}
use windows_vds.Hcd.Giveback.{is_due, deliver_in, deliver_out, give_back, giveback_step}

-- Rounds of the thread, each with the answers of its own kmalloc.
unfoldable pub giveback_rounds : ℕ → VdsHcdDev → (ℕ → ℕ → Bool) → ℕ → VdsHcdDev
giveback_rounds zero dev memory now = dev
giveback_rounds (suc n) dev memory now =
    giveback_rounds n (giveback_step dev (memory n) now) memory now

abbrev pub urb_ids : List UrbContext → List ℕ
urb_ids [] = []
urb_ids (c ∷ contexts) = c.urb.id ∷ urb_ids contexts

abbrev pub given_ids : List (Urb × ℕ) → List ℕ
given_ids [] = []
given_ids ((urb, status) ∷ given) = urb.id ∷ given_ids given

given_ids-append :
    (given : List (Urb × ℕ)) (urb : Urb) (status : ℕ)
    → given_ids (given ++ (urb, status) ∷ []) ≡ given_ids given ++ urb.id ∷ []
given_ids-append [] urb status = refl
given_ids-append ((u, s) ∷ given) urb status =
    ap (λ t. u.id ∷ t) (given_ids-append given urb status)

-- One round of the thread: the first completed URB went to the core.
pub record IsReturned (c : UrbContext) (queue : List UrbContext) (d e : VdsHcdDev) : Type 0 where
  pub left : e.completed_urbs ≡ queue
  pub returned : given_ids e.given_back ≡ given_ids d.given_back ++ c.urb.id ∷ []
  pub hid_in : e.hid_in_urbs ≡ d.hid_in_urbs
  pub feature_get : e.feature_get_urbs ≡ d.feature_get_urbs

give_back-IsReturned :
    (c : UrbContext) (queue : List UrbContext) (d mid : VdsHcdDev) (urb : Urb) (status : ℕ)
    → IsDelivery (record d { completed_urbs = queue }) c.urb.id (mid, urb, status)
    → IsReturned c queue d (give_back (mid, urb, status))
unfolding give_back
give_back-IsReturned c queue d mid urb status h = record {
  left = h.same.completed;
  returned = given_ids-append mid.given_back urb status ∙ rw (h.same.given, h.urb_id) refl;
  hid_in = h.same.hid_in;
  feature_get = h.same.feature_get;
}

pub give_back-deliver_in-IsReturned :
    (dev : VdsHcdDev) (memory : ℕ → Bool) (c : UrbContext) (queue : List UrbContext)
    → IsReturned c queue dev
        (give_back (deliver_in c (deliver_out (record dev { completed_urbs = queue }) memory c)))
give_back-deliver_in-IsReturned dev memory c queue =
    let before = record dev { completed_urbs = queue } in
    let out = deliver_in c (deliver_out before memory c) in
    give_back-IsReturned c queue dev out.0 out.1 out.2 (deliver-IsDelivery before memory c)

giveback_step-IsReturned :
    (dev : VdsHcdDev) (memory : ℕ → Bool) (now : ℕ) (c : UrbContext) (queue : List UrbContext)
    → dev.completed_urbs ≡ c ∷ queue
    → is_due c now ≡ true
    → IsReturned c queue dev (giveback_step dev memory now)
unfolding giveback_step
giveback_step-IsReturned dev memory now c queue e due =
    ground (arith, e, due, give_back-deliver_in-IsReturned dev memory c queue)

giveback_step-idle :
    (dev : VdsHcdDev) (memory : ℕ → Bool) (now : ℕ)
    → dev.completed_urbs ≡ []
    → giveback_step dev memory now ≡ dev
unfolding giveback_step
giveback_step-idle dev memory now e = ground (arith, e)

giveback_rounds-idle :
    (n : ℕ) (dev : VdsHcdDev) (memory : ℕ → ℕ → Bool) (now : ℕ)
    → dev.completed_urbs ≡ []
    → giveback_rounds n dev memory now ≡ dev
unfolding giveback_rounds
giveback_rounds-idle zero dev memory now e = refl
giveback_rounds-idle (suc n) dev memory now e =
    rw (giveback_step-idle dev (memory n) now e) (giveback_rounds-idle n dev memory now e)

rounds-drained :
    (n : ℕ) (dev : VdsHcdDev) (memory : ℕ → ℕ → Bool) (now : ℕ) (queue : List UrbContext)
    → dev.completed_urbs ≡ queue
    → length queue ≤ n
    → All (λ c. is_due c now ≡ true) queue
    → (((giveback_rounds n dev memory now).completed_urbs ≡ [])
        × (given_ids (giveback_rounds n dev memory now).given_back
            ≡ given_ids dev.given_back ++ urb_ids queue))
unfolding giveback_rounds
rounds-drained n dev memory now [] e enough due =
    rw (giveback_rounds-idle n dev memory now e) (e, sym (append-nil (given_ids dev.given_back)))
rounds-drained zero dev memory now (c ∷ queue) e enough due = absurd (omega arith)
rounds-drained (suc n) dev memory now (c ∷ queue) e enough due =
    let next = giveback_step dev (memory n) now in
    let one = giveback_step-IsReturned dev (memory n) now c queue e due.0 in
    let rest = rounds-drained n next memory now queue one.left (omega arith) due.1 in
    (
      rest.0,
      rest.1
          ∙ rw one.returned
              (append_assoc (given_ids dev.given_back) (c.urb.id ∷ []) (urb_ids queue)),
    )

-- Once every completed URB is due, as many rounds of the thread as there are completed URBs give all
-- of them back, each once and in the order of the queue, behind those given back before, and leave
-- the queue empty; further rounds change neither.
pub giveback_rounds-drained :
    (n : ℕ) (dev : VdsHcdDev) (memory : ℕ → ℕ → Bool) (now : ℕ)
    → length dev.completed_urbs ≤ n
    → All (λ c. is_due c now ≡ true) dev.completed_urbs
    → (((giveback_rounds n dev memory now).completed_urbs ≡ [])
        × (given_ids (giveback_rounds n dev memory now).given_back
            ≡ given_ids dev.given_back ++ urb_ids dev.completed_urbs))
giveback_rounds-drained n dev memory now enough due =
    rounds-drained n dev memory now dev.completed_urbs refl enough due

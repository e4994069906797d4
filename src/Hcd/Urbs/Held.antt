-- ===== src/Hcd/Urbs/Held.antt =====
-- Counting the URBs that the controller holds or has given back.
use windows_vds.Prelude.{
  ℕ, ◌≡◌, ◌≤◌, ◌+◌, ◌⊎◌, arith, List, [], ◌∷◌, ◌++◌, refl, if◌then◌else◌, ◌==◌,
}
use windows_vds.Hcd.Types.{
  UrbContext, active, pending_hid_in, pending_feature_get, pending_giveback, Urb,
}
use windows_vds.Hcd.Device.{
  VdsHcdDev, remove_context, insert_untimed, insert_timed, insert_completed, unlink_context,
  push_completed, queue_urb_giveback,
}
use windows_vds.Hcd.Giveback.Queues.{SameUrbs}

abbrev pub one_if : ℕ → ℕ → ℕ
one_if id i = if id == i then 1 else 0

unfoldable pub occurs : ℕ → List UrbContext → ℕ
occurs i [] = 0
occurs i (c ∷ contexts) = one_if c.urb.id i + occurs i contexts

unfoldable pub occurs_given : ℕ → List (Urb × ℕ) → ℕ
occurs_given i [] = 0
occurs_given i ((urb, status) ∷ given) = one_if urb.id i + occurs_given i given

-- How often the URB `i` is held, or was given back.
unfoldable pub held : ℕ → VdsHcdDev → ℕ
held i dev =
    occurs i dev.hid_in_urbs
    + occurs i dev.feature_get_urbs
    + occurs i dev.completed_urbs
    + occurs_given i dev.given_back

pub held-SameUrbs : (i : ℕ) (d e : VdsHcdDev) → SameUrbs d e → held i e ≡ held i d
unfolding held
held-SameUrbs i d e s = rw (s.hid_in, s.feature_get, s.completed, s.given) refl

pub occurs-add :
    (i : ℕ) (contexts : List UrbContext) (c : UrbContext)
    → occurs i (contexts ++ c ∷ []) ≡ occurs i contexts + one_if c.urb.id i
unfolding occurs
occurs-add i [] c = omega arith
occurs-add i (p ∷ contexts) c = omega (arith, occurs-add i contexts c)

pub occurs_given-add :
    (i : ℕ) (given : List (Urb × ℕ)) (urb : Urb) (status : ℕ)
    → occurs_given i (given ++ (urb, status) ∷ []) ≡ occurs_given i given + one_if urb.id i
unfolding occurs_given
occurs_given-add i [] urb status = omega arith
occurs_given-add i ((u, s) ∷ given) urb status = omega (arith, occurs_given-add i given urb status)

occurs-insert_untimed :
    (i : ℕ) (c : UrbContext) (queue : List UrbContext)
    → occurs i (insert_untimed c queue) ≡ one_if c.urb.id i + occurs i queue
unfolding occurs insert_untimed
occurs-insert_untimed i c [] = refl
occurs-insert_untimed i c (p ∷ queue) = ground (arith, occurs-insert_untimed i c queue)

occurs-insert_timed :
    (i : ℕ) (c : UrbContext) (queue : List UrbContext)
    → occurs i (insert_timed c queue) ≡ one_if c.urb.id i + occurs i queue
unfolding occurs insert_timed
occurs-insert_timed i c [] = refl
occurs-insert_timed i c (p ∷ queue) = ground (arith, occurs-insert_timed i c queue)

occurs-insert_completed :
    (i : ℕ) (c : UrbContext) (queue : List UrbContext)
    → occurs i (insert_completed c queue) ≡ one_if c.urb.id i + occurs i queue
unfolding insert_completed
occurs-insert_completed i c queue =
    ground (arith, occurs-insert_untimed i c queue, occurs-insert_timed i c queue)

occurs-absent :
    (i id : ℕ) (contexts : List UrbContext)
    → occurs id contexts ≡ 0
    → id ≡ i
    → occurs i contexts ≡ 0
occurs-absent i id contexts h e = rw (← e) h

pub occurs-remove_context :
    (i id : ℕ) (contexts : List UrbContext)
    → 1 ≤ occurs id contexts
    → occurs i (remove_context id contexts) + one_if id i ≡ occurs i contexts
unfolding occurs remove_context
occurs-remove_context i id [] h = absurd (omega arith)
occurs-remove_context i id (c ∷ contexts) h = ground (arith, h, occurs-remove_context i id contexts)

-- The context is on the list that its state tells.
pub record IsOn (c : UrbContext) (dev : VdsHcdDev) : Type 0 where
  pub place :
      ((c.state ≡ pending_hid_in) × (1 ≤ occurs c.urb.id dev.hid_in_urbs))
      ⊎ ((c.state ≡ pending_feature_get) × (1 ≤ occurs c.urb.id dev.feature_get_urbs))

held-push_completed :
    (i : ℕ) (dev : VdsHcdDev) (c : UrbContext)
    → held i (push_completed dev c) ≡ held i dev + one_if c.urb.id i
unfolding held push_completed
held-push_completed i dev c = omega (arith, occurs-insert_completed i c dev.completed_urbs)

pub held-queue_active :
    (i : ℕ) (dev : VdsHcdDev) (c : UrbContext) (status : ℕ)
    → c.state ≡ active
    → held i (queue_urb_giveback dev c status) ≡ held i dev + one_if c.urb.id i
unfolding queue_urb_giveback unlink_context
held-queue_active i dev c status e =
    ground
      (arith, e, held-push_completed i dev (record c { status = status; state = pending_giveback }))

held-unlink :
    (i : ℕ) (dev : VdsHcdDev) (c : UrbContext)
    → IsOn c dev
    → held i (unlink_context dev c) + one_if c.urb.id i ≡ held i dev
unfolding held unlink_context
held-unlink i dev c on = ground (
  arith,
  on.place,
  occurs-remove_context i c.urb.id dev.hid_in_urbs,
  occurs-remove_context i c.urb.id dev.feature_get_urbs,
)

pub held-queue_pending :
    (i : ℕ) (dev : VdsHcdDev) (c : UrbContext) (status : ℕ)
    → IsOn c dev
    → held i (queue_urb_giveback dev c status) ≡ held i dev
unfolding queue_urb_giveback
held-queue_pending i dev c status on = ground (
  arith,
  on.place,
  held-unlink i dev c on,
  held-push_completed i (unlink_context dev c)
      (record c { status = status; state = pending_giveback }),
)

-- ===== src/Hcd/Device/Waiting.antt =====
-- The queues of URBs keep their order and their states.
use windows_vds.Prelude.{
  ℕ, ◌≡◌, ◌≢◌, ◌≤◌, ◌<◌, ◌⊎◌, inl, inr, true, false, arith, List, [], ◌∷◌, ◌++◌, length, All,
  Bool-cases, ltb, if◌then◌else◌, ◌==◌,
}
use windows_vds.Hcd.Types.{UrbContext, pending_hid_in, pending_feature_get, pending_giveback}
use windows_vds.Hcd.Device.{
  VdsHcdDev, remove_context, insert_untimed, insert_timed, insert_completed,
}

-- A URB that has a time is not due after one behind it.
abbrev pub IsBefore : UrbContext → UrbContext → Type 0
IsBefore c p = (c.ready_time ≡ 0) ⊎ ((p.ready_time ≡ 0) ⊎ (c.ready_time ≤ p.ready_time))

abbrev pub IsTimed : List UrbContext → Type 0
IsTimed [] = Unit
IsTimed (c ∷ queue) = All (IsBefore c) queue × IsTimed queue

pub record IsWaiting (dev : VdsHcdDev) : Type 0 where
  pub hid_in : All (λ (c : UrbContext). c.state ≡ pending_hid_in) dev.hid_in_urbs
  pub feature_get : All (λ (c : UrbContext). c.state ≡ pending_feature_get) dev.feature_get_urbs
  pub completed : All (λ (c : UrbContext). c.state ≡ pending_giveback) dev.completed_urbs
  pub timed : IsTimed dev.completed_urbs
  pub input_counted : dev.input_packet_count ≡ length dev.input_packets
  pub newest : length dev.input_packets ≤ 1
  pub served : (dev.hid_in_urbs ≡ []) ⊎ (dev.input_packets ≡ [])

module _ (P : UrbContext → Type 0) where
  pub All-remove_context :
      (id : ℕ) (contexts : List UrbContext) → All P contexts → All P (remove_context id contexts)
  unfolding remove_context
  All-remove_context id [] h = tt
  All-remove_context id (c ∷ contexts) h =
      elim (c.urb.id == id)
        as (λ b. All P (if b then contexts else c ∷ remove_context id contexts)) [
          | true ↦ h.1
          | false ↦ (h.0, All-remove_context id contexts h.1)
        ]

  pub All-add :
      (contexts : List UrbContext) (c : UrbContext)
      → All P contexts
      → P c
      → All P (contexts ++ c ∷ [])
  All-add [] c h p = (p, tt)
  All-add (q ∷ contexts) c h p = (h.0, All-add contexts c h.1 p)

  All-insert_untimed :
      (c : UrbContext) (queue : List UrbContext)
      → P c
      → All P queue
      → All P (insert_untimed c queue)
  unfolding insert_untimed
  All-insert_untimed c [] p h = (p, tt)
  All-insert_untimed c (q ∷ queue) p h =
      elim (q.ready_time == 0)
        as (λ b. All P (if b then q ∷ insert_untimed c queue else c ∷ q ∷ queue)) [
          | true ↦ (h.0, All-insert_untimed c queue p h.1)
          | false ↦ (p, h)
        ]

  All-insert_timed :
      (c : UrbContext) (queue : List UrbContext) → P c → All P queue → All P (insert_timed c queue)
  unfolding insert_timed
  All-insert_timed c [] p h = (p, tt)
  All-insert_timed c (q ∷ queue) p h = ground (arith, p, h, All-insert_timed c queue p h.1)

  pub All-insert_completed :
      (c : UrbContext) (queue : List UrbContext)
      → P c
      → All P queue
      → All P (insert_completed c queue)
  unfolding insert_completed
  All-insert_completed c queue p h =
      ground (arith, All-insert_untimed c queue p h, All-insert_timed c queue p h)

untimed-IsBefore :
    (c : UrbContext) (queue : List UrbContext) → c.ready_time ≡ 0 → All (IsBefore c) queue
untimed-IsBefore c [] e = tt
untimed-IsBefore c (p ∷ queue) e = (inl e, untimed-IsBefore c queue e)

insert_untimed-IsTimed :
    (c : UrbContext) (queue : List UrbContext)
    → c.ready_time ≡ 0
    → IsTimed queue
    → IsTimed (insert_untimed c queue)
unfolding insert_untimed
insert_untimed-IsTimed c [] e h = (tt, tt)
insert_untimed-IsTimed c (p ∷ queue) e h =
    elim (p.ready_time == 0)
      as (λ b. IsTimed (if b then p ∷ insert_untimed c queue else c ∷ p ∷ queue)) [
        | true ↦ (
          All-insert_untimed (IsBefore p) c queue (inr (inl e)) h.0,
          insert_untimed-IsTimed c queue e h.1,
        )
        | false ↦ (untimed-IsBefore c (p ∷ queue) e, h)
      ]

later-IsBefore :
    (c p : UrbContext) (queue : List UrbContext)
    → p.ready_time ≢ 0
    → c.ready_time < p.ready_time
    → All (IsBefore p) queue
    → All (IsBefore c) queue
later-IsBefore c p [] timed less h = tt
later-IsBefore c p (q ∷ queue) timed less h =
    (ground (arith, timed, less, h.0), later-IsBefore c p queue timed less h.1)

insert_timed-IsTimed :
    (c : UrbContext) (queue : List UrbContext) → IsTimed queue → IsTimed (insert_timed c queue)
unfolding insert_timed
insert_timed-IsTimed c [] h = (tt, tt)
insert_timed-IsTimed c (p ∷ queue) h = elim (Bool-cases (p.ready_time == 0)) [
  | inl e ↦ rw e (
    All-insert_timed (IsBefore p) c queue (inl (ground (arith, e))) h.0,
    insert_timed-IsTimed c queue h.1,
  )
  | inr e ↦ (elim (Bool-cases (ltb c.ready_time p.ready_time)) [
    | inl less ↦
        rw (e, less)
          (
            (
              inr (inr (ground (arith, less))),
              later-IsBefore c p queue (ground (arith, e)) (ground (arith, less)) h.0,
            ),
            h,
          )
    | inr more ↦
        rw (e, more)
          (
            All-insert_timed (IsBefore p) c queue (inr (inr (ground (arith, more)))) h.0,
            insert_timed-IsTimed c queue h.1,
          )
  ])
]

pub insert_completed-IsTimed :
    (c : UrbContext) (queue : List UrbContext) → IsTimed queue → IsTimed (insert_completed c queue)
unfolding insert_completed
insert_completed-IsTimed c queue h =
    ground (arith, h, insert_untimed-IsTimed c queue, insert_timed-IsTimed c queue h)

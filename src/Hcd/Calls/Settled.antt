-- ===== src/Hcd/Calls/Settled.antt =====
-- The queue of frames, the microphone queue and the port: what holds of them, and what leaves them
-- alone.
use windows_vds.Prelude.{ℕ, ◌≡◌, ◌≤◌, ◌+◌, ◌⊎◌, ◌∙◌, true, arith, List, [], ◌∷◌, length, Bytes}
use windows_vds.Hcd.Types.{UrbContext, VdsEvent, success}
use windows_vds.Hcd.Device.{
  VdsHcdDev, unlink_context, push_completed, queue_urb_giveback, giveback_each, cancel_pending_urbs,
}
use windows_vds.Hcd.Giveback.{complete_hid_in}
use windows_vds.Hcd.Iso.AudioQueue.{IsAudio}

-- The numbers of the frames are consecutive, and the next one follows them.
abbrev pub IsNumbered : List VdsEvent → ℕ → Type 0
IsNumbered [] next = Unit
IsNumbered (e ∷ events) next = (e.sequence + length (e ∷ events) ≡ next) × IsNumbered events next

pub record IsSettled (dev : VdsHcdDev) : Type 0 where
  pub audio : IsAudio dev
  pub counted : dev.event_count ≡ length dev.events
  pub bounded : dev.event_count ≤ 16384
  pub numbered : IsNumbered dev.events dev.next_sequence
  pub link : (dev.stopping ≡ true) ⊎ (dev.status_flags.connected ≡ dev.port_status.connection)

pub record SameFrames (d e : VdsHcdDev) : Type 0 where
  pub events : e.events ≡ d.events
  pub event_count : e.event_count ≡ d.event_count
  pub next_sequence : e.next_sequence ≡ d.next_sequence
  pub packets : e.audio_in_packets ≡ d.audio_in_packets
  pub packet_count : e.audio_in_packet_count ≡ d.audio_in_packet_count
  pub queued_bytes : e.audio_in_queued_bytes ≡ d.audio_in_queued_bytes
  pub stopping : e.stopping ≡ d.stopping
  pub connected : e.status_flags.connected ≡ d.status_flags.connected
  pub connection : e.port_status.connection ≡ d.port_status.connection

pub SameFrames-self : (d : VdsHcdDev) → SameFrames d d
SameFrames-self d = ground arith

SameFrames-trans : (d e f : VdsHcdDev) → SameFrames d e → SameFrames e f → SameFrames d f
SameFrames-trans d e f p q = record {
  events = q.events ∙ p.events;
  event_count = q.event_count ∙ p.event_count;
  next_sequence = q.next_sequence ∙ p.next_sequence;
  packets = q.packets ∙ p.packets;
  packet_count = q.packet_count ∙ p.packet_count;
  queued_bytes = q.queued_bytes ∙ p.queued_bytes;
  stopping = q.stopping ∙ p.stopping;
  connected = q.connected ∙ p.connected;
  connection = q.connection ∙ p.connection;
}

pub SameFrames-IsSettled : (d e : VdsHcdDev) → SameFrames d e → IsSettled d → IsSettled e
SameFrames-IsSettled d e s h = record {
  audio = record {
    offsets = rw s.packets h.audio.offsets;
    counted = rw (s.packets, s.packet_count) h.audio.counted;
    summed = rw (s.packets, s.queued_bytes) h.audio.summed;
    bounded = rw s.queued_bytes h.audio.bounded;
  };
  counted = rw (s.events, s.event_count) h.counted;
  bounded = rw s.event_count h.bounded;
  numbered = rw (s.events, s.next_sequence) h.numbered;
  link = rw (s.stopping, s.connected, s.connection) h.link;
}

queue_urb_giveback-SameFrames :
    (dev : VdsHcdDev) (c : UrbContext) (status : ℕ)
    → SameFrames dev (queue_urb_giveback dev c status)
unfolding queue_urb_giveback push_completed unlink_context
queue_urb_giveback-SameFrames dev c status = ground arith

giveback_each-SameFrames :
    (dev : VdsHcdDev) (contexts : List UrbContext) (status : ℕ)
    → SameFrames dev (giveback_each dev contexts status)
unfolding giveback_each
giveback_each-SameFrames dev [] status = SameFrames-self dev
giveback_each-SameFrames dev (c ∷ contexts) status =
    let next = queue_urb_giveback dev c status in
    SameFrames-trans dev next _ (queue_urb_giveback-SameFrames dev c status)
      (giveback_each-SameFrames next contexts status)

pub cancel_pending_urbs-SameFrames :
    (dev : VdsHcdDev) (status : ℕ) → SameFrames dev (cancel_pending_urbs dev status)
unfolding cancel_pending_urbs
cancel_pending_urbs-SameFrames dev status =
    SameFrames-trans dev _ _ (giveback_each-SameFrames dev dev.hid_in_urbs status)
      (giveback_each-SameFrames _ _ status)

pub queue-IsSettled :
    (dev : VdsHcdDev) (c : UrbContext) (status : ℕ)
    → IsSettled dev
    → IsSettled (queue_urb_giveback dev c status)
queue-IsSettled dev c status h =
    SameFrames-IsSettled dev _ (queue_urb_giveback-SameFrames dev c status) h

pub complete_hid_in-IsSettled :
    (dev : VdsHcdDev) (c : UrbContext) (payload : Bytes) (now : ℕ)
    → IsSettled dev
    → IsSettled (complete_hid_in dev c payload now)
unfolding complete_hid_in
complete_hid_in-IsSettled dev c payload now h =
    queue-IsSettled _ _ success (SameFrames-IsSettled dev _ (ground arith) h)

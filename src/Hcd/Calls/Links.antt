-- ===== src/Hcd/Calls/Links.antt =====
-- Reads, the port and the root hub keep the queues of frames and the link exact.
use mathlib.Core.Path.{subst}
use windows_vds.Prelude.{
  ℕ, ◌≡◌, ◌-◌, ◌⊎◌, ◌∙◌, inl, inr, Bool, true, false, arith, List, [], ◌∷◌, length, Bytes, refl,
  sym, ap, Option, none, some,
}
use windows_vds.Hcd.Types.{VdsEvent, StatusFlags, eshutdown, set_status_flags}
use windows_vds.Hcd.Device.{VdsHcdDev, PortStatus, flush_buffered_frames, vds_read}
use windows_vds.Hcd.Iso.Microphone.{stream}
use windows_vds.Hcd.Port.{
  all_flags, usb_flags, connected_flag, hcd_start, hcd_stop, vds_release, vds_ioctl, ioctl_command,
  ioctl_set_profile, set_connection, connect, disconnect, disconnect_port, reset_link, Ioctl,
  ioc_get_status, ioc_get_driver_info, ioc_set_profile, ioc_connect, ioc_disconnect, ioc_other,
}
use windows_vds.Hcd.Hub.{
  hub_control, change_port, HubRequest, clear_feature, set_feature, reset_port,
}
use windows_vds.Hcd.Calls.Settled.{
  IsSettled, IsNumbered, SameFrames, SameFrames-IsSettled, cancel_pending_urbs-SameFrames,
}

tail-IsSettled :
    (dev : VdsHcdDev) (event : VdsEvent) (events : List VdsEvent)
    → dev.events ≡ event ∷ events
    → IsSettled dev
    → IsSettled (record dev { events = events; event_count = dev.event_count - 1 })
tail-IsSettled dev event events e h =
    let all : IsNumbered (event ∷ events) dev.next_sequence =
      subst (λ (l : List VdsEvent). IsNumbered l dev.next_sequence) e h.numbered in
    record {
      audio = record {
        offsets = h.audio.offsets;
        counted = h.audio.counted;
        summed = h.audio.summed;
        bounded = h.audio.bounded;
      };
      counted = omega (arith, h.counted, ap length e);
      bounded = omega (arith, h.bounded);
      numbered = all.1;
      link = h.link;
    }

pub vds_read-IsSettled :
    (dev : VdsHcdDev) (nonblock : Bool) (count : ℕ) (copied : Bool) (events : List VdsEvent)
    → dev.events ≡ events
    → IsSettled dev
    → IsSettled (vds_read dev nonblock count copied).0
unfolding vds_read
vds_read-IsSettled dev nonblock count copied [] e h = ground (arith, e, h)
vds_read-IsSettled dev nonblock count copied (event ∷ events) e h =
    ground (arith, e, h, tail-IsSettled dev event events e h)

-- Nothing is queued.
pub empty-IsSettled :
    (e : VdsHcdDev)
    → e.events ≡ []
    → e.event_count ≡ 0
    → e.audio_in_packets ≡ []
    → e.audio_in_packet_count ≡ 0
    → e.audio_in_queued_bytes ≡ 0
    → (e.stopping ≡ true) ⊎ (e.status_flags.connected ≡ e.port_status.connection)
    → IsSettled e
unfolding stream
empty-IsSettled e a b c p q link = record {
  audio = record {
    offsets = rw c tt;
    counted = rw (c, p) refl;
    summed = rw (c, q) refl;
    bounded = rw q (omega arith);
  };
  counted = rw (a, b) refl;
  bounded = rw b (omega arith);
  numbered = rw a tt;
  link = link;
}

pub hcd_stop-IsSettled : (dev : VdsHcdDev) → IsSettled (hcd_stop dev)
unfolding hcd_stop flush_buffered_frames
hcd_stop-IsSettled dev =
    let stopped = record dev { stopping = true } in
    let s = cancel_pending_urbs-SameFrames stopped eshutdown in
    empty-IsSettled _ refl refl refl refl refl (inl s.stopping)

disconnected_flags : (old : StatusFlags) → (set_status_flags old all_flags false).connected ≡ false
unfolding set_status_flags
disconnected_flags old = ground arith

disconnect-IsSettled : (dev : VdsHcdDev) → IsSettled (disconnect dev)
unfolding disconnect reset_link disconnect_port flush_buffered_frames
disconnect-IsSettled dev =
    let unplugged = disconnect_port dev in
    let s = cancel_pending_urbs-SameFrames unplugged eshutdown in
    empty-IsSettled _ refl refl refl refl refl (inr (disconnected_flags _ ∙ sym s.connection))

connected_flags : (old : StatusFlags) → (set_status_flags old connected_flag true).connected ≡ true
unfolding set_status_flags
connected_flags old = ground arith

-- The queues of frames are the same.
link-IsSettled :
    (d e : VdsHcdDev)
    → e.events ≡ d.events
    → e.event_count ≡ d.event_count
    → e.next_sequence ≡ d.next_sequence
    → e.audio_in_packets ≡ d.audio_in_packets
    → e.audio_in_packet_count ≡ d.audio_in_packet_count
    → e.audio_in_queued_bytes ≡ d.audio_in_queued_bytes
    → (e.stopping ≡ true) ⊎ (e.status_flags.connected ≡ e.port_status.connection)
    → IsSettled d
    → IsSettled e
link-IsSettled d e a b c p q r link h = record {
  audio = record {
    offsets = rw p h.audio.offsets;
    counted = rw (p, q) h.audio.counted;
    summed = rw (p, r) h.audio.summed;
    bounded = rw r h.audio.bounded;
  };
  counted = rw (a, b) h.counted;
  bounded = rw b h.bounded;
  numbered = rw (a, c) h.numbered;
  link = link;
}

connect-IsSettled : (dev : VdsHcdDev) → IsSettled dev → IsSettled (connect dev)
unfolding connect
connect-IsSettled dev h =
    link-IsSettled dev _ refl refl refl refl refl refl (inr (connected_flags dev.status_flags)) h

started_flags : (old : StatusFlags) → (set_status_flags old connected_flag false).connected ≡ false
unfolding set_status_flags
started_flags old = ground arith

pub hcd_start-IsSettled : (dev : VdsHcdDev) → IsSettled dev → IsSettled (hcd_start dev)
unfolding hcd_start
hcd_start-IsSettled dev h =
    link-IsSettled dev _ refl refl refl refl refl refl (inr (started_flags dev.status_flags)) h

set_connection-IsSettled :
    (dev : VdsHcdDev) (connected : Bool) → IsSettled dev → IsSettled (set_connection dev connected)
unfolding set_connection
set_connection-IsSettled dev connected h =
    ground (arith, h, connect-IsSettled dev h, disconnect-IsSettled dev)

pub vds_release-IsSettled : (dev : VdsHcdDev) → IsSettled dev → IsSettled (vds_release dev)
unfolding vds_release
vds_release-IsSettled dev h =
    let closed = record dev { opened = false } in
    let kept = SameFrames-IsSettled dev closed (ground arith) h in
    ground (arith, kept, set_connection-IsSettled closed false kept)

profile_flags :
    (old : StatusFlags) → (set_status_flags old usb_flags false).connected ≡ old.connected
unfolding set_status_flags
profile_flags old = ground arith

ioctl_set_profile-IsSettled :
    (dev : VdsHcdDev) (profile mode : ℕ)
    → IsSettled dev
    → IsSettled (ioctl_set_profile dev profile mode).0
unfolding ioctl_set_profile
ioctl_set_profile-IsSettled dev profile mode h =
    SameFrames-IsSettled dev _ (ground (arith, profile_flags dev.status_flags)) h

pub vds_ioctl-IsSettled :
    (version : Bytes) (dev : VdsHcdDev) (cmd : Ioctl)
    → IsSettled dev
    → IsSettled (vds_ioctl version dev cmd).0
unfolding vds_ioctl ioctl_command
vds_ioctl-IsSettled version dev ioc_connect h =
    ground (arith, h, set_connection-IsSettled dev true h)
vds_ioctl-IsSettled version dev ioc_disconnect h =
    ground (arith, h, set_connection-IsSettled dev false h)
vds_ioctl-IsSettled version dev (ioc_set_profile copied profile mode) h =
    ground (arith, h, ioctl_set_profile-IsSettled dev profile mode h)
vds_ioctl-IsSettled version dev (ioc_get_status copied) h = ground (arith, h)
vds_ioctl-IsSettled version dev (ioc_get_driver_info copied) h = ground (arith, h)
vds_ioctl-IsSettled version dev ioc_other h = ground (arith, h)

clear_feature-connection :
    (p q : PortStatus) (feature : ℕ)
    → clear_feature p feature ≡ some q
    → q.connection ≡ p.connection
unfolding clear_feature
clear_feature-connection p q feature e = ground (arith, e)

set_feature-connection :
    (p q : PortStatus) (feature : ℕ) → set_feature p feature ≡ some q → q.connection ≡ p.connection
unfolding set_feature reset_port
set_feature-connection p q feature e = ground (arith, e)

change_port-IsSettled :
    (dev : VdsHcdDev) (index : ℕ) (port : Option PortStatus)
    → ((q : PortStatus) → port ≡ some q → q.connection ≡ dev.port_status.connection)
    → IsSettled dev
    → IsSettled (change_port dev index port).0
unfolding change_port
change_port-IsSettled dev index none keeps h = h
change_port-IsSettled dev index (some p) keeps h =
    let same : SameFrames dev (record dev { port_status = p }) = ground (arith, keeps p refl) in
    ground (arith, h, SameFrames-IsSettled dev (record dev { port_status = p }) same h)

pub hub_control-IsSettled :
    (dev : VdsHcdDev) (request : HubRequest) (value index : ℕ)
    → IsSettled dev
    → IsSettled (hub_control dev request value index).0
unfolding hub_control
hub_control-IsSettled dev request value index h = ground (
  arith,
  h,
  change_port-IsSettled dev index (clear_feature dev.port_status value)
      (λ (q : PortStatus) (e : clear_feature dev.port_status value ≡ some q).
        clear_feature-connection dev.port_status q value e)
      h,
  change_port-IsSettled dev index (set_feature dev.port_status value)
      (λ (q : PortStatus) (e : set_feature dev.port_status value ≡ some q).
        set_feature-connection dev.port_status q value e)
      h,
)

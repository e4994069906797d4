-- ===== src/Hcd/Calls.antt =====
-- The controller as a machine: what the USB core, user space and the giveback thread call, in any
-- order, as steps on its state (module/vds_hcd_core.c).
pub mod Settled
pub mod Frames
pub mod Requests
pub mod Inputs
pub mod Links
pub mod Invariant
pub mod Ordered
pub mod Ledger
use windows_vds.Prelude.{
  ℕ, ◌≡◌, Bool, true, false, none, some, List, [], ◌∷◌, ◌++◌, ◌==◌, if◌then◌else◌, Bytes,
}
use windows_vds.Hcd.Types.{Urb, UrbContext, success, pending_giveback}
use windows_vds.Hcd.Device.{VdsHcdDev, vds_read, remove_context}
use windows_vds.Hcd.Giveback.{giveback_step}
use windows_vds.Hcd.Urbs.{
  urb_link, enqueue_context, new_context, find_context, cancel_context, urb_dequeue,
}
use windows_vds.Hcd.Writes.{WriteRequest, vds_write}
use windows_vds.Hcd.Port.{Ioctl, hcd_probe, hcd_start, hcd_stop, vds_open, vds_release, vds_ioctl}
use windows_vds.Hcd.Hub.{HubRequest, hub_control}

-- The controller, and the URBs whose enqueue has linked them and has dropped the lock.
pub record HcdState : Type 0 where
  pub dev : VdsHcdDev
  pub linked : List UrbContext

abbrev pub hcd_initial : HcdState
hcd_initial = record { dev = hcd_probe; linked = [] }

-- The operations of `vds_hc_driver` and `vds_fops`, and a round of the thread, with the answers of
-- the kernel that each of them gets. An enqueue is a link and, any number of calls later, the rest
-- for that URB.
pub data HcdCall : Type 0 where
  call_start : HcdCall
  call_stop : HcdCall
  call_open : HcdCall
  call_release : HcdCall
  call_ioctl : Bytes → Ioctl → HcdCall
  call_read : Bool → ℕ → Bool → HcdCall
  call_write : Bool → Bool → WriteRequest → ℕ → HcdCall
  call_hub_control : HubRequest → ℕ → ℕ → HcdCall
  call_urb_link : Bool → ℕ → Urb → HcdCall
  call_urb_rest : Bool → ℕ → ℕ → HcdCall
  call_urb_dequeue : ℕ → ℕ → ℕ → HcdCall
  call_giveback : (ℕ → Bool) → ℕ → HcdCall

-- The calls that run on the controller alone.
unfoldable pub dev_call : VdsHcdDev → HcdCall → VdsHcdDev
dev_call dev call_start = hcd_start dev
dev_call dev call_stop = hcd_stop dev
dev_call dev call_open = (vds_open dev).0
dev_call dev call_release = vds_release dev
dev_call dev (call_ioctl version cmd) = (vds_ioctl version dev cmd).0
dev_call dev (call_read nonblock count copied) = (vds_read dev nonblock count copied).0
dev_call dev (call_write memory stopped r now) = (vds_write dev memory stopped r now).0
dev_call dev (call_hub_control request value index) = (hub_control dev request value index).0
dev_call dev (call_urb_link memory link_status urb) = dev
dev_call dev (call_urb_rest memory id now) = dev
dev_call dev (call_urb_dequeue unlink_status id status) =
    (urb_dequeue dev unlink_status id status).0
dev_call dev (call_giveback memory now) = giveback_step dev memory now

unfoldable pub link_urb : HcdState → Bool → ℕ → Urb → HcdState
link_urb s memory link_status urb =
    if urb_link s.dev memory link_status == success
    then record s { linked = s.linked ++ new_context urb ∷ [] }
    else s

unfoldable pub urb_rest : HcdState → Bool → ℕ → ℕ → HcdState
urb_rest s memory id now = elim (find_context id s.linked) [
  | none ↦ s
  | some c ↦ record {
    dev = enqueue_context s.dev memory c now;
    linked = remove_context id s.linked;
  }
]

-- A URB that is taken back while its enqueue runs: its context is that of the running enqueue.
unfoldable pub take_back : HcdState → UrbContext → ℕ → HcdState
take_back s c status = record {
  dev = cancel_context s.dev c status;
  linked =
      remove_context c.urb.id s.linked
      ++ record c { status = status; state = pending_giveback } ∷ [];
}

unfoldable pub is_raced : HcdState → HcdCall → Bool
is_raced s (call_urb_dequeue unlink_status id status) = elim (find_context id s.linked) [
  | none ↦ false
  | some c ↦ unlink_status == success
]
is_raced s _ = false

unfoldable pub hcd_dequeue : HcdState → ℕ → ℕ → ℕ → HcdState
hcd_dequeue s unlink_status id status = elim (find_context id s.linked) [
  | none ↦ record s { dev = (urb_dequeue s.dev unlink_status id status).0 }
  | some c ↦ (if unlink_status == success then take_back s c status else s)
]

unfoldable pub hcd_call : HcdState → HcdCall → HcdState
hcd_call s (call_urb_link memory link_status urb) = link_urb s memory link_status urb
hcd_call s (call_urb_rest memory id now) = urb_rest s memory id now
hcd_call s (call_urb_dequeue unlink_status id status) = hcd_dequeue s unlink_status id status
hcd_call s call = record s { dev = dev_call s.dev call }

unfoldable pub hcd_run : HcdState → List HcdCall → HcdState
hcd_run s [] = s
hcd_run s (call ∷ calls) = hcd_run (hcd_call s call) calls

-- No URB is taken back between the link and the rest of its enqueue.
abbrev pub IsUnraced : HcdState → List HcdCall → Type 0
IsUnraced s [] = Unit
IsUnraced s (call ∷ calls) = (is_raced s call ≡ false) × IsUnraced (hcd_call s call) calls

-- The URBs that the controller took: those whose link succeeded.
unfoldable pub accepted_by : HcdState → HcdCall → List ℕ
accepted_by s (call_urb_link memory link_status urb) =
    if urb_link s.dev memory link_status == success then urb.id ∷ [] else []
accepted_by s _ = []

unfoldable pub accepted : HcdState → List HcdCall → List ℕ
accepted s [] = []
accepted s (call ∷ calls) = accepted_by s call ++ accepted (hcd_call s call) calls

-- ===== src/Hcd/Usb/Context.antt =====
-- What a control request does to the controller, whatever the controller is: an invariant that its
-- operations keep is kept, and a request stays open only where it was handed over.
use windows_vds.Prelude.{
  replicate, ◌==◌, false, ℕ, ◌≡◌, ◌≢◌, ◌⊎◌, inl, Bool, arith, Bytes, refl, ◌∙◌, take, [], ◌∷◌,
  Option, none, some, ◌%◌, ◌/◌,
}
use windows_vds.Hcd.Types.{
  success, einprogress, epipe, Urb, UsbCtrlrequest, FrameType, usb_feature_get, usb_feature_set,
  usb_interface, StatusFlags,
}
use windows_vds.Hcd.Profile.{VdsControllerProfile, AudioFeature}
use windows_vds.Hcd.Usb.{
  copy_to_urb, copy_string_descriptor, copy_cached_feature_report, usb_device_profile,
}
use windows_vds.Hcd.Usb.Control.{
  VdsUsbDeviceOps, UsbCall, reply, reply_string, audio_control, audio_request, audio_get, audio_set,
  set_mute, set_volume, volume_reply, hid_control, get_feature_report, forward_feature_get,
  set_report, set_feature_report,
}
use windows_vds.Hcd.Usb.Standard.{
  standard_control, control_request, usb_device_control_urb, get_string, get_hid_descriptor,
  get_descriptor, get_interface, set_configuration, select_audio_out, select_audio_in,
  set_interface, enqueue_interface_event, configured_flags, audio_flag,
}

copy_to_urb-done : (urb : Urb) (bytes : Bytes) → (copy_to_urb urb bytes).1 ≢ einprogress
unfolding copy_to_urb
copy_to_urb-done urb bytes = ground arith

copy_string_descriptor-done :
    (urb : Urb) (text : Option Bytes) → (copy_string_descriptor urb text).1 ≢ einprogress
unfolding copy_string_descriptor
copy_string_descriptor-done urb none = copy_to_urb-done urb _
copy_string_descriptor-done urb (some text) = copy_to_urb-done urb _

pub copy_to_urb-id : (urb : Urb) (bytes : Bytes) → (copy_to_urb urb bytes).0.id ≡ urb.id
unfolding copy_to_urb
copy_to_urb-id urb bytes = ground arith

copy_string_descriptor-id :
    (urb : Urb) (text : Option Bytes) → (copy_string_descriptor urb text).0.id ≡ urb.id
unfolding copy_string_descriptor
copy_string_descriptor-id urb none = copy_to_urb-id urb _
copy_string_descriptor-id urb (some text) = copy_to_urb-id urb _

-- The request leaves the controller alone and is answered.
record IsQuiet {ℓ} {C : Type ℓ} (context : C) (id : ℕ) (r : UsbCall C × ℕ) : Type ℓ where
  same : r.0.context ≡ context
  done : r.1 ≢ einprogress
  named : r.0.urb.id ≡ id

module _ {ℓ} {C : Type ℓ} (call : UsbCall C) where
  reply-IsQuiet : (bytes : Bytes) → IsQuiet call.context call.urb.id (reply call bytes)
  unfolding reply
  reply-IsQuiet bytes = record {
    same = refl;
    done = copy_to_urb-done call.urb bytes;
    named = copy_to_urb-id call.urb bytes;
  }

  reply_string-IsQuiet :
      (text : Option Bytes) → IsQuiet call.context call.urb.id (reply_string call text)
  unfolding reply_string
  reply_string-IsQuiet text = record {
    same = refl;
    done = copy_string_descriptor-done call.urb text;
    named = copy_string_descriptor-id call.urb text;
  }

  refused-IsQuiet : IsQuiet call.context call.urb.id (call, epipe)
  refused-IsQuiet = record { same = refl; done = omega arith; named = refl }

  audio_get-IsQuiet :
      (setup : UsbCtrlrequest) (feature : AudioFeature)
      → IsQuiet call.context call.urb.id (audio_get call setup feature)
  unfolding audio_get volume_reply
  audio_get-IsQuiet setup feature = grind (arith, reply-IsQuiet, refused-IsQuiet)

  audio_set-IsQuiet :
      (setup : UsbCtrlrequest) (feature : AudioFeature) (buffer : Bytes)
      → IsQuiet call.context call.urb.id (audio_set call setup feature buffer)
  unfolding audio_set set_mute set_volume
  audio_set-IsQuiet setup feature buffer = ground (arith, refused-IsQuiet)

  audio_control-IsQuiet :
      (setup : UsbCtrlrequest) (profile : VdsControllerProfile)
      → IsQuiet call.context call.urb.id (audio_control call setup profile)
  unfolding audio_control audio_request
  audio_control-IsQuiet setup profile =
      grind (arith, audio_get-IsQuiet, audio_set-IsQuiet, refused-IsQuiet)

  get_descriptor-IsQuiet :
      (setup : UsbCtrlrequest) (profile : VdsControllerProfile)
      → IsQuiet call.context call.urb.id (get_descriptor call setup profile)
  unfolding get_descriptor get_string get_hid_descriptor
  get_descriptor-IsQuiet setup profile =
      grind (arith, reply-IsQuiet, reply_string-IsQuiet, refused-IsQuiet)

  get_interface-IsQuiet :
      (setup : UsbCtrlrequest) (profile : VdsControllerProfile)
      → IsQuiet call.context call.urb.id (get_interface call setup profile)
  unfolding get_interface
  get_interface-IsQuiet setup profile = grind (arith, reply-IsQuiet, refused-IsQuiet)

-- `S` holds of the controller at first, `P` all along, and `R` once the request was handed over.
pub record IsHandled {C : Type 0} (P R : C → Type 0) (n : ℕ) (r : UsbCall C × ℕ) : Type 0 where
  pub kept : P r.0.context
  pub answered : (r.1 ≢ einprogress) ⊎ R r.0.context
  pub named : r.0.urb.id ≡ n

-- What the operations of the controller have to keep; a request is handed over at first only.
pub record IsKept {C : Type 0} (ops : VdsUsbDeviceOps C) (S P R : C → Type 0) (n : ℕ) : Type 0 where
  pub started : (c : C) → S c → P c
  pub enqueued :
      (c : C) (type : FrameType) (payload : Bytes) → P c → P (ops.enqueue_frame c type payload).0
  pub enqueued_open :
      (c : C) (type : FrameType) (payload : Bytes) → R c → R (ops.enqueue_frame c type payload).0
  pub enqueue_done :
      (c : C) (type : FrameType) (payload : Bytes)
      → (ops.enqueue_frame c type payload).1 ≢ einprogress
  pub deferred :
      (c : C) (urb : Urb) (id : ℕ) → urb.id ≡ n → S c → P (ops.defer_feature_get c urb id).0
  pub deferred_open :
      (c : C) (urb : Urb) (id : ℕ)
      → urb.id ≡ n
      → S c
      → (ops.defer_feature_get c urb id).1 ≡ success
      → R (ops.defer_feature_get c urb id).0
  pub defer_done : (c : C) (urb : Urb) (id : ℕ) → (ops.defer_feature_get c urb id).1 ≢ einprogress
  pub status_set :
      (c : C) (flags : StatusFlags) (enabled : Bool)
      → flags.connected ≡ false
      → P c
      → P (ops.set_status c flags enabled)

module _ {C : Type 0} (ops : VdsUsbDeviceOps C) (S P R : C → Type 0) (n : ℕ)
    (keeps : IsKept ops S P R n) (call : UsbCall C) (start : S call.context) (h : P call.context)
    (name : call.urb.id ≡ n) where
  IsQuiet-IsHandled : (r : UsbCall C × ℕ) → IsQuiet call.context call.urb.id r → IsHandled P R n r
  IsQuiet-IsHandled r q = record {
    kept = rw q.same h;
    answered = inl q.done;
    named = q.named ∙ name;
  }

  forward_feature_get-IsHandled :
      (setup : UsbCtrlrequest) (report_id : ℕ)
      → IsHandled P R n (forward_feature_get ops call setup report_id)
  unfolding forward_feature_get
  forward_feature_get-IsHandled setup report_id =
      let payload = report_id ∷ setup.length % 256 ∷ setup.length / 256 ∷ [] in
      let moved = (ops.defer_feature_get call.context call.urb report_id).0 in
      let there = keeps.deferred call.context call.urb report_id name start in
      ground (
        arith,
        there,
        name,
        keeps.deferred_open call.context call.urb report_id name start,
        keeps.defer_done call.context call.urb report_id,
        keeps.enqueued moved usb_feature_get payload there,
        keeps.enqueued_open moved usb_feature_get payload,
        keeps.enqueue_done moved usb_feature_get payload,
      )

  get_feature_report-IsHandled :
      (setup : UsbCtrlrequest) (report_id : ℕ)
      → IsHandled P R n (get_feature_report ops call setup report_id)
  unfolding get_feature_report copy_cached_feature_report
  get_feature_report-IsHandled setup report_id = ground (
    arith,
    h,
    name,
    copy_to_urb-done call.urb (call.usb.feature_cache report_id),
    copy_to_urb-id call.urb (call.usb.feature_cache report_id),
    forward_feature_get-IsHandled setup report_id,
  )

  set_report-IsHandled :
      (setup : UsbCtrlrequest) (buffer : Option Bytes)
      → call.urb.transfer_buffer ≡ buffer
      → IsHandled P R n (set_report ops call setup)
  unfolding set_report set_feature_report
  set_report-IsHandled setup none e = ground (arith, h, name, e)
  set_report-IsHandled setup (some buffer) e =
      let payload = setup.value % 256 ∷ take call.urb.transfer_buffer_length buffer in
      ground (
        arith,
        h,
        name,
        e,
        keeps.enqueued call.context usb_feature_set payload h,
        keeps.enqueue_done call.context usb_feature_set payload,
      )

  hid_control-IsHandled :
      (setup : UsbCtrlrequest) (profile : VdsControllerProfile)
      → IsHandled P R n (hid_control ops call setup profile)
  unfolding hid_control
  hid_control-IsHandled setup profile =
      let quiet =
        λ (bytes : Bytes). IsQuiet-IsHandled (reply call bytes) (reply-IsQuiet call bytes) in
      ground (
        arith,
        h,
        name,
        quiet (setup.value % 256 ∷ replicate 63 0),
        quiet (call.usb.hid_idle ∷ []),
        quiet (call.usb.hid_protocol ∷ []),
        get_feature_report-IsHandled setup (setup.value % 256),
        set_report-IsHandled setup call.urb.transfer_buffer refl,
      )

  set_configuration-IsHandled :
      (setup : UsbCtrlrequest) (profile : VdsControllerProfile)
      → IsHandled P R n (set_configuration ops call setup profile)
  unfolding set_configuration
  set_configuration-IsHandled setup profile =
      let now_configured = setup.value % 256 == profile.configuration_value in
      let first = keeps.status_set call.context configured_flags now_configured refl h in
      ground (arith, h, name, keeps.status_set _ audio_flag false refl first)

  event-kept :
      (c : C) (number altsetting type : ℕ)
      → P c
      → P (enqueue_interface_event ops c number altsetting type)
  unfolding enqueue_interface_event
  event-kept c number altsetting type p = keeps.enqueued c usb_interface _ p

  set_interface-IsHandled :
      (setup : UsbCtrlrequest) (profile : VdsControllerProfile)
      → IsHandled P R n (set_interface ops call setup profile)
  unfolding set_interface select_audio_in select_audio_out
  set_interface-IsHandled setup profile =
      let alt = setup.value % 256 in
      ground (
        arith,
        h,
        name,
        event-kept call.context profile.hid_interface 0 0 h,
        event-kept call.context profile.audio_in_interface alt 2 h,
        event-kept (ops.set_status call.context audio_flag (alt == 1)) profile.audio_out_interface
            alt 1 (keeps.status_set call.context audio_flag (alt == 1) refl h),
      )

  standard_control-IsHandled :
      (setup : UsbCtrlrequest) (profile : VdsControllerProfile)
      → IsHandled P R n (standard_control ops call setup profile)
  unfolding standard_control
  standard_control-IsHandled setup profile =
      let quiet =
        λ (bytes : Bytes). IsQuiet-IsHandled (reply call bytes) (reply-IsQuiet call bytes) in
      ground (
        arith,
        h,
        name,
        IsQuiet-IsHandled (get_descriptor call setup profile)
            (get_descriptor-IsQuiet call setup profile),
        IsQuiet-IsHandled (get_interface call setup profile)
            (get_interface-IsQuiet call setup profile),
        set_configuration-IsHandled setup profile,
        set_interface-IsHandled setup profile,
        quiet (call.usb.configuration ∷ []),
        quiet (0 ∷ 0 ∷ []),
      )

  control_request-IsHandled :
      (setup : UsbCtrlrequest) (profile : VdsControllerProfile)
      → IsHandled P R n (control_request ops call setup profile)
  unfolding control_request
  control_request-IsHandled setup profile = ground (
    arith,
    h,
    name,
    standard_control-IsHandled setup profile,
    hid_control-IsHandled setup profile,
    IsQuiet-IsHandled (audio_control call setup profile) (audio_control-IsQuiet call setup profile),
  )

-- The controller after the whole request.
pub usb_device_control_urb-IsHandled :
    {C : Type 0} (ops : VdsUsbDeviceOps C) (S P R : C → Type 0) (n : ℕ)
    → IsKept ops S P R n
    → (call : UsbCall C) → S call.context
    → call.urb.id ≡ n
    → IsHandled P R n (usb_device_control_urb ops call)
unfolding usb_device_control_urb
usb_device_control_urb-IsHandled ops S P R n keeps call start name =
    elim call.urb.setup_packet
      as (λ p. IsHandled P R n (elim p [
        | none ↦ (call, epipe)
        | some setup ↦
            control_request ops (record call { urb = record call.urb { actual_length = 0 } }) setup
              (usb_device_profile call.usb)
      ])) [
        | none ↦ record {
          kept = keeps.started call.context start;
          answered = inl (omega arith);
          named = name;
        }
        | some setup ↦
            control_request-IsHandled ops S P R n keeps
              (record call { urb = record call.urb { actual_length = 0 } }) start
              (keeps.started call.context start) name setup (usb_device_profile call.usb)
      ]

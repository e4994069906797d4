-- ===== src/Protocol/Output/Sent.antt =====
-- The bytes of the reports that `build_bt_state_report` and `build_bt_rumble_report` of
-- src/vds_protocol.cc send.
use mathlib.Core.Path.{subst}
use windows_vds.Prelude.{
  ℕ, zero, suc, ◌+◌, ◌*◌, ◌-◌, ◌%◌, ◌<◌, ◌≡◌, ◌≤◌, ◌∙◌, refl, sym, ap, [], ◌∷◌, ◌++◌, List, length,
  take, drop, get_or, replicate, Bytes, ok, arith,
}
use Prim.Native.Nat.{bit_or}
use windows_vds.Protocol.Crc.{output_crc32}
use windows_vds.Protocol.Checksum.{Sealed, word_of, length-take, fill_output_report_checksum-Sealed}
use windows_vds.Protocol.Output.{OutputState}
use windows_vds.Protocol.Output.Reports.{
  sequence_byte, state_frame, build_bt_state_report, rumble_state, build_bt_rumble_report,
}
use windows_vds.Protocol.Output.Sizes.{IsOutput, length-set, state_frame-length, next_sequence-mod}

-- A report of 78 bytes: id, sequence number in the high half, tag, the mirrored bytes and 24 zeros,
-- and a checksum of these.
pub record IsSent (sequence : ℕ) (mirrored report : Bytes) : Type 0 where
  pub sized : length report ≡ 78
  pub front : take 74 report ≡ 0x31 ∷ sequence * 16 ∷ 0x10 ∷ (mirrored ++ replicate 24 0)
  pub checksum : word_of (drop 74 report) ≡ output_crc32 (take 74 report)

take-append_more {ℓ} :
    {A : Type ℓ} (m : ℕ) (xs ys : List A)
    → length xs ≤ m
    → take m (xs ++ ys) ≡ xs ++ take (m - length xs) ys
take-append_more m [] ys le = ap (λ (n : ℕ). take n ys) (omega arith)
take-append_more zero (x ∷ xs) ys le = absurd (omega (arith, le))
take-append_more (suc m) (x ∷ xs) ys le =
    ap (λ t. x ∷ t) (take-append_more m xs ys (omega (arith, le)))
    ∙ ap (λ (n : ℕ). x ∷ (xs ++ take n ys)) (omega arith)

front-state_frame :
    (sequence : ℕ) (state : Bytes)
    → sequence < 16
    → length state ≡ 63
    → take 74 (state_frame sequence state)
      ≡ 0x31 ∷ sequence * 16 ∷ 0x10 ∷ (take 47 state ++ replicate 24 0)
unfolding state_frame sequence_byte
front-state_frame sequence state lt sized =
    let kept = length-take 47 state (omega (arith, sized)) in
    let byte : sequence * 16 % 256 ≡ sequence * 16 = omega (arith, lt) in
    let rest : take 71 (take 47 state ++ replicate 28 0) ≡ take 47 state ++ replicate 24 0 =
      take-append_more 71 (take 47 state) (replicate 28 0) (omega (arith, kept))
      ∙ ap (λ (n : ℕ). take 47 state ++ take (71 - n) (replicate 28 0)) kept in
    rw (byte, rest) refl

sent :
    (sequence : ℕ) (state report : Bytes)
    → sequence < 16
    → length state ≡ 63
    → Sealed output_crc32 (state_frame sequence state) report
    → IsSent sequence (take 47 state) report
sent sequence state report lt sized (whole, front, checksum) =
    let frame = state_frame-length sequence state sized in
    let size : length (state_frame sequence state) - 4 ≡ 74 = omega (arith, frame) in
    let full : length report ≡ 78 = whole ∙ frame in
    let back : length report - 4 ≡ 74 = omega (arith, full) in
    record {
      sized = full;
      front =
          subst (λ (n : ℕ). take n report ≡ take n (state_frame sequence state)) size front
          ∙ front-state_frame sequence state lt sized;
      checksum =
          ap (λ (n : ℕ). word_of (drop n report)) (sym size)
          ∙ checksum
          ∙ ap (λ (n : ℕ). output_crc32 (take n report)) back;
    }

-- From a state of 63 bytes with a sequence number of four bits the state report is built. It has 78
-- bytes: 0x31, the sequence number in the high half of a byte, 0x10, the first 47 bytes of the
-- state, 24 zeros, and the checksum of all these. The state is as before, with the next sequence
-- number modulo 16.
pub build_bt_state_report-IsSent :
    (s : OutputState)
    → IsOutput s
    → (report : Bytes) × (build_bt_state_report s
        ≡ ok (report, record s { report_sequence = (s.report_sequence + 1) % 16 }))
      × IsSent s.report_sequence (take 47 s.state) report
unfolding build_bt_state_report
build_bt_state_report-IsSent s h =
    let sized = state_frame-length s.report_sequence s.state h.sized in
    let (report, made, sealed) =
      fill_output_report_checksum-Sealed (state_frame s.report_sequence s.state)
        (omega (arith, sized)) in
    (
      report,
      rw (made, next_sequence-mod s.report_sequence h.report) refl,
      sent s.report_sequence s.state report h.report h.sized sealed,
    )

rumble_state-bytes :
    (right_motor left_motor : ℕ) (state : Bytes)
    → 4 ≤ length state
    → rumble_state right_motor left_motor state
      ≡ bit_or (get_or state 0 0) 0x03 ∷ get_or state 1 0 ∷ right_motor ∷ left_motor ∷ drop 4 state
unfolding rumble_state
rumble_state-bytes r l [] h = absurd (omega (arith, h))
rumble_state-bytes r l (a ∷ []) h = absurd (omega (arith, h))
rumble_state-bytes r l (a ∷ b ∷ []) h = absurd (omega (arith, h))
rumble_state-bytes r l (a ∷ b ∷ c ∷ []) h = absurd (omega (arith, h))
rumble_state-bytes r l (a ∷ b ∷ c ∷ d ∷ state) h = refl

-- From a state of 63 bytes with a sequence number of four bits the rumble report is built. It has
-- 78 bytes: 0x31, the sequence number in the high half of a byte, 0x10, the first byte of the state
-- with its bits 0 and 1 set, the second one, the two motors, the bytes 4 to 46 of the state, 24
-- zeros, and the checksum of all these. The state is as before, with the next sequence number
-- modulo 16.
pub build_bt_rumble_report-IsSent :
    (right_motor left_motor : ℕ) (s : OutputState)
    → IsOutput s
    → (report : Bytes) × (build_bt_rumble_report right_motor left_motor s
        ≡ ok (report, record s { report_sequence = (s.report_sequence + 1) % 16 }))
      × IsSent s.report_sequence
          (bit_or (get_or s.state 0 0) 0x03
            ∷ get_or s.state 1 0
            ∷ right_motor
            ∷ left_motor
            ∷ take 43 (drop 4 s.state))
          report
unfolding build_bt_rumble_report
build_bt_rumble_report-IsSent right_motor left_motor s h =
    let moved = rumble_state right_motor left_motor s.state in
    let kept : length moved ≡ 63 =
      unfold rumble_state in
      length-set _ 3 left_motor
      ∙ (length-set _ 2 right_motor ∙ (length-set s.state 0 _ ∙ h.sized)) in
    let sized = state_frame-length s.report_sequence moved kept in
    let (report, made, sealed) =
      fill_output_report_checksum-Sealed (state_frame s.report_sequence moved)
        (omega (arith, sized)) in
    (
      report,
      rw (made, next_sequence-mod s.report_sequence h.report) refl,
      subst (λ (bytes : Bytes). IsSent s.report_sequence (take 47 bytes) report)
          (rumble_state-bytes right_motor left_motor s.state (omega (arith, h.sized)))
          (sent s.report_sequence moved report h.report kept sealed),
    )

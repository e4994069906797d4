-- ===== src/Daemon/Trace.antt =====
-- Trace scopes in src/vdsd_common.cc: a set of flags, its text and its parser.
use Prim.Native.Nat.{bit_and, bit_or}
use windows_vds.Prelude.{
  ℕ, zero, suc, Bool, true, false, not, [], ◌∷◌, ◌++◌, ◌==◌, if◌then◌else◌, length, Bytes, codes,
  bytes_eq, none, some, Result, ok, err, out_of_fuel, ◌>>=◌,
}
use windows_vds.Protocol.Triggers.Spec.{before, behind}

abbrev pub trace_input_audio : ℕ
trace_input_audio = 1

abbrev pub trace_input_control : ℕ
trace_input_control = 2

abbrev pub trace_input : ℕ
trace_input = 3

abbrev pub trace_output : ℕ
trace_output = 4

abbrev pub trace_all : ℕ
trace_all = 7

-- The flags of one item of the scope text.
unfoldable pub scope_item : Bytes → Result ℕ
unfolding bytes_eq
scope_item item =
    if bytes_eq item (codes "input")
    then ok trace_input
    else if bytes_eq item (codes "all")
    then ok (bit_or trace_input trace_output)
    else if bytes_eq item (codes "input-audio")
    then ok trace_input_audio
    else if bytes_eq item (codes "input-control")
    then ok trace_input_control
    else if bytes_eq item (codes "output")
    then ok trace_output
    else err (
        codes
          "trace scope must be all, input, input-audio, input-control, output, or comma-separated scopes")

-- The loop over the items. An empty scope is one empty item, which is refused.
unfoldable pub scope_loop : ℕ → ℕ → Bytes → Result ℕ
unfolding before behind
scope_loop zero flags scope = out_of_fuel
scope_loop (suc fuel) flags scope = scope_item (before b',' scope) >>= λ item.
    elim (behind b',' scope) [
      | none ↦ ok (bit_or flags item)
      | some rest ↦ scope_loop fuel (bit_or flags item) rest
    ]

unfoldable pub parse_trace_scope : Bytes → Result ℕ
unfolding scope_loop scope_item
parse_trace_scope scope = scope_loop (suc (length scope)) 0 scope

unfoldable pub trace_enabled : ℕ → ℕ → Bool
trace_enabled trace_flags target = not (bit_and trace_flags target == 0)

-- A name behind those written before, with a comma where there are any.
unfoldable pub add_name : Bool → Bytes → Bytes → Bytes
add_name false item name = name
add_name true item [] = item
add_name true item (c ∷ name) = (c ∷ name) ++ b',' ∷ item

unfoldable pub name_or_none : Bytes → Bytes
name_or_none [] = codes "none"
name_or_none (c ∷ name) = c ∷ name

unfoldable pub trace_scope_name : ℕ → Bytes
unfolding trace_enabled add_name name_or_none
trace_scope_name scope =
    if scope == trace_all
    then codes "all"
    else if scope == trace_input
    then codes "input"
    else if scope == trace_input_audio
    then codes "input-audio"
    else if scope == trace_input_control
    then codes "input-control"
    else if scope == trace_output
    then codes "output"
    else name_or_none (
        add_name (trace_enabled scope trace_output) (codes "output") (
          add_name (trace_enabled scope trace_input_control) (codes "input-control")
            (add_name (trace_enabled scope trace_input_audio) (codes "input-audio") [])))

unfoldable pub active_trace_name : ℕ → Bytes
unfolding trace_scope_name
active_trace_name trace_flags =
    let flags = bit_and trace_flags trace_all in
    if flags == 0 then codes "none" else trace_scope_name flags

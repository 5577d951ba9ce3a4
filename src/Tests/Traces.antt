-- ===== src/Tests/Traces.antt =====
-- server/trace_context.rs on concrete inputs.
use dravr_tronc.Common.{ℕ, zero, suc, ◌≡◌, refl, none, some, [], ◌∷◌, ◌++◌}
use dravr_tronc.Common.Bytes.{Bytes}
use dravr_tronc.Guard.Text.{trim_start, trim_end}
use dravr_tronc.Trace.{
  slice, is_lower_hex, is_dash, tail_ok, is_long, is_version, is_valid_traceparent,
  is_usable_tracestate, parse, trace_id,
}

abbrev repeat : ℕ → ℕ → Bytes
repeat zero b = []
repeat (suc n) b = b ∷ repeat n b

abbrev header : Bytes
header = (b'0' ∷ b'0' ∷ b'-' ∷ repeat 32 b'a') ++ (b'-' ∷ repeat 16 b'1') ++ b'-' ∷ b'0' ∷ b'1' ∷ []

all_ops : Unit {0}
unfolding slice is_lower_hex is_dash tail_ok is_long is_version is_valid_traceparent
    is_usable_tracestate parse trace_id trim_start trim_end
all_ops = tt

parsed : parse (b' ' ∷ header) (some []) ≡ some (record { traceparent = header; tracestate = none })
unfolding all_ops
parsed = refl

traced : trace_id (record { traceparent = header; tracestate = none }) ≡ repeat 32 b'a'
unfolding all_ops
traced = refl

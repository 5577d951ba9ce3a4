-- ===== src/Trace.antt =====
-- server/trace_context.rs: the trace that a request belongs to. A header is the list of its bytes.
pub mod Header
use dravr_tronc.Common.{
  ℕ, ◌≡◌, Bool, true, false, not, ◌&&◌, ◌||◌, Option, none, some, List, [], ◌∷◌, nat_eq, list_eq,
  ◌==◌, ltb, leb, if◌then◌else◌,
}
use dravr_tronc.Common.Lists.{length, take, drop, any, all, get_elem?}
use dravr_tronc.Common.Bytes.{Bytes}
use dravr_tronc.Guard.Text.{trim_start, trim_end}

pub record TraceContext : Type 0 where
  pub traceparent : Bytes
  pub tracestate : Option Bytes

-- `&bytes[first..last]`.
unfoldable pub slice : ℕ → ℕ → Bytes → Bytes
slice first size bytes = take size (drop first bytes)

unfoldable pub is_lower_hex : ℕ → Bool
is_lower_hex b = (leb b'0' b && leb b b'9') || (leb b'a' b && leb b b'f')

unfoldable pub is_dash : Option ℕ → Bool
is_dash none = false
is_dash (some b) = b == b'-'

abbrev pub not_zero : Bytes → Bool
not_zero range = any (λ b. not (b == b'0')) range

unfoldable pub tail_ok : Bytes → Bytes → Bool
unfolding is_dash
tail_ok version bytes =
    (length bytes == 55) || (not (version == b'0' ∷ b'0' ∷ []) && is_dash (get_elem? bytes 55))

unfoldable pub is_long : Bytes → Bool
is_long bytes = not (ltb (length bytes) 55)

unfoldable pub is_version : Bytes → Bool
is_version version = not (version == b'f' ∷ b'f' ∷ [])

unfoldable pub is_valid_traceparent : Bytes → Bool
is_valid_traceparent bytes =
    let version = slice 0 2 bytes in
    let trace_id = slice 3 32 bytes in
    let parent_id = slice 36 16 bytes in
    let flags = slice 53 2 bytes in
    is_long bytes
    && is_dash (get_elem? bytes 2)
    && is_dash (get_elem? bytes 35)
    && is_dash (get_elem? bytes 52)
    && tail_ok version bytes
    && all is_lower_hex version
    && is_version version
    && all is_lower_hex trace_id
    && not_zero trace_id
    && all is_lower_hex parent_id
    && not_zero parent_id
    && all is_lower_hex flags

unfoldable pub is_usable_tracestate : Bytes → Bool
is_usable_tracestate value =
    not (value == []) && leb (length value) 512 && all (λ b. leb b' ' b && leb b b'~') value

abbrev pub filter : (Bytes → Bool) → Option Bytes → Option Bytes
filter p none = none
filter p (some v) = if p v then some v else none

abbrev pub trimmed : Option Bytes → Option Bytes
trimmed none = none
trimmed (some v) = some (trim_end (trim_start v))

-- `TraceContext::parse`.
unfoldable pub parse : Bytes → Option Bytes → Option TraceContext
parse traceparent tracestate =
    let parent = trim_end (trim_start traceparent) in
    if is_valid_traceparent parent
    then some (record {
      traceparent = parent;
      tracestate = filter is_usable_tracestate (trimmed tracestate);
    })
    else none

-- `TraceContext::trace_id`.
unfoldable pub trace_id : TraceContext → Bytes
unfolding slice
trace_id c = slice 3 32 c.traceparent

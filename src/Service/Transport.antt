-- ===== src/Service/Transport.antt =====
-- service_client/transport.rs: how a request failed when no response came back. An error of reqwest
-- is read by its two tests and the chain of its sources.
use dravr_tronc.Common.{Bool, true, false, ◌||◌, List, [], ◌∷◌, if◌then◌else◌}
use dravr_tronc.Service.{TransportFailure, timed_out, unreachable, closed_before_response, other}

pub data ErrorKind : Type 0 where
  connection_reset connection_aborted broken_pipe unexpected_eof another_kind : ErrorKind

-- A source in the chain: hyper's error, by its tests, an I/O error, or another.
pub data Cause : Type 0 where
  hyper_error : Bool → Bool → Cause
  io_error : ErrorKind → Cause
  another : Cause

pub record TransportError : Type 0 where
  pub is_timeout : Bool
  pub is_connect : Bool
  pub sources : List Cause

abbrev pub closes : ErrorKind → Bool
closes another_kind = false
closes _ = true

abbrev pub is_close : Cause → Bool
is_close (hyper_error is_incomplete_message is_canceled) = is_incomplete_message || is_canceled
is_close (io_error kind) = closes kind
is_close another = false

unfoldable pub is_closed_before_response : List Cause → Bool
is_closed_before_response [] = false
is_closed_before_response (current ∷ rest) =
    let later = is_closed_before_response rest in if is_close current then true else later

-- `TransportFailure::of`.
unfoldable pub of : TransportError → TransportFailure
of error =
    if error.is_timeout
    then timed_out
    else if error.is_connect
    then unreachable
    else if is_closed_before_response error.sources
    then closed_before_response
    else other

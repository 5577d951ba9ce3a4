-- ===== src/Service.antt =====
-- service_client/error.rs, and the `Exchange` of service_client/response.rs: what a call to another
-- service failed with, and under which id. The texts of causes are left out.
pub mod Transport
pub mod Response
pub mod Client
use dravr_tronc.Common.{ℕ, Bool, Option, none, some, String}
use dravr_tronc.Guard.Text.{Text}
use dravr_tronc.Iam.{IamError}

pub record Exchange : Type 0 where
  pub service : String
  pub operation : String
  pub request_id : Text
  pub elapsed : ℕ
  pub resent : Bool

pub data TransportFailure : Type 0 where
  timed_out unreachable closed_before_response other : TransportFailure

pub data Unfinished : Type 0 where
  service_deadline gateway_deadline bad_gateway handler_panicked : Unfinished

pub data ServiceError : Type 0 where
  identity : String → String → IamError → ServiceError
  transport : Exchange → TransportFailure → ServiceError
  -- With the status, the seconds to wait and the reason.
  shed : Exchange → ℕ → ℕ → Option String → ServiceError
  unfinished : Exchange → ℕ → Unfinished → Option String → ServiceError
  body : Exchange → ℕ → ServiceError
  decode : Exchange → ℕ → ServiceError

unfoldable pub exchange_of : ServiceError → Option Exchange
exchange_of (identity service operation source) = none
exchange_of (transport e failure) = some e
exchange_of (shed e status wait reason) = some e
exchange_of (unfinished e status kind detail) = some e
exchange_of (body e status) = some e
exchange_of (decode e status) = some e

pub data ConfigError : Type 0 where
  invalid_base_url audience_required : String → ConfigError
  audience_not_set : String → Text → Text → ConfigError
  http_client : String → ConfigError

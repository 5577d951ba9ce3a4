-- ===== src/Caller.antt =====
-- mcp/client_channel.rs: the key of a caller. The fingerprint of a credential is a parameter.
use dravr_tronc.Common.{
  ℕ, ◌≡◌, ◌↔◌, Bool, true, false, ◌&&◌, ◌||◌, Option, none, some, String, is_some, ◌==◌, nat_eq,
  string_eq, option_eq, option_beq_iff, arith,
}
use mathlib.Core.Option
use dravr_tronc.Session.{ToolContext}

pub data Channel : Type 0 where
  unconnected : Channel
  connection : ℕ → Channel
  session : String → Channel
  sessionless : Option ℕ → Channel

pub record CallerKey : Type 0 where
  pub user : Option String
  pub tenant : Option String
  pub channel : Channel

abbrev pub channel_beq : Channel → Channel → Bool
channel_beq unconnected unconnected = true
channel_beq (connection a) (connection b) = a == b
channel_beq (session a) (session b) = a == b
channel_beq (sessionless a) (sessionless b) = a == b
channel_beq _ _ = false

pub channel_beq_iff : (a b : Channel) → (channel_beq a b ≡ true) ↔ (a ≡ b)
channel_beq_iff unconnected unconnected = ground arith
channel_beq_iff unconnected (connection b) = ground arith
channel_beq_iff unconnected (session b) = ground arith
channel_beq_iff unconnected (sessionless b) = ground arith
channel_beq_iff (connection a) unconnected = ground arith
channel_beq_iff (connection a) (connection b) = ground (arith, nat_eq.same_iff a b)
channel_beq_iff (connection a) (session b) = ground arith
channel_beq_iff (connection a) (sessionless b) = ground arith
channel_beq_iff (session a) unconnected = ground arith
channel_beq_iff (session a) (connection b) = ground arith
channel_beq_iff (session a) (session b) = ground (arith, string_eq.same_iff a b)
channel_beq_iff (session a) (sessionless b) = ground arith
channel_beq_iff (sessionless a) unconnected = ground arith
channel_beq_iff (sessionless a) (connection b) = ground arith
channel_beq_iff (sessionless a) (session b) = ground arith
channel_beq_iff (sessionless a) (sessionless b) = ground (arith, option_beq_iff a b)

abbrev pub caller_beq : CallerKey → CallerKey → Bool
caller_beq a b = (a.user == b.user) && (a.tenant == b.tenant) && channel_beq a.channel b.channel

pub caller_beq_iff : (a b : CallerKey) → (caller_beq a b ≡ true) ↔ (a ≡ b)
caller_beq_iff a b = ground (
  arith,
  option_beq_iff a.user b.user,
  option_beq_iff a.tenant b.tenant,
  channel_beq_iff a.channel b.channel,
)

unfoldable pub with_channel : ToolContext → Channel → CallerKey
with_channel ctx c = record { user = ctx.user_id; tenant = ctx.tenant_id; channel = c }

-- `CallerKey::http`.
unfoldable pub http_caller : (String → ℕ) → ToolContext → Option String → Option String → CallerKey
unfolding with_channel
http_caller fingerprint ctx (some id) credential = with_channel ctx (session id)
http_caller fingerprint ctx none credential =
    with_channel ctx (sessionless (Option.map fingerprint credential))

unfoldable pub names_channel : Channel → Bool
names_channel (sessionless credential) = false
names_channel _ = true

unfoldable pub tells_callers_apart : CallerKey → Bool
unfolding names_channel
tells_callers_apart k = names_channel k.channel || is_some k.user || is_some k.tenant

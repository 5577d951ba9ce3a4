-- ===== src/Tests/Replies.antt =====
-- mcp/client_channel.rs on concrete inputs.
use dravr_tronc.Common.{ℕ, ◌≡◌, ◌↔◌, refl, true, false, none, some, [], string_eq}
use dravr_tronc.Common.Assoc.{lookup, without, insert as put}
use dravr_tronc.Json
use dravr_tronc.Caller.{CallerKey, connection}
use dravr_tronc.Pending.{
  PendingKey, JsonRpcResponse, PendingRequests, register, deliver, hand_to, answer,
}
use dravr_tronc.Pending.Answers.{place_of, awaited, key_of, deliver_iff, deliver_once}

abbrev on : ℕ → CallerKey
on serial = record { user = none; tenant = none; channel = connection serial }

abbrev asked : PendingKey
asked = record { caller = on 0; id = "server-1" }

abbrev reply : JsonRpcResponse
reply = record { id = some (Json.string "server-1"); result = Json.null }

abbrev idle : PendingRequests
idle = record { entries = some []; is_waiting = λ p. false; answers = λ p. none }

abbrev waiting : PendingRequests
waiting = (register asked 7 idle).0

all_ops : Unit {0}
unfolding register deliver hand_to answer lookup without put place_of awaited key_of
all_ops = tt

replies :
    ((deliver (on 0) reply waiting).1 ≡ true)
    × ((deliver (on 0) reply waiting).0.answers 7 ≡ some reply)
    × ((deliver (on 1) reply waiting).1 ≡ false)
unfolding all_ops
replies = (refl, refl, refl)

deliver_iff_example : ((deliver (on 0) reply waiting).1 ≡ true) ↔ (
    (place : ℕ) × (awaited (on 0) reply waiting ≡ some place)
    × (waiting.is_waiting place ≡ true)
    × ((deliver (on 0) reply waiting).0.answers place ≡ some reply))
deliver_iff_example = deliver_iff (on 0) reply waiting

deliver_once_example : (deliver (on 0) reply (deliver (on 0) reply waiting).0).1 ≡ false
deliver_once_example = deliver_once (on 0) reply reply waiting refl

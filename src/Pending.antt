-- ===== src/Pending.antt =====
-- mcp/client_channel.rs: the server requests that await an answer. The receiving end of a request's
-- channel is known by a number; the answer that is put there is the response's.
pub mod Answers
use dravr_tronc.Common.{
  ℕ, ◌≡◌, ◌↔◌, Bool, true, false, ◌&&◌, Option, none, some, String, List, PartialEq, ◌==◌, nat_eq,
  string_eq, if◌then◌else◌, arith,
}
use dravr_tronc.Common.Assoc.{lookup, without, insert as put}
use dravr_tronc.Json.{Value}
use dravr_tronc.Json
use dravr_tronc.Caller.{CallerKey, caller_beq, caller_beq_iff}

pub record PendingKey : Type 0 where
  pub caller : CallerKey
  pub id : String

abbrev pub pending_beq : PendingKey → PendingKey → Bool
pending_beq a b = caller_beq a.caller b.caller && (a.id == b.id)

pub pending_beq_iff : (a b : PendingKey) → (pending_beq a b ≡ true) ↔ (a ≡ b)
pending_beq_iff a b = ground (arith, caller_beq_iff a.caller b.caller, string_eq.same_iff a.id b.id)

instance abbrev pub pending_eq : PartialEq PendingKey
pending_eq = record { same = pending_beq; same_iff = pending_beq_iff }

pub record JsonRpcResponse : Type 0 where
  pub id : Option Value
  pub result : Value

-- A place is given up once its receiver is dropped: an answer to it is lost.
pub record PendingRequests : Type 0 where
  pub entries : Option (List (PendingKey × ℕ))
  pub is_waiting : ℕ → Bool
  pub answers : ℕ → Option JsonRpcResponse

abbrev pub with_entries : PendingRequests → Option (List (PendingKey × ℕ)) → PendingRequests
with_entries s m = record s { entries = m }

-- `register`, with a new place to wait at. The sender that it replaces is dropped.
unfoldable pub register : PendingKey → ℕ → PendingRequests → PendingRequests × Option ℕ
register k place s = elim s.entries [
  | none ↦ (s, none)
  | some m ↦ (
    record s {
      entries = some (put k place m);
      is_waiting = λ p. if p == place then true else s.is_waiting p;
      answers = λ p. if p == place then none else s.answers p;
    },
    some place,
  )
]

unfoldable pub forget : PendingKey → PendingRequests → PendingRequests
forget k s = elim s.entries [ none ↦ s | some m ↦ with_entries s (some (without k m)) ]

-- `oneshot::Sender::send`.
unfoldable pub answer : ℕ → JsonRpcResponse → PendingRequests → PendingRequests × Bool
answer place r s =
    if s.is_waiting place
    then (record s { answers = λ p. if p == place then some r else s.answers p }, true)
    else (s, false)

unfoldable pub hand_to : PendingKey → JsonRpcResponse → PendingRequests → PendingRequests × Bool
hand_to k r s = elim s.entries [
  | none ↦ (s, false)
  | some m ↦ elim (lookup k m) [
    | none ↦ (s, false)
    | some place ↦ answer place r (with_entries s (some (without k m)))
  ]
]

unfoldable pub deliver : CallerKey → JsonRpcResponse → PendingRequests → PendingRequests × Bool
deliver caller r s = elim r.id [
  | some (Json.string id) ↦ hand_to (record { caller = caller; id = id }) r s
  | _ ↦ (s, false)
]

unfoldable pub close : PendingRequests → PendingRequests
close s = with_entries s none

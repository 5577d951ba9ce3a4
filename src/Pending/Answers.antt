-- ===== src/Pending/Answers.antt =====
-- mcp/client_channel.rs: which answer reaches which server request.
use dravr_tronc.Common.{
  ℕ, ◌≡◌, ◌≢◌, ◌↔◌, refl, ap, sym, ◌∙◌, inl, inr, true, false, Option, none, some, nat_eq,
  string_eq, ◌==◌, if◌then◌else◌, arith, Option-cases,
}
use dravr_tronc.Common.Assoc.{lookup, lookup-without}
use dravr_tronc.Json.{Value}
use dravr_tronc.Json
use dravr_tronc.Caller.{CallerKey}
use dravr_tronc.Pending.{
  PendingKey, pending_eq, pending_beq_iff, JsonRpcResponse, PendingRequests, hand_to, answer,
  deliver,
}

-- The place at which a request waits.
unfoldable pub place_of : PendingKey → PendingRequests → Option ℕ
place_of k s = elim s.entries [ none ↦ none | some m ↦ lookup k m ]

hand_to-none :
    (k : PendingKey) (r : JsonRpcResponse) (s : PendingRequests)
    → place_of k s ≡ none
    → (hand_to k r s).1 ≡ false
unfolding hand_to place_of
hand_to-none k r s e = ground (arith, e)

hand_to-some :
    (k : PendingKey) (r : JsonRpcResponse) (s : PendingRequests) (place : ℕ)
    → place_of k s ≡ some place
    → ((hand_to k r s).1 ≡ s.is_waiting place)
      × ((hand_to k r s).0.answers place ≡ (if s.is_waiting place then some r else s.answers place))
unfolding hand_to place_of answer
hand_to-some k r s place e = elim (Option-cases s.entries) [
  | inl closed ↦ absurd (ground (arith, closed, e))
  | inr (m, opened) ↦
      let there : lookup k m ≡ some place = rw (opened, place_of) at e in
      rw (opened, hand_to, there) (ground (arith, nat_eq.same_iff place place))
]

place-hand_to :
    (k j : PendingKey) (r : JsonRpcResponse) (s : PendingRequests)
    → place_of j (hand_to k r s).0 ≡ (if k == j then none else place_of j s)
unfolding hand_to place_of answer
place-hand_to k j r s = elim (Option-cases s.entries) [
  | inl closed ↦ rw (closed, hand_to) (ground (arith, closed))
  | inr (m, opened) ↦ ground (arith, opened, lookup-without k j m, pending_beq_iff k j)
]

-- The key that a response answers.
unfoldable pub key_of : CallerKey → JsonRpcResponse → Option PendingKey
key_of caller r = elim r.id [
  | some (Json.string id) ↦ some (record { caller = caller; id = id })
  | _ ↦ none
]

deliver-key_of :
    (caller : CallerKey) (r : JsonRpcResponse) (s : PendingRequests)
    → deliver caller r s ≡ elim (key_of caller r) [ none ↦ (s, false) | some k ↦ hand_to k r s ]
unfolding deliver key_of
deliver-key_of caller r s = ground arith

-- The place at which the request waits that the response answers.
unfoldable pub awaited : CallerKey → JsonRpcResponse → PendingRequests → Option ℕ
awaited caller r s = elim (key_of caller r) [ none ↦ none | some k ↦ place_of k s ]

-- A response is delivered exactly when its id is a text under which its caller was sent a request
-- that still waits; it is then the answer of that request.
pub deliver_iff :
    (caller : CallerKey) (r : JsonRpcResponse) (s : PendingRequests)
    → ((deliver caller r s).1 ≡ true) ↔ (
        (place : ℕ) × (awaited caller r s ≡ some place)
        × (s.is_waiting place ≡ true)
        × ((deliver caller r s).0.answers place ≡ some r))
unfolding awaited
deliver_iff caller r s = elim (Option-cases (key_of caller r)) [
  | inl nameless ↦
      let whole : (deliver caller r s).1 ≡ false = rw (deliver-key_of caller r s, nameless) refl in
      (
        (λ e. absurd (ground (arith, e, whole))),
        (λ (place, there, waits, answered).
            absurd (ground (arith, rw (awaited, nameless) at there))),
      )
  | inr (k, named) ↦
      let whole : deliver caller r s ≡ hand_to k r s = rw (deliver-key_of caller r s, named) refl in
      let same : awaited caller r s ≡ place_of k s = rw (awaited, named) refl in
      elim (Option-cases (place_of k s)) [
        | inl missing ↦
            let refused = hand_to-none k r s missing in
            (
              (λ e. absurd (ground (arith, rw whole at e, refused))),
              (λ (place, there, waits, answered). absurd (ground (arith, there, same, missing))),
            )
        | inr (place, there) ↦
            let (sent, got) = hand_to-some k r s place there in
            (
              (λ e.
                  let waits : s.is_waiting place ≡ true = sym sent ∙ (rw whole at e) in
                  (place, same ∙ there, waits, rw whole (got ∙ rw waits refl))),
              (λ (other, at_other, waits, answered).
                  let one : other ≡ place = ground (arith, at_other, same, there) in
                  rw whole (sent ∙ (rw one at waits))),
            )
      ]
]

-- A request has one answer: once a response was delivered or lost, no response of its caller with
-- the same id is.
pub deliver_once :
    (caller : CallerKey) (r later : JsonRpcResponse) (s : PendingRequests)
    → later.id ≡ r.id
    → (deliver caller later (deliver caller r s).0).1 ≡ false
unfolding key_of
deliver_once caller r later s e = elim (Option-cases (key_of caller r)) [
  | inl nameless ↦
      let nameless' : key_of caller later ≡ none =
        ap (λ (i : Option Value). key_of caller (record r { id = i })) e ∙ nameless in
      rw (deliver-key_of caller later (deliver caller r s).0, nameless') refl
  | inr (k, named) ↦
      let named' : key_of caller later ≡ some k =
        ap (λ (i : Option Value). key_of caller (record r { id = i })) e ∙ named in
      let gone : place_of k (hand_to k r s).0 ≡ none =
        place-hand_to k k r s ∙ ground (arith, pending_beq_iff k k) in
      rw
        (
          deliver-key_of caller later (deliver caller r s).0,
          named',
          deliver-key_of caller r s,
          named,
        )
        (hand_to-none k later (hand_to k r s).0 gone)
]

key-caller :
    (caller : CallerKey) (r : JsonRpcResponse) (k : PendingKey)
    → key_of caller r ≡ some k
    → k.caller ≡ caller
unfolding key_of
key-caller caller r k e = ground (arith, e)

-- A response leaves the requests that were sent to other callers waiting as they were.
pub deliver_stranger :
    (caller : CallerKey) (r : JsonRpcResponse) (s : PendingRequests) (k : PendingKey)
    → k.caller ≢ caller
    → place_of k (deliver caller r s).0 ≡ place_of k s
deliver_stranger caller r s k n = elim (Option-cases (key_of caller r)) [
  | inl nameless ↦ rw (deliver-key_of caller r s, nameless) refl
  | inr (j, named) ↦
      let own = key-caller caller r j named in
      rw (deliver-key_of caller r s, named)
        (place-hand_to j k r s ∙ ground (arith, own, n, pending_beq_iff j k))
]

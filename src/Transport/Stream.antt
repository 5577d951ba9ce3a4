-- ===== src/Transport/Stream.antt =====
-- mcp/transport/http.rs: the events of a call that is answered as a stream. A call is what it sends
-- between its waits, and the answer at its end; messages that others put into its channel once it has
-- ended are left out.
pub mod Events
use dravr_tronc.Common.{
  ℕ, zero, suc, ◌+◌, Bool, true, false, Option, none, some, List, [], ◌∷◌, ◌++◌,
}
use dravr_tronc.Common.Lists.{length}

module _ (Message : Type 0) where
  -- The call's future: what it sends at each wait, and at last, before its answer.
  pub data Dispatch : Type 0 where
    waits : List Message → Dispatch → Dispatch
    returns : List Message → Option Message → Dispatch

  pub data Phase : Type 0 where
    running : Dispatch → Phase
    draining : Option Message → Phase
    done : Phase

  -- `is_serving` tells whether the session still counts the call as a running request.
  pub record CallStream : Type 0 where
    pub phase : Phase
    pub sent : List Message
    pub outbox : List Message
    pub is_serving : Bool

  abbrev pub Next : Type 0
  Next = CallStream × Option Message

  unfoldable pub drain_one : Option Message → Bool → List Message → Next
  drain_one response serving (m ∷ ms) =
      (record { phase = draining response; sent = []; outbox = ms; is_serving = serving }, some m)
  drain_one response serving [] =
      (record { phase = done; sent = []; outbox = []; is_serving = false }, response)

  -- `CallStream::next` of a call that runs: the loop over its waits.
  unfoldable pub run_on : Dispatch → Bool → List Message → Next
  run_on call serving (m ∷ ms) =
      (record { phase = running call; sent = []; outbox = ms; is_serving = serving }, some m)
  run_on (waits ms call) serving [] = run_on call serving ms
  run_on (returns ms response) serving [] = drain_one response serving ms

  unfoldable pub next : CallStream → Next
  next s = elim s.sent [
    | m ∷ ms ↦ (record s { sent = ms }, some m)
    | [] ↦ elim s.phase [
      | running call ↦ run_on call s.is_serving s.outbox
      | draining response ↦ drain_one response s.is_serving s.outbox
      | done ↦ (s, none)
    ]
  ]

  -- `into_events`: the messages until there is none, with fuel; none where the fuel runs out.
  unfoldable pub into_events : ℕ → CallStream → Option (List Message)
  into_events zero s = none
  into_events (suc n) s =
      let (s', message) = next s in
      let rest = into_events n s' in
      elim message [ none ↦ some [] | some m ↦ elim rest [ none ↦ none | some ms ↦ some (m ∷ ms) ] ]

  -- The first poll of `answer_call`: a call that ends at once with nothing sent is answered
  -- without a stream.
  unfoldable pub answer_call : Dispatch → Option Message × Option CallStream
  answer_call (returns [] response) = (response, none)
  answer_call (returns (m ∷ ms) response) = (
    none,
    some (record { phase = draining response; sent = m ∷ ms; outbox = []; is_serving = true }),
  )
  answer_call (waits [] call) = answer_call call
  answer_call (waits (m ∷ ms) call) =
      (none, some (record { phase = running call; sent = m ∷ []; outbox = ms; is_serving = true }))

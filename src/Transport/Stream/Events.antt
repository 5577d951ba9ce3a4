-- ===== src/Transport/Stream/Events.antt =====
-- mcp/transport/http.rs: what the client of a call receives, and that the stream ends.
use dravr_tronc.Common.{
  ℕ, zero, suc, ◌<◌, ◌≡◌, inl, inr, refl, sym, ap, ◌∙◌, Bool, Option, none, some, List, [], ◌∷◌,
  ◌++◌, arith, Option-cases,
}
use dravr_tronc.Common.Lists.{length}
use dravr_tronc.Transport.Stream.{
  Dispatch, waits, returns, Phase, running, draining, done, CallStream, Next, drain_one, run_on,
  next, into_events, answer_call,
}

module _ (Message : Type 0) where
  abbrev last_of : Option Message → List Message
  last_of none = []
  last_of (some m) = m ∷ []

  -- What a call sends, in order, and then its answer.
  unfoldable pub told : Dispatch Message → List Message
  told (waits ms call) = ms ++ told call
  told (returns ms response) = ms ++ last_of response

  unfoldable pub left : CallStream Message → List Message
  left s = s.sent ++ elim s.phase [
    | running call ↦ s.outbox ++ told call
    | draining response ↦ s.outbox ++ last_of response
    | done ↦ []
  ]

  abbrev Unrolls : List Message → Next Message → Type 0
  Unrolls all (s, none) = all ≡ []
  Unrolls all (s, some m) = all ≡ m ∷ left s

  drain_one-Unrolls :
      (response : Option Message) (serving : Bool) (outbox : List Message)
      → Unrolls (outbox ++ last_of response) (drain_one Message response serving outbox)
  unfolding drain_one left
  drain_one-Unrolls response serving (m ∷ ms) = refl
  drain_one-Unrolls none serving [] = refl
  drain_one-Unrolls (some m) serving [] = refl

  run_on-Unrolls :
      (call : Dispatch Message) (serving : Bool) (outbox : List Message)
      → Unrolls (outbox ++ told call) (run_on Message call serving outbox)
  unfolding run_on left told
  run_on-Unrolls call serving (m ∷ ms) = refl
  run_on-Unrolls (waits ms call) serving [] = run_on-Unrolls call serving ms
  run_on-Unrolls (returns ms response) serving [] = drain_one-Unrolls response serving ms

  parts-Unrolls :
      (phase : Phase Message) (sent outbox : List Message) (serving : Bool)
      → let s : CallStream Message = record {
        phase = phase;
        sent = sent;
        outbox = outbox;
        is_serving = serving;
      } in
        Unrolls (left s) (next Message s)
  unfolding next left
  parts-Unrolls phase (m ∷ ms) outbox serving = refl
  parts-Unrolls (running call) [] outbox serving = run_on-Unrolls call serving outbox
  parts-Unrolls (draining response) [] outbox serving = drain_one-Unrolls response serving outbox
  parts-Unrolls done [] outbox serving = refl

  unrolled_none :
      (all : List Message) (out : Next Message) → Unrolls all out → out.1 ≡ none → all ≡ []
  unrolled_none all (s, none) u e = u
  unrolled_none all (s, some m) u e = absurd (ground (arith, e))

  unrolled_some :
      (all : List Message) (out : Next Message) (m : Message)
      → Unrolls all out
      → out.1 ≡ some m
      → all ≡ m ∷ left out.0
  unrolled_some all (s, none) m u e = absurd (ground (arith, e))
  unrolled_some all (s, some x) m u e = ground (arith, u, e)

  into_events-left :
      (n : ℕ) (s : CallStream Message)
      → length (left s) < n
      → into_events Message n s ≡ some (left s)
  unfolding into_events
  into_events-left zero s enough = absurd (omega (arith, enough))
  into_events-left (suc n) s enough =
      let u = parts-Unrolls s.phase s.sent s.outbox s.is_serving in
      let out = next Message s in
      elim (Option-cases (next Message s).1) [
        | inl over ↦
            let all = unrolled_none (left s) out u over in
            rw (over, into_events) (ap some (sym all))
        | inr (m, there) ↦
            let all = unrolled_some (left s) out m u there in
            let fewer : length (left out.0) < n = omega (arith, enough, ap length all) in
            let rest = into_events-left n out.0 fewer in
            rw (there, into_events, rest) (ap some (sym all))
      ]

  -- The events of a stream are all that it still holds, in order, and then the answer, once; the
  -- stream ends.
  unfoldable pub Delivers : Dispatch Message → Option Message × Option (CallStream Message) → Type 0
  Delivers call (response, none) = told call ≡ last_of response
  Delivers call (response, some s) =
      (response ≡ none) × (into_events Message (suc (length (told call))) s ≡ some (told call))

  stream-Delivers :
      (call : Dispatch Message) (s : CallStream Message)
      → left s ≡ told call
      → into_events Message (suc (length (told call))) s ≡ some (told call)
  stream-Delivers call s same =
      into_events-left (suc (length (told call))) s (omega (arith, ap length same)) ∙ ap some same

  -- A call is answered by what it returns, when it has sent nothing before, or by a stream of all
  -- that it sends, in order, and then its answer, which then ends.
  pub answer_call-Delivers : (call : Dispatch Message) → Delivers call (answer_call Message call)
  unfolding answer_call Delivers told left
  answer_call-Delivers (returns [] response) = refl
  answer_call-Delivers (returns (m ∷ ms) response) =
      (refl, stream-Delivers (returns (m ∷ ms) response) _ refl)
  answer_call-Delivers (waits [] call) = answer_call-Delivers call
  answer_call-Delivers (waits (m ∷ ms) call) = (refl, stream-Delivers (waits (m ∷ ms) call) _ refl)

-- ===== src/Tests/Flights.antt =====
-- mcp/cancellation.rs on concrete inputs.
use dravr_tronc.Common.{◌≡◌, refl, true, false, not, ◌||◌, none, some, List, [], ◌∷◌, arith}
use dravr_tronc.Common.Lists.{any}
use dravr_tronc.Common.Assoc.{lookup, without, insert as put}
use dravr_tronc.Caller.{CallerKey, session, sessionless, tells_callers_apart, names_channel}
use dravr_tronc.Cancellation.{
  key_of, has_token, is_nil, cancel, register, registered, drop_guard, release,
}
use dravr_tronc.Cancellation.Registry.{
  System, Event, starts, ends, find_guard, step, run, idle, under, IsSound,
}
use dravr_tronc.Cancellation.Registry.Sound.{reached, cancel_lem, run-idle-IsSound}

-- A client in a session, and one that nothing tells apart from others.
abbrev ann : CallerKey
ann = record { user = some "ann"; tenant = none; channel = session "s1" }

abbrev anyone : CallerKey
anyone = record { user = none; tenant = none; channel = sessionless none }

abbrev history : List Event
history = starts ann "1" false ∷ starts anyone "1" false ∷ starts ann "2" false ∷ ends 2 ∷ []

abbrev serving : System
serving = run history idle

history-IsSound : IsSound serving
history-IsSound = run-idle-IsSound history (omega arith)

all_ops : Unit {0}
unfolding run step register registered cancel key_of tells_callers_apart names_channel lookup
    without put find_guard drop_guard release under
all_ops = tt

-- Ann's notification fires the token of her request "1", and no other.
reaches :
    ((cancel ann "1" serving.registry).1 ≡ true)
    × ((cancel ann "1" serving.registry).0.fired 0 ≡ true)
    × ((cancel ann "1" serving.registry).0.fired 1 ≡ false)
    × ((cancel anyone "1" serving.registry).1 ≡ false)
    × ((cancel ann "2" serving.registry).1 ≡ false)
unfolding all_ops
reaches = (refl, refl, refl, refl, refl)

run-idle-IsSound_example : IsSound (run history idle)
run-idle-IsSound_example = run-idle-IsSound history (omega arith)

cancel_lem_example :
    let es = reached (key_of ann "1") serving.live in
    ((cancel ann "1" serving.registry).0.fired 0 ≡ any (has_token 0) es || serving.registry.fired 0)
    × ((cancel ann "1" serving.registry).1 ≡ not (is_nil es))
cancel_lem_example = cancel_lem serving ann "1" 0 history-IsSound

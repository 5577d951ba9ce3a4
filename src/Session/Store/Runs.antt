-- ===== src/Session/Store/Runs.antt =====
-- mcp/session.rs and its callers in mcp/transport/http.rs: any sequence of handshakes, requests and
-- ends. A system keeps, beside the store, the requests that run, each by its session.
use dravr_tronc.Common.{
  ℕ, suc, ◌+◌, false, Option, none, some, String, List, [], ◌∷◌, string_eq, nat_eq, if◌then◌else◌,
  ◌==◌,
}
use dravr_tronc.Session.{
  Session, ToolContext, begin_use, end_use, usize, is_expired, is_owned_by, is_idle,
  shares_caller_with,
}
use dravr_tronc.Session as S
use dravr_tronc.Session.Store.{World, SessionLimits, insert, find, enter, end, leave, write, new}

pub record System : Type 0 where
  pub world : World
  pub open world use *
  pub next : ℕ
  pub uses : List ℕ

pub data Event : Type 0 where
  -- A handshake: its session is minted at the first instant, and inserted at the second.
  initializes : ℕ → ℕ → String → ToolContext → Event
  finds : ℕ → String → Event
  enters : ℕ → String → ToolContext → Event
  leaves : ℕ → ℕ → Event
  ends : String → Event

abbrev pub count : ℕ → List ℕ → ℕ
count r [] = 0
count r (x ∷ xs) = (if x == r then 1 else 0) + count r xs

abbrev pub remove_one : ℕ → List ℕ → List ℕ
remove_one r [] = []
remove_one r (x ∷ xs) = let rest = remove_one r xs in if x == r then xs else x ∷ rest

abbrev pub admit : Option ℕ → List ℕ → List ℕ
admit none uses = uses
admit (some r) uses = r ∷ uses

-- The handshake counts as a use, which has ended when the session is inserted.
abbrev pub handshaken : ℕ → ℕ → String → ToolContext → Session
handshaken minted now id ctx = end_use now (begin_use (S.new minted (some id) ctx))

unfoldable pub step : Event → System → System
step (initializes minted now id ctx) s = record s {
  world = (insert now s.next (write s.world s.next (handshaken minted now id ctx))).0;
  next = suc s.next;
}
step (finds now id) s = record s { world = (find now id s.world).0 }
step (enters now id ctx) s =
    let (w, got) = enter now id ctx s.world in record s { world = w; uses = admit got s.uses }
step (leaves now r) s =
    if count r s.uses == 0
    then s
    else record s { world = leave now r s.world; uses = remove_one r s.uses }
step (ends id) s = record s { world = (end id s.world).0 }

unfoldable pub run : List Event → System → System
run [] s = s
run (e ∷ es) s = run es (step e s)

abbrev blank : Session
blank = S.connection 0

-- The system before the first event.
unfoldable pub start : ℕ → ℕ → SessionLimits → System
unfolding new
start now ttl limits = record {
  world = record { store = new now ttl limits; heap = λ r. blank; fired = λ r. false };
  next = 0;
  uses = [];
}

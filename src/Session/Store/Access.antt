-- ===== src/Session/Store/Access.antt =====
-- mcp/session.rs: which sessions `find` and `enter` hand out.
use dravr_tronc.Common.{ℕ, ◌≡◌, ◌↔◌, ap, true, false, some, String, arith, nat_eq, string_eq}
use dravr_tronc.Common.Assoc.{lookup, IsMap}
use dravr_tronc.Session.{Session, ToolContext, is_expired, is_owned_by}
use dravr_tronc.Session.Store.{World, sweep_if_due, find_swept, find, enter_swept, enter}
use dravr_tronc.Session.Store.Sweep.{
  sweep_if_due-Drops, lookup-Drops_some, lookup-Drops_live, is_expired-Drops,
}

find_swept_iff :
    (now : ℕ) (id : String) (w : World) (r : ℕ)
    → ((find_swept now id w).1 ≡ some r)
      ↔ ((lookup id w.sessions ≡ some r) × (is_expired w.ttl now (w.heap r) ≡ false))
unfolding find_swept
find_swept_iff now id w r = ground arith

enter_swept_iff :
    (now : ℕ) (id : String) (ctx : ToolContext) (w : World) (r : ℕ)
    → ((enter_swept now id ctx w).1 ≡ some r) ↔ (
        (lookup id w.sessions ≡ some r)
        × (is_expired w.ttl now (w.heap r) ≡ false)
        × (is_owned_by ctx (w.heap r) ≡ true))
unfolding enter_swept
enter_swept_iff now id ctx w r = ground arith

-- `find` returns the session at `r` exactly when `r` is listed under the id and has not expired;
-- whether a sweep is due changes nothing.
pub find_iff :
    (now : ℕ) (id : String) (w : World) (r : ℕ)
    → IsMap w.sessions
    → ((find now id w).1 ≡ some r)
      ↔ ((lookup id w.sessions ≡ some r) × (is_expired w.ttl now (w.heap r) ≡ false))
unfolding find
find_iff now id w r m =
    let d = sweep_if_due-Drops now w m in
    ground (
      arith,
      find_swept_iff now id (sweep_if_due now w) r,
      lookup-Drops_some d id r,
      lookup-Drops_live d id r,
      is_expired-Drops d id r,
    )

-- A request enters the session at `r` exactly when `r` is listed under the id, has not expired and
-- is owned by the caller; whether a sweep is due changes nothing.
pub enter_iff :
    (now : ℕ) (id : String) (ctx : ToolContext) (w : World) (r : ℕ)
    → IsMap w.sessions
    → ((enter now id ctx w).1 ≡ some r) ↔ (
        (lookup id w.sessions ≡ some r)
        × (is_expired w.ttl now (w.heap r) ≡ false)
        × (is_owned_by ctx (w.heap r) ≡ true))
unfolding enter
enter_iff now id ctx w r m =
    let d = sweep_if_due-Drops now w m in
    ground (
      arith,
      enter_swept_iff now id ctx (sweep_if_due now w) r,
      lookup-Drops_some d id r,
      lookup-Drops_live d id r,
      is_expired-Drops d id r,
      ap (λ (h : ℕ → Session). is_owned_by ctx (h r)) d.heap,
    )

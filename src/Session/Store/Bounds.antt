-- ===== src/Session/Store/Bounds.antt =====
-- mcp/session.rs: the limits of the store, kept by each of its operations.
use dravr_tronc.Common.{ℕ, ◌≤◌, inl, inr, String, arith, nat_eq, string_eq, option_eq, Option-cases}
use dravr_tronc.Common.Lists.{length, length-retain-le}
use dravr_tronc.Common.Assoc.{lookup, IsMap, length-without-le, without-IsMap, retain-IsMap}
use dravr_tronc.Session.{Session}
use dravr_tronc.Session.Store.{
  World, drop_expired, sweep_if_due, mark_swept, remove_and_end, is_live,
}
use dravr_tronc.Session.Store.Held.{held, held-retain-le, held-without-le}

-- What the store promises of its size. `held` is counted for every caller.
pub record IsBounded (w : World) : Type 0 where
  pub is_map : IsMap w.sessions
  pub total_le : length w.sessions ≤ w.total
  pub caller_le : (s : Session) → held w.heap s w.sessions ≤ w.per_caller

pub drop_expired-IsBounded : (now : ℕ) (w : World) → IsBounded w → IsBounded (drop_expired now w)
unfolding drop_expired
drop_expired-IsBounded now w b = record {
  is_map = retain-IsMap (is_live w.ttl now w.heap) w.sessions b.is_map;
  total_le = omega (arith, length-retain-le (is_live w.ttl now w.heap) w.sessions, b.total_le);
  caller_le = λ s.
      omega (arith, held-retain-le w.heap s (is_live w.ttl now w.heap) w.sessions, b.caller_le s);
}

pub sweep_if_due-IsBounded : (now : ℕ) (w : World) → IsBounded w → IsBounded (sweep_if_due now w)
unfolding sweep_if_due
sweep_if_due-IsBounded now w b =
    let b' : IsBounded (mark_swept now w) = record {
      is_map = b.is_map;
      total_le = b.total_le;
      caller_le = b.caller_le;
    } in
    ground (arith, drop_expired-IsBounded now (mark_swept now w) b')

pub remove_and_end-IsBounded :
    (k : String) (w : World) → IsBounded w → IsBounded (remove_and_end k w)
unfolding remove_and_end
remove_and_end-IsBounded k w b = elim (Option-cases (lookup k w.sessions)) [
  | inl e ↦ rw (e, remove_and_end) b
  | inr (r, e) ↦
      rw (e, remove_and_end)
        (record {
          is_map = without-IsMap k w.sessions b.is_map;
          total_le = omega (arith, length-without-le k w.sessions, b.total_le);
          caller_le = λ s. omega (arith, held-without-le w.heap s k w.sessions, b.caller_le s);
        })
]

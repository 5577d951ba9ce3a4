-- ===== src/Session/Store/Serving.antt =====
-- mcp/session.rs: a session that serves a request outlives every event but its client's own end.
use dravr_tronc.Common.{
  ℕ, ◌≤◌, ◌<◌, ◌≡◌, ◌≢◌, ap, ◌∙◌, inl, inr, false, some, String, List, [], ◌∷◌, arith, string_eq,
  nat_eq,
}
use dravr_tronc.Common.Lists.{length}
use dravr_tronc.Common.Assoc.{lookup}
use dravr_tronc.Session.{ToolContext, usize, is_expired, is_idle, begin_use, end_use, new}
use dravr_tronc.Session.Store.{World, write, end, leave}
use dravr_tronc.Session.Store.Refusals.{insert_keeps}
use dravr_tronc.Session.Store.Eviction.{remove_and_end_keeps}
use dravr_tronc.Session.Store.Frames.{find_keeps, enter_keeps}
use dravr_tronc.Session.Store.Runs.{
  System, Event, initializes, finds, enters, leaves, ends, count, handshaken, step,
}
use dravr_tronc.Session.Store.Sound.{IsSound, write_fresh-IsBounded}

count-le-length : (r : ℕ) (xs : List ℕ) → count r xs ≤ length xs
count-le-length r [] = omega arith
count-le-length r (x ∷ xs) = ground (arith, count-le-length r xs)

-- The event does not end or replace the session under `k`.
abbrev pub Spares : String → Event → Type 0
Spares k (initializes minted now id ctx) = id ≢ k
Spares k (ends id) = id ≢ k
Spares k _ = Unit

module _ (s : System) (v : IsSound s) (r : ℕ) (few : length s.uses < usize)
    (busy : 0 < count r s.uses) where
  is_idle-busy : is_idle (s.heap r) ≡ false
  unfolding is_idle
  is_idle-busy = ground (arith, v.counted r, count-le-length r s.uses)

  is_expired-busy : (now : ℕ) → is_expired s.ttl now (s.heap r) ≡ false
  unfolding is_expired
  is_expired-busy now = ground (arith, is_idle-busy)

ends_keeps :
    (w : World) (k : String) (r : ℕ) (id : String)
    → lookup k w.sessions ≡ some r
    → id ≢ k
    → lookup k (end id w).0.sessions ≡ some r
unfolding end
ends_keeps w k r id l n = ground (arith, remove_and_end_keeps id w k r l n)

initializes_keeps :
    (s : System) (k : String) (r minted now : ℕ) (id : String) (ctx : ToolContext)
    → IsSound s
    → length s.uses < usize
    → 0 < count r s.uses
    → lookup k s.sessions ≡ some r
    → id ≢ k
    → lookup k (step (initializes minted now id ctx) s).sessions ≡ some r
unfolding step begin_use end_use new
initializes_keeps s k r minted now id ctx v few busy l n =
    let t = handshaken minted now id ctx in
    let w = write s.world s.next t in
    let old : r < s.next = v.listed k r l in
    let same : w.heap r ≡ s.heap r = ground (arith, nat_eq.same_iff r s.next) in
    elim (insert_keeps now s.next w k r (write_fresh-IsBounded s v t).is_map
      (λ e. n (ground (arith, e, nat_eq.same_iff s.next s.next))) l
      (ap (is_expired s.ttl now) same ∙ is_expired-busy s v r few busy now)) [
        | inl kept ↦ kept
        | inr g ↦ absurd (ground (arith, g.idle, same, is_idle-busy s v r few busy))
      ]

-- A session that serves a request stays listed through every event that does not end or replace it:
-- it neither expires nor gives way. The calls in flight are fewer than the counter can hold.
pub step_serving :
    (e : Event) (s : System) (k : String) (r : ℕ)
    → IsSound s
    → length s.uses < usize
    → 0 < count r s.uses
    → lookup k s.sessions ≡ some r
    → Spares k e
    → lookup k (step e s).sessions ≡ some r
unfolding step leave
step_serving (initializes minted now id ctx) s k r v few busy l n =
    initializes_keeps s k r minted now id ctx v few busy l n
step_serving (finds now id) s k r v few busy l n =
    find_keeps now id s.world k r v.bounded.is_map l (is_expired-busy s v r few busy now)
step_serving (enters now id ctx) s k r v few busy l n =
    enter_keeps now id ctx s.world k r v.bounded.is_map l (is_expired-busy s v r few busy now)
step_serving (leaves now q) s k r v few busy l n = ground arith
step_serving (ends id) s k r v few busy l n = ends_keeps s.world k r id l n

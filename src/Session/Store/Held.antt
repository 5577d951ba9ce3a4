-- ===== src/Session/Store/Held.antt =====
-- mcp/session.rs: how many of the entries are of one caller, and how the map operations change that.
use dravr_tronc.Common.{
  ℕ, ◌+◌, ◌≤◌, ◌<◌, ◌≡◌, refl, Bool, true, some, String, [], ◌∷◌, arith, nat_eq, string_eq,
  option_eq, option_beq_iff, if◌then◌else◌,
}
use dravr_tronc.Common.Lists.{retain}
use dravr_tronc.Common.Assoc.{lookup, without, insert as put, IsMap}
use dravr_tronc.Session.{Session, shares_caller_with}
use dravr_tronc.Session.Store.{Heap, Entries}

-- How many of the entries are of the caller of `s`.
unfoldable pub held : Heap → Session → Entries → ℕ
held heap s [] = 0
held heap s ((k, r) ∷ m) = (if shares_caller_with s (heap r) then 1 else 0) + held heap s m

module _ (heap : Heap) (s : Session) where
  pub held-retain-le :
      (p : String × ℕ → Bool) (m : Entries) → held heap s (retain p m) ≤ held heap s m
  unfolding held
  held-retain-le p [] = omega arith
  held-retain-le p ((k, r) ∷ m) = ground (arith, held-retain-le p m)

  pub held-without-le : (k : String) (m : Entries) → held heap s (without k m) ≤ held heap s m
  unfolding held without
  held-without-le k [] = omega arith
  held-without-le k ((j, r) ∷ m) = ground (arith, held-without-le k m)

  pub held-without-lt :
      (k : String) (x : ℕ) (m : Entries)
      → lookup k m ≡ some x
      → shares_caller_with s (heap x) ≡ true
      → held heap s (without k m) < held heap s m
  unfolding held without lookup
  held-without-lt k x [] l h = ground arith
  held-without-lt k x ((j, r) ∷ m) l h = ground (arith, held-without-lt k x m, held-without-le k m)

  pub held-put :
      (k : String) (r : ℕ) (m : Entries)
      → held heap s (put k r m)
        ≡ (if shares_caller_with s (heap r) then 1 else 0) + held heap s (without k m)
  unfolding held put
  held-put k r m = refl

-- Two sessions of one caller hold the same entries.
pub held-shares :
    (heap : Heap) (s t : Session) (m : Entries)
    → shares_caller_with s t ≡ true
    → held heap s m ≡ held heap t m
unfolding held shares_caller_with
held-shares heap s t [] h = refl
held-shares heap s t ((k, r) ∷ m) h = ground (
  arith,
  held-shares heap s t m h,
  option_beq_iff t.user s.user,
  option_beq_iff t.tenant s.tenant,
)

-- Only the listed sessions count.
pub held-heap :
    (heap heap' : Heap) (s : Session) (m : Entries)
    → IsMap m
    → ((k : String) (x : ℕ)
        → lookup k m ≡ some x
        → shares_caller_with s (heap' x) ≡ shares_caller_with s (heap x))
    → held heap' s m ≡ held heap s m
unfolding held lookup
held-heap heap heap' s [] u h = refl
held-heap heap heap' s ((k, r) ∷ m) u h = ground (
  arith,
  held-heap heap heap' s m u.1 (λ j x l. h j x (ground (arith, string_eq.same_iff k j, u.0))),
  h k r (ground (arith, string_eq.same_iff k k)),
)

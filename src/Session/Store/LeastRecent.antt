-- ===== src/Session/Store/LeastRecent.antt =====
-- mcp/session.rs: what the loop of `insert` finds out about the caller's sessions.
use dravr_tronc.Common.{
  ℕ, ◌+◌, ◌≤◌, ◌≡◌, ◌⊎◌, inl, inr, true, Option, none, some, String, [], ◌∷◌, arith, ◌==◌, nat_eq,
  string_eq, option_eq, Bool-cases,
}
use dravr_tronc.Common.Assoc.{lookup, IsMap}
use dravr_tronc.Session.{Session, is_idle, shares_caller_with}
use dravr_tronc.Session.Store.Held.{held}
use dravr_tronc.Session.Store.{Heap, Entries, Census, count_one, take_census}

abbrev pub AtMost : Option (ℕ × String) → ℕ → Type 0
AtMost none n = ⊥
AtMost (some (seen, k)) n = seen ≤ n

module _ (heap : Heap) (s : Session) where
  pub theirs-take_census :
      (m : Entries) (c : Census) → (take_census heap s m c).theirs ≡ c.theirs + held heap s m
  unfolding take_census count_one held
  theirs-take_census [] c = omega arith
  theirs-take_census ((k, r) ∷ m) c =
      ground (arith, theirs-take_census m (count_one s k (heap r) c))

  count_one-AtMost :
      (k : String) (live : Session) (c : Census) (n : ℕ)
      → AtMost c.least_recent n
      → AtMost (count_one s k live c).least_recent n
  unfolding count_one
  count_one-AtMost k live c n h = ground arith

  count_one-AtMost_self :
      (k : String) (live : Session) (c : Census)
      → shares_caller_with s live ≡ true
      → is_idle live ≡ true
      → AtMost (count_one s k live c).least_recent live.last_seen
  unfolding count_one
  count_one-AtMost_self k live c h i = ground arith

  take_census-AtMost :
      (m : Entries) (c : Census) (n : ℕ)
      → AtMost c.least_recent n
      → AtMost (take_census heap s m c).least_recent n
  unfolding take_census
  take_census-AtMost [] c n h = h
  take_census-AtMost ((k, r) ∷ m) c n h =
      take_census-AtMost m (count_one s k (heap r) c) n (count_one-AtMost k (heap r) c n h)

  -- No idle session of the caller was used before the one that the census names.
  pub take_census_oldest :
      (m : Entries) (c : Census) (k : String) (x : ℕ)
      → lookup k m ≡ some x
      → shares_caller_with s (heap x) ≡ true
      → is_idle (heap x) ≡ true
      → AtMost (take_census heap s m c).least_recent (heap x).last_seen
  unfolding take_census lookup
  take_census_oldest [] c k x l h i = ground arith
  take_census_oldest ((j, r) ∷ m) c k x l h i = elim (Bool-cases (j == k)) [
    | inl hit ↦ take_census-AtMost m _ _ (ground (arith, count_one-AtMost_self j (heap x) c))
    | inr miss ↦ take_census_oldest m _ k x (ground arith) h i
  ]

  -- The session that a census names: the caller's, and idle.
  pub record Names (m : Entries) (seen : ℕ) (k : String) : Type 0 where
    pub at : ℕ
    pub listed : lookup k m ≡ some at
    pub theirs : shares_caller_with s (heap at) ≡ true
    pub idle : is_idle (heap at) ≡ true
    pub seen_then : (heap at).last_seen ≡ seen

  Names-cons :
      (m : Entries) (seen : ℕ) (k j : String) (r : ℕ)
      → lookup j m ≡ none
      → Names m seen k
      → Names ((j, r) ∷ m) seen k
  unfolding lookup
  Names-cons m seen k j r fresh n = record {
    at = n.at;
    listed = ground (arith, string_eq.same_iff j k, n.listed);
    theirs = n.theirs;
    idle = n.idle;
    seen_then = n.seen_then;
  }

  count_one_changed :
      (live : Session) (k key : String) (seen : ℕ) (c : Census)
      → (count_one s k live c).least_recent ≡ some (seen, key)
      → (c.least_recent ≡ some (seen, key))
        ⊎ ((shares_caller_with s live ≡ true)
            × (is_idle live ≡ true)
            × (live.last_seen ≡ seen)
            × (k ≡ key))
  unfolding count_one
  count_one_changed live k key seen c e = ground arith

  count_one-Names :
      (m : Entries) (k key : String) (r seen : ℕ) (c : Census)
      → (count_one s k (heap r) c).least_recent ≡ some (seen, key)
      → (c.least_recent ≡ some (seen, key)) ⊎ Names ((k, r) ∷ m) seen key
  unfolding lookup
  count_one-Names m k key r seen c e = elim (count_one_changed (heap r) k key seen c e) [
    | inl before ↦ inl before
    | inr (theirs, idle, seen_then, same) ↦ inr (record {
      at = r;
      listed = ground (arith, string_eq.same_iff k key);
      theirs = theirs;
      idle = idle;
      seen_then = seen_then;
    })
  ]

  pub take_census-Names :
      (m : Entries) (c : Census) (seen : ℕ) (k : String)
      → IsMap m
      → (take_census heap s m c).least_recent ≡ some (seen, k)
      → (c.least_recent ≡ some (seen, k)) ⊎ Names m seen k
  unfolding take_census
  take_census-Names [] c seen k u e = inl e
  take_census-Names ((j, r) ∷ m) c seen k u e =
      elim (take_census-Names m (count_one s j (heap r) c) seen k u.1 e) [
        | inl before ↦ count_one-Names m j k r seen c before
        | inr n ↦ inr (Names-cons m seen k j r u.0 n)
      ]

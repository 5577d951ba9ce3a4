-- ===== src/Iam/TokenSource/Tokens.antt =====
-- iam/token_source.rs: what a token that is handed out is worth, whatever other tasks do meanwhile.
use dravr_tronc.Common.{
  ℕ, ◌-◌, ◌<◌, ◌≡◌, refl, ap, ◌∙◌, ◌⊎◌, inl, inr, Option, none, some, ok, arith, Option-cases,
  Result-cases, ltb→lt, nat_beq_iff, nat_eq,
}
use dravr_tronc.Guard.Text.{Text}
use dravr_tronc.Iam.TokenSource.{
  refresh_after, Cached, IdTokenSource, segments, fetch, is_current, current, store, token,
}

-- The cache holds nothing but a token of three segments.
unfoldable pub IsSound : IdTokenSource → Type 0
IsSound s = (c : Cached) → s.cached ≡ some c → segments c.token ≡ 3

-- The token is cached, and was current at the instant or stored at the later one.
unfoldable pub Holds : Text → ℕ → ℕ → IdTokenSource → Type 0
Holds text now stored s =
    (c : Cached) × (s.cached ≡ some c)
    × (c.token ≡ text)
    × ((now - c.fetched_at < refresh_after) ⊎ (c.fetched_at ≡ stored))

current-Holds :
    (now stored : ℕ) (text : Text) (s : IdTokenSource)
    → current now s ≡ some text
    → Holds text now stored s
unfolding current is_current Holds
current-Holds now stored text s e = elim (Option-cases s.cached) [
  | inl empty ↦ absurd (ground (arith, e, empty))
  | inr (c, full) ↦ (
    c,
    full,
    ground (arith, e, full),
    inl (ground (arith, e, full, ltb→lt (now - c.fetched_at) refresh_after)),
  )
]

segments-Holds :
    (text : Text) (now stored : ℕ) (s : IdTokenSource)
    → Holds text now stored s
    → IsSound s
    → segments text ≡ 3
unfolding Holds IsSound
segments-Holds text now stored s (c, full, same, young) v = rw same at (v c full)

fetch_segments :
    (answer : Option (ℕ × Option Text)) (text : Text) → fetch answer ≡ ok text → segments text ≡ 3
unfolding fetch
fetch_segments none text e = absurd (ground (arith, e))
fetch_segments (some (status, none)) text e = absurd (ground (arith, e))
fetch_segments (some (status, some t)) text e = ground (arith, e, nat_beq_iff (segments t) 3)

store-Holds :
    (text : Text) (checked stored : ℕ) (s : IdTokenSource)
    → let out = store text checked stored s in Holds out.1 checked stored out.0
unfolding store Holds
store-Holds text checked stored s = elim (Option-cases (current checked s)) [
  | inl stale ↦
      rw (stale, store) (record { token = text; fetched_at = stored }, refl, refl, inr refl)
  | inr (existing, held) ↦ rw (held, store) (current-Holds checked stored existing s held)
]

store-IsSound :
    (text : Text) (checked stored : ℕ) (s : IdTokenSource)
    → segments text ≡ 3
    → IsSound s
    → IsSound (store text checked stored s).0
unfolding store IsSound
store-IsSound text checked stored s three v = elim (Option-cases (current checked s)) [
  | inl stale ↦ rw (stale, store) (λ c e. ground (arith, e, three))
  | inr (existing, held) ↦ rw (held, store) v
]

-- Whatever the other tasks do, as long as they leave no token in the cache that has not three
-- segments, a call that returns a token leaves that token in the cache, and it has three segments.
-- It was cached for less than 45 minutes when the call looked, first or under the lock, or this
-- call has stored it.
pub token_ok :
    (now : ℕ) (answer : Option (ℕ × Option Text)) (others : IdTokenSource → IdTokenSource)
    (checked stored : ℕ) (s : IdTokenSource) (text : Text)
    → IsSound s
    → ((waited : IdTokenSource) → IsSound waited → IsSound (others waited))
    → (token now answer others checked stored s).1 ≡ ok text
    → let s' = (token now answer others checked stored s).0 in
      (segments text ≡ 3) × IsSound s' × (Holds text now stored s' ⊎ Holds text checked stored s')
unfolding token
token_ok now answer others checked stored s text v kept e = elim (Option-cases (current now s)) [
  | inr (held, here) ↦
      let same : held ≡ text = ground (arith, e, here) in
      let holds = current-Holds now stored text s (here ∙ ap some same) in
      rw (here, token) (segments-Holds text now stored s holds v, v, inl holds)
  | inl stale ↦ elim (Result-cases (fetch answer)) [
    | inr (why, failed) ↦ absurd (ground (arith, e, stale, failed))
    | inl (fresh, got) ↦
        let w = others s in
        let sound =
          store-IsSound fresh checked stored w (fetch_segments answer fresh got) (kept s v) in
        let holds = store-Holds fresh checked stored w in
        let same : (store fresh checked stored w).1 ≡ text = ground (arith, e, stale, got) in
        rw (stale, got, token)
          (
            segments-Holds text checked stored (store fresh checked stored w).0 (rw same at holds)
                sound,
            sound,
            inr (rw same at holds),
          )
  ]
]

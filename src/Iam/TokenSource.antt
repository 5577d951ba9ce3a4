-- ===== src/Iam/TokenSource.antt =====
-- iam/token_source.rs: the cache of the identity token. Instants are seconds; the answer of the
-- metadata server is an argument.
pub mod Tokens
use dravr_tronc.Common.{
  ℕ, ◌-◌, Bool, true, false, ◌&&◌, Option, none, some, List, [], ◌∷◌, ◌==◌, nat_eq, leb, ltb,
  if◌then◌else◌, Result, ok, err,
}
use dravr_tronc.Common.Lists.{length}
use dravr_tronc.Guard.Text.{Text, split}
use dravr_tronc.Iam.{IamError, metadata_unavailable, malformed_token}

abbrev pub refresh_after : ℕ
refresh_after = 2700

pub record Cached : Type 0 where
  pub token : Text
  pub fetched_at : ℕ

pub record IdTokenSource : Type 0 where
  pub audience : Text
  pub cached : Option Cached

unfoldable pub new : Text → IdTokenSource
new audience = record { audience = audience; cached = none }

abbrev pub is_success : ℕ → Bool
is_success status = leb 200 status && ltb status 300

-- `token.split('.').count()`.
unfoldable pub segments : Text → ℕ
segments token = length (split b'.' token)

abbrev pub checked_token : Text → Result Text IamError
checked_token token = if segments token == 3 then ok token else err malformed_token

-- `fetch`, by the answer of the metadata server: none, or a status and the text of the body, where
-- that can be read.
unfoldable pub fetch : Option (ℕ × Option Text) → Result Text IamError
fetch none = err metadata_unavailable
fetch (some (status, text)) =
    let read : Result Text IamError = elim text [
      | none ↦ err malformed_token
      | some token ↦ checked_token token
    ] in
    if is_success status then read else err metadata_unavailable

unfoldable pub is_current : ℕ → Cached → Bool
is_current now c = ltb (now - c.fetched_at) refresh_after

-- The token that the cache holds, while it is current.
unfoldable pub current : ℕ → IdTokenSource → Option Text
current now s = elim s.cached [
  | none ↦ none
  | some c ↦ if is_current now c then some c.token else none
]

-- What `token` does under the write lock, that it reads at `checked`.
unfoldable pub store : Text → ℕ → ℕ → IdTokenSource → IdTokenSource × Text
store token checked stored s = elim (current checked s) [
  | some existing ↦ (s, existing)
  | none ↦ (record s { cached = some (record { token = token; fetched_at = stored }) }, token)
]

-- `token`, that reads the cache at `now`. The other tasks do `others` while it waits for the
-- metadata server.
unfoldable pub token :
    ℕ
    → Option (ℕ × Option Text)
    → (IdTokenSource → IdTokenSource)
    → ℕ
    → ℕ
    → IdTokenSource
    → IdTokenSource × Result Text IamError
token now answer others checked stored s = elim (current now s) [
  | some held ↦ (s, ok held)
  | none ↦
      let waited = others s in
      elim (fetch answer) [
        | err why ↦ (waited, err why)
        | ok fresh ↦ let (s', held) = store fresh checked stored waited in (s', ok held)
      ]
]

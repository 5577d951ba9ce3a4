-- ===== src/Tests/Identity.antt =====
-- iam and server/auth.rs on concrete inputs.
use dravr_tronc.Common.{
  ℕ, ◌≡◌, ◌↔◌, ◌⊎◌, refl, true, Option, none, some, String, List, [], ◌∷◌, ok, err, min, arith,
  string_eq,
}
use dravr_tronc.Guard.Text.{
  Text, split, split_once, trim_start, trim_end, to_ascii_lowercase, eq_ignore_ascii_case,
  strip_prefix, strip_suffix,
}
use dravr_tronc.Guard.Deny.{IpAddr, v4}
use dravr_tronc.Auth.{
  trim, trim_start_matches, bearer_credential, configured_key, api_key_configured, require_auth,
  loopback_dev, strip_circumfix, is_loopback, is_loopback_host, resolve_startup_auth, startup_auth,
}
use dravr_tronc.Auth.Gate.{presented, IsGuarded, startup_auth-IsGuarded}
use dravr_tronc.Iam.{jwks_unavailable}
use dravr_tronc.Iam.KeySet.{
  GoogleSigningKey, GoogleKeySet, Answer, key_set_ttl, find_key, answer_from_memory, cooling_down,
  is_current, fetch, new, with_min_refetch_interval, decoding_key_for,
}
use dravr_tronc.Iam.KeySet.Traffic.{
  Event, passes as waits, looks, takes_turn, finishes, is_dropped, step, run, start, newest,
  last_finished, Spaced,
}
use dravr_tronc.Iam.KeySet.Answers.{cache_of, run-cache_of, run-Spaced}
use dravr_tronc.Iam.TokenSource.{
  IdTokenSource, segments, current, store, token, is_current as is_current_token,
  fetch as fetch_token,
}
use dravr_tronc.Iam.TokenSource.Tokens.{IsSound, Holds, token_ok}
use dravr_tronc.Iam.Verify.{
  IdTokenClaims, GoogleIdTokenVerifier, require_google_id_token, verify, admit,
}
use dravr_tronc.Iam.Verify.Callers.{IsGenuine, require_google_id_token_iff}

abbrev key_a : GoogleSigningKey
key_a = record { kid = "a"; n = "n"; e = "e" }

-- Two tasks ask for a key, one of them after the interval; a third download is dropped.
abbrev traffic : List Event
traffic =
    takes_turn "a"
    ∷ waits 2
    ∷ finishes (ok (key_a ∷ []))
    ∷ looks "b"
    ∷ takes_turn "b"
    ∷ waits 30
    ∷ takes_turn "b"
    ∷ waits 1
    ∷ finishes (err jwks_unavailable)
    ∷ takes_turn "b"
    ∷ waits 30
    ∷ takes_turn "b"
    ∷ is_dropped
    ∷ []

key_ops : Unit {0}
unfolding find_key answer_from_memory cooling_down is_current fetch new with_min_refetch_interval
    step run start newest last_finished
key_ops = tt

two_downloads :
    (run traffic (start 100 30)).log
    ≡ record { started = 132; finished = 133; downloaded = err jwks_unavailable }
      ∷ record { started = 100; finished = 102; downloaded = ok (key_a ∷ []) }
      ∷ []
unfolding key_ops
two_downloads = refl

run-cache_of_example :
    (run traffic (start 100 30)).set.state ≡ cache_of (run traffic (start 100 30)).log
run-cache_of_example = run-cache_of traffic 100 30

run-Spaced_example : Spaced (min 30 key_set_ttl) (run traffic (start 100 30)).log
run-Spaced_example = run-Spaced traffic 100 30

abbrev jwt : Text
jwt = b'h' ∷ b'.' ∷ b'p' ∷ b'.' ∷ b's' ∷ []

abbrev unread : IdTokenSource
unread = record { audience = []; cached = none }

unread-IsSound : IsSound unread
unfolding IsSound
unread-IsSound c e = absurd (ground (arith, e))

token_ops : Unit {0}
unfolding split segments current store token is_current_token fetch_token
token_ops = tt

minted :
    token 10 (some (200, some jwt)) (λ s. s) 11 12 unread
    ≡ (record { audience = []; cached = some (record { token = jwt; fetched_at = 12 }) }, ok jwt)
unfolding token_ops
minted = refl

token_ok_example :
    let s' = (token 10 (some (200, some jwt)) (λ s. s) 11 12 unread).0 in
    (segments jwt ≡ 3) × IsSound s' × (Holds jwt 10 12 s' ⊎ Holds jwt 11 12 s')
unfolding token_ops
token_ok_example =
    token_ok 10 (some (200, some jwt)) (λ s. s) 11 12 unread jwt unread-IsSound (λ w v. v) refl

abbrev header_of : Text → Option (Option String)
header_of t = some (some "a")

abbrev rsa : String → String → Option ℕ
rsa n e = some 65537

abbrev ada : IdTokenClaims
ada = record { sub = "1"; aud = "svc"; email = some "ada@example.com"; email_verified = some true }

abbrev decodes : Text → ℕ → String → List String → Option IdTokenClaims
decodes t k audience issuers = some ada

abbrev asks : String → GoogleKeySet → GoogleKeySet × Answer
asks kid s = (s, ok key_a)

abbrev verifier : GoogleIdTokenVerifier
verifier = record {
  audience = "svc";
  allowed_emails = "ada@example.com" ∷ [];
  keys = record { interval = 30; state = record { fetched = none; last_attempt = none } };
}

abbrev bearer_jwt : Text
bearer_jwt = b'b' ∷ b'e' ∷ b'a' ∷ b'r' ∷ b'e' ∷ b'r' ∷ 32 ∷ 32 ∷ jwt

auth_ops : Unit {0}
unfolding split_once trim_start trim_end to_ascii_lowercase eq_ignore_ascii_case strip_prefix
    strip_suffix trim trim_start_matches bearer_credential configured_key api_key_configured
    require_auth strip_circumfix is_loopback is_loopback_host resolve_startup_auth startup_auth
    decoding_key_for admit verify require_google_id_token
auth_ops = tt

admitted : (require_google_id_token header_of rsa decodes asks (some bearer_jwt) verifier).1 ≡ true
unfolding auth_ops
admitted = refl

require_google_id_token_iff_example :
    ((require_google_id_token header_of rsa decodes asks (some bearer_jwt) verifier).1 ≡ true) ↔ (
      (t : Text) × (claims : IdTokenClaims) × (presented (some bearer_jwt) ≡ some t)
      × IsGenuine header_of rsa decodes asks t verifier claims)
require_google_id_token_iff_example =
    require_google_id_token_iff header_of rsa decodes asks (some bearer_jwt) verifier

abbrev loopback_only : Text → Option IpAddr
loopback_only t = some (v4 2130706433)

started : startup_auth loopback_only (b'K' ∷ []) none (b'1' ∷ []) ≡ ok loopback_dev
unfolding auth_ops
started = refl

startup_auth-IsGuarded_example :
    IsGuarded loopback_only
      (b'K' ∷ [])
      none
      none
      (b'1' ∷ [])
      (startup_auth loopback_only (b'K' ∷ []) none (b'1' ∷ []))
startup_auth-IsGuarded_example =
    startup_auth-IsGuarded loopback_only (b'K' ∷ []) none none (b'1' ∷ [])

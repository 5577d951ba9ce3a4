-- ===== src/Iam/Verify.antt =====
-- iam/verify.rs: the check of a caller's identity token. The decoding of a token, by its signature,
-- its times, its audience and its issuer, is the jsonwebtoken crate's, and a parameter.
pub mod Callers
use dravr_tronc.Common.{
  ℕ, Bool, true, false, not, Option, none, some, String, List, [], ◌∷◌, ◌==◌, string_eq, Result, ok,
  err, if◌then◌else◌,
}
use dravr_tronc.Common.Lists.{any}
use dravr_tronc.Guard.Text.{Text, unwrap_or}
use dravr_tronc.Auth.{bearer_credential}
use dravr_tronc.Iam.{IamError, rejected}
use dravr_tronc.Iam.KeySet.{GoogleKeySet, Answer, decoding_key_for}

abbrev pub google_issuers : List String
google_issuers = "https://accounts.google.com" ∷ "accounts.google.com" ∷ []

pub record IdTokenClaims : Type 0 where
  pub sub : String
  pub aud : String
  pub email : Option String
  pub email_verified : Option Bool

pub record GoogleIdTokenVerifier : Type 0 where
  pub audience : String
  pub allowed_emails : List String
  pub keys : GoogleKeySet

unfoldable pub with_key_set : String → GoogleKeySet → GoogleIdTokenVerifier
with_key_set audience keys = record { audience = audience; allowed_emails = []; keys = keys }

unfoldable pub allowing : List String → GoogleIdTokenVerifier → GoogleIdTokenVerifier
allowing emails v = record v { allowed_emails = emails }

abbrev pub is_true : Option Bool → Bool
is_true none = false
is_true (some b) = b

-- The check of the claims against the allowlist.
unfoldable pub admit : List String → IdTokenClaims → Result IdTokenClaims IamError
admit [] claims = ok claims
admit (e ∷ es) claims =
    let email = unwrap_or "" claims.email in
    if not (any (λ a. a == email) (e ∷ es))
    then err rejected
    else if not (is_true claims.email_verified)
    then err rejected
    else ok claims

-- `read_header` and `decode` are the crate's `decode_header` and `decode`: the name of the key, and
-- the claims by the key, the audience and the issuers; `ask` is the key set's `key`.
module _ {D : Type 0} (read_header : Text → Option (Option String))
    (from_rsa_components : String → String → Option D)
    (decode : Text → D → String → List String → Option IdTokenClaims)
    (ask : String → GoogleKeySet → GoogleKeySet × Answer) where
  unfoldable pub verify :
      Text → GoogleIdTokenVerifier → GoogleIdTokenVerifier × Result IdTokenClaims IamError
  verify token v =
      let (keys, found) =
        decoding_key_for from_rsa_components (λ kid. ask kid v.keys) (read_header token) v.keys in
      (
        record v { keys = keys },
        elim found [
          | err why ↦ err why
          | ok key ↦ elim (decode token key v.audience google_issuers) [
            | none ↦ err rejected
            | some claims ↦ admit v.allowed_emails claims
          ]
        ],
      )

  -- `require_google_id_token`, by the header of the request: whether the request goes on.
  unfoldable pub require_google_id_token :
      Option Text → GoogleIdTokenVerifier → GoogleIdTokenVerifier × Bool
  require_google_id_token header v = elim header [
    | none ↦ (v, false)
    | some value ↦ elim (bearer_credential value) [
      | none ↦ (v, false)
      | some token ↦
          let (v', answer) = verify token v in
          elim answer [ ok claims ↦ (v', true) | err why ↦ (v', false) ]
    ]
  ]

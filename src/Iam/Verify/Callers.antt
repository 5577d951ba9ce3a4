-- ===== src/Iam/Verify/Callers.antt =====
-- iam/verify.rs: which callers a service admits.
use dravr_tronc.Common.{
  ◌≡◌, ◌↔◌, inl, inr, refl, ap, ◌∙◌, true, Option, none, some, String, List, [], ◌∷◌, ok, arith,
  Bool-cases, Option-cases, Result-cases, ◌==◌, string_eq,
}
use dravr_tronc.Common.Lists.{any}
use dravr_tronc.Guard.Text.{Text, unwrap_or}
use dravr_tronc.Auth.{bearer_credential}
use dravr_tronc.Auth.Gate.{presented}
use dravr_tronc.Iam.KeySet.{GoogleKeySet, GoogleSigningKey, Answer, decoding_key_for}
use dravr_tronc.Iam.Verify.{
  google_issuers, IdTokenClaims, GoogleIdTokenVerifier, admit, verify, require_google_id_token,
}

-- The allowlist is empty, or it has the address, which Google has verified.
unfoldable pub IsAllowed : List String → IdTokenClaims → Type 0
IsAllowed [] claims = Unit
IsAllowed (e ∷ es) claims =
    (any (λ a. a == unwrap_or "" claims.email) (e ∷ es) ≡ true)
    × (claims.email_verified ≡ some true)

admit_iff :
    (emails : List String) (claims out : IdTokenClaims)
    → (admit emails claims ≡ ok out) ↔ ((claims ≡ out) × IsAllowed emails claims)
unfolding admit IsAllowed
admit_iff [] claims out = (λ e. (ground (arith, e), tt), λ (same, u). ap ok same)
admit_iff (e ∷ es) claims out =
    elim (Bool-cases (any (λ a. a == unwrap_or "" claims.email) (e ∷ es))) [
      | inr unlisted ↦ (
        λ f. absurd (ground (arith, f, unlisted)),
        λ (same, a). absurd (ground (arith, a.0, unlisted)),
      )
      | inl listed ↦ elim (Option-cases claims.email_verified) [
        | inl unsaid ↦ (
          λ f. absurd (ground (arith, f, listed, unsaid)),
          λ (same, a). absurd (ground (arith, a.1, unsaid)),
        )
        | inr (b, said) ↦ elim (Bool-cases b) [
          | inr denied ↦ (
            λ f. absurd (ground (arith, f, listed, said, denied)),
            λ (same, a). absurd (ground (arith, a.1, said, denied)),
          )
          | inl affirmed ↦ (
            λ f. (
              ground (arith, f, listed, said, affirmed),
              (listed, ground (arith, said, affirmed)),
            ),
            λ (same, a). ground (arith, same, listed, said, affirmed),
          )
        ]
      ]
    ]

module _ {D : Type 0} (read_header : Text → Option (Option String))
    (from_rsa_components : String → String → Option D)
    (decode : Text → D → String → List String → Option IdTokenClaims)
    (ask : String → GoogleKeySet → GoogleKeySet × Answer) where
  -- The token names a key, the key set has it, and with that key the token decodes to claims that
  -- the allowlist admits.
  unfoldable pub IsGenuine : Text → GoogleIdTokenVerifier → IdTokenClaims → Type 0
  IsGenuine token v claims =
      (kid : String) × (key : GoogleSigningKey) × (decoding : D) × (read_header token
        ≡ some (some kid))
      × ((ask kid v.keys).1 ≡ ok key)
      × (from_rsa_components key.n key.e ≡ some decoding)
      × (decode token decoding v.audience google_issuers ≡ some claims)
      × IsAllowed v.allowed_emails claims

  verify_iff :
      (token : Text) (v : GoogleIdTokenVerifier) (claims : IdTokenClaims)
      → ((verify read_header from_rsa_components decode ask token v).1 ≡ ok claims)
        ↔ IsGenuine token v claims
  unfolding verify decoding_key_for IsGenuine
  verify_iff token v claims = (
    λ e. verified (read_header token) refl e,
    λ (kid, key, decoding, named, asked, read, decoded, allowed). ground (
      arith,
      named,
      asked,
      read,
      decoded,
      (admit_iff v.allowed_emails claims claims).1 (refl, allowed),
    ),
  )
    where
      admitted :
          (kid : String) (key : GoogleSigningKey) (decoding : D)
          → read_header token ≡ some (some kid)
          → (ask kid v.keys).1 ≡ ok key
          → from_rsa_components key.n key.e ≡ some decoding
          → (verify read_header from_rsa_components decode ask token v).1 ≡ ok claims
          → IsGenuine token v claims
      admitted kid key decoding named asked read e =
          elim (Option-cases (decode token decoding v.audience google_issuers)) [
            | inl unread ↦ absurd (ground (arith, e, named, asked, read, unread))
            | inr (c, decoded) ↦
                let (same, allowed) =
                  (admit_iff v.allowed_emails c claims).0
                    (ground (arith, e, named, asked, read, decoded)) in
                (kid, key, decoding, named, asked, read, decoded ∙ ap some same, rw same at allowed)
          ]

      verified :
          (header : Option (Option String))
          → read_header token ≡ header
          → (verify read_header from_rsa_components decode ask token v).1 ≡ ok claims
          → IsGenuine token v claims
      verified none h e = absurd (ground (arith, h, e))
      verified (some none) h e = absurd (ground (arith, h, e))
      verified (some (some kid)) h e = elim (Result-cases (ask kid v.keys).1) [
        | inr (why, refused) ↦ absurd (ground (arith, h, e, refused))
        | inl (key, asked) ↦ elim (Option-cases (from_rsa_components key.n key.e)) [
          | inl unusable ↦ absurd (ground (arith, h, e, asked, unusable))
          | inr (decoding, read) ↦ admitted kid key decoding h asked read e
        ]
      ]

  -- A request goes on to the handler exactly when it presents a genuine token as its bearer
  -- credential.
  pub require_google_id_token_iff :
      (header : Option Text) (v : GoogleIdTokenVerifier)
      → ((require_google_id_token read_header from_rsa_components decode ask header v).1 ≡ true) ↔ (
          (token : Text) × (claims : IdTokenClaims) × (presented header ≡ some token)
          × IsGenuine token v claims)
  unfolding require_google_id_token presented
  require_google_id_token_iff none v =
      (λ e. absurd (ground (arith, e)), λ (token, claims, p, g). absurd (ground (arith, p)))
  require_google_id_token_iff (some value) v = elim (Option-cases (bearer_credential value)) [
    | inl absent ↦ (
      λ e. absurd (ground (arith, e, absent)),
      λ (token, claims, p, g). absurd (ground (arith, p, absent)),
    )
    | inr (token, there) ↦ (
      λ e. elim (Result-cases (verify read_header from_rsa_components decode ask token v).1) [
        | inr (why, refused) ↦ absurd (ground (arith, e, there, refused))
        | inl (claims, good) ↦ (token, claims, there, (verify_iff token v claims).0 good)
      ],
      λ (other, claims, shown, genuine).
          let same : other ≡ token = ground (arith, shown, there) in
          let good = (verify_iff token v claims).1 (rw same at genuine) in
          ground (arith, there, good),
    )
  ]

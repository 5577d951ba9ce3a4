-- ===== src/Guard/Client.antt =====
-- http_client/guard/mod.rs: the redirects that a client follows, the URLs that it vets, and the body
-- that it reads. A name lookup is a parameter, as are the answers of the network.
use mathlib.Core.List.{append_assoc, append-nil}
use dravr_tronc.Common.{
  ℕ, suc, ◌+◌, ◌-◌, ◌^◌, ◌≤◌, ◌<◌, ◌≡◌, refl, ap, ◌∙◌, ◌⊎◌, inl, inr, nat_eq, ◌==◌, Bool, true,
  false, Option, List, [], ◌∷◌, ◌++◌, ltb, min, if◌then◌else◌, Result, ok, err, arith, Bool-cases,
  Result-cases,
}
use dravr_tronc.Common.Lists.{length, length-append, All}
use dravr_tronc.Common.Bytes.{Bytes}
use dravr_tronc.Guard.Text.{Text}
use dravr_tronc.Guard.Policy.{Url, GuardError, too_many_redirects, body_too_large}
use dravr_tronc.Guard.Fetch.{
  PolicyKind, applies_deny_list, max_redirects, check, AddressRule, refuses,
}
use dravr_tronc.Guard.Fetch.Admission.{Passes, check_iff}

-- `GuardedClientBuilder::build`.
unfoldable pub rule_of : PolicyKind → Bool → AddressRule
rule_of kind permit_loopback = record {
  deny = applies_deny_list kind;
  permit_loopback = permit_loopback;
}

pub data Redirect : Type 0 where
  stop follow : Redirect
  refuse : GuardError → Redirect

module _ (decode : Text → Option Text) (kind : PolicyKind) (permit_loopback : Bool) where
  abbrev pub rule : AddressRule
  rule = rule_of kind permit_loopback

  -- The redirect policy, of the number of URLs before this one. A policy that follows no redirect
  -- stops at the response that asks for it.
  unfoldable pub on_redirect : ℕ → Url → Redirect
  on_redirect previous url =
      if max_redirects kind == 0
      then stop
      else if ltb (max_redirects kind) previous
      then refuse too_many_redirects
      else elim (check decode kind (refuses rule) url) [ ok _ ↦ follow | err e ↦ refuse e ]

  -- Of the URLs that the servers redirect to, one after the other, those that are fetched.
  unfoldable pub follow_from : ℕ → List Url → Result (List Url) GuardError
  follow_from previous [] = ok []
  follow_from previous (url ∷ urls) =
      let rest = follow_from (suc previous) urls in
      elim (on_redirect previous url) [
        | stop ↦ ok []
        | refuse e ↦ err e
        | follow ↦ elim rest [ err e ↦ err e | ok fetched ↦ ok (url ∷ fetched) ]
      ]

  -- The ways of a redirect.
  hop :
      (previous : ℕ) (url : Url) (urls fetched : List Url)
      → follow_from previous (url ∷ urls) ≡ ok fetched
      → ((fetched ≡ []) × (max_redirects kind ≡ 0))
        ⊎ ((previous ≤ max_redirects kind)
            × (check decode kind (refuses rule) url ≡ ok tt)
            × ((more : List Url) × (follow_from (suc previous) urls ≡ ok more)
                × (fetched ≡ url ∷ more)))
  unfolding follow_from on_redirect
  hop previous url urls fetched e = elim (Bool-cases (max_redirects kind == 0)) [
    | inl still ↦ inl (ground (arith, e, still), ground (arith, still))
    | inr onwards ↦ elim (Result-cases (follow_from (suc previous) urls)) [
      | inr (x, refused) ↦ absurd (ground (arith, e, onwards, refused))
      | inl (more, later) ↦ inr (
        ground (arith, e, onwards),
        ground (arith, e, onwards),
        (more, later, ground (arith, e, onwards, later)),
      )
    ]
  ]

  -- Every URL that a chain of redirects fetches passes the policy's check, and there are no more of
  -- them than the policy allows; the chain is followed to its end, unless the policy follows none.
  pub follow_from_sound :
      (previous : ℕ) (urls fetched : List Url)
      → previous ≤ suc (max_redirects kind)
      → follow_from previous urls ≡ ok fetched
      → (previous + length fetched ≤ suc (max_redirects kind))
        × All (Passes decode kind (refuses rule)) fetched
        × ((fetched ≡ urls) ⊎ (max_redirects kind ≡ 0))
  unfolding follow_from
  follow_from_sound previous [] fetched p e =
      let same : fetched ≡ [] = ground (arith, e) in rw same (omega arith, tt, inl refl)
  follow_from_sound previous (url ∷ urls) fetched p e = elim (hop previous url urls fetched e) [
    | inl (same, still) ↦ rw same (omega arith, tt, inr still)
    | inr (few, passed, (more, later, same)) ↦
        let (short, all, ends) =
          follow_from_sound (suc previous) urls more (omega (arith, few)) later in
        rw same (
          omega (arith, short),
          ((check_iff decode kind (refuses rule) url).0 passed, all),
          elim ends [ inl whole ↦ inl (ap (◌∷◌ url) whole) | inr still ↦ inr still ],
        )
  ]

-- `checked_add` of the lengths, saturating at the machine word.
abbrev pub u64_max : ℕ
u64_max = 2 ^ 64 - 1

-- `GuardedResponse::bytes`, over the chunks that arrive: `chunk`, until the end.
unfoldable pub bytes : ℕ → ℕ → Bytes → List Bytes → Result Bytes GuardError
bytes limit received body [] = ok body
bytes limit received body (chunk ∷ chunks) =
    let total = min (received + length chunk) u64_max in
    let rest = bytes limit total (body ++ chunk) chunks in
    if ltb limit total then err (body_too_large limit) else rest

abbrev pub concat : List Bytes → Bytes
concat [] = []
concat (chunk ∷ chunks) = chunk ++ concat chunks

bytes_from :
    (limit : ℕ) (body : Bytes) (chunks : List Bytes)
    → limit < u64_max
    → length body ≤ limit
    → bytes limit (length body) body chunks ≡ (
        if ltb limit (length (body ++ concat chunks))
        then err (body_too_large limit)
        else ok (body ++ concat chunks))
unfolding bytes
bytes_from limit body [] l b = rw (append-nil body) (ground (arith, b))
bytes_from limit body (chunk ∷ chunks) l b =
    elim (Bool-cases (ltb limit (length body + length chunk))) [
      | inl large ↦
          let over : ltb limit (min (length body + length chunk) u64_max) ≡ true =
            ground (arith, large) in
          let whole : ltb limit (length (body ++ concat (chunk ∷ chunks))) ≡ true = ground (
            arith,
            large,
            length-append body (chunk ++ concat chunks),
            length-append chunk (concat chunks),
          ) in
          rw (over, whole) refl
      | inr small ↦
          let total : min (length body + length chunk) u64_max ≡ length (body ++ chunk) =
            ground (arith, small, length-append body chunk) in
          let fits : ltb limit (length (body ++ chunk)) ≡ false =
            ground (arith, small, length-append body chunk) in
          rw (total, fits)
            (bytes_from limit (body ++ chunk) chunks l (ground (arith, fits))
              ∙ ap
                  (λ (b : Bytes). if ltb limit (length b) then err (body_too_large limit) else ok b)
                  (append_assoc body chunk (concat chunks)))
    ]

-- A body is read whole when it is within the limit, however it was cut into chunks, and refused
-- otherwise; the limit is below the greatest 64-bit number.
pub bytes_lem :
    (limit : ℕ) (chunks : List Bytes)
    → limit < u64_max
    → bytes limit 0 [] chunks ≡ (
        if ltb limit (length (concat chunks))
        then err (body_too_large limit)
        else ok (concat chunks))
bytes_lem limit chunks l = bytes_from limit [] chunks l (omega arith)

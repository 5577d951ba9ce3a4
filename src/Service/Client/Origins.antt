-- ===== src/Service/Client/Origins.antt =====
-- service_client/client.rs: where the requests of a client go, from the making of the client to the
-- end of a call.
use dravr_tronc.Common.{
  ℕ, ◌≡◌, ◌⊎◌, inl, inr, refl, ap, ◌∙◌, Bool, true, false, ◌&&◌, Option, none, some, String, List,
  [], ◌∷◌, ◌++◌, nat_eq, string_eq, option_eq, list_eq, ok, arith, Bool-cases, Option-cases,
  Result-cases, is_some,
}
use dravr_tronc.Common.Lists.{All}
use dravr_tronc.Common.Assoc.{lookup}
use dravr_tronc.Common.Bytes.{Bytes}
use dravr_tronc.Guard.Text.{Text}
use dravr_tronc.Guard.Deny.{IpAddr}
use dravr_tronc.Json.{Value}
use dravr_tronc.Http.{visible}
use dravr_tronc.Iam.TokenSource.{IdTokenSource}
use dravr_tronc.Service.Client.{
  Url, Origin, Request, RequestBuilder, ServiceClient, ServiceRequest, origin, origin_beq,
  trim_end_matches, addressed, tokens_for, new,
}
use dravr_tronc.Service.Client.Attempts.{
  Surroundings, authorization, attempt, is_unanswered, send, authorize, execute,
}
use dravr_tronc.Service.Client.Sending.{IsConfined, IsOwn, attempt-IsConfined, client-authorization}

-- A client with a token source is of an https service.
unfoldable pub IsSecure : ServiceClient → Type 0
IsSecure client = (is_some client.tokens ≡ true) → client.base.scheme ≡ "https"

-- The request is for the origin, and what it has under `Authorization` is sent encrypted.
unfoldable pub IsSafe : Url → Request → Type 0
IsSafe base out =
    (origin out.url ≡ origin base)
    × ((lookup "authorization" out.headers ≡ none) ⊎ (out.url.scheme ≡ "https"))

IsConfined-IsSafe :
    (client : ServiceClient) (around : Surroundings) (outs : List Request)
    → IsSecure client
    → All (IsConfined client around) outs
    → All (IsSafe client.base) outs
unfolding IsConfined IsSafe IsSecure IsOwn
IsConfined-IsSafe client around [] v c = tt
IsConfined-IsSafe client around (out ∷ outs) v ((at, id, own), c) = (
  (
    at,
    elim (Option-cases client.tokens) [
      | inl local ↦ inl (rw (local, IsOwn) at own)
      | inr (source, held) ↦ inr (ap (λ (o : Origin). o.scheme) at ∙ v (rw held refl))
    ],
  ),
  IsConfined-IsSafe client around outs v c,
)

All-append : (P : Request → Type 0) (xs ys : List Request) → All P xs → All P ys → All P (xs ++ ys)
All-append P [] ys a b = b
All-append P (x ∷ xs) ys a b = (a.0, All-append P xs ys a.1 b)

authorization-IsSecure :
    (operation : String) (around : Surroundings) (client : ServiceClient)
    → IsSecure client
    → IsSecure (authorization operation around client).0
unfolding authorization IsSecure
authorization-IsSecure operation around client v = ground (arith, v)

module _ (parse_json : Bytes → Option Value) (read_u64 : String → Option ℕ) where
  client-attempt :
      (operation : String) (builder : RequestBuilder) (resent : Bool) (around : Surroundings)
      (client : ServiceClient)
      → let after = (attempt parse_json read_u64 operation builder resent around client).client in
        (after ≡ client) ⊎ (after ≡ (authorization operation around client).0)
  unfolding attempt
  client-attempt operation builder resent around client = elim (Option-cases builder.built) [
    | inl unbuilt ↦ rw (unbuilt, attempt) (inl refl)
    | inr (r, built) ↦ elim (Bool-cases (origin_beq (origin r.url) (origin client.base))) [
      | inr foreign ↦ rw (built, foreign, attempt) (inl refl)
      | inl home ↦ elim (Result-cases (authorization operation around client).1) [
        | inr (why, refused) ↦ rw (built, home, attempt, refused, authorize) (inr refl)
        | inl (value, given) ↦ elim (Option-cases (visible around.request_id)) [
          | inl bad ↦ rw (built, home, attempt, given, authorize, bad, execute) (inr refl)
          | inr (id, good) ↦ rw (built, home, attempt, given, authorize, good, execute) (inr refl)
        ]
      ]
    ]
  ]

  attempt-IsSecure :
      (operation : String) (builder : RequestBuilder) (resent : Bool) (around : Surroundings)
      (client : ServiceClient)
      → IsSecure client
      → let after = (attempt parse_json read_u64 operation builder resent around client).client in
        IsSecure after × (after.base ≡ client.base)
  attempt-IsSecure operation builder resent around client v =
      elim (client-attempt operation builder resent around client) [
        | inl same ↦ rw same (v, refl)
        | inr minted ↦ rw minted (
          authorization-IsSecure operation around client v,
          client-authorization operation around client,
        )
      ]

  attempt-IsSafe :
      (operation : String) (builder : RequestBuilder) (resent : Bool) (around : Surroundings)
      (client : ServiceClient)
      → IsSecure client
      → All
          (IsSafe client.base)
          (attempt parse_json read_u64 operation builder resent around client).sent
  attempt-IsSafe operation builder resent around client v =
      let out = attempt parse_json read_u64 operation builder resent around client in
      IsConfined-IsSafe client around out.sent v
        (attempt-IsConfined parse_json read_u64 operation builder resent around client)

  send-IsSafe_of :
      (around later : Surroundings) (r : ServiceRequest)
      → IsSecure r.client
      → All (IsSafe r.client.base) (send parse_json read_u64 around later r).sent
  unfolding send
  send-IsSafe_of around later r v =
      let first = attempt parse_json read_u64 r.operation r.builder false around r.client in
      let one = attempt-IsSafe r.operation r.builder false around r.client v in
      let (w, same) = attempt-IsSecure r.operation r.builder false around r.client v in
      let second = attempt parse_json read_u64 r.operation r.builder true later first.client in
      let two = attempt-IsSafe r.operation r.builder true later first.client w in
      elim (Bool-cases r.refused) [
        | inl refused ↦ rw (refused, send) tt
        | inr fine ↦
            elim (Bool-cases (
              r.resend_after_close
              && r.builder.can_clone
              && is_unanswered parse_json read_u64 first.answer)) [
                | inr once ↦ rw (fine, once, send) one
                | inl again ↦
                    rw (fine, again, send)
                      (All-append (IsSafe r.client.base) first.sent second.sent one
                        (rw same at two))
              ]
      ]

  module _ (parse_ip : Text → Option IpAddr) (parse_url : Text → Option Url) where
    tokens_for-https :
        (service : String) (url : Url) (host : Text) (audience : Option Text)
        (source : IdTokenSource)
        → tokens_for parse_ip parse_url service url host audience ≡ ok (some source)
        → url.scheme ≡ "https"
    tokens_for-https service url host audience source e =
        ground (arith, e, string_eq.same_iff url.scheme "https")

    new-IsSecure :
        (service : String) (text : Text) (audience : Option Text) (client : ServiceClient)
        → new parse_ip parse_url service text audience ≡ ok client
        → IsSecure client
    unfolding new IsSecure
    new-IsSecure service text audience client e =
        elim (Option-cases (parse_url (trim_end_matches b'/' text))) [
          | inl unread ↦ absurd (ground (arith, e, unread))
          | inr (url, read) ↦ elim (Option-cases url.host) [
            | inl nowhere ↦ absurd (ground (arith, e, read, nowhere))
            | inr (host, there) ↦
                elim (Result-cases (tokens_for parse_ip parse_url service url host audience)) [
                  | inr (why, refused) ↦ absurd (ground (arith, e, read, there, refused))
                  | inl (none, local) ↦ λ held. absurd (ground (arith, e, read, there, local, held))
                  | inl (some source, addressed) ↦ λ held.
                      let secure = tokens_for-https service url host audience source addressed in
                      ground (arith, e, read, there, addressed, secure)
                ]
          ]
        ]

    -- Every request that a client sends in a call is for the origin of its base URL, and a
    -- credential goes out only over https, whatever headers the caller has set.
    pub send-IsSafe :
        (service : String) (text : Text) (audience : Option Text) (around later : Surroundings)
        (r : ServiceRequest)
        → new parse_ip parse_url service text audience ≡ ok r.client
        → All (IsSafe r.client.base) (send parse_json read_u64 around later r).sent
    send-IsSafe service text audience around later r made =
        send-IsSafe_of around later r (new-IsSecure service text audience r.client made)

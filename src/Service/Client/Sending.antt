-- ===== src/Service/Client/Sending.antt =====
-- service_client/client.rs: what goes out to the network for a request, and how often.
use dravr_tronc.Common.{
  ℕ, ◌≡◌, ◌↔◌, inl, inr, refl, ap, ◌∙◌, Bool, true, Option, none, some, String, ◌++◌, nat_eq,
  string_eq, option_eq, list_eq, option_beq_iff, ok, arith, Bool-cases, Option-cases, Result-cases,
}
use dravr_tronc.Common.Lists.{All}
use dravr_tronc.Common.Assoc.{lookup, without, insert as put, lookup-insert, lookup-without}
use dravr_tronc.Common.Bytes.{Bytes}
use dravr_tronc.Guard.Text.{Text}
use dravr_tronc.Json.{Value}
use dravr_tronc.Http.{visible}
use dravr_tronc.Requests.{request_id_header}
use dravr_tronc.Iam.TokenSource.{IdTokenSource}
use dravr_tronc.Service.Client.{Origin, Request, RequestBuilder, ServiceClient, origin, origin_beq}
use dravr_tronc.Service.Client.Attempts.{
  Surroundings, bearer_space, authorization, authorized, identified, execute, authorize, attempt,
}

origin_beq_iff : (a b : Origin) → (origin_beq a b ≡ true) ↔ (a ≡ b)
origin_beq_iff a b = ground (
  arith,
  string_eq.same_iff a.scheme b.scheme,
  option_beq_iff a.host b.host,
  option_beq_iff a.port b.port,
)

-- The credential of a request is the client's own token, or there is none.
unfoldable pub IsOwn : Option IdTokenSource → Surroundings → Request → Type 0
IsOwn none around out = lookup "authorization" out.headers ≡ none
IsOwn (some source) around out =
    (token : Text) × ((around.mint source).1 ≡ ok token)
    × (lookup "authorization" out.headers ≡ some (bearer_space ++ token))

-- A request that goes out is for the origin of the base URL, has the attempt's id and no credential
-- but the client's.
unfoldable pub IsConfined : ServiceClient → Surroundings → Request → Type 0
IsConfined client around out =
    (origin out.url ≡ origin client.base)
    × (lookup request_id_header out.headers ≡ some around.request_id)
    × IsOwn client.tokens around out

visible_same : (t v : Text) → visible t ≡ some v → v ≡ t
unfolding visible
visible_same t v e = ground (arith, e)

identified-authorized_headers :
    (id : Text) (value : Option Text) (r : Request)
    → (lookup request_id_header (identified id (authorized value r)).headers ≡ some id)
      × (lookup "authorization" (identified id (authorized value r)).headers ≡ value)
identified-authorized_headers id none r = (
  lookup-insert request_id_header request_id_header id (without "authorization" r.headers),
  lookup-insert request_id_header "authorization" id (without "authorization" r.headers)
      ∙ lookup-without "authorization" "authorization" r.headers,
)
identified-authorized_headers id (some v) r = (
  lookup-insert request_id_header request_id_header id (put "authorization" v r.headers),
  lookup-insert request_id_header "authorization" id (put "authorization" v r.headers)
      ∙ lookup-insert "authorization" "authorization" v r.headers,
)

-- What `authorization` says of the credential that goes out.
unfoldable pub IsOwnValue : Option IdTokenSource → Surroundings → Option Text → Type 0
IsOwnValue none around value = value ≡ none
IsOwnValue (some source) around value =
    (token : Text) × ((around.mint source).1 ≡ ok token) × (value ≡ some (bearer_space ++ token))

authorization_ok :
    (operation : String) (around : Surroundings) (client : ServiceClient) (value : Option Text)
    → (authorization operation around client).1 ≡ ok value
    → IsOwnValue client.tokens around value
unfolding authorization IsOwnValue
authorization_ok operation around client value e = elim (Option-cases client.tokens) [
  | inl local ↦ rw (local, IsOwnValue) (ground (arith, e, local))
  | inr (source, held) ↦ elim (Result-cases (around.mint source).1) [
    | inr (why, failed) ↦ absurd (ground (arith, e, held, failed))
    | inl (token, minted) ↦ elim (Option-cases (visible (bearer_space ++ token))) [
      | inl bad ↦ absurd (ground (arith, e, held, minted, bad))
      | inr (v, good) ↦
          rw (held, IsOwnValue)
            (
              token,
              minted,
              ground (arith, e, held, minted, good, visible_same (bearer_space ++ token) v good),
            )
    ]
  ]
]

pub client-authorization :
    (operation : String) (around : Surroundings) (client : ServiceClient)
    → (authorization operation around client).0.base ≡ client.base
unfolding authorization
client-authorization operation around client = ground arith

IsOwnValue-IsOwn :
    (tokens : Option IdTokenSource) (around : Surroundings) (value : Option Text) (out : Request)
    → IsOwnValue tokens around value
    → lookup "authorization" out.headers ≡ value
    → IsOwn tokens around out
unfolding IsOwn IsOwnValue
IsOwnValue-IsOwn none around value out o l = l ∙ o
IsOwnValue-IsOwn (some source) around value out (token, minted, same) l = (token, minted, l ∙ same)

url-authorized : (value : Option Text) (r : Request) → (authorized value r).url ≡ r.url
url-authorized none r = refl
url-authorized (some v) r = refl

module _ (parse_json : Bytes → Option Value) (read_u64 : String → Option ℕ) where
  execute-IsConfined :
      (operation : String) (resent : Bool) (around : Surroundings) (value : Option Text)
      (r : Request) (client after : ServiceClient)
      → origin r.url ≡ origin client.base
      → IsOwnValue client.tokens around value
      → All
          (IsConfined client around)
          (execute parse_json read_u64 operation resent around value r after).sent
  unfolding IsConfined
  execute-IsConfined operation resent around value r client after at own =
      elim (Option-cases (visible around.request_id)) [
        | inl bad ↦ rw (bad, execute) tt
        | inr (id, good) ↦
            let (named, shown) = identified-authorized_headers id value r in
            rw (good, execute)
              (
                (
                  ap origin (url-authorized value r) ∙ at,
                  named ∙ ap some (visible_same around.request_id id good),
                  IsOwnValue-IsOwn client.tokens around value (identified id (authorized value r))
                      own shown,
                ),
                tt,
              )
      ]

  -- One attempt sends at most one request: for the origin of the base URL, with the attempt's id,
  -- and with no credential but the client's own token.
  pub attempt-IsConfined :
      (operation : String) (builder : RequestBuilder) (resent : Bool) (around : Surroundings)
      (client : ServiceClient)
      → All
          (IsConfined client around)
          (attempt parse_json read_u64 operation builder resent around client).sent
  unfolding attempt
  attempt-IsConfined operation builder resent around client = elim (Option-cases builder.built) [
    | inl unbuilt ↦ rw (unbuilt, attempt) tt
    | inr (r, built) ↦ elim (Bool-cases (origin_beq (origin r.url) (origin client.base))) [
      | inr foreign ↦ rw (built, foreign, attempt) tt
      | inl home ↦
          let at = (origin_beq_iff (origin r.url) (origin client.base)).0 home in
          elim (Result-cases (authorization operation around client).1) [
            | inr (why, refused) ↦ rw (built, home, attempt, refused, authorize) tt
            | inl (value, given) ↦
                rw (built, home, attempt, given, authorize)
                  (execute-IsConfined operation resent around value r client
                    (authorization operation around client).0 at
                    (authorization_ok operation around client value given))
          ]
    ]
  ]

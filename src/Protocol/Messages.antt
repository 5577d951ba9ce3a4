-- ===== src/Protocol/Messages.antt =====
-- mcp/protocol.rs: which texts are requests.
use dravr_tronc.Common.{
  ◌≡◌, ◌↔◌, refl, inl, inr, Bool, true, false, Option, none, some, String, [], string_eq, ok, arith,
  Bool-cases, Option-cases, Result-cases, is_some,
}
use dravr_tronc.Json.{
  null, boolean, number, array, Value, Fields, string, object, field, end, get_field, contains_key,
}
use dravr_tronc.Protocol.{
  JsonRpcRequest, request, response, optional, get_str, request_of, bad_id, parse_response,
  parse_object, parse_message, parse_request, response_of,
}

contains_key-get_field : (k : String) (fs : Fields) → contains_key k fs ≡ is_some (get_field k fs)
contains_key-get_field k end = refl
contains_key-get_field k (field j v fs) = ground (arith, contains_key-get_field k fs)

get_str_there : (k t : String) (fs : Fields) → get_str k fs ≡ some t → contains_key k fs ≡ true
get_str_there k t fs e = elim (Option-cases (get_field k fs)) [
  | inl missing ↦ absurd (ground (arith, e, missing))
  | inr (v, there) ↦ rw (contains_key-get_field k fs, there) refl
]

module _ (is_integer : String → Bool) (is_i32 : String → Bool) where
  -- A JSON object with a version, a method and no id but a text or an integer.
  unfoldable pub IsRequest : Fields → JsonRpcRequest → Type 0
  IsRequest fs r =
      (get_str "jsonrpc" fs ≡ some r.jsonrpc)
      × (get_str "method" fs ≡ some r.method)
      × (bad_id is_integer is_i32 (get_field "id" fs) ≡ false)
      × (r.params ≡ optional (get_field "params" fs))
      × (r.id ≡ optional (get_field "id" fs))
      × (r.headers ≡ none)
      × (r.metadata ≡ [])

  parse_response_request :
      (fs : Fields) (r : JsonRpcRequest)
      → (parse_response is_integer is_i32 fs ≡ ok (request r))
      → ⊥
  unfolding parse_response
  parse_response_request fs r e = elim (Option-cases (response_of is_integer is_i32 fs)) [
    | inl unread ↦ ground (arith, e, unread)
    | inr (a, read) ↦ ground (arith, e, read)
  ]

  request_of_iff :
      (fs : Fields) (r : JsonRpcRequest)
      → bad_id is_integer is_i32 (get_field "id" fs) ≡ false
      → (request_of is_integer is_i32 fs ≡ some r) ↔ IsRequest fs r
  unfolding request_of IsRequest
  request_of_iff fs r fine = elim (Option-cases (get_str "jsonrpc" fs)) [
    | inl mute ↦ (
      λ e. absurd (ground (arith, e, mute)),
      λ (v, m, i, p, d, h, x). absurd (ground (arith, v, mute)),
    )
    | inr (version, spoken) ↦ elim (Option-cases (get_str "method" fs)) [
      | inl idle ↦ (
        λ e. absurd (ground (arith, e, spoken, idle)),
        λ (v, m, i, p, d, h, x). absurd (ground (arith, m, idle)),
      )
      | inr (method, named) ↦ (
        λ e.
            let same = rw (spoken, request_of, named) at e in
            (
              ground (arith, spoken, same),
              ground (arith, named, same),
              fine,
              ground (arith, same),
              ground (arith, same),
              ground (arith, same),
              ground (arith, same),
            ),
        λ (v, m, i, p, d, h, x).
            rw (spoken, request_of, named) (ground (arith, spoken, named, v, m, p, d, h, x)),
      )
    ]
  ]

  named : (fs : Fields) (r : JsonRpcRequest) → IsRequest fs r → get_str "method" fs ≡ some r.method
  unfolding IsRequest
  named fs r (v, m, i, p, d, h, x) = m

  identified :
      (fs : Fields) (r : JsonRpcRequest)
      → IsRequest fs r
      → bad_id is_integer is_i32 (get_field "id" fs) ≡ false
  unfolding IsRequest
  identified fs r (v, m, i, p, d, h, x) = i

  parse_object_iff :
      (fs : Fields) (r : JsonRpcRequest)
      → (parse_object is_integer is_i32 fs ≡ ok (request r)) ↔ IsRequest fs r
  parse_object_iff fs r = elim (Bool-cases (contains_key "method" fs)) [
    | inr unnamed ↦ (
      λ e. absurd (parse_response_request fs r (rw (unnamed, parse_object) at e)),
      λ v. absurd (ground (arith, unnamed, get_str_there "method" r.method fs (named fs r v))),
    )
    | inl there ↦ elim (Bool-cases (bad_id is_integer is_i32 (get_field "id" fs))) [
      | inl bad ↦ (
        λ e. absurd (ground (arith, e, there, bad)),
        λ v. absurd (ground (arith, bad, identified fs r v)),
      )
      | inr fine ↦ (
        λ e. elim (Option-cases (request_of is_integer is_i32 fs)) [
          | inl unread ↦ absurd (ground (arith, e, there, fine, unread))
          | inr (q, read) ↦ (request_of_iff fs r fine).0 (ground (arith, e, there, fine, read))
        ],
        λ v. let read = (request_of_iff fs r fine).1 v in ground (arith, there, fine, read),
      )
    ]
  ]

  -- A text is read as a request exactly when it is a JSON object with a version, a method and no id
  -- but a text or an integer; it is then the request of those fields.
  pub parse_request_iff :
      (json : Option Value) (r : JsonRpcRequest)
      → (parse_request is_integer is_i32 json ≡ ok r)
        ↔ ((fs : Fields) × (json ≡ some (object fs)) × IsRequest fs r)
  unfolding parse_request parse_message
  parse_request_iff none r =
      (λ e. absurd (ground (arith, e)), λ (fs, j, v). absurd (ground (arith, j)))
  parse_request_iff (some (object fs)) r = (
    λ e. elim (Result-cases (parse_object is_integer is_i32 fs)) [
      | inr (why, refused) ↦ absurd (ground (arith, e, refused))
      | inl (response a, read) ↦ absurd (ground (arith, e, read))
      | inl (request q, read) ↦ (fs, refl, (parse_object_iff fs r).0 (ground (arith, e, read)))
    ],
    λ (gs, j, v).
        let same : gs ≡ fs = ground (arith, j) in
        let read = (parse_object_iff fs r).1 (rw same at v) in ground (arith, read),
  )
  parse_request_iff (some null) r =
      (λ e. absurd (ground (arith, e)), λ (fs, j, v). absurd (ground (arith, j)))
  parse_request_iff (some (boolean b)) r =
      (λ e. absurd (ground (arith, e)), λ (fs, j, v). absurd (ground (arith, j)))
  parse_request_iff (some (number n)) r =
      (λ e. absurd (ground (arith, e)), λ (fs, j, v). absurd (ground (arith, j)))
  parse_request_iff (some (string t)) r =
      (λ e. absurd (ground (arith, e)), λ (fs, j, v). absurd (ground (arith, j)))
  parse_request_iff (some (array vs)) r =
      (λ e. absurd (ground (arith, e)), λ (fs, j, v). absurd (ground (arith, j)))

-- ===== src/Iam/KeySet.antt =====
-- iam/key_set.rs: the cache of Google's signing keys. Instants are seconds; what a download returns
-- is an argument.
pub mod Traffic
pub mod Sound
pub mod Answers
use dravr_tronc.Common.{
  ℕ, ◌-◌, Bool, true, false, Option, none, some, String, List, [], ◌∷◌, ◌==◌, string_eq, ltb,
  if◌then◌else◌, Result, ok, err, min,
}
use dravr_tronc.Iam.{IamError, jwks_unavailable, rejected}

abbrev pub key_set_ttl : ℕ
key_set_ttl = 3600

abbrev pub min_refetch_interval : ℕ
min_refetch_interval = 30

pub record GoogleSigningKey : Type 0 where
  pub kid : String
  pub n : String
  pub e : String

pub record FetchedKeys : Type 0 where
  pub keys : List GoogleSigningKey
  pub fetched_at : ℕ

pub record CacheState : Type 0 where
  pub fetched : Option FetchedKeys
  pub last_attempt : Option ℕ

pub record GoogleKeySet : Type 0 where
  pub interval : ℕ
  pub state : CacheState

unfoldable pub new : GoogleKeySet
new = record {
  interval = min_refetch_interval;
  state = record { fetched = none; last_attempt = none };
}

unfoldable pub with_min_refetch_interval : ℕ → GoogleKeySet → GoogleKeySet
with_min_refetch_interval interval s = record s { interval = min interval key_set_ttl }

-- `keys.iter().find(|k| k.kid == kid)`.
unfoldable pub find_key : String → List GoogleSigningKey → Option GoogleSigningKey
find_key kid [] = none
find_key kid (k ∷ ks) = let rest = find_key kid ks in if k.kid == kid then some k else rest

abbrev pub Answer : Type 0
Answer = Result GoogleSigningKey IamError

abbrev pub unknown_kid : IamError
unknown_kid = rejected

unfoldable pub cooling_down : ℕ → GoogleKeySet → Bool
cooling_down now s = elim s.state.last_attempt [
  | none ↦ false
  | some at ↦ ltb (now - at) s.interval
]

unfoldable pub is_current : ℕ → FetchedKeys → Bool
is_current now set = ltb (now - set.fetched_at) key_set_ttl

-- `cooling_down.then(|| Err(why))`.
abbrev pub refused_while : Bool → IamError → Option Answer
refused_while cooling why = if cooling then some (err why) else none

abbrev pub answer_from_set : String → Bool → FetchedKeys → Option Answer
answer_from_set kid cooling set = elim (find_key kid set.keys) [
  | some key ↦ some (ok key)
  | none ↦ refused_while cooling unknown_kid
]

unfoldable pub answer_from_memory : String → ℕ → GoogleKeySet → Option Answer
answer_from_memory kid now s =
    let cooling = cooling_down now s in
    let unavailable = refused_while cooling jwks_unavailable in
    elim s.state.fetched [
      | none ↦ unavailable
      | some set ↦ if is_current now set then answer_from_set kid cooling set else unavailable
    ]

abbrev pub with_state : GoogleKeySet → CacheState → GoogleKeySet
with_state s c = record s { state = c }

abbrev pub answer_from_download : String → List GoogleSigningKey → Answer
answer_from_download kid keys = elim (find_key kid keys) [
  | some key ↦ ok key
  | none ↦ err unknown_kid
]

unfoldable pub fetch :
    String → Result (List GoogleSigningKey) IamError → ℕ → GoogleKeySet → GoogleKeySet × Answer
fetch kid downloaded finished s = elim downloaded [
  | err why ↦
      (with_state s (record { fetched = s.state.fetched; last_attempt = some finished }), err why)
  | ok keys ↦ (
    with_state s (record {
      fetched = some (record { keys = keys; fetched_at = finished });
      last_attempt = some finished;
    }),
    answer_from_download kid keys,
  )
]

-- `key` of a task that reads the memory at `asked`, has its turn at `turn`, after the other tasks
-- have done `others`, and whose download ends at `finished`.
unfoldable pub key :
    String
    → ℕ
    → (GoogleKeySet → GoogleKeySet)
    → ℕ
    → Result (List GoogleSigningKey) IamError
    → ℕ
    → GoogleKeySet
    → GoogleKeySet × Answer
key kid asked others turn downloaded finished s = elim (answer_from_memory kid asked s) [
  | some answer ↦ (s, answer)
  | none ↦
      let waited = others s in
      elim (answer_from_memory kid turn waited) [
        | some answer ↦ (waited, answer)
        | none ↦ fetch kid downloaded finished waited
      ]
]

-- `download`, by the answer of the server: none, when the request or the reading of its document
-- fails.
unfoldable pub download : Option (List GoogleSigningKey) → Result (List GoogleSigningKey) IamError
download document = elim document [ some keys ↦ ok keys | none ↦ err jwks_unavailable ]

-- `decoding_key_for`, by what `decode_header` reads of the token: no header, or one with the name of
-- a key or without. `from_rsa_components` reads the key.
unfoldable pub decoding_key_for {ℓ} :
    {D : Type ℓ}
    → (String → String → Option D)
    → (String → GoogleKeySet × Answer)
    → Option (Option String)
    → GoogleKeySet
    → GoogleKeySet × Result D IamError
decoding_key_for from_rsa_components key_of header s = elim header [
  | none ↦ (s, err rejected)
  | some none ↦ (s, err rejected)
  | some (some kid) ↦
      let (s', answer) = key_of kid in
      elim answer [
        | err why ↦ (s', err why)
        | ok key ↦ elim (from_rsa_components key.n key.e) [
          | none ↦ (s', err rejected)
          | some decoding ↦ (s', ok decoding)
        ]
      ]
]

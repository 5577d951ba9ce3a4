-- ===== src/Cancellation.antt =====
-- mcp/cancellation.rs: the registry of the requests in flight. A token is known by its number.
pub mod Registry
use dravr_tronc.Common.{
  ℕ, suc, ◌+◌, ◌%◌, ◌^◌, ◌≡◌, ◌↔◌, Bool, true, false, not, ◌&&◌, ◌||◌, Option, none, some, String,
  List, [], ◌∷◌, ◌++◌, PartialEq, ◌==◌, nat_eq, string_eq, if◌then◌else◌, arith,
}
use dravr_tronc.Common.Lists.{any, retain}
use dravr_tronc.Common.Assoc.{lookup, without, insert as put}
use dravr_tronc.Caller.{CallerKey, caller_beq, caller_beq_iff, tells_callers_apart}

pub record RequestKey : Type 0 where
  pub caller : CallerKey
  pub request : String

abbrev pub key_beq : RequestKey → RequestKey → Bool
key_beq a b = caller_beq a.caller b.caller && (a.request == b.request)

pub key_beq_iff : (a b : RequestKey) → (key_beq a b ≡ true) ↔ (a ≡ b)
key_beq_iff a b =
    ground (arith, caller_beq_iff a.caller b.caller, string_eq.same_iff a.request b.request)

instance abbrev pub key_eq : PartialEq RequestKey
key_eq = record { same = key_beq; same_iff = key_beq_iff }

-- `RequestKey::new`, of the caller and the JSON text of the id.
unfoldable pub key_of : CallerKey → String → Option RequestKey
key_of caller request =
    if tells_callers_apart caller
    then some (record { caller = caller; request = request })
    else none

-- The serial of a registration, and its token.
abbrev pub Entry : Type 0
Entry = ℕ × ℕ

pub record InFlightRequests : Type 0 where
  pub next_serial : ℕ
  pub entries : List (RequestKey × List Entry)
  pub next_token : ℕ
  pub fired : ℕ → Bool

pub record InFlightGuard : Type 0 where
  pub key : Option RequestKey
  pub serial : ℕ
  pub token : ℕ

-- The registrations under a key: `or_default` of a missing one.
abbrev pub or_default : Option (List Entry) → List Entry
or_default none = []
or_default (some es) = es

unfoldable pub registered : RequestKey → InFlightRequests → List Entry
registered k s = or_default (lookup k s.entries)

abbrev pub push :
    Option RequestKey → Entry → List (RequestKey × List Entry) → List (RequestKey × List Entry)
push none e m = m
push (some k) e m = put k (or_default (lookup k m) ++ e ∷ []) m

-- `register`: the serial wraps, as an `AtomicU64` does. `parent` tells whether the transport's own
-- token, of which the new one is a child, has fired.
unfoldable pub register :
    CallerKey → String → Bool → InFlightRequests → InFlightRequests × InFlightGuard
register caller request parent s =
    let key = key_of caller request in
    let token = s.next_token in
    (
      record {
        next_serial = (s.next_serial + 1) % 2 ^ 64;
        entries = push key (s.next_serial, token) s.entries;
        next_token = suc token;
        fired = λ t. if t == token then parent else s.fired t;
      },
      record { key = key; serial = s.next_serial; token = token },
    )

abbrev pub has_token : ℕ → Entry → Bool
has_token t (serial, token) = token == t

abbrev pub is_nil : List Entry → Bool
is_nil [] = true
is_nil (e ∷ es) = false

-- `cancel`.
unfoldable pub cancel : CallerKey → String → InFlightRequests → InFlightRequests × Bool
cancel caller request s = elim (key_of caller request) [
  | none ↦ (s, false)
  | some k ↦ elim (lookup k s.entries) [
    | none ↦ (s, false)
    | some es ↦ (record s { fired = λ t. any (has_token t) es || s.fired t }, not (is_nil es))
  ]
]

abbrev pub is_other : ℕ → Entry → Bool
is_other n (serial, token) = not (serial == n)

abbrev pub put_back :
    RequestKey → List Entry → List (RequestKey × List Entry) → List (RequestKey × List Entry)
put_back k [] m = without k m
put_back k (e ∷ es) m = put k (e ∷ es) m

-- `release`.
unfoldable pub release : RequestKey → ℕ → InFlightRequests → InFlightRequests
release k serial s = elim (lookup k s.entries) [
  | none ↦ s
  | some live ↦ record s { entries = put_back k (retain (is_other serial) live) s.entries }
]

-- The `Drop` of an `InFlightGuard`.
unfoldable pub drop_guard : InFlightGuard → InFlightRequests → InFlightRequests
drop_guard g s = elim g.key [ none ↦ s | some k ↦ release k g.serial s ]

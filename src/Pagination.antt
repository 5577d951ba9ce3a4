-- ===== src/Pagination.antt =====
-- mcp/pagination.rs. A key is the text by which the items are ordered, given by its bytes. The
-- base64 crate is a parameter.
pub mod Sorting
pub mod Pages
use dravr_tronc.Common.{
  ℕ, zero, suc, Bool, true, false, Option, none, some, String, List, [], ◌∷◌, ltb, if◌then◌else◌,
  ◌≡◌, Result, ok, err, arith,
}
use dravr_tronc.Common.Lists.{length, take, drop}
use dravr_tronc.Common.Bytes.{Bytes, text_le, is_utf8}
use dravr_tronc.Json
use dravr_tronc.Json.{Value}

pub data InvalidCursor : Type 0 where
  invalid_cursor : InvalidCursor

-- `params.cursor`: absent and null are the first page.
pub cursor_param : Option Value → Result (Option String) InvalidCursor
cursor_param none = ok none
cursor_param (some params) = elim (Json.get "cursor" params) [
  | none ↦ ok none
  | some Json.null ↦ ok none
  | some (Json.string cursor) ↦ ok (some cursor)
  | some _ ↦ err invalid_cursor
]

-- `URL_SAFE_NO_PAD` of the base64 crate: what it encodes, it decodes.
pub record Base64 : Type 0 where
  pub encode : Bytes → String
  pub decode : String → Option Bytes
  pub decode-encode : (b : Bytes) → decode (encode b) ≡ some b

pub record Page {ℓ} (T : Type ℓ) : Type ℓ where
  pub items : List T
  pub next_cursor : Option String

-- `String::from_utf8` of the decoded bytes.
unfoldable pub decode_cursor : Base64 → String → Result Bytes InvalidCursor
decode_cursor codec cursor = elim (codec.decode cursor) [
  | none ↦ err invalid_cursor
  | some bytes ↦ if is_utf8 bytes then ok bytes else err invalid_cursor
]

-- `Vec::last`.
unfoldable pub last {ℓ} : {T : Type ℓ} → List T → Option T
last [] = none
last (x ∷ []) = some x
last (x ∷ y ∷ ys) = last (y ∷ ys)

module _ {ℓ} {T : Type ℓ} (key : T → Bytes) where
  -- The stable sort of `sort_by`, as an insertion sort.
  unfoldable pub insert_sorted : T → List T → List T
  insert_sorted x [] = x ∷ []
  insert_sorted x (y ∷ ys) =
      let later = insert_sorted x ys in if text_le (key x) (key y) then x ∷ y ∷ ys else y ∷ later

  unfoldable pub sort : List T → List T
  sort [] = []
  sort (x ∷ xs) = insert_sorted x (sort xs)

  -- `skip(partition_point(|item| key(item) <= after))`, on a list that is sorted by key.
  unfoldable pub skip_served : Bytes → List T → List T
  skip_served after [] = []
  skip_served after (x ∷ xs) =
      let rest = skip_served after xs in if text_le (key x) after then rest else x ∷ xs

  unfoldable pub cursor_of : Base64 → Option T → Option String
  cursor_of codec none = none
  cursor_of codec (some x) = some (codec.encode (key x))

  unfoldable pub cut : Base64 → Option ℕ → List T → Page T
  cut codec none rest = record { items = rest; next_cursor = none }
  cut codec (some size) rest =
      if ltb size (length rest)
      then record { items = take size rest; next_cursor = cursor_of codec (last (take size rest)) }
      else record { items = rest; next_cursor = none }

  unfoldable pub paginate :
      Base64 → List T → Option String → Option ℕ → Result (Page T) (InvalidCursor)
  paginate codec items none page_size = ok (cut codec page_size (sort items))
  paginate codec items (some cursor) page_size = elim (decode_cursor codec cursor) [
    | ok after ↦ ok (cut codec page_size (skip_served after (sort items)))
    | err e ↦ err e
  ]

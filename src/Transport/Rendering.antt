-- ===== src/Transport/Rendering.antt =====
-- mcp/transport/http.rs: the shape of an answer, by what the client accepts. A quality is an `f32`,
-- whose reading and order are arguments.
use dravr_tronc.Common.{
  ℕ, Bool, false, not, ◌&&◌, ◌||◌, Option, none, some, List, [], ◌∷◌, ◌++◌, ◌==◌, nat_eq, list_eq,
  string_eq, ltb, if◌then◌else◌,
}
use dravr_tronc.Common.Assoc.{lookup}
use dravr_tronc.Guard.Text.{Text, split, split_once, eq_ignore_ascii_case}
use dravr_tronc.Auth.{trim, is_empty}
use dravr_tronc.Http.{HeaderMap, visible}
use dravr_tronc.Transport.Hosts.{get_all}

abbrev pub application_json : Text
application_json =
    b'a' ∷ b'p' ∷ b'p' ∷ b'l' ∷ b'i' ∷ b'c' ∷ b'a' ∷ b't' ∷ b'i' ∷ b'o' ∷ b'n' ∷ b'/' ∷ b'j' ∷ b's'
    ∷ b'o' ∷ b'n' ∷ []

abbrev pub text_event_stream : Text
text_event_stream =
    b't' ∷ b'e' ∷ b'x' ∷ b't' ∷ b'/' ∷ b'e' ∷ b'v' ∷ b'e' ∷ b'n' ∷ b't' ∷ b'-' ∷ b's' ∷ b't' ∷ b'r'
    ∷ b'e' ∷ b'a' ∷ b'm' ∷ []

abbrev pub star : Text
star = b'*' ∷ []

abbrev pub anything : Text
anything = b'*' ∷ b'/' ∷ b'*' ∷ []

abbrev pub quality_name : Text
quality_name = b'q' ∷ []

-- The first piece of a split, which always has one, and the rest.
abbrev pub first_piece : List Text → Text
first_piece [] = []
first_piece (p ∷ ps) = p

abbrev pub pieces_after : List Text → List Text
pieces_after [] = []
pieces_after (p ∷ ps) = ps

unfoldable pub is_json_content_type : HeaderMap → Bool
is_json_content_type headers = elim (lookup "content-type" headers) [
  | none ↦ false
  | some value ↦ elim (visible value) [
    | none ↦ false
    | some text ↦ eq_ignore_ascii_case (trim (first_piece (split b';' text))) application_json
  ]
]

unfoldable pub specificity : Text → ℕ
specificity media = elim (split_once b'/' media) [
  | none ↦ 2
  | some (kind, subtype) ↦ if not (subtype == star) then 2 else if kind == star then 0 else 1
]

abbrev pub covers_kind : Option (Text × Text) → Option (Text × Text) → Bool
covers_kind (some (range_type, subtype)) (some (wanted_type, wanted)) =
    (subtype == star) && eq_ignore_ascii_case range_type wanted_type
covers_kind _ _ = false

-- `MediaRange::covers`.
unfoldable pub covers : Text → Text → Bool
covers range media =
    (range == anything)
    || eq_ignore_ascii_case range media
    || covers_kind (split_once b'/' range) (split_once b'/' media)

abbrev pub texts_of : List Text → List Text
texts_of [] = []
texts_of (v ∷ vs) = let rest = texts_of vs in elim (visible v) [ none ↦ rest | some t ↦ t ∷ rest ]

abbrev pub all_pieces : List Text → List Text
all_pieces [] = []
all_pieces (t ∷ ts) = split b',' t ++ all_pieces ts

pub record Quality : Type 1 where
  pub Q : Type 0
  pub parse : Text → Option Q
  pub one : Q
  pub zero : Q
  pub max : Q → Q → Q
  pub is_greater : Q → Q → Bool

pub record Rendering : Type 0 where
  pub single_as_event : Bool
  pub may_stream : Bool

module _ (f32 : Quality) where
  pub record MediaRange : Type 0 where
    pub media : Text
    pub quality : f32.Q

  abbrev pub or_one : Option f32.Q → f32.Q
  or_one none = f32.one
  or_one (some q) = q

  -- The value of the first parameter that is named `q`.
  unfoldable pub quality_param : List Text → Option Text
  quality_param [] = none
  quality_param (p ∷ ps) =
      let rest = quality_param ps in
      elim (split_once b'=' (trim p)) [
        | none ↦ rest
        | some (name, value) ↦
            if eq_ignore_ascii_case (trim name) quality_name then some value else rest
      ]

  abbrev pub quality_of : List Text → f32.Q
  quality_of params = elim (quality_param params) [
    | none ↦ f32.one
    | some value ↦ or_one (f32.parse (trim value))
  ]

  abbrev pub range_of : Text → MediaRange
  range_of piece = record {
    media = trim (first_piece (split b';' piece));
    quality = quality_of (pieces_after (split b';' piece));
  }

  unfoldable pub ranges_of : List Text → List MediaRange
  ranges_of [] = []
  ranges_of (piece ∷ pieces) =
      let rest = ranges_of pieces in
      let range = range_of piece in if is_empty range.media then rest else range ∷ rest

  unfoldable pub accept_ranges : HeaderMap → List MediaRange
  accept_ranges headers = elim (get_all "accept" headers) [
    | [] ↦ record { media = anything; quality = f32.one } ∷ []
    | v ∷ vs ↦ ranges_of (all_pieces (texts_of (v ∷ vs)))
  ]

  abbrev pub Best : Type 0
  Best = Option (ℕ × f32.Q)

  -- A range that is more specific counts for more, and of two as specific the greater quality.
  abbrev pub better : Best → MediaRange → Best
  better none range = some (specificity range.media, range.quality)
  better (some (held, q)) range =
      let found = specificity range.media in
      if ltb found held
      then some (held, q)
      else if found == held
      then some (held, f32.max q range.quality)
      else some (found, range.quality)

  unfoldable pub best_of : Text → Best → List MediaRange → Best
  best_of media best [] = best
  best_of media best (range ∷ ranges) =
      best_of media (if covers range.media media then better best range else best) ranges

  unfoldable pub accept_weight : List MediaRange → Text → f32.Q
  accept_weight ranges media = elim (best_of media none ranges) [
    | none ↦ f32.zero
    | some (found, quality) ↦ quality
  ]

  -- `Rendering::negotiate`.
  unfoldable pub negotiate : HeaderMap → Option Rendering
  negotiate headers =
      let ranges = accept_ranges headers in
      let json = accept_weight ranges application_json in
      let event_stream = accept_weight ranges text_event_stream in
      if f32.is_greater json f32.zero || f32.is_greater event_stream f32.zero
      then some (record {
        single_as_event = f32.is_greater event_stream json;
        may_stream = f32.is_greater event_stream f32.zero;
      })
      else none

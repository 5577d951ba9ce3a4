-- ===== src/Pagination/Pages.antt =====
-- mcp/pagination.rs: a client that follows the cursors, and a page after a cursor.
use mathlib.Core.Option
use dravr_tronc.Common.{
  ℕ, zero, suc, ◌≤◌, ◌<◌, ◌≡◌, refl, ap, sym, ◌∙◌, inl, inr, true, false, not, Option, none, some,
  String, List, [], ◌∷◌, ◌++◌, arith, Bool-cases, Result-cases, ltb, Result, ok, err,
}
use mathlib.Core.List.{append_assoc}
use mathlib.Core.Path.{subst}
use dravr_tronc.Common.Lists.{
  length, take, drop, All, retain, take-append-drop, length-take, length-drop,
}
use dravr_tronc.Common.Bytes.{Bytes, text_le, text_le_trans, is_utf8}
use dravr_tronc.Pagination.{
  Base64, Page, InvalidCursor, sort, skip_served, last, cursor_of, cut, decode_cursor, paginate,
}
use dravr_tronc.Pagination.Sorting.{
  IsSorted, Distinct, sort-IsSorted, sort-Distinct, sort-All, All-middle, skip_served-split,
}

-- A page that is cut short ends in the item that its cursor names.
record Split {ℓ} {T : Type ℓ} (size : ℕ) (rest : List T) : Type ℓ where
  front : List T
  named : T
  page : take size rest ≡ front ++ named ∷ []
  ends : last (take size rest) ≡ some named
  whole : rest ≡ front ++ named ∷ drop size rest

split {ℓ} :
    {T : Type ℓ} (size : ℕ) (rest : List T) → 0 < size → size < length rest → Split size rest
unfolding last
split zero rest p h = absurd (omega arith)
split (suc n) [] p h = absurd (omega arith)
split (suc zero) (x ∷ xs) p h = record {
  front = [];
  named = x;
  page = refl;
  ends = refl;
  whole = refl;
}
split (suc (suc n)) (x ∷ []) p h = absurd (omega arith)
split (suc (suc n)) (x ∷ y ∷ xs) p h =
    let s = split (suc n) (y ∷ xs) (omega arith) (omega arith) in
    record {
      front = x ∷ s.front;
      named = s.named;
      page = ap (◌∷◌ x) s.page;
      ends = s.ends;
      whole = ap (◌∷◌ x) s.whole;
    }

module _ {ℓ} {T : Type ℓ} (key : T → Bytes) (codec : Base64) (items : List T) where
  abbrev pub onwards :
      (Option String → Option (List T)) → Result (Page T) InvalidCursor → Option (List T)
  onwards more (err e) = none
  onwards more (ok page) = elim page.next_cursor [
    | none ↦ some page.items
    | some cursor ↦ Option.map (λ rest. page.items ++ rest) (more (some cursor))
  ]

  -- A client: asks for a page, and for the page after it as long as there is a cursor.
  pub follow : ℕ → ℕ → Option String → Option (List T)
  follow zero size cursor = none
  follow (suc fuel) size cursor =
      onwards (follow fuel size) (paginate key codec items cursor (some size))

  decode_cursor-encode :
      (k : Bytes) → is_utf8 k ≡ true → decode_cursor codec (codec.encode k) ≡ ok k
  unfolding decode_cursor
  decode_cursor-encode k u = rw (codec.decode-encode k, decode_cursor, u)

  paginate-encode :
      (k : Bytes) (size : Option ℕ)
      → is_utf8 k ≡ true
      → paginate key codec items (some (codec.encode k)) size
        ≡ ok (cut key codec size (skip_served key k (sort key items)))
  unfolding paginate
  paginate-encode k size u = rw (decode_cursor-encode k u, paginate)

  follow_rest :
      (size : ℕ)
      → 0 < size
      → All (λ x. is_utf8 (key x) ≡ true) items
      → Distinct key items
      → (fuel : ℕ) (cursor : Option String) (before rest : List T) → sort key items ≡ before ++ rest
      → paginate key codec items cursor (some size) ≡ ok (cut key codec (some size) rest)
      → length rest < fuel
      → follow fuel size cursor ≡ some rest
  unfolding follow cut cursor_of
  follow_rest size p u d zero cursor before rest e q h = absurd (omega arith)
  follow_rest size p u d (suc fuel) cursor before rest e q h =
      elim (Bool-cases (ltb size (length rest))) [
        | inr short ↦ rw (q, cut, short) refl
        | inl long ↦
            let longer : size < length rest = ground arith in
            let s = split size rest p longer in
            let after = drop size rest in
            let whole : sort key items ≡ (before ++ s.front) ++ s.named ∷ after =
              e ∙ ap (◌++◌ before) s.whole ∙ sym (append_assoc before s.front (s.named ∷ after)) in
            let sorted = subst (IsSorted key) whole (sort-IsSorted key items) in
            let apart = subst (Distinct key) whole (sort-Distinct key items d) in
            let served =
              ap (skip_served key (key s.named)) whole
              ∙ skip_served-split key (before ++ s.front) s.named after sorted apart in
            let valid =
              All-middle key (λ x. is_utf8 (key x) ≡ true) (before ++ s.front) s.named after
                (subst (All (λ x. is_utf8 (key x) ≡ true)) whole (sort-All key _ items u)) in
            let next =
              paginate-encode (key s.named) (some size) valid
              ∙ ap (λ (l : List T). ok (cut key codec (some size) l)) served in
            let ih =
              follow_rest size p u d fuel (some (codec.encode (key s.named)))
                ((before ++ s.front) ++ s.named ∷ []) after
                (whole ∙ sym (append_assoc (before ++ s.front) (s.named ∷ []) after)) next
                (omega (arith, length-drop size rest)) in
            rw (q, cut, long, s.ends, cursor_of, ih) (ap some (take-append-drop size rest))
      ]

  -- A client that follows the cursors from the first page to the last receives every item, in key
  -- order and each once, when the keys are distinct texts and the page size is not zero.
  pub follow_pages :
      (size : ℕ)
      → 0 < size
      → All (λ x. is_utf8 (key x) ≡ true) items
      → Distinct key items
      → follow (suc (length (sort key items))) size none ≡ some (sort key items)
  unfolding paginate
  follow_pages size p u d =
      follow_rest size p u d (suc (length (sort key items))) none [] (sort key items) refl refl
        (omega arith)

  skip_served-retain :
      (k : Bytes) (xs : List T)
      → IsSorted key xs
      → skip_served key k xs ≡ retain (λ x. not (text_le (key x) k)) xs
  unfolding skip_served
  skip_served-retain k [] s = refl
  skip_served-retain k (x ∷ xs) s = elim (Bool-cases (text_le (key x) k)) [
    | inl served ↦ rw (served, skip_served) (skip_served-retain k xs s.1)
    | inr left ↦ rw (left, skip_served) (ap (◌∷◌ x) (sym (retain-above k x xs left s.0)))
  ]
    where
      retain-above :
          (k : Bytes) (x : T) (xs : List T)
          → text_le (key x) k ≡ false
          → All (λ y. text_le (key x) (key y) ≡ true) xs
          → retain (λ y. not (text_le (key y) k)) xs ≡ xs
      retain-above k x [] h a = refl
      retain-above k x (y ∷ ys) h a =
          ground (arith, text_le_trans (key x) (key y) k a.0, retain-above k x ys h a.1)

  -- A cursor that names a text serves the items above that text, in key order: whatever the list
  -- holds by then, and whether or not an item of that key is still there.
  pub paginate_after :
      (k : Bytes) (size : Option ℕ)
      → is_utf8 k ≡ true
      → paginate key codec items (some (codec.encode k)) size
        ≡ ok (cut key codec size (retain (λ x. not (text_le (key x) k)) (sort key items)))
  paginate_after k size u =
      paginate-encode k size u
      ∙ ap (λ (l : List T). ok (cut key codec size l))
          (skip_served-retain k (sort key items) (sort-IsSorted key items))

  length-cut_le :
      (size : ℕ) (rest : List T)
      → let page = cut key codec (some size) rest in
        (length page.items ≤ size) × (length page.items < size → page.next_cursor ≡ none)
  unfolding cut
  length-cut_le size rest = ground (arith, length-take size rest)

  -- No page is longer than the page size, and one that is shorter is the last.
  pub length-paginate_le :
      (cursor : Option String) (size : ℕ) {page : Page T}
      → paginate key codec items cursor (some size) ≡ ok page
      → (length page.items ≤ size) × (length page.items < size → page.next_cursor ≡ none)
  unfolding paginate
  length-paginate_le none size e = ground (arith, e, length-cut_le size (sort key items))
  length-paginate_le (some c) size e = elim (Result-cases (decode_cursor codec c)) [
    | inl (after, d) ↦
        ground (
          arith,
          rw (d, paginate) at e,
          length-cut_le size (skip_served key after (sort key items)),
        )
    | inr (x, d) ↦ ground (arith, rw (d, paginate) at e)
  ]

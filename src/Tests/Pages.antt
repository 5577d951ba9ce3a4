-- ===== src/Tests/Pages.antt =====
-- mcp/pagination.rs on concrete inputs.
use dravr_tronc.Common.{◌≡◌, refl, not, Option, String, none, some, List, [], ◌∷◌, arith, ok}
use dravr_tronc.Common.Lists.{retain}
use dravr_tronc.Common.Bytes.{Bytes, text_le, is_utf8}
use dravr_tronc.Pagination.{
  sort, insert_sorted, cut, paginate, skip_served, decode_cursor, cursor_of, last,
}
use dravr_tronc.Pagination.Sorting.{Distinct}
use dravr_tronc.Pagination.Pages.{follow, follow_pages, paginate_after}
use dravr_tronc.Tests.Codec.{codec, unary, walk, ones}

-- The names "c", "a" and "b".
abbrev names : List Bytes
names = (99 ∷ []) ∷ (97 ∷ []) ∷ (98 ∷ []) ∷ []

all_ops : Unit {0}
unfolding sort insert_sorted cut paginate skip_served decode_cursor cursor_of last text_le is_utf8
    unary walk ones
all_ops = tt

names-Distinct : Distinct (λ k. k) names
names-Distinct = (
  ((λ e. ground (arith, e)), ((λ e. ground (arith, e)), tt)),
  (((λ e. ground (arith, e)), tt), (tt, tt)),
)

follow_pages_example : follow (λ k. k) codec names 4 2 none ≡ some (sort (λ k. k) names)
unfolding all_ops
follow_pages_example =
    follow_pages (λ k. k) codec names 2 (omega arith) (refl, (refl, (refl, tt))) names-Distinct

paginate_after_example :
    paginate (λ k. k) codec names (some (codec.encode (97 ∷ []))) (some 1)
    ≡ ok (
        cut (λ k. k) codec (some 1) (retain (λ x. not (text_le x (97 ∷ []))) (sort (λ k. k) names)))
unfolding is_utf8
paginate_after_example = paginate_after (λ k. k) codec names (97 ∷ []) (some 1) refl

abbrev last_page : Option String
last_page = none

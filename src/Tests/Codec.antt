-- ===== src/Tests/Codec.antt =====
-- Concrete codecs for the tests: a byte is written in unary.
use Prim.Native.Char.{code}
use dravr_tronc.Common.{
  nat_beq, ◌+◌, arith, if◌then◌else◌, ℕ, zero, suc, ◌≡◌, refl, ap, Option, none, some, String, [],
  ◌∷◌, ◌∙◌,
}
use mathlib.Core.Option
use dravr_tronc.Common.Bytes.{Bytes}
use dravr_tronc.Pagination.{Base64}
use dravr_tronc.Tasks.{Chrono}

unfoldable pub ones : ℕ → String → String
ones zero s = String.◌∷◌ "b" s
ones (suc n) s = String.◌∷◌ "a" (ones n s)

unfoldable pub unary : Bytes → String
unfolding ones
unary [] = String.[]
unary (n ∷ bs) = ones n (unary bs)

unfoldable pub walk : ℕ → String → Option Bytes
walk n String.[] = some []
walk n (String.◌∷◌ c s) =
    let more = walk (suc n) s in
    let rest = walk 0 s in if nat_beq (code c) 97 then more else Option.map (◌∷◌ n) rest

walk-ones : (k n : ℕ) (s : String) → walk k (ones n s) ≡ Option.map (◌∷◌ (n + k)) (walk 0 s)
unfolding walk ones
walk-ones k zero s = ap (λ (m : ℕ). Option.map (◌∷◌ m) (walk 0 s)) (omega arith)
walk-ones k (suc n) s =
    walk-ones (suc k) n s ∙ ap (λ (m : ℕ). Option.map (◌∷◌ m) (walk 0 s)) (omega arith)

pub walk-unary : (b : Bytes) → walk 0 (unary b) ≡ some b
unfolding walk unary
walk-unary [] = refl
walk-unary (n ∷ bs) =
    walk-ones 0 n (unary bs) ∙ rw (walk-unary bs) (ap (λ (m : ℕ). some (m ∷ bs)) (omega arith))

abbrev pub codec : Base64
codec = record { encode = unary; decode = walk 0; decode-encode = walk-unary }

unfoldable pub first : Option Bytes → Option ℕ
first (some (t ∷ bs)) = some t
first _ = none

pub first-unary : (t : ℕ) → first (walk 0 (unary (t ∷ []))) ≡ some t
unfolding first
first-unary t = rw (walk-unary (t ∷ [])) refl

abbrev pub chrono : Chrono
chrono = record {
  parse = λ s. first (walk 0 s);
  format = λ t. unary (t ∷ []);
  parse-format = first-unary;
}

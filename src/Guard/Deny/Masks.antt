-- ===== src/Guard/Deny/Masks.antt =====
-- http_client/guard/deny.rs: what the masks test, in plain arithmetic.
use native.Mathlib.Nat.{
  div-div-eq-div-mul, pow-succ', le-div_iff_mul-le, div-lt_iff_lt-mul, mul-div_left,
}
use dravr_tronc.Common.{
  ℕ, zero, suc, ◌+◌, ◌-◌, ◌*◌, ◌/◌, ◌%◌, ◌^◌, ◌≤◌, ◌<◌, ◌≡◌, ◌↔◌, sym, ap, ◌∙◌, Bool, true, nat_eq,
  ◌==◌, leb, ◌&&◌, arith,
}
use dravr_tronc.Guard.Deny.{bit_and, mask, is_in}

-- `n` ones, then `k` zeros.
unfoldable pub high : ℕ → ℕ → ℕ
high zero zero = 0
high (suc n) zero = 1 + 2 * high n zero
high n (suc k) = 2 * high n k

-- The number of those digits.
unfoldable pub width : ℕ → ℕ → ℕ
width n zero = n
width n (suc k) = suc (width n k)

bit_and-odd : (w a h : ℕ) → bit_and (suc w) a (1 + 2 * h) ≡ a % 2 + 2 * bit_and w (a / 2) h
unfolding bit_and
bit_and-odd w a h =
    let half : (1 + 2 * h) / 2 ≡ h = omega arith in
    let one : (1 + 2 * h) % 2 ≡ 1 = omega arith in rw (half, one) (omega arith)

bit_and-even : (w a h : ℕ) → bit_and (suc w) a (2 * h) ≡ 2 * bit_and w (a / 2) h
unfolding bit_and
bit_and-even w a h =
    let half : (2 * h) / 2 ≡ h = omega arith in
    let none : (2 * h) % 2 ≡ 0 = omega arith in rw (half, none) (omega arith)

bit_and-ones :
    (n a b : ℕ) → a < 2 ^ n → b < 2 ^ n → bit_and n a (high n 0) ≡ bit_and n b (high n 0) → a ≡ b
unfolding high
bit_and-ones zero a b p q e = omega arith
bit_and-ones (suc n) a b p q e =
    let both : a % 2 + 2 * bit_and n (a / 2) (high n 0) ≡ b % 2 + 2 * bit_and n (b / 2) (high n 0) =
      sym (bit_and-odd n a (high n 0)) ∙ e ∙ bit_and-odd n b (high n 0) in
    let half : a / 2 ≡ b / 2 =
      bit_and-ones n (a / 2) (b / 2) (omega (arith, pow-succ' 2 n)) (omega (arith, pow-succ' 2 n))
        (omega arith) in
    omega (arith, both, half)

half-pow : (k a : ℕ) → a / 2 ^ suc k ≡ (a / 2) / 2 ^ k
half-pow k a = ap (λ (p : ℕ). a / p) (pow-succ' 2 k) ∙ sym (div-div-eq-div-mul a 2 (2 ^ k))

bit_and-high :
    (n k a b : ℕ)
    → a < 2 ^ width n k
    → b < 2 ^ width n k
    → bit_and (width n k) a (high n k) ≡ bit_and (width n k) b (high n k)
    → a / 2 ^ k ≡ b / 2 ^ k
unfolding high width
bit_and-high n zero a b p q e = ap (λ (x : ℕ). x / 2 ^ 0) (bit_and-ones n a b p q e)
bit_and-high n (suc k) a b p q e =
    let both : 2 * bit_and (width n k) (a / 2) (high n k)
        ≡ 2 * bit_and (width n k) (b / 2) (high n k) =
      sym (bit_and-even (width n k) a (high n k)) ∙ e ∙ bit_and-even (width n k) b (high n k) in
    half-pow k a
    ∙ bit_and-high n k (a / 2) (b / 2) (omega (arith, pow-succ' 2 (width n k)))
        (omega (arith, pow-succ' 2 (width n k))) (omega arith)
    ∙ sym (half-pow k b)

high-bit_and-ones : (n a b : ℕ) → a ≡ b → bit_and n a (high n 0) ≡ bit_and n b (high n 0)
high-bit_and-ones n a b e = ap (λ (x : ℕ). bit_and n x (high n 0)) e

high-bit_and :
    (n k a b : ℕ)
    → a / 2 ^ k ≡ b / 2 ^ k
    → bit_and (width n k) a (high n k) ≡ bit_and (width n k) b (high n k)
unfolding high width
high-bit_and n zero a b e = high-bit_and-ones n a b (omega arith)
high-bit_and n (suc k) a b e =
    bit_and-even (width n k) a (high n k)
    ∙ ap (λ (x : ℕ). 2 * x)
        (high-bit_and n k (a / 2) (b / 2) (sym (half-pow k a) ∙ e ∙ half-pow k b))
    ∙ sym (bit_and-even (width n k) b (high n k))

unfoldable pub between : ℕ → ℕ × ℕ → Bool
between a (first, last) = leb first a && leb a last

-- The addresses that share their first `n` bits with the network that has these bits.
pub is_in-between :
    (n k c a : ℕ)
    → mask (width n k) n ≡ high n k
    → 0 < 2 ^ k
    → c * 2 ^ k < 2 ^ width n k
    → a < 2 ^ width n k
    → is_in (width n k) a (c * 2 ^ k, n) ≡ between a (c * 2 ^ k, c * 2 ^ k + (2 ^ k - 1))
unfolding is_in between
is_in-between n k c a m pos q p =
    let same : (a / 2 ^ k ≡ (c * 2 ^ k) / 2 ^ k)
        ↔ (bit_and (width n k) a (high n k) ≡ bit_and (width n k) (c * 2 ^ k) (high n k)) =
      (high-bit_and n k a (c * 2 ^ k), bit_and-high n k a (c * 2 ^ k) p q) in
    let bits : (a / 2 ^ k ≡ c) ↔ (
        (bit_and (width n k) a (high n k) == bit_and (width n k) (c * 2 ^ k) (high n k)) ≡ true) =
      ground (
        arith,
        same,
        mul-div_left c pos,
        nat_eq.same_iff (bit_and (width n k) a (high n k))
            (bit_and (width n k) (c * 2 ^ k) (high n k)),
      ) in
    let range : (a / 2 ^ k ≡ c) ↔ ((c * 2 ^ k ≤ a) × (a < (c + 1) * 2 ^ k)) =
      ground
        (arith, le-div_iff_mul-le {x = c} {y = a} pos, div-lt_iff_lt-mul {x = a} {y = c + 1} pos) in
    let next : (c + 1) * 2 ^ k ≡ c * 2 ^ k + 2 ^ k = omega arith in
    rw m (ground (arith, bits, range, next))

-- ===== src/Transport/Hosts/Ports.antt =====
-- mcp/transport/http.rs: which texts are ports.
use native.Mathlib.Nat.{pow-succ'}
use dravr_tronc.Common.{
  ℕ, ◌+◌, ◌*◌, ◌-◌, ◌^◌, ◌≤◌, ◌<◌, ◌≡◌, ◌≢◌, ◌↔◌, refl, true, [], ◌∷◌, arith, ap, sym, ◌∙◌,
}
use dravr_tronc.Common.Lists.{length, all, All}
use dravr_tronc.Guard.Text.{Text}
use dravr_tronc.Transport.Hosts.{is_digit, number_of, is_port}

-- The number that digits write, the first of them the highest.
unfoldable pub value : Text → ℕ
value [] = 0
value (c ∷ cs) = (c - b'0') * 10 ^ length cs + value cs

-- Digits, at least one, that write a number below 65536.
unfoldable pub IsPort : Text → Type 0
IsPort port = All (λ c. (b'0' ≤ c) × (c ≤ b'9')) port × (port ≢ []) × (value port < 65536)

shift : (n d p v : ℕ) → (n * 10 + d) * p + v ≡ n * (10 * p) + (d * p + v)
shift n d p v = omega arith

number_of-value : (n : ℕ) (port : Text) → number_of n port ≡ n * 10 ^ length port + value port
unfolding number_of value
number_of-value n [] = omega arith
number_of-value n (c ∷ cs) =
    number_of-value (n * 10 + (c - b'0')) cs
    ∙ shift n (c - b'0') (10 ^ length cs) (value cs)
    ∙ ap (λ (p : ℕ). n * p + ((c - b'0') * 10 ^ length cs + value cs))
        (sym (pow-succ' 10 (length cs)))

all_digits : (port : Text) → (all is_digit port ≡ true) ↔ All (λ c. (b'0' ≤ c) × (c ≤ b'9')) port
all_digits [] = (λ e. tt, λ d. refl)
all_digits (c ∷ cs) =
    let rest = all_digits cs in
    (
      λ e. ((ground (arith, e), ground (arith, e)), rest.0 (ground (arith, e))),
      λ ((low, high), d). ground (arith, low, high, rest.1 d),
    )

pub is_port_iff : (port : Text) → (is_port port ≡ true) ↔ IsPort port
unfolding is_port IsPort
is_port_iff [] = (λ e. absurd (ground (arith, e)), λ (d, n, v). absurd (n refl))
is_port_iff (c ∷ cs) =
    let digits = all_digits (c ∷ cs) in
    let same : number_of 0 (c ∷ cs) ≡ value (c ∷ cs) = number_of-value 0 (c ∷ cs) ∙ omega arith in
    (
      λ e. (digits.0 (ground (arith, e)), λ n. absurd (ground (arith, n)), ground (arith, e, same)),
      λ (d, n, v). ground (arith, digits.1 d, v, same),
    )

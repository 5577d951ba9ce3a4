-- ===== src/Guard/Deny/Ranges.antt =====
-- http_client/guard/deny.rs: the denied addresses as plain ranges.
use dravr_tronc.Common.{
  ℕ, ◌+◌, ◌-◌, ◌*◌, ◌%◌, ◌^◌, ◌<◌, ◌≡◌, refl, sym, ◌∙◌, Bool, true, List, [], ◌∷◌, nat_eq,
  if◌then◌else◌, arith, inl, inr, Bool-cases,
}
use dravr_tronc.Common.Lists.{any}
use dravr_tronc.Guard.Deny.{
  IpAddr, v4, v6, mask, Network, is_in, octets, groups, denied_v4, denied_v6, is_denied_v4,
  is_denied_v6, is_denied_ip, is_mapped,
}
use dravr_tronc.Guard.Deny.Masks.{high, width, between, is_in-between}

abbrev pub ranges_v4 : List (ℕ × ℕ)
ranges_v4 =
    (octets 0 0 0 0, octets 0 255 255 255)
    ∷ (octets 10 0 0 0, octets 10 255 255 255)
    ∷ (octets 172 16 0 0, octets 172 31 255 255)
    ∷ (octets 192 168 0 0, octets 192 168 255 255)
    ∷ (octets 100 64 0 0, octets 100 127 255 255)
    ∷ (octets 127 0 0 0, octets 127 255 255 255)
    ∷ (octets 169 254 0 0, octets 169 254 255 255)
    ∷ (octets 192 0 0 0, octets 192 0 0 255)
    ∷ (octets 198 18 0 0, octets 198 19 255 255)
    ∷ (octets 224 0 0 0, octets 239 255 255 255)
    ∷ (octets 240 0 0 0, octets 255 255 255 255)
    ∷ []

-- An IPv6 range, by the first three groups of its ends; all others are 0 in the one and ffff in the other.
abbrev span : ℕ → ℕ → ℕ × ℕ
span first last = (first, last + (2 ^ 80 - 1))

abbrev pub ranges_v6 : List (ℕ × ℕ)
ranges_v6 =
    (0, 2 ^ 32 - 1)
    ∷ (groups 0x64 0xff9b 0, groups 0x64 0xff9b 0 + (2 ^ 32 - 1))
    ∷ span (groups 0x64 0xff9b 1) (groups 0x64 0xff9b 1)
    ∷ span (groups 0x2001 0 0) (groups 0x2001 0 0xffff)
    ∷ span (groups 0x2002 0 0) (groups 0x2002 0xffff 0xffff)
    ∷ span (groups 0xfc00 0 0) (groups 0xfdff 0xffff 0xffff)
    ∷ span (groups 0xfe80 0 0) (groups 0xfebf 0xffff 0xffff)
    ∷ span (groups 0xfec0 0 0) (groups 0xfeff 0xffff 0xffff)
    ∷ span (groups 0xff00 0 0) (groups 0xffff 0xffff 0xffff)
    ∷ []

module _ (w ip : ℕ) where
  abbrev Reads : List Network → List (ℕ × ℕ) → Type 0
  Reads [] [] = Unit
  Reads (n ∷ ns) (r ∷ rs) = (is_in w ip n ≡ between ip r) × Reads ns rs
  Reads _ _ = ⊥

  any-Reads :
      (ns : List Network) (rs : List (ℕ × ℕ))
      → Reads ns rs
      → any (is_in w ip) ns ≡ any (between ip) rs
  any-Reads [] [] h = refl
  any-Reads (n ∷ ns) (r ∷ rs) h = rw (h.0, any-Reads ns rs h.1) refl
  any-Reads [] (r ∷ rs) h = absurd h
  any-Reads (n ∷ ns) [] h = absurd h

is_denied_v4-ranges : (ip : ℕ) → ip < 2 ^ 32 → is_denied_v4 ip ≡ any (between ip) ranges_v4
unfolding is_denied_v4 mask high width
is_denied_v4-ranges ip p = any-Reads 32 ip denied_v4 ranges_v4 (
  is_in-between 8 24 0 ip refl (omega arith) (omega arith) p,
  (
    is_in-between 8 24 10 ip refl (omega arith) (omega arith) p,
    (
      is_in-between 12 20 0xac1 ip refl (omega arith) (omega arith) p,
      (
        is_in-between 16 16 0xc0a8 ip refl (omega arith) (omega arith) p,
        (
          is_in-between 10 22 0x191 ip refl (omega arith) (omega arith) p,
          (
            is_in-between 8 24 127 ip refl (omega arith) (omega arith) p,
            (
              is_in-between 16 16 0xa9fe ip refl (omega arith) (omega arith) p,
              (
                is_in-between 24 8 0xc00000 ip refl (omega arith) (omega arith) p,
                (
                  is_in-between 15 17 0x6309 ip refl (omega arith) (omega arith) p,
                  (
                    is_in-between 4 28 14 ip refl (omega arith) (omega arith) p,
                    (is_in-between 4 28 15 ip refl (omega arith) (omega arith) p, tt),
                  ),
                ),
              ),
            ),
          ),
        ),
      ),
    ),
  ),
)

is_denied_v6-ranges : (ip : ℕ) → ip < 2 ^ 128 → is_denied_v6 ip ≡ any (between ip) ranges_v6
unfolding is_denied_v6 mask high width
is_denied_v6-ranges ip p = any-Reads 128 ip denied_v6 ranges_v6 (
  is_in-between 96 32 0 ip refl (omega arith) (omega arith) p,
  (
    is_in-between 96 32 0x64ff9b0000000000000000 ip refl (omega arith) (omega arith) p,
    (
      is_in-between 48 80 0x64ff9b0001 ip refl (omega arith) (omega arith) p,
      (
        is_in-between 32 96 0x20010000 ip refl (omega arith) (omega arith) p,
        (
          is_in-between 16 112 0x2002 ip refl (omega arith) (omega arith) p,
          (
            is_in-between 7 121 126 ip refl (omega arith) (omega arith) p,
            (
              is_in-between 10 118 0x3fa ip refl (omega arith) (omega arith) p,
              (
                is_in-between 10 118 0x3fb ip refl (omega arith) (omega arith) p,
                (is_in-between 8 120 255 ip refl (omega arith) (omega arith) p, tt),
              ),
            ),
          ),
        ),
      ),
    ),
  ),
)

abbrev pub IsAddress : IpAddr → Type 0
IsAddress (v4 ip) = ip < 2 ^ 32
IsAddress (v6 ip) = ip < 2 ^ 128

-- The ranges that a guarded fetch may not reach; the addresses from `::ffff:0.0.0.0` to
-- `::ffff:255.255.255.255` stand for IPv4 ones.
abbrev pub in_ranges : IpAddr → Bool
in_ranges (v4 ip) = any (between ip) ranges_v4
in_ranges (v6 ip) =
    if between ip (0xffff * 2 ^ 32, 0xffff * 2 ^ 32 + (2 ^ 32 - 1))
    then any (between (ip - 0xffff * 2 ^ 32)) ranges_v4
    else any (between ip) ranges_v6

is_mapped-between :
    (ip : ℕ) → is_mapped ip ≡ between ip (0xffff * 2 ^ 32, 0xffff * 2 ^ 32 + (2 ^ 32 - 1))
unfolding is_mapped between
is_mapped-between ip = ground arith

low_bits : (ip : ℕ) → is_mapped ip ≡ true → ip % 2 ^ 32 ≡ ip - 0xffff * 2 ^ 32
unfolding is_mapped
low_bits ip m = ground arith

-- An address is denied exactly when it lies in one of the ranges, an IPv4-mapped one by its IPv4
-- address.
pub is_denied_ip-ranges : (ip : IpAddr) → IsAddress ip → is_denied_ip ip ≡ in_ranges ip
unfolding is_denied_ip
is_denied_ip-ranges (v4 ip) p = is_denied_v4-ranges ip p
is_denied_ip-ranges (v6 ip) p = elim (Bool-cases (is_mapped ip)) [
  | inl mapped ↦
      rw (mapped, sym (is_mapped-between ip) ∙ mapped, sym (low_bits ip mapped))
        (is_denied_v4-ranges (ip % 2 ^ 32) (omega arith))
  | inr plain ↦ rw (plain, sym (is_mapped-between ip) ∙ plain) (is_denied_v6-ranges ip p)
]

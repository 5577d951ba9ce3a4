-- ===== src/Guard/Deny.antt =====
-- http_client/guard/deny.rs. An address is its number: 32 bits for IPv4, 128 for IPv6. The bitwise
-- `&` is written out bit by bit.
pub mod Masks
pub mod Ranges
use dravr_tronc.Common.{
  leb, ℕ, zero, suc, ◌+◌, ◌-◌, ◌*◌, ◌/◌, ◌%◌, ◌^◌, Bool, List, [], ◌∷◌, nat_eq, ◌==◌, if◌then◌else◌,
}
use dravr_tronc.Common.Lists.{any}

pub data IpAddr : Type 0 where
  v4 v6 : ℕ → IpAddr

-- `a & b` on words of `w` bits.
unfoldable pub bit_and : ℕ → ℕ → ℕ → ℕ
bit_and zero a b = 0
bit_and (suc w) a b = (a % 2) * (b % 2) + 2 * bit_and w (a / 2) (b / 2)

-- `MAX.checked_shl(w - prefix).unwrap_or(0)`.
unfoldable pub mask : ℕ → ℕ → ℕ
mask w prefix =
    let shift = w - prefix in if leb w shift then 0 else ((2 ^ w - 1) * 2 ^ shift) % 2 ^ w

abbrev pub Network : Type 0
Network = ℕ × ℕ

unfoldable pub is_in : ℕ → ℕ → Network → Bool
is_in w bits (network, prefix) = bit_and w bits (mask w prefix) == bit_and w network (mask w prefix)

-- `Ipv4Addr::new`.
abbrev pub octets : ℕ → ℕ → ℕ → ℕ → ℕ
octets a b c d = ((a * 256 + b) * 256 + c) * 256 + d

-- An IPv6 address of which only the first three groups are not zero.
abbrev pub groups : ℕ → ℕ → ℕ → ℕ
groups a b c = ((a * 65536 + b) * 65536 + c) * 2 ^ 80

abbrev pub denied_v4 : List Network
denied_v4 =
    (octets 0 0 0 0, 8)
    ∷ (octets 10 0 0 0, 8)
    ∷ (octets 172 16 0 0, 12)
    ∷ (octets 192 168 0 0, 16)
    ∷ (octets 100 64 0 0, 10)
    ∷ (octets 127 0 0 0, 8)
    ∷ (octets 169 254 0 0, 16)
    ∷ (octets 192 0 0 0, 24)
    ∷ (octets 198 18 0 0, 15)
    ∷ (octets 224 0 0 0, 4)
    ∷ (octets 240 0 0 0, 4)
    ∷ []

abbrev pub denied_v6 : List Network
denied_v6 =
    (groups 0 0 0, 96)
    ∷ (groups 0x64 0xff9b 0, 96)
    ∷ (groups 0x64 0xff9b 1, 48)
    ∷ (groups 0x2001 0 0, 32)
    ∷ (groups 0x2002 0 0, 16)
    ∷ (groups 0xfc00 0 0, 7)
    ∷ (groups 0xfe80 0 0, 10)
    ∷ (groups 0xfec0 0 0, 10)
    ∷ (groups 0xff00 0 0, 8)
    ∷ []

unfoldable pub is_denied_v4 : ℕ → Bool
is_denied_v4 ip = any (is_in 32 ip) denied_v4

unfoldable pub is_denied_v6 : ℕ → Bool
is_denied_v6 ip = any (is_in 128 ip) denied_v6

-- `Ipv6Addr::to_ipv4_mapped`, of the address `::ffff:a.b.c.d`.
unfoldable pub is_mapped : ℕ → Bool
is_mapped ip = ip / 2 ^ 32 == 0xffff

unfoldable pub is_denied_ip : IpAddr → Bool
is_denied_ip (v4 ip) = is_denied_v4 ip
is_denied_ip (v6 ip) = if is_mapped ip then is_denied_v4 (ip % 2 ^ 32) else is_denied_v6 ip

-- ===== src/Webhook/Addresses.antt =====
-- crates/mcpmem-webhook/src/lib.rs: the addresses that a delivery may reach.
use mcpmem.Prelude.{
  ℕ, ◌≡◌, refl, ◌/◌, ◌+◌, ◌*◌, Bool, true, ◌&&◌, ◌||◌, not, leb, ltb, ◌==◌, nat_eq, List, [], ◌∷◌,
  ℕ_discrete, ◌<◌, arith,
}
use mcpmem.Webhook.Records.{IpAddr, v4, v6}

-- The ranges of `std::net`: private, loopback, link local, broadcast, unspecified, multicast.
abbrev pub is_public : IpAddr → Bool
is_public (v4 a b c d) = not (
    (a == 10 || (a == 172 && leb 16 b && leb b 31) || (a == 192 && b == 168))
    || a == 127
    || (a == 169 && b == 254)
    || (a == 255 && b == 255 && c == 255 && d == 255)
    || (a == 0 && b == 0 && c == 0 && d == 0)
    || (leb 224 a && leb a 239)
    || a == 0
    || leb 224 a)
is_public (v6 a b c d e f g h) = not (
    (a == 0 && b == 0 && c == 0 && d == 0 && e == 0 && f == 0 && g == 0 && h == 1)
    || (a == 0 && b == 0 && c == 0 && d == 0 && e == 0 && f == 0 && g == 0 && h == 0)
    || a / 0x100 == 0xff
    || a / 0x200 == 0x7e
    || a / 0x40 == 0x3fa)

abbrev pub all_public : List IpAddr → Bool
all_public [] = true
all_public (ip ∷ more) = is_public ip && all_public more

-- ::ffff:a.b.c.d, the IPv4 address a.b.c.d written as one of IPv6.
abbrev pub mapped : ℕ → ℕ → ℕ → ℕ → IpAddr
mapped a b c d = v6 0 0 0 0 0 0xffff (a * 0x100 + b) (c * 0x100 + d)

-- The address check takes the IPv4-mapped form of every IPv4 address for public, whatever it says
-- of the IPv4 address itself.
pub is_public-mapped : (a b c d : ℕ) → is_public (mapped a b c d) ≡ true
unfolding ℕ_discrete
is_public-mapped a b c d = refl

-- The number of an IPv4 address.
abbrev pub number : ℕ → ℕ → ℕ → ℕ → ℕ
number a b c d = a * 0x1000000 + b * 0x10000 + c * 0x100 + d

-- The addresses from the one number up to the other, which is not included.
abbrev pub between : ℕ → ℕ → ℕ → Bool
between low high n = leb low n && ltb n high

-- 0.0.0.0/8, 10.0.0.0/8, 127.0.0.0/8, 169.254.0.0/16, 172.16.0.0/12, 192.168.0.0/16, 224.0.0.0/3
abbrev pub is_reserved : ℕ → Bool
is_reserved n =
    between 0 0x01000000 n
    || between 0x0a000000 0x0b000000 n
    || between 0x7f000000 0x80000000 n
    || between 0xa9fe0000 0xa9ff0000 n
    || between 0xac100000 0xac200000 n
    || between 0xc0a80000 0xc0a90000 n
    || leb 0xe0000000 n

module _ (a b c d : ℕ) (hb : b < 256) (hc : c < 256) (hd : d < 256) where
  octet_block :
      (first : ℕ)
      → between (first * 0x1000000) ((first + 1) * 0x1000000) (number a b c d) ≡ (a == first)
  octet_block first = ground arith

  pair_block :
      (first second : ℕ)
      → second < 255
      → between
          (first * 0x1000000 + second * 0x10000)
          (first * 0x1000000 + (second + 1) * 0x10000)
          (number a b c d)
        ≡ (a == first && b == second)
  pair_block first second h = ground arith

  block_172 : between 0xac100000 0xac200000 (number a b c d) ≡ (a == 172 && leb 16 b && leb b 31)
  block_172 = ground arith

  block_224 : leb 0xe0000000 (number a b c d) ≡ leb 224 a
  block_224 = ground arith

  -- Of the IPv4 addresses with octets below 256, the check refuses those of seven blocks and no others:
  -- 0.0.0.0/8, 10.0.0.0/8, 127.0.0.0/8, 169.254.0.0/16, 172.16.0.0/12, 192.168.0.0/16 and 224.0.0.0/3.
  pub is_public-v4 : is_public (v4 a b c d) ≡ not (is_reserved (number a b c d))
  is_public-v4 =
      rw
        (
          octet_block 0,
          octet_block 10,
          octet_block 127,
          pair_block 169 254 (omega arith),
          block_172,
          pair_block 192 168 (omega arith),
          block_224,
        )
        (ground arith)

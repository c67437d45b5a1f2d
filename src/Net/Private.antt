-- ===== src/Net/Private.antt =====
-- The masks of the private and the fake-IP ranges, as intervals of addresses.
use mirage_android.Prelude.{
  not, ℕ, ◌+◌, ◌-◌, ◌*◌, ◌/◌, ◌^◌, ◌≤◌, ◌<◌, ◌≡◌, refl, Bool, true, false, ◌&&◌, ◌||◌, List, [],
  ◌∷◌, arith, ◌==◌, bit_and, leb, any,
}
use native.Mathlib.Nat.{one-le-pow}
use mirage_android.Data.Words.{prefix_mask, bit_and-prefix_mask}
use mirage_android.Data.Numerals.{ipv4}
use mirage_android.Net.Address.{IpAddr, v4, is_fake_ip, is_private_ip, is_private_v4}

-- First and last address.
abbrev Interval : Type 0
Interval = ℕ × ℕ

abbrev within : ℕ → Interval → Bool
within u (lo, hi) = leb lo u && leb u hi

block_bounds : (size u : ℕ) → 0 < size → (u / size * size ≤ u) × (u < u / size * size + size)
block_bounds size u pos = (grind arith, grind arith)

block_start :
    (size u base : ℕ)
    → 0 < size
    → base * size ≤ u
    → u < base * size + size
    → u / size * size ≡ base * size
block_start size u base pos lo hi = grind arith

pub block_test :
    (size u base : ℕ)
    → 0 < size
    → (u / size * size == base * size) ≡ within u (base * size, base * size + (size - 1))
block_test size u base pos = ground (arith, block_bounds size u pos, block_start size u base pos)

-- A mask of `p` ones tests for an interval.
mask_interval :
    (p u base : ℕ)
    → p ≤ 32
    → u < 2 ^ 32
    → (bit_and u (prefix_mask p) == base * 2 ^ (32 - p))
      ≡ within u (base * 2 ^ (32 - p), base * 2 ^ (32 - p) + (2 ^ (32 - p) - 1))
mask_interval p u base h lt =
    rw (bit_and-prefix_mask p u h lt)
      (block_test (2 ^ (32 - p)) u base (one-le-pow (32 - p) 2 (omega arith)))

-- The documented ranges.
abbrev private_ranges : List Interval
private_ranges =
    (ipv4 10 0 0 0, ipv4 10 255 255 255)
    ∷ (ipv4 172 16 0 0, ipv4 172 31 255 255)
    ∷ (ipv4 192 168 0 0, ipv4 192 168 255 255)
    ∷ (ipv4 127 0 0 0, ipv4 127 255 255 255)
    ∷ (ipv4 169 254 0 0, ipv4 169 254 255 255)
    ∷ (ipv4 100 64 0 0, ipv4 100 127 255 255)
    ∷ (ipv4 224 0 0 0, ipv4 239 255 255 255)
    ∷ (ipv4 240 0 0 0, ipv4 255 255 255 255)
    ∷ (ipv4 0 0 0 0, ipv4 0 255 255 255)
    ∷ []

abbrev fake_range : Interval
fake_range = (ipv4 198 18 0 0, ipv4 198 19 255 255)

is_fake_ip-within : (u : ℕ) → u < 2 ^ 32 → is_fake_ip (v4 u) ≡ within u fake_range
unfolding is_fake_ip prefix_mask
is_fake_ip-within u lt = mask_interval 15 u 0x6309 (omega arith) lt

or_false : (b : Bool) → (b || false) ≡ b
or_false true = refl
or_false false = refl

is_private_v4-within : (u : ℕ) → u < 2 ^ 32 → is_private_v4 u ≡ any (within u) private_ranges
unfolding is_private_v4 prefix_mask any
is_private_v4-within u lt = rw (
  mask_interval 8 u 10 (omega arith) lt,
  mask_interval 12 u 0xAC1 (omega arith) lt,
  mask_interval 16 u 0xC0A8 (omega arith) lt,
  mask_interval 8 u 127 (omega arith) lt,
  mask_interval 16 u 0xA9FE (omega arith) lt,
  mask_interval 10 u 0x191 (omega arith) lt,
  mask_interval 4 u 14 (omega arith) lt,
  mask_interval 4 u 15 (omega arith) lt,
  mask_interval 8 u 0 (omega arith) lt,
  or_false (within u (0, ipv4 0 255 255 255)),
)

-- For a 32-bit address, the masks of `is_private_ip` test for exactly the documented ranges,
-- outside the fake-IP range.
pub is_private_ip-ranges :
    (u : ℕ)
    → u < 2 ^ 32
    → is_private_ip (v4 u) ≡ (not (within u fake_range) && any (within u) private_ranges)
unfolding is_private_ip
is_private_ip-ranges u lt = ground (arith, is_fake_ip-within u lt, is_private_v4-within u lt)

-- The two ranges are disjoint, so no address of the fake-IP range is ever private.
pub fake_not_private : (ip : IpAddr) → is_fake_ip ip ≡ true → is_private_ip ip ≡ false
unfolding is_private_ip
fake_not_private ip h = ground arith

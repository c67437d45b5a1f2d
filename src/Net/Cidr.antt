-- ===== src/Net/Cidr.antt =====
-- geo.rs: CIDR blocks of IPv4 and IPv6 addresses.
use mirage_android.Prelude.{
  ℕ, ◌-◌, ◌*◌, ◌/◌, ◌%◌, ◌^◌, ◌≤◌, ◌<◌, ◌≡◌, Bool, true, ◌↔◌, arith, if◌then◌else◌, ◌==◌, ==_iff,
  ap, bit_and,
}
use native.Mathlib.Nat.{one-le-pow}
use mirage_android.Data.Words.{prefix_mask, bit_and-prefix_mask}

pub record Ipv4Cidr : Type 0 where
  pub net : ℕ
  pub mask : ℕ
  pub prefix : ℕ

unfoldable pub new_v4 : ℕ → ℕ → Ipv4Cidr
new_v4 ip prefix = record {
  net = bit_and ip (prefix_mask prefix);
  mask = prefix_mask prefix;
  prefix = prefix;
}

unfoldable pub contains_v4 : Ipv4Cidr → ℕ → Bool
contains_v4 c ip = bit_and ip c.mask == c.net

pub record Ipv6Cidr : Type 0 where
  pub net : ℕ
  pub mask : ℕ
  pub prefix : ℕ

-- Past 128 the subtraction of bytes wraps and the shift takes its amount modulo 128.
unfoldable pub prefix_mask_v6 : ℕ → ℕ
prefix_mask_v6 prefix =
    if prefix == 0 then 0 else (2 ^ 128 - 1) * 2 ^ ((384 - prefix) % 256 % 128) % 2 ^ 128

unfoldable pub new_v6 : ℕ → ℕ → Ipv6Cidr
new_v6 ip prefix = record {
  net = bit_and ip (prefix_mask_v6 prefix);
  mask = prefix_mask_v6 prefix;
  prefix = prefix;
}

unfoldable pub contains_v6 : Ipv6Cidr → ℕ → Bool
contains_v6 c ip = bit_and ip c.mask == c.net

cancel_scale : (a b size : ℕ) → 0 < size → a * size ≡ b * size → a ≡ b
cancel_scale a b size pos e = grind arith

scaled_eq : (a b size : ℕ) → 0 < size → ((a * size == b * size) ≡ true) ↔ (a ≡ b)
scaled_eq a b size pos = (
  λ e. cancel_scale a b size pos ((==_iff _ _).0 e),
  λ e. (==_iff _ _).1 (ap (λ (t : ℕ). t * size) e),
)

-- For 32-bit addresses, a block of a prefix up to 32 holds the addresses that share its first
-- `prefix` bits.
pub contains_v4-new_v4 :
    (ip prefix u : ℕ)
    → prefix ≤ 32
    → ip < 2 ^ 32
    → u < 2 ^ 32
    → (contains_v4 (new_v4 ip prefix) u ≡ true) ↔ (u / 2 ^ (32 - prefix) ≡ ip / 2 ^ (32 - prefix))
unfolding contains_v4 new_v4
contains_v4-new_v4 ip prefix u h lt small =
    rw (bit_and-prefix_mask prefix u h small, bit_and-prefix_mask prefix ip h lt)
      (scaled_eq (u / 2 ^ (32 - prefix)) (ip / 2 ^ (32 - prefix)) (2 ^ (32 - prefix))
        (one-le-pow (32 - prefix) 2 (omega arith)))

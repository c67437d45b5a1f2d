-- ===== src/Data/Words.antt =====
-- Masks of 32-bit words as arithmetic, and big-endian bytes.
use Prim.Native.Nat.{min, digits, bitwise, bit_and-bitwise}
use native.Mathlib.Nat.{pow-suc, one-le-pow, mod-eq_of_lt}
use mirage_android.Prelude.{
  ℕ, zero, suc, ◌+◌, ◌-◌, ◌*◌, ◌/◌, ◌%◌, ◌^◌, ◌≤◌, ◌<◌, ◌≡◌, refl, sym, ap, ◌∙◌, inl, inr,
  Bool-cases, leb, leb→le, bit_and, arith, Bool, true, ◌&&◌, ◌==◌, ==_iff, if◌then◌else◌,
}

-- The native `&` and `|` recurse on digits with fuel; more fuel than needed changes nothing.
module _ (rest : ℕ → ℕ) (op : ℕ → ℕ → ℕ) where
  digits_more : (fuel a b : ℕ) → a ≤ fuel → digits rest op fuel a b ≡ digits rest op (suc fuel) a b
  digits_more zero zero b enough = refl
  digits_more zero (suc a) b enough = absurd (omega arith)
  digits_more (suc fuel) zero b enough = refl
  digits_more (suc fuel) (suc a) b enough =
      ap (λ (high : ℕ). high * 2 + op (suc a % 2) (b % 2))
        (digits_more fuel (suc a / 2) (b / 2) (omega arith))

  digits_enough : (fuel a b : ℕ) → a ≤ fuel → digits rest op fuel a b ≡ bitwise rest op a b
  digits_enough zero zero b enough = refl
  digits_enough zero (suc a) b enough = absurd (omega arith)
  digits_enough (suc fuel) a b enough = elim (Bool-cases (leb a fuel)) [
    | inl spare ↦
        sym (digits_more fuel a b (leb→le a fuel spare))
        ∙ digits_enough fuel a b (leb→le a fuel spare)
    | inr tight ↦
        let exact : a ≡ suc fuel = ground arith in ap (λ (n : ℕ). digits rest op n a b) (sym exact)
  ]

  pub lowest_digit :
      (a b : ℕ)
      → bitwise rest op (suc a) b ≡ bitwise rest op (suc a / 2) (b / 2) * 2 + op (suc a % 2) (b % 2)
  lowest_digit a b =
      ap (λ (high : ℕ). high * 2 + op (suc a % 2) (b % 2))
        (digits_enough a (suc a / 2) (b / 2) (omega arith))

bit_and_halves : (u v : ℕ) → bit_and u v ≡ bit_and (u / 2) (v / 2) * 2 + min (u % 2) (v % 2)
bit_and_halves zero v = simp bit_and-bitwise (omega arith)
bit_and_halves (suc u) v = simp bit_and-bitwise (lowest_digit (λ high. 0) min u v)

digits-min-zero : (fuel a : ℕ) → digits (λ high. 0) min fuel a 0 ≡ 0
digits-min-zero zero a = refl
digits-min-zero (suc fuel) zero = refl
digits-min-zero (suc fuel) (suc a) = omega (arith, digits-min-zero fuel (suc a / 2))

bit_and-zero : (a : ℕ) → bit_and a 0 ≡ 0
bit_and-zero a = simp bit_and-bitwise (digits-min-zero a a)

pub double : (q k : ℕ) → q * 2 ^ suc k ≡ 2 * (q * 2 ^ k)
double q k = omega (arith, ap (λ (t : ℕ). q * t) (pow-suc 2 k))

low_fields : (k q r : ℕ) → r < 2 ^ k → bit_and (q * 2 ^ k + r) (2 ^ k - 1) ≡ r
low_fields zero q r h = rw bit_and-zero (omega arith)
low_fields (suc k) q r h = ground (
  arith,
  bit_and_halves (q * 2 ^ suc k + r) (2 ^ suc k - 1),
  double q k,
  pow-suc 2 k,
  low_fields k q (r / 2) (omega arith),
)

high_fields : (k q r m : ℕ) → r < 2 ^ k → bit_and (q * 2 ^ k + r) (m * 2 ^ k) ≡ bit_and q m * 2 ^ k
high_fields zero q r m h = ground arith
high_fields (suc k) q r m h = ground (
  arith,
  bit_and_halves (q * 2 ^ suc k + r) (m * 2 ^ suc k),
  double q k,
  double m k,
  double (bit_and q m) k,
  pow-suc 2 k,
  high_fields k q (r / 2) m (omega arith),
)

-- `a & (2^k - 1)` is the remainder by `2^k`.
pub bit_and_low : (k a : ℕ) → bit_and a (2 ^ k - 1) ≡ a % 2 ^ k
bit_and_low k a = ground (arith, one-le-pow k 2, low_fields k (a / 2 ^ k) (a % 2 ^ k))

-- A mask shifted up by `k` keeps what stands above the low `k` bits.
pub bit_and_shifted : (k a m : ℕ) → bit_and a (m * 2 ^ k) ≡ bit_and (a / 2 ^ k) m * 2 ^ k
bit_and_shifted k a m = ground (arith, one-le-pow k 2, high_fields k (a / 2 ^ k) (a % 2 ^ k) m)

-- `!w` of a 32-bit word.
unfoldable pub not32 : ℕ → ℕ
not32 w = 2 ^ 32 - 1 - w

-- `if prefix == 0 { 0 } else { !0u32 << (32 - prefix) }` for an unsigned byte `prefix`: past 32 the
-- subtraction wraps and the shift takes its amount modulo 32, as without overflow checks.
unfoldable pub prefix_mask : ℕ → ℕ
prefix_mask prefix =
    if prefix == 0 then 0 else (2 ^ 32 - 1) * 2 ^ ((288 - prefix) % 256 % 32) % 2 ^ 32

-- The test holds of every number under the bound.
unfoldable pub every_below : (ℕ → Bool) → ℕ → Bool
every_below test zero = true
every_below test (suc top) = every_below test top && test top

pub every_below-test :
    (test : ℕ → Bool) (bound n : ℕ) → n < bound → every_below test bound ≡ true → test n ≡ true
unfolding every_below
every_below-test test zero n under checked = absurd (omega arith)
every_below-test test (suc top) n under checked = ground (arith, every_below-test test top n)

mask_table : every_below (λ p. prefix_mask p == (2 ^ p - 1) * 2 ^ (32 - p)) 33 ≡ true
unfolding every_below prefix_mask
mask_table = refl

power_table : every_below (λ p. 2 ^ p * 2 ^ (32 - p) == 2 ^ 32) 33 ≡ true
unfolding every_below
power_table = refl

host_table : every_below (λ p. not32 (prefix_mask p) == 2 ^ (32 - p) - 1) 33 ≡ true
unfolding every_below prefix_mask not32
host_table = refl

-- Up to 32 bits the mask is `p` ones above `32 - p` zeros.
pub prefix_mask_lem : (p : ℕ) → p ≤ 32 → prefix_mask p ≡ (2 ^ p - 1) * 2 ^ (32 - p)
prefix_mask_lem p h = (==_iff _ _).0 (every_below-test _ 33 p (omega arith) mask_table)

pub split_word : (p : ℕ) → p ≤ 32 → 2 ^ p * 2 ^ (32 - p) ≡ 2 ^ 32
split_word p h = (==_iff _ _).0 (every_below-test _ 33 p (omega arith) power_table)

pub not32-prefix_mask : (p : ℕ) → p ≤ 32 → not32 (prefix_mask p) ≡ 2 ^ (32 - p) - 1
not32-prefix_mask p h = (==_iff _ _).0 (every_below-test _ 33 p (omega arith) host_table)

high_lt : (p u : ℕ) → p ≤ 32 → u < 2 ^ 32 → u / 2 ^ (32 - p) < 2 ^ p
high_lt p u h lt = grind (arith, split_word p h, one-le-pow (32 - p) 2)

-- The network part of a word.
pub bit_and-prefix_mask :
    (p u : ℕ) → p ≤ 32 → u < 2 ^ 32 → bit_and u (prefix_mask p) ≡ u / 2 ^ (32 - p) * 2 ^ (32 - p)
bit_and-prefix_mask p u h lt =
    rw
      (
        prefix_mask_lem p h,
        bit_and_shifted (32 - p) u (2 ^ p - 1),
        bit_and_low p (u / 2 ^ (32 - p)),
      )
      (rw (mod-eq_of_lt (high_lt p u h lt)))

-- The host part.
pub bit_and-host_mask : (p u : ℕ) → p ≤ 32 → bit_and u (not32 (prefix_mask p)) ≡ u % 2 ^ (32 - p)
bit_and-host_mask p u h = rw (not32-prefix_mask p h) (bit_and_low (32 - p) u)

-- ===== src/Data/Masks.antt =====
-- The last address of a block: the union of a network and a host mask.
use Prim.Native.Nat.{max, digits, bit_or-bitwise}
use native.Mathlib.Nat.{pow-suc, one-le-pow}
use mirage_android.Prelude.{
  ◌≤◌, ℕ, zero, suc, ◌+◌, ◌-◌, ◌*◌, ◌/◌, ◌%◌, ◌^◌, ◌≡◌, refl, bit_or, arith,
}
use mirage_android.Data.Words.{lowest_digit, double}

bit_or_halves : (u v : ℕ) → bit_or u v ≡ bit_or (u / 2) (v / 2) * 2 + max (u % 2) (v % 2)
bit_or_halves zero v = simp bit_or-bitwise (ground arith)
bit_or_halves (suc u) v = simp bit_or-bitwise (lowest_digit (λ high. high) max u v)

digits-max-zero : (fuel a : ℕ) → a ≤ fuel → digits (λ high. high) max fuel a 0 ≡ a
digits-max-zero zero zero enough = refl
digits-max-zero zero (suc a) enough = absurd (omega arith)
digits-max-zero (suc fuel) zero enough = refl
digits-max-zero (suc fuel) (suc a) enough =
    ground (arith, digits-max-zero fuel (suc a / 2) (omega arith))

bit_or-zero : (a : ℕ) → bit_or a 0 ≡ a
bit_or-zero a = simp bit_or-bitwise (digits-max-zero a a (omega arith))

-- A multiple of `2^k` has no digit in common with what lies below `2^k`.
pub bit_or-block : (k q : ℕ) → bit_or (q * 2 ^ k) (2 ^ k - 1) ≡ q * 2 ^ k + (2 ^ k - 1)
bit_or-block zero q = rw bit_or-zero (omega arith)
bit_or-block (suc k) q = ground (
  arith,
  bit_or_halves (q * 2 ^ suc k) (2 ^ suc k - 1),
  double q k,
  pow-suc 2 k,
  one-le-pow k 2,
  bit_or-block k q,
)

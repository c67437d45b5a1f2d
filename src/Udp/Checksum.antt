-- ===== src/Udp/Checksum.antt =====
-- tun/udp.rs: the Internet checksum, which is zero over data that ends with its own checksum.
use mirage_android.Prelude.{
  ℕ, zero, suc, ◌+◌, ◌-◌, ◌*◌, ◌/◌, ◌%◌, ◌^◌, ◌≤◌, ◌<◌, ◌≡◌, refl, ap, ◌∙◌, [], ◌∷◌, ◌++◌, arith,
  if◌then◌else◌, Text, length, ◌==◌, All, Bool-cases, inl, inr,
}
use mirage_android.Dns.Wire.{be16}

-- The sum of the 16-bit words; a last odd byte counts as the upper half of one.
unfoldable pub sum_words : ℕ → Text → ℕ
sum_words sum [] = sum
sum_words sum (b ∷ []) = (sum + b * 256) % 2 ^ 32
sum_words sum (a ∷ b ∷ rest) = sum_words ((sum + (a * 256 + b)) % 2 ^ 32) rest

-- The `while sum >> 16 != 0` loop; two rounds are enough for 32 bits.
unfoldable pub fold_carry : ℕ → ℕ → ℕ
fold_carry zero sum = sum
fold_carry (suc fuel) sum =
    let more = fold_carry fuel (sum % 2 ^ 16 + sum / 2 ^ 16) in
    if sum / 2 ^ 16 == 0 then sum else more

unfoldable pub checksum : Text → ℕ
unfolding sum_words fold_carry
checksum bytes = 2 ^ 16 - 1 - fold_carry 2 (sum_words 0 bytes) % 2 ^ 16

word_sum : Text → ℕ
word_sum [] = 0
word_sum (b ∷ []) = b * 256
word_sum (a ∷ b ∷ rest) = a * 256 + b + word_sum rest

abbrev pub AreBytes : Text → Type 0
AreBytes s = All (λ b. b < 256) s

word_sum-bound : (s : Text) → AreBytes s → word_sum s ≤ 65536 * length s
unfolding word_sum
word_sum-bound [] h = omega arith
word_sum-bound (b ∷ []) h = omega (arith, h.0)
word_sum-bound (a ∷ b ∷ rest) (h, (h', hs)) = omega (arith, word_sum-bound rest hs)

sum_words-word_sum :
    (sum : ℕ) (s : Text) → sum + word_sum s < 2 ^ 32 → sum_words sum s ≡ sum + word_sum s
unfolding sum_words word_sum
sum_words-word_sum sum [] h = omega arith
sum_words-word_sum sum (b ∷ []) h = omega arith
sum_words-word_sum sum (a ∷ b ∷ rest) h =
    let small : (sum + (a * 256 + b)) % 2 ^ 32 ≡ sum + (a * 256 + b) = omega arith in
    rw small (sum_words-word_sum (sum + (a * 256 + b)) rest (omega arith) ∙ omega arith)

-- A number of 32 bits is folded to 16 bits, to the same remainder, and to zero only from zero.
abbrev IsFolded : ℕ → ℕ → Type 0
IsFolded n f = (k : ℕ) × (n ≡ f + 65535 * k) × (f ≤ 65535) × (0 < n → 0 < f)

fold_carry-IsFolded : (n : ℕ) → n < 2 ^ 32 → IsFolded n (fold_carry 2 n)
unfolding fold_carry
fold_carry-IsFolded n h =
    let m : ℕ = n % 2 ^ 16 + n / 2 ^ 16 in
    elim (Bool-cases (n / 2 ^ 16 == 0)) [
      | inl small ↦ rw small (0, omega arith, ground arith, λ h'. h')
      | inr big ↦ elim (Bool-cases (m / 2 ^ 16 == 0)) [
        | inl done ↦ rw (big, done) (n / 2 ^ 16, omega arith, ground arith, λ h'. ground arith)
        | inr more ↦
            rw (big, more) (n / 2 ^ 16 + m / 2 ^ 16, ground arith, ground arith, λ h'. ground arith)
      ]
    ]

word_sum-append : (a b : Text) → length a % 2 ≡ 0 → word_sum (a ++ b) ≡ word_sum a + word_sum b
unfolding word_sum
word_sum-append [] b h = omega arith
word_sum-append (x ∷ []) b h = absurd (omega (arith, h))
word_sum-append (x ∷ y ∷ a) b h = omega (arith, word_sum-append a b (omega arith))

fold_carry-settled : (rounds n : ℕ) → n < 2 ^ 16 → fold_carry rounds n ≡ n
unfolding fold_carry
fold_carry-settled zero n h = refl
fold_carry-settled (suc rounds) n h = ground arith

-- For a sum of 32 bits, two rounds of the loop that folds the carry are enough: any more give the
-- same result, which has 16 bits.
pub fold_carry_enough :
    (rounds n : ℕ)
    → n < 2 ^ 32
    → (fold_carry (suc (suc rounds)) n ≡ fold_carry 2 n) × (fold_carry 2 n < 2 ^ 16)
unfolding fold_carry
fold_carry_enough rounds n h =
    let m : ℕ = n % 2 ^ 16 + n / 2 ^ 16 in
    let last : (m % 2 ^ 16 + m / 2 ^ 16) < 2 ^ 16 = omega arith in
    let settled = fold_carry-settled rounds (m % 2 ^ 16 + m / 2 ^ 16) last in
    let folded = fold_carry-IsFolded n h in (rw settled refl, omega (arith, folded.2))

checksum_lem : (s : Text) → checksum s ≡ 2 ^ 16 - 1 - fold_carry 2 (sum_words 0 s) % 2 ^ 16
unfolding checksum
checksum_lem s = refl

checksum-word_sum :
    (s : Text) → word_sum s < 2 ^ 32 → checksum s ≡ 65535 - fold_carry 2 (word_sum s)
checksum-word_sum s h =
    let (k, same, le, positive) = fold_carry-IsFolded (word_sum s) h in
    let summed : sum_words 0 s ≡ word_sum s =
      sum_words-word_sum 0 s (omega (arith, h)) ∙ omega arith in
    checksum_lem s ∙ rw summed (omega (arith, le))

word_sum-field :
    (a b : Text) (c : ℕ)
    → length a % 2 ≡ 0
    → c < 2 ^ 16
    → word_sum (a ++ (be16 c ++ b)) ≡ word_sum a + word_sum b + c
unfolding word_sum
word_sum-field a b c even short = omega (arith, word_sum-append a (be16 c ++ b) even)

-- For fewer than 65534 bytes and among them, at an even place, a field of two more bytes: when the
-- field is filled with the checksum of the bytes in which it is zero, the checksum of the whole is
-- zero.
pub checksum_verifies :
    (a b : Text)
    → AreBytes a
    → AreBytes b
    → length a % 2 ≡ 0
    → length a + length b < 2 ^ 16 - 2
    → checksum (a ++ (be16 (checksum (a ++ (be16 0 ++ b))) ++ b)) ≡ 0
checksum_verifies a b bytes_a bytes_b even short =
    let n : ℕ = word_sum a + word_sum b in
    let low : n + 65535 < 2 ^ 32 =
      omega (arith, word_sum-bound a bytes_a, word_sum-bound b bytes_b) in
    let zeroed : word_sum (a ++ (be16 0 ++ b)) ≡ n =
      omega (arith, word_sum-field a b 0 even (omega arith)) in
    let computed : checksum (a ++ (be16 0 ++ b)) ≡ 65535 - fold_carry 2 n =
      checksum-word_sum (a ++ (be16 0 ++ b)) (omega arith)
      ∙ ap (λ m. 65535 - fold_carry 2 m) zeroed in
    let c : ℕ = 65535 - fold_carry 2 n in
    let filled : word_sum (a ++ (be16 c ++ b)) ≡ n + c = word_sum-field a b c even (omega arith) in
    let (k, same, le, positive) = fold_carry-IsFolded n (omega arith) in
    let zero_sum : fold_carry 2 n ≤ n = omega arith in
    let (k', same', le', positive') = fold_carry-IsFolded (n + c) (omega arith) in
    rw computed (checksum-word_sum (a ++ (be16 c ++ b)) (omega arith) ∙ rw filled (omega arith))

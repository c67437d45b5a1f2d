-- ===== src/Crypto/Padding.antt =====
-- crypto/aead.rs: the padding of a record is taken off again.
use mirage_android.Prelude.{
  ℕ, zero, suc, ◌+◌, ◌-◌, ◌≤◌, ◌<◌, ◌≡◌, refl, ap, ◌∙◌, [], ◌∷◌, ◌++◌, arith, Text, length, take,
  ltb, length-append, take-append, Bool-cases, inl, inr,
}
use mirage_android.Crypto.Writer.{zeros, inner_text}
use mirage_android.Crypto.Reader.{byte_at, strip_zeros, process_plaintext_mobile, by_type}

pub length-zeros : (n : ℕ) → length (zeros n) ≡ n
length-zeros zero = refl
length-zeros (suc n) = omega (arith, length-zeros n)

process_lem :
    (pt : Text) (e : ℕ)
    → strip_zeros pt (length pt) ≡ suc e
    → process_plaintext_mobile pt ≡ by_type (byte_at pt e) e
unfolding process_plaintext_mobile
process_lem [] e h = absurd (omega (arith, h))
process_lem (b ∷ bs) e h = rw h refl

-- A byte behind a front.
byte_at-append :
    (c rest : Text) (i : ℕ) → length c ≤ i → byte_at (c ++ rest) i ≡ byte_at rest (i - length c)
byte_at-append [] rest i h = ap (byte_at rest) (omega arith)
byte_at-append (b ∷ c) rest zero h = absurd (omega arith)
byte_at-append (b ∷ c) rest (suc i) h =
    byte_at-append c rest i (omega arith) ∙ ap (byte_at rest) (omega arith)

byte_at-zeros : (n i : ℕ) → byte_at (zeros n) i ≡ 0
byte_at-zeros zero i = refl
byte_at-zeros (suc n) zero = refl
byte_at-zeros (suc n) (suc i) = byte_at-zeros n i

module _ (c : Text) (kind n : ℕ) (typed : 0 < kind) where
  byte_at-inner : (i : ℕ) → length c < i → byte_at (c ++ (kind ∷ zeros n)) i ≡ 0
  byte_at-inner i h =
      let e : i - length c ≡ suc (i - length c - 1) = omega arith in
      byte_at-append c (kind ∷ zeros n) i (omega arith) ∙ rw e (byte_at-zeros n (i - length c - 1))

  byte_at-kind : byte_at (c ++ (kind ∷ zeros n)) (length c) ≡ kind
  byte_at-kind =
      let start : length c - length c ≡ 0 = omega arith in
      byte_at-append c (kind ∷ zeros n) (length c) (omega arith) ∙ rw start

  strip_zeros-inner :
      (e : ℕ) → length c < e → strip_zeros (c ++ (kind ∷ zeros n)) e ≡ suc (length c)
  unfolding strip_zeros
  strip_zeros-inner zero h = absurd (omega arith)
  strip_zeros-inner (suc e) h = elim (Bool-cases (ltb (length c) e)) [
    | inl deep ↦ rw (byte_at-inner e (ground arith)) (strip_zeros-inner e (ground arith))
    | inr last ↦ let same : e ≡ length c = ground arith in rw same (ground (arith, byte_at-kind))
  ]

-- What stands before the zeros of a padded record is read by its type.
pub process_plaintext_mobile-inner_text :
    (c : Text) (kind target : ℕ)
    → 0 < kind
    → process_plaintext_mobile (inner_text c kind target) ≡ by_type kind (length c)
unfolding inner_text
process_plaintext_mobile-inner_text c kind target typed =
    let n : ℕ = target - (length c + 1) in
    process_lem (c ++ (kind ∷ zeros n)) (length c) (
      strip_zeros-inner c kind n typed (length (c ++ (kind ∷ zeros n)))
        (omega (arith, length-append c (kind ∷ zeros n))))
    ∙ ap (λ k. by_type k (length c)) (byte_at-kind c kind n typed)

pub length-inner_text :
    (c : Text) (kind target : ℕ)
    → length (inner_text c kind target) ≡ length c + 1 + (target - (length c + 1))
unfolding inner_text
length-inner_text c kind target =
    let n : ℕ = target - (length c + 1) in
    omega (arith, length-append c (kind ∷ zeros n), length-zeros n)

pub take-inner_text : (c : Text) (kind target : ℕ) → take (length c) (inner_text c kind target) ≡ c
unfolding inner_text
take-inner_text c kind target = take-append c (kind ∷ zeros (target - (length c + 1)))

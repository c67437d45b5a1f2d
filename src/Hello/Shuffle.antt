-- ===== src/Hello/Shuffle.antt =====
-- crypto/tls_raw.rs: the shuffle of the extensions keeps each of them.
use mirage_android.Prelude.{
  ℕ, zero, suc, ◌+◌, ◌<◌, ◌≡◌, refl, ◌∙◌, List, [], ◌∷◌, arith, inl, inr, if◌then◌else◌, Text,
  length, ◌==◌, Bool-cases, All,
}
use mirage_android.Hello.Parts.{Draws, IsDraws}
use mirage_android.Hello.Browsers.{set_at, text_at, swap, shuffle}

length-set_at : (xs : List Text) (i : ℕ) (v : Text) → length (set_at xs i v) ≡ length xs
length-set_at [] i v = refl
length-set_at (x ∷ xs) zero v = refl
length-set_at (x ∷ xs) (suc i) v = omega (arith, length-set_at xs i v)

length-swap : (xs : List Text) (i j : ℕ) → length (swap xs i j) ≡ length xs
unfolding swap
length-swap xs i j =
    length-set_at (set_at xs i (text_at xs j)) j (text_at xs i) ∙ length-set_at xs i (text_at xs j)

text_at-set_at :
    (xs : List Text) (i k : ℕ) (v : Text)
    → k < length xs
    → text_at (set_at xs i v) k ≡ (if k == i then v else text_at xs k)
text_at-set_at [] i k v h = absurd (omega arith)
text_at-set_at (x ∷ xs) zero zero v h = refl
text_at-set_at (x ∷ xs) zero (suc k) v h = ground arith
text_at-set_at (x ∷ xs) (suc i) zero v h = ground arith
text_at-set_at (x ∷ xs) (suc i) (suc k) v h = ground (arith, text_at-set_at xs i k v)

module _ {κ} (P : Text → Type κ) where
  All-text_at : (xs : List Text) (i : ℕ) → i < length xs → All P xs → P (text_at xs i)
  All-text_at [] i lt h = absurd (omega arith)
  All-text_at (x ∷ xs) zero lt h = h.0
  All-text_at (x ∷ xs) (suc i) lt h = All-text_at xs i (omega arith) h.1

  All-set_at : (xs : List Text) (i : ℕ) (v : Text) → P v → All P xs → All P (set_at xs i v)
  All-set_at [] i v p h = tt
  All-set_at (x ∷ xs) zero v p h = (p, h.1)
  All-set_at (x ∷ xs) (suc i) v p h = (h.0, All-set_at xs i v p h.1)

  All-swap :
      (xs : List Text) (i j : ℕ) → i < length xs → j < length xs → All P xs → All P (swap xs i j)
  unfolding swap
  All-swap xs i j hi hj h =
      All-set_at (set_at xs i (text_at xs j)) j (text_at xs i) (All-text_at xs i hi h)
        (All-set_at xs i (text_at xs j) (All-text_at xs j hj h) h)

  pub All-shuffle :
      (d : Draws) (n : ℕ) (xs : List Text)
      → IsDraws d
      → n < length xs
      → All P xs
      → All P (shuffle d n xs)
  unfolding shuffle
  All-shuffle d zero xs draws lt h = h
  All-shuffle d (suc i) xs draws lt h =
      let j : ℕ = d.below (1000 + i) (suc i + 1) in
      let drawn : j < suc i + 1 = draws.below-lt (1000 + i) (suc i + 1) (omega arith) in
      All-shuffle d i (swap xs (suc i) j) draws (omega (arith, length-swap xs (suc i) j))
        (All-swap xs (suc i) j lt (omega arith) h)

-- Something stands at some place.
abbrev pub Has : Text → List Text → Type 0
Has a xs = (k : ℕ) × (k < length xs) × (text_at xs k ≡ a)

Has-swap :
    (a : Text) (xs : List Text) (i j : ℕ)
    → i < length xs
    → j < length xs
    → Has a xs
    → Has a (swap xs i j)
unfolding swap
Has-swap a xs i j hi hj (k, lt, e) =
    let once : List Text = set_at xs i (text_at xs j) in
    let len : length once ≡ length xs = length-set_at xs i (text_at xs j) in
    let len' = length-set_at once j (text_at xs i) in
    let at =
      λ (m : ℕ) (hm : m < length xs). text_at-set_at once j m (text_at xs i) (omega (arith, len)) in
    elim (Bool-cases (k == i)) [
      | inl first ↦ (j, omega (arith, len, len'), ground (arith, at j hj, e))
      | inr other ↦ elim (Bool-cases (k == j)) [
        | inl second ↦ (
          i,
          omega (arith, len, len'),
          ground (arith, at i hi, text_at-set_at xs i i (text_at xs j) hi, e),
        )
        | inr third ↦ (
          k,
          omega (arith, len, len'),
          ground (arith, at k lt, text_at-set_at xs i k (text_at xs j) lt, e),
        )
      ]
    ]

pub Has-shuffle :
    (a : Text) (d : Draws) (n : ℕ) (xs : List Text)
    → IsDraws d
    → n < length xs
    → Has a xs
    → Has a (shuffle d n xs)
unfolding shuffle
Has-shuffle a d zero xs draws lt h = h
Has-shuffle a d (suc i) xs draws lt h =
    let j : ℕ = d.below (1000 + i) (suc i + 1) in
    let drawn : j < suc i + 1 = draws.below-lt (1000 + i) (suc i + 1) (omega arith) in
    Has-shuffle a d i (swap xs (suc i) j) draws (omega (arith, length-swap xs (suc i) j))
      (Has-swap a xs (suc i) j lt (omega arith) h)

pub length-shuffle : (d : Draws) (n : ℕ) (xs : List Text) → length (shuffle d n xs) ≡ length xs
unfolding shuffle
length-shuffle d zero xs = refl
length-shuffle d (suc i) xs =
    let j : ℕ = d.below (1000 + i) (suc i + 1) in
    length-shuffle d i (swap xs (suc i) j) ∙ length-swap xs (suc i) j

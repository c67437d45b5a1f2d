-- ===== src/Crypto/Plans.antt =====
-- crypto/aead.rs: what goes into one record.
use mirage_android.Prelude.{
  ℕ, zero, suc, ◌≤◌, ◌<◌, ◌≡◌, refl, Bool, true, false, none, some, List, [], ◌∷◌, arith, ◌⊎◌, inl,
  inr, if◌then◌else◌, length, get_elem?, All,
}
use mirage_android.Crypto.Writer.{
  Rng, Bucket, low, middle, high, CryptoWriter, Plan, shaped, in_bucket, plan_at, next_plan,
}

-- The numbers drawn lie between the two that are asked for.
abbrev pub IsRng : Rng → Type 0
IsRng rng = (i lo hi : ℕ) → lo ≤ hi → (lo ≤ rng.usize i lo hi) × (rng.usize i lo hi ≤ hi)

abbrev pub IsRange : ℕ × ℕ → Type 0
IsRange (lo, hi) = (lo ≤ hi) × (hi ≤ 16385)

-- The ranges of a padding scheme fit in a record.
abbrev pub IsScheme : List (ℕ × ℕ) → Type 0
IsScheme scheme = All IsRange scheme

-- A plan fits in a record, and takes no more than there is.
pub record Fits (remaining : ℕ) (p : Plan) : Type 0 where
  pub there : p.taken ≤ remaining
  pub taken_short : p.taken ≤ 16384
  pub target_short : p.target ≤ 16385

IsScheme-get :
    (scheme : List (ℕ × ℕ)) (i : ℕ)
    → IsScheme scheme
    → (get_elem? scheme i ≡ none)
      ⊎ ((lo : ℕ) × (hi : ℕ) × (get_elem? scheme i ≡ some (lo, hi))
          × IsRange (lo, hi)
          × (i < length scheme))
IsScheme-get [] i h = inl refl
IsScheme-get ((lo, hi) ∷ rs) zero h = inr (lo, hi, refl, h.0, omega arith)
IsScheme-get (x ∷ rs) (suc i) h = elim (IsScheme-get rs i h.1) [
  | inl e ↦ inl e
  | inr (lo, hi, e, range, lt) ↦ inr (lo, hi, e, range, omega arith)
]

in_bucket_lem :
    (remaining : ℕ) (b : Bucket)
    → Fits (suc remaining) (in_bucket (suc remaining) b) × (0 < (in_bucket (suc remaining) b).taken)
in_bucket_lem remaining low = ground arith
in_bucket_lem remaining middle = ground arith
in_bucket_lem remaining high = ground arith

shaped_lem : (remaining target : ℕ) → target ≤ 16385 → Fits remaining (shaped remaining target)
shaped_lem remaining target h = ground arith

-- Each plan fits, and takes a byte or a place of the scheme.
pub next_plan-Fits :
    (rng : Rng) (w : CryptoWriter) (remaining : ℕ)
    → IsRng rng
    → IsScheme w.scheme
    → Fits (suc remaining) (next_plan rng w (suc remaining))
      × ((0 < (next_plan rng w (suc remaining)).taken) ⊎ (w.records_sent < length w.scheme))
unfolding next_plan
next_plan-Fits rng w remaining random scheme =
    by_padding w.padding (IsScheme-get w.scheme w.records_sent scheme)
  where
    plan : Bool → Plan
    plan pad =
        plan_at rng w.draws (suc remaining)
          (if pad then get_elem? w.scheme w.records_sent else none)

    by_padding :
        (pad : Bool)
        → (get_elem? w.scheme w.records_sent ≡ none)
          ⊎ ((lo : ℕ) × (hi : ℕ) × (get_elem? w.scheme w.records_sent ≡ some (lo, hi))
              × IsRange (lo, hi)
              × (w.records_sent < length w.scheme))
        → Fits (suc remaining) (plan pad)
          × ((0 < (plan pad).taken) ⊎ (w.records_sent < length w.scheme))
    by_padding false at = let f = in_bucket_lem remaining (rng.f64 w.draws) in (f.0, inl f.1)
    by_padding true (inl e) =
        let f = in_bucket_lem remaining (rng.f64 w.draws) in rw e (f.0, inl f.1)
    by_padding true (inr (lo, hi, e, range, lt)) =
        let drawn = random w.draws lo hi range.0 in
        rw e (shaped_lem (suc remaining) (rng.usize w.draws lo hi) (omega arith), inr lt)

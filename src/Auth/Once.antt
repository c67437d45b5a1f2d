-- ===== src/Auth/Once.antt =====
-- crypto/hello_auth.rs: no token is accepted twice.
use mirage_android.Prelude.{
  Bool-cases, ==_iff, ℕ, ◌+◌, ◌-◌, ◌*◌, ◌/◌, ◌^◌, ◌≤◌, ◌<◌, ◌≡◌, ◌≢◌, ◌⊎◌, inl, inr, refl, ap, ◌∙◌,
  true, false, List, [], ◌∷◌, arith, if◌then◌else◌, Text, leb, ltb, ◌==◌, text_eq, text_eq_iff,
}
use mirage_android.Auth.Token.{saturating_add}
use mirage_android.Auth.Replay.{
  TokenReplayCache, entry, put, retain, contains, advanced, inserted, check_and_insert,
}

entry-put_same :
    (k : ℕ) (tokens : List Text) (bs : List (ℕ × List Text)) → entry k (put k tokens bs) ≡ tokens
entry-put_same k tokens [] = ground arith
entry-put_same k tokens ((j, old) ∷ bs) = ground (arith, entry-put_same k tokens bs)

entry-put_other :
    (i k : ℕ) (tokens : List Text) (bs : List (ℕ × List Text))
    → i ≢ k
    → entry i (put k tokens bs) ≡ entry i bs
entry-put_other i k tokens [] apart = ground arith
entry-put_other i k tokens ((j, old) ∷ bs) apart =
    ground (arith, entry-put_other i k tokens bs apart)

entry-retain :
    (k hwm r : ℕ) (bs : List (ℕ × List Text)) → hwm - k ≤ r → entry k (retain hwm r bs) ≡ entry k bs
entry-retain k hwm r [] h = refl
entry-retain k hwm r ((j, tokens) ∷ bs) h = ground (arith, entry-retain k hwm r bs h)

-- A token of a bucket is still in the cache, or its time is out of the window.
abbrev pub Kept : ℕ → ℕ → Text → TokenReplayCache → Type 0
Kept r bucket t c = (contains (entry bucket c.buckets) t ≡ true) ⊎ (bucket + r < c.hwm)

put-contains :
    (bucket current : ℕ) (t token : Text) (bs : List (ℕ × List Text))
    → contains (entry bucket bs) t ≡ true
    → contains (entry bucket (put current (token ∷ entry current bs) bs)) t ≡ true
put-contains bucket current t token bs h = elim (Bool-cases (bucket == current)) [
  | inl same ↦
      let same' = (==_iff bucket current).0 same in
      rw (same', entry-put_same current (token ∷ entry current bs) bs) (ground (arith, h))
  | inr apart ↦
      let apart' : bucket ≢ current = ground (arith) in
      rw (entry-put_other bucket current (token ∷ entry current bs) bs apart') h
]

inserted-Kept :
    (r bucket : ℕ) (t : Text) (c : TokenReplayCache) (current : ℕ) (token : Text)
    → Kept r bucket t c
    → Kept r bucket t (inserted c current (entry current c.buckets) token).0
inserted-Kept r bucket t c current token (inr late) = ground (arith, late)
inserted-Kept r bucket t c current token (inl here) =
    ground (arith, here, put-contains bucket current t token c.buckets here)

-- Where the clock and the token's time are near each other, the cache is not reset.
pub record Near (r tolerance_secs now ts : ℕ) (c : TokenReplayCache) : Type 0 where
  pub window : 2 * tolerance_secs / 10 + 2 ≤ r
  pub not_old : now ≤ ts + tolerance_secs
  pub not_new : ts ≤ now + tolerance_secs
  pub within : now + tolerance_secs < 2 ^ 64
  pub hwm : c.hwm ≤ (now + tolerance_secs) / 10

module _ (r tolerance_secs now ts : ℕ) (c : TokenReplayCache)
    (near : Near r tolerance_secs now ts c) where
  advanced_lem :
      advanced c (ts / 10) r
      ≡ record { hwm = if ltb c.hwm (ts / 10) then ts / 10 else c.hwm; buckets = c.buckets }
  advanced_lem =
      let old = near.not_old in
      let old_hwm = near.hwm in
      let w = near.window in
      let in_range : ltb (saturating_add (ts / 10) r) c.hwm ≡ false = ground arith in
      rw in_range refl

  abbrev top : ℕ
  top = if ltb c.hwm (ts / 10) then ts / 10 else c.hwm

  abbrev moved : TokenReplayCache
  moved = record { hwm = top; buckets = retain top r c.buckets }

  top_bounds :
      (c.hwm ≤ top) × (ts / 10 ≤ top) × (top ≤ (now + tolerance_secs) / 10) × (top - ts / 10 ≤ r)
  top_bounds =
      let old = near.not_old in
      let new = near.not_new in let old_hwm = near.hwm in let w = near.window in ground arith

  check_and_insert_lem :
      (token : Text)
      → check_and_insert c ts token r
        ≡ inserted moved (ts / 10) (entry (ts / 10) moved.buckets) token
  unfolding check_and_insert
  check_and_insert_lem token = rw advanced_lem refl

  moved-Kept : (bucket : ℕ) (t : Text) → Kept r bucket t c → Kept r bucket t moved
  moved-Kept bucket t (inr late) = let bounds = top_bounds in inr (omega arith)
  moved-Kept bucket t (inl here) = elim (Bool-cases (leb (top - bucket) r)) [
    | inl near ↦ inl (
        ap (λ us. contains us t) (entry-retain bucket top r c.buckets (ground (arith, near)))
        ∙ here)
    | inr far ↦ inr (ground (arith, far))
  ]

  pub check_and_insert-Kept :
      (bucket : ℕ) (t token : Text)
      → Kept r bucket t c
      → Kept r bucket t (check_and_insert c ts token r).0
  check_and_insert-Kept bucket t token kept =
      rw (check_and_insert_lem token)
        (inserted-Kept r bucket t moved (ts / 10) token (moved-Kept bucket t kept))

  inserted-hwm :
      (token : Text) → (inserted moved (ts / 10) (entry (ts / 10) moved.buckets) token).0.hwm ≡ top
  inserted-hwm token = ground arith

  pub check_and_insert-hwm :
      (token : Text) → (check_and_insert c ts token r).0.hwm ≤ (now + tolerance_secs) / 10
  check_and_insert-hwm token =
      let bounds = top_bounds in rw (check_and_insert_lem token, inserted-hwm token) (omega arith)

  -- A token that is kept is refused; one that is accepted is kept from then on.
  pub Kept-refused :
      (token : Text) → Kept r (ts / 10) token c → (check_and_insert c ts token r).1 ≡ false
  Kept-refused token kept =
      rw (check_and_insert_lem token) (refused (moved-Kept (ts / 10) token kept))
    where
      refused :
          Kept r (ts / 10) token moved
          → (inserted moved (ts / 10) (entry (ts / 10) moved.buckets) token).1 ≡ false
      refused (inl here) = ground (arith, here)
      refused (inr late) = let bounds = top_bounds in absurd (omega arith)

  inserted-contains :
      (token : Text)
      → (inserted moved (ts / 10) (entry (ts / 10) moved.buckets) token).1 ≡ true
      → contains
          (entry
            (ts / 10)
            (inserted moved (ts / 10) (entry (ts / 10) moved.buckets) token).0.buckets)
          token
        ≡ true
  inserted-contains token =
      let bucket : List Text = entry (ts / 10) moved.buckets in
      let self : text_eq token token ≡ true = (text_eq_iff token token).1 refl in
      let stored : contains (entry (ts / 10) (put (ts / 10) (token ∷ bucket) moved.buckets)) token
          ≡ true =
        rw (entry-put_same (ts / 10) (token ∷ bucket) moved.buckets, self) refl in
      ground (arith, stored)

  pub accepted-Kept :
      (token : Text)
      → (check_and_insert c ts token r).1 ≡ true
      → Kept r (ts / 10) token (check_and_insert c ts token r).0
  accepted-Kept token = rw (check_and_insert_lem token) (λ e. inl (inserted-contains token e))

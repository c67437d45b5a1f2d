-- ===== src/Router/Merge.antt =====
-- direct.rs: the merged table is sorted and disjoint, and covers what the entries cover.
use mirage_android.Prelude.{
  ℕ, ◌+◌, ◌^◌, ◌≤◌, ◌<◌, ◌≡◌, refl, ap, Bool, true, false, ◌||◌, List, [], ◌∷◌, arith,
  if◌then◌else◌, any, leb, ltb, All, if_keeps,
}
use mirage_android.Router.CnIp.{Range, insert_range, sort_ranges, merge_after, within, next_address}

-- A range of 32-bit addresses that is not empty.
abbrev pub IsRange : Range → Type 0
IsRange (s, e) = (s ≤ e) × (e < 2 ^ 32)

abbrev pub covers : List Range → ℕ → Bool
covers rs t = any (within t) rs

-- Sorted by the first address, from an address on.
abbrev pub Sorted : ℕ → List Range → Type 0
Sorted lo [] = Unit
Sorted lo ((s, e) ∷ rs) = (lo ≤ s) × (s ≤ e) × (e < 2 ^ 32) × Sorted s rs

-- Each range begins behind the end of the one before.
abbrev pub Disjoint : ℕ → List Range → Type 0
Disjoint lo [] = Unit
Disjoint lo ((s, e) ∷ rs) = (lo ≤ s) × (s ≤ e) × Disjoint (e + 1) rs

Sorted-weaken : (lo lo' : ℕ) (rs : List Range) → lo' ≤ lo → Sorted lo rs → Sorted lo' rs
Sorted-weaken lo lo' [] h s = tt
Sorted-weaken lo lo' ((s, e) ∷ rs) h (a, b, c, d) = (omega arith, b, c, d)

insert_range-Sorted :
    (lo : ℕ) (r : Range) (rs : List Range)
    → IsRange r
    → lo ≤ r.0
    → Sorted lo rs
    → Sorted lo (insert_range r rs)
unfolding insert_range
insert_range-Sorted lo (s, e) [] h le tail = (le, h.0, h.1, tt)
insert_range-Sorted lo (s, e) ((s', e') ∷ rs) h le (a, b, c, d) =
    ground (arith, insert_range-Sorted s' (s, e) rs h, Sorted-weaken s' s rs)

pub sort_ranges-Sorted : (rs : List Range) → All IsRange rs → Sorted 0 (sort_ranges rs)
unfolding sort_ranges
sort_ranges-Sorted [] h = tt
sort_ranges-Sorted (r ∷ rs) (h, hs) =
    insert_range-Sorted 0 r (sort_ranges rs) h (omega arith) (sort_ranges-Sorted rs hs)

covers-insert_range :
    (r : Range) (rs : List Range) (t : ℕ)
    → covers (insert_range r rs) t ≡ (within t r || covers rs t)
unfolding insert_range any
covers-insert_range r [] t = refl
covers-insert_range r (x ∷ rs) t = ground (arith, covers-insert_range r rs t)

pub covers-sort_ranges : (rs : List Range) (t : ℕ) → covers (sort_ranges rs) t ≡ covers rs t
unfolding sort_ranges any
covers-sort_ranges [] t = refl
covers-sort_ranges (r ∷ rs) t =
    ground (arith, covers-insert_range r (sort_ranges rs) t, covers-sort_ranges rs t)

-- Two ranges that overlap or touch, as one.
join_within :
    (a b s e t : ℕ) (rest out : Bool)
    → leb s (next_address b) ≡ true
    → a ≤ s
    → b < 2 ^ 32
    → e < 2 ^ 32
    → out ≡ (within t (a, (if ltb b e then e else b)) || rest)
    → out ≡ (within t (a, b) || (within t (s, e) || rest))
join_within a b s e t rest out near le b-top e-top h = ground arith

greater_end :
    (a b s e : ℕ)
    → a ≤ b
    → b < 2 ^ 32
    → e < 2 ^ 32
    → (a ≤ (if ltb b e then e else b)) × ((if ltb b e then e else b) < 2 ^ 32)
greater_end a b s e le b-top e-top = ground arith

pub covers-merge_after :
    (a b : ℕ) (rs : List Range) (t : ℕ)
    → a ≤ b
    → b < 2 ^ 32
    → Sorted a rs
    → covers (merge_after (a, b) rs) t ≡ (within t (a, b) || covers rs t)
unfolding merge_after any
covers-merge_after a b [] t le top h = refl
covers-merge_after a b ((s, e) ∷ rs) t le top (low, fit, end, sorted) =
    let (le', top') = greater_end a b s e le top end in
    let joined =
      covers-merge_after a (if ltb b e then e else b) rs t le' top'
        (Sorted-weaken s a rs low sorted) in
    let apart = covers-merge_after s e rs t fit end sorted in
    if_keeps (λ out. covers out t ≡ (within t (a, b) || (within t (s, e) || covers rs t)))
      (leb s (next_address b))
      (λ near. join_within a b s e t (covers rs t) _ near low top end joined)
      (λ far. ap (λ (c : Bool). within t (a, b) || c) apart)

behind :
    (b s : ℕ) {e : ℕ} → b < 2 ^ 32 → e < 2 ^ 32 → s ≤ e → leb s (next_address b) ≡ false → b + 1 ≤ s
behind b s top end fit far = ground arith

pub merge_after-Disjoint :
    (lo a b : ℕ) (rs : List Range)
    → lo ≤ a
    → a ≤ b
    → b < 2 ^ 32
    → Sorted a rs
    → Disjoint lo (merge_after (a, b) rs)
unfolding merge_after
merge_after-Disjoint lo a b [] low le top h = (low, le, tt)
merge_after-Disjoint lo a b ((s, e) ∷ rs) low le top (from, fit, end, sorted) =
    let (le', top') = greater_end a b s e le top end in
    let joined =
      merge_after-Disjoint lo a (if ltb b e then e else b) rs low le' top'
        (Sorted-weaken s a rs from sorted) in
    if_keeps (λ out. Disjoint lo out) (leb s (next_address b)) (λ near. joined)
      (λ far.
        (low, le, merge_after-Disjoint (b + 1) s e rs (behind b s top end fit far) fit end sorted))

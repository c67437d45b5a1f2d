-- ===== src/Router/Search.antt =====
-- direct.rs: the binary search finds an address exactly when some range has it.
use mirage_android.Prelude.{
  ℕ, zero, suc, ◌+◌, ◌-◌, ◌/◌, ◌≤◌, ◌<◌, ◌≡◌, refl, ap, Bool, true, false, Option, none, some, List,
  [], ◌∷◌, arith, any, leb, length, get_elem?, Bool-cases, inl, inr,
}
use mirage_android.Router.CnIp.{Range, within, search_between, in_ranges, compare_range}
use mirage_android.Router.Merge.{covers, Disjoint}

-- The range at a place has the address.
abbrev HasAt : List Range → ℕ → ℕ → Type 0
HasAt xs t i = (r : Range) × (get_elem? xs i ≡ some r) × (within t r ≡ true)

HasAt-covers : (xs : List Range) (t i : ℕ) → HasAt xs t i → covers xs t ≡ true
unfolding any
HasAt-covers [] t i (r, e, w) = cc
HasAt-covers (x ∷ xs) t zero (r, e, w) = let same : x ≡ r = ground arith in rw same (ground arith)
HasAt-covers (x ∷ xs) t (suc i) (r, e, w) = ground (arith, HasAt-covers xs t i (r, e, w))

covers-HasAt :
    (xs : List Range) (t : ℕ) → covers xs t ≡ true → (i : ℕ) × (i < length xs) × HasAt xs t i
unfolding any
covers-HasAt [] t h = cc
covers-HasAt (x ∷ xs) t h = elim (Bool-cases (within t x)) [
  | inl hit ↦ (0, omega arith, (x, refl, hit))
  | inr missed ↦
      let (i, lt, (r, e, w)) = covers-HasAt xs t (ground arith) in (suc i, omega arith, (r, e, w))
]

Disjoint-above :
    (lo : ℕ) (xs : List Range) (i : ℕ) (r : Range)
    → Disjoint lo xs
    → get_elem? xs i ≡ some r
    → (lo ≤ r.0) × (r.0 ≤ r.1)
Disjoint-above lo [] i r d e = cc
Disjoint-above lo (x ∷ xs) zero r (a, b, d) e = ground arith
Disjoint-above lo (x ∷ xs) (suc i) r (a, b, d) e =
    ground (arith, Disjoint-above (x.1 + 1) xs i r d e)

-- A later range lies above an earlier one.
Disjoint-before :
    (lo : ℕ) (xs : List Range) (i j : ℕ) (r q : Range)
    → Disjoint lo xs
    → i < j
    → get_elem? xs i ≡ some r
    → get_elem? xs j ≡ some q
    → r.1 < q.0
Disjoint-before lo [] i j r q d lt e f = cc
Disjoint-before lo (x ∷ xs) i zero r q (a, b, d) lt e f = absurd (omega arith)
Disjoint-before lo (x ∷ xs) zero (suc j) r q (a, b, d) lt e f =
    ground (arith, Disjoint-above (x.1 + 1) xs j q d f)
Disjoint-before lo (x ∷ xs) (suc i) (suc j) r q (a, b, d) lt e f =
    Disjoint-before (x.1 + 1) xs i j r q d (omega arith) e f

compare_range-covers :
    (xs : List Range) (t mid : ℕ) (o : Option Range) (left right : Bool)
    → get_elem? xs mid ≡ o
    → (left ≡ true → covers xs t ≡ true)
    → (right ≡ true → covers xs t ≡ true)
    → compare_range o t left right ≡ true
    → covers xs t ≡ true
compare_range-covers xs t mid none left right e l r h = cc
compare_range-covers xs t mid (some (s, f)) left right e l r h =
    let hit = λ (w : within t (s, f) ≡ true). HasAt-covers xs t mid ((s, f), e, w) in
    ground (arith, l, r, hit)

search_between-covers :
    (fuel : ℕ) (xs : List Range) (t lo hi : ℕ)
    → search_between fuel xs t lo hi ≡ true
    → covers xs t ≡ true
unfolding search_between
search_between-covers zero xs t lo hi h = cc
search_between-covers (suc fuel) xs t lo hi h =
    let mid = lo + (hi - lo) / 2 in
    compare_range-covers xs t mid (get_elem? xs mid) (search_between fuel xs t lo mid)
      (search_between fuel xs t (mid + 1) hi) refl (search_between-covers fuel xs t lo mid)
      (search_between-covers fuel xs t (mid + 1) hi) (ground arith)

get_elem?-some : (xs : List Range) (i : ℕ) → i < length xs → (r : Range) × (get_elem? xs i ≡ some r)
get_elem?-some [] i h = absurd (omega arith)
get_elem?-some (x ∷ xs) zero h = (x, refl)
get_elem?-some (x ∷ xs) (suc i) h = get_elem?-some xs i (omega arith)

-- Where the place of the address lies, seen from another place.
place_of :
    (xs : List Range) (t mid i s e : ℕ) (q : Range)
    → Disjoint 0 xs
    → get_elem? xs mid ≡ some (s, e)
    → get_elem? xs i ≡ some q
    → within t q ≡ true
    → (t < s → i < mid) × (e < t → mid < i)
place_of xs t mid i s e q d at_mid at_i w =
    let fit = Disjoint-above 0 xs mid (s, e) d at_mid in
    let above = λ (lt : mid < i). Disjoint-before 0 xs mid i (s, e) q d lt at_mid at_i in
    let below = λ (lt : i < mid). Disjoint-before 0 xs i mid q (s, e) d lt at_i at_mid in
    let same = λ (eq : i ≡ mid). ap (get_elem? xs) eq in (ground arith, ground arith)

compare_range-finds :
    (xs : List Range) (t mid i : ℕ) (p q : Range) (left right : Bool)
    → Disjoint 0 xs
    → get_elem? xs mid ≡ some p
    → get_elem? xs i ≡ some q
    → within t q ≡ true
    → (i < mid → left ≡ true)
    → (mid < i → right ≡ true)
    → compare_range (some p) t left right ≡ true
compare_range-finds xs t mid i (s, e) q left right d at_mid at_i w l r =
    let place = place_of xs t mid i s e q d at_mid at_i w in ground (arith, l, r, place)

search_between-finds :
    (fuel : ℕ) (xs : List Range) (t lo hi i : ℕ) (q : Range)
    → Disjoint 0 xs
    → hi ≤ length xs
    → hi - lo ≤ fuel
    → lo ≤ i
    → i < hi
    → get_elem? xs i ≡ some q
    → within t q ≡ true
    → search_between fuel xs t lo hi ≡ true
unfolding search_between
search_between-finds zero xs t lo hi i q d bound enough from to at_i w = absurd (omega arith)
search_between-finds (suc fuel) xs t lo hi i q d bound enough from to at_i w =
    let mid = lo + (hi - lo) / 2 in
    let (p, at_mid) = get_elem?-some xs mid (omega arith) in
    let left = λ (lt : i < mid).
      search_between-finds fuel xs t lo mid i q d (omega arith) (omega arith) from lt at_i w in
    let right = λ (lt : mid < i).
      search_between-finds fuel xs t (mid + 1) hi i q d bound (omega arith) (omega arith) to at_i
        w in
    let found =
      compare_range-finds xs t mid i p q (search_between fuel xs t lo mid)
        (search_between fuel xs t (mid + 1) hi) d at_mid at_i w left right in
    let open_range : leb hi lo ≡ false = ground arith in rw (open_range, at_mid) found

iff_eq : (a b : Bool) → (a ≡ true → b ≡ true) → (b ≡ true → a ≡ true) → a ≡ b
iff_eq a b f g = ground arith

pub in_ranges-covers : (xs : List Range) (t : ℕ) → Disjoint 0 xs → in_ranges xs t ≡ covers xs t
unfolding in_ranges
in_ranges-covers xs t d =
    iff_eq (in_ranges xs t) (covers xs t) (search_between-covers (length xs) xs t 0 (length xs))
      (λ h.
        let (i, lt, (q, at_i, w)) = covers-HasAt xs t h in
        search_between-finds (length xs) xs t 0 (length xs) i q d (omega arith) (omega arith)
          (omega arith) lt at_i w)

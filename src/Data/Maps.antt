-- ===== src/Data/Maps.antt =====
-- `std::collections::HashMap`: an association list with one entry for each key.
use mirage_android.Prelude.{
  zero, ℕ, suc, ◌<◌, inl, inr, Option-cases, number_key, ◌+◌, ◌≤◌, ◌≡◌, refl, true, Option, none,
  some, List, [], ◌∷◌, arith, Key, if◌then◌else◌, length,
}

abbrev pub Map {ℓ κ} : Type ℓ → Type κ → Type (ℓ ⊔ κ)
Map K V = List (K × V)

pub same_refl {ℓ} : {K : Type ℓ} ⦃k : Key K⦄ (a : K) → k.same a a ≡ true
same_refl ⦃k⦄ a = (k.same_iff a a).1 refl

module _ {ℓ κ} {K : Type ℓ} {V : Type κ} ⦃k : Key K⦄ where
  unfoldable pub get : Map K V → K → Option V
  get [] a = none
  get ((b, v) ∷ m) a = if k.same b a then some v else get m a

  unfoldable pub remove : Map K V → K → Map K V
  remove [] a = []
  remove ((b, v) ∷ m) a = let rest = remove m a in if k.same b a then rest else (b, v) ∷ rest

  unfoldable pub insert : Map K V → K → V → Map K V
  insert m a v = (a, v) ∷ remove m a

  pub get-remove :
      (m : Map K V) (a b : K) → get (remove m a) b ≡ (if k.same a b then none else get m b)
  unfolding get remove
  get-remove [] a b = ground arith
  get-remove ((c, v) ∷ m) a b =
      ground (arith, k.same_iff a b, k.same_iff c a, k.same_iff c b, get-remove m a b)

  pub get-insert :
      (m : Map K V) (a b : K) (v : V)
      → get (insert m a v) b ≡ (if k.same a b then some v else get m b)
  unfolding get insert
  get-insert m a b v = ground (arith, get-remove m a b)

  pub get-insert_self : (m : Map K V) (a : K) (v : V) → get (insert m a v) a ≡ some v
  get-insert_self m a v = ground (arith, get-insert m a a v, same_refl a)

  -- Each key has one entry.
  abbrev pub IsMap : Map K V → Type κ
  IsMap [] = Unit
  IsMap ((a, v) ∷ m) = (get m a ≡ none) × IsMap m

  pub remove-IsMap : (m : Map K V) (a : K) → IsMap m → IsMap (remove m a)
  unfolding remove
  remove-IsMap [] a h = tt
  remove-IsMap ((b, v) ∷ m) a h = ground (arith, remove-IsMap m a h.1, get-remove m a b)

  pub insert-IsMap : (m : Map K V) (a : K) (v : V) → IsMap m → IsMap (insert m a v)
  unfolding insert
  insert-IsMap m a v h = ground (arith, remove-IsMap m a h, get-remove m a a, same_refl a)

  remove_missing : (m : Map K V) (a : K) → get m a ≡ none → remove m a ≡ m
  unfolding get remove
  remove_missing [] a h = refl
  remove_missing ((b, v) ∷ m) a h = ground (arith, remove_missing m a)

  pub length-remove_missing :
      (m : Map K V) (a : K) → get m a ≡ none → length (remove m a) ≡ length m
  length-remove_missing m a h = ground (arith, remove_missing m a h)

  pub length-remove :
      (m : Map K V) (a : K) (v : V)
      → IsMap m
      → get m a ≡ some v
      → length (remove m a) + 1 ≡ length m
  unfolding get remove
  length-remove [] a v h e = ground arith
  length-remove ((b, w) ∷ m) a v h e =
      ground (arith, k.same_iff b a, length-remove m a v h.1, length-remove_missing m a)

  pub length-remove-le : (m : Map K V) (a : K) → length (remove m a) ≤ length m
  unfolding remove
  length-remove-le [] a = omega arith
  length-remove-le ((b, w) ∷ m) a = ground (arith, length-remove-le m a)

-- A map whose keys lie among `n` numbers has at most `n` entries.
pub length-le-range {κ} :
    {V : Type κ} (n lo : ℕ) (m : Map ℕ V)
    → IsMap m
    → ((a : ℕ) (v : V) → get m a ≡ some v → (lo ≤ a) × (a < lo + n))
    → length m ≤ n
unfolding get
length-le-range zero lo [] h keys = omega arith
length-le-range zero lo ((a, v) ∷ m) h keys = ground (arith, keys a v, same_refl a)
length-le-range (suc n) lo m h keys =
    let rest =
      length-le-range n lo (remove m (lo + n)) (remove-IsMap m (lo + n) h)
        (λ a v e. ground (arith, get-remove m (lo + n) a, keys a v)) in
    elim (Option-cases (get m (lo + n))) [
      | inl free ↦ omega (arith, rest, length-remove_missing m (lo + n) free)
      | inr (v, held) ↦ omega (arith, rest, length-remove m (lo + n) v h held)
    ]

pub ruleset map_laws = (get-remove, get-insert)

-- ===== src/Geo/Index.antt =====
-- The indexed matcher answers as a scan of all rules does.
use mirage_android.Prelude.{
  ℕ, suc, zero, ◌≤◌, ◌<◌, ◌≡◌, refl, sym, Bool, false, ◌&&◌, ◌||◌, none, some, List, [], ◌∷◌, arith,
  Text, text_eq, text_eq_iff, text_key, any, contains, length, ◌==◌, All, Option-cases, inl, inr,
}
use mirage_android.Data.Texts.{dot, is_under, ends_with, clean_domain}
use mirage_android.Geo.{
  RegexEngine, SiteDomain, keyword, regex, suffix, exact, GeoSiteMatcher, add_rule, index_rules,
  new_matcher, after_dot, parent_loop, matches_site, matches_any,
}

-- Some parent domain of the text is in the set.
parent_in : List Text → Text → Bool
parent_in set [] = false
parent_in set (c ∷ cs) = (c == dot && contains set cs) || parent_in set cs

after_dot-none : (set : List Text) (d : Text) → after_dot d ≡ none → parent_in set d ≡ false
unfolding after_dot parent_in
after_dot-none set [] h = refl
after_dot-none set (c ∷ cs) h = ground (arith, after_dot-none set cs)

after_dot-some :
    (set : List Text) (d rest : Text)
    → after_dot d ≡ some rest
    → (parent_in set d ≡ contains set rest || parent_in set rest) × (length rest < length d)
unfolding after_dot parent_in
after_dot-some set [] rest h = cc
after_dot-some set (c ∷ cs) rest h = ground (arith, after_dot-some set cs rest)

parent_loop-parent_in :
    (fuel : ℕ) (set : List Text) (d : Text)
    → length d ≤ fuel
    → parent_loop fuel set d ≡ parent_in set d
unfolding parent_loop
parent_loop-parent_in zero set [] h = unfold parent_in in refl
parent_loop-parent_in zero set (c ∷ cs) h = absurd (omega arith)
parent_loop-parent_in (suc fuel) set d h = elim (Option-cases (after_dot d)) [
  | inl e ↦ rw (e, parent_loop) (sym (after_dot-none set d e))
  | inr (rest, e) ↦
      let at = after_dot-some set d rest e in
      ground (arith, e, at, parent_loop-parent_in fuel set rest)
]

parent_in-nil : (d : Text) → (parent_in [] d || false) ≡ false
unfolding parent_in contains
parent_in-nil [] = refl
parent_in-nil (c ∷ cs) = ground (arith, parent_in-nil cs)

text_eq_comm : (a b : Text) → text_eq a b ≡ text_eq b a
text_eq_comm a b = ground (arith, text_eq_iff a b, text_eq_iff b a)

-- One more suffix in the set is one more parent to end with.
parent_in-cons :
    (v : Text) (set : List Text) (d : Text)
    → parent_in (v ∷ set) d ≡ ends_with d (dot ∷ v) || parent_in set d
unfolding parent_in ends_with contains
parent_in-cons v set [] = unfold text_eq in refl
parent_in-cons v set (c ∷ cs) =
    unfold text_eq in ground (arith, parent_in-cons v set cs, text_eq_comm v cs)

module _ (engine : RegexEngine) where
  open engine use {Regex}

  -- `parse_domain_msg` cleans the exact and the suffix values before it hands them on.
  abbrev pub IsClean : SiteDomain Regex → Type 0
  IsClean (exact v) = clean_domain v ≡ v
  IsClean (suffix v) = clean_domain v ≡ v
  IsClean (keyword v) = Unit
  IsClean (regex raw re) = Unit

  abbrev scan : List (SiteDomain Regex) → Text → Bool
  scan ds domain = any (λ s. matches_site engine s domain) ds

  tables_hit : GeoSiteMatcher Regex → Text → Bool
  tables_hit m domain =
      contains m.exact_set (clean_domain domain)
      || (contains m.suffix_set (clean_domain domain)
          || (parent_in m.suffix_set (clean_domain domain) || scan m.other_rules domain))

  tables_hit-add_rule :
      (s : SiteDomain Regex) (m : GeoSiteMatcher Regex) (domain : Text)
      → IsClean s
      → tables_hit (add_rule s m) domain ≡ matches_site engine s domain || tables_hit m domain
  unfolding tables_hit add_rule contains any
  tables_hit-add_rule (exact v) m domain h =
      rw h (unfold matches_site in ground (arith, text_eq_comm v (clean_domain domain)))
  tables_hit-add_rule (suffix v) m domain h = rw h (
      unfold matches_site is_under in
      ground (
        arith,
        text_eq_comm v (clean_domain domain),
        parent_in-cons v m.suffix_set (clean_domain domain),
      ))
  tables_hit-add_rule (keyword v) m domain h = ground arith
  tables_hit-add_rule (regex raw re) m domain h = ground arith

  tables_hit-index_rules :
      (ds : List (SiteDomain Regex)) (domain : Text)
      → All IsClean ds
      → tables_hit (index_rules ds) domain ≡ scan ds domain
  unfolding index_rules any
  tables_hit-index_rules [] domain h =
      unfold tables_hit contains in parent_in-nil (clean_domain domain)
  tables_hit-index_rules (s ∷ ds) domain (c, cs) =
      ground (
        arith,
        tables_hit-add_rule s (index_rules ds) domain c,
        tables_hit-index_rules ds domain cs,
      )

  -- For rules with cleaned exact and suffix values, the hashed matcher answers as the scan of the
  -- list with the one-rule matcher does.
  pub matches_any-new_matcher :
      (ds : List (SiteDomain Regex)) (domain : Text)
      → All IsClean ds
      → matches_any engine (new_matcher ds) domain ≡ any (λ s. matches_site engine s domain) ds
  unfolding matches_any new_matcher
  matches_any-new_matcher ds domain h =
      let m = index_rules ds in
      let l =
        parent_loop-parent_in (length (clean_domain domain)) m.suffix_set (clean_domain domain)
          (omega arith) in
      let t = tables_hit-index_rules ds domain h in unfold tables_hit in ground (arith, l, t)

-- ===== src/FakeIp/Allocation.antt =====
-- What the callers of the mapper rely on: consistent answers, bounded maps, stable addresses.
use mirage_android.Prelude.{
  ℕ, ◌+◌, ◌-◌, ◌≤◌, ◌<◌, leb, ◌≡◌, ◌≢◌, refl, none, some, List, [], ◌∷◌, arith, if◌then◌else◌, Text,
  text_eq_iff, Option-cases, inl, inr, length, number_key, text_key,
}
use mirage_android.Data.Maps.{get, get-insert, length-le-range, get-insert_self}
use mirage_android.Data.Words.{not32}
use mirage_android.FakeIp.{FakeIpMapper, evict, assign, slow_path, lookup_or_assign, lookup_domain}
use mirage_android.FakeIp.Consistency.{
  IsShaped, shape_of, IsUsable, IsConsistent, assign-IsConsistent, advance_lem, kept,
}

pub slow_path-IsConsistent :
    (m : FakeIpMapper) (d : Text) → IsShaped m → IsConsistent m → IsConsistent (slow_path m d).0
unfolding slow_path
slow_path-IsConsistent m d s c = elim (Option-cases (get m.domain_to_ip d)) [
  | inl e ↦ rw (e, slow_path) (assign-IsConsistent m d c e s)
  | inr (ip, e) ↦ rw (e, slow_path) c
]

module _ (to_lowercase : Text → Text) where
  -- A lookup is the slow path: what the fast path answers, the slow path answers too.
  pub lookup_or_assign-slow_path :
      (m : FakeIpMapper) (d : Text)
      → lookup_or_assign to_lowercase m d ≡ slow_path m (to_lowercase d)
  unfolding lookup_or_assign slow_path
  lookup_or_assign-slow_path m d = ground arith

  -- The invariant.
  pub lookup_or_assign-IsConsistent :
      (m : FakeIpMapper) (domain : Text)
      → IsShaped m
      → IsConsistent m
      → IsConsistent (lookup_or_assign to_lowercase m domain).0
  lookup_or_assign-IsConsistent m domain s c =
      rw (lookup_or_assign-slow_path m domain) (slow_path-IsConsistent m (to_lowercase domain) s c)

slow_path-answers :
    (m : FakeIpMapper) (d : Text)
    → IsConsistent m
    → (get (slow_path m d).0.domain_to_ip d ≡ some (slow_path m d).1)
      × (lookup_domain (slow_path m d).0 (slow_path m d).1 ≡ some d)
unfolding slow_path lookup_domain assign
slow_path-answers m d c = elim (Option-cases (get m.domain_to_ip d)) [
  | inl e ↦
      rw (e, slow_path)
        (
          get-insert_self (evict m (get m.ip_to_domain m.next_ip) d) d m.next_ip,
          get-insert_self m.ip_to_domain m.next_ip d,
        )
  | inr (ip, e) ↦ rw (e, slow_path) (e, c.forward d ip e)
]

-- In a consistent mapper, the address that a lookup returns leads back to the lowered domain, and
-- the domain to the address.
pub lookup_domain-lookup_or_assign :
    (to_lowercase : Text → Text) (m : FakeIpMapper) (domain : Text)
    → IsConsistent m
    → let r = lookup_or_assign to_lowercase m domain in
      (lookup_domain r.0 r.1 ≡ some (to_lowercase domain))
      × (get r.0.domain_to_ip (to_lowercase domain) ≡ some r.1)
lookup_domain-lookup_or_assign to_lowercase m domain c =
    let a = slow_path-answers m (to_lowercase domain) c in
    rw (lookup_or_assign-slow_path to_lowercase m domain) (a.1, a.0)

-- Both maps stay within the usable addresses.
pub size_bound :
    (m : FakeIpMapper)
    → IsConsistent m
    → (length m.ip_to_domain + 2 ≤ not32 m.mask) × (length m.domain_to_ip + 2 ≤ not32 m.mask)
size_bound m c =
    let some_inside = c.next_inside in
    let bound =
      length-le-range (not32 m.mask - 2) (m.network + 2) m.ip_to_domain c.addresses
        (λ a v e. ground (arith, c.inside a v e, some_inside)) in
    (omega (arith, bound, some_inside), omega (arith, bound, some_inside, c.balanced))

-- How many fresh assignments it takes until the pointer stands at the address.
abbrev pub distance : FakeIpMapper → ℕ → ℕ
distance m ip = if leb m.next_ip ip then ip - m.next_ip else ip + (not32 m.mask - 2) - m.next_ip

assign-distance :
    (m : FakeIpMapper) (d : Text) (ip : ℕ)
    → IsShaped m
    → IsConsistent m
    → IsUsable m ip
    → ip ≢ m.next_ip
    → distance (assign m d).0 ip + 1 ≡ distance m ip
unfolding assign
assign-distance m d ip s c u other =
    ground (arith, advance_lem m m.next_ip s c.next_inside, c.next_inside)

assign-distance_self :
    (m : FakeIpMapper) (d : Text)
    → IsShaped m
    → IsConsistent m
    → distance (assign m d).0 m.next_ip + 3 ≡ not32 m.mask
unfolding assign
assign-distance_self m d s c =
    ground (arith, advance_lem m m.next_ip s c.next_inside, c.next_inside)

slow_path-distance :
    (m : FakeIpMapper) (d : Text)
    → IsShaped m
    → IsConsistent m
    → get m.domain_to_ip d ≡ none
    → distance (slow_path m d).0 (slow_path m d).1 + 3 ≡ not32 m.mask
unfolding slow_path
slow_path-distance m d s c fresh =
    rw (fresh, slow_path) (unfold assign in assign-distance_self m d s c)

pub slow_path-IsShaped : (m : FakeIpMapper) (d : Text) → IsShaped m → IsShaped (slow_path m d).0
unfolding slow_path assign
slow_path-IsShaped m d s = elim (Option-cases (get m.domain_to_ip d)) [
  | inl e ↦ rw (e, slow_path) (shape_of refl refl s)
  | inr (ip, e) ↦ rw (e, slow_path) s
]

-- A lookup takes at most one step off the distance, and keeps an address that it is short of.
slow_path_keeps :
    (m : FakeIpMapper) (d e : Text) (ip : ℕ)
    → IsShaped m
    → IsConsistent m
    → get m.domain_to_ip e ≡ some ip
    → 0 < distance m ip
    → (get (slow_path m d).0.domain_to_ip e ≡ some ip)
      × (distance m ip ≤ distance (slow_path m d).0 ip + 1)
      × ((slow_path m d).0.mask ≡ m.mask)
unfolding slow_path
slow_path_keeps m d e ip s c h far = elim (Option-cases (get m.domain_to_ip d)) [
  | inl fresh ↦
      let other : ip ≢ m.next_ip = ground arith in
      let near = assign-distance m d ip s c (c.inside ip e (c.forward e ip h)) other in
      rw (fresh, slow_path)
        (
          unfold assign in
              ground (
                arith,
                get-insert (evict m (get m.ip_to_domain m.next_ip) d) d e m.next_ip,
                text_eq_iff d e,
                kept m d c fresh e ip h other,
              ),
          omega (arith, near),
          unfold assign in refl,
        )
  | inr (old, held) ↦ rw (held, slow_path) (h, omega arith, refl)
]

module _ (to_lowercase : Text → Text) where
  -- One lookup after the other.
  pub lookup_many : FakeIpMapper → List Text → FakeIpMapper
  lookup_many m [] = m
  lookup_many m (d ∷ ds) = lookup_many (lookup_or_assign to_lowercase m d).0 ds

  lookup_many_keeps :
      (m : FakeIpMapper) (ds : List Text) (e : Text) (ip : ℕ)
      → IsShaped m
      → IsConsistent m
      → get m.domain_to_ip e ≡ some ip
      → length ds ≤ distance m ip
      → get (lookup_many m ds).domain_to_ip e ≡ some ip
  unfolding lookup_many
  lookup_many_keeps m [] e ip s c h near = h
  lookup_many_keeps m (d ∷ ds) e ip s c h near =
      let d' = to_lowercase d in
      let step = slow_path_keeps m d' e ip s c h (omega arith) in
      rw (lookup_or_assign-slow_path to_lowercase m d, lookup_many)
        (lookup_many_keeps (slow_path m d').0 ds e ip (slow_path-IsShaped m d' s)
          (slow_path-IsConsistent m d' s c) step.0 (omega (arith, step.1)))

  found_again :
      (m : FakeIpMapper) (d : Text) (ip : ℕ)
      → get m.domain_to_ip (to_lowercase d) ≡ some ip
      → (lookup_or_assign to_lowercase m d).1 ≡ ip
  unfolding lookup_or_assign
  found_again m d ip h = ground arith

  -- In a consistent mapper of a well-formed range, a domain without an address gets one that
  -- further lookups, of any domains and short of the usable addresses in number, do not take away.
  pub fresh_address_stable :
      (m : FakeIpMapper) (domain : Text) (ds : List Text)
      → IsShaped m
      → IsConsistent m
      → get m.domain_to_ip (to_lowercase domain) ≡ none
      → length ds + 3 ≤ not32 m.mask
      → let r = lookup_or_assign to_lowercase m domain in
        (lookup_or_assign to_lowercase (lookup_many r.0 ds) domain).1 ≡ r.1
  fresh_address_stable m domain ds s c fresh few =
      let d = to_lowercase domain in
      rw (lookup_or_assign-slow_path to_lowercase m domain) (
        found_again (lookup_many (slow_path m d).0 ds) domain (slow_path m d).1 (
          lookup_many_keeps (slow_path m d).0 ds d (slow_path m d).1 (slow_path-IsShaped m d s)
            (slow_path-IsConsistent m d s c) (slow_path-answers m d c).0
            (omega (arith, slow_path-distance m d s c fresh))))

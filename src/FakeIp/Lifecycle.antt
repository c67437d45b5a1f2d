-- ===== src/FakeIp/Lifecycle.antt =====
-- The mapper from construction on: every state that its operations reach is consistent.
use mirage_android.Prelude.{
  ℕ, ◌+◌, ◌-◌, ◌*◌, ◌/◌, ◌^◌, ◌≤◌, ◌<◌, ltb, leb, ◌≡◌, refl, subst, ap, true, Option, none, some,
  List, [], ◌∷◌, arith, Text, number_key, text_key, Bool-cases, inl, inr,
}
use mirage_android.Data.Maps.{get}
use mirage_android.Data.Words.{
  not32, not32-prefix_mask, bit_and-prefix_mask, every_below, every_below-test, split_word,
}
use mirage_android.Data.Numerals.{split, parse_ipv4, parse_ipv4-lt}
use mirage_android.FakeIp.{FakeIpMapper, ok, empty_mapper}
use mirage_android.FakeIp.Consistency.{IsShaped, shape_of, IsUsable, IsConsistent}
use mirage_android.FakeIp.Persist.{cached, load_file, build, with_parts, with_persist}
use mirage_android.FakeIp.Restore.{IsInside, load-IsInside}

room_table : every_below (λ p. leb 8 (2 ^ (32 - p))) 30 ≡ true
unfolding every_below
room_table = refl

-- A prefix of at most 29 bits leaves eight addresses.
room : (p : ℕ) → p ≤ 29 → 8 ≤ 2 ^ (32 - p)
room p h =
    let t = every_below-test (λ q. leb 8 (2 ^ (32 - q))) 30 p (omega arith) room_table in
    ground arith

below_top :
    (p ip : ℕ) → p ≤ 32 → ip < 2 ^ 32 → ip / 2 ^ (32 - p) * 2 ^ (32 - p) + 2 ^ (32 - p) ≤ 2 ^ 32
below_top p ip h lt = grind (arith, split_word p h)

module _ (ip prefix : ℕ) (path : Option Text) (lt : ip < 2 ^ 32) (short : prefix ≤ 29) where
  network_lem : (empty_mapper ip prefix path).network ≡ ip / 2 ^ (32 - prefix) * 2 ^ (32 - prefix)
  unfolding empty_mapper
  network_lem = bit_and-prefix_mask prefix ip (omega arith) lt

  empty_mapper-IsShaped : IsShaped (empty_mapper ip prefix path)
  unfolding empty_mapper
  empty_mapper-IsShaped = record {
    bits = 32 - prefix;
    block = ip / 2 ^ (32 - prefix);
    roomy = room prefix short;
    net_part = λ u small. bit_and-prefix_mask prefix u (omega arith) small;
    host_mask = not32-prefix_mask prefix (omega arith);
    aligned = bit_and-prefix_mask prefix ip (omega arith) lt;
    fits =
        rw (bit_and-prefix_mask prefix ip (omega arith) lt) (below_top prefix ip (omega arith) lt);
  }

  empty_mapper-next :
      (empty_mapper ip prefix path).next_ip ≡ (empty_mapper ip prefix path).network + 2
  unfolding empty_mapper
  empty_mapper-next =
      let top = below_top prefix ip (omega arith) lt in
      let wide = room prefix short in
      rw (bit_and-prefix_mask prefix ip (omega arith) lt) (omega (arith, top, wide))

  empty_mapper-IsConsistent : IsConsistent (empty_mapper ip prefix path)
  unfolding empty_mapper get
  empty_mapper-IsConsistent = record {
    forward = λ d a e. cc;
    backward = λ a d e. cc;
    inside = λ a d e. cc;
    next_inside =
        let wide = room prefix short in
        let host = not32-prefix_mask prefix (omega arith) in
        (omega (arith, empty_mapper-next), omega (arith, empty_mapper-next, host, wide));
    domains = tt;
    addresses = tt;
    balanced = refl;
  }

  empty_mapper-IsInside : IsInside (empty_mapper ip prefix path) (empty_mapper ip prefix path)
  empty_mapper-IsInside =
      let c = empty_mapper-IsConsistent in
      record {
        same_network = refl;
        same_mask = refl;
        names = λ d a e. c.inside a d (c.forward d a e);
        addresses = c.inside;
        next_low = omega (arith, c.next_inside);
        next_high = c.next_inside.1;
      }

-- What `with_persist` promises of the mapper that it returns.
pub record IsRestored (m : FakeIpMapper) : Type 0 where
  pub shaped : IsShaped m
  pub names : (d : Text) (ip : ℕ) → get m.domain_to_ip d ≡ some ip → IsUsable m ip
  pub addresses : (ip : ℕ) (d : Text) → get m.ip_to_domain ip ≡ some d → IsUsable m ip
  pub next_low : m.network ≤ m.next_ip
  pub next_high : m.next_ip < m.network + not32 m.mask

restored : (base m : FakeIpMapper) → IsShaped base → IsInside base m → IsRestored m
restored base m s h = record {
  shaped = shape_of h.same_network h.same_mask s;
  names = λ d ip e. ground (arith, h.names d ip e, h.same_network, ap not32 h.same_mask);
  addresses = λ ip d e. ground (arith, h.addresses ip d e, h.same_network, ap not32 h.same_mask);
  next_low = omega (arith, h.next_low, h.same_network);
  next_high = omega (arith, h.next_high, h.same_network, ap not32 h.same_mask);
}

cached-none : (path : Option Text) → cached path none ≡ none
cached-none none = refl
cached-none (some path) = refl

module _ (to_lowercase : Text → Text) where
  load_file-IsRestored :
      (ip prefix : ℕ) (path : Option Text)
      → ip < 2 ^ 32
      → prefix ≤ 29
      → (content : Option Text)
      → IsRestored (load_file to_lowercase content (empty_mapper ip prefix path))
  load_file-IsRestored ip prefix path lt short none =
      let shape = empty_mapper-IsShaped ip prefix path lt short in
      restored (empty_mapper ip prefix path) (empty_mapper ip prefix path) shape
        (empty_mapper-IsInside ip prefix path lt short)
  load_file-IsRestored ip prefix path lt short (some content) =
      let shape = empty_mapper-IsShaped ip prefix path lt short in
      restored (empty_mapper ip prefix path) _ shape (
        load-IsInside to_lowercase _ shape (empty_mapper ip prefix path) content
          (empty_mapper-IsInside ip prefix path lt short))

  build-IsRestored :
      (ip prefix : Option ℕ) (path content : Option Text) {m : FakeIpMapper}
      → ((a : ℕ) → ip ≡ some a → a < 2 ^ 32)
      → build to_lowercase ip prefix path content ≡ ok m
      → IsRestored m
  unfolding build
  build-IsRestored none prefix path content word h = cc
  build-IsRestored (some ip) none path content word h = cc
  build-IsRestored (some ip) (some prefix) path content {m} word h =
      elim (Bool-cases (ltb 29 prefix)) [
        | inl long ↦ ground arith
        | inr short ↦
            let made : load_file to_lowercase (cached path content) (empty_mapper ip prefix path)
                ≡ m =
              ground arith in
            subst IsRestored made (
              load_file-IsRestored ip prefix path (word ip refl) (ground arith)
                (cached path content))
      ]

  with_parts-IsRestored :
      (parts : List Text) (path content : Option Text) {m : FakeIpMapper}
      → with_parts to_lowercase parts path content ≡ ok m
      → IsRestored m
  unfolding with_parts
  with_parts-IsRestored [] path content h = cc
  with_parts-IsRestored (a ∷ []) path content h = cc
  with_parts-IsRestored (a ∷ p ∷ []) path content h =
      build-IsRestored (parse_ipv4 a) _ path content (parse_ipv4-lt a) h
  with_parts-IsRestored (a ∷ p ∷ q ∷ _) path content h = cc

  -- Whatever the CIDR text and the cache file, a mapper that is returned has a range of at least
  -- eight addresses and maps usable addresses only; its pointer is in the range, short of the
  -- broadcast address.
  pub with_persist-IsRestored :
      (cidr : Text) (path content : Option Text) {m : FakeIpMapper}
      → with_persist to_lowercase cidr path content ≡ ok m
      → IsRestored m
  unfolding with_persist
  with_persist-IsRestored cidr path content h =
      with_parts-IsRestored (split b'/' cidr) path content h

  build-fresh :
      (ip prefix : Option ℕ) (path : Option Text) {m : FakeIpMapper}
      → ((a : ℕ) → ip ≡ some a → a < 2 ^ 32)
      → build to_lowercase ip prefix path none ≡ ok m
      → IsShaped m × IsConsistent m
  unfolding build
  build-fresh none prefix path word h = cc
  build-fresh (some ip) none path word h = cc
  build-fresh (some ip) (some prefix) path {m} word h = elim (Bool-cases (ltb 29 prefix)) [
    | inl long ↦ ground arith
    | inr short ↦
        let no_cache : cached path none ≡ none = cached-none path in
        let made : empty_mapper ip prefix path ≡ m = ground arith in
        subst (λ n. IsShaped n × IsConsistent n) made
          (
            empty_mapper-IsShaped ip prefix path (word ip refl) (ground arith),
            empty_mapper-IsConsistent ip prefix path (word ip refl) (ground arith),
          )
  ]

  pub with_persist-fresh :
      (cidr : Text) (path : Option Text) {m : FakeIpMapper}
      → with_persist to_lowercase cidr path none ≡ ok m
      → IsShaped m × IsConsistent m
  unfolding with_persist
  with_persist-fresh cidr path {m} h = parts (split b'/' cidr) h
    where
      parts :
          (ps : List Text)
          → with_parts to_lowercase ps path none ≡ ok m
          → IsShaped m × IsConsistent m
      parts [] e = unfold with_parts in cc
      parts (a ∷ []) e = unfold with_parts in cc
      parts (a ∷ p ∷ []) e =
          unfold with_parts in build-fresh (parse_ipv4 a) _ path (parse_ipv4-lt a) e
      parts (a ∷ p ∷ q ∷ _) e = unfold with_parts in cc

-- ===== src/FakeIp/Consistency.antt =====
-- The two maps of the mapper stay inverse to one another, and inside the usable range.
use mirage_android.Prelude.{
  ℕ, ◌+◌, ◌-◌, ◌*◌, ◌/◌, ◌%◌, ◌^◌, ◌≤◌, ◌<◌, ◌≡◌, ◌≢◌, ◌↔◌, ap, sym, ◌∙◌, false, none, some, arith,
  if◌then◌else◌, Text, text_eq, text_eq_iff, ◌==◌, bit_and, Option-cases, inl, inr, length,
  number_key, text_key,
}
use mirage_android.Data.Maps.{
  get, insert, remove, IsMap, get-remove, get-insert, insert-IsMap, remove-IsMap, length-remove,
  length-remove_missing,
}
use mirage_android.Data.Words.{not32, bit_and_low}
use mirage_android.FakeIp.{FakeIpMapper, advance, evict, assign}

-- `bits` host bits: the range is `2 ^ bits` addresses from a multiple of that number.
pub record IsShaped (m : FakeIpMapper) : Type 0 where
  pub bits : ℕ
  pub block : ℕ
  pub roomy : 8 ≤ 2 ^ bits
  pub net_part : (u : ℕ) → u < 2 ^ 32 → bit_and u m.mask ≡ u / 2 ^ bits * 2 ^ bits
  pub host_mask : not32 m.mask ≡ 2 ^ bits - 1
  pub aligned : m.network ≡ block * 2 ^ bits
  pub fits : m.network + 2 ^ bits ≤ 2 ^ 32

-- What keeps the range keeps its shape.
pub shape_of :
    {m n : FakeIpMapper} → n.network ≡ m.network → n.mask ≡ m.mask → IsShaped m → IsShaped n
shape_of e f s = record {
  bits = s.bits;
  block = s.block;
  roomy = s.roomy;
  net_part = λ u lt. ap (bit_and u) f ∙ s.net_part u lt;
  host_mask = ap not32 f ∙ s.host_mask;
  aligned = e ∙ s.aligned;
  fits = rw e s.fits;
}

-- Neither `.0`, `.1` nor the broadcast address.
abbrev pub IsUsable : FakeIpMapper → ℕ → Type 0
IsUsable m ip = (m.network + 2 ≤ ip) × (ip < m.network + not32 m.mask)

pub record IsConsistent (m : FakeIpMapper) : Type 0 where
  pub forward :
      (d : Text) (ip : ℕ) → get m.domain_to_ip d ≡ some ip → get m.ip_to_domain ip ≡ some d
  pub backward :
      (ip : ℕ) (d : Text) → get m.ip_to_domain ip ≡ some d → get m.domain_to_ip d ≡ some ip
  pub inside : (ip : ℕ) (d : Text) → get m.ip_to_domain ip ≡ some d → IsUsable m ip
  pub next_inside : IsUsable m m.next_ip
  pub domains : IsMap m.domain_to_ip
  pub addresses : IsMap m.ip_to_domain
  pub balanced : length m.domain_to_ip ≡ length m.ip_to_domain

mod_of_block :
    (b size n : ℕ) → 0 < size → b * size ≤ n → n < b * size + size → n % size ≡ n - b * size
mod_of_block b size n pos lo hi = grind arith

pub host_part :
    (m : FakeIpMapper) (s : IsShaped m) (n : ℕ)
    → m.network ≤ n
    → n < m.network + 2 ^ s.bits
    → bit_and n (not32 m.mask) ≡ n - m.network
host_part m s n lo hi =
    rw (s.host_mask, bit_and_low s.bits n)
      (omega (arith, mod_of_block s.block (2 ^ s.bits) n (omega arith) (omega arith) (omega arith)))

block_start : (size n : ℕ) → 0 < size → (n / size * size ≤ n) × (n < n / size * size + size)
block_start size n pos = (grind arith, grind arith)

block_unique :
    (b size n : ℕ) → 0 < size → b * size ≤ n → n < b * size + size → n / size * size ≡ b * size
block_unique b size n pos lo hi = grind arith

-- The mask test of the program is membership of the range.
pub net_part_iff :
    (m : FakeIpMapper) (s : IsShaped m) (u : ℕ)
    → u < 2 ^ 32
    → (bit_and u m.mask ≡ m.network) ↔ ((m.network ≤ u) × (u < m.network + 2 ^ s.bits))
net_part_iff m s u lt = (
  λ e.
      let at = block_start (2 ^ s.bits) u (omega arith) in
      (omega (arith, at.0, e, s.net_part u lt), omega (arith, at.1, e, s.net_part u lt)),
  λ h.
      s.net_part u lt
      ∙ block_unique s.block (2 ^ s.bits) u (omega arith) (omega arith) (omega arith)
      ∙ sym s.aligned,
)

-- The pointer moves to the next usable address, and past the last one to the first.
pub advance_lem :
    (m : FakeIpMapper) (cur : ℕ)
    → IsShaped m
    → IsUsable m cur
    → advance m cur ≡ (if cur + 1 == m.network + not32 m.mask then m.network + 2 else cur + 1)
unfolding advance
advance_lem m cur s u =
    let small : (cur + 1) % 2 ^ 32 ≡ cur + 1 = omega arith in
    ground (arith, small, host_part m s (cur + 1))

pub advance-IsUsable :
    (m : FakeIpMapper) (cur : ℕ) → IsShaped m → IsUsable m cur → IsUsable m (advance m cur)
advance-IsUsable m cur s u = ground (arith, advance_lem m cur s u)

module _ (m : FakeIpMapper) (d : Text) (c : IsConsistent m)
    (fresh : get m.domain_to_ip d ≡ none) where
  -- The domain that held the address is another one, since the new one has no address yet.
  old-ne : (old : Text) → get m.ip_to_domain m.next_ip ≡ some old → text_eq old d ≡ false
  old-ne old held = ground (arith, c.backward m.next_ip old, text_eq_iff old d)

  evicted :
      (e : Text) (ip : ℕ)
      → get (evict m (get m.ip_to_domain m.next_ip) d) e ≡ some ip
      → (get m.domain_to_ip e ≡ some ip) × (ip ≢ m.next_ip)
  unfolding evict
  evicted e ip h = elim (Option-cases (get m.ip_to_domain m.next_ip)) [
    | inl free ↦ ground (arith, c.forward e ip)
    | inr (old, held) ↦
        ground
          (arith, old-ne old, get-remove m.domain_to_ip old e, text_eq_iff old e, c.forward e ip)
  ]

  pub kept :
      (e : Text) (ip : ℕ)
      → get m.domain_to_ip e ≡ some ip
      → ip ≢ m.next_ip
      → get (evict m (get m.ip_to_domain m.next_ip) d) e ≡ some ip
  unfolding evict
  kept e ip h other = elim (Option-cases (get m.ip_to_domain m.next_ip)) [
    | inl free ↦ ground arith
    | inr (old, held) ↦ ground (
      arith,
      old-ne old,
      get-remove m.domain_to_ip old e,
      text_eq_iff old e,
      c.backward m.next_ip old,
    )
  ]

  evict-fresh : get (evict m (get m.ip_to_domain m.next_ip) d) d ≡ none
  unfolding evict
  evict-fresh = elim (Option-cases (get m.ip_to_domain m.next_ip)) [
    | inl free ↦ ground arith
    | inr (old, held) ↦ ground (arith, get-remove m.domain_to_ip old d)
  ]

  evict-IsMap : IsMap (evict m (get m.ip_to_domain m.next_ip) d)
  unfolding evict
  evict-IsMap = elim (Option-cases (get m.ip_to_domain m.next_ip)) [
    | inl free ↦ ground (arith, c.domains)
    | inr (old, held) ↦ ground (arith, c.domains, remove-IsMap m.domain_to_ip old c.domains)
  ]

  assign-balanced :
      length (insert (evict m (get m.ip_to_domain m.next_ip) d) d m.next_ip)
      ≡ length (insert m.ip_to_domain m.next_ip d)
  unfolding evict insert
  assign-balanced = elim (Option-cases (get m.ip_to_domain m.next_ip)) [
    | inl free ↦ ground (
      arith,
      length-remove_missing m.domain_to_ip d,
      length-remove_missing m.ip_to_domain m.next_ip,
      c.balanced,
    )
    | inr (old, held) ↦ ground (
      arith,
      old-ne old,
      get-remove m.domain_to_ip old d,
      length-remove_missing (remove m.domain_to_ip old) d,
      length-remove m.domain_to_ip old m.next_ip c.domains (c.backward m.next_ip old held),
      length-remove m.ip_to_domain m.next_ip old c.addresses held,
      c.balanced,
    )
  ]

  pub assign-IsConsistent : IsShaped m → IsConsistent (assign m d).0
  unfolding assign
  assign-IsConsistent s = record {
    forward = λ e ip h. ground (
      arith,
      get-insert (evict m (get m.ip_to_domain m.next_ip) d) d e m.next_ip,
      get-insert m.ip_to_domain m.next_ip ip d,
      text_eq_iff d e,
      evicted e ip,
      c.forward e ip,
    );
    backward = λ ip e h. ground (
      arith,
      get-insert (evict m (get m.ip_to_domain m.next_ip) d) d e m.next_ip,
      get-insert m.ip_to_domain m.next_ip ip d,
      text_eq_iff d e,
      kept e ip,
      c.backward ip e,
    );
    inside = λ ip e h.
        ground (arith, get-insert m.ip_to_domain m.next_ip ip d, c.inside ip e, c.next_inside);
    next_inside = advance-IsUsable m m.next_ip s c.next_inside;
    domains = insert-IsMap (evict m (get m.ip_to_domain m.next_ip) d) d m.next_ip evict-IsMap;
    addresses = insert-IsMap m.ip_to_domain m.next_ip d c.addresses;
    balanced = assign-balanced;
  }

-- ===== src/FakeIp.antt =====
-- dns/fake_ip.rs: the mapper between domains and the addresses of the fake-IP range.
pub mod Persist
pub mod Restore
pub mod Lifecycle
pub mod Reach
pub mod Consistency
pub mod Allocation
use mirage_android.Prelude.{
  ℕ, ◌+◌, ◌%◌, ◌^◌, Bool, true, false, Option, none, some, [], if◌then◌else◌, Text, text_eq, ◌==◌,
  bit_and,
}
use mirage_android.Prelude.{number_key, text_key}
use mirage_android.Data.Maps.{Map, get, insert, remove}
use mirage_android.Data.Words.{prefix_mask, not32}

-- Addresses are 32-bit words.
pub record FakeIpMapper : Type 0 where
  pub network : ℕ
  pub mask : ℕ
  pub prefix_len : ℕ
  pub next_ip : ℕ
  pub domain_to_ip : Map Text ℕ
  pub ip_to_domain : Map ℕ Text
  pub persist_path : Option Text
  pub dirty : Bool

pub data Error : Type 0 where
  invalid_cidr invalid_address invalid_prefix prefix_too_long : Error

pub data Result {ℓ} (A : Type ℓ) : Type ℓ where
  ok : A → Result A
  err : Error → Result A

-- The mapper that `with_persist` builds once the CIDR is parsed, before it loads the cache.
unfoldable pub empty_mapper : ℕ → ℕ → Option Text → FakeIpMapper
empty_mapper ip prefix persist_path =
    let network = bit_and ip (prefix_mask prefix) in
    record {
      network = network;
      mask = prefix_mask prefix;
      prefix_len = prefix;
      next_ip = (network + 2) % 2 ^ 32;
      domain_to_ip = [];
      ip_to_domain = [];
      persist_path = persist_path;
      dirty = false;
    }

-- The round-robin successor of an address: past the last one it starts again at `.2`.
unfoldable pub advance : FakeIpMapper → ℕ → ℕ
advance m cur =
    let n = (cur + 1) % 2 ^ 32 in
    if bit_and n (not32 m.mask) == not32 m.mask then (m.network + 2) % 2 ^ 32 else n

-- The forward map without the domain that held the address before.
unfoldable pub evict : FakeIpMapper → Option Text → Text → Map Text ℕ
evict m none domain = m.domain_to_ip
evict m (some old) domain = if text_eq old domain then m.domain_to_ip else remove m.domain_to_ip old

unfoldable pub assign : FakeIpMapper → Text → FakeIpMapper × ℕ
unfolding advance evict
assign m domain =
    let ip = m.next_ip in
    (
      record m {
        next_ip = advance m ip;
        domain_to_ip = insert (evict m (get m.ip_to_domain ip) domain) domain ip;
        ip_to_domain = insert m.ip_to_domain ip domain;
        dirty = true;
      },
      ip,
    )

-- The part of `lookup_or_assign` under the write lock: it looks again, then assigns.
unfoldable pub slow_path : FakeIpMapper → Text → FakeIpMapper × ℕ
unfolding assign
slow_path m domain = elim (get m.domain_to_ip domain) [ some ip ↦ (m, ip) | none ↦ assign m domain ]

-- `to_lowercase` is a parameter, which the proofs take as it comes.
unfoldable pub lookup_or_assign : (Text → Text) → FakeIpMapper → Text → FakeIpMapper × ℕ
unfolding slow_path
lookup_or_assign to_lowercase m domain =
    let domain' = to_lowercase domain in
    elim (get m.domain_to_ip domain') [ some ip ↦ (m, ip) | none ↦ slow_path m domain' ]

unfoldable pub lookup_domain : FakeIpMapper → ℕ → Option Text
lookup_domain m ip = get m.ip_to_domain ip

unfoldable pub is_fake_ip : FakeIpMapper → ℕ → Bool
is_fake_ip m ip = bit_and ip m.mask == m.network

unfoldable pub clear : FakeIpMapper → FakeIpMapper
clear m = record m {
  next_ip = (m.network + 2) % 2 ^ 32;
  domain_to_ip = [];
  ip_to_domain = [];
  dirty = false;
}

-- ===== src/FakeIp/Restore.antt =====
-- Whatever the cache file holds, the mapper hands out no reserved address from it.
use mirage_android.Prelude.{
  if_keeps, sym, ◌∙◌, ap, Bool-cases, ℕ, ◌+◌, ◌-◌, ◌^◌, ◌≤◌, ◌<◌, ◌≡◌, refl, true, Option, none,
  some, List, [], ◌∷◌, arith, Text, number_key, text_key, Option-cases, inl, inr,
}
use mirage_android.Data.Maps.{get, get-insert}
use mirage_android.Data.Texts.{bytes, trim}
use mirage_android.Data.Numerals.{
  split, split_once, strip_prefix, parse_unsigned-le, parse_ipv4, parse_ipv4-lt,
}
use mirage_android.Data.Words.{not32}
use mirage_android.FakeIp.{slow_path, assign, FakeIpMapper}
use mirage_android.FakeIp.Consistency.{IsShaped, shape_of, IsUsable, net_part_iff, host_part}
use mirage_android.FakeIp.Persist.{
  Loading, accepts, load_entry, load_pair, load_item, is_skipped, load_line, load_lines, is_next,
  restore_next, load,
}

accepts-IsUsable :
    (m : FakeIpMapper) (ip : ℕ) → IsShaped m → ip < 2 ^ 32 → accepts m ip ≡ true → IsUsable m ip
unfolding accepts
accepts-IsUsable m ip s lt h =
    let inside : (m.network ≤ ip) × (ip < m.network + 2 ^ s.bits) =
      (net_part_iff m s ip lt).0 (ground arith) in
    ground (arith, host_part m s ip inside.0 inside.1, s.host_mask)

-- `base` gives the range, which loading leaves alone.
pub record IsInside (base m : FakeIpMapper) : Type 0 where
  pub same_network : m.network ≡ base.network
  pub same_mask : m.mask ≡ base.mask
  pub names : (d : Text) (ip : ℕ) → get m.domain_to_ip d ≡ some ip → IsUsable base ip
  pub addresses : (ip : ℕ) (d : Text) → get m.ip_to_domain ip ≡ some d → IsUsable base ip
  pub next_low : base.network ≤ m.next_ip
  pub next_high : m.next_ip < base.network + not32 base.mask

-- With the pointer that the file names a 32-bit word.
record IsLoading (base : FakeIpMapper) (s : Loading) : Type 0 where
  inside : IsInside base s.mapper
  word : (n : ℕ) → s.loaded_next ≡ some n → n < 2 ^ 32

loaded_next-load_pair :
    (to_lowercase : Text → Text) (s : Loading) (p : Option (Text × Text))
    → (load_pair to_lowercase s p).loaded_next ≡ s.loaded_next
unfolding load_pair load_entry
loaded_next-load_pair to_lowercase s none = refl
loaded_next-load_pair to_lowercase s (some (ip, [])) = refl
loaded_next-load_pair to_lowercase s (some (ip, c ∷ dom)) = ground arith

module _ (to_lowercase : Text → Text) (base : FakeIpMapper) (shape : IsShaped base) where
  load_entry-IsInside :
      (s : Loading) (ip : ℕ) (dom : Text)
      → ip < 2 ^ 32
      → IsInside base s.mapper
      → IsInside base (load_entry to_lowercase s (some ip) dom).mapper
  unfolding load_entry
  load_entry-IsInside s ip dom lt h = elim (Bool-cases (accepts s.mapper ip)) [
    | inl good ↦
        let usable =
          accepts-IsUsable s.mapper ip (shape_of h.same_network h.same_mask shape) lt good in
        rw good (record {
          same_network = h.same_network;
          same_mask = h.same_mask;
          next_low = h.next_low;
          next_high = h.next_high;
          names = λ d a e. ground (
            arith,
            get-insert s.mapper.domain_to_ip (to_lowercase dom) d ip,
            h.names d a,
            h.same_network,
            h.same_mask,
            ap not32 h.same_mask,
            usable,
          );
          addresses = λ a d e. ground (
            arith,
            get-insert s.mapper.ip_to_domain ip a (to_lowercase dom),
            h.addresses a d,
            h.same_network,
            h.same_mask,
            ap not32 h.same_mask,
            usable,
          );
        })
    | inr bad ↦ rw bad h
  ]

  load_pair-IsInside :
      (s : Loading) (p : Option (Text × Text))
      → IsInside base s.mapper
      → IsInside base (load_pair to_lowercase s p).mapper
  unfolding load_pair load_entry
  load_pair-IsInside s none h = h
  load_pair-IsInside s (some (ip, [])) h = h
  load_pair-IsInside s (some (ip, c ∷ dom)) h = elim (Option-cases (parse_ipv4 ip)) [
    | inl e ↦ rw e h
    | inr (a, e) ↦ rw e (load_entry-IsInside s a (c ∷ dom) (parse_ipv4-lt ip a e) h)
  ]

  load_pair-IsLoading :
      (s : Loading) (p : Option (Text × Text))
      → IsLoading base s
      → IsLoading base (load_pair to_lowercase s p)
  load_pair-IsLoading s p h = record {
    inside = load_pair-IsInside s p h.inside;
    word = λ n e. h.word n (sym (loaded_next-load_pair to_lowercase s p) ∙ e);
  }

  load_item-IsLoading :
      (s : Loading) (line : Text)
      → IsLoading base s
      → IsLoading base (load_item to_lowercase s line)
  unfolding load_item
  load_item-IsLoading s line h = elim (Option-cases (strip_prefix (bytes "next_ip=") line)) [
    | inl e ↦ rw (e, load_item) (load_pair-IsLoading s (split_once b' ' line) h)
    | inr (v, e) ↦
        rw (e, load_item)
          (record {
            inside = h.inside;
            word = λ n got. omega (arith, parse_unsigned-le (2 ^ 32 - 1) (trim v) n got);
          })
  ]

  load_line-IsLoading :
      (s : Loading) (line : Text)
      → IsLoading base s
      → IsLoading base (load_line to_lowercase s line)
  unfolding load_line
  load_line-IsLoading s line h =
      if_keeps (IsLoading base) (is_skipped (trim line)) (λ _. h)
        (λ _. load_item-IsLoading s (trim line) h)

  load_lines-IsLoading :
      (s : Loading) (lines : List Text)
      → IsLoading base s
      → IsLoading base (load_lines to_lowercase s lines)
  unfolding load_lines
  load_lines-IsLoading s [] h = h
  load_lines-IsLoading s (line ∷ lines) h =
      load_lines-IsLoading (load_line to_lowercase s line) lines (load_line-IsLoading s line h)

  restore_next-IsInside :
      (m : FakeIpMapper) (n : Option ℕ)
      → ((k : ℕ) → n ≡ some k → k < 2 ^ 32)
      → IsInside base m
      → IsInside base (restore_next m n)
  unfolding restore_next
  restore_next-IsInside m none word h = h
  restore_next-IsInside m (some n) word h =
      let here : IsShaped m = shape_of h.same_network h.same_mask shape in
      if_keeps (IsInside base) (is_next m n)
        (λ taken.
          let inside : (m.network ≤ n) × (n < m.network + 2 ^ here.bits) =
            (net_part_iff m here n (word n refl)).0 (ground arith) in
          let host = host_part m here n inside.0 inside.1 in
          record {
            same_network = h.same_network;
            same_mask = h.same_mask;
            names = h.names;
            addresses = h.addresses;
            next_low = omega (arith, inside, h.same_network);
            next_high =
                ground (arith, inside, host, here.host_mask, h.same_network, ap not32 h.same_mask);
          })
        (λ _. h)

  pub load-IsInside :
      (m : FakeIpMapper) (content : Text)
      → IsInside base m
      → IsInside base (load to_lowercase m content)
  unfolding load
  load-IsInside m content h =
      let loaded =
        load_lines-IsLoading (record { mapper = m; loaded_next = none }) (split 10 content)
          (record { inside = h; word = λ n e. cc }) in
      restore_next-IsInside _ _ loaded.word loaded.inside

-- In a well-formed range, a pointer of the cache file at the network address or the one behind it
-- is taken over; the next domain without an address gets that address, though it is not a usable
-- one.
pub restore_next_reserved :
    (m : FakeIpMapper) (n : ℕ) (d : Text)
    → IsShaped m
    → m.network ≤ n
    → n < m.network + 2
    → get m.domain_to_ip d ≡ none
    → ((slow_path (restore_next m (some n)) d).1 ≡ n) × ¬ IsUsable m n
unfolding restore_next slow_path assign
restore_next_reserved m n d s lo hi fresh =
    let net =
      (net_part_iff m s n (omega (arith, s.fits, s.roomy))).1 (lo, omega (arith, s.roomy)) in
    let host = host_part m s n lo (omega (arith, s.roomy)) in
    let taken : is_next m n ≡ true = ground (arith, net, host, s.host_mask, s.roomy) in
    (ground (arith, taken, fresh), λ u. omega (arith, u.0))

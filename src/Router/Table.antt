-- ===== src/Router/Table.antt =====
-- direct.rs: the table look-up agrees with a scan of the table, block by block.
use mirage_android.Prelude.{
  ℕ, ◌+◌, ◌-◌, ◌*◌, ◌/◌, ◌^◌, ◌≤◌, ◌<◌, ◌≡◌, refl, sym, ap, ◌∙◌, Bool, false, ◌||◌, List, [], ◌∷◌,
  map, arith, if◌then◌else◌, any, All,
}
use native.Mathlib.Nat.{one-le-pow}
use mirage_android.Data.Words.{not32-prefix_mask, bit_and-prefix_mask, split_word}
use mirage_android.Data.Masks.{bit_or-block}
use mirage_android.Net.Cidr.{new_v4, contains_v4}
use mirage_android.Net.Private.{block_test}
use mirage_android.Net.Address.{v4, is_fake_ip}
use mirage_android.Data.Texts.{bytes}
use mirage_android.Geo.{GeoStore, match_geoip}
use mirage_android.Router.CnIp.{
  Range, entry_range, sort_ranges, merge_ranges, cn_ranges, within, in_ranges, is_cn_ip,
}
use mirage_android.Router.Merge.{
  IsRange, covers, Sorted, Disjoint, sort_ranges-Sorted, covers-sort_ranges, covers-merge_after,
  merge_after-Disjoint,
}
use mirage_android.Router.Search.{in_ranges-covers}

-- A 32-bit address with a prefix of at most 32 bits.
abbrev pub IsEntry : ℕ × ℕ → Type 0
IsEntry (net, prefix) = (net < 2 ^ 32) × (prefix ≤ 32)

-- An entry is read as a CIDR block.
abbrev pub entry_has : ℕ → ℕ × ℕ → Bool
entry_has t (net, prefix) = contains_v4 (new_v4 net prefix) t

entry_range_lem :
    (net prefix : ℕ)
    → net < 2 ^ 32
    → prefix ≤ 32
    → entry_range (net, prefix) ≡ (
      net / 2 ^ (32 - prefix) * 2 ^ (32 - prefix),
      net / 2 ^ (32 - prefix) * 2 ^ (32 - prefix) + (2 ^ (32 - prefix) - 1),
    )
unfolding entry_range
entry_range_lem net prefix lt h =
    rw
      (
        not32-prefix_mask prefix h,
        bit_and-prefix_mask prefix net h lt,
        bit_or-block (32 - prefix) (net / 2 ^ (32 - prefix)),
      )
      refl

block_fits :
    (size words net : ℕ)
    → 0 < size
    → words * size ≡ 2 ^ 32
    → net < 2 ^ 32
    → net / size * size + (size - 1) < 2 ^ 32
block_fits size words net pos e lt = grind arith

entry_range-IsRange : (x : ℕ × ℕ) → IsEntry x → IsRange (entry_range x)
entry_range-IsRange (net, prefix) (lt, h) = rw (entry_range_lem net prefix lt h) (
  omega arith,
  block_fits (2 ^ (32 - prefix)) (2 ^ prefix) net (one-le-pow (32 - prefix) 2 (omega arith))
      (split_word prefix h) lt,
)

within-entry_range :
    (t : ℕ) (x : ℕ × ℕ) → IsEntry x → t < 2 ^ 32 → within t (entry_range x) ≡ entry_has t x
unfolding contains_v4 new_v4
within-entry_range t (net, prefix) (lt, h) small =
    rw
      (
        entry_range_lem net prefix lt h,
        bit_and-prefix_mask prefix t h small,
        bit_and-prefix_mask prefix net h lt,
      )
      (sym (
        block_test (2 ^ (32 - prefix)) t (net / 2 ^ (32 - prefix))
          (one-le-pow (32 - prefix) 2 (omega arith))))

covers-entries :
    (table : List (ℕ × ℕ)) (t : ℕ)
    → All IsEntry table
    → t < 2 ^ 32
    → covers (map entry_range table) t ≡ any (entry_has t) table
unfolding any
covers-entries [] t h small = refl
covers-entries (x ∷ table) t (h, hs) small =
    rw (within-entry_range t x h small)
      (ap (λ (b : Bool). entry_has t x || b) (covers-entries table t hs small))

entries-IsRange : (table : List (ℕ × ℕ)) → All IsEntry table → All IsRange (map entry_range table)
entries-IsRange [] h = tt
entries-IsRange (x ∷ table) (h, hs) = (entry_range-IsRange x h, entries-IsRange table hs)

covers-merge_ranges :
    (rs : List Range) (t : ℕ) → Sorted 0 rs → covers (merge_ranges rs) t ≡ covers rs t
unfolding merge_ranges any
covers-merge_ranges [] t h = refl
covers-merge_ranges ((s, e) ∷ rs) t (low, fit, top, h) = covers-merge_after s e rs t fit top h

merge_ranges-Disjoint : (rs : List Range) → Sorted 0 rs → Disjoint 0 (merge_ranges rs)
unfolding merge_ranges
merge_ranges-Disjoint [] h = tt
merge_ranges-Disjoint ((s, e) ∷ rs) (low, fit, top, h) = merge_after-Disjoint 0 s e rs low fit top h

in_ranges-cn_ranges :
    (table : List (ℕ × ℕ)) (t : ℕ)
    → All IsEntry table
    → t < 2 ^ 32
    → in_ranges (cn_ranges table) t ≡ any (entry_has t) table
unfolding cn_ranges
in_ranges-cn_ranges table t h small =
    let ranges = map entry_range table in
    let sorted = sort_ranges-Sorted ranges (entries-IsRange table h) in
    in_ranges-covers (merge_ranges (sort_ranges ranges)) t
      (merge_ranges-Disjoint (sort_ranges ranges) sorted)
    ∙ (covers-merge_ranges (sort_ranges ranges) t sorted
        ∙ (covers-sort_ranges ranges t ∙ covers-entries table t h small))

-- For a table of 32-bit addresses with prefixes of at most 32 bits, in any order and with any
-- overlaps, sorting it, merging it and searching it by halves answers as testing the address
-- against each block of the table does; fake addresses are never domestic.
pub is_cn_ip-scan :
    {R : Type 0} (store : GeoStore R) (table : List (ℕ × ℕ)) (t : ℕ)
    → All IsEntry table
    → t < 2 ^ 32
    → is_cn_ip store table (v4 t) ≡ (
        if is_fake_ip (v4 t)
        then false
        else match_geoip store (bytes "CN") (v4 t) || any (entry_has t) table)
unfolding is_cn_ip
is_cn_ip-scan store table t h small = rw (in_ranges-cn_ranges table t h small) (ground arith)

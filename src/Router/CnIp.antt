-- ===== src/Router/CnIp.antt =====
-- direct.rs: the test for domestic addresses, with its merged table and binary search.
use mirage_android.Prelude.{
  ℕ, zero, suc, ◌+◌, ◌-◌, ◌/◌, ◌^◌, Bool, true, false, not, ◌&&◌, ◌||◌, Option, none, some, List,
  [], ◌∷◌, map, if◌then◌else◌, leb, ltb, ◌==◌, length, get_elem?, bit_and, bit_or,
}
use mirage_android.Data.Texts.{bytes}
use mirage_android.Data.Words.{prefix_mask, not32}
use mirage_android.Net.Address.{IpAddr, v4, v6, is_fake_ip, is_private_ip, segment}
use mirage_android.Geo.{GeoStore, match_geoip}

-- First and last address.
abbrev pub Range : Type 0
Range = ℕ × ℕ

-- A table entry is an address and a prefix length.
unfoldable pub entry_range : ℕ × ℕ → Range
unfolding prefix_mask not32
entry_range (net, prefix) =
    let start = bit_and net (prefix_mask prefix) in
    (start, bit_or start (not32 (prefix_mask prefix)))

-- `sort_unstable_by_key`, by the first address.
unfoldable pub insert_range : Range → List Range → List Range
insert_range r [] = r ∷ []
insert_range r (x ∷ xs) =
    let rest = insert_range r xs in if leb (r.0) (x.0) then r ∷ x ∷ xs else x ∷ rest

unfoldable pub sort_ranges : List Range → List Range
unfolding insert_range
sort_ranges [] = []
sort_ranges (r ∷ rs) = insert_range r (sort_ranges rs)

-- `last.1.saturating_add(1)` on 32 bits.
abbrev pub next_address : ℕ → ℕ
next_address e = if ltb e (2 ^ 32 - 1) then e + 1 else 2 ^ 32 - 1

-- The loop over the sorted ranges; the last merged range is the first argument.
unfoldable pub merge_after : Range → List Range → List Range
merge_after last [] = last ∷ []
merge_after (a, b) ((s, e) ∷ rs) =
    let joined = merge_after (a, (if ltb b e then e else b)) rs in
    let apart = merge_after (s, e) rs in if leb s (next_address b) then joined else (a, b) ∷ apart

unfoldable pub merge_ranges : List Range → List Range
unfolding merge_after
merge_ranges [] = []
merge_ranges (r ∷ rs) = merge_after r rs

unfoldable pub cn_ranges : List (ℕ × ℕ) → List Range
unfolding merge_ranges sort_ranges entry_range
cn_ranges table = merge_ranges (sort_ranges (map entry_range table))

abbrev pub within : ℕ → Range → Bool
within t (lo, hi) = leb lo t && leb t hi

-- The comparison of the search: `Greater` goes left, `Less` goes right.
abbrev pub compare_range : Option Range → ℕ → Bool → Bool → Bool
compare_range none t left right = false
compare_range (some (start, end)) t left right =
    if ltb t start then left else if ltb end t then right else true

-- `binary_search_by(..).is_ok()` between two places; the fuel bounds their distance.
unfoldable pub search_between : ℕ → List Range → ℕ → ℕ → ℕ → Bool
search_between zero xs t lo hi = false
search_between (suc fuel) xs t lo hi =
    let mid = lo + (hi - lo) / 2 in
    let left = search_between fuel xs t lo mid in
    let right = search_between fuel xs t (mid + 1) hi in
    if leb hi lo then false else compare_range (get_elem? xs mid) t left right

unfoldable pub in_ranges : List Range → ℕ → Bool
unfolding search_between
in_ranges xs t = search_between (length xs) xs t 0 (length xs)

unfoldable pub is_cn_v6 : ℕ → Bool
unfolding segment
is_cn_v6 u =
    let top = segment u 0 in
    let second = segment u 1 in
    (leb 0x2408 top && leb top 0x240f)
    || ((top == 0x2400 && (second == 0x3200 || second == 0xda00))
        || (top == 0x2001 && (second == 0xda8 || (second == 0x250 || second == 0xcc0))))

abbrev pub in_builtin : List (ℕ × ℕ) → IpAddr → Bool
in_builtin table (v4 u) = in_ranges (cn_ranges table) u
in_builtin table (v6 u) = is_cn_v6 u

-- The built-in table is generated data, and an argument.
unfoldable pub is_cn_ip : {R : Type 0} → GeoStore R → List (ℕ × ℕ) → IpAddr → Bool
unfolding is_fake_ip match_geoip in_ranges cn_ranges is_cn_v6
is_cn_ip store table ip =
    if is_fake_ip ip
    then false
    else if match_geoip store (bytes "CN") ip
    then true
    else in_builtin table ip

unfoldable pub is_trustworthy_cn_answer : {R : Type 0} → GeoStore R → List (ℕ × ℕ) → IpAddr → Bool
unfolding is_private_ip is_cn_ip
is_trustworthy_cn_answer store table ip = not (is_private_ip ip) && is_cn_ip store table ip

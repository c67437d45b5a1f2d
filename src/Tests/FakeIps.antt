-- ===== src/Tests/FakeIps.antt =====
-- The fake-IP mapper of 10.0.0.0/29, whose usable addresses are `.2` to `.6`.
use mirage_android.Prelude.{
  ◌+◌, ◌≤◌, ◌<◌, ◌≡◌, refl, none, some, [], ◌∷◌, ◌++◌, arith, Text, length, number_key, text_key,
  text_eq,
}
use mirage_android.Data.Maps.{get, insert, remove}
use mirage_android.Data.Texts.{bytes, to_ascii_lowercase, trim, starts_with}
use mirage_android.Data.Words.{not32, prefix_mask}
use mirage_android.Data.Numerals.{ipv4, parse_ipv4, parse_unsigned, split, split_once, strip_prefix}
use mirage_android.FakeIp.{
  FakeIpMapper, ok, err, prefix_too_long, empty_mapper, lookup_or_assign, slow_path, lookup_domain,
  clear,
}
use mirage_android.FakeIp.Consistency.{IsShaped, IsConsistent, IsUsable}
use mirage_android.FakeIp.Restore.{restore_next_reserved}
use mirage_android.FakeIp.Allocation.{
  lookup_many, lookup_domain-lookup_or_assign, fresh_address_stable,
}
use mirage_android.FakeIp.Persist.{restore_next, with_persist, load}
use mirage_android.FakeIp.Lifecycle.{IsRestored, with_persist-IsRestored, with_persist-fresh}
use mirage_android.FakeIp.Reach.{look_late, clears, here, next, reachable_sound}

abbrev lower : Text → Text
lower = to_ascii_lowercase

abbrev small : FakeIpMapper
unfolding empty_mapper prefix_mask
small = empty_mapper (ipv4 10 0 0 0) 29 none

abbrev cidr : Text
cidr = bytes "10.0.0.0/29"

small_built : with_persist lower cidr none none ≡ ok (empty_mapper (ipv4 10 0 0 0) 29 none)
unfolding with_persist parse_ipv4 parse_unsigned split empty_mapper prefix_mask
small_built = refl

too_small_refused : with_persist lower (bytes "10.0.0.0/30") none none ≡ err prefix_too_long
unfolding with_persist parse_ipv4 parse_unsigned split empty_mapper prefix_mask
too_small_refused = refl

abbrev alpha : Text
alpha = bytes "Alpha.example"

abbrev beta : Text
beta = bytes "beta.example"

abbrev loaded_file : Text
loaded_file =
    bytes "next_ip=167772163"
    ++ (10 ∷ (bytes "10.0.0.4 Alpha.example" ++ (10 ∷ bytes "10.9.9.9 out.example")))

abbrev mapper_of : FakeIpMapper
mapper_of = empty_mapper (ipv4 10 0 0 0) 29 none

small_sound : IsShaped mapper_of × IsConsistent mapper_of
small_sound = with_persist-fresh lower cidr none small_built

reachable_sound_example :
    IsConsistent (slow_path (clear mapper_of) beta).0
    × (length (slow_path (clear mapper_of) beta).0.domain_to_ip + 2
        ≤ not32 (slow_path (clear mapper_of) beta).0.mask)
reachable_sound_example =
    reachable_sound lower cidr none small_built (next (next here clears) (look_late beta))

lookup_domain-lookup_or_assign_example :
    let r = lookup_or_assign lower mapper_of alpha in
    (lookup_domain r.0 r.1 ≡ some (lower alpha)) × (get r.0.domain_to_ip (lower alpha) ≡ some r.1)
lookup_domain-lookup_or_assign_example =
    lookup_domain-lookup_or_assign lower mapper_of alpha small_sound.1

small_fresh : get mapper_of.domain_to_ip (lower alpha) ≡ none
unfolding empty_mapper get
small_fresh = refl

small_room : 2 + 3 ≤ not32 mapper_of.mask
unfolding empty_mapper not32 prefix_mask
small_room = omega arith

fresh_address_stable_example :
    let r = lookup_or_assign lower mapper_of alpha in
    (lookup_or_assign lower (lookup_many lower r.0 (beta ∷ alpha ∷ [])) alpha).1 ≡ r.1
fresh_address_stable_example =
    fresh_address_stable lower mapper_of alpha (beta ∷ alpha ∷ []) small_sound.0 small_sound.1
      small_fresh small_room

loaded_built :
    with_persist lower cidr (some (bytes "cache")) (some loaded_file)
    ≡ ok (load lower (empty_mapper (ipv4 10 0 0 0) 29 (some (bytes "cache"))) loaded_file)
unfolding with_persist parse_ipv4 parse_unsigned split
loaded_built = refl

with_persist-IsRestored_example :
    IsRestored (load lower (empty_mapper (ipv4 10 0 0 0) 29 (some (bytes "cache"))) loaded_file)
with_persist-IsRestored_example =
    with_persist-IsRestored lower cidr (some (bytes "cache")) (some loaded_file) loaded_built

-- The cache line of the range is taken, the other one is not.
load_run :
    (get (load lower mapper_of loaded_file).ip_to_domain (ipv4 10 0 0 4)
      ≡ some (bytes "alpha.example"))
    × (get (load lower mapper_of loaded_file).ip_to_domain (ipv4 10 9 9 9) ≡ none)
    × ((load lower mapper_of loaded_file).next_ip ≡ ipv4 10 0 0 3)
unfolding load empty_mapper prefix_mask not32 get insert remove parse_ipv4 parse_unsigned split
    split_once strip_prefix to_ascii_lowercase trim starts_with text_eq
load_run = (refl, refl, refl)

assign_run : (lookup_or_assign lower mapper_of alpha).1 ≡ ipv4 10 0 0 2
unfolding lookup_or_assign empty_mapper prefix_mask get
assign_run = refl

reserved_low : mapper_of.network ≤ ipv4 10 0 0 1
unfolding empty_mapper prefix_mask
reserved_low = omega arith

reserved_high : ipv4 10 0 0 1 < mapper_of.network + 2
unfolding empty_mapper prefix_mask
reserved_high = omega arith

restore_next_reserved_example :
    ((slow_path (restore_next mapper_of (some (ipv4 10 0 0 1))) beta).1 ≡ ipv4 10 0 0 1)
    × ¬ IsUsable mapper_of (ipv4 10 0 0 1)
unfolding get empty_mapper
restore_next_reserved_example =
    restore_next_reserved mapper_of (ipv4 10 0 0 1) beta small_sound.0 reserved_low reserved_high
      refl

-- ===== src/Dns/Cache.antt =====
-- tun/dns.rs: the bounded cache of resolved domains and of what was learned about them.
use mirage_android.Prelude.{
  ℕ, ◌-◌, ◌*◌, ◌≤◌, ◌<◌, ◌≡◌, refl, Bool, Option, none, some, [], ◌∷◌, arith, if◌then◌else◌, Text,
  text_key, length, leb, ltb,
}
use mirage_android.Data.Maps.{
  Map, get, insert, remove, IsMap, get-insert_self, length-remove, length-remove-le, remove-IsMap,
  insert-IsMap,
}
use mirage_android.Data.Texts.{clean_domain}
use mirage_android.Net.Address.{IpAddr, v4}

-- The tuple `(ip, is_direct, at)`; a time is in nanoseconds.
pub record Cached : Type 0 where
  pub ip : ℕ
  pub is_direct : Bool
  pub at : ℕ

abbrev pub cache_ttl : ℕ
cache_ttl = 1800 * 1000000000

abbrev pub direct_cache_max : ℕ
direct_cache_max = 4096

-- `at.elapsed() < CACHE_TTL`; a clock that ran back has elapsed nothing.
abbrev pub is_live : ℕ → Cached → Bool
is_live now c = ltb (now - c.at) cache_ttl

-- `retain`, by the age of an entry.
unfoldable pub retain_live : ℕ → Map Text Cached → Map Text Cached
retain_live now [] = []
retain_live now ((d, c) ∷ m) =
    let rest = retain_live now m in if is_live now c then (d, c) ∷ rest else rest

abbrev drop_key : Option Text → Map Text Cached → Map Text Cached
drop_key none m = m
drop_key (some d) m = remove m d

-- `keys().next()` is up to the map, so it is an argument.
unfoldable pub make_room : (Map Text Cached → Option Text) → ℕ → Map Text Cached → Map Text Cached
unfolding retain_live
make_room first_key now m =
    let kept = retain_live now m in
    if leb direct_cache_max (length m)
    then if leb direct_cache_max (length kept) then drop_key (first_key kept) kept else kept
    else m

unfoldable pub insert_direct_cache :
    (Map Text Cached → Option Text) → ℕ → Text → ℕ → Bool → Map Text Cached → Map Text Cached
unfolding make_room clean_domain
insert_direct_cache first_key now domain ip is_direct m =
    insert (make_room first_key now m) (clean_domain domain)
      (record { ip = ip; is_direct = is_direct; at = now })

abbrev live : ℕ → Option Cached → Option Cached
live now none = none
live now (some c) = if is_live now c then some c else none

abbrev answer_ip : Option Cached → Option IpAddr
answer_ip none = none
answer_ip (some c) = some (v4 c.ip)

abbrev answer_direct : Option Cached → Option Bool
answer_direct none = none
answer_direct (some c) = some c.is_direct

unfoldable pub direct_dns_lookup : ℕ → Text → Map Text Cached → Option IpAddr
unfolding clean_domain
direct_dns_lookup now domain m = answer_ip (live now (get m (clean_domain domain)))

unfoldable pub is_dynamic_direct_domain : ℕ → Text → Map Text Cached → Option Bool
unfolding clean_domain
is_dynamic_direct_domain now domain m = answer_direct (live now (get m (clean_domain domain)))

get-retain_live :
    (now : ℕ) (m : Map Text Cached) (d : Text) → get m d ≡ none → get (retain_live now m) d ≡ none
unfolding retain_live get
get-retain_live now [] d h = refl
get-retain_live now ((e, c) ∷ m) d h = ground (arith, get-retain_live now m d)

retain_live-IsMap : (now : ℕ) (m : Map Text Cached) → IsMap m → IsMap (retain_live now m)
unfolding retain_live
retain_live-IsMap now [] h = tt
retain_live-IsMap now ((e, c) ∷ m) h =
    ground (arith, retain_live-IsMap now m h.1, get-retain_live now m e)

length-retain_live : (now : ℕ) (m : Map Text Cached) → length (retain_live now m) ≤ length m
unfolding retain_live
length-retain_live now [] = omega arith
length-retain_live now ((e, c) ∷ m) = ground (arith, length-retain_live now m)

drop_key-IsMap : (o : Option Text) (m : Map Text Cached) → IsMap m → IsMap (drop_key o m)
drop_key-IsMap none m h = h
drop_key-IsMap (some d) m h = remove-IsMap m d h

-- What the map promises: a map that is not empty has a first key, and it is one of its keys.
abbrev pub GivesKey : (Map Text Cached → Option Text) → Type 0
GivesKey first_key =
    (m : Map Text Cached)
    → 0 < length m
    → (d : Text) × (c : Cached) × (first_key m ≡ some d) × (get m d ≡ some c)

drop_first-bound :
    (first_key : Map Text Cached → Option Text) (m : Map Text Cached)
    → GivesKey first_key
    → IsMap m
    → length m ≡ direct_cache_max
    → length (drop_key (first_key m) m) < direct_cache_max
drop_first-bound first_key m gives h full =
    let (d, c, first, held) = gives m (omega arith) in
    rw first (omega (arith, length-remove m d c h held))

make_room-bound :
    (first_key : Map Text Cached → Option Text) (now : ℕ) (m : Map Text Cached)
    → GivesKey first_key
    → IsMap m
    → length m ≤ direct_cache_max
    → IsMap (make_room first_key now m) × (length (make_room first_key now m) < direct_cache_max)
unfolding make_room
make_room-bound first_key now m gives h bound =
    let kept = retain_live-IsMap now m h in
    let few = length-retain_live now m in
    let dropped = drop_key-IsMap (first_key (retain_live now m)) (retain_live now m) kept in
    let full = drop_first-bound first_key (retain_live now m) gives kept in ground arith

-- If the cache of direct answers has one entry for each domain and at most 4096 entries, and a map
-- that is not empty gives one of its keys as the first, it keeps to that when an answer is put in
-- at any time; the next look-up of the domain, in any spelling and within the code's CACHE_TTL of
-- half an hour, has the answer that was put in.
pub insert_direct_cache-lookup :
    (first_key : Map Text Cached → Option Text) (now later : ℕ) (domain spelling : Text) (ip : ℕ)
    (is_direct : Bool) (m : Map Text Cached)
    → GivesKey first_key
    → IsMap m
    → length m ≤ direct_cache_max
    → clean_domain spelling ≡ clean_domain domain
    → later - now < cache_ttl
    → IsMap (insert_direct_cache first_key now domain ip is_direct m)
      × (length (insert_direct_cache first_key now domain ip is_direct m) ≤ direct_cache_max)
      × (is_dynamic_direct_domain later spelling
            (insert_direct_cache first_key now domain ip is_direct m)
          ≡ some is_direct)
      × (direct_dns_lookup later spelling (insert_direct_cache first_key now domain ip is_direct m)
          ≡ some (v4 ip))
unfolding insert_direct_cache is_dynamic_direct_domain direct_dns_lookup
insert_direct_cache-lookup first_key now later domain spelling ip is_direct m gives h bound same
      fresh =
    let room = make_room-bound first_key now m gives h bound in
    let found =
      get-insert_self (make_room first_key now m) (clean_domain domain)
        (record { ip = ip; is_direct = is_direct; at = now }) in
    (
      insert-IsMap (make_room first_key now m) (clean_domain domain) _ room.0,
      unfold insert in
          omega (arith, room, length-remove-le (make_room first_key now m) (clean_domain domain)),
      rw (same, found) (ground arith),
      rw (same, found) (ground arith),
    )

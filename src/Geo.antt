-- ===== src/Geo.antt =====
-- geo.rs: the rule tables of domains and addresses, and their matchers.
pub mod Index
pub mod Wire
pub mod Files
pub mod Loaded
pub mod Fuel
pub mod Runs
pub mod Enough
use mirage_android.Prelude.{
  ℕ, suc, zero, Bool, true, false, ◌||◌, Option, none, some, List, [], ◌∷◌, if◌then◌else◌, Text,
  text_eq, text_key, any, contains, length, ◌==◌,
}
use mirage_android.Data.Maps.{Map, get}
use mirage_android.Data.Texts.{
  bytes, dot, is_under, clean_domain, contains_text, trim, to_ascii_uppercase,
}
use mirage_android.Net.Address.{IpAddr, v4, v6, is_fake_ip, is_private_ip}
use mirage_android.Net.Cidr.{Ipv4Cidr, Ipv6Cidr, contains_v4, contains_v6}
use mirage_android.Net.Domains.{is_lan_or_router_domain}

-- The regex crate: how it compiles a pattern and matches a text is not modelled.
pub record RegexEngine : Type 1 where
  pub Regex : Type 0
  pub compile : Text → Option Regex
  pub is_match : Regex → Text → Bool

-- `regex` keeps the source and, if it compiled, the program.
pub data SiteDomain (R : Type 0) : Type 0 where
  keyword : Text → SiteDomain R
  regex : Text → Option R → SiteDomain R
  suffix : Text → SiteDomain R
  exact : Text → SiteDomain R

pub record GeoSiteMatcher (R : Type 0) : Type 0 where
  pub count : ℕ
  pub exact_set : List Text
  pub suffix_set : List Text
  pub other_rules : List (SiteDomain R)

pub record GeoStore (R : Type 0) : Type 0 where
  pub sites : Map Text (GeoSiteMatcher R)
  pub ip_v4 : Map Text (List Ipv4Cidr)
  pub ip_v6 : Map Text (List Ipv6Cidr)
  pub geosite_path : Text
  pub geoip_path : Text

-- Adds one rule to the tables. A set is the list of what was put in, of which only membership shows.
unfoldable pub add_rule : {R : Type 0} → SiteDomain R → GeoSiteMatcher R → GeoSiteMatcher R
add_rule (exact v) m = record m { exact_set = clean_domain v ∷ m.exact_set }
add_rule (suffix v) m = record m { suffix_set = clean_domain v ∷ m.suffix_set }
add_rule (keyword v) m = record m { other_rules = keyword v ∷ m.other_rules }
add_rule (regex raw re) m = record m { other_rules = regex raw re ∷ m.other_rules }

unfoldable pub index_rules : {R : Type 0} → List (SiteDomain R) → GeoSiteMatcher R
unfolding add_rule
index_rules [] = record { count = 0; exact_set = []; suffix_set = []; other_rules = [] }
index_rules (d ∷ ds) = add_rule d (index_rules ds)

-- `GeoSiteMatcher::new`.
unfoldable pub new_matcher : {R : Type 0} → List (SiteDomain R) → GeoSiteMatcher R
unfolding index_rules
new_matcher domains = record (index_rules domains) { count = length domains }

-- What stands behind the first dot.
unfoldable pub after_dot : Text → Option Text
after_dot [] = none
after_dot (c ∷ cs) = if c == dot then some cs else after_dot cs

-- The `while let` loop over the parent domains; the fuel bounds the dots of `remaining`.
unfoldable pub parent_loop : ℕ → List Text → Text → Bool
unfolding after_dot contains
parent_loop zero set remaining = false
parent_loop (suc fuel) set remaining = elim (after_dot remaining) [
  | none ↦ false
  | some rest ↦ if contains set rest then true else parent_loop fuel set rest
]

module _ (engine : RegexEngine) where
  open engine use {Regex, is_match}

  unfoldable pub matches_site : SiteDomain Regex → Text → Bool
  unfolding is_under clean_domain contains_text text_eq
  matches_site (exact v) domain = text_eq (clean_domain domain) v
  matches_site (suffix v) domain = is_under (clean_domain domain) v
  matches_site (keyword v) domain = contains_text (clean_domain domain) v
  matches_site (regex raw none) domain = contains_text (clean_domain domain) raw
  matches_site (regex raw (some re)) domain = is_match re (clean_domain domain)

  unfoldable pub matches_any : GeoSiteMatcher Regex → Text → Bool
  unfolding contains parent_loop any matches_site clean_domain
  matches_any m domain =
      let d = clean_domain domain in
      if contains m.exact_set d
      then true
      else if contains m.suffix_set d
      then true
      else if parent_loop (length d) m.suffix_set d
      then true
      else any (λ item. matches_site item domain) m.other_rules

  abbrev site_hit : Option (GeoSiteMatcher Regex) → Text → Bool
  site_hit none domain = false
  site_hit (some matcher) domain = matches_any matcher domain

  unfoldable pub match_geosite : GeoStore Regex → Text → Text → Bool
  unfolding matches_any trim to_ascii_uppercase
  match_geosite store tag domain =
      let tag_upper = to_ascii_uppercase (trim tag) in
      if site_hit (get store.sites tag_upper) domain
      then true
      else if text_eq tag_upper (bytes "PRIVATE") || text_eq tag_upper (bytes "LAN")
      then is_lan_or_router_domain domain
      else false

abbrev v4_hit : Option (List Ipv4Cidr) → ℕ → Bool
v4_hit none u = false
v4_hit (some list) u = any (λ c. contains_v4 c u) list

abbrev v6_hit : Option (List Ipv6Cidr) → ℕ → Bool
v6_hit none u = false
v6_hit (some list) u = any (λ c. contains_v6 c u) list

abbrev ip_hit : {R : Type 0} → GeoStore R → Text → IpAddr → Bool
ip_hit store code (v4 u) = v4_hit (get store.ip_v4 code) u
ip_hit store code (v6 u) = v6_hit (get store.ip_v6 code) u

unfoldable pub match_geoip : {R : Type 0} → GeoStore R → Text → IpAddr → Bool
unfolding any contains_v4 contains_v6 trim to_ascii_uppercase
match_geoip store code ip =
    if is_fake_ip ip
    then false
    else let code_upper = to_ascii_uppercase (trim code) in
      if text_eq code_upper (bytes "PRIVATE") || text_eq code_upper (bytes "LAN")
      then is_private_ip ip
      else ip_hit store code_upper ip

-- ===== src/Tests/Geos.antt =====
-- Geo rules and files at concrete inputs.
use mirage_android.Prelude.{
  ℕ, ◌≡◌, refl, true, Option, none, some, List, [], ◌∷◌, Text, text_key, text_eq, any, All,
}
use mirage_android.Data.Maps.{get}
use mirage_android.Data.Texts.{bytes, clean_domain, contains_text}
use mirage_android.Geo.{
  RegexEngine, SiteDomain, keyword, suffix, exact, GeoSiteMatcher, new_matcher, matches_site,
  matches_any,
}
use mirage_android.Geo.Index.{IsClean, matches_any-new_matcher}
use mirage_android.Geo.Files.{
  domain_arm, cidr_arm, cidr_of, parse_cidr_msg, IpEntry, ip_entry_arm, parse_geoip_entry,
  ip_file_arm, parse_geoip_file, site_domain, parse_domain_msg, site_entry_arm, if_named, SiteEntry,
  parse_geosite_entry, site_file_arm, parse_geosite_file, load_geo_files,
}
use mirage_android.Geo.Runs.{Ends, FileEnds}
use mirage_android.Geo.Enough.{parse_geo-Ends}
use mirage_android.Data.Numerals.{◌>>=◌}
use mirage_android.Geo.Loaded.{load_geo_files-scan}

-- Patterns that are looked for as they stand.
abbrev pub plain_engine : RegexEngine
plain_engine = record { Regex = Text; compile = some; is_match = λ re d. contains_text d re }

abbrev rules : List (SiteDomain Text)
rules = suffix (bytes "example.com") ∷ exact (bytes "one.test") ∷ keyword (bytes "shop") ∷ []

rules-IsClean : All (IsClean plain_engine) rules
unfolding clean_domain
rules-IsClean = (refl, (refl, (tt, tt)))

matches_any-new_matcher_example :
    matches_any plain_engine (new_matcher rules) (bytes "A.Example.com.")
    ≡ any (λ s. matches_site plain_engine s (bytes "A.Example.com.")) rules
matches_any-new_matcher_example =
    matches_any-new_matcher plain_engine rules (bytes "A.Example.com.") rules-IsClean

parent_hit : matches_any plain_engine (new_matcher rules) (bytes "A.Example.com.") ≡ true
unfolding matches_any new_matcher
parent_hit = refl

-- A message with a suffix rule for `a.cn`, in a table named `cn`.
abbrev site_file : Text
site_file = 10 ∷ 14 ∷ 10 ∷ 2 ∷ b'c' ∷ b'n' ∷ 18 ∷ 8 ∷ 8 ∷ 2 ∷ 18 ∷ 4 ∷ bytes "A.cn"

abbrev loaded : GeoSiteMatcher Text
unfolding new_matcher
loaded = new_matcher (suffix (bytes "a.cn") ∷ [])

file_read :
    get (parse_geosite_file plain_engine site_file) (bytes "CN") ≡ some (suffix (bytes "a.cn") ∷ [])
unfolding parse_geosite_file get text_eq
file_read = refl

abbrev site_path : Text
site_path = bytes "geosite.dat"

file_loaded :
    get ((load_geo_files plain_engine site_path [] (some site_file) none).1).sites (bytes "CN")
    ≡ some loaded
unfolding load_geo_files get text_eq new_matcher
file_loaded = refl

load_geo_files-scan_example :
    (ds : List (SiteDomain Text)) × (get (parse_geosite_file plain_engine site_file) (bytes "CN")
      ≡ some ds)
    × (matches_any plain_engine loaded (bytes "www.a.cn")
        ≡ any (λ s. matches_site plain_engine s (bytes "www.a.cn")) ds)
load_geo_files-scan_example =
    load_geo_files-scan plain_engine site_path [] (some site_file) none (bytes "CN")
      (bytes "www.a.cn") loaded file_loaded

abbrev no_entry : IpEntry
no_entry = record { code = []; v4_cidrs = []; v6_cidrs = [] }

parse_geo-Ends_example :
    ((o : Option (ℕ × Text)) × Ends domain_arm (0, []) site_file o
      × (parse_domain_msg plain_engine site_file ≡ (o >>= site_domain plain_engine)))
    × ((o : Option (SiteEntry plain_engine)) × Ends
          (site_entry_arm plain_engine)
          ([], [])
          site_file
          o
        × (parse_geosite_entry plain_engine site_file ≡ (o >>= λ e. if_named (e.0) e)))
    × FileEnds (site_file_arm plain_engine) [] site_file (parse_geosite_file plain_engine site_file)
    × ((o : Option (Text × ℕ)) × Ends cidr_arm ([], 0) site_file o
        × (parse_cidr_msg site_file ≡ (o >>= cidr_of)))
    × ((o : Option IpEntry) × Ends ip_entry_arm no_entry site_file o
        × (parse_geoip_entry site_file ≡ (o >>= λ e. if_named e.code e)))
    × FileEnds ip_file_arm ([], []) site_file (parse_geoip_file site_file)
parse_geo-Ends_example = parse_geo-Ends plain_engine site_file

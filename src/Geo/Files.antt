-- ===== src/Geo/Files.antt =====
-- geo.rs: the parsers of geosite.dat and geoip.dat, and the loading of both.
use mirage_android.Prelude.{
  ℕ, ◌+◌, ◌*◌, ◌%◌, Bool, ◌&&◌, Option, none, some, List, [], ◌∷◌, ◌++◌, map, if◌then◌else◌, Text,
  text_key, length, ltb, ◌==◌,
}
use mirage_android.Data.Maps.{Map, insert}
use mirage_android.Data.Texts.{clean_domain, trim, to_ascii_uppercase}
use mirage_android.Data.Lossy.{from_utf8_lossy}
use mirage_android.Data.Numerals.{◌>>=◌}
use mirage_android.Net.Cidr.{Ipv4Cidr, Ipv6Cidr, new_v4, new_v6}
use mirage_android.Geo.Wire.{
  read_varint, read_len_delim, Outcome, with_varint, with_data, skip_field, fields, file_fields,
}
use mirage_android.Geo.{
  RegexEngine, SiteDomain, keyword, regex, suffix, exact, GeoSiteMatcher, new_matcher, GeoStore,
}

abbrev is_field : ℕ → ℕ → ℕ → ℕ → Bool
is_field number wire number' wire' = number == number' && wire == wire'

-- Trimmed and in upper case: the name of a table.
abbrev pub table_code : Text → Text
table_code payload = to_ascii_uppercase (trim (from_utf8_lossy payload))

abbrev pub domain_arm : ℕ × Text → ℕ → ℕ → Text → Outcome (ℕ × Text)
domain_arm (dtype, value) number wire rest =
    if is_field number wire 1 0
    then with_varint (read_varint rest) (λ v. (v, value))
    else if is_field number wire 2 2
    then with_data (read_len_delim rest)
        (λ payload. (dtype, clean_domain (from_utf8_lossy payload)))
    else skip_field wire (dtype, value) rest

abbrev pub cidr_arm : Text × ℕ → ℕ → ℕ → Text → Outcome (Text × ℕ)
cidr_arm (ip_bytes, prefix) number wire rest =
    if is_field number wire 1 2
    then with_data (read_len_delim rest) (λ payload. (payload, prefix))
    else if is_field number wire 2 0
    then with_varint (read_varint rest)
        (λ v. (ip_bytes, (if ltb (v % 256) 128 then v % 256 else 128)))
    else skip_field wire (ip_bytes, prefix) rest

-- `IpCidr`.
pub data IpCidr : Type 0 where
  cidr_v4 : Ipv4Cidr → IpCidr
  cidr_v6 : Ipv6Cidr → IpCidr

-- Sixteen bytes as one word.
unfoldable pub from_octets : ℕ → Text → ℕ
from_octets acc [] = acc
from_octets acc (b ∷ bs) = from_octets (acc * 256 + b) bs

unfoldable pub cidr_of : Text × ℕ → Option IpCidr
unfolding new_v4 new_v6 from_octets
cidr_of (ip_bytes, prefix) =
    if length ip_bytes == 4
    then some (cidr_v4 (new_v4 (from_octets 0 ip_bytes) (if ltb prefix 32 then prefix else 32)))
    else if length ip_bytes == 16
    then some (cidr_v6 (new_v6 (from_octets 0 ip_bytes) (if ltb prefix 128 then prefix else 128)))
    else none

unfoldable pub parse_cidr_msg : Text → Option IpCidr
unfolding fields read_varint read_len_delim skip_field cidr_of
parse_cidr_msg buf = fields cidr_arm (length buf) ([], 0) buf >>= cidr_of

pub record IpEntry : Type 0 where
  pub code : Text
  pub v4_cidrs : List Ipv4Cidr
  pub v6_cidrs : List Ipv6Cidr

abbrev pub push_cidr : IpEntry → Option IpCidr → IpEntry
push_cidr e none = e
push_cidr e (some (cidr_v4 c)) = record e { v4_cidrs = e.v4_cidrs ++ (c ∷ []) }
push_cidr e (some (cidr_v6 c)) = record e { v6_cidrs = e.v6_cidrs ++ (c ∷ []) }

abbrev pub ip_entry_arm : IpEntry → ℕ → ℕ → Text → Outcome IpEntry
ip_entry_arm e number wire rest =
    if is_field number wire 1 2
    then with_data (read_len_delim rest) (λ payload. record e { code = table_code payload })
    else if is_field number wire 2 2
    then with_data (read_len_delim rest) (λ payload. push_cidr e (parse_cidr_msg payload))
    else skip_field wire e rest

abbrev pub if_named : {A : Type 0} → Text → A → Option A
if_named [] a = none
if_named (c ∷ cs) a = some a

unfoldable pub parse_geoip_entry : Text → Option IpEntry
unfolding fields read_varint read_len_delim skip_field parse_cidr_msg trim to_ascii_uppercase
    from_utf8_lossy
parse_geoip_entry buf =
    fields ip_entry_arm (length buf) (record { code = []; v4_cidrs = []; v6_cidrs = [] }) buf
    >>= λ e. if_named e.code e

-- The two maps of a geoip file.
abbrev pub IpMaps : Type 0
IpMaps = Map Text (List Ipv4Cidr) × Map Text (List Ipv6Cidr)

abbrev insert_filled : {A : Type 0} → Map Text (List A) → Text → List A → Map Text (List A)
insert_filled m code [] = m
insert_filled m code (c ∷ cs) = insert m code (c ∷ cs)

abbrev pub insert_ip_entry : IpMaps → Option IpEntry → IpMaps
insert_ip_entry maps none = maps
insert_ip_entry (m4, m6) (some e) =
    (insert_filled m4 e.code e.v4_cidrs, insert_filled m6 e.code e.v6_cidrs)

abbrev pub ip_file_arm : IpMaps → ℕ → ℕ → Text → Outcome IpMaps
ip_file_arm maps number wire rest =
    if is_field number wire 1 2
    then with_data (read_len_delim rest)
        (λ payload. insert_ip_entry maps (parse_geoip_entry payload))
    else skip_field wire maps rest

unfoldable pub parse_geoip_file : Text → IpMaps
unfolding file_fields read_varint read_len_delim skip_field parse_geoip_entry insert
parse_geoip_file payload = file_fields ip_file_arm (length payload) ([], []) payload

module _ (engine : RegexEngine) where
  open engine use {Regex, compile}

  unfoldable pub site_domain : ℕ × Text → Option (SiteDomain Regex)
  site_domain (dtype, []) = none
  site_domain (dtype, c ∷ cs) =
      let value = c ∷ cs in
      if dtype == 0
      then some (keyword value)
      else if dtype == 1
      then some (regex value (compile value))
      else if dtype == 2
      then some (suffix value)
      else if dtype == 3
      then some (exact value)
      else some (suffix value)

  unfoldable pub parse_domain_msg : Text → Option (SiteDomain Regex)
  unfolding fields read_varint read_len_delim skip_field clean_domain from_utf8_lossy site_domain
  parse_domain_msg buf = fields domain_arm (length buf) (0, []) buf >>= site_domain

  abbrev pub push_domain :
      List (SiteDomain Regex) → Option (SiteDomain Regex) → List (SiteDomain Regex)
  push_domain ds none = ds
  push_domain ds (some d) = ds ++ (d ∷ [])

  abbrev pub SiteEntry : Type 0
  SiteEntry = Text × List (SiteDomain Regex)

  abbrev pub site_entry_arm : SiteEntry → ℕ → ℕ → Text → Outcome SiteEntry
  site_entry_arm (code, domains) number wire rest =
      if is_field number wire 1 2
      then with_data (read_len_delim rest) (λ payload. (table_code payload, domains))
      else if is_field number wire 2 2
      then with_data (read_len_delim rest)
          (λ payload. (code, push_domain domains (parse_domain_msg payload)))
      else skip_field wire (code, domains) rest

  unfoldable pub parse_geosite_entry : Text → Option SiteEntry
  unfolding fields read_varint read_len_delim skip_field parse_domain_msg trim to_ascii_uppercase
      from_utf8_lossy
  parse_geosite_entry buf =
      fields site_entry_arm (length buf) ([], []) buf >>= λ e. if_named (e.0) e

  abbrev pub SiteMap : Type 0
  SiteMap = Map Text (List (SiteDomain Regex))

  abbrev pub insert_site_entry : SiteMap → Option SiteEntry → SiteMap
  insert_site_entry m none = m
  insert_site_entry m (some (code, domains)) = insert m code domains

  abbrev pub site_file_arm : SiteMap → ℕ → ℕ → Text → Outcome SiteMap
  site_file_arm m number wire rest =
      if is_field number wire 1 2
      then with_data (read_len_delim rest)
          (λ payload. insert_site_entry m (parse_geosite_entry payload))
      else skip_field wire m rest

  unfoldable pub parse_geosite_file : Text → SiteMap
  unfolding file_fields read_varint read_len_delim skip_field parse_geosite_entry insert
  parse_geosite_file payload = file_fields site_file_arm (length payload) [] payload

  abbrev pub index_entry : SiteEntry → Text × GeoSiteMatcher Regex
  index_entry (tag, domains) = (tag, new_matcher domains)

  -- What is read of a file: nothing if the path is empty, no file is there or it cannot be read.
  abbrev pub contents : Text → Option Text → Text
  contents [] file = []
  contents (c ∷ cs) none = []
  contents (c ∷ cs) (some bytes) = bytes

  -- The bytes of the two files are arguments; the counts are of the tables read.
  unfoldable pub load_geo_files : Text → Text → Option Text → Option Text → (ℕ × ℕ) × GeoStore Regex
  unfolding parse_geosite_file parse_geoip_file new_matcher
  load_geo_files geosite_path geoip_path geosite_file geoip_file =
      let site_map = parse_geosite_file (contents geosite_path geosite_file) in
      let (m4, m6) = parse_geoip_file (contents geoip_path geoip_file) in
      (
        (length site_map, length m4 + length m6),
        record {
          sites = map index_entry site_map;
          ip_v4 = m4;
          ip_v6 = m6;
          geosite_path = geosite_path;
          geoip_path = geoip_path;
        },
      )

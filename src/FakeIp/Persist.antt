-- ===== src/FakeIp/Persist.antt =====
-- dns/fake_ip.rs: construction from a CIDR text, the cache file and its reader.
use mirage_android.Prelude.{
  ◌/◌, ℕ, ◌-◌, ◌%◌, ◌^◌, ltb, Bool, true, false, not, ◌&&◌, ◌||◌, Option, none, some, List, [], ◌∷◌,
  ◌++◌, if◌then◌else◌, Text, text_eq, ◌==◌, bit_and, number_key, text_key,
}
use mirage_android.Data.Maps.{insert}
use mirage_android.Data.Texts.{bytes, trim, starts_with}
use mirage_android.Data.Numerals.{
  split, split_once, strip_prefix, parse_unsigned, parse_ipv4, decimal,
}
use mirage_android.Data.Words.{not32}
use mirage_android.FakeIp.{
  FakeIpMapper, Result, ok, err, invalid_cidr, invalid_address, invalid_prefix, prefix_too_long,
  empty_mapper,
}

-- What the loop of `load` carries: the mapper and the pointer that the file names, if any.
pub record Loading : Type 0 where
  pub mapper : FakeIpMapper
  pub loaded_next : Option ℕ

-- The two guards on an address: inside the range, and not `.0`, `.1` or the broadcast address.
unfoldable pub accepts : FakeIpMapper → ℕ → Bool
accepts m ip =
    let host = bit_and ip (not32 m.mask) in
    bit_and ip m.mask == m.network && not (ltb host 2 || host == not32 m.mask)

unfoldable pub load_entry : (Text → Text) → Loading → Option ℕ → Text → Loading
unfolding accepts
load_entry to_lowercase s none dom = s
load_entry to_lowercase s (some ip) dom =
    let m = s.mapper in
    let d = to_lowercase dom in
    if accepts m ip
    then record s {
      mapper = record m {
        domain_to_ip = insert m.domain_to_ip d ip;
        ip_to_domain = insert m.ip_to_domain ip d;
      };
    }
    else s

-- `splitn(2, ' ')` with a second part that is not empty.
unfoldable pub load_pair : (Text → Text) → Loading → Option (Text × Text) → Loading
unfolding load_entry
load_pair to_lowercase s none = s
load_pair to_lowercase s (some (ip, [])) = s
load_pair to_lowercase s (some (ip, c ∷ dom)) = load_entry to_lowercase s (parse_ipv4 ip) (c ∷ dom)

-- A line that is neither empty nor a comment.
unfoldable pub load_item : (Text → Text) → Loading → Text → Loading
unfolding load_pair
load_item to_lowercase s line = elim (strip_prefix (bytes "next_ip=") line) [
  | some v ↦ record s { loaded_next = parse_unsigned (2 ^ 32 - 1) (trim v) }
  | none ↦ load_pair to_lowercase s (split_once b' ' line)
]

abbrev pub is_skipped : Text → Bool
is_skipped line = text_eq line [] || starts_with line (bytes "#")

unfoldable pub load_line : (Text → Text) → Loading → Text → Loading
unfolding load_item
load_line to_lowercase s line =
    let line' = trim line in if is_skipped line' then s else load_item to_lowercase s line'

unfoldable pub load_lines : (Text → Text) → Loading → List Text → Loading
load_lines to_lowercase s [] = s
load_lines to_lowercase s (line ∷ lines) =
    load_lines to_lowercase (load_line to_lowercase s line) lines

abbrev pub is_next : FakeIpMapper → ℕ → Bool
is_next m n = bit_and n m.mask == m.network && not (bit_and n (not32 m.mask) == not32 m.mask)

-- The pointer of the file is taken if it lies in the range and is not the broadcast address.
unfoldable pub restore_next : FakeIpMapper → Option ℕ → FakeIpMapper
restore_next m none = m
restore_next m (some n) = if is_next m n then record m { next_ip = n } else m

-- Each line is trimmed and an empty one skipped, so lines are what stands between line feeds.
unfoldable pub load : (Text → Text) → FakeIpMapper → Text → FakeIpMapper
unfolding load_lines load_line restore_next
load to_lowercase m content =
    let s =
      load_lines to_lowercase (record { mapper = m; loaded_next = none }) (split 10 content) in
    restore_next s.mapper s.loaded_next

-- The cache is looked for only if there is a path.
abbrev pub cached : Option Text → Option Text → Option Text
cached none content = none
cached (some path) content = content

abbrev pub load_file : (Text → Text) → Option Text → FakeIpMapper → FakeIpMapper
load_file to_lowercase none m = m
load_file to_lowercase (some content) m = load to_lowercase m content

-- `content` is what the file at the path holds, if there is a path and the file can be read.
unfoldable pub build :
    (Text → Text) → Option ℕ → Option ℕ → Option Text → Option Text → Result FakeIpMapper
unfolding load
build to_lowercase none prefix path content = err invalid_address
build to_lowercase (some ip) none path content = err invalid_prefix
build to_lowercase (some ip) (some prefix) path content =
    if ltb 29 prefix
    then err prefix_too_long
    else ok (load_file to_lowercase (cached path content) (empty_mapper ip prefix path))

unfoldable pub with_parts :
    (Text → Text) → List Text → Option Text → Option Text → Result FakeIpMapper
unfolding build
with_parts to_lowercase (address ∷ prefix ∷ []) path content =
    build to_lowercase (parse_ipv4 address) (parse_unsigned (2 ^ 32 - 1) prefix) path content
with_parts to_lowercase _ path content = err invalid_cidr

unfoldable pub with_persist : (Text → Text) → Text → Option Text → Option Text → Result FakeIpMapper
unfolding with_parts
with_persist to_lowercase cidr path content = with_parts to_lowercase (split b'/' cidr) path content

-- `Display` of an address.
unfoldable pub show_ipv4 : ℕ → Text
show_ipv4 ip =
    decimal (ip / 2 ^ 24)
    ++ (b'.' ∷ decimal (ip / 2 ^ 16 % 256)
        ++ (b'.' ∷ decimal (ip / 2 ^ 8 % 256) ++ (b'.' ∷ decimal (ip % 256))))

unfoldable pub entry_lines : List (Text × ℕ) → Text
unfolding show_ipv4
entry_lines [] = []
entry_lines ((dom, ip) ∷ rest) = show_ipv4 ip ++ (b' ' ∷ (dom ++ (10 ∷ entry_lines rest)))

unfoldable pub snapshot : FakeIpMapper → Text
unfolding entry_lines
snapshot m =
    bytes "# mirage-rs fake-ip persist v1"
    ++ (10 ∷ (bytes "next_ip=" ++ (decimal m.next_ip ++ (10 ∷ entry_lines m.domain_to_ip))))

-- `written` and `renamed` say whether the file system does its part. The second component is what
-- stands in the cache file afterwards, if it changes.
unfoldable pub flush : FakeIpMapper → Bool → Bool → FakeIpMapper × Option Text
unfolding snapshot
flush m written renamed = elim m.persist_path [
  | none ↦ (m, none)
  | some path ↦
      if not m.dirty
      then (m, none)
      else if written && renamed
      then (record m { dirty = false }, some (snapshot m))
      else (record m { dirty = true }, none)
]

-- ===== src/Router/Parse.antt =====
-- direct.rs: port lists and conditions from the text of a rule.
use mirage_android.Prelude.{
  ℕ, ◌≤◌, ◌≡◌, refl, Bool, ◌||◌, Option, none, some, List, [], ◌∷◌, if◌then◌else◌, if_keeps, Text,
  text_eq, leb, leb→le, All,
}
use mirage_android.Data.Texts.{bytes, trim, to_ascii_lowercase, to_ascii_uppercase}
use mirage_android.Data.Numerals.{split, split_once, parse_unsigned, parse_unsigned-le, parse_ipv4}
use mirage_android.Net.Cidr.{Ipv4Cidr, new_v4}
use mirage_android.Geo.{RegexEngine}
use mirage_android.Router.Rules.{
  ConditionKind, geo_site, geo_ip, domain_suffix, domain_exact, domain_keyword, domain_regex,
  ip_cidr, port, protocol,
}

-- Single ports and ranges of ports.
abbrev pub Ports : Type 0
Ports = List ℕ × List (ℕ × ℕ)

abbrev parse_u16 : Text → Option ℕ
parse_u16 s = parse_unsigned 65535 (trim s)

abbrev add_range : Option ℕ → Option ℕ → Ports → Ports
add_range none e ports = ports
add_range (some s) none ports = ports
add_range (some s) (some e) (singles, ranges) =
    if leb s e then (singles, (s, e) ∷ ranges) else (singles, ranges)

abbrev add_single : Option ℕ → Ports → Ports
add_single none ports = ports
add_single (some p) (singles, ranges) = (p ∷ singles, ranges)

-- One part: a range if it has a dash, else a single port.
abbrev add_part : Text → Option (Text × Text) → Ports → Ports
add_part part none ports = add_single (parse_u16 part) ports
add_part part (some (a, b)) ports = add_range (parse_u16 a) (parse_u16 b) ports

unfoldable pub parse_parts : List Text → Ports
unfolding parse_unsigned trim split_once
parse_parts [] = ([], [])
parse_parts (part ∷ parts) = add_part (trim part) (split_once b'-' (trim part)) (parse_parts parts)

unfoldable pub parse_ports : Text → Ports
unfolding parse_parts split
parse_ports s = parse_parts (split b',' s)

abbrev prefix_or : ℕ → Option ℕ → ℕ
prefix_or other none = other
prefix_or other (some p) = p

abbrev block_of : Option ℕ → ℕ → Option Ipv4Cidr
block_of none prefix = none
block_of (some ip) prefix = some (new_v4 ip prefix)

-- An address with a prefix, which is 32 if it is no byte or is not there.
abbrev parse_cidr : Text → Option (Text × Text) → Option Ipv4Cidr
parse_cidr pattern none = block_of (parse_ipv4 (trim pattern)) 32
parse_cidr pattern (some (a, b)) =
    block_of (parse_ipv4 (trim a)) (prefix_or 32 (parse_unsigned 255 (trim b)))

abbrev is_word : Text → Text → Text → Bool
is_word kind a b = text_eq kind a || text_eq kind b

abbrev port_condition : {R : Type 0} → Ports → ConditionKind R
port_condition (singles, ranges) = port singles ranges

module _ (engine : RegexEngine) where
  open engine use {Regex, compile}

  unfoldable pub parse_condition_kind : Text → Text → Option (ConditionKind Regex)
  unfolding text_eq trim to_ascii_lowercase to_ascii_uppercase parse_ports parse_ipv4 parse_unsigned
      split_once new_v4
  parse_condition_kind kind pattern =
      let low = to_ascii_lowercase (trim pattern) in
      let word = to_ascii_lowercase (trim kind) in
      if text_eq word (bytes "geosite")
      then some (geo_site (to_ascii_uppercase (trim pattern)))
      else if text_eq word (bytes "geoip")
      then some (geo_ip (to_ascii_uppercase (trim pattern)))
      else if is_word word (bytes "exact") (bytes "domain_exact")
      then some (domain_exact low)
      else if is_word word (bytes "keyword") (bytes "domain_keyword")
      then some (domain_keyword low)
      else if is_word word (bytes "regex") (bytes "domain_regex")
      then some (domain_regex pattern (compile (trim pattern)))
      else if is_word word (bytes "cidr") (bytes "ip_cidr")
      then some (ip_cidr pattern (parse_cidr pattern (split_once b'/' pattern)))
      else if text_eq word (bytes "port")
      then some (port_condition (parse_ports pattern))
      else if text_eq word (bytes "protocol")
      then some (protocol low)
      else some (domain_suffix low)

  -- The parts that stand for a condition are kept as they are.
  abbrev IsParsed : Option (ConditionKind Regex) → Type 0
  IsParsed o = (c : ConditionKind Regex) × (o ≡ some c)

  -- Every kind and every pattern, however ill-formed, is read as some condition.
  pub parse_condition_kind_total :
      (kind pattern : Text)
      → (c : ConditionKind Regex) × (parse_condition_kind kind pattern ≡ some c)
  unfolding parse_condition_kind
  parse_condition_kind_total kind pattern =
      let word = to_ascii_lowercase (trim kind) in
      let P = IsParsed in
      if_keeps P (text_eq word (bytes "geosite")) (λ e. (_, refl))
        (λ e.
          if_keeps P (text_eq word (bytes "geoip")) (λ e. (_, refl))
            (λ e.
              if_keeps P (is_word word (bytes "exact") (bytes "domain_exact")) (λ e. (_, refl))
                (λ e.
                  if_keeps P (is_word word (bytes "keyword") (bytes "domain_keyword"))
                    (λ e. (_, refl))
                    (λ e.
                      if_keeps P (is_word word (bytes "regex") (bytes "domain_regex"))
                        (λ e. (_, refl))
                        (λ e.
                          if_keeps P (is_word word (bytes "cidr") (bytes "ip_cidr"))
                            (λ e. (_, refl))
                            (λ e.
                              if_keeps P (text_eq word (bytes "port")) (λ e. (_, refl))
                                (λ e.
                                  if_keeps P (text_eq word (bytes "protocol")) (λ e. (_, refl))
                                    (λ e. (_, refl)))))))))

abbrev pub ArePorts : Ports → Type 0
ArePorts (singles, ranges) =
    All (λ p. p ≤ 65535) singles × All (λ r. (r.0 ≤ r.1) × (r.1 ≤ 65535)) ranges

add_single-ArePorts :
    (o : Option ℕ) (ports : Ports)
    → ((p : ℕ) → o ≡ some p → p ≤ 65535)
    → ArePorts ports
    → ArePorts (add_single o ports)
add_single-ArePorts none ports h k = k
add_single-ArePorts (some p) (singles, ranges) h k = ((h p refl, k.0), k.1)

add_range-ArePorts :
    (o o' : Option ℕ) (ports : Ports)
    → ((p : ℕ) → o' ≡ some p → p ≤ 65535)
    → ArePorts ports
    → ArePorts (add_range o o' ports)
add_range-ArePorts none o' ports h k = k
add_range-ArePorts (some s) none ports h k = k
add_range-ArePorts (some s) (some e) (singles, ranges) h k =
    if_keeps ArePorts (leb s e) (λ le. (k.0, ((leb→le s e le, h e refl), k.1))) (λ gt. k)

add_part-ArePorts :
    (part : Text) (o : Option (Text × Text)) (ports : Ports)
    → ArePorts ports
    → ArePorts (add_part part o ports)
add_part-ArePorts part none ports k =
    add_single-ArePorts (parse_u16 part) ports (λ p e. parse_unsigned-le 65535 (trim part) p e) k
add_part-ArePorts part (some (a, b)) ports k =
    add_range-ArePorts (parse_u16 a) (parse_u16 b) ports
      (λ p e. parse_unsigned-le 65535 (trim b) p e) k

parse_parts-ArePorts : (parts : List Text) → ArePorts (parse_parts parts)
unfolding parse_parts
parse_parts-ArePorts [] = (tt, tt)
parse_parts-ArePorts (part ∷ parts) =
    add_part-ArePorts (trim part) (split_once b'-' (trim part)) (parse_parts parts)
      (parse_parts-ArePorts parts)

-- Whatever the text of a port list, the single ports that are read are at most 65535, and each
-- range that is read ends at 65535 at most and not before it starts.
pub parse_ports-ArePorts : (s : Text) → ArePorts (parse_ports s)
unfolding parse_ports
parse_ports-ArePorts s = parse_parts-ArePorts (split b',' s)

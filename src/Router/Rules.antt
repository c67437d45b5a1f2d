-- ===== src/Router/Rules.antt =====
-- direct.rs: actions, conditions and composite rules, and when a rule matches a request.
use mirage_android.Prelude.{
  ℕ, ◌≡◌, refl, Bool, true, false, not, ◌&&◌, ◌||◌, Option, none, some, List, [], ◌∷◌, arith,
  if◌then◌else◌, Text, text_eq, any, all, contains, leb, number_key,
}
use mirage_android.Data.Texts.{
  bytes, dot, is_under, clean_domain, contains_text, trim, trim_end_matches, to_ascii_lowercase,
  to_ascii_uppercase, eq_ignore_ascii_case,
}
use mirage_android.Net.Address.{IpAddr, v4, v6, is_fake_ip}
use mirage_android.Net.Cidr.{Ipv4Cidr, contains_v4}
use mirage_android.Geo.{RegexEngine, GeoStore, match_geosite, match_geoip}

pub data RuleAction : Type 0 where
  direct : RuleAction
  proxy : RuleAction
  block : RuleAction

unfoldable pub as_str : RuleAction → Text
as_str direct = bytes "direct"
as_str proxy = bytes "proxy"
as_str block = bytes "block"

unfoldable pub action_from_str : Text → RuleAction
unfolding trim to_ascii_lowercase text_eq
action_from_str s =
    let word = to_ascii_lowercase (trim s) in
    if text_eq word (bytes "direct")
    then direct
    else if text_eq word (bytes "block") || text_eq word (bytes "reject")
    then block
    else proxy

abbrev pub is_direct_action : RuleAction → Bool
is_direct_action direct = true
is_direct_action proxy = false
is_direct_action block = false

pub data MatchLogic : Type 0 where
  or_logic : MatchLogic
  and_logic : MatchLogic

unfoldable pub logic_from_str : Text → MatchLogic
unfolding trim to_ascii_uppercase text_eq
logic_from_str s =
    if text_eq (to_ascii_uppercase (trim s)) (bytes "AND") then and_logic else or_logic

pub data ConditionKind (R : Type 0) : Type 0 where
  geo_site : Text → ConditionKind R
  geo_ip : Text → ConditionKind R
  domain_suffix : Text → ConditionKind R
  domain_exact : Text → ConditionKind R
  domain_keyword : Text → ConditionKind R
  domain_regex : Text → Option R → ConditionKind R
  ip_cidr : Text → Option Ipv4Cidr → ConditionKind R
  port : List ℕ → List (ℕ × ℕ) → ConditionKind R
  protocol : Text → ConditionKind R

pub record CompositeRule (R : Type 0) : Type 0 where
  pub id : Text
  pub name : Text
  pub enabled : Bool
  pub logic : MatchLogic
  pub conditions : List (ConditionKind R)
  pub action : RuleAction

-- The four arguments that every decision takes.
pub record Request : Type 0 where
  pub domain : Option Text
  pub ip : Option IpAddr
  pub dst_port : Option ℕ
  pub transport : Option Text

-- `if let Some(x) = o { p(x) } else { false }`.
abbrev pub holds {ℓ} : {A : Type ℓ} → Option A → (A → Bool) → Bool
holds none p = false
holds (some a) p = p a

unfoldable pub in_cidr : Option IpAddr → Option Ipv4Cidr → Bool
unfolding is_fake_ip contains_v4
in_cidr none c = false
in_cidr (some (v6 u)) c = false
in_cidr (some (v4 u)) none = false
in_cidr (some (v4 u)) (some c) = if is_fake_ip (v4 u) then false else contains_v4 c u

in_cidr-fake : (a : IpAddr) (c : Option Ipv4Cidr) → is_fake_ip a ≡ true → in_cidr (some a) c ≡ false
unfolding in_cidr
in_cidr-fake (v4 u) none h = refl
in_cidr-fake (v4 u) (some c) h = ground arith
in_cidr-fake (v6 u) c h = refl

module _ (engine : RegexEngine) (store : GeoStore (engine.Regex)) where
  open engine use {Regex, is_match}

  abbrev regex_hit : Text → Option Regex → Text → Bool
  regex_hit raw none d = contains_text d raw
  regex_hit raw (some re) d = is_match re d

  unfoldable pub matches_condition : ConditionKind Regex → Request → Bool
  unfolding match_geosite match_geoip is_under clean_domain trim_end_matches eq_ignore_ascii_case
      to_ascii_lowercase contains_text in_cidr any contains is_fake_ip
  matches_condition (geo_site tag) r = holds r.domain (λ d. match_geosite engine store tag d)
  matches_condition (geo_ip code) r =
      holds r.ip (λ a. if is_fake_ip a then false else match_geoip store code a)
  matches_condition (domain_suffix s) r = holds r.domain (λ d. is_under (clean_domain d) s)
  matches_condition (domain_exact s) r =
      holds r.domain (λ d. eq_ignore_ascii_case (trim_end_matches dot d) s)
  matches_condition (domain_keyword s) r =
      holds r.domain (λ d. contains_text (to_ascii_lowercase d) s)
  matches_condition (domain_regex raw re) r = holds r.domain (λ d. regex_hit raw re d)
  matches_condition (ip_cidr raw cidr) r = in_cidr r.ip cidr
  matches_condition (port singles ranges) r =
      holds r.dst_port
        (λ p. contains singles p || any (λ range. leb (range.0) p && leb p (range.1)) ranges)
  matches_condition (protocol proto) r = holds r.transport (λ p. eq_ignore_ascii_case p proto)

  abbrev is_empty : List (ConditionKind Regex) → Bool
  is_empty [] = true
  is_empty (c ∷ cs) = false

  abbrev combine : MatchLogic → List (ConditionKind Regex) → Request → Bool
  combine or_logic cs r = any (λ c. matches_condition c r) cs
  combine and_logic cs r = all (λ c. matches_condition c r) cs

  unfoldable pub matches_rule : CompositeRule Regex → Request → Bool
  unfolding any all matches_condition
  matches_rule rule r =
      if not rule.enabled || is_empty rule.conditions
      then false
      else combine rule.logic rule.conditions r

  -- A condition on addresses is false for every fake address.
  pub matches_condition-fake :
      (raw : Text) (cidr : Option Ipv4Cidr) (code : Text) (r : Request) (a : IpAddr)
      → r.ip ≡ some a
      → is_fake_ip a ≡ true
      → (matches_condition (ip_cidr raw cidr) r ≡ false)
        × (matches_condition (geo_ip code) r ≡ false)
  unfolding matches_condition
  matches_condition-fake raw cidr code r a e h = (rw e (in_cidr-fake a cidr h), rw e (ground arith))

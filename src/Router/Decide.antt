-- ===== src/Router/Decide.antt =====
-- direct.rs: the router's state, the routing decision with its source, and the guard against DNS leaks.
use mirage_android.Prelude.{
  ℕ, ◌+◌, ◌%◌, ◌^◌, Bool, true, false, ◌&&◌, Option, none, some, List, [], ◌∷◌, ◌++◌, if◌then◌else◌,
  Text, text_key, ◌==◌,
}
use mirage_android.Data.Maps.{Map, get, insert}
use mirage_android.Data.Texts.{bytes}
use mirage_android.Data.Numerals.{ipv4}
use mirage_android.Net.Address.{IpAddr, v4, ip_eq, is_private_ip}
use mirage_android.Net.Domains.{is_lan_or_router_domain, is_known_non_cn_domain, is_cn_domain}
use mirage_android.Geo.{RegexEngine, GeoStore, match_geosite}
use mirage_android.Dns.Cache.{Cached, is_dynamic_direct_domain}
use mirage_android.Router.Rules.{
  RuleAction, direct, proxy, block, as_str, is_direct_action, CompositeRule, Request, holds,
  matches_rule,
}
use mirage_android.Router.CnIp.{is_cn_ip}

pub data DecisionSource : Type 0 where
  lan : DecisionSource
  global_mode : DecisionSource
  user_rule : DecisionSource
  cn_domain : DecisionSource
  dynamic_learned : DecisionSource
  cn_ip : DecisionSource
  default : DecisionSource

pub record Decision : Type 0 where
  pub action : RuleAction
  pub source : DecisionSource
  pub detail : Text

-- The rule store, the outbound mode, the QUIC switch and the hit counts.
pub record Router (R : Type 0) : Type 0 where
  pub rules : List (CompositeRule R)
  pub default_action : RuleAction
  pub outbound_mode : ℕ
  pub quic_blocked : Bool
  pub rule_hits : Map Text ℕ

-- What the router reads of other parts: the geo tables, the built-in address table, the cache of the resolver and the clock.
pub record World (R : Type 0) : Type 0 where
  pub geo : GeoStore R
  pub cn_table : List (ℕ × ℕ)
  pub direct_cache : Map Text Cached
  pub now : ℕ

abbrev pub dns_address : IpAddr
dns_address = v4 (ipv4 198 19 0 53)

abbrev hits_of : Option ℕ → ℕ
hits_of none = 0
hits_of (some n) = n

-- The counter is 64 bits wide.
unfoldable pub record_rule_hit : Map Text ℕ → Text → Text → Text → Map Text ℕ
unfolding get insert
record_rule_hit m id name action =
    let key = id ++ (b'|' ∷ name) ++ (b'|' ∷ action) in
    insert m key ((hits_of (get m key) + 1) % 2 ^ 64)

unfoldable pub debug_action : RuleAction → Text
debug_action direct = bytes "Direct"
debug_action proxy = bytes "Proxy"
debug_action block = bytes "Block"

unfoldable pub set_block_quic : {R : Type 0} → Bool → Router R → Router R
set_block_quic b router = record router { quic_blocked = b }

unfoldable pub set_outbound_mode : {R : Type 0} → ℕ → Router R → Router R
set_outbound_mode mode router = record router { outbound_mode = mode }

unfoldable pub reset_rule_hits : {R : Type 0} → Router R → Router R
reset_rule_hits router = record router { rule_hits = [] }

module _ (engine : RegexEngine) (world : World (engine.Regex)) where
  open engine use {Regex}

  abbrev says : Option Bool → Bool
  says none = false
  says (some b) = b

  abbrev pub geosite : Text → Text → Bool
  geosite tag d = match_geosite engine world.geo tag d

  abbrev pub learned : Text → Bool
  learned d = says (is_dynamic_direct_domain world.now d world.direct_cache)

  -- A direct rule does not apply to a known foreign domain.
  unfoldable pub is_guarded : CompositeRule Regex → Request → Bool
  unfolding is_known_non_cn_domain
  is_guarded rule r = is_direct_action rule.action && holds r.domain is_known_non_cn_domain

  -- The loop over the user's rules.
  unfoldable pub find_rule : List (CompositeRule Regex) → Request → Option (CompositeRule Regex)
  unfolding matches_rule is_guarded
  find_rule [] r = none
  find_rule (rule ∷ rules) r =
      let later = find_rule rules r in
      if matches_rule engine world.geo rule r
      then if is_guarded rule r then later else some rule
      else later

  -- Step 0: the resolver's own address, private addresses and local names.
  unfoldable pub lan_decision : Request → Option Decision
  unfolding ip_eq is_private_ip is_lan_or_router_domain
  lan_decision r =
      if holds r.ip (λ a. ip_eq a dns_address)
      then some (record {
        action = block;
        source = lan;
        detail = bytes "Block: Local DNS Virtual IP TCP";
      })
      else if holds r.ip is_private_ip
      then some (record { action = direct; source = lan; detail = bytes "Private IP (LAN)" })
      else if holds r.domain is_lan_or_router_domain
      then some (record { action = direct; source = lan; detail = bytes "Router / LAN Domain" })
      else none

  -- Step 1: the global modes.
  unfoldable pub mode_decision : ℕ → Option Decision
  mode_decision mode =
      if mode == 1
      then some
          (record { action = proxy; source = global_mode; detail = bytes "Global Proxy Override" })
      else if mode == 2
      then some (record {
        action = direct;
        source = global_mode;
        detail = bytes "Global Direct Override";
      })
      else none

  -- Steps 3 to 5: domestic names, learned names, domestic addresses, the default.
  unfoldable pub fallback_decision : RuleAction → Request → Decision
  unfolding is_cn_domain match_geosite is_dynamic_direct_domain is_cn_ip debug_action
  fallback_decision default_action r =
      if holds r.domain (is_cn_domain geosite)
      then record { action = direct; source = cn_domain; detail = bytes "CN Domain (Direct)" }
      else if holds r.domain learned
      then record {
        action = direct;
        source = dynamic_learned;
        detail = bytes "Dynamic CN Domain (Learned)";
      }
      else if holds r.ip (is_cn_ip world.geo world.cn_table)
      then record { action = direct; source = cn_ip; detail = bytes "CN IP (Direct)" }
      else record {
        action = default_action;
        source = default;
        detail = bytes "Default " ++ debug_action default_action;
      }

  abbrev rule_decision :
      Option (CompositeRule Regex) → Request → Router Regex → Decision × Router Regex
  rule_decision none r router = (fallback_decision router.default_action r, router)
  rule_decision (some rule) r router = (
    record { action = rule.action; source = user_rule; detail = bytes "Rule: " ++ rule.name },
    record router {
      rule_hits = record_rule_hit router.rule_hits rule.id rule.name (as_str rule.action);
    },
  )

  abbrev from_mode : Option Decision → Request → Router Regex → Decision × Router Regex
  from_mode none r router = rule_decision (find_rule router.rules r) r router
  from_mode (some d) r router = (d, router)

  abbrev from_lan : Option Decision → Request → Router Regex → Decision × Router Regex
  from_lan none r router = from_mode (mode_decision router.outbound_mode) r router
  from_lan (some d) r router = (d, router)

  unfoldable pub route_decision_sourced : Request → Router Regex → Decision × Router Regex
  unfolding lan_decision mode_decision find_rule fallback_decision record_rule_hit as_str
  route_decision_sourced r router = from_lan (lan_decision r) r router

  unfoldable pub route_decision : Request → Router Regex → RuleAction
  unfolding route_decision_sourced
  route_decision r router = ((route_decision_sourced r router).0).action

  abbrev pub name_only : Text → Request
  name_only d = record { domain = some d; ip = none; dst_port = none; transport = none }

  unfoldable pub decide_domain : Text → Router Regex → RuleAction
  unfolding route_decision
  decide_domain d router = route_decision (name_only d) router

  unfoldable pub decide_ip : IpAddr → Router Regex → RuleAction
  unfolding route_decision
  decide_ip a router =
      route_decision (record { domain = none; ip = some a; dst_port = none; transport = none })
        router

  abbrev is_block_action : RuleAction → Bool
  is_block_action direct = false
  is_block_action proxy = false
  is_block_action block = true

  unfoldable pub should_direct : Option Text → Option IpAddr → Router Regex → Bool
  unfolding route_decision
  should_direct domain ip router = is_direct_action (
      route_decision (record { domain = domain; ip = ip; dst_port = none; transport = none })
        router)

  unfoldable pub should_block : Option Text → Option IpAddr → Router Regex → Bool
  unfolding route_decision
  should_block domain ip router = is_block_action (
      route_decision (record { domain = domain; ip = ip; dst_port = none; transport = none })
        router)

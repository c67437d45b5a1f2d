-- ===== src/Router/Upstream.antt =====
-- direct.rs: the guard against DNS leaks, which asks whether a name may be resolved upstream.
use mirage_android.Prelude.{
  Bool, true, false, ◌&&◌, ◌||◌, List, [], ◌∷◌, if◌then◌else◌, Text, text_key, ◌==◌,
}
use mirage_android.Data.Texts.{bytes, ends_with, clean_domain}
use mirage_android.Net.Domains.{is_lan_or_router_domain, is_known_non_cn_domain, is_cn_domain}
use mirage_android.Geo.{RegexEngine, match_geosite}
use mirage_android.Dns.Cache.{is_dynamic_direct_domain}
use mirage_android.Router.Rules.{is_direct_action, CompositeRule, matches_rule}
use mirage_android.Router.Decide.{Router, World, geosite, learned, name_only}

module _ (engine : RegexEngine) (world : World (engine.Regex)) where
  open engine use {Regex}

  -- Some direct rule of the user names the domain.
  unfoldable pub direct_rule_hits : List (CompositeRule Regex) → Text → Bool
  unfolding matches_rule
  direct_rule_hits [] d = false
  direct_rule_hits (rule ∷ rules) d =
      (is_direct_action rule.action
        && matches_rule engine world.geo rule (name_only engine world d))
      || direct_rule_hits rules d

  unfoldable pub should_resolve_upstream : Text → Router Regex → Bool
  unfolding clean_domain is_known_non_cn_domain is_lan_or_router_domain ends_with is_cn_domain
      match_geosite direct_rule_hits is_dynamic_direct_domain
  should_resolve_upstream domain router =
      let d = clean_domain domain in
      if is_known_non_cn_domain d
      then false
      else if is_lan_or_router_domain d
      then false
      else if router.outbound_mode == 1
      then false
      else if router.outbound_mode == 2
      then true
      else if ends_with d (bytes ".cn") || ends_with d (bytes ".xn--fiqs8s")
      then true
      else if is_cn_domain (geosite engine world) d
      then true
      else if direct_rule_hits router.rules d
      then true
      else learned engine world d

-- ===== src/Tests/Routers.antt =====
-- The router with a blocking and a direct rule, at concrete requests.
use mirage_android.Prelude.{
  ℕ, ◌≡◌, ◌⊎◌, refl, true, false, ◌||◌, none, some, List, [], ◌∷◌, arith, Text, if◌then◌else◌, any,
  All, text_key, text_eq,
}
use mirage_android.Data.Texts.{bytes, clean_domain, ends_with}
use mirage_android.Data.Numerals.{ipv4}
use mirage_android.Net.Address.{v4, is_fake_ip, is_private_ip}
use mirage_android.Net.Cidr.{new_v4}
use mirage_android.Net.Domains.{is_lan_or_router_domain, is_known_non_cn_domain}
use mirage_android.Net.Names.{lan_router_exact_domains, lan_domain_suffixes, non_cn_roots}
use mirage_android.Data.Maps.{get}
use mirage_android.Dns.Cache.{is_dynamic_direct_domain}
use mirage_android.Geo.{GeoStore, match_geoip}
use mirage_android.Router.Rules.{
  RuleAction, holds, direct, proxy, block, is_direct_action, or_logic, domain_suffix, ip_cidr,
  CompositeRule, Request, matches_rule,
}
use mirage_android.Router.CnIp.{is_cn_ip}
use mirage_android.Router.Decide.{
  Router, World, lan, lan_decision, mode_decision, fallback_decision, route_decision_sourced,
  route_decision, name_only, decide_domain, learned,
}
use mirage_android.Router.Upstream.{should_resolve_upstream}
use mirage_android.Router.Order.{
  First, here, there, Passed, rule_outcome, route_decision_sourced-First, route_decision-foreign,
}
use mirage_android.Router.Leaks.{should_resolve_upstream-decide_domain}
use mirage_android.Router.Local.{is_local, route_decision_sourced-local, fake_ip_guard-matches_rule}
use mirage_android.Router.Table.{IsEntry, entry_has, is_cn_ip-scan}
use mirage_android.Tests.Geos.{plain_engine}

abbrev empty_geo : GeoStore Text
empty_geo = record { sites = []; ip_v4 = []; ip_v6 = []; geosite_path = []; geoip_path = [] }

abbrev world : World Text
world = record { geo = empty_geo; cn_table = (ipv4 1 0 1 0, 24) ∷ []; direct_cache = []; now = 0 }

abbrev suffix_rule : Text → RuleAction → CompositeRule Text
suffix_rule s action = record {
  id = bytes "r1";
  name = bytes "rule";
  enabled = true;
  logic = or_logic;
  conditions = domain_suffix s ∷ [];
  action = action;
}

abbrev router : Router Text
router = record {
  rules = suffix_rule (bytes "ads.test") block ∷ suffix_rule (bytes "google.com") direct ∷ [];
  default_action = proxy;
  outbound_mode = 0;
  quic_blocked = true;
  rule_hits = [];
}

abbrev ads : Request
ads = name_only plain_engine world (bytes "x.ads.test")

abbrev foreign : Request
foreign = name_only plain_engine world (bytes "mail.google.com")

abbrev printer : Request
printer = record {
  domain = none;
  ip = some (v4 (ipv4 192 168 1 9));
  dst_port = some 631;
  transport = none;
}

abbrev site : Text
site = bytes "www.example.cn"

ads_not_local : lan_decision plain_engine world ads ≡ none
unfolding lan_decision is_lan_or_router_domain lan_router_exact_domains lan_domain_suffixes
ads_not_local = refl

foreign_not_local : lan_decision plain_engine world foreign ≡ none
unfolding lan_decision is_lan_or_router_domain lan_router_exact_domains lan_domain_suffixes
foreign_not_local = refl

rule_mode : mode_decision plain_engine world router.outbound_mode ≡ none
unfolding mode_decision
rule_mode = refl

is_foreign : is_known_non_cn_domain (bytes "mail.google.com") ≡ true
unfolding is_known_non_cn_domain non_cn_roots
is_foreign = refl

nothing_learned : holds foreign.domain (learned plain_engine world) ≡ false
unfolding is_dynamic_direct_domain get
nothing_learned = refl

site_not_local : is_lan_or_router_domain site ≡ false
unfolding is_lan_or_router_domain lan_router_exact_domains lan_domain_suffixes
site_not_local = refl

site_not_foreign : is_known_non_cn_domain site ≡ false
unfolding is_known_non_cn_domain non_cn_roots
site_not_foreign = refl

site_ascii : ends_with (clean_domain site) (bytes ".xn--fiqs8s") ≡ false
unfolding ends_with clean_domain
site_ascii = refl

route_decision_sourced-First_example :
    ((rule : CompositeRule Text) × First plain_engine world ads router.rules rule
      × (route_decision_sourced plain_engine world ads router
          ≡ rule_outcome plain_engine world rule router))
    ⊎ (Passed plain_engine world ads router.rules
        × (route_decision_sourced plain_engine world ads router
            ≡ (fallback_decision plain_engine world router.default_action ads, router)))
route_decision_sourced-First_example =
    route_decision_sourced-First plain_engine world ads router ads_not_local rule_mode

route_decision-foreign_example :
    is_direct_action (route_decision plain_engine world foreign router) ≡ false
route_decision-foreign_example =
    route_decision-foreign plain_engine world foreign router (bytes "mail.google.com") refl
      is_foreign foreign_not_local refl nothing_learned refl refl

printer_local : is_local printer ≡ true
unfolding is_private_ip
printer_local = refl

route_decision_sourced-local_example :
    (((route_decision_sourced plain_engine world printer router).0).action ≡ direct)
    × (((route_decision_sourced plain_engine world printer router).0).source ≡ lan)
    × ((route_decision_sourced plain_engine world printer router).1 ≡ router)
route_decision_sourced-local_example =
    route_decision_sourced-local plain_engine world printer router printer_local

abbrev proxied : Text
proxied = bytes "www.example.org"

no_rule-First :
    (rule : CompositeRule Text)
    → First plain_engine world (name_only plain_engine world (clean_domain site)) router.rules rule
    → is_direct_action rule.action ≡ true
unfolding matches_rule
no_rule-First rule (here hit) = cc
no_rule-First rule (there missed (here hit)) = refl
no_rule-First rule (there missed (there missed' f)) = elim f [ ]

should_resolve_upstream-decide_domain_example :
    should_resolve_upstream plain_engine world site router
    ≡ is_direct_action (decide_domain plain_engine world (clean_domain site) router)
should_resolve_upstream-decide_domain_example =
    should_resolve_upstream-decide_domain plain_engine world site router site_not_local
      site_not_foreign site_ascii rule_mode refl no_rule-First

fake_ip_guard-matches_rule_example :
    matches_rule plain_engine empty_geo
      (record {
        id = bytes "sys_fake_ip_guard";
        name = bytes "guard";
        enabled = true;
        logic = or_logic;
        conditions = ip_cidr (bytes "198.18.0.0/15") (some (new_v4 (ipv4 198 18 0 0) 15)) ∷ [];
        action = proxy;
      })
      (record {
        domain = none;
        ip = some (v4 (ipv4 198 18 0 7));
        dst_port = some 443;
        transport = none;
      })
    ≡ false
fake_ip_guard-matches_rule_example =
    fake_ip_guard-matches_rule plain_engine world empty_geo (bytes "sys_fake_ip_guard")
      (bytes "guard") (bytes "198.18.0.0/15")
      (record {
        domain = none;
        ip = some (v4 (ipv4 198 18 0 7));
        dst_port = some 443;
        transport = none;
      })

abbrev table : List (ℕ × ℕ)
table = (ipv4 36 0 0 0, 10) ∷ (ipv4 1 0 1 0, 24) ∷ (ipv4 36 32 0 0, 11) ∷ []

table_entries : All IsEntry table
table_entries =
    ((omega arith, omega arith), ((omega arith, omega arith), ((omega arith, omega arith), tt)))

is_cn_ip-scan_example : is_cn_ip empty_geo table (v4 (ipv4 36 40 1 1)) ≡ (
    if is_fake_ip (v4 (ipv4 36 40 1 1))
    then false
    else match_geoip empty_geo (bytes "CN") (v4 (ipv4 36 40 1 1))
      || any (entry_has (ipv4 36 40 1 1)) table)
is_cn_ip-scan_example = is_cn_ip-scan empty_geo table (ipv4 36 40 1 1) table_entries (omega arith)

found : is_cn_ip empty_geo table (v4 (ipv4 36 40 1 1)) ≡ true
unfolding is_cn_ip get text_eq
found = refl

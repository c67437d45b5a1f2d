-- ===== src/Net/Domains.antt =====
-- direct.rs: local, foreign and domestic domain names.
use mirage_android.Prelude.{
  ap, ◌≡◌, refl, Bool, true, false, ◌||◌, Option, none, some, if◌then◌else◌, Text, text_eq, any,
}
use mirage_android.Data.Texts.{bytes, is_under, ends_with, clean_domain, clean_domain_idem}
use mirage_android.Data.Numerals.{ipv4}
use mirage_android.Net.Names.{
  lan_router_exact_domains, lan_domain_suffixes, non_cn_roots, cn_domains,
}
use mirage_android.Net.Address.{IpAddr, v4}

unfoldable pub is_lan_or_router_domain : Text → Bool
unfolding any is_under clean_domain
is_lan_or_router_domain domain =
    let d = clean_domain domain in
    any (is_under d) lan_router_exact_domains || any (is_under d) lan_domain_suffixes

unfoldable pub is_known_non_cn_domain : Text → Bool
unfolding any is_under clean_domain
is_known_non_cn_domain domain = any (is_under (clean_domain domain)) non_cn_roots

-- The part of `is_cn_domain` that looks at the name alone.
unfoldable pub is_cn_name : Text → Bool
unfolding any is_under ends_with clean_domain
is_cn_name domain =
    let d = clean_domain domain in
    ends_with d (bytes ".cn") || (text_eq d (bytes "cn") || any (is_under d) cn_domains)

unfoldable pub is_cn_domain_strict : Text → Bool
unfolding is_known_non_cn_domain is_cn_name
is_cn_domain_strict domain = if is_known_non_cn_domain domain then false else is_cn_name domain

-- `geosite` tells whether the loaded tables have the domain under a tag.
unfoldable pub is_cn_domain : (Text → Text → Bool) → Text → Bool
unfolding is_known_non_cn_domain is_cn_name
is_cn_domain geosite domain =
    if is_known_non_cn_domain domain
    then false
    else if geosite (bytes "CN") domain
    then true
    else is_cn_name domain

unfoldable pub default_router_ip_for_domain : Text → Option IpAddr
unfolding is_under clean_domain
default_router_ip_for_domain domain =
    let d = clean_domain domain in
    if is_under d (bytes "miwifi.com")
    then some (v4 (ipv4 192 168 31 1))
    else if is_under d (bytes "tendawifi.com")
    then some (v4 (ipv4 192 168 0 1))
    else if is_under d (bytes "phicomm.me") || is_under d (bytes "speedport.ip")
    then some (v4 (ipv4 192 168 2 1))
    else if is_under d (bytes "fritz.box")
    then some (v4 (ipv4 192 168 178 1))
    else if is_under d (bytes "router.asus.com")
        || (is_under d (bytes "asusrouter.com")
            || (is_under d (bytes "tplogin.cn")
                || (is_under d (bytes "tplinkwifi.net")
                    || (is_under d (bytes "melogin.cn")
                        || (is_under d (bytes "falogin.cn")
                            || (is_under d (bytes "hiwifi.com")
                                || (is_under d (bytes "netcore.cc")
                                    || is_under d (bytes "leike.cc"))))))))
    then some (v4 (ipv4 192 168 1 1))
    else none

-- Case and trailing dots do not matter.
pub is_known_non_cn_domain-clean_domain :
    (d : Text) → is_known_non_cn_domain (clean_domain d) ≡ is_known_non_cn_domain d
unfolding is_known_non_cn_domain
is_known_non_cn_domain-clean_domain d =
    ap (λ (c : Text). any (is_under c) non_cn_roots) (clean_domain_idem d)

pub is_lan_or_router_domain-clean_domain :
    (d : Text) → is_lan_or_router_domain (clean_domain d) ≡ is_lan_or_router_domain d
unfolding is_lan_or_router_domain
is_lan_or_router_domain-clean_domain d =
    ap
      (λ (c : Text).
        any (is_under c) lan_router_exact_domains || any (is_under c) lan_domain_suffixes)
      (clean_domain_idem d)

router_runs :
    (is_lan_or_router_domain (bytes "NAS.Local.") ≡ true)
    × (is_lan_or_router_domain (bytes "notlocal") ≡ false)
    × (is_known_non_cn_domain (bytes "mail.google.com") ≡ true)
    × (is_cn_domain_strict (bytes "www.gov.cn") ≡ true)
unfolding is_lan_or_router_domain is_known_non_cn_domain is_cn_domain_strict
    lan_router_exact_domains lan_domain_suffixes non_cn_roots cn_domains
router_runs = (refl, refl, refl, refl)

-- ===== src/Net/Routers.antt =====
-- direct.rs: the default address of a router's own name.
use mirage_android.Prelude.{
  ◌≡◌, refl, subst, Bool, true, ◌||◌, Option, some, arith, if_keeps, Text, any,
}
use mirage_android.Data.Texts.{bytes, is_under, clean_domain}
use mirage_android.Data.Numerals.{ipv4}
use mirage_android.Net.Names.{lan_router_exact_domains}
use mirage_android.Net.Address.{IpAddr, v4, is_private_ip}
use mirage_android.Net.Domains.{is_lan_or_router_domain, default_router_ip_for_domain}

-- An address, if there is one, is private, and the name is local.
abbrev IsLocalAnswer : Text → Option IpAddr → Type 0
IsLocalAnswer d o =
    (ip : IpAddr) → o ≡ some ip → (is_lan_or_router_domain d ≡ true) × (is_private_ip ip ≡ true)

answer-IsLocalAnswer :
    (d : Text) (a : IpAddr)
    → is_lan_or_router_domain d ≡ true
    → is_private_ip a ≡ true
    → IsLocalAnswer d (some a)
answer-IsLocalAnswer d a h k = λ ip e.
    let same : a ≡ ip = ground arith in (h, subst (λ (x : IpAddr). is_private_ip x ≡ true) same k)

answers_private :
    (is_private_ip (v4 (ipv4 192 168 31 1)) ≡ true)
    × (is_private_ip (v4 (ipv4 192 168 0 1)) ≡ true)
    × (is_private_ip (v4 (ipv4 192 168 2 1)) ≡ true)
    × (is_private_ip (v4 (ipv4 192 168 178 1)) ≡ true)
    × (is_private_ip (v4 (ipv4 192 168 1 1)) ≡ true)
unfolding is_private_ip
answers_private = (refl, refl, refl, refl, refl)

module _ (d : Text) where
  abbrev under : Text → Bool
  under s = is_under (clean_domain d) s

  names_local :
      ((under (bytes "miwifi.com")
          || (under (bytes "tendawifi.com")
              || (under (bytes "phicomm.me")
                  || (under (bytes "speedport.ip")
                      || (under (bytes "fritz.box")
                          || (under (bytes "router.asus.com")
                              || (under (bytes "asusrouter.com")
                                  || (under (bytes "tplogin.cn")
                                      || (under (bytes "tplinkwifi.net")
                                          || (under (bytes "melogin.cn")
                                              || (under (bytes "falogin.cn")
                                                  || (under (bytes "hiwifi.com")
                                                      || (under (bytes "netcore.cc")
                                                          || under (bytes "leike.cc"))))))))))))))
        ≡ true)
      → is_lan_or_router_domain d ≡ true
  unfolding is_lan_or_router_domain lan_router_exact_domains any
  names_local h = ground arith

  -- If a domain has a default router address, the domain is a local one and the address is
  -- private.
  pub default_router_ip_for_domain-is_private_ip :
      (ip : IpAddr)
      → default_router_ip_for_domain d ≡ some ip
      → (is_lan_or_router_domain d ≡ true) × (is_private_ip ip ≡ true)
  unfolding default_router_ip_for_domain
  default_router_ip_for_domain-is_private_ip =
      let P = IsLocalAnswer d in
      if_keeps P (under (bytes "miwifi.com"))
        (λ e. answer-IsLocalAnswer d _ (names_local (ground arith)) answers_private.0)
        (λ e.
          if_keeps P (under (bytes "tendawifi.com"))
            (λ e. answer-IsLocalAnswer d _ (names_local (ground arith)) answers_private.1)
            (λ e.
              if_keeps P (under (bytes "phicomm.me") || under (bytes "speedport.ip"))
                (λ e. answer-IsLocalAnswer d _ (names_local (ground arith)) answers_private.2)
                (λ e.
                  if_keeps P (under (bytes "fritz.box"))
                    (λ e. answer-IsLocalAnswer d _ (names_local (ground arith)) answers_private.3)
                    (λ e.
                      if_keeps P
                        (under (bytes "router.asus.com")
                          || (under (bytes "asusrouter.com")
                              || (under (bytes "tplogin.cn")
                                  || (under (bytes "tplinkwifi.net")
                                      || (under (bytes "melogin.cn")
                                          || (under (bytes "falogin.cn")
                                              || (under (bytes "hiwifi.com")
                                                  || (under (bytes "netcore.cc")
                                                      || under (bytes "leike.cc")))))))))
                        (λ e.
                          answer-IsLocalAnswer d _ (names_local (ground arith)) answers_private.4)
                        (λ e ip none_is. cc)))))

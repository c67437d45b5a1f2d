-- ===== src/Router/Local.antt =====
-- direct.rs: local requests in every mode, and the injected guard rule.
use mirage_android.Prelude.{
  ℕ, ◌≡◌, refl, subst, ==_iff, Bool, true, false, not, ◌&&◌, ◌||◌, Option, none, some, [], ◌∷◌,
  arith, Text, ◌==◌, Bool-cases, inl, inr, any,
}
use mirage_android.Data.Texts.{bytes}
use mirage_android.Data.Numerals.{ipv4}
use mirage_android.Net.Address.{IpAddr, v4, v6, ip_eq, is_fake_ip, is_private_ip}
use mirage_android.Data.Words.{prefix_mask}
use mirage_android.Net.Cidr.{new_v4, contains_v4}
use mirage_android.Net.Domains.{is_lan_or_router_domain}
use mirage_android.Geo.{RegexEngine, GeoStore}
use mirage_android.Router.Rules.{
  direct, proxy, or_logic, ip_cidr, Request, holds, in_cidr, matches_condition, matches_rule,
}
use mirage_android.Router.Decide.{
  Router, World, lan, dns_address, lan_decision, route_decision_sourced,
}

abbrev pub to_resolver : Request → Bool
to_resolver r = holds r.ip (λ a. ip_eq a dns_address)

-- The address is private, or the name is local and the address is not the resolver's.
abbrev pub is_local : Request → Bool
is_local r =
    holds r.ip is_private_ip || (holds r.domain is_lan_or_router_domain && not (to_resolver r))

absurd_private :
    (u : ℕ) → u ≡ ipv4 198 19 0 53 → is_private_ip (v4 u) ≡ true → ip_eq (v4 u) dns_address ≡ false
absurd_private u e h =
    let wrong : is_private_ip (v4 (ipv4 198 19 0 53)) ≡ true =
      subst (λ (x : ℕ). is_private_ip (v4 x) ≡ true) e h in
    unfold is_private_ip is_fake_ip in cc

private_not_resolver : (a : IpAddr) → is_private_ip a ≡ true → ip_eq a dns_address ≡ false
unfolding ip_eq
private_not_resolver (v4 u) h = elim (Bool-cases (u == ipv4 198 19 0 53)) [
  | inl same ↦ absurd_private u ((==_iff u (ipv4 198 19 0 53)).0 same) h
  | inr other ↦ other
]
private_not_resolver (v6 u) h = refl

local_not_resolver :
    (o : Option IpAddr) (named : Bool)
    → (holds o is_private_ip || (named && not (holds o (λ a. ip_eq a dns_address)))) ≡ true
    → holds o (λ a. ip_eq a dns_address) ≡ false
local_not_resolver none named h = refl
local_not_resolver (some a) named h = elim (Bool-cases (is_private_ip a)) [
  | inl private_address ↦ private_not_resolver a private_address
  | inr public_address ↦ ground arith
]

fake_guard_misses : (o : Option IpAddr) → in_cidr o (some (new_v4 (ipv4 198 18 0 0) 15)) ≡ false
unfolding in_cidr new_v4 contains_v4 is_fake_ip prefix_mask
fake_guard_misses none = refl
fake_guard_misses (some (v4 u)) = ground arith
fake_guard_misses (some (v6 u)) = refl

module _ (engine : RegexEngine) (world : World (engine.Regex)) where
  open engine use {Regex}

  lan_decision-local :
      (r : Request)
      → is_local r ≡ true
      → (text : Text) × (lan_decision engine world r
          ≡ some (record { action = direct; source = lan; detail = text }))
  unfolding lan_decision
  lan_decision-local r h =
      let elsewhere : to_resolver r ≡ false =
        local_not_resolver r.ip (holds r.domain is_lan_or_router_domain) h in
      elim (Bool-cases (holds r.ip is_private_ip)) [
        | inl private_address ↦ (bytes "Private IP (LAN)", rw (elsewhere, private_address) refl)
        | inr public_address ↦
            let name : holds r.domain is_lan_or_router_domain ≡ true = ground arith in
            (bytes "Router / LAN Domain", rw (elsewhere, public_address, name) refl)
      ]

  -- A local request (a private address, or a local name with no address or one other than the
  -- resolver's) is sent direct, as a local one, whatever the outbound mode, the rules and the
  -- tables are, and the router does not change.
  pub route_decision_sourced-local :
      (r : Request) (router : Router Regex)
      → is_local r ≡ true
      → (((route_decision_sourced engine world r router).0).action ≡ direct)
        × (((route_decision_sourced engine world r router).0).source ≡ lan)
        × ((route_decision_sourced engine world r router).1 ≡ router)
  unfolding route_decision_sourced
  route_decision_sourced-local r router h =
      let (text, e) = lan_decision-local r h in rw e (refl, refl, refl)

  -- The rule that is put behind the user's rules to send the fake addresses 198.18.0.0/15 to the
  -- proxy matches no request, since an address condition is never true of a fake address.
  pub fake_ip_guard-matches_rule :
      (store : GeoStore Regex) (id name raw : Text) (r : Request)
      → matches_rule engine store
          (record {
            id = id;
            name = name;
            enabled = true;
            logic = or_logic;
            conditions = ip_cidr raw (some (new_v4 (ipv4 198 18 0 0) 15)) ∷ [];
            action = proxy;
          })
          r
        ≡ false
  unfolding matches_rule matches_condition any
  fake_ip_guard-matches_rule store id name raw r = rw (fake_guard_misses r.ip) refl

-- ===== src/Router/Leaks.antt =====
-- direct.rs: the guard against DNS leaks agrees with the routing decision.
use mirage_android.Prelude.{
  ℕ, ◌≡◌, refl, sym, ap, ◌∙◌, Bool, true, false, not, ◌&&◌, ◌||◌, none, List, [], ◌∷◌, arith,
  if◌then◌else◌, Text, ◌==◌, Bool-cases, inl, inr,
}
use mirage_android.Data.Texts.{bytes, ends_with, clean_domain, clean_domain_idem}
use mirage_android.Net.Domains.{
  is_lan_or_router_domain, is_known_non_cn_domain, is_cn_name, is_cn_domain,
  is_known_non_cn_domain-clean_domain, is_lan_or_router_domain-clean_domain,
}
use mirage_android.Geo.{RegexEngine}
use mirage_android.Router.Rules.{is_direct_action, CompositeRule}
use mirage_android.Router.Decide.{
  Router, World, geosite, learned, is_guarded, lan_decision, mode_decision, fallback_decision,
  route_decision, name_only, decide_domain,
}
use mirage_android.Router.Upstream.{direct_rule_hits, should_resolve_upstream}
use mirage_android.Router.Order.{
  First, here, there, Passed, route_decision_sourced-First, route_decision-indirect, in_proxy_mode,
  sends_direct,
}

is_cn_domain-cn :
    (g : Text → Text → Bool) (d : Text)
    → is_known_non_cn_domain (clean_domain d) ≡ false
    → ends_with (clean_domain d) (bytes ".cn") ≡ true
    → is_cn_domain g (clean_domain d) ≡ true
unfolding is_cn_domain is_cn_name
is_cn_domain-cn g d near e = rw (near, clean_domain_idem d, e) (ground arith)

guard_tree :
    (foreign local one two suffix cn rule known : Bool)
    → foreign ≡ false
    → local ≡ false
    → (if foreign
        then false
        else if local
        then false
        else if one
        then false
        else if two
        then true
        else if suffix
        then true
        else if cn
        then true
        else if rule
        then true
        else known)
      ≡ (not one && (two || (suffix || (cn || (rule || known)))))
guard_tree foreign local one two suffix cn rule known near far = ground arith

module _ (engine : RegexEngine) (world : World (engine.Regex)) where
  open engine use {Regex}

  lan_decision-name_only :
      (d : Text)
      → is_lan_or_router_domain d ≡ false
      → lan_decision engine world (name_only engine world d) ≡ none
  unfolding lan_decision
  lan_decision-name_only d h = rw h refl

  -- Without a direct rule that names the domain, the rule that applies is not direct.
  First-indirect :
      (rules : List (CompositeRule Regex)) (d : Text) (rule : CompositeRule Regex)
      → direct_rule_hits engine world rules d ≡ false
      → First engine world (name_only engine world d) rules rule
      → is_direct_action rule.action ≡ false
  unfolding direct_rule_hits
  First-indirect [] d rule h f = elim f [ ]
  First-indirect (x ∷ rules) d rule h (here hit) = ground arith
  First-indirect (x ∷ rules) d rule h (there missed f) =
      First-indirect rules d rule (ground arith) f

  Passed-hits :
      (rules : List (CompositeRule Regex)) (d : Text)
      → is_known_non_cn_domain d ≡ false
      → Passed engine world (name_only engine world d) rules
      → direct_rule_hits engine world rules d ≡ false
  unfolding direct_rule_hits is_guarded
  Passed-hits [] d near p = refl
  Passed-hits (x ∷ rules) d near (missed, p) = ground (arith, Passed-hits rules d near p)

  abbrev china_suffix : Text → Bool
  china_suffix c = ends_with c (bytes ".cn") || ends_with c (bytes ".xn--fiqs8s")

  -- The guard on a name whose cleaned form is neither foreign nor local.
  should_resolve_upstream_tests :
      (d : Text) (router : Router Regex)
      → is_known_non_cn_domain (clean_domain d) ≡ false
      → is_lan_or_router_domain (clean_domain d) ≡ false
      → should_resolve_upstream engine world d router ≡ (
          not (router.outbound_mode == 1)
          && (router.outbound_mode == 2
              || (china_suffix (clean_domain d)
                  || (is_cn_domain (geosite engine world) (clean_domain d)
                      || (direct_rule_hits engine world router.rules (clean_domain d)
                          || learned engine world (clean_domain d))))))
  unfolding should_resolve_upstream
  should_resolve_upstream_tests d router near far =
      let c = clean_domain d in
      guard_tree (is_known_non_cn_domain c) (is_lan_or_router_domain c) (router.outbound_mode == 1)
        (router.outbound_mode == 2) (china_suffix c) (is_cn_domain (geosite engine world) c)
        (direct_rule_hits engine world router.rules c) (learned engine world c) near far

  pub should_resolve_upstream-refused :
      (d : Text) (router : Router Regex)
      → is_lan_or_router_domain d ≡ false
      → is_known_non_cn_domain d ≡ false
      → is_direct_action router.default_action ≡ false
      → should_resolve_upstream engine world d router ≡ false
      → is_direct_action (decide_domain engine world (clean_domain d) router) ≡ false
  unfolding decide_domain
  should_resolve_upstream-refused d router far near dflt refused =
      let c = clean_domain d in
      let far' : is_lan_or_router_domain c ≡ false = is_lan_or_router_domain-clean_domain d ∙ far in
      let near' : is_known_non_cn_domain c ≡ false = is_known_non_cn_domain-clean_domain d ∙ near in
      let tests = should_resolve_upstream_tests d router near' far' in
      let r = name_only engine world c in
      let l = lan_decision-name_only c far' in
      elim (Bool-cases (router.outbound_mode == 1)) [
        | inl one ↦ in_proxy_mode engine world r router l one
        | inr other ↦
            route_decision-indirect engine world r router
              (λ rule f. First-indirect router.rules c rule (ground arith) f) (ground arith) l
              (ground arith) (ground arith) refl dflt
      ]

  fallback_decision-domestic :
      (c : Text) (router : Router Regex)
      → (is_cn_domain (geosite engine world) c || learned engine world c) ≡ true
      → is_direct_action
          (fallback_decision engine world router.default_action (name_only engine world c)).action
        ≡ true
  unfolding fallback_decision
  fallback_decision-domestic c router h =
      elim (Bool-cases (is_cn_domain (geosite engine world) c)) [
        | inl cn ↦ rw cn refl
        | inr other ↦
            let known : learned engine world c ≡ true = ground arith in rw (other, known) refl
      ]

  mode_decision-none :
      (mode : ℕ)
      → mode_decision engine world mode ≡ none
      → ((mode == 1) ≡ false) × ((mode == 2) ≡ false)
  unfolding mode_decision
  mode_decision-none mode h = ground arith

  should_resolve_upstream-admitted :
      (d : Text) (router : Router Regex)
      → is_lan_or_router_domain d ≡ false
      → is_known_non_cn_domain d ≡ false
      → ends_with (clean_domain d) (bytes ".xn--fiqs8s") ≡ false
      → mode_decision engine world router.outbound_mode ≡ none
      → ((rule : CompositeRule Regex)
          → First engine world (name_only engine world (clean_domain d)) router.rules rule
          → is_direct_action rule.action ≡ true)
      → should_resolve_upstream engine world d router ≡ true
      → is_direct_action (decide_domain engine world (clean_domain d) router) ≡ true
  unfolding decide_domain route_decision
  should_resolve_upstream-admitted d router far near ascii mode directs admitted =
      let c = clean_domain d in
      let far' : is_lan_or_router_domain c ≡ false = is_lan_or_router_domain-clean_domain d ∙ far in
      let near' : is_known_non_cn_domain c ≡ false = is_known_non_cn_domain-clean_domain d ∙ near in
      let tests = sym (should_resolve_upstream_tests d router near' far') ∙ admitted in
      let modes = mode_decision-none router.outbound_mode mode in
      elim (route_decision_sourced-First engine world (name_only engine world c) router
        (lan_decision-name_only c far') mode) [
          | inl (rule, f, e) ↦ ap (sends_direct engine world) e ∙ directs rule f
          | inr (p, e) ↦
              let hits = Passed-hits router.rules c near' p in
              let china = is_cn_domain-cn (geosite engine world) d near' in
              ap (sends_direct engine world) e ∙ fallback_decision-domestic c router (ground arith)
        ]

  -- In the rule mode, for a name that is neither local nor known to be foreign nor under the
  -- domain xn--fiqs8s, where no rule applies or the first rule that applies is direct and where
  -- the default action is not direct, the leak guard admits the name exactly when the router sends
  -- its cleaned form direct.
  pub should_resolve_upstream-decide_domain :
      (d : Text) (router : Router Regex)
      → is_lan_or_router_domain d ≡ false
      → is_known_non_cn_domain d ≡ false
      → ends_with (clean_domain d) (bytes ".xn--fiqs8s") ≡ false
      → mode_decision engine world router.outbound_mode ≡ none
      → is_direct_action router.default_action ≡ false
      → ((rule : CompositeRule Regex)
          → First engine world (name_only engine world (clean_domain d)) router.rules rule
          → is_direct_action rule.action ≡ true)
      → should_resolve_upstream engine world d router
        ≡ is_direct_action (decide_domain engine world (clean_domain d) router)
  unfolding decide_domain
  should_resolve_upstream-decide_domain d router far near ascii mode dflt directs =
      elim (Bool-cases (should_resolve_upstream engine world d router)) [
        | inl admitted ↦
            admitted
            ∙ sym (should_resolve_upstream-admitted d router far near ascii mode directs admitted)
        | inr refused ↦
            refused ∙ sym (should_resolve_upstream-refused d router far near dflt refused)
      ]

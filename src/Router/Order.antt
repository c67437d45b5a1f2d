-- ===== src/Router/Order.antt =====
-- The order of the routing steps: the first rule that applies wins, and what can send a request direct.
use mirage_android.Prelude.{
  ◌≡◌, refl, ap, ◌∙◌, subst, Bool, true, false, not, ◌&&◌, none, some, List, [], ◌∷◌, ◌++◌, arith,
  Text, ◌==◌, ◌⊎◌, All, Bool-cases, Option-cases, inl, inr,
}
use mirage_android.Data.Texts.{bytes}
use mirage_android.Net.Domains.{is_known_non_cn_domain, is_cn_domain}
use mirage_android.Geo.{RegexEngine}
use mirage_android.Router.Rules.{
  RuleAction, proxy, as_str, is_direct_action, CompositeRule, Request, holds, matches_rule,
}
use mirage_android.Router.CnIp.{is_cn_ip}
use mirage_android.Router.Decide.{
  Decision, global_mode, user_rule, Router, World, record_rule_hit, geosite, learned, is_guarded,
  find_rule, lan_decision, mode_decision, fallback_decision, route_decision_sourced, route_decision,
}

module _ (engine : RegexEngine) (world : World (engine.Regex)) where
  open engine use {Regex}

  -- The rule decides the request, if no earlier rule does.
  abbrev pub applies : Request → CompositeRule Regex → Bool
  applies r rule = matches_rule engine world.geo rule r && not (is_guarded engine world rule r)

  abbrev pub Passed : Request → List (CompositeRule Regex) → Type 0
  Passed r rules = All (λ rule. applies r rule ≡ false) rules

  -- The rule is the first of the list that applies.
  pub data First (r : Request) : List (CompositeRule Regex) → CompositeRule Regex → Type 0 where
    here :
        {rule : CompositeRule Regex} {rules : List (CompositeRule Regex)}
        → applies r rule ≡ true
        → First r (rule ∷ rules) rule
    there :
        {other rule : CompositeRule Regex} {rules : List (CompositeRule Regex)}
        → applies r other ≡ false
        → First r rules rule
        → First r (other ∷ rules) rule

  find_rule-First :
      (rules : List (CompositeRule Regex)) (r : Request) (rule : CompositeRule Regex)
      → find_rule engine world rules r ≡ some rule
      → First r rules rule
  unfolding find_rule
  find_rule-First [] r rule e = cc
  find_rule-First (x ∷ rules) r rule e = elim (Bool-cases (applies r x)) [
    | inl hit ↦ let same : x ≡ rule = ground arith in subst (First r (x ∷ rules)) same (here hit)
    | inr missed ↦ there missed (find_rule-First rules r rule (ground arith))
  ]

  find_rule-Passed :
      (rules : List (CompositeRule Regex)) (r : Request)
      → find_rule engine world rules r ≡ none
      → Passed r rules
  unfolding find_rule
  find_rule-Passed [] r e = tt
  find_rule-Passed (x ∷ rules) r e = ground (arith, find_rule-Passed rules r)

  abbrev pub rule_outcome : CompositeRule Regex → Router Regex → Decision × Router Regex
  rule_outcome rule router = (
    record { action = rule.action; source = user_rule; detail = bytes "Rule: " ++ rule.name },
    record router {
      rule_hits = record_rule_hit router.rule_hits rule.id rule.name (as_str rule.action);
    },
  )

  -- In the rule mode and for a request that is not local, either some rule is the first of the
  -- list that applies (it matches, and is no direct rule for a known foreign domain), its action
  -- is the decision, and one hit is counted for it; or no rule applies, the decision is the
  -- fallback, and the router does not change.
  pub route_decision_sourced-First :
      (r : Request) (router : Router Regex)
      → lan_decision engine world r ≡ none
      → mode_decision engine world router.outbound_mode ≡ none
      → ((rule : CompositeRule Regex) × First r router.rules rule
          × (route_decision_sourced engine world r router ≡ rule_outcome rule router))
        ⊎ (Passed r router.rules
            × (route_decision_sourced engine world r router
                ≡ (fallback_decision engine world router.default_action r, router)))
  unfolding route_decision_sourced
  route_decision_sourced-First r router l m =
      elim (Option-cases (find_rule engine world router.rules r)) [
        | inl gone ↦ inr (find_rule-Passed router.rules r gone, rw (l, m, gone) refl)
        | inr (rule, found) ↦
            inl (rule, find_rule-First router.rules r rule found, rw (l, m, found) refl)
      ]

  is_cn_domain-foreign :
      (r : Request) (g : Text → Text → Bool) (d : Text)
      → r.domain ≡ some d
      → is_known_non_cn_domain d ≡ true
      → holds r.domain (is_cn_domain g) ≡ false
  unfolding is_cn_domain
  is_cn_domain-foreign r g d e foreign = rw (e, foreign) refl

  fallback_decision-default :
      (action : RuleAction) (r : Request)
      → holds r.domain (is_cn_domain (geosite engine world)) ≡ false
      → holds r.domain (learned engine world) ≡ false
      → holds r.ip (is_cn_ip world.geo world.cn_table) ≡ false
      → (fallback_decision engine world action r).action ≡ action
  unfolding fallback_decision
  fallback_decision-default action r a b c = rw (a, b, c) refl

  -- A rule that applies to a known foreign domain is no direct rule.
  First-foreign :
      (rules : List (CompositeRule Regex)) (r : Request) (rule : CompositeRule Regex)
      → holds r.domain is_known_non_cn_domain ≡ true
      → First r rules rule
      → is_direct_action rule.action ≡ false
  First-foreign [] r rule foreign f = elim f [ ]
  First-foreign (x ∷ rules) r rule foreign (here hit) = unfold is_guarded in ground arith
  First-foreign (x ∷ rules) r rule foreign (there missed f) = First-foreign rules r rule foreign f

  abbrev pub sends_direct : Decision × Router Regex → Bool
  sends_direct o = is_direct_action (o.0).action

  in_mode :
      (r : Request) (router : Router Regex) (decision : Decision)
      → lan_decision engine world r ≡ none
      → mode_decision engine world router.outbound_mode ≡ some decision
      → route_decision_sourced engine world r router ≡ (decision, router)
  unfolding route_decision_sourced
  in_mode r router decision l m = rw (l, m) refl

  -- If the rule that applies, the fallback's tests and the default do not say direct, the decision does not.
  rule_or_default_indirect :
      (r : Request) (router : Router Regex)
      → ((rule : CompositeRule Regex)
          → First r router.rules rule
          → is_direct_action rule.action ≡ false)
      → holds r.domain (is_cn_domain (geosite engine world)) ≡ false
      → lan_decision engine world r ≡ none
      → mode_decision engine world router.outbound_mode ≡ none
      → holds r.domain (learned engine world) ≡ false
      → holds r.ip (is_cn_ip world.geo world.cn_table) ≡ false
      → is_direct_action router.default_action ≡ false
      → is_direct_action (route_decision engine world r router) ≡ false
  unfolding route_decision
  rule_or_default_indirect r router indirect other_name l m unlearned abroad dflt =
      elim (route_decision_sourced-First r router l m) [
        | inl (rule, f, e) ↦ ap sends_direct e ∙ indirect rule f
        | inr (p, e) ↦
            let action =
              fallback_decision-default router.default_action r other_name unlearned abroad in
            ap sends_direct e ∙ (ap is_direct_action action ∙ dflt)
      ]

  pub in_proxy_mode :
      (r : Request) (router : Router Regex)
      → lan_decision engine world r ≡ none
      → (router.outbound_mode == 1) ≡ true
      → is_direct_action (route_decision engine world r router) ≡ false
  unfolding route_decision
  in_proxy_mode r router l one =
      let d : Decision = record {
        action = proxy;
        source = global_mode;
        detail = bytes "Global Proxy Override";
      } in
      let m : mode_decision engine world router.outbound_mode ≡ some d =
        unfold mode_decision in rw one refl in
      ap sends_direct (in_mode r router d l m)

  pub route_decision-indirect :
      (r : Request) (router : Router Regex)
      → ((rule : CompositeRule Regex)
          → First r router.rules rule
          → is_direct_action rule.action ≡ false)
      → holds r.domain (is_cn_domain (geosite engine world)) ≡ false
      → lan_decision engine world r ≡ none
      → (router.outbound_mode == 2) ≡ false
      → holds r.domain (learned engine world) ≡ false
      → holds r.ip (is_cn_ip world.geo world.cn_table) ≡ false
      → is_direct_action router.default_action ≡ false
      → is_direct_action (route_decision engine world r router) ≡ false
  route_decision-indirect r router indirect other_name l mode unlearned abroad dflt =
      elim (Bool-cases (router.outbound_mode == 1)) [
        | inl one ↦ in_proxy_mode r router l one
        | inr other ↦
            let m : mode_decision engine world router.outbound_mode ≡ none =
              unfold mode_decision in rw (other, mode) refl in
            rule_or_default_indirect r router indirect other_name l m unlearned abroad dflt
      ]

  -- A request for a known foreign domain is not sent direct, whatever the rules of the user and
  -- the tables of domestic domains say, if it is no local request, the mode is not the direct one,
  -- the domain is not a learned one, the address is not domestic and the default action is not
  -- direct.
  pub route_decision-foreign :
      (r : Request) (router : Router Regex) (d : Text)
      → r.domain ≡ some d
      → is_known_non_cn_domain d ≡ true
      → lan_decision engine world r ≡ none
      → (router.outbound_mode == 2) ≡ false
      → holds r.domain (learned engine world) ≡ false
      → holds r.ip (is_cn_ip world.geo world.cn_table) ≡ false
      → is_direct_action router.default_action ≡ false
      → is_direct_action (route_decision engine world r router) ≡ false
  route_decision-foreign r router d e foreign l mode unlearned abroad dflt =
      route_decision-indirect r router
        (λ rule f. First-foreign router.rules r rule (rw e foreign) f)
        (is_cn_domain-foreign r (geosite engine world) d e foreign) l mode unlearned abroad dflt

-- ===== src/Config/Routing/Laws.antt =====
-- The routing decision of crates/core/src/config.rs.
use oxid_relay.Prelude.{
  ◌⊎◌, ◌≡◌, false, Option, none, some, List, [], ◌∷◌, map, not, filter, is_empty, All, arith,
  Option-cases, inl, inr,
}
use oxid_relay.Prelude.Text.{Text}
use oxid_relay.Prelude.Assoc.{get}
use oxid_relay.Config.{RoutingConfig, RouteRule, RouteTargetConfig}
use oxid_relay.Config.Routing.{
  RouteTarget, deliver, is_reject, to_target, expand, expand_single, rule_for, resolve,
}

abbrev pub IsDeliverable : RouteTarget → Type 0
IsDeliverable t = is_reject t.transport ≡ false

map-IsDeliverable :
    (ts : List RouteTargetConfig)
    → All IsDeliverable (map to_target (filter (λ t. not (is_reject t.transport)) ts))
unfolding to_target
map-IsDeliverable [] = tt
map-IsDeliverable (t ∷ ts) = ground (arith, map-IsDeliverable ts)

single-IsDeliverable : (o : Option Text) (rs : List Text) → All IsDeliverable (expand_single o rs)
unfolding expand_single
single-IsDeliverable none rs = tt
single-IsDeliverable (some t) rs = ground arith

pub expand-IsDeliverable : (r : RouteRule) → All IsDeliverable (expand r)
unfolding expand
expand-IsDeliverable r =
    ground (arith, map-IsDeliverable r.targets, single-IsDeliverable r.transport r.recipients)

-- A decision to deliver has at least one target, and none of its targets is the channel `reject`
-- in any letter case.
pub resolve-IsDeliverable :
    (r : RoutingConfig) (sender : Text) (ts : List RouteTarget)
    → resolve r sender ≡ deliver ts
    → (is_empty ts ≡ false) × All IsDeliverable ts
unfolding resolve
resolve-IsDeliverable r sender ts h = elim (Option-cases (rule_for r sender)) [
  | inl e ↦ absurd (ground arith)
  | inr (rule, e) ↦ ground (arith, expand-IsDeliverable rule)
]

-- A sender with a rule of its own is routed by that rule alone, whatever the default; a sender
-- without one is routed as a configuration with no rules of senders routes it.
pub resolve-precedence :
    (r : RoutingConfig) (sender : Text) (d : Option RouteRule)
    → ((rule : RouteRule) × (get r.senders sender ≡ some rule)
        × (resolve (record r { default = d }) sender ≡ resolve r sender))
      ⊎ ((get r.senders sender ≡ none)
          × (resolve (record r { senders = [] }) sender ≡ resolve r sender))
unfolding resolve rule_for get
resolve-precedence r sender d = elim (Option-cases (get r.senders sender)) [
  | inl e ↦ inr (e, ground arith)
  | inr (rule, e) ↦ inl (rule, e, ground arith)
]

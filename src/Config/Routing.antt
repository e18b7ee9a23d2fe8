-- ===== src/Config/Routing.antt =====
-- Routing of crates/core/src/config.rs: the channel and the recipients by the sender's address.
pub mod Laws
use oxid_relay.Prelude.{
  Option, none, some, List, [], ◌∷◌, map, Bool, true, false, not, ◌||◌, is_empty, filter,
  if◌then◌else◌,
}
use oxid_relay.Prelude.Text.{Text, codes, eq_ignore_ascii_case}
use oxid_relay.Prelude.Assoc.{get}
use oxid_relay.Message.{Address, new_address}
use oxid_relay.Config.{RoutingConfig, RouteRule, RouteTargetConfig}

pub record RouteTarget : Type 0 where
  pub transport : Text
  pub recipients : Option (List Address)

pub data Route : Type 0 where
  reject : Route
  deliver : List RouteTarget → Route

unfoldable pub recipient_override : List Text → Option (List Address)
recipient_override [] = none
recipient_override (r ∷ rs) = some (map new_address (r ∷ rs))

-- `transport.eq_ignore_ascii_case("reject")`
unfoldable pub is_reject : Text → Bool
is_reject t = eq_ignore_ascii_case t (codes "reject")

unfoldable pub to_target : RouteTargetConfig → RouteTarget
to_target t = record { transport = t.transport; recipients = recipient_override t.recipients }

-- The single-transport form of a rule.
unfoldable pub expand_single : Option Text → List Text → List RouteTarget
expand_single none recipients = []
expand_single (some t) recipients =
    if is_reject t
    then []
    else record { transport = t; recipients = recipient_override recipients } ∷ []

unfoldable pub expand : RouteRule → List RouteTarget
unfolding to_target expand_single
expand r =
    if is_empty r.targets
    then expand_single r.transport r.recipients
    else map to_target (filter (λ t. not (is_reject t.transport)) r.targets)

unfoldable pub is_active : RoutingConfig → Bool
is_active r = is_some r.default || not (is_empty r.senders)
  where
    is_some : Option RouteRule → Bool
    is_some none = false
    is_some (some _) = true

-- `self.senders.get(sender).or(self.default.as_ref())`
unfoldable pub rule_for : RoutingConfig → Text → Option RouteRule
rule_for r sender = elim (get r.senders sender) [ none ↦ r.default | some rule ↦ some rule ]

-- The decision for the targets that a rule expands to.
unfoldable pub decide : List RouteTarget → Route
decide [] = reject
decide (t ∷ ts) = deliver (t ∷ ts)

unfoldable pub resolve : RoutingConfig → Text → Route
unfolding rule_for decide expand
resolve r sender = elim (rule_for r sender) [ none ↦ reject | some rule ↦ decide (expand rule) ]

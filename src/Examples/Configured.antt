-- ===== src/Examples/Configured.antt =====
-- A configuration with a service, a routing rule and a plugin.
use oxid_relay.Prelude.{
  ◌≡◌, ◌↔◌, refl, true, false, none, some, List, [], ◌∷◌, ◌++◌, is_empty, All, if◌then◌else◌, arith,
}
use oxid_relay.Prelude.Text.{
  Text, codes, text_eq, contains, eq_ignore_ascii_case, to_ascii_lowercase, starts_with,
  strip_suffix, text_ltb,
}
use oxid_relay.Prelude.Assoc.{Assoc, get, IsSorted}
use oxid_relay.Prelude.Result.{ok}
use oxid_relay.Config.{
  Config, Environment, AuthConfig, ServiceAuth, RoutingConfig, RouteRule, SubjectConfig,
  default_config, default_subject,
}
use oxid_relay.Config.Validate.{validate, original_placeholder}
use oxid_relay.Config.Validate.Laws.{IsGood, validate-IsGood}
use oxid_relay.Config.Settings.{plugin_settings}
use oxid_relay.Config.Settings.Keys.{setting}
use oxid_relay.Config.Settings.Lookup.{SecretsSet, plugin_settings-get}
use oxid_relay.Config.Subject.{format_for, render}
use oxid_relay.Config.Subject.Template.{
  Piece, literal, name, original, fill, format_of, IsPlain, IsClear, render-fill,
  render_drops_original,
}
use oxid_relay.Config.Routing.{
  RouteTarget, deliver, resolve, rule_for, decide, expand, expand_single, is_reject,
  recipient_override,
}
use oxid_relay.Config.Routing.Laws.{IsDeliverable, resolve-IsDeliverable}
use oxid_relay.Config.Auth.{authenticate}
use oxid_relay.Config.Auth.Laws.{Accepts, authenticate_iff}

abbrev pub env : Environment
env var = if text_eq var (codes "BILLING_PASSWORD") then some (codes "s3cret") else none

abbrev empty_env : Environment
empty_env var = none

abbrev billing : ServiceAuth
billing = record { username = codes "billing"; password_env = codes "BILLING_PASSWORD" }

abbrev pub auth : AuthConfig
auth = record {
  anonymous = record { enabled = true; subject_match = none };
  services = (codes "Billing", billing) ∷ [];
  self_register = record { enabled = false };
}

abbrev rule : RouteRule
rule = record { transport = some (codes "smtp"); recipients = []; targets = [] }

abbrev pub routing : RoutingConfig
routing = record { default = some rule; senders = [] }

abbrev table : Assoc Text
table = (codes "token_env", codes "BILLING_PASSWORD") ∷ (codes "url", codes "https") ∷ []

abbrev pub config : Config
config = record default_config {
  security = record { ip_whitelist = codes "10.0.0.1" ∷ [] };
  auth = auth;
  routing = routing;
  plugins = (codes "slack", table) ∷ [];
}

authenticate_iff_example :
    (authenticate env auth (codes "billing") (codes "s3cret") ≡ ok (some (codes "Billing")))
    ↔ Accepts env auth.services false (codes "billing") (codes "s3cret") (codes "Billing")
authenticate_iff_example =
    authenticate_iff env auth (codes "billing") (codes "s3cret") (codes "Billing")

validate-IsGood_example : (validate config ≡ ok tt) ↔ IsGood config
validate-IsGood_example = validate-IsGood config

plugin_settings_get_known : get config.plugins (codes "slack") ≡ some table
unfolding get text_eq
plugin_settings_get_known = refl

plugin_settings_get_ordered : IsSorted table
unfolding text_ltb
plugin_settings_get_ordered = ground arith

plugin_settings_get_secrets : SecretsSet env table
unfolding strip_suffix text_eq
plugin_settings_get_secrets = ground arith

plugin_settings-get_example :
    (m : Assoc Text) × (plugin_settings env config (codes "slack") ≡ ok m)
    × ((k : Text) → get m k ≡ setting env table k none)
plugin_settings-get_example =
    plugin_settings-get env config (codes "slack") table plugin_settings_get_known
      plugin_settings_get_ordered plugin_settings_get_secrets

abbrev pieces : List Piece
pieces = literal (codes "[Abs: ") ∷ name ∷ literal (codes "] ") ∷ original ∷ []

render_fill_format : format_for default_subject (codes "Billing") ≡ format_of pieces
unfolding format_for get
render_fill_format = refl

render_fill-IsPlain : IsPlain (codes "Billing")
render_fill-IsPlain = ground arith

render_fill-IsClear : IsClear pieces
unfolding starts_with
render_fill-IsClear = ground arith

render-fill_example :
    render default_subject (codes "Billing") (codes "50% off")
    ≡ fill (codes "Billing") (codes "50% off") pieces
render-fill_example =
    render-fill default_subject (codes "Billing") (codes "50% off") pieces render_fill_format
      render_fill-IsPlain render_fill-IsClear

abbrev glued : SubjectConfig
glued = record { format = codes "%name%original%"; senders = [] }

render_drops_original_format : format_for glued (codes "Ann") ≡ codes "%name%original%"
unfolding format_for get
render_drops_original_format = refl

render_drops_original-IsPlain : IsPlain (codes "Ann")
render_drops_original-IsPlain = ground arith

render_drops_original_example :
    (contains (format_for glued (codes "Ann")) original_placeholder ≡ true)
    × (render glued (codes "Ann") (codes "Disk full") ≡ codes "Ann" ++ codes "original%")
render_drops_original_example =
    render_drops_original glued (codes "Ann") (codes "Disk full") render_drops_original_format
      render_drops_original-IsPlain

abbrev smtp_target : RouteTarget
smtp_target = record { transport = codes "smtp"; recipients = none }

resolve_deliverable_routed : resolve routing (codes "app@example.com") ≡ deliver (smtp_target ∷ [])
unfolding resolve rule_for get decide expand expand_single is_reject eq_ignore_ascii_case
    to_ascii_lowercase recipient_override
resolve_deliverable_routed = refl

resolve-IsDeliverable_example :
    (is_empty (smtp_target ∷ []) ≡ false) × All IsDeliverable (smtp_target ∷ [])
resolve-IsDeliverable_example =
    resolve-IsDeliverable routing (codes "app@example.com") (smtp_target ∷ [])
      resolve_deliverable_routed

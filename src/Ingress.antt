-- ===== src/Ingress.antt =====
-- crates/ingress-smtp/src/lib.rs: the SMTP handler, its context and what it takes from elsewhere.
pub mod Session
pub mod Accept
pub mod Access
pub mod Identity
pub mod Stored
pub mod Preserved
pub mod Server
use oxid_relay.Prelude.{ℕ, Bool, Option, none, some, List, [], ◌∷◌, any, if◌then◌else◌}
use oxid_relay.Prelude.Text.{Text, trim, trim_start_matches, trim_end_matches}
use oxid_relay.Prelude.{◌==◌}
use oxid_relay.Message.{MailId, Time}
use oxid_relay.Config.{Config, AuthConfig, Environment, RoutingConfig, SubjectConfig}

pub data IngressError : Type 0 where
  disabled : IngressError
  tls bind serve : Text → IngressError

-- What `mail_parser` reads from a message.
pub record Parsed : Type 0 where
  pub subject : Option Text
  pub body_text : Option Text

-- The crates `ipnet`, `regex` and `mail_parser`, the lossy decoding of bytes, the process
-- environment, the clock and the source of identifiers, where `W` is the state of the last two.
-- `capture_name` is the text of the group `name` in the first match.
pub record Outside (Ip Net Regex W : Type 0) : Type 0 where
  pub parse_net : Text → Option Net
  pub parse_ip : Text → Option Ip
  pub is_ipv4 : Ip → Bool
  pub new_net : Ip → ℕ → Option Net
  pub net_contains : Net → Ip → Bool
  pub new_regex : Text → Option Regex
  pub capture_name : Regex → Text → Option Text
  pub parse_message : List ℕ → Option Parsed
  pub from_utf8_lossy : List ℕ → Text
  pub env : Environment
  pub now : W → Time × W
  pub new_v4 : W → MailId × W

-- The replies of `mailin_embedded::response` that the handler gives.
pub data Response : Type 0 where
  ok auth_ok invalid_credentials temp_auth_failure : Response
  authentication_required internal_error : Response
  custom : ℕ → Text → Response

-- The context that the connections share; the queue is an argument of `data_end`.
pub record Context (Net Regex : Type 0) : Type 0 where
  pub whitelist : List Net
  pub auth : AuthConfig
  pub anonymous_enabled : Bool
  pub subject : SubjectConfig
  pub subject_matcher : Option Regex
  pub routing : RoutingConfig

-- The transaction of one connection.
pub record RelayHandler : Type 0 where
  pub authenticated_as : Option Text
  pub envelope_from : Text
  pub recipients : List Text
  pub data_bytes : List ℕ

-- `RelayHandler::new`
unfoldable pub new_handler : RelayHandler
new_handler = record {
  authenticated_as = none;
  envelope_from = [];
  recipients = [];
  data_bytes = [];
}

unfoldable pub strip_brackets : Text → Text
strip_brackets raw =
    trim (trim_end_matches (λ c. c == 62) (trim_start_matches (λ c. c == 60) (trim raw)))

module _ {Ip Net Regex W : Type 0} (o : Outside Ip Net Regex W) where
  -- The network of one entry: a range, or a bare address with the full prefix.
  unfoldable pub parse_entry : Text → Option Net
  parse_entry entry = elim (o.parse_net entry) [
    | some net ↦ some net
    | none ↦ elim (o.parse_ip entry) [
      | some ip ↦ o.new_net ip (if o.is_ipv4 ip then 32 else 128)
      | none ↦ none
    ]
  ]

  -- Entries that are neither are left out.
  unfoldable pub parse_whitelist : List Text → List Net
  unfolding parse_entry
  parse_whitelist [] = []
  parse_whitelist (entry ∷ entries) = elim (parse_entry entry) [
    | some net ↦ net ∷ parse_whitelist entries
    | none ↦ parse_whitelist entries
  ]

  unfoldable pub is_allowed : List Net → Ip → Bool
  is_allowed nets ip = any (λ net. o.net_contains net ip) nets

  unfoldable pub extract_name : Option Regex → Text → Option Text
  extract_name none subject = none
  extract_name (some re) subject = o.capture_name re subject

  unfoldable pub compile_matcher : Option Text → Option Regex
  compile_matcher none = none
  compile_matcher (some pattern_text) = o.new_regex pattern_text

  unfoldable pub context : Config → Context Net Regex
  unfolding parse_whitelist compile_matcher
  context config = record {
    whitelist = parse_whitelist config.security.ip_whitelist;
    auth = config.auth;
    anonymous_enabled = config.auth.anonymous.enabled;
    subject = config.subject;
    subject_matcher = compile_matcher config.auth.anonymous.subject_match;
    routing = config.routing;
  }

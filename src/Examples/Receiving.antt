-- ===== src/Examples/Receiving.antt =====
-- The ingress on a queue with one mail: an anonymous session, one that logs in, and a message.
use oxid_relay.Prelude.{◌+◌, false, ◌↔◌, ◌⊎◌, ℕ, ◌==◌, ◌≡◌, refl, true, none, some, List, [], ◌∷◌}
use oxid_relay.Prelude.Text.{Text, codes, text_eq}
use oxid_relay.Message.{Time}
use oxid_relay.Config.{resolve_env}
use oxid_relay.Config.Auth.{authenticate, authenticate_services, password}
use oxid_relay.Queue.Instance.{sqlite_queue}
use oxid_relay.Ingress.{Response, context, Outside, Context, RelayHandler, new_handler, is_allowed}
use oxid_relay.Ingress.Session.{is_none, service_not_available, mail, auth_plain}
use oxid_relay.Ingress.Identity.{
  Command, send_mail, send_plain, Offered, Login, react_all, transaction, session-Login,
  react_all-transaction,
}
use oxid_relay.Ingress.Accept.{data_end}
use oxid_relay.Ingress.Access.{Listed, mail-Listed}
use oxid_relay.Ingress.Stored.{Outcome, data_end-Stored}
use oxid_relay.Queue.Instance.Enqueues.{sqlite_enqueue_laws}
use oxid_relay.Examples.Formats.{codec}
use oxid_relay.Queue.Row.{Row}
use oxid_relay.Queue.Instance.{State, sqlite_queue}
use oxid_relay.Examples.Storage.{rows}
use oxid_relay.Examples.Configured.{env, config}

-- Addresses and networks are numbers, a message is its subject, and the clock gives the identifiers.
abbrev pub outside : Outside ℕ ℕ (Unit {0}) Time
outside = record {
  parse_net = λ t. none;
  parse_ip = λ t. some 1;
  is_ipv4 = λ ip. true;
  new_net = λ ip prefix. some ip;
  net_contains = λ net ip. net == ip;
  new_regex = λ t. none;
  capture_name = λ re t. none;
  parse_message = λ bytes. some (record { subject = some bytes; body_text = none });
  from_utf8_lossy = λ bytes. bytes;
  env = env;
  now = λ w. (w, w);
  new_v4 = λ w. (w, w);
}

abbrev pub ctx : Context ℕ (Unit {0})
ctx = record {
  whitelist = 1 ∷ [];
  auth = config.auth;
  anonymous_enabled = true;
  subject = config.subject;
  subject_matcher = none;
  routing = config.routing;
}

abbrev login : List (Command ℕ)
login =
    send_mail 1 (codes "lan") (codes "app@example.com")
    ∷ send_plain [] (codes "billing") (codes "s3cret")
    ∷ []

logged_in : (react_all outside ctx login new_handler).authenticated_as ≡ some (codes "Billing")
unfolding react_all new_handler mail auth_plain authenticate authenticate_services password
    resolve_env text_eq is_allowed
logged_in = refl

session-Login_example :
    (user : Text) × (pass : Text) × Offered user pass login
    × Login outside ctx user pass (codes "Billing")
session-Login_example = session-Login outside ctx login (codes "Billing") logged_in

-- A handler that has been through another transaction.
abbrev pub used : RelayHandler
used = record {
  authenticated_as = none;
  envelope_from = codes "old@example.com";
  recipients = codes "nobody@example.com" ∷ [];
  data_bytes = codes "old";
}

abbrev to : List Text
to = codes "<ops@example.com>" ∷ []

abbrev lines : List (List ℕ)
lines = codes "Disk " ∷ codes "full" ∷ []

here_allowed : is_allowed outside ctx.whitelist 1 ≡ true
unfolding is_allowed
here_allowed = refl

react_all-transaction_example :
    react_all outside ctx
      (transaction outside ctx 1 (codes "lan") (codes "app@example.com") to lines)
      used
    ≡ record {
      authenticated_as = none;
      envelope_from = codes "app@example.com";
      recipients = to;
      data_bytes = codes "Disk full";
    }
react_all-transaction_example =
    react_all-transaction outside ctx 1 (codes "lan") (codes "app@example.com") to lines used
      here_allowed

abbrev pub row_state : State Row
row_state = record { table = rows; moments = λ n. record { now = 1000 + n; fault = none } }

data_end-Stored_example :
    Outcome outside ctx
      (sqlite_queue codec)
      (sqlite_enqueue_laws codec)
      used
      row_state
      (data_end outside ctx (sqlite_queue codec) used (row_state, 1000))
data_end-Stored_example =
    data_end-Stored outside ctx (sqlite_queue codec) (sqlite_enqueue_laws codec) used row_state 1000

mail-Listed_example :
    (((mail outside (context outside config) 1 (codes "lan") (codes "app@example.com") used).0
        ≡ Response.ok)
      ↔ (Listed outside config.security.ip_whitelist 1
          × ((config.auth.anonymous.enabled ≡ true) ⊎ (is_none used.authenticated_as ≡ false))))
    × ((mail outside (context outside config) 1 (codes "lan") (codes "app@example.com") used
          ≡ (service_not_available, used))
        ↔ (Listed outside config.security.ip_whitelist 1 → ⊥))
mail-Listed_example = mail-Listed outside config 1 (codes "lan") (codes "app@example.com") used

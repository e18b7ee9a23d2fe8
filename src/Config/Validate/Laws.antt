-- ===== src/Config/Validate/Laws.antt =====
-- The configurations that `Config::validate` accepts.
use oxid_relay.Prelude.{
  ◌<◌, ◌≡◌, ◌↔◌, refl, true, false, Option, none, some, [], ◌∷◌, any, is_empty, All, arith,
}
use oxid_relay.Prelude.Text.{Text, text_eq, trim, contains}
use oxid_relay.Prelude.Assoc.{Assoc}
use oxid_relay.Prelude.Result.{ok}
use oxid_relay.Config.{Config, SmtpConfig, SenderSubject}
use oxid_relay.Config.Validate.{validate, check_smtp, check_senders, levels, original_placeholder}

abbrev pub GoodSmtp : Option SmtpConfig → Type 0
GoodSmtp none = Unit {0}
GoodSmtp (some smtp) = (is_empty (trim smtp.host) ≡ false) × (0 < smtp.port)

abbrev pub KeepsOriginal : Text × SenderSubject → Type 0
KeepsOriginal e = contains (e.1).format original_placeholder ≡ true

pub record IsGood (c : Config) : Type 0 where
  pub database : is_empty (trim c.queue.database) ≡ false
  pub level : any (text_eq c.logging.level) levels ≡ true
  pub smtp : GoodSmtp c.mail.smtp
  pub batch_size : 0 < c.dispatcher.batch_size
  pub concurrency : 0 < c.dispatcher.concurrency
  pub poll_interval : 0 < c.dispatcher.poll_interval_secs
  pub max_attempts : 0 < c.dispatcher.max_attempts
  pub format : contains c.subject.format original_placeholder ≡ true
  pub senders : All KeepsOriginal c.subject.senders

check_smtp_iff : (o : Option SmtpConfig) → (check_smtp o ≡ ok tt) ↔ GoodSmtp o
unfolding check_smtp
check_smtp_iff none = (λ _. tt, λ _. refl)
check_smtp_iff (some smtp) = ground arith

check_senders_iff : (m : Assoc SenderSubject) → (check_senders m ≡ ok tt) ↔ All KeepsOriginal m
unfolding check_senders
check_senders_iff [] = (λ _. tt, λ _. refl)
check_senders_iff ((name, sender) ∷ rest) = ground (arith, check_senders_iff rest)

-- `validate` accepts a configuration exactly when the database name and any SMTP host are not
-- blank, the log level is known, any SMTP port and the four dispatcher knobs are positive, and
-- every subject format, global or of a sender, has the placeholder `%original%` somewhere.
pub validate-IsGood : (c : Config) → (validate c ≡ ok tt) ↔ IsGood c
unfolding validate
validate-IsGood c = (
  λ h. ground (arith, check_smtp_iff c.mail.smtp, check_senders_iff c.subject.senders),
  λ g. ground (arith, check_smtp_iff c.mail.smtp, check_senders_iff c.subject.senders),
)

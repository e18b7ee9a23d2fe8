-- ===== src/Config/Validate.antt =====
-- `Config::validate` of crates/core/src/config.rs.
pub mod Laws
use oxid_relay.Prelude.{Option, none, some, List, [], ◌∷◌, ◌++◌, not, any, is_empty, ◌==◌}
use oxid_relay.Prelude.Text.{Text, codes, text_eq, trim, contains}
use oxid_relay.Prelude.Assoc.{Assoc}
use oxid_relay.Prelude.Result.{ok, reject_if, ◌>>=◌, ◌>>◌}
use oxid_relay.Config.{Config, invalid, ConfigResult, SmtpConfig, SenderSubject}

abbrev pub levels : List Text
levels = codes "trace" ∷ codes "debug" ∷ codes "info" ∷ codes "warn" ∷ codes "error" ∷ []

abbrev pub original_placeholder : Text
original_placeholder = codes "%original%"

unfoldable pub check_smtp : Option SmtpConfig → ConfigResult (Unit {0})
check_smtp none = ok tt
check_smtp (some smtp) = do
  reject_if (is_empty (trim smtp.host)) (invalid (codes "mail.smtp.host is empty"))
  reject_if (smtp.port == 0) (invalid (codes "mail.smtp.port must be non-zero"))

-- The loop over the per-sender formats.
unfoldable pub check_senders : Assoc SenderSubject → ConfigResult (Unit {0})
check_senders [] = ok tt
check_senders ((name, sender) ∷ rest) = do
  reject_if (not (contains sender.format original_placeholder))
      (invalid (codes "subject.senders.\"" ++ name ++ codes "\".format must contain %original%"))
  check_senders rest

unfoldable pub validate : Config → ConfigResult (Unit {0})
unfolding check_smtp check_senders
validate c = do
  reject_if (is_empty (trim c.queue.database)) (invalid (codes "queue.database is empty"))
  reject_if (not (any (text_eq c.logging.level) levels)) (
      invalid (
        codes "unknown logging.level '"
        ++ c.logging.level
        ++ codes "', expected one of [\"trace\", \"debug\", \"info\", \"warn\", \"error\"]"))
  check_smtp c.mail.smtp
  reject_if (c.dispatcher.batch_size == 0) (invalid (codes "dispatcher.batch_size must be >= 1"))
  reject_if (c.dispatcher.concurrency == 0) (invalid (codes "dispatcher.concurrency must be >= 1"))
  reject_if (c.dispatcher.poll_interval_secs == 0)
      (invalid (codes "dispatcher.poll_interval_secs must be >= 1"))
  reject_if (c.dispatcher.max_attempts == 0)
      (invalid (codes "dispatcher.max_attempts must be >= 1"))
  reject_if (not (contains c.subject.format original_placeholder))
      (invalid (codes "subject.format must contain %original%"))
  check_senders c.subject.senders

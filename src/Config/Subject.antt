-- ===== src/Config/Subject.antt =====
-- `SubjectConfig` of crates/core/src/config.rs: the sender label in the subject.
pub mod Template
use oxid_relay.Prelude.{none, some}
use oxid_relay.Prelude.Text.{Text, codes, replace}
use oxid_relay.Prelude.Assoc.{get}
use oxid_relay.Config.{SubjectConfig}
use oxid_relay.Config.Validate.{original_placeholder}

abbrev pub name_placeholder : Text
name_placeholder = codes "%name%"

unfoldable pub format_for : SubjectConfig → Text → Text
format_for s sender = elim (get s.senders sender) [
  | none ↦ s.format
  | some override ↦ override.format
]

unfoldable pub render : SubjectConfig → Text → Text → Text
unfolding format_for
render s sender original =
    replace (replace (format_for s sender) name_placeholder sender) original_placeholder original

-- ===== src/Message/Laws.antt =====
-- What `NewMail::validate` accepts.
use oxid_relay.Prelude.{◌≡◌, ◌↔◌, false, arith, is_empty}
use oxid_relay.Prelude.Text.{Text, trim}
use oxid_relay.Prelude.Result.{ok}
use oxid_relay.Message.{NewMail, validate}

-- A text that `trim` does not empty.
abbrev pub NotBlank : Text → Type 0
NotBlank s = is_empty (trim s) ≡ false

-- A payload passes validation exactly when its sender address is not blank, it has a recipient and
-- its subject is not blank.
pub validate_iff :
    (m : NewMail)
    → (validate m ≡ ok tt) ↔ (NotBlank m.from.email × (is_empty m.to ≡ false) × NotBlank m.subject)
unfolding validate
validate_iff m = ground arith

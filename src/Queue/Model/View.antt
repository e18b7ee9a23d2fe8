-- ===== src/Queue/Model/View.antt =====
-- What the operations do to the mail under an id.
use mathlib.Core.Option
use oxid_relay.Prelude.{
  ◌≡◌, refl, Bool, ◌==◌, ==_iff, ◌&&◌, Option, List, [], ◌∷◌, arith, if◌then◌else◌,
}
use oxid_relay.Prelude.Text.{Text}
use oxid_relay.Prelude.Result.{is_ok}
use oxid_relay.Message.{Mail, MailId, MailStatus, Time}
use oxid_relay.Queue.Keyed.{find_by, find-update, count-find}
use oxid_relay.Queue.Row.{Codec}
use oxid_relay.Queue.Sqlite.{Moment, execute}
use oxid_relay.Queue.Model.{is_mail, set_mail, find_mail, set_status}

pub find_mail-find_by : (j : MailId) (ms : List Mail) → find_mail j ms ≡ find_by (is_mail j) ms
unfolding find_mail find_by
find_mail-find_by j [] = refl
find_mail-find_by j (m ∷ ms) = ground (arith, find_mail-find_by j ms)

-- A transition that reports success changes the mail with its id, and no other; one that reports an
-- error changes none.
pub find-set_status :
    (c : Codec) (e : Moment) (i j : MailId) (status : MailStatus) (error : Option Text)
    (bump : Bool) (next : Option Time) (ms : List Mail)
    → find_mail j (set_status c e i status error bump next ms).1 ≡ (
        if is_ok (set_status c e i status error bump next ms).0 && i == j
        then Option.map (set_mail e.now status error bump next) (find_mail j ms)
        else find_mail j ms)
unfolding set_status execute
find-set_status c e i j status error bump next ms =
    rw (find_mail-find_by j ms, find_mail-find_by j _)
      (ground (
        arith,
        find-update (λ (m : Mail). m.id) ◌==◌ ==_iff (set_mail e.now status error bump next)
            (λ m. refl) i j ms,
        count-find (λ (m : Mail). m.id) ◌==◌ ==_iff i ms,
      ))

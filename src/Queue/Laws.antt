-- ===== src/Queue/Laws.antt =====
-- What a client of the queue may rely on: how each operation changes what is known of a delivery.
use mathlib.Core.Option
use oxid_relay.Prelude.{
  [], ◌∷◌, ◌++◌, ℕ, ◌+◌, ◌≡◌, ◌⊎◌, Bool, ◌==◌, ◌&&◌, true, false, List, count, ◌≤◌, Option, none,
  some, if◌then◌else◌,
}
use oxid_relay.Prelude.Text.{Text}
use oxid_relay.Prelude.Result.{ok, is_ok}
use oxid_relay.Message.{Mail, MailId, MailStatus, Time, pending, sending, sent, failed, dead}
use oxid_relay.Queue.{Queue, Op}

-- The delivery metadata of a mail, with the time of the next attempt in the form `T` in which the
-- backend keeps it.
pub record Delivery (T : Type 0) : Type 0 where
  pub status : MailStatus
  pub attempts : ℕ
  pub last_error : Option Text
  pub next_attempt_at : T

abbrev pub delivery_of : Mail → Delivery Time
delivery_of m = record {
  status = m.status;
  attempts = m.attempts;
  last_error = m.last_error;
  next_attempt_at = m.next_attempt_at;
}

abbrev pub claimed : {T : Type 0} → Delivery T → Delivery T
claimed d = record d { status = sending; last_error = none }

abbrev pub completed : {T : Type 0} → Delivery T → Delivery T
completed d = record d { status = sent; last_error = none }

abbrev pub rescheduled : {T : Type 0} → Text → T → Delivery T → Delivery T
rescheduled error retry_at d = record d {
  status = failed;
  attempts = d.attempts + 1;
  last_error = some error;
  next_attempt_at = retry_at;
}

abbrev pub buried : {T : Type 0} → Text → Delivery T → Delivery T
buried error d = record d { status = dead; attempts = d.attempts + 1; last_error = some error }

-- A write that reports success changes the delivery under its id, and nothing else; one that
-- reports an error changes nothing.
abbrev pub written :
    {T : Type 0}
    → Bool
    → MailId
    → (Delivery T → Delivery T)
    → (MailId → Option (Delivery T))
    → MailId
    → Option (Delivery T)
written done i f before j = if done && i == j then Option.map f (before j) else before j

-- A recovery leaves a delivery alone, or takes it from in flight back to pending.
abbrev pub Recovered : {T : Type 0} → Option (Delivery T) → Option (Delivery T) → Type 0
Recovered {T} before after =
    (after ≡ before)
    ⊎ ((d : Delivery T) × (before ≡ some d)
        × (d.status ≡ sending)
        × (after ≡ some (record d { status = pending })))

abbrev pub is_waiting : MailStatus → Bool
is_waiting pending = true
is_waiting failed = true
is_waiting _ = false

-- `valid` is the invariant of the backend's state, and `stamp` the form in which it keeps a time.
pub record QueueLaws (T : Type 0) {S : Type 0} (q : Queue S) : Type 1 where
  pub stamp : Time → T
  pub valid : S → Type 0
  pub view : S → MailId → Option (Delivery T)
  pub enqueue_valid : (m : Mail) (s : S) → valid s → valid (q.enqueue m s).1
  pub stale_valid : (t : Time) (s : S) → valid s → valid (q.requeue_stale_sending t s).1
  pub recover_valid : (s : S) → valid s → valid (q.requeue_sending s).1
  pub fetch_valid : (limit : ℕ) (now : Time) (s : S) → valid s → valid (q.fetch_due limit now s).1
  pub sending_valid : (i : MailId) (s : S) → valid s → valid (q.mark_sending i s).1
  pub sent_valid : (i : MailId) (s : S) → valid s → valid (q.mark_sent i s).1
  pub failed_valid :
      (i : MailId) (error : Text) (retry_at : Time) (s : S)
      → valid s
      → valid (q.mark_failed i error retry_at s).1
  pub dead_valid : (i : MailId) (error : Text) (s : S) → valid s → valid (q.mark_dead i error s).1
  pub fetched :
      (limit : ℕ) (now : Time) (s : S) (batch : List Mail)
      → valid s
      → (q.fetch_due limit now s).0 ≡ ok batch
      → (j : MailId)
      → (count (λ m. m.id == j) batch ≤ 1)
        × ((count (λ m. m.id == j) batch ≡ 0)
            ⊎ ((d : Delivery T) × (view s j ≡ some d) × (is_waiting d.status ≡ true)))
  pub enqueue_view :
      (m : Mail) (j : MailId) (d : Delivery T) (s : S)
      → view s j ≡ some d
      → view (q.enqueue m s).1 j ≡ some d
  pub fetch_view :
      (limit : ℕ) (now : Time) (s : S) (j : MailId) → view (q.fetch_due limit now s).1 j ≡ view s j
  pub sending_view :
      (i j : MailId) (s : S)
      → view (q.mark_sending i s).1 j ≡ written (is_ok (q.mark_sending i s).0) i claimed (view s) j
  pub sent_view :
      (i j : MailId) (s : S)
      → view (q.mark_sent i s).1 j ≡ written (is_ok (q.mark_sent i s).0) i completed (view s) j
  pub failed_view :
      (i j : MailId) (error : Text) (retry_at : Time) (s : S)
      → view (q.mark_failed i error retry_at s).1 j
        ≡ written
            (is_ok (q.mark_failed i error retry_at s).0)
            i
            (rescheduled error (stamp retry_at))
            (view s)
            j
  pub dead_view :
      (i j : MailId) (error : Text) (s : S)
      → view (q.mark_dead i error s).1 j
        ≡ written (is_ok (q.mark_dead i error s).0) i (buried error) (view s) j
  pub stale_view :
      (older_than : Time) (j : MailId) (s : S)
      → Recovered (view s j) (view (q.requeue_stale_sending older_than s).1 j)
  pub recover_view : (j : MailId) (s : S) → Recovered (view s j) (view (q.requeue_sending s).1 j)

-- What the operations that enqueue and that deliver keep true of a queue's state.
pub record Preserves {S : Type 0} (q : Queue S) (P : S → Type 0) : Type 0 where
  pub enqueue : (m : Mail) (s : S) → P s → P (q.enqueue m s).1
  pub stale : (t : Time) (s : S) → P s → P (q.requeue_stale_sending t s).1
  pub recover : (s : S) → P s → P (q.requeue_sending s).1
  pub fetch : (limit : ℕ) (now : Time) (s : S) → P s → P (q.fetch_due limit now s).1
  pub sending : (i : MailId) (s : S) → P s → P (q.mark_sending i s).1
  pub sent : (i : MailId) (s : S) → P s → P (q.mark_sent i s).1
  pub failed :
      (i : MailId) (error : Text) (retry_at : Time) (s : S)
      → P s
      → P (q.mark_failed i error retry_at s).1
  pub dead : (i : MailId) (error : Text) (s : S) → P s → P (q.mark_dead i error s).1

abbrev pub valid-Preserves :
    {T S : Type 0} {q : Queue S} (laws : QueueLaws T q) → Preserves q laws.valid
valid-Preserves laws = record {
  enqueue = laws.enqueue_valid;
  stale = laws.stale_valid;
  recover = laws.recover_valid;
  fetch = laws.fetch_valid;
  sending = laws.sending_valid;
  sent = laws.sent_valid;
  failed = laws.failed_valid;
  dead = laws.dead_valid;
}

-- In the states of `P` the queue carries out every transition of a mail that it holds.
module _ {S T : Type 0} {q : Queue S} (laws : QueueLaws T q) (P : S → Type 0) (i : MailId) where
  abbrev pub Writes : Op S (Unit {0}) → Type 0
  Writes op = (s : S) (d : Delivery T) → P s → laws.view s i ≡ some d → is_ok (op s).0 ≡ true

  pub record Reliable : Type 0 where
    pub sending : Writes (q.mark_sending i)
    pub sent : Writes (q.mark_sent i)
    pub failed : (error : Text) (retry_at : Time) → Writes (q.mark_failed i error retry_at)
    pub dead : (error : Text) → Writes (q.mark_dead i error)

-- What a client that enqueues relies on: a write that reports success appends to the contents an
-- entry that stands for the mail, and one that reports an error leaves them.
pub record EnqueueLaws (E : Type 0) {S : Type 0} (q : Queue S) : Type 1 where
  pub contents : S → List E
  pub stores : Mail → E → Type 0
  pub enqueue_contents :
      (m : Mail) (s : S)
      → ((is_ok (q.enqueue m s).0 ≡ false) × (contents (q.enqueue m s).1 ≡ contents s))
        ⊎ ((is_ok (q.enqueue m s).0 ≡ true)
            × (x : E) × stores m x
            × (contents (q.enqueue m s).1 ≡ contents s ++ x ∷ []))

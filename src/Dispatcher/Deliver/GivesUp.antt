-- ===== src/Dispatcher/Deliver/GivesUp.antt =====
-- A mail that fails again and again, under `deliver` of crates/dispatcher/src/lib.rs.
use oxid_relay.Prelude.{
  ℕ, suc, ◌+◌, ◌<◌, ◌^◌, ◌≡◌, ◌≢◌, ◌∙◌, ◌⊎◌, refl, ap, sym, subst, Bool, true, Option, some,
  ==_refl, arith, Bool-cases, inl, inr,
}
use oxid_relay.Prelude.Text.{Text}
use oxid_relay.Prelude.Result.{err, is_ok}
use oxid_relay.Message.{CoreError, Mail, MailId, MailStatus, Time, error_text, sending, dead}
use oxid_relay.Queue.Laws.{
  QueueLaws, Delivery, Recovered, written, claimed, buried, rescheduled, is_waiting,
}
use oxid_relay.Dispatcher.{Inner, Transport, Host}
use oxid_relay.Dispatcher.Retry.{is_exhausted}
use oxid_relay.Dispatcher.Deliver.{
  transport_for, next_attempts, retry_at, record_failure, record_outcome, deliver,
}
use oxid_relay.Dispatcher.Deliver.Outcome.{exhausted_le, not_exhausted_lt}

-- Not sent and not dead.
abbrev pub IsOpen : MailStatus → Type 0
IsOpen status = (is_waiting status ≡ true) ⊎ (status ≡ sending)

-- What happens to a delivery between two attempts: nothing, a claim, or a recovery.
abbrev pub Moves : {T : Type 0} → Option (Delivery T) → Option (Delivery T) → Type 0
Moves {T} before after =
    ((d : Delivery T) × (before ≡ some d)
      × (is_waiting d.status ≡ true)
      × (after ≡ some (claimed d)))
    ⊎ Recovered before after

-- Still open with attempts left, or dead with all of them used.
abbrev pub IsCounted : {T : Type 0} → ℕ → ℕ → Delivery T → Type 0
IsCounted limit attempts d =
    (d.attempts ≡ attempts)
    × (((attempts < limit) × IsOpen d.status) ⊎ ((attempts ≡ limit) × (d.status ≡ dead)))

not_final : (status : MailStatus) → IsOpen status → status ≢ dead
not_final status (inl waits) gone = absurd (ground arith)
not_final status (inr flying) gone = absurd (ground arith)

has_left :
    {T : Type 0} (limit attempts : ℕ) (d : Delivery T)
    → IsCounted limit attempts d
    → IsOpen d.status
    → attempts < limit
has_left limit attempts d (same, inl (left, live)) still = left
has_left limit attempts d (same, inr (used, gone)) still = absurd (not_final d.status still gone)

same_delivery :
    {T : Type 0} (limit attempts : ℕ) (view : Option (Delivery T)) (d d' : Delivery T)
    → view ≡ some d
    → view ≡ some d'
    → IsCounted limit attempts d
    → IsCounted limit attempts d'
same_delivery {T} limit attempts view d d' e f c =
    let same : d ≡ d' = cc in subst (λ (x : Delivery T). IsCounted limit attempts x) same c

Moves-IsCounted :
    {T : Type 0} (limit attempts : ℕ) (before after : Option (Delivery T)) (d : Delivery T)
    → before ≡ some d
    → IsCounted limit attempts d
    → Moves before after
    → (d' : Delivery T) × (after ≡ some d') × IsCounted limit attempts d'
Moves-IsCounted limit attempts before after d e c (inl (d', f, waits, g)) =
    let c' = same_delivery limit attempts before d d' e f c in
    (claimed d', g, (c'.0, inl (has_left limit attempts d' c' (inl waits), inr refl)))
Moves-IsCounted limit attempts before after d e c (inr (inl same)) = (d, same ∙ e, c)
Moves-IsCounted limit attempts before after d e c (inr (inr (d', f, flying, back))) =
    let c' = same_delivery limit attempts before d d' e f c in
    (_, back, (c'.0, inl (has_left limit attempts d' c' (inr flying), inl refl)))

module _ {S W T : Type 0} (host : Host W) (inner : Inner S W) (laws : QueueLaws T inner.queue) where
  -- The queue records the failure of a mail, whatever it is.
  abbrev pub Accepts : MailId → S → Type 0
  Accepts i s =
      ((error : Text) → is_ok (inner.queue.mark_dead i error s).0 ≡ true)
      × ((error : Text) (retry : Time) → is_ok (inner.queue.mark_failed i error retry s).0 ≡ true)

  -- From the queue `s`, deliveries of the mail `i` that all fail, and what is between them.
  pub data Fails (i : MailId) (s : S) : ℕ → S → Type 0 where
    begins : Fails i s 0 s
    moves :
        {n : ℕ} {t : S} (u : S)
        → Fails i s n t
        → Moves (laws.view t i) (laws.view u i)
        → Fails i s n u
    fails :
        {n : ℕ} {t : S} (mail : Mail) (w : W) (d : Delivery T) (transport : Transport W)
        (x : CoreError)
        → Fails i s n t
        → mail.id ≡ i
        → laws.view t i ≡ some d
        → mail.attempts ≡ d.attempts
        → IsOpen d.status
        → transport_for host inner mail ≡ some transport
        → (transport.send mail w).0 ≡ err x
        → Accepts i t
        → Fails i s (suc n) (deliver host inner mail (t, w)).0

  pub written_there :
      (done : Bool) (i : MailId) (f : Delivery T → Delivery T) (s : S) (d : Delivery T)
      → done ≡ true
      → laws.view s i ≡ some d
      → written done i f (laws.view s) i ≡ some (f d)
  written_there done i f s d ok known = rw (ok, ==_refl i, known) refl

  failure-IsCounted :
      (mail : Mail) (error : Text) (s : S) (w : W) (d : Delivery T)
      → laws.view s mail.id ≡ some d
      → mail.attempts ≡ d.attempts
      → d.attempts < inner.config.retry.max_attempts
      → inner.config.retry.max_attempts < 2 ^ 32
      → Accepts mail.id s
      → (d' : Delivery T) × (laws.view (record_failure host inner mail error (s, w)).0 mail.id
          ≡ some d')
        × IsCounted inner.config.retry.max_attempts (suc d.attempts) d'
  unfolding record_failure
  failure-IsCounted mail error s w d known same left fits accepts =
      elim (Bool-cases (is_exhausted inner.config.retry (next_attempts host inner mail))) [
        | inl e ↦
            let over = exhausted_le host inner mail e in
            rw (e, record_failure)
              (
                buried error d,
                laws.dead_view mail.id mail.id error s
                    ∙ written_there _ mail.id (buried error) s d (accepts.0 error) known,
                (omega arith, inr (omega arith, refl)),
              )
        | inr e ↦
            let under = not_exhausted_lt host inner mail e in
            let at = retry_at host inner mail (host.now w).0 in
            rw (e, record_failure)
              (
                rescheduled error (laws.stamp at) d,
                laws.failed_view mail.id mail.id error at s
                    ∙ written_there _ mail.id (rescheduled error (laws.stamp at)) s d
                        (accepts.1 error at) known,
                (omega arith, inl (omega arith, inl refl)),
              )
      ]

  deliver-failure :
      (mail : Mail) (transport : Transport W) (x : CoreError) (s : S) (w : W)
      → transport_for host inner mail ≡ some transport
      → (transport.send mail w).0 ≡ err x
      → (deliver host inner mail (s, w)).0
        ≡ (record_failure host inner mail (error_text x) (s, (transport.send mail w).1)).0
  unfolding deliver record_outcome
  deliver-failure mail transport x s w via refused =
      rw (via, deliver) (rw (refused, record_outcome) refl)

  -- A mail whose deliveries fail is given up. On a queue that keeps the laws and records the failures
  -- of the mail, after `n` failed deliveries of an open mail with attempts left, whatever claims and
  -- recoveries lie between them, the mail has `n` attempts more: with fewer than `max_attempts` it is
  -- still open, and with the last of them, which is never exceeded, it is dead.
  pub Fails-IsCounted :
      (i : MailId) (s : S) {n : ℕ} {t : S} (d : Delivery T)
      → laws.view s i ≡ some d
      → IsOpen d.status
      → d.attempts < inner.config.retry.max_attempts
      → inner.config.retry.max_attempts < 2 ^ 32
      → Fails i s n t
      → (d' : Delivery T) × (laws.view t i ≡ some d')
        × IsCounted inner.config.retry.max_attempts (d.attempts + n) d'
  Fails-IsCounted i s d known live left fits begins =
      (d, known, (omega arith, inl (omega arith, live)))
  Fails-IsCounted i s d known live left fits (moves u r m) =
      let (d', e, c) = Fails-IsCounted i s d known live left fits r in
      Moves-IsCounted _ _ _ _ d' e c m
  Fails-IsCounted i s {n = suc n} d known live left fits
        (fails {t = t} mail w d' transport x r named found counted still via refused accepts) =
      let (d'', e, c) = Fails-IsCounted i s d known live left fits r in
      let c' = same_delivery _ _ _ d'' d' e found c in
      let (d3, g, c3) =
        failure-IsCounted mail (error_text x) t (transport.send mail w).1 d'
          (ap (laws.view t) named ∙ found) counted (omega (arith, has_left _ _ d' c' still, c'.0))
          fits (rw (← named) at accepts) in
      (
        d3,
        ap (λ u. laws.view u i) (deliver-failure mail transport x t w via refused)
            ∙ ap
                (laws.view
                  (record_failure host inner mail (error_text x) (t, (transport.send mail w).1)).0)
                (sym named)
            ∙ g,
        subst (λ m. IsCounted inner.config.retry.max_attempts m d3) (omega (arith, c'.0)) c3,
      )

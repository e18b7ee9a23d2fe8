-- ===== src/Queue/Instance/Lawful.antt =====
-- The laws that clients of the queue rely on, for the specification.
use mathlib.Core.Option
use oxid_relay.Prelude.{
  ◌∷◌, ℕ, ◌≡◌, ◌⊎◌, ◌≤◌, count, refl, ap, ◌∙◌, Bool, true, ◌==◌, ==_iff, ◌&&◌, Option, any, ◌++◌,
  none, some, List, arith, if◌then◌else◌, Bool-cases, Option-cases, inl, inr, [],
}
use oxid_relay.Prelude.Text.{Text}
use oxid_relay.Prelude.Result.{ok, is_ok}
use oxid_relay.Message.{Mail, MailId, MailStatus, Time, sending}
use oxid_relay.Queue.Laws.{is_waiting, QueueLaws, Delivery, delivery_of, written, Recovered}
use oxid_relay.Queue.Row.{Codec}
use oxid_relay.Queue.Sqlite.{Moment, execute}
use oxid_relay.Queue.Model.{
  is_mail, find_mail, set_status, set_mail, enqueue, fetch_due, requeue_where, due_mails,
  reset_mail, in_flight, is_stale,
}
use oxid_relay.Queue.Model.Keys.{Distinct, op-Distinct}
use oxid_relay.Queue.Model.Fetched.{count-due_mails, due_mails-found}
use oxid_relay.Queue.Model.View.{find-set_status, find_mail-find_by}
use oxid_relay.Queue.Keyed.{find_by, find-append, find-update_where, map-if}
use oxid_relay.Queue.Instance.{State, model_queue}

abbrev pub view_of : List Mail → MailId → Option (Delivery Time)
view_of ms j = Option.map delivery_of (find_mail j ms)

view-set_status :
    (c : Codec) (e : Moment) (i j : MailId) (status : MailStatus) (error : Option Text)
    (bump : Bool) (next : Option Time) (f : Delivery Time → Delivery Time) (ms : List Mail)
    → ((m : Mail) → delivery_of (set_mail e.now status error bump next m) ≡ f (delivery_of m))
    → view_of (set_status c e i status error bump next ms).1 j
      ≡ written (is_ok (set_status c e i status error bump next ms).0) i f (view_of ms) j
view-set_status c e i j status error bump next f ms same =
    ap (Option.map delivery_of) (find-set_status c e i j status error bump next ms)
    ∙ map-if delivery_of (set_mail e.now status error bump next) f same
        (is_ok (set_status c e i status error bump next ms).0 && i == j) (find_mail j ms)

in_flight_iff : (s : MailStatus) → in_flight s ≡ true → s ≡ sending
in_flight_iff s h = ground arith

reset-Recovered :
    (now : Time) (p : Mail → Bool)
    → ((m : Mail) → p m ≡ true → in_flight m.status ≡ true)
    → (o : Option Mail)
    → Recovered
        (Option.map delivery_of o)
        (Option.map delivery_of (Option.map (λ (m : Mail). if p m then reset_mail now m else m) o))
reset-Recovered now p only none = inl refl
reset-Recovered now p only (some m) = elim (Bool-cases (p m)) [
  | inl e ↦ rw e (inr (delivery_of m, refl, in_flight_iff m.status (only m e), refl))
  | inr e ↦ rw e (inl refl)
]

view-requeue_where :
    (e : Moment) (p : Mail → Bool)
    → ((m : Mail) → p m ≡ true → in_flight m.status ≡ true)
    → (j : MailId) (ms : List Mail) → Recovered (view_of ms j) (view_of (requeue_where e p ms).1 j)
unfolding requeue_where execute
view-requeue_where e p only j ms = elim (Option-cases e.fault) [
  | inl fine ↦
      rw (fine, execute)
        (rw
          (
            find_mail-find_by j ms,
            find_mail-find_by j _,
            find-update_where (λ (m : Mail). m.id) ◌==◌ ==_iff p (reset_mail e.now) (λ m. refl) j
                ms,
          )
          (reset-Recovered e.now p only (find_by (is_mail j) ms)))
  | inr (text, broken) ↦ rw (broken, execute) (inl refl)
]

fetch_due-same :
    (e : Moment) (limit : ℕ) (now : Time) (ms : List Mail) → (fetch_due e limit now ms).1 ≡ ms
unfolding fetch_due execute
fetch_due-same e limit now ms = ground arith

fetched_due :
    (c : Codec) (limit : ℕ) (now : Time) (s : State Mail) (batch : List Mail)
    → Distinct s.table
    → ((model_queue c).fetch_due limit now s).0 ≡ ok batch
    → (j : MailId)
    → (count (is_mail j) batch ≤ 1)
      × ((count (is_mail j) batch ≡ 0)
          ⊎ ((d : Delivery Time) × (view_of s.table j ≡ some d) × (is_waiting d.status ≡ true)))
unfolding fetch_due execute
fetched_due c limit now s batch h e j = elim (Option-cases (s.moments 0).fault) [
  | inr (text, broken) ↦ absurd (ground arith)
  | inl fine ↦
      let same : due_mails limit now s.table ≡ batch = ground arith in
      rw (← same) (
        count-due_mails limit now s.table h j,
        elim (due_mails-found limit now s.table h j) [
          | inl none_left ↦ inl none_left
          | inr (m, found, due) ↦ inr (delivery_of m, rw found refl, ground arith)
        ],
      )
]

view-enqueue :
    (c : Codec) (e : Moment) (m : Mail) (j : MailId) (d : Delivery Time) (ms : List Mail)
    → view_of ms j ≡ some d
    → view_of (enqueue c e m ms).1 j ≡ some d
unfolding enqueue execute
view-enqueue c e m j d ms known = elim (Option-cases e.fault) [
  | inr (text, broken) ↦ rw (broken, execute) known
  | inl fine ↦ elim (Bool-cases (any (is_mail m.id) ms)) [
    | inl taken ↦ rw (fine, taken, execute) known
    | inr fresh ↦
        rw (fine, fresh, execute, find_mail-find_by j (ms ++ m ∷ []))
          (find-append (is_mail j) delivery_of ms (m ∷ []) d (rw (find_mail-find_by j ms) at known))
  ]
]

-- The specification keeps the laws, whatever the moments that its calls meet.
pub model_laws : (c : Codec) → QueueLaws Time (model_queue c)
model_laws c = record {
  stamp = λ t. t;
  valid = λ s. Distinct s.table;
  enqueue_valid = λ m s h. (op-Distinct c (s.moments 0) s.table h).0 m;
  stale_valid = λ t s h. (op-Distinct c (s.moments 0) s.table h).2 (is_stale t);
  recover_valid = λ s h. (op-Distinct c (s.moments 0) s.table h).2 (λ m. in_flight m.status);
  fetch_valid = λ limit now s h. rw (fetch_due-same (s.moments 0) limit now s.table) h;
  sending_valid = λ i s h. (op-Distinct c (s.moments 0) s.table h).1 i _ _ _ _;
  sent_valid = λ i s h. (op-Distinct c (s.moments 0) s.table h).1 i _ _ _ _;
  failed_valid = λ i error retry_at s h. (op-Distinct c (s.moments 0) s.table h).1 i _ _ _ _;
  dead_valid = λ i error s h. (op-Distinct c (s.moments 0) s.table h).1 i _ _ _ _;
  fetched = λ limit now s batch h e j. fetched_due c limit now s batch h e j;
  view = λ s j. view_of s.table j;
  enqueue_view = λ m j d s known. view-enqueue c (s.moments 0) m j d s.table known;
  fetch_view = λ limit now s j. rw (fetch_due-same (s.moments 0) limit now s.table) refl;
  sending_view = λ i j s. view-set_status c (s.moments 0) i j _ _ _ _ _ s.table (λ m. ground arith);
  sent_view = λ i j s. view-set_status c (s.moments 0) i j _ _ _ _ _ s.table (λ m. ground arith);
  failed_view =
      λ i j error retry_at s. view-set_status c (s.moments 0) i j _ _ _ _ _ s.table (λ m. refl);
  dead_view = λ i j error s. view-set_status c (s.moments 0) i j _ _ _ _ _ s.table (λ m. refl);
  stale_view =
      λ t j s. view-requeue_where (s.moments 0) (is_stale t) (λ m h. ground arith) j s.table;
  recover_view =
      λ j s. view-requeue_where (s.moments 0) (λ m. in_flight m.status) (λ m h. h) j s.table;
}

pub view-model_laws :
    (c : Codec) (s : State Mail) (j : MailId) → (model_laws c).view s j ≡ view_of s.table j
unfolding model_laws
view-model_laws c s j = refl

pub valid-model_laws : (c : Codec) (s : State Mail) → Distinct s.table → (model_laws c).valid s
unfolding model_laws
valid-model_laws c s h = h

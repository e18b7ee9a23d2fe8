-- ===== src/Ingress/Stored.antt =====
-- What `data_end` of crates/ingress-smtp/src/lib.rs does to the queue.
use mathlib.Core.List.{append_assoc, append-nil}
use oxid_relay.Prelude.{
  Option-cases, ◌≢◌, subst, sym, ap, ◌∙◌, ℕ, suc, ◌+◌, ◌≤◌, ◌≡◌, ◌↔◌, ◌⊎◌, inl, inr, refl, Bool,
  true, false, not, Option, none, some, List, [], ◌∷◌, ◌++◌, is_empty, length, All, arith,
  Bool-cases, if◌then◌else◌,
}
use oxid_relay.Prelude.Text.{Text, eq_ignore_ascii_case}
use oxid_relay.Prelude.Result.{ok, Result-cases}
use oxid_relay.Message.{Mail, NewMail, new_address, pending, validate, from_new}
use oxid_relay.Message.Laws.{NotBlank, validate_iff}
use oxid_relay.Config.Routing.{Route, RouteTarget, reject, deliver, is_reject, is_active}
use oxid_relay.Config.Routing.Laws.{IsDeliverable, resolve-IsDeliverable}
use oxid_relay.Queue.{Queue}
use oxid_relay.Queue.Laws.{EnqueueLaws}
use oxid_relay.Ingress.{Outside, Context, RelayHandler, Response, strip_brackets}
use oxid_relay.Ingress.Accept.{
  build_new_mail, data_end, enqueue_target, enqueue_targets, fan_out, final_reply, retarget, route,
}

-- A mail with no channel, or with one that is not `reject`.
abbrev pub is_routable : Option Text → Bool
is_routable none = true
is_routable (some t) = not (is_reject t)

-- A mail as it enters the queue: valid, from the sender, and waiting for its first attempt, which is
-- due from its creation on.
abbrev pub IsFresh : Text → Mail → Type 0
IsFresh sender m =
    (m.from.email ≡ sender)
    × NotBlank m.from.email
    × (is_empty m.to ≡ false)
    × NotBlank m.subject
    × (m.status ≡ pending)
    × (m.attempts ≡ 0)
    × (m.updated_at ≡ m.created_at)
    × (m.next_attempt_at ≡ m.created_at)
    × (is_routable m.transport ≡ true)

Route-cases : (r : Route) → (r ≡ reject) ⊎ ((ts : List RouteTarget) × (r ≡ deliver ts))
Route-cases reject = inl refl
Route-cases (deliver ts) = inr (ts, refl)

final_reply_iff :
    {E : Type 0} {n : ℕ} (added : List E)
    → n ≡ 0 + length added
    → (final_reply n ≡ Response.ok) ↔ (is_empty added ≡ false)
final_reply_iff [] e = ground arith
final_reply_iff (m ∷ added) e = ground arith

module _ {Ip Net Regex W S E : Type 0} (o : Outside Ip Net Regex W) (ctx : Context Net Regex)
    (q : Queue S) (laws : EnqueueLaws E q) where
  target-IsFresh :
      (new : NewMail) (t : RouteTarget) (now id : ℕ)
      → new.transport ≡ none
      → IsDeliverable t
      → validate (retarget new t) ≡ ok tt
      → IsFresh new.from.email (from_new (retarget new t) now id)
  unfolding from_new retarget
  target-IsFresh new t now id e d v =
      let (from, to, subject) = (validate_iff (retarget new t)).0 v in
      (refl, from, to, subject, refl, refl, refl, refl, ground arith)

  abbrev mail_for : NewMail → RouteTarget → W → Mail
  mail_for new t w = from_new (retarget new t) (o.now w).0 (o.new_v4 (o.now w).1).0

  created : (new : NewMail) (t : RouteTarget) (w : W) → (mail_for new t w).created_at ≡ (o.now w).0
  unfolding from_new
  created new t w = refl

  -- An entry that stands for a fresh mail from the sender, created as the clock read it at a moment.
  abbrev pub Entry : Text → E → Type 0
  Entry sender x =
      (m : Mail) × (v : W) × laws.stores m x × (m.created_at ≡ (o.now v).0) × IsFresh sender m

  -- One target stores one mail and counts it, or leaves the contents and does not count.
  target_stored :
      (new : NewMail) (t : RouteTarget) (s : S) (w : W)
      → new.transport ≡ none
      → IsDeliverable t
      → (((enqueue_target o ctx q new t (s, w)).0 ≡ false)
          × (laws.contents (enqueue_target o ctx q new t (s, w)).1 ≡ laws.contents s))
        ⊎ (((enqueue_target o ctx q new t (s, w)).0 ≡ true)
            × (x : E) × Entry new.from.email x
            × (laws.contents (enqueue_target o ctx q new t (s, w)).1 ≡ laws.contents s ++ x ∷ []))
  unfolding enqueue_target
  target_stored new t s w e d = elim (Result-cases (validate (retarget new t))) [
    | inr (x, f) ↦ rw (f, enqueue_target) (inl (refl, refl))
    | inl (_, f) ↦ elim (laws.enqueue_contents (mail_for new t w) s) [
      | inr (done, x, written, added) ↦
          rw (f, enqueue_target)
            (inr (
              done,
              x,
              (mail_for new t w, w, written, created new t w, target-IsFresh new t _ _ e d f),
              added,
            ))
      | inl (failed, same) ↦ rw (f, enqueue_target) (inl (failed, same))
    ]
  ]

  targets_stored :
      (new : NewMail) (ts : List RouteTarget) (accepted : ℕ) (s : S) (w : W)
      → new.transport ≡ none
      → All IsDeliverable ts
      → (added : List E) × (laws.contents (enqueue_targets o ctx q new ts accepted (s, w)).1
          ≡ laws.contents s ++ added)
        × ((enqueue_targets o ctx q new ts accepted (s, w)).0 ≡ accepted + length added)
        × All (Entry new.from.email) added
        × (length added ≤ length ts)
  unfolding enqueue_targets
  targets_stored new [] accepted s w e d =
      ([], sym (append-nil (laws.contents s)), omega arith, tt, omega arith)
  targets_stored new (t ∷ ts) accepted s w e (d, ds) =
      let (added, same, n, fresh, room) =
        targets_stored new ts
          (if (enqueue_target o ctx q new t (s, w)).0 then suc accepted else accepted)
          (enqueue_target o ctx q new t (s, w)).1 (enqueue_target o ctx q new t (s, w)).2 e ds in
      elim (target_stored new t s w e d) [
        | inl (f, g) ↦
            (added, same ∙ ap (λ (l : List E). l ++ added) g, ground arith, fresh, omega arith)
        | inr (f, m, fm, g) ↦ (
          m ∷ added,
          same ∙ ap (λ (l : List E). l ++ added) g ∙ append_assoc (laws.contents s) (m ∷ []) added,
          ground arith,
          (fm, fresh),
          omega arith,
        )
      ]

  route-IsDeliverable :
      (new : NewMail) (ts : List RouteTarget) → route o ctx new ≡ deliver ts → All IsDeliverable ts
  unfolding route is_reject eq_ignore_ascii_case
  route-IsDeliverable new ts e = elim (Bool-cases (is_active ctx.routing)) [
    | inl active ↦ (resolve-IsDeliverable ctx.routing new.from.email ts (rw (active, route) at e)).1
    | inr passive ↦ ground (arith, rw (passive, route) at e)
  ]

  built :
      (h : RelayHandler) (new : NewMail)
      → build_new_mail o ctx h ≡ ok new
      → (new.from.email ≡ strip_brackets h.envelope_from) × (new.transport ≡ none)
  unfolding build_new_mail new_address
  built h new e = elim (Option-cases (o.parse_message h.data_bytes)) [
    | inl f ↦ absurd (ground arith)
    | inr (parsed, f) ↦ ground arith
  ]

  -- What has become of the contents, and of the reply.
  abbrev pub Outcome : RelayHandler → S → Response × S × W → Type 0
  Outcome h s r =
      (added : List E) × (laws.contents r.1 ≡ laws.contents s ++ added)
      × ((r.0 ≡ Response.ok) ↔ (is_empty added ≡ false))
      × All (Entry (strip_brackets h.envelope_from)) added

  nothing :
      (h : RelayHandler) (s : S) (w : W) (reply : Response)
      → reply ≢ Response.ok
      → Outcome h s (reply, s, w)
  nothing h s w reply bad = (
    [],
    sym (append-nil (laws.contents s)),
    (λ e. absurd (bad e), λ e. absurd (ground arith)),
    tt,
  )

  delivered :
      (h : RelayHandler) (new : NewMail) (ts : List RouteTarget) (s : S) (w : W)
      → build_new_mail o ctx h ≡ ok new
      → route o ctx new ≡ deliver ts
      → Outcome h s (fan_out o ctx q new (deliver ts) (s, w))
  unfolding fan_out
  delivered h new ts s w b e =
      let (sender, free) = built h new b in
      let (added, same, n, fresh, room) =
        targets_stored new ts 0 s w free (route-IsDeliverable new ts e) in
      (added, same, final_reply_iff added n, subst (λ (x : Text). All (Entry x) added) sender fresh)

  -- At the end of a message a queue that keeps the laws of enqueueing has gained some entries, each
  -- for a mail from the sender of the transaction, valid, waiting for its first attempt, which is
  -- due from the time on that the clock showed, and not bound for the channel `reject`; the reply
  -- is OK exactly when there is at least one.
  pub data_end-Stored : (h : RelayHandler) (s : S) (w : W) → Outcome h s (data_end o ctx q h (s, w))
  unfolding data_end
  data_end-Stored h s w = elim (Result-cases (build_new_mail o ctx h)) [
    | inr (x, f) ↦ rw (f, data_end) (nothing h s w _ (λ e. absurd (ground arith)))
    | inl (new, f) ↦ elim (Route-cases (route o ctx new)) [
      | inl g ↦ rw (f, g, data_end, fan_out) (nothing h s w _ (λ e. absurd (ground arith)))
      | inr (ts, g) ↦ rw (f, g, data_end) (delivered h new ts s w f g)
    ]
  ]

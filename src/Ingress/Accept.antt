-- ===== src/Ingress/Accept.antt =====
-- `build_new_mail` and `data_end` of crates/ingress-smtp/src/lib.rs: from a received message to the
-- mails in the queue.
use mathlib.Core.Option.{get_or}
use oxid_relay.Prelude.{
  ℕ, suc, ◌==◌, Bool, false, Option, none, some, List, [], ◌∷◌, ◌++◌, map, is_empty, if◌then◌else◌,
}
use oxid_relay.Prelude.Text.{Text, codes}
use oxid_relay.Prelude.Result.{Result, ok, err, is_ok}
use oxid_relay.Message.{
  CoreError, invalid_mail, error_text, new_address, NewMail, validate, from_new,
}
use oxid_relay.Config.Subject.{render}
use oxid_relay.Config.Routing.{Route, RouteTarget, reject, deliver, is_active, resolve}
use oxid_relay.Queue.{Queue}
use oxid_relay.Ingress.{
  Outside, Context, RelayHandler, Response, custom, strip_brackets, extract_name,
}

-- The payload for one target: its channel if it names one, its recipients if it has some.
unfoldable pub retarget : NewMail → RouteTarget → NewMail
retarget new target = record new {
  transport = if is_empty target.transport then new.transport else some target.transport;
  to = get_or target.recipients new.to;
}

-- The one delivery without active routing.
abbrev pub unrouted : RouteTarget
unrouted = record { transport = []; recipients = none }

abbrev pub rejected_reply : CoreError → Response
rejected_reply e = custom 554 (codes "rejected: " ++ error_text e)

abbrev pub not_permitted_reply : Response
not_permitted_reply = custom 550 (codes "sender not permitted")

-- The reply after the loop.
abbrev pub final_reply : ℕ → Response
final_reply accepted = if accepted == 0 then Response.internal_error else Response.ok

module _ {Ip Net Regex W : Type 0} (o : Outside Ip Net Regex W) (ctx : Context Net Regex) where
  -- An authenticated name goes before one taken from the subject.
  unfoldable pub sender_name : RelayHandler → Text → Option Text
  unfolding extract_name
  sender_name h subject = elim h.authenticated_as [
    | some name ↦ some name
    | none ↦ extract_name o ctx.subject_matcher subject
  ]

  unfoldable pub labelled : RelayHandler → Text → Text
  unfolding sender_name
  labelled h subject = elim (sender_name h subject) [
    | some name ↦ render ctx.subject name subject
    | none ↦ subject
  ]

  unfoldable pub build_new_mail : RelayHandler → Result NewMail CoreError
  unfolding labelled
  build_new_mail h = elim (o.parse_message h.data_bytes) [
    | none ↦ err (invalid_mail (codes "could not parse message"))
    | some parsed ↦ ok (record {
      from = new_address (strip_brackets h.envelope_from);
      to = map (λ r. new_address (strip_brackets r)) h.recipients;
      subject = labelled h (get_or parsed.subject []);
      body = get_or parsed.body_text (o.from_utf8_lossy h.data_bytes);
      transport = none;
    })
  ]

  unfoldable pub route : NewMail → Route
  route new =
      if is_active ctx.routing then resolve ctx.routing new.from.email else deliver (unrouted ∷ [])

  module _ {S : Type 0} (q : Queue S) where
    -- One target: whether a mail was stored, with the queue and the world after it.
    unfoldable pub enqueue_target : NewMail → RouteTarget → S × W → Bool × S × W
    unfolding retarget
    enqueue_target new target (s, w) =
        let time = o.now w in
        let id = o.new_v4 time.1 in
        let stored = q.enqueue (from_new (retarget new target) time.0 id.0) s in
        elim (validate (retarget new target)) [
          | err e ↦ (false, s, w)
          | ok _ ↦ (is_ok stored.0, stored.1, id.1)
        ]

    -- The loop over the targets, with the count `accepted`.
    unfoldable pub enqueue_targets : NewMail → List RouteTarget → ℕ → S × W → ℕ × S × W
    unfolding enqueue_target
    enqueue_targets new [] accepted (s, w) = (accepted, s, w)
    enqueue_targets new (t ∷ ts) accepted (s, w) =
        let r = enqueue_target new t (s, w) in
        enqueue_targets new ts (if r.0 then suc accepted else accepted) (r.1, r.2)

    -- The decision of the routing, carried out.
    unfoldable pub fan_out : NewMail → Route → S × W → Response × S × W
    unfolding enqueue_targets
    fan_out new reject (s, w) = (not_permitted_reply, s, w)
    fan_out new (deliver targets) (s, w) =
        let r = enqueue_targets new targets 0 (s, w) in (final_reply r.0, r.1, r.2)

    -- The handler itself is left as it is.
    unfoldable pub data_end : RelayHandler → S × W → Response × S × W
    unfolding build_new_mail fan_out route
    data_end h (s, w) = elim (build_new_mail h) [
      | err e ↦ (rejected_reply e, s, w)
      | ok new ↦ fan_out new (route new) (s, w)
    ]
